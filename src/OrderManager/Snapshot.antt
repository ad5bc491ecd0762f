-- ===== src/OrderManager/Snapshot.antt =====
-- order_manager/snapshot.py: what the engine knows of an order.
use turtle_qts_execution.Base.{Bool, Option, Text, Decimal}
use turtle_qts_execution.ExchangeAdapter.Models.{OrderSide, OrderType, TimeInForce, Symbol}
use turtle_qts_execution.OrderManager.States.{OrderLifecycleState}

pub record OrderSnapshot : Type 0 where
  pub client_order_id : Text
  pub lifecycle_state : OrderLifecycleState
  pub exchange_order_id : Option Text
  pub symbol : Symbol
  pub side : OrderSide
  pub order_type : OrderType
  pub quantity : Decimal
  pub filled_quantity : Decimal
  pub limit_price : Option Decimal
  pub time_in_force : TimeInForce
  pub reduce_only : Bool
  pub created_at_utc : Text
  pub updated_at_utc : Text
  pub reject_reason : Option Text
