-- ===== src/PositionManager/Snapshot.antt =====
-- position_manager/snapshot.py: what the engine knows of a position.
use turtle_qts_execution.Base.{Option, Text, Decimal}
use turtle_qts_execution.ExchangeAdapter.Models.{OrderSide, Symbol}
use turtle_qts_execution.PositionManager.States.{PositionLifecycleState}

pub record PositionSnapshot : Type 0 where
  pub position_id : Text
  pub lifecycle_state : PositionLifecycleState
  pub symbol : Symbol
  pub side : OrderSide
  pub intended_quantity : Decimal
  pub filled_quantity : Decimal
  pub remaining_quantity : Decimal
  pub avg_entry_price : Option Decimal
  pub stop_price : Decimal
  pub stop_d : Decimal
  pub t1_price : Decimal
  pub t2_price : Decimal
  pub conviction : Option Decimal
  pub realized_pnl : Decimal
  pub realized_r : Decimal
  pub fees_paid : Decimal
  pub funding_paid : Decimal
  pub created_at_utc : Text
  pub updated_at_utc : Text

pub record ClosedLeg : Type 0 where
  pub position_id : Text
  pub symbol : Text
  pub r : Decimal
  pub pct : Decimal
  pub reason : Text
  pub conv : Option Decimal
  pub entry_at_utc : Text
  pub exit_at_utc : Text
  pub entry_px : Option Decimal
  pub exit_px : Decimal
  pub stop_d : Decimal
  pub quantity : Decimal
  pub fee : Decimal
  pub realized_pnl : Decimal
