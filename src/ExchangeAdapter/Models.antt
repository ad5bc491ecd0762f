-- ===== src/ExchangeAdapter/Models.antt =====
-- exchange_adapter/models.py: the types that the interface to an exchange is written in.
use turtle_qts_execution.Base.{
  Bool, false, ◌||◌, Option, none, some, is_some, not, ◌&&◌, List, Text, is_blank, Decimal, dec,
  le_dec, Outcome, ok, err, value_error, if◌then◌else◌, codes, text_eq,
}

pub data OrderSide : Type 0 where
  buy sell : OrderSide

pub data OrderType : Type 0 where
  market limit : OrderType

pub data TimeInForce : Type 0 where
  gtc ioc fok post_only : TimeInForce

pub data OrderStatus : Type 0 where
  new acknowledged partially_filled filled cancelled rejected unknown : OrderStatus

pub record Symbol : Type 0 where
  pub value : Text

-- `Symbol(value)`, with the check of `__post_init__`.
unfoldable pub make_symbol : Text → Outcome Symbol
make_symbol value = if is_blank value then err value_error else ok (record { value = value })

pub record ExchangeCapabilities : Type 0 where
  pub supports_reduce_only : Bool
  pub supports_post_only : Bool
  pub supports_ioc : Bool
  pub supports_fok : Bool
  pub supports_market_orders : Bool
  pub supports_limit_orders : Bool
  pub supports_trigger_orders : Bool
  pub supports_partial_fill_notifications : Bool
  pub supports_funding_rate : Bool
  pub supports_cross_margin : Bool
  pub supports_isolated_margin : Bool
  pub extra : List (Text × Bool)

pub record OrderRequest : Type 0 where
  pub client_order_id : Text
  pub symbol : Symbol
  pub side : OrderSide
  pub order_type : OrderType
  pub quantity : Decimal
  pub limit_price : Option Decimal
  pub time_in_force : TimeInForce
  pub reduce_only : Bool

is_bad_price : Option Decimal → Bool
is_bad_price none = false
is_bad_price (some price) = le_dec price (dec 0)

-- `__post_init__`: the request, or ValueError.
unfoldable pub make_order_request : OrderRequest → Outcome OrderRequest
unfolding is_bad_price
make_order_request r =
    if is_blank r.client_order_id
    then err value_error
    else if le_dec r.quantity (dec 0)
    then err value_error
    else if is_bad_price r.limit_price
    then err value_error
    else ok r

pub record AmendRequest : Type 0 where
  pub request_id : Text
  pub exchange_order_id : Text
  pub new_quantity : Option Decimal
  pub new_limit_price : Option Decimal

unfoldable pub make_amend_request : AmendRequest → Outcome AmendRequest
make_amend_request r =
    if is_blank r.request_id
    then err value_error
    else if is_blank r.exchange_order_id
    then err value_error
    else if not (is_some r.new_quantity) && not (is_some r.new_limit_price)
    then err value_error
    else ok r

pub record CancelRequest : Type 0 where
  pub request_id : Text
  pub exchange_order_id : Text

unfoldable pub make_cancel_request : CancelRequest → Outcome CancelRequest
make_cancel_request r =
    if is_blank r.request_id || is_blank r.exchange_order_id then err value_error else ok r

pub record CancelAllRequest : Type 0 where
  pub request_id : Text
  pub symbol : Option Symbol

unfoldable pub make_cancel_all_request : CancelAllRequest → Outcome CancelAllRequest
make_cancel_all_request r = if is_blank r.request_id then err value_error else ok r

pub record Order : Type 0 where
  pub client_order_id : Text
  pub exchange_order_id : Option Text
  pub symbol : Symbol
  pub side : OrderSide
  pub order_type : OrderType
  pub quantity : Decimal
  pub filled_quantity : Decimal
  pub limit_price : Option Decimal
  pub status : OrderStatus
  pub time_in_force : TimeInForce
  pub reduce_only : Bool
  pub created_at_utc : Text
  pub updated_at_utc : Text

pub record Fill : Type 0 where
  pub fill_id : Text
  pub client_order_id : Text
  pub exchange_order_id : Text
  pub symbol : Symbol
  pub side : OrderSide
  pub price : Decimal
  pub quantity : Decimal
  pub fee : Decimal
  pub timestamp_utc : Text

pub record Position : Type 0 where
  pub symbol : Symbol
  pub quantity : Decimal
  pub entry_price : Decimal
  pub mark_price : Decimal
  pub unrealized_pnl : Decimal
  pub liquidation_price : Option Decimal

pub record Balance : Type 0 where
  pub asset : Symbol
  pub total : Decimal
  pub available : Decimal
  pub reserved : Decimal

pub record MarkPrice : Type 0 where
  pub symbol : Symbol
  pub price : Decimal
  pub timestamp_utc : Text

-- The string values of the enumerations, and `OrderSide(value)` etc., which raise ValueError.
abbrev pub side_value : OrderSide → Text
side_value OrderSide.buy = codes "BUY"
side_value OrderSide.sell = codes "SELL"

unfoldable pub parse_side : Text → Outcome OrderSide
parse_side t =
    if text_eq t (codes "BUY")
    then ok OrderSide.buy
    else if text_eq t (codes "SELL")
    then ok OrderSide.sell
    else err value_error

abbrev pub order_type_value : OrderType → Text
order_type_value OrderType.market = codes "MARKET"
order_type_value OrderType.limit = codes "LIMIT"

unfoldable pub parse_order_type : Text → Outcome OrderType
parse_order_type t =
    if text_eq t (codes "MARKET")
    then ok OrderType.market
    else if text_eq t (codes "LIMIT")
    then ok OrderType.limit
    else err value_error

abbrev pub time_in_force_value : TimeInForce → Text
time_in_force_value TimeInForce.gtc = codes "GTC"
time_in_force_value TimeInForce.ioc = codes "IOC"
time_in_force_value TimeInForce.fok = codes "FOK"
time_in_force_value TimeInForce.post_only = codes "POST_ONLY"

unfoldable pub parse_time_in_force : Text → Outcome TimeInForce
parse_time_in_force t =
    if text_eq t (codes "GTC")
    then ok TimeInForce.gtc
    else if text_eq t (codes "IOC")
    then ok TimeInForce.ioc
    else if text_eq t (codes "FOK")
    then ok TimeInForce.fok
    else if text_eq t (codes "POST_ONLY")
    then ok TimeInForce.post_only
    else err value_error
