-- ===== src/PositionManager/Pnl.antt =====
-- position_manager/pnl.py: profit and loss of a closing leg, and the average entry price.
use turtle_qts_execution.Base.{
  ◌||◌, if◌then◌else◌, Option, none, some, Decimal, dec, add_dec, sub_dec, mul_dec, div_dec, le_dec,
  abs_ℤ, ◌==◌, Outcome, ok, err, ◌>>=◌, value_error,
}

unfoldable pub fraction_of_original : Decimal → Decimal → Outcome Decimal
fraction_of_original quantity_closed original =
    if le_dec original (dec 0) then err value_error else div_dec quantity_closed original

unfoldable pub fee_in_r_units : Decimal → Decimal → Decimal → Decimal → Outcome Decimal
fee_in_r_units fee_amount entry_price quantity_closed stop_d =
    let notional = mul_dec entry_price quantity_closed in
    if le_dec entry_price (dec 0) || (le_dec quantity_closed (dec 0) || le_dec stop_d (dec 0))
    then ok (dec 0)
    else if le_dec notional (dec 0)
    then ok (dec 0)
    else div_dec fee_amount notional >>= (λ share. div_dec share stop_d)

unfoldable pub leg_r_multiple :
    Decimal → Decimal → Decimal → Decimal → Decimal → Decimal → Outcome Decimal
leg_r_multiple entry_price exit_price stop_d fraction fee_amount quantity_closed =
    if le_dec entry_price (dec 0) || le_dec stop_d (dec 0)
    then err value_error
    else div_dec exit_price entry_price >>= (λ ratio.
      div_dec (sub_dec ratio (dec 1)) stop_d >>= (λ price_r.
        fee_in_r_units fee_amount entry_price quantity_closed stop_d
        >>= (λ fee_r. ok (sub_dec (mul_dec price_r fraction) fee_r))))

unfoldable pub leg_pct : Decimal → Decimal → Decimal → Outcome Decimal
leg_pct entry_price exit_price fraction =
    if le_dec entry_price (dec 0)
    then err value_error
    else div_dec exit_price entry_price
      >>= (λ ratio. ok (mul_dec (mul_dec (sub_dec ratio (dec 1)) (dec 100)) fraction))

unfoldable pub leg_realized_pnl : Decimal → Decimal → Decimal → Decimal → Decimal
leg_realized_pnl entry_price exit_price quantity_closed fee_amount =
    sub_dec (mul_dec (sub_dec exit_price entry_price) quantity_closed) fee_amount

unfoldable pub unrealized_pnl : Decimal → Decimal → Decimal → Decimal
unrealized_pnl avg_entry_price mark_price remaining_quantity =
    mul_dec (sub_dec mark_price avg_entry_price) remaining_quantity

unfoldable pub weighted_average_price :
    Option Decimal → Decimal → Decimal → Decimal → Outcome Decimal
weighted_average_price none current_qty new_price new_qty = ok new_price
weighted_average_price (some current_avg) current_qty new_price new_qty =
    if abs_ℤ current_qty.units == 0
    then ok new_price
    else div_dec (add_dec (mul_dec current_avg current_qty) (mul_dec new_price new_qty))
        (add_dec current_qty new_qty)
