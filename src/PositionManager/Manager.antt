-- ===== src/PositionManager/Manager.antt =====
-- position_manager/manager.py: the methods that create a position and take its entry fills. Each method is one
-- critical section under the lock of its position.
use turtle_qts_execution.Base.{
  max, ◌+◌, not, Option, none, some, ◌++◌, Text, codes, Json, str, Fields, end, field, ok, err,
  value_error, key_error, not_found, illegal_transition, if◌then◌else◌, Decimal, dec, add_dec,
  le_dec, Numerals, numeral, optional_numeral, member,
}
use turtle_qts_execution.EventStore.Platform.{Platform, Disk}
use turtle_qts_execution.EventStore.Store.{EventStore}
use turtle_qts_execution.EventSourcing.{Action, ◌>>=◌, return, raise, reading}
use turtle_qts_execution.EventSourcing.Tracked.{Tracked}
use turtle_qts_execution.ExchangeAdapter.Models.{Symbol, OrderSide, side_value, Fill}
use turtle_qts_execution.PositionManager.States.{
  PositionLifecycleState, PositionLifecycleTrigger, position_lifecycle_states,
}
use turtle_qts_execution.PositionManager.Transitions.{next_state}
use turtle_qts_execution.PositionManager.Notices.{try_transition}
use turtle_qts_execution.PositionManager.Snapshot.{PositionSnapshot}
use turtle_qts_execution.PositionManager.Events.{Book, find}
use turtle_qts_execution.PositionManager.Running.{
  Act, Live, lasting, make_id, is_processed, entry_states, record_action,
}

module _ (n : Numerals) (pm_id : Text) (p : Platform) (disk : EventStore → Disk)
    (now : EventStore → Text) where
  unfoldable pub create_position :
      Symbol
      → OrderSide
      → Decimal
      → Decimal
      → Decimal
      → Decimal
      → Decimal
      → Option Decimal
      → Live (Option PositionSnapshot)
  create_position symbol side intended_quantity stop_price stop_d t1_price t2_price conviction t w =
      if le_dec intended_quantity (dec 0)
      then lasting (raise value_error) t w
      else if le_dec stop_d (dec 0)
      then lasting (raise value_error) t w
      else let seq = max w.0.core.next_seq t.next_seq in
        let position_id = make_id pm_id seq (codes "position") in
        lasting
          (record_action n pm_id p disk now Act.create position_id (some seq) none none none
            (field (codes "symbol") (str symbol.value) (
              field (codes "side") (str (side_value side)) (
                field (codes "intended_quantity") (numeral n intended_quantity) (
                  field (codes "stop_price") (numeral n stop_price) (
                    field (codes "stop_d") (numeral n stop_d) (
                      field (codes "t1_price") (numeral n t1_price) (
                        field (codes "t2_price") (numeral n t2_price)
                          (field (codes "conviction") (optional_numeral n conviction) end))))))))
            position_id)
          (record t { next_seq = seq + 1 }) w

  -- The rest of a method, on the position that it is called for.
  abbrev pub of_position :
      Text → (PositionSnapshot → Live (Option PositionSnapshot)) → Live (Option PositionSnapshot)
  of_position position_id f t w = elim (find position_id w.0.core) [
    | none ↦ lasting (raise not_found) t w
    | some existing ↦ f existing t w
  ]

  -- `{"fill_id": ..., "fill_price": ..., "fill_quantity": ..., "fee": ...}`
  unfoldable pub entry_details : Text → Decimal → Json → Json → Fields
  entry_details fill_id price quantity fee = field (codes "fill_id") (str fill_id) (
      field (codes "fill_price") (numeral n price)
        (field (codes "fill_quantity") quantity (field (codes "fee") fee end)))

  -- Step 1 of an entry fill: NEW to OPEN.
  unfoldable pub open_position : Text → Fill → Action (Tracked Book) (Option PositionSnapshot)
  open_position position_id fill =
      elim (next_state PositionLifecycleState.new PositionLifecycleTrigger.first_fill) [
        | none ↦ raise key_error
        | some to_open ↦
            record_action n pm_id p disk now Act.entry_fill position_id none
              (some PositionLifecycleTrigger.first_fill) (some PositionLifecycleState.new)
              (some to_open)
              (entry_details (fill.fill_id ++ codes ":open") fill.price (str (codes "0"))
                (str (codes "0")))
              (position_id ++ (codes ":open:" ++ fill.fill_id))
      ]

  -- Step 2: the fill's contribution, with the state that the position is in.
  unfoldable pub classify_fill :
      Text
      → Fill
      → PositionSnapshot
      → PositionLifecycleState
      → Action (Tracked Book) (Option PositionSnapshot)
  classify_fill position_id fill existing current =
      let classify_trigger =
        if le_dec existing.intended_quantity (add_dec existing.filled_quantity fill.quantity)
        then PositionLifecycleTrigger.entry_complete
        else PositionLifecycleTrigger.entry_partial in
      elim (try_transition classify_trigger current) [
        | err x ↦ raise x
        | ok none ↦ reading (λ s. return (find position_id s.core))
        | ok (some to_state) ↦
            record_action n pm_id p disk now Act.entry_fill position_id none (some classify_trigger)
              (some current) (some to_state)
              (entry_details fill.fill_id fill.price (numeral n fill.quantity) (numeral n fill.fee))
              (position_id ++ (codes ":entry:" ++ fill.fill_id))
      ]

  unfoldable pub enter :
      Text
      → Fill
      → PositionSnapshot
      → PositionLifecycleState
      → Action (Tracked Book) (Option PositionSnapshot)
  enter position_id fill existing PositionLifecycleState.new =
      open_position position_id fill
      >>= (λ _. classify_fill position_id fill existing PositionLifecycleState.opened)
  enter position_id fill existing current = classify_fill position_id fill existing current

  unfoldable pub record_entry_fill : Text → Fill → Live (Option PositionSnapshot)
  record_entry_fill position_id fill = of_position position_id (λ existing t w.
      if is_processed position_id fill.fill_id w.0.core t
      then lasting (return (some existing)) t w
      else if not (member position_lifecycle_states existing.lifecycle_state entry_states)
      then lasting (raise illegal_transition) t w
      else lasting (enter position_id fill existing existing.lifecycle_state) t w)
