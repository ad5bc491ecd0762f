-- ===== src/PositionManager/Effects.antt =====
-- position_manager/manager.py, `_apply_event`: the branches, on the state that the events so far have given.
use turtle_qts_execution.Base.{
  ◌||◌, Option, none, some, Text, codes, Fields, get, holds, Outcome, ok, err, ◌>>=◌, if◌then◌else◌,
  add_dec, sub_dec, Numerals, as_text, as_decimal, as_fields, as_fields_or_empty, replay_integrity,
}
use turtle_qts_execution.EventStore.Types.{Event}
use turtle_qts_execution.EventSourcing.{Manager}
use turtle_qts_execution.EventSourcing.Tracked.{Tracked, tracked}
use turtle_qts_execution.EventSourcing.Lifecycles.{advance, recorded_target}
use turtle_qts_execution.PositionManager.States.{
  PositionLifecycleState, position_lifecycle_states, position_lifecycle_triggers,
}
use turtle_qts_execution.PositionManager.Transitions.{next_state}
use turtle_qts_execution.PositionManager.Snapshot.{PositionSnapshot, ClosedLeg}
use turtle_qts_execution.PositionManager.Events.{
  Book, find, fill_processed, snapshot_stored, leg_closed, position_created, new_snapshot, entered,
  closing_leg, is_own_event, namespaced_key, empty_book,
}

-- `updated` of the EXIT branch.
unfoldable pub exited :
    Event → ClosedLeg → PositionLifecycleState → PositionSnapshot → PositionSnapshot
exited e leg to_state existing = record existing {
  lifecycle_state = to_state;
  remaining_quantity = sub_dec existing.remaining_quantity leg.quantity;
  realized_pnl = add_dec existing.realized_pnl leg.realized_pnl;
  realized_r = add_dec existing.realized_r leg.r;
  fees_paid = add_dec existing.fees_paid leg.fee;
  updated_at_utc = e.timestamp_utc;
}

-- `updated` of the branch for transitions without a fill.
unfoldable pub moved : Event → PositionLifecycleState → PositionSnapshot → PositionSnapshot
moved e to_state existing = record existing {
  lifecycle_state = to_state;
  updated_at_utc = e.timestamp_utc;
}

-- The end of a branch: the updated snapshot is stored, unless its computation raised.
unfoldable pub store_updated :
    Text → Book → Outcome PositionSnapshot → Outcome (Option PositionSnapshot) × Book
store_updated position_id b (err x) = (err x, b)
store_updated position_id b (ok p) = (ok (some p), snapshot_stored position_id p b)

-- The same for a new position.
unfoldable pub store_created :
    Text → Book → Outcome PositionSnapshot → Outcome (Option PositionSnapshot) × Book
store_created position_id b (err x) = (err x, b)
store_created position_id b (ok p) = (ok (some p), position_created position_id p b)

-- The same for an exit, which first adds the leg to the closed ones.
unfoldable pub store_exited :
    Text
    → Event
    → PositionLifecycleState
    → PositionSnapshot
    → Book
    → Outcome ClosedLeg
    → Outcome (Option PositionSnapshot) × Book
store_exited position_id e to_state existing b (err x) = (err x, b)
store_exited position_id e to_state existing b (ok leg) =
    store_updated position_id (leg_closed position_id leg b) (ok (exited e leg to_state existing))

module _ (n : Numerals) where
  -- CREATE
  unfoldable pub apply_create : Text → Event → Book → Outcome (Option PositionSnapshot) × Book
  apply_create position_id e b = store_created position_id b (
      as_fields (get (codes "details") e.payload)
      >>= (λ details. new_snapshot n position_id e details))

  -- ENTRY_FILL, EXIT, BREAKEVEN, COMPLETE_CLOSE and ARCHIVE, once the recorded transition is checked. A fill counts
  -- as processed also where a later field of the payload cannot be read.
  unfoldable pub apply_details :
      Text
      → Event
      → PositionSnapshot
      → PositionLifecycleState
      → Fields
      → Book
      → Outcome (Option PositionSnapshot) × Book
  apply_details position_id e existing to_state details b =
      if holds (get (codes "action") e.payload) (codes "ENTRY_FILL")
      then elim (as_text (get (codes "fill_id") details)) [
        | err x ↦ (err x, b)
        | ok fill_id ↦
            store_updated position_id (fill_processed position_id fill_id b)
              (entered n e details to_state existing)
      ]
      else if holds (get (codes "action") e.payload) (codes "EXIT")
      then elim (as_text (get (codes "fill_id") details)) [
        | err x ↦ (err x, b)
        | ok fill_id ↦
            store_exited position_id e to_state existing (fill_processed position_id fill_id b)
              (closing_leg n position_id e details existing)
      ]
      else store_updated position_id b (ok (moved e to_state existing))

  unfoldable pub apply_transition :
      Text → Event → PositionSnapshot → Book → Outcome (Option PositionSnapshot) × Book
  apply_transition position_id e existing b =
      elim (recorded_target position_lifecycle_states position_lifecycle_triggers next_state
        existing.lifecycle_state e.payload) [
          | err x ↦ (err x, b)
          | ok to_state ↦ elim (as_fields_or_empty (get (codes "details") e.payload)) [
            | err x ↦ (err x, b)
            | ok details ↦ apply_details position_id e existing to_state details b
          ]
        ]

  -- FUNDING
  unfoldable pub apply_funding_event :
      Text → Event → PositionSnapshot → Book → Outcome (Option PositionSnapshot) × Book
  apply_funding_event position_id e existing b = store_updated position_id b (
      as_fields_or_empty (get (codes "details") e.payload) >>= (λ details.
        as_decimal n (get (codes "amount") details) >>= (λ amount. ok (record existing {
          funding_paid = add_dec existing.funding_paid amount;
          updated_at_utc = e.timestamp_utc;
        }))))

  -- An event of a position that there is.
  unfoldable pub apply_update :
      Text → Event → PositionSnapshot → Book → Outcome (Option PositionSnapshot) × Book
  apply_update position_id e existing b =
      let action = get (codes "action") e.payload in
      if holds action (codes "ENTRY_FILL")
        || (holds action (codes "EXIT")
            || (holds action (codes "BREAKEVEN")
                || (holds action (codes "COMPLETE_CLOSE") || holds action (codes "ARCHIVE"))))
      then apply_transition position_id e existing b
      else if holds action (codes "FUNDING")
      then apply_funding_event position_id e existing b
      else (err replay_integrity, b)

  unfoldable pub apply_action : Text → Event → Book → Outcome (Option PositionSnapshot) × Book
  apply_action position_id e b =
      if holds (get (codes "action") e.payload) (codes "CREATE")
      then apply_create position_id e b
      else elim (find position_id b) [
        | none ↦ (err replay_integrity, b)
        | some existing ↦ apply_update position_id e existing b
      ]

  -- The body of `_apply_event` for an event that is not applied yet.
  unfoldable pub effect : Event → Book → Outcome (Option PositionSnapshot) × Book
  effect e b = elim (as_text (get (codes "position_id") e.payload)) [
    | err x ↦ (err x, b)
    | ok position_id ↦ elim (advance (get (codes "seq") e.payload) b.next_seq) [
      | err x ↦ (err x, b)
      | ok next_seq ↦ apply_action position_id e (record b { next_seq = next_seq })
    ]
  ]

  -- `_snapshots.get(event.payload.get("position_id"))`
  unfoldable pub known_snapshot : Event → Book → Option PositionSnapshot
  known_snapshot e b = elim (as_text (get (codes "position_id") e.payload)) [
    | err x ↦ none
    | ok position_id ↦ find position_id b
  ]

  -- The position manager with this id.
  abbrev pub positions : Text → Manager (Tracked Book) (Option PositionSnapshot)
  positions pm_id =
      tracked (is_own_event pm_id) (namespaced_key pm_id) empty_book (known_snapshot) effect
