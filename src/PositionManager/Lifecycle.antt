-- ===== src/PositionManager/Lifecycle.antt =====
-- The positions that the position manager's `_apply_event` and constructor can give.
use turtle_qts_execution.Base.{
  ◌≡◌, refl, sym, Option, some, Text, text_eq, text_eq→eq, codes, Fields, get, holds, Outcome, ok,
  err, Outcome-cases, Option-cases, inl, inr, bind, Numerals, insert, lookup-insert_at, Run-snoc,
  Gives, bind-Gives, outcome_branches, if_branches, Run, as_text, as_fields, as_fields_or_empty,
  as_decimal, as_optional_decimal, as_decimal_or_zero,
}
use turtle_qts_execution.EventStore.Types.{Event}
use turtle_qts_execution.EventSourcing.Lifecycles.{recorded_target, recorded_target-legal, advance}
use turtle_qts_execution.ExchangeAdapter.Models.{make_symbol, parse_side}
use turtle_qts_execution.PositionManager.States.{
  PositionLifecycleState, position_lifecycle_states, position_lifecycle_triggers,
}
use turtle_qts_execution.PositionManager.Transitions.{next_state}
use turtle_qts_execution.PositionManager.Snapshot.{PositionSnapshot, ClosedLeg}
use turtle_qts_execution.PositionManager.Events.{
  Book, find, fill_processed, snapshot_stored, leg_closed, position_created, new_snapshot, entered,
  closing_leg,
}
use turtle_qts_execution.PositionManager.Pnl.{weighted_average_price}
use turtle_qts_execution.PositionManager.Effects.{
  exited, moved, store_created, store_updated, store_exited, apply_create, apply_details,
  apply_transition, apply_funding_event, apply_update, apply_action, effect,
}

-- The snapshot is that of the id, in a state that legal transitions from NEW lead to.
pub record IsTracked (position_id : Text) (p : PositionSnapshot) : Type 0 where
  pub same_id : p.position_id ≡ position_id
  pub run : Run next_state PositionLifecycleState.new p.lifecycle_state

abbrev pub IsWellFormed : Book → Type 0
IsWellFormed b =
    (position_id : Text) (p : PositionSnapshot)
    → find position_id b ≡ some p
    → IsTracked position_id p

inserted-IsWellFormed :
    (position_id : Text) (p : PositionSnapshot) (b c : Book)
    → IsWellFormed b
    → IsTracked position_id p
    → c.snapshots ≡ insert text_eq position_id p b.snapshots
    → IsWellFormed c
inserted-IsWellFormed position_id p b c h k eq id q hit =
    elim (lookup-insert_at text_eq text_eq→eq id position_id p q b.snapshots (rw (sym eq) hit)) [
      | inl (same, new) ↦ rw (same, new) k
      | inr before ↦ h id q before
    ]

store_updated-IsWellFormed :
    (position_id : Text) (b : Book) (o : Outcome PositionSnapshot)
    → IsWellFormed b
    → Gives (IsTracked position_id) o
    → IsWellFormed (store_updated position_id b o).1
unfolding store_updated snapshot_stored Gives
store_updated-IsWellFormed position_id b (err x) h k = h
store_updated-IsWellFormed position_id b (ok p) h k =
    inserted-IsWellFormed position_id p b (snapshot_stored position_id p b) h k refl

store_exited-IsWellFormed :
    (position_id : Text) (e : Event) (to_state : PositionLifecycleState)
    (existing : PositionSnapshot) (b : Book) (o : Outcome ClosedLeg)
    → IsWellFormed b
    → existing.position_id ≡ position_id
    → Run next_state PositionLifecycleState.new to_state
    → IsWellFormed (store_exited position_id e to_state existing b o).1
unfolding store_exited leg_closed exited Gives
store_exited-IsWellFormed position_id e to_state existing b (err x) h k r = h
store_exited-IsWellFormed position_id e to_state existing b (ok leg) h k r =
    store_updated-IsWellFormed position_id (leg_closed position_id leg b)
      (ok (exited e leg to_state existing)) h (record { same_id = k; run = r })

store_created-IsWellFormed :
    (position_id : Text) (b : Book) (o : Outcome PositionSnapshot)
    → IsWellFormed b
    → Gives (IsTracked position_id) o
    → IsWellFormed (store_created position_id b o).1
unfolding store_created position_created Gives
store_created-IsWellFormed position_id b (err x) h k = h
store_created-IsWellFormed position_id b (ok p) h k =
    inserted-IsWellFormed position_id p b (position_created position_id p b) h k refl

module _ (n : Numerals) where
  new_snapshot-IsTracked :
      (position_id : Text) (e : Event) (details : Fields)
      → Gives (IsTracked position_id) (new_snapshot n position_id e details)
  unfolding new_snapshot Gives
  new_snapshot-IsTracked position_id e details =
      let P = IsTracked position_id in
      bind-Gives P (as_text (get (codes "symbol") details)) _ (λ symbol_text.
        bind-Gives P (make_symbol symbol_text) _ (λ symbol.
          bind-Gives P (as_text (get (codes "side") details)) _ (λ side_text.
            bind-Gives P (parse_side side_text) _ (λ side.
              bind-Gives P (as_decimal n (get (codes "intended_quantity") details)) _
                (λ intended_quantity.
                  bind-Gives P (as_decimal n (get (codes "stop_price") details)) _ (λ stop_price.
                    bind-Gives P (as_decimal n (get (codes "stop_d") details)) _ (λ stop_d.
                      bind-Gives P (as_decimal n (get (codes "t1_price") details)) _ (λ t1_price.
                        bind-Gives P (as_decimal n (get (codes "t2_price") details)) _ (λ t2_price.
                          bind-Gives P (as_optional_decimal n (get (codes "conviction") details)) _
                            (λ conviction. record { same_id = refl; run = Run.stay _ }))))))))))

  entered-IsTracked :
      (position_id : Text) (e : Event) (details : Fields) (to_state : PositionLifecycleState)
      (existing : PositionSnapshot)
      → existing.position_id ≡ position_id
      → Run next_state PositionLifecycleState.new to_state
      → Gives (IsTracked position_id) (entered n e details to_state existing)
  unfolding entered Gives
  entered-IsTracked position_id e details to_state existing h r =
      let P = IsTracked position_id in
      bind-Gives P (as_decimal n (get (codes "fill_price") details)) _ (λ price.
        bind-Gives P (as_decimal n (get (codes "fill_quantity") details)) _ (λ quantity.
          bind-Gives P
            (weighted_average_price existing.avg_entry_price existing.filled_quantity price
              quantity)
            _
            (λ new_avg.
              bind-Gives P (as_decimal_or_zero n (get (codes "fee") details)) _
                (λ fee. record { same_id = h; run = r }))))

  -- What is shown of the result of a branch.
  abbrev Good : Outcome (Option PositionSnapshot) × Book → Type 0
  Good r = IsWellFormed r.1

  apply_create-IsWellFormed :
      (position_id : Text) (e : Event) (b : Book)
      → IsWellFormed b
      → Good (apply_create n position_id e b)
  unfolding apply_create position_created Gives
  apply_create-IsWellFormed position_id e b h =
      let o = as_fields (get (codes "details") e.payload) in
      store_created-IsWellFormed position_id b
        (bind o (λ details. new_snapshot n position_id e details)) h
        (bind-Gives (IsTracked position_id) o _
          (λ details. new_snapshot-IsTracked position_id e details))

  apply_details-IsWellFormed :
      (position_id : Text) (e : Event) (existing : PositionSnapshot)
      (to_state : PositionLifecycleState) (details : Fields) (b : Book)
      → IsWellFormed b
      → existing.position_id ≡ position_id
      → Run next_state PositionLifecycleState.new to_state
      → Good (apply_details n position_id e existing to_state details b)
  unfolding apply_details fill_processed moved Gives
  apply_details-IsWellFormed position_id e existing to_state details b h k r =
      if_branches Good (holds (get (codes "action") e.payload) (codes "ENTRY_FILL"))
        (outcome_branches Good (as_text (get (codes "fill_id") details)) (λ x. h)
          (λ fill_id.
            store_updated-IsWellFormed position_id (fill_processed position_id fill_id b) _ h
              (entered-IsTracked position_id e details to_state existing k r)))
        (if_branches Good (holds (get (codes "action") e.payload) (codes "EXIT"))
          (outcome_branches Good (as_text (get (codes "fill_id") details)) (λ x. h)
            (λ fill_id.
              store_exited-IsWellFormed position_id e to_state existing
                (fill_processed position_id fill_id b)
                (closing_leg n position_id e details existing) h k r))
          (store_updated-IsWellFormed position_id b (ok (moved e to_state existing)) h
            (record { same_id = k; run = r })))

  apply_transition-IsWellFormed :
      (position_id : Text) (e : Event) (existing : PositionSnapshot) (b : Book)
      → IsWellFormed b
      → IsTracked position_id existing
      → Good (apply_transition n position_id e existing b)
  unfolding apply_transition
  apply_transition-IsWellFormed position_id e existing b h k =
      elim (Outcome-cases (
        recorded_target position_lifecycle_states position_lifecycle_triggers next_state
          existing.lifecycle_state e.payload)) [
            | inr (x, a) ↦ rw (a, apply_transition) h
            | inl (to_state, a) ↦
                let (trigger, legal) =
                  recorded_target-legal position_lifecycle_states position_lifecycle_triggers
                    next_state existing.lifecycle_state e.payload to_state a in
                rw (a, apply_transition)
                  (outcome_branches Good (as_fields_or_empty (get (codes "details") e.payload))
                    (λ x. h)
                    (λ details.
                      apply_details-IsWellFormed position_id e existing to_state details b h
                        k.same_id (Run-snoc k.run trigger legal)))
          ]

  apply_funding_event-IsWellFormed :
      (position_id : Text) (e : Event) (existing : PositionSnapshot) (b : Book)
      → IsWellFormed b
      → IsTracked position_id existing
      → Good (apply_funding_event n position_id e existing b)
  unfolding apply_funding_event Gives
  apply_funding_event-IsWellFormed position_id e existing b h k =
      let P = IsTracked position_id in
      store_updated-IsWellFormed position_id b _ h (
        bind-Gives P (as_fields_or_empty (get (codes "details") e.payload)) _ (λ details.
          bind-Gives P (as_decimal n (get (codes "amount") details)) _
            (λ amount. record { same_id = k.same_id; run = k.run })))

  apply_update-IsWellFormed :
      (position_id : Text) (e : Event) (existing : PositionSnapshot) (b : Book)
      → IsWellFormed b
      → IsTracked position_id existing
      → Good (apply_update n position_id e existing b)
  unfolding apply_update
  apply_update-IsWellFormed position_id e existing b h k =
      if_branches Good _ (apply_transition-IsWellFormed position_id e existing b h k) (
        if_branches Good (holds (get (codes "action") e.payload) (codes "FUNDING"))
          (apply_funding_event-IsWellFormed position_id e existing b h k) h)

  apply_action-IsWellFormed :
      (position_id : Text) (e : Event) (b : Book)
      → IsWellFormed b
      → Good (apply_action n position_id e b)
  unfolding apply_action
  apply_action-IsWellFormed position_id e b h =
      if_branches Good (holds (get (codes "action") e.payload) (codes "CREATE"))
        (apply_create-IsWellFormed position_id e b h)
        (elim (Option-cases (find position_id b)) [
          | inl miss ↦ rw miss h
          | inr (existing, hit) ↦
              rw hit
                (apply_update-IsWellFormed position_id e existing b h (h position_id existing hit))
        ])

  pub effect-IsWellFormed : (e : Event) (b : Book) → IsWellFormed b → Good (effect n e b)
  unfolding effect
  effect-IsWellFormed e b h =
      outcome_branches Good (as_text (get (codes "position_id") e.payload)) (λ x. h)
        (λ position_id.
          outcome_branches Good (advance (get (codes "seq") e.payload) b.next_seq) (λ x. h)
            (λ next_seq.
              apply_action-IsWellFormed position_id e (record b { next_seq = next_seq }) h))
