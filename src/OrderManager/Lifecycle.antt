-- ===== src/OrderManager/Lifecycle.antt =====
-- The orders that the order manager's `_apply_event` and constructor can give.
use turtle_qts_execution.Base.{
  ◌≡◌, refl, sym, Option, some, Text, text_eq, text_eq→eq, codes, Fields, get, holds, Outcome, ok,
  err, Outcome-cases, Option-cases, inl, inr, Numerals, insert, lookup-insert_at, Run-snoc, Gives,
  bind-Gives, outcome_branches, if_branches, Run, as_text, as_fields_or_empty, as_decimal,
  as_optional_decimal,
}
use turtle_qts_execution.EventStore.Types.{Event}
use turtle_qts_execution.EventSourcing.Lifecycles.{recorded_target, recorded_target-legal, advance}
use turtle_qts_execution.ExchangeAdapter.Models.{
  make_symbol, parse_side, parse_order_type, parse_time_in_force,
}
use turtle_qts_execution.OrderManager.States.{
  OrderLifecycleState, order_lifecycle_states, order_lifecycle_triggers,
}
use turtle_qts_execution.OrderManager.Transitions.{next_state}
use turtle_qts_execution.OrderManager.Snapshot.{OrderSnapshot}
use turtle_qts_execution.OrderManager.Events.{
  Orders, find, fill_processed, snapshot_stored, order_created, new_snapshot, status_updated,
  filled, amended, as_bool, text_or, limit_price_or,
}
use turtle_qts_execution.OrderManager.Effects.{
  store_created, store_updated, apply_details, apply_transition, apply_update, apply_action, effect,
}

-- The snapshot is that of the id, in a state that legal transitions from SUBMITTED lead to.
pub record IsTracked (client_order_id : Text) (p : OrderSnapshot) : Type 0 where
  pub same_id : p.client_order_id ≡ client_order_id
  pub run : Run next_state OrderLifecycleState.submitted p.lifecycle_state

abbrev pub IsOrderly : Orders → Type 0
IsOrderly b =
    (client_order_id : Text) (p : OrderSnapshot)
    → find client_order_id b ≡ some p
    → IsTracked client_order_id p

inserted-IsOrderly :
    (client_order_id : Text) (p : OrderSnapshot) (b c : Orders)
    → IsOrderly b
    → IsTracked client_order_id p
    → c.snapshots ≡ insert text_eq client_order_id p b.snapshots
    → IsOrderly c
inserted-IsOrderly client_order_id p b c h k eq id q hit =
    elim (lookup-insert_at text_eq text_eq→eq id client_order_id p q b.snapshots
      (rw (sym eq) hit)) [ inl (same, new) ↦ rw (same, new) k | inr before ↦ h id q before ]

store_updated-IsOrderly :
    (client_order_id : Text) (b : Orders) (o : Outcome OrderSnapshot)
    → IsOrderly b
    → Gives (IsTracked client_order_id) o
    → IsOrderly (store_updated client_order_id b o).1
unfolding store_updated snapshot_stored Gives
store_updated-IsOrderly client_order_id b (err x) h k = h
store_updated-IsOrderly client_order_id b (ok p) h k =
    inserted-IsOrderly client_order_id p b (snapshot_stored client_order_id p b) h k refl

store_created-IsOrderly :
    (client_order_id : Text) (b : Orders) (o : Outcome OrderSnapshot)
    → IsOrderly b
    → Gives (IsTracked client_order_id) o
    → IsOrderly (store_created client_order_id b o).1
unfolding store_created order_created Gives
store_created-IsOrderly client_order_id b (err x) h k = h
store_created-IsOrderly client_order_id b (ok p) h k =
    inserted-IsOrderly client_order_id p b (order_created client_order_id p b) h k refl

status_updated-IsTracked :
    (client_order_id : Text) (e : Event) (details : Fields) (to_state : OrderLifecycleState)
    (existing : OrderSnapshot)
    → existing.client_order_id ≡ client_order_id
    → Run next_state OrderLifecycleState.submitted to_state
    → Gives (IsTracked client_order_id) (status_updated e details to_state existing)
unfolding status_updated Gives
status_updated-IsTracked client_order_id e details to_state existing h r =
    let P = IsTracked client_order_id in
    bind-Gives P (text_or (get (codes "exchange_order_id") details) existing.exchange_order_id) _
      (λ exchange_order_id.
        bind-Gives P (text_or (get (codes "reject_reason") details) existing.reject_reason) _
          (λ reject_reason. record { same_id = h; run = r }))

module _ (n : Numerals) where
  new_snapshot-IsTracked :
      (client_order_id : Text) (e : Event) (details : Fields)
      → Gives (IsTracked client_order_id) (new_snapshot n client_order_id e details)
  unfolding new_snapshot Gives
  new_snapshot-IsTracked client_order_id e details =
      let P = IsTracked client_order_id in
      bind-Gives P (as_text (get (codes "symbol") details)) _ (λ symbol_text.
        bind-Gives P (make_symbol symbol_text) _ (λ symbol.
          bind-Gives P (as_text (get (codes "side") details)) _ (λ side_text.
            bind-Gives P (parse_side side_text) _ (λ side.
              bind-Gives P (as_text (get (codes "order_type") details)) _ (λ type_text.
                bind-Gives P (parse_order_type type_text) _ (λ order_type.
                  bind-Gives P (as_decimal n (get (codes "quantity") details)) _ (λ quantity.
                    bind-Gives P (as_optional_decimal n (get (codes "limit_price") details)) _
                      (λ limit_price.
                        bind-Gives P (as_text (get (codes "time_in_force") details)) _ (λ tif_text.
                          bind-Gives P (parse_time_in_force tif_text) _ (λ time_in_force.
                            bind-Gives P (as_bool (get (codes "reduce_only") details)) _
                              (λ reduce_only. record { same_id = refl; run = Run.stay _ })))))))))))

  filled-IsTracked :
      (client_order_id : Text) (e : Event) (details : Fields) (to_state : OrderLifecycleState)
      (existing : OrderSnapshot)
      → existing.client_order_id ≡ client_order_id
      → Run next_state OrderLifecycleState.submitted to_state
      → Gives (IsTracked client_order_id) (filled n e details to_state existing)
  unfolding filled Gives
  filled-IsTracked client_order_id e details to_state existing h r =
      bind-Gives (IsTracked client_order_id) (as_decimal n (get (codes "fill_quantity") details)) _
        (λ quantity. record { same_id = h; run = r })

  amended-IsTracked :
      (client_order_id : Text) (e : Event) (details : Fields) (existing : OrderSnapshot)
      → IsTracked client_order_id existing
      → Gives (IsTracked client_order_id) (amended n e details existing)
  unfolding amended Gives
  amended-IsTracked client_order_id e details existing k =
      let P = IsTracked client_order_id in
      bind-Gives P (as_optional_decimal n (get (codes "new_quantity") details)) _ (λ new_quantity.
        bind-Gives P (limit_price_or n (get (codes "new_limit_price") details) existing.limit_price)
          _ (λ limit_price. record { same_id = k.same_id; run = k.run }))

  -- What is shown of the result of a branch.
  abbrev Good : Outcome (Option OrderSnapshot) × Orders → Type 0
  Good r = IsOrderly r.1

  apply_details-IsOrderly :
      (client_order_id : Text) (e : Event) (existing : OrderSnapshot)
      (to_state : OrderLifecycleState) (details : Fields) (b : Orders)
      → IsOrderly b
      → existing.client_order_id ≡ client_order_id
      → Run next_state OrderLifecycleState.submitted to_state
      → Good (apply_details n client_order_id e existing to_state details b)
  unfolding apply_details fill_processed
  apply_details-IsOrderly client_order_id e existing to_state details b h k r =
      if_branches Good (holds (get (codes "action") e.payload) (codes "FILL"))
        (outcome_branches Good (as_text (get (codes "fill_id") details)) (λ x. h)
          (λ fill_id.
            store_updated-IsOrderly client_order_id (fill_processed client_order_id fill_id b) _ h
              (filled-IsTracked client_order_id e details to_state existing k r)))
        (store_updated-IsOrderly client_order_id b _ h
          (status_updated-IsTracked client_order_id e details to_state existing k r))

  apply_transition-IsOrderly :
      (client_order_id : Text) (e : Event) (existing : OrderSnapshot) (b : Orders)
      → IsOrderly b
      → IsTracked client_order_id existing
      → Good (apply_transition n client_order_id e existing b)
  unfolding apply_transition
  apply_transition-IsOrderly client_order_id e existing b h k =
      elim (Outcome-cases (
        recorded_target order_lifecycle_states order_lifecycle_triggers next_state
          existing.lifecycle_state e.payload)) [
            | inr (x, a) ↦ rw (a, apply_transition) h
            | inl (to_state, a) ↦
                let (trigger, legal) =
                  recorded_target-legal order_lifecycle_states order_lifecycle_triggers next_state
                    existing.lifecycle_state e.payload to_state a in
                rw (a, apply_transition)
                  (outcome_branches Good (as_fields_or_empty (get (codes "details") e.payload))
                    (λ x. h)
                    (λ details.
                      apply_details-IsOrderly client_order_id e existing to_state details b h
                        k.same_id (Run-snoc k.run trigger legal)))
          ]

  apply_update-IsOrderly :
      (client_order_id : Text) (e : Event) (existing : OrderSnapshot) (b : Orders)
      → IsOrderly b
      → IsTracked client_order_id existing
      → Good (apply_update n client_order_id e existing b)
  unfolding apply_update
  apply_update-IsOrderly client_order_id e existing b h k =
      if_branches Good _ (apply_transition-IsOrderly client_order_id e existing b h k) (
        if_branches Good (holds (get (codes "action") e.payload) (codes "AMEND"))
          (store_updated-IsOrderly client_order_id b _ h (
            bind-Gives (IsTracked client_order_id)
              (as_fields_or_empty (get (codes "details") e.payload)) _
              (λ details. amended-IsTracked client_order_id e details existing k)))
          h)

  apply_action-IsOrderly :
      (client_order_id : Text) (e : Event) (b : Orders)
      → IsOrderly b
      → Good (apply_action n client_order_id e b)
  unfolding apply_action
  apply_action-IsOrderly client_order_id e b h =
      let created = store_created-IsOrderly client_order_id b _ h (
        bind-Gives (IsTracked client_order_id)
          (as_fields_or_empty (get (codes "details") e.payload)) _
          (λ details. new_snapshot-IsTracked client_order_id e details)) in
      let submits = holds (get (codes "action") e.payload) (codes "SUBMIT") in
      elim (Option-cases (find client_order_id b)) [
        | inl miss ↦
            rw (miss, apply_action) (if_branches Good submits created (if_branches Good _ h h))
        | inr (existing, hit) ↦
            let updated =
              apply_update-IsOrderly client_order_id e existing b h
                (h client_order_id existing hit) in
            rw (hit, apply_action) (if_branches Good submits created (if_branches Good _ h updated))
      ]

  pub effect-IsOrderly : (e : Event) (b : Orders) → IsOrderly b → Good (effect n e b)
  unfolding effect
  effect-IsOrderly e b h =
      outcome_branches Good (as_text (get (codes "client_order_id") e.payload)) (λ x. h)
        (λ client_order_id.
          outcome_branches Good (advance (get (codes "seq") e.payload) b.next_seq) (λ x. h)
            (λ next_seq.
              apply_action-IsOrderly client_order_id e (record b { next_seq = next_seq }) h))
