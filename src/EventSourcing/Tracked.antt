-- ===== src/EventSourcing/Tracked.antt =====
-- A manager whose `_apply_event` looks up the event's id in `_applied_event_ids`, adds it, and then does what the
-- event says on the rest of the state.
use turtle_qts_execution.Base.{
  ℕ, ◌≡◌, refl, sym, subst, ap, ◌∙◌, Bool-cases, inl, inr, true, List, [], ◌∷◌, Bool, Text, Outcome,
  ok, if◌then◌else◌,
}
use turtle_qts_execution.EventStore.Types.{Event}
use turtle_qts_execution.EventSourcing.{Manager, has_id, with_id, remembers_id, keeps_ids}

pub record Tracked (C : Type 0) : Type 0 where
  pub applied_event_ids : List ℕ
  pub core : C

module _ {C R : Type 0} (is_own : Event → Bool) (namespaced_key : Text → Text) (initial : C)
    (known_result : Event → C → R) (effect : Event → C → Outcome R × C) where
  -- `_apply_event`, whose `effect` neither reads nor changes the ids
  unfoldable pub apply_tracked : Event → Tracked C → Outcome R × Tracked C
  apply_tracked e t =
      if has_id e.event_id t.applied_event_ids then (ok (known_result e t.core), t) else (
        (effect e t.core).0,
        record { applied_event_ids = e.event_id ∷ t.applied_event_ids; core = (effect e t.core).1 },
      )

  again :
      (e : Event) (t : Tracked C)
      → has_id e.event_id t.applied_event_ids ≡ true
      → (r : R) × (apply_tracked e t ≡ (ok r, t))
  unfolding apply_tracked
  again e t h = (known_result e t.core, rw h refl)

  apply_tracked-ids :
      (e : Event) (t : Tracked C)
      → Tracked.applied_event_ids (apply_tracked e t).1 ≡ with_id e.event_id t.applied_event_ids
  unfolding apply_tracked
  apply_tracked-ids e t = elim (Bool-cases (has_id e.event_id t.applied_event_ids)) [
    | inl h ↦ rw h refl
    | inr h ↦ rw h refl
  ]

  unfoldable pub tracked : Manager (Tracked C) R
  unfolding again apply_tracked-ids
  tracked = record {
    is_own = is_own;
    namespaced_key = namespaced_key;
    initial = record { applied_event_ids = []; core = initial };
    applied_event_ids = λ t. t.applied_event_ids;
    apply_event = apply_tracked;
    again = again;
    remembers = λ e t t' r h.
        remembers_id e.event_id t.applied_event_ids
          (sym (apply_tracked-ids e t) ∙ ap (λ q. q.1.applied_event_ids) h);
    keeps = λ e t t' r i h.
        keeps_ids e.event_id i t.applied_event_ids
          (sym (apply_tracked-ids e t) ∙ ap (λ q. q.1.applied_event_ids) h);
  }

  apply_tracked-keeps :
      (P : C → Type 0)
      → ((e : Event) (c : C) → P c → P (effect e c).1)
      → (e : Event) (t : Tracked C) → P t.core
      → P (apply_tracked e t).1.core
  unfolding apply_tracked
  apply_tracked-keeps P h e t k = elim (Bool-cases (has_id e.event_id t.applied_event_ids)) [
    | inl old ↦ rw old k
    | inr new ↦ rw new (h e t.core k)
  ]

  -- What the effect of every event keeps of the rest of the state.
  pub tracked-keeps :
      (P : C → Type 0)
      → ((e : Event) (c : C) → P c → P (effect e c).1)
      → (e : Event) (t t' : Tracked C) (r : R) → P t.core
      → Manager.apply_event tracked e t ≡ (ok r, t')
      → P t'.core
  unfolding tracked
  tracked-keeps P h e t t' r k eq = subst (λ q. P q.1.core) eq (apply_tracked-keeps P h e t k)
