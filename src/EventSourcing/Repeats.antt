-- ===== src/EventSourcing/Repeats.antt =====
-- Requests whose key has an event.
use turtle_qts_execution.Base.{
  ◌≡◌, refl, arith, some, Text, Fields, Outcome, ok, lookup-insert_self, ◌==◌, ==-refl, text_eq,
  text_eq_refl, Option-cases, inl, inr,
}
use turtle_qts_execution.EventStore.Types.{Event, EventType}
use turtle_qts_execution.EventStore.Platform.{Platform, Disk}
use turtle_qts_execution.EventStore.Store.{
  EventStore, record_event, get_by_idempotency_key, index_key, new_event,
}
use turtle_qts_execution.EventStore.Store.Append.{Appended, append-Appended}
use turtle_qts_execution.EventSourcing.{
  Manager, Action, apply, cached_or, persist, persist_and_apply, continue, ◌>>=◌,
}
use turtle_qts_execution.EventSourcing.Soundness.{IsSynced, known-Sound, get-known}

module _ {S R : Type 0} (m : Manager S R) where
  -- The store has an event under the key.
  abbrev pub HasKey : Text → S × EventStore → Type 0
  HasKey key w = (e : Event) × (get_by_idempotency_key w.1 (m.namespaced_key key) ≡ some e)

  -- The action leaves an event under the key wherever it returns.
  abbrev pub Records : Text → Action S R → Type 0
  Records key act = (w : S × EventStore) (a : R) → (act w).0 ≡ ok a → HasKey key (act w).1

  get-recorded :
      (store : EventStore) (e : Event) (k : Text)
      → e.idempotency_key ≡ some k
      → get_by_idempotency_key (record_event store e) k ≡ some e
  unfolding get_by_idempotency_key record_event index_key
  get-recorded store e k h = rw h (
      ground (
        arith,
        lookup-insert_self text_eq k e.event_id store.idempotency_index (text_eq_refl k),
        lookup-insert_self ◌==◌ e.event_id e store.by_id (==-refl e.event_id),
      ))

  outcome-HasKey :
      (p : Platform) (s : S) (store : EventStore) (key : Text) (e : Event)
      (r : Outcome Event × EventStore) (a : R)
      → {disk : Disk} → Appended p disk store e r
      → e.idempotency_key ≡ some (m.namespaced_key key)
      → (continue (r.0, (s, r.1)) (apply m)).0 ≡ ok a
      → HasKey key (continue (r.0, (s, r.1)) (apply m)).1
  unfolding apply get_by_idempotency_key
  outcome-HasKey p s store key e r a (Appended.refused x f eq _) k h = cc (h, eq)
  outcome-HasKey p s store key e r a (Appended.duplicate j i old hk hi ho eq) k h =
      rw eq (old, ground (arith, k, hk, hi, ho))
  outcome-HasKey p s store key e r a (Appended.recorded f eq _ _ _) k h =
      rw eq (e, get-recorded (record store { file = f }) e (m.namespaced_key key) k)

  pub persist_and_apply-Records :
      (p : Platform) (disk : EventStore → Disk) (now : EventStore → Text) (event_type : EventType)
      (payload : Fields) (key : Text)
      → Records key (persist_and_apply m p disk now event_type payload key)
  unfolding persist_and_apply persist ◌>>=◌ new_event
  persist_and_apply-Records p disk now event_type payload key (s, store) a h =
      outcome-HasKey p s store key
        (new_event store (now store) event_type payload (some (m.namespaced_key key))) _ a
        (append-Appended p (disk store) (now store) event_type payload (some (m.namespaced_key key))
          store)
        refl h

  pub cached_or-Records :
      (key : Text) (act : Action S R) → Records key act → Records key (cached_or m key act)
  unfolding cached_or apply
  cached_or-Records key act hr (s, store) a h =
      elim (Option-cases (get_by_idempotency_key store (m.namespaced_key key))) [
        | inl miss ↦ rw (miss, cached_or) (hr (s, store) a (rw (miss, cached_or) at h))
        | inr (e, hit) ↦ rw (hit, cached_or) (e, hit)
      ]

  -- Once there is an event under the key, the method applies it again, which changes nothing.
  pub cached_or-repeats :
      (key : Text) (act : Action S R) (w : S × EventStore)
      → IsSynced m w
      → HasKey key w
      → (a : R) × (cached_or m key act w ≡ (ok a, w))
  unfolding cached_or
  cached_or-repeats key act (s, store) h (e, hit) =
      let (i, there) = get-known m store (m.namespaced_key key) e hit in
      let (a, same) = known-Sound m s store i e h there (h.own_keys key e hit) in
      (a, rw (hit, cached_or) same)
