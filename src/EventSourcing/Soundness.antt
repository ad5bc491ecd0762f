-- ===== src/EventSourcing/Soundness.antt =====
-- The agreement of a manager with the store, call by call.
use turtle_qts_execution.Base.{
  ℕ, ◌≤◌, ◌<◌, ◌≡◌, refl, ◌∙◌, ◌⊎◌, inl, inr, Bool, true, false, some, [], ◌∷◌, Text, Fields,
  Outcome, ok, err, Error, arith, ◌==◌, lookup, lookup-insert_cases, ==→eq, Option-cases,
  if◌then◌else◌, text_eq, bind-ok,
}
use turtle_qts_execution.EventStore.Types.{Event, EventType}
use turtle_qts_execution.EventStore.Platform.{Platform, Disk, File}
use turtle_qts_execution.EventStore.Store.{
  EventStore, record_event, replay, get_by_idempotency_key, new_event,
}
use turtle_qts_execution.EventStore.Store.Append.{Appended, append-Appended}
use turtle_qts_execution.EventStore.Store.Reading.{
  replay-record_event, get-record_event_cases, index_key-at,
}
use turtle_qts_execution.EventSourcing.Replaying.{
  step-cases, replay_own-applied, replay_own-raised, replay_own-append,
}
use turtle_qts_execution.EventSourcing.{
  Manager, Action, has_id, replay_own, rebuild, apply, cached_or, persist, persist_and_apply, ◌>>=◌,
  continue,
}

module _ {S R : Type 0} (m : Manager S R) where
  -- The constructor gives this state from the store; the manager has applied its own events there; no other event
  -- has one of its namespaced keys; and ids are from 1 and below the next one.
  pub record IsSynced (w : S × EventStore) : Type 0 where
    pub rebuilt : rebuild m w.1 ≡ ok w.0
    pub ids_start : 1 ≤ w.1.next_event_id
    pub known :
        (i : ℕ) (e : Event)
        → lookup ◌==◌ i w.1.by_id ≡ some e
        → m.is_own e ≡ true
        → has_id e.event_id (m.applied_event_ids w.0) ≡ true
    pub own_keys :
        (key : Text) (e : Event)
        → get_by_idempotency_key w.1 (m.namespaced_key key) ≡ some e
        → m.is_own e ≡ true
    -- The index of the keys names no event to come.
    pub indexed :
        (key : Text) (i : ℕ)
        → lookup text_eq key w.1.idempotency_index ≡ some i
        → i < w.1.next_event_id

  -- The constructor gives the state that a method leaves, or the method raised and the constructor raises the same.
  abbrev pub Sound : {A : Type 0} → Outcome A × (S × EventStore) → Type 0
  Sound (o, w) = IsSynced w ⊎ ((x : Error) × (o ≡ err x) × (rebuild m w.1 ≡ err x))

  abbrev pub IsSound : {A : Type 0} → Action S A → Type 0
  IsSound act = (w : S × EventStore) → IsSynced w → Sound (act w)

  pub with_file :
      (s : S) (store : EventStore) (f : File)
      → IsSynced (s, store)
      → IsSynced (s, record store { file = f })
  unfolding rebuild replay get_by_idempotency_key
  with_file s store f h = record {
    rebuilt = h.rebuilt;
    ids_start = h.ids_start;
    known = h.known;
    own_keys = h.own_keys;
    indexed = h.indexed;
  }

  pub rebuild-record_event :
      (s : S) (store : EventStore) (e : Event)
      → rebuild m store ≡ ok s
      → 1 ≤ e.event_id
      → rebuild m (record_event store e) ≡ replay_own m (e ∷ []) s
  unfolding rebuild
  rebuild-record_event s store e h l =
      let (es, a, b) = bind-ok (replay store 1) (λ es. replay_own m es m.initial) s h in
      rw (replay-record_event store e 1 es a l) (replay_own-append m es e m.initial s b)

  known-record_event :
      (s s' : S) (store : EventStore) (e : Event) (r : R)
      → IsSynced (s, store)
      → m.apply_event e s ≡ (ok r, s')
      → (i : ℕ) (old : Event) → lookup ◌==◌ i (record_event store e).by_id ≡ some old
      → m.is_own old ≡ true
      → has_id old.event_id (m.applied_event_ids s') ≡ true
  unfolding record_event
  known-record_event s s' store e r h a i old hit own =
      elim (lookup-insert_cases ◌==◌ ==→eq i e.event_id e old store.by_id hit) [
        | inl same ↦ rw same (m.remembers e s s' r a)
        | inr before ↦ m.keeps e s s' r old.event_id a (h.known i old before own)
      ]

  own_keys-record_event :
      (s : S) (store : EventStore) (e : Event)
      → IsSynced (s, store)
      → m.is_own e ≡ true
      → (key : Text) (old : Event)
      → get_by_idempotency_key (record_event store e) (m.namespaced_key key) ≡ some old
      → m.is_own old ≡ true
  own_keys-record_event s store e h own key old hit =
      elim (get-record_event_cases store e old (m.namespaced_key key) hit) [
        | inl same ↦ rw same own
        | inr before ↦ h.own_keys key old before
      ]

  pub indexed-record_event :
      (s : S) (store : EventStore) (e : Event)
      → IsSynced (s, store)
      → e.event_id ≡ store.next_event_id
      → (key : Text) (i : ℕ) → lookup text_eq key (record_event store e).idempotency_index ≡ some i
      → i < (record_event store e).next_event_id
  unfolding record_event
  indexed-record_event s store e h id key i hit =
      elim (index_key-at e.idempotency_key key e.event_id i store.idempotency_index hit) [
        | inl (_, new) ↦ omega (arith, new, id)
        | inr before ↦ omega (arith, h.indexed key i before)
      ]

  recorded-Sound :
      (s : S) (store : EventStore) (e : Event)
      → IsSynced (s, store)
      → m.is_own e ≡ true
      → e.event_id ≡ store.next_event_id
      → Sound (apply m e (s, record_event store e))
  unfolding apply replay_own
  recorded-Sound s store e h own id = elim (step-cases (m.apply_event e s)) [
    | inl (r, s', a) ↦ rw a (
        inl (record {
          rebuilt =
              rebuild-record_event s store e h.rebuilt (rw id h.ids_start)
              ∙ replay_own-applied m e [] s s' r own a;
          ids_start = unfold record_event in omega (arith, h.ids_start);
          known = known-record_event s s' store e r h a;
          own_keys = own_keys-record_event s store e h own;
          indexed = indexed-record_event s store e h id;
        }))
    | inr (x, s', a) ↦ rw a (
        inr (
          x,
          refl,
          rebuild-record_event s store e h.rebuilt (rw id h.ids_start)
              ∙ replay_own-raised m e [] s s' x own a,
        ))
  ]

  -- An event of the manager that the store has already is applied without any change.
  pub known-Sound :
      (s : S) (store : EventStore) (i : ℕ) (e : Event)
      → IsSynced (s, store)
      → lookup ◌==◌ i store.by_id ≡ some e
      → m.is_own e ≡ true
      → (r : R) × (apply m e (s, store) ≡ (ok r, (s, store)))
  unfolding apply
  known-Sound s store i e h hit own =
      let (r, a) = m.again e s (h.known i e hit own) in (r, rw a refl)

  pub get-known :
      (store : EventStore) (key : Text) (e : Event)
      → get_by_idempotency_key store key ≡ some e
      → (i : ℕ) × (lookup ◌==◌ i store.by_id ≡ some e)
  unfolding get_by_idempotency_key
  get-known store key e h = elim (Option-cases (lookup text_eq key store.idempotency_index)) [
    | inl miss ↦ ground (arith, h, miss)
    | inr (i, hit) ↦ (i, ground (arith, h, hit))
  ]

  hit-Sound :
      (s : S) (store : EventStore) (key : Text) (e : Event)
      → IsSynced (s, store)
      → get_by_idempotency_key store (m.namespaced_key key) ≡ some e
      → Sound (apply m e (s, store))
  hit-Sound s store key e h hit =
      let (i, there) = get-known store (m.namespaced_key key) e hit in
      let (r, same) = known-Sound s store i e h there (h.own_keys key e hit) in rw same (inl h)

  pub cached_or-Sound :
      (key : Text) (act : Action S R) → IsSound act → IsSound (cached_or m key act)
  unfolding cached_or
  cached_or-Sound key act sound (s, store) h =
      elim (Option-cases (get_by_idempotency_key store (m.namespaced_key key))) [
        | inl miss ↦ rw (miss, cached_or) (sound (s, store) h)
        | inr (e, hit) ↦ rw (hit, cached_or) (hit-Sound s store key e h hit)
      ]

  outcome-Sound :
      (p : Platform) (s : S) (store : EventStore) (key : Text) (e : Event)
      (r : Outcome Event × EventStore)
      → {disk : Disk} → Appended p disk store e r
      → IsSynced (s, store)
      → m.is_own e ≡ true
      → e.event_id ≡ store.next_event_id
      → e.idempotency_key ≡ some (m.namespaced_key key)
      → Sound (continue (r.0, (s, r.1)) (apply m))
  unfolding get_by_idempotency_key
  outcome-Sound p s store key e r (Appended.refused x f eq _) h own id k =
      rw eq (inl (with_file s store f h))
  outcome-Sound p s store key e r (Appended.duplicate j i old hk hi ho eq) h own id k =
      rw eq (hit-Sound s store key old h (ground (arith, k, hk, hi, ho)))
  outcome-Sound p s store key e r (Appended.recorded f eq _ _ _) h own id k =
      rw eq (recorded-Sound s (record store { file = f }) e (with_file s store f h) own id)

  pub persist_and_apply-Sound :
      (p : Platform) (disk : EventStore → Disk) (now : EventStore → Text) (event_type : EventType)
      (payload : Fields) (key : Text)
      → ((e : Event) → e.payload ≡ payload → m.is_own e ≡ true)
      → IsSound (persist_and_apply m p disk now event_type payload key)
  unfolding persist_and_apply persist ◌>>=◌ new_event
  persist_and_apply-Sound p disk now event_type payload key own (s, store) h =
      let e = new_event store (now store) event_type payload (some (m.namespaced_key key)) in
      outcome-Sound p s store key e _
        (append-Appended p (disk store) (now store) event_type payload (some (m.namespaced_key key))
          store)
        h (own e refl) refl refl

  -- Steps of methods.
  pub unchanged-Sound : {A : Type 0} (o : S → Outcome A) → IsSound (λ w. (o w.0, w))
  unchanged-Sound o w h = inl h

  pub if-Sound :
      {A : Type 0} (b : Bool) {x y : Action S A}
      → IsSound x
      → IsSound y
      → IsSound (if b then x else y)
  if-Sound true hx hy = hx
  if-Sound false hx hy = hy

  continue-Sound :
      {A B : Type 0} (r : Outcome A × (S × EventStore)) (f : A → Action S B)
      → Sound r
      → ((a : A) → IsSound (f a))
      → Sound (continue r f)
  continue-Sound (ok a, w) f (inl h) hf = hf a w h
  continue-Sound (ok a, w) f (inr (x, e, b)) hf = cc e
  continue-Sound (err x, w) f (inl h) hf = inl h
  continue-Sound (err x, w) f (inr (y, e, b)) hf = inr (y, ground (arith, e), b)

  pub >>=-Sound :
      {A B : Type 0} (act : Action S A) (f : A → Action S B)
      → IsSound act
      → ((a : A) → IsSound (f a))
      → IsSound (act >>= f)
  unfolding ◌>>=◌
  >>=-Sound act f ha hf w h = continue-Sound (act w) f (ha w h) hf
