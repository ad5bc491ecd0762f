-- ===== src/EventStore/Store/Reading.antt =====
-- What the readers of the store see of an append.
use turtle_qts_execution.Base.{
  ℕ, ◌≤◌, ◌≡◌, inl, inr, ◌⊎◌, Option, none, some, List, [], ◌∷◌, ◌++◌, Text, ok, arith, leb, keep,
  text_eq, text_eq→eq, ◌==◌, ==→eq, ==-refl, lookup, lookup-insert_self, lookup-insert_cases,
  lookup-insert_at, Option-cases, ap, sym, ◌<◌, ◌≢◌,
}
use turtle_qts_execution.EventStore.Types.{Event}
use turtle_qts_execution.EventStore.Store.{
  EventStore, record_event, replay, get_by_idempotency_key, index_key,
}

keep-append :
    (n : ℕ) (es : List Event) (e : Event)
    → n ≤ e.event_id
    → keep (λ x. leb n x.event_id) (es ++ e ∷ []) ≡ keep (λ x. leb n x.event_id) es ++ e ∷ []
keep-append n [] e h = ground arith
keep-append n (x ∷ es) e h = ground (arith, keep-append n es e h)

-- A replay ends with the event recorded last.
pub replay-record_event :
    (store : EventStore) (e : Event) (n : ℕ) (es : List Event)
    → replay store n ≡ ok es
    → n ≤ e.event_id
    → replay (record_event store e) n ≡ ok (es ++ e ∷ [])
unfolding replay record_event
replay-record_event store e n es r h = ground (arith, keep-append n store.events e h)

index_key-cases :
    (key : Option Text) (k : Text) (i j : ℕ) (d : List (Text × ℕ))
    → lookup text_eq k (index_key key i d) ≡ some j
    → (j ≡ i) ⊎ (lookup text_eq k d ≡ some j)
unfolding index_key
index_key-cases none k i j d h = inr h
index_key-cases (some key) k i j d h = lookup-insert_cases text_eq text_eq→eq k key i j d h

-- An event that a key names after an append is the new one, or the key named it before.
pub get-record_event_cases :
    (store : EventStore) (e old : Event) (k : Text)
    → get_by_idempotency_key (record_event store e) k ≡ some old
    → (old ≡ e) ⊎ (get_by_idempotency_key store k ≡ some old)
unfolding get_by_idempotency_key record_event
get-record_event_cases store e old k h =
    elim (Option-cases
      (lookup text_eq k (index_key e.idempotency_key e.event_id store.idempotency_index))) [
        | inl miss ↦ ground (arith, h, miss)
        | inr (i, hit) ↦ ground (
          arith,
          h,
          hit,
          index_key-cases e.idempotency_key k e.event_id i store.idempotency_index hit,
          lookup-insert_self ◌==◌ e.event_id e store.by_id (==-refl e.event_id),
          lookup-insert_cases ◌==◌ ==→eq i e.event_id e old store.by_id,
        )
      ]

pub index_key-at :
    (key : Option Text) (k : Text) (i j : ℕ) (d : List (Text × ℕ))
    → lookup text_eq k (index_key key i d) ≡ some j
    → ((key ≡ some k) × (j ≡ i)) ⊎ (lookup text_eq k d ≡ some j)
unfolding index_key
index_key-at none k i j d h = inr h
index_key-at (some key) k i j d h = elim (lookup-insert_at text_eq text_eq→eq k key i j d h) [
  | inl (same, new) ↦ inl (ap some (sym same), new)
  | inr before ↦ inr before
]

-- An event under a key that the new event does not have was there before.
pub get-record_event_other :
    (store : EventStore) (e old : Event) (k : Text)
    → ((i : ℕ) → lookup text_eq k store.idempotency_index ≡ some i → i < e.event_id)
    → e.idempotency_key ≢ some k
    → get_by_idempotency_key (record_event store e) k ≡ some old
    → get_by_idempotency_key store k ≡ some old
unfolding get_by_idempotency_key record_event
get-record_event_other store e old k older other h =
    elim (Option-cases
      (lookup text_eq k (index_key e.idempotency_key e.event_id store.idempotency_index))) [
        | inl miss ↦ ground (arith, h, miss)
        | inr (i, hit) ↦
            elim (index_key-at e.idempotency_key k e.event_id i store.idempotency_index hit) [
              | inl (same, _) ↦ absurd (other same)
              | inr before ↦
                  elim (lookup-insert_at ◌==◌ ==→eq i e.event_id e old store.by_id
                    (ground (arith, h, hit))) [
                      | inl (new, _) ↦ absurd (omega (arith, older i before, new))
                      | inr there ↦ ground (arith, before, there)
                    ]
            ]
      ]
