-- ===== src/EventSourcing.antt =====
-- What the order, position and portfolio managers have in common: the state of a manager is what the events that
-- it wrote to the shared store give, applied in order by its `_apply_event`. The constructor applies those of the
-- store; a method appends an event by `_persist` and applies the event that the store returns, which for a known
-- idempotency key is the earlier one.
pub mod Replaying
pub mod Soundness
pub mod Tracked
pub mod Lifecycles
pub mod Invariants
pub mod Sharing
pub mod Live
pub mod Repeats
use turtle_qts_execution.Base.{
  ℕ, ◌≡◌, Bool, true, false, Option, none, some, List, [], ◌∷◌, Text, Fields, Outcome, ok, err,
  Error, bind, ◌==◌, Bool-cases, inl, inr, arith, if◌then◌else◌,
}
use turtle_qts_execution.EventStore.Types.{Event, EventType}
use turtle_qts_execution.EventStore.Platform.{Platform, Disk}
use turtle_qts_execution.EventStore.Store.{EventStore, append, get_by_idempotency_key, replay}

-- `i in applied_event_ids`
abbrev pub has_id : ℕ → List ℕ → Bool
has_id i [] = false
has_id i (j ∷ js) = if i == j then true else has_id i js

-- The ids after an event that is applied once.
abbrev pub with_id : ℕ → List ℕ → List ℕ
with_id i is = if has_id i is then is else i ∷ is

pub remembers_id : (i : ℕ) (is : List ℕ) {js : List ℕ} → with_id i is ≡ js → has_id i js ≡ true
remembers_id i is h = elim (Bool-cases (has_id i is)) [
  | inl old ↦ ground (arith, h, old)
  | inr new ↦ ground (arith, h, new)
]

pub keeps_ids :
    (j i : ℕ) (is : List ℕ) {js : List ℕ}
    → with_id j is ≡ js
    → has_id i is ≡ true
    → has_id i js ≡ true
keeps_ids j i is h k = elim (Bool-cases (has_id j is)) [
  | inl old ↦ ground (arith, h, old, k)
  | inr new ↦ ground (arith, h, new, k)
]

-- A manager with state `S` whose `_apply_event` returns an `R`: it raises or not, and may have changed the state
-- in either case.
pub record Manager (S R : Type 0) : Type 0 where
  pub is_own : Event → Bool
  pub namespaced_key : Text → Text
  pub initial : S
  pub applied_event_ids : S → List ℕ
  pub apply_event : Event → S → Outcome R × S
  -- An event that is applied already changes nothing.
  pub again :
      (e : Event) (s : S)
      → has_id e.event_id (applied_event_ids s) ≡ true
      → (r : R) × (apply_event e s ≡ (ok r, s))
  -- One that is applied is remembered.
  pub remembers :
      (e : Event) (s s' : S) (r : R)
      → apply_event e s ≡ (ok r, s')
      → has_id e.event_id (applied_event_ids s') ≡ true
  pub keeps :
      (e : Event) (s s' : S) (r : R) (i : ℕ)
      → apply_event e s ≡ (ok r, s')
      → has_id i (applied_event_ids s) ≡ true
      → has_id i (applied_event_ids s') ≡ true

after_apply : {S R : Type 0} → Outcome R × S → (S → Outcome S) → Outcome S
after_apply (ok r, s) f = f s
after_apply (err x, s) f = err x

-- A method of a manager, on its state and the store; it raises or not, and may have changed both.
abbrev pub Action : Type 0 → Type 0 → Type 0
Action S A = S × EventStore → Outcome A × (S × EventStore)

module _ {S : Type 0} where
  abbrev pub continue :
      {A B : Type 0}
      → Outcome A × (S × EventStore)
      → (A → Action S B)
      → Outcome B × (S × EventStore)
  continue (ok a, w) f = f a w
  continue (err x, w) f = (err x, w)

  infixl 10 ◌>>=◌
  unfoldable pub ◌>>=◌ : {A B : Type 0} → Action S A → (A → Action S B) → Action S B
  (act >>= f) w = continue (act w) f

  abbrev pub return : {A : Type 0} → A → Action S A
  return a w = (ok a, w)

  abbrev pub raise : {A : Type 0} → Error → Action S A
  raise x w = (err x, w)

  abbrev pub of_outcome : {A : Type 0} → Outcome A → Action S A
  of_outcome o w = (o, w)

  -- What a method reads of the manager's state.
  abbrev pub reading : {A : Type 0} → (S → Action S A) → Action S A
  reading f w = f w.0 w

module _ {S R : Type 0} (m : Manager S R) where
  -- The loop of the constructor, on the state so far.
  unfoldable pub replay_own : List Event → S → Outcome S
  unfolding after_apply
  replay_own [] s = ok s
  replay_own (e ∷ es) s = elim (m.is_own e) [
    | false ↦ replay_own es s
    | true ↦ after_apply (m.apply_event e s) (λ s'. replay_own es s')
  ]

  -- The state that the constructor gives.
  unfoldable pub rebuild : EventStore → Outcome S
  unfolding replay_own
  rebuild store = bind (replay store 1) (λ es. replay_own es m.initial)

  unfoldable pub apply : Event → Action S R
  apply e (s, store) = let (r, s') = m.apply_event e s in (r, (s', store))

  -- `_get_cached` of the portfolio manager, and what it is used for: an event under the key is applied, and the
  -- method goes on only where there is none.
  unfoldable pub cached_or : Text → Action S R → Action S R
  unfolding apply
  cached_or key act (s, store) = elim (get_by_idempotency_key store (m.namespaced_key key)) [
    | some e ↦ apply e (s, store)
    | none ↦ act (s, store)
  ]

  -- What the disk does and what the clock shows may differ from one append to the next.
  module _ (p : Platform) (disk : EventStore → Disk) (now : EventStore → Text) where
    -- `_persist`
    unfoldable pub persist : EventType → Fields → Text → Action S Event
    persist event_type payload key (s, store) =
        let (r, store') =
          append p (disk store) (now store) event_type payload (some (m.namespaced_key key))
            store in
        (r, (s, store'))

    -- `_apply_event(_persist(...))`
    unfoldable pub persist_and_apply : EventType → Fields → Text → Action S R
    unfolding ◌>>=◌ persist apply
    persist_and_apply event_type payload key = persist event_type payload key >>= apply
