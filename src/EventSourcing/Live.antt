-- ===== src/EventSourcing/Live.antt =====
-- Methods of a running manager, which has more state than its events determine: what is lost when it stops.
use turtle_qts_execution.Base.{Outcome, ok, err}
use turtle_qts_execution.EventStore.Store.{EventStore}
use turtle_qts_execution.EventSourcing.{Manager, Action}
use turtle_qts_execution.EventSourcing.Soundness.{IsSynced, Sound}
use turtle_qts_execution.Base.{inl, inr, arith}

-- With transient state `T`: the method raises or not, and may have changed the state, the store and the transient
-- state in either case.
abbrev pub Live : Type 0 → Type 0 → Type 0 → Type 0
Live T S A = T → S × EventStore → (Outcome A × (S × EventStore)) × T

module _ {T S : Type 0} where
  -- A method, or a step of one, that leaves the transient state as it is.
  abbrev pub lasting : {A : Type 0} → Action S A → Live T S A
  lasting act t w = (act w, t)

  abbrev go_on :
      {A B : Type 0}
      → (Outcome A × (S × EventStore)) × T
      → (A → Live T S B)
      → (Outcome B × (S × EventStore)) × T
  go_on ((ok a, w), t) f = f a t w
  go_on ((err x, w), t) f = ((err x, w), t)

  infixl 10 ◌>=>◌
  unfoldable pub ◌>=>◌ : {A B : Type 0} → Live T S A → (A → Live T S B) → Live T S B
  (act >=> f) t w = go_on (act t w) f

  -- A step that reads the state.
  abbrev pub looking : {A : Type 0} → (S → Live T S A) → Live T S A
  looking f t w = f w.0 t w

module _ {T S R : Type 0} (m : Manager S R) where
  abbrev pub IsLiveSound : {A : Type 0} → Live T S A → Type 0
  IsLiveSound act = (t : T) (w : S × EventStore) → IsSynced m w → Sound m (act t w).0

  go_on-Sound :
      {A B : Type 0} (r : (Outcome A × (S × EventStore)) × T) (f : A → Live T S B)
      → Sound m r.0
      → ((a : A) → IsLiveSound (f a))
      → Sound m (go_on r f).0
  go_on-Sound ((ok a, w), t) f (inl h) hf = hf a t w h
  go_on-Sound ((ok a, w), t) f (inr (x, e, b)) hf = cc e
  go_on-Sound ((err x, w), t) f (inl h) hf = inl h
  go_on-Sound ((err x, w), t) f (inr (y, e, b)) hf = inr (y, ground (arith, e), b)

  pub >=>-Sound :
      {A B : Type 0} (act : Live T S A) (f : A → Live T S B)
      → IsLiveSound act
      → ((a : A) → IsLiveSound (f a))
      → IsLiveSound (act >=> f)
  unfolding ◌>=>◌
  >=>-Sound act f ha hf t w h = go_on-Sound (act t w) f (ha t w h) hf
