-- ===== src/EventSourcing/Replaying.antt =====
-- The constructor's loop over the events of the store, one event after the other.
use turtle_qts_execution.Base.{
  ◌≡◌, refl, sym, ◌∙◌, ◌⊎◌, inl, inr, true, false, List, [], ◌∷◌, ◌++◌, Outcome, ok, err, Error,
  arith, Bool-cases,
}
use turtle_qts_execution.EventStore.Types.{Event}
use turtle_qts_execution.EventSourcing.{Manager, after_apply, replay_own}

pub step-cases :
    {S R : Type 0} (r : Outcome R × S)
    → ((a : R) × (s : S) × (r ≡ (ok a, s))) ⊎ ((x : Error) × (s : S) × (r ≡ (err x, s)))
step-cases (ok a, s) = inl (a, s, refl)
step-cases (err x, s) = inr (x, s, refl)

module _ {S R : Type 0} (m : Manager S R) where
  pub replay_own-other :
      (e : Event) (es : List Event) (s : S)
      → m.is_own e ≡ false
      → replay_own m (e ∷ es) s ≡ replay_own m es s
  unfolding replay_own
  replay_own-other e es s h = rw (h, replay_own)

  pub replay_own-applied :
      (e : Event) (es : List Event) (s s' : S) (r : R)
      → m.is_own e ≡ true
      → m.apply_event e s ≡ (ok r, s')
      → replay_own m (e ∷ es) s ≡ replay_own m es s'
  unfolding replay_own
  replay_own-applied e es s s' r h a = rw (h, a, replay_own)

  pub replay_own-raised :
      (e : Event) (es : List Event) (s s' : S) (x : Error)
      → m.is_own e ≡ true
      → m.apply_event e s ≡ (err x, s')
      → replay_own m (e ∷ es) s ≡ err x
  unfolding replay_own
  replay_own-raised e es s s' x h a = rw (h, a, replay_own)

  pub replay_own-append :
      (es : List Event) (e : Event) (s s' : S)
      → replay_own m es s ≡ ok s'
      → replay_own m (es ++ e ∷ []) s ≡ replay_own m (e ∷ []) s'
  unfolding replay_own after_apply
  replay_own-append [] e s s' h = ground (arith, h)
  replay_own-append (x ∷ es) e s s' h = elim (Bool-cases (m.is_own x)) [
    | inr other ↦
        replay_own-other x (es ++ e ∷ []) s other
        ∙ replay_own-append es e s s' (sym (replay_own-other x es s other) ∙ h)
    | inl own ↦ elim (step-cases (m.apply_event x s)) [
      | inl (r, s1, a) ↦
          replay_own-applied x (es ++ e ∷ []) s s1 r own a
          ∙ replay_own-append es e s1 s' (sym (replay_own-applied x es s s1 r own a) ∙ h)
      | inr (y, s1, a) ↦ cc (sym (replay_own-raised x es s s1 y own a) ∙ h)
    ]
  ]
