-- ===== src/EventSourcing/Invariants.antt =====
-- Invariants of a manager: what holds of its initial state and is kept by every event that is applied.
use turtle_qts_execution.Base.{
  ◌≡◌, sym, ◌∙◌, arith, List, [], ◌∷◌, Outcome, ok, err, bind-ok, Bool-cases, inl, inr,
}
use turtle_qts_execution.EventStore.Types.{Event}
use turtle_qts_execution.EventStore.Store.{EventStore, replay}
use turtle_qts_execution.EventSourcing.{Manager, replay_own, rebuild}
use turtle_qts_execution.EventSourcing.Replaying.{
  step-cases, replay_own-other, replay_own-applied, replay_own-raised,
}
use turtle_qts_execution.EventSourcing.Soundness.{Sound}

module _ {S R : Type 0} (m : Manager S R) (P : S → Type 0) (initially : P m.initial)
    (step : (e : Event) (s s' : S) (r : R) → P s → m.apply_event e s ≡ (ok r, s') → P s') where
  replay_own-keeps : (es : List Event) (s s' : S) → P s → replay_own m es s ≡ ok s' → P s'
  unfolding replay_own
  replay_own-keeps [] s s' h eq = ground (arith, h, eq)
  replay_own-keeps (e ∷ es) s s' h eq = elim (Bool-cases (m.is_own e)) [
    | inr other ↦ replay_own-keeps es s s' h (sym (replay_own-other m e es s other) ∙ eq)
    | inl own ↦ elim (step-cases (m.apply_event e s)) [
      | inl (r, s1, a) ↦
          replay_own-keeps es s1 s' (step e s s1 r h a)
            (sym (replay_own-applied m e es s s1 r own a) ∙ eq)
      | inr (x, s1, a) ↦ cc (sym (replay_own-raised m e es s s1 x own a) ∙ eq)
    ]
  ]

  pub rebuild-keeps : (store : EventStore) (s : S) → rebuild m store ≡ ok s → P s
  unfolding rebuild
  rebuild-keeps store s h =
      let (es, _, b) = bind-ok (replay store 1) (λ es. replay_own m es m.initial) s h in
      replay_own-keeps es m.initial s initially b

  -- The state that a method leaves which returns.
  pub returned-keeps :
      {A : Type 0} (o : Outcome A × (S × EventStore)) (a : A) → Sound m o → o.0 ≡ ok a → P o.1.0
  returned-keeps (ok b, w) a (inl h) e = rebuild-keeps w.1 w.0 h.rebuilt
  returned-keeps (ok b, w) a (inr (x, e', _)) e = cc e'
  returned-keeps (err x, w) a h e = cc e
