-- ===== src/Base/Sets.antt =====
-- A Python set of strings, as a list without repetitions, and its sorted tuple.
use mathlib.Core.Bool.{Bool, true, false}
use mathlib.Core.Option.{none, some}
use mathlib.Core.List.{List, [], ◌∷◌}
use turtle_qts_execution.Base.Tests.{ltb, if◌then◌else◌}
use turtle_qts_execution.Base.Texts.{Text, text_eq}
use turtle_qts_execution.Base.Dicts.{Dict, lookup}

-- `t in s`
abbrev pub contains_text : Text → List Text → Bool
contains_text t [] = false
contains_text t (u ∷ us) = if text_eq t u then true else contains_text t us

-- `s.add(t)`
abbrev pub add_text : Text → List Text → List Text
add_text t [] = t ∷ []
add_text t (u ∷ us) = if text_eq t u then u ∷ us else u ∷ add_text t us

-- `s.discard(t)`
abbrev pub discard_text : Text → List Text → List Text
discard_text t [] = []
discard_text t (u ∷ us) = if text_eq t u then us else u ∷ discard_text t us

-- Code points in order; a proper prefix comes first.
unfoldable pub text_ltb : Text → Text → Bool
text_ltb s [] = false
text_ltb [] (d ∷ t) = true
text_ltb (c ∷ s) (d ∷ t) = if ltb c d then true else if ltb d c then false else text_ltb s t

insert_sorted : Text → List Text → List Text
insert_sorted t [] = t ∷ []
insert_sorted t (u ∷ us) = if text_ltb u t then u ∷ insert_sorted t us else t ∷ (u ∷ us)

-- `sorted(s)`
unfoldable pub sorted_texts : List Text → List Text
unfolding insert_sorted
sorted_texts [] = []
sorted_texts (t ∷ ts) = insert_sorted t (sorted_texts ts)

module _ {ℓ} {V : Type ℓ} where
  -- `d.get(k, default)`
  abbrev pub get_or : Text → V → Dict Text V → V
  get_or k v d = elim (lookup text_eq k d) [ none ↦ v | some w ↦ w ]

  -- `d.pop(k, ...)`, what is left of the dict
  abbrev pub without : Text → Dict Text V → Dict Text V
  without k [] = []
  without k ((j, v) ∷ d) = if text_eq k j then d else (j, v) ∷ without k d
