-- ===== src/Base/Tables.antt =====
-- A transition table built from a list of edges, as the three lifecycle modules of the engine build
-- theirs: `{(frm, trig): to for frm, trig, to in _EDGES}`. A later edge for the same key wins.
use Prim.Native.Nat.{ℕ, min}
use mathlib.Core.Path.{◌≡◌}
use mathlib.Core.Bool.{Bool, true, false, ◌&&◌}
use mathlib.Core.Option.{Option, none, some}
use mathlib.Core.List.{List, [], ◌∷◌}
use native.Mathlib.Omega.{arith}
use turtle_qts_execution.Base.Tests.{if◌then◌else◌, ◌==◌}
use turtle_qts_execution.Base.Texts.{Text, text_eq}
use turtle_qts_execution.Base.Lists.{get_elem?}

-- An `enum.Enum`: its members in order, the position of each, and its string value.
pub record Enum (S : Type 0) : Type 0 where
  pub members : List S
  pub index : S → ℕ
  pub value : S → Text
  pub index_lem : (a : S) → get_elem? members (index a) ≡ some a

module _ {S : Type 0} (e : Enum S) where
  abbrev pub enum_eq : S → S → Bool
  enum_eq a b = e.index a == e.index b

  pub enum_eq_refl : (a : S) → enum_eq a a ≡ true
  enum_eq_refl a = ground arith

  pub enum_eq→eq : (a b : S) → enum_eq a b ≡ true → a ≡ b
  enum_eq→eq a b h = ground (arith, e.index_lem a, e.index_lem b)

  find_value : Text → List S → Option S
  find_value raw [] = none
  find_value raw (m ∷ ms) = if text_eq raw (e.value m) then some m else find_value raw ms

  -- `S(raw)`; Python raises ValueError where no member has the value.
  unfoldable pub of_value : Text → Option S
  unfolding find_value
  of_value raw = find_value raw e.members

  abbrev pub member : S → List S → Bool
  member a [] = false
  member a (b ∷ bs) = if enum_eq a b then true else member a bs

module _ {S T : Type 0} (es : Enum S) (et : Enum T) where
  abbrev pub table_get : S → T → List (S × T × S) → Option S
  table_get s t [] = none
  table_get s t ((frm, trig, to) ∷ edges) = elim (table_get s t edges) [
    | some u ↦ some u
    | none ↦ if enum_eq es s frm && enum_eq et t trig then some to else none
  ]

  -- The triggers of the edges that leave a state.
  abbrev pub legal_triggers : S → List (S × T × S) → List T
  legal_triggers s [] = []
  legal_triggers s ((frm, trig, to) ∷ edges) =
      if enum_eq es s frm then trig ∷ legal_triggers s edges else legal_triggers s edges

  -- The least rank of a target of the trigger; Python's `min` raises on no target.
  abbrev pub min_target_rank : (S → ℕ) → T → List (S × T × S) → Option ℕ
  min_target_rank rank t [] = none
  min_target_rank rank t ((frm, trig, to) ∷ edges) = elim (min_target_rank rank t edges) [
    | none ↦ if enum_eq et t trig then some (rank to) else none
    | some m ↦ if enum_eq et t trig then some (min (rank to) m) else some m
  ]

  abbrev pub all_edges : (S → T → S → Bool) → List (S × T × S) → Bool
  all_edges p [] = true
  all_edges p ((frm, trig, to) ∷ edges) = p frm trig to && all_edges p edges

  -- What holds of every edge holds of every transition that the table allows.
  pub table_get-all_edges :
      (p : S → T → S → Bool) (edges : List (S × T × S)) (s : S) (t : T) (u : S)
      → all_edges p edges ≡ true
      → table_get s t edges ≡ some u
      → p s t u ≡ true
  table_get-all_edges p [] s t u h g = cc
  table_get-all_edges p ((frm, trig, to) ∷ edges) s t u h g =
      ground (arith, table_get-all_edges p edges s t u, enum_eq→eq es s frm, enum_eq→eq et t trig)
