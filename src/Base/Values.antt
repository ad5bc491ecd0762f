-- ===== src/Base/Values.antt =====
-- JSON values as the engine builds and reads them. A Decimal is written by `str` and read back by
-- `Decimal`, which is exact: it is a leaf of its own, which holds a list of code points like `str`.
use Prim.Native.Nat.{ℕ}
use mathlib.Core.Bool.{Bool, false}
use mathlib.Core.Option.{Option, none, some}
use turtle_qts_execution.Base.Tests.{if◌then◌else◌}
use turtle_qts_execution.Base.Texts.{Text, text_eq}

mutual
  pub data Json : Type 0 where
    null : Json
    bool : Bool → Json
    int : ℕ → Json
    str : Text → Json
    arr : Items → Json
    obj : Fields → Json

  pub data Items : Type 0 where
    nil : Items
    item : Json → Items → Items

  pub data Fields : Type 0 where
    end : Fields
    field : Text → Json → Fields → Fields

-- `d.get(key)`
abbrev pub get : Text → Fields → Option Json
get k end = none
get k (field j v fs) = if text_eq k j then some v else get k fs

-- `d.get(key) == text`
abbrev pub holds : Option Json → Text → Bool
holds (some (str s)) t = text_eq s t
holds _ t = false
