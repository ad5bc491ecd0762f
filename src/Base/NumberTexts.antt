-- ===== src/Base/NumberTexts.antt =====
-- The text of a Decimal: `str(x)` writes one and `Decimal(text)` reads it.
use mathlib.Core.Path.{◌≡◌}
use mathlib.Core.Option.{Option, none, some}
use turtle_qts_execution.Base.Texts.{Text}
use turtle_qts_execution.Base.Decimals.{Decimal, dec}
use turtle_qts_execution.Base.Values.{Json, str, null, obj, end, Fields}
use turtle_qts_execution.Base.Outcomes.{
  Outcome, ok, err, or_raise, key_error, type_error, value_error,
}

-- `Decimal(text)` raises where it gives none; it reads back exactly what `str` writes.
pub record Numerals : Type 0 where
  pub to_text : Decimal → Text
  pub of_text : Text → Option Decimal
  pub of_text-to_text : (d : Decimal) → of_text (to_text d) ≡ some d

-- A string of a payload.
unfoldable pub as_text : Option Json → Outcome Text
as_text none = err key_error
as_text (some (str s)) = ok s
as_text (some _) = err type_error

-- A dictionary of a payload.
unfoldable pub as_fields : Option Json → Outcome Fields
as_fields none = err key_error
as_fields (some (obj fs)) = ok fs
as_fields (some _) = err type_error

-- `payload.get("details", {})`
unfoldable pub as_fields_or_empty : Option Json → Outcome Fields
as_fields_or_empty none = ok end
as_fields_or_empty (some j) = as_fields (some j)

module _ (n : Numerals) where
  -- `str(amount)` in a payload.
  abbrev pub numeral : Decimal → Json
  numeral d = str (n.to_text d)

  -- `Decimal(value)` of a payload.
  unfoldable pub as_decimal : Option Json → Outcome Decimal
  as_decimal none = err key_error
  as_decimal (some (str s)) = or_raise (n.of_text s) value_error
  as_decimal (some _) = err type_error

  -- `_dec(value)`: None is read as None.
  unfoldable pub as_optional_decimal : Option Json → Outcome (Option Decimal)
  unfolding as_decimal
  as_optional_decimal none = ok none
  as_optional_decimal (some null) = ok none
  as_optional_decimal (some j) = elim (as_decimal (some j)) [ err x ↦ err x | ok d ↦ ok (some d) ]

  -- `Decimal(details.get(key, "0"))`
  unfoldable pub as_decimal_or_zero : Option Json → Outcome Decimal
  as_decimal_or_zero none = ok (dec 0)
  as_decimal_or_zero (some j) = as_decimal (some j)

  -- `str(x) if x is not None else None`
  unfoldable pub optional_numeral : Option Decimal → Json
  optional_numeral none = null
  optional_numeral (some d) = numeral d
