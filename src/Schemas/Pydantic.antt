-- ===== src/Schemas/Pydantic.antt =====
-- What the models take from pydantic: the conversion of one JSON value to a plain Python type.
-- Pydantic's table of lenient conversions is not part of the repository; the models rely on a value
-- that has the declared type already being taken as it is.
use feature_flags.Base.{ℤ, String, ◌≡◌, Bool, Option, none, some, List, text_key}
use feature_flags.Base.Maybe.{◌>>=◌}
use feature_flags.Json.{
  Json, null, boolean, number, text, array, object, Fields, get_field, of_items,
}

pub record Pydantic : Type 0 where
  pub as_int : Json → Option ℤ
  pub as_text : Json → Option String
  pub as_bool : Json → Option Bool
  pub as_int-number : (n : ℤ) → as_int (number n) ≡ some n
  pub as_text-text : (s : String) → as_text (text s) ≡ some s
  pub as_bool-boolean : (b : Bool) → as_bool (boolean b) ≡ some b

-- A model is read from an object, a list from an array.
abbrev pub as_object : Json → Option Fields
as_object (object fs) = some fs
as_object _ = none

abbrev pub as_array : Json → Option (List Json)
as_array (array js) = some (of_items js)
as_array _ = none

-- `Field(alias=...)` with `populate_by_name`: the alias is looked up first, then the name.
abbrev pub aliased : String → String → Fields → Option Json
aliased alias name fs = elim (get_field alias fs) [ some v ↦ some v | none ↦ get_field name fs ]

abbrev pub required : {A : Type 0} → (Json → Option A) → Option Json → Option A
required read none = none
required read (some v) = read v

abbrev pub defaulted : {A : Type 0} → (Json → Option A) → A → Option Json → Option A
defaulted read default none = some default
defaulted read default (some v) = read v

-- `T | None`
abbrev pub optional : {A : Type 0} → (Json → Option A) → Json → Option (Option A)
optional read null = some none
optional read v = do a ← read v; some (some a)
