-- ===== src/Json.antt =====
-- JSON values: what a request body holds (control-plane/app/schemas) and what a JSONB column of
-- control-plane/app/models keeps. A JSON number is an integer or the text of another number.
use feature_flags.Base.{
  ℤ, String, ◌≡◌, refl, ap, Bool, Option, none, some, List, [], ◌∷◌, ◌==◌, text_key, if◌then◌else◌,
}

mutual
  pub data Json : Type 0 where
    null : Json
    boolean : Bool → Json
    number : ℤ → Json
    real : String → Json
    text : String → Json
    array : Items → Json
    object : Fields → Json

  pub data Items : Type 0 where
    nil : Items
    item : Json → Items → Items

  pub data Fields : Type 0 where
    end : Fields
    field : String → Json → Fields → Fields

-- The value of a key of an object.
abbrev pub get_field : String → Fields → Option Json
get_field k end = none
get_field k (field j v fs) = if j == k then some v else get_field k fs

abbrev pub of_items : Items → List Json
of_items nil = []
of_items (item j js) = j ∷ of_items js

abbrev pub to_items : List Json → Items
to_items [] = nil
to_items (j ∷ js) = item j (to_items js)

pub of_items-to_items : (js : List Json) → of_items (to_items js) ≡ js
of_items-to_items [] = refl
of_items-to_items (j ∷ js) = ap (λ (l : List Json). j ∷ l) (of_items-to_items js)
