-- ===== src/Schemas/Catalog.antt =====
-- control-plane/app/schemas/catalog.py: the bodies that create projects and environments, and the
-- pattern of keys.
use Prim.Native.Char.{code}
use feature_flags.Base.{
  ℕ, ◌+◌, ℤ, pos, String, Bool, true, false, ◌&&◌, ◌||◌, Option, none, some, nat_eq, leb,
}
use feature_flags.Base.Maybe.{◌>>=◌, ◌>>◌, guard}
use feature_flags.Json.{Json, get_field}
use feature_flags.Schemas.Pydantic.{Pydantic, as_object, required, defaulted, optional}

-- `[a-z0-9]`
abbrev pub is_key_start : ℕ → Bool
is_key_start c = leb b'a' c && leb c b'z' || leb b'0' c && leb c b'9'

-- `[a-z0-9._-]`
abbrev pub is_key_char : ℕ → Bool
is_key_char c = is_key_start c || nat_eq c b'.' || nat_eq c b'_' || nat_eq c b'-'

abbrev pub all_key_chars : String → Bool
all_key_chars String.[] = true
all_key_chars (String.◌∷◌ c s) = is_key_char (code c) && all_key_chars s

-- `KEY_PATTERN`, which is anchored at both ends.
abbrev pub matches_key_pattern : String → Bool
matches_key_pattern String.[] = false
matches_key_pattern (String.◌∷◌ c s) = is_key_start (code c) && all_key_chars s

-- `len` of a text, in code points.
abbrev pub text_length : String → ℕ
text_length String.[] = 0
text_length (String.◌∷◌ c s) = text_length s + 1

-- `Field(pattern=KEY_PATTERN, max_length=64)`
unfoldable pub is_key : String → Bool
is_key s = matches_key_pattern s && leb (text_length s) 64

-- `Field(max_length=128)`
unfoldable pub is_name : String → Bool
is_name s = leb (text_length s) 128

pub record ProjectCreate : Type 0 where
  pub key : String
  pub name : String
  pub description : Option String

pub record EnvironmentCreate : Type 0 where
  pub key : String
  pub name : String
  pub sort_order : ℤ

module _ ⦃p : Pydantic⦄ where
  open p use {as_int, as_text}

  abbrev pub load_key : Json → Option String
  load_key j = do s ← as_text j; guard (is_key s); some s

  abbrev pub load_name : Json → Option String
  load_name j = do s ← as_text j; guard (is_name s); some s

  unfoldable pub load_project_create : Json → Option ProjectCreate
  load_project_create j = do
    fs ← as_object j
    key ← required load_key (get_field "key" fs)
    name ← required load_name (get_field "name" fs)
    description ← defaulted (optional as_text) none (get_field "description" fs)
    some (record { key = key; name = name; description = description })

  unfoldable pub load_environment_create : Json → Option EnvironmentCreate
  load_environment_create j = do
    fs ← as_object j
    key ← required load_key (get_field "key" fs)
    name ← required load_name (get_field "name" fs)
    sort_order ← defaulted as_int (pos 0) (get_field "sort_order" fs)
    some (record { key = key; name = name; sort_order = sort_order })
