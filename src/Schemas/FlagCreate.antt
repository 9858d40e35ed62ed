-- ===== src/Schemas/FlagCreate.antt =====
-- `FlagCreate` of control-plane/app/schemas/flag.py: the body that creates a flag.
use feature_flags.Schemas.Soundness.{required_list-All}
use feature_flags.Base.{
  All, ℕ, ◌≤◌, String, ◌≡◌, Bool, true, false, not, ◌&&◌, Option, none, some, List, [], length,
  nat_eq, leb, arith, text_key, ◌==◌, if◌then◌else◌,
}
use feature_flags.Base.Maybe.{◌>>=◌, ◌>>◌, guard, Ensures, Ensures-bind, Ensures-some}
use feature_flags.Json.{Json, text, Fields, object, get_field}
use feature_flags.Schemas.Pydantic.{Pydantic, as_object, aliased, required, defaulted, optional}
use feature_flags.Schemas.Catalog.{is_key, is_name, load_key, load_name}
use feature_flags.Schemas.Flag.{Variation}
use feature_flags.Schemas.Load.{load_list}

pub data FlagKind : Type 0 where
  boolean multivariate : FlagKind

abbrev pub is_boolean : FlagKind → Bool
is_boolean boolean = true
is_boolean multivariate = false

pub record FlagCreate : Type 0 where
  pub key : String
  pub name : String
  pub description : Option String
  pub kind : FlagKind
  pub variations : List Variation
  pub temporary : Bool
  pub tags : List String
  pub owner : Option String
  pub client_side_available : Bool

-- Whether `_boolean_has_two` accepts.
abbrev pub boolean_has_two : FlagKind → List Variation → Bool
boolean_has_two kind variations = not (is_boolean kind && not (nat_eq (length variations) 2))

abbrev pub load_flag_kind : Json → Option FlagKind
load_flag_kind (text s) =
    if s == "boolean" then some boolean else if s == "multivariate" then some multivariate else none
load_flag_kind _ = none

-- A variation with a name of the declared length.
abbrev pub IsVariation : Variation → Type 0
IsVariation v = is_name v.name ≡ true

-- What a flag that was read from a request promises.
pub record IsFlagCreate (b : FlagCreate) : Type 0 where
  pub key : is_key b.key ≡ true
  pub name : is_name b.name ≡ true
  pub variations : 2 ≤ length b.variations
  pub boolean : b.kind ≡ FlagKind.boolean → length b.variations ≡ 2
  pub names : All IsVariation b.variations

module _ ⦃p : Pydantic⦄ where
  open p use {as_text, as_bool}

  unfoldable pub load_variation : Json → Option Variation
  load_variation j = do
    fs ← as_object j
    name ← required load_name (get_field "name" fs)
    value ← get_field "value" fs
    some (record { name = name; value = value })

  unfoldable pub load_flag_create : Json → Option FlagCreate
  load_flag_create j = do
    fs ← as_object j
    key ← required load_key (get_field "key" fs)
    name ← required load_name (get_field "name" fs)
    description ← defaulted (optional as_text) none (get_field "description" fs)
    kind ← required load_flag_kind (get_field "kind" fs)
    variations ← required (load_list load_variation) (get_field "variations" fs)
    guard (leb 2 (length variations))
    temporary ← defaulted as_bool true (get_field "temporary" fs)
    tags ← defaulted (load_list as_text) [] (get_field "tags" fs)
    owner ← defaulted (optional as_text) none (get_field "owner" fs)
    client_side_available ←
        defaulted as_bool false (aliased "clientSideAvailable" "client_side_available" fs)
    guard (boolean_has_two kind variations)
    some (record {
      key = key;
      name = name;
      description = description;
      kind = kind;
      variations = variations;
      temporary = temporary;
      tags = tags;
      owner = owner;
      client_side_available = client_side_available;
    })

  required_key_sound :
      (o : Option Json) (s : String) → required load_key o ≡ some s → is_key s ≡ true
  required_key_sound none s e = cc
  required_key_sound (some j) s e = ground arith

  required_name_sound :
      (o : Option Json) (s : String) → required load_name o ≡ some s → is_name s ≡ true
  required_name_sound none s e = cc
  required_name_sound (some j) s e = ground arith

  load_variation-IsVariation :
      (j : Json) (v : Variation) → load_variation j ≡ some v → IsVariation v
  unfolding load_variation
  load_variation-IsVariation (object fs) v e =
      required_name_sound (get_field "name" fs) v.name (ground arith)
  load_variation-IsVariation _ v e = cc

  kind_has_two :
      (k : FlagKind) (vs : List Variation)
      → guard (boolean_has_two k vs) ≡ some tt
      → k ≡ boolean
      → length vs ≡ 2
  kind_has_two k vs e h = ground arith

  at_least_two : (n : ℕ) → guard (leb 2 n) ≡ some tt → 2 ≤ n
  at_least_two n e = ground arith

  load_fields-IsFlagCreate : (fs : Fields) → Ensures IsFlagCreate (load_flag_create (object fs))
  unfolding load_flag_create
  load_fields-IsFlagCreate fs = Ensures-bind (required load_key (get_field "key" fs)) _ λ key ek.
      Ensures-bind (required load_name (get_field "name" fs)) _ λ name en.
        Ensures-bind (defaulted (optional as_text) none (get_field "description" fs)) _
          λ description _. Ensures-bind (required load_flag_kind (get_field "kind" fs)) _ λ kind _.
            Ensures-bind (required (load_list load_variation) (get_field "variations" fs)) _
              λ variations es. Ensures-bind (guard (leb 2 (length variations))) _ λ _ ev.
                Ensures-bind (defaulted as_bool true (get_field "temporary" fs)) _ λ temporary _.
                  Ensures-bind (defaulted (load_list as_text) [] (get_field "tags" fs)) _ λ tags _.
                    Ensures-bind (defaulted (optional as_text) none (get_field "owner" fs)) _
                      λ owner _.
                        Ensures-bind
                          (defaulted as_bool false
                            (aliased "clientSideAvailable" "client_side_available" fs))
                          _
                          λ available _.
                            Ensures-bind (guard (boolean_has_two kind variations)) _ λ _ eb.
                              Ensures-some _ (record {
                                key = required_key_sound (get_field "key" fs) key ek;
                                name = required_name_sound (get_field "name" fs) name en;
                                variations = at_least_two (length variations) ev;
                                boolean = kind_has_two kind variations eb;
                                names =
                                    required_list-All IsVariation load_variation
                                      load_variation-IsVariation (get_field "variations" fs)
                                      variations es;
                              })

  -- A request body that is read as a `FlagCreate` has a key and a name of the declared form, at
  -- least two variations, each with a name of the declared length, and exactly two if the flag is
  -- boolean.
  pub load_flag_create-IsFlagCreate :
      (j : Json) (b : FlagCreate) → load_flag_create j ≡ some b → IsFlagCreate b
  load_flag_create-IsFlagCreate (object fs) b e = (load_fields-IsFlagCreate fs).at b e
  load_flag_create-IsFlagCreate _ b e = unfold load_flag_create in cc
