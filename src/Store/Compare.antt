-- ===== src/Store/Compare.antt =====
-- How a flush finds that a JSON column was set to the value that it had: SQLAlchemy compares the two
-- by Python's `==`, for which True is 1, False is 0, and a float can be equal to an int. A column
-- that compares as unchanged is not written.
use feature_flags.Base.{
  ℕ, ◌+◌, ℤ, pos, Bool, true, false, not, ◌&&◌, Option, none, some, ◌==◌, nat_eq, text_key,
  if◌then◌else◌,
}
use feature_flags.Base.Int.{eqb_ℤ}
use feature_flags.Json.{
  Json, Items, Fields, null, boolean, number, real, text, array, object, nil, item, end, field,
  get_field,
}
use feature_flags.Store.Engine.{Engine}

abbrev pub int_of_bool : Bool → ℤ
int_of_bool b = if b then pos 1 else pos 0

abbrev pub same_bool : Bool → Bool → Bool
same_bool a b = if a then b else not b

abbrev pub count_fields : Fields → ℕ
count_fields end = 0
count_fields (field k v fs) = count_fields fs + 1

abbrev pub on_value : (Json → Bool) → Option Json → Bool
on_value test none = false
on_value test (some v) = test v

module _ ⦃E : Engine⦄ where
  -- `==` of two values; of two dicts, whose keys are unique, in any order.
  unfoldable mutual
    pub same_json : Json → Json → Bool
    same_json null null = true
    same_json (boolean a) (boolean b) = same_bool a b
    same_json (boolean a) (number n) = eqb_ℤ (int_of_bool a) n
    same_json (boolean a) (real t) = E.same_int_real (int_of_bool a) t
    same_json (number m) (boolean b) = eqb_ℤ m (int_of_bool b)
    same_json (number m) (number n) = eqb_ℤ m n
    same_json (number m) (real t) = E.same_int_real m t
    same_json (real s) (boolean b) = E.same_int_real (int_of_bool b) s
    same_json (real s) (number n) = E.same_int_real n s
    same_json (real s) (real t) = E.same_reals s t
    same_json (text s) (text t) = s == t
    same_json (array a) (array b) = same_items a b
    same_json (object a) (object b) = nat_eq (count_fields a) (count_fields b) && same_fields a b
    same_json _ _ = false

    pub same_items : Items → Items → Bool
    same_items nil nil = true
    same_items (item a as_) (item b bs) = let rest = same_items as_ bs in same_json a b && rest
    same_items _ _ = false

    -- Whether each field of the first is in the second.
    pub same_fields : Fields → Fields → Bool
    same_fields end b = true
    same_fields (field k v fs) b =
        let rest = same_fields fs b in on_value (same_json v) (get_field k b) && rest

  -- A JSON column after the flush, by the value that was read and the one that was set.
  abbrev pub flushed_json : Json → Json → Json
  flushed_json loaded updated = if same_json loaded updated then loaded else updated
