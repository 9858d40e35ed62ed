-- ===== src/Examples/Flush.antt =====
-- Updates that a flush does not write: a clause value that changes from 1 to true.
use feature_flags.Json.{Json, number, boolean, object, field, text, end, array, item, nil}
use feature_flags.Base.{none, false, ◌≡◌, refl, pos, true, [], ◌∷◌, pair_key, some}
use feature_flags.Schemas.Flag.{FlagConfigUpdate, is_in}
use feature_flags.Store.Session.{ok, Transaction}
use feature_flags.Store.Compare.{same_json}
use feature_flags.Api.Flags.Handlers.{update_flag_config, get_flag_config}
use feature_flags.Api.Flags.Config.{default_config, apply_update}
use feature_flags.Api.Flags.Replies.{response}
use feature_flags.Examples.Runs.{runs}
use feature_flags.Examples.Data.{tables, strict, context, with_flag, rollout_body}

-- A targeting whose one clause has one value.
abbrev on_value_of : Json → FlagConfigUpdate
on_value_of v = record rollout_body {
  rules =
      record {
        choice = record { variation = some (pos 0); rollout = none };
        clauses =
            record {
              context_kind = "user";
              attribute = "plan";
              op = is_in;
              values = v ∷ [];
              negate = false;
            }
            ∷ [];
      }
      ∷ [];
}

abbrev with_one : Transaction
with_one =
    (update_flag_config (context 4) "streaming" "paywall-v3" "production"
      (on_value_of (number (pos 1))) with_flag).1

abbrev with_true : Transaction
with_true =
    (update_flag_config (context 5) "streaming" "paywall-v3" "production"
      (on_value_of (boolean true)) with_one).1

-- The response of the second update shows the new value under version 3.
shown :
    (update_flag_config
      (context 5)
      "streaming"
      "paywall-v3"
      "production"
      (on_value_of (boolean true))
      with_one).0
    ≡ ok (
        response (context 5) "production" (on_value_of (boolean true)) (
          apply_update (context 4) (on_value_of (number (pos 1))) (default_config (context 3) 3 2)))
unfolding runs
shown = refl

-- A reading afterwards shows the value before, under version 3.
read_again :
    (get_flag_config "streaming" "paywall-v3" "production" with_true).0
    ≡ ok (
        response (context 5) "production" (on_value_of (number (pos 1))) (
          apply_update (context 4) (on_value_of (number (pos 1))) (default_config (context 3) 3 2)))
unfolding runs
read_again = refl

-- Two dicts with the same fields in another order are equal, and a text is no number.
same_fields_in_any_order :
    same_json
      (object (field "a" (number (pos 1)) (field "b" (array (item (boolean true) nil)) end)))
      (object (field "b" (array (item (number (pos 1)) nil)) (field "a" (boolean true) end)))
    ≡ true
unfolding same_json
same_fields_in_any_order = refl

other_kind : same_json (text "1") (number (pos 1)) ≡ false
unfolding same_json
other_kind = refl
