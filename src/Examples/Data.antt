-- ===== src/Examples/Data.antt =====
-- A project with an environment and a flag, as the tests of control-plane/tests make them, on tables
-- in memory, with the conversions that every value of the right type meets.
use feature_flags.Schemas.Credential.{server}
use feature_flags.App.Requests.{Request}
use feature_flags.Api.Segments.{update_segment_config, create_segment}
use feature_flags.Api.Flags.Handlers.{update_flag_config, create_flag}
use feature_flags.Api.Projects.{create_project, create_environment}
use feature_flags.Api.Credentials.{revoke_credential, create_credential}
use feature_flags.Schemas.Segment.{SegmentConfigUpdate}
use feature_flags.Base.{
  leb, List, ℕ, ℤ, pos, String, refl, Bool, true, false, Option, none, some, [], ◌∷◌,
}
use feature_flags.Json.{nil, item, end, array, field, object, Json, boolean, number, text}
use feature_flags.Schemas.Pydantic.{Pydantic}
use feature_flags.Schemas.Flag.{is_in, FlagConfigUpdate}
use feature_flags.Schemas.Catalog.{text_length, ProjectCreate, EnvironmentCreate}
use feature_flags.Schemas.FlagCreate.{FlagKind, FlagCreate}
use feature_flags.Store.Engine.{Engine}
use feature_flags.Store.Memory.{memory}
use feature_flags.Store.Session.{Server, Context, Transaction, empty_database}

abbrev pub int_of : Json → Option ℤ
int_of (number n) = some n
int_of _ = none

abbrev pub text_of : Json → Option String
text_of (text s) = some s
text_of _ = none

abbrev pub bool_of : Json → Option Bool
bool_of (boolean b) = some b
bool_of _ = none

instance abbrev pub strict : Pydantic
strict = record {
  as_int = int_of;
  as_text = text_of;
  as_bool = bool_of;
  as_int-number = λ n. refl;
  as_text-text = λ s. refl;
  as_bool-boolean = λ b. refl;
}

instance abbrev pub tables : Engine
tables = memory

abbrev pub context : ℕ → Context
context n = record {
  actor = "dev@local";
  uuid = n;
  token = "salt";
  serial = n;
  now = n;
  sha256_hex = λ s. s;
  backend = "postgres";
}

abbrev pub empty : Transaction
empty = record { tables = empty_database; notified = [] }

abbrev pub streaming : ProjectCreate
streaming = record { key = "streaming"; name = "Streaming"; description = none }

abbrev pub production : EnvironmentCreate
production = record { key = "production"; name = "Production"; sort_order = pos 0 }

abbrev pub staging : EnvironmentCreate
staging = record { key = "staging"; name = "Staging"; sort_order = pos 1 }

abbrev pub paywall : FlagCreate
paywall = record {
  key = "paywall-v3";
  name = "Paywall v3";
  description = none;
  kind = FlagKind.boolean;
  variations =
      record { name = "On"; value = boolean true }
      ∷ record { name = "Off"; value = boolean false }
      ∷ [];
  temporary = true;
  tags = [];
  owner = none;
  client_side_available = false;
}

-- The body of `test_update_targeting_with_rollout`.
abbrev pub rollout_body : FlagConfigUpdate
rollout_body = record {
  enabled = true;
  targets = record { context_kind = "user"; variation = pos 1; keys = "u-1" ∷ [] } ∷ [];
  rules =
      record {
        choice = record { variation = some (pos 0); rollout = none };
        clauses =
            record {
              context_kind = "user";
              attribute = "country";
              op = is_in;
              values = text "US" ∷ text "CA" ∷ [];
              negate = false;
            }
            ∷ [];
      }
      ∷ [];
  fallthrough = record {
    variation = none;
    rollout = some (record {
      context_kind = "user";
      bucket_by = "key";
      variations =
          record { variation = pos 0; weight = pos 60000 }
          ∷ record { variation = pos 1; weight = pos 40000 }
          ∷ [];
    });
  };
  off_variation = pos 1;
  prerequisites = [];
}

abbrev pub with_project : Transaction
with_project = (create_project (context 1) streaming empty).1

abbrev pub with_production : Transaction
with_production = (create_environment (context 2) "streaming" production with_project).1

abbrev pub with_flag : Transaction
with_flag = (create_flag (context 3) "streaming" paywall with_production).1

abbrev pub with_rollout : Transaction
with_rollout =
    (update_flag_config (context 4) "streaming" "paywall-v3" "production" rollout_body with_flag).1

abbrev pub with_credential : Transaction
with_credential =
    (create_credential (context 7) "streaming" "production" (record { kind = server }) with_flag).1

abbrev pub with_revoked : Transaction
with_revoked = (revoke_credential (context 8) "streaming" "production" 7 with_credential).1

abbrev pub with_segment : Transaction
with_segment =
    (create_segment (context 9) "streaming"
      (record { key = "beta"; name = "Beta"; description = none }) with_flag).1

abbrev pub members : SegmentConfigUpdate
members = record {
  context_kind = "user";
  included = "u-1" ∷ [];
  excluded = [];
  rules =
      record {
        clauses =
            record {
              context_kind = "user";
              attribute = "country";
              op = is_in;
              values = text "US" ∷ [];
              negate = false;
            }
            ∷ [];
      }
      ∷ [];
}

abbrev pub with_members : Transaction
with_members =
    (update_segment_config (context 10) "streaming" "beta" "production" members with_segment).1

-- The bodies as a client sends them.
abbrev pub named_json : String → String → Json
named_json key name = object (field "key" (text key) (field "name" (text name) end))

abbrev pub variation_json : String → Bool → Json
variation_json name value = object (field "name" (text name) (field "value" (boolean value) end))

abbrev pub paywall_json : Json
paywall_json = object (
    field "key" (text "paywall-v3") (
      field "name" (text "Paywall v3") (
        field "kind" (text "boolean") (
          field "variations"
            (array (item (variation_json "On" true) (item (variation_json "Off" false) nil)))
            end))))

abbrev pub start : Server
start = record { database = empty_database; delivered = [] }

-- An order of keys: the shorter ones first.
abbrev pub by_length : String → String → Bool
by_length a b = leb (text_length a) (text_length b)

abbrev pub setup : List (Context × Request)
setup =
    (context 1, Request.project_post (named_json "streaming" "Streaming"))
    ∷ (context 2, Request.environment_post "streaming" (named_json "production" "Production"))
    ∷ (context 3, Request.flag_post "streaming" paywall_json)
    ∷ []

-- The smallest body that `FlagConfigUpdate` takes.
abbrev pub fallthrough_json : Json
fallthrough_json = object (
    field "enabled" (boolean true)
      (field "fallthrough" (object (field "variation" (number (pos 1)) end)) end))

abbrev pub fallthrough_body : FlagConfigUpdate
fallthrough_body = record {
  enabled = true;
  targets = [];
  rules = [];
  fallthrough = record { variation = some (pos 1); rollout = none };
  off_variation = pos 0;
  prerequisites = [];
}
