-- ===== src/Models.antt =====
-- control-plane/app/models: one record for each table. An id of type UUID is a number, a time is a
-- number, and a JSONB column is a JSON value.
use feature_flags.Base.{ℕ, ℤ, String, Bool, Option, List}
use feature_flags.Json.{Json}
use feature_flags.Schemas.FlagCreate.{FlagKind}
use feature_flags.Schemas.Credential.{CredentialKind}

pub record Project : Type 0 where
  pub id : ℕ
  pub key : String
  pub name : String
  pub description : Option String
  pub created_at : ℕ

pub record Environment : Type 0 where
  pub id : ℕ
  pub project_id : ℕ
  pub key : String
  pub name : String
  pub sort_order : ℤ
  pub created_at : ℕ

pub record SdkCredential : Type 0 where
  pub id : ℕ
  pub environment_id : ℕ
  pub kind : CredentialKind
  pub key_hash : String
  pub key_prefix : String
  pub created_at : ℕ
  pub revoked_at : Option ℕ

pub record Flag : Type 0 where
  pub id : ℕ
  pub project_id : ℕ
  pub key : String
  pub name : String
  pub description : Option String
  pub kind : FlagKind
  pub variations : List Json
  pub salt : String
  pub temporary : Bool
  pub tags : List String
  pub owner : Option String
  pub client_side_available : Bool
  pub created_at : ℕ
  pub archived_at : Option ℕ

pub record FlagEnvironmentConfig : Type 0 where
  pub flag_id : ℕ
  pub environment_id : ℕ
  pub enabled : Bool
  pub targets : Json
  pub rules : Json
  pub fallthrough : Json
  pub off_variation : ℤ
  pub prerequisites : Json
  pub version : ℕ
  pub updated_at : ℕ
  pub updated_by : Option String

pub record Segment : Type 0 where
  pub id : ℕ
  pub project_id : ℕ
  pub key : String
  pub name : String
  pub description : Option String
  pub created_at : ℕ

pub record SegmentEnvironmentConfig : Type 0 where
  pub segment_id : ℕ
  pub environment_id : ℕ
  pub context_kind : String
  pub included : List String
  pub excluded : List String
  pub rules : Json
  pub version : ℕ
  pub updated_at : ℕ

pub record AuditLog : Type 0 where
  pub id : ℕ
  pub project_id : ℕ
  pub environment_id : Option ℕ
  pub actor : String
  pub action : String
  pub resource_type : String
  pub resource_key : String
  pub summary : String
  pub diff : Option Json
  pub created_at : ℕ

-- The primary keys.
abbrev pub project_pk : Project → ℕ
project_pk r = r.id

abbrev pub environment_pk : Environment → ℕ
environment_pk r = r.id

abbrev pub credential_pk : SdkCredential → ℕ
credential_pk r = r.id

abbrev pub flag_pk : Flag → ℕ
flag_pk r = r.id

abbrev pub flag_config_pk : FlagEnvironmentConfig → ℕ × ℕ
flag_config_pk r = (r.flag_id, r.environment_id)

abbrev pub segment_pk : Segment → ℕ
segment_pk r = r.id

abbrev pub segment_config_pk : SegmentEnvironmentConfig → ℕ × ℕ
segment_config_pk r = (r.segment_id, r.environment_id)

abbrev pub audit_pk : AuditLog → ℕ
audit_pk r = r.id
