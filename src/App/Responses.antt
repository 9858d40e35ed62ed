-- ===== src/App/Responses.antt =====
-- The response models of control-plane/app/schemas and control-plane/app/api/audit.py, and how a
-- row of control-plane/app/models is shown by one (`from_attributes=True`).
use feature_flags.Base.{ℕ, ℤ, String, Bool, Option, some, List}
use feature_flags.Base.Maybe.{◌>>=◌, traverse}
use feature_flags.Models.{Project, Environment, SdkCredential, Flag, Segment, AuditLog}
use feature_flags.Schemas.Pydantic.{Pydantic}
use feature_flags.Schemas.Flag.{Variation}
use feature_flags.Schemas.FlagCreate.{FlagKind, load_variation}
use feature_flags.Schemas.Credential.{CredentialKind}

-- All columns of a project are shown.
abbrev pub ProjectOut : Type 0
ProjectOut = Project

pub record EnvironmentOut : Type 0 where
  pub id : ℕ
  pub key : String
  pub name : String
  pub sort_order : ℤ
  pub created_at : ℕ

abbrev pub environment_out : Environment → EnvironmentOut
environment_out r = record {
  id = r.id;
  key = r.key;
  name = r.name;
  sort_order = r.sort_order;
  created_at = r.created_at;
}

-- The hash of the key is not shown.
pub record CredentialOut : Type 0 where
  pub id : ℕ
  pub kind : CredentialKind
  pub key_prefix : String
  pub created_at : ℕ
  pub revoked_at : Option ℕ

abbrev pub credential_out : SdkCredential → CredentialOut
credential_out r = record {
  id = r.id;
  kind = r.kind;
  key_prefix = r.key_prefix;
  created_at = r.created_at;
  revoked_at = r.revoked_at;
}

pub record SegmentOut : Type 0 where
  pub id : ℕ
  pub key : String
  pub name : String
  pub description : Option String
  pub created_at : ℕ

abbrev pub segment_out : Segment → SegmentOut
segment_out r = record {
  id = r.id;
  key = r.key;
  name = r.name;
  description = r.description;
  created_at = r.created_at;
}

pub record FlagOut : Type 0 where
  pub id : ℕ
  pub key : String
  pub name : String
  pub description : Option String
  pub kind : FlagKind
  pub variations : List Variation
  pub salt : String
  pub temporary : Bool
  pub tags : List String
  pub owner : Option String
  pub client_side_available : Bool
  pub created_at : ℕ
  pub archived_at : Option ℕ

-- The stored variations are read by their model again; `none` is a validation error.
unfoldable pub flag_out : ⦃p : Pydantic⦄ → Flag → Option FlagOut
flag_out r = do
  variations ← traverse load_variation r.variations
  some (record {
    id = r.id;
    key = r.key;
    name = r.name;
    description = r.description;
    kind = r.kind;
    variations = variations;
    salt = r.salt;
    temporary = r.temporary;
    tags = r.tags;
    owner = r.owner;
    client_side_available = r.client_side_available;
    created_at = r.created_at;
    archived_at = r.archived_at;
  })

pub record AuditEntry : Type 0 where
  pub id : ℕ
  pub actor : String
  pub action : String
  pub resource_type : String
  pub resource_key : String
  pub summary : String
  pub environment_id : Option ℕ
  pub created_at : ℕ

abbrev pub audit_entry : AuditLog → AuditEntry
audit_entry r = record {
  id = r.id;
  actor = r.actor;
  action = r.action;
  resource_type = r.resource_type;
  resource_key = r.resource_key;
  summary = r.summary;
  environment_id = r.environment_id;
  created_at = r.created_at;
}
