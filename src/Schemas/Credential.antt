-- ===== src/Schemas/Credential.antt =====
-- control-plane/app/schemas/credential.py: the body that issues an SDK key.
use feature_flags.Base.{Option, none, some, text_key, ◌==◌, if◌then◌else◌}
use feature_flags.Base.Maybe.{◌>>=◌}
use feature_flags.Json.{Json, text, get_field}
use feature_flags.Schemas.Pydantic.{as_object, required}

pub data CredentialKind : Type 0 where
  server client mobile : CredentialKind

pub record CredentialCreate : Type 0 where
  pub kind : CredentialKind

abbrev pub load_credential_kind : Json → Option CredentialKind
load_credential_kind (text s) =
    if s == "server"
    then some server
    else if s == "client"
    then some client
    else if s == "mobile"
    then some mobile
    else none
load_credential_kind _ = none

unfoldable pub load_credential_create : Json → Option CredentialCreate
load_credential_create j = do
  fs ← as_object j
  kind ← required load_credential_kind (get_field "kind" fs)
  some (record { kind = kind })
