-- ===== src/DataPlane/Auth.antt =====
-- data-plane/internal/auth/auth.go, and `bearer` and `authenticate` of
-- data-plane/internal/server/server.go: which SDK key grants access to which environment.
pub mod Keys
use feature_flags.Base.{
  id_key, String, Bool, Option, none, some, ◌==◌, ◌&&◌, if◌then◌else◌, ℕ, text_key,
}
use feature_flags.Base.Maybe.{is_none, ◌>>=◌}
use feature_flags.Models.{SdkCredential}
use feature_flags.Store.Engine.{Engine}
use feature_flags.Store.Session.{Database}
use feature_flags.Api.Credentials.{kind_text}
use mathlib.Core.Option

-- `Credential` of auth.go.
pub record Access : Type 0 where
  pub env_id : ℕ
  pub kind : String

-- The columns that the SELECT reads.
abbrev pub access_of : SdkCredential → Access
access_of cred = record { env_id = cred.environment_id; kind = kind_text cred.kind }

-- `WHERE key_hash = $1 AND revoked_at IS NULL`
abbrev pub grants : String → SdkCredential → Bool
grants hash cred = cred.key_hash == hash && is_none cred.revoked_at

-- `switch want`: what a route asks of the kind of a key; `none` is ErrInvalidKey.
abbrev pub wanted : String → Access → Option Access
wanted want cred =
    if want == "server"
    then (if cred.kind == "server" then some cred else none)
    else if want == "client"
    then (if cred.kind == "server" then none else some cred)
    else some cred

module _ (cut_prefix : String → String → Option String) where
  -- The key of a header "Bearer <key>"; `cut_prefix` is `strings.CutPrefix`.
  unfoldable pub bearer : String → String
  bearer header = key_of (cut_prefix header "Bearer ")
    where
      key_of : Option String → String
      key_of none = ""
      key_of (some after) = after

module _ ⦃E : Engine⦄ (sha256_hex : String → String) where
  -- `Authenticate`: `none` is ErrInvalidKey. `sha256_hex` is the hexadecimal digest of the key.
  unfoldable pub authenticate : String → Database → Option Access
  authenticate presented_key d =
      Option.map access_of (E.scalar (grants (sha256_hex presented_key)) d.credentials)

  -- `(s *Server) authenticate`
  unfoldable pub authorize :
      (String → String → Option String) → String → String → Database → Option Access
  authorize cut_prefix want header d = do
    cred ← authenticate (bearer cut_prefix header) d
    wanted want cred
