-- ===== src/Services/Credentials.antt =====
-- control-plane/app/services/credentials.py: an SDK key, its prefix and its hash.
use Prim.Native.String.{◌++◌}
use feature_flags.Base.{String}
use feature_flags.Schemas.Credential.{CredentialKind, server, client, mobile}
use feature_flags.Store.Session.{Context}

-- `_KIND_CODE`
abbrev pub kind_code : CredentialKind → String
kind_code server = "srv"
kind_code client = "cli"
kind_code mobile = "mob"

-- The plaintext key, the prefix to display, and the hash to store.
unfoldable pub generate : Context → CredentialKind → String → String × String × String
generate c kind env_key =
    let prefix = kind_code kind ++ "-" ++ env_key ++ "-" in
    let plaintext = prefix ++ c.token in (plaintext, prefix, c.sha256_hex plaintext)

unfoldable pub hash_key : Context → String → String
hash_key c plaintext = c.sha256_hex plaintext
