-- ===== src/Services/Notify.antt =====
-- control-plane/app/services/notify.py: the signal that an environment's rules changed.
use feature_flags.Base.{ℕ, String, [], ◌∷◌, ◌++◌, ◌==◌, text_key, if◌then◌else◌}
use feature_flags.Store.Engine.{Engine}
use feature_flags.Store.Session.{Context, Action, ok, err, not_implemented_error}

-- `CHANNEL`
abbrev pub channel : String
channel = "flags_changed"

unfoldable pub env_changed : ⦃E : Engine⦄ → Context → ℕ → Action (Unit {0})
env_changed c environment_id s =
    if c.backend == "postgres"
    then (ok tt, record s { notified = s.notified ++ (channel, environment_id) ∷ [] })
    else if c.backend == "log"
    then (ok tt, s)
    else (err (not_implemented_error c.backend), s)
