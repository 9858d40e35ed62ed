-- ===== src/DataPlane/Rulesets.antt =====
-- data-plane/internal/store/store.go: `assemble` and `LoadAll`. The queries of one load see one state
-- of the database; an error that a query itself returns is left out. What `json.Unmarshal` makes of a
-- row is a parameter, `none` where it returns an error. The version is an int64 that is only added to
-- and compared with ==, so it is given by its 64 bits.
pub mod Loading
pub mod Refreshed
pub mod Versions
pub mod Missed
use feature_flags.Base.Maybe.{is_none, ◌>>=◌}
use feature_flags.Models.{
  Flag, FlagEnvironmentConfig, Segment, SegmentEnvironmentConfig, Environment,
}
use feature_flags.Store.Engine.{Engine}
use feature_flags.Store.Session.{Database}
use feature_flags.Base.{
  ℕ, ◌+◌, ◌%◌, ◌^◌, String, Bool, true, not, ◌&&◌, Option, none, some, List, [], ◌∷◌, ◌++◌, ◌==◌,
  nat_eq, if◌then◌else◌, id_key, pair_key,
}

-- `rs.Version += version`
abbrev pub add_int64 : ℕ → ℕ → ℕ
add_int64 a b = (a + b) % 2 ^ 64

abbrev pub joined_row {ℓ κ} : {A : Type ℓ} {B : Type κ} → A → Option B → List (A × B) → List (A × B)
joined_row a none rows = rows
joined_row a (some b) rows = (a, b) ∷ rows

-- A JOIN on a primary key of the second table.
unfoldable pub join_rows {ℓ κ} : {A : Type ℓ} {B : Type κ} → (A → Option B) → List A → List (A × B)
join_rows partner [] = []
join_rows partner (a ∷ as_) = let rows = join_rows partner as_ in joined_row a (partner a) rows

-- A map gets an entry in front, where a lookup finds it first.
pub record Ruleset (F S : Type 0) : Type 0 where
  pub env_id : ℕ
  pub version : ℕ
  pub flags : List (String × F)
  pub segments : List (String × S)
  pub client_flags : List String

-- The rulesets by environment.
abbrev pub Rulesets : Type 0 → Type 0 → Type 0
Rulesets F S = ℕ → Option (Ruleset F S)

module _ {F S : Type 0} where
  abbrev pub empty_ruleset : ℕ → Ruleset F S
  empty_ruleset env_id = record {
    env_id = env_id;
    version = 0;
    flags = [];
    segments = [];
    client_flags = [];
  }

  module _ (unmarshal_flag : Flag → FlagEnvironmentConfig → Option F) where
    abbrev pub add_flag : Flag → FlagEnvironmentConfig → F → Ruleset F S → Ruleset F S
    add_flag f c flag rs = record rs {
      version = add_int64 rs.version c.version;
      flags = (f.key, flag) ∷ rs.flags;
      client_flags =
          if f.client_side_available then rs.client_flags ++ (f.key ∷ []) else rs.client_flags;
    }

    -- The loop over the rows of the flags.
    unfoldable pub take_flags :
        List (Flag × FlagEnvironmentConfig) → Ruleset F S → Option (Ruleset F S)
    take_flags [] rs = some rs
    take_flags ((f, c) ∷ rows) rs = do
      flag ← unmarshal_flag f c
      take_flags rows (add_flag f c flag rs)

  module _ (unmarshal_segment : Segment → SegmentEnvironmentConfig → Option S) where
    abbrev pub add_segment : Segment → SegmentEnvironmentConfig → S → Ruleset F S → Ruleset F S
    add_segment s c seg rs = record rs {
      version = add_int64 rs.version c.version;
      segments = (s.key, seg) ∷ rs.segments;
    }

    -- The loop over the rows of the segments.
    unfoldable pub take_segments :
        List (Segment × SegmentEnvironmentConfig) → Ruleset F S → Option (Ruleset F S)
    take_segments [] rs = some rs
    take_segments ((s, c) ∷ rows) rs = do
      seg ← unmarshal_segment s c
      take_segments rows (add_segment s c seg rs)

  -- Whether a load replaces what is held: `!ok || prev.Version != rs.Version`.
  abbrev pub is_stale : Option (Ruleset F S) → Ruleset F S → Bool
  is_stale none rs = true
  is_stale (some prev) rs = not (nat_eq prev.version rs.version)

  abbrev pub put : ℕ → Ruleset F S → Rulesets F S → Rulesets F S
  put id rs envs k = if nat_eq id k then some rs else envs k

  -- One turn of the loop of `LoadAll`.
  abbrev pub refresh : ℕ → Ruleset F S → Rulesets F S → Rulesets F S
  refresh id rs envs = if is_stale (envs id) rs then put id rs envs else envs

  abbrev pub note_change : ℕ → Ruleset F S → Rulesets F S → List ℕ → List ℕ
  note_change id rs envs changed = if is_stale (envs id) rs then changed ++ (id ∷ []) else changed

  -- One turn: an environment that cannot be assembled ends the load.
  abbrev pub load_one :
      ℕ
      → Option (Ruleset F S)
      → (Rulesets F S → List ℕ → Option (List ℕ) × Rulesets F S)
      → Rulesets F S
      → List ℕ
      → Option (List ℕ) × Rulesets F S
  load_one id none rest envs changed = (none, envs)
  load_one id (some rs) rest envs changed =
      rest (refresh id rs envs) (note_change id rs envs changed)

  -- The loop of `LoadAll`: what was taken in before an error stays.
  unfoldable pub load_refs :
      (Environment → Option (Ruleset F S))
      → List Environment
      → Rulesets F S
      → List ℕ
      → Option (List ℕ) × Rulesets F S
  load_refs assembled [] envs changed = (some changed, envs)
  load_refs assembled (e ∷ es) envs changed =
      load_one e.id (assembled e) (load_refs assembled es) envs changed

module _ ⦃E : Engine⦄ (d : Database) where
  -- The rows of the two queries of `assemble`.
  abbrev pub flag_rows : Environment → List (Flag × FlagEnvironmentConfig)
  flag_rows e =
      join_rows (λ f. E.get (f.id, e.id) d.flag_configs)
        (E.scalars (λ f. f.project_id == e.project_id && is_none f.archived_at) d.flags)

  abbrev pub segment_rows : Environment → List (Segment × SegmentEnvironmentConfig)
  segment_rows e =
      join_rows (λ s. E.get (s.id, e.id) d.segment_configs)
        (E.scalars (λ s. s.project_id == e.project_id) d.segments)

module _ ⦃E : Engine⦄ {F S : Type 0} (unmarshal_flag : Flag → FlagEnvironmentConfig → Option F)
    (unmarshal_segment : Segment → SegmentEnvironmentConfig → Option S) (d : Database) where
  unfoldable pub assemble : Environment → Option (Ruleset F S)
  unfolding join_rows take_flags take_segments
  assemble e = do
    rs ← take_flags unmarshal_flag (flag_rows d e) (empty_ruleset e.id)
    take_segments unmarshal_segment (segment_rows d e) rs

  unfoldable pub load_all : Rulesets F S → Option (List ℕ) × Rulesets F S
  unfolding load_refs assemble
  load_all envs = load_refs assemble (E.scalars (λ e. true) d.environments) envs []
