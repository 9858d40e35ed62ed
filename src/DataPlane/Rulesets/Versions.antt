-- ===== src/DataPlane/Rulesets/Versions.antt =====
-- The version of a ruleset that data-plane/internal/store/store.go assembles: the sum of the versions
-- of its rows.
use mathlib.Core.Option.{some-injective}
use mathlib.Core.Option
use feature_flags.Base.Maybe.{is_none, Ensures-some, Ensures-bind, Ensures}
use feature_flags.Store.Session.{Database}
use feature_flags.DataPlane.Rulesets.{
  joined_row, add_segment, add_flag, empty_ruleset, flag_rows, segment_rows, assemble, add_int64,
  Ruleset, take_segments, take_flags, join_rows,
}
use feature_flags.Models.{
  Environment, Segment, Flag, SegmentEnvironmentConfig, FlagEnvironmentConfig,
}
use feature_flags.Store.Engine.{Engine}
use feature_flags.Base.{
  id_key, pair_key, ◌&&◌, sym, ◌==◌, ap, ◌∙◌, ◌≡◌, Option, List, ℕ, refl, [], ◌∷◌, none, some,
}

-- The sum of the versions of rows.
abbrev pub sum_versions : {A B : Type 0} → (B → ℕ) → List (A × B) → ℕ → ℕ
sum_versions version [] v = v
sum_versions version ((a, b) ∷ rows) v = sum_versions version rows (add_int64 v (version b))

same_row :
    {A B : Type 0} (version : B → ℕ) (a : A) (p q : Option B) (rows rows' : List (A × B))
    → Option.map version p ≡ Option.map version q
    → ((v : ℕ) → sum_versions version rows v ≡ sum_versions version rows' v)
    → (v : ℕ)
    → sum_versions version (joined_row a p rows) v ≡ sum_versions version (joined_row a q rows') v
same_row version a none none rows rows' h rest v = rest v
same_row version a none (some q) rows rows' h rest v = absurd (cc h)
same_row version a (some p) none rows rows' h rest v = absurd (cc h)
same_row version a (some p) (some q) rows rows' h rest v =
    let same = some-injective (version p) (version q) h in
    ap (λ n. sum_versions version rows (add_int64 v n)) same ∙ rest (add_int64 v (version q))

-- Two joins whose partners have the same versions have the same sum.
pub sum_versions-join_rows :
    {A B : Type 0} (version : B → ℕ) (p q : A → Option B)
    → ((a : A) → Option.map version (p a) ≡ Option.map version (q a))
    → (as_ : List A) (v : ℕ)
    → sum_versions version (join_rows p as_) v ≡ sum_versions version (join_rows q as_) v
unfolding join_rows
sum_versions-join_rows version p q h [] v = refl
sum_versions-join_rows version p q h (a ∷ as_) v =
    same_row version a (p a) (q a) (join_rows p as_) (join_rows q as_) (h a)
      (sum_versions-join_rows version p q h as_) v

abbrev pub config_version : FlagEnvironmentConfig → ℕ
config_version c = c.version

abbrev segment_version : SegmentEnvironmentConfig → ℕ
segment_version c = c.version

module _ {F S : Type 0} where
  take_flags-version :
      (unmarshal : Flag → FlagEnvironmentConfig → Option F)
      (rows : List (Flag × FlagEnvironmentConfig)) (rs : Ruleset F S)
      → Ensures
          (λ (r : Ruleset F S). r.version ≡ sum_versions config_version rows rs.version)
          (take_flags unmarshal rows rs)
  unfolding take_flags
  take_flags-version unmarshal [] rs = Ensures-some rs refl
  take_flags-version unmarshal ((f, c) ∷ rows) rs =
      Ensures-bind (unmarshal f c) _
        λ flag e. take_flags-version unmarshal rows (add_flag unmarshal f c flag rs)

  take_segments-version :
      (unmarshal : Segment → SegmentEnvironmentConfig → Option S)
      (rows : List (Segment × SegmentEnvironmentConfig)) (rs : Ruleset F S)
      → Ensures
          (λ (r : Ruleset F S). r.version ≡ sum_versions segment_version rows rs.version)
          (take_segments unmarshal rows rs)
  unfolding take_segments
  take_segments-version unmarshal [] rs = Ensures-some rs refl
  take_segments-version unmarshal ((s, c) ∷ rows) rs =
      Ensures-bind (unmarshal s c) _
        λ seg e. take_segments-version unmarshal rows (add_segment unmarshal s c seg rs)

module _ ⦃E : Engine⦄ {F S : Type 0} (unmarshal_flag : Flag → FlagEnvironmentConfig → Option F)
    (unmarshal_segment : Segment → SegmentEnvironmentConfig → Option S) where
  abbrev total : Database → Environment → ℕ
  total d e =
      sum_versions segment_version (segment_rows d e)
        (sum_versions config_version (flag_rows d e) 0)

  assemble-total :
      (d : Database) (e : Environment)
      → Ensures
          (λ (r : Ruleset F S). r.version ≡ total d e)
          (assemble unmarshal_flag unmarshal_segment d e)
  unfolding assemble
  assemble-total d e =
      Ensures-bind (take_flags unmarshal_flag (flag_rows d e) (empty_ruleset e.id)) _ λ rs er.
        (record {
          at = λ out eo.
              (take_segments-version unmarshal_segment (segment_rows d e) rs).at out eo
              ∙ ap (sum_versions segment_version (segment_rows d e)) (
                  (take_flags-version unmarshal_flag (flag_rows d e) (empty_ruleset e.id)).at rs
                    er);
        })

  -- Two states of the database that differ only in configurations of flags, each with the version that
  -- it had, are assembled with the same version.
  module _ (d d' : Database) (e : Environment) (flags : d'.flags ≡ d.flags)
      (segments : d'.segments ≡ d.segments) (seg_configs : d'.segment_configs ≡ d.segment_configs)
      (versions : (k : ℕ × ℕ)
        → Option.map config_version (E.get k d'.flag_configs)
          ≡ Option.map config_version (E.get k d.flag_configs)) where
    segment_rows_same : segment_rows d' e ≡ segment_rows d e
    segment_rows_same =
        ap
          (λ t.
            join_rows (λ (s : Segment). E.get (s.id, e.id) t)
              (E.scalars (λ (s : Segment). s.project_id == e.project_id) d'.segments))
          seg_configs
        ∙ ap
            (λ t.
              join_rows (λ (s : Segment). E.get (s.id, e.id) d.segment_configs)
                (E.scalars (λ (s : Segment). s.project_id == e.project_id) t))
            segments

    flag_versions_same :
        sum_versions config_version (flag_rows d' e) 0
        ≡ sum_versions config_version (flag_rows d e) 0
    flag_versions_same =
        ap
          (λ t.
            sum_versions config_version
              (join_rows (λ (f : Flag). E.get (f.id, e.id) d'.flag_configs)
                (E.scalars (λ (f : Flag). f.project_id == e.project_id && is_none f.archived_at) t))
              0)
          flags
        ∙ sum_versions-join_rows config_version (λ (f : Flag). E.get (f.id, e.id) d'.flag_configs)
            (λ (f : Flag). E.get (f.id, e.id) d.flag_configs) (λ f. versions (f.id, e.id))
            (E.scalars (λ (f : Flag). f.project_id == e.project_id && is_none f.archived_at)
              d.flags)
            0

    pub assemble_version :
        {rs rs' : Ruleset F S}
        → assemble unmarshal_flag unmarshal_segment d e ≡ some rs
        → assemble unmarshal_flag unmarshal_segment d' e ≡ some rs'
        → rs'.version ≡ rs.version
    assemble_version {rs} {rs'} made made' =
        (assemble-total d' e).at rs' made'
        ∙ ap
            (λ rows.
              sum_versions segment_version rows (sum_versions config_version (flag_rows d' e) 0))
            segment_rows_same
        ∙ ap (sum_versions segment_version (segment_rows d e)) flag_versions_same
        ∙ sym ((assemble-total d e).at rs made)
