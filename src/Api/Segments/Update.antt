-- ===== src/Api/Segments/Update.antt =====
-- What the writing handlers of control-plane/app/api/segments.py have done where they returned.
use feature_flags.Base.Maybe.{is_none}
use feature_flags.Api.Common.{is_environment, is_segment, has_key}
use feature_flags.Models.{Environment, Segment, Project, SegmentEnvironmentConfig}
use feature_flags.Schemas.Segment.{SegmentCreate, SegmentConfigUpdate}
use feature_flags.Api.Segments.{
  flushed_segment_config, write_segment_config, start_config, segment_entry, segment_update_entry,
  segment_of, segment_config_out, save_segment_config, update_segment_config, apply_segment_update,
  SegmentConfigOut, segment_clashes, create_segment,
}
use feature_flags.Schemas.Pydantic.{Pydantic}
use feature_flags.Store.Engine.{Engine}
use feature_flags.Store.Session.{Result, ok, Transaction, Context}
use feature_flags.Store.Tables.{not-is_none-false, or_false}
use feature_flags.Store.Actions.{or_raise_last, raise_if-ok}
use feature_flags.Services.Outbox.{outbox, env_changed_bind-ok}
use feature_flags.Services.Audit.{audit_row, record_audit}
use feature_flags.Api.Lookups.{get_project-ok, get_segment-ok, get_environment-ok}
use feature_flags.Base.{
  sym, pair_key, ap, id_key, none, some, arith, false, ◌<◌, ◌≡◌, ltb, not, String, ℕ, ◌^◌,
}

ltb_of_not : (n m : ℕ) → not (ltb n m) ≡ false → n < m
ltb_of_not n m h = ground arith

module _ ⦃E : Engine⦄ where
  pub record Created (c : Context) (project_key : String) (body : SegmentCreate)
      (s s' : Transaction) (seg : Segment) : Type 0 where
    pub project : Project
    pub project_found : E.scalar (has_key project_key) s.projects ≡ some project
    pub is_segment_of : seg ≡ segment_of c project.id body
    pub unused_key : E.scalar (is_segment project.id body.key) s.segments ≡ none
    pub unused_id : E.get c.uuid s.segments ≡ none
    pub tables : s'.tables ≡ record s.tables {
      segments = E.add (segment_of c project.id body) s.segments;
      audit_logs =
          E.add (audit_row c (segment_entry project (segment_of c project.id body))) s.audit_logs;
    }
    pub notified : s'.notified ≡ s.notified

  pub create_segment-Created :
      (c : Context) (project_key : String) (body : SegmentCreate) (s : Transaction) {seg : Segment}
      {s' : Transaction}
      → create_segment c project_key body s ≡ (ok seg, s')
      → Created c project_key body s s' seg
  unfolding create_segment record_audit segment_clashes
  create_segment-Created c project_key body s h =
      let (project, found, h1) = get_project-ok project_key _ s h in
      let new = segment_of c project.id body in
      let (free, h2) = raise_if-ok (segment_clashes new s.tables) _ _ s h1 in
      let (id_free, key_free) =
        or_false (not (is_none (E.get new.id s.segments)))
          (not (is_none (E.scalar (is_segment project.id body.key) s.segments))) free in
      let end = ap (λ (r : Result Segment × Transaction). r.1) h2 in
      record {
        project = project;
        project_found = found;
        is_segment_of = cc (ap (λ (r : Result Segment × Transaction). r.0) h2);
        unused_key = not-is_none-false _ key_free;
        unused_id = not-is_none-false _ id_free;
        tables = ap (λ (t : Transaction). t.tables) (sym end);
        notified = ap (λ (t : Transaction). t.notified) (sym end);
      }

  -- The rows that the path parameters name.
  pub record Located (project_key segment_key env_key : String) (s : Transaction) : Type 0 where
    pub project : Project
    pub seg : Segment
    pub env : Environment
    pub project_found : E.scalar (has_key project_key) s.projects ≡ some project
    pub seg_found : E.scalar (is_segment project.id segment_key) s.segments ≡ some seg
    pub env_found : E.scalar (is_environment project.id env_key) s.environments ≡ some env

  module _ ⦃p : Pydantic⦄ where
    module _ (c : Context) (project_key segment_key env_key : String)
        (body : SegmentConfigUpdate) where
      -- The row that is written.
      abbrev pub next_config :
          {s : Transaction} → Located project_key segment_key env_key s → SegmentEnvironmentConfig
      next_config {s} at =
          apply_segment_update c body
            (start_config c at.seg.id at.env.id (E.get (at.seg.id, at.env.id) s.segment_configs))

      -- What an update of the rows at a place has done.
      pub record Replaced (s : Transaction) (at : Located project_key segment_key env_key s)
          (s' : Transaction) (out : SegmentConfigOut) : Type 0 where
        pub fits : (next_config at).version < 2 ^ 63
        pub shown : segment_config_out at.env.key (next_config at) ≡ some out
        pub tables : s'.tables ≡ record s.tables {
          segment_configs =
              E.add
                (flushed_segment_config
                  (E.get (at.seg.id, at.env.id) s.segment_configs)
                  (next_config at))
                s.segment_configs;
          audit_logs =
              E.add (audit_row c (segment_update_entry at.project at.seg at.env body)) s.audit_logs;
        }
        pub notified : outbox c at.env.id s.notified ≡ some s'.notified

      pub record Updated (s s' : Transaction) (out : SegmentConfigOut) : Type 0 where
        pub at : Located project_key segment_key env_key s
        pub replaced : Replaced s at s' out
        pub open replaced use *

      pub written_at :
          {s s' : Transaction} {out : SegmentConfigOut}
          (at : Located project_key segment_key env_key s)
          → write_segment_config c at.project at.seg at.env
              (E.get (at.seg.id, at.env.id) s.segment_configs)
              body
              s
            ≡ (ok out, s')
          → Replaced s at s' out
      unfolding write_segment_config save_segment_config record_audit
      written_at {s} {s'} at h =
          let updated = next_config at in
          let (fit, h1) = raise_if-ok (not (ltb updated.version (2 ^ 63))) _ _ _ h in
          let (sent, out_of, h2) = env_changed_bind-ok c at.env.id _ _ h1 in
          let (shown, same) = or_raise_last (segment_config_out at.env.key updated) _ _ h2 in
          record {
            fits = ltb_of_not updated.version (2 ^ 63) fit;
            shown = shown;
            tables = ap (λ (t : Transaction). t.tables) same;
            notified = rw (ap (λ (t : Transaction). t.notified) same) out_of;
          }

      -- An update that returns has found its project, segment and environment, has written the
      -- members and rules of the request over the stored row, or over a new one, and its audit
      -- entry, and no other table, and has notified as the backend says.
      pub update_segment_config-Updated :
          (s : Transaction) {out : SegmentConfigOut} {s' : Transaction}
          → update_segment_config c project_key segment_key env_key body s ≡ (ok out, s')
          → Updated s s' out
      unfolding update_segment_config
      update_segment_config-Updated s h =
          let (project, ep, h1) = get_project-ok project_key _ s h in
          let (seg, es, h2) = get_segment-ok project.id segment_key _ s h1 in
          let (env, ee, h3) = get_environment-ok project.id env_key _ s h2 in
          let at : Located project_key segment_key env_key s = record {
            project = project;
            seg = seg;
            env = env;
            project_found = ep;
            seg_found = es;
            env_found = ee;
          } in
          record { at = at; replaced = written_at at h3 }
