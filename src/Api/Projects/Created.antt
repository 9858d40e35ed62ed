-- ===== src/Api/Projects/Created.antt =====
-- What `create_project` of control-plane/app/api/projects.py has done where it returned, and the
-- answer to a key that is taken.
use feature_flags.Base.{
  some, ◌≡◌, refl, sym, ap, Bool, true, ◌||◌, not, none, id_key, text_key, arith, eq_iff,
}
use feature_flags.Base.Maybe.{is_none}
use feature_flags.Models.{Project}
use feature_flags.Schemas.Catalog.{ProjectCreate}
use feature_flags.Services.Audit.{audit_row, record_audit}
use feature_flags.Store.Engine.{Engine}
use feature_flags.Store.Session.{Context, Transaction, Result, ok, err}
use feature_flags.Store.Actions.{raise_if-ok, raise_if-true}
use feature_flags.Store.Tables.{not-is_none-false, or_false, scalar-add_new}
use feature_flags.Api.Common.{has_key}
use feature_flags.Api.Lookups.{get_project_at}
use feature_flags.Api.Projects.{
  project_of, project_entry, project_clashes, create_project, get_one_project, exists_already,
}

or_right : (a b : Bool) → b ≡ true → a || b ≡ true
or_right a b h = ground arith

module _ ⦃E : Engine⦄ (c : Context) (body : ProjectCreate) where
  pub record Created (s s' : Transaction) (project : Project) : Type 0 where
    pub is_project_of : project ≡ project_of c body
    pub unused_key : E.scalar (has_key body.key) s.projects ≡ none
    pub unused_id : E.get c.uuid s.projects ≡ none
    pub tables : s'.tables ≡ record s.tables {
      projects = E.add (project_of c body) s.projects;
      audit_logs = E.add (audit_row c (project_entry (project_of c body))) s.audit_logs;
    }
    pub notified : s'.notified ≡ s.notified

  pub create_project-Created :
      (s : Transaction) {project : Project} {s' : Transaction}
      → create_project c body s ≡ (ok project, s')
      → Created s s' project
  unfolding create_project record_audit project_clashes
  create_project-Created s h =
      let new = project_of c body in
      let (free, h1) = raise_if-ok (project_clashes new s.tables) _ _ s h in
      let (id_free, key_free) =
        or_false (not (is_none (E.get new.id s.projects)))
          (not (is_none (E.scalar (has_key body.key) s.projects))) free in
      let end = ap (λ (r : Result Project × Transaction). r.1) h1 in
      record {
        is_project_of = cc (ap (λ (r : Result Project × Transaction). r.0) h1);
        unused_key = not-is_none-false _ key_free;
        unused_id = not-is_none-false _ id_free;
        tables = ap (λ (t : Transaction). t.tables) (sym end);
        notified = ap (λ (t : Transaction). t.notified) (sym end);
      }

  -- A project that was created is the one that its key finds.
  pub get_one_project-create_project :
      (s : Transaction) {project : Project} {s' : Transaction}
      → create_project c body s ≡ (ok project, s')
      → get_one_project body.key s' ≡ (ok (project_of c body), s')
  unfolding get_one_project
  get_one_project-create_project s {s' = s'} h =
      let m = create_project-Created s h in
      get_project_at body.key s' (project_of c body) (
        rw m.tables (
          scalar-add_new (has_key body.key) (project_of c body) s.projects m.unused_key
            ((eq_iff body.key body.key).1 refl)))

  -- After a project was created, creating another of the same key is answered with 409 and writes
  -- nothing.
  pub create_project_again :
      (s : Transaction) {project : Project} {s' : Transaction} (d : Context) (other : ProjectCreate)
      → create_project c body s ≡ (ok project, s')
      → other.key ≡ body.key
      → create_project d other s' ≡ (err (exists_already "project" other.key), s')
  unfolding create_project get_one_project project_clashes
  create_project_again s {s' = s'} d other h same =
      let m = create_project-Created s h in
      let taken : E.scalar (has_key other.key) s'.projects ≡ some (project_of c body) =
        rw (same, m.tables)
          (scalar-add_new (has_key body.key) (project_of c body) s.projects m.unused_key
            ((eq_iff body.key body.key).1 refl)) in
      raise_if-true (project_clashes (project_of d other) s'.tables) _ _ s' (
        or_right (not (is_none (E.get d.uuid s'.projects)))
          (not (is_none (E.scalar (has_key other.key) s'.projects))) (rw taken refl))
