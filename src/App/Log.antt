-- ===== src/App/Log.antt =====
-- The audit log of control-plane/app/models/audit.py over a run of the server.
use feature_flags.App.Audited.{handle-Audited}
use feature_flags.Models.{audit_pk, AuditLog}
use feature_flags.App.Requests.{handle, Request}
use feature_flags.App.Served.{serve}
use feature_flags.Services.Audit.{Entry, audit_row}
use feature_flags.Schemas.Pydantic.{Pydantic}
use feature_flags.Store.Session.{Database, Server, Context}
use feature_flags.Store.Engine.{Engine}
use feature_flags.Base.{
  ◌∷◌, [], inr, id_key, ◌∙◌, nat_eq_iff, ap, inl, arith, false, nat_eq, some, ◌≡◌, All, List, ◌≢◌,
  Bool, String, ℕ,
}

-- The request draws another number of the audit sequence than `k`.
abbrev pub DrawsOther : ℕ → Context × Request → Type 0
DrawsOther k (c, r) = c.serial ≢ k

module _ ⦃E : Engine⦄ where
  add_other :
      (c : Context) (entry : Entry) (k : ℕ) (row : AuditLog) (t : E.Table audit_pk)
      → c.serial ≢ k
      → E.get k t ≡ some row
      → E.get k (E.add (audit_row c entry) t) ≡ some row
  add_other c entry k row t ne at =
      let other : nat_eq c.serial k ≡ false = ground (arith, nat_eq_iff c.serial k) in
      E.get-add k (audit_row c entry) t ∙ rw other at

  handle_keeps_log :
      ⦃p : Pydantic⦄ (collates : String → String → Bool) (c : Context) (r : Request) (v : Server)
      (k : ℕ) (row : AuditLog)
      → c.serial ≢ k
      → E.get k v.audit_logs ≡ some row
      → E.get k (handle collates c r v).1.audit_logs ≡ some row
  handle_keeps_log collates c r v k row ne at = elim (handle-Audited collates c r v) [
    | inl same ↦ ap (λ (d : Database). E.get k d.audit_logs) same ∙ at
    | inr audited ↦
        ap (E.get k) audited.written ∙ add_other c audited.entry k row v.audit_logs ne at
  ]

  -- The audit log only grows: an entry stays as it was written, whatever requests are taken, as long
  -- as none of them draws the number of the entry from the sequence again.
  pub serve_keeps_log :
      ⦃p : Pydantic⦄ (collates : String → String → Bool) (rs : List (Context × Request))
      (v : Server) (k : ℕ) (row : AuditLog)
      → All (DrawsOther k) rs
      → E.get k v.audit_logs ≡ some row
      → E.get k (serve collates rs v).audit_logs ≡ some row
  unfolding serve
  serve_keeps_log collates [] v k row ne at = at
  serve_keeps_log collates ((c, r) ∷ rs) v k row (ne, others) at =
      serve_keeps_log collates rs (handle collates c r v).1 k row others
        (handle_keeps_log collates c r v k row ne at)
