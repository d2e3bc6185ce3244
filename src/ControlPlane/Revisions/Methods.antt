-- ===== src/ControlPlane/Revisions/Methods.antt =====
-- What each method does to the table of revisions: creating, issuing and claiming.
use abrolia.Common.{
  ℕ, ◌≡◌, refl, true, not, ◌||◌, ◌==◌, inl, inr, arith, exists, Bool-cases, sym, raise_if, ◌>>=◌,
  bind_keeps, write_keeps, ◌+◌, is_none, is_some, leb,
}
use mathlib.Core.Path.{subst}
use abrolia.ControlPlane.Rows.{Text, Time, ConfigRevision, BootstrapToken}
use abrolia.ControlPlane.Schema.{has_household, Db, bootstrap_gone}
use abrolia.ControlPlane.Configs.{
  Vault, Manifest, is_taken, manifest, max_revision, new_revision, insert_revision, create_revision,
  insert_token, issue_bootstrap,
}
use abrolia.ControlPlane.Bootstrap.{
  Target, open_token, claimable, mark_claimed, claim_marked, claim_with, claim,
}
use abrolia.ControlPlane.Revisions.{RowsStep, kept, added, reissued, taken, is_planned_status}

-- A step of the table between two databases.
abbrev pub Changes : Db → Db → Type 0
Changes s t = RowsStep s.config_revisions t.config_revisions

insert_revision-Changes :
    (r : ConfigRevision) (db : Db)
    → is_planned_status r.status ≡ true
    → Changes db (insert_revision r db).1
unfolding insert_revision
insert_revision-Changes r db planned =
    elim (Bool-cases (
      exists (is_taken r) db.config_revisions
      || (not (has_household db r.household_id) || r.schema_version == 0))) [
        | inl refused ↦ rw refused (kept refl)
        | inr free ↦ rw free (added r (ground arith) planned refl)
      ]

pub create_revision-Changes :
    (w : Vault) (fresh h : Text) (schema_version : ℕ) (m : Manifest) (sha : Text) (now : Time)
    (db : Db)
    → Changes db (create_revision w fresh h schema_version m sha now db).1
unfolding create_revision
create_revision-Changes w fresh h schema_version m sha now db =
    let n = max_revision h db.config_revisions + 1 in
    elim (Bool-cases (not (m.config_revision == n))) [
      | inl wrong ↦ rw wrong (kept refl)
      | inr next ↦
          rw next
            (insert_revision-Changes (new_revision w fresh h n schema_version m sha now) db refl)
    ]

pub issue_bootstrap-Changes :
    (w : Vault) (fresh raw h ref : Text) (n : ℕ) (sha : Text) (expires now : Time) (db : Db)
    → Changes db (issue_bootstrap w fresh raw h ref n sha expires now db).1
unfolding issue_bootstrap insert_token
issue_bootstrap-Changes w fresh raw h ref n sha expires now db = reissued h n now (ground arith)

pub open_token_reads :
    (w : Vault) (raw : Text) (target : Target) (db : Db) → (open_token w raw target db).1 ≡ db
unfolding open_token
open_token_reads w raw target db = ground arith

claimable_reads :
    (none_text : Text) (row : BootstrapToken) (target : Target) (db : Db)
    → (claimable none_text row target db).1 ≡ db
unfolding claimable
claimable_reads none_text row target db = ground arith

mark_claimed-Changes :
    (row : BootstrapToken) (r : ConfigRevision) (now : Time) (db : Db)
    → Changes db (mark_claimed row r now db)
unfolding mark_claimed
mark_claimed-Changes row r now db = elim (Bool-cases (is_none row.claimed_at)) [
  | inl first ↦ rw first (taken r.id now refl)
  | inr again ↦ rw again (kept refl)
]

claim_marked_lem :
    (w : Vault) (target : Target) (now : Time) (row : BootstrapToken) (r : ConfigRevision) (db : Db)
    → (claim_marked w target now row r db).1 ≡ mark_claimed row r now db
unfolding claim_marked manifest
claim_marked_lem w target now row r db = ground arith

claim_marked-Changes :
    (w : Vault) (target : Target) (now : Time) (row : BootstrapToken) (r : ConfigRevision) (db : Db)
    → Changes db (claim_marked w target now row r db).1
claim_marked-Changes w target now row r db =
    subst (Changes db) (sym (claim_marked_lem w target now row r db))
      (mark_claimed-Changes row r now db)

claim_with-Changes :
    (w : Vault) (none_text : Text) (target : Target) (now : Time) (row : BootstrapToken) (db : Db)
    → Changes db (claim_with w none_text target now row db).1
unfolding claim_with
claim_with-Changes w none_text target now row db =
    bind_keeps (Changes db)
      (raise_if (is_some row.used_at || (is_some row.revoked_at || leb row.expires_at now))
        bootstrap_gone)
      (λ u. claimable none_text row target >>= claim_marked w target now row) db refl (kept refl)
      (λ u.
        bind_keeps (Changes db) (claimable none_text row target) (claim_marked w target now row) db
          (claimable_reads none_text row target db) (kept refl)
          (λ r. claim_marked-Changes w target now row r db))

pub claim-Changes :
    (w : Vault) (none_text raw : Text) (target : Target) (now : Time) (db : Db)
    → Changes db (claim w none_text raw target now db).1
unfolding claim
claim-Changes w none_text raw target now db =
    write_keeps (Changes db) (open_token w raw target >>= claim_with w none_text target now) db
      (kept refl)
      (λ a e.
        bind_keeps (Changes db) (open_token w raw target) (claim_with w none_text target now) db
          (open_token_reads w raw target db) (kept refl)
          (λ row. claim_with-Changes w none_text target now row db))
