-- ===== src/ControlPlane/Revisions/Runs.antt =====
-- Theorems about every sequence of calls.
use abrolia.Common.{
  ℕ, ◌≡◌, ◌≤◌, refl, Bool, true, false, not, Option, none, some, List, [], inl, inr, arith, find,
  count_where, Bool-cases, sym, ap, ◌∙◌, ok,
}
use mathlib.Core.Path.{subst}
use abrolia.Common.Rows.{find-test, find-update_where}
use abrolia.ControlPlane.Rows.{Text, Time, RevisionStatus, ConfigRevision}
use abrolia.ControlPlane.Consent.{ConsentPurpose}
use abrolia.ControlPlane.Schema.{Db}
use abrolia.ControlPlane.Configs.{Vault, Manifest, create_revision, issue_bootstrap, is_revision}
use abrolia.ControlPlane.Bootstrap.{Target, claim}
use abrolia.ControlPlane.Bootstrap.Replay.{Service, Activation}
use abrolia.ControlPlane.Bootstrap.Activation.{activate}
use abrolia.ControlPlane.Withdrawal.{
  Withdrawer, WithdrawalResult, Scope, scope_of, withdraw, is_standing_revision, is_standing_status,
  revoked_row,
}
use abrolia.ControlPlane.Revisions.{IsSound, serves, RowsStep-IsSound}
use abrolia.ControlPlane.Revisions.Lifecycle.{
  Lifecycle, stays, plans, issues, claims, activates, supersedes, revokes, status_of,
  RowsStep-Lifecycle,
}
use abrolia.ControlPlane.Revisions.Methods.{
  Changes, create_revision-Changes, issue_bootstrap-Changes, claim-Changes,
}
use abrolia.ControlPlane.Revisions.Activating.{activate-Changes}
use abrolia.ControlPlane.Revisions.Withdrawing.{
  LeavesTables, withdraw_lem, withdraw-Changes, revoked_rows,
}

-- A call by which a planned revision comes to serve.
pub data ServingStep : Db → Db → Type 0 where
  issued :
      (w : Vault) (fresh raw h ref : Text) (n : ℕ) (sha : Text) (expires now : Time) (db : Db)
      → ServingStep db (issue_bootstrap w fresh raw h ref n sha expires now db).1
  claimed :
      (w : Vault) (none_text raw : Text) (target : Target) (now : Time) (db : Db)
      → ServingStep db (claim w none_text raw target now db).1
  activated :
      (w : Service) (raw : Text) (target : Target) (a : Activation) (db : Db)
      → ServingStep db (activate w raw target a db).1

-- A call of a modelled method that writes to the table. The revocations of the onboarding commands and
-- of the provisioning worker, which set the status too, are no steps.
pub data ConfigStep : Db → Db → Type 0 where
  created :
      (w : Vault) (fresh h : Text) (schema_version : ℕ) (m : Manifest) (sha : Text) (now : Time)
      (db : Db)
      → ConfigStep db (create_revision w fresh h schema_version m sha now db).1
  serving : {s t : Db} → ServingStep s t → ConfigStep s t
  stopped :
      (w : Withdrawer) (h : Text) (p : ConsentPurpose) (fresh : Text) (now : Time) (db : Db)
      → LeavesTables w
      → ConfigStep db (withdraw w h p fresh now db).1

pub data ConfigRun (db : Db) : Db → Type 0 where
  here : ConfigRun db db
  next : {t u : Db} → ConfigRun db t → ConfigStep t u → ConfigRun db u

ServingStep-Changes : {s t : Db} → ServingStep s t → Changes s t
ServingStep-Changes (issued w fresh raw h ref n sha expires now db) =
    issue_bootstrap-Changes w fresh raw h ref n sha expires now db
ServingStep-Changes (claimed w none_text raw target now db) =
    claim-Changes w none_text raw target now db
ServingStep-Changes (activated w raw target a db) = activate-Changes w raw target a db

ConfigStep-Changes : {s t : Db} → ConfigStep s t → Changes s t
ConfigStep-Changes (created w fresh h schema_version m sha now db) =
    create_revision-Changes w fresh h schema_version m sha now db
ConfigStep-Changes (serving step) = ServingStep-Changes step
ConfigStep-Changes (stopped w h p fresh now db leaves) = withdraw-Changes w h p fresh now db leaves

ConfigRun-IsSound :
    {s t : Db} → IsSound s.config_revisions → ConfigRun s t → IsSound t.config_revisions
ConfigRun-IsSound sound here = sound
ConfigRun-IsSound sound (next run step) =
    RowsStep-IsSound (ConfigStep-Changes step) (ConfigRun-IsSound sound run)

start-IsSound : (db : Db) → db.config_revisions ≡ [] → IsSound db.config_revisions
start-IsSound db e =
    subst IsSound (sym e)
      (record { keys = tt; unique = λ h n. omega arith; one_active = λ h. omega arith })

-- From a database with no revisions, whatever revisions are created, issued, claimed and activated
-- and whatever consents are withdrawn, in any order and by whatever runtimes, at most one revision
-- serves a household.
pub one_serves :
    {s t : Db}
    → s.config_revisions ≡ []
    → ConfigRun s t
    → (h : Text) → count_where (serves h) t.config_revisions ≤ 1
one_serves {s = s} none_yet run h = (ConfigRun-IsSound (start-IsSound s none_yet) run).one_active h

-- After any modelled calls from a database with no revisions, one more such call is, for each revision
-- of each household, one step of the revision's life or none: the table refines the state machine `Lifecycle`.
pub ConfigStep-Lifecycle :
    {s t u : Db}
    → s.config_revisions ≡ []
    → ConfigRun s t
    → ConfigStep t u
    → (h : Text) (n : ℕ)
    → Lifecycle (status_of h n t.config_revisions) (status_of h n u.config_revisions)
ConfigStep-Lifecycle {s = s} none_yet run step h n =
    RowsStep-Lifecycle (ConfigRun-IsSound (start-IsSound s none_yet) run) (ConfigStep-Changes step)
      h n

-- The revision is superseded or revoked.
abbrev pub is_over : Option RevisionStatus → Bool
is_over none = false
is_over (some s) = not (is_standing_status s)

Lifecycle-is_over :
    {o o' : Option RevisionStatus} → Lifecycle o o' → is_over o ≡ true → is_over o' ≡ true
Lifecycle-is_over (stays o) e = e
Lifecycle-is_over plans e = absurd (ground arith)
Lifecycle-is_over (issues RevisionStatus.planned i) e = absurd (ground arith)
Lifecycle-is_over (issues RevisionStatus.issued i) e = absurd (ground arith)
Lifecycle-is_over (issues RevisionStatus.claimed i) e = absurd (ground arith)
Lifecycle-is_over (issues RevisionStatus.active i) e = absurd (ground arith)
Lifecycle-is_over (issues RevisionStatus.superseded i) e = absurd (ground arith)
Lifecycle-is_over (issues RevisionStatus.revoked i) e = absurd (ground arith)
Lifecycle-is_over claims e = absurd (ground arith)
Lifecycle-is_over activates e = absurd (ground arith)
Lifecycle-is_over supersedes e = refl
Lifecycle-is_over (revokes s i) e = refl

ConfigRun-is_over :
    {s t : Db}
    → IsSound s.config_revisions
    → ConfigRun s t
    → (h : Text) (n : ℕ) → is_over (status_of h n s.config_revisions) ≡ true
    → is_over (status_of h n t.config_revisions) ≡ true
ConfigRun-is_over sound here h n e = e
ConfigRun-is_over sound (next run step) h n e =
    Lifecycle-is_over
      (RowsStep-Lifecycle (ConfigRun-IsSound sound run) (ConfigStep-Changes step) h n)
      (ConfigRun-is_over sound run h n e)

revoked_over :
    (h : Text) (n : ℕ) (rows : List ConfigRevision) (r : ConfigRevision)
    → find (is_revision h n) rows ≡ some r
    → is_over (status_of h n (revoked_rows true h rows)) ≡ true
revoked_over h n rows r found =
    let moved =
      find-update_where (is_revision h n) (is_standing_revision h) revoked_row rows
        (λ s. ground arith) in
    let named = find-test (is_revision h n) rows r found in
    elim (Bool-cases (is_standing_status r.status)) [
      | inl standing ↦ ground (arith, moved, found, named, standing)
      | inr over ↦ ground (arith, moved, found, named, over)
    ]

-- After any modelled calls from a database with no revisions: once a household withdraws a consent
-- whose scope stops the runtime, every revision that it has then is superseded or revoked, and stays so whatever
-- is created, issued, claimed, activated or withdrawn afterwards, where the teardown of resources
-- leaves the tables of revisions and receipts alone.
pub withdraw_over :
    {s t u : Db} (w : Withdrawer) (h : Text) (p : ConsentPurpose) (scope : Scope) (fresh : Text)
    (now : Time) (result : WithdrawalResult) (n : ℕ) (r : ConfigRevision)
    → s.config_revisions ≡ []
    → ConfigRun s t
    → LeavesTables w
    → scope_of p ≡ some scope
    → scope.stops_runtime ≡ true
    → (withdraw w h p fresh now t).0 ≡ ok result
    → ConfigRun (withdraw w h p fresh now t).1 u
    → find (is_revision h n) t.config_revisions ≡ some r
    → is_over (status_of h n u.config_revisions) ≡ true
withdraw_over {s} {t} {u} w h p scope fresh now result n r none_yet run leaves known stops passed
      after found =
    let sound = ConfigRun-IsSound (start-IsSound s none_yet) run in
    let sound_after = RowsStep-IsSound (withdraw-Changes w h p fresh now t leaves) sound in
    let rows = (withdraw_lem w h p scope fresh now t result leaves known passed).0 in
    let over =
      subst (λ rows'. is_over (status_of h n rows') ≡ true)
        (sym (rows ∙ ap (λ flag. revoked_rows flag h t.config_revisions) stops))
        (revoked_over h n t.config_revisions r found) in
    ConfigRun-is_over sound_after after h n over
