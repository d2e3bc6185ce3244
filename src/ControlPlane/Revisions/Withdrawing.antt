-- ===== src/ControlPlane/Revisions/Withdrawing.antt =====
-- What a withdrawal does to the tables of revisions and of receipts.
use abrolia.Common.{
  ℕ, ◌≡◌, refl, Bool, true, false, not, Option, none, some, List, inl, inr, arith, update_where,
  Bool-cases, Option-cases, sym, ap, ok, pure, ◌>>=◌, bind_goes, bind_ok, write_ok, write_keeps,
}
use mathlib.Core.Path.{subst}
use abrolia.ControlPlane.Rows.{Text, Time, ConfigRevision}
use abrolia.ControlPlane.Consent.{ConsentPurpose, Receipt}
use abrolia.ControlPlane.Schema.{Db}
use abrolia.ControlPlane.Jobs.{create, insert_job}
use abrolia.ControlPlane.Withdrawal.{
  Scope, scope_of, Withdrawer, WithdrawalResult, result_of, cycle_of, is_standing,
  withdrawn_receipt, revoke_receipts, is_standing_revision, revoked_row, revoke_revisions,
  disconnect_resources, runtime_of, workflow_for, stop_job, enqueue_stop, stop_runtime, tear_down,
  withdraw_in, withdraw_scoped, withdraw,
}
use abrolia.ControlPlane.Revisions.{kept, withdrawn}
use abrolia.ControlPlane.Revisions.Methods.{Changes}

-- The two tables of a database.
abbrev pub Same : List ConfigRevision → List Receipt → Db → Type 0
Same rows receipts t = (t.config_revisions ≡ rows) × (t.consent_receipts ≡ receipts)

-- The teardown of resources writes to other tables.
abbrev pub LeavesTables : Withdrawer → Type 0
LeavesTables w =
    (scope : Scope) (h : Text) (now : Time) (db : Db)
    → Same db.config_revisions db.consent_receipts (disconnect_resources w scope h now db).1

abbrev pub revoked_rows : Bool → Text → List ConfigRevision → List ConfigRevision
revoked_rows false h rows = rows
revoked_rows true h rows = update_where (is_standing_revision h) revoked_row rows

stop_job_leaves :
    (w : Withdrawer) (h : Text) (p : ConsentPurpose) (cycle : List Text) (fresh : Text) (now : Time)
    (ref workflow_id : Text) (db : Db)
    → Same db.config_revisions db.consent_receipts
        (stop_job w h p cycle fresh now ref workflow_id db).1
unfolding stop_job create insert_job
stop_job_leaves w h p cycle fresh now ref workflow_id db = ground arith

enqueue_stop_leaves :
    (w : Withdrawer) (h : Text) (p : ConsentPurpose) (cycle : List Text) (fresh : Text) (now : Time)
    (db : Db)
    → Same db.config_revisions db.consent_receipts (enqueue_stop w h p cycle fresh now db).1
unfolding enqueue_stop
enqueue_stop_leaves w h p cycle fresh now db =
    elim (Bool-cases (not (w.is_runtime_ref (runtime_of h db)))) [
      | inl nobody ↦ rw nobody (refl, refl)
      | inr told ↦ rw told (elim (Option-cases (workflow_for h db)) [
        | inl missing ↦ rw missing (refl, refl)
        | inr (f, found) ↦
            rw found (stop_job_leaves w h p cycle fresh now (runtime_of h db) f.id db)
      ])
    ]

stop_runtime_leaves :
    (flag : Bool) (w : Withdrawer) (h : Text) (p : ConsentPurpose) (cycle : List Text)
    (fresh : Text) (now : Time) (db : Db)
    → Same db.config_revisions db.consent_receipts (stop_runtime flag w h p cycle fresh now db).1
unfolding stop_runtime
stop_runtime_leaves false w h p cycle fresh now db = (refl, refl)
stop_runtime_leaves true w h p cycle fresh now db = enqueue_stop_leaves w h p cycle fresh now db

tear_down_leaves :
    (w : Withdrawer) (h : Text) (p : ConsentPurpose) (scope : Scope) (fresh : Text) (now : Time)
    (cycle : List Text) (receipts revisions : ℕ) (rows : List ConfigRevision) (held : List Receipt)
    (s : Db)
    → LeavesTables w
    → Same rows held s
    → Same rows held (tear_down w h p scope fresh now cycle receipts revisions s).1
unfolding tear_down
tear_down_leaves w h p scope fresh now cycle receipts revisions rows held s leaves same =
    bind_goes (Same rows held) (disconnect_resources w scope h now)
      (λ cleanups. stop_runtime scope.stops_runtime w h p cycle fresh now >>= λ job.
        pure (result_of h p receipts revisions cleanups job))
      s (ground (arith, leaves scope h now s))
      (λ cleanups t e.
        bind_goes (Same rows held) (stop_runtime scope.stops_runtime w h p cycle fresh now)
          (λ job. pure (result_of h p receipts revisions cleanups job)) t
          (ground (arith, stop_runtime_leaves scope.stops_runtime w h p cycle fresh now t))
          (λ job u k. k))

revoke_receipts_lem :
    (h : Text) (p : ConsentPurpose) (now : Time) (db : Db) (n : ℕ)
    → (revoke_receipts h p now db).0 ≡ ok n
    → Same db.config_revisions
        (update_where (is_standing h p) (withdrawn_receipt now) db.consent_receipts)
        (revoke_receipts h p now db).1
unfolding revoke_receipts
revoke_receipts_lem h p now db n e = ground arith

revoke_revisions_lem :
    (flag : Bool) (h : Text) (held : List Receipt) (rows : List ConfigRevision) (s : Db)
    → Same rows held s
    → Same (revoked_rows flag h rows) held (revoke_revisions flag h s).1
unfolding revoke_revisions
revoke_revisions_lem false h held rows s same = same
revoke_revisions_lem true h held rows s same =
    (ap (update_where (is_standing_revision h) revoked_row) same.0, same.1)

withdraw_in_lem :
    (w : Withdrawer) (h : Text) (p : ConsentPurpose) (scope : Scope) (fresh : Text) (now : Time)
    (db : Db) (result : WithdrawalResult)
    → LeavesTables w
    → (withdraw_in w h p scope fresh now db).0 ≡ ok result
    → Same
        (revoked_rows scope.stops_runtime h db.config_revisions)
        (update_where (is_standing h p) (withdrawn_receipt now) db.consent_receipts)
        (withdraw_in w h p scope fresh now db).1
unfolding withdraw_in
withdraw_in_lem w h p scope fresh now db result leaves e =
    let cycle = cycle_of h p db.consent_receipts in
    let rest = λ (n : ℕ) (m : ℕ). tear_down w h p scope fresh now cycle n m in
    let held = update_where (is_standing h p) (withdrawn_receipt now) db.consent_receipts in
    let after = revoked_rows scope.stops_runtime h db.config_revisions in
    let (n, first, second, left) =
      bind_ok (revoke_receipts h p now)
        (λ n.
          revoke_revisions scope.stops_runtime h >>= λ m. tear_down w h p scope fresh now cycle n m)
        db result e in
    let s = (revoke_receipts h p now db).1 in
    let moved =
      bind_goes (Same after held) (revoke_revisions scope.stops_runtime h) (rest n) s
        (revoke_revisions_lem scope.stops_runtime h held db.config_revisions s
          (revoke_receipts_lem h p now db n first))
        (λ m t same. tear_down_leaves w h p scope fresh now cycle n m after held t leaves same) in
    rw left moved

revoked_rows-RowsStep :
    (flag : Bool) (h : Text) (s t : Db)
    → t.config_revisions ≡ revoked_rows flag h s.config_revisions
    → Changes s t
revoked_rows-RowsStep false h s t e = kept e
revoked_rows-RowsStep true h s t e = withdrawn h e

withdraw_scoped-Changes :
    (scope : Option Scope) (w : Withdrawer) (h : Text) (p : ConsentPurpose) (fresh : Text)
    (now : Time) (db : Db)
    → LeavesTables w
    → Changes db (withdraw_scoped scope w h p fresh now db).1
unfolding withdraw_scoped
withdraw_scoped-Changes none w h p fresh now db leaves = kept refl
withdraw_scoped-Changes (some scope) w h p fresh now db leaves =
    write_keeps (Changes db) (withdraw_in w h p scope fresh now) db (kept refl) (λ a e.
      revoked_rows-RowsStep scope.stops_runtime h db (withdraw_in w h p scope fresh now db).1
        (withdraw_in_lem w h p scope fresh now db a leaves e).0)

pub withdraw-Changes :
    (w : Withdrawer) (h : Text) (p : ConsentPurpose) (fresh : Text) (now : Time) (db : Db)
    → LeavesTables w
    → Changes db (withdraw w h p fresh now db).1
unfolding withdraw
withdraw-Changes w h p fresh now db leaves =
    withdraw_scoped-Changes (scope_of p) w h p fresh now db leaves

withdraw_scoped_lem :
    (scope : Scope) (w : Withdrawer) (h : Text) (p : ConsentPurpose) (fresh : Text) (now : Time)
    (db : Db) (result : WithdrawalResult)
    → LeavesTables w
    → (withdraw_scoped (some scope) w h p fresh now db).0 ≡ ok result
    → Same
        (revoked_rows scope.stops_runtime h db.config_revisions)
        (update_where (is_standing h p) (withdrawn_receipt now) db.consent_receipts)
        (withdraw_scoped (some scope) w h p fresh now db).1
unfolding withdraw_scoped
withdraw_scoped_lem scope w h p fresh now db result leaves e =
    let (passed, left) = write_ok (withdraw_in w h p scope fresh now) db result e in
    rw left (withdraw_in_lem w h p scope fresh now db result leaves passed)

pub withdraw_lem :
    (w : Withdrawer) (h : Text) (p : ConsentPurpose) (scope : Scope) (fresh : Text) (now : Time)
    (db : Db) (result : WithdrawalResult)
    → LeavesTables w
    → scope_of p ≡ some scope
    → (withdraw w h p fresh now db).0 ≡ ok result
    → Same
        (revoked_rows scope.stops_runtime h db.config_revisions)
        (update_where (is_standing h p) (withdrawn_receipt now) db.consent_receipts)
        (withdraw w h p fresh now db).1
unfolding withdraw
withdraw_lem w h p scope fresh now db result leaves known =
    subst
      (λ held.
        (withdraw_scoped held w h p fresh now db).0 ≡ ok result
        → Same (revoked_rows scope.stops_runtime h db.config_revisions)
            (update_where (is_standing h p) (withdrawn_receipt now) db.consent_receipts)
            (withdraw_scoped held w h p fresh now db).1)
      (sym known) (withdraw_scoped_lem scope w h p fresh now db result leaves)
