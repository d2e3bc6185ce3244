-- ===== src/ControlPlane/Revisions/Activating.antt =====
-- What an activation does to the table of revisions.
use abrolia.Common.{
  ◌≡◌, refl, Bool, true, false, not, ◌||◌, Option, none, some, List, [], ◌∷◌, ◌==◌, arith, ap, ◌∙◌,
  if◌then◌else◌, Action, ok, pure, raise_if, ◌>>=◌, ◌>>◌, if_both, bind_keeps, bind_goes,
  bind_reads, bind_ok, write_keeps, is_some, select,
}
use abrolia.ControlPlane.Rows.{
  Text, Time, ConfigRevision, BootstrapToken, Membership, Workflow, Family,
}
use abrolia.ControlPlane.Schema.{Db, Error, Job, succeeded, bootstrap_gone, integrity}
use abrolia.ControlPlane.Jobs.{settle, create, insert_job}
use abrolia.ControlPlane.Configs.{get}
use abrolia.ControlPlane.Bootstrap.{Target, open_token}
use abrolia.ControlPlane.Bootstrap.Replay.{
  Service, Activation, ActivationReceipt, receipt_for, enqueue_cleanup, check_replay, answer,
  replay, when,
}
use abrolia.ControlPlane.Bootstrap.Checks.{
  Ready, check, ready_of, check_identity, check_target, check_rest, check_manifest, check_setup,
  is_claimed_status,
}
use abrolia.ControlPlane.Bootstrap.Activation.{
  activate_identity, go_live, serve, land, publish_for, owner_of, settle_jobs, finish,
  append_transition, publish, activate_with, activate, is_pending_runtime,
}
use abrolia.ControlPlane.Revisions.{kept, served}
use abrolia.ControlPlane.Revisions.Methods.{Changes, open_token_reads}

settle_leaves :
    (w : Service) (k : Text) (now : Time) (db : Db)
    → (settle w.seal w.unseal w.vault.key_version w.request_sha k succeeded none none none now
        db).1.config_revisions
      ≡ db.config_revisions
unfolding settle
settle_leaves w k now db = ground arith

settle_jobs_leaves :
    (w : Service) (jobs : List Job) (now : Time) (s db : Db)
    → s.config_revisions ≡ db.config_revisions
    → (settle_jobs w jobs now s).1.config_revisions ≡ db.config_revisions
unfolding settle_jobs
settle_jobs_leaves w [] now s db h = h
settle_jobs_leaves w (j ∷ jobs) now s db h =
    bind_goes (λ t. t.config_revisions ≡ db.config_revisions)
      (settle w.seal w.unseal w.vault.key_version w.request_sha j.id succeeded none none none now)
      (λ u. settle_jobs w jobs now) s (settle_leaves w j.id now s ∙ h)
      (λ u t e. settle_jobs_leaves w jobs now t db e)

finish_leaves :
    (w : Service) (target : Target) (a : Activation) (row : BootstrapToken) (f : Workflow)
    (m : Membership) (db : Db)
    → (finish w target a row f m db).1.config_revisions ≡ db.config_revisions
unfolding finish append_transition
finish_leaves w target a row f m db = ground arith

-- Nothing but the queue of jobs has changed.
abbrev pub OnlyJobs : Db → Db → Type 0
OnlyJobs s t = t ≡ record s { provisioning_jobs = t.provisioning_jobs }

enqueue_cleanup_leaves :
    (w : Service) (target : Target) (workflow_id fresh : Text) (now : Time) (db : Db)
    → OnlyJobs db (enqueue_cleanup w target workflow_id fresh now db).1
unfolding enqueue_cleanup create insert_job
enqueue_cleanup_leaves w target workflow_id fresh now db = ground arith

check_manifest_reads :
    (w : Service) (a : Activation) (r : ConfigRevision) (db : Db) → (check_manifest w a r db).1 ≡ db
unfolding check_manifest
check_manifest_reads w a r db = ground arith

check_setup_reads :
    (target : Target) (provider : Text) (h : Option Family) (db : Db)
    → (check_setup target provider h db).1 ≡ db
unfolding check_setup
check_setup_reads target provider h db = ground arith

check_target_reads :
    (w : Service) (target : Target) (a : Activation) (row : BootstrapToken) (db : Db)
    → (check_target w target a row db).1 ≡ db
unfolding check_target
check_target_reads w target a row db = ground arith

check_identity_reads :
    (target : Target) (h : Option Family) (r : ConfigRevision) (x : Text × Text) (db : Db)
    → (check_identity target h r x db).1 ≡ db
unfolding check_identity
check_identity_reads target h r (provider, digest) db =
    bind_keeps (λ t. t ≡ db) (check_setup target provider h)
      (λ y. pure (ready_of r (provider, digest) y)) db (check_setup_reads target provider h db) refl
      (λ y. refl)

check_rest_reads :
    (w : Service) (target : Target) (a : Activation) (h : Option Family) (r : ConfigRevision)
    (db : Db)
    → (check_rest w target a (h, r) db).1 ≡ db
unfolding check_rest
check_rest_reads w target a h r db =
    bind_keeps (λ t. t ≡ db) (check_manifest w a r) (check_identity target h r) db
      (check_manifest_reads w a r db) refl (λ x. check_identity_reads target h r x db)

check_target_claimed :
    (w : Service) (target : Target) (a : Activation) (row : BootstrapToken) (db : Db)
    (h : Option Family) (r : ConfigRevision)
    → (check_target w target a row db).0 ≡ ok (h, r)
    → (get target.household_id target.config_revision db ≡ some r)
      × (is_claimed_status r.status ≡ true)
unfolding check_target
check_target_claimed w target a row db h r e = ground arith

check_identity_revision :
    (target : Target) (h : Option Family) (r : ConfigRevision) (x : Text × Text) (db : Db)
    (ready : Ready)
    → (check_identity target h r x db).0 ≡ ok ready
    → ready.revision ≡ r
unfolding check_identity
check_identity_revision target h r (provider, digest) db ready e =
    let (y, passed, same, left) =
      bind_ok (check_setup target provider h) (λ y. pure (ready_of r (provider, digest) y)) db ready
        e in
    ground (arith, same)

check_rest_revision :
    (w : Service) (target : Target) (a : Activation) (h : Option Family) (r : ConfigRevision)
    (db : Db) (ready : Ready)
    → (check_rest w target a (h, r) db).0 ≡ ok ready
    → ready.revision ≡ r
unfolding check_rest
check_rest_revision w target a h r db ready e =
    let (x, passed, same, left) =
      bind_ok (check_manifest w a r) (check_identity target h r) db ready e in
    check_identity_revision target h r x _ ready same

check_reads :
    (w : Service) (target : Target) (a : Activation) (row : BootstrapToken) (db : Db)
    → (check w target a row db).1 ≡ db
unfolding check
check_reads w target a row db =
    bind_keeps (λ t. t ≡ db) (check_target w target a row) (check_rest w target a) db
      (check_target_reads w target a row db) refl (λ x. check_rest_reads w target a x.0 x.1 db)

-- The revision of a check that passes is the one that was claimed.
check_claimed :
    (w : Service) (target : Target) (a : Activation) (row : BootstrapToken) (db : Db)
    (ready : Ready)
    → (check w target a row db).0 ≡ ok ready
    → (get target.household_id target.config_revision db ≡ some ready.revision)
      × (is_claimed_status ready.revision.status ≡ true)
unfolding check
check_claimed w target a row db ready e =
    let ((h, r), passed, rest, left) =
      bind_ok (check_target w target a row) (check_rest w target a) db ready e in
    let same = check_rest_revision w target a h r _ ready rest in
    rw same (check_target_claimed w target a row db h r passed)

owner_of_reads : (h : Text) (db : Db) → (owner_of h db).1 ≡ db
unfolding owner_of
owner_of_reads h db = ground arith

module _ (w : Service) (target : Target) (a : Activation) (row : BootstrapToken)
    (ready : Ready) where
  -- The revisions are as they were, or the revision that was checked serves.
  Lands : Db → Db → Type 0
  Lands s t =
      t.config_revisions
      ≡ serve target.household_id target.config_revision ready.revision.id a.now s.config_revisions

  land_lem :
      (owner : Membership) (jobs : List Job) (s db : Db)
      → Lands db s
      → Lands db (land w target a row ready owner jobs s).1
  unfolding land Lands
  land_lem owner jobs s db h =
      bind_goes (Lands db) (settle_jobs w jobs a.now)
        (λ u.
          finish w target a row ready.workflow owner
          >> pure (receipt_for target a.activated_sha256 false))
        s (settle_jobs_leaves w jobs a.now s s refl ∙ h)
        (λ u t e.
          bind_goes (Lands db) (finish w target a row ready.workflow owner)
            (λ v. pure (receipt_for target a.activated_sha256 false)) t
            (finish_leaves w target a row ready.workflow owner t ∙ e) (λ v t' e'. e'))

  publish_for_lem :
      (owner : Membership) (db : Db) → Lands db (publish_for w target a row ready owner db).1
  unfolding publish_for Lands
  publish_for_lem owner db =
      land_lem owner (select (is_pending_runtime w target) db.provisioning_jobs)
        (go_live target row ready a.now db) db refl

  publish-Changes :
      (db : Db)
      → get target.household_id target.config_revision db ≡ some ready.revision
      → is_claimed_status ready.revision.status ≡ true
      → Changes db (publish w target a row ready db).1
  unfolding publish owner_of Lands
  publish-Changes db found claimed =
      bind_keeps (Changes db)
        (raise_if (not (w.is_digest ready.digest) || target.config_revision == 0) integrity)
        (λ u s.
          (owner_of target.household_id >>= publish_for w target a row ready)
            (activate_identity target ready a.now s))
        db refl (kept refl)
        (λ u.
          bind_keeps (Changes db) (owner_of target.household_id) (publish_for w target a row ready)
            (activate_identity target ready a.now db)
            (owner_of_reads target.household_id (activate_identity target ready a.now db))
            (kept refl)
            (λ owner.
              served target.household_id target.config_revision a.now ready.revision found claimed
                (publish_for_lem owner (activate_identity target ready a.now db))))

check_replay_reads :
    (target : Target) (a : Activation) (row : BootstrapToken) (db : Db)
    → (check_replay target a row db).1 ≡ db
unfolding check_replay
check_replay_reads target a row db = ground arith

when_leaves :
    (c : Bool) (m : Action Error Db (Unit {0})) (db : Db)
    → OnlyJobs db (m db).1
    → OnlyJobs db (when c m db).1
when_leaves true m db h = h
when_leaves false m db h = refl

answer_leaves :
    (w : Service) (target : Target) (a : Activation) (k : Text) (db : Db)
    → OnlyJobs db (answer w target a k db).1
unfolding answer
answer_leaves w target a k db =
    bind_goes (OnlyJobs db)
      (when a.receipt_acknowledged (enqueue_cleanup w target k a.fresh_job a.now))
      (λ u. pure (receipt_for target a.activated_sha256 a.receipt_acknowledged)) db
      (when_leaves a.receipt_acknowledged (enqueue_cleanup w target k a.fresh_job a.now) db
        (enqueue_cleanup_leaves w target k a.fresh_job a.now db))
      (λ u t h. h)

pub replay_leaves :
    (w : Service) (target : Target) (a : Activation) (row : BootstrapToken) (db : Db)
    → OnlyJobs db (replay w target a row db).1
unfolding replay
replay_leaves w target a row db =
    bind_keeps (OnlyJobs db) (check_replay target a row) (answer w target a) db
      (check_replay_reads target a row db) refl (λ k. answer_leaves w target a k db)

activate_with-Changes :
    (w : Service) (target : Target) (a : Activation) (row : BootstrapToken) (db : Db)
    → Changes db (activate_with w target a row db).1
unfolding activate_with
activate_with-Changes w target a row db =
    bind_keeps (Changes db) (raise_if (is_some row.revoked_at) bootstrap_gone)
      (λ u.
        if is_some row.used_at
        then replay w target a row
        else check w target a row >>= publish w target a row)
      db refl (kept refl)
      (λ u.
        if_both (λ (m : Action Error Db ActivationReceipt). Changes db (m db).1)
          (is_some row.used_at) (replay w target a row)
          (check w target a row >>= publish w target a row)
          (kept (ap (λ (t : Db). t.config_revisions) (replay_leaves w target a row db)))
          (bind_reads (Changes db) (check w target a row) (publish w target a row) db
            (check_reads w target a row db) (kept refl)
            (λ ready e.
              let (found, claimed) = check_claimed w target a row db ready e in
              publish-Changes w target a row ready db found claimed)))

pub activate-Changes :
    (w : Service) (raw : Text) (target : Target) (a : Activation) (db : Db)
    → Changes db (activate w raw target a db).1
unfolding activate
activate-Changes w raw target a db =
    write_keeps (Changes db) (open_token w.vault raw target >>= activate_with w target a) db
      (kept refl)
      (λ x e.
        bind_keeps (Changes db) (open_token w.vault raw target) (activate_with w target a) db
          (open_token_reads w.vault raw target db) (kept refl)
          (λ row. activate_with-Changes w target a row db))
