-- ===== src/ControlPlane/Bootstrap/Activation.antt =====
-- `activate` of control_plane/provisioning/bootstrap.py: a claimed revision becomes the one that
-- serves the household.
use abrolia.Common.{
  ℕ, Bool, true, false, not, ◌&&◌, ◌||◌, none, some, List, [], ◌∷◌, ◌++◌, ◌+◌, if◌then◌else◌, ◌==◌,
  is_none, is_some, same_option, find, exists, select, update_where, Action, pure, raise, raise_if,
  gets, modify, or_raise, write, ◌>>=◌, ◌>>◌,
}
use abrolia.ControlPlane.Rows.{
  Text, Time, HouseholdStatus, Family, RevisionStatus, ConfigRevision, BootstrapToken, Workflow,
  WorkflowState, StepKind, Transition, IdentityStatus, EmailIdentity, healthy, HealthStatus,
  EmailReceipt, Membership,
}
use abrolia.ControlPlane.Schema.{
  Db, Job, succeeded, Binding, Error, integrity, bootstrap_gone, bootstrap_conflict, has_account,
}
use abrolia.ControlPlane.Jobs.{settle}
use abrolia.ControlPlane.Bootstrap.{Target, open_token}
use abrolia.ControlPlane.Bootstrap.Replay.{
  Service, Activation, ActivationReceipt, receipt_for, is_active_revision, is_complete, replay,
}
use abrolia.ControlPlane.Bootstrap.Checks.{Ready, check}

abbrev pub is_verified_identity : IdentityStatus → Bool
is_verified_identity IdentityStatus.verified = true
is_verified_identity _ = false

abbrev pub is_verified_by_id : Text → EmailIdentity → Bool
is_verified_by_id k i = i.id == k && is_verified_identity i.status

abbrev pub activating_identity : Time → EmailIdentity → EmailIdentity
activating_identity now i = record i {
  status = IdentityStatus.activating;
  version = i.version + 1;
  updated_at = now;
}

abbrev pub active_identity : Time → EmailIdentity → EmailIdentity
active_identity now i = record i {
  status = IdentityStatus.active;
  activated_at = some now;
  version = i.version + 1;
  updated_at = now;
}

abbrev pub new_receipt : Target → Ready → Time → EmailReceipt
new_receipt target ready now = record {
  email_identity_id = ready.identity.id;
  desired_revision = target.config_revision;
  runtime_ref = target.runtime_ref;
  provider = ready.provider;
  inbound_check = healthy;
  outbound_check = healthy;
  checked_at = now;
  receipt_digest = ready.digest;
  status = HealthStatus.active;
  runtime_health_status = HealthStatus.active;
  runtime_health_owns_attention = false;
  runtime_health_identity_version = none;
}

abbrev pub is_receipt_of : Text → ℕ → EmailReceipt → Bool
is_receipt_of identity_id revision r =
    r.email_identity_id == identity_id && r.desired_revision == revision

abbrev pub renewed_receipt : EmailReceipt → EmailReceipt → EmailReceipt
renewed_receipt new r = record r {
  runtime_ref = new.runtime_ref;
  provider = new.provider;
  inbound_check = new.inbound_check;
  outbound_check = new.outbound_check;
  checked_at = new.checked_at;
  receipt_digest = new.receipt_digest;
  status = HealthStatus.active;
}

-- INSERT … ON CONFLICT (email_identity_id, desired_revision) DO UPDATE
abbrev pub put_receipt : EmailReceipt → List EmailReceipt → List EmailReceipt
put_receipt new rows =
    if exists (is_receipt_of new.email_identity_id new.desired_revision) rows
    then update_where (is_receipt_of new.email_identity_id new.desired_revision)
        (renewed_receipt new) rows
    else rows ++ new ∷ []

-- The email identity becomes active, with a receipt of its checks.
abbrev pub activate_identity : Target → Ready → Time → Db → Db
activate_identity target ready now db = record db {
  email_identities =
      update_where (λ i. i.id == ready.identity.id) (active_identity now)
        (update_where (is_verified_by_id ready.identity.id) (activating_identity now)
          db.email_identities);
  email_activation_receipts =
      put_receipt (new_receipt target ready now) db.email_activation_receipts;
}

abbrev pub is_owner_of : Text → Membership → Bool
is_owner_of household_id m = m.household_id == household_id && (m.is_owner && m.is_active)

abbrev pub is_superseded : Text → ℕ → ConfigRevision → Bool
is_superseded household_id revision r =
    r.household_id == household_id && (is_active_revision r.status && not (r.revision == revision))

abbrev pub superseded_row : ConfigRevision → ConfigRevision
superseded_row r = record r { status = RevisionStatus.superseded }

abbrev pub active_row : Time → ConfigRevision → ConfigRevision
active_row now r = record r { status = RevisionStatus.active; activated_at = some now }

-- The two UPDATEs of `config_revisions`.
unfoldable pub serve : Text → ℕ → Text → Time → List ConfigRevision → List ConfigRevision
serve household_id revision k now rows =
    update_where (λ r. r.id == k) (active_row now)
      (update_where (is_superseded household_id revision) superseded_row rows)

abbrev pub used_token : Time → BootstrapToken → BootstrapToken
used_token now t = record t { used_at = some now }

abbrev pub active_family : ℕ → Time → Family → Family
active_family revision now h = record h {
  status = HouseholdStatus.active;
  current_config_revision = revision;
  updated_at = now;
}

abbrev pub is_staged : Text → Binding → Bool
is_staged household_id b = b.household_id == household_id && is_none b.published_revision

abbrev pub published : ℕ → Binding → Binding
published revision b = record b { published_revision = some revision }

-- The UPDATEs that make the revision live, and publish the bindings that it carries.
abbrev pub go_live : Target → BootstrapToken → Ready → Time → Db → Db
go_live target row ready now db = record db {
  config_revisions =
      serve target.household_id target.config_revision ready.revision.id now db.config_revisions;
  bootstrap_tokens = update_where (λ t. t.id == row.id) (used_token now) db.bootstrap_tokens;
  households =
      update_where (λ h. h.id == target.household_id) (active_family target.config_revision now)
        db.households;
  channel_bindings =
      update_where (is_staged target.household_id) (published target.config_revision)
        db.channel_bindings;
}

abbrev pub is_pending_runtime : Service → Target → Job → Bool
is_pending_runtime w target j =
    j.household_id == target.household_id
    && (j.kind == w.runtime_kind
        && (same_option j.desired_revision (some target.config_revision) && is_none j.settled_at))

-- The loop over the jobs that wait for the runtime.
unfoldable pub settle_jobs : Service → List Job → Time → Action Error Db (Unit {0})
unfolding settle
settle_jobs w [] now = pure tt
settle_jobs w (j ∷ jobs) now = do
  settle w.seal w.unseal w.vault.key_version w.request_sha j.id succeeded none none none now
  settle_jobs w jobs now

abbrev pub completed_workflow : Time → Workflow → Workflow
completed_workflow now f = record f {
  state = WorkflowState.complete;
  current_step = StepKind.runtime;
  version = f.version + 1;
  updated_at = now;
  completed_at = some now;
}

abbrev pub new_transition :
    Service → Target → Activation → BootstrapToken → Workflow → Membership → Transition
new_transition w target a row f owner = record {
  id = a.fresh_transition;
  workflow_id = f.id;
  workflow_version = f.version + 1;
  command = w.activate_command;
  from_state = f.state;
  to_state = WorkflowState.complete;
  step_kind = some StepKind.runtime;
  account_id = owner.account_id;
  request_id = w.request_id row.id;
  metadata = w.metadata target.config_revision;
  created_at = a.now;
}

-- `append_transition` of control_plane/repositories/onboarding.py, with the keys of its table.
unfoldable pub append_transition : Transition → Action Error Db (Unit {0})
append_transition t db =
    if exists
        (λ r.
          r.id == t.id
          || (r.workflow_id == t.workflow_id && r.workflow_version == t.workflow_version))
        db.onboarding_transitions
      || not (has_account db t.account_id)
    then raise integrity db
    else pure tt (record db { onboarding_transitions = db.onboarding_transitions ++ t ∷ [] })

-- The onboarding ends with the first activation; a later one leaves its record alone.
unfoldable pub finish :
    Service
    → Target
    → Activation
    → BootstrapToken
    → Workflow
    → Membership
    → Action Error Db (Unit {0})
unfolding append_transition
finish w target a row f owner = if is_complete f.state then pure tt else (do
  modify (λ db. record db {
    onboarding_workflows =
        update_where (λ g. g.id == f.id) (completed_workflow a.now) db.onboarding_workflows;
  })
  append_transition (new_transition w target a row f owner))

-- The jobs that wait for the runtime end, and the onboarding.
unfoldable pub land :
    Service
    → Target
    → Activation
    → BootstrapToken
    → Ready
    → Membership
    → List Job
    → Action Error Db ActivationReceipt
unfolding settle_jobs finish
land w target a row ready owner jobs = do
  settle_jobs w jobs a.now
  finish w target a row ready.workflow owner
  pure (receipt_for target a.activated_sha256 false)

unfoldable pub publish_for :
    Service
    → Target
    → Activation
    → BootstrapToken
    → Ready
    → Membership
    → Action Error Db ActivationReceipt
unfolding land
publish_for w target a row ready owner = do
  modify (go_live target row ready a.now)
  jobs ← gets (λ db. select (is_pending_runtime w target) db.provisioning_jobs)
  land w target a row ready owner jobs

unfoldable pub owner_of : Text → Action Error Db Membership
owner_of household_id = do
  owner ← gets (λ db. find (is_owner_of household_id) db.household_memberships)
  or_raise owner bootstrap_conflict

-- What an activation writes. The CHECKs of `email_activation_receipts` are on its digest and revision.
unfoldable pub publish :
    Service → Target → Activation → BootstrapToken → Ready → Action Error Db ActivationReceipt
unfolding publish_for owner_of
publish w target a row ready = do
  raise_if (not (w.is_digest ready.digest) || target.config_revision == 0) integrity
  modify (activate_identity target ready a.now)
  owner_of target.household_id >>= publish_for w target a row ready

-- The body of `activate` once its token is open.
unfoldable pub activate_with :
    Service → Target → Activation → BootstrapToken → Action Error Db ActivationReceipt
unfolding replay check publish
activate_with w target a row = do
  raise_if (is_some row.revoked_at) bootstrap_gone
  (if is_some row.used_at
      then replay w target a row
      else check w target a row >>= publish w target a row)

unfoldable pub activate : Service → Text → Target → Activation → Action Error Db ActivationReceipt
unfolding open_token activate_with
activate w raw_token target a =
    write (open_token w.vault raw_token target >>= activate_with w target a)
