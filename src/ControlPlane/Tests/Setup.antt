-- ===== src/ControlPlane/Tests/Setup.antt =====
-- The setup of a household at concrete inputs: a revision from its creation to its withdrawal.
use abrolia.Common.{◌≡◌, ◌≤◌, refl, true, false, none, some, [], ◌∷◌, ◌==◌, ok, find, count_where}
use abrolia.ControlPlane.Rows.{
  RevisionStatus, ConfigRevision, BootstrapToken, Step, StepKind, StepStatus, EmailIdentity,
  IdentityStatus, WorkflowState,
}
use abrolia.ControlPlane.Consent.{
  assert_current_consent, manifest_required_purposes, is_current, household_content,
  content_restriction, code_of, synthetic, holds,
}
use abrolia.ControlPlane.Consent.Boundary.{owes}
use abrolia.ControlPlane.Bootstrap.Consenting.{activate-holds}
use abrolia.ControlPlane.Schema.{Db, other}
use abrolia.ControlPlane.Jobs
use abrolia.ControlPlane.Configs.{
  Manifest, Vault, is_revision, insert_revision, create_revision, insert_token, issue_bootstrap,
}
use abrolia.ControlPlane.Bootstrap.{
  Target, open_token, token_row, claimable, mark_claimed, claim_marked, claim_with, claim,
}
use abrolia.ControlPlane.Configs
use abrolia.ControlPlane.Bootstrap.Replay.{Service, Activation, receipt_for}
use abrolia.ControlPlane.Bootstrap.Checks.{
  check_manifest, check_setup, check_target, check_identity, check_rest, check, purposes_in,
}
use abrolia.ControlPlane.Bootstrap.Activation.{
  serve, settle_jobs, append_transition, finish, land, publish_for, owner_of, publish,
  activate_with, activate,
}
use abrolia.ControlPlane.Withdrawal.{
  Withdrawer, content_scope, cycle_of, revoke_receipts, revoke_revisions, disconnect_resources,
  stop_job, enqueue_stop, stop_runtime, tear_down, withdraw_in, withdraw_scoped, withdraw,
  result_of,
}
use abrolia.ControlPlane.Revisions.{serves}
use abrolia.ControlPlane.Revisions.Lifecycle.{Lifecycle, status_of}
use abrolia.ControlPlane.Revisions.Withdrawing.{LeavesTables}
use abrolia.ControlPlane.Revisions.Runs.{
  issued, claimed, activated, created, serving, stopped, ConfigRun, here, next, one_serves,
  ConfigStep-Lifecycle, is_over, withdraw_over,
}
use abrolia.ControlPlane.Tests.{db, family, setup, seal, sha, receipts, digest}

abbrev document : Manifest
document = record {
  config_revision = 1;
  required_purposes = some (household_content ∷ content_restriction ∷ []);
  provider_kind = some synthetic;
}

abbrev vault : Vault
vault = record {
  key_version = 1;
  seal = λ k m version. version;
  unseal = λ k sealed version. document;
  token_digest = digest;
  household_digest = digest;
  manifest_sha256 = λ m. 77;
}

abbrev service : Service
service = record {
  vault = vault;
  none_text = 0;
  seal = seal;
  unseal = seal;
  request_sha = sha;
  consent_sha = code_of;
  synthetic_digest = digest;
  is_digest = λ d. d == 78;
  kind_text = λ k. 4;
  runtime_kind = 1;
  cleanup_kind = 2;
  cleanup_operation = other 3;
  cleanup_provider = 4;
  cleanup_key = λ h n. n;
  cleanup_request = digest;
  activate_command = 5;
  request_id = digest;
  metadata = λ n. n;
}

abbrev target : Target
target = record { household_id = 5; runtime_ref = 3; config_revision = 1 }

abbrev activation : Activation
activation = record {
  activated_sha256 = 77;
  health = record { inbound = none; outbound = none; receipt_digest = none };
  receipt_acknowledged = false;
  fresh_job = 90;
  fresh_transition = 91;
  now = 23;
}

abbrev step : StepKind → Step
step kind = record { workflow_id = 6; kind = kind; status = StepStatus.verified }

abbrev mailbox : EmailIdentity
mailbox = record {
  id = 8;
  household_id = 5;
  status = IdentityStatus.verified;
  version = 1;
  created_at = 10;
  activated_at = none;
  updated_at = 10;
}

abbrev home : Db
home = record db {
  households = family 5 (some 3) ∷ [];
  onboarding_workflows = record setup { state = WorkflowState.activating } ∷ [];
  onboarding_steps =
      step StepKind.email_identity
      ∷ step StepKind.whatsapp_identity
      ∷ step StepKind.primary_channel
      ∷ [];
  email_identities = mailbox ∷ [];
  household_memberships =
      record { household_id = 5; account_id = 4; is_owner = true; is_active = true } ∷ [];
  consent_receipts = receipts;
}

abbrev created_db : Db
created_db = (create_revision vault 50 5 1 document 77 20 home).1

abbrev issued_db : Db
issued_db = (issue_bootstrap vault 60 30 5 3 1 77 100 21 created_db).1

abbrev claimed_db : Db
claimed_db = (claim vault 0 30 target 22 issued_db).1

abbrev active_db : Db
active_db = (activate service 30 target activation claimed_db).1

launch : ConfigRun home active_db
launch =
    next
      (next
        (next (next here (created vault 50 5 1 document 77 20 home))
          (serving (issued vault 60 30 5 3 1 77 100 21 created_db)))
        (serving (claimed vault 0 30 target 22 issued_db)))
      (serving (activated service 30 target activation claimed_db))

launch_serves : count_where (serves 5) active_db.config_revisions ≡ 1
unfolding create_revision insert_revision issue_bootstrap insert_token claim open_token claim_with
    claimable claim_marked mark_claimed Configs.manifest activate activate_with check check_target
    check_rest check_manifest check_setup check_identity publish publish_for owner_of land
    settle_jobs finish append_transition serve assert_current_consent manifest_required_purposes
    is_current
launch_serves = refl

abbrev claimed_token : BootstrapToken
claimed_token = record {
  id = 60;
  household_id = 5;
  runtime_ref = 3;
  config_revision = 1;
  token_hash = digest 30;
  manifest_sha256 = 77;
  expires_at = 100;
  claimed_at = some 22;
  used_at = none;
  revoked_at = none;
  created_at = 21;
}

token_claimed : token_row vault 30 claimed_db ≡ some claimed_token
unfolding create_revision insert_revision issue_bootstrap insert_token claim open_token claim_with
    claimable claim_marked mark_claimed Configs.manifest
token_claimed = refl

launched : (activate service 30 target activation claimed_db).0 ≡ ok (receipt_for target 77 false)
unfolding create_revision insert_revision issue_bootstrap insert_token claim open_token claim_with
    claimable claim_marked mark_claimed Configs.manifest activate activate_with check check_target
    check_rest check_manifest check_setup check_identity publish publish_for owner_of land
    settle_jobs finish append_transition serve assert_current_consent manifest_required_purposes
    is_current
launched = refl

document_owed : owes (purposes_in vault (Configs.get 5 1 claimed_db)) household_content ≡ true
unfolding create_revision insert_revision issue_bootstrap insert_token claim open_token claim_with
    claimable claim_marked mark_claimed Configs.manifest
document_owed = refl

activate-holds_example : holds code_of 5 claimed_db.consent_receipts household_content ≡ true
activate-holds_example =
    activate-holds service 30 target activation claimed_db claimed_token
      (receipt_for target 77 false) household_content token_claimed refl launched document_owed

one_serves_example : count_where (serves 5) active_db.config_revisions ≤ 1
one_serves_example = one_serves refl launch 5

abbrev withdrawer : Withdrawer
withdrawer = record {
  disconnect = none;
  seal = seal;
  unseal = seal;
  key_version = 1;
  request_sha = sha;
  is_runtime_ref = λ k. k == 3;
  purpose_text = code_of;
  stop_kind = 1;
  stop_operation = other 6;
  stop_provider = 7;
  stop_key = λ h ref p cycle. 99;
  stop_request = λ ref p cycle. ref;
}

withdrawer-LeavesTables : LeavesTables withdrawer
unfolding disconnect_resources
withdrawer-LeavesTables scope h now s = (refl, refl)

abbrev withdrawn_db : Db
withdrawn_db = (withdraw withdrawer 5 household_content 92 24 active_db).1

ConfigStep-Lifecycle_example :
    Lifecycle
      (status_of 5 1 active_db.config_revisions)
      (status_of 5 1 withdrawn_db.config_revisions)
ConfigStep-Lifecycle_example =
    ConfigStep-Lifecycle refl launch
      (stopped withdrawer 5 household_content 92 24 active_db withdrawer-LeavesTables) 5 1

abbrev active_revision : ConfigRevision
active_revision = record {
  id = 50;
  household_id = 5;
  revision = 1;
  schema_version = 1;
  manifest_ciphertext = 1;
  encryption_key_version = 1;
  manifest_sha256 = 77;
  status = RevisionStatus.active;
  created_at = 20;
  issued_at = some 21;
  claimed_at = some 22;
  activated_at = some 23;
}

active_found : find (is_revision 5 1) active_db.config_revisions ≡ some active_revision
unfolding create_revision insert_revision issue_bootstrap insert_token claim open_token claim_with
    claimable claim_marked mark_claimed Configs.manifest activate activate_with check check_target
    check_rest check_manifest check_setup check_identity publish publish_for owner_of land
    settle_jobs finish append_transition serve assert_current_consent manifest_required_purposes
    is_current
active_found = refl

withdraw_passes :
    (withdraw withdrawer 5 household_content 92 24 active_db).0
    ≡ ok (result_of 5 household_content 1 1 [] (some 92))
unfolding withdraw withdraw_scoped withdraw_in revoke_receipts revoke_revisions tear_down cycle_of
    disconnect_resources stop_runtime enqueue_stop stop_job Jobs.create Jobs.insert_job
    create_revision insert_revision issue_bootstrap insert_token claim open_token claim_with
    claimable claim_marked mark_claimed Configs.manifest activate activate_with check check_target
    check_rest check_manifest check_setup check_identity publish publish_for owner_of land
    settle_jobs finish append_transition serve assert_current_consent manifest_required_purposes
    is_current
withdraw_passes = refl

-- The runtime tries again after the withdrawal.
withdraw_over_example :
    is_over (status_of 5 1 (activate service 30 target activation withdrawn_db).1.config_revisions)
    ≡ true
withdraw_over_example =
    withdraw_over withdrawer 5 household_content content_scope 92 24
      (result_of 5 household_content 1 1 [] (some 92)) 1 active_revision refl launch
      withdrawer-LeavesTables refl refl withdraw_passes
      (next here (serving (activated service 30 target activation withdrawn_db))) active_found
