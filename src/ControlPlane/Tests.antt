-- ===== src/ControlPlane/Tests.antt =====
-- The control plane at concrete inputs.
mod Setup
use abrolia.Common.{
  Option, List, ◌≡◌, ◌≢◌, refl, none, some, [], ◌∷◌, true, false, ok, err, ◌+◌, arith, ◌≤◌, ◌<◌,
  find,
}
use abrolia.ControlPlane.Schema.{
  Text, Job, running, outcome_unknown, succeeded, pending, inspect, other, Token, login, Session,
  Binding, whatsapp, Db, invalid_credential, ambiguous_sender,
}
use abrolia.ControlPlane.Rows.{HouseholdStatus, Family, Workflow, complete, runtime}
use abrolia.ControlPlane.Jobs.{
  Field, Intent, requires_reconciliation, insert_job, lease_row, reconciliation_suffix, get,
  retry_later, lease, create, settle, record_result, result_of, external_ref_of, is_running,
  is_retried,
}
use abrolia.ControlPlane.Jobs.Queue.{retry_later-requires_reconciliation}
use abrolia.ControlPlane.Jobs.Holding.{JobRun, here, next, leased, retried, lease_once}
use abrolia.ControlPlane.Jobs.Results.{result_of-settle, create-create}
use abrolia.ControlPlane.Auth.{
  mismatched, consume_row, consume_token, authenticate_session, is_active_account, is_session,
}
use abrolia.ControlPlane.Auth.Links.{consume_token-once}
use abrolia.ControlPlane.Auth.Sessions.{authenticate_session_bounds}
use abrolia.ControlPlane.Consent.{
  ConsentPurpose, content_restriction, household_content, unlisted, fake_email, Receipt, code_of,
  version_of, holds, assert_current_consent, manifest_required_purposes, required_consent_purposes,
  is_current,
}
use abrolia.ControlPlane.Consent.Boundary.{manifest_required_purposes-required_consent_purposes}
use abrolia.ControlPlane.Routing.{resolve_sender, by_hmac, resolve_sender_ambiguous}

abbrev job : Job
job = record {
  id = 1;
  household_id = 5;
  workflow_id = 6;
  kind = 0;
  operation = other 2;
  intent_key = 9;
  desired_revision = none;
  request_sha = 0;
  request_ciphertext = 0;
  encryption_key_version = 1;
  status = outcome_unknown;
  provider = 3;
  external_ref_ciphertext = none;
  result_ciphertext = none;
  error_code = some (b'x' ∷ reconciliation_suffix);
  attempts = 1;
  not_before = none;
  lease_until = none;
  leased_by = none;
  created_at = 10;
  updated_at = 10;
  settled_at = some 11;
}

abbrev waiting_job : Job
waiting_job = record job { id = 2; intent_key = 10; status = pending; error_code = none }

abbrev link : Token
link = record {
  id = 1;
  token_hash = 8;
  purpose = login;
  account_id = some 4;
  expires_at = 100;
  used_at = none;
  attempts = 0;
  created_at = 10;
}

abbrev session : Session
session = record {
  id = 1;
  token_hash = 8;
  account_id = 4;
  csrf_hash = 3;
  idle_expires_at = 90;
  absolute_expires_at = 120;
  reauthenticated_at = 10;
  last_seen_at = 10;
  revoked_at = none;
  security_metadata = 0;
  created_at = 10;
}

abbrev binding : Text → Binding
binding household = record {
  household_id = household;
  channel = whatsapp;
  external_id = 70;
  external_id_hmac = some 71;
  published_revision = some 1;
}

abbrev pub family : Text → Option Text → Family
family k runtime_ref = record {
  id = k;
  status = HouseholdStatus.active;
  current_config_revision = 1;
  runtime_ref = runtime_ref;
  updated_at = 0;
}

abbrev pub setup : Workflow
setup = record {
  id = 6;
  household_id = 5;
  state = complete;
  current_step = runtime;
  version = 3;
  updated_at = 0;
  completed_at = some 0;
}

abbrev pub db : Db
db = record {
  provisioning_jobs = job ∷ waiting_job ∷ [];
  auth_tokens = link ∷ [];
  sessions = session ∷ [];
  rate_limit_buckets = [];
  accounts = record { id = 4; is_active = true } ∷ [];
  households = family 5 none ∷ family 6 (some 1) ∷ [];
  onboarding_workflows = setup ∷ [];
  channel_bindings = binding 5 ∷ binding 6 ∷ [];
  config_revisions = [];
  bootstrap_tokens = [];
  onboarding_steps = [];
  onboarding_transitions = [];
  email_identities = [];
  email_activation_receipts = [];
  household_memberships = [];
  consent_receipts = [];
  deletion_tombstones = [];
}

abbrev pub digest : Text → Text
digest raw = raw + 1

abbrev pub seal : Text → Field → Text → Text → Text
seal k f v version = v

abbrev pub sha : Text → Text
sha request = request

retry_later-requires_reconciliation_example :
    get 1 (retry_later 1 50 (b'x' ∷ []) 20 db).1 ≡ some job
retry_later-requires_reconciliation_example =
    retry_later-requires_reconciliation 1 50 (b'x' ∷ []) 20 db job refl refl
      (unfold requires_reconciliation in refl)

result_of-settle_example :
    let db' =
      (settle seal seal 1 sha 2 succeeded none none none 30
        (record_result seal seal 1 sha 2 40 41 20 db).1).1 in
    ((result_of seal seal 1 sha 2 db').0 ≡ ok (some 40))
    × ((external_ref_of seal seal 1 sha 2 db').0 ≡ ok (some 41))
result_of-settle_example =
    result_of-settle seal seal 1 sha (λ k f v version. refl) 2 40 41 succeeded none 20 30 db
      waiting_job refl

abbrev intent : Intent
intent = record {
  household_id = 5;
  workflow_id = 6;
  kind = 0;
  operation = inspect;
  intent_key = 77;
  desired_revision = none;
  provider = 3;
}

consume_token-once_example :
    let db' = (consume_token digest 7 (some login) 20 db).1 in
    (link.token_hash ≡ digest 7)
    × (link.used_at ≡ none)
    × (20 < link.expires_at)
    × (mismatched (some login) link.purpose ≡ false)
    × (consume_token digest 7 none 30 db' ≡ (err invalid_credential, db'))
consume_token-once_example =
    consume_token-once digest 7 (some login) none 20 30 db link
      (unfold consume_token consume_row in refl)

abbrev renewed_session : Session
renewed_session = record session { idle_expires_at = 120 }

authenticate_session_bounds_example :
    let db' = (authenticate_session digest 7 60 86400 db).1 in
    (renewed_session.token_hash ≡ digest 7)
    × (is_active_account digest db 4 ≡ true)
    × (renewed_session.revoked_at ≡ none)
    × (60 < renewed_session.absolute_expires_at)
    × (renewed_session.idle_expires_at ≤ renewed_session.absolute_expires_at)
    × (renewed_session.idle_expires_at ≤ 60 + 86400)
    × (find (is_session digest db 7) db'.sessions
        ≡ some (record renewed_session { last_seen_at = 60 }))
    × ((row : Session) × (find (is_session digest db 7) db.sessions ≡ some row)
        × (60 < row.idle_expires_at)
        × (60 < row.absolute_expires_at)
        × (renewed_session ≡ record row { idle_expires_at = renewed_session.idle_expires_at }))
authenticate_session_bounds_example =
    authenticate_session_bounds digest 7 60 86400 db renewed_session
      (unfold authenticate_session in refl)

resolve_sender_ambiguous_example : resolve_sender whatsapp none (some 71) db ≡ err ambiguous_sender
resolve_sender_ambiguous_example =
    resolve_sender_ambiguous whatsapp (by_hmac 71) db (refl, (refl, tt)) (omega arith)

abbrev idle_job : Job
idle_job = record waiting_job { id = 3; created_at = 12 }

abbrev queue : Db
queue = record db { provisioning_jobs = waiting_job ∷ idle_job ∷ [] }

abbrev mine : Job
mine = record waiting_job {
  status = running;
  leased_by = some 1;
  lease_until = some 140;
  attempts = 2;
  updated_at = 20;
}

-- Another worker takes the other job and puts it back.
abbrev busy_queue : Db
busy_queue = (retry_later 3 31 [] 31 (lease false 2 120 30 (lease false 1 120 20 queue).1).1).1

abbrev theirs : Job
theirs = record idle_job {
  status = running;
  leased_by = some 7;
  lease_until = some 160;
  attempts = 3;
  not_before = some 31;
  error_code = some [];
  settled_at = none;
  updated_at = 40;
}

busy_run : JobRun seal seal 1 (λ t. t) 2 140 (lease false 1 120 20 queue).1 busy_queue
busy_run =
    next (next here (leased false 2 120 30 _ (omega arith))) (retried 3 31 [] 31 _ (omega arith))

lease_once_example :
    ((row : Job) × (get 2 busy_queue ≡ some row)
      × (is_running row.status ≡ true)
      × (row.leased_by ≡ some 1)
      × (row.lease_until ≡ some 140))
    × (theirs.id ≢ mine.id)
lease_once_example =
    lease_once seal seal 1 (λ t. t) 1 7 120 120 20 40 queue busy_queue mine theirs false false
      (refl, (refl, tt)) (unfold lease lease_row in refl) busy_run (omega arith)
      (unfold lease lease_row retry_later is_retried in refl)

abbrev receipt : ConsentPurpose → Receipt
receipt p = record {
  id = code_of p;
  household_id = some 5;
  purpose = p;
  text_version = version_of p;
  text_sha256 = code_of p;
  revoked_at = none;
}

abbrev pub receipts : List Receipt
receipts = receipt household_content ∷ receipt content_restriction ∷ []

manifest_required_purposes-required_consent_purposes_example :
    manifest_required_purposes (some (required_consent_purposes (some fake_email) true true))
    ≡ required_consent_purposes (some fake_email) true true
manifest_required_purposes-required_consent_purposes_example =
    manifest_required_purposes-required_consent_purposes (some fake_email) true true
