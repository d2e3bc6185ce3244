-- ===== src/ControlPlane/Schema.antt =====
-- The control plane's database (control_plane/db.py and the tables of control_plane/migrations): the
-- rows that the modelled repositories use, and the exceptions. Identifiers, digests, ciphertexts and
-- opaque texts are numbers, and so are times; an error code is the list of its characters.
use abrolia.Common.{ℕ, Bool, Option, List, exists, ◌==◌}
use abrolia.ControlPlane.Rows.{
  ConfigRevision, BootstrapToken, Workflow, Step, Transition, EmailIdentity, EmailReceipt,
  Membership,
}
use abrolia.ControlPlane.Consent.{Receipt}
pub use abrolia.ControlPlane.Rows.{Text, Time, Family}

-- `JobStatus`
pub data JobStatus : Type 0 where
  pending running waiting_user succeeded failed outcome_unknown cancelled : JobStatus

-- The column `operation`, of which the queue tells only `inspect` apart.
pub data Operation : Type 0 where
  inspect : Operation
  other : Text → Operation

-- A row of `provisioning_jobs`; `JobRecord` has its first columns.
pub record Job : Type 0 where
  pub id : Text
  pub household_id : Text
  pub workflow_id : Text
  pub kind : Text
  pub operation : Operation
  pub intent_key : Text
  pub desired_revision : Option ℕ
  pub request_sha : Text
  pub request_ciphertext : Text
  pub encryption_key_version : Text
  pub status : JobStatus
  pub provider : Text
  pub external_ref_ciphertext : Option Text
  pub result_ciphertext : Option Text
  pub error_code : Option (List ℕ)
  pub attempts : ℕ
  pub not_before : Option Time
  pub lease_until : Option Time
  pub leased_by : Option Text
  pub created_at : Time
  pub updated_at : Time
  pub settled_at : Option Time

pub data Purpose : Type 0 where
  invite login reauth : Purpose

-- A row of `auth_tokens`, less the encrypted email.
pub record Token : Type 0 where
  pub id : Text
  pub token_hash : Text
  pub purpose : Purpose
  pub account_id : Option Text
  pub expires_at : Time
  pub used_at : Option Time
  pub attempts : ℕ
  pub created_at : Time

-- A row of `sessions`.
pub record Session : Type 0 where
  pub id : Text
  pub token_hash : Text
  pub account_id : Text
  pub csrf_hash : Text
  pub idle_expires_at : Time
  pub absolute_expires_at : Time
  pub reauthenticated_at : Time
  pub last_seen_at : Time
  pub revoked_at : Option Time
  pub security_metadata : Text
  pub created_at : Time

-- A row of `rate_limit_buckets`.
pub record Bucket : Type 0 where
  pub bucket_hmac : Text
  pub kind : Text
  pub window_started_at : Time
  pub attempts : ℕ
  pub updated_at : Time

-- The columns of `accounts` that the modelled code reads.
pub record Account : Type 0 where
  pub id : Text
  pub is_active : Bool

pub data Channel : Type 0 where
  telegram whatsapp web : Channel

-- A row of `channel_bindings`, with the columns that routing reads.
pub record Binding : Type 0 where
  pub household_id : Text
  pub channel : Channel
  pub external_id : Text
  pub external_id_hmac : Option Text
  pub published_revision : Option ℕ

pub record Db : Type 0 where
  pub provisioning_jobs : List Job
  pub auth_tokens : List Token
  pub sessions : List Session
  pub rate_limit_buckets : List Bucket
  pub accounts : List Account
  pub households : List Family
  pub onboarding_workflows : List Workflow
  pub channel_bindings : List Binding
  pub config_revisions : List ConfigRevision
  pub bootstrap_tokens : List BootstrapToken
  pub onboarding_steps : List Step
  pub onboarding_transitions : List Transition
  pub email_identities : List EmailIdentity
  pub email_activation_receipts : List EmailReceipt
  pub household_memberships : List Membership
  pub consent_receipts : List Receipt
  pub deletion_tombstones : List Text

-- The exceptions; `integrity` is the database's own refusal of a row.
pub data Error : Type 0 where
  integrity invalid_credential permission_denied rate_limit_exceeded value_error : Error
  invalid_transition unknown_sender ambiguous_sender : Error
  bootstrap_denied bootstrap_gone bootstrap_conflict type_error consent_not_held : Error
  key_error : Text → Error

abbrev pub has_account : Db → Text → Bool
has_account db k = exists (λ a. a.id == k) db.accounts

abbrev pub has_household : Db → Text → Bool
has_household db k = exists (λ h. h.id == k) db.households

abbrev pub has_workflow : Db → Text → Bool
has_workflow db k = exists (λ w. w.id == k) db.onboarding_workflows
