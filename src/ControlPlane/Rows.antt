-- ===== src/ControlPlane/Rows.antt =====
-- The rows of the tables in control_plane/migrations that set a household up: its configuration
-- revisions and bootstrap tokens, its onboarding and its email identity. Identifiers, digests,
-- ciphertexts and opaque texts are numbers, and so are times.
use abrolia.Common.{ℕ, Bool, Option}

abbrev pub Text : Type 0
Text = ℕ

abbrev pub Time : Type 0
Time = ℕ

pub data HouseholdStatus : Type 0 where
  draft onboarding provisioning active deleting deleted : HouseholdStatus

-- The columns of `households` that the modelled code reads or writes.
pub record Family : Type 0 where
  pub id : Text
  pub status : HouseholdStatus
  pub current_config_revision : ℕ
  pub runtime_ref : Option Text
  pub updated_at : Time

pub data RevisionStatus : Type 0 where
  planned issued claimed active superseded revoked : RevisionStatus

-- A row of `config_revisions`.
pub record ConfigRevision : Type 0 where
  pub id : Text
  pub household_id : Text
  pub revision : ℕ
  pub schema_version : ℕ
  pub manifest_ciphertext : Text
  pub encryption_key_version : Text
  pub manifest_sha256 : Text
  pub status : RevisionStatus
  pub created_at : Time
  pub issued_at : Option Time
  pub claimed_at : Option Time
  pub activated_at : Option Time

-- A row of `bootstrap_tokens`.
pub record BootstrapToken : Type 0 where
  pub id : Text
  pub token_hash : Text
  pub household_id : Text
  pub runtime_ref : Text
  pub config_revision : ℕ
  pub manifest_sha256 : Text
  pub expires_at : Time
  pub claimed_at : Option Time
  pub used_at : Option Time
  pub revoked_at : Option Time
  pub created_at : Time

pub data WorkflowState : Type 0 where
  profile_required in_progress runtime_provisioning activating complete cancelled : WorkflowState

-- `StepKind`
pub data StepKind : Type 0 where
  profile email_identity whatsapp_identity primary_channel runtime : StepKind

-- A row of `onboarding_workflows`.
pub record Workflow : Type 0 where
  pub id : Text
  pub household_id : Text
  pub state : WorkflowState
  pub current_step : StepKind
  pub version : ℕ
  pub updated_at : Time
  pub completed_at : Option Time

-- `StepStatus`
pub data StepStatus : Type 0 where
  locked available selected provisioning waiting_user verifying verified failed cancelled :
      StepStatus

-- The columns of `onboarding_steps` that the modelled code reads.
pub record Step : Type 0 where
  pub workflow_id : Text
  pub kind : StepKind
  pub status : StepStatus

-- A row of `onboarding_transitions`, less the columns that the modelled code leaves empty.
pub record Transition : Type 0 where
  pub id : Text
  pub workflow_id : Text
  pub workflow_version : ℕ
  pub command : Text
  pub from_state : WorkflowState
  pub to_state : WorkflowState
  pub step_kind : Option StepKind
  pub account_id : Text
  pub request_id : Text
  pub metadata : Text
  pub created_at : Time

pub data IdentityStatus : Type 0 where
  selected provisioning waiting_user verified activating active : IdentityStatus
  needs_attention disconnecting deleted outcome_unknown : IdentityStatus

-- The columns of `email_identities` that the modelled code reads or writes.
pub record EmailIdentity : Type 0 where
  pub id : Text
  pub household_id : Text
  pub status : IdentityStatus
  pub version : ℕ
  pub created_at : Time
  pub activated_at : Option Time
  pub updated_at : Time

-- The result of a check; `failing` is any text but "healthy".
pub data Check : Type 0 where
  healthy : Check
  failing : Text → Check

pub data HealthStatus : Type 0 where
  activating active needs_attention : HealthStatus

-- A row of `email_activation_receipts`; `provider` is the text of the provider's kind.
pub record EmailReceipt : Type 0 where
  pub email_identity_id : Text
  pub desired_revision : ℕ
  pub runtime_ref : Text
  pub provider : Text
  pub inbound_check : Check
  pub outbound_check : Check
  pub checked_at : Time
  pub receipt_digest : Text
  pub status : HealthStatus
  pub runtime_health_status : HealthStatus
  pub runtime_health_owns_attention : Bool
  pub runtime_health_identity_version : Option ℕ

-- The columns of `household_memberships` that the modelled code reads.
pub record Membership : Type 0 where
  pub household_id : Text
  pub account_id : Text
  pub is_owner : Bool
  pub is_active : Bool
