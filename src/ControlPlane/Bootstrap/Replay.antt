-- ===== src/ControlPlane/Bootstrap/Replay.antt =====
-- `activate` of control_plane/provisioning/bootstrap.py at a token that was used before: the answer was
-- lost, and the runtime asks again.
use abrolia.Common.{
  ℕ, Bool, true, false, not, ◌&&◌, ◌||◌, Option, none, some, leb, ◌==◌, is_some, same_option, find,
  first_by, Action, pure, raise_if, gets, ◌>>=◌, ◌>>◌,
}
use abrolia.ControlPlane.Rows.{
  Text, Time, HouseholdStatus, Family, RevisionStatus, ConfigRevision, BootstrapToken, Workflow,
  WorkflowState, Check, healthy, failing, EmailReceipt,
}
use abrolia.ControlPlane.Consent.{ConsentPurpose, ProviderKind}
use abrolia.ControlPlane.Schema.{Db, Operation, Error, bootstrap_gone, bootstrap_conflict}
use abrolia.ControlPlane.Jobs.{Field, create}
use abrolia.ControlPlane.Configs.{Vault, get}
use abrolia.ControlPlane.Bootstrap.{Target, family}

-- `BootstrapService` with what it uses of the libraries. `none_text` is the text "None"; the next
-- fields are the cipher of the jobs and the digest of their requests, the digest of a consent text, the
-- digest of a synthetic check, whether a digest has 64 characters, the text of a provider's kind, and
-- the constant texts of a cleanup and of a transition.
pub record Service : Type 0 where
  pub vault : Vault
  pub none_text : Text
  pub seal : Text → Field → Text → Text → Text
  pub unseal : Text → Field → Text → Text → Text
  pub request_sha : Text → Text
  pub consent_sha : ConsentPurpose → Text
  pub synthetic_digest : Text → Text
  pub is_digest : Text → Bool
  pub kind_text : Option ProviderKind → Text
  pub runtime_kind : Text
  pub cleanup_kind : Text
  pub cleanup_operation : Operation
  pub cleanup_provider : Text
  pub cleanup_key : Text → ℕ → Text
  pub cleanup_request : Text → Text
  pub activate_command : Text
  pub request_id : Text → Text
  pub metadata : ℕ → Text

-- The email checks that a runtime reports; `receipt_digest` is its `email_receipt_digest`.
pub record Health : Type 0 where
  pub inbound : Option Check
  pub outbound : Option Check
  pub receipt_digest : Option Text

-- The arguments of a call beside the token and the target, with `fresh_job` and `fresh_transition`.
pub record Activation : Type 0 where
  pub activated_sha256 : Text
  pub health : Health
  pub receipt_acknowledged : Bool
  pub fresh_job : Text
  pub fresh_transition : Text
  pub now : Time

pub record ActivationReceipt : Type 0 where
  pub household_id : Text
  pub runtime_ref : Text
  pub config_revision : ℕ
  pub manifest_sha256 : Text
  pub cleanup_pending : Bool

abbrev pub receipt_for : Target → Text → Bool → ActivationReceipt
receipt_for target manifest_sha256 cleanup_pending = record {
  household_id = target.household_id;
  runtime_ref = target.runtime_ref;
  config_revision = target.config_revision;
  manifest_sha256 = manifest_sha256;
  cleanup_pending = cleanup_pending;
}

abbrev pub is_active_household : HouseholdStatus → Bool
is_active_household HouseholdStatus.active = true
is_active_household _ = false

abbrev pub is_active_revision : RevisionStatus → Bool
is_active_revision RevisionStatus.active = true
is_active_revision _ = false

abbrev pub is_complete : WorkflowState → Bool
is_complete WorkflowState.complete = true
is_complete _ = false

abbrev pub workflow_of : Text → Db → Option Workflow
workflow_of household_id db = find (λ w. w.household_id == household_id) db.onboarding_workflows

abbrev pub same_check : Check → Check → Bool
same_check healthy healthy = true
same_check (failing s) (failing t) = s == t
same_check _ _ = false

abbrev pub same_checks : Option Check → Check → Bool
same_checks none c = false
same_checks (some a) c = same_check a c

-- `any(value is not None for value in supplied_health)`
abbrev pub is_supplied : Health → Bool
is_supplied health =
    is_some health.inbound || (is_some health.outbound || is_some health.receipt_digest)

abbrev pub is_stored_health : Health → Option EmailReceipt → Bool
is_stored_health health none = false
is_stored_health health (some r) =
    same_checks health.inbound r.inbound_check
    && (same_checks health.outbound r.outbound_check
        && same_option health.receipt_digest (some r.receipt_digest))

-- ORDER BY checked_at DESC
abbrev pub checked_last : EmailReceipt → EmailReceipt → Bool
checked_last a b = leb b.checked_at a.checked_at

abbrev pub stored_receipt : Target → Db → Option EmailReceipt
stored_receipt target db =
    first_by checked_last
      (λ r. r.desired_revision == target.config_revision && r.runtime_ref == target.runtime_ref)
      db.email_activation_receipts

-- What a replay finds: the revision is the one that serves, and the setup is complete.
unfoldable pub is_serving :
    Target → Text → Option Family → Option ConfigRevision → Option Workflow → Bool
is_serving target activated_sha256 (some h) (some r) (some f) =
    is_active_household h.status
    && (h.current_config_revision == target.config_revision
        && (is_active_revision r.status
            && (is_complete f.state && r.manifest_sha256 == activated_sha256)))
is_serving target activated_sha256 _ _ _ = false

abbrev pub id_of : Option Workflow → Text
id_of none = 0
id_of (some f) = f.id

-- `_enqueue_cleanup`
unfoldable pub enqueue_cleanup : Service → Target → Text → Text → Time → Action Error Db (Unit {0})
unfolding create
enqueue_cleanup w target workflow_id fresh now =
    create w.seal w.unseal w.vault.key_version w.request_sha fresh
      (record {
        household_id = target.household_id;
        workflow_id = workflow_id;
        kind = w.cleanup_kind;
        operation = w.cleanup_operation;
        intent_key = w.cleanup_key target.household_id target.config_revision;
        desired_revision = some target.config_revision;
        provider = w.cleanup_provider;
      })
      (w.cleanup_request target.runtime_ref) now
    >> pure tt

abbrev pub when : Bool → Action Error Db (Unit {0}) → Action Error Db (Unit {0})
when true m = m
when false m = pure tt

-- The checks of a replay, with the workflow's id.
unfoldable pub check_replay : Target → Activation → BootstrapToken → Action Error Db Text
unfolding is_serving
check_replay target a row = do
  raise_if (not (row.manifest_sha256 == a.activated_sha256)) bootstrap_conflict
  h ← gets (family target.household_id)
  r ← gets (get target.household_id target.config_revision)
  f ← gets (workflow_of target.household_id)
  raise_if (not (is_serving target a.activated_sha256 h r f)) bootstrap_gone
  stored ← gets (stored_receipt target)
  raise_if (is_supplied a.health && not (is_stored_health a.health stored)) bootstrap_conflict
  pure (id_of f)

-- The cleanup, where the runtime says that it has its receipt, and the answer.
unfoldable pub answer : Service → Target → Activation → Text → Action Error Db ActivationReceipt
unfolding enqueue_cleanup
answer w target a workflow_id = do
  when a.receipt_acknowledged (enqueue_cleanup w target workflow_id a.fresh_job a.now)
  pure (receipt_for target a.activated_sha256 a.receipt_acknowledged)

-- A token that was used: an exact replay is answered, and nothing else.
unfoldable pub replay :
    Service → Target → Activation → BootstrapToken → Action Error Db ActivationReceipt
unfolding check_replay answer
replay w target a row = check_replay target a row >>= answer w target a
