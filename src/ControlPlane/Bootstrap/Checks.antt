-- ===== src/ControlPlane/Bootstrap/Checks.antt =====
-- The checks of `activate` of control_plane/provisioning/bootstrap.py at a token that was not used.
use abrolia.Common.{
  ℕ, Bool, true, false, not, ◌&&◌, ◌||◌, Option, none, some, List, [], ◌∷◌, ◌++◌, ◌+◌,
  if◌then◌else◌, ltb, leb, ◌==◌, is_none, is_some, same_option, find, exists, select, update_where,
  first_by, Result, Action, pure, raise, raise_if, gets, modify, or_raise, write, ◌>>=◌, ◌>>◌,
}
use abrolia.Common
use abrolia.ControlPlane.Rows.{
  Text, Family, RevisionStatus, ConfigRevision, BootstrapToken, Workflow, StepKind, StepStatus,
  Step, IdentityStatus, EmailIdentity, Check, healthy, HealthStatus, EmailReceipt,
}
use abrolia.ControlPlane.Consent.{
  ConsentPurpose, ProviderKind, synthetic, manifest_required_purposes, assert_current_consent,
}
use abrolia.ControlPlane.Schema.{Db, Error, bootstrap_gone, bootstrap_conflict, type_error}
use abrolia.ControlPlane.Configs.{Vault, Manifest, is_revision, get, manifest_in}
use abrolia.ControlPlane.Bootstrap.{Target, is_ready_household, family}
use abrolia.ControlPlane.Bootstrap.Replay.{
  Service, Health, Activation, is_active_revision, workflow_of,
}

-- `_manifest_or_none`, and the purposes that the stored manifest declares.
abbrev pub purposes_in : Vault → Option ConfigRevision → Option (List ConsentPurpose)
purposes_in w none = none
purposes_in w (some r) = (manifest_in w r).required_purposes

abbrev pub is_missing_consent : Result ConsentPurpose (Unit {0}) → Bool
is_missing_consent (Common.ok u) = false
is_missing_consent (Common.err p) = true

abbrev pub lacks_consent : Service → Target → Db → Bool
lacks_consent w target db = is_missing_consent (
    assert_current_consent w.consent_sha target.household_id db.consent_receipts (
      manifest_required_purposes
        (purposes_in w.vault (get target.household_id target.config_revision db))))

abbrev pub is_claimed_status : RevisionStatus → Bool
is_claimed_status RevisionStatus.claimed = true
is_claimed_status _ = false

abbrev pub is_synthetic : Option ProviderKind → Bool
is_synthetic (some synthetic) = true
is_synthetic _ = false

-- The checks that the activation goes by: a synthetic mailbox is healthy.
abbrev pub health_of : Service → Manifest → Activation → Health
health_of w document a =
    if is_synthetic document.provider_kind && is_none a.health.inbound
    then record {
      inbound = some healthy;
      outbound = some healthy;
      receipt_digest = some (w.synthetic_digest a.activated_sha256);
    }
    else a.health

abbrev pub is_healthy : Option Check → Bool
is_healthy (some healthy) = true
is_healthy _ = false

abbrev pub is_step : Text → StepKind → Step → Bool
is_step workflow_id StepKind.email_identity s =
    s.workflow_id == workflow_id && elim s.kind [ StepKind.email_identity ↦ true | _ ↦ false ]
is_step workflow_id StepKind.whatsapp_identity s =
    s.workflow_id == workflow_id && elim s.kind [ StepKind.whatsapp_identity ↦ true | _ ↦ false ]
is_step workflow_id StepKind.primary_channel s =
    s.workflow_id == workflow_id && elim s.kind [ StepKind.primary_channel ↦ true | _ ↦ false ]
is_step workflow_id StepKind.profile s =
    s.workflow_id == workflow_id && elim s.kind [ StepKind.profile ↦ true | _ ↦ false ]
is_step workflow_id StepKind.runtime s = false

abbrev pub is_verified_step : Option Step → Bool
is_verified_step none = false
is_verified_step (some s) = elim s.status [ StepStatus.verified ↦ true | _ ↦ false ]

abbrev pub step_verified : Text → StepKind → Db → Bool
step_verified workflow_id kind db =
    is_verified_step (find (is_step workflow_id kind) db.onboarding_steps)

abbrev pub all_verified : Text → Db → Bool
all_verified workflow_id db =
    step_verified workflow_id StepKind.email_identity db
    && (step_verified workflow_id StepKind.whatsapp_identity db
        && step_verified workflow_id StepKind.primary_channel db)

abbrev pub is_gone_identity : IdentityStatus → Bool
is_gone_identity IdentityStatus.disconnecting = true
is_gone_identity IdentityStatus.deleted = true
is_gone_identity _ = false

-- ORDER BY created_at DESC
abbrev pub created_last : EmailIdentity → EmailIdentity → Bool
created_last a b = leb b.created_at a.created_at

abbrev pub identity_of : Text → Db → Option EmailIdentity
identity_of household_id db =
    first_by created_last (λ i. i.household_id == household_id && not (is_gone_identity i.status))
      db.email_identities

abbrev pub needs_attention : HealthStatus → Bool
needs_attention HealthStatus.needs_attention = true
needs_attention _ = false

abbrev pub is_attended : IdentityStatus → Bool
is_attended IdentityStatus.needs_attention = true
is_attended _ = false

abbrev pub is_usable_identity : IdentityStatus → Bool
is_usable_identity IdentityStatus.verified = true
is_usable_identity IdentityStatus.activating = true
is_usable_identity IdentityStatus.active = true
is_usable_identity _ = false

-- A receipt of the revision that serves, whose monitor owns the identity's trouble.
abbrev pub is_owned_attention : Target → Text → EmailIdentity → Db → EmailReceipt → Bool
is_owned_attention target provider i db r =
    (r.email_identity_id == i.id
      && (r.runtime_ref == target.runtime_ref
          && (ltb r.desired_revision target.config_revision && r.provider == provider)))
    && (needs_attention r.status
        && (needs_attention r.runtime_health_status
            && (r.runtime_health_owns_attention
                && (same_option r.runtime_health_identity_version (some i.version)
                    && (is_healthy (some r.inbound_check) && is_healthy (some r.outbound_check))))))
    && exists
        (λ c. is_revision target.household_id r.desired_revision c && is_active_revision c.status)
        db.config_revisions

abbrev pub current_revision : Option Family → ℕ
current_revision none = 0
current_revision (some h) = h.current_config_revision

-- `recovering_monitor_attention`, and the test of the identity's status.
abbrev pub is_available : Target → Text → Option Family → EmailIdentity → Db → Bool
is_available target provider h i db =
    is_usable_identity i.status
    || (is_attended i.status
        && (current_revision h == target.config_revision
            && exists (is_owned_attention target provider i db) db.email_activation_receipts))

-- What the checks of an activation have found.
pub record Ready : Type 0 where
  pub revision : ConfigRevision
  pub workflow : Workflow
  pub identity : EmailIdentity
  pub provider : Text
  pub digest : Text

-- The manifest's checks: its hash, and the health of its mailbox.
unfoldable pub check_manifest :
    Service → Activation → ConfigRevision → Action Error Db (Text × Text)
check_manifest w a revision = do
  let document = manifest_in w.vault revision
  raise_if (not (w.vault.manifest_sha256 document == a.activated_sha256)) bootstrap_conflict
  let health = health_of w document a
  raise_if (not (is_healthy health.inbound && is_healthy health.outbound)) bootstrap_conflict
  digest ← or_raise health.receipt_digest bootstrap_conflict
  pure (w.kind_text document.provider_kind, digest)

-- The checks of the household's setup.
unfoldable pub check_setup :
    Target → Text → Option Family → Action Error Db (Workflow × EmailIdentity)
check_setup target provider h = do
  f ← gets (workflow_of target.household_id)
  f ← or_raise f type_error
  verified ← gets (all_verified f.id)
  raise_if (not verified) bootstrap_conflict
  i ← gets (identity_of target.household_id)
  i ← or_raise i bootstrap_conflict
  available ← gets (is_available target provider h i)
  raise_if (not available) bootstrap_conflict
  pure (f, i)

-- The checks of the consents, of the token and of the revision.
unfoldable pub check_target :
    Service
    → Target
    → Activation
    → BootstrapToken
    → Action Error Db (Option Family × ConfigRevision)
check_target w target a row = do
  lacking ← gets (lacks_consent w target)
  raise_if (lacking || a.receipt_acknowledged) bootstrap_conflict
  raise_if (leb row.expires_at a.now) bootstrap_gone
  raise_if (is_none row.claimed_at || not (row.manifest_sha256 == a.activated_sha256))
      bootstrap_conflict
  h ← gets (family target.household_id)
  revision ← gets (get target.household_id target.config_revision)
  revision ← or_raise revision bootstrap_conflict
  raise_if
      (not (is_ready_household w.none_text target h) || not (is_claimed_status revision.status))
      bootstrap_conflict
  pure (h, revision)

abbrev pub ready_of : ConfigRevision → Text × Text → Workflow × EmailIdentity → Ready
ready_of revision (provider, digest) (f, i) = record {
  revision = revision;
  workflow = f;
  identity = i;
  provider = provider;
  digest = digest;
}

unfoldable pub check_identity :
    Target → Option Family → ConfigRevision → Text × Text → Action Error Db Ready
check_identity target h revision (provider, digest) = do
  found ← check_setup target provider h
  pure (ready_of revision (provider, digest) found)

-- The checks of the manifest and of the setup.
unfoldable pub check_rest :
    Service → Target → Activation → Option Family × ConfigRevision → Action Error Db Ready
unfolding check_manifest check_setup check_identity
check_rest w target a (h, revision) =
    check_manifest w a revision >>= check_identity target h revision

-- The checks of an activation, in their order; nothing is written.
unfoldable pub check : Service → Target → Activation → BootstrapToken → Action Error Db Ready
unfolding check_target check_rest
check w target a row = check_target w target a row >>= check_rest w target a
