-- ===== src/ControlPlane/Withdrawal.antt =====
-- control_plane/privacy/withdraw.py: the withdrawal of a consent. What the onboarding service does to
-- the household's resources is the parameter `disconnect`, none where the service is not wired in.
use abrolia.Common.{
  ℕ, Bool, true, false, not, ◌&&◌, Option, none, some, List, [], ◌∷◌, if◌then◌else◌, leb, ◌==◌,
  is_none, same_option, find, exists, select, order_by, update_where, count_where, map, Action,
  pure, raise, gets, write, ◌>>=◌,
}
use abrolia.ControlPlane.Rows.{Text, Time, RevisionStatus, ConfigRevision, Workflow}
use abrolia.ControlPlane.Consent.{
  ConsentPurpose, content_restriction, household_content, channel_privacy, linked_device_risk,
  unlisted, same_purpose, is_of, Receipt,
}
use abrolia.ControlPlane.Schema.{Db, Operation, Error, key_error, consent_not_held}
use abrolia.ControlPlane.Jobs.{Field, create}
use abrolia.ControlPlane.Bootstrap.{family}

-- A type of `external_resources`.
pub data ResourceType : Type 0 where
  email_identity whatsapp_identity channel_binding : ResourceType

-- An entry of WITHDRAWAL_SCOPES.
pub record Scope : Type 0 where
  pub resource_types : List ResourceType
  pub stops_runtime : Bool

abbrev pub content_scope : Scope
content_scope = record {
  resource_types = email_identity ∷ whatsapp_identity ∷ channel_binding ∷ [];
  stops_runtime = true;
}

abbrev pub channel_scope : Scope
channel_scope = record {
  resource_types = whatsapp_identity ∷ channel_binding ∷ [];
  stops_runtime = false;
}

-- WITHDRAWAL_SCOPES, with the KeyError for a purpose that is not a text of CONSENT_TEXTS.
abbrev pub scope_of : ConsentPurpose → Option Scope
scope_of household_content = some content_scope
scope_of content_restriction = some content_scope
scope_of channel_privacy = some channel_scope
scope_of linked_device_risk = some channel_scope
scope_of (unlisted t) = none

-- `WithdrawalResult`
pub record WithdrawalResult : Type 0 where
  pub household_id : Text
  pub purpose : ConsentPurpose
  pub receipts_revoked : ℕ
  pub revisions_revoked : ℕ
  pub runtime_job_id : Option Text
  pub email_cleanup_job_ids : List Text

-- The service with what it uses of the libraries: the cipher and the digests of the jobs, RUNTIME_REF,
-- the text of a purpose, and the constant texts of a stop.
pub record Withdrawer : Type 0 where
  pub disconnect : Option (Text → List ResourceType → Time → Action Error Db (List Text))
  pub seal : Text → Field → Text → Text → Text
  pub unseal : Text → Field → Text → Text → Text
  pub key_version : Text
  pub request_sha : Text → Text
  pub is_runtime_ref : Text → Bool
  pub purpose_text : ConsentPurpose → Text
  pub stop_kind : Text
  pub stop_operation : Operation
  pub stop_provider : Text
  pub stop_key : Text → Text → ConsentPurpose → List Text → Text
  pub stop_request : Text → ConsentPurpose → List Text → Text

abbrev pub is_receipt_for : Text → ConsentPurpose → Receipt → Bool
is_receipt_for household_id p r = is_of household_id r.household_id && same_purpose r.purpose p

abbrev pub is_standing : Text → ConsentPurpose → Receipt → Bool
is_standing household_id p r = is_receipt_for household_id p r && is_none r.revoked_at

abbrev pub later : Option Time → Option Time → Option Time
later none b = b
later (some a) none = some a
later (some a) (some b) = if leb a b then some b else some a

-- MAX(revoked_at)
abbrev pub last_revoked : List Receipt → Option Time
last_revoked [] = none
last_revoked (r ∷ rows) = later r.revoked_at (last_revoked rows)

-- `revoked_at = (SELECT MAX(revoked_at) …)`, which is not true of NULL.
abbrev pub revoked_then : Option Time → Receipt → Bool
revoked_then none r = false
revoked_then (some t) r = same_option r.revoked_at (some t)

abbrev pub id_first : Receipt → Receipt → Bool
id_first a b = leb a.id b.id

abbrev pub ids_of : (Receipt → Bool) → List Receipt → List Text
ids_of p rows = map (λ r. r.id) (order_by id_first (select p rows))

abbrev pub or_else : List Text → List Text → List Text
or_else [] ks = ks
or_else (k ∷ rest) ks = k ∷ rest

-- The receipts of this cycle of consent, or of the one that was withdrawn before.
unfoldable pub cycle_of : Text → ConsentPurpose → List Receipt → List Text
cycle_of household_id p rows = or_else (ids_of (is_standing household_id p) rows) (
    ids_of
      (λ r.
        is_receipt_for household_id p r
        && revoked_then (last_revoked (select (is_receipt_for household_id p) rows)) r)
      rows)

abbrev pub withdrawn_receipt : Time → Receipt → Receipt
withdrawn_receipt now r = record r { revoked_at = some now }

-- The UPDATE of the receipts, with the refusal of a consent that was never given.
unfoldable pub revoke_receipts : Text → ConsentPurpose → Time → Action Error Db ℕ
revoke_receipts household_id p now db =
    let revoked = count_where (is_standing household_id p) db.consent_receipts in
    if revoked == 0 && not (exists (is_receipt_for household_id p) db.consent_receipts)
    then raise consent_not_held db
    else pure revoked (record db {
      consent_receipts =
          update_where (is_standing household_id p) (withdrawn_receipt now) db.consent_receipts;
    })

abbrev pub is_standing_status : RevisionStatus → Bool
is_standing_status RevisionStatus.superseded = false
is_standing_status RevisionStatus.revoked = false
is_standing_status _ = true

abbrev pub is_standing_revision : Text → ConfigRevision → Bool
is_standing_revision household_id r = r.household_id == household_id && is_standing_status r.status

abbrev pub revoked_row : ConfigRevision → ConfigRevision
revoked_row r = record r { status = RevisionStatus.revoked }

unfoldable pub revoke_revisions : Bool → Text → Action Error Db ℕ
revoke_revisions false household_id db = pure 0 db
revoke_revisions true household_id db =
    pure (count_where (is_standing_revision household_id) db.config_revisions) (record db {
      config_revisions =
          update_where (is_standing_revision household_id) revoked_row db.config_revisions;
    })

unfoldable pub disconnect_resources : Withdrawer → Scope → Text → Time → Action Error Db (List Text)
disconnect_resources w scope household_id now = elim w.disconnect [
  | none ↦ pure []
  | some run ↦ run household_id scope.resource_types now
]

-- `_enqueue_runtime_stop`, where the household has a runtime that can be told and a workflow.
unfoldable pub stop_job :
    Withdrawer
    → Text
    → ConsentPurpose
    → List Text
    → Text
    → Time
    → Text
    → Text
    → Action Error Db (Option Text)
unfolding create
stop_job w household_id p cycle fresh now runtime_ref workflow_id = do
  (job_id, created) ←
      create w.seal w.unseal w.key_version w.request_sha fresh
        (record {
          household_id = household_id;
          workflow_id = workflow_id;
          kind = w.stop_kind;
          operation = w.stop_operation;
          intent_key = w.stop_key household_id runtime_ref p cycle;
          desired_revision = none;
          provider = w.stop_provider;
        })
        (w.stop_request runtime_ref p cycle) now
  pure (some job_id)

abbrev pub runtime_of : Text → Db → Text
runtime_of household_id db = elim (family household_id db) [
  | none ↦ 0
  | some h ↦ elim h.runtime_ref [ none ↦ 0 | some k ↦ k ]
]

abbrev pub workflow_for : Text → Db → Option Workflow
workflow_for household_id db = find (λ f. f.household_id == household_id) db.onboarding_workflows

unfoldable pub enqueue_stop :
    Withdrawer → Text → ConsentPurpose → List Text → Text → Time → Action Error Db (Option Text)
unfolding stop_job
enqueue_stop w household_id p cycle fresh now db =
    if not (w.is_runtime_ref (runtime_of household_id db))
    then pure none db
    else elim (workflow_for household_id db) [
      | none ↦ pure none db
      | some f ↦ stop_job w household_id p cycle fresh now (runtime_of household_id db) f.id db
    ]

unfoldable pub stop_runtime :
    Bool
    → Withdrawer
    → Text
    → ConsentPurpose
    → List Text
    → Text
    → Time
    → Action Error Db (Option Text)
unfolding enqueue_stop
stop_runtime false w household_id p cycle fresh now = pure none
stop_runtime true w household_id p cycle fresh now = enqueue_stop w household_id p cycle fresh now

abbrev pub result_of : Text → ConsentPurpose → ℕ → ℕ → List Text → Option Text → WithdrawalResult
result_of household_id p receipts revisions cleanups job = record {
  household_id = household_id;
  purpose = p;
  receipts_revoked = receipts;
  revisions_revoked = revisions;
  runtime_job_id = job;
  email_cleanup_job_ids = cleanups;
}

-- The end of the transaction: the resources, and the job that tells the runtime.
unfoldable pub tear_down :
    Withdrawer
    → Text
    → ConsentPurpose
    → Scope
    → Text
    → Time
    → List Text
    → ℕ
    → ℕ
    → Action Error Db WithdrawalResult
unfolding disconnect_resources stop_runtime
tear_down w household_id p scope fresh now cycle receipts revisions = do
  cleanups ← disconnect_resources w scope household_id now
  job ← stop_runtime scope.stops_runtime w household_id p cycle fresh now
  pure (result_of household_id p receipts revisions cleanups job)

-- The transaction of `withdraw`; `fresh` is the id of the job that it may enqueue.
unfoldable pub withdraw_in :
    Withdrawer → Text → ConsentPurpose → Scope → Text → Time → Action Error Db WithdrawalResult
unfolding revoke_receipts revoke_revisions tear_down cycle_of
withdraw_in w household_id p scope fresh now = do
  cycle ← gets (λ db. cycle_of household_id p db.consent_receipts)
  receipts ← revoke_receipts household_id p now
  revisions ← revoke_revisions scope.stops_runtime household_id
  tear_down w household_id p scope fresh now cycle receipts revisions

unfoldable pub withdraw_scoped :
    Option Scope
    → Withdrawer
    → Text
    → ConsentPurpose
    → Text
    → Time
    → Action Error Db WithdrawalResult
unfolding withdraw_in
withdraw_scoped none w household_id p fresh now = raise (key_error (w.purpose_text p))
withdraw_scoped (some scope) w household_id p fresh now =
    write (withdraw_in w household_id p scope fresh now)

unfoldable pub withdraw :
    Withdrawer → Text → ConsentPurpose → Text → Time → Action Error Db WithdrawalResult
unfolding withdraw_scoped
withdraw w household_id p fresh now = withdraw_scoped (scope_of p) w household_id p fresh now
