-- ===== src/ControlPlane/Jobs.antt =====
-- control_plane/repositories/jobs.py: the queue of provisioning jobs. Encryption and digests are
-- parameters; `fresh` is what `new_id()` returns, and `now` the resolved time of the call.
pub mod Holding
pub mod Queue
pub mod Results
use abrolia.Common.{
  ℕ, Bool, true, false, not, ◌&&◌, ◌||◌, Option, none, some, List, [], ◌∷◌, ◌++◌, ◌+◌,
  if◌then◌else◌, ltb, leb, ◌==◌, is_none, at_most, coalesce, find, exists, update_where,
  count_where, first_by, map, reverse, Action, pure, raise, gets, modify, or_raise, write, ◌>>=◌,
  ◌>>◌,
}
use mathlib.Core.Option
use abrolia.ControlPlane.Schema.{
  Text, Time, Job, JobStatus, pending, running, waiting_user, succeeded, failed, outcome_unknown,
  cancelled, Operation, inspect, Db, Error, integrity, key_error, has_household, has_workflow,
}

-- RECONCILIATION_SUFFIX, "_requires_reconciliation".
abbrev pub reconciliation_suffix : List ℕ
reconciliation_suffix =
    b'_' ∷ b'r' ∷ b'e' ∷ b'q' ∷ b'u' ∷ b'i' ∷ b'r' ∷ b'e' ∷ b's' ∷ b'_' ∷ b'r' ∷ b'e' ∷ b'c' ∷ b'o'
    ∷ b'n' ∷ b'c' ∷ b'i' ∷ b'l' ∷ b'i' ∷ b'a' ∷ b't' ∷ b'i' ∷ b'o' ∷ b'n' ∷ []

-- Whether the second text starts with the first, characters compared by `same`.
abbrev pub starts_by : (ℕ → ℕ → Bool) → List ℕ → List ℕ → Bool
starts_by same [] text = true
starts_by same (c ∷ cs) [] = false
starts_by same (c ∷ cs) (d ∷ ds) = same c d && starts_by same cs ds

-- `str.endswith`
abbrev pub ends_with : List ℕ → List ℕ → Bool
ends_with suffix text = starts_by ◌==◌ (reverse suffix) (reverse text)

abbrev pub fold_char : ℕ → ℕ
fold_char c = if leb b'A' c && leb c b'Z' then c + 32 else c

abbrev pub same_folded : ℕ → ℕ → Bool
same_folded a b = fold_char a == fold_char b

-- SQLite's `text LIKE '%suffix'`, which does not tell the case of ASCII letters.
abbrev pub like_ends_with : List ℕ → List ℕ → Bool
like_ends_with suffix text = starts_by same_folded (reverse suffix) (reverse text)

unfoldable pub requires_reconciliation : Option (List ℕ) → Bool
requires_reconciliation none = false
requires_reconciliation (some error_code) = ends_with reconciliation_suffix error_code

-- What `COALESCE(error_code, '') LIKE …` of `retry_later` tests.
unfoldable pub is_quarantined : Option (List ℕ) → Bool
is_quarantined none = false
is_quarantined (some error_code) = like_ends_with reconciliation_suffix error_code

abbrev pub is_pending : JobStatus → Bool
is_pending pending = true
is_pending _ = false

abbrev pub is_running : JobStatus → Bool
is_running running = true
is_running _ = false

abbrev pub is_waiting_user : JobStatus → Bool
is_waiting_user waiting_user = true
is_waiting_user _ = false

abbrev pub is_outcome_unknown : JobStatus → Bool
is_outcome_unknown outcome_unknown = true
is_outcome_unknown _ = false

abbrev pub is_inspect : Operation → Bool
is_inspect inspect = true
is_inspect _ = false

-- The statuses at which `settle` records the time.
abbrev pub is_settled : JobStatus → Bool
is_settled succeeded = true
is_settled failed = true
is_settled outcome_unknown = true
is_settled cancelled = true
is_settled _ = false

abbrev pub get : Text → Db → Option Job
get job_id db = find (λ j. j.id == job_id) db.provisioning_jobs

abbrev pub update_job : Text → (Job → Job) → Db → Db
update_job job_id f db = record db {
  provisioning_jobs = update_where (λ j. j.id == job_id) f db.provisioning_jobs;
}

-- The WHERE of `lease`.
abbrev pub is_available : Time → Job → Bool
is_available now j =
    (is_pending j.status && (is_none j.not_before || at_most j.not_before now))
    || (is_running j.status && at_most j.lease_until now)
    || (is_waiting_user j.status && (is_inspect j.operation && at_most j.not_before now))

-- ORDER BY created_at, id
abbrev pub created_first : Job → Job → Bool
created_first a b = ltb a.created_at b.created_at || (a.created_at == b.created_at && leb a.id b.id)

abbrev pub leased_row : Text → ℕ → Time → Job → Job
leased_row worker_id lease_seconds now j = record j {
  status = running;
  leased_by = some worker_id;
  lease_until = some (now + lease_seconds);
  attempts = j.attempts + 1;
  updated_at = now;
}

unfoldable pub lease_row : Option Job → Text → ℕ → Time → Action Error Db (Option (Job × Bool))
lease_row none worker_id lease_seconds now db = pure none db
lease_row (some row) worker_id lease_seconds now db =
    let db' = update_job row.id (leased_row worker_id lease_seconds now) db in
    pure (Option.map (λ current. (current, is_running row.status)) (get row.id db')) db'

-- `lease`: the record that it returns is the row with the flag `reclaimed`.
unfoldable pub lease : Bool → Text → ℕ → Time → Action Error Db (Option (Job × Bool))
unfolding lease_row
lease workers_paused worker_id lease_seconds now db =
    if workers_paused
    then pure none db
    else lease_row (first_by created_first (is_available now) db.provisioning_jobs) worker_id
        lease_seconds now db

-- The WHERE of `retry_later`.
unfoldable pub is_retried : Text → Job → Bool
unfolding is_quarantined
is_retried job_id j =
    j.id == job_id
    && ((is_running j.status || is_outcome_unknown j.status)
        && not (is_outcome_unknown j.status && is_quarantined j.error_code))

abbrev pub retried_row : Time → List ℕ → Time → Job → Job
retried_row not_before error_code now j = record j {
  status = pending;
  not_before = some not_before;
  error_code = some error_code;
  lease_until = none;
  leased_by = none;
  settled_at = none;
  updated_at = now;
}

unfoldable pub retry_later : Text → Time → List ℕ → Time → Action Error Db (Unit {0})
unfolding is_retried
retry_later job_id not_before error_code now = modify (λ db. record db {
  provisioning_jobs =
      update_where (is_retried job_id) (retried_row not_before error_code now) db.provisioning_jobs;
})

-- The WHERE of `cancel_household`.
abbrev pub is_cancellable : Text → Job → Bool
is_cancellable household_id j =
    j.household_id == household_id && (is_pending j.status || is_waiting_user j.status)

abbrev pub cancelled_row : Time → Job → Job
cancelled_row now j = record j {
  status = cancelled;
  settled_at = some now;
  updated_at = now;
  lease_until = none;
  leased_by = none;
}

unfoldable pub cancel_household : Text → Time → Action Error Db ℕ
cancel_household household_id now db =
    pure (count_where (is_cancellable household_id) db.provisioning_jobs) (record db {
      provisioning_jobs =
          update_where (is_cancellable household_id) (cancelled_row now) db.provisioning_jobs;
    })

-- The columns that hold ciphertexts.
pub data Field : Type 0 where
  request_field result_field external_ref_field : Field

-- The arguments of `create` that go into the row as they are.
pub record Intent : Type 0 where
  pub household_id : Text
  pub workflow_id : Text
  pub kind : Text
  pub operation : Operation
  pub intent_key : Text
  pub desired_revision : Option ℕ
  pub provider : Text

-- `seal` is `encrypt_json` of a job's id and column under a key version, `unseal` is `decrypt_json`,
-- `key_version` the cipher's current version, and `sha` the digest of the canonical JSON.
module _ (seal : Text → Field → Text → Text → Text) (unseal : Text → Field → Text → Text → Text)
    (key_version : Text) (sha : Text → Text) where
  abbrev pub new_job : Text → Intent → Text → Time → Job
  new_job fresh intent request now = record {
    id = fresh;
    household_id = intent.household_id;
    workflow_id = intent.workflow_id;
    kind = intent.kind;
    operation = intent.operation;
    intent_key = intent.intent_key;
    desired_revision = intent.desired_revision;
    request_sha = sha request;
    request_ciphertext = seal fresh request_field request key_version;
    encryption_key_version = key_version;
    status = pending;
    provider = intent.provider;
    external_ref_ciphertext = none;
    result_ciphertext = none;
    error_code = none;
    attempts = 0;
    not_before = none;
    lease_until = none;
    leased_by = none;
    created_at = now;
    updated_at = now;
    settled_at = none;
  }

  -- INSERT INTO provisioning_jobs, with its keys; the intent key was looked up before.
  unfoldable pub insert_job : Job → Action Error Db (Text × Bool)
  insert_job j db =
      if exists (λ r. r.id == j.id) db.provisioning_jobs
        || (not (has_household db j.household_id) || not (has_workflow db j.workflow_id))
      then raise integrity db
      else pure (j.id, true) (record db { provisioning_jobs = db.provisioning_jobs ++ j ∷ [] })

  unfoldable pub create : Text → Intent → Text → Time → Action Error Db (Text × Bool)
  unfolding insert_job
  create fresh intent request now db =
      elim (find (λ j. j.intent_key == intent.intent_key) db.provisioning_jobs) [
        | some existing ↦ pure (existing.id, false) db
        | none ↦ insert_job (new_job fresh intent request now) db
      ]

  abbrev pub open_job : Text → Action Error Db Job
  open_job job_id = gets (get job_id) >>= λ row. or_raise row (key_error job_id)

  abbrev pub inspecting_row : Text → Option Time → List ℕ → Time → Job → Job
  inspecting_row request not_before error_code now j = record j {
    operation = inspect;
    request_sha = sha request;
    request_ciphertext = seal j.id request_field request j.encryption_key_version;
    status = waiting_user;
    not_before = not_before;
    error_code = some error_code;
    lease_until = none;
    leased_by = none;
    settled_at = none;
    updated_at = now;
  }

  unfoldable pub schedule_waiting_inspect :
      Text → Text → Option Time → List ℕ → Time → Action Error Db (Unit {0})
  schedule_waiting_inspect job_id request not_before error_code now = do
    open_job job_id
    modify (update_job job_id (inspecting_row request not_before error_code now))

  abbrev pub sealed : Job → Field → Option Text → Option Text
  sealed j field value = Option.map (λ v. seal j.id field v j.encryption_key_version) value

  abbrev pub settled_row :
      JobStatus → Option Text → Option Text → Option (List ℕ) → Time → Job → Job
  settled_row status result external_ref error_code now j = record j {
    status = status;
    result_ciphertext = coalesce (sealed j result_field result) j.result_ciphertext;
    external_ref_ciphertext =
        coalesce (sealed j external_ref_field external_ref) j.external_ref_ciphertext;
    error_code = error_code;
    lease_until = none;
    leased_by = none;
    updated_at = now;
    settled_at = if is_settled status then some now else none;
  }

  unfoldable pub settle :
      Text
      → JobStatus
      → Option Text
      → Option Text
      → Option (List ℕ)
      → Time
      → Action Error Db (Unit {0})
  settle job_id status result external_ref error_code now = do
    open_job job_id
    modify (update_job job_id (settled_row status result external_ref error_code now))

  abbrev pub recorded_row : Text → Text → Time → Job → Job
  recorded_row result external_ref now j = record j {
    result_ciphertext = some (seal j.id result_field result j.encryption_key_version);
    external_ref_ciphertext =
        some (seal j.id external_ref_field external_ref j.encryption_key_version);
    updated_at = now;
  }

  unfoldable pub record_result : Text → Text → Text → Time → Action Error Db (Unit {0})
  record_result job_id result external_ref now = do
    open_job job_id
    modify (update_job job_id (recorded_row result external_ref now))

  abbrev pub opened : Job → Field → Option Text → Option Text
  opened j field ciphertext =
      Option.map (λ c. unseal j.id field c j.encryption_key_version) ciphertext

  unfoldable pub request_of : Text → Action Error Db Text
  request_of job_id = do
    row ← open_job job_id
    pure (unseal row.id request_field row.request_ciphertext row.encryption_key_version)

  unfoldable pub result_of : Text → Action Error Db (Option Text)
  result_of job_id = do row ← open_job job_id; pure (opened row result_field row.result_ciphertext)

  unfoldable pub external_ref_of : Text → Action Error Db (Option Text)
  external_ref_of job_id = do
    row ← open_job job_id
    pure (opened row external_ref_field row.external_ref_ciphertext)
