-- ===== src/ControlPlane/Jobs/Results.antt =====
-- What a provider answered stays with its job, and an intent has one job.
use abrolia.Common.{
  ℕ, ◌≡◌, Bool, true, false, Option, none, some, List, [], ◌∷◌, ◌==◌, arith, ok, update_where,
}
use abrolia.Common.Rows.{find-update_where, find-test, find-append}
use abrolia.ControlPlane.Schema.{Text, Time, Job, JobStatus, Db}
use abrolia.ControlPlane.Jobs.{
  Field, result_field, external_ref_field, get, Intent, new_job, insert_job, create, settled_row,
  settle, recorded_row, record_result, result_of, external_ref_of,
}

abbrev pub id_is : Text → Job → Bool
id_is k j = j.id == k

module _ (seal : Text → Field → Text → Text → Text) (unseal : Text → Field → Text → Text → Text)
    (key_version : Text) (sha : Text → Text)
    (unseal-seal : (k : Text) (f : Field) (v version : Text)
      → unseal k f (seal k f v version) version ≡ v) where
  -- What `record_result` stored is read back by `result` and `external_ref` after a `settle` that
  -- reports a status alone, whatever the status: settling does not lose the provider's answer. The
  -- hypothesis is that decryption undoes encryption under one id, column and key version.
  pub result_of-settle :
      (k result reference : Text) (status : JobStatus) (error_code : Option (List ℕ))
      (now later : Time) (db : Db) (j : Job)
      → get k db ≡ some j
      → let db' =
          (settle seal unseal key_version sha k status none none error_code later
            (record_result seal unseal key_version sha k result reference now db).1).1 in
        ((result_of seal unseal key_version sha k db').0 ≡ ok (some result))
        × ((external_ref_of seal unseal key_version sha k db').0 ≡ ok (some reference))
  unfolding settle record_result result_of external_ref_of
  result_of-settle k result reference status error_code now later db j found =
      let named = find-test (id_is k) db.provisioning_jobs j found in
      let recorded = recorded_row seal unseal key_version sha result reference now in
      let once =
        find-update_where (id_is k) (id_is k) recorded db.provisioning_jobs (λ r. ground arith) in
      let twice =
        find-update_where (id_is k) (id_is k)
          (settled_row seal unseal key_version sha status none none error_code later)
          (update_where (id_is k) recorded db.provisioning_jobs) (λ r. ground arith) in
      let back_result = unseal-seal j.id result_field result j.encryption_key_version in
      let back_reference = unseal-seal j.id external_ref_field reference j.encryption_key_version in
      (
        ground (arith, found, named, once, twice, back_result),
        ground (arith, found, named, once, twice, back_reference),
      )

module _ (seal : Text → Field → Text → Text → Text) (unseal : Text → Field → Text → Text → Text)
    (key_version : Text) (sha : Text → Text) where
  -- `create` is idempotent by its intent key: after a call that created a job, every later call with
  -- an intent of that key returns that job's id and `false`, and changes nothing, whatever its other
  -- arguments are.
  pub create-create :
      (fresh other job_id request changed : Text) (intent later_intent : Intent) (now later : Time)
      (db : Db)
      → (create seal unseal key_version sha fresh intent request now db).0 ≡ ok (job_id, true)
      → later_intent.intent_key ≡ intent.intent_key
      → let db' = (create seal unseal key_version sha fresh intent request now db).1 in
        create seal unseal key_version sha other later_intent changed later db'
        ≡ (ok (job_id, false), db')
  unfolding create insert_job
  create-create fresh other job_id request changed intent later_intent now later db made same =
      let last =
        find-append (λ (j : Job). j.intent_key == intent.intent_key) db.provisioning_jobs
          (new_job seal unseal key_version sha fresh intent request now ∷ []) in
      ground (arith, last, made, same)
