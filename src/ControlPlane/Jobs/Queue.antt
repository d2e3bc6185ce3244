-- ===== src/ControlPlane/Jobs/Queue.antt =====
-- What a lease takes, and jobs that are kept from being retried.
use abrolia.Common.{
  ℕ, ◌≡◌, refl, Bool, true, false, Option, none, some, List, [], ◌∷◌, ◌==◌, arith, ok, inl, inr,
  Option-cases, first_by, reverse,
}
use abrolia.Common.Rows.{find-update_where}
use abrolia.Common.Keys.{Distinct}
use abrolia.Common.First.{first_by-key}
use abrolia.ControlPlane.Schema.{Text, Time, Job, Db}
use abrolia.ControlPlane.Jobs.{
  reconciliation_suffix, starts_by, same_folded, requires_reconciliation, is_quarantined,
  is_outcome_unknown, is_running, get, update_job, is_available, created_first, leased_row,
  lease_row, lease, is_retried, retried_row, retry_later,
}

abbrev pub job_id : Job → ℕ
job_id j = j.id

abbrev pub id_is : Text → Job → Bool
id_is k j = j.id == k

starts_folded : (cs ds : List ℕ) → starts_by ◌==◌ cs ds ≡ true → starts_by same_folded cs ds ≡ true
starts_folded [] ds h = refl
starts_folded (c ∷ cs) [] h = ground arith
starts_folded (c ∷ cs) (d ∷ ds) h = ground (arith, starts_folded cs ds)

quarantined_of_reconciliation :
    (e : Option (List ℕ)) → requires_reconciliation e ≡ true → is_quarantined e ≡ true
unfolding requires_reconciliation is_quarantined
quarantined_of_reconciliation none h = h
quarantined_of_reconciliation (some e) h =
    starts_folded (reverse reconciliation_suffix) (reverse e) h

-- A job whose outcome is unknown and whose error code `requires_reconciliation` accepts is left as it
-- is by `retry_later`: the SQL pattern of the one covers the Python test of the other.
pub retry_later-requires_reconciliation :
    (k : Text) (not_before : Time) (error_code : List ℕ) (now : Time) (db : Db) (j : Job)
    → get k db ≡ some j
    → is_outcome_unknown j.status ≡ true
    → requires_reconciliation j.error_code ≡ true
    → get k (retry_later k not_before error_code now db).1 ≡ some j
unfolding retry_later is_retried
retry_later-requires_reconciliation k not_before error_code now db j found waits held =
    let moved =
      find-update_where (id_is k) (is_retried k) (retried_row not_before error_code now)
        db.provisioning_jobs (λ r. ground arith) in
    ground (arith, moved, found, waits, quarantined_of_reconciliation j.error_code held)

pub lease-some :
    (worker : Text) (seconds : ℕ) (now : Time) (db : Db) (row : Job)
    → Distinct job_id db.provisioning_jobs
    → first_by created_first (is_available now) db.provisioning_jobs ≡ some row
    → ((lease false worker seconds now db).0
        ≡ ok (some (leased_row worker seconds now row, is_running row.status)))
      × ((lease false worker seconds now db).1
          ≡ update_job row.id (leased_row worker seconds now) db)
unfolding lease lease_row
lease-some worker seconds now db row keys first =
    let stored =
      first_by-key job_id created_first (is_available now) db.provisioning_jobs row keys first in
    let moved =
      find-update_where (id_is row.id) (id_is row.id) (leased_row worker seconds now)
        db.provisioning_jobs (λ r. ground arith) in
    ground (arith, stored, moved, first)

pub lease_first :
    (worker : Text) (seconds : ℕ) (now : Time) (db : Db) (j : Job) (reclaimed : Bool)
    → Distinct job_id db.provisioning_jobs
    → (lease false worker seconds now db).0 ≡ ok (some (j, reclaimed))
    → (row : Job) × (first_by created_first (is_available now) db.provisioning_jobs ≡ some row)
      × (j.id ≡ row.id)
lease_first worker seconds now db j reclaimed keys took =
    elim (Option-cases (first_by created_first (is_available now) db.provisioning_jobs)) [
      | inl idle ↦ absurd (unfold lease lease_row in ground (arith, idle, took))
      | inr (row, first) ↦
          let ran = lease-some worker seconds now db row keys first in
          (row, first, ground (arith, ran.0, took))
    ]
