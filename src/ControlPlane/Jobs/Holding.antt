-- ===== src/ControlPlane/Jobs/Holding.antt =====
-- A job that a worker holds, over any sequence of calls on the queue.
use abrolia.Common.{
  ℕ, ◌≡◌, ◌≢◌, ◌<◌, ◌+◌, refl, Bool, true, false, ◌&&◌, Option, some, List, [], ◌∷◌, ◌++◌, ◌==◌,
  arith, ok, exists, update_where, ◌⊎◌, inl, inr, Option-cases, first_by, upd, same_option, ap, sym,
  ◌∙◌,
}
use abrolia.Common.Rows.{find-update_where, find-append, find-test}
use abrolia.Common.Keys.{Distinct, Distinct-update_where, Distinct-append}
use abrolia.Common.First.{first_by-test, first_by-key}
use abrolia.ControlPlane.Schema.{Text, Time, Job, JobStatus, Db}
use abrolia.ControlPlane.Jobs.{
  Field, Intent, get, is_running, update_job, is_available, created_first, leased_row, lease_row,
  lease, is_retried, retried_row, retry_later, is_cancellable, cancelled_row, cancel_household,
  new_job, insert_job, create, inspecting_row, schedule_waiting_inspect, settled_row, settle,
  recorded_row, record_result,
}
use abrolia.ControlPlane.Jobs.Queue.{job_id, id_is, lease-some, lease_first}

-- The job k is running under a lease of the worker until the time `end`.
abbrev pub is_held_by : Text → Time → Job → Bool
is_held_by worker end j =
    is_running j.status
    && (same_option j.leased_by (some worker) && same_option j.lease_until (some end))

pub record IsHeld (k worker : Text) (end : Time) (db : Db) : Type 0 where
  pub key : Distinct job_id db.provisioning_jobs
  pub row : Job
  pub found : get k db ≡ some row
  pub held : is_held_by worker end row ≡ true

-- An update of rows that are not the held one, or one that leaves its lease alone.
kept :
    (k worker : Text) (end : Time) (p : Job → Bool) (f : Job → Job) (db : Db)
    → ((j : Job) → (f j).id ≡ j.id)
    → ((j : Job)
        → j.id ≡ k
        → is_held_by worker end j ≡ true
        → is_held_by worker end (upd p f j) ≡ true)
    → IsHeld k worker end db
    → IsHeld k worker end (record db { provisioning_jobs = update_where p f db.provisioning_jobs })
kept k worker end p f db same stays h =
    let moved =
      find-update_where (id_is k) p f db.provisioning_jobs (λ j. ground (arith, same j)) in
    let named = find-test (id_is k) db.provisioning_jobs h.row h.found in
    record {
      key =
          Distinct-update_where job_id p f db.provisioning_jobs (λ j. ground (arith, same j)) h.key;
      row = upd p f h.row;
      found = ground (arith, moved, h.found);
      held = stays h.row (ground (arith, named)) h.held;
    }

module _ (seal : Text → Field → Text → Text → Text) (unseal : Text → Field → Text → Text → Text)
    (key_version : Text) (sha : Text → Text) where
  -- A call on the queue before the time `end`, by anybody. A call that settles the job k, puts it back
  -- or makes it wait is no such step: those end its lease, and ask nobody who holds it.
  pub data JobStep (k : Text) (end : Time) : Db → Db → Type 0 where
    leased :
        (paused : Bool) (worker : Text) (seconds : ℕ) (now : Time) (db : Db)
        → now < end
        → JobStep k end db (lease paused worker seconds now db).1
    created :
        (fresh : Text) (intent : Intent) (request : Text) (now : Time) (db : Db)
        → JobStep k end db (create seal unseal key_version sha fresh intent request now db).1
    retried :
        (other : Text) (not_before : Time) (error_code : List ℕ) (now : Time) (db : Db)
        → other ≢ k
        → JobStep k end db (retry_later other not_before error_code now db).1
    waits :
        (other request : Text) (not_before : Option Time) (error_code : List ℕ) (now : Time)
        (db : Db)
        → other ≢ k
        → JobStep k end db
            (schedule_waiting_inspect seal unseal key_version sha other request not_before
              error_code now db).1
    settled :
        (other : Text) (status : JobStatus) (result external_ref : Option Text)
        (error_code : Option (List ℕ)) (now : Time) (db : Db)
        → other ≢ k
        → JobStep k end db
            (settle seal unseal key_version sha other status result external_ref error_code now
              db).1
    recorded :
        (any result external_ref : Text) (now : Time) (db : Db)
        → JobStep k end db
            (record_result seal unseal key_version sha any result external_ref now db).1
    cancelled :
        (household_id : Text) (now : Time) (db : Db)
        → JobStep k end db (cancel_household household_id now db).1

  pub data JobRun (k : Text) (end : Time) (db : Db) : Db → Type 0 where
    here : JobRun k end db db
    next : {t u : Db} → JobRun k end db t → JobStep k end t u → JobRun k end db u

-- A lease before the end takes another job.
held_apart :
    (k worker : Text) (end now : Time) (db : Db) (row : Job)
    → now < end
    → IsHeld k worker end db
    → first_by created_first (is_available now) db.provisioning_jobs ≡ some row
    → row.id ≢ k
held_apart k worker end now db row early h first same =
    let free = first_by-test created_first (is_available now) db.provisioning_jobs row first in
    let stored =
      first_by-key job_id created_first (is_available now) db.provisioning_jobs row h.key first in
    let stored_here : get k db ≡ some row = ap (λ i. get i db) (sym same) ∙ stored in
    let held = h.held in let found = h.found in ground (arith, stored_here, found, held, free)

lease_change :
    (k worker : Text) (end : Time) (paused : Bool) (rival : Text) (seconds : ℕ) (now : Time)
    (db : Db)
    → now < end
    → IsHeld k worker end db
    → IsHeld k worker end (lease paused rival seconds now db).1
lease_change k worker end true rival seconds now db early h = unfold lease in h
lease_change k worker end false rival seconds now db early h =
    elim (Option-cases (first_by created_first (is_available now) db.provisioning_jobs)) [
      | inl idle ↦ unfold lease lease_row in rw idle h
      | inr (row, first) ↦
          let apart = held_apart k worker end now db row early h first in
          rw (lease-some rival seconds now db row h.key first).1 (
            kept k worker end (id_is row.id) (leased_row rival seconds now) db (λ j. refl)
              (λ j at_k held. ground (arith, apart)) h)
    ]

module _ (seal : Text → Field → Text → Text → Text) (unseal : Text → Field → Text → Text → Text)
    (key_version : Text) (sha : Text → Text) where
  create_change :
      (fresh : Text) (intent : Intent) (request : Text) (now : Time) (db : Db)
      → let db' = (create seal unseal key_version sha fresh intent request now db).1 in
        (db' ≡ db)
        ⊎ ((db' ≡ record db {
          provisioning_jobs =
              db.provisioning_jobs
              ++ new_job seal unseal key_version sha fresh intent request now ∷ [];
        })
            × (exists (λ r. r.id == fresh) db.provisioning_jobs ≡ false))
  unfolding create insert_job
  create_change fresh intent request now db = ground arith

  settle_change :
      (other : Text) (status : JobStatus) (result external_ref : Option Text)
      (error_code : Option (List ℕ)) (now : Time) (db : Db)
      → let db' =
          (settle seal unseal key_version sha other status result external_ref error_code now
            db).1 in
        (db' ≡ db)
        ⊎ (db'
            ≡ update_job other
                (settled_row seal unseal key_version sha status result external_ref error_code now)
                db)
  unfolding settle
  settle_change other status result external_ref error_code now db = ground arith

  wait_change :
      (other request : Text) (not_before : Option Time) (error_code : List ℕ) (now : Time) (db : Db)
      → let db' =
          (schedule_waiting_inspect seal unseal key_version sha other request not_before error_code
            now db).1 in
        (db' ≡ db)
        ⊎ (db'
            ≡ update_job other
                (inspecting_row seal unseal key_version sha request not_before error_code now)
                db)
  unfolding schedule_waiting_inspect
  wait_change other request not_before error_code now db = ground arith

  record_change :
      (other result external_ref : Text) (now : Time) (db : Db)
      → let db' = (record_result seal unseal key_version sha other result external_ref now db).1 in
        (db' ≡ db)
        ⊎ (db'
            ≡ update_job other
                (recorded_row seal unseal key_version sha result external_ref now)
                db)
  unfolding record_result
  record_change other result external_ref now db = ground arith

  grown :
      (k worker : Text) (end : Time) (j : Job) (db : Db)
      → exists (λ r. r.id == j.id) db.provisioning_jobs ≡ false
      → IsHeld k worker end db
      → IsHeld k worker end (record db { provisioning_jobs = db.provisioning_jobs ++ j ∷ [] })
  grown k worker end j db new h =
      let more = find-append (id_is k) db.provisioning_jobs (j ∷ []) in
      record {
        key = Distinct-append job_id db.provisioning_jobs j h.key new;
        row = h.row;
        found = ground (arith, more, h.found);
        held = h.held;
      }

  JobStep-IsHeld :
      (worker : Text) {k : Text} {end : Time} {s t : Db}
      → JobStep seal unseal key_version sha k end s t
      → IsHeld k worker end s
      → IsHeld k worker end t
  JobStep-IsHeld worker {k} {end} (leased paused rival seconds now db early) h =
      lease_change k worker end paused rival seconds now db early h
  JobStep-IsHeld worker {k} {end} (created fresh intent request now db) h =
      elim (create_change fresh intent request now db) [
        | inl same ↦ rw same h
        | inr (more, new) ↦ rw more (
            grown k worker end (new_job seal unseal key_version sha fresh intent request now) db new
              h)
      ]
  JobStep-IsHeld worker {k} {end} (retried other not_before error_code now db apart) h =
      unfold retry_later is_retried in
      kept k worker end (is_retried other) (retried_row not_before error_code now) db (λ j. refl)
        (λ j at_k held. ground (arith, apart)) h
  JobStep-IsHeld worker {k} {end} (waits other request not_before error_code now db apart) h =
      elim (wait_change other request not_before error_code now db) [
        | inl same ↦ rw same h
        | inr did ↦ rw did (
            kept k worker end (id_is other)
              (inspecting_row seal unseal key_version sha request not_before error_code now) db
              (λ j. refl) (λ j at_k held. ground (arith, apart)) h)
      ]
  JobStep-IsHeld worker {k} {end} (settled other status result external_ref error_code now db apart)
        h =
      elim (settle_change other status result external_ref error_code now db) [
        | inl same ↦ rw same h
        | inr did ↦ rw did (
            kept k worker end (id_is other)
              (settled_row seal unseal key_version sha status result external_ref error_code now) db
              (λ j. refl) (λ j at_k held. ground (arith, apart)) h)
      ]
  JobStep-IsHeld worker {k} {end} (recorded other result external_ref now db) h =
      elim (record_change other result external_ref now db) [
        | inl same ↦ rw same h
        | inr did ↦ rw did (
            kept k worker end (id_is other)
              (recorded_row seal unseal key_version sha result external_ref now) db (λ j. refl)
              (λ j at_k held. ground (arith, held)) h)
      ]
  JobStep-IsHeld worker {k} {end} (cancelled household_id now db) h =
      unfold cancel_household in
      kept k worker end (is_cancellable household_id) (cancelled_row now) db (λ j. refl)
        (λ j at_k held. ground (arith, held)) h

  JobRun-IsHeld :
      (worker : Text) {k : Text} {end : Time} {s t : Db}
      → IsHeld k worker end s
      → JobRun seal unseal key_version sha k end s t
      → IsHeld k worker end t
  JobRun-IsHeld worker h here = h
  JobRun-IsHeld worker h (next run step) = JobStep-IsHeld worker step (JobRun-IsHeld worker h run)

leased-IsHeld :
    (worker : Text) (seconds : ℕ) (now : Time) (db : Db) (mine : Job) (reclaimed : Bool)
    → Distinct job_id db.provisioning_jobs
    → (lease false worker seconds now db).0 ≡ ok (some (mine, reclaimed))
    → IsHeld mine.id worker (now + seconds) (lease false worker seconds now db).1
leased-IsHeld worker seconds now db mine reclaimed keys took =
    let (row, first, mine_row) = lease_first worker seconds now db mine reclaimed keys took in
    let stored =
      first_by-key job_id created_first (is_available now) db.provisioning_jobs row keys first in
    let moved =
      find-update_where (id_is row.id) (id_is row.id) (leased_row worker seconds now)
        db.provisioning_jobs (λ r. ground arith) in
    rw (lease-some worker seconds now db row keys first).1 (
      rw mine_row (record {
        key =
            Distinct-update_where job_id (id_is row.id) (leased_row worker seconds now)
              db.provisioning_jobs (λ r. ground arith) keys;
        row = leased_row worker seconds now row;
        found = ground (arith, moved, stored);
        held = ground arith;
      }))

-- Two workers never hold one job. After a `lease` that took a job, whatever is leased before the lease
-- ends, by anybody, whatever is created, recorded or cancelled, and whatever other jobs are settled,
-- put back or made to wait, the job is still running under the first worker's lease, and a `lease` by
-- any worker before its end takes another job or none. Jobs have distinct ids, as the primary key makes
-- them.
pub lease_once :
    (seal : Text → Field → Text → Text → Text) (unseal : Text → Field → Text → Text → Text)
    (key_version : Text) (sha : Text → Text) (worker rival : Text) (seconds next_seconds : ℕ)
    (now later : Time) (db t : Db) (mine theirs : Job) (reclaimed again : Bool)
    → Distinct job_id db.provisioning_jobs
    → (lease false worker seconds now db).0 ≡ ok (some (mine, reclaimed))
    → JobRun seal unseal key_version sha mine.id
        (now + seconds)
        (lease false worker seconds now db).1
        t
    → later < now + seconds
    → (lease false rival next_seconds later t).0 ≡ ok (some (theirs, again))
    → ((row : Job) × (get mine.id t ≡ some row)
        × (is_running row.status ≡ true)
        × (row.leased_by ≡ some worker)
        × (row.lease_until ≡ some (now + seconds)))
      × (theirs.id ≢ mine.id)
lease_once seal unseal key_version sha worker rival seconds next_seconds now later db t mine theirs
      reclaimed again keys took run early took_next =
    let h =
      JobRun-IsHeld seal unseal key_version sha worker
        (leased-IsHeld worker seconds now db mine reclaimed keys took) run in
    let held = h.held in
    let (row, first, their_row) =
      lease_first rival next_seconds later t theirs again h.key took_next in
    let apart = held_apart mine.id worker (now + seconds) later t row early h first in
    (
      (h.row, h.found, ground (arith, held), ground (arith, held), ground (arith, held)),
      λ same. ground (arith, their_row, same, apart),
    )
