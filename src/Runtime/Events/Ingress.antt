-- ===== src/Runtime/Events/Ingress.antt =====
-- The acceptance of an event, and its failures.
use abrolia.Common.{
  ℕ, ◌+◌, ◌≤◌, ◌<◌, ◌≡◌, ◌≢◌, refl, true, false, Option, none, some, List, [], ◌∷◌, ◌++◌, ◌==◌,
  ==_refl, arith, ok, err, exists, take,
}
use abrolia.Common.Rows.{
  find-append, exists_of_find-none, find-exists, find-update_where, find-test,
}
use abrolia.Runtime.Schema.{Text, Time, Event, received, dlq, Db, household_deleted, key_error}
use abrolia.Runtime.Events.{
  append, insert_event, new_event, by_external_id, get, mark_failed, failed_row,
}

module _ (fresh source external_id raw : Text) (context_key : Option Text) (now : Time)
    (db : Db) where
  abbrev pub accepted_event : Event
  accepted_event = new_event fresh source external_id raw context_key now

  abbrev pub grown_db : Db
  grown_db = record db { events = db.events ++ accepted_event ∷ [] }

  append_new :
      db.household_deleted_at ≡ none
      → by_external_id external_id db ≡ none
      → exists (λ e. e.id == fresh) db.events ≡ false
      → append fresh source external_id raw context_key now db
        ≡ (ok (record { event = accepted_event; created = true }), grown_db)
  unfolding append insert_event
  append_new alive absent new = ground (
    arith,
    exists_of_find-none (λ e. e.external_id == external_id) db.events absent,
    find-append (λ e. e.external_id == external_id) db.events (accepted_event ∷ []),
    ==_refl fresh,
    ==_refl external_id,
  )

  append_known :
      (e : Event)
      → db.household_deleted_at ≡ none
      → by_external_id external_id db ≡ some e
      → append fresh source external_id raw context_key now db
        ≡ (ok (record { event = e; created = e.id == fresh }), db)
  unfolding append insert_event
  append_known e alive present =
      ground (arith, find-exists (λ e. e.external_id == external_id) db.events)

  -- Once the household is deleted no event is accepted: `append` raises HouseholdDeleted, and
  -- changes nothing.
  pub append_deleted :
      (at : Time)
      → db.household_deleted_at ≡ some at
      → append fresh source external_id raw context_key now db ≡ (err household_deleted, db)
  unfolding append
  append_deleted at gone = ground arith

by_external_id-grown :
    (fresh source external_id raw : Text) (context_key : Option Text) (now : Time) (db : Db)
    → by_external_id external_id db ≡ none
    → by_external_id external_id (grown_db fresh source external_id raw context_key now db)
      ≡ some (new_event fresh source external_id raw context_key now)
by_external_id-grown fresh source external_id raw context_key now db absent = ground (
  arith,
  find-append (λ e. e.external_id == external_id) db.events
      (new_event fresh source external_id raw context_key now ∷ []),
  ==_refl external_id,
)

-- An event whose external id is not known, in a household that is not deleted and with a new id, is
-- stored once, as received with no attempts, and comes back as created. A second `append` of the
-- same external id, with any other content and another new id, stores nothing and returns the first
-- event as not created.
pub append-append :
    (fresh source external_id raw : Text) (context_key : Option Text) (now : Time) (db : Db)
    (fresh' source' raw' : Text) (context_key' : Option Text) (later : Time)
    → db.household_deleted_at ≡ none
    → by_external_id external_id db ≡ none
    → exists (λ e. e.id == fresh) db.events ≡ false
    → fresh ≢ fresh'
    → let e = new_event fresh source external_id raw context_key now in
      let (first, db') = append fresh source external_id raw context_key now db in
      (first ≡ ok (record { event = e; created = true }))
      × (db' ≡ record db { events = db.events ++ e ∷ [] })
      × (append fresh' source' external_id raw' context_key' later db'
          ≡ (ok (record { event = e; created = false }), db'))
append-append fresh source external_id raw context_key now db fresh' source' raw' context_key' later
      alive absent new other =
    rw (append_new fresh source external_id raw context_key now db alive absent new) (
      refl,
      refl,
      rw
          (append_known fresh' source' external_id raw' context_key' later
            (grown_db fresh source external_id raw context_key now db)
            (new_event fresh source external_id raw context_key now) alive
            (by_external_id-grown fresh source external_id raw context_key now db absent))
          (ground arith),
    )

module _ (event_id : Text) (error : List ℕ) (max_attempts : ℕ) (now : Time) (db : Db) where
  -- `mark_failed` of an unknown id raises KeyError and changes nothing. Of a known one it counts one
  -- more attempt, keeps the first 2000 characters of the error and drops the lease; the event goes
  -- to the dead letters exactly when the attempts have reached the maximum, else back to the queue.
  pub mark_failed_lem :
      (get event_id db ≡ none
        → mark_failed event_id error max_attempts now db ≡ (err (key_error event_id), db))
      × ((e : Event)
          → get event_id db ≡ some e
          → (f : Event) × ((mark_failed event_id error max_attempts now db).0 ≡ ok f)
            × (get event_id (mark_failed event_id error max_attempts now db).1 ≡ some f)
            × (f.attempts ≡ e.attempts + 1)
            × (f.last_error ≡ some (take 2000 error))
            × (f.lease_until ≡ none)
            × ((max_attempts ≤ e.attempts + 1 → f.status ≡ dlq)
                × (e.attempts + 1 < max_attempts → f.status ≡ received)))
  unfolding mark_failed
  mark_failed_lem = (
    λ missing. ground arith,
    λ e found.
        let kept =
          find-update_where (λ (r : Event). r.id == event_id) (λ r. r.id == event_id)
            (failed_row error (e.attempts + 1) max_attempts now) db.events (λ r. ground arith) in
        let same = find-test (λ (r : Event). r.id == event_id) db.events e found in
        (
          failed_row error (e.attempts + 1) max_attempts now e,
          ground (arith, kept, same),
          ground (arith, kept, same),
          refl,
          refl,
          refl,
          (λ h. ground arith, λ h. ground arith),
        ),
  )
