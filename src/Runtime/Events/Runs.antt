-- ===== src/Runtime/Events/Runs.antt =====
-- Any sequence of the operations of `EventStore`, at times that do not run backwards.
use abrolia.Common.{
  ℕ, ◌≤◌, ◌≡◌, refl, false, Option, List, [], ◌∷◌, ◌++◌, ◌==◌, arith, exists, update_where, ◌⊎◌,
  inl, inr, Option-cases, ◌+◌,
}
use abrolia.Runtime.Schema.{Text, Time, Event, Db}
use abrolia.Runtime.Events.{
  get, lease, append, insert_event, new_event, mark_done, mark_failed, failed_row, done_row, replay,
  replayed_row,
}
use abrolia.Runtime.Events.Lease.{in_work}
use abrolia.Runtime.Events.Exclusion.{IsSound, lease-IsSound, released, grown}

-- One call of a method at the time `now`.
pub data EventStep (now : Time) : Db → Db → Type 0 where
  appended :
      (fresh source external_id raw : Text) (context_key : Option Text) (db : Db)
      → EventStep now db (append fresh source external_id raw context_key now db).1
  leased :
      (worker : Text) (seconds : ℕ) (db : Db) → EventStep now db (lease worker seconds now db).1
  finished : (event_id : Text) (db : Db) → EventStep now db (mark_done event_id now db)
  failed :
      (event_id : Text) (error : List ℕ) (max_attempts : ℕ) (db : Db)
      → EventStep now db (mark_failed event_id error max_attempts now db).1
  replayed : (event_id : Text) (db : Db) → EventStep now db (replay event_id now db).1

pub data EventRun (db : Db) : Time → Db → Type 0 where
  here : (now : Time) → EventRun db now db
  next :
      {now later : Time} {t u : Db}
      → EventRun db now t
      → now ≤ later
      → EventStep later t u
      → EventRun db later u

append_change :
    (fresh source external_id raw : Text) (context_key : Option Text) (now : Time) (db : Db)
    → let db' = (append fresh source external_id raw context_key now db).1 in
      (db' ≡ db)
      ⊎ ((db' ≡ record db {
        events = db.events ++ new_event fresh source external_id raw context_key now ∷ [];
      })
          × (exists (λ r. r.id == fresh) db.events ≡ false))
unfolding append insert_event
append_change fresh source external_id raw context_key now db = ground arith

mark_failed_change :
    (k : Text) (error : List ℕ) (max_attempts : ℕ) (now : Time) (db : Db)
    → let db' = (mark_failed k error max_attempts now db).1 in
      (db' ≡ db)
      ⊎ ((e : Event) × (db' ≡ record db {
        events =
            update_where
              (λ r. r.id == k)
              (failed_row error (e.attempts + 1) max_attempts now)
              db.events;
      }))
unfolding mark_failed
mark_failed_change k error max_attempts now db = elim (Option-cases (get k db)) [
  | inl missing ↦ inl (ground arith)
  | inr (e, found) ↦ inr (e, ground arith)
]

replay_change :
    (k : Text) (now : Time) (db : Db)
    → let db' = (replay k now db).1 in
      (db' ≡ db)
      ⊎ (db' ≡ record db { events = update_where (λ r. r.id == k) (replayed_row now) db.events })
unfolding replay
replay_change k now db = ground arith

later-IsSound : {now later : Time} {db : Db} → now ≤ later → IsSound now db → IsSound later db
later-IsSound {now} {later} {db} h sound = record {
  key = sound.key;
  exclusive = λ c t k. sound.exclusive c t (omega arith);
}

EventStep-IsSound : {now : Time} {s t : Db} → EventStep now s t → IsSound now s → IsSound now t
EventStep-IsSound {now} (appended fresh source external_id raw context_key db) sound =
    elim (append_change fresh source external_id raw context_key now db) [
      | inl same ↦ rw same sound
      | inr (more, new) ↦
          rw more
            (grown (new_event fresh source external_id raw context_key now) now db refl new sound)
    ]
EventStep-IsSound {now} (leased worker seconds db) sound = lease-IsSound worker seconds now db sound
EventStep-IsSound {now} (finished k db) sound =
    unfold mark_done in released k (done_row now) now db (λ e. refl) (λ e t. refl) sound
EventStep-IsSound {now} (failed k error max_attempts db) sound =
    elim (mark_failed_change k error max_attempts now db) [
      | inl same ↦ rw same sound
      | inr (e, did) ↦ rw did (
          released k (failed_row error (e.attempts + 1) max_attempts now) now db (λ r. refl)
            (λ r t. ground arith) sound)
    ]
EventStep-IsSound {now} (replayed k db) sound = elim (replay_change k now db) [
  | inl same ↦ rw same sound
  | inr did ↦ rw did (released k (replayed_row now) now db (λ e. refl) (λ e t. refl) sound)
]

empty-IsSound : (now : Time) (db : Db) → db.events ≡ [] → IsSound now db
empty-IsSound now db empty = record {
  key = rw empty tt;
  exclusive = λ c t h. rw empty (omega arith);
}

EventRun-IsSound : {s t : Db} {now : Time} → s.events ≡ [] → EventRun s now t → IsSound now t
EventRun-IsSound {s = s} empty (here now) = empty-IsSound now s empty
EventRun-IsSound empty (next run h step) =
    EventStep-IsSound step (later-IsSound h (EventRun-IsSound empty run))

-- From a database with no events, whatever methods are called at times that do not run backwards,
-- and whatever workers fail, at the time of the last call and at every later time a context has at
-- most one event in work under a live lease.
pub one_in_work :
    {s t : Db} {now : Time} (c : Text) (at : Time)
    → s.events ≡ []
    → EventRun s now t
    → now ≤ at
    → in_work c at t ≤ 1
one_in_work c at empty run h = (EventRun-IsSound empty run).exclusive c at h
