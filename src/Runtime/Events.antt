-- ===== src/Runtime/Events.antt =====
-- hermes_cloud/core/events.py: durable ingress. `fresh` is what `new_id()` returns, and `now` the
-- resolved time of the call.
pub mod Lease
pub mod Exclusion
pub mod Runs
pub mod Ingress
use abrolia.Common.{
  ℕ, ◌+◌, ◌<◌, suc, Bool, true, false, not, ◌&&◌, ◌||◌, Option, none, some, List, [], ◌∷◌, ◌++◌,
  if◌then◌else◌, ltb, leb, ◌==◌, is_some, at_most, after, select, find, exists, update_where,
  count_where, first_by, order_by, take, Action, pure, raise, raise_if, gets, modify, or_raise,
  write, ◌>>=◌, ◌>>◌,
}
use abrolia.Runtime.Schema.{
  Text, Time, Event, EventStatus, received, processing, done, failed, dlq, Db, Error, integrity,
  assertion, household_deleted, key_error,
}

abbrev pub default_lease_seconds : ℕ
default_lease_seconds = 300

abbrev pub default_max_attempts : ℕ
default_max_attempts = 5

abbrev pub is_received : EventStatus → Bool
is_received received = true
is_received _ = false

abbrev pub is_processing : EventStatus → Bool
is_processing processing = true
is_processing _ = false

abbrev pub is_dlq : EventStatus → Bool
is_dlq dlq = true
is_dlq _ = false

-- `Accepted`
pub record Accepted : Type 0 where
  pub event : Event
  pub created : Bool

abbrev pub new_event : Text → Text → Text → Text → Option Text → Time → Event
new_event fresh source external_id raw context_key now = record {
  id = fresh;
  source = source;
  external_id = external_id;
  context_key = context_key;
  raw = raw;
  received_at = now;
  status = received;
  attempts = 0;
  lease_until = none;
  leased_by = none;
  last_error = none;
  updated_at = now;
}

abbrev pub get : Text → Db → Option Event
get event_id db = find (λ e. e.id == event_id) db.events

abbrev pub by_external_id : Text → Db → Option Event
by_external_id external_id db = find (λ e. e.external_id == external_id) db.events

-- INSERT … ON CONFLICT (external_id) DO NOTHING; a taken id is the database's own refusal.
unfoldable pub insert_event : Event → Action Error Db (Unit {0})
insert_event e db =
    if exists (λ r. r.external_id == e.external_id) db.events
    then pure tt db
    else if exists (λ r. r.id == e.id) db.events
    then raise integrity db
    else modify (λ db. record db { events = db.events ++ e ∷ [] }) db

-- `append`; `is_deleted` reads the tombstone that `wipe_household` leaves.
unfoldable pub append : Text → Text → Text → Text → Option Text → Time → Action Error Db Accepted
append fresh source external_id raw context_key now = do
  raise_if (← gets (λ db. is_some db.household_deleted_at)) household_deleted
  write (insert_event (new_event fresh source external_id raw context_key now))
  event ← or_raise (← gets (by_external_id external_id)) assertion
  pure (record { event = event; created = event.id == fresh })

-- An event in work under a live lease.
abbrev pub is_held : Time → Event → Bool
is_held now e = is_processing e.status && after e.lease_until now

abbrev pub same_context : Text → Option Text → Bool
same_context c none = false
same_context c (some k) = k == c

-- The subquery: another event of this context is in work.
abbrev pub busy : Time → List Event → Option Text → Bool
busy now events none = false
busy now events (some c) = exists (λ e. is_held now e && same_context c e.context_key) events

abbrev pub is_open : Time → Event → Bool
is_open now e = is_received e.status || (is_processing e.status && at_most e.lease_until now)

-- The WHERE clause of `lease`.
abbrev pub is_available : Time → List Event → Event → Bool
is_available now events e = is_open now e && not (busy now events e.context_key)

-- ORDER BY received_at, id
abbrev pub earlier : Event → Event → Bool
earlier a b = ltb a.received_at b.received_at || (a.received_at == b.received_at && leb a.id b.id)

abbrev pub leased_row : Text → ℕ → Time → Event → Event
leased_row worker lease_seconds now e = record e {
  status = processing;
  lease_until = some (now + lease_seconds);
  leased_by = some worker;
  updated_at = now;
}

-- The UPDATE of `lease`, on the row that its SELECT returned.
unfoldable pub lease_row : Text → ℕ → Time → Option Event → Action Error Db (Option Text)
lease_row worker lease_seconds now none db = pure none db
lease_row worker lease_seconds now (some row) db = pure (some row.id) (record db {
  events = update_where (λ e. e.id == row.id) (leased_row worker lease_seconds now) db.events;
})

abbrev pub lease_result : Option Text → Action Error Db (Option Event)
lease_result none = pure none
lease_result (some event_id) = gets (get event_id)

unfoldable pub lease : Text → ℕ → Time → Action Error Db (Option Event)
unfolding lease_row
lease worker lease_seconds now = do
  taken ← write (λ db.
      lease_row worker lease_seconds now (first_by earlier (is_available now db.events) db.events)
        db)
  lease_result taken

abbrev pub done_row : Time → Event → Event
done_row now e = record e {
  status = done;
  lease_until = none;
  leased_by = none;
  last_error = none;
  updated_at = now;
}

unfoldable pub mark_done : Text → Time → Db → Db
mark_done event_id now db = record db {
  events = update_where (λ e. e.id == event_id) (done_row now) db.events;
}

-- `error[:2000]` is stored.
abbrev pub failed_row : List ℕ → ℕ → ℕ → Time → Event → Event
failed_row error attempts max_attempts now e = record e {
  status = if leb max_attempts attempts then dlq else received;
  attempts = attempts;
  last_error = some (take 2000 error);
  lease_until = none;
  leased_by = none;
  updated_at = now;
}

-- The transaction of `mark_failed`, on the row that its SELECT returned.
unfoldable pub fail_row : Text → List ℕ → ℕ → Time → Option Event → Action Error Db (Unit {0})
fail_row event_id error max_attempts now none = raise (key_error event_id)
fail_row event_id error max_attempts now (some row) = modify (λ db. record db {
  events =
      update_where (λ e. e.id == event_id) (failed_row error (row.attempts + 1) max_attempts now)
        db.events;
})

unfoldable pub mark_failed : Text → List ℕ → ℕ → Time → Action Error Db Event
unfolding fail_row
mark_failed event_id error max_attempts now = do
  write (λ db. fail_row event_id error max_attempts now (get event_id db) db)
  or_raise (← gets (get event_id)) assertion

abbrev pub replayed_row : Time → Event → Event
replayed_row now e = record e {
  status = received;
  attempts = 0;
  last_error = none;
  lease_until = none;
  leased_by = none;
  updated_at = now;
}

unfoldable pub replay : Text → Time → Action Error Db Event
replay event_id now = do
  write (λ db.
      if count_where (λ e. e.id == event_id) db.events == 0
      then raise (key_error event_id) db
      else modify
          (λ db. record db {
            events = update_where (λ e. e.id == event_id) (replayed_row now) db.events;
          })
          db)
  or_raise (← gets (get event_id)) assertion

abbrev newest : Event → Event → Bool
newest a b = leb b.updated_at a.updated_at

unfoldable pub dead_letters : ℕ → Db → List Event
dead_letters limit db = take limit (order_by newest (select (λ e. is_dlq e.status) db.events))
