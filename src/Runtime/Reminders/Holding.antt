-- ===== src/Runtime/Reminders/Holding.antt =====
-- A reminder in delivery, over any sequence of calls on the store of reminders.
use abrolia.Common.{
  ℕ, ◌≡◌, ◌≢◌, ◌<◌, ◌+◌, refl, Bool, true, false, ◌&&◌, Option, some, [], ◌∷◌, ◌++◌, arith, ok,
  exists, update_where, ◌⊎◌, inl, inr, Option-cases, first_by, same_option, ap, sym, ◌∙◌,
}
use abrolia.Common.Rows.{find-update_where, find-append, find-test}
use abrolia.Common.Keys.{Distinct, Distinct-update_where, Distinct-append}
use abrolia.Common.First.{first_by-test, first_by-key}
use abrolia.Runtime.Schema.{Text, Time, Reminder, Db}
use abrolia.Runtime.Reminders.{
  get, is_delivering, is_due, due_first, delivering_row, lease_row, claim_due, delivered_row,
  mark_delivered, is_cancellable, cancelled_row, cancel, new_reminder, insert_reminder, create,
}
use abrolia.Runtime.Reminders.Delivery.{reminder_id, id_is, claim_due-some, claim_due_first}

-- The reminder is in delivery under a lease until the time `end`.
abbrev pub is_held_until : Time → Reminder → Bool
is_held_until end r = is_delivering r.status && same_option r.lease_until (some end)

pub record IsHeld (k : Text) (end : Time) (db : Db) : Type 0 where
  pub key : Distinct reminder_id db.reminders
  pub row : Reminder
  pub found : get k db ≡ some row
  pub held : is_held_until end row ≡ true

-- A call on the store before the time `end`, by anybody. A call that marks the reminder k as delivered
-- or cancels it is no such step: those end its delivery.
pub data ReminderStep (k : Text) (end : Time) : Db → Db → Type 0 where
  created :
      (fresh chat text : Text) (due_at : Time) (thread approval_id : Option Text) (now : Time)
      (db : Db)
      → ReminderStep k end db (create fresh chat text due_at thread approval_id now db).1
  taken :
      (now : Time) (lease_seconds : ℕ) (db : Db)
      → now < end
      → ReminderStep k end db (claim_due now lease_seconds db).1
  delivered :
      (other : Text) (now : Time) (db : Db)
      → other ≢ k
      → ReminderStep k end db (mark_delivered other now db).1
  cancelled :
      (other : Text) (now : Time) (db : Db)
      → other ≢ k
      → ReminderStep k end db (cancel other now db).1

pub data ReminderRun (k : Text) (end : Time) (db : Db) : Db → Type 0 where
  here : ReminderRun k end db db
  next : {t u : Db} → ReminderRun k end db t → ReminderStep k end t u → ReminderRun k end db u

kept :
    (k : Text) (end : Time) (p : Reminder → Bool) (f : Reminder → Reminder) (db : Db)
    → ((r : Reminder) → (f r).id ≡ r.id)
    → ((r : Reminder) → r.id ≡ k → p r ≡ false)
    → IsHeld k end db
    → IsHeld k end (record db { reminders = update_where p f db.reminders })
kept k end p f db same apart h =
    let moved = find-update_where (id_is k) p f db.reminders (λ r. ground (arith, same r)) in
    let named = find-test (id_is k) db.reminders h.row h.found in
    record {
      key = Distinct-update_where reminder_id p f db.reminders (λ r. ground (arith, same r)) h.key;
      row = h.row;
      found = ground (arith, moved, h.found, apart h.row, named);
      held = h.held;
    }

create_change :
    (fresh chat text : Text) (due_at : Time) (thread approval_id : Option Text) (now : Time)
    (db : Db)
    → let db' = (create fresh chat text due_at thread approval_id now db).1 in
      (db' ≡ db)
      ⊎ ((db' ≡ record db {
        reminders = db.reminders ++ new_reminder fresh chat text due_at thread approval_id now ∷ [];
      })
          × (exists (id_is fresh) db.reminders ≡ false))
unfolding create insert_reminder
create_change fresh chat text due_at thread approval_id now db = ground arith

-- A call of `claim_due` before the end takes another reminder.
held_apart :
    (k : Text) (end now : Time) (db : Db) (row : Reminder)
    → now < end
    → IsHeld k end db
    → first_by due_first (is_due now) db.reminders ≡ some row
    → row.id ≢ k
held_apart k end now db row early h first same =
    let due = first_by-test due_first (is_due now) db.reminders row first in
    let stored = first_by-key reminder_id due_first (is_due now) db.reminders row h.key first in
    let stored_here : get k db ≡ some row = ap (λ i. get i db) (sym same) ∙ stored in
    let held = h.held in let found = h.found in ground (arith, stored_here, found, held, due)

ReminderStep-IsHeld :
    {k : Text} {end : Time} {s t : Db} → ReminderStep k end s t → IsHeld k end s → IsHeld k end t
ReminderStep-IsHeld {k} {end} (created fresh chat text due_at thread approval_id now db) h =
    elim (create_change fresh chat text due_at thread approval_id now db) [
      | inl same ↦ rw same h
      | inr (more, new) ↦
          let last = new_reminder fresh chat text due_at thread approval_id now in
          let appended = find-append (id_is k) db.reminders (last ∷ []) in
          rw more (record {
            key = Distinct-append reminder_id db.reminders last h.key new;
            row = h.row;
            found = ground (arith, appended, h.found);
            held = h.held;
          })
    ]
ReminderStep-IsHeld {k} {end} (taken now lease_seconds db early) h =
    elim (Option-cases (first_by due_first (is_due now) db.reminders)) [
      | inl idle ↦ unfold claim_due lease_row in rw idle h
      | inr (row, first) ↦
          let apart = held_apart k end now db row early h first in
          rw (claim_due-some now lease_seconds db row h.key first).1 (
            kept k end (id_is row.id) (delivering_row now lease_seconds) db (λ r. refl)
              (λ r at_k. ground (arith, apart)) h)
    ]
ReminderStep-IsHeld {k} {end} (delivered other now db apart) h =
    unfold mark_delivered in
    kept k end (id_is other) (delivered_row now) db (λ r. refl) (λ r at_k. ground (arith, apart)) h
ReminderStep-IsHeld {k} {end} (cancelled other now db apart) h =
    unfold cancel in
    kept k end (is_cancellable other) (cancelled_row now) db (λ r. refl)
      (λ r at_k. ground (arith, apart)) h

ReminderRun-IsHeld :
    {k : Text} {end : Time} {s t : Db} → IsHeld k end s → ReminderRun k end s t → IsHeld k end t
ReminderRun-IsHeld h here = h
ReminderRun-IsHeld h (next run step) = ReminderStep-IsHeld step (ReminderRun-IsHeld h run)

taken-IsHeld :
    (now : Time) (lease_seconds : ℕ) (db : Db) (mine : Reminder)
    → Distinct reminder_id db.reminders
    → (claim_due now lease_seconds db).0 ≡ ok (some mine)
    → IsHeld mine.id (now + lease_seconds) (claim_due now lease_seconds db).1
taken-IsHeld now lease_seconds db mine keys took =
    let (row, first, mine_row) = claim_due_first now lease_seconds db mine keys took in
    let stored = first_by-key reminder_id due_first (is_due now) db.reminders row keys first in
    let f = delivering_row now lease_seconds in
    let moved =
      find-update_where (id_is row.id) (id_is row.id) f db.reminders (λ r. ground arith) in
    rw (claim_due-some now lease_seconds db row keys first).1 (
      rw mine_row (record {
        key =
            Distinct-update_where reminder_id (id_is row.id) f db.reminders (λ r. ground arith)
              keys;
        row = delivering_row now lease_seconds row;
        found = ground (arith, moved, stored);
        held = ground arith;
      }))

-- Two deliverers never hold one reminder. After a `claim_due` that took a reminder, whatever is
-- created, whatever is taken by anybody before the lease ends, and whatever other reminders are marked
-- as delivered or cancelled, the reminder is still in delivery under that lease, and a `claim_due`
-- before its end takes another one or none. Reminders have distinct ids, as the primary key makes them.
pub claim_due_once :
    (now later : Time) (lease_seconds next_seconds : ℕ) (db t : Db) (mine other : Reminder)
    → Distinct reminder_id db.reminders
    → (claim_due now lease_seconds db).0 ≡ ok (some mine)
    → ReminderRun mine.id (now + lease_seconds) (claim_due now lease_seconds db).1 t
    → later < now + lease_seconds
    → (claim_due later next_seconds t).0 ≡ ok (some other)
    → ((row : Reminder) × (get mine.id t ≡ some row)
        × (is_delivering row.status ≡ true)
        × (row.lease_until ≡ some (now + lease_seconds)))
      × (other.id ≢ mine.id)
claim_due_once now later lease_seconds next_seconds db t mine other keys took run early took_next =
    let h = ReminderRun-IsHeld (taken-IsHeld now lease_seconds db mine keys took) run in
    let held = h.held in
    let (row, first, other_row) = claim_due_first later next_seconds t other h.key took_next in
    let apart = held_apart mine.id (now + lease_seconds) later t row early h first in
    (
      (h.row, h.found, ground (arith, held), ground (arith, held)),
      λ same. ground (arith, other_row, same, apart),
    )
