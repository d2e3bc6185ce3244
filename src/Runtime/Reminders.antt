-- ===== src/Runtime/Reminders.antt =====
-- hermes_cloud/execute/reminder.py: reminders, delivered under a lease. `fresh` is what `new_id()`
-- returns, and `now` the resolved time of the call.
pub mod Delivery
pub mod Holding
use abrolia.Common.{
  ℕ, Bool, true, false, not, ◌&&◌, ◌||◌, Option, none, some, List, [], ◌∷◌, ◌++◌, ◌+◌,
  if◌then◌else◌, ltb, leb, ◌==◌, same_option, at_most, select, find, exists, update_where,
  count_where, first_by, order_by, take, Action, pure, raise, gets, modify, or_raise, write, ◌>>=◌,
  ◌>>◌,
}
use abrolia.Runtime.Schema.{
  Text, Time, Reminder, ReminderStatus, pending, delivering, done, cancelled, Db, Error, integrity,
  assertion, refers, has_approval,
}

-- DEFAULT_LEASE_SECONDS
abbrev pub default_lease_seconds : ℕ
default_lease_seconds = 120

abbrev pub get : Text → Db → Option Reminder
get reminder_id db = find (λ r. r.id == reminder_id) db.reminders

abbrev pub new_reminder : Text → Text → Text → Time → Option Text → Option Text → Time → Reminder
new_reminder fresh chat text due_at thread approval_id now = record {
  id = fresh;
  approval_id = approval_id;
  chat = chat;
  thread = thread;
  text = text;
  due_at = due_at;
  status = pending;
  lease_until = none;
  attempts = 0;
  created_at = now;
  updated_at = now;
}

-- INSERT INTO reminders, with the primary key and the foreign key of `approval_id`.
unfoldable pub insert_reminder : Reminder → Action Error Db (Unit {0})
insert_reminder r db =
    if exists (λ s. s.id == r.id) db.reminders || not (refers r.approval_id (has_approval db))
    then raise integrity db
    else modify (λ db. record db { reminders = db.reminders ++ r ∷ [] }) db

unfoldable pub create :
    Text → Text → Text → Time → Option Text → Option Text → Time → Action Error Db Reminder
create fresh chat text due_at thread approval_id now = do
  write (insert_reminder (new_reminder fresh chat text due_at thread approval_id now))
  reminder ← gets (get fresh)
  or_raise reminder assertion

abbrev pub is_pending : ReminderStatus → Bool
is_pending pending = true
is_pending _ = false

abbrev pub is_delivering : ReminderStatus → Bool
is_delivering delivering = true
is_delivering _ = false

-- The WHERE of `claim_due`.
abbrev pub is_due : Time → Reminder → Bool
is_due now r =
    leb r.due_at now
    && (is_pending r.status || (is_delivering r.status && at_most r.lease_until now))

-- ORDER BY due_at, id
abbrev pub due_first : Reminder → Reminder → Bool
due_first a b = ltb a.due_at b.due_at || (a.due_at == b.due_at && leb a.id b.id)

abbrev pub delivering_row : Time → ℕ → Reminder → Reminder
delivering_row now lease_seconds r = record r {
  status = delivering;
  lease_until = some (now + lease_seconds);
  attempts = r.attempts + 1;
  updated_at = now;
}

unfoldable pub lease_row : Option Reminder → Time → ℕ → Action Error Db (Option Reminder)
lease_row none now lease_seconds db = pure none db
lease_row (some row) now lease_seconds db =
    let db' : Db = record db {
      reminders =
          update_where (λ r. r.id == row.id) (delivering_row now lease_seconds) db.reminders;
    } in
    pure (get row.id db') db'

unfoldable pub claim_due : Time → ℕ → Action Error Db (Option Reminder)
unfolding lease_row
claim_due now lease_seconds db =
    lease_row (first_by due_first (is_due now) db.reminders) now lease_seconds db

abbrev pub delivered_row : Time → Reminder → Reminder
delivered_row now r = record r { status = done; lease_until = none; updated_at = now }

unfoldable pub mark_delivered : Text → Time → Action Error Db (Unit {0})
mark_delivered reminder_id now = modify (λ db. record db {
  reminders = update_where (λ r. r.id == reminder_id) (delivered_row now) db.reminders;
})

abbrev pub is_cancellable : Text → Reminder → Bool
is_cancellable reminder_id r =
    r.id == reminder_id && (is_pending r.status || is_delivering r.status)

abbrev pub cancelled_row : Time → Reminder → Reminder
cancelled_row now r = record r { status = cancelled; lease_until = none; updated_at = now }

unfoldable pub cancel : Text → Time → Action Error Db Bool
cancel reminder_id now db =
    pure (ltb 0 (count_where (is_cancellable reminder_id) db.reminders)) (record db {
      reminders = update_where (is_cancellable reminder_id) (cancelled_row now) db.reminders;
    })

abbrev created_first : Reminder → Reminder → Bool
created_first a b = leb a.created_at b.created_at

unfoldable pub for_approval : Text → Db → Option Reminder
for_approval approval_id db =
    first_by created_first (λ r. same_option r.approval_id (some approval_id)) db.reminders

abbrev earliest_due : Reminder → Reminder → Bool
earliest_due a b = leb a.due_at b.due_at

-- `pending`
unfoldable pub pending_list : ℕ → Db → List Reminder
pending_list limit db =
    take limit (order_by earliest_due (select (λ r. is_pending r.status) db.reminders))
