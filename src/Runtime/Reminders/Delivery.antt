-- ===== src/Runtime/Reminders/Delivery.antt =====
-- The delivery of reminders under leases.
use abrolia.Common.{
  ℕ, ◌≡◌, refl, Bool, true, false, ◌||◌, none, some, ◌==◌, arith, ok, find, update_where, ◌⊎◌, inl,
  inr, All, Option-cases, first_by,
}
use abrolia.Common.Rows.{find-update_where, find-test, count_of_find}
use abrolia.Common.Keys.{Distinct}
use abrolia.Common.First.{first_by-test, first_by-none, first_by-least, first_by-key}
use abrolia.Runtime.Schema.{Text, Time, Reminder, Db}
use abrolia.Runtime.Reminders.{
  get, is_pending, is_delivering, is_due, due_first, delivering_row, lease_row, claim_due,
  delivered_row, mark_delivered, is_cancellable, cancelled_row, cancel,
}

abbrev pub reminder_id : Reminder → ℕ
reminder_id r = r.id

abbrev pub id_is : Text → Reminder → Bool
id_is k r = r.id == k

pub claim_due-some :
    (now : Time) (lease_seconds : ℕ) (db : Db) (row : Reminder)
    → Distinct reminder_id db.reminders
    → first_by due_first (is_due now) db.reminders ≡ some row
    → let (result, db') = claim_due now lease_seconds db in
      (result ≡ ok (some (delivering_row now lease_seconds row)))
      × (db' ≡ record db {
        reminders = update_where (id_is row.id) (delivering_row now lease_seconds) db.reminders;
      })
unfolding claim_due lease_row
claim_due-some now lease_seconds db row keys first =
    let stored = first_by-key reminder_id due_first (is_due now) db.reminders row keys first in
    let moved =
      find-update_where (id_is row.id) (id_is row.id) (delivering_row now lease_seconds)
        db.reminders (λ r. ground arith) in
    ground (arith, stored, moved)

-- `claim_due` takes the reminder that stands first by due time and id among those that are due and
-- pending, or due and in a delivery whose lease has run out; it counts the attempt and leases the
-- reminder until `now + lease_seconds`. It takes none just where no reminder is such.
pub claim_due_lem :
    (now : Time) (lease_seconds : ℕ) (db : Db)
    → Distinct reminder_id db.reminders
    → let result = (claim_due now lease_seconds db).0 in
      ((result ≡ ok none) × All (λ r. is_due now r ≡ false) db.reminders)
      ⊎ ((row : Reminder) × (result ≡ ok (some (delivering_row now lease_seconds row)))
          × (is_due now row ≡ true)
          × (find (id_is row.id) db.reminders ≡ some row)
          × All (λ r. is_due now r ≡ true → due_first row r ≡ true) db.reminders)
claim_due_lem now lease_seconds db keys =
    elim (Option-cases (first_by due_first (is_due now) db.reminders)) [
      | inl idle ↦ inl (
        unfold claim_due lease_row in rw idle refl,
        first_by-none due_first (is_due now) db.reminders idle,
      )
      | inr (row, first) ↦ inr (
        row,
        (claim_due-some now lease_seconds db row keys first).0,
        first_by-test due_first (is_due now) db.reminders row first,
        first_by-key reminder_id due_first (is_due now) db.reminders row keys first,
        first_by-least due_first (λ a b c. ground arith) (λ a b. ground arith) (is_due now)
            db.reminders row first,
      )
    ]

pub claim_due_first :
    (now : Time) (lease_seconds : ℕ) (db : Db) (r : Reminder)
    → Distinct reminder_id db.reminders
    → (claim_due now lease_seconds db).0 ≡ ok (some r)
    → (row : Reminder) × (first_by due_first (is_due now) db.reminders ≡ some row) × (r.id ≡ row.id)
claim_due_first now lease_seconds db r keys took =
    elim (Option-cases (first_by due_first (is_due now) db.reminders)) [
      | inl idle ↦ absurd (unfold claim_due lease_row in ground (arith, idle, took))
      | inr (row, first) ↦
          let ran = claim_due-some now lease_seconds db row keys first in
          (row, first, ground (arith, ran.0, took))
    ]

-- What is delivered or cancelled is not delivered again: such a reminder is never due, and `cancel`
-- cancels a reminder just where it is pending or in delivery, and says so.
pub cancel_lem :
    (k : Text) (now : Time) (db : Db) (r : Reminder)
    → get k db ≡ some r
    → let (result, db') = cancel k now db in
      ((is_pending r.status || is_delivering r.status) ≡ true
        → (result ≡ ok true) × (get k db' ≡ some (cancelled_row now r)))
      × ((is_pending r.status || is_delivering r.status) ≡ false
          → (get k db' ≡ some r) × ((later : Time) → is_due later r ≡ false))
      × (get k (mark_delivered k now db).1 ≡ some (delivered_row now r))
      × ((later : Time)
          → (is_due later (cancelled_row now r) || is_due later (delivered_row now r)) ≡ false)
unfolding cancel mark_delivered
cancel_lem k now db r found =
    let named = find-test (id_is k) db.reminders r found in
    let moved =
      find-update_where (id_is k) (is_cancellable k) (cancelled_row now) db.reminders
        (λ r. ground arith) in
    let delivered =
      find-update_where (id_is k) (id_is k) (delivered_row now) db.reminders (λ r. ground arith) in
    (
      λ live.
          let many =
            count_of_find (id_is k) (is_cancellable k) db.reminders r found (ground arith) in
          (ground (arith, many), ground (arith, moved, found, named)),
      λ closed. (ground (arith, moved, found, named), λ later. ground arith),
      ground (arith, delivered, found, named),
      λ later. ground arith,
    )
