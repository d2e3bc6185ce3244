-- ===== src/Runtime/Tests/Household.antt =====
-- Memory, reminders and rights at concrete inputs.
use abrolia.Common.{
  ℕ, ◌≡◌, ◌≢◌, refl, Bool, Option, List, none, some, [], ◌∷◌, true, false, ok, err, arith, ◌⊎◌,
  exists,
}
use abrolia.Runtime.Schema.{
  Time, StatementKind, Db, Approval, claimed, Statement, routine, confirmed, candidate, Reminder,
  pending,
}
use abrolia.Runtime.Memory.{Proposal, confirm, confirmed_row, superseded_row, get, recall}
use abrolia.Runtime.Memory.Remembering.{confirm-supersede, id_is}
use abrolia.Runtime.Reminders.{
  claim_due, lease_row, delivering_row, is_delivering, cancel, create, insert_reminder,
}
use abrolia.Runtime.Reminders
use abrolia.Runtime.Reminders.Holding.{
  ReminderRun, here, next, taken, cancelled, created, claim_due_once,
}
use abrolia.Runtime.RunContext.{
  Household, require, denied, build_run_context, turn_role, knows_binding, is_owner, data_export,
}
use abrolia.Runtime.RunContext.Rights.{require-owner}
use abrolia.Runtime.Tests.Data.{empty_db, card}

abbrev monday : Statement
monday = record {
  id = 1;
  kind = routine;
  subject = none;
  text = 109 ∷ [];
  status = confirmed;
  supersedes = none;
  extraction_run_id = none;
  actor = none;
  approval_id = some 7;
  observed_at = none;
  recorded_at = 10;
  valid_from = none;
  valid_to = none;
  updated_at = 10;
}

abbrev tuesday : Statement
tuesday = record monday { id = 2; status = candidate; supersedes = some 1; approval_id = none }

abbrev approved : Approval
approved = record card { status = claimed }

abbrev memory_db : Db
memory_db = record empty_db { approvals = approved ∷ []; memory_statements = monday ∷ tuesday ∷ [] }

abbrev swimming : Proposal
swimming = record {
  kind = routine;
  subject = none;
  actor = none;
  extraction_run_id = none;
  supersedes = some 1;
  observed_at = none;
  valid_from = some 5;
  valid_to = none;
}

confirm-supersede_example :
    let (result, db') = confirm 2 approved 30 memory_db in
    (result ≡ ok (some (confirmed_row 7 30 tuesday)))
    × (get 2 db' ≡ some (confirmed_row 7 30 tuesday))
    × (get 1 db' ≡ some (superseded_row 30 monday))
    × ((like : List ℕ → Statement → Bool) (query : Option (List ℕ)) (kind : Option StatementKind)
          (limit : ℕ) (at : Time)
        → exists (id_is 1) (recall like query kind limit at db') ≡ false)
confirm-supersede_example =
    confirm-supersede 2 1 approved 30 memory_db tuesday monday refl refl refl refl refl refl refl

abbrev dentist : Reminder
dentist = record {
  id = 1;
  approval_id = none;
  chat = 2;
  thread = none;
  text = 3;
  due_at = 50;
  status = pending;
  lease_until = none;
  attempts = 0;
  created_at = 10;
  updated_at = 10;
}

abbrev piano : Reminder
piano = record dentist { id = 2; due_at = 55 }

abbrev reminders_db : Db
reminders_db = record empty_db { reminders = dentist ∷ piano ∷ [] }

-- Another deliverer takes and cancels the other reminder, and a third one is created.
abbrev busy_db : Db
busy_db =
    (create 3 2 4 65 none none 64
      (cancel 2 63 (claim_due 62 120 (claim_due 60 120 reminders_db).1).1).1).1

abbrev cello : Reminder
cello = record dentist { id = 3; text = 4; due_at = 65; created_at = 64; updated_at = 64 }

busy_run : ReminderRun 1 180 (claim_due 60 120 reminders_db).1 busy_db
busy_run =
    next (next (next here (taken 62 120 _ (omega arith))) (cancelled 2 63 _ (omega arith)))
      (created 3 2 4 65 none none 64 _)

claim_due_once_example :
    ((row : Reminder) × (Reminders.get 1 busy_db ≡ some row)
      × (is_delivering row.status ≡ true)
      × (row.lease_until ≡ some 180))
    × (cello.id ≢ dentist.id)
claim_due_once_example =
    claim_due_once 60 70 120 120 reminders_db busy_db (delivering_row 60 120 dentist)
      (delivering_row 70 120 cello) (refl, (refl, tt)) (unfold claim_due lease_row in refl) busy_run
      (omega arith) (unfold claim_due lease_row cancel create insert_reminder in refl)

abbrev household : Household
household = record {
  household_id = 104 ∷ [];
  owner_id = some (49 ∷ []);
  family_ids = (49 ∷ []) ∷ (50 ∷ []) ∷ [];
  guest_ids = (51 ∷ []) ∷ [];
  allowed_chats = (45 ∷ 57 ∷ []) ∷ [];
  verified_bindings = none;
}

require-owner_example :
    (require (build_run_context household (50 ∷ []) (45 ∷ 57 ∷ []) none none []) data_export
      ≡ err (denied data_export (turn_role household (50 ∷ []) (45 ∷ 57 ∷ []))))
    ⊎ ((is_owner household.owner_id (50 ∷ []) ≡ true)
        × (knows_binding household (50 ∷ []) (45 ∷ 57 ∷ []) ≡ true))
require-owner_example =
    require-owner household (50 ∷ []) (45 ∷ 57 ∷ []) none none [] data_export refl
