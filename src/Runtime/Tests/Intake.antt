-- ===== src/Runtime/Tests/Intake.antt =====
-- Events and commitments at concrete inputs.
use abrolia.Common.{
  ◌≡◌, refl, none, some, List, [], ◌∷◌, ◌<◌, ◌≤◌, arith, ok, err, true, false, ◌+◌, All, reverse,
  same_option, length, take,
}
use abrolia.Runtime.Schema
use abrolia.Runtime.Schema.{
  Text, Time, Db, Event, Approval, Commitment, FactStatus, confirmed, done, received, dlq,
  key_error, household_deleted,
}
use abrolia.Runtime.Events.{
  append, new_event, get, lease, mark_failed, is_open, earlier, leased_row,
}
use abrolia.Runtime.Events.Ingress.{append-append, mark_failed_lem}
use abrolia.Runtime.Events.Lease.{in_work, lease_fifo, leased_db}
use abrolia.Runtime.Events.Runs.{EventRun, here, next, appended, leased, one_in_work}
use abrolia.Runtime.Commitments as Facts
use abrolia.Runtime.Commitments.{
  new_commitment, confirm, propose, reject, superseded_row, rejected_row, chain,
}
use abrolia.Runtime.Commitments.Confirmation.{IsGrounded, FactRun, FactStep, confirmed_by_approval}
use abrolia.Runtime.Commitments.Versions.{Links, chain_total, reject-propose}
use abrolia.Runtime.Tests.Data.{empty_db, card}

append-append_example :
    let (first, db') = append 1 20 30 40 (some 5) 100 empty_db in
    (first ≡ ok (record { event = new_event 1 20 30 40 (some 5) 100; created = true }))
    × (db' ≡ record empty_db { events = new_event 1 20 30 40 (some 5) 100 ∷ [] })
    × (append 2 21 30 41 none 200 db'
        ≡ (ok (record { event = new_event 1 20 30 40 (some 5) 100; created = false }), db'))
append-append_example =
    append-append 1 20 30 40 (some 5) 100 empty_db 2 21 41 none 200 refl refl refl (omega arith)

-- Two letters of one thread, and a third of another.
abbrev inbox : Db
inbox = record empty_db {
  events =
      new_event 1 20 30 40 (some 5) 100
      ∷ new_event 2 20 31 41 (some 5) 101
      ∷ new_event 3 20 32 42 (some 6) 102
      ∷ [];
}

abbrev worked : Db
worked = leased_db 8 300 200 inbox (new_event 1 20 30 40 (some 5) 100)

leased_first :
    lease 8 300 200 inbox
    ≡ (ok (some (leased_row 8 300 200 (new_event 1 20 30 40 (some 5) 100))), worked)
unfolding lease
leased_first = refl

lease_fifo_example :
    All
      (λ e.
        is_open 200 e ≡ true
        → same_option e.context_key (some 5) ≡ true
        → earlier (leased_row 8 300 200 (new_event 1 20 30 40 (some 5) 100)) e ≡ true)
      inbox.events
lease_fifo_example =
    lease_fifo 8 300 200 inbox (leased_row 8 300 200 (new_event 1 20 30 40 (some 5) 100)) worked
      (refl, (refl, (refl, tt))) leased_first

abbrev one_letter : Db
one_letter = (append 1 20 30 40 (some 5) 100 empty_db).1

abbrev two_workers : Db
two_workers = (lease 9 300 210 (lease 8 300 200 one_letter).1).1

two_workers_run : EventRun empty_db 210 two_workers
two_workers_run =
    next
      (next (next (here 100) (omega arith) (appended 1 20 30 40 (some 5) empty_db)) (omega arith)
        (leased 8 300 one_letter))
      (omega arith) (leased 9 300 (lease 8 300 200 one_letter).1)

one_in_work_example : in_work 5 400 two_workers ≤ 1
one_in_work_example = one_in_work 5 400 refl two_workers_run (omega arith)

mark_failed_lem_example :
    (get 1 worked ≡ none → mark_failed 1 (7 ∷ []) 5 300 worked ≡ (err (key_error 1), worked))
    × ((e : Event)
        → get 1 worked ≡ some e
        → (f : Event) × ((mark_failed 1 (7 ∷ []) 5 300 worked).0 ≡ ok f)
          × (get 1 (mark_failed 1 (7 ∷ []) 5 300 worked).1 ≡ some f)
          × (f.attempts ≡ e.attempts + 1)
          × (f.last_error ≡ some (take 2000 (7 ∷ [])))
          × (f.lease_until ≡ none)
          × ((5 ≤ e.attempts + 1 → f.status ≡ dlq) × (e.attempts + 1 < 5 → f.status ≡ received)))
mark_failed_lem_example = mark_failed_lem 1 (7 ∷ []) 5 300 worked

abbrev yes_card : Approval
yes_card = record card { status = Schema.claimed }

-- A confirmed fee, and the approval that confirmed it.
abbrev fee : Commitment
fee = record (new_commitment 1 2 3 none none none none 100) {
  status = confirmed;
  approval_id = some 7;
}

abbrev trip : Commitment
trip = new_commitment 4 2 3 none none none none 110

abbrev facts_db : Db
facts_db = record empty_db { approvals = yes_card ∷ []; commitments = fee ∷ trip ∷ [] }

abbrev proposed_once : Db
proposed_once = (propose 1 2 3 none none none none 100 empty_db).1

confirmed_run : FactRun empty_db (confirm 1 yes_card 200 proposed_once).1
confirmed_run =
    FactRun.next
      (FactRun.next FactRun.here (FactStep.proposed 1 2 3 none none none none 100 empty_db))
      (FactStep.confirmed_step 1 yes_card 200 proposed_once)

confirmed_by_approval_example : IsGrounded (confirm 1 yes_card 200 proposed_once).1
confirmed_by_approval_example = confirmed_by_approval refl confirmed_run

chain_total_example :
    (older : List Commitment) × (chain (length facts_db.commitments + 1) 1 facts_db
      ≡ some (reverse older))
    × Links facts_db [] (Facts.get 1 facts_db) older
chain_total_example = chain_total 1 facts_db

reject-propose_example :
    let (result, db') = propose 9 2 3 none none none (some 1) 200 facts_db in
    let (did, db'') = reject 9 300 db' in
    (result ≡ ok (some (new_commitment 9 2 3 none none none (some 1) 200)))
    × (did ≡ ok true)
    × (Facts.get 1 db'' ≡ some (superseded_row 200 fee))
    × (Facts.get 9 db''
        ≡ some (rejected_row 300 (new_commitment 9 2 3 none none none (some 1) 200)))
reject-propose_example = reject-propose 9 2 3 none none none 1 200 300 facts_db fee refl refl refl
