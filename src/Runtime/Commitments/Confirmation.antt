-- ===== src/Runtime/Commitments/Confirmation.antt =====
-- A commitment becomes a fact of the family only through a person's approval.
use abrolia.Common.{
  ℕ, ◌≡◌, refl, Bool, true, false, not, ◌||◌, Option, none, some, List, [], ◌∷◌, ◌++◌, ◌==◌, arith,
  exists, update_where, count_where, ◌⊎◌, inl, inr, All, All-append, upd, sym, Bool-cases,
}
use mathlib.Core.Path.{subst}
use abrolia.Common.Rows.{All-update_where, update_where_idle}
use abrolia.Runtime.Schema.{Text, Time, Approval, Commitment, Db, has_approval}
use abrolia.Runtime.Commitments.{
  is_candidate, is_confirmed, propose, supersede, insert_commitment, new_commitment, superseded_row,
  confirm, confirmed_row, is_candidate_as, reject, rejected_row, link, linked_row,
}

-- A row that is confirmed names a stored approval.
abbrev names_approval : List Approval → Option Text → Bool
names_approval approvals none = false
names_approval approvals (some a) = exists (λ r. r.id == a) approvals

abbrev pub grounded : List Approval → Commitment → Bool
grounded approvals c = not (is_confirmed c.status) || names_approval approvals c.approval_id

abbrev pub IsGrounded : Db → Type 0
IsGrounded db = All (λ c. grounded db.approvals c ≡ true) db.commitments

-- A call of a method of `CommitmentStore` that writes.
pub data FactStep : Db → Db → Type 0 where
  proposed :
      (fresh kind payload : Text) (extraction_run_id : Option Text) (confidence : Option ℕ)
      (observed_at : Option Time) (supersedes : Option Text) (now : Time) (db : Db)
      → FactStep db
          (propose fresh kind payload extraction_run_id confidence observed_at supersedes now db).1
  confirmed_step :
      (k : Text) (approval : Approval) (now : Time) (db : Db)
      → FactStep db (confirm k approval now db).1
  rejected_step : (k : Text) (now : Time) (db : Db) → FactStep db (reject k now db).1
  linked :
      (k : Text) (reminder_id calendar_event_id : Option Text) (now : Time) (db : Db)
      → FactStep db (link k reminder_id calendar_event_id now db).1

pub data FactRun (db : Db) : Db → Type 0 where
  here : FactRun db db
  next : {t u : Db} → FactRun db t → FactStep t u → FactRun db u

-- An update that confirms no row unless under a stored approval.
update-IsGrounded :
    (p : Commitment → Bool) (f : Commitment → Commitment) (db : Db)
    → ((c : Commitment) → grounded db.approvals c ≡ true → grounded db.approvals (upd p f c) ≡ true)
    → IsGrounded db
    → IsGrounded (record db { commitments = update_where p f db.commitments })
update-IsGrounded p f db keeps h =
    All-update_where (λ c. grounded db.approvals c ≡ true) p f db.commitments keeps h

supersede-IsGrounded :
    (supersedes : Option Text) (now : Time) (db : Db)
    → IsGrounded db
    → IsGrounded (supersede supersedes now db).1
unfolding supersede
supersede-IsGrounded none now db h = h
supersede-IsGrounded (some k) now db h =
    elim (Bool-cases (exists (λ c. c.id == k) db.commitments)) [
      | inl e ↦
          rw e (update-IsGrounded (λ c. c.id == k) (superseded_row now) db (λ c g. ground arith) h)
      | inr e ↦ rw e h
    ]

insert_change :
    (c : Commitment) (db : Db)
    → let db' = (insert_commitment c db).1 in
      (db' ≡ db) ⊎ (db' ≡ record db { commitments = db.commitments ++ c ∷ [] })
unfolding insert_commitment
insert_change c db = ground arith

insert-IsGrounded :
    (c : Commitment) (db : Db)
    → is_candidate c.status ≡ true
    → IsGrounded db
    → IsGrounded (insert_commitment c db).1
insert-IsGrounded c db fresh h = elim (insert_change c db) [
  | inl same ↦ rw same h
  | inr more ↦ rw more (
      All-append (λ r. grounded db.approvals r ≡ true) db.commitments (c ∷ []) h (ground arith, tt))
]

propose_change :
    (fresh kind payload : Text) (extraction_run_id : Option Text) (confidence : Option ℕ)
    (observed_at : Option Time) (supersedes : Option Text) (now : Time) (db : Db)
    → let db' =
        (propose fresh kind payload extraction_run_id confidence observed_at supersedes now db).1 in
      (db' ≡ db)
      ⊎ (db'
          ≡ (insert_commitment
              (new_commitment fresh kind payload extraction_run_id confidence observed_at supersedes
                now)
              (supersede supersedes now db).1).1)
unfolding propose
propose_change fresh kind payload extraction_run_id confidence observed_at supersedes now db =
    ground arith

confirm_change :
    (k : Text) (approval : Approval) (now : Time) (db : Db)
    → let db' = (confirm k approval now db).1 in
      (db' ≡ db)
      ⊎ ((db' ≡ record db {
        commitments =
            update_where (is_candidate_as k) (confirmed_row approval.id now) db.commitments;
      })
          × ((has_approval db approval.id ≡ true)
              ⊎ (count_where (is_candidate_as k) db.commitments ≡ 0)))
unfolding confirm
confirm_change k approval now db = ground arith

link_change :
    (k : Text) (reminder_id calendar_event_id : Option Text) (now : Time) (db : Db)
    → let db' = (link k reminder_id calendar_event_id now db).1 in
      (db' ≡ db)
      ⊎ (db' ≡ record db {
        commitments =
            update_where
              (λ c. c.id == k)
              (linked_row reminder_id calendar_event_id now)
              db.commitments;
      })
unfolding link
link_change k reminder_id calendar_event_id now db = ground arith

FactStep-IsGrounded : {s t : Db} → FactStep s t → IsGrounded s → IsGrounded t
FactStep-IsGrounded
      (proposed fresh kind payload extraction_run_id confidence observed_at supersedes now db) h =
    elim (propose_change fresh kind payload extraction_run_id confidence observed_at supersedes now
      db) [
        | inl same ↦ rw same h
        | inr ran ↦ rw ran (
            insert-IsGrounded _ (supersede supersedes now db).1 refl
              (supersede-IsGrounded supersedes now db h))
      ]
FactStep-IsGrounded (confirmed_step k approval now db) h = elim (confirm_change k approval now db) [
  | inl same ↦ rw same h
  | inr (did, inl known) ↦ rw did (
      update-IsGrounded (is_candidate_as k) (confirmed_row approval.id now) db
        (λ c g. ground (arith, known)) h)
  | inr (did, inr idle) ↦
      rw
        (
          did,
          update_where_idle (is_candidate_as k) (confirmed_row approval.id now) db.commitments idle,
        )
        h
]
FactStep-IsGrounded (rejected_step k now db) h =
    unfold reject in
    update-IsGrounded (is_candidate_as k) (rejected_row now) db (λ c g. ground arith) h
FactStep-IsGrounded (linked k reminder_id calendar_event_id now db) h =
    elim (link_change k reminder_id calendar_event_id now db) [
      | inl same ↦ rw same h
      | inr did ↦ rw did (
          update-IsGrounded (λ c. c.id == k) (linked_row reminder_id calendar_event_id now) db
            (λ c g. ground arith) h)
    ]

-- From a database with no commitments, whatever the store's methods do in whatever order, every
-- commitment that is confirmed names an approval that is stored.
pub confirmed_by_approval : {s t : Db} → s.commitments ≡ [] → FactRun s t → IsGrounded t
confirmed_by_approval {s = s} empty here =
    subst (λ rows. All (λ c. grounded s.approvals c ≡ true) rows) (sym empty) tt
confirmed_by_approval empty (next run step) =
    FactStep-IsGrounded step (confirmed_by_approval empty run)
