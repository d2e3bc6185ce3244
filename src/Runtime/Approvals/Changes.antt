-- ===== src/Runtime/Approvals/Changes.antt =====
-- What each operation of the two stores changes, and that a claimed approval keeps its attempt.
use abrolia.Common.{
  ℕ, ◌≡◌, refl, Bool, true, false, not, ◌||◌, Option, none, some, List, [], ◌∷◌, ◌++◌, ◌==◌, arith,
  Result, ok, err, find, exists, update_where, ◌⊎◌, inl, inr, upd, All, write, settle_write, ◌>>=◌,
}
use abrolia.Common.Rows.{exists-append, exists-update_where, All-update_where}
use abrolia.Runtime.Schema.{Text, Time, Approval, claimed, Db, Effect, ApprovalStatus, Error}
use abrolia.Runtime.Effects.{has_key, record_attempt, new_effect}
use abrolia.Runtime.Approvals.Code.{normalize}
use abrolia.Runtime.Approvals.Claim.{attempt_of, updated, claimed_db}
use abrolia.Runtime.Approvals.Store.{
  Digests, stage, claim, claim_by_id, claim_where, claim_row, claim_result, is_claimable,
  claimed_row, approval_tool_use_id, expired_row, failure, new_approval,
}

abbrev pub is_claimed : ApprovalStatus → Bool
is_claimed claimed = true
is_claimed _ = false

-- A claimed approval has an attempt in the journal.
abbrev pub covered : List Effect → Approval → Bool
covered effects a = not (is_claimed a.status) || exists (has_key a.id approval_tool_use_id) effects

abbrev pub IsRecorded : Db → Type 0
IsRecorded db = All (λ a. covered db.effects a ≡ true) db.approvals

pub covered_more :
    (effects new : List Effect) (rows : List Approval)
    → All (λ a. covered effects a ≡ true) rows
    → All (λ a. covered (effects ++ new) a ≡ true) rows
covered_more effects new [] h = tt
covered_more effects new (a ∷ rows) h = (
  ground (arith, h.0, exists-append (has_key a.id approval_tool_use_id) effects new),
  covered_more effects new rows h.1,
)

pub covered_updated :
    (p : Effect → Bool) (f : Effect → Effect) (effects : List Effect)
    → ((k : Text) (e : Effect)
        → has_key k approval_tool_use_id (upd p f e) ≡ has_key k approval_tool_use_id e)
    → (rows : List Approval) → All (λ a. covered effects a ≡ true) rows
    → All (λ a. covered (update_where p f effects) a ≡ true) rows
covered_updated p f effects keeps [] h = tt
covered_updated p f effects keeps (a ∷ rows) h = (
  ground (
    arith,
    h.0,
    exists-update_where (has_key a.id approval_tool_use_id) p f effects (keeps a.id),
  ),
  covered_updated p f effects keeps rows h.1,
)

-- The row that a claim marks is the one whose attempt it appends.
covered_claimed :
    (effects : List Effect) (fresh_effect actor : Text) (now : Time) (row : Approval)
    (rows : List Approval)
    → All (λ a. covered effects a ≡ true) rows
    → All
        (λ a. covered (effects ++ attempt_of fresh_effect now row ∷ []) a ≡ true)
        (update_where (λ a. a.id == row.id) (claimed_row actor now) rows)
covered_claimed effects fresh_effect actor now row [] h = tt
covered_claimed effects fresh_effect actor now row (a ∷ rows) h = (
  ground (
    arith,
    h.0,
    exists-append (has_key a.id approval_tool_use_id) effects
        (attempt_of fresh_effect now row ∷ []),
  ),
  covered_claimed effects fresh_effect actor now row rows h.1,
)

-- Reading the claimed approval back changes nothing.
commit_change :
    (s : Db) (r : Result Error (Option Text) × Db)
    → ((write (λ _. r) >>= claim_result) s).1 ≡ (settle_write s r).1
unfolding claim_result
commit_change s (ok (some k), t) = ground arith
commit_change s (ok none, t) = refl
commit_change s (err e, t) = refl

pub record_attempt_change :
    (fresh run_id tool_use_id kind : Text) (approval_id payload_sha : Option Text) (now lease : ℕ)
    (db : Db)
    → let db' =
        (record_attempt fresh run_id tool_use_id kind approval_id payload_sha now lease db).1 in
      (db' ≡ db)
      ⊎ (db' ≡ record db {
        effects =
            db.effects
            ++ new_effect fresh run_id tool_use_id kind approval_id payload_sha now lease ∷ [];
      })
unfolding record_attempt
record_attempt_change fresh run_id tool_use_id kind approval_id payload_sha now lease db =
    ground arith

-- What the transaction of a claim leaves: no change to approvals and effects, an expired approval,
-- or a claimed one with its attempt.
pub claim_row_change :
    (d : Digests) (fresh_attempt fresh_effect chat actor : Text) (now : Time) (row : Approval)
    (db : Db)
    → let db' = (write (claim_row d fresh_attempt fresh_effect chat actor now (some row)) db).1 in
      (db' ≡ db)
      ⊎ ((db' ≡ updated row.id (expired_row now) db)
          ⊎ (db' ≡ claimed_db fresh_effect actor now row db))
unfolding claim_row record_attempt
claim_row_change d fresh_attempt fresh_effect chat actor now row db = ground arith

abbrev pub noted_db : Text → Text → Text → Time → Db → Db
noted_db fresh_attempt actor chat now db = record db {
  approval_attempts = db.approval_attempts ++ failure fresh_attempt actor chat now ∷ [];
}

pub claim_row_miss :
    (d : Digests) (fresh_attempt fresh_effect chat actor : Text) (now : Time) (db : Db)
    → let db' = (write (claim_row d fresh_attempt fresh_effect chat actor now none) db).1 in
      (db' ≡ db) ⊎ (db' ≡ noted_db fresh_attempt actor chat now db)
unfolding claim_row
claim_row_miss d fresh_attempt fresh_effect chat actor now db = ground arith

claim_row-IsRecorded :
    (d : Digests) (fresh_attempt fresh_effect chat actor : Text) (now : Time) (o : Option Approval)
    (db : Db)
    → IsRecorded db
    → IsRecorded (write (claim_row d fresh_attempt fresh_effect chat actor now o) db).1
claim_row-IsRecorded d fresh_attempt fresh_effect chat actor now none db h =
    elim (claim_row_miss d fresh_attempt fresh_effect chat actor now db) [
      | inl same ↦ rw same h
      | inr noted ↦ rw noted h
    ]
claim_row-IsRecorded d fresh_attempt fresh_effect chat actor now (some row) db h =
    elim (claim_row_change d fresh_attempt fresh_effect chat actor now row db) [
      | inl same ↦ rw same h
      | inr (inl gone) ↦ rw gone (
          All-update_where (λ a. covered db.effects a ≡ true) (λ a. a.id == row.id)
            (expired_row now) db.approvals (λ a k. ground arith) h)
      | inr (inr done) ↦
          rw done (covered_claimed db.effects fresh_effect actor now row db.approvals h)
    ]

pub claim_where_change :
    (d : Digests) (fresh_attempt fresh_effect chat actor : Text) (thread : Option Text) (now : Time)
    (predicate : Approval → Bool) (db : Db)
    → (claim_where d fresh_attempt fresh_effect predicate chat thread actor now db).1
      ≡ (write
          (claim_row d fresh_attempt fresh_effect chat actor now
            (find (is_claimable predicate chat thread) db.approvals))
          db).1
unfolding claim_where claim_result
claim_where_change d fresh_attempt fresh_effect chat actor thread now predicate db =
    commit_change db (
      claim_row d fresh_attempt fresh_effect chat actor now
        (find (is_claimable predicate chat thread) db.approvals) db)

pub claim_where-IsRecorded :
    (d : Digests) (fresh_attempt fresh_effect chat actor : Text) (thread : Option Text) (now : Time)
    (predicate : Approval → Bool) (db : Db)
    → IsRecorded db
    → IsRecorded (claim_where d fresh_attempt fresh_effect predicate chat thread actor now db).1
claim_where-IsRecorded d fresh_attempt fresh_effect chat actor thread now predicate db h =
    rw (claim_where_change d fresh_attempt fresh_effect chat actor thread now predicate db)
      (claim_row-IsRecorded d fresh_attempt fresh_effect chat actor now _ db h)

pub claim_change :
    (d : Digests) (fresh_attempt fresh_effect : Text) (code : List ℕ) (chat : Text)
    (thread : Option Text) (actor : Text) (now : Time) (db : Db)
    → let db' = (claim d fresh_attempt fresh_effect code chat thread actor now db).1 in
      (db' ≡ db)
      ⊎ ((db' ≡ noted_db fresh_attempt actor chat now db)
          ⊎ (db'
              ≡ (claim_where d fresh_attempt fresh_effect
                  (λ a. a.code_sha == d.sha (normalize code))
                  chat
                  thread
                  actor
                  now
                  db).1))
unfolding claim
claim_change d fresh_attempt fresh_effect code chat thread actor now db = ground arith

pub claim_by_id_change :
    (d : Digests) (fresh_attempt fresh_effect k chat : Text) (thread : Option Text) (actor : Text)
    (now : Time) (db : Db)
    → let db' = (claim_by_id d fresh_attempt fresh_effect k chat thread actor now db).1 in
      (db' ≡ db)
      ⊎ (db'
          ≡ (claim_where d fresh_attempt fresh_effect (λ a. a.id == k) chat thread actor now db).1)
unfolding claim_by_id
claim_by_id_change d fresh_attempt fresh_effect k chat thread actor now db = ground arith

pub stage_change :
    (d : Digests) (fresh : Text) (code : List ℕ) (kind payload chat actor : Text)
    (thread context_key event_id : Option Text) (ttl : ℕ) (now : Time) (db : Db)
    → let db' =
        (stage d fresh code kind payload chat actor thread context_key event_id ttl now db).1 in
      (db' ≡ db)
      ⊎ (db' ≡ record db {
        approvals =
            db.approvals
            ++ new_approval d fresh code kind payload chat actor thread context_key event_id ttl now
              ∷ [];
      })
unfolding stage
stage_change d fresh code kind payload chat actor thread context_key event_id ttl now db =
    ground arith
