-- ===== src/Runtime/Approvals/Guessing.antt =====
-- Wrong codes, one after the other, between any other calls on the two stores.
use abrolia.Common.{
  ℕ, zero, suc, ◌+◌, ◌≤◌, ◌<◌, ◌≡◌, Bool, false, Option, none, some, List, [], ◌∷◌, ◌==◌, arith, ok,
  err, find, count_where, ◌⊎◌, inl, inr, write,
}
use abrolia.Common.Rows.{count_where-append}
use abrolia.Runtime.Schema.{Text, Time, Approval, Attempt, Db, rate_limited}
use abrolia.Runtime.Effects.{settle, extend_lease}
use abrolia.Runtime.Effects.Steps.{begin_effect}
use abrolia.Runtime.Approvals.Code.{normalize, matches_code}
use abrolia.Runtime.Approvals.Store.{
  Digests, claim, claim_by_id, claim_where, claim_row, claim_result, is_claimable, failure,
  failed_attempts, is_failure, mark, cancel, expire_stale, failed_window_seconds,
}
use abrolia.Runtime.Approvals.Changes.{
  claim_where_change, claim_row_miss, claim_row_change, claim_change, claim_by_id_change,
  stage_change, record_attempt_change, noted_db,
}
use abrolia.Runtime.Approvals.Invariant.{
  StoreStep, staged_step, claimed_step, pressed, marked, cancelled_step, expired_step, settled_step,
  extended, began,
}

-- A code that is not sixteen hex digits, or one that no staged approval of the chat and thread has.
abbrev pub IsWrong : Digests → List ℕ → Text → Option Text → Db → Type 0
IsWrong d code chat thread db =
    (matches_code (normalize code) ≡ false)
    ⊎ (find (is_claimable (λ a. a.code_sha == d.sha (normalize code)) chat thread) db.approvals
        ≡ none)

-- So many wrong codes of the actor in the chat, all of them younger than the window at the time `at`,
-- with any steps of the two stores between them.
pub data Guesses (d : Digests) (chat actor : Text) (at : Time) (s : Db) : ℕ → Db → Type 0 where
  here : Guesses d chat actor at s zero s
  guessed :
      {n : ℕ} {t : Db} (fresh_attempt fresh_effect : Text) (code : List ℕ) (thread : Option Text)
      (now : Time)
      → Guesses d chat actor at s n t
      → at < now + failed_window_seconds
      → IsWrong d code chat thread t
      → (claim d fresh_attempt fresh_effect code chat thread actor now t).0 ≡ ok none
      → Guesses d chat actor at s
          (suc n)
          (claim d fresh_attempt fresh_effect code chat thread actor now t).1
  between :
      {n : ℕ} {t u : Db}
      → Guesses d chat actor at s n t
      → StoreStep t u
      → Guesses d chat actor at s n u

-- A wrong code that is answered with none is recorded.
guess_noted :
    (d : Digests) (fresh_attempt fresh_effect : Text) (code : List ℕ) (chat : Text)
    (thread : Option Text) (actor : Text) (now : Time) (db : Db)
    → IsWrong d code chat thread db
    → (claim d fresh_attempt fresh_effect code chat thread actor now db).0 ≡ ok none
    → (claim d fresh_attempt fresh_effect code chat thread actor now db).1
      ≡ noted_db fresh_attempt actor chat now db
unfolding claim claim_where claim_row claim_result
guess_noted d fresh_attempt fresh_effect code chat thread actor now db (inl malformed) answer =
    ground (arith, malformed, answer)
guess_noted d fresh_attempt fresh_effect code chat thread actor now db (inr missing) answer =
    ground (arith, missing, answer)

-- No step of the stores takes a failed attempt back.
abbrev Grows : (Attempt → Bool) → Db → Db → Type 0
Grows p s t = count_where p s.approval_attempts ≤ count_where p t.approval_attempts

noted-Grows :
    (p : Attempt → Bool) (fresh_attempt actor chat : Text) (now : Time) (db : Db)
    → Grows p db (noted_db fresh_attempt actor chat now db)
noted-Grows p fresh_attempt actor chat now db =
    omega
      (arith, count_where-append p db.approval_attempts (failure fresh_attempt actor chat now ∷ []))

claim_row-Grows :
    (p : Attempt → Bool) (d : Digests) (fresh_attempt fresh_effect chat actor : Text) (now : Time)
    (o : Option Approval) (db : Db)
    → Grows p db (write (claim_row d fresh_attempt fresh_effect chat actor now o) db).1
claim_row-Grows p d fresh_attempt fresh_effect chat actor now none db =
    elim (claim_row_miss d fresh_attempt fresh_effect chat actor now db) [
      | inl same ↦ rw same (omega arith)
      | inr noted ↦ rw noted (noted-Grows p fresh_attempt actor chat now db)
    ]
claim_row-Grows p d fresh_attempt fresh_effect chat actor now (some row) db =
    elim (claim_row_change d fresh_attempt fresh_effect chat actor now row db) [
      | inl same ↦ rw same (omega arith)
      | inr (inl gone) ↦ rw gone (omega arith)
      | inr (inr done) ↦ rw done (omega arith)
    ]

claim_where-Grows :
    (p : Attempt → Bool) (d : Digests) (fresh_attempt fresh_effect chat actor : Text)
    (thread : Option Text) (now : Time) (predicate : Approval → Bool) (db : Db)
    → Grows p db (claim_where d fresh_attempt fresh_effect predicate chat thread actor now db).1
claim_where-Grows p d fresh_attempt fresh_effect chat actor thread now predicate db =
    rw (claim_where_change d fresh_attempt fresh_effect chat actor thread now predicate db)
      (claim_row-Grows p d fresh_attempt fresh_effect chat actor now _ db)

StoreStep-Grows : (p : Attempt → Bool) {s t : Db} → StoreStep s t → Grows p s t
StoreStep-Grows p
      (staged_step d fresh code kind payload chat actor thread context_key event_id ttl now db) =
    elim (stage_change d fresh code kind payload chat actor thread context_key event_id ttl now
      db) [ inl same ↦ rw same (omega arith) | inr grown ↦ rw grown (omega arith) ]
StoreStep-Grows p (claimed_step d fresh_attempt fresh_effect code chat thread actor now db) =
    elim (claim_change d fresh_attempt fresh_effect code chat thread actor now db) [
      | inl same ↦ rw same (omega arith)
      | inr (inl noted) ↦ rw noted (noted-Grows p fresh_attempt actor chat now db)
      | inr (inr ran) ↦
          rw ran (claim_where-Grows p d fresh_attempt fresh_effect chat actor thread now _ db)
    ]
StoreStep-Grows p (pressed d fresh_attempt fresh_effect k chat thread actor now db) =
    elim (claim_by_id_change d fresh_attempt fresh_effect k chat thread actor now db) [
      | inl same ↦ rw same (omega arith)
      | inr ran ↦
          rw ran (claim_where-Grows p d fresh_attempt fresh_effect chat actor thread now _ db)
    ]
StoreStep-Grows p (marked k status receipt error now db other) = unfold mark in omega arith
StoreStep-Grows p (cancelled_step k now db) = unfold cancel in omega arith
StoreStep-Grows p (expired_step now db) = unfold expire_stale in omega arith
StoreStep-Grows p (settled_step k status result error now db) = unfold settle in omega arith
StoreStep-Grows p (extended k seconds now db) = unfold extend_lease in omega arith
StoreStep-Grows p (began fresh run_id tool_use_id kind approval_id payload_sha now lease db) =
    elim (begin_effect fresh run_id tool_use_id kind approval_id payload_sha now lease db) [
      | inl same ↦ rw same (omega arith)
      | inr ran ↦
          rw ran
            (elim (record_attempt_change fresh run_id tool_use_id kind approval_id payload_sha now
              lease db) [ inl same ↦ rw same (omega arith) | inr grown ↦ rw grown (omega arith) ])
    ]

Guesses-failed_attempts :
    (d : Digests) (chat actor : Text) (at : Time) {s : Db} {n : ℕ} {t : Db}
    → Guesses d chat actor at s n t
    → n ≤ failed_attempts actor chat at t
Guesses-failed_attempts d chat actor at here = omega arith
Guesses-failed_attempts d chat actor at
      (guessed {t = t} fresh_attempt fresh_effect code thread now earlier young wrong answer) =
    let before = Guesses-failed_attempts d chat actor at earlier in
    rw (guess_noted d fresh_attempt fresh_effect code chat thread actor now t wrong answer) (
      ground (
        arith,
        before,
        young,
        count_where-append (is_failure actor chat at) t.approval_attempts
            (failure fresh_attempt actor chat now ∷ []),
      ))
Guesses-failed_attempts d chat actor at (between earlier step) = omega (
  arith,
  Guesses-failed_attempts d chat actor at earlier,
  StoreStep-Grows (is_failure actor chat at) step,
)

-- Whoever has typed five wrong codes in a chat is locked out there: when five codes of an actor in a
-- chat were answered with none, because each was not sixteen hex digits or was the code of no staged
-- approval of the chat and thread, then, whatever else the two stores did between them and since,
-- where `mark` is never called with the status claimed, every claim of that actor in that chat while
-- the five are younger than the window of 600 seconds, by any code, the right one too, or by any
-- button, raises RateLimited and leaves the database as it is.
pub Guesses-limited :
    (d : Digests) (chat actor : Text) (at : Time) {s t : Db} {n : ℕ}
    (fresh_attempt fresh_effect : Text) (code : List ℕ) (approval_id : Text) (thread : Option Text)
    → 5 ≤ n
    → Guesses d chat actor at s n t
    → (claim d fresh_attempt fresh_effect code chat thread actor at t ≡ (err rate_limited, t))
      × (claim_by_id d fresh_attempt fresh_effect approval_id chat thread actor at t
          ≡ (err rate_limited, t))
unfolding claim claim_by_id
Guesses-limited d chat actor at fresh_attempt fresh_effect code approval_id thread enough guesses =
    ground (arith, enough, Guesses-failed_attempts d chat actor at guesses)
