-- ===== src/Runtime/Tests/Claims.antt =====
-- The claims of approvals at concrete inputs.
use abrolia.Common.{ℕ, ◌≡◌, ◌≢◌, refl, none, some, List, [], ◌∷◌, ◌<◌, arith, ok, err, true}
use abrolia.Common.{◌==◌, ◌+◌, suc, exists, inl, false}
use abrolia.Runtime.Schema.{Db, Approval, staged, expired, rate_limited, payload_tampered}
use abrolia.Runtime.Effects.{record_attempt}
use abrolia.Runtime.Approvals.Code.{normalize, matches_code, strip}
use abrolia.Runtime.Approvals.Store.{
  claim, claim_by_id, claim_where, claim_row, claim_result, failed_attempts, claimed_row,
  expire_stale, pending_for, get, stage,
}
use abrolia.Runtime.Approvals.Claim.{claimed_db}
use abrolia.Runtime.Approvals.Once.{claim_by_id_once}
use abrolia.Runtime.Approvals.Limits.{claim_by_id_tampered, expire_stale_lem}
use abrolia.Runtime.Approvals.Guessing.{Guesses, guessed, between, Guesses-limited}
use abrolia.Runtime.Approvals.Invariant.{
  StoreRun, here, next, staged_step, pressed, expired_step, claimed-IsRecorded,
}
use abrolia.Runtime.Approvals.Changes.{IsRecorded}
use abrolia.Runtime.Tests.Data.{empty_db, digests, card, card_db, changed_card, changed_db}

-- " 0123456789ABCDEF ", as code points.
abbrev typed : List ℕ
typed = 32 ∷ 48 ∷ 49 ∷ 50 ∷ 51 ∷ 52 ∷ 53 ∷ 54 ∷ 55 ∷ 56 ∷ 57 ∷ 65 ∷ 66 ∷ 67 ∷ 68 ∷ 69 ∷ 70 ∷ 32 ∷ []

typed_matches : matches_code (normalize typed) ≡ true
unfolding matches_code normalize
typed_matches = refl

abbrev claimed_card_db : Db
claimed_card_db = claimed_db 50 5 200 card card_db

pressed_once :
    claim_by_id digests 40 50 7 2 (some 3) 5 200 card_db
    ≡ (ok (some (claimed_row 5 200 card)), claimed_card_db)
unfolding claim_by_id claim_where claim_row claim_result record_attempt
pressed_once = refl

claim_by_id_once_example :
    let (result, after) = claim_by_id digests 41 51 7 9 none 6 300 claimed_card_db in
    (after.approvals ≡ claimed_card_db.approvals)
    × (after.effects ≡ claimed_card_db.effects)
    × ((b : Approval) → result ≢ ok (some b))
claim_by_id_once_example =
    claim_by_id_once digests 40 50 7 2 5 (some 3) 200 card_db claimed_card_db
      (claimed_row 5 200 card) pressed_once 41 51 9 6 none 300

-- Five empty codes, the last after overdue cards were looked for, and then the code of the card.
abbrev guess_db : ℕ → Db → Db
guess_db k db = (claim digests k 50 [] 2 (some 3) 5 (100 + k) db).1

abbrev guessed_db : Db
guessed_db =
    guess_db 5 (expire_stale 150 (guess_db 4 (guess_db 3 (guess_db 2 (guess_db 1 card_db))))).1

empty_malformed : matches_code (normalize []) ≡ false
unfolding matches_code normalize strip
empty_malformed = refl

guess :
    {n : ℕ} {t : Db} (k : ℕ)
    → failed_attempts 5 2 (100 + k) t < 5
    → exists (λ a. a.id == k) t.approval_attempts ≡ false
    → k < 400
    → Guesses digests 2 5 200 card_db n t
    → Guesses digests 2 5 200 card_db (suc n) (guess_db k t)
unfolding claim
guess {t = t} k few new young earlier =
    guessed k 50 [] (some 3) (100 + k) earlier (omega arith) (inl empty_malformed)
      (ground (arith, empty_malformed, few, new))

five-Guesses : Guesses digests 2 5 200 card_db 5 guessed_db
unfolding claim matches_code normalize strip expire_stale
five-Guesses = guess 5 (omega arith) refl (omega arith) (
    between
      (guess 4 (omega arith) refl (omega arith) (
        guess 3 (omega arith) refl (omega arith) (
          guess 2 (omega arith) refl (omega arith)
            (guess 1 (omega arith) refl (omega arith) Guesses.here))))
      (expired_step 150 _))

Guesses-limited_example :
    (claim digests 40 50 typed 2 (some 3) 5 200 guessed_db ≡ (err rate_limited, guessed_db))
    × (claim_by_id digests 40 50 7 2 (some 3) 5 200 guessed_db ≡ (err rate_limited, guessed_db))
Guesses-limited_example =
    Guesses-limited digests 2 5 200 40 50 typed 7 (some 3) (omega arith) five-Guesses

claim_by_id_tampered_example :
    (claim_by_id digests 40 50 7 2 (some 3) 5 200 changed_db
      ≡ (err (payload_tampered 7), changed_db))
    × (changed_card.status ≡ staged)
claim_by_id_tampered_example =
    claim_by_id_tampered digests 40 50 typed 2 5 (some 3) 200 changed_db changed_card (omega arith)
      (refl, tt) refl refl (omega arith) (omega arith)

expire_stale_example :
    let (result, db') = expire_stale 1000 card_db in
    (result ≡ ok 1)
    × (get 7 db' ≡ some (record card { status = expired; updated_at = 1000 }))
    × (pending_for 2 (some 3) 1000 db' ≡ pending_for 2 (some 3) 1000 card_db)
expire_stale_example = expire_stale_lem 1000 card_db 7 2 (some 3)

abbrev staged_db : Db
staged_db = (stage digests 7 (48 ∷ []) 1 44 2 5 (some 3) none none 900 100 empty_db).1

pressed_run : StoreRun empty_db (claim_by_id digests 40 50 7 2 (some 3) 5 200 staged_db).1
pressed_run =
    next (next here (staged_step digests 7 (48 ∷ []) 1 44 2 5 (some 3) none none 900 100 empty_db))
      (pressed digests 40 50 7 2 (some 3) 5 200 staged_db)

claimed-IsRecorded_example : IsRecorded (claim_by_id digests 40 50 7 2 (some 3) 5 200 staged_db).1
claimed-IsRecorded_example = claimed-IsRecorded refl pressed_run
