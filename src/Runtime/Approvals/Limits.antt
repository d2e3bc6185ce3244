-- ===== src/Runtime/Approvals/Limits.antt =====
-- Refusals and expiry: the rate limit, wrong codes, tampered payloads and overdue approvals.
use abrolia.Common.{
  ℕ, ◌+◌, ◌<◌, ◌≡◌, ◌≢◌, refl, false, ◌&&◌, Option, none, some, List, [], ◌∷◌, ◌==◌, arith, ok, err,
  find, exists, update_where, count_where, select, leb, if◌then◌else◌,
}
use mathlib.Core.Option
use abrolia.Common.Rows.{count_where-append, find-test, find-update_where}
use abrolia.Runtime.Schema.{Text, Time, Approval, staged, expired, Db, payload_tampered}
use abrolia.Runtime.Effects.Idempotence.{IsFresh}
use abrolia.Runtime.Approvals.Code.{normalize, matches_code}
use abrolia.Runtime.Approvals.Claim.{HasKey}
use abrolia.Runtime.Approvals.Store.{
  Digests, claim, claim_by_id, claim_where, claim_row, is_claimable, failure, failed_attempts,
  is_failure, expire_stale, is_overdue, expired_row, pending_for, is_pending_in, get, is_staged,
}

module _ (d : Digests) (fresh_attempt fresh_effect : Text) (code : List ℕ) (chat actor : Text)
    (thread : Option Text) (now : Time) (db : Db) where
  -- A code that is not sixteen hex digits is refused with none, and counts as one failure of this
  -- actor in this chat; approvals and effects stay as they are.
  pub claim_malformed :
      failed_attempts actor chat now db < 5
      → matches_code (normalize code) ≡ false
      → exists (λ t. t.id == fresh_attempt) db.approval_attempts ≡ false
      → let (result, db') = claim d fresh_attempt fresh_effect code chat thread actor now db in
        (result ≡ ok none)
        × (failed_attempts actor chat now db' ≡ failed_attempts actor chat now db + 1)
        × (db'.approvals ≡ db.approvals)
        × (db'.effects ≡ db.effects)
  unfolding claim
  claim_malformed few wrong new = ground (
    arith,
    count_where-append (is_failure actor chat now) db.approval_attempts
        (failure fresh_attempt actor chat now ∷ []),
  )

  -- The claim of an approval whose payload no longer has its digest raises PayloadTampered, and its
  -- transaction is rolled back: the approval is still staged, and nothing of the refusal is stored.
  pub claim_by_id_tampered :
      (row : Approval)
      → failed_attempts actor chat now db < 5
      → HasKey db
      → find (is_claimable (λ a. a.id == row.id) chat thread) db.approvals ≡ some row
      → IsFresh fresh_effect db
      → now < row.expires_at
      → d.payload_sha row.payload ≢ row.payload_sha
      → (claim_by_id d fresh_attempt fresh_effect row.id chat thread actor now db
          ≡ (err (payload_tampered row.id), db))
        × (row.status ≡ staged)
  unfolding claim_by_id claim_where claim_row
  claim_by_id_tampered row few key found new in_time changed =
      ground
        (arith, find-test (is_claimable (λ a. a.id == row.id) chat thread) db.approvals row found)

select_pending :
    (chat : Text) (thread : Option Text) (now : Time) (rows : List Approval)
    → select (is_pending_in chat thread now) (update_where (is_overdue now) (expired_row now) rows)
      ≡ select (is_pending_in chat thread now) rows
select_pending chat thread now [] = refl
select_pending chat thread now (r ∷ rows) = ground (arith, select_pending chat thread now rows)

-- `expire_stale` returns the number of approvals that were staged and overdue. An approval that was
-- staged and whose time is over is found as expired, with the time of the call and nothing else
-- changed; every other approval is found as it was. What `pending_for` lists, in any chat and thread,
-- is the same before and after.
pub expire_stale_lem :
    (now : Time) (db : Db) (k chat : Text) (thread : Option Text)
    → let (result, db') = expire_stale now db in
      (result ≡ ok (count_where (is_overdue now) db.approvals))
      × (get k db'
          ≡ Option.map
              (λ (a : Approval).
                if is_staged a.status && leb a.expires_at now
                then record a { status = expired; updated_at = now }
                else a)
              (get k db))
      × (pending_for chat thread now db' ≡ pending_for chat thread now db)
unfolding expire_stale pending_for
expire_stale_lem now db k chat thread = (
  refl,
  find-update_where (λ a. a.id == k) (is_overdue now) (expired_row now) db.approvals
      (λ a. ground arith),
  rw (select_pending chat thread now db.approvals),
)
