-- ===== src/Runtime/Approvals/Claim.antt =====
-- The claim of an approval, on every branch.
use abrolia.Common.{
  ◌≡◌, Bool, false, not, Option, none, some, [], ◌∷◌, ◌++◌, if◌then◌else◌, leb, ◌==◌, arith, Result,
  ok, err, find, exists, update_where,
}
use abrolia.Common.Keys.{Distinct}
use abrolia.Runtime.Schema.{Text, Time, Approval, Db, Error, payload_tampered, Effect}
use abrolia.Runtime.Effects.{new_effect, default_lease_seconds}
use abrolia.Runtime.Approvals.Store.{
  Digests, claim_where, is_claimable, claimed_row, expired_row, failure, approval_tool_use_id,
}

-- The primary key of the table `approvals`.
abbrev pub HasKey : Db → Type 0
HasKey db = Distinct (λ (a : Approval). a.id) db.approvals

-- The database after `UPDATE approvals SET f WHERE id = approval_id`.
abbrev pub updated : Text → (Approval → Approval) → Db → Db
updated approval_id f db = record db {
  approvals = update_where (λ a. a.id == approval_id) f db.approvals;
}

abbrev pub attempt_of : Text → Time → Approval → Effect
attempt_of fresh_effect now row =
    new_effect fresh_effect row.id approval_tool_use_id row.kind (some row.id)
      (some row.payload_sha) now default_lease_seconds

-- The database after a claim of `row`.
abbrev pub claimed_db : Text → Text → Time → Approval → Db → Db
claimed_db fresh_effect actor now row db = record db {
  approvals = update_where (λ a. a.id == row.id) (claimed_row actor now) db.approvals;
  effects = db.effects ++ attempt_of fresh_effect now row ∷ [];
}

-- What a claim does with the row that its SELECT returned.
abbrev pub claim_outcome :
    Digests → Text → Text → Time → Approval → Db → Result Error (Option Approval) × Db
claim_outcome d fresh_effect actor now row db =
    if leb row.expires_at now
    then (ok none, updated row.id (expired_row now) db)
    else if not (d.payload_sha row.payload == row.payload_sha)
    then (err (payload_tampered row.id), db)
    else (ok (some (claimed_row actor now row)), claimed_db fresh_effect actor now row db)

module _ (d : Digests) (fresh_attempt fresh_effect chat actor : Text) (thread : Option Text)
    (now : Time) (predicate : Approval → Bool) (db : Db) where
  -- Where it finds none, the failure is recorded.
  pub claim_where-none :
      find (is_claimable predicate chat thread) db.approvals ≡ none
      → exists (λ t. t.id == fresh_attempt) db.approval_attempts ≡ false
      → claim_where d fresh_attempt fresh_effect predicate chat thread actor now db ≡ (
        ok none,
        record db {
          approval_attempts = db.approval_attempts ++ failure fresh_attempt actor chat now ∷ [];
        },
      )
  unfolding claim_where
  claim_where-none absent new = ground arith
