-- ===== src/Runtime/Approvals/Once.antt =====
-- A claim that succeeds: what it has checked, what it has written, and that it succeeds once.
use abrolia.Common.{
  ◌<◌, ◌≡◌, ◌≢◌, refl, Bool, true, Option, none, some, List, [], ◌∷◌, ◌++◌, ◌==◌, arith, Result, ok,
  err, find, update_where, Option-cases, inl, inr, same_option_iff, write, ◌>>=◌,
}
use abrolia.Common.Rows.{find-test}
use abrolia.Runtime.Schema.{Text, Time, Approval, staged, Db, Error}
use abrolia.Runtime.Effects.{record_attempt}
use abrolia.Runtime.Approvals.Claim.{attempt_of}
use abrolia.Runtime.Approvals.Store.{
  Digests, claim_by_id, claim_where, claim_row, claim_result, is_claimable, claimed_row,
}

-- What holds of a claim that returned an approval: the row it chose was staged, of this chat and
-- thread, not expired and not changed; it alone is claimed, by this actor; and one pending attempt
-- with its id and digest was appended to the journal.
pub record Claims (d : Digests) (fresh_effect chat actor : Text) (thread : Option Text) (now : Time)
    (predicate : Approval → Bool) (db db' : Db) (row : Approval) : Type 0 where
  pub chosen : predicate row ≡ true
  pub was_staged : row.status ≡ staged
  pub same_chat : row.chat ≡ chat
  pub same_thread : row.thread ≡ thread
  pub in_time : now < row.expires_at
  pub unchanged : d.payload_sha row.payload ≡ row.payload_sha
  pub marks :
      db'.approvals ≡ update_where (λ a. a.id == row.id) (claimed_row actor now) db.approvals
  pub records : db'.effects ≡ db.effects ++ attempt_of fresh_effect now row ∷ []

-- The transaction behind a claim that returned an approval has committed an id.
commit_claims :
    (s : Db) (r : Result Error (Option Text) × Db) (a : Approval) (db' : Db)
    → (write (λ _. r) >>= claim_result) s ≡ (ok (some a), db')
    → (k : Text) × (r ≡ (ok (some k), db'))
unfolding claim_result
commit_claims s (ok (some k), t) a db' h = (k, ground arith)
commit_claims s (ok none, t) a db' h = absurd (ground arith)
commit_claims s (err e, t) a db' h = absurd (ground arith)

module _ (d : Digests) (fresh_attempt fresh_effect chat actor : Text) (thread : Option Text)
    (now : Time) (predicate : Approval → Bool) (db : Db) where
  claim_row-Claims :
      (row : Approval) (k : Text) (db' : Db)
      → is_claimable predicate chat thread row ≡ true
      → claim_row d fresh_attempt fresh_effect chat actor now (some row) db ≡ (ok (some k), db')
      → Claims d fresh_effect chat actor thread now predicate db db' row
  unfolding claim_row record_attempt
  claim_row-Claims row k db' fits h = ground (arith, same_option_iff row.thread thread)

  claim_row-none :
      (k : Text) (db' : Db)
      → claim_row d fresh_attempt fresh_effect chat actor now none db ≡ (ok (some k), db')
      → ⊥
  unfolding claim_row
  claim_row-none k db' h = ground arith

  -- `Claims` holds of every claim that returned an approval.
  pub claim_where-Claims :
      (a : Approval) (db' : Db)
      → claim_where d fresh_attempt fresh_effect predicate chat thread actor now db
        ≡ (ok (some a), db')
      → (row : Approval) × (find (is_claimable predicate chat thread) db.approvals ≡ some row)
        × Claims d fresh_effect chat actor thread now predicate db db' row
  unfolding claim_where
  claim_where-Claims a db' h =
      let (k, ran) =
        commit_claims db
          (claim_row d fresh_attempt fresh_effect chat actor now
            (find (is_claimable predicate chat thread) db.approvals) db)
          a db' h in
      elim (Option-cases (find (is_claimable predicate chat thread) db.approvals)) [
        | inl absent ↦ absurd (claim_row-none k db' (rw absent at ran))
        | inr (row, found) ↦ (
          row,
          found,
          claim_row-Claims row k db'
              (find-test (is_claimable predicate chat thread) db.approvals row found)
              (rw found at ran),
        )
      ]

-- A claimed row is claimable no more, by its id or by anything that picks it alone.
none_claimable :
    (p : Approval → Bool) (chat' actor : Text) (thread' : Option Text) (now k : Text)
    (rows : List Approval)
    → ((a : Approval) → p (claimed_row actor now a) ≡ p a)
    → ((a : Approval) → p a ≡ true → a.id ≡ k)
    → find
        (is_claimable p chat' thread')
        (update_where (λ a. a.id == k) (claimed_row actor now) rows)
      ≡ none
none_claimable p chat' actor thread' now k [] keeps picks = refl
none_claimable p chat' actor thread' now k (a ∷ rows) keeps picks =
    ground (arith, keeps a, picks a, none_claimable p chat' actor thread' now k rows keeps picks)

-- Where the SELECT finds nothing no approval is returned, and none changes.
claim_where_misses :
    (d : Digests) (fresh_attempt fresh_effect chat actor : Text) (thread : Option Text) (now : Time)
    (predicate : Approval → Bool) (db : Db)
    → find (is_claimable predicate chat thread) db.approvals ≡ none
    → let (result, after) =
        claim_where d fresh_attempt fresh_effect predicate chat thread actor now db in
      (after.approvals ≡ db.approvals)
      × (after.effects ≡ db.effects)
      × ((a : Approval) → result ≢ ok (some a))
unfolding claim_where claim_row claim_result
claim_where_misses d fresh_attempt fresh_effect chat actor thread now predicate db absent =
    (ground arith, ground arith, λ a. ground arith)

same_id :
    (row : Approval) (k : Text)
    → (row.id == k) ≡ true
    → (a : Approval) → (a.id == k) ≡ true
    → a.id ≡ row.id
same_id row k h a e = ground arith

claim_by_id_misses :
    (d : Digests) (fresh_attempt fresh_effect k chat actor : Text) (thread : Option Text)
    (now : Time) (db : Db)
    → find (is_claimable (λ a. a.id == k) chat thread) db.approvals ≡ none
    → let (result, after) = claim_by_id d fresh_attempt fresh_effect k chat thread actor now db in
      (after.approvals ≡ db.approvals)
      × (after.effects ≡ db.effects)
      × ((a : Approval) → result ≢ ok (some a))
unfolding claim_by_id
claim_by_id_misses d fresh_attempt fresh_effect k chat actor thread now db absent =
    let missed =
      claim_where_misses d fresh_attempt fresh_effect chat actor thread now (λ a. a.id == k) db
        absent in
    (ground (arith, missed.0), ground (arith, missed.1), λ a. ground (arith, missed.2 a))

claim_by_id_guarded :
    (d : Digests) (fresh_attempt fresh_effect k chat actor : Text) (thread : Option Text)
    (now : Time) (db db' : Db) (a : Approval)
    → claim_by_id d fresh_attempt fresh_effect k chat thread actor now db ≡ (ok (some a), db')
    → claim_where d fresh_attempt fresh_effect (λ a. a.id == k) chat thread actor now db
      ≡ (ok (some a), db')
unfolding claim_by_id
claim_by_id_guarded d fresh_attempt fresh_effect k chat actor thread now db db' a h = ground arith

-- When `claim_by_id` has returned an approval, the next `claim_by_id` of the same id, by anybody, in
-- any chat and at any time, returns none or raises: it approves nothing, and changes no approval
-- and no effect.
pub claim_by_id_once :
    (d : Digests) (fresh_attempt fresh_effect approval_id chat actor : Text) (thread : Option Text)
    (now : Time) (db db' : Db) (a : Approval)
    → claim_by_id d fresh_attempt fresh_effect approval_id chat thread actor now db
      ≡ (ok (some a), db')
    → (fresh_attempt' fresh_effect' chat' actor' : Text) (thread' : Option Text) (later : Time)
    → let (result, after) =
        claim_by_id d fresh_attempt' fresh_effect' approval_id chat' thread' actor' later db' in
      (after.approvals ≡ db'.approvals)
      × (after.effects ≡ db'.effects)
      × ((b : Approval) → result ≢ ok (some b))
claim_by_id_once d fresh_attempt fresh_effect approval_id chat actor thread now db db' a h
      fresh_attempt' fresh_effect' chat' actor' thread' later =
    let (row, found, claims) =
      claim_where-Claims d fresh_attempt fresh_effect chat actor thread now
        (λ a. a.id == approval_id) db a db'
        (claim_by_id_guarded d fresh_attempt fresh_effect approval_id chat actor thread now db db' a
          h) in
    claim_by_id_misses d fresh_attempt' fresh_effect' approval_id chat' actor' thread' later db' (
      rw claims.marks (
        none_claimable (λ a. a.id == approval_id) chat' actor thread' now row.id db.approvals
          (λ a. refl) (λ a e. same_id row approval_id claims.chosen a e)))
