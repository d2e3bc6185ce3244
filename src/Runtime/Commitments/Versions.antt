-- ===== src/Runtime/Commitments/Versions.antt =====
-- The versions of a commitment: the chain by `supersedes`, and what a proposal does to the old one.
use abrolia.Common.{
  ℕ, zero, suc, ◌+◌, ◌<◌, ◌≡◌, refl, true, false, not, Option, none, some, List, [], ◌∷◌, ◌++◌,
  ◌==◌, arith, ok, find, exists, update_where, count_where, inl, inr, Option-cases, Bool-cases,
  length, reverse, is_some, coalesce, upd, if◌then◌else◌,
}
use mathlib.Core.Option
use abrolia.Common.Rows.{
  find-test, find-update_where, count_where_mono, find-append, find-exists, count-le-length,
  count_of_find, exists-update_where,
}
use abrolia.Runtime.Schema.{Text, Time, Commitment, Db, refers, has_run}
use abrolia.Runtime.Commitments.{
  get, chain_loop, chain, seen_before, next_version, propose, supersede, insert_commitment,
  new_commitment, reject, is_candidate_as, rejected_row, superseded_row,
}

-- The rows that the chain has not visited.
abbrev unseen : List Text → Db → ℕ
unseen seen db = count_where (λ (c : Commitment). not (seen_before seen c.id)) db.commitments

-- A row that is visited for the first time leaves fewer to visit.
unseen_falls :
    (seen : List Text) (k : Text) (rows : List Commitment) (c : Commitment)
    → find (λ r. r.id == k) rows ≡ some c
    → seen_before seen c.id ≡ false
    → count_where (λ (r : Commitment). not (seen_before (c.id ∷ seen) r.id)) rows
      < count_where (λ (r : Commitment). not (seen_before seen r.id)) rows
unseen_falls seen k [] c h e = absurd (ground arith)
unseen_falls seen k (r ∷ rows) c h e = ground (
  arith,
  unseen_falls seen k rows c,
  count_where_mono (λ (r : Commitment). not (seen_before (c.id ∷ seen) r.id))
      (λ (r : Commitment). not (seen_before seen r.id)) rows (λ r t. ground arith),
)

-- A chain stops at no row, or at a row that it has visited.
abbrev pub Ends : List Text → Option Commitment → Type 0
Ends seen none = Unit {0}
Ends seen (some c) = seen_before seen c.id ≡ true

-- What the chain lists from a row on: rows of ids not seen, each the version the one before names, up
-- to the end of the chain.
abbrev pub Links : Db → List Text → Option Commitment → List Commitment → Type 0
Links db seen current [] = Ends seen current
Links db seen current (c ∷ older) =
    (current ≡ some c)
    × (seen_before seen c.id ≡ false)
    × Links db (c.id ∷ seen) (next_version c.supersedes db) older

chain_loop_total :
    (fuel : ℕ) (db : Db) (seen : List Text) (k : Option Text)
    → unseen seen db < fuel
    → (older : List Commitment) × (chain_loop fuel db seen (next_version k db) ≡ some older)
      × Links db seen (next_version k db) older
unfolding chain_loop
chain_loop_total zero db seen k h = absurd (omega arith)
chain_loop_total (suc fuel) db seen none h = ([], refl, tt)
chain_loop_total (suc fuel) db seen (some k) h = elim (Option-cases (get k db)) [
  | inl missing ↦ ([], rw (missing, chain_loop), rw missing tt)
  | inr (c, found) ↦ elim (Bool-cases (seen_before seen c.id)) [
    | inl old ↦ ([], rw (found, chain_loop) (rw old), rw found old)
    | inr new ↦
        let (older, ran, links) =
          chain_loop_total fuel db (c.id ∷ seen) c.supersedes
            (omega (arith, unseen_falls seen k db.commitments c found new)) in
        (c ∷ older, rw (found, chain_loop) (rw (new, ran)), (found, new, links))
  ]
]

-- With one step of fuel more than there are commitments the chain of an id ends, whatever the
-- `supersedes` columns hold, cycles included. It lists, oldest first, rows with distinct ids: the
-- row of the id last, and before each the row that it names as superseded. It is whole: it is empty
-- only where no row has the id, and the oldest row that it lists names none that is stored, or one
-- that is listed already.
pub chain_total :
    (k : Text) (db : Db)
    → (older : List Commitment) × (chain (length db.commitments + 1) k db ≡ some (reverse older))
      × Links db [] (get k db) older
unfolding chain
chain_total k db =
    let (older, ran, links) = chain_loop_total (length db.commitments + 1) db [] (some k) (
      omega
        (arith, count-le-length (λ (c : Commitment). not (seen_before [] c.id)) db.commitments)) in
    (older, rw ran, links)

module _ (fresh kind payload : Text) (run : Option Text) (confidence : Option ℕ)
    (observed_at : Option Time) (old : Text) (now later : Time) (db : Db) (c : Commitment) where
  abbrev proposal : Commitment
  proposal = new_commitment fresh kind payload run confidence observed_at (some old) now

  abbrev proposed_db : Db
  proposed_db = record db {
    commitments =
        update_where (λ r. r.id == old) (superseded_row now) db.commitments ++ proposal ∷ [];
  }

  marked_find :
      (k : Text)
      → get k proposed_db
        ≡ coalesce
            (Option.map (upd (λ r. r.id == old) (superseded_row now)) (get k db))
            (if fresh == k then some proposal else none)
  marked_find k = ground (
    arith,
    find-append (λ r. r.id == k)
        (update_where (λ r. r.id == old) (superseded_row now) db.commitments) (proposal ∷ []),
    find-update_where (λ r. r.id == k) (λ r. r.id == old) (superseded_row now) db.commitments
        (λ r. ground arith),
  )

  kept_exists :
      (k : Text)
      → exists
          (λ r. r.id == k)
          (update_where (λ r. r.id == old) (superseded_row now) db.commitments)
        ≡ is_some (get k db)
  kept_exists k = ground (
    arith,
    find-exists (λ r. r.id == k) db.commitments,
    exists-update_where (λ r. r.id == k) (λ r. r.id == old) (superseded_row now) db.commitments
        (λ r. ground arith),
  )

  propose_ran :
      get old db ≡ some c
      → get fresh db ≡ none
      → refers run (has_run db) ≡ true
      → propose fresh kind payload run confidence observed_at (some old) now db
        ≡ (ok (some proposal), proposed_db)
  unfolding propose supersede insert_commitment
  propose_ran found new known = ground (
    arith,
    marked_find fresh,
    kept_exists old,
    kept_exists fresh,
    find-exists (λ r. r.id == old) db.commitments,
  )

  rejected_find :
      (k : Text)
      → get k (reject fresh later proposed_db).1
        ≡ Option.map (upd (is_candidate_as fresh) (rejected_row later)) (get k proposed_db)
  unfolding reject
  rejected_find k =
      find-update_where (λ r. r.id == k) (is_candidate_as fresh) (rejected_row later)
        proposed_db.commitments (λ r. ground arith)

  -- The proposal of a new version of a stored commitment, with a new id and a known run, supersedes
  -- the old version at once, a confirmed one too. When the family then rejects the proposal, the new
  -- version is rejected and the old one stays superseded: neither is a confirmed fact.
  pub reject-propose :
      get old db ≡ some c
      → get fresh db ≡ none
      → refers run (has_run db) ≡ true
      → let (result, db') =
          propose fresh kind payload run confidence observed_at (some old) now db in
        let (done, db'') = reject fresh later db' in
        (result ≡ ok (some proposal))
        × (done ≡ ok true)
        × (get old db'' ≡ some (superseded_row now c))
        × (get fresh db'' ≡ some (rejected_row later proposal))
  unfolding reject
  reject-propose found new known =
      let named = find-test (λ (r : Commitment). r.id == old) db.commitments c found in
      rw (propose_ran found new known) (
        refl,
        ground (
          arith,
          count_of_find (λ (r : Commitment). r.id == fresh) (is_candidate_as fresh)
              proposed_db.commitments proposal (ground (arith, marked_find fresh)),
        ),
        ground (arith, rejected_find old, marked_find old, named),
        ground (arith, rejected_find fresh, marked_find fresh),
      )
