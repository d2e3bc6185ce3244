-- ===== src/Runtime/Memory/Remembering.antt =====
-- What enters the family's memory, and when a version gives way to its successor.
use abrolia.Common.{
  ℕ, ◌≡◌, ◌≤◌, Bool, true, false, Option, none, some, List, [], ◌∷◌, ◌++◌, ◌==◌, arith, ok, find,
  exists, update_where, inl, inr, Option-cases, ap, Bool-cases, length, ◌&&◌, refl, upd, ◌∙◌,
}
use mathlib.Core.Option
use abrolia.Common.Rows.{
  find-update_where, find-test, find-exists, find-append, find_narrow, find-none_of_exists,
  exists_weaken,
}
use abrolia.Common.Selecting.{exists-take, exists-order_by, exists-select}
use abrolia.Runtime.Schema.{Text, Time, Approval, Statement, StatementKind, Db, has_approval}
use abrolia.Runtime.Approvals.Code.{strip}
use abrolia.Runtime.Commitments.{is_claimed_status, is_candidate}
use abrolia.Runtime.Memory.{
  is_timed, get, Proposal, new_statement, insert_statement, check_previous, check_text, propose,
  confirm, confirm_statement, confirmed_row, supersede, superseded_row, is_candidate_as, reject,
  rejected_row, recall, is_recalled, is_confirmed,
}

abbrev pub id_is : Text → Statement → Bool
id_is k s = s.id == k

-- A call of `propose` that returns leaves every stored statement as it was: it adds one candidate,
-- whose text is the stripped one, not empty and of at most 500 characters, and which, if it is a
-- fact, has no term of validity. The candidate is what it returns.
pub propose-candidate :
    (fresh : Text) (text : List ℕ) (p : Proposal) (now : Time) (db : Db) (found : Option Statement)
    → (propose fresh text p now db).0 ≡ ok found
    → let db' = (propose fresh text p now db).1 in
      (found ≡ some (new_statement fresh (strip text) p now))
      × (db'.memory_statements
          ≡ db.memory_statements ++ new_statement fresh (strip text) p now ∷ [])
      × (1 ≤ length (strip text))
      × (length (strip text) ≤ 500)
      × (is_timed p.kind ≡ false → (p.valid_from ≡ none) × (p.valid_to ≡ none))
unfolding propose check_text check_previous insert_statement
propose-candidate fresh text p now db found h =
    let last =
      find-append (id_is fresh) db.memory_statements
        (new_statement fresh (strip text) p now ∷ []) in
    let none_before = find-none_of_exists (id_is fresh) db.memory_statements in
    ground (arith, last, none_before)

-- A statement of which no version is confirmed is not recalled.
recall_unconfirmed :
    (like : List ℕ → Statement → Bool) (query : Option (List ℕ)) (kind : Option StatementKind)
    (limit : ℕ) (at : Time) (k : Text) (db : Db)
    → exists (λ s. id_is k s && is_confirmed s.status) db.memory_statements ≡ false
    → exists (id_is k) (recall like query kind limit at db) ≡ false
unfolding recall
recall_unconfirmed like query kind limit at k db h =
    let none_fits =
      exists_weaken (λ s. id_is k s && is_recalled like query kind at s)
        (λ s. id_is k s && is_confirmed s.status) db.memory_statements (λ s e. ground arith) h in
    exists-take (id_is k) limit _ (
      exists-order_by (id_is k) _ _
      ∙ exists-select (id_is k) (is_recalled like query kind at) db.memory_statements none_fits)

superseded_unconfirmed :
    (old : Text) (now : Time) (rows : List Statement)
    → exists
        (λ s. id_is old s && is_confirmed s.status)
        (update_where (id_is old) (superseded_row now) rows)
      ≡ false
superseded_unconfirmed old now [] = refl
superseded_unconfirmed old now (r ∷ rows) = ground (arith, superseded_unconfirmed old now rows)

module _ (k old : Text) (approval : Approval) (now : Time) (db : Db) (c previous : Statement)
    (known : has_approval db approval.id ≡ true)
    (claimed : is_claimed_status approval.status ≡ true) (found : get k db ≡ some c)
    (fits : is_candidate c.status ≡ true) (names : c.supersedes ≡ some old) where
  abbrev after_db : Db
  after_db = record db {
    memory_statements =
        update_where (id_is old) (superseded_row now)
          (update_where (id_is k) (confirmed_row approval.id now) db.memory_statements);
  }

  confirm_ran : (confirm k approval now db).1 ≡ after_db
  unfolding confirm confirm_statement supersede
  confirm_ran =
      let is_row : find (is_candidate_as k) db.memory_statements ≡ some c =
        find_narrow (is_candidate_as k) (id_is k) db.memory_statements c (λ s t. ground arith) found
          (ground (arith, find-test (id_is k) db.memory_statements c found)) in
      ground (arith, is_row)

  confirm_answer : (confirm k approval now db).0 ≡ ok (get k after_db)
  unfolding confirm confirm_statement supersede
  confirm_answer =
      let is_row : find (is_candidate_as k) db.memory_statements ≡ some c =
        find_narrow (is_candidate_as k) (id_is k) db.memory_statements c (λ s t. ground arith) found
          (ground (arith, find-test (id_is k) db.memory_statements c found)) in
      ground (arith, is_row)

  after_find :
      (q : Text)
      → get q after_db
        ≡ Option.map
            (upd (id_is old) (superseded_row now))
            (Option.map (upd (id_is k) (confirmed_row approval.id now)) (get q db))
  after_find q = ground (
    arith,
    find-update_where (id_is q) (id_is k) (confirmed_row approval.id now) db.memory_statements
        (λ r. ground arith),
    find-update_where (id_is q) (id_is old) (superseded_row now)
        (update_where (id_is k) (confirmed_row approval.id now) db.memory_statements)
        (λ r. ground arith),
  )

-- `confirm` of a candidate by a stored approval that a person has claimed makes it confirmed under
-- that approval, and in the same transaction marks the version that it replaces, which is another
-- statement, as superseded: after the call `recall` lists that version for no query, kind, limit or
-- time.
pub confirm-supersede :
    (k old : Text) (approval : Approval) (now : Time) (db : Db) (c previous : Statement)
    → has_approval db approval.id ≡ true
    → is_claimed_status approval.status ≡ true
    → get k db ≡ some c
    → is_candidate c.status ≡ true
    → c.supersedes ≡ some old
    → (old == k) ≡ false
    → get old db ≡ some previous
    → let (result, db') = confirm k approval now db in
      (result ≡ ok (some (confirmed_row approval.id now c)))
      × (get k db' ≡ some (confirmed_row approval.id now c))
      × (get old db' ≡ some (superseded_row now previous))
      × ((like : List ℕ → Statement → Bool) (query : Option (List ℕ)) (kind : Option StatementKind)
            (limit : ℕ) (at : Time)
          → exists (id_is old) (recall like query kind limit at db') ≡ false)
confirm-supersede k old approval now db c previous known claimed found fits names other before =
    let ran = confirm_ran k old approval now db c previous known claimed found fits names in
    let answer = confirm_answer k old approval now db c previous known claimed found fits names in
    let after = after_find k old approval now db c previous known claimed found fits names in
    let named = find-test (id_is k) db.memory_statements c found in
    let named_old = find-test (id_is old) db.memory_statements previous before in
    (
      ground (arith, answer, after k, named, found, other),
      rw ran (ground (arith, after k, named, found, other)),
      rw ran (ground (arith, after old, named_old, before, other)),
      λ like query kind limit at. rw ran (
          recall_unconfirmed like query kind limit at old _ (
            superseded_unconfirmed old now
              (update_where (id_is k) (confirmed_row approval.id now) db.memory_statements))),
    )

-- A statement that is proposed and then rejected changes nothing that was confirmed: a statement
-- found under another id, the one to be replaced among them, is found as it was.
pub reject_keeps :
    (k other : Text) (now : Time) (db : Db)
    → (other == k) ≡ false
    → get other (reject k now db).1 ≡ get other db
unfolding reject
reject_keeps k other now db apart =
    let moved =
      find-update_where (id_is other) (is_candidate_as k) (rejected_row now) db.memory_statements
        (λ r. ground arith) in
    elim (Option-cases (get other db)) [
      | inl missing ↦ ground (arith, moved, missing)
      | inr (s, found) ↦
          let named = find-test (id_is other) db.memory_statements s found in
          ground (arith, moved, found, named)
    ]

-- `propose` of a replacement, then `reject` of it: every statement that was stored before is found
-- as it was, the one to be replaced among them, unless the new id was taken.
pub rejected_proposal :
    (fresh old : Text) (text : List ℕ) (p : Proposal) (now later : Time) (db : Db) (s : Statement)
    → exists (id_is fresh) db.memory_statements ≡ false
    → get old db ≡ some s
    → get old (reject fresh later (propose fresh text p now db).1).1 ≡ some s
unfolding propose check_text check_previous insert_statement
rejected_proposal fresh old text p now later db s unused found =
    let named = find-test (id_is old) db.memory_statements s found in
    let present = find-exists (id_is old) db.memory_statements in
    let apart : (old == fresh) ≡ false = elim (Bool-cases (old == fresh)) [
      | inl e ↦ absurd (
          let same : old ≡ fresh = ground arith in
          ground (arith, present, ap (λ k. exists (id_is k) db.memory_statements) same))
      | inr e ↦ e
    ] in
    let kept = reject_keeps fresh old later (propose fresh text p now db).1 apart in
    let last =
      find-append (id_is old) db.memory_statements (new_statement fresh (strip text) p now ∷ []) in
    ground (arith, kept, last)
