-- ===== src/Runtime/Commitments.antt =====
-- hermes_cloud/core/commitments.py: the commitments of a family as qualified statements. `fresh` is
-- what `new_id()` returns, and `now` the resolved time of the call.
pub mod Confirmation
pub mod Versions
use abrolia.Common.{
  ℕ, zero, suc, Bool, true, false, not, ◌&&◌, ◌||◌, Option, none, some, List, [], ◌∷◌, ◌++◌,
  if◌then◌else◌, ltb, leb, ◌==◌, same_option, coalesce, select, find, exists, update_where,
  count_where, first_by, order_by, take, reverse, Action, pure, raise, raise_if, gets, modify,
  write, ◌>>=◌, ◌>>◌,
}
use mathlib.Core.Option
use abrolia.Runtime.Schema.{
  Text, Time, Approval, ApprovalStatus, claimed, executing, done, Commitment, FactStatus, candidate,
  confirmed, rejected, superseded, Db, Error, integrity, commitment_error, refers, has_approval,
  has_run, has_reminder,
}

-- CLAIMED_STATUSES
abbrev pub is_claimed_status : ApprovalStatus → Bool
is_claimed_status claimed = true
is_claimed_status executing = true
is_claimed_status done = true
is_claimed_status _ = false

abbrev pub is_candidate : FactStatus → Bool
is_candidate candidate = true
is_candidate _ = false

abbrev pub is_confirmed : FactStatus → Bool
is_confirmed confirmed = true
is_confirmed _ = false

-- `Commitment.is_belief`
abbrev pub is_belief : Commitment → Bool
is_belief c = is_confirmed c.status

abbrev pub get : Text → Db → Option Commitment
get commitment_id db = find (λ c. c.id == commitment_id) db.commitments

abbrev pub new_commitment :
    Text → Text → Text → Option Text → Option ℕ → Option Time → Option Text → Time → Commitment
new_commitment fresh kind payload extraction_run_id confidence observed_at supersedes now = record {
  id = fresh;
  extraction_run_id = extraction_run_id;
  kind = kind;
  payload = payload;
  status = candidate;
  supersedes = supersedes;
  confidence = confidence;
  observed_at = observed_at;
  recorded_at = now;
  approval_id = none;
  reminder_id = none;
  calendar_event_id = none;
  updated_at = now;
}

abbrev pub superseded_row : Time → Commitment → Commitment
superseded_row now c = record c { status = superseded; updated_at = now }

-- The version that is replaced must be there, and is marked.
unfoldable pub supersede : Option Text → Time → Action Error Db (Unit {0})
supersede none now db = pure tt db
supersede (some k) now db =
    if exists (λ c. c.id == k) db.commitments
    then modify
        (λ db. record db {
          commitments = update_where (λ c. c.id == k) (superseded_row now) db.commitments;
        })
        db
    else raise commitment_error db

-- INSERT INTO commitments, with the primary key and the foreign keys.
unfoldable pub insert_commitment : Commitment → Action Error Db (Unit {0})
insert_commitment c db =
    if exists (λ r. r.id == c.id) db.commitments
      || (not (refers c.extraction_run_id (has_run db))
          || not (refers c.supersedes (λ k. exists (λ r. r.id == k) db.commitments)))
    then raise integrity db
    else modify (λ db. record db { commitments = db.commitments ++ c ∷ [] }) db

unfoldable pub propose :
    Text
    → Text
    → Text
    → Option Text
    → Option ℕ
    → Option Time
    → Option Text
    → Time
    → Action Error Db (Option Commitment)
propose fresh kind payload extraction_run_id confidence observed_at supersedes now = do
  write (
      supersede supersedes now
      >> insert_commitment (
          new_commitment fresh kind payload extraction_run_id confidence observed_at supersedes
            now))
  gets (get fresh)

abbrev pub is_candidate_as : Text → Commitment → Bool
is_candidate_as commitment_id c = c.id == commitment_id && is_candidate c.status

abbrev pub confirmed_row : Text → Time → Commitment → Commitment
confirmed_row approval_id now c = record c {
  status = confirmed;
  approval_id = some approval_id;
  updated_at = now;
}

-- The UPDATE of `confirm`, with its row count and the foreign key of `approval_id`.
unfoldable pub confirm_rows : Text → Text → Time → Action Error Db ℕ
confirm_rows commitment_id approval_id now db =
    let changed = count_where (is_candidate_as commitment_id) db.commitments in
    if ltb 0 changed && not (has_approval db approval_id)
    then raise integrity db
    else pure changed (record db {
      commitments =
          update_where (is_candidate_as commitment_id) (confirmed_row approval_id now)
            db.commitments;
    })

unfoldable pub confirm : Text → Approval → Time → Action Error Db (Option Commitment)
unfolding confirm_rows
confirm commitment_id approval now = do
  raise_if (not (is_claimed_status approval.status)) commitment_error
  changed ← write (confirm_rows commitment_id approval.id now)
  raise_if (changed == 0) commitment_error
  gets (get commitment_id)

abbrev pub rejected_row : Time → Commitment → Commitment
rejected_row now c = record c { status = rejected; updated_at = now }

unfoldable pub reject : Text → Time → Action Error Db Bool
reject commitment_id now db =
    pure (ltb 0 (count_where (is_candidate_as commitment_id) db.commitments)) (record db {
      commitments = update_where (is_candidate_as commitment_id) (rejected_row now) db.commitments;
    })

abbrev pub linked_row : Option Text → Option Text → Time → Commitment → Commitment
linked_row reminder_id calendar_event_id now c = record c {
  reminder_id = coalesce reminder_id c.reminder_id;
  calendar_event_id = coalesce calendar_event_id c.calendar_event_id;
  updated_at = now;
}

-- `link`, with the foreign key of `reminder_id`.
unfoldable pub link : Text → Option Text → Option Text → Time → Action Error Db (Unit {0})
link commitment_id reminder_id calendar_event_id now = do
  write (λ db.
      if exists (λ c. c.id == commitment_id) db.commitments
        && not (refers reminder_id (has_reminder db))
      then raise integrity db
      else modify
          (λ db. record db {
            commitments =
                update_where (λ c. c.id == commitment_id)
                  (linked_row reminder_id calendar_event_id now) db.commitments;
          })
          db)

abbrev recorded_first : Commitment → Commitment → Bool
recorded_first a b = leb a.recorded_at b.recorded_at

abbrev recorded_last : Commitment → Commitment → Bool
recorded_last a b = leb b.recorded_at a.recorded_at

unfoldable pub for_approval : Text → Db → Option Commitment
for_approval approval_id db =
    first_by recorded_first (λ c. same_option c.approval_id (some approval_id)) db.commitments

abbrev of_kind : Option Text → Commitment → Bool
of_kind none c = true
of_kind (some k) c = c.kind == k

-- `confirmed`
unfoldable pub confirmed_list : Option Text → ℕ → Db → List Commitment
confirmed_list kind limit db =
    take limit (
      order_by recorded_last (select (λ c. is_confirmed c.status && of_kind kind c) db.commitments))

unfoldable pub candidates : ℕ → Db → List Commitment
candidates limit db =
    take limit (order_by recorded_last (select (λ c. is_candidate c.status) db.commitments))

abbrev pub seen_before : List Text → Text → Bool
seen_before seen k = exists (λ j. j == k) seen

abbrev pub next_version : Option Text → Db → Option Commitment
next_version none db = none
next_version (some k) db = get k db

-- The loop of `chain`, newest version first; none where the fuel has run out.
unfoldable pub chain_loop : ℕ → Db → List Text → Option Commitment → Option (List Commitment)
chain_loop zero db seen current = none
chain_loop (suc fuel) db seen none = some []
chain_loop (suc fuel) db seen (some c) =
    let rest =
      Option.map (λ older. c ∷ older)
        (chain_loop fuel db (c.id ∷ seen) (next_version c.supersedes db)) in
    if seen_before seen c.id then some [] else rest

unfoldable pub chain : ℕ → Text → Db → Option (List Commitment)
unfolding chain_loop
chain fuel commitment_id db = Option.map reverse (chain_loop fuel db [] (get commitment_id db))
