-- ===== src/Runtime/Memory.antt =====
-- hermes_cloud/core/memory.py: what the family remembers, as versioned statements. `fresh` is what
-- `new_id()` returns, and `now` the resolved time of the call.
pub mod Remembering
use abrolia.Common.{
  ℕ, zero, suc, Bool, true, false, not, ◌&&◌, ◌||◌, Option, none, some, List, [], ◌∷◌, ◌++◌,
  if◌then◌else◌, ltb, leb, ◌==◌, is_some, is_none, at_most, after, select, find, exists,
  update_where, count_where, order_by, take, reverse, length, Action, pure, raise, raise_if, gets,
  modify, or_raise, write, ◌>>=◌, ◌>>◌,
}
use mathlib.Core.Option
use abrolia.Runtime.Schema.{
  Text, Time, Approval, Statement, StatementKind, fact, routine, preference, FactStatus, candidate,
  confirmed, rejected, superseded, Db, Error, integrity, commitment_error, refers, has_approval,
  has_run,
}
use abrolia.Runtime.Approvals.Code.{strip}
use abrolia.Runtime.Commitments.{is_claimed_status, is_candidate, is_confirmed, seen_before}

-- MAX_TEXT
abbrev pub max_text : ℕ
max_text = 500

-- TIMED_KINDS
abbrev pub is_timed : StatementKind → Bool
is_timed routine = true
is_timed preference = true
is_timed fact = false

abbrev pub get : Text → Db → Option Statement
get statement_id db = find (λ s. s.id == statement_id) db.memory_statements

-- The arguments of `propose` that go into the row as they are.
pub record Proposal : Type 0 where
  pub kind : StatementKind
  pub subject : Option Text
  pub actor : Option Text
  pub extraction_run_id : Option Text
  pub supersedes : Option Text
  pub observed_at : Option Time
  pub valid_from : Option Time
  pub valid_to : Option Time

abbrev pub new_statement : Text → List ℕ → Proposal → Time → Statement
new_statement fresh text p now = record {
  id = fresh;
  kind = p.kind;
  subject = p.subject;
  text = text;
  status = candidate;
  supersedes = p.supersedes;
  extraction_run_id = p.extraction_run_id;
  actor = p.actor;
  approval_id = none;
  observed_at = p.observed_at;
  recorded_at = now;
  valid_from = p.valid_from;
  valid_to = p.valid_to;
  updated_at = now;
}

abbrev pub has_statement : Db → Text → Bool
has_statement db k = exists (λ s. s.id == k) db.memory_statements

-- INSERT INTO memory_statements, with the primary key and the foreign keys.
unfoldable pub insert_statement : Statement → Action Error Db (Unit {0})
insert_statement s db =
    if has_statement db s.id
      || (not (refers s.extraction_run_id (has_run db))
          || not (refers s.supersedes (has_statement db)))
    then raise integrity db
    else modify (λ db. record db { memory_statements = db.memory_statements ++ s ∷ [] }) db

-- The version that is replaced must be there; it is left as it is.
unfoldable pub check_previous : Option Text → Action Error Db (Unit {0})
check_previous supersedes db =
    raise_if (not (refers supersedes (has_statement db))) commitment_error db

-- The tests of `propose` on its arguments, before the transaction.
unfoldable pub check_text : List ℕ → Proposal → Action Error Db (Unit {0})
check_text text p = do
  raise_if (length text == 0) commitment_error
  raise_if (ltb max_text (length text)) commitment_error
  raise_if (not (is_timed p.kind) && (is_some p.valid_from || is_some p.valid_to)) commitment_error

unfoldable pub propose : Text → List ℕ → Proposal → Time → Action Error Db (Option Statement)
unfolding strip
propose fresh text p now = do
  check_text (strip text) p
  write (check_previous p.supersedes >> insert_statement (new_statement fresh (strip text) p now))
  gets (get fresh)

abbrev pub is_candidate_as : Text → Statement → Bool
is_candidate_as statement_id s = s.id == statement_id && is_candidate s.status

abbrev pub confirmed_row : Text → Time → Statement → Statement
confirmed_row approval_id now s = record s {
  status = confirmed;
  approval_id = some approval_id;
  updated_at = now;
}

abbrev pub superseded_row : Time → Statement → Statement
superseded_row now s = record s { status = superseded; updated_at = now }

-- The first UPDATE of `confirm`, with the foreign key of `approval_id`.
unfoldable pub confirm_statement : Text → Text → Time → Action Error Db (Unit {0})
confirm_statement statement_id approval_id now db =
    if not (has_approval db approval_id)
    then raise integrity db
    else modify
        (λ db. record db {
          memory_statements =
              update_where (λ s. s.id == statement_id) (confirmed_row approval_id now)
                db.memory_statements;
        })
        db

-- The second UPDATE of `confirm`.
unfoldable pub supersede : Option Text → Time → Action Error Db (Unit {0})
supersede none now db = pure tt db
supersede (some k) now db =
    modify
      (λ db. record db {
        memory_statements = update_where (λ s. s.id == k) (superseded_row now) db.memory_statements;
      })
      db

unfoldable pub confirm : Text → Approval → Time → Action Error Db (Option Statement)
confirm statement_id approval now = do
  raise_if (not (is_claimed_status approval.status)) commitment_error
  write (do
    row ← gets (λ db. find (is_candidate_as statement_id) db.memory_statements)
    row ← or_raise row commitment_error
    confirm_statement statement_id approval.id now
    supersede row.supersedes now)
  gets (get statement_id)

abbrev pub rejected_row : Time → Statement → Statement
rejected_row now s = record s { status = rejected; updated_at = now }

unfoldable pub reject : Text → Time → Action Error Db Bool
reject statement_id now db =
    pure (ltb 0 (count_where (is_candidate_as statement_id) db.memory_statements)) (record db {
      memory_statements =
          update_where (is_candidate_as statement_id) (rejected_row now) db.memory_statements;
    })

abbrev pub same_kind : StatementKind → StatementKind → Bool
same_kind fact fact = true
same_kind routine routine = true
same_kind preference preference = true
same_kind _ _ = false

abbrev pub of_kind : Option StatementKind → Statement → Bool
of_kind none s = true
of_kind (some k) s = same_kind k s.kind

-- NULL in `valid_from` or `valid_to` is no bound.
abbrev pub is_current : Time → Statement → Bool
is_current now s =
    (is_none s.valid_from || at_most s.valid_from now)
    && (is_none s.valid_to || after s.valid_to now)

abbrev recorded_last : Statement → Statement → Bool
recorded_last a b = leb b.recorded_at a.recorded_at

-- SQLite's LIKE is the parameter `like`: a needle, then the text or the subject.
module _ (like : List ℕ → Statement → Bool) where
  -- `if query:` leaves an empty query out.
  abbrev pub matches : Option (List ℕ) → Statement → Bool
  unfolding strip
  matches none s = true
  matches (some query) s = if length query == 0 then true else like (strip query) s

  abbrev pub is_recalled : Option (List ℕ) → Option StatementKind → Time → Statement → Bool
  is_recalled query kind now s =
      is_confirmed s.status && (is_current now s && (of_kind kind s && matches query s))

  unfoldable pub recall : Option (List ℕ) → Option StatementKind → ℕ → Time → Db → List Statement
  recall query kind limit now db =
      take limit (order_by recorded_last (select (is_recalled query kind now) db.memory_statements))
