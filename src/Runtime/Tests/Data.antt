-- ===== src/Runtime/Tests/Data.antt =====
-- Concrete rows and databases for the tests.
use abrolia.Common.{ℕ, none, some, [], ◌∷◌, length}
use abrolia.Runtime.Schema.{Db, Approval, staged, Attempt}
use abrolia.Runtime.Approvals.Store.{Digests}

abbrev pub empty_db : Db
empty_db = record {
  events = [];
  effects = [];
  approvals = [];
  approval_attempts = [];
  commitments = [];
  memory_statements = [];
  reminders = [];
  extraction_runs = [];
  household_deleted_at = none;
}

-- The digest of a payload is its number, and that of a code its length.
abbrev pub digests : Digests
digests = record { payload_sha = λ p. p; sha = λ cs. length cs }

abbrev pub card : Approval
card = record {
  id = 7;
  event_id = none;
  kind = 1;
  payload = 44;
  payload_sha = 44;
  code_sha = 16;
  chat = 2;
  thread = some 3;
  context_key = none;
  actor = 5;
  claimed_by = none;
  status = staged;
  last_error = none;
  receipt = none;
  created_at = 100;
  expires_at = 1000;
  updated_at = 100;
}

abbrev pub card_db : Db
card_db = record empty_db { approvals = card ∷ [] }

-- The same card with another payload behind it.
abbrev pub changed_card : Approval
changed_card = record card { payload = 45 }

abbrev pub changed_db : Db
changed_db = record empty_db { approvals = changed_card ∷ [] }

abbrev pub failure_at : ℕ → ℕ → Attempt
failure_at k t = record { id = k; actor = 5; chat = 2; attempted_at = t }

abbrev pub limited_db : Db
limited_db = record card_db {
  approval_attempts =
      failure_at 1 100
      ∷ failure_at 2 101
      ∷ failure_at 3 102
      ∷ failure_at 4 103
      ∷ failure_at 5 104
      ∷ [];
}
