-- ===== src/Runtime/Schema.antt =====
-- The household's database (hermes_cloud/core/db.py and the tables of core/migrations): its rows,
-- the status columns as enumerations, and the exceptions that the stores raise. Identifiers and
-- texts that the code only stores and compares are numbers; so are times.
use abrolia.Common.{ℕ, Bool, true, Option, none, some, List, exists, ◌==◌}

abbrev pub Text : Type 0
Text = ℕ

abbrev pub Time : Type 0
Time = ℕ

pub data EffectStatus : Type 0 where
  pending done failed outcome_unknown : EffectStatus

-- `Effect`, and a row of the table `effects`.
pub record Effect : Type 0 where
  pub id : Text
  pub run_id : Text
  pub tool_use_id : Text
  pub kind : Text
  pub approval_id : Option Text
  pub payload_sha : Option Text
  pub status : EffectStatus
  pub result : Option Text
  pub error : Option Text
  pub attempts : ℕ
  pub lease_until : Option Time
  pub created_at : Time
  pub updated_at : Time

pub data ApprovalStatus : Type 0 where
  staged claimed executing done failed cancelled expired : ApprovalStatus

-- A row of the table `approvals`; the class `Approval` has these columns but the two digests.
pub record Approval : Type 0 where
  pub id : Text
  pub event_id : Option Text
  pub kind : Text
  pub payload : Text
  pub payload_sha : Text
  pub code_sha : Text
  pub chat : Text
  pub thread : Option Text
  pub context_key : Option Text
  pub actor : Text
  pub claimed_by : Option Text
  pub status : ApprovalStatus
  pub last_error : Option Text
  pub receipt : Option Text
  pub created_at : Time
  pub expires_at : Time
  pub updated_at : Time

-- A row of the table `approval_attempts`.
pub record Attempt : Type 0 where
  pub id : Text
  pub actor : Text
  pub chat : Text
  pub attempted_at : Time

pub data EventStatus : Type 0 where
  received processing done failed dlq : EventStatus

-- `Event`, and a row of the table `events`. An error's text is the list of its characters.
pub record Event : Type 0 where
  pub id : Text
  pub source : Text
  pub external_id : Text
  pub context_key : Option Text
  pub raw : Text
  pub received_at : Time
  pub status : EventStatus
  pub attempts : ℕ
  pub lease_until : Option Time
  pub leased_by : Option Text
  pub last_error : Option (List ℕ)
  pub updated_at : Time

pub data FactStatus : Type 0 where
  candidate confirmed rejected superseded : FactStatus

-- `Commitment`, and a row of the table `commitments`.
pub record Commitment : Type 0 where
  pub id : Text
  pub extraction_run_id : Option Text
  pub kind : Text
  pub payload : Text
  pub status : FactStatus
  pub supersedes : Option Text
  pub confidence : Option ℕ
  pub observed_at : Option Time
  pub recorded_at : Time
  pub approval_id : Option Text
  pub reminder_id : Option Text
  pub calendar_event_id : Option Text
  pub updated_at : Time

pub data StatementKind : Type 0 where
  fact routine preference : StatementKind

-- `Statement`, and a row of the table `memory_statements`. A text is the list of its characters.
pub record Statement : Type 0 where
  pub id : Text
  pub kind : StatementKind
  pub subject : Option Text
  pub text : List ℕ
  pub status : FactStatus
  pub supersedes : Option Text
  pub extraction_run_id : Option Text
  pub actor : Option Text
  pub approval_id : Option Text
  pub observed_at : Option Time
  pub recorded_at : Time
  pub valid_from : Option Time
  pub valid_to : Option Time
  pub updated_at : Time

pub data ReminderStatus : Type 0 where
  pending delivering done cancelled : ReminderStatus

-- A row of the table `reminders`; the class `Reminder` has its first columns.
pub record Reminder : Type 0 where
  pub id : Text
  pub approval_id : Option Text
  pub chat : Text
  pub thread : Option Text
  pub text : Text
  pub due_at : Time
  pub status : ReminderStatus
  pub lease_until : Option Time
  pub attempts : ℕ
  pub created_at : Time
  pub updated_at : Time

-- The tables. `extraction_runs` is kept as the ids that other tables refer to, and
-- `household_deleted_at` is the one row of `channel_state` that these stores read.
pub record Db : Type 0 where
  pub events : List Event
  pub effects : List Effect
  pub approvals : List Approval
  pub approval_attempts : List Attempt
  pub commitments : List Commitment
  pub memory_statements : List Statement
  pub reminders : List Reminder
  pub extraction_runs : List Text
  pub household_deleted_at : Option Time

-- The exceptions; `integrity` is the database's own refusal of a duplicate or dangling key.
pub data Error : Type 0 where
  integrity assertion rate_limited household_deleted : Error
  payload_tampered key_error : Text → Error
  effect_in_flight : Effect → Error
  commitment_error : Error

-- A foreign key column: NULL, or the id of a row that is there.
abbrev pub refers : Option Text → (Text → Bool) → Bool
refers none known = true
refers (some k) known = known k

abbrev pub has_approval : Db → Text → Bool
has_approval db k = exists (λ a. a.id == k) db.approvals

abbrev pub has_event : Db → Text → Bool
has_event db k = exists (λ e. e.id == k) db.events

abbrev pub has_run : Db → Text → Bool
has_run db k = exists (λ r. r == k) db.extraction_runs

abbrev pub has_reminder : Db → Text → Bool
has_reminder db k = exists (λ r. r.id == k) db.reminders
