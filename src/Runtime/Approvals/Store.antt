-- ===== src/Runtime/Approvals/Store.antt =====
-- `ApprovalStore`: the methods of the class, in the order of the source.
use abrolia.Common.{
  ℕ, ◌+◌, Bool, true, false, not, ◌&&◌, ◌||◌, Option, none, some, List, [], ◌∷◌, ◌++◌,
  if◌then◌else◌, ltb, leb, ◌==◌, same_option, coalesce, select, find, exists, update_where,
  count_where, order_by, Action, pure, raise, raise_if, gets, modify, or_raise, write, ◌>>=◌, ◌>>◌,
}
use abrolia.Runtime.Schema.{
  Text, Time, Approval, ApprovalStatus, staged, claimed, cancelled, expired, Attempt, Db, Error,
  integrity, assertion, rate_limited, payload_tampered, refers, has_event,
}
use abrolia.Runtime.Effects.{record_attempt, default_lease_seconds}
use abrolia.Runtime.Approvals.Code.{normalize, matches_code}

abbrev pub ttl_seconds : ℕ
ttl_seconds = 900

abbrev pub failed_window_seconds : ℕ
failed_window_seconds = 600

abbrev pub failed_max : ℕ
failed_max = 5

-- APPROVAL_TOOL_USE_ID, and the message of a tampered payload, as texts.
abbrev pub approval_tool_use_id : Text
approval_tool_use_id = 0

abbrev pub payload_changed : Text
payload_changed = 0

abbrev pub is_staged : ApprovalStatus → Bool
is_staged staged = true
is_staged _ = false

-- `payload_sha` (SHA-256 of the canonical JSON of a payload) and `_sha` (SHA-256 of a code).
pub record Digests : Type 0 where
  pub payload_sha : Text → Text
  pub sha : List ℕ → Text

-- `Staged`
pub record Staged : Type 0 where
  pub id : Text
  pub code : List ℕ
  pub expires_at : Time

abbrev pub get : Text → Db → Option Approval
get approval_id db = find (λ a. a.id == approval_id) db.approvals

abbrev pub new_approval :
    Digests
    → Text
    → List ℕ
    → Text
    → Text
    → Text
    → Text
    → Option Text
    → Option Text
    → Option Text
    → ℕ
    → Time
    → Approval
new_approval d fresh code kind payload chat actor thread context_key event_id ttl now = record {
  id = fresh;
  event_id = event_id;
  kind = kind;
  payload = payload;
  payload_sha = d.payload_sha payload;
  code_sha = d.sha code;
  chat = chat;
  thread = thread;
  context_key = context_key;
  actor = actor;
  claimed_by = none;
  status = staged;
  last_error = none;
  receipt = none;
  created_at = now;
  expires_at = now + ttl;
  updated_at = now;
}

-- `stage`; `code` is what `secrets.token_hex` returns.
unfoldable pub stage :
    Digests
    → Text
    → List ℕ
    → Text
    → Text
    → Text
    → Text
    → Option Text
    → Option Text
    → Option Text
    → ℕ
    → Time
    → Action Error Db Staged
stage d fresh code kind payload chat actor thread context_key event_id ttl now = do
  write (λ db.
      if exists (λ a. a.id == fresh) db.approvals || not (refers event_id (has_event db))
      then raise integrity db
      else modify
          (λ db. record db {
            approvals =
                db.approvals
                ++ new_approval d fresh code kind payload chat actor thread context_key event_id ttl
                    now
                  ∷ [];
          })
          db)
  pure (record { id = fresh; code = code; expires_at = now + ttl })

-- `attempted_at > now - FAILED_WINDOW_SECONDS`, of this actor in this chat.
abbrev pub is_failure : Text → Text → Time → Attempt → Bool
is_failure actor chat now t =
    t.actor == actor && t.chat == chat && ltb now (t.attempted_at + failed_window_seconds)

abbrev pub failed_attempts : Text → Text → Time → Db → ℕ
failed_attempts actor chat now db = count_where (is_failure actor chat now) db.approval_attempts

abbrev pub guard_rate_limit : Text → Text → Time → Action Error Db (Unit {0})
guard_rate_limit actor chat now db =
    raise_if (leb failed_max (failed_attempts actor chat now db)) rate_limited db

abbrev pub failure : Text → Text → Text → Time → Attempt
failure fresh actor chat now = record { id = fresh; actor = actor; chat = chat; attempted_at = now }

-- The INSERT of `_record_failure`.
abbrev pub record_failure : Text → Text → Text → Time → Action Error Db (Unit {0})
record_failure fresh actor chat now db =
    if exists (λ t. t.id == fresh) db.approval_attempts
    then raise integrity db
    else modify
        (λ db. record db {
          approval_attempts = db.approval_attempts ++ failure fresh actor chat now ∷ [];
        })
        db

abbrev pub expired_row : Time → Approval → Approval
expired_row now a = record a { status = expired; updated_at = now }

abbrev pub tampered_row : Time → Approval → Approval
tampered_row now a = record a {
  status = ApprovalStatus.failed;
  last_error = some payload_changed;
  updated_at = now;
}

abbrev pub claimed_row : Text → Time → Approval → Approval
claimed_row actor now a = record a { status = claimed; claimed_by = some actor; updated_at = now }

-- UPDATE approvals SET f WHERE id = approval_id
abbrev pub update_approval : Text → (Approval → Approval) → Action Error Db (Unit {0})
update_approval approval_id f =
    modify (λ db. record db { approvals = update_where (λ a. a.id == approval_id) f db.approvals })

-- The transaction of `_claim_where` once its SELECT has answered. It returns the id of the
-- approval that it has claimed.
unfoldable pub claim_row :
    Digests → Text → Text → Text → Text → Time → Option Approval → Action Error Db (Option Text)
claim_row d fresh_attempt fresh_effect chat actor now none = do
  record_failure fresh_attempt actor chat now
  pure none
claim_row d fresh_attempt fresh_effect chat actor now (some row) =
    if leb row.expires_at now
    then update_approval row.id (expired_row now) >> pure none
    else if not (d.payload_sha row.payload == row.payload_sha)
    then update_approval row.id (tampered_row now) >> raise (payload_tampered row.id)
    else do
      update_approval row.id (claimed_row actor now)
      record_attempt fresh_effect row.id approval_tool_use_id row.kind (some row.id)
          (some row.payload_sha) now default_lease_seconds
      pure (some row.id)

-- The WHERE clause of `_claim_where`.
abbrev pub is_claimable : (Approval → Bool) → Text → Option Text → Approval → Bool
is_claimable predicate chat thread a =
    predicate a && is_staged a.status && a.chat == chat && same_option a.thread thread

-- What `_claim_where` returns after its transaction.
unfoldable pub claim_result : Option Text → Action Error Db (Option Approval)
claim_result none = pure none
claim_result (some approval_id) = do
  approval ← or_raise (← gets (get approval_id)) assertion
  pure (some approval)

unfoldable pub claim_where :
    Digests
    → Text
    → Text
    → (Approval → Bool)
    → Text
    → Option Text
    → Text
    → Time
    → Action Error Db (Option Approval)
unfolding claim_row claim_result
claim_where d fresh_attempt fresh_effect predicate chat thread actor now = do
  outcome ← write (λ db.
      claim_row d fresh_attempt fresh_effect chat actor now
        (find (is_claimable predicate chat thread) db.approvals) db)
  claim_result outcome

-- `claim`, by the code that the person typed.
unfoldable pub claim :
    Digests
    → Text
    → Text
    → List ℕ
    → Text
    → Option Text
    → Text
    → Time
    → Action Error Db (Option Approval)
claim d fresh_attempt fresh_effect code chat thread actor now = do
  guard_rate_limit actor chat now
  if matches_code (normalize code)
      then claim_where d fresh_attempt fresh_effect (λ a. a.code_sha == d.sha (normalize code)) chat
          thread actor now
      else write (record_failure fresh_attempt actor chat now) >> pure none

-- `claim_by_id`, by the button of the card.
unfoldable pub claim_by_id :
    Digests
    → Text
    → Text
    → Text
    → Text
    → Option Text
    → Text
    → Time
    → Action Error Db (Option Approval)
claim_by_id d fresh_attempt fresh_effect approval_id chat thread actor now = do
  guard_rate_limit actor chat now
  claim_where d fresh_attempt fresh_effect (λ a. a.id == approval_id) chat thread actor now

abbrev pub marked_row : ApprovalStatus → Option Text → Option Text → Time → Approval → Approval
marked_row status receipt error now a = record a {
  status = status;
  receipt = coalesce receipt a.receipt;
  last_error = error;
  updated_at = now;
}

unfoldable pub mark : Text → ApprovalStatus → Option Text → Option Text → Time → Db → Db
mark approval_id status receipt error now db = record db {
  approvals =
      update_where (λ a. a.id == approval_id) (marked_row status receipt error now) db.approvals;
}

abbrev pub cancelled_row : Time → Approval → Approval
cancelled_row now a = record a { status = cancelled; updated_at = now }

abbrev pub is_staged_as : Text → Approval → Bool
is_staged_as approval_id a = a.id == approval_id && is_staged a.status

unfoldable pub cancel : Text → Time → Action Error Db Bool
cancel approval_id now db =
    pure (ltb 0 (count_where (is_staged_as approval_id) db.approvals)) (record db {
      approvals = update_where (is_staged_as approval_id) (cancelled_row now) db.approvals;
    })

abbrev earlier : Approval → Approval → Bool
earlier a b = leb a.created_at b.created_at

abbrev pub is_pending_in : Text → Option Text → Time → Approval → Bool
is_pending_in chat thread now a =
    a.chat == chat && same_option a.thread thread && is_staged a.status && ltb now a.expires_at

unfoldable pub pending_for : Text → Option Text → Time → Db → List Approval
pending_for chat thread now db =
    order_by earlier (select (is_pending_in chat thread now) db.approvals)

abbrev pub is_overdue : Time → Approval → Bool
is_overdue now a = is_staged a.status && leb a.expires_at now

unfoldable pub expire_stale : Time → Action Error Db ℕ
expire_stale now db =
    pure (count_where (is_overdue now) db.approvals)
      (record db { approvals = update_where (is_overdue now) (expired_row now) db.approvals })
