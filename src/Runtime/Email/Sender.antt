-- ===== src/Runtime/Email/Sender.antt =====
-- `EmailSender` of hermes_cloud/execute/email_send.py. The backend, the email library and SHA-256 are
-- parameters; `enabled` is the kill switch HERMES_EMAIL_SEND as it is read at the call.
use abrolia.Common.{
  ℕ, Bool, true, false, not, ◌&&◌, ◌||◌, Option, none, some, [], ◌∷◌, ◌++◌, if◌then◌else◌, ◌==◌,
  Result, ok, err, Action, pure, raise_if, or_raise, ◌>>=◌, ◌>>◌,
}
use abrolia.Runtime.Schema.{Text, Time}
use abrolia.Runtime.Email.Letter.{Outgoing, validate}
use abrolia.Runtime.Email.Receipts.{
  EmailBinding, Status, pending, accepted, failed, outcome_unknown, EmailDeliveryReceipt, MailDb,
  MailError, egress_blocked, binding_changed, rejected, outcome_unknown_error, value_error,
  transport, require_current, begin, settle, get,
}

-- `EmailSendRequest`
pub record Request : Type 0 where
  pub effect_id : Text
  pub approval_id : Text
  pub binding : EmailBinding
  pub message_id : Text
  pub mime_bytes : Text
  pub request_sha256 : Text

-- What a call of a backend does: return, raise EmailOutcomeUnknown, or raise another exception.
pub data Reply : Type 0 where
  replied : EmailDeliveryReceipt → Reply
  unknown : Reply
  failure : Text → Reply

-- A backend, with whether it has `provider`, and whether it has `reconcile` and offers it.
pub record Backend : Type 0 where
  pub has_provider : Bool
  pub reconciles : Bool
  pub send : Request → Reply
  pub reconcile : Request → Reply

-- `EmailSender`. `build` is the bytes of the message for a letter, a sender's address and an effect
-- id, none where the email library refuses a header.
pub record Sender : Type 0 where
  pub backend : Backend
  pub binding : EmailBinding
  pub has_binding_store : Bool
  pub has_send_store : Bool
  pub casefold : Text → Text
  pub build : Outgoing → Text → Text → Option Text
  pub sha256 : Text → Text
  pub message_id_for : Text → Text

-- `x or y` on an optional text or number.
abbrev pub or_default : Option ℕ → ℕ → ℕ
or_default none d = d
or_default (some a) d = if a == 0 then d else a

unfoldable pub resolve_binding : Sender → Outgoing → Action MailError MailDb EmailBinding
resolve_binding w letter =
    let identity_id = or_default letter.from_identity_id w.binding.identity_id in
    let revision = or_default letter.binding_revision w.binding.revision in
    if w.has_binding_store
    then require_current identity_id revision
    else raise_if
        (not (identity_id == w.binding.identity_id) || not (revision == w.binding.revision))
        binding_changed
      >> pure w.binding

abbrev pub is_retired : Sender → Option Text → EmailBinding → Bool
is_retired w none b = false
is_retired w (some a) b = not (a == 0) && not (w.casefold a == w.casefold b.address)

abbrev pub request_of : Sender → Text → Text → EmailBinding → Text → Request
request_of w effect_id approval_id b raw = record {
  effect_id = effect_id;
  approval_id = approval_id;
  binding = b;
  message_id = w.message_id_for effect_id;
  mime_bytes = raw;
  request_sha256 = w.sha256 raw;
}

-- `send` up to the store of sends: nothing is written.
unfoldable pub prepare : Sender → Bool → Outgoing → Text → Text → Action MailError MailDb Request
unfolding resolve_binding
prepare w enabled letter approval_id effect_id = do
  raise_if (not enabled) egress_blocked
  b ← resolve_binding w letter
  raise_if (is_retired w letter.from_address b) binding_changed
  raise_if (not (validate letter)) rejected
  raw ← or_raise (w.build letter b.address effect_id) value_error
  pure (request_of w effect_id approval_id b raw)

abbrev pub receipt_of : Request → Option Time → Status → EmailDeliveryReceipt
receipt_of q accepted_at status = record {
  effect_id = q.effect_id;
  approval_id = q.approval_id;
  message_id = q.message_id;
  provider_ref = none;
  accepted_at = accepted_at;
  status = status;
}

abbrev pub is_mismatched : Request → EmailDeliveryReceipt → Bool
is_mismatched q r =
    not (r.effect_id == q.effect_id)
    || (not (r.approval_id == q.approval_id) || not (r.message_id == q.message_id))

abbrev pub is_accepted : Status → Bool
is_accepted accepted = true
is_accepted _ = false

-- `if self.send_store is not None: self.send_store.settle(…)`, and then the end of `send`.
unfoldable pub close :
    Sender
    → EmailDeliveryReceipt
    → Time
    → Result MailError EmailDeliveryReceipt
    → MailDb
    → Result MailError EmailDeliveryReceipt × MailDb
close w receipt now result db = (result, if w.has_send_store then settle receipt now db else db)

-- The return or exception by the status of a receipt.
abbrev pub verdict : EmailDeliveryReceipt → Status → Result MailError EmailDeliveryReceipt
verdict r accepted = ok r
verdict r outcome_unknown = err outcome_unknown_error
verdict r _ = err rejected

abbrev pub can_reconcile : Sender → Bool
can_reconcile w = w.backend.has_provider && w.backend.reconciles

-- A send that was interrupted before its receipt, with the answer of `reconcile`.
unfoldable pub reconciled :
    Sender → Request → Reply → Time → MailDb → Result MailError EmailDeliveryReceipt × MailDb
unfolding close
reconciled w q unknown now =
    close w (receipt_of q none outcome_unknown) now (err outcome_unknown_error)
reconciled w q (failure e) now =
    close w (receipt_of q none outcome_unknown) now (err outcome_unknown_error)
reconciled w q (replied r) now =
    if is_mismatched q r
    then close w (receipt_of q none failed) now (err rejected)
    else close w r now (verdict r r.status)

unfoldable pub interrupted :
    Sender → Request → Time → MailDb → Result MailError EmailDeliveryReceipt × MailDb
unfolding reconciled close
interrupted w q now =
    if can_reconcile w
    then reconciled w q (w.backend.reconcile q) now
    else close w (receipt_of q none outcome_unknown) now (err outcome_unknown_error)

-- The body of the `try` of `send`: a receipt, EmailOutcomeUnknown, or another exception.
pub data Attempt : Type 0 where
  good : EmailDeliveryReceipt → Attempt
  lost : Attempt
  bad : MailError → Attempt

abbrev pub provider_attempt : EmailDeliveryReceipt → Status → Attempt
provider_attempt r accepted = good r
provider_attempt r outcome_unknown = lost
provider_attempt r _ = bad rejected

unfoldable pub attempt : Sender → Request → Time → Reply → Attempt
attempt w q now unknown = lost
attempt w q now (failure e) = bad (transport e)
attempt w q now (replied r) =
    if w.backend.has_provider
    then (if is_mismatched q r then bad rejected else provider_attempt r r.status)
    else good (receipt_of q (some now) accepted)

-- `reconcile` after a send whose outcome is unknown: only an exact accepted receipt counts.
unfoldable pub recovered :
    Sender → Request → Reply → Time → MailDb → Result MailError EmailDeliveryReceipt × MailDb
unfolding close
recovered w q (replied r) now =
    if is_mismatched q r || not (is_accepted r.status)
    then close w (receipt_of q none outcome_unknown) now (err outcome_unknown_error)
    else close w r now (ok r)
recovered w q _ now = close w (receipt_of q none outcome_unknown) now (err outcome_unknown_error)

unfoldable pub concluded :
    Sender → Request → Attempt → Time → MailDb → Result MailError EmailDeliveryReceipt × MailDb
unfolding close recovered
concluded w q (good r) now = close w r now (ok r)
concluded w q (bad e) now = close w (receipt_of q none failed) now (err e)
concluded w q lost now =
    if can_reconcile w
    then recovered w q (w.backend.reconcile q) now
    else close w (receipt_of q none outcome_unknown) now (err outcome_unknown_error)

-- The call of the backend.
abbrev pub post : Request → MailDb → MailDb
post q db = record db { posted = db.posted ++ q.effect_id ∷ [] }

unfoldable pub transmit :
    Sender → Request → Time → MailDb → Result MailError EmailDeliveryReceipt × MailDb
unfolding attempt concluded
transmit w q now db = concluded w q (attempt w q now (w.backend.send q)) now (post q db)

abbrev pub is_pending : Status → Bool
is_pending pending = true
is_pending _ = false

-- A row that was there before, with its receipt.
unfoldable pub resume :
    Sender
    → Request
    → Status
    → Option EmailDeliveryReceipt
    → Time
    → MailDb
    → Result MailError EmailDeliveryReceipt × MailDb
unfolding interrupted transmit
resume w q previous (some r) now db = (verdict r r.status, db)
resume w q previous none now db =
    if is_pending previous then interrupted w q now db else transmit w q now db

unfoldable pub begun :
    Sender
    → Request
    → Time
    → Result MailError (Status × Bool) × MailDb
    → Result MailError EmailDeliveryReceipt × MailDb
unfolding resume transmit
begun w q now (err e, db) = (err e, db)
begun w q now (ok (previous, true), db) = transmit w q now db
begun w q now (ok (previous, false), db) = resume w q previous (get q.effect_id db) now db

unfoldable pub dispatch :
    Sender → Request → Time → MailDb → Result MailError EmailDeliveryReceipt × MailDb
unfolding begun transmit
dispatch w q now db =
    if w.has_send_store
    then begun w q now
        (begin q.effect_id q.approval_id q.binding q.request_sha256 q.message_id now db)
    else transmit w q now db

-- `send`; an effect id that is missing or empty is the approval id.
unfoldable pub send :
    Sender
    → Bool
    → Outgoing
    → Text
    → Option Text
    → Time
    → Action MailError MailDb EmailDeliveryReceipt
unfolding prepare dispatch
send w enabled letter approval_id effect_id now = do
  q ← prepare w enabled letter approval_id (or_default effect_id approval_id)
  dispatch w q now

-- A process that ends inside `send`, after `begin` has committed and before an outcome is stored. It
-- had asked the backend for the letter, or not yet; where `send` asks no backend, nothing is left.
unfoldable pub post_cut : Bool → Request → MailDb → MailDb
post_cut asked q db = if asked then post q db else db

unfoldable pub resume_cut : Bool → Request → Status → Option EmailDeliveryReceipt → MailDb → MailDb
unfolding post_cut
resume_cut asked q previous (some r) db = db
resume_cut asked q previous none db = if is_pending previous then db else post_cut asked q db

unfoldable pub begun_cut : Bool → Request → Result MailError (Status × Bool) × MailDb → MailDb
unfolding resume_cut post_cut
begun_cut asked q (err e, db) = db
begun_cut asked q (ok (previous, true), db) = post_cut asked q db
begun_cut asked q (ok (previous, false), db) = resume_cut asked q previous (get q.effect_id db) db

unfoldable pub dispatch_cut :
    Sender → Bool → Request → Time → MailDb → Result MailError (Unit {0}) × MailDb
unfolding begun_cut post_cut
dispatch_cut w asked q now db = (
  ok tt,
  if w.has_send_store
      then begun_cut asked q
          (begin q.effect_id q.approval_id q.binding q.request_sha256 q.message_id now db)
      else post_cut asked q db,
)

-- `send`, cut off so.
unfoldable pub send_cut :
    Sender → Bool → Bool → Outgoing → Text → Option Text → Time → Action MailError MailDb (Unit {0})
unfolding prepare dispatch_cut
send_cut w asked enabled letter approval_id effect_id now = do
  q ← prepare w enabled letter approval_id (or_default effect_id approval_id)
  dispatch_cut w asked q now

-- NOTICE_APPROVAL_ID is the parameter `system_notice`.
unfoldable pub send_notice :
    Sender → Bool → Text → Outgoing → Text → Time → Action MailError MailDb EmailDeliveryReceipt
unfolding send
send_notice w enabled system_notice letter notice_id now =
    send w enabled letter system_notice (some notice_id) now
