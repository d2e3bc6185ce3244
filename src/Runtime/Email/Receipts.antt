-- ===== src/Runtime/Email/Receipts.antt =====
-- hermes_cloud/email/receipts.py: the bindings of the household's address, the sends and their
-- receipts. Beside the tables stands the list of the effect ids for which a backend was asked to send,
-- so that theorems can speak of it. `casefold` is the library's.
use abrolia.Common.{
  ℕ, Bool, true, false, not, ◌&&◌, ◌||◌, Option, none, some, List, [], ◌∷◌, ◌++◌, if◌then◌else◌,
  ltb, ◌==◌, same_option, find, exists, update_where, Action, pure, raise, raise_if, gets, modify,
  or_raise, write, ◌>>=◌, ◌>>◌,
}
use abrolia.Runtime.Schema.{Text, Time}

-- `EmailBinding`; an address is known by its id, and an empty text is 0.
pub record EmailBinding : Type 0 where
  pub identity_id : Text
  pub revision : ℕ
  pub provider : Text
  pub address : Text
  pub provider_ref : Option Text
  pub secret_names : Text

pub data BindingState : Type 0 where
  active superseded : BindingState

-- A row of `email_bindings`.
pub record BindingRow : Type 0 where
  pub binding : EmailBinding
  pub state : BindingState
  pub activated_at : Time
  pub updated_at : Time

-- `status` of a receipt and `state` of a send; a provider may answer with another word.
pub data Status : Type 0 where
  pending accepted failed outcome_unknown : Status
  other : Text → Status

-- `EmailDeliveryReceipt`, and the columns of `email_delivery_receipts` that it is read from; the
-- times of its row are left out.
pub record EmailDeliveryReceipt : Type 0 where
  pub effect_id : Text
  pub approval_id : Text
  pub message_id : Text
  pub provider_ref : Option Text
  pub accepted_at : Option Time
  pub status : Status

-- A row of `email_sends`, less the columns that nothing reads back: the error code and the
-- idempotency key, which is the effect id again.
pub record SendRow : Type 0 where
  pub effect_id : Text
  pub approval_id : Text
  pub binding_identity_id : Text
  pub binding_revision : ℕ
  pub request_sha256 : Text
  pub state : Status
  pub message_id : Text
  pub provider_ref : Option Text
  pub created_at : Time
  pub updated_at : Time

pub record MailDb : Type 0 where
  pub email_bindings : List BindingRow
  pub email_sends : List SendRow
  pub email_delivery_receipts : List EmailDeliveryReceipt
  pub posted : List Text

-- The exceptions; `transport` is any exception of a backend but EmailOutcomeUnknown.
pub data MailError : Type 0 where
  egress_blocked binding_changed rejected outcome_unknown_error value_error : MailError
  transport : Text → MailError

abbrev pub is_active : BindingState → Bool
is_active active = true
is_active superseded = false

abbrev pub is_binding : Text → ℕ → BindingRow → Bool
is_binding identity_id revision r =
    r.binding.identity_id == identity_id && r.binding.revision == revision

abbrev pub is_other_active : Text → ℕ → BindingRow → Bool
is_other_active identity_id revision r =
    is_active r.state && not (is_binding identity_id revision r)

abbrev pub superseded_row : Time → BindingRow → BindingRow
superseded_row now r = record r { state = superseded; updated_at = now }

abbrev pub active_row : Time → BindingRow → BindingRow
active_row now r = record r { state = active; updated_at = now }

module _ (casefold : Text → Text) (has_at : Text → Bool) where
  abbrev pub differs : EmailBinding → EmailBinding → Bool
  differs existing b =
      not (existing.provider == b.provider)
      || (not (casefold existing.address == casefold b.address)
          || (not (same_option existing.provider_ref b.provider_ref)
              || not (existing.secret_names == b.secret_names)))

  abbrev pub new_binding : EmailBinding → Time → BindingRow
  new_binding b now = record { binding = b; state = active; activated_at = now; updated_at = now }

  unfoldable pub store_binding : EmailBinding → Time → Option BindingRow → MailDb → MailDb
  store_binding b now none db = record db {
    email_bindings =
        update_where (is_other_active b.identity_id b.revision) (superseded_row now)
          db.email_bindings
        ++ new_binding b now ∷ [];
  }
  store_binding b now (some existing) db = record db {
    email_bindings = update_where (is_binding b.identity_id b.revision) (active_row now) (
        update_where (is_other_active b.identity_id b.revision) (superseded_row now)
          db.email_bindings);
  }

  abbrev pub clashes : EmailBinding → Option BindingRow → Bool
  clashes b none = false
  clashes b (some existing) = differs existing.binding b

  -- `EmailBindingStore.activate`; `has_at` says that an address has an "@".
  unfoldable pub activate : EmailBinding → Time → Action MailError MailDb EmailBinding
  unfolding store_binding
  activate b now = do
    raise_if (ltb b.revision 1) value_error
    raise_if (b.identity_id == 0 || (b.provider == 0 || not (has_at b.address))) value_error
    write (do
      existing ← gets (λ db. find (is_binding b.identity_id b.revision) db.email_bindings)
      raise_if (clashes b existing) value_error
      modify (store_binding b now existing))
    pure b

abbrev pub binding_of : Option BindingRow → Option EmailBinding
binding_of none = none
binding_of (some r) = some r.binding

-- `EmailBindingStore.current`
unfoldable pub current : MailDb → Option EmailBinding
current db = binding_of (find (λ r. is_active r.state) db.email_bindings)

abbrev pub is_current : Text → ℕ → Option EmailBinding → Bool
is_current identity_id revision none = false
is_current identity_id revision (some b) = b.identity_id == identity_id && b.revision == revision

-- `require_current`, whose BindingRevisionChanged the sender raises on as EmailBindingChanged.
unfoldable pub require_current : Text → ℕ → Action MailError MailDb EmailBinding
unfolding current
require_current identity_id revision = do
  b ← gets current
  raise_if (not (is_current identity_id revision b)) binding_changed
  or_raise b binding_changed

abbrev pub is_send : Text → SendRow → Bool
is_send effect_id r = r.effect_id == effect_id

abbrev pub new_send : Text → Text → EmailBinding → Text → Text → Time → SendRow
new_send effect_id approval_id b request_sha256 message_id now = record {
  effect_id = effect_id;
  approval_id = approval_id;
  binding_identity_id = b.identity_id;
  binding_revision = b.revision;
  request_sha256 = request_sha256;
  state = pending;
  message_id = message_id;
  provider_ref = none;
  created_at = now;
  updated_at = now;
}

abbrev pub is_bound_elsewhere : Text → EmailBinding → SendRow → Bool
is_bound_elsewhere request_sha256 b r =
    not (r.request_sha256 == request_sha256)
    || (not (r.binding_identity_id == b.identity_id) || not (r.binding_revision == b.revision))

-- `EmailSendStore.begin`: the state of the row, and whether this call inserted it. The ValueError
-- leaves the row that was there.
unfoldable pub begin :
    Text → Text → EmailBinding → Text → Text → Time → Action MailError MailDb (Status × Bool)
begin effect_id approval_id b request_sha256 message_id now db =
    elim (find (is_send effect_id) db.email_sends) [
      | none ↦
          pure (pending, true)
            (record db {
              email_sends =
                  db.email_sends
                  ++ new_send effect_id approval_id b request_sha256 message_id now ∷ [];
            })
      | some r ↦
          if is_bound_elsewhere request_sha256 b r
          then raise value_error db
          else pure (r.state, false) db
    ]

abbrev pub is_receipt : Text → EmailDeliveryReceipt → Bool
is_receipt effect_id r = r.effect_id == effect_id

abbrev pub settled_row : EmailDeliveryReceipt → Time → SendRow → SendRow
settled_row receipt now r = record r {
  state = receipt.status;
  provider_ref = receipt.provider_ref;
  updated_at = now;
}

abbrev pub settled_receipt : EmailDeliveryReceipt → EmailDeliveryReceipt → EmailDeliveryReceipt
settled_receipt receipt r = record r {
  provider_ref = receipt.provider_ref;
  status = receipt.status;
  accepted_at = receipt.accepted_at;
}

-- INSERT … ON CONFLICT (effect_id) DO UPDATE
abbrev pub put_receipt :
    EmailDeliveryReceipt → List EmailDeliveryReceipt → List EmailDeliveryReceipt
put_receipt receipt rows =
    if exists (is_receipt receipt.effect_id) rows
    then update_where (is_receipt receipt.effect_id) (settled_receipt receipt) rows
    else rows ++ receipt ∷ []

-- `EmailSendStore.settle`; the sends are settled by the sender under an effect id that `begin` stored.
unfoldable pub settle : EmailDeliveryReceipt → Time → MailDb → MailDb
settle receipt now db = record db {
  email_sends = update_where (is_send receipt.effect_id) (settled_row receipt now) db.email_sends;
  email_delivery_receipts = put_receipt receipt db.email_delivery_receipts;
}

-- `EmailSendStore.get`
abbrev pub get : Text → MailDb → Option EmailDeliveryReceipt
get effect_id db = find (is_receipt effect_id) db.email_delivery_receipts
