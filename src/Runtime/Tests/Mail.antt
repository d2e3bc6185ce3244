-- ===== src/Runtime/Tests/Mail.antt =====
-- Two sends of one letter.
use abrolia.Common.{◌≤◌, refl, true, none, some, [], ◌∷◌}
use abrolia.Runtime.Email.Letter.{Outgoing}
use abrolia.Runtime.Email.Receipts.{EmailBinding, MailDb, active}
use abrolia.Runtime.Email.Sender.{Sender, Backend, unknown, send, send_cut}
use abrolia.Runtime.Email.Outcomes.{posts}
use abrolia.Runtime.Email.Once.{posted_once, here, next, sent, cut_off}

abbrev letter : Outgoing
letter = record {
  to = b'a' ∷ b'@' ∷ b'b' ∷ b'.' ∷ b'o' ∷ b'r' ∷ b'g' ∷ [];
  subject = b's' ∷ [];
  body = b'b' ∷ [];
  in_reply_to = none;
  references = none;
  from_identity_id = none;
  binding_revision = none;
  from_address = none;
  attachments = [];
}

abbrev house : EmailBinding
house = record {
  identity_id = 1;
  revision = 1;
  provider = 2;
  address = 3;
  provider_ref = none;
  secret_names = 4;
}

-- A backend whose answers never arrive.
abbrev silent : Backend
silent = record {
  has_provider = true;
  reconciles = true;
  send = λ q. unknown;
  reconcile = λ q. unknown;
}

abbrev mailer : Sender
mailer = record {
  backend = silent;
  binding = house;
  has_binding_store = true;
  has_send_store = true;
  casefold = λ t. t;
  build = λ l a e. some 9;
  sha256 = λ t. t;
  message_id_for = λ e. e;
}

abbrev no_sends : MailDb
no_sends = record {
  email_bindings =
      record { binding = house; state = active; activated_at = 5; updated_at = 5 } ∷ [];
  email_sends = [];
  email_delivery_receipts = [];
  posted = [];
}

-- The process ends when the letter is on its way, and the send is repeated.
abbrev once : MailDb
once = (send_cut mailer true true letter 6 none 10 no_sends).1

abbrev twice : MailDb
twice = (send mailer true letter 6 none 20 once).1

posted_once_example : posts 6 twice ≤ 1
posted_once_example =
    posted_once refl refl
      (next (next here (cut_off mailer true true letter 6 none 10 no_sends refl))
        (sent mailer true letter 6 none 20 once refl))
      6
