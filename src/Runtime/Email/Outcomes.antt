-- ===== src/Runtime/Email/Outcomes.antt =====
-- Recording an outcome posts nothing, and leaves a receipt with each send that is settled.
use abrolia.Common.{
  ℕ, ◌≡◌, ◌≤◌, Bool, true, not, ◌||◌, Option, none, some, List, [], ◌∷◌, ◌⊎◌, inl, inr, arith, ok,
  err, Result, find, exists, Option-cases, Bool-cases, count_where, ◌==◌, if_both,
}
use abrolia.Common.Rows.{find-update_where, find-test, exists-append, exists-update_where}
use abrolia.Common.First.{bit}
use abrolia.Runtime.Schema.{Text, Time}
use abrolia.Runtime.Email.Receipts.{
  failed, outcome_unknown, EmailDeliveryReceipt, MailDb, MailError, rejected, outcome_unknown_error,
  settle, is_send, is_receipt, SendRow, settled_row, settled_receipt, put_receipt,
}
use abrolia.Runtime.Email.Sender.{
  Request, Reply, replied, unknown, failure, Sender, receipt_of, close, reconciled, interrupted,
  Attempt, good, lost, bad, recovered, concluded, is_pending, is_mismatched, is_accepted, verdict,
  can_reconcile,
}

abbrev pub has_send : Text → MailDb → Bool
has_send e db = exists (is_send e) db.email_sends

abbrev pub posts : Text → MailDb → ℕ
posts e db = count_where (λ k. k == e) db.posted

-- A send that is not pending has its receipt.
abbrev pub is_settled : Option SendRow → Bool → Bool
is_settled none receipt = true
is_settled (some r) receipt = is_pending r.state || receipt

abbrev pub has_receipt : Text → MailDb → Bool
has_receipt e db = exists (is_receipt e) db.email_delivery_receipts

-- The letter of an effect was posted at most once, and not before the effect's row was there.
abbrev pub IsOnce : Text → MailDb → Type 0
IsOnce e db =
    (posts e db ≤ bit (has_send e db))
    × (is_settled (find (is_send e) db.email_sends) (has_receipt e db) ≡ true)

exists-put_receipt :
    (e : Text) (receipt : EmailDeliveryReceipt) (rows : List EmailDeliveryReceipt)
    → exists (is_receipt e) rows ≡ true ⊎ (receipt.effect_id == e) ≡ true
    → exists (is_receipt e) (put_receipt receipt rows) ≡ true
exists-put_receipt e receipt rows known =
    let kept =
      exists-update_where (is_receipt e) (is_receipt receipt.effect_id) (settled_receipt receipt)
        rows (λ r. ground arith) in
    let more = exists-append (is_receipt e) rows (receipt ∷ []) in ground (arith, kept, more, known)

settle-IsOnce :
    (e : Text) (receipt : EmailDeliveryReceipt) (now : Time) (db : MailDb)
    → IsOnce e db
    → IsOnce e (settle receipt now db)
unfolding settle
settle-IsOnce e receipt now db (few, settled) =
    let there =
      exists-update_where (is_send e) (is_send receipt.effect_id) (settled_row receipt now)
        db.email_sends (λ r. ground arith) in
    let moved =
      find-update_where (is_send e) (is_send receipt.effect_id) (settled_row receipt now)
        db.email_sends (λ r. ground arith) in
    let put = exists-put_receipt e receipt db.email_delivery_receipts in
    (
      rw there few,
      elim (Option-cases (find (is_send e) db.email_sends)) [
        | inl missing ↦ ground (arith, moved, missing)
        | inr (r, found) ↦
            let named = find-test (is_send e) db.email_sends r found in
            ground (arith, moved, found, named, put, settled)
      ],
    )

close-IsOnce :
    (e : Text) (w : Sender) (receipt : EmailDeliveryReceipt) (now : Time)
    (result : Result MailError EmailDeliveryReceipt) (db : MailDb)
    → IsOnce e db
    → IsOnce e (close w receipt now result db).1
unfolding close
close-IsOnce e w receipt now result db once =
    if_both (IsOnce e) w.has_send_store (settle receipt now db) db
      (settle-IsOnce e receipt now db once) once

reconciled-IsOnce :
    (e : Text) (w : Sender) (q : Request) (reply : Reply) (now : Time) (db : MailDb)
    → IsOnce e db
    → IsOnce e (reconciled w q reply now db).1
unfolding reconciled
reconciled-IsOnce e w q unknown now db once =
    close-IsOnce e w (receipt_of q none outcome_unknown) now (err outcome_unknown_error) db once
reconciled-IsOnce e w q (failure f) now db once =
    close-IsOnce e w (receipt_of q none outcome_unknown) now (err outcome_unknown_error) db once
reconciled-IsOnce e w q (replied r) now db once = elim (Bool-cases (is_mismatched q r)) [
  | inl wrong ↦ rw wrong (close-IsOnce e w (receipt_of q none failed) now (err rejected) db once)
  | inr right ↦ rw right (close-IsOnce e w r now (verdict r r.status) db once)
]

pub interrupted-IsOnce :
    (e : Text) (w : Sender) (q : Request) (now : Time) (db : MailDb)
    → IsOnce e db
    → IsOnce e (interrupted w q now db).1
unfolding interrupted
interrupted-IsOnce e w q now db once = elim (Bool-cases (can_reconcile w)) [
  | inl asks ↦ rw asks (reconciled-IsOnce e w q (w.backend.reconcile q) now db once)
  | inr cannot ↦
      rw cannot (
        close-IsOnce e w (receipt_of q none outcome_unknown) now (err outcome_unknown_error) db
          once)
]

recovered-IsOnce :
    (e : Text) (w : Sender) (q : Request) (reply : Reply) (now : Time) (db : MailDb)
    → IsOnce e db
    → IsOnce e (recovered w q reply now db).1
unfolding recovered
recovered-IsOnce e w q (replied r) now db once =
    elim (Bool-cases (is_mismatched q r || not (is_accepted r.status))) [
      | inl wrong ↦ rw wrong (
          close-IsOnce e w (receipt_of q none outcome_unknown) now (err outcome_unknown_error) db
            once)
      | inr right ↦ rw right (close-IsOnce e w r now (ok r) db once)
    ]
recovered-IsOnce e w q unknown now db once =
    close-IsOnce e w (receipt_of q none outcome_unknown) now (err outcome_unknown_error) db once
recovered-IsOnce e w q (failure f) now db once =
    close-IsOnce e w (receipt_of q none outcome_unknown) now (err outcome_unknown_error) db once

pub concluded-IsOnce :
    (e : Text) (w : Sender) (q : Request) (a : Attempt) (now : Time) (db : MailDb)
    → IsOnce e db
    → IsOnce e (concluded w q a now db).1
unfolding concluded
concluded-IsOnce e w q (good r) now db once = close-IsOnce e w r now (ok r) db once
concluded-IsOnce e w q (bad f) now db once =
    close-IsOnce e w (receipt_of q none failed) now (err f) db once
concluded-IsOnce e w q lost now db once = elim (Bool-cases (can_reconcile w)) [
  | inl asks ↦ rw asks (recovered-IsOnce e w q (w.backend.reconcile q) now db once)
  | inr cannot ↦
      rw cannot (
        close-IsOnce e w (receipt_of q none outcome_unknown) now (err outcome_unknown_error) db
          once)
]
