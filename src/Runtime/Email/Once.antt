-- ===== src/Runtime/Email/Once.antt =====
-- No letter is posted twice under one effect id.
use abrolia.Common.{
  ◌≡◌, ◌≤◌, refl, Bool, true, false, Option, none, some, [], ◌∷◌, ◌++◌, inl, inr, arith, ok, err,
  find, Option-cases, Bool-cases, ◌==◌, ◌∙◌, sym, ap, if_first, bind_keeps, ==_iff,
}
use abrolia.Common.Rows.{find-append, count_where-append, exists-append, exists_of_find-none}
use abrolia.Common.First.{bit}
use abrolia.Runtime.Schema.{Text, Time}
use abrolia.Runtime.Email.Letter.{Outgoing}
use abrolia.Runtime.Email.Receipts.{
  EmailBinding, pending, MailDb, begin, get, is_send, is_receipt, SendRow, new_send, activate,
  value_error, is_bound_elsewhere, require_current,
}
use abrolia.Runtime.Email.Sender.{
  Request, Sender, attempt, post, transmit, is_pending, resume, begun, dispatch, prepare,
  resolve_binding, send, or_default, post_cut, resume_cut, begun_cut, dispatch_cut, send_cut,
}
use abrolia.Runtime.Email.Outcomes.{has_send, posts, IsOnce, interrupted-IsOnce, concluded-IsOnce}

-- One more post of an effect that has its row and was not posted.
post_few :
    (e : Text) (q : Request) (db : MailDb)
    → posts q.effect_id db ≡ 0
    → has_send q.effect_id db ≡ true
    → posts e db ≤ bit (has_send e db)
    → posts e (post q db) ≤ bit (has_send e db)
post_few e q db none_yet there few =
    let more = count_where-append (λ k. k == e) db.posted (q.effect_id ∷ []) in
    elim (Bool-cases (q.effect_id == e)) [
      | inl same ↦
          let e_is : q.effect_id ≡ e = (==_iff q.effect_id e).0 same in
          let none_here = ap (λ k. posts k db) (sym e_is) ∙ none_yet in
          let there_here = ap (λ k. has_send k db) (sym e_is) ∙ there in
          ground (arith, more, same, none_here, there_here)
      | inr apart ↦ ground (arith, more, apart, few)
    ]

-- The backend is asked for an effect that has its row and was not posted.
transmit-IsOnce :
    (e : Text) (w : Sender) (q : Request) (now : Time) (db : MailDb)
    → posts q.effect_id db ≡ 0
    → has_send q.effect_id db ≡ true
    → IsOnce e db
    → IsOnce e (transmit w q now db).1
unfolding transmit
transmit-IsOnce e w q now db none_yet there (few, settled) =
    concluded-IsOnce e w q (attempt w q now (w.backend.send q)) now (post q db)
      (post_few e q db none_yet there few, settled)

resume-IsOnce :
    (e : Text) (w : Sender) (q : Request) (r : SendRow) (now : Time) (db : MailDb)
    → find (is_send q.effect_id) db.email_sends ≡ some r
    → IsOnce q.effect_id db
    → IsOnce e db
    → IsOnce e (resume w q r.state (get q.effect_id db) now db).1
unfolding resume
resume-IsOnce e w q r now db found mine once = elim (Option-cases (get q.effect_id db)) [
  | inl missing ↦ rw missing (
      let nothing =
        exists_of_find-none (is_receipt q.effect_id) db.email_delivery_receipts missing in
      let waits : is_pending r.state ≡ true = ground (arith, mine.1, found, nothing) in
      rw waits (interrupted-IsOnce e w q now db once))
  | inr (receipt, had) ↦ rw had once
]

begin_new :
    (effect_id approval_id : Text) (b : EmailBinding) (request_sha256 message_id : Text)
    (now : Time) (db : MailDb)
    → find (is_send effect_id) db.email_sends ≡ none
    → begin effect_id approval_id b request_sha256 message_id now db ≡ (
      ok (pending, true),
      record db {
        email_sends =
            db.email_sends ++ new_send effect_id approval_id b request_sha256 message_id now ∷ [];
      },
    )
unfolding begin
begin_new effect_id approval_id b request_sha256 message_id now db missing = ground arith

-- The row of a new send.
begin_clash :
    (effect_id approval_id : Text) (b : EmailBinding) (request_sha256 message_id : Text)
    (now : Time) (db : MailDb) (r : SendRow)
    → find (is_send effect_id) db.email_sends ≡ some r
    → is_bound_elsewhere request_sha256 b r ≡ true
    → begin effect_id approval_id b request_sha256 message_id now db ≡ (err value_error, db)
unfolding begin
begin_clash effect_id approval_id b request_sha256 message_id now db r found clash = ground arith

begin_again :
    (effect_id approval_id : Text) (b : EmailBinding) (request_sha256 message_id : Text)
    (now : Time) (db : MailDb) (r : SendRow)
    → find (is_send effect_id) db.email_sends ≡ some r
    → is_bound_elsewhere request_sha256 b r ≡ false
    → begin effect_id approval_id b request_sha256 message_id now db ≡ (ok (r.state, false), db)
unfolding begin
begin_again effect_id approval_id b request_sha256 message_id now db r found same = ground arith

begun_new-IsOnce :
    (e : Text) (row : SendRow) (db : MailDb)
    → row.state ≡ pending
    → IsOnce e db
    → IsOnce e (record db { email_sends = db.email_sends ++ row ∷ [] })
begun_new-IsOnce e row db waits (few, settled) =
    let more = exists-append (is_send e) db.email_sends (row ∷ []) in
    let last = find-append (is_send e) db.email_sends (row ∷ []) in
    (ground (arith, more, few), ground (arith, last, settled, waits))

begun-IsOnce :
    (e : Text) (w : Sender) (q : Request) (now : Time) (db : MailDb)
    → IsOnce q.effect_id db
    → IsOnce e db
    → IsOnce e
        (begun w q now
          (begin q.effect_id q.approval_id q.binding q.request_sha256 q.message_id now db)).1
unfolding begun
begun-IsOnce e w q now db mine once =
    elim (Option-cases (find (is_send q.effect_id) db.email_sends)) [
      | inl missing ↦
          let row =
            new_send q.effect_id q.approval_id q.binding q.request_sha256 q.message_id now in
          let absent = exists_of_find-none (is_send q.effect_id) db.email_sends missing in
          let more = exists-append (is_send q.effect_id) db.email_sends (row ∷ []) in
          rw
            (begin_new q.effect_id q.approval_id q.binding q.request_sha256 q.message_id now db
              missing)
            (transmit-IsOnce e w q now (record db { email_sends = db.email_sends ++ row ∷ [] })
              (ground (arith, mine.0, absent)) (ground (arith, more))
              (begun_new-IsOnce e row db refl once))
      | inr (r, found) ↦ elim (Bool-cases (is_bound_elsewhere q.request_sha256 q.binding r)) [
        | inl clash ↦
            rw
              (begin_clash q.effect_id q.approval_id q.binding q.request_sha256 q.message_id now db
                r found clash)
              once
        | inr same ↦
            rw
              (begin_again q.effect_id q.approval_id q.binding q.request_sha256 q.message_id now db
                r found same)
              (resume-IsOnce e w q r now db found mine once)
      ]
    ]

-- A backend that is asked and never answers: the row of the effect stays pending, with no receipt.
post_cut-IsOnce :
    (e : Text) (asked : Bool) (q : Request) (db : MailDb)
    → posts q.effect_id db ≡ 0
    → has_send q.effect_id db ≡ true
    → IsOnce e db
    → IsOnce e (post_cut asked q db)
unfolding post_cut
post_cut-IsOnce e false q db none_yet there once = once
post_cut-IsOnce e true q db none_yet there (few, settled) =
    (post_few e q db none_yet there few, settled)

resume_cut-IsOnce :
    (e : Text) (asked : Bool) (q : Request) (r : SendRow) (db : MailDb)
    → find (is_send q.effect_id) db.email_sends ≡ some r
    → IsOnce q.effect_id db
    → IsOnce e db
    → IsOnce e (resume_cut asked q r.state (get q.effect_id db) db)
unfolding resume_cut
resume_cut-IsOnce e asked q r db found mine once = elim (Option-cases (get q.effect_id db)) [
  | inl missing ↦ rw missing (
      let nothing =
        exists_of_find-none (is_receipt q.effect_id) db.email_delivery_receipts missing in
      let waits : is_pending r.state ≡ true = ground (arith, mine.1, found, nothing) in
      rw waits once)
  | inr (receipt, had) ↦ rw had once
]

begun_cut-IsOnce :
    (e : Text) (asked : Bool) (q : Request) (now : Time) (db : MailDb)
    → IsOnce q.effect_id db
    → IsOnce e db
    → IsOnce e (
        begun_cut asked q
          (begin q.effect_id q.approval_id q.binding q.request_sha256 q.message_id now db))
unfolding begun_cut
begun_cut-IsOnce e asked q now db mine once =
    elim (Option-cases (find (is_send q.effect_id) db.email_sends)) [
      | inl missing ↦
          let row =
            new_send q.effect_id q.approval_id q.binding q.request_sha256 q.message_id now in
          let absent = exists_of_find-none (is_send q.effect_id) db.email_sends missing in
          let more = exists-append (is_send q.effect_id) db.email_sends (row ∷ []) in
          rw
            (begin_new q.effect_id q.approval_id q.binding q.request_sha256 q.message_id now db
              missing)
            (post_cut-IsOnce e asked q (record db { email_sends = db.email_sends ++ row ∷ [] })
              (ground (arith, mine.0, absent)) (ground (arith, more))
              (begun_new-IsOnce e row db refl once))
      | inr (r, found) ↦ elim (Bool-cases (is_bound_elsewhere q.request_sha256 q.binding r)) [
        | inl clash ↦
            rw
              (begin_clash q.effect_id q.approval_id q.binding q.request_sha256 q.message_id now db
                r found clash)
              once
        | inr same ↦
            rw
              (begin_again q.effect_id q.approval_id q.binding q.request_sha256 q.message_id now db
                r found same)
              (resume_cut-IsOnce e asked q r db found mine once)
      ]
    ]

-- A call of a method that writes, or a call of `send` that is cut off by the end of the process. The
-- senders differ in their backends, keep a store of sends, and read the switch and the clock as they
-- please.
pub data MailStep : MailDb → MailDb → Type 0 where
  sent :
      (w : Sender) (enabled : Bool) (letter : Outgoing) (approval_id : Text)
      (effect_id : Option Text) (now : Time) (db : MailDb)
      → w.has_send_store ≡ true
      → MailStep db (send w enabled letter approval_id effect_id now db).1
  cut_off :
      (w : Sender) (asked enabled : Bool) (letter : Outgoing) (approval_id : Text)
      (effect_id : Option Text) (now : Time) (db : MailDb)
      → w.has_send_store ≡ true
      → MailStep db (send_cut w asked enabled letter approval_id effect_id now db).1
  activated :
      (casefold : Text → Text) (has_at : Text → Bool) (b : EmailBinding) (now : Time) (db : MailDb)
      → MailStep db (activate casefold has_at b now db).1

pub data MailRun (db : MailDb) : MailDb → Type 0 where
  here : MailRun db db
  next : {t u : MailDb} → MailRun db t → MailStep t u → MailRun db u

dispatch-IsOnce :
    (w : Sender) (q : Request) (now : Time) (db : MailDb)
    → w.has_send_store ≡ true
    → ((e : Text) → IsOnce e db)
    → (e : Text) → IsOnce e (dispatch w q now db).1
unfolding dispatch
dispatch-IsOnce w q now db stored once e =
    if_first (λ answer. IsOnce e answer.1) w.has_send_store
      (begun w q now
        (begin q.effect_id q.approval_id q.binding q.request_sha256 q.message_id now db))
      (transmit w q now db) stored (begun-IsOnce e w q now db (once q.effect_id) (once e))

prepare_keeps :
    (w : Sender) (enabled : Bool) (letter : Outgoing) (approval_id effect_id : Text) (db : MailDb)
    → (prepare w enabled letter approval_id effect_id db).1 ≡ db
unfolding prepare resolve_binding require_current
prepare_keeps w enabled letter approval_id effect_id db = ground arith

send-IsOnce :
    (w : Sender) (enabled : Bool) (letter : Outgoing) (approval_id : Text) (effect_id : Option Text)
    (now : Time) (db : MailDb)
    → w.has_send_store ≡ true
    → ((e : Text) → IsOnce e db)
    → (e : Text) → IsOnce e (send w enabled letter approval_id effect_id now db).1
unfolding send
send-IsOnce w enabled letter approval_id effect_id now db stored once e =
    bind_keeps (IsOnce e) (prepare w enabled letter approval_id (or_default effect_id approval_id))
      (λ q. dispatch w q now) db
      (prepare_keeps w enabled letter approval_id (or_default effect_id approval_id) db) (once e)
      (λ q. dispatch-IsOnce w q now db stored once e)

dispatch_cut-IsOnce :
    (w : Sender) (asked : Bool) (q : Request) (now : Time) (db : MailDb)
    → w.has_send_store ≡ true
    → ((e : Text) → IsOnce e db)
    → (e : Text) → IsOnce e (dispatch_cut w asked q now db).1
unfolding dispatch_cut
dispatch_cut-IsOnce w asked q now db stored once e =
    if_first (IsOnce e) w.has_send_store
      (begun_cut asked q
        (begin q.effect_id q.approval_id q.binding q.request_sha256 q.message_id now db))
      (post_cut asked q db) stored (begun_cut-IsOnce e asked q now db (once q.effect_id) (once e))

send_cut-IsOnce :
    (w : Sender) (asked enabled : Bool) (letter : Outgoing) (approval_id : Text)
    (effect_id : Option Text) (now : Time) (db : MailDb)
    → w.has_send_store ≡ true
    → ((e : Text) → IsOnce e db)
    → (e : Text) → IsOnce e (send_cut w asked enabled letter approval_id effect_id now db).1
unfolding send_cut
send_cut-IsOnce w asked enabled letter approval_id effect_id now db stored once e =
    bind_keeps (IsOnce e) (prepare w enabled letter approval_id (or_default effect_id approval_id))
      (λ q. dispatch_cut w asked q now) db
      (prepare_keeps w enabled letter approval_id (or_default effect_id approval_id) db) (once e)
      (λ q. dispatch_cut-IsOnce w asked q now db stored once e)

activate_keeps :
    (casefold : Text → Text) (has_at : Text → Bool) (b : EmailBinding) (now : Time) (db : MailDb)
    → let db' = (activate casefold has_at b now db).1 in
      (db'.email_sends ≡ db.email_sends)
      × (db'.email_delivery_receipts ≡ db.email_delivery_receipts)
      × (db'.posted ≡ db.posted)
unfolding activate
activate_keeps casefold has_at b now db = ground arith

MailStep-IsOnce :
    {s t : MailDb} → MailStep s t → ((e : Text) → IsOnce e s) → (e : Text) → IsOnce e t
MailStep-IsOnce (sent w enabled letter approval_id effect_id now db stored) once e =
    send-IsOnce w enabled letter approval_id effect_id now db stored once e
MailStep-IsOnce (cut_off w asked enabled letter approval_id effect_id now db stored) once e =
    send_cut-IsOnce w asked enabled letter approval_id effect_id now db stored once e
MailStep-IsOnce (activated casefold has_at b now db) once e =
    let (sends, receipts, posted) = activate_keeps casefold has_at b now db in
    rw (sends, receipts, posted) (once e)

MailRun-IsOnce : {s t : MailDb} → ((e : Text) → IsOnce e s) → MailRun s t → (e : Text) → IsOnce e t
MailRun-IsOnce once here e = once e
MailRun-IsOnce once (next run step) e = MailStep-IsOnce step (MailRun-IsOnce once run) e

start-IsOnce : (e : Text) (s : MailDb) → s.email_sends ≡ [] → s.posted ≡ [] → IsOnce e s
start-IsOnce e s no_sends no_posts = ground arith

-- From a database with no sends, whatever letters are sent by whatever senders that keep the store of
-- sends, with whatever answers and repetitions, and wherever between the commit of the send's row and
-- the commit of its outcome the process ends, before or after it has asked the backend, a backend is
-- asked to send a letter at most once under one effect id.
pub posted_once :
    {s t : MailDb} → s.email_sends ≡ [] → s.posted ≡ [] → MailRun s t → (e : Text) → posts e t ≤ 1
posted_once {s = s} no_sends no_posts run e =
    let start = λ (k : Text). start-IsOnce k s no_sends no_posts in
    ground (arith, (MailRun-IsOnce start run e).0)
