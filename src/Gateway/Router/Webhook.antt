-- ===== src/Gateway/Router/Webhook.antt =====
-- What a webhook leaves in the store.
use abrolia.Common.{
  ◌≡◌, refl, Bool, true, false, not, ◌||◌, Option, none, some, [], ◌∷◌, ◌+◌, inl, inr, arith, find,
  exists, is_some, Option-cases, Bool-cases, upd, length, ◌∙◌, ◌==◌,
}
use mathlib.Core.Option
use abrolia.Common.Rows.{find-append, find-update_where, find-none_of_exists}
use abrolia.Common.Deletes.{find-delete_where}
use abrolia.ControlPlane.Schema.{Text, Time}
use abrolia.Gateway.Store.{
  Code, hmac_rejected, relay_key_absent, runtime_unavailable, lookup_unavailable, Ingress, Delivery,
  Store, is_row, persist_before_ack, mark_delivered, defer, deferred_row,
}
use abrolia.Gateway.Router.{
  Router, World, GatewayResult, Message, Clock, Answer, answered, raised, denied, route, key_of,
  row_of, delivery_of, hand_over, settle, Outcome, accepted, runtime_error, other_error,
  check_signature, check_key, accept, handle_webhook, hold_back, asked, base_backoff_seconds,
  verify_relay_hmac, is_unavailable,
}

-- The codes at which the webhook leaves its row to the worker.
abbrev pub is_retryable : Code → Bool
is_retryable relay_key_absent = true
is_retryable runtime_unavailable = true
is_retryable lookup_unavailable = true
is_retryable _ = false

abbrev pub keeps : Answer → Bool
keeps (answered g) = is_retryable g.code
keeps raised = true

-- The message is in the row as it came, under its id.
abbrev pub Holds : Message → Option Ingress → Type 0
Holds m none = Unit
Holds m (some r) =
    (r.payload ≡ m.payload)
    × (r.sender ≡ m.sender)
    × (r.channel ≡ some m.channel)
    × (r.origin_timestamp ≡ some m.timestamp)
    × (r.origin_signature ≡ some m.signature)

abbrev pub stored : Text → Store → Option Ingress
stored fresh s = find (is_row fresh) s.gateway_ingress

-- What is said of the answer and the store of a webhook.
abbrev pub IsKept : Text → Message → Answer × Store → Type 0
IsKept fresh m (a, s) = (keeps a ≡ is_some (stored fresh s)) × Holds m (stored fresh s)

stored-persist :
    (fresh : Text) (m : Message) (household : Option Text) (now : Time) (s : Store)
    → stored fresh s ≡ none
    → stored fresh (persist_before_ack (row_of fresh m household now) s)
      ≡ some (row_of fresh m household now)
unfolding persist_before_ack
stored-persist fresh m household now s unused =
    let last = find-append (is_row fresh) s.gateway_ingress (row_of fresh m household now ∷ []) in
    ground (arith, last, unused)

stored-hold_back :
    (fresh : Text) (error : Code) (now : Time) (s : Store)
    → stored fresh (hold_back fresh error now s)
      ≡ Option.map
          (upd (is_row fresh) (deferred_row error (now + base_backoff_seconds) none true))
          (stored fresh s)
unfolding defer
stored-hold_back fresh error now s =
    find-update_where (is_row fresh) (is_row fresh) _ s.gateway_ingress (λ r. ground arith)

stored-mark_delivered : (fresh : Text) (s : Store) → stored fresh (mark_delivered fresh s) ≡ none
unfolding mark_delivered
stored-mark_delivered fresh s = find-delete_where (is_row fresh) s.gateway_ingress

-- A row of the message.
abbrev Fits : Text → Message → Ingress → Type 0
Fits fresh m r = (r.id ≡ fresh) × Holds m (some r)

held-IsKept :
    (fresh : Text) (m : Message) (error : Code) (now : Time) (s : Store) (r : Ingress) (a : Answer)
    → stored fresh s ≡ some r
    → Fits fresh m r
    → keeps a ≡ true
    → IsKept fresh m (a, hold_back fresh error now s)
held-IsKept fresh m error now s r a found fits keeping =
    rw (stored-hold_back fresh error now s, found) (ground arith)

dropped-IsKept :
    (fresh : Text) (m : Message) (s : Store) (a : Answer)
    → keeps a ≡ false
    → IsKept fresh m (a, mark_delivered fresh s)
dropped-IsKept fresh m s a keeping = rw (stored-mark_delivered fresh s) (keeping, tt)

module _ (w : Router) (world : World) (fresh : Text) (m : Message) where
  finish-IsKept :
      (answer : GatewayResult) (d : Delivery) (o : Outcome) (now : Time) (s : Store) (r : Ingress)
      → is_retryable answer.code ≡ false
      → stored fresh s ≡ some r
      → Fits fresh m r
      → IsKept fresh m (settle answer fresh o now s)
  unfolding settle
  finish-IsKept answer d accepted now s r final found fits =
      dropped-IsKept fresh m s (answered answer) final
  finish-IsKept answer d runtime_error now s r final found fits =
      held-IsKept fresh m runtime_unavailable now s r (answered (denied runtime_unavailable)) found
        fits refl
  finish-IsKept answer d other_error now s r final found fits =
      held-IsKept fresh m runtime_unavailable now s r (answered (denied runtime_unavailable)) found
        fits refl

  hand_over-IsKept :
      (answer : GatewayResult) (d : Delivery) (now : Time) (s : Store) (r : Ingress)
      → is_retryable answer.code ≡ false
      → stored fresh s ≡ some r
      → Fits fresh m r
      → IsKept fresh m (hand_over world answer d fresh now s)
  unfolding hand_over
  hand_over-IsKept answer d now s r final found fits = elim (Option-cases world.runtime_deliver) [
    | inl nobody ↦ rw nobody (dropped-IsKept fresh m s (answered answer) final)
    | inr (deliver, asks) ↦
        rw asks (finish-IsKept answer d (deliver d) now (asked d s) r final found fits)
  ]

  check_signature-IsKept :
      (answer : GatewayResult) (d : Delivery) (authentic : Option Bool) (now : Time) (s : Store)
      (r : Ingress)
      → is_retryable answer.code ≡ false
      → stored fresh s ≡ some r
      → Fits fresh m r
      → IsKept fresh m (check_signature w world answer d fresh authentic now s)
  unfolding check_signature
  check_signature-IsKept answer d none now s r final found fits = rw found (refl, fits.1)
  check_signature-IsKept answer d (some false) now s r final found fits =
      dropped-IsKept fresh m s (answered (denied hmac_rejected)) refl
  check_signature-IsKept answer d (some true) now s r final found fits =
      hand_over-IsKept answer d now s r final found fits

  check_key-IsKept :
      (answer : GatewayResult) (d : Delivery) (key : Option Text) (now : Time) (s : Store)
      (r : Ingress)
      → is_retryable answer.code ≡ false
      → stored fresh s ≡ some r
      → Fits fresh m r
      → IsKept fresh m (check_key w world answer d fresh key now s)
  unfolding check_key
  check_key-IsKept answer d none now s r final found fits =
      held-IsKept fresh m relay_key_absent now s r (answered (denied relay_key_absent)) found fits
        refl
  check_key-IsKept answer d (some k) now s r final found fits = elim (Bool-cases (k == 0)) [
    | inl missing ↦ rw missing (
        held-IsKept fresh m relay_key_absent now s r (answered (denied relay_key_absent)) found fits
          refl)
    | inr present ↦ rw present (
        check_signature-IsKept answer d (verify_relay_hmac w k d.payload d.timestamp d.signature)
          now s r final found fits)
  ]

  accept-IsKept :
      (clock : Clock) (answer : GatewayResult) (s : Store)
      → is_retryable answer.code ≡ is_unavailable answer.code
      → stored fresh s ≡ none
      → IsKept fresh m (accept w world fresh m clock answer s)
  unfolding accept
  accept-IsKept clock answer s final unused = elim (Bool-cases (is_unavailable answer.code)) [
    | inl down ↦ rw down (
        held-IsKept fresh m lookup_unavailable clock.deferred_at _
          (row_of fresh m none clock.persisted_at) (answered answer)
          (stored-persist fresh m none clock.persisted_at s unused)
          (refl, (refl, refl, refl, refl, refl)) (final ∙ down))
    | inr up ↦ elim (Bool-cases (not answer.delivered)) [
      | inl refused ↦ rw (up, refused) (rw unused (final ∙ up, tt))
      | inr delivered ↦
          rw (up, delivered)
            (check_key-IsKept answer (delivery_of answer m) (key_of w answer.household_id)
              clock.deferred_at _ (row_of fresh m answer.household_id clock.persisted_at)
              (final ∙ up) (stored-persist fresh m answer.household_id clock.persisted_at s unused)
              (refl, (refl, refl, refl, refl, refl)))
    ]
  ]

  route_code :
      (clock : Clock)
      → let answer = route w world m.sender (some m.channel) m.timestamp clock.routed_at in
        is_retryable answer.code ≡ is_unavailable answer.code
  unfolding route
  route_code clock = ground arith

  -- The store keeps a row for a message just where the webhook answers that the lookup, the household's
  -- key or the runtime was not there, or where the check of the signature raises: then the row holds the
  -- message as it came. On every other answer the store keeps no row. The row's id is a new one.
  pub handle_webhook-IsKept :
      (clock : Clock) (s : Store)
      → exists (is_row fresh) s.gateway_ingress ≡ false
      → IsKept fresh m (handle_webhook w world fresh m clock s)
  unfolding handle_webhook
  handle_webhook-IsKept clock s unused =
      let none_yet = find-none_of_exists (is_row fresh) s.gateway_ingress unused in
      elim (Bool-cases (not world.enabled)) [
        | inl off ↦ rw off (rw none_yet (refl, tt))
        | inr on ↦ rw on (elim (Bool-cases (m.timestamp.text == 0 || length m.signature == 0)) [
          | inl bare ↦ rw bare (rw none_yet (refl, tt))
          | inr signed ↦ rw signed (
              accept-IsKept clock
                (route w world m.sender (some m.channel) m.timestamp clock.routed_at) s
                (route_code clock) none_yet)
        ])
      ]
