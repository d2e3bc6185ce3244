-- ===== src/Gateway/Worker/Sending.antt =====
-- What the worker hands to a runtime, and what it never does.
use abrolia.Common.{
  ℕ, ◌≡◌, refl, true, false, Option, none, some, List, [], ◌∷◌, ◌++◌, ◌⊎◌, inl, inr, arith, find,
  Option-cases, Bool-cases,
}
use abrolia.Common.Deletes.{find-delete_where}
use abrolia.ControlPlane.Schema.{Text}
use abrolia.Gateway.Store.{
  Code, relay_key_absent, worker_error, Stamp, Ingress, Delivery, Store, is_row, mark_delivered,
  defer,
}
use abrolia.Gateway.Router.{
  Router, GatewayResult, unavailable, verify_relay_hmac, relay_key, relay_hmac, route, looked_up,
}
use abrolia.Gateway.Worker.{
  expired, undeliverable, unverifiable, Turn, is_expired, provenance, spend, hold, stamp,
  redelivery, finish, send, retry, is_authentic, classify, routed_key, process_from, process, Fate,
  caught, handle,
}

-- One delivery of a row, and what was true when it was asked for.
pub record IsSent (w : Router) (t : Turn) (row : Ingress) (before after : List Delivery)
    : Type 0 where
  pub household : Text
  pub key : Text
  pub timestamp : Stamp
  pub signature : List ℕ
  pub delivery : Delivery
  pub asked_once : after ≡ before ++ delivery ∷ []
  pub enabled : t.world.enabled ≡ true
  pub in_time : is_expired t.now row ≡ false
  pub same_household : row.household_id ≡ some household
  pub has_key : relay_key w household ≡ some key
  pub stamped : row.origin_timestamp ≡ some timestamp
  pub signed : row.origin_signature ≡ some signature
  pub authentic : verify_relay_hmac w key row.payload timestamp signature ≡ some true
  pub to_household : delivery.household_id ≡ some household
  pub same_body : delivery.payload ≡ row.payload
  pub signed_again : delivery.signature ≡ relay_hmac w key row.payload delivery.timestamp

spend_sends :
    (row : Ingress) (now : ℕ) (error : Code) (s : Store)
    → (spend row now error s).1.deliveries ≡ s.deliveries
unfolding spend mark_delivered defer
spend_sends row now error s = ground arith

send_sends :
    (t : Turn) (d : Delivery) (row : Ingress) (s : Store)
    → let after = (send t d row s).1.deliveries in
      (after ≡ s.deliveries) ⊎ (after ≡ s.deliveries ++ d ∷ [])
unfolding send finish spend mark_delivered defer
send_sends t d row s = ground arith

retry_sends :
    (w : Router) (t : Turn) (answer : GatewayResult) (k : Text) (row : Ingress) (s : Store)
    → let after = (retry w t answer (some k) row s).1.deliveries in
      (after ≡ s.deliveries)
      ⊎ ((t.world.enabled ≡ true) × (after ≡ s.deliveries ++ redelivery w answer k row t.now ∷ []))
unfolding retry hold defer
retry_sends w t answer k row s =
    ground (arith, send_sends t (redelivery w answer k row t.now) row s)

-- What is answered for the row's own household.
answer_of : Router → Turn → Ingress → GatewayResult
answer_of w t row = route w t.world row.sender row.channel (stamp w t.now) t.now

process_from_sends :
    (w : Router) (t : Turn) (row : Ingress) (timestamp : Stamp) (signature : List ℕ) (s : Store)
    (h k : Text)
    → row.household_id ≡ some h
    → relay_key w h ≡ some k
    → let after = (process_from w t row (some (timestamp, signature)) s).1.deliveries in
      (after ≡ s.deliveries)
      ⊎ ((t.world.enabled ≡ true)
          × ((answer_of w t row).household_id ≡ some h)
          × (verify_relay_hmac w k row.payload timestamp signature ≡ some true)
          × (after ≡ s.deliveries ++ redelivery w (answer_of w t row) k row t.now ∷ []))
unfolding process_from classify is_authentic mark_delivered answer_of
process_from_sends w t row timestamp signature s h k accepted_for keyed =
    ground (arith, retry_sends w t (answer_of w t row) k row s)

-- A row that names no household, or whose household has no key, is not sent.
process_from_keeps :
    (w : Router) (t : Turn) (row : Ingress) (origin : Stamp × List ℕ) (s : Store)
    → routed_key w row.household_id ≡ none
    → (process_from w t row (some origin) s).1.deliveries ≡ s.deliveries
unfolding process_from classify retry hold defer is_authentic mark_delivered
process_from_keeps w t row origin s keyless =
    ground (arith, spend_sends row t.now relay_key_absent s)

provenance-some :
    (row : Ingress) (timestamp : Stamp) (signature : List ℕ)
    → provenance row ≡ some (timestamp, signature)
    → (row.origin_timestamp ≡ some timestamp) × (row.origin_signature ≡ some signature)
unfolding provenance
provenance-some row timestamp signature h = ground arith

process_live :
    (w : Router) (t : Turn) (row : Ingress) (origin : Stamp × List ℕ) (s : Store)
    → is_expired t.now row ≡ false
    → provenance row ≡ some origin
    → process w t row s ≡ process_from w t row (some origin) s
unfolding process
process_live w t row origin s fresh known = rw (fresh, known) refl

process_dead :
    (w : Router) (t : Turn) (row : Ingress) (s : Store)
    → (is_expired t.now row ≡ true) ⊎ (provenance row ≡ none)
    → (process w t row s).1.deliveries ≡ s.deliveries
unfolding process process_from mark_delivered
process_dead w t row s dead = ground arith

live_sends :
    (w : Router) (t : Turn) (row : Ingress) (timestamp : Stamp) (signature : List ℕ) (s : Store)
    (h k : Text)
    → is_expired t.now row ≡ false
    → provenance row ≡ some (timestamp, signature)
    → row.household_id ≡ some h
    → relay_key w h ≡ some k
    → let after = (process w t row s).1.deliveries in
      (after ≡ s.deliveries) ⊎ IsSent w t row s.deliveries after
unfolding answer_of
live_sends w t row timestamp signature s h k fresh known accepted_for keyed =
    rw (process_live w t row (timestamp, signature) s fresh known)
      (elim (process_from_sends w t row timestamp signature s h k accepted_for keyed) [
        | inl same ↦ inl same
        | inr (enabled, answered, authentic, asked_once) ↦ inr (record {
          household = h;
          key = k;
          timestamp = timestamp;
          signature = signature;
          delivery = redelivery w (answer_of w t row) k row t.now;
          asked_once = asked_once;
          enabled = enabled;
          in_time = fresh;
          same_household = accepted_for;
          has_key = keyed;
          stamped = (provenance-some row timestamp signature known).0;
          signed = (provenance-some row timestamp signature known).1;
          authentic = authentic;
          to_household = answered;
          same_body = refl;
          signed_again = refl;
        })
      ])

tried_sends :
    (w : Router) (t : Turn) (row : Ingress) (s : Store)
    → let after = (process w t row s).1.deliveries in
      (after ≡ s.deliveries) ⊎ IsSent w t row s.deliveries after
tried_sends w t row s = elim (Bool-cases (is_expired t.now row)) [
  | inl old ↦ inl (process_dead w t row s (inl old))
  | inr fresh ↦ elim (Option-cases (provenance row)) [
    | inl lost ↦ inl (process_dead w t row s (inr lost))
    | inr ((timestamp, signature), known) ↦ elim (Option-cases row.household_id) [
      | inl nobody ↦ inl (
          rw (process_live w t row (timestamp, signature) s fresh known)
            (process_from_keeps w t row (timestamp, signature) s (ground (arith, nobody))))
      | inr (h, accepted_for) ↦ elim (Option-cases (relay_key w h)) [
        | inl keyless ↦ inl (
            rw (process_live w t row (timestamp, signature) s fresh known) (
              process_from_keeps w t row (timestamp, signature) s
                (ground (arith, accepted_for, keyless))))
        | inr (k, keyed) ↦
            live_sends w t row timestamp signature s h k fresh known accepted_for keyed
      ]
    ]
  ]
]

caught_sends :
    (t : Turn) (row : Ingress) (r : Option Fate × Store)
    → (caught t row r).1.deliveries ≡ r.1.deliveries
unfolding caught
caught_sends t row (some fate, s) = refl
caught_sends t row (none, s) = spend_sends row t.later worker_error s

-- The worker asks a runtime to take a row at most once in a turn, and only with the switch on, for a
-- row that is not too old, whose original signature a key of the household that it was accepted for
-- verifies; what it sends is the row's body, to that household, signed again under that key.
pub process_sends :
    (w : Router) (t : Turn) (row : Ingress) (s : Store)
    → let after = (handle w t row s).1.deliveries in
      (after ≡ s.deliveries) ⊎ IsSent w t row s.deliveries after
unfolding handle
process_sends w t row s = rw (caught_sends t row (process w t row s)) (tried_sends w t row s)

-- A row that was accepted for no household, as the webhook leaves it where the lookup of its sender
-- failed, is never handed over: the worker deletes it on the first turn, as too old, without
-- provenance, or undeliverable. So it deletes every row in a turn in which the lookup fails.
pub lookup_unavailable_dropped :
    (w : Router) (t : Turn) (row : Ingress) (s : Store)
    → (row.household_id ≡ none)
      ⊎ (looked_up w t.world row.sender row.channel w.gateway_hmac_key ≡ unavailable)
    → let (fate, s') = handle w t row s in
      ((fate ≡ expired) ⊎ (fate ≡ unverifiable) ⊎ (fate ≡ undeliverable))
      × (s'.deliveries ≡ s.deliveries)
      × (find (is_row row.id) s'.gateway_ingress ≡ none)
unfolding handle caught process process_from route mark_delivered
lookup_unavailable_dropped w t row s missing =
    let gone = find-delete_where (is_row row.id) s.gateway_ingress in
    (ground arith, ground arith, ground (arith, gone))
