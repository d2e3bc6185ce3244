-- ===== src/Gateway/Worker.antt =====
-- `GatewayRedeliverWorker` of gateway/whatsapp_router.py: the reader of the messages that were held
-- back. The world at a row, with its two readings of the clock, is a function of the row.
pub mod Sending
pub mod Retention
pub mod Batch
use abrolia.Common.{
  ℕ, Bool, true, false, not, ◌&&◌, ◌||◌, Option, none, some, List, [], ◌∷◌, ◌+◌, ◌-◌, ◌*◌, ◌^◌,
  if◌then◌else◌, ltb, leb, ◌==◌, same_option, is_some, length,
}
use abrolia.ControlPlane.Schema.{Text, Time, Channel}
use abrolia.Gateway.Store.{
  Code, flag_disabled, relay_key_absent, runtime_unavailable, worker_error, pos, Stamp, Ingress,
  Delivery, Store, mark_delivered, defer, due,
}
use abrolia.Gateway.Router.{
  Router, World, Outcome, accepted, runtime_error, other_error, GatewayResult, base_backoff_seconds,
  relay_hmac, verify_relay_hmac, relay_key, route, asked,
}

abbrev pub max_attempts : ℕ
max_attempts = 8

abbrev pub max_age_seconds : ℕ
max_age_seconds = 24 * 60 * 60

-- The outcome of a row: what `_process` and `_defer` return.
pub data Fate : Type 0 where
  delivered deferred exhausted expired undeliverable unverifiable held : Fate

-- The world while a row is processed: the clock when it starts and after a failure.
pub record Turn : Type 0 where
  pub world : World
  pub now : Time
  pub later : Time

-- `now - row["received_at"] > MAX_AGE_SECONDS`
abbrev pub is_expired : Time → Ingress → Bool
is_expired now row = ltb (row.received_at + max_age_seconds) now

-- `_has_provenance`, with what it finds: the time stamp and the signature of the row.
unfoldable pub provenance : Ingress → Option (Stamp × List ℕ)
provenance row = elim row.channel [
  | none ↦ none
  | some c ↦ elim row.origin_timestamp [
    | none ↦ none
    | some t ↦ elim row.origin_signature [ none ↦ none | some g ↦ some (t, g) ]
  ]
]

-- `_defer`
unfoldable pub spend : Ingress → Time → Code → Store → Fate × Store
spend row now error s =
    let attempts = row.attempts + 1 in
    if leb max_attempts attempts then (exhausted, mark_delivered row.id s) else (
      deferred,
      defer row.id error (now + base_backoff_seconds * 2 ^ (attempts - 1)) none true s,
    )

-- `_hold`
unfoldable pub hold : Ingress → Time → Store → Store
hold row now s = defer row.id flag_disabled (now + base_backoff_seconds) none false s

abbrev pub stamp : Router → Time → Stamp
stamp w now = record { text = w.decimal now; value = some (pos now) }

abbrev pub redelivery : Router → GatewayResult → Text → Ingress → Time → Delivery
redelivery w answer key row now = record {
  household_id = answer.household_id;
  runtime_ref = answer.runtime_ref;
  payload = row.payload;
  timestamp = stamp w now;
  signature = relay_hmac w key row.payload (stamp w now);
}

-- What `_process` leaves: an outcome, or none where an exception leaves it, and the store.
abbrev pub outcome : Fate × Store → Option Fate × Store
outcome (fate, s) = (some fate, s)

-- The end of `_process` after the call. Only RuntimeError is handled there.
unfoldable pub finish : Turn → Outcome → Ingress → Store → Option Fate × Store
unfolding spend
finish t accepted row s = (some delivered, mark_delivered row.id s)
finish t runtime_error row s = outcome (spend row t.later runtime_unavailable s)
finish t other_error row s = (none, s)

unfoldable pub send : Turn → Delivery → Ingress → Store → Option Fate × Store
unfolding finish
send t d row s = elim t.world.runtime_deliver [
  | none ↦ (some delivered, mark_delivered row.id s)
  | some deliver ↦ finish t (deliver d) row (asked d s)
]

unfoldable pub retry :
    Router → Turn → GatewayResult → Option Text → Ingress → Store → Option Fate × Store
unfolding send hold
retry w t answer key row s =
    if not t.world.enabled then (some held, hold row t.now s) else elim key [
      | none ↦ outcome (spend row t.now relay_key_absent s)
      | some k ↦ send t (redelivery w answer k row t.now) row s
    ]

-- The check of the original signature: true where there is no key to check with, none where
-- `compare_digest` raises.
unfoldable pub is_authentic : Router → Option Text → Ingress → Stamp × List ℕ → Option Bool
is_authentic w none row origin = some true
is_authentic w (some k) row (timestamp, signature) =
    verify_relay_hmac w k row.payload timestamp signature

unfoldable pub classify :
    Router
    → Turn
    → GatewayResult
    → Option Text
    → Ingress
    → Option Bool
    → Store
    → Option Fate × Store
unfolding retry
classify w t answer key row none s = (none, s)
classify w t answer key row (some false) s = (some unverifiable, mark_delivered row.id s)
classify w t answer key row (some true) s = retry w t answer key row s

-- The key of the household that was routed to.
abbrev pub routed_key : Router → Option Text → Option Text
routed_key w none = none
routed_key w (some h) = relay_key w h

unfoldable pub process_from :
    Router → Turn → Ingress → Option (Stamp × List ℕ) → Store → Option Fate × Store
unfolding classify
process_from w t row none s = (some unverifiable, mark_delivered row.id s)
process_from w t row (some origin) s =
    let answer = route w t.world row.sender row.channel (stamp w t.now) t.now in
    if not answer.delivered || not (same_option answer.household_id row.household_id)
    then (some undeliverable, mark_delivered row.id s)
    else classify w t answer (routed_key w answer.household_id) row
        (is_authentic w (routed_key w answer.household_id) row origin) s

-- `_process`
unfoldable pub process : Router → Turn → Ingress → Store → Option Fate × Store
unfolding process_from provenance
process w t row s =
    if is_expired t.now row
    then (some expired, mark_delivered row.id s)
    else process_from w t row (provenance row) s

-- The `except Exception` of `run_once`, with what the exception leaves of the store.
unfoldable pub caught : Turn → Ingress → Option Fate × Store → Fate × Store
unfolding spend
caught t row (some fate, s) = (fate, s)
caught t row (none, s) = spend row t.later worker_error s

-- One round of the loop of `run_once`.
unfoldable pub handle : Router → Turn → Ingress → Store → Fate × Store
unfolding process caught
handle w t row s = caught t row (process w t row s)

unfoldable pub run_rows : Router → (Ingress → Turn) → List Ingress → Store → List Fate × Store
unfolding handle
run_rows w turn [] s = ([], s)
run_rows w turn (row ∷ rows) s =
    let (fate, s') = handle w (turn row) row s in
    let (fates, t) = run_rows w turn rows s' in (fate ∷ fates, t)

-- `RedeliverReport`
pub record RedeliverReport : Type 0 where
  pub delivered_count : ℕ
  pub deferred_count : ℕ
  pub dropped_exhausted : ℕ
  pub dropped_expired : ℕ
  pub dropped_undeliverable : ℕ
  pub dropped_unverifiable : ℕ
  pub held_count : ℕ

abbrev pub empty_report : RedeliverReport
empty_report = record {
  delivered_count = 0;
  deferred_count = 0;
  dropped_exhausted = 0;
  dropped_expired = 0;
  dropped_undeliverable = 0;
  dropped_unverifiable = 0;
  held_count = 0;
}

abbrev pub count_fate : Fate → RedeliverReport → RedeliverReport
count_fate delivered r = record r { delivered_count = r.delivered_count + 1 }
count_fate deferred r = record r { deferred_count = r.deferred_count + 1 }
count_fate exhausted r = record r { dropped_exhausted = r.dropped_exhausted + 1 }
count_fate expired r = record r { dropped_expired = r.dropped_expired + 1 }
count_fate undeliverable r = record r { dropped_undeliverable = r.dropped_undeliverable + 1 }
count_fate unverifiable r = record r { dropped_unverifiable = r.dropped_unverifiable + 1 }
count_fate held r = record r { held_count = r.held_count + 1 }

unfoldable pub report : List Fate → RedeliverReport
report [] = empty_report
report (fate ∷ fates) = count_fate fate (report fates)

unfoldable pub run_once : Router → (Ingress → Turn) → Time → ℕ → Store → RedeliverReport × Store
unfolding run_rows report
run_once w turn now limit s =
    let (fates, t) = run_rows w turn (due now limit s) s in (report fates, t)
