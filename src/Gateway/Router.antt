-- ===== src/Gateway/Router.antt =====
-- `WhatsAppGatewayRouter` of gateway/whatsapp_router.py. HMAC and key derivation, the resolver of
-- bindings and the runtimes are parameters of each call; the clock's readings are arguments.
pub mod Webhook
use abrolia.Common.{
  ℕ, suc, Bool, true, false, not, ◌&&◌, ◌||◌, Option, none, some, List, [], ◌∷◌, ◌++◌, ◌+◌, ◌-◌,
  ◌*◌, if◌then◌else◌, ltb, leb, ◌==◌, length, Result,
}
use abrolia.Common
use abrolia.Runtime.Approvals.Code.{normalize}
use abrolia.ControlPlane.Schema.{Text, Time, Channel, Db, Error}
use abrolia.ControlPlane.Schema
use abrolia.ControlPlane.Routing.{ResolvedSender, resolve_sender}
use abrolia.Gateway.Store.{
  Code, ok, unknown_sender, ambiguous_sender, timestamp_replay, flag_disabled, hmac_rejected,
  relay_key_absent, runtime_unavailable, lookup_unavailable, ℤ, pos, negsuc, Stamp, Ingress,
  Delivery, Store, new_ingress, persist_before_ack, mark_delivered, defer,
}

-- REPLAY_WINDOW_SECONDS, BASE_BACKOFF_SECONDS
abbrev pub replay_window_seconds : ℕ
replay_window_seconds = 300

abbrev pub base_backoff_seconds : ℕ
base_backoff_seconds = 30

-- What a resolver answers: a household, one of the two refusals of SenderNotRoutable, or
-- BindingLookupUnavailable.
pub data Lookup : Type 0 where
  resolved : ResolvedSender → Lookup
  unknown ambiguous unavailable : Lookup

-- `LocalBindingResolver.resolve`. The code with which `resolve_sender` refuses is carried on; the
-- ValueError of a wrong call does not arise, since `route` gives exactly one of the two.
abbrev pub local_answer : Result Error ResolvedSender → Lookup
local_answer (Common.ok r) = resolved r
local_answer (Common.err Schema.ambiguous_sender) = ambiguous
local_answer (Common.err e) = unknown

unfoldable pub local_resolver : Db → Channel → Option Text → Option Text → Lookup
local_resolver db channel external_id external_id_hmac =
    local_answer (resolve_sender channel external_id external_id_hmac db)

-- What a call of `runtime_deliver` does: return, raise RuntimeError, or raise another exception.
pub data Outcome : Type 0 where
  accepted runtime_error other_error : Outcome

-- The router's configuration and the functions of the cryptographic library: `sender_hmac`, the text
-- of `derive_relay_secret`, the hex digest of HMAC-SHA256 of a key and a message, and the decimal text
-- of a number. `encode` is `str.encode`, and gives the bytes of a body. `relay_keys` is the explicit
-- map. A key stands for the text whose bytes it is, and is 0 where it is empty.
pub record Router : Type 0 where
  pub gateway_hmac_key : Option Text
  pub relay_keys : Text → Option Text
  pub relay_root : Option Text
  pub sender_digest : Text → Text → Text
  pub derive : Text → Text → Text
  pub encode : Text → List ℕ
  pub digest : List ℕ → List ℕ → List ℕ
  pub decimal : ℕ → Text

-- The world at one call: the switch, the resolver's answers, and the runtimes, none where no
-- `runtime_deliver` was given.
pub record World : Type 0 where
  pub enabled : Bool
  pub resolve : Option Channel → Option Text → Option Text → Lookup
  pub runtime_deliver : Option (Delivery → Outcome)

-- `GatewayResult`
pub record GatewayResult : Type 0 where
  pub delivered : Bool
  pub code : Code
  pub household_id : Option Text
  pub runtime_ref : Option Text

abbrev pub denied : Code → GatewayResult
denied code = record { delivered = false; code = code; household_id = none; runtime_ref = none }

-- `body + b"|" + timestamp.encode()`, under the household's key.
abbrev pub relay_hmac : Router → Text → Text → Stamp → List ℕ
relay_hmac w key body timestamp =
    w.digest (w.encode key) (w.encode body ++ b'|' ∷ w.encode timestamp.text)

-- `str.removeprefix`
abbrev pub remove_prefix : List ℕ → List ℕ → Option (List ℕ)
remove_prefix [] text = some text
remove_prefix (c ∷ cs) [] = none
remove_prefix (c ∷ cs) (d ∷ ds) = if c == d then remove_prefix cs ds else none

abbrev pub or_text : List ℕ → Option (List ℕ) → List ℕ
or_text text none = text
or_text text (some rest) = rest

-- "sha256="
abbrev pub scheme : List ℕ
scheme = b's' ∷ b'h' ∷ b'a' ∷ b'2' ∷ b'5' ∷ b'6' ∷ b'=' ∷ []

abbrev pub same_chars : List ℕ → List ℕ → Bool
same_chars [] [] = true
same_chars [] (d ∷ ds) = false
same_chars (c ∷ cs) [] = false
same_chars (c ∷ cs) (d ∷ ds) = c == d && same_chars cs ds

abbrev pub all_ascii : List ℕ → Bool
all_ascii [] = true
all_ascii (c ∷ cs) = ltb c 128 && all_ascii cs

-- `verify_relay_hmac`; none where `compare_digest` raises TypeError, at a text that is not ASCII.
-- The characters of a header are below 256, where `str.lower` leaves those that are not ASCII so.
unfoldable pub verify_relay_hmac : Router → Text → Text → Stamp → List ℕ → Option Bool
unfolding normalize
verify_relay_hmac w key body timestamp signature =
    let expected = relay_hmac w key body timestamp in
    let supplied = normalize (or_text signature (remove_prefix scheme signature)) in
    if not (length supplied == length expected)
    then some false
    else if all_ascii supplied
    then some (same_chars supplied expected)
    else none

-- `abs(int(now) - ts) > REPLAY_WINDOW_SECONDS`
abbrev pub is_outside : Time → ℤ → Bool
is_outside now (pos t) = ltb replay_window_seconds ((now - t) + (t - now))
is_outside now (negsuc n) = ltb replay_window_seconds (now + suc n)

abbrev pub is_replay : Time → Option ℤ → Bool
is_replay now none = true
is_replay now (some ts) = is_outside now ts

-- A redelivery of a row written before the column existed has no key either; `derive` needs a root.
unfoldable pub relay_key : Router → Text → Option Text
relay_key w household_id = elim (w.relay_keys household_id) [
  | some key ↦ some key
  | none ↦ elim w.relay_root [ none ↦ none | some root ↦ some (w.derive root household_id) ]
]

abbrev pub routed : Lookup → GatewayResult
routed unknown = denied unknown_sender
routed ambiguous = denied ambiguous_sender
routed unavailable = denied lookup_unavailable
routed (resolved r) = record {
  delivered = true;
  code = ok;
  household_id = some r.household_id;
  runtime_ref = r.runtime_ref;
}

abbrev pub looked_up : Router → World → Text → Option Channel → Option Text → Lookup
looked_up w world sender channel none = world.resolve channel (some sender) none
looked_up w world sender channel (some key) =
    world.resolve channel none (some (w.sender_digest sender key))

-- `route`, with the time stamp that both of its callers give.
unfoldable pub route : Router → World → Text → Option Channel → Stamp → Time → GatewayResult
route w world sender channel timestamp now =
    if is_replay now timestamp.value
    then denied timestamp_replay
    else routed (looked_up w world sender channel w.gateway_hmac_key)

-- A delivery that was asked for is recorded, whatever came of it.
abbrev pub asked : Delivery → Store → Store
asked d s = record s { deliveries = s.deliveries ++ d ∷ [] }

-- The readings of the clock by one webhook: in `route`, at the row, and at the end.
pub record Clock : Type 0 where
  pub routed_at : Time
  pub persisted_at : Time
  pub deferred_at : Time

abbrev pub hold_back : Text → Code → Time → Store → Store
hold_back ingress_id error now = defer ingress_id error (now + base_backoff_seconds) none true

-- What an exception leaves behind is the store; `raised` is the TypeError of `compare_digest`.
pub data Answer : Type 0 where
  answered : GatewayResult → Answer
  raised : Answer

-- The end of `handle_webhook`: the runtime is asked, if there is one.
unfoldable pub settle : GatewayResult → Text → Outcome → Time → Store → Answer × Store
settle answer fresh accepted now s = (answered answer, mark_delivered fresh s)
settle answer fresh _ now s =
    (answered (denied runtime_unavailable), hold_back fresh runtime_unavailable now s)

unfoldable pub hand_over : World → GatewayResult → Delivery → Text → Time → Store → Answer × Store
unfolding settle
hand_over world answer delivery fresh now s = elim world.runtime_deliver [
  | none ↦ (answered answer, mark_delivered fresh s)
  | some deliver ↦ settle answer fresh (deliver delivery) now (asked delivery s)
]

unfoldable pub check_signature :
    Router → World → GatewayResult → Delivery → Text → Option Bool → Time → Store → Answer × Store
unfolding hand_over
check_signature w world answer delivery fresh none now s = (raised, s)
check_signature w world answer delivery fresh (some false) now s =
    (answered (denied hmac_rejected), mark_delivered fresh s)
check_signature w world answer delivery fresh (some true) now s =
    hand_over world answer delivery fresh now s

-- `if not key`: no key, or an empty one.
unfoldable pub check_key :
    Router → World → GatewayResult → Delivery → Text → Option Text → Time → Store → Answer × Store
unfolding check_signature
check_key w world answer d fresh none now s =
    (answered (denied relay_key_absent), hold_back fresh relay_key_absent now s)
check_key w world answer d fresh (some key) now s =
    if key == 0
    then (answered (denied relay_key_absent), hold_back fresh relay_key_absent now s)
    else check_signature w world answer d fresh
        (verify_relay_hmac w key d.payload d.timestamp d.signature) now s

-- `self.relay_key(routed.household_id) if routed.household_id else None`
abbrev pub key_of : Router → Option Text → Option Text
key_of w none = none
key_of w (some h) = if h == 0 then none else relay_key w h

abbrev pub is_unavailable : Code → Bool
is_unavailable lookup_unavailable = true
is_unavailable _ = false

-- What the transport gives to `handle_webhook`.
pub record Message : Type 0 where
  pub payload : Text
  pub sender : Text
  pub channel : Channel
  pub timestamp : Stamp
  pub signature : List ℕ

abbrev pub row_of : Text → Message → Option Text → Time → Ingress
row_of fresh m household_id now =
    new_ingress fresh m.payload m.sender (some m.channel) household_id m.timestamp m.signature now

abbrev pub delivery_of : GatewayResult → Message → Delivery
delivery_of answer m = record {
  household_id = answer.household_id;
  runtime_ref = answer.runtime_ref;
  payload = m.payload;
  timestamp = m.timestamp;
  signature = m.signature;
}

-- `handle_webhook` once the sender is routed.
unfoldable pub accept :
    Router → World → Text → Message → Clock → GatewayResult → Store → Answer × Store
unfolding check_key
accept w world fresh m clock answer s =
    if is_unavailable answer.code
    then (
      answered answer,
      hold_back fresh lookup_unavailable clock.deferred_at
          (persist_before_ack (row_of fresh m none clock.persisted_at) s),
    )
    else if not answer.delivered
    then (answered answer, s)
    else check_key w world answer (delivery_of answer m) fresh (key_of w answer.household_id)
        clock.deferred_at
        (persist_before_ack (row_of fresh m answer.household_id clock.persisted_at) s)

unfoldable pub handle_webhook : Router → World → Text → Message → Clock → Store → Answer × Store
unfolding accept
handle_webhook w world fresh m clock s =
    if not world.enabled
    then (answered (denied flag_disabled), s)
    else if m.timestamp.text == 0 || length m.signature == 0
    then (answered (denied hmac_rejected), s)
    else accept w world fresh m clock
        (route w world m.sender (some m.channel) m.timestamp clock.routed_at) s
