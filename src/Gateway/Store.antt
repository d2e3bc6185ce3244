-- ===== src/Gateway/Store.antt =====
-- `GatewayStore` of gateway/whatsapp_router.py: the messages that the gateway has taken and not yet
-- handed over. `fresh` is what `uuid4` returns. Beside the table stands the list of the deliveries
-- that a runtime was asked to take, so that theorems can speak of them.
use abrolia.Common.{
  ℕ, Bool, Option, none, some, List, [], ◌∷◌, ◌++◌, ◌+◌, if◌then◌else◌, leb, ◌==◌, coalesce, select,
  update_where, order_by, take, delete_where,
}
use abrolia.ControlPlane.Schema.{Text, Time, Channel}

-- `last_error`, and the codes of `GatewayResult`.
pub data Code : Type 0 where
  ok unknown_sender ambiguous_sender timestamp_replay flag_disabled hmac_rejected : Code
  relay_key_absent runtime_unavailable lookup_unavailable worker_error : Code

-- An integer, as `int` reads one: `negsuc n` is -(n + 1).
pub data ℤ : Type 0 where
  pos negsuc : ℕ → ℤ

-- The text of a time stamp, 0 where it is empty, and what `int` reads from it, if it does not raise.
pub record Stamp : Type 0 where
  pub text : Text
  pub value : Option ℤ

-- A row of `gateway_ingress`; a signature is the list of its characters.
pub record Ingress : Type 0 where
  pub id : Text
  pub payload : Text
  pub sender : Text
  pub received_at : Time
  pub attempts : ℕ
  pub next_attempt_at : Time
  pub last_error : Option Code
  pub channel : Option Channel
  pub household_id : Option Text
  pub origin_timestamp : Option Stamp
  pub origin_signature : Option (List ℕ)

-- `Delivery`
pub record Delivery : Type 0 where
  pub household_id : Option Text
  pub runtime_ref : Option Text
  pub payload : Text
  pub timestamp : Stamp
  pub signature : List ℕ

pub record Store : Type 0 where
  pub gateway_ingress : List Ingress
  pub deliveries : List Delivery

abbrev pub is_row : Text → Ingress → Bool
is_row ingress_id r = r.id == ingress_id

abbrev pub new_ingress :
    Text → Text → Text → Option Channel → Option Text → Stamp → List ℕ → Time → Ingress
new_ingress fresh payload sender channel household_id timestamp signature now = record {
  id = fresh;
  payload = payload;
  sender = sender;
  received_at = now;
  attempts = 0;
  next_attempt_at = now;
  last_error = none;
  channel = channel;
  household_id = household_id;
  origin_timestamp = some timestamp;
  origin_signature = some signature;
}

unfoldable pub persist_before_ack : Ingress → Store → Store
persist_before_ack r s = record s { gateway_ingress = s.gateway_ingress ++ r ∷ [] }

unfoldable pub mark_delivered : Text → Store → Store
mark_delivered ingress_id s = record s {
  gateway_ingress = delete_where (is_row ingress_id) s.gateway_ingress;
}

abbrev pub deferred_row : Code → Time → Option Text → Bool → Ingress → Ingress
deferred_row error not_before household_id spend_attempt r = record r {
  attempts = r.attempts + (if spend_attempt then 1 else 0);
  next_attempt_at = not_before;
  last_error = some error;
  household_id = coalesce household_id r.household_id;
}

unfoldable pub defer : Text → Code → Time → Option Text → Bool → Store → Store
defer ingress_id error not_before household_id spend_attempt s = record s {
  gateway_ingress =
      update_where (is_row ingress_id) (deferred_row error not_before household_id spend_attempt)
        s.gateway_ingress;
}

abbrev received_first : Ingress → Ingress → Bool
received_first a b = leb a.received_at b.received_at

unfoldable pub due : Time → ℕ → Store → List Ingress
due now limit s =
    take limit (order_by received_first (select (λ r. leb r.next_attempt_at now) s.gateway_ingress))
