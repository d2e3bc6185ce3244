-- ===== src/Gateway/Tests.antt =====
-- The gateway at concrete inputs.
use abrolia.Common.{
  ok, ◌≡◌, ◌⊎◌, refl, true, none, some, List, [], ◌∷◌, inr, arith, find, All, if◌then◌else◌, ◌==◌,
}
use abrolia.Runtime.Approvals.Code.{normalize, strip}
use abrolia.ControlPlane.Schema.{whatsapp}
use abrolia.Gateway.Store
use abrolia.Runtime.Webhook.{verify_webhook}
use abrolia.Runtime.Webhook.Relay.{
  verify_webhook-redelivery, verify_webhook-verify_relay_hmac, verdict,
}
use abrolia.Gateway.Store.{Ingress, Stamp, Store, Delivery, pos, is_row, due, defer, mark_delivered}
use abrolia.Gateway.Router.{
  verify_relay_hmac, Router, World, Outcome, accepted, runtime_error, Message, Clock, resolved,
  unavailable, handle_webhook, other_error, route, relay_key,
}
use abrolia.Gateway.Router.Webhook.{handle_webhook-IsKept, IsKept}
use abrolia.Gateway.Worker.{
  stamp, Turn, expired, unverifiable, undeliverable, handle, run_once, empty_report, run_rows,
  caught, process, process_from, provenance, classify, is_authentic, retry, send, finish, spend,
  report,
}
use abrolia.Gateway.Worker.Batch.{run_once-Spent}
use abrolia.Gateway.Worker.Sending.{process_sends, lookup_unavailable_dropped, IsSent}
use abrolia.Gateway.Worker.Retention.{turns, turns-gone, Spent}

-- Every digest is the text "ab".
abbrev gateway : Router
gateway = record {
  gateway_hmac_key = none;
  relay_keys = λ h. some 21;
  relay_root = none;
  sender_digest = λ s k. s;
  derive = λ r h. h;
  encode = λ t. t ∷ [];
  digest = λ k body. b'a' ∷ b'b' ∷ [];
  decimal = λ n. n;
}

abbrev world : Outcome → World
world outcome = record {
  enabled = true;
  resolve = λ c i h. resolved (record { household_id = 5; runtime_ref = none });
  runtime_deliver = some (λ d. outcome);
}

abbrev lost_world : World
lost_world = record (world accepted) { resolve = λ c i h. unavailable }

abbrev sent_at : Stamp
sent_at = record { text = 1000; value = some (pos 1000) }

abbrev row : Ingress
row = record {
  id = 1;
  payload = 7;
  sender = 8;
  received_at = 1000;
  attempts = 6;
  next_attempt_at = 1030;
  last_error = none;
  channel = some whatsapp;
  household_id = some 5;
  origin_timestamp = some sent_at;
  origin_signature = some (b'A' ∷ b'b' ∷ []);
}

abbrev one_row : Store
one_row = record { gateway_ingress = row ∷ []; deliveries = [] }

abbrev turn : World → Turn
turn w = record { world = w; now = 2000; later = 2001 }

abbrev after : List Delivery
after = (handle gateway (turn (world accepted)) row one_row).1.deliveries

process_sends_example : (after ≡ []) ⊎ IsSent gateway (turn (world accepted)) row [] after
process_sends_example = process_sends gateway (turn (world accepted)) row one_row

lookup_unavailable_dropped_example :
    let (fate, s') = handle gateway (turn lost_world) row one_row in
    ((fate ≡ expired) ⊎ (fate ≡ unverifiable) ⊎ (fate ≡ undeliverable))
    × (s'.deliveries ≡ [])
    × (find (is_row 1) s'.gateway_ingress ≡ none)
lookup_unavailable_dropped_example =
    lookup_unavailable_dropped gateway (turn lost_world) row one_row (inr refl)

turns-gone_example :
    find
      (is_row 1)
      (turns gateway (turn (world runtime_error) ∷ turn lost_world ∷ []) 1 one_row).gateway_ingress
    ≡ none
turns-gone_example =
    turns-gone gateway (turn (world runtime_error) ∷ turn lost_world ∷ []) row one_row refl
      (refl, (refl, tt)) (omega arith) (omega arith)

-- Two rows are due, and the processing of the first one raises.
abbrev two_rows : Store
two_rows = record { gateway_ingress = row ∷ record row { id = 2 } ∷ []; deliveries = [] }

abbrev poisoned : Ingress → Turn
poisoned r = turn (world (if r.id == 1 then other_error else accepted))

run_once-Spent_example :
    All (λ r. Spent r (run_once gateway poisoned 2000 10 two_rows).1) (due 2000 10 two_rows)
run_once-Spent_example =
    run_once-Spent gateway poisoned 2000 10 two_rows (refl, (refl, tt)) (λ r. refl)

-- The first row waits for another attempt, and the second one was handed over.
poisoned_fates :
    (run_once gateway poisoned 2000 10 two_rows).0
    ≡ record empty_report { delivered_count = 1; deferred_count = 1 }
unfolding run_once run_rows handle caught process process_from provenance classify is_authentic
    retry send finish spend due report route relay_key verify_relay_hmac normalize strip defer
    mark_delivered
poisoned_fates = refl

abbrev message : Message
message = record {
  payload = 7;
  sender = 8;
  channel = whatsapp;
  timestamp = sent_at;
  signature = b's' ∷ b'h' ∷ b'a' ∷ b'2' ∷ b'5' ∷ b'6' ∷ b'=' ∷ b'A' ∷ b'B' ∷ [];
}

abbrev clock : Clock
clock = record { routed_at = 1100; persisted_at = 1100; deferred_at = 1101 }

handle_webhook-IsKept_example :
    IsKept 2 message (handle_webhook gateway (world runtime_error) 2 message clock one_row)
handle_webhook-IsKept_example =
    handle_webhook-IsKept gateway (world runtime_error) 2 message clock one_row refl

verify_webhook-redelivery_example :
    verify_webhook gateway.digest gateway.encode 7 (b'a' ∷ b'b' ∷ []) 21 (stamp gateway 2000) 2300
    ≡ ok tt
verify_webhook-redelivery_example =
    verify_webhook-redelivery gateway
      (record { delivered = true; code = Store.ok; household_id = some 5; runtime_ref = none }) 21
      row 2000 2300 refl (omega arith) (omega arith) (omega arith) (omega arith) (omega arith)

verify_webhook-verify_relay_hmac_example :
    verify_webhook gateway.digest gateway.encode 7 (b'A' ∷ b'c' ∷ []) 21 sent_at 1300
    ≡ verdict (verify_relay_hmac gateway 21 7 sent_at (b'A' ∷ b'c' ∷ []))
verify_webhook-verify_relay_hmac_example =
    verify_webhook-verify_relay_hmac gateway 7 21 (b'A' ∷ b'c' ∷ []) sent_at 1300 (omega arith)
      (omega arith) (omega arith) refl
