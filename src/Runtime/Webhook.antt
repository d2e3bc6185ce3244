-- ===== src/Runtime/Webhook.antt =====
-- The check of a WhatsApp delivery in hermes_cloud/ingest/whatsapp_webhook.py: the runtime's end of
-- the gateway's relay. `digest` is the hex digest of HMAC-SHA256 of a key and a message, and
-- `encode` is `str.encode` and gives the bytes of a body, as for the gateway.
pub mod Relay
use abrolia.Common.{
  ℕ, Bool, true, false, not, ◌&&◌, ◌||◌, Option, none, some, List, ◌∷◌, ◌++◌, if◌then◌else◌, ◌==◌,
  length, Result, ok, err,
}
use abrolia.Runtime.Schema.{Text, Time}
use abrolia.Runtime.Approvals.Code.{normalize}
use abrolia.Gateway.Store.{Stamp}
use abrolia.Gateway.Router.{is_replay, remove_prefix, or_text, scheme, same_chars, all_ascii}

-- The code of WhatsAppWebhookRejected, or the TypeError of `compare_digest` at a text that is not ASCII.
pub data Refusal : Type 0 where
  unauthorized timestamp_replay type_error : Refusal

abbrev pub compared : List ℕ → List ℕ → Result Refusal (Unit {0})
compared supplied expected =
    if not (length supplied == length expected)
    then err unauthorized
    else if not (all_ascii supplied)
    then err type_error
    else if not (same_chars supplied expected)
    then err unauthorized
    else ok tt

module _ (digest : List ℕ → List ℕ → List ℕ) (encode : Text → List ℕ) where
  abbrev pub sign_webhook : Text → Text → Stamp → List ℕ
  sign_webhook payload secret timestamp =
      digest (encode secret) (encode payload ++ b'|' ∷ encode timestamp.text)

  -- REPLAY_WINDOW_SECONDS is the gateway's number again.
  unfoldable pub verify_webhook : Text → List ℕ → Text → Stamp → Time → Result Refusal (Unit {0})
  unfolding normalize
  verify_webhook payload signature secret timestamp now =
      if secret == 0 || (length signature == 0 || timestamp.text == 0)
      then err unauthorized
      else if is_replay now timestamp.value
      then err timestamp_replay
      else compared (normalize (or_text signature (remove_prefix scheme signature)))
          (sign_webhook payload secret timestamp)
