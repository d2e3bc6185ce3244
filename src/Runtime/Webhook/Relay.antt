-- ===== src/Runtime/Webhook/Relay.antt =====
-- What the gateway signs, the runtime takes.
use abrolia.Common.{
  ℕ, ◌≡◌, refl, Bool, true, false, not, ◌&&◌, ◌||◌, Option, none, some, List, [], ◌∷◌, ◌++◌, ◌+◌,
  ◌≤◌, arith, ◌==◌, length, Result, ok, err, reverse, map, ◌∙◌, ap, if◌then◌else◌,
}
use mathlib.Core.List.{reverse-cons, reverse-reverse}
use abrolia.Runtime.Schema.{Text, Time}
use abrolia.Runtime.Approvals.Code.{normalize, strip, lstrip, is_space, is_hex, all_hex, lower_char}
use abrolia.Gateway.Store.{Stamp, Ingress, pos}
use abrolia.Gateway.Router.{
  Router, GatewayResult, is_replay, remove_prefix, or_text, scheme, same_chars, all_ascii,
  relay_hmac, verify_relay_hmac,
}
use abrolia.Gateway.Worker.{redelivery, stamp}
use abrolia.Runtime.Webhook.{verify_webhook, compared, Refusal, unauthorized, type_error}

all_hex-append : (s t : List ℕ) → all_hex (s ++ t) ≡ (all_hex s && all_hex t)
all_hex-append [] t = refl
all_hex-append (c ∷ cs) t = ground (arith, all_hex-append cs t)

all_hex-reverse : (s : List ℕ) → all_hex s ≡ true → all_hex (reverse s) ≡ true
all_hex-reverse [] h = refl
all_hex-reverse (c ∷ cs) h =
    ap all_hex (reverse-cons c cs)
    ∙ ground (arith, all_hex-append (reverse cs) (c ∷ []), all_hex-reverse cs)

is_hex-is_space : (c : ℕ) → is_hex c ≡ true → is_space c ≡ false
is_hex-is_space c h = ground arith

is_hex-lower_char : (c : ℕ) → is_hex c ≡ true → lower_char c ≡ c
is_hex-lower_char c h = ground arith

lstrip_hex : (s : List ℕ) → all_hex s ≡ true → lstrip s ≡ s
unfolding lstrip
lstrip_hex [] h = refl
lstrip_hex (c ∷ cs) h = ground (arith, is_hex-is_space c)

strip_hex : (s : List ℕ) → all_hex s ≡ true → strip s ≡ s
unfolding strip
strip_hex s h =
    rw (lstrip_hex s h, lstrip_hex (reverse s) (all_hex-reverse s h)) (reverse-reverse s)

lower_hex : (s : List ℕ) → all_hex s ≡ true → map lower_char s ≡ s
lower_hex [] h = refl
lower_hex (c ∷ cs) h = ground (arith, is_hex-lower_char c, lower_hex cs)

normalize_hex : (s : List ℕ) → all_hex s ≡ true → normalize s ≡ s
unfolding normalize
normalize_hex s h = rw (strip_hex s h) (lower_hex s h)

-- A digest does not start with "s".
remove_prefix_hex : (s : List ℕ) → all_hex s ≡ true → or_text s (remove_prefix scheme s) ≡ s
remove_prefix_hex [] h = refl
remove_prefix_hex (c ∷ cs) h = ground arith

same_chars_refl : (s : List ℕ) → same_chars s s ≡ true
same_chars_refl [] = refl
same_chars_refl (c ∷ cs) = ground (arith, same_chars_refl cs)

all_ascii_hex : (s : List ℕ) → all_hex s ≡ true → all_ascii s ≡ true
all_ascii_hex [] h = refl
all_ascii_hex (c ∷ cs) h = ground (arith, all_ascii_hex cs)

compared_hex : (s : List ℕ) → all_hex s ≡ true → compared s s ≡ ok tt
compared_hex s h = ground (arith, same_chars_refl s, all_ascii_hex s h)

is_replay_near :
    (sent received : Time)
    → received ≤ sent + 300
    → sent ≤ received + 300
    → is_replay received (some (pos sent)) ≡ false
is_replay_near sent received late early = ground arith

supplied_hex : (s : List ℕ) → all_hex s ≡ true → normalize (or_text s (remove_prefix scheme s)) ≡ s
supplied_hex s h = ap normalize (remove_prefix_hex s h) ∙ normalize_hex s h

present :
    (key size text : ℕ)
    → 1 ≤ key
    → 1 ≤ size
    → 1 ≤ text
    → (key == 0 || (size == 0 || text == 0)) ≡ false
present key size text a b c = ground arith

-- What the gateway's worker signs when it hands a held message over, a runtime with the same secret
-- takes, at any time of its own clock at most the replay window of 300 seconds away from the
-- gateway's. The secret and the text of the time stamp are not empty, and the digest of the body and
-- the time stamp is a text of lower-case hexadecimal digits, not empty, as `hexdigest` gives it.
pub verify_webhook-redelivery :
    (w : Router) (answer : GatewayResult) (key : Text) (row : Ingress) (sent received : Time)
    → let d = redelivery w answer key row sent in
      all_hex d.signature ≡ true
      → 1 ≤ length d.signature
      → 1 ≤ key
      → 1 ≤ d.timestamp.text
      → received ≤ sent + 300
      → sent ≤ received + 300
      → verify_webhook w.digest w.encode d.payload d.signature key d.timestamp received ≡ ok tt
unfolding verify_webhook
verify_webhook-redelivery w answer key row sent received hex long keyed stamped late early =
    let s = relay_hmac w key row.payload (stamp w sent) in
    rw (present key (length s) (w.decimal sent) keyed long stamped)
      (rw (is_replay_near sent received late early) (rw (supplied_hex s hex) (compared_hex s hex)))

-- The answer of the runtime for an answer of the gateway's check, none where that raises.
abbrev pub verdict : Option Bool → Result Refusal (Unit {0})
verdict none = err type_error
verdict (some false) = err unauthorized
verdict (some true) = ok tt

compared-verdict :
    (supplied expected : List ℕ)
    → compared supplied expected
      ≡ verdict (
          if not (length supplied == length expected)
          then some false
          else if all_ascii supplied
          then some (same_chars supplied expected)
          else none)
compared-verdict supplied expected = ground arith

-- The runtime and the gateway judge a signature alike: on a fresh time stamp, with a secret and a
-- signature that are not empty, the runtime accepts just where the gateway's check is true, refuses
-- just where it is false, and raises just where it raises.
pub verify_webhook-verify_relay_hmac :
    (w : Router) (payload key : Text) (signature : List ℕ) (timestamp : Stamp) (now : Time)
    → 1 ≤ key
    → 1 ≤ length signature
    → 1 ≤ timestamp.text
    → is_replay now timestamp.value ≡ false
    → verify_webhook w.digest w.encode payload signature key timestamp now
      ≡ verdict (verify_relay_hmac w key payload timestamp signature)
unfolding verify_webhook verify_relay_hmac
verify_webhook-verify_relay_hmac w payload key signature timestamp now keyed signed stamped fresh =
    rw (present key (length signature) timestamp.text keyed signed stamped) (
      rw fresh (
        compared-verdict (normalize (or_text signature (remove_prefix scheme signature)))
          (relay_hmac w key payload timestamp)))
