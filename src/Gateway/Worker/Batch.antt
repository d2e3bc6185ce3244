-- ===== src/Gateway/Worker/Batch.antt =====
-- A whole pass of the worker over the rows that are due.
use abrolia.Common.{
  ℕ, ◌≡◌, ◌+◌, refl, Bool, true, false, Option, none, some, List, [], ◌∷◌, arith, find, exists,
  delete_where, update_where, All, ◌==◌, ◌∙◌, Option-cases, inl, inr, Bool-cases, leb, not, ◌*◌,
  ◌^◌, ◌-◌,
}
use abrolia.Common.Keys.{Distinct}
use abrolia.Common.Selecting.{All-query, Distinct-query, All-found}
use abrolia.ControlPlane.Schema.{Text, Time}
use abrolia.Gateway.Store.{
  Code, Ingress, Delivery, Store, is_row, mark_delivered, defer, deferred_row, due,
  relay_key_absent, Stamp, flag_disabled,
}
use abrolia.Gateway.Router.{
  Router, GatewayResult, Outcome, accepted, runtime_error, other_error, asked, route,
  base_backoff_seconds,
}
use abrolia.Gateway.Worker.{
  Fate, Turn, spend, hold, finish, send, retry, classify, process_from, process, caught, handle,
  run_rows, run_once, redelivery, stamp, routed_key, is_authentic, provenance, max_attempts,
}
use abrolia.Gateway.Worker.Retention.{Spent, handle-Spent}

abbrev ingress_id : Ingress → ℕ
ingress_id r = r.id

-- Rows under another id are found as they were.
abbrev Keeps : Text → Store → Store → Type 0
Keeps k s t = find (is_row k) t.gateway_ingress ≡ find (is_row k) s.gateway_ingress

find-delete_other :
    (k j : Text) (rows : List Ingress)
    → (j == k) ≡ false
    → find (is_row k) (delete_where (is_row j) rows) ≡ find (is_row k) rows
find-delete_other k j [] apart = refl
find-delete_other k j (r ∷ rows) apart = ground (arith, find-delete_other k j rows apart)

find-update_other :
    (k j : Text) (f : Ingress → Ingress) (rows : List Ingress)
    → ((r : Ingress) → (f r).id ≡ r.id)
    → (j == k) ≡ false
    → find (is_row k) (update_where (is_row j) f rows) ≡ find (is_row k) rows
find-update_other k j f [] same apart = refl
find-update_other k j f (r ∷ rows) same apart =
    ground (arith, same r, find-update_other k j f rows same apart)

module _ (k : Text) (row : Ingress) (apart : (row.id == k) ≡ false) where
  marked-Keeps : (s : Store) → Keeps k s (mark_delivered row.id s)
  unfolding mark_delivered
  marked-Keeps s = find-delete_other k row.id s.gateway_ingress apart

  deferred-Keeps :
      (error : Code) (not_before : Time) (household_id : Option Text) (spent : Bool) (s : Store)
      → Keeps k s (defer row.id error not_before household_id spent s)
  unfolding defer
  deferred-Keeps error not_before household_id spent s =
      find-update_other k row.id (deferred_row error not_before household_id spent)
        s.gateway_ingress (λ r. refl) apart

  spend-Keeps : (now : Time) (error : Code) (s : Store) → Keeps k s (spend row now error s).1
  unfolding spend
  spend-Keeps now error s = elim (Bool-cases (leb max_attempts (row.attempts + 1))) [
    | inl over ↦ rw over (marked-Keeps s)
    | inr left ↦
        rw left (
          deferred-Keeps error (now + base_backoff_seconds * 2 ^ (row.attempts + 1 - 1)) none true
            s)
  ]

  hold-Keeps : (now : Time) (s : Store) → Keeps k s (hold row now s)
  unfolding hold
  hold-Keeps now s = deferred-Keeps flag_disabled (now + base_backoff_seconds) none false s

  caught-Keeps : (t : Turn) (r : Option Fate × Store) → Keeps k r.1 (caught t row r).1
  unfolding caught
  caught-Keeps t (some fate, s) = refl
  caught-Keeps t (none, s) = spend-Keeps t.later _ s

  finish-Keeps : (t : Turn) (o : Outcome) (s : Store) → Keeps k s (finish t o row s).1
  unfolding finish
  finish-Keeps t accepted s = marked-Keeps s
  finish-Keeps t runtime_error s = spend-Keeps t.later _ s
  finish-Keeps t other_error s = refl

  send-Keeps : (t : Turn) (d : Delivery) (s : Store) → Keeps k s (send t d row s).1
  unfolding send
  send-Keeps t d s = elim (Option-cases t.world.runtime_deliver) [
    | inl nobody ↦ rw nobody (marked-Keeps s)
    | inr (deliver, asks) ↦ rw asks (finish-Keeps t (deliver d) (asked d s))
  ]

  retry-Keeps :
      (w : Router) (t : Turn) (answer : GatewayResult) (key : Option Text) (s : Store)
      → Keeps k s (retry w t answer key row s).1
  unfolding retry
  retry-Keeps w t answer none s = elim (Bool-cases (not t.world.enabled)) [
    | inl off ↦ rw off (hold-Keeps t.now s)
    | inr on ↦ rw on (spend-Keeps t.now relay_key_absent s)
  ]
  retry-Keeps w t answer (some key) s = elim (Bool-cases (not t.world.enabled)) [
    | inl off ↦ rw off (hold-Keeps t.now s)
    | inr on ↦ rw on (send-Keeps t (redelivery w answer key row t.now) s)
  ]

  classify-Keeps :
      (w : Router) (t : Turn) (answer : GatewayResult) (key : Option Text) (authentic : Option Bool)
      (s : Store)
      → Keeps k s (classify w t answer key row authentic s).1
  unfolding classify
  classify-Keeps w t answer key none s = refl
  classify-Keeps w t answer key (some false) s = marked-Keeps s
  classify-Keeps w t answer key (some true) s = retry-Keeps w t answer key s

  process_from-Keeps :
      (w : Router) (t : Turn) (origin : Option (Stamp × List ℕ)) (s : Store)
      → Keeps k s (process_from w t row origin s).1
  unfolding process_from
  process_from-Keeps w t none s = marked-Keeps s
  process_from-Keeps w t (some origin) s =
      let answer = route w t.world row.sender row.channel (stamp w t.now) t.now in
      let key = routed_key w answer.household_id in
      ground
        (arith, marked-Keeps s, classify-Keeps w t answer key (is_authentic w key row origin) s)

  handle-Keeps : (w : Router) (t : Turn) (s : Store) → Keeps k s (handle w t row s).1
  unfolding handle process
  handle-Keeps w t s =
      caught-Keeps t (process w t row s)
      ∙ ground (arith, marked-Keeps s, process_from-Keeps w t (provenance row) s)

-- The rest of a pass leaves a row that is none of its rows.
run_rows-Keeps :
    (w : Router) (turn : Ingress → Turn) (k : Text) (rows : List Ingress) (s : Store)
    → exists (λ r. r.id == k) rows ≡ false
    → Keeps k s (run_rows w turn rows s).1
unfolding run_rows
run_rows-Keeps w turn k [] s h = refl
run_rows-Keeps w turn k (row ∷ rows) s h =
    run_rows-Keeps w turn k rows (handle w (turn row) row s).1 (ground arith)
    ∙ handle-Keeps k row (ground arith) w (turn row) s

Spent-Keeps : (row : Ingress) (s t : Store) → Keeps row.id s t → Spent row s → Spent row t
Spent-Keeps row s t same (inl gone) = inl (same ∙ gone)
Spent-Keeps row s t same (inr (r, found, named, more, few)) =
    inr (r, same ∙ found, named, more, few)

-- Rows that wait behind a row are found as they were after its round.
waiting :
    (w : Router) (t : Turn) (row : Ingress) (rows : List Ingress) (s : Store)
    → exists (λ r. r.id == row.id) rows ≡ false
    → All (λ r. find (is_row r.id) s.gateway_ingress ≡ some r) rows
    → All (λ r. find (is_row r.id) (handle w t row s).1.gateway_ingress ≡ some r) rows
waiting w t row [] s h a = tt
waiting w t row (r ∷ rows) s h a =
    (handle-Keeps r.id row (ground arith) w t s ∙ a.0, waiting w t row rows s (ground arith) a.1)

run_rows-Spent :
    (w : Router) (turn : Ingress → Turn) (rows : List Ingress) (s : Store)
    → Distinct ingress_id rows
    → All (λ r. find (is_row r.id) s.gateway_ingress ≡ some r) rows
    → All (λ r. (turn r).world.enabled ≡ true) rows
    → All (λ r. Spent r (run_rows w turn rows s).1) rows
unfolding run_rows
run_rows-Spent w turn [] s d found enabled = tt
run_rows-Spent w turn (row ∷ rows) s d found enabled =
    let s' = (handle w (turn row) row s).1 in
    (
      Spent-Keeps row s' (run_rows w turn rows s').1 (run_rows-Keeps w turn row.id rows s' d.0)
          (handle-Spent w (turn row) row s found.0 enabled.0),
      run_rows-Spent w turn rows s' d.1 (waiting w (turn row) row rows s d.0 found.1) enabled.1,
    )

every {κ} : {P : Ingress → Type κ} → ((r : Ingress) → P r) → (rows : List Ingress) → All P rows
every h [] = tt
every h (r ∷ rows) = (h r, every h rows)

-- A row whose processing raises does not hold the others up. In a pass with the switch on at every
-- row, whichever of the rows raise, in the check of the signature or in the delivery, each row that was
-- due is gone from the store after the pass, or stands there with exactly one attempt more and fewer
-- than eight. Rows have distinct ids, as the primary key makes them.
pub run_once-Spent :
    (w : Router) (turn : Ingress → Turn) (now : Time) (limit : ℕ) (s : Store)
    → Distinct ingress_id s.gateway_ingress
    → ((r : Ingress) → (turn r).world.enabled ≡ true)
    → All (λ r. Spent r (run_once w turn now limit s).1) (due now limit s)
unfolding run_once due
run_once-Spent w turn now limit s keys enabled =
    run_rows-Spent w turn (due now limit s) s
      (Distinct-query ingress_id limit _ _ s.gateway_ingress keys)
      (All-query (λ r. find (is_row r.id) s.gateway_ingress ≡ some r) limit _ _ s.gateway_ingress
        (All-found ingress_id s.gateway_ingress keys))
      (All-query (λ r. (turn r).world.enabled ≡ true) limit _ _ s.gateway_ingress
        (every enabled s.gateway_ingress))
