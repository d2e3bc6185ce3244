-- ===== src/Gateway/Worker/Retention.antt =====
-- How long the worker keeps a row, and what it reports.
use abrolia.Common.{
  ℕ, ◌≡◌, ◌≤◌, ◌<◌, refl, Bool, true, false, not, ◌||◌, Option, none, some, List, [], ◌∷◌, ◌+◌, ◌⊎◌,
  inl, inr, arith, find, Option-cases, Bool-cases, length, All, leb, ◌-◌, ◌*◌, ◌^◌, ◌∙◌, ap, sym,
  same_option,
}
use mathlib.Core.Path.{subst}
use abrolia.Common.Deletes.{find-delete_where}
use abrolia.Common.Rows.{find-update_where}
use abrolia.ControlPlane.Schema.{Text, Time}
use abrolia.Gateway.Store.{
  Code, Stamp, Ingress, Delivery, Store, is_row, mark_delivered, defer, deferred_row,
  relay_key_absent, runtime_unavailable, worker_error,
}
use abrolia.Gateway.Router.{
  Router, GatewayResult, route, asked, base_backoff_seconds, Outcome, accepted, runtime_error,
  other_error,
}
use abrolia.Gateway.Worker.{
  Turn, is_expired, provenance, spend, stamp, send, finish, retry, classify, process_from, process,
  caught, handle, max_attempts, redelivery, is_authentic, routed_key,
}

-- What a turn leaves of a row: nothing, or the row with one attempt more, and fewer than eight.
abbrev pub Spent : Ingress → Store → Type 0
Spent row s =
    (find (is_row row.id) s.gateway_ingress ≡ none)
    ⊎ ((r : Ingress) × (find (is_row row.id) s.gateway_ingress ≡ some r)
        × (r.id ≡ row.id)
        × (r.attempts ≡ row.attempts + 1)
        × (r.attempts < max_attempts))

gone : (row : Ingress) (s : Store) → Spent row (mark_delivered row.id s)
unfolding mark_delivered
gone row s = inl (find-delete_where (is_row row.id) s.gateway_ingress)

gone_asked :
    (row : Ingress) (d : Delivery) (s : Store) → Spent row (mark_delivered row.id (asked d s))
unfolding mark_delivered
gone_asked row d s = inl (find-delete_where (is_row row.id) s.gateway_ingress)

spend-Spent :
    (row : Ingress) (now : Time) (error : Code) (s : Store)
    → find (is_row row.id) s.gateway_ingress ≡ some row
    → Spent row (spend row now error s).1
unfolding spend defer
spend-Spent row now error s found = elim (Bool-cases (leb max_attempts (row.attempts + 1))) [
  | inl over ↦ rw over (gone row s)
  | inr left ↦
      let f =
        deferred_row error (now + base_backoff_seconds * 2 ^ (row.attempts + 1 - 1)) none true in
      let moved =
        find-update_where (is_row row.id) (is_row row.id) f s.gateway_ingress (λ r. ground arith) in
      rw left (inr (f row, ground (arith, moved, found), refl, refl, ground (arith, left)))
]

finish-Spent :
    (t : Turn) (o : Outcome) (row : Ingress) (s : Store)
    → find (is_row row.id) s.gateway_ingress ≡ some row
    → Spent row (caught t row (finish t o row s)).1
unfolding finish caught
finish-Spent t accepted row s found = gone row s
finish-Spent t runtime_error row s found = spend-Spent row t.later runtime_unavailable s found
finish-Spent t other_error row s found = spend-Spent row t.later worker_error s found

send-Spent :
    (t : Turn) (d : Delivery) (row : Ingress) (s : Store)
    → find (is_row row.id) s.gateway_ingress ≡ some row
    → Spent row (caught t row (send t d row s)).1
unfolding send caught
send-Spent t d row s found = elim (Option-cases t.world.runtime_deliver) [
  | inl nobody ↦ rw nobody (gone row s)
  | inr (deliver, asks) ↦ rw asks (finish-Spent t (deliver d) row (asked d s) found)
]

retry-Spent :
    (w : Router) (t : Turn) (answer : GatewayResult) (key : Option Text) (row : Ingress) (s : Store)
    → find (is_row row.id) s.gateway_ingress ≡ some row
    → t.world.enabled ≡ true
    → Spent row (caught t row (retry w t answer key row s)).1
unfolding retry caught
retry-Spent w t answer none row s found enabled =
    rw enabled (spend-Spent row t.now relay_key_absent s found)
retry-Spent w t answer (some k) row s found enabled =
    rw enabled (send-Spent t (redelivery w answer k row t.now) row s found)

classify-Spent :
    (w : Router) (t : Turn) (answer : GatewayResult) (key : Option Text) (row : Ingress)
    (authentic : Option Bool) (s : Store)
    → find (is_row row.id) s.gateway_ingress ≡ some row
    → t.world.enabled ≡ true
    → Spent row (caught t row (classify w t answer key row authentic s)).1
unfolding classify caught
classify-Spent w t answer key row none s found enabled =
    spend-Spent row t.later worker_error s found
classify-Spent w t answer key row (some false) s found enabled = gone row s
classify-Spent w t answer key row (some true) s found enabled =
    retry-Spent w t answer key row s found enabled

process_from-Spent :
    (w : Router) (t : Turn) (row : Ingress) (origin : Option (Stamp × List ℕ)) (s : Store)
    → find (is_row row.id) s.gateway_ingress ≡ some row
    → t.world.enabled ≡ true
    → Spent row (caught t row (process_from w t row origin s)).1
unfolding process_from caught
process_from-Spent w t row none s found enabled = gone row s
process_from-Spent w t row (some origin) s found enabled =
    let answer = route w t.world row.sender row.channel (stamp w t.now) t.now in
    elim (Bool-cases
      (not answer.delivered || not (same_option answer.household_id row.household_id))) [
        | inl refused ↦ rw refused (gone row s)
        | inr routed ↦ rw routed (
            classify-Spent w t answer (routed_key w answer.household_id) row
              (is_authentic w (routed_key w answer.household_id) row origin) s found enabled)
      ]

-- A turn with the switch on ends the row or spends one of its attempts.
pub handle-Spent :
    (w : Router) (t : Turn) (row : Ingress) (s : Store)
    → find (is_row row.id) s.gateway_ingress ≡ some row
    → t.world.enabled ≡ true
    → Spent row (handle w t row s).1
unfolding handle process caught
handle-Spent w t row s found enabled = elim (Bool-cases (is_expired t.now row)) [
  | inl old ↦ rw old (gone row s)
  | inr fresh ↦ rw fresh (process_from-Spent w t row (provenance row) s found enabled)
]

-- The turns of one row, in the order in which they come; nothing is done once it is gone.
unfoldable pub turn_row : Router → Turn → Option Ingress → Store → Store
turn_row w t none s = s
turn_row w t (some row) s = (handle w t row s).1

unfoldable pub turns : Router → List Turn → Text → Store → Store
turns w [] ingress_id s = s
turns w (t ∷ ts) ingress_id s =
    turns w ts ingress_id (turn_row w t (find (is_row ingress_id) s.gateway_ingress) s)

turns_idle :
    (w : Router) (ts : List Turn) (ingress_id : Text) (s : Store)
    → find (is_row ingress_id) s.gateway_ingress ≡ none
    → find (is_row ingress_id) (turns w ts ingress_id s).gateway_ingress ≡ none
unfolding turns turn_row
turns_idle w [] ingress_id s h = h
turns_idle w (t ∷ ts) ingress_id s h =
    ap (λ o. find (is_row ingress_id) (turns w ts ingress_id (turn_row w t o s)).gateway_ingress) h
    ∙ turns_idle w ts ingress_id s h

-- A row is kept for eight turns at most: whatever the runtimes, the keys and the lookups do in them,
-- after as many turns with the switch on as it has attempts left the row is gone, delivered or not.
pub turns-gone :
    (w : Router) (ts : List Turn) (row : Ingress) (s : Store)
    → find (is_row row.id) s.gateway_ingress ≡ some row
    → All (λ t. t.world.enabled ≡ true) ts
    → row.attempts < max_attempts
    → max_attempts ≤ row.attempts + length ts
    → find (is_row row.id) (turns w ts row.id s).gateway_ingress ≡ none
unfolding turns turn_row
turns-gone w [] row s found enabled few many = absurd (omega arith)
turns-gone w (t ∷ ts) row s found enabled few many =
    ap (λ o. find (is_row row.id) (turns w ts row.id (turn_row w t o s)).gateway_ingress) found
    ∙ elim (handle-Spent w t row s found enabled.0) [
      | inl gone_now ↦ turns_idle w ts row.id (handle w t row s).1 gone_now
      | inr (r, kept, same, one_more, fewer) ↦
          subst (λ k. find (is_row k) (turns w ts k (handle w t row s).1).gateway_ingress ≡ none)
            same
            (turns-gone w ts r (handle w t row s).1
              (subst (λ k. find (is_row k) (handle w t row s).1.gateway_ingress ≡ some r) (sym same)
                kept)
              enabled.1 fewer (omega arith))
    ]
