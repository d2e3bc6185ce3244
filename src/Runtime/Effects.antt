-- ===== src/Runtime/Effects.antt =====
-- hermes_cloud/core/effects.py: the effect journal. An argument `fresh` is what `new_id()` returns,
-- and `now` is the resolved time of the call.
pub mod Idempotence
pub mod Steps
use abrolia.Common.{
  ℕ, ◌+◌, Bool, true, false, not, ◌&&◌, ◌||◌, Option, none, some, List, [], ◌∷◌, ◌++◌, ◌⊎◌, inl,
  inr, if◌then◌else◌, ltb, leb, ◌==◌, is_some, at_most, select, find, exists, update_where,
  order_by, take, Action, pure, raise, raise_if, gets, modify, or_raise, write, ◌>>=◌, ◌>>◌, suc,
}
use abrolia.Runtime.Schema.{
  Text, Time, EffectStatus, pending, done, failed, outcome_unknown, Effect, Db, Error, integrity,
  assertion, effect_in_flight, refers, has_approval,
}

abbrev pub default_lease_seconds : ℕ
default_lease_seconds = 120

abbrev pub is_pending : EffectStatus → Bool
is_pending pending = true
is_pending _ = false

-- `Effect.settled`
abbrev pub settled : Effect → Bool
settled e = not (is_pending e.status)

abbrev pub has_key : Text → Text → Effect → Bool
has_key run_id tool_use_id e = e.run_id == run_id && e.tool_use_id == tool_use_id

abbrev pub new_effect : Text → Text → Text → Text → Option Text → Option Text → Time → ℕ → Effect
new_effect fresh run_id tool_use_id kind approval_id payload_sha now lease_seconds = record {
  id = fresh;
  run_id = run_id;
  tool_use_id = tool_use_id;
  kind = kind;
  approval_id = approval_id;
  payload_sha = payload_sha;
  status = pending;
  result = none;
  error = none;
  attempts = 1;
  lease_until = some (now + lease_seconds);
  created_at = now;
  updated_at = now;
}

-- The INSERT, with the primary key, the unique index `effects_run_tool` and the foreign key.
unfoldable pub record_attempt :
    Text → Text → Text → Text → Option Text → Option Text → Time → ℕ → Action Error Db Text
record_attempt fresh run_id tool_use_id kind approval_id payload_sha now lease_seconds db =
    if exists (λ e. e.id == fresh || has_key run_id tool_use_id e) db.effects
      || not (refers approval_id (has_approval db))
    then raise integrity db
    else pure fresh (record db {
      effects =
          db.effects
          ++ new_effect fresh run_id tool_use_id kind approval_id payload_sha now lease_seconds
            ∷ [];
    })

-- `EffectJournal.get` and `EffectJournal.find`
abbrev pub get : Text → Db → Option Effect
get effect_id db = find (λ e. e.id == effect_id) db.effects

abbrev pub find_effect : Text → Text → Db → Option Effect
find_effect run_id tool_use_id db = find (has_key run_id tool_use_id) db.effects

abbrev pub lease_or_zero : Option Time → Time
lease_or_zero none = 0
lease_or_zero (some t) = t

-- The body of the transaction: the row that was there, or the id of the one inserted.
unfoldable pub begin_body :
    Text
    → Text
    → Text
    → Text
    → Option Text
    → Option Text
    → Time
    → ℕ
    → Option Effect
    → Action Error Db (Effect ⊎ Text)
begin_body fresh run_id tool_use_id kind approval_id payload_sha now lease_seconds none = do
  effect_id ← record_attempt fresh run_id tool_use_id kind approval_id payload_sha now lease_seconds
  pure (inr effect_id)
begin_body fresh run_id tool_use_id kind approval_id payload_sha now lease_seconds (some existing) =
    if settled existing
    then pure (inl existing)
    else if ltb now (lease_or_zero existing.lease_until)
    then raise (effect_in_flight existing)
    else pure (inl existing)

-- What `begin` returns after the transaction.
unfoldable pub begin_result : Effect ⊎ Text → Action Error Db (Effect × Bool)
begin_result (inl existing) = pure (existing, false)
begin_result (inr effect_id) = do
  effect ← or_raise (← gets (get effect_id)) assertion
  pure (effect, true)

unfoldable pub begin :
    Text
    → Text
    → Text
    → Text
    → Option Text
    → Option Text
    → Time
    → ℕ
    → Action Error Db (Effect × Bool)
unfolding begin_body begin_result
begin fresh run_id tool_use_id kind approval_id payload_sha now lease_seconds = do
  outcome ← write (λ db.
      begin_body fresh run_id tool_use_id kind approval_id payload_sha now lease_seconds
        (find_effect run_id tool_use_id db) db)
  begin_result outcome

abbrev pub settled_row : EffectStatus → Option Text → Option Text → Time → Effect → Effect
settled_row status result error now e = record e {
  status = status;
  result = result;
  error = error;
  lease_until = none;
  updated_at = now;
}

-- `_settle`, and its three callers.
unfoldable pub settle : Text → EffectStatus → Option Text → Option Text → Time → Db → Db
settle effect_id status result error now db = record db {
  effects = update_where (λ e. e.id == effect_id) (settled_row status result error now) db.effects;
}

unfoldable pub complete : Text → Text → Time → Db → Db
unfolding settle
complete effect_id result now = settle effect_id done (some result) none now

unfoldable pub fail : Text → Text → Time → Db → Db
unfolding settle
fail effect_id error now = settle effect_id failed none (some error) now

unfoldable pub mark_unknown : Text → Text → Time → Db → Db
unfolding settle
mark_unknown effect_id error now = settle effect_id outcome_unknown none (some error) now

abbrev pub extended_row : ℕ → Time → Effect → Effect
extended_row seconds now e = record e {
  lease_until = some (now + seconds);
  attempts = e.attempts + 1;
  updated_at = now;
}

unfoldable pub extend_lease : Text → ℕ → Time → Db → Db
extend_lease effect_id seconds now db = record db {
  effects = update_where (λ e. e.id == effect_id) (extended_row seconds now) db.effects;
}

abbrev earlier : Effect → Effect → Bool
earlier a b = leb a.created_at b.created_at

abbrev earlier_or_id : Effect → Effect → Bool
earlier_or_id a b = ltb a.created_at b.created_at || (a.created_at == b.created_at && leb a.id b.id)

unfoldable pub for_run : Text → Db → List Effect
for_run run_id db = order_by earlier_or_id (select (λ e. e.run_id == run_id) db.effects)

unfoldable pub has_effects : Text → Db → Bool
has_effects run_id db = is_some (find (λ e. e.run_id == run_id) db.effects)

abbrev pub is_stale : Time → Effect → Bool
is_stale now e = is_pending e.status && stale_lease e.lease_until
  where
    stale_lease : Option Time → Bool
    stale_lease none = true
    stale_lease (some t) = leb t now

unfoldable pub stale : Time → ℕ → Db → List Effect
stale now limit db = take limit (order_by earlier (select (is_stale now) db.effects))
