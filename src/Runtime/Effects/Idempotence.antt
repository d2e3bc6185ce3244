-- ===== src/Runtime/Effects/Idempotence.antt =====
-- The idempotence of hermes_cloud/core/effects.py: a key `(run_id, tool_use_id)` is begun once.
use abrolia.Common.{
  ℕ, ◌+◌, ◌≡◌, refl, Bool, true, false, Option, none, some, [], ◌∷◌, ◌++◌, arith, ltb, ◌==◌,
  ==_refl, exists, Result, ok, err, if◌then◌else◌,
}
use abrolia.Common.Rows.{
  find-append, exists-or, exists_of_find-none, find-update_where, find-none_of_exists,
}
use abrolia.Runtime.Schema.{
  Text, Time, done, Effect, Db, Error, effect_in_flight, refers, has_approval,
}
use abrolia.Runtime.Effects.{
  has_key, settled, new_effect, record_attempt, find_effect, begin, complete, lease_or_zero,
  settled_row,
}

-- `new_id()` returns an id that no effect has.
abbrev pub IsFresh : Text → Db → Type 0
IsFresh fresh db = exists (λ e. e.id == fresh) db.effects ≡ false

-- What `begin` answers for a row that is there.
abbrev pub answer : Effect → Time → Result Error (Effect × Bool)
answer e now =
    if settled e
    then ok (e, false)
    else if ltb now (lease_or_zero e.lease_until)
    then err (effect_in_flight e)
    else ok (e, false)

module _ (fresh run_id tool_use_id kind : Text) (approval_id payload_sha : Option Text)
    (now lease_seconds : ℕ) (db : Db) where
  abbrev inserted : Effect
  inserted = new_effect fresh run_id tool_use_id kind approval_id payload_sha now lease_seconds

  abbrev after_insert : Db
  after_insert = record db { effects = db.effects ++ inserted ∷ [] }

  -- The attempt is recorded under a new key and a new id, with its approval at hand.
  pub record_attempt_new :
      find_effect run_id tool_use_id db ≡ none
      → IsFresh fresh db
      → refers approval_id (has_approval db) ≡ true
      → record_attempt fresh run_id tool_use_id kind approval_id payload_sha now lease_seconds db
        ≡ (ok fresh, after_insert)
  unfolding record_attempt
  record_attempt_new absent new known = rw (
    exists-or (λ e. e.id == fresh) (has_key run_id tool_use_id) db.effects,
    new,
    exists_of_find-none (has_key run_id tool_use_id) db.effects absent,
    known,
  )

  pub begin_new :
      find_effect run_id tool_use_id db ≡ none
      → IsFresh fresh db
      → refers approval_id (has_approval db) ≡ true
      → begin fresh run_id tool_use_id kind approval_id payload_sha now lease_seconds db
        ≡ (ok (inserted, true), after_insert)
  unfolding begin
  begin_new absent new known = ground (
    arith,
    absent,
    record_attempt_new absent new known,
    find-append (λ e. e.id == fresh) db.effects (inserted ∷ []),
    find-none_of_exists (λ e. e.id == fresh) db.effects new,
  )

  pub begin_existing :
      (e : Effect)
      → find_effect run_id tool_use_id db ≡ some e
      → begin fresh run_id tool_use_id kind approval_id payload_sha now lease_seconds db
        ≡ (answer e now, db)
  unfolding begin
  begin_existing e present = ground arith

  -- The new row is what the key, and the id, then find.
  find_effect-inserted :
      find_effect run_id tool_use_id db ≡ none
      → find_effect run_id tool_use_id after_insert ≡ some inserted
  find_effect-inserted absent = ground (
    arith,
    absent,
    find-append (has_key run_id tool_use_id) db.effects (inserted ∷ []),
    ==_refl run_id,
    ==_refl tool_use_id,
  )

  abbrev completed : Text → Time → Effect
  completed result later = record inserted {
    status = done;
    result = some result;
    error = none;
    lease_until = none;
    updated_at = later;
  }

  find_effect-complete :
      (result : Text) (later : Time)
      → find_effect run_id tool_use_id db ≡ none
      → find_effect run_id tool_use_id (complete fresh result later after_insert)
        ≡ some (completed result later)
  unfolding complete
  find_effect-complete result later absent = ground (
    arith,
    find_effect-inserted absent,
    ==_refl fresh,
    find-update_where (has_key run_id tool_use_id) (λ e. e.id == fresh)
        (settled_row done (some result) none later) (after_insert).effects (λ r. ground arith),
  )

module _ (fresh run_id tool_use_id kind : Text) (approval_id payload_sha : Option Text)
    (now lease_seconds : ℕ) (db : Db) (absent : find_effect run_id tool_use_id db ≡ none)
    (new : IsFresh fresh db) (known : refers approval_id (has_approval db) ≡ true) where
  abbrev first_begin : Result Error (Effect × Bool) × Db
  first_begin = begin fresh run_id tool_use_id kind approval_id payload_sha now lease_seconds db

  -- Where no effect has the key, the id is new and the approval is known, `begin` inserts a pending
  -- effect with one attempt and a lease from now on, and returns it as fresh. A second `begin` of
  -- the same key, with any other arguments, then changes nothing: before the lease has run out it
  -- raises EffectInFlight, and from then on it returns the effect as not fresh.
  pub begin-begin :
      (fresh' kind' : Text) (approval_id' payload_sha' : Option Text) (later lease' : ℕ)
      → let e =
          new_effect fresh run_id tool_use_id kind approval_id payload_sha now lease_seconds in
        (first_begin ≡ (ok (e, true), record db { effects = db.effects ++ e ∷ [] }))
        × (begin fresh' run_id tool_use_id kind' approval_id' payload_sha' later lease'
              first_begin.1
            ≡ (
              (if ltb later (now + lease_seconds) then err (effect_in_flight e) else ok (e, false)),
              first_begin.1,
            ))
  begin-begin fresh' kind' approval_id' payload_sha' later lease' =
      let first =
        begin_new fresh run_id tool_use_id kind approval_id payload_sha now lease_seconds db absent
          new known in
      (
        first,
        rw first (
            begin_existing fresh' run_id tool_use_id kind' approval_id' payload_sha' later lease' _
              _
              (find_effect-inserted fresh run_id tool_use_id kind approval_id payload_sha now
                lease_seconds db absent)),
      )

  -- Under the same conditions, once the effect is completed a later `begin` of its key, at any time
  -- and with any other arguments, returns the recorded result as not fresh, and changes nothing.
  pub begin-complete :
      (result : Text) (at : Time) (fresh' kind' : Text) (approval_id' payload_sha' : Option Text)
      (later lease' : ℕ)
      → let db' = complete fresh result at first_begin.1 in
        (e : Effect) × (begin fresh' run_id tool_use_id kind' approval_id' payload_sha' later lease'
            db'
          ≡ (ok (e, false), db'))
        × (e.id ≡ fresh)
        × (e.status ≡ done)
        × (e.result ≡ some result)
  begin-complete result at fresh' kind' approval_id' payload_sha' later lease' = (
    completed fresh run_id tool_use_id kind approval_id payload_sha now lease_seconds db result at,
    rw
        (begin_new fresh run_id tool_use_id kind approval_id payload_sha now lease_seconds db absent
          new known)
        (begin_existing fresh' run_id tool_use_id kind' approval_id' payload_sha' later lease' _ _ (
          find_effect-complete fresh run_id tool_use_id kind approval_id payload_sha now
            lease_seconds db result at absent)),
    refl,
    refl,
    refl,
  )
