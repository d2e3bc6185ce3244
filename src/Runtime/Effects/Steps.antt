-- ===== src/Runtime/Effects/Steps.antt =====
-- The effect journal over any sequence of its operations.
use abrolia.Common.{ℕ, ◌≤◌, ◌≡◌, Option, [], ◌∷◌, ◌⊎◌, inl, inr, arith, ◌==◌, count_where}
use abrolia.Common.Rows.{count_where-update_where, count_where-append, count_of_exists, exists-or}
use abrolia.Runtime.Schema.{Text, Time, EffectStatus, Db}
use abrolia.Runtime.Effects.{
  has_key, new_effect, record_attempt, begin, settle, extend_lease, settled_row, extended_row,
}

-- How many effects have the key.
abbrev pub effects_of : Text → Text → Db → ℕ
effects_of run_id tool_use_id db = count_where (has_key run_id tool_use_id) db.effects

-- What the journal's methods do to the database: `begin`, `_settle` under its three names, and
-- `extend_lease`; and `record_attempt`, which the claim of an approval calls.
pub data JournalStep : Db → Db → Type 0 where
  began :
      (fresh run_id tool_use_id kind : Text) (approval_id payload_sha : Option Text) (now lease : ℕ)
      (db : Db)
      → JournalStep db (begin fresh run_id tool_use_id kind approval_id payload_sha now lease db).1
  recorded :
      (fresh run_id tool_use_id kind : Text) (approval_id payload_sha : Option Text) (now lease : ℕ)
      (db : Db)
      → JournalStep db
          (record_attempt fresh run_id tool_use_id kind approval_id payload_sha now lease db).1
  settled_step :
      (effect_id : Text) (status : EffectStatus) (result error : Option Text) (now : Time) (db : Db)
      → JournalStep db (settle effect_id status result error now db)
  extended :
      (effect_id : Text) (seconds : ℕ) (now : Time) (db : Db)
      → JournalStep db (extend_lease effect_id seconds now db)

pub data JournalRun (db : Db) : Db → Type 0 where
  here : JournalRun db db
  next : {t u : Db} → JournalRun db t → JournalStep t u → JournalRun db u

record_attempt_count :
    (r u fresh run_id tool_use_id kind : Text) (approval_id payload_sha : Option Text)
    (now lease : ℕ) (db : Db)
    → effects_of r u db ≤ 1
    → effects_of r u
        (record_attempt fresh run_id tool_use_id kind approval_id payload_sha now lease db).1
      ≤ 1
unfolding record_attempt
record_attempt_count r u fresh run_id tool_use_id kind approval_id payload_sha now lease db h =
    ground (
      arith,
      exists-or (λ e. e.id == fresh) (has_key run_id tool_use_id) db.effects,
      count_of_exists (has_key r u) db.effects,
      count_where-append (has_key r u) db.effects
          (new_effect fresh run_id tool_use_id kind approval_id payload_sha now lease ∷ []),
    )

-- `begin` changes the database as `record_attempt` does, or not at all.
pub begin_effect :
    (fresh run_id tool_use_id kind : Text) (approval_id payload_sha : Option Text) (now lease : ℕ)
    (db : Db)
    → let db' = (begin fresh run_id tool_use_id kind approval_id payload_sha now lease db).1 in
      (db' ≡ db)
      ⊎ (db'
          ≡ (record_attempt fresh run_id tool_use_id kind approval_id payload_sha now lease db).1)
unfolding begin
begin_effect fresh run_id tool_use_id kind approval_id payload_sha now lease db = ground arith

settle_count :
    (r u effect_id : Text) (status : EffectStatus) (result error : Option Text) (now : Time)
    (db : Db)
    → effects_of r u (settle effect_id status result error now db) ≡ effects_of r u db
unfolding settle
settle_count r u effect_id status result error now db =
    count_where-update_where (has_key r u) (λ e. e.id == effect_id)
      (settled_row status result error now) db.effects (λ e. ground arith)

extend_lease_count :
    (r u effect_id : Text) (seconds : ℕ) (now : Time) (db : Db)
    → effects_of r u (extend_lease effect_id seconds now db) ≡ effects_of r u db
unfolding extend_lease
extend_lease_count r u effect_id seconds now db =
    count_where-update_where (has_key r u) (λ e. e.id == effect_id) (extended_row seconds now)
      db.effects (λ e. ground arith)

-- Every step keeps at most one effect for each key.
pub step_count :
    (r u : Text) {s t : Db} → JournalStep s t → effects_of r u s ≤ 1 → effects_of r u t ≤ 1
step_count r u (began fresh run_id tool_use_id kind approval_id payload_sha now lease db) h =
    elim (begin_effect fresh run_id tool_use_id kind approval_id payload_sha now lease db) [
      | inl same ↦ rw same h
      | inr same ↦ rw same (
          record_attempt_count r u fresh run_id tool_use_id kind approval_id payload_sha now lease
            db h)
    ]
step_count r u (recorded fresh run_id tool_use_id kind approval_id payload_sha now lease db) h =
    record_attempt_count r u fresh run_id tool_use_id kind approval_id payload_sha now lease db h
step_count r u (settled_step effect_id status result error now db) h = rw settle_count h
step_count r u (extended effect_id seconds now db) h = rw extend_lease_count h
