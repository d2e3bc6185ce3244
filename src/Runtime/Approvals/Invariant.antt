-- ===== src/Runtime/Approvals/Invariant.antt =====
-- Approvals and the effect journal together, over any sequence of the operations of both stores.
use mathlib.Core.Path.{subst}
use abrolia.Common.{
  ℕ, ◌≡◌, ◌≢◌, refl, true, Option, List, [], ◌==◌, arith, inl, inr, All, All-append, sym,
}
use abrolia.Common.Rows.{All-update_where}
use abrolia.Runtime.Schema.{Text, Time, claimed, Db, ApprovalStatus, EffectStatus}
use abrolia.Runtime.Effects.{settle, extend_lease, begin, settled_row, extended_row}
use abrolia.Runtime.Effects.Steps.{begin_effect}
use abrolia.Runtime.Approvals.Store.{
  Digests, stage, claim, claim_by_id, mark, cancel, expire_stale, marked_row, cancelled_row,
  expired_row, is_overdue, is_staged_as,
}
use abrolia.Runtime.Approvals.Changes.{
  covered, IsRecorded, covered_more, covered_updated, record_attempt_change, claim_where-IsRecorded,
  claim_change, claim_by_id_change, stage_change,
}

-- A step of the two stores. `mark` takes any status; a call with the status claimed, which the program
-- does not make, is no step.
pub data StoreStep : Db → Db → Type 0 where
  staged_step :
      (d : Digests) (fresh : Text) (code : List ℕ) (kind payload chat actor : Text)
      (thread context_key event_id : Option Text) (ttl : ℕ) (now : Time) (db : Db)
      → StoreStep db
          (stage d fresh code kind payload chat actor thread context_key event_id ttl now db).1
  claimed_step :
      (d : Digests) (fresh_attempt fresh_effect : Text) (code : List ℕ) (chat : Text)
      (thread : Option Text) (actor : Text) (now : Time) (db : Db)
      → StoreStep db (claim d fresh_attempt fresh_effect code chat thread actor now db).1
  pressed :
      (d : Digests) (fresh_attempt fresh_effect approval_id chat : Text) (thread : Option Text)
      (actor : Text) (now : Time) (db : Db)
      → StoreStep db
          (claim_by_id d fresh_attempt fresh_effect approval_id chat thread actor now db).1
  marked :
      (approval_id : Text) (status : ApprovalStatus) (receipt error : Option Text) (now : Time)
      (db : Db)
      → status ≢ claimed
      → StoreStep db (mark approval_id status receipt error now db)
  cancelled_step :
      (approval_id : Text) (now : Time) (db : Db) → StoreStep db (cancel approval_id now db).1
  expired_step : (now : Time) (db : Db) → StoreStep db (expire_stale now db).1
  settled_step :
      (effect_id : Text) (status : EffectStatus) (result error : Option Text) (now : Time) (db : Db)
      → StoreStep db (settle effect_id status result error now db)
  extended :
      (effect_id : Text) (seconds : ℕ) (now : Time) (db : Db)
      → StoreStep db (extend_lease effect_id seconds now db)
  began :
      (fresh run_id tool_use_id kind : Text) (approval_id payload_sha : Option Text) (now lease : ℕ)
      (db : Db)
      → StoreStep db (begin fresh run_id tool_use_id kind approval_id payload_sha now lease db).1

pub data StoreRun (db : Db) : Db → Type 0 where
  here : StoreRun db db
  next : {t u : Db} → StoreRun db t → StoreStep t u → StoreRun db u

StoreStep-IsRecorded : {s t : Db} → StoreStep s t → IsRecorded s → IsRecorded t
StoreStep-IsRecorded
      (staged_step d fresh code kind payload chat actor thread context_key event_id ttl now db) h =
    elim (stage_change d fresh code kind payload chat actor thread context_key event_id ttl now
      db) [
        | inl same ↦ rw same h
        | inr grown ↦
            rw grown (All-append (λ a. covered db.effects a ≡ true) db.approvals _ h (refl, tt))
      ]
StoreStep-IsRecorded (claimed_step d fresh_attempt fresh_effect code chat thread actor now db) h =
    elim (claim_change d fresh_attempt fresh_effect code chat thread actor now db) [
      | inl same ↦ rw same h
      | inr (inl noted) ↦ rw noted h
      | inr (inr ran) ↦
          rw ran (claim_where-IsRecorded d fresh_attempt fresh_effect chat actor thread now _ db h)
    ]
StoreStep-IsRecorded (pressed d fresh_attempt fresh_effect k chat thread actor now db) h =
    elim (claim_by_id_change d fresh_attempt fresh_effect k chat thread actor now db) [
      | inl same ↦ rw same h
      | inr ran ↦
          rw ran (claim_where-IsRecorded d fresh_attempt fresh_effect chat actor thread now _ db h)
    ]
StoreStep-IsRecorded (marked k status receipt error now db other) h =
    unfold mark in
    All-update_where (λ a. covered db.effects a ≡ true) (λ a. a.id == k)
      (marked_row status receipt error now) db.approvals (λ a e. ground (arith, other)) h
StoreStep-IsRecorded (cancelled_step k now db) h =
    unfold cancel in
    All-update_where (λ a. covered db.effects a ≡ true) (is_staged_as k) (cancelled_row now)
      db.approvals (λ a e. ground arith) h
StoreStep-IsRecorded (expired_step now db) h =
    unfold expire_stale in
    All-update_where (λ a. covered db.effects a ≡ true) (is_overdue now) (expired_row now)
      db.approvals (λ a e. ground arith) h
StoreStep-IsRecorded (settled_step k status result error now db) h =
    unfold settle in
    covered_updated (λ e. e.id == k) (settled_row status result error now) db.effects
      (λ j e. ground arith) db.approvals h
StoreStep-IsRecorded (extended k seconds now db) h =
    unfold extend_lease in
    covered_updated (λ e. e.id == k) (extended_row seconds now) db.effects (λ j e. ground arith)
      db.approvals h
StoreStep-IsRecorded (began fresh run_id tool_use_id kind approval_id payload_sha now lease db) h =
    elim (begin_effect fresh run_id tool_use_id kind approval_id payload_sha now lease db) [
      | inl same ↦ rw same h
      | inr ran ↦
          rw ran
            (elim (record_attempt_change fresh run_id tool_use_id kind approval_id payload_sha now
              lease db) [
                | inl same ↦ rw same h
                | inr grown ↦ rw grown (covered_more db.effects _ db.approvals h)
              ])
    ]

-- From a database with no approvals, whatever the two stores do in whatever order, where `mark` is
-- never called with the status claimed, every approval that is claimed has an attempt of its own in
-- the effect journal.
pub claimed-IsRecorded : {s t : Db} → s.approvals ≡ [] → StoreRun s t → IsRecorded t
claimed-IsRecorded {s = s} empty here =
    subst (λ rows. All (λ a. covered s.effects a ≡ true) rows) (sym empty) tt
claimed-IsRecorded empty (next run step) = StoreStep-IsRecorded step (claimed-IsRecorded empty run)
