-- ===== src/ControlPlane/Revisions/Lifecycle.antt =====
-- The life of one revision, as a state machine of its own.
use abrolia.Common.{
  ℕ, ◌≡◌, Bool, true, Option, none, some, List, [], ◌∷◌, ◌++◌, ◌==◌, inl, inr, arith, find,
  update_where, upd, Bool-cases, Option-cases, sym, ap, ◌∙◌, ==_iff,
}
use mathlib.Core.Option
use abrolia.Common.Rows.{find-update_where, find-append}
use abrolia.Common.Keys.{find-key}
use abrolia.ControlPlane.Rows.{Text, Time, RevisionStatus, ConfigRevision}
use abrolia.ControlPlane.Configs.{is_revision, is_issuable, is_issuable_status, issued_row}
use abrolia.ControlPlane.Bootstrap.{is_claimed_by_id, is_issued_status, claimed_row}
use abrolia.ControlPlane.Bootstrap.Replay.{is_active_revision}
use abrolia.ControlPlane.Bootstrap.Checks.{is_claimed_status}
use abrolia.ControlPlane.Bootstrap.Activation.{is_superseded, superseded_row, active_row, serve}
use abrolia.ControlPlane.Withdrawal.{is_standing_revision, is_standing_status, revoked_row}
use abrolia.ControlPlane.Revisions.{
  RowsStep, kept, added, reissued, taken, served, withdrawn, IsSound, is_planned_status, row_id,
}

-- A step of a revision's life; `none` stands before it is created. It is issued before it is claimed,
-- claimed before it serves, and serves at most once: nothing leads out of superseded and revoked.
pub data Lifecycle : Option RevisionStatus → Option RevisionStatus → Type 0 where
  stays : (o : Option RevisionStatus) → Lifecycle o o
  plans : Lifecycle none (some RevisionStatus.planned)
  issues :
      (s : RevisionStatus)
      → is_issuable_status s ≡ true
      → Lifecycle (some s) (some RevisionStatus.issued)
  claims : Lifecycle (some RevisionStatus.issued) (some RevisionStatus.claimed)
  activates : Lifecycle (some RevisionStatus.claimed) (some RevisionStatus.active)
  supersedes : Lifecycle (some RevisionStatus.active) (some RevisionStatus.superseded)
  revokes :
      (s : RevisionStatus)
      → is_standing_status s ≡ true
      → Lifecycle (some s) (some RevisionStatus.revoked)

-- The abstract state of a table: the status of each revision of each household.
abbrev pub status_of : Text → ℕ → List ConfigRevision → Option RevisionStatus
status_of h n rows = Option.map (λ r. r.status) (find (is_revision h n) rows)

claims_of :
    (s : RevisionStatus)
    → is_issued_status s ≡ true
    → Lifecycle (some s) (some RevisionStatus.claimed)
claims_of RevisionStatus.issued e = claims
claims_of RevisionStatus.planned e = absurd (ground arith)
claims_of RevisionStatus.claimed e = absurd (ground arith)
claims_of RevisionStatus.active e = absurd (ground arith)
claims_of RevisionStatus.superseded e = absurd (ground arith)
claims_of RevisionStatus.revoked e = absurd (ground arith)

activates_of :
    (s : RevisionStatus)
    → is_claimed_status s ≡ true
    → Lifecycle (some s) (some RevisionStatus.active)
activates_of RevisionStatus.claimed e = activates
activates_of RevisionStatus.planned e = absurd (ground arith)
activates_of RevisionStatus.issued e = absurd (ground arith)
activates_of RevisionStatus.active e = absurd (ground arith)
activates_of RevisionStatus.superseded e = absurd (ground arith)
activates_of RevisionStatus.revoked e = absurd (ground arith)

supersedes_of :
    (s : RevisionStatus)
    → is_active_revision s ≡ true
    → Lifecycle (some s) (some RevisionStatus.superseded)
supersedes_of RevisionStatus.active e = supersedes
supersedes_of RevisionStatus.planned e = absurd (ground arith)
supersedes_of RevisionStatus.issued e = absurd (ground arith)
supersedes_of RevisionStatus.claimed e = absurd (ground arith)
supersedes_of RevisionStatus.superseded e = absurd (ground arith)
supersedes_of RevisionStatus.revoked e = absurd (ground arith)

plans_of : (s : RevisionStatus) → is_planned_status s ≡ true → Lifecycle none (some s)
plans_of RevisionStatus.planned e = plans
plans_of RevisionStatus.issued e = absurd (ground arith)
plans_of RevisionStatus.claimed e = absurd (ground arith)
plans_of RevisionStatus.active e = absurd (ground arith)
plans_of RevisionStatus.superseded e = absurd (ground arith)
plans_of RevisionStatus.revoked e = absurd (ground arith)

-- An UPDATE whose every change of a row is a step.
updated-Lifecycle :
    (h : Text) (n : ℕ) (p : ConfigRevision → Bool) (f : ConfigRevision → ConfigRevision)
    (rows : List ConfigRevision)
    → ((s : ConfigRevision) → is_revision h n (upd p f s) ≡ is_revision h n s)
    → ((s : ConfigRevision)
        → find (is_revision h n) rows ≡ some s
        → Lifecycle (some s.status) (some (upd p f s).status))
    → Lifecycle (status_of h n rows) (status_of h n (update_where p f rows))
updated-Lifecycle h n p f rows same moves =
    let moved = find-update_where (is_revision h n) p f rows same in
    rw moved (elim (Option-cases (find (is_revision h n) rows)) [
      | inl missing ↦ rw missing (stays none)
      | inr (s, found) ↦ rw found (moves s found)
    ])

-- The change of one row, by its test.
upd-Lifecycle :
    (p : ConfigRevision → Bool) (f : ConfigRevision → ConfigRevision) (s : ConfigRevision)
    → (p s ≡ true → Lifecycle (some s.status) (some (f s).status))
    → Lifecycle (some s.status) (some (upd p f s).status)
upd-Lifecycle p f s moves = elim (Bool-cases (p s)) [
  | inl here ↦ rw here (moves here)
  | inr apart ↦ rw apart (stays (some s.status))
]

module _ (h : Text) (n : ℕ) (now : Time) (rows : List ConfigRevision) (r : ConfigRevision)
    (sound : IsSound rows) (found : find (is_revision h n) rows ≡ some r)
    (claimed : is_claimed_status r.status ≡ true) where
  -- What the two UPDATEs make of a row that a key finds.
  served_row : ConfigRevision → ConfigRevision
  served_row s = upd (λ t. t.id == r.id) (active_row now) (upd (is_superseded h n) superseded_row s)

  find-serve :
      (i : Text) (m : ℕ)
      → find (is_revision i m) (serve h n r.id now rows)
        ≡ Option.map served_row (find (is_revision i m) rows)
  unfolding serve served_row
  find-serve i m =
      let first =
        find-update_where (is_revision i m) (is_superseded h n) superseded_row rows
          (λ s. ground arith) in
      let second =
        find-update_where (is_revision i m) (λ s. s.id == r.id) (active_row now)
          (update_where (is_superseded h n) superseded_row rows) (λ s. ground arith) in
      elim (Option-cases (find (is_revision i m) rows)) [
        | inl missing ↦ ground (arith, first, second, missing)
        | inr (s, here) ↦ ground (arith, first, second, here)
      ]

  -- Ids are distinct, so the row of the id is the row that was claimed.
  same_row :
      (i : Text) (m : ℕ) (s : ConfigRevision)
      → find (is_revision i m) rows ≡ some s
      → (s.id == r.id) ≡ true
      → is_claimed_status s.status ≡ true
  same_row i m s here same =
      let mine = find-key row_id (is_revision h n) rows r sound.keys found in
      let theirs = find-key row_id (is_revision i m) rows s sound.keys here in
      let e = (==_iff s.id r.id).0 same in
      let both : find (λ t. t.id == r.id) rows ≡ some s =
        ap (λ k. find (λ t. t.id == k) rows) (sym e) ∙ theirs in
      ground (arith, mine, both, claimed)

  served_row-Lifecycle :
      (i : Text) (m : ℕ) (s : ConfigRevision)
      → find (is_revision i m) rows ≡ some s
      → Lifecycle (some s.status) (some (served_row s).status)
  unfolding served_row
  served_row-Lifecycle i m s here = elim (Bool-cases (s.id == r.id)) [
    | inl same ↦
        let waits = same_row i m s here same in
        let lands : (served_row s).status ≡ RevisionStatus.active = ground (arith, same) in
        rw lands (activates_of s.status waits)
    | inr apart ↦
        let left : (served_row s).status ≡ (upd (is_superseded h n) superseded_row s).status =
          ground (arith, apart) in
        rw left (
          upd-Lifecycle (is_superseded h n) superseded_row s
            (λ e. supersedes_of s.status (ground (arith, e))))
  ]

  serve-Lifecycle :
      (i : Text) (m : ℕ) → Lifecycle (status_of i m rows) (status_of i m (serve h n r.id now rows))
  serve-Lifecycle i m = rw (find-serve i m) (elim (Option-cases (find (is_revision i m) rows)) [
    | inl missing ↦ rw missing (stays none)
    | inr (s, here) ↦ rw here (served_row-Lifecycle i m s here)
  ])

added-Lifecycle :
    (r : ConfigRevision) (rows : List ConfigRevision) (h : Text) (n : ℕ)
    → is_planned_status r.status ≡ true
    → Lifecycle (status_of h n rows) (status_of h n (rows ++ r ∷ []))
added-Lifecycle r rows h n planned =
    rw (find-append (is_revision h n) rows (r ∷ []))
      (elim (Option-cases (find (is_revision h n) rows)) [
        | inr (s, here) ↦ rw here (stays (some s.status))
        | inl missing ↦ rw missing (elim (Bool-cases (is_revision h n r)) [
          | inl mine ↦ rw mine (plans_of r.status planned)
          | inr apart ↦ rw apart (stays none)
        ])
      ])

-- Every method's change of the table is, for each revision, a step of the revision's life.
pub RowsStep-Lifecycle :
    {rows rows' : List ConfigRevision}
    → IsSound rows
    → RowsStep rows rows'
    → (h : Text) (n : ℕ) → Lifecycle (status_of h n rows) (status_of h n rows')
RowsStep-Lifecycle {rows} sound (kept e) h n = rw e (stays (status_of h n rows))
RowsStep-Lifecycle {rows} sound (added r new planned e) h n =
    rw e (added-Lifecycle r rows h n planned)
RowsStep-Lifecycle {rows} sound (reissued i m now e) h n = rw e (
    updated-Lifecycle h n (is_issuable i m) (issued_row now) rows (λ s. ground arith)
      (λ s found.
        upd-Lifecycle (is_issuable i m) (issued_row now) s (λ t. issues s.status (ground arith))))
RowsStep-Lifecycle {rows} sound (taken k now e) h n = rw e (
    updated-Lifecycle h n (is_claimed_by_id k) (claimed_row now) rows (λ s. ground arith)
      (λ s found.
        upd-Lifecycle (is_claimed_by_id k) (claimed_row now) s
          (λ t. claims_of s.status (ground arith))))
RowsStep-Lifecycle {rows} sound (served i m now r found claimed e) h n =
    rw e (serve-Lifecycle i m now rows r sound found claimed h n)
RowsStep-Lifecycle {rows} sound (withdrawn i e) h n = rw e (
    updated-Lifecycle h n (is_standing_revision i) revoked_row rows (λ s. ground arith)
      (λ s found.
        upd-Lifecycle (is_standing_revision i) revoked_row s
          (λ t. revokes s.status (ground arith))))
