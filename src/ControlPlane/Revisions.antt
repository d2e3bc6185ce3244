-- ===== src/ControlPlane/Revisions.antt =====
-- The life of a configuration revision over control_plane/repositories/configs.py,
-- control_plane/provisioning/bootstrap.py and control_plane/privacy/withdraw.py together: what their
-- methods do to the table, and what stays true of it.
pub mod Lifecycle
pub mod Methods
pub mod Activating
pub mod Withdrawing
pub mod Runs
use abrolia.Common.{
  ℕ, ◌≡◌, ◌≤◌, ◌+◌, refl, Bool, true, false, not, ◌&&◌, ◌||◌, Option, none, some, List, [], ◌∷◌,
  ◌++◌, ◌==◌, ◌⊎◌, inl, inr, arith, find, exists, count_where, update_where, upd, Bool-cases, sym,
  ap, ◌∙◌, if◌then◌else◌, ==_iff,
}
use mathlib.Core.Path.{subst}
use abrolia.Common.Rows.{
  count_where-update_where, count_where-update_le, count_where-append, find-update_where, find-test,
  count_of_exists, exists_weaken, count_where_mono,
}
use abrolia.Common.Keys.{Distinct, Distinct-update_where, Distinct-append, find-key}
use abrolia.Common.First.{bit, count_where-update_key}
use abrolia.ControlPlane.Rows.{Text, Time, RevisionStatus, ConfigRevision}
use abrolia.ControlPlane.Configs.{is_revision, is_taken, is_issuable, issued_row}
use abrolia.ControlPlane.Bootstrap.{is_claimed_by_id, claimed_row}
use abrolia.ControlPlane.Bootstrap.Replay.{is_active_revision}
use abrolia.ControlPlane.Bootstrap.Checks.{is_claimed_status}
use abrolia.ControlPlane.Bootstrap.Activation.{is_superseded, superseded_row, active_row, serve}
use abrolia.ControlPlane.Withdrawal.{is_standing_revision, revoked_row}

abbrev pub is_planned_status : RevisionStatus → Bool
is_planned_status RevisionStatus.planned = true
is_planned_status _ = false

-- What a method does to the table of revisions.
pub data RowsStep (rows rows' : List ConfigRevision) : Type 0 where
  kept : rows' ≡ rows → RowsStep rows rows'
  added :
      (r : ConfigRevision)
      → exists (is_taken r) rows ≡ false
      → is_planned_status r.status ≡ true
      → rows' ≡ rows ++ r ∷ []
      → RowsStep rows rows'
  reissued :
      (h : Text) (n : ℕ) (now : Time)
      → rows' ≡ update_where (is_issuable h n) (issued_row now) rows
      → RowsStep rows rows'
  taken :
      (k : Text) (now : Time)
      → rows' ≡ update_where (is_claimed_by_id k) (claimed_row now) rows
      → RowsStep rows rows'
  served :
      (h : Text) (n : ℕ) (now : Time) (r : ConfigRevision)
      → find (is_revision h n) rows ≡ some r
      → is_claimed_status r.status ≡ true
      → rows' ≡ serve h n r.id now rows
      → RowsStep rows rows'
  withdrawn :
      (h : Text)
      → rows' ≡ update_where (is_standing_revision h) revoked_row rows
      → RowsStep rows rows'

abbrev pub row_id : ConfigRevision → ℕ
row_id r = r.id

-- The revision serves the household.
abbrev pub serves : Text → ConfigRevision → Bool
serves h r = r.household_id == h && is_active_revision r.status

-- The keys of the table, and one revision at most that serves a household.
pub record IsSound (rows : List ConfigRevision) : Type 0 where
  pub keys : Distinct row_id rows
  pub unique : (h : Text) (n : ℕ) → count_where (is_revision h n) rows ≤ 1
  pub one_active : (h : Text) → count_where (serves h) rows ≤ 1

-- A count after an UPDATE is a count before it, by the test that the UPDATE makes of it.
count_where-update_as :
    (q q' p : ConfigRevision → Bool) (f : ConfigRevision → ConfigRevision)
    (rows : List ConfigRevision)
    → ((r : ConfigRevision) → q (upd p f r) ≡ q' r)
    → count_where q (update_where p f rows) ≡ count_where q' rows
count_where-update_as q q' p f [] h = refl
count_where-update_as q q' p f (r ∷ rows) h =
    ground (arith, h r, count_where-update_as q q' p f rows h)

-- Where one row passes a test, and fails a stronger one, none passes the stronger one.
count_narrow :
    (p q : ConfigRevision → Bool) (rows : List ConfigRevision) (r : ConfigRevision)
    → ((s : ConfigRevision) → q s ≡ true → p s ≡ true)
    → count_where p rows ≤ 1
    → find p rows ≡ some r
    → q r ≡ false
    → count_where q rows ≡ 0
count_narrow p q [] r stronger few found fails = refl
count_narrow p q (s ∷ rows) r stronger few found fails = elim (Bool-cases (p s)) [
  | inl here ↦ let rest = count_where_mono q p rows stronger in ground (arith, stronger s, rest)
  | inr apart ↦ ground (arith, stronger s, count_narrow p q rows r stronger)
]

module _ (h : Text) (n : ℕ) (now : Time) (rows : List ConfigRevision) (r : ConfigRevision)
    (sound : IsSound rows) (found : find (is_revision h n) rows ≡ some r)
    (claimed : is_claimed_status r.status ≡ true) where
  rest : List ConfigRevision
  rest = update_where (is_superseded h n) superseded_row rows

  -- The row that is about to serve is not touched by the first UPDATE.
  found_rest : find (λ s. s.id == r.id) rest ≡ some r
  unfolding rest
  found_rest =
      let moved =
        find-update_where (λ s. s.id == r.id) (is_superseded h n) superseded_row rows
          (λ s. ground arith) in
      let stored = find-key row_id (is_revision h n) rows r sound.keys found in
      ground (arith, moved, stored, claimed)

  keys_rest : Distinct row_id rest
  unfolding rest
  keys_rest =
      Distinct-update_where row_id (is_superseded h n) superseded_row rows (λ s. ground arith)
        sound.keys

  none_active : count_where (serves h) rest ≡ 0
  unfolding rest
  none_active =
      count_where-update_as (serves h) (λ s. is_revision h n s && is_active_revision s.status)
        (is_superseded h n) superseded_row rows (λ s. ground arith)
      ∙ count_narrow (is_revision h n) (λ s. is_revision h n s && is_active_revision s.status) rows
          r (λ s e. ground arith) (sound.unique h n) found (ground (arith, claimed))

  fewer_active : (k : Text) → count_where (serves k) rest ≤ count_where (serves k) rows
  unfolding rest
  fewer_active k =
      count_where-update_le (serves k) (is_superseded h n) superseded_row rows (λ s e. ground arith)

  serve_parts : serve h n r.id now rows ≡ update_where (λ s. s.id == r.id) (active_row now) rest
  unfolding serve rest
  serve_parts = refl

  serve_active : (k : Text) → count_where (serves k) (serve h n r.id now rows) ≤ 1
  serve_active k =
      let counted =
        count_where-update_key row_id (serves k) (active_row now) r.id rest r keys_rest
          found_rest in
      let named = find-test (is_revision h n) rows r found in
      rw serve_parts (elim (Bool-cases (k == h)) [
        | inl same ↦
            let e = (==_iff k h).0 same in
            let zero_here : count_where (serves k) rest ≡ 0 =
              ap (λ i. count_where (serves i) rest) e ∙ none_active in
            ground (arith, counted, zero_here)
        | inr apart ↦ ground (arith, counted, fewer_active k, sound.one_active k, named, apart)
      ])

  serve_keys : Distinct row_id (serve h n r.id now rows)
  serve_keys = rw serve_parts (
      Distinct-update_where row_id (λ s. s.id == r.id) (active_row now) rest (λ s. ground arith)
        keys_rest)

  serve_unique : (i : Text) (m : ℕ) → count_where (is_revision i m) (serve h n r.id now rows) ≤ 1
  unfolding serve
  serve_unique i m =
      let first =
        count_where-update_where (is_revision i m) (is_superseded h n) superseded_row rows
          (λ s. ground arith) in
      let second =
        count_where-update_where (is_revision i m) (λ s. s.id == r.id) (active_row now)
          (update_where (is_superseded h n) superseded_row rows) (λ s. ground arith) in
      omega (arith, first, second, sound.unique i m)

  served-IsSound : IsSound (serve h n r.id now rows)
  served-IsSound = record { keys = serve_keys; unique = serve_unique; one_active = serve_active }

-- An UPDATE that makes no row serve keeps the table sound.
updated-IsSound :
    (p : ConfigRevision → Bool) (f : ConfigRevision → ConfigRevision) (rows : List ConfigRevision)
    → ((s : ConfigRevision) → (upd p f s).id ≡ s.id)
    → ((h : Text) (n : ℕ) (s : ConfigRevision) → is_revision h n (upd p f s) ≡ is_revision h n s)
    → ((h : Text) (s : ConfigRevision) → serves h (upd p f s) ≡ true → serves h s ≡ true)
    → IsSound rows
    → IsSound (update_where p f rows)
updated-IsSound p f rows same_id same_key no_new sound = record {
  keys = Distinct-update_where row_id p f rows same_id sound.keys;
  unique = λ h n.
      omega (
        arith,
        count_where-update_where (is_revision h n) p f rows (same_key h n),
        sound.unique h n,
      );
  one_active =
      λ h. omega (arith, count_where-update_le (serves h) p f rows (no_new h), sound.one_active h);
}

added_unique :
    (r : ConfigRevision) (rows : List ConfigRevision)
    → exists (is_taken r) rows ≡ false
    → ((h : Text) (n : ℕ) → count_where (is_revision h n) rows ≤ 1)
    → (h : Text) (n : ℕ) → count_where (is_revision h n) (rows ++ r ∷ []) ≤ 1
added_unique r rows new unique h n =
    let counted = count_where-append (is_revision h n) rows (r ∷ []) in
    elim (Bool-cases (is_revision h n r)) [
      | inl same ↦
          let absent =
            count_of_exists (is_revision h n) rows
              (exists_weaken (is_revision h n) (is_taken r) rows (λ s e. ground arith) new) in
          ground (arith, counted, absent, same)
      | inr apart ↦ ground (arith, counted, unique h n, apart)
    ]

added-IsSound :
    (r : ConfigRevision) (rows : List ConfigRevision)
    → exists (is_taken r) rows ≡ false
    → is_planned_status r.status ≡ true
    → IsSound rows
    → IsSound (rows ++ r ∷ [])
added-IsSound r rows new planned sound = record {
  keys =
      Distinct-append row_id rows r sound.keys
        (exists_weaken (λ s. s.id == r.id) (is_taken r) rows (λ s e. ground arith) new);
  unique = added_unique r rows new sound.unique;
  one_active =
      λ h. ground (arith, count_where-append (serves h) rows (r ∷ []), sound.one_active h, planned);
}

-- What a method does keeps the table sound.
pub RowsStep-IsSound :
    {rows rows' : List ConfigRevision} → RowsStep rows rows' → IsSound rows → IsSound rows'
RowsStep-IsSound {rows} (kept e) sound = subst IsSound (sym e) sound
RowsStep-IsSound {rows} (added r new planned e) sound =
    subst IsSound (sym e) (added-IsSound r rows new planned sound)
RowsStep-IsSound {rows} (reissued h n now e) sound = subst IsSound (sym e) (
    updated-IsSound (is_issuable h n) (issued_row now) rows (λ s. ground arith)
      (λ i m s. ground arith) (λ i s. ground arith) sound)
RowsStep-IsSound {rows} (taken k now e) sound = subst IsSound (sym e) (
    updated-IsSound (is_claimed_by_id k) (claimed_row now) rows (λ s. ground arith)
      (λ i m s. ground arith) (λ i s. ground arith) sound)
RowsStep-IsSound {rows} (served h n now r found claimed e) sound =
    subst IsSound (sym e) (served-IsSound h n now rows r sound found claimed)
RowsStep-IsSound {rows} (withdrawn h e) sound = subst IsSound (sym e) (
    updated-IsSound (is_standing_revision h) revoked_row rows (λ s. ground arith)
      (λ i m s. ground arith) (λ i s. ground arith) sound)
