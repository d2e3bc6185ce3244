-- ===== src/Common/Keys.antt =====
-- Tables with a primary key.
use mathlib.Core.Path.{◌≡◌, refl}
use mathlib.Core.Bool.{Bool, true, false}
use mathlib.Core.Option.{some}
use mathlib.Core.List.{List, [], ◌∷◌, ◌++◌}
use native.Mathlib.Omega.{arith}
use Prim.Native.Nat.{ℕ}
use abrolia.Common.Tests.{◌==◌}
use abrolia.Common.Table.{find, exists, upd, update_where}
use abrolia.Common.Rows.{exists-update_where, exists-append}

module _ {A : Type 0} (key : A → ℕ) where
  -- No two rows have one key.
  abbrev pub Distinct : List A → Type 0
  Distinct [] = Unit
  Distinct (r ∷ rows) = (exists (λ s. key s == key r) rows ≡ false) × Distinct rows

  find_exists :
      (p : A → Bool) (k : ℕ) (rows : List A) (r : A)
      → find p rows ≡ some r
      → key r ≡ k
      → exists (λ s. key s == k) rows ≡ true
  find_exists p k [] r h e = ground arith
  find_exists p k (s ∷ rows) r h e = ground (arith, find_exists p k rows r)

  -- Under a primary key, the key of a row that a search found finds that row.
  pub find-key :
      (p : A → Bool) (rows : List A) (r : A)
      → Distinct rows
      → find p rows ≡ some r
      → find (λ s. key s == key r) rows ≡ some r
  find-key p [] r d h = ground arith
  find-key p (s ∷ rows) r d h = ground (arith, find-key p rows r d.1, find_exists p (key s) rows r)

  pub Distinct-update_where :
      (p : A → Bool) (f : A → A) (rows : List A)
      → ((r : A) → key (upd p f r) ≡ key r)
      → Distinct rows
      → Distinct (update_where p f rows)
  Distinct-update_where p f [] h d = tt
  Distinct-update_where p f (s ∷ rows) h d = (
    rw (h s) (rw (exists-update_where (λ r. key r == key s) p f rows (λ r. rw (h r))) d.0),
    Distinct-update_where p f rows h d.1,
  )

  exists_fresh :
      (s : A) (rows new : List A)
      → exists (λ r. key r == key s) rows ≡ false
      → exists (λ r. key r == key s) new ≡ false
      → exists (λ r. key r == key s) (rows ++ new) ≡ false
  exists_fresh s rows new h k = rw (exists-append (λ r. key r == key s) rows new) (rw h k)

  pub Distinct-append :
      (rows : List A) (r : A)
      → Distinct rows
      → exists (λ s. key s == key r) rows ≡ false
      → Distinct (rows ++ r ∷ [])
  Distinct-append [] r d h = (refl, tt)
  Distinct-append (s ∷ rows) r d h =
      (exists_fresh s rows (r ∷ []) d.0 (ground arith), Distinct-append rows r d.1 (ground arith))
