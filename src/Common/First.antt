-- ===== src/Common/First.antt =====
-- ORDER BY … LIMIT 1, and updates by primary key.
use mathlib.Core.Path.{◌≡◌, refl}
use mathlib.Core.Bool.{Bool, true, false}
use mathlib.Core.Logic.{inl, inr}
use mathlib.Core.Option.{none, some}
use mathlib.Core.List.{List, [], ◌∷◌}
use native.Mathlib.Omega.{arith}
use Prim.Native.Nat.{ℕ, ◌+◌}
use abrolia.Common.Tests.{◌==◌, Option-cases}
use abrolia.Common.Lists.{All, All-map}
use abrolia.Common.Table.{find, exists, update_where, count_where, first_by}
use abrolia.Common.Keys.{Distinct}

abbrev pub bit : Bool → ℕ
bit true = 1
bit false = 0

module _ {A : Type 0} (le : A → A → Bool) where
  -- The first row by the order passes the test.
  pub first_by-test :
      (p : A → Bool) (rows : List A) (r : A) → first_by le p rows ≡ some r → p r ≡ true
  first_by-test p [] r h = ground arith
  first_by-test p (s ∷ rows) r h = ground (arith, first_by-test p rows r)

  pub first_by-none :
      (p : A → Bool) (rows : List A) → first_by le p rows ≡ none → All (λ e. p e ≡ false) rows
  first_by-none p [] h = tt
  first_by-none p (s ∷ rows) h = (ground arith, first_by-none p rows (ground arith))

  -- The first row by a total order stands before every row that passes the test.
  pub first_by-least :
      ((a b c : A) → le a b ≡ true → le b c ≡ true → le a c ≡ true)
      → ((a b : A) → le a b ≡ false → le b a ≡ true)
      → (p : A → Bool) (rows : List A) (r : A) → first_by le p rows ≡ some r
      → All (λ e. p e ≡ true → le r e ≡ true) rows
  first_by-least trans total p [] r h = tt
  first_by-least trans total p (s ∷ rows) r h = elim (Option-cases (first_by le p rows)) [
    | inl alone ↦ (
      ground (arith, total r s),
      All-map (λ e. p e ≡ false) (λ e. p e ≡ true → le r e ≡ true) rows
          (λ e no_test test. absurd (ground arith)) (first_by-none p rows alone),
    )
    | inr (t, best) ↦ (
      ground (arith, total s t, total s s),
      All-map (λ e. p e ≡ true → le t e ≡ true) (λ e. p e ≡ true → le r e ≡ true) rows
          (λ e before test. ground (arith, before test, trans r t e))
          (first_by-least trans total p rows t best),
    )
  ]

module _ {A : Type 0} (key : A → ℕ) (le : A → A → Bool) where
  first_by_exists :
      (p : A → Bool) (rows : List A) (r : A)
      → first_by le p rows ≡ some r
      → exists (λ s. key s == key r) rows ≡ true
  first_by_exists p [] r h = ground arith
  first_by_exists p (s ∷ rows) r h = ground (arith, first_by_exists p rows r)

  -- Under a primary key, the key of the first row finds it.
  pub first_by-key :
      (p : A → Bool) (rows : List A) (r : A)
      → Distinct key rows
      → first_by le p rows ≡ some r
      → find (λ s. key s == key r) rows ≡ some r
  first_by-key p [] r d h = ground arith
  first_by-key p (s ∷ rows) r d h =
      ground (arith, first_by-key p rows r d.1, first_by_exists p rows r)

module _ {A : Type 0} (key : A → ℕ) where
  count_of_missing :
      (q : A → Bool) (f : A → A) (k : ℕ) (rows : List A)
      → exists (λ s. key s == k) rows ≡ false
      → count_where q (update_where (λ s. key s == k) f rows) ≡ count_where q rows
  count_of_missing q f k [] h = refl
  count_of_missing q f k (s ∷ rows) h = ground (arith, count_of_missing q f k rows)

  -- An update by primary key changes a count by the change of its one row.
  pub count_where-update_key :
      (q : A → Bool) (f : A → A) (k : ℕ) (rows : List A) (r : A)
      → Distinct key rows
      → find (λ s. key s == k) rows ≡ some r
      → count_where q (update_where (λ s. key s == k) f rows) + bit (q r)
        ≡ count_where q rows + bit (q (f r))
  count_where-update_key q f k [] r d h = ground arith
  count_where-update_key q f k (s ∷ rows) r d h =
      ground (arith, count_where-update_key q f k rows r d.1, count_of_missing q f (key s) rows d.0)
