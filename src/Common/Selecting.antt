-- ===== src/Common/Selecting.antt =====
-- Laws of SELECT … WHERE … ORDER BY … LIMIT.
use mathlib.Core.Path.{◌≡◌, refl, ◌∙◌}
use mathlib.Core.Bool.{Bool, false, ◌&&◌, ◌||◌}
use mathlib.Core.Option.{some}
use mathlib.Core.List.{List, [], ◌∷◌}
use native.Mathlib.Omega.{arith}
use Prim.Native.Nat.{ℕ, zero, suc}
use abrolia.Common.Tests.{◌==◌, if_both}
use abrolia.Common.Lists.{All, take, All-take}
use abrolia.Common.Table.{find, exists, select, insert_by, order_by}
use abrolia.Common.Keys.{Distinct}

module _ {A : Type 0} where
  -- What is in no row of a table is in no part of it.
  pub exists-take :
      (p : A → Bool) (n : ℕ) (rows : List A)
      → exists p rows ≡ false
      → exists p (take n rows) ≡ false
  exists-take p zero rows h = refl
  exists-take p (suc n) [] h = refl
  exists-take p (suc n) (r ∷ rows) h = ground (arith, exists-take p n rows)

  exists-insert_by :
      (p : A → Bool) (le : A → A → Bool) (r : A) (rows : List A)
      → exists p (insert_by le r rows) ≡ (p r || exists p rows)
  exists-insert_by p le r [] = refl
  exists-insert_by p le r (s ∷ rows) = ground (arith, exists-insert_by p le r rows)

  pub exists-order_by :
      (p : A → Bool) (le : A → A → Bool) (rows : List A)
      → exists p (order_by le rows) ≡ exists p rows
  exists-order_by p le [] = refl
  exists-order_by p le (r ∷ rows) =
      ground (arith, exists-insert_by p le r (order_by le rows), exists-order_by p le rows)

  pub exists-select :
      (p q : A → Bool) (rows : List A)
      → exists (λ r. p r && q r) rows ≡ false
      → exists p (select q rows) ≡ false
  exists-select p q [] h = refl
  exists-select p q (r ∷ rows) h = ground (arith, exists-select p q rows)

  exists-select_less :
      (p q : A → Bool) (rows : List A) → exists p rows ≡ false → exists p (select q rows) ≡ false
  exists-select_less p q [] h = refl
  exists-select_less p q (r ∷ rows) h = ground (arith, exists-select_less p q rows)

  All-insert_by {κ} :
      (P : A → Type κ) (le : A → A → Bool) (r : A) (rows : List A)
      → P r
      → All P rows
      → All P (insert_by le r rows)
  All-insert_by P le r [] h a = (h, tt)
  All-insert_by P le r (s ∷ rows) h a =
      if_both (All P) (le r s) (r ∷ s ∷ rows) (s ∷ insert_by le r rows) (h, a)
        (a.0, All-insert_by P le r rows h a.1)

  All-order_by {κ} :
      (P : A → Type κ) (le : A → A → Bool) (rows : List A) → All P rows → All P (order_by le rows)
  All-order_by P le [] a = tt
  All-order_by P le (r ∷ rows) a =
      All-insert_by P le r (order_by le rows) a.0 (All-order_by P le rows a.1)

  All-select {κ} :
      (P : A → Type κ) (q : A → Bool) (rows : List A) → All P rows → All P (select q rows)
  All-select P q [] a = tt
  All-select P q (r ∷ rows) a =
      if_both (All P) (q r) (r ∷ select q rows) (select q rows) (a.0, All-select P q rows a.1)
        (All-select P q rows a.1)

  -- What holds of the rows of a table holds of the rows of a query.
  pub All-query {κ} :
      (P : A → Type κ) (n : ℕ) (le : A → A → Bool) (q : A → Bool) (rows : List A)
      → All P rows
      → All P (take n (order_by le (select q rows)))
  All-query P n le q rows a =
      All-take P n (order_by le (select q rows))
        (All-order_by P le (select q rows) (All-select P q rows a))

module _ {A : Type 0} (key : A → ℕ) where
  Distinct-take : (n : ℕ) (rows : List A) → Distinct key rows → Distinct key (take n rows)
  Distinct-take zero rows d = tt
  Distinct-take (suc n) [] d = tt
  Distinct-take (suc n) (r ∷ rows) d =
      (exists-take (λ s. key s == key r) n rows d.0, Distinct-take n rows d.1)

  Distinct-insert_by :
      (le : A → A → Bool) (r : A) (rows : List A)
      → exists (λ s. key s == key r) rows ≡ false
      → Distinct key rows
      → Distinct key (insert_by le r rows)
  Distinct-insert_by le r [] h d = (refl, tt)
  Distinct-insert_by le r (s ∷ rows) h d =
      if_both (Distinct key) (le r s) (r ∷ s ∷ rows) (s ∷ insert_by le r rows) (h, d)
        (
          exists-insert_by (λ t. key t == key s) le r rows ∙ ground (arith, d.0),
          Distinct-insert_by le r rows (ground arith) d.1,
        )

  Distinct-order_by :
      (le : A → A → Bool) (rows : List A) → Distinct key rows → Distinct key (order_by le rows)
  Distinct-order_by le [] d = tt
  Distinct-order_by le (r ∷ rows) d =
      Distinct-insert_by le r (order_by le rows)
        (exists-order_by (λ s. key s == key r) le rows ∙ d.0) (Distinct-order_by le rows d.1)

  Distinct-select :
      (q : A → Bool) (rows : List A) → Distinct key rows → Distinct key (select q rows)
  Distinct-select q [] d = tt
  Distinct-select q (r ∷ rows) d =
      if_both (Distinct key) (q r) (r ∷ select q rows) (select q rows)
        (exists-select_less (λ s. key s == key r) q rows d.0, Distinct-select q rows d.1)
        (Distinct-select q rows d.1)

  -- A query of a table with a primary key lists no row twice.
  pub Distinct-query :
      (n : ℕ) (le : A → A → Bool) (q : A → Bool) (rows : List A)
      → Distinct key rows
      → Distinct key (take n (order_by le (select q rows)))
  Distinct-query n le q rows d =
      Distinct-take n (order_by le (select q rows))
        (Distinct-order_by le (select q rows) (Distinct-select q rows d))

  All-apart :
      (k : ℕ) (rows : List A)
      → exists (λ s. key s == k) rows ≡ false
      → All (λ s. (k == key s) ≡ false) rows
  All-apart k [] h = tt
  All-apart k (r ∷ rows) h = (ground arith, All-apart k rows (ground arith))

  All-behind :
      (s : A) (rows table : List A)
      → All (λ r. (key s == key r) ≡ false) rows
      → All (λ r. find (λ t. key t == key r) table ≡ some r) rows
      → All (λ r. find (λ t. key t == key r) (s ∷ table) ≡ some r) rows
  All-behind s [] table a h = tt
  All-behind s (r ∷ rows) table a h = (ground (arith, a.0, h.0), All-behind s rows table a.1 h.1)

  -- Under a primary key, every row is the one that its key finds.
  pub All-found :
      (rows : List A) → Distinct key rows → All (λ r. find (λ t. key t == key r) rows ≡ some r) rows
  All-found [] d = tt
  All-found (s ∷ rows) d =
      (ground arith, All-behind s rows rows (All-apart (key s) rows d.0) (All-found rows d.1))
