-- ===== src/Common/Rows.antt =====
-- Laws of the statements on tables.
use mathlib.Core.Option
use mathlib.Core.Path.{◌≡◌, refl, subst}
use mathlib.Core.Bool.{Bool, true, false, ◌||◌}
use mathlib.Core.Logic.{inl, inr}
use mathlib.Core.Option.{Option, none, some, some-injective}
use mathlib.Core.List.{List, [], ◌∷◌, ◌++◌}
use native.Mathlib.Omega.{arith}
use Prim.Native.Nat.{◌+◌, ◌≤◌}
use abrolia.Common.Tests.{is_some, coalesce, Bool-cases}
use abrolia.Common.Lists.{All, length}
use abrolia.Common.Table.{find, exists, upd, update_where, count_where}

module _ {A : Type 0} where
  -- An update that keeps the test q moves under a search by q.
  pub find-update_where :
      (q p : A → Bool) (f : A → A) (rows : List A)
      → ((r : A) → q (upd p f r) ≡ q r)
      → find q (update_where p f rows) ≡ Option.map (upd p f) (find q rows)
  find-update_where q p f [] h = refl
  find-update_where q p f (r ∷ rows) h = ground (arith, h r, find-update_where q p f rows h)

  pub exists-update_where :
      (q p : A → Bool) (f : A → A) (rows : List A)
      → ((r : A) → q (upd p f r) ≡ q r)
      → exists q (update_where p f rows) ≡ exists q rows
  exists-update_where q p f [] h = refl
  exists-update_where q p f (r ∷ rows) h = ground (arith, h r, exists-update_where q p f rows h)

  pub count_where-update_where :
      (q p : A → Bool) (f : A → A) (rows : List A)
      → ((r : A) → q (upd p f r) ≡ q r)
      → count_where q (update_where p f rows) ≡ count_where q rows
  count_where-update_where q p f [] h = refl
  count_where-update_where q p f (r ∷ rows) h =
      ground (arith, h r, count_where-update_where q p f rows h)

  pub find-append :
      (q : A → Bool) (rows new : List A)
      → find q (rows ++ new) ≡ coalesce (find q rows) (find q new)
  find-append q [] new = refl
  find-append q (r ∷ rows) new = ground (arith, find-append q rows new)

  pub exists-append :
      (q : A → Bool) (rows new : List A) → exists q (rows ++ new) ≡ (exists q rows || exists q new)
  exists-append q [] new = refl
  exists-append q (r ∷ rows) new = ground (arith, exists-append q rows new)

  pub count_where-append :
      (q : A → Bool) (rows new : List A)
      → count_where q (rows ++ new) ≡ count_where q rows + count_where q new
  count_where-append q [] new = omega arith
  count_where-append q (r ∷ rows) new = ground (arith, count_where-append q rows new)

  -- A row that a search returns passes its test.
  pub find-test : (q : A → Bool) (rows : List A) (r : A) → find q rows ≡ some r → q r ≡ true
  find-test q [] r h = ground arith
  find-test q (s ∷ rows) r h = ground (arith, find-test q rows r)

  -- The first row of a weaker test, if it passes a stronger one, is the first row of that.
  pub find_narrow :
      (p q : A → Bool) (rows : List A) (r : A)
      → ((s : A) → p s ≡ true → q s ≡ true)
      → find q rows ≡ some r
      → p r ≡ true
      → find p rows ≡ some r
  find_narrow p q [] r weaker h e = ground arith
  find_narrow p q (s ∷ rows) r weaker h e = ground (arith, weaker s, find_narrow p q rows r weaker)

  pub find-exists : (q : A → Bool) (rows : List A) → is_some (find q rows) ≡ exists q rows
  find-exists q [] = refl
  find-exists q (s ∷ rows) = ground (arith, find-exists q rows)

  pub find-none_of_count :
      (q : A → Bool) (rows : List A) → count_where q rows ≡ 0 → find q rows ≡ none
  find-none_of_count q [] h = refl
  find-none_of_count q (s ∷ rows) h = ground (arith, find-none_of_count q rows)

  pub count_of_find-none :
      (q : A → Bool) (rows : List A) → find q rows ≡ none → count_where q rows ≡ 0
  count_of_find-none q [] h = refl
  count_of_find-none q (s ∷ rows) h = ground (arith, count_of_find-none q rows)

  pub All-update_where {κ} :
      (P : A → Type κ) (p : A → Bool) (f : A → A) (rows : List A)
      → ((r : A) → P r → P (upd p f r))
      → All P rows
      → All P (update_where p f rows)
  All-update_where P p f [] h a = tt
  All-update_where P p f (r ∷ rows) h a = (h r a.0, All-update_where P p f rows h a.1)

  pub All-find {κ} :
      (P : A → Type κ) (q : A → Bool) (rows : List A) (r : A)
      → All P rows
      → find q rows ≡ some r
      → P r
  All-find P q [] r a h = absurd (ground arith)
  All-find P q (s ∷ rows) r a h = elim (Bool-cases (q s)) [
    | inl e ↦ let same : s ≡ r = ground arith in subst P same a.0
    | inr e ↦ All-find P q rows r a.1 (rw e at h)
  ]

  pub exists-or :
      (p q : A → Bool) (rows : List A)
      → exists (λ r. p r || q r) rows ≡ (exists p rows || exists q rows)
  exists-or p q [] = refl
  exists-or p q (s ∷ rows) = ground (arith, exists-or p q rows)

  pub exists_of_find-none :
      (q : A → Bool) (rows : List A) → find q rows ≡ none → exists q rows ≡ false
  exists_of_find-none q [] h = refl
  exists_of_find-none q (s ∷ rows) h = ground (arith, exists_of_find-none q rows)

  pub find-none_of_exists :
      (q : A → Bool) (rows : List A) → exists q rows ≡ false → find q rows ≡ none
  find-none_of_exists q [] h = refl
  find-none_of_exists q (s ∷ rows) h = ground (arith, find-none_of_exists q rows)

  -- What a weaker test finds nowhere, a stronger one finds nowhere.
  pub exists_weaken :
      (p q : A → Bool) (rows : List A)
      → ((r : A) → p r ≡ true → q r ≡ true)
      → exists q rows ≡ false
      → exists p rows ≡ false
  exists_weaken p q [] h e = refl
  exists_weaken p q (s ∷ rows) h e = ground (arith, h s, exists_weaken p q rows h)

  pub count_of_exists :
      (q : A → Bool) (rows : List A) → exists q rows ≡ false → count_where q rows ≡ 0
  count_of_exists q [] h = refl
  count_of_exists q (s ∷ rows) h = ground (arith, count_of_exists q rows)

  pub count_where_mono :
      (p q : A → Bool) (rows : List A)
      → ((r : A) → p r ≡ true → q r ≡ true)
      → count_where p rows ≤ count_where q rows
  count_where_mono p q [] h = omega arith
  count_where_mono p q (s ∷ rows) h = ground (arith, h s, count_where_mono p q rows h)

  -- An update after which q holds of no row that it did not hold of.
  pub count_where-update_le :
      (q p : A → Bool) (f : A → A) (rows : List A)
      → ((r : A) → q (upd p f r) ≡ true → q r ≡ true)
      → count_where q (update_where p f rows) ≤ count_where q rows
  count_where-update_le q p f [] h = omega arith
  count_where-update_le q p f (s ∷ rows) h = ground (arith, h s, count_where-update_le q p f rows h)

  -- A row that one search found counts for every test that it passes.
  pub count_of_find :
      (q p : A → Bool) (rows : List A) (r : A)
      → find q rows ≡ some r
      → p r ≡ true
      → 1 ≤ count_where p rows
  count_of_find q p [] r h e = ground arith
  count_of_find q p (s ∷ rows) r h e = ground (arith, count_of_find q p rows r)

  -- A count of nothing leaves an update with nothing to do.
  pub update_where_idle :
      (p : A → Bool) (f : A → A) (rows : List A)
      → count_where p rows ≡ 0
      → update_where p f rows ≡ rows
  update_where_idle p f [] h = refl
  update_where_idle p f (s ∷ rows) h = ground (arith, update_where_idle p f rows)

  pub count-le-length : (q : A → Bool) (rows : List A) → count_where q rows ≤ length rows
  count-le-length q [] = omega arith
  count-le-length q (s ∷ rows) = ground (arith, count-le-length q rows)
