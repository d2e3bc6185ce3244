-- ===== src/Common/Table.antt =====
-- A database table as the list of its rows in the order of insertion, and the statements of SQL
-- that the stores use: SELECT … WHERE, UPDATE … WHERE, COUNT(*), and ORDER BY … LIMIT 1.
use Prim.Native.Nat.{ℕ, suc}
use mathlib.Core.Bool.{Bool, false, ◌||◌}
use mathlib.Core.Option.{Option, none, some}
use mathlib.Core.List.{List, [], ◌∷◌}
use abrolia.Common.Tests.{if◌then◌else◌}

module _ {A : Type 0} where
  -- SELECT … WHERE p
  abbrev pub select : (A → Bool) → List A → List A
  select p [] = []
  select p (r ∷ rows) = if p r then r ∷ select p rows else select p rows

  -- The first row that a SELECT … WHERE p returns.
  abbrev pub find : (A → Bool) → List A → Option A
  find p [] = none
  find p (r ∷ rows) = if p r then some r else find p rows

  -- EXISTS (SELECT … WHERE p)
  abbrev pub exists : (A → Bool) → List A → Bool
  exists p [] = false
  exists p (r ∷ rows) = p r || exists p rows

  abbrev pub upd : (A → Bool) → (A → A) → A → A
  upd p f r = if p r then f r else r

  -- UPDATE … SET f WHERE p
  abbrev pub update_where : (A → Bool) → (A → A) → List A → List A
  update_where p f [] = []
  update_where p f (r ∷ rows) = upd p f r ∷ update_where p f rows

  -- SELECT COUNT(*) … WHERE p; also the row count of an UPDATE … WHERE p.
  abbrev pub count_where : (A → Bool) → List A → ℕ
  count_where p [] = 0
  count_where p (r ∷ rows) = if p r then suc (count_where p rows) else count_where p rows

  abbrev pub better : (A → A → Bool) → A → Option A → Option A
  better le r none = some r
  better le r (some s) = if le r s then some r else some s

  -- SELECT … WHERE p ORDER BY … LIMIT 1: `le r s` says that r may stand before s.
  abbrev pub first_by : (A → A → Bool) → (A → Bool) → List A → Option A
  first_by le p [] = none
  first_by le p (r ∷ rows) = let rest = first_by le p rows in if p r then better le r rest else rest

  abbrev pub insert_by : (A → A → Bool) → A → List A → List A
  insert_by le r [] = r ∷ []
  insert_by le r (s ∷ rows) = if le r s then r ∷ s ∷ rows else s ∷ insert_by le r rows

  -- ORDER BY; rows that tie stay in the order of insertion.
  abbrev pub order_by : (A → A → Bool) → List A → List A
  order_by le [] = []
  order_by le (r ∷ rows) = insert_by le r (order_by le rows)

  -- DELETE FROM … WHERE p
  abbrev pub delete_where : (A → Bool) → List A → List A
  delete_where p [] = []
  delete_where p (r ∷ rows) = let rest = delete_where p rows in if p r then rest else r ∷ rest
