-- ===== src/Common/Deletes.antt =====
-- Laws of DELETE.
use mathlib.Core.Path.{◌≡◌, refl}
use mathlib.Core.Bool.{Bool}
use mathlib.Core.Option.{none}
use mathlib.Core.List.{List, [], ◌∷◌}
use native.Mathlib.Omega.{arith}
use abrolia.Common.Table.{find, delete_where}

module _ {A : Type 0} where
  pub find-delete_where : (p : A → Bool) (rows : List A) → find p (delete_where p rows) ≡ none
  find-delete_where p [] = refl
  find-delete_where p (r ∷ rows) = ground (arith, find-delete_where p rows)
