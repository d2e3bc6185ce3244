-- ===== src/Common/Actions.antt =====
-- Database code as actions: the database is passed on, and an exception ends the action. The
-- database comes back beside an exception, since what was committed before it stays.
use mathlib.Core.Path.{◌≡◌, refl, sym, subst}
use native.Mathlib.Omega.{arith}
use mathlib.Core.Bool.{Bool}
use mathlib.Core.Option.{Option, none, some}
use abrolia.Common.Tests.{if◌then◌else◌}

pub data Result (E A : Type 0) : Type 0 where
  ok : A → Result E A
  err : E → Result E A

abbrev pub Action : Type 0 → Type 0 → Type 0 → Type 0
Action E S A = S → Result E A × S

module _ {E S : Type 0} where
  infixl 5 ◌>>=◌ ◌>>◌
  abbrev pub ◌>>=◌ : {A B : Type 0} → Action E S A → (A → Action E S B) → Action E S B
  ◌>>=◌ m f s = elim ((m s).0) [ ok a ↦ f a (m s).1 | err e ↦ (err e, (m s).1) ]

  abbrev pub ◌>>◌ : {A B : Type 0} → Action E S A → Action E S B → Action E S B
  m >> k = m >>= λ _. k

  abbrev pub pure : {A : Type 0} → A → Action E S A
  pure a s = (ok a, s)

  abbrev pub raise : {A : Type 0} → E → Action E S A
  raise e s = (err e, s)

  abbrev pub raise_if : Bool → E → Action E S (Unit {0})
  raise_if c e s = (if c then err e else ok tt, s)

  abbrev pub gets : {A : Type 0} → (S → A) → Action E S A
  gets f s = (ok (f s), s)

  abbrev pub modify : (S → S) → Action E S (Unit {0})
  modify f s = (ok tt, f s)

  abbrev pub or_raise : {A : Type 0} → Option A → E → Action E S A
  or_raise none e = raise e
  or_raise (some a) e = pure a

  abbrev pub settle_write : {A : Type 0} → S → Result E A × S → Result E A × S
  settle_write s (ok a, t) = (ok a, t)
  settle_write s (err e, t) = (err e, s)

  -- `with db.write()`: BEGIN IMMEDIATE, then COMMIT, or ROLLBACK where the body raises.
  abbrev pub write : {A : Type 0} → Action E S A → Action E S A
  write m s = settle_write s (m s)

-- A predicate on the database is kept by a bind whose first action only reads.
settle_bind :
    {E S A B : Type 0} (P : S → Type 0) (f : A → Action E S B) (s : S) (r : Result E A × S)
    → s ≡ r.1
    → P s
    → ((a : A) → P (f a s).1)
    → P (◌>>=◌ (λ t. r) f s).1
settle_bind P f s (ok a, t) same h k = subst (λ u. P (f a u).1) same (k a)
settle_bind P f s (err e, t) same h k = subst P same h

pub bind_keeps :
    {E S A B : Type 0} (P : S → Type 0) (m : Action E S A) (f : A → Action E S B) (s : S)
    → (m s).1 ≡ s
    → P s
    → ((a : A) → P (f a s).1)
    → P (◌>>=◌ m f s).1
bind_keeps P m f s same h k = settle_bind P f s (m s) (sym same) h k

reads_from :
    {E S A B : Type 0} (P : S → Type 0) (f : A → Action E S B) (s : S) (r : Result E A × S)
    → s ≡ r.1
    → P s
    → ((a : A) → r.0 ≡ ok a → P (f a s).1)
    → P (◌>>=◌ (λ t. r) f s).1
reads_from P f s (ok a, t) same h k = subst (λ u. P (f a u).1) same (k a refl)
reads_from P f s (err e, t) same h k = subst P same h

-- The same, where the second action may count on what the first has read.
pub bind_reads :
    {E S A B : Type 0} (P : S → Type 0) (m : Action E S A) (f : A → Action E S B) (s : S)
    → (m s).1 ≡ s
    → P s
    → ((a : A) → (m s).0 ≡ ok a → P (f a s).1)
    → P (◌>>=◌ m f s).1
bind_reads P m f s same h k = reads_from P f s (m s) (sym same) h k

ok_from :
    {E S A B : Type 0} (f : A → Action E S B) (s : S) (r : Result E A × S) (b : B)
    → (◌>>=◌ (λ t. r) f s).0 ≡ ok b
    → (a : A) × (r.0 ≡ ok a) × ((f a r.1).0 ≡ ok b) × ((◌>>=◌ (λ t. r) f s).1 ≡ (f a r.1).1)
ok_from f s (ok a, t) b h = (a, refl, h, refl)
ok_from f s (err e, t) b h = absurd (ground arith)

-- A bind that returns: both actions do.
pub bind_ok :
    {E S A B : Type 0} (m : Action E S A) (f : A → Action E S B) (s : S) (b : B)
    → (◌>>=◌ m f s).0 ≡ ok b
    → (a : A) × ((m s).0 ≡ ok a) × ((f a (m s).1).0 ≡ ok b) × ((◌>>=◌ m f s).1 ≡ (f a (m s).1).1)
bind_ok m f s b h = ok_from f s (m s) b h

settled_from :
    {E S A : Type 0} (P : S → Type 0) (s : S) (r : Result E A × S)
    → P s
    → ((a : A) → r.0 ≡ ok a → P r.1)
    → P (settle_write s r).1
settled_from P s (ok a, t) h k = k a refl
settled_from P s (err e, t) h k = h

-- A transaction keeps what its body keeps where it returns.
pub write_keeps :
    {E S A : Type 0} (P : S → Type 0) (m : Action E S A) (s : S)
    → P s
    → ((a : A) → (m s).0 ≡ ok a → P (m s).1)
    → P (write m s).1
write_keeps P m s h k = settled_from P s (m s) h k

write_from :
    {E S A : Type 0} (s : S) (r : Result E A × S) (a : A)
    → (settle_write s r).0 ≡ ok a
    → (r.0 ≡ ok a) × ((settle_write s r).1 ≡ r.1)
write_from s (ok b, t) a h = (h, refl)
write_from s (err e, t) a h = absurd (ground arith)

pub write_ok :
    {E S A : Type 0} (m : Action E S A) (s : S) (a : A)
    → (write m s).0 ≡ ok a
    → ((m s).0 ≡ ok a) × ((write m s).1 ≡ (m s).1)
write_ok m s a h = write_from s (m s) a h

goes_from :
    {E S A B : Type 0} (P : S → Type 0) (f : A → Action E S B) (s : S) (r : Result E A × S)
    → P r.1
    → ((a : A) (t : S) → P t → P (f a t).1)
    → P (◌>>=◌ (λ t. r) f s).1
goes_from P f s (ok a, t) h k = k a t h
goes_from P f s (err e, t) h k = h

-- A bind keeps what its actions keep one after the other.
pub bind_goes :
    {E S A B : Type 0} (P : S → Type 0) (m : Action E S A) (f : A → Action E S B) (s : S)
    → P (m s).1
    → ((a : A) (t : S) → P t → P (f a t).1)
    → P (◌>>=◌ m f s).1
bind_goes P m f s h k = goes_from P f s (m s) h k

then_from :
    {E S A B : Type 0} (P Q : S → Type 0) (f : A → Action E S B) (s : S) (r : Result E A × S)
    → P r.1
    → ((t : S) → P t → Q t)
    → ((a : A) (t : S) → P t → Q (f a t).1)
    → Q (◌>>=◌ (λ t. r) f s).1
then_from P Q f s (ok a, t) h stop k = k a t h
then_from P Q f s (err e, t) h stop k = stop t h

-- What holds after the first action of a bind gives what holds after both.
pub bind_then :
    {E S A B : Type 0} (P Q : S → Type 0) (m : Action E S A) (f : A → Action E S B) (s : S)
    → P (m s).1
    → ((t : S) → P t → Q t)
    → ((a : A) (t : S) → P t → Q (f a t).1)
    → Q (◌>>=◌ m f s).1
bind_then P Q m f s h stop k = then_from P Q f s (m s) h stop k
