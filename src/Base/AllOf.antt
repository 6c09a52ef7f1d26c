-- ===== src/Base/AllOf.antt =====
-- A property of every element of a list.
use Prim.Native.Nat.{ℕ, zero, suc}
use mathlib.Core.Path.{◌≡◌}
use mathlib.Core.List.{List, [], ◌∷◌, ◌++◌}
use mathlib.Core.Option.{some, some-injective}
use native.Mathlib.Omega.{arith}
use mathlib.Core.Path.{subst}
use aetherflow.Base.Lists.{get_elem?, set}

module _ {ℓ κ} {A : Type ℓ} (P : A → Type κ) where
  abbrev pub AllOf : List A → Type κ
  AllOf [] = Unit
  AllOf (x ∷ xs) = P x × AllOf xs

  pub AllOf-get_elem? : (xs : List A) (i : ℕ) (x : A) → AllOf xs → get_elem? xs i ≡ some x → P x
  AllOf-get_elem? [] i x all e = absurd (ground (arith, e))
  AllOf-get_elem? (y ∷ xs) zero x (p, all) e = subst P (some-injective y x e) p
  AllOf-get_elem? (y ∷ xs) (suc i) x (p, all) e = AllOf-get_elem? xs i x all e

  pub AllOf-set : (xs : List A) (i : ℕ) (x : A) → AllOf xs → P x → AllOf (set xs i x)
  AllOf-set [] i x all q = tt
  AllOf-set (y ∷ xs) zero x (p, all) q = (q, all)
  AllOf-set (y ∷ xs) (suc i) x (p, all) q = (p, AllOf-set xs i x all q)

  pub AllOf-append : (xs ys : List A) → AllOf xs → AllOf ys → AllOf (xs ++ ys)
  AllOf-append [] ys all more = more
  AllOf-append (x ∷ xs) ys (p, all) more = (p, AllOf-append xs ys all more)

  pub AllOf-snoc : (xs : List A) (x : A) → AllOf xs → P x → AllOf (xs ++ (x ∷ []))
  AllOf-snoc xs x all p = AllOf-append xs (x ∷ []) all (p, tt)

pub AllOf-weaken :
    {A : Type 0} (Q R : A → Type 0) (l : List A) → ((a : A) → Q a → R a) → AllOf Q l → AllOf R l
AllOf-weaken Q R [] f h = tt
AllOf-weaken Q R (a ∷ l) f (p, h) = (f a p, AllOf-weaken Q R l f h)
