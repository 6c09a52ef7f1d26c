-- ===== src/System/Core/Removal.antt =====
-- `Vec::swap_remove`, as the core thread and the scanning reactor use it: what holds of every element of
-- a list holds of those that are left, and one fewer is left.
use aetherflow.Base.{ℕ, zero, suc, ◌<◌, ◌≡◌, ap, List, [], ◌∷◌, arith, length}
use aetherflow.Base.AllOf.{AllOf}
use aetherflow.System.Core.{swap_remove, last_first, under_first}
use aetherflow.System.Core.Visits.{length-last_first}

module _ {A : Type 0} (P : A → Type 0) where
  AllOf-under_first : (x : A) (xs : List A) → P x → AllOf P xs → AllOf P (under_first x xs)
  AllOf-under_first x [] p all = (p, tt)
  AllOf-under_first x (y ∷ xs) p (q, all) = (q, (p, all))

  AllOf-last_first : (xs : List A) → AllOf P xs → AllOf P (last_first xs)
  AllOf-last_first [] all = tt
  AllOf-last_first (x ∷ xs) (p, all) =
      AllOf-under_first x (last_first xs) p (AllOf-last_first xs all)

  pub AllOf-swap_remove : (xs : List A) (i : ℕ) → AllOf P xs → AllOf P (swap_remove xs i)
  AllOf-swap_remove [] i all = tt
  AllOf-swap_remove (x ∷ xs) zero (p, all) = AllOf-last_first xs all
  AllOf-swap_remove (x ∷ xs) (suc i) (p, all) = (p, AllOf-swap_remove xs i all)

module _ {A : Type 0} where
  pub length-swap_remove :
      (xs : List A) (i : ℕ) → i < length xs → suc (length (swap_remove xs i)) ≡ length xs
  length-swap_remove [] i h = absurd (omega arith)
  length-swap_remove (x ∷ xs) zero h = ap suc (length-last_first xs)
  length-swap_remove (x ∷ xs) (suc i) h = ap suc (length-swap_remove xs i (omega arith))
