-- ===== src/Base/Maps.antt =====
-- Maps from numbers as association lists: `HashMap` with `insert`, `get_mut` and `remove`.
use Prim.Native.Nat.{ℕ}
use mathlib.Core.Path.{◌≡◌, refl}
use mathlib.Core.Logic.{◌≢◌, inl, inr}
use mathlib.Core.List.{List, [], ◌∷◌}
use mathlib.Core.Option.{Option, none, some, some-injective}
use mathlib.Core.Path.{subst}
use native.Mathlib.Omega.{arith}
use aetherflow.Base.Tests.{◌==◌, if◌then◌else◌, Bool-cases}
use aetherflow.Base.AllOf.{AllOf}

module _ {ℓ} {V : Type ℓ} where
  abbrev pub lookup : List (ℕ × V) → ℕ → Option V
  lookup [] k = none
  lookup ((j, v) ∷ m) k = if j == k then some v else lookup m k

  abbrev pub delete : List (ℕ × V) → ℕ → List (ℕ × V)
  delete [] k = []
  delete ((j, v) ∷ m) k = if j == k then delete m k else (j, v) ∷ delete m k

  abbrev pub insert : List (ℕ × V) → ℕ → V → List (ℕ × V)
  insert m k v = (k, v) ∷ delete m k

  pub lookup-delete_self : (m : List (ℕ × V)) (k : ℕ) → lookup (delete m k) k ≡ none
  lookup-delete_self [] k = refl
  lookup-delete_self ((j, v) ∷ m) k = ground (arith, lookup-delete_self m k)

  pub lookup-delete_ne :
      (m : List (ℕ × V)) (k k' : ℕ) → k ≢ k' → lookup (delete m k) k' ≡ lookup m k'
  lookup-delete_ne [] k k' ne = refl
  lookup-delete_ne ((j, v) ∷ m) k k' ne = ground (arith, lookup-delete_ne m k k' ne)

  pub lookup-insert_self : (m : List (ℕ × V)) (k : ℕ) (v : V) → lookup (insert m k v) k ≡ some v
  lookup-insert_self m k v = ground arith

  pub lookup-insert_ne :
      (m : List (ℕ × V)) (k k' : ℕ) (v : V) → k ≢ k' → lookup (insert m k v) k' ≡ lookup m k'
  lookup-insert_ne m k k' v ne = ground (arith, lookup-delete_ne m k k' ne)

  -- A property of every value.
  pub AllOf-delete :
      (P : ℕ × V → Type 0) (m : List (ℕ × V)) (k : ℕ) → AllOf P m → AllOf P (delete m k)
  AllOf-delete P [] k all = tt
  AllOf-delete P ((j, v) ∷ m) k (p, all) = elim (Bool-cases (j == k)) [
    | inl y ↦ rw (y, delete) (AllOf-delete P m k all)
    | inr n ↦ rw (n, delete) (p, AllOf-delete P m k all)
  ]

  pub AllOf-lookup :
      (P : V → Type 0) (m : List (ℕ × V)) (k : ℕ) (v : V)
      → AllOf (λ e. P (e.1)) m
      → lookup m k ≡ some v
      → P v
  AllOf-lookup P [] k v all = λ e. absurd (ground (arith, e))
  AllOf-lookup P ((j, w) ∷ m) k v (p, all) = elim (Bool-cases (j == k)) [
    | inl y ↦ rw (y, lookup) (λ e. subst P (some-injective w v e) p)
    | inr n ↦ rw (n, lookup) (λ e. AllOf-lookup P m k v all e)
  ]
