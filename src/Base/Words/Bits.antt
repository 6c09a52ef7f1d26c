-- ===== src/Base/Words/Bits.antt =====
-- A mask of low ones is the remainder by a power of two.
use Prim.Native.Nat.{
  ℕ, zero, suc, ◌+◌, ◌-◌, ◌*◌, ◌/◌, ◌%◌, ◌^◌, ◌≤◌, ◌<◌, min, bit_and, digits, bit_and-bitwise,
}
use mathlib.Core.Path.{◌≡◌, refl, ap}
use native.Mathlib.Nat.{
  pow-suc, one-le-pow, div-add-mod, mod-lt, mod-eq_of_lt, mul-add-mod_self_left,
}
use native.Mathlib.Omega.{arith}

abbrev conjoin : ℕ → ℕ → ℕ → ℕ
conjoin = digits (λ _. 0) min

-- Any fuel from the first operand on gives the same digits.
conjoin_enough : (n m a b : ℕ) → a ≤ n → a ≤ m → conjoin n a b ≡ conjoin m a b
conjoin_enough zero zero a b p q = refl
conjoin_enough zero (suc m) zero b p q = refl
conjoin_enough zero (suc m) (suc a) b p q = absurd (omega arith)
conjoin_enough (suc n) zero zero b p q = refl
conjoin_enough (suc n) zero (suc a) b p q = absurd (omega arith)
conjoin_enough (suc n) (suc m) zero b p q = refl
conjoin_enough (suc n) (suc m) (suc a) b p q =
    omega (arith, conjoin_enough n m (suc a / 2) (b / 2) (omega arith) (omega arith))

bit_and-zero_left : (b : ℕ) → bit_and 0 b ≡ 0
bit_and-zero_left b = bit_and-bitwise 0 b

-- The lowest digit and the rest.
bit_and_digit : (a b : ℕ) → bit_and a b ≡ bit_and (a / 2) (b / 2) * 2 + min (a % 2) (b % 2)
bit_and_digit zero b = omega (arith, bit_and-zero_left b, bit_and-zero_left (b / 2))
bit_and_digit (suc a) b = omega (
  arith,
  bit_and-bitwise (suc a) b,
  bit_and-bitwise (suc a / 2) (b / 2),
  conjoin_enough a (suc a / 2) (suc a / 2) (b / 2) (omega arith) (omega arith),
)

bit_and-zero_below : (n a : ℕ) → a ≤ n → bit_and a 0 ≡ 0
bit_and-zero_below n zero h = refl
bit_and-zero_below zero (suc a) h = absurd (omega arith)
bit_and-zero_below (suc n) (suc a) h =
    omega (arith, bit_and_digit (suc a) 0, bit_and-zero_below n (suc a / 2) (omega arith))

-- The remainder by a doubled modulus, by its lowest digit.
mod_double : (a p : ℕ) → 0 < p → a % (2 * p) ≡ a / 2 % p * 2 + a % 2
mod_double a p h =
    rw split_at (rw mul-add-mod_self_left (mod-eq_of_lt (omega (arith, mod-lt (a / 2) h))))
  where
    split_at : a % (2 * p) ≡ (2 * p * (a / 2 / p) + (a / 2 % p * 2 + a % 2)) % (2 * p)
    split_at = ap (λ (t : ℕ). t % (2 * p)) (omega (arith, div-add-mod (a / 2) p))

-- `a & (2^k - 1)` is `a % 2^k`.
pub bit_and_mask : (k a : ℕ) → bit_and a (2 ^ k - 1) ≡ a % 2 ^ k
bit_and_mask zero a = omega (arith, bit_and-zero_below a a (omega arith))
bit_and_mask (suc k) a = ground (
  arith,
  pow-suc 2 k,
  one-le-pow k 2,
  bit_and_digit a (2 ^ suc k - 1),
  bit_and_mask k (a / 2),
  mod_double a (2 ^ k),
)
