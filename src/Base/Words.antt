-- ===== src/Base/Words.antt =====
-- usize arithmetic: 64-bit words kept as plain numbers, with the wrap-around written out.
mod Bits
pub use Bits.{bit_and_mask}
pub use Prim.Native.Nat.{bit_and}
use Prim.Native.Nat.{ℕ, zero, suc, ◌+◌, ◌-◌, ◌*◌, ◌%◌, ◌^◌, ◌≤◌, ◌<◌, ◌∣◌}
use mathlib.Core.Path.{◌≡◌, refl, subst}
use mathlib.Core.Bool.{Bool, false}
use native.Mathlib.Nat.{
  zero-add, suc-add, pow-suc, pow-succ', dvd_refl, dvd-mul_right_of_dvd, mod-mod_of_dvd,
  pow-le-pow_right, one-le-pow,
}
use mathlib.Core.Logic.{inl, inr}
use native.Mathlib.Omega.{arith}
use native.Mathlib.Decide.{ℕ_discrete}
use aetherflow.Base.Tests.{leb, if◌then◌else◌, Bool-cases}

abbrev pub word : ℕ
word = 2 ^ 64

-- `a.wrapping_add(b)`
abbrev pub wrapping_add : ℕ → ℕ → ℕ
wrapping_add a b = (a + b) % word

-- `(a as isize).wrapping_sub(b as isize)`, as a bit pattern: the top bit is the sign.
abbrev pub wrapping_sub : ℕ → ℕ → ℕ
wrapping_sub a b = (a + word - b) % word

-- `x < 0` for an isize given as a bit pattern.
abbrev pub is_negative : ℕ → Bool
is_negative x = leb (2 ^ 63) x

-- `a.saturating_sub(b)`
abbrev pub saturating_sub : ℕ → ℕ → ℕ
saturating_sub a b = a - b

-- The search of `next_power_of_two`, from the power `p` on.
pub power_from : ℕ → ℕ → ℕ → ℕ
power_from zero p n = 0
power_from (suc fuel) p n = let rest = power_from fuel (2 * p) n in if leb n p then p else rest

-- `n.next_power_of_two()`: the 64 powers that a usize holds are tried in order; past them the
-- release build gives 0.
unfoldable pub next_power_of_two : ℕ → ℕ
unfolding power_from
next_power_of_two n = power_from 64 1 n

-- The powers of two that a usize can hold.
pub record IsPower (n : ℕ) : Type 0 where
  pub exponent : ℕ
  pub small : exponent ≤ 63
  pub power : n ≡ 2 ^ exponent

dvd-pow_add : (j k : ℕ) → 2 ^ j ∣ 2 ^ (k + j)
dvd-pow_add j zero = rw (zero-add j) (dvd_refl (2 ^ j))
dvd-pow_add j (suc k) =
    rw (suc-add k j, pow-suc 2 (k + j)) (dvd-mul_right_of_dvd (2 ^ j) (dvd-pow_add j k) 2)

-- Reducing modulo the word first changes no remainder by a power of two.
pub mod-word-mod : {n : ℕ} → IsPower n → (a : ℕ) → a % word % n ≡ a % n
mod-word-mod {n} p a = mod-mod_of_dvd n a divides
  where
    divides : n ∣ word
    divides =
        let e : 64 - p.exponent + p.exponent ≡ 64 = omega (arith, p.small) in
        rw p.power
          (subst (λ t. 2 ^ p.exponent ∣ 2 ^ t) e (dvd-pow_add p.exponent (64 - p.exponent)))

pub IsPower-range : {n : ℕ} → IsPower n → (1 ≤ n) × (n ≤ 2 ^ 63)
IsPower-range {n} p = (
  rw p.power (one-le-pow p.exponent 2 (omega arith)),
  rw p.power (pow-le-pow_right {n = 2} (omega arith) p.small),
)

-- `pos & mask` with `mask = cap - 1` is `pos % cap`.
pub bit_and_index : {n : ℕ} → IsPower n → (a : ℕ) → bit_and a (n - 1) ≡ a % n
bit_and_index p a = rw p.power (bit_and_mask p.exponent a)

-- A power that is still too small is not the last one.
more_fuel : (fuel k n : ℕ) → k + suc fuel ≡ 64 → n ≤ 2 ^ 63 → leb n (2 ^ k) ≡ false → 0 < fuel
more_fuel fuel k n e h more = elim (ℕ_discrete k 63) [
  | yes last ↦ let m : leb n (2 ^ 63) ≡ false = rw last at more in absurd (ground arith)
  | no ne ↦ omega arith
]

power_from_lem :
    (fuel k n : ℕ)
    → k + fuel ≡ 64
    → n ≤ 2 ^ 63
    → 0 < fuel
    → IsPower (power_from fuel (2 ^ k) n) × (n ≤ power_from fuel (2 ^ k) n)
unfolding power_from
power_from_lem zero k n e h f = absurd (omega arith)
power_from_lem (suc fuel) k n e h f = elim (Bool-cases (leb n (2 ^ k))) [
  | inl fits ↦ rw fits (record { exponent = k; small = omega arith; power = refl }, ground arith)
  | inr more ↦ rw more (
      rw (← pow-succ' 2 k)
        (power_from_lem fuel (suc k) n (omega arith) h (more_fuel fuel k n e h more)))
]

-- Every size up to 2^63 is rounded up to a power of two.
pub next_power_of_two_lem :
    (n : ℕ) → n ≤ 2 ^ 63 → IsPower (next_power_of_two n) × (n ≤ next_power_of_two n)
unfolding next_power_of_two
next_power_of_two_lem n h = power_from_lem 64 0 n (omega arith) h (omega arith)
