-- ===== src/System/Stages.antt =====
-- core/src/system.rs: the stages of a core thread that finds no work.

use native.Mathlib.Nat.{mod-eq_of_lt, zero-add}
use aetherflow.Base.{
  ℕ, zero, suc, ◌+◌, ◌%◌, ◌≤◌, ◌<◌, ◌≡◌, refl, ap, ◌∙◌, List, ◌∷◌, ◌++◌, arith, replicate,
}
use aetherflow.System.{
  backoff, IdleAction, spin_loop, yield_now, sleep, idle, next_idle_count, idle_passes, u32,
}

module _ (spins yields park : ℕ) (fits : spins + yields < u32) where
  idle-sleep :
      (count : ℕ) → spins + yields ≤ count → idle (backoff spins yields park) count ≡ sleep park
  unfolding idle
  idle-sleep count past =
      let whole : (spins + yields) % u32 ≡ spins + yields = mod-eq_of_lt fits in
      rw whole (ground (arith, past))

  idle-yield :
      (count : ℕ)
      → spins ≤ count
      → count < spins + yields
      → idle (backoff spins yields park) count ≡ yield_now
  unfolding idle
  idle-yield count past before =
      let whole : (spins + yields) % u32 ≡ spins + yields = mod-eq_of_lt fits in
      rw whole (ground (arith, past, before))

  idle-spin : (count : ℕ) → count < spins → idle (backoff spins yields park) count ≡ spin_loop
  unfolding idle
  idle-spin count before = ground (arith, before)

  -- One pass and those after it.
  idle_passes-suc :
      (m n count : ℕ) (action : IdleAction) (rest : List IdleAction)
      → m ≡ suc n
      → idle (backoff spins yields park) count ≡ action
      → idle_passes (backoff spins yields park) (next_idle_count count) n ≡ rest
      → idle_passes (backoff spins yields park) count m ≡ action ∷ rest
  unfolding idle_passes
  idle_passes-suc m n count action rest e now later =
      ap (idle_passes (backoff spins yields park) count) e
      ∙ ap (λ x. x ∷ idle_passes (backoff spins yields park) (next_idle_count count) n) now
      ∙ ap (λ l. action ∷ l) later

  sleeping :
      (n count : ℕ)
      → spins + yields ≤ count
      → idle_passes (backoff spins yields park) count n ≡ replicate n (sleep park)
  unfolding idle_passes
  sleeping zero count past = refl
  sleeping (suc n) count past =
      idle_passes-suc (suc n) n count (sleep park) (replicate n (sleep park)) refl
        (idle-sleep count past) (sleeping n (next_idle_count count) (omega (arith, fits, past)))

  yielding :
      (k n count : ℕ)
      → spins ≤ count
      → count + k ≡ spins + yields
      → idle_passes (backoff spins yields park) count (k + n)
        ≡ replicate k yield_now ++ replicate n (sleep park)
  yielding zero n count past sum = rw (zero-add n) (sleeping n count (omega (arith, sum)))
  yielding (suc k) n count past sum =
      let next : next_idle_count count ≡ count + 1 = omega (arith, fits, sum) in
      idle_passes-suc (suc k + n) (k + n) count yield_now
        (replicate k yield_now ++ replicate n (sleep park)) (omega arith)
        (idle-yield count past (omega (arith, sum)))
        (ap (λ c. idle_passes (backoff spins yields park) c (k + n)) next
          ∙ yielding k n (count + 1) (omega (arith, past)) (omega (arith, sum)))

  spinning :
      (j n count : ℕ)
      → count + j ≡ spins
      → idle_passes (backoff spins yields park) count (j + (yields + n))
        ≡ replicate j spin_loop ++ (replicate yields yield_now ++ replicate n (sleep park))
  spinning zero n count sum =
      rw (zero-add (yields + n)) (yielding yields n count (omega (arith, sum)) (omega (arith, sum)))
  spinning (suc j) n count sum =
      let next : next_idle_count count ≡ count + 1 = omega (arith, fits, sum) in
      let rest =
        replicate j spin_loop ++ (replicate yields yield_now ++ replicate n (sleep park)) in
      idle_passes-suc (suc j + (yields + n)) (j + (yields + n)) count spin_loop rest (omega arith)
        (idle-spin count (omega (arith, sum)))
        (ap (λ c. idle_passes (backoff spins yields park) c (j + (yields + n))) next
          ∙ spinning j n (count + 1) (omega (arith, sum)))

  -- With backoff, a core thread that finds no work for any number of passes in a row spins for the first
  -- `spins` of them, yields for the next `yields`, and sleeps in all the others, however many: the counter,
  -- which saturates, never starts the stages again. The sum of the two bounds is below 2^32.
  pub idle_passes-Stages :
      (n : ℕ)
      → idle_passes (backoff spins yields park) 0 (spins + (yields + n))
        ≡ replicate spins spin_loop ++ (replicate yields yield_now ++ replicate n (sleep park))
  idle_passes-Stages n = spinning spins n 0 (omega arith)
