-- ===== src/Timer/Wake.antt =====
-- core/src/timer.rs: `run`, from a wake of the timer thread to its next sleep.
use mathlib.Core.Path.{subst}
use mathlib.Core.List.{Memᴰ}
use aetherflow.Base.{
  ℕ, zero, suc, ◌+◌, ◌-◌, ◌≤◌, ◌<◌, max, ◌≡◌, refl, sym, ap, inl, inr, Option, none, some, List, [],
  ◌∷◌, arith, Option-cases,
}
use aetherflow.Base.AllOf.{AllOf}
use aetherflow.Timer.{Entry, Delivery, TimerState, fire_due, sleep_for}
use aetherflow.Timer.Order.{BeforeAll, IsSorted, fire_due-IsSorted}
use aetherflow.Timer.Due.{due, IsPeriodic, IsLater, Fired, fire_due-Fired}

module _ {M : Type 0} where
  -- `while heap.peek()...`, on fuel, and the instant and the timeout of the sleep after it. In each round, the delivery meets what
  -- `deliver` says, `clock` is the time then, and `others` is what other threads do to the state.
  unfoldable pub wake :
      (now : ℕ)
      → (deliver : ℕ → Delivery) → (clock : ℕ → ℕ) → (others : ℕ → TimerState M → TimerState M)
      → (fuel k : ℕ) → TimerState M
      → Option (TimerState M × ℕ × ℕ)
  wake now deliver clock others zero k s = none
  wake now deliver clock others (suc fuel) k s =
      elim (fire_due s now (deliver k) (clock k) (others k)) [
        | none ↦ some (s, clock k, sleep_for s (clock k))
        | some s' ↦ wake now deliver clock others fuel (suc k) s'
      ]

  sleep-BeforeAll :
      (t : ℕ) (x : Entry M) (es : List (Entry M))
      → BeforeAll x es
      → AllOf (λ e. t + (x.deadline - t) ≤ max t e.deadline) es
  sleep-BeforeAll t x [] all = tt
  sleep-BeforeAll t x (e ∷ es) (before, all) = (ground (arith, before), sleep-BeforeAll t x es all)

  sleep_for-Deadlines :
      (s : TimerState M) (heap : List (Entry M)) (t : ℕ)
      → s.heap ≡ heap
      → IsSorted heap
      → AllOf (λ e. t + sleep_for s t ≤ max t e.deadline) heap
  sleep_for-Deadlines s [] t e sorted = tt
  sleep_for-Deadlines s (x ∷ es) t e (first, sorted) =
      let until : sleep_for s t ≡ x.deadline - t =
        ap (λ h. elim h [ [] ↦ 3600000000000 | y ∷ ys ↦ y.deadline - t ]) e in
      subst (λ n. AllOf (λ y. t + n ≤ max t y.deadline) (x ∷ es)) (sym until)
        (omega arith, sleep-BeforeAll t x es first)

  -- The thread goes to sleep; no entry is due any more, those that were not due are all there, as they
  -- were, and the sleep ends by every deadline, or at once.
  abbrev pub OnTime : ℕ → TimerState M → Option (TimerState M × ℕ × ℕ) → Type 0
  OnTime now s none = ⊥
  OnTime now s (some (s', t, timeout)) =
      AllOf (IsLater now) s'.heap
      × ((y : Entry M) → IsLater now y → Memᴰ y s.heap → Memᴰ y s'.heap)
      × AllOf (λ e. t + timeout ≤ max t e.deadline) s'.heap

  OnTime-kept :
      (now : ℕ) (s s' : TimerState M) (r : Option (TimerState M × ℕ × ℕ))
      → ((y : Entry M) → IsLater now y → Memᴰ y s.heap → Memᴰ y s'.heap)
      → OnTime now s' r
      → OnTime now s r
  OnTime-kept now s s' none kept h = h
  OnTime-kept now s s' (some (s2, t, timeout)) kept (later, kept', sleep) =
      (later, (λ y late h. kept' y late (kept y late h)), sleep)

  wake-OnTime_from :
      (now : ℕ) (deliver : ℕ → Delivery) (clock : ℕ → ℕ) (fuel k : ℕ) (s : TimerState M)
      → ((i : ℕ) → now ≤ clock i)
      → IsSorted s.heap
      → AllOf IsPeriodic s.heap
      → due now s.heap < fuel
      → OnTime now s (wake now deliver clock (λ i x. x) fuel k s)
  unfolding wake
  wake-OnTime_from now deliver clock zero k s le sorted periods enough =
      absurd (omega (arith, enough))
  wake-OnTime_from now deliver clock (suc fuel) k s le sorted periods enough =
      let fired = fire_due-Fired s now (clock k) (deliver k) sorted periods (le k) in
      elim (Option-cases (fire_due s now (deliver k) (clock k) (λ x. x))) [
        | inl q ↦
            rw (q, wake)
              (
                subst (Fired now s) q fired,
                (λ y late h. h),
                sleep_for-Deadlines s s.heap (clock k) refl sorted,
              )
        | inr (s', q) ↦
            let (fewer, periods', kept) = subst (Fired now s) q fired in
            let sorted' =
              fire_due-IsSorted s s' now (deliver k) (clock k) (λ x. x) sorted (λ x h. h) q in
            rw (q, wake)
              (OnTime-kept now s s' _ kept (
                wake-OnTime_from now deliver clock fuel (suc k) s' le sorted' periods'
                  (omega (arith, fewer, enough))))
      ]

  -- A wake of the timer thread during which no other thread calls, with a heap in firing order and no
  -- interval of 0, ends with the thread asleep, in one round more than there were entries due, whatever
  -- the deliveries meet and however the clock goes on. No entry is due then any more; those that were
  -- not due are all there as they were, so that no timer fires early; and the sleep ends by every
  -- deadline in the heap, or at once for one that has passed meanwhile, so that none is slept through.
  pub wake-OnTime :
      (now : ℕ) (deliver : ℕ → Delivery) (clock : ℕ → ℕ) (s : TimerState M)
      → ((i : ℕ) → now ≤ clock i)
      → IsSorted s.heap
      → AllOf IsPeriodic s.heap
      → OnTime now s (wake now deliver clock (λ i x. x) (due now s.heap + 1) 0 s)
  wake-OnTime now deliver clock s le sorted periods =
      wake-OnTime_from now deliver clock (due now s.heap + 1) 0 s le sorted periods (omega arith)
