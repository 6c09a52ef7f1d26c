-- ===== src/System.antt =====
-- core/src/system.rs: the runtime. This file holds the idle strategy and the tuning knobs; the
-- children hold the restart policy, the actor cell, the loop of a core thread, and the placement.
pub mod Supervise
pub mod Cell
pub mod Core
pub mod Placement
pub mod Handle
pub mod Stages
mod Tests
use aetherflow.Base.{
  ℕ, zero, suc, ◌+◌, ◌-◌, ◌*◌, ◌/◌, ◌%◌, ◌^◌, ◌≤◌, ◌<◌, min, max, ◌≡◌, refl, sym, ap, ◌∙◌, ◌≢◌, ◌⊎◌,
  inl, inr, Bool, true, false, ◌&&◌, ◌||◌, not, Option, none, some, List, [], ◌∷◌, ◌++◌, map, arith,
  dec_lt, ℕ_discrete, ltb, leb, ◌==◌, if◌then◌else◌, Bool-cases, Option-cases, length, get_elem?,
  set, take, drop, replicate, length-set, length-append, get_elem?-set_self, get_elem?-set_ne,
  get_elem?_of_lt, lt_of_get_elem?,
}
use aetherflow.Base.Words.{wrapping_add}

-- `IdleStrategy`; a duration is its nanoseconds.
pub data IdleStrategy : Type 0 where
  busy_spin : IdleStrategy
  backoff : (spins yields park : ℕ) → IdleStrategy

-- `IdleStrategy::backoff()`
abbrev pub default_backoff : IdleStrategy
default_backoff = backoff 128 128 50000

-- What a core thread does when it is idle.
pub data IdleAction : Type 0 where
  spin_loop : IdleAction
  yield_now : IdleAction
  sleep : ℕ → IdleAction

abbrev pub u32 : ℕ
u32 = 2 ^ 32

-- `IdleStrategy::idle`; the sum of the two bounds is one of 32 bits, as in a release build.
unfoldable pub idle : IdleStrategy → ℕ → IdleAction
idle busy_spin count = spin_loop
idle (backoff spins yields park) count =
    if ltb count spins
    then spin_loop
    else if ltb count ((spins + yields) % u32)
    then yield_now
    else sleep park

-- `SchedulingPolicy`
pub record SchedulingPolicy : Type 0 where
  pub idle : IdleStrategy
  pub batch_drain : ℕ

-- `SchedulingPolicy::default`
abbrev pub default_policy : SchedulingPolicy
default_policy = record { idle = busy_spin; batch_drain = 128 }

-- `SchedulingPolicy::idle`
abbrev pub with_idle : SchedulingPolicy → IdleStrategy → SchedulingPolicy
with_idle p s = record p { idle = s }

-- `SchedulingPolicy::batch_drain`; `none` is the failed assertion.
abbrev pub with_batch_drain : SchedulingPolicy → ℕ → Option SchedulingPolicy
with_batch_drain p n = if leb 1 n then some (record p { batch_drain = n }) else none

-- `idle_count.saturating_add(1)`
abbrev pub next_idle_count : ℕ → ℕ
next_idle_count count = min (count + 1) (u32 - 1)

-- The actions of so many idle passes in a row, from a count on.
unfoldable pub idle_passes : IdleStrategy → ℕ → ℕ → List IdleAction
unfolding idle
idle_passes s count zero = []
idle_passes s count (suc n) = idle s count ∷ idle_passes s (next_idle_count count) n
