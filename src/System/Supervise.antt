-- ===== src/System/Supervise.antt =====
-- core/src/system.rs: `RestartPolicy`, `RestartState` and `Cell::allow_restart`. The instant
-- `Instant::now()` is an argument, in nanoseconds; `duration_since` of an earlier instant is 0, as ℕ's
-- subtraction.
pub mod Stretch
use aetherflow.Base.{
  ℕ, zero, suc, ◌+◌, ◌-◌, ◌%◌, ◌≤◌, ◌<◌, ◌≡◌, refl, ap, ◌∙◌, inl, inr, Bool, true, false, Option,
  none, some, List, [], ◌∷◌, arith, leb, if◌then◌else◌, Bool-cases, length,
}
use native.Mathlib.Nat.{mod-eq_of_lt}
use aetherflow.System.{u32}

-- `RestartPolicy`
pub data RestartPolicy : Type 0 where
  never : RestartPolicy
  limited : (max_restarts within : ℕ) → RestartPolicy
  always : RestartPolicy

-- `RestartPolicy::default_supervised`
abbrev pub default_supervised : RestartPolicy
default_supervised = limited 5 10000000000

-- `RestartState`
pub record RestartState : Type 0 where
  pub window_start : Option ℕ
  pub count : ℕ

-- `RestartState::default`
abbrev pub no_restarts : RestartState
no_restarts = record { window_start = none; count = 0 }

-- The count with this request: one more within the window, and a new window otherwise.
unfoldable pub count_request : RestartState → ℕ → ℕ → RestartState
count_request s within now = elim s.window_start [
  | none ↦ record { window_start = some now; count = 1 }
  | some start ↦
      if leb (now - start) within
      then record s { count = (s.count + 1) % u32 }
      else record { window_start = some now; count = 1 }
]

-- `Cell::allow_restart`
unfoldable pub allow_restart : RestartPolicy → RestartState → ℕ → RestartState × Bool
unfolding count_request
allow_restart never s now = (s, false)
allow_restart always s now = (s, true)
allow_restart (limited max_restarts within) s now =
    let s' = count_request s within now in (s', leb s'.count max_restarts)

-- The answers to requests at such instants, one after the other.
unfoldable pub answers : RestartPolicy → RestartState → List ℕ → List Bool
unfolding allow_restart
answers p s [] = []
answers p s (now ∷ times) = let (s', b) = allow_restart p s now in b ∷ answers p s' times

-- Every instant is at most so late.
abbrev pub AllBy : ℕ → List ℕ → Type 0
AllBy latest [] = Unit
AllBy latest (t ∷ ts) = (t ≤ latest) × AllBy latest ts

-- The first `k` answers are yes, the other ones no.
abbrev pub first_only : ℕ → List ℕ → List Bool
first_only k [] = []
first_only zero (t ∷ ts) = false ∷ first_only zero ts
first_only (suc k) (t ∷ ts) = true ∷ first_only k ts

pub answers_within :
    (max_restarts within start count : ℕ) (times : List ℕ)
    → AllBy (start + within) times
    → count + length times < u32
    → answers
        (limited max_restarts within)
        (record { window_start = some start; count = count })
        times
      ≡ first_only (max_restarts - count) times
unfolding answers
answers_within m within start count [] all fits = refl
answers_within m within start count (t ∷ times) (soon, all) fits =
    let inside : leb (t - start) within ≡ true = ground arith in
    let small : (count + 1) % u32 ≡ count + 1 = mod-eq_of_lt (omega arith) in
    let rest = answers_within m within start (count + 1) times all (omega arith) in
    elim (Bool-cases (leb (count + 1) m)) [
      | inl in_cap ↦
          let le : count + 1 ≤ m = ground arith in
          let e : m - count ≡ suc (m - (count + 1)) = omega arith in
          rw (inside, small, in_cap, e) (ap (λ l. true ∷ l) rest)
      | inr over ↦
          let lt : m < count + 1 = ground arith in
          let e : m - count ≡ 0 = omega arith in
          let e' : m - (count + 1) ≡ 0 = omega arith in
          rw (inside, small, over, e) (ap (λ l. false ∷ l) (rest ∙ ap (λ k. first_only k times) e'))
    ]

-- Of the restarts requested in one window, fewer than 2^32, exactly the first `max_restarts` are
-- allowed: the requests come no later than `within` after the first one, in any order after it.
pub answers_lem :
    (max_restarts within start : ℕ) (times : List ℕ)
    → AllBy (start + within) times
    → length times + 1 < u32
    → answers (limited max_restarts within) no_restarts (start ∷ times)
      ≡ first_only max_restarts (start ∷ times)
unfolding answers
answers_lem zero within start times all fits =
    ap (λ l. false ∷ l) (answers_within 0 within start 1 times all (omega arith))
answers_lem (suc m) within start times all fits =
    let one : leb 1 (suc m) ≡ true = ground arith in
    let e : suc m - 1 ≡ m = omega arith in
    let rest = answers_within (suc m) within start 1 times all (omega arith) in
    rw one (ap (λ l. true ∷ l) (rest ∙ ap (λ k. first_only k times) e))
