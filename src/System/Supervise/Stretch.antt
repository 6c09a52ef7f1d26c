-- ===== src/System/Supervise/Stretch.antt =====
-- core/src/system.rs: how many restarts `allow_restart` allows in any stretch of time.
use native.Mathlib.Nat.{mod-eq_of_lt}
use aetherflow.Base.{
  ℕ, zero, suc, ◌+◌, ◌-◌, ◌*◌, ◌%◌, ◌≤◌, ◌<◌, ◌≡◌, refl, inl, inr, Bool, true, false, Option, none,
  some, List, [], ◌∷◌, arith, leb, Bool-cases, length,
}
use aetherflow.System.{u32}
use aetherflow.System.Supervise.{
  RestartState, limited, count_request, allow_restart, answers, AllBy, first_only, answers_within,
}

-- How many answers are yes.
abbrev pub allowed : List Bool → ℕ
allowed [] = 0
allowed (true ∷ bs) = suc (allowed bs)
allowed (false ∷ bs) = allowed bs

-- The clock does not go back.
abbrev pub IsOrdered : ℕ → List ℕ → Type 0
IsOrdered earliest [] = Unit
IsOrdered earliest (t ∷ ts) = (earliest ≤ t) × IsOrdered t ts

allowed-first_only : (k : ℕ) (ts : List ℕ) → allowed (first_only k ts) ≤ k
allowed-first_only k [] = omega arith
allowed-first_only zero (t ∷ ts) = allowed-first_only zero ts
allowed-first_only (suc k) (t ∷ ts) = let rest = allowed-first_only k ts in omega (arith, rest)

AllBy-later :
    (latest latest' : ℕ) (ts : List ℕ) → latest ≤ latest' → AllBy latest ts → AllBy latest' ts
AllBy-later latest latest' [] le all = tt
AllBy-later latest latest' (t ∷ ts) le (soon, all) =
    (omega (arith, soon, le), AllBy-later latest latest' ts le all)

-- One answer and the others.
allowed-cons :
    (b : Bool) (bs : List Bool) (k n : ℕ)
    → (b ≡ true → suc k ≤ n)
    → k ≤ n
    → allowed bs ≤ k
    → allowed (b ∷ bs) ≤ n
allowed-cons true bs k n one le rest = let more = one refl in omega (arith, more, rest)
allowed-cons false bs k n one le rest = omega (arith, le, rest)

-- The request that opens a window, and those after it in the stretch.
new_window :
    (m within t : ℕ) (ts : List ℕ)
    → AllBy (t + within) ts
    → length ts + 1 < u32
    → allowed
        (leb 1 m ∷ answers (limited m within) (record { window_start = some t; count = 1 }) ts)
      ≤ m
new_window m within t ts all fits =
    let rest = answers_within m within t 1 ts all (omega (arith, fits)) in
    let few = allowed-first_only (m - 1) ts in
    allowed-cons (leb 1 m) _ (m - 1) m (λ y. ground (arith, y)) (omega arith) (rw rest few)

from_window :
    (m within earliest : ℕ) (window : Option ℕ) (count : ℕ) (ts : List ℕ)
    → IsOrdered earliest ts
    → AllBy (earliest + within) ts
    → count + length ts < u32
    → allowed (answers (limited m within) (record { window_start = window; count = count }) ts)
      ≤ (m - count) + m
unfolding answers allow_restart count_request
from_window m within earliest window count [] ordered all fits = omega arith
from_window m within earliest none count (t ∷ ts) (lo, ordered) (soon, all) fits =
    let opened =
      new_window m within t ts (AllBy-later _ _ ts (omega (arith, lo)) all) (omega (arith, fits)) in
    omega (arith, opened)
from_window m within earliest (some start) count (t ∷ ts) (lo, ordered) (soon, all) fits =
    elim (Bool-cases (leb (t - start) within)) [
      | inl inside ↦
          let small : (count + 1) % u32 ≡ count + 1 = mod-eq_of_lt (omega (arith, fits)) in
          let rest =
            from_window m within t (some start) (count + 1) ts ordered
              (AllBy-later _ _ ts (omega (arith, lo)) all) (omega (arith, fits)) in
          rw (inside, small)
            (allowed-cons (leb (count + 1) m) _ ((m - (count + 1)) + m) ((m - count) + m)
              (λ y. ground (arith, y)) (omega arith) rest)
      | inr outside ↦
          let opened =
            new_window m within t ts (AllBy-later _ _ ts (omega (arith, lo)) all)
              (omega (arith, fits)) in
          rw outside (omega (arith, opened))
    ]

-- In a stretch of time as long as the window, wherever it begins and whatever was requested before it,
-- at most twice max_restarts of the requests are allowed, if the clock does not go back and the count
-- does not overflow, that is with fewer than 2^32 requests in the window so far and the stretch.
pub answers-Stretch :
    (max_restarts within earliest : ℕ) (s : RestartState) (times : List ℕ)
    → IsOrdered earliest times
    → AllBy (earliest + within) times
    → s.count + length times < u32
    → allowed (answers (limited max_restarts within) s times) ≤ 2 * max_restarts
answers-Stretch m within earliest s times ordered all fits =
    let few = from_window m within earliest s.window_start s.count times ordered all fits in
    omega (arith, few)
