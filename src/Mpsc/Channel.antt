-- ===== src/Mpsc/Channel.antt =====
-- A new channel holds nothing.
use native.Mathlib.Nat.{add-zero, zero-add, mod-eq_of_lt}
use aetherflow.Base.{
  ℕ, zero, suc, ◌+◌, ◌^◌, ◌≤◌, ◌<◌, ◌≡◌, refl, ap, ◌∙◌, max, none, some, [], arith, length,
  get_elem?,
}
use aetherflow.Base.Words.{word, IsPower, IsPower-range, next_power_of_two, next_power_of_two_lem}
use aetherflow.Mpsc.Ends.{slots_from, channel}
use aetherflow.Mpsc.Invariant.{Holds}

length-slots_from : (T : Type 0) (n i : ℕ) → length (slots_from {T = T} n i) ≡ n
length-slots_from T zero i = refl
length-slots_from T (suc n) i = ap suc (length-slots_from T n (i + 1))

module _ {T : Type 0} where
  get_elem?-slots_from :
      (n i j : ℕ)
      → j < n
      → get_elem? (slots_from {T = T} n i) j ≡ some (record { seq = i + j; val = none })
  get_elem?-slots_from zero i j h = elim h [ ]
  get_elem?-slots_from (suc n) i zero h = rw add-zero
  get_elem?-slots_from (suc n) i (suc j) h =
      get_elem?-slots_from n (i + 1) j (omega arith)
      ∙ ap (λ (t : ℕ). some (record { seq = t; val = none })) (omega arith)

  -- A new channel is an empty mailbox with the capacity rounded up, if that is at least two.
  pub channel-Holds :
      (capacity : ℕ)
      → 2 ≤ capacity
      → capacity ≤ 2 ^ 63
      → Holds {T = T} (next_power_of_two capacity) 0 [] (channel capacity)
  unfolding channel
  channel-Holds capacity big small = rw at_least record {
    power = cap.0;
    two = omega (arith, cap.1);
    room = omega arith;
    mask = refl;
    size = length-slots_from T _ 0;
    tail = refl;
    head = refl;
    stored = λ j x e. absurd (ground arith);
    free = λ j le in_lap.
        rw
          (
            zero-add,
            mod-eq_of_lt in_lap,
            mod-eq_of_lt {n = j} {m = word} (omega (arith, IsPower-range cap.0)),
          )
          (get_elem?-slots_from _ 0 j in_lap
            ∙ ap (λ (t : ℕ). some (record { seq = t; val = none })) (zero-add j));
  }
    where
      at_least : max capacity 1 ≡ capacity
      at_least = omega arith

      cap : IsPower (next_power_of_two capacity) × (capacity ≤ next_power_of_two capacity)
      cap = next_power_of_two_lem capacity small
