-- ===== src/Mpsc/Lossy.antt =====
-- A channel of capacity 0 or 1 has a single slot, and the numbering that tells a full slot from one
-- of the next lap needs two.
use mathlib.Core.Path.{subst}
use aetherflow.Base.{ℕ, zero, suc, ◌≤◌, ◌≡◌, ◌≢◌, refl, sym, ap, true, Option, some, [], ◌∷◌, arith}
use aetherflow.Base.Words.{next_power_of_two}
use aetherflow.Mpsc.{
  Queue, Receiving, sent, received, try_send, run_dequeue, dequeue_step, after_head,
}
use aetherflow.Mpsc.Ends.{channel}

module _ {T : Type 0} where
  -- The queue of one slot after two sends: the second message lies over the first.
  abbrev overwritten : T → Queue T
  overwritten y = record {
    buffer = record { seq = 2; val = some y } ∷ [];
    mask = 0;
    enqueue_pos = 2;
    dequeue_pos = 0;
    producers = 1;
    consumer_alive = true;
  }

  one_slot :
      (x y : T)
      → let first = try_send (channel 1) x in
        let second = try_send first.0 y in (first.1 ≡ sent) × (second ≡ (overwritten y, sent))
  unfolding try_send channel next_power_of_two
  one_slot x y = (refl, refl)

  -- The receiver goes round between its two first program points.
  spins :
      (y : T) (n : ℕ) (r : Option T) → (run_dequeue n (overwritten y) Receiving.load).1 ≢ received r
  unfolding run_dequeue dequeue_step after_head
  spins y zero r e = cc
  spins y (suc zero) r e = cc
  spins y (suc (suc n)) r e = spins y n r e

  channel-one : (capacity : ℕ) → capacity ≤ 1 → channel {T = T} capacity ≡ channel 1
  unfolding channel
  channel-one zero h = refl
  channel-one (suc zero) h = refl
  channel-one (suc (suc n)) h = absurd (omega arith)

  -- Two sends in a row on `q` both succeed, and then a receive never returns.
  abbrev pub Loses : Queue T → T → T → Type 0
  Loses q x y =
      let first = try_send q x in
      let second = try_send first.0 y in
      (first.1 ≡ sent)
      × (second.1 ≡ sent)
      × ((n : ℕ) (r : Option T) → (run_dequeue n second.0 Receiving.load).1 ≢ received r)

  -- On a channel of capacity 0 or 1 two sends in a row both succeed, and then a receive never
  -- returns, for however many steps it runs.
  pub one_slot-Loses : (capacity : ℕ) (x y : T) → capacity ≤ 1 → Loses (channel capacity) x y
  one_slot-Loses capacity x y h = subst (λ q. Loses q x y) (sym (channel-one capacity h)) lost
    where
      lost : Loses (channel 1) x y
      lost = let e = one_slot x y in (e.0, ap (λ t. t.1) e.1, rw e.1 (spins y))
