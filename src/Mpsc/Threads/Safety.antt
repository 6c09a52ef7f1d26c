-- ===== src/Mpsc/Threads/Safety.antt =====
-- What every interleaving of senders and the receiver guarantees.
use aetherflow.Base.{
  ℕ, suc, ◌+◌, ◌%◌, ◌^◌, ◌≤◌, ◌<◌, ◌≡◌, ◌≢◌, List, ◌++◌, some, arith, length, drop, length-drop,
  append-drop_of_prefix, ℕ_discrete,
}
use aetherflow.Base.Words.{next_power_of_two}
use aetherflow.Mpsc.{Sending, Receiving, read, uninit}
use aetherflow.Mpsc.Threads.Facts.{owned_facts, le-claimed}
use aetherflow.Mpsc.Threads.Moves.{Reach-Inv}
use aetherflow.Mpsc.Threads.{World, Reach}
use aetherflow.Mpsc.Threads.Invariant.{Inv, IsYoung, claimed, owned, apart}

module _ {T : Type 0} (capacity : ℕ) {w : World T} (big : 2 ≤ capacity) (small : capacity ≤ 2 ^ 63)
    (young : IsYoung (next_power_of_two capacity) w) (r : Reach capacity w) where
  abbrev cap : ℕ
  cap = next_power_of_two capacity

  abbrev d : ℕ
  d = length w.delivered

  inv : Inv cap w
  inv = Reach-Inv capacity big small young r

  -- In every reachable world the messages received are, in order, the first of those whose
  -- position was reserved, and at most a capacity of reserved messages is still to be received:
  -- none is lost, repeated or reordered.
  pub fifo_in_any_order :
      (pending : List T) × (w.reserved ≡ w.delivered ++ pending) × (length pending ≤ cap)
  fifo_in_any_order = (
    drop (length w.delivered) w.reserved,
    append-drop_of_prefix w.delivered w.reserved inv.order,
    omega (arith, length-drop (length w.delivered) w.reserved, inv.room),
  )

  -- Two senders that both hold a position hold different slots.
  pub one_writer :
      (i j p p' : ℕ)
      → owned (w.sender i) ≡ some p
      → owned (w.sender j) ≡ some p'
      → p % cap ≡ p' % cap
      → i ≡ j
  one_writer i j p p' o o' same = elim (ℕ_discrete p p') [
    | yes e ↦ inv.unique i j p o (rw e o')
    | no ne ↦
        let f = position i p o in
        let f' = position j p' o' in
        absurd (apart cap (length w.delivered) p p' f.0 f.1 f'.0 f'.1 ne same)
  ]
    where
      position :
          (k q : ℕ)
          → owned (w.sender k) ≡ some q
          → (length w.delivered ≤ q) × (q < length w.delivered + cap)
      position k q o =
          let f =
            owned_facts w.queue.buffer cap (length w.delivered)
              (claimed w.receiver (length w.delivered)) w.reserved (w.sender k) q (inv.senders k)
              o in
          (omega (arith, f.0, le-claimed w.receiver (length w.delivered)), f.1)

  -- While the receiver takes a message out of a slot, no sender holds that slot.
  pub reader_alone :
      (i p p' : ℕ) → w.receiver ≡ read p → owned (w.sender i) ≡ some p' → p % cap ≢ p' % cap
  reader_alone i p p' reads o same =
      apart cap d p p' (omega (arith, at_d)) (omega (arith, at_d, inv.two)) (omega (arith, f.0, c))
        f.1 (omega (arith, at_d, f.0, c)) same
    where
      at_d : p ≡ d
      at_d = (rw reads at inv.receiver).0

      c : claimed w.receiver d ≡ suc d
      c = rw reads

      f : (claimed w.receiver d ≤ p') × (p' < d + cap)
      f =
          let g =
            owned_facts w.queue.buffer cap d (claimed w.receiver d) w.reserved (w.sender i) p'
              (inv.senders i) o in
          (g.0, g.1)

  -- The receiver never takes a value that is not there, and no access leaves the buffer.
  pub no_fault :
      (w.receiver ≢ uninit)
      × (w.receiver ≢ Receiving.out_of_range)
      × ((i : ℕ) → w.sender i ≢ Sending.out_of_range)
  no_fault = (λ e. rw e at inv.receiver, λ e. rw e at inv.receiver, λ i e. rw e at (inv.senders i))
