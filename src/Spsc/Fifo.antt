-- ===== src/Spsc/Fifo.antt =====
-- core/src/spsc.rs: what any interleaving of the producer and the consumer does.
use mathlib.Core.Path.{subst}
use mathlib.Core.Option.{some-injective}
use aetherflow.Base.{
  ℕ, zero, suc, ◌-◌, ◌%◌, ◌≤◌, ◌<◌, ◌≡◌, refl, sym, ap, ◌∙◌, ◌≢◌, inl, inr, true, false, Option,
  none, some, List, [], ◌∷◌, ◌++◌, arith, leb, ◌==◌, if◌then◌else◌, Bool-cases, length, get_elem?,
  replicate,
}
use aetherflow.Base.Words.{word}
use aetherflow.Spsc.{
  Ring, channel, Pushing, load_tail, load_head, write_slot, store_tail, pushed, Popping, own_head,
  see_tail, read_slot, store_head, popped, fault, World, Move, call_push, next_push, push_again,
  call_pop, next_pop, close, push_step, pop_step, on_slot, after_tail, push_idle, pop_idle, move,
  run, start, taken_by, log_taken, drop_ring,
}
use aetherflow.Spsc.Slots.{drop_slots-Holds}
use aetherflow.Spsc.Invariant.{ConsumerFact, ConsumerFact-head, Inv, length-fifo}
use aetherflow.Spsc.Moves.{Kept}
use aetherflow.Spsc.Runs.{idle-tail, idle-head, run-Kept}

module _ {T : Type 0} where
  length-replicate : (n : ℕ) (a : Option T) → length (replicate n a) ≡ n
  length-replicate zero a = refl
  length-replicate (suc n) a = ap suc (length-replicate n a)

  pub start-Kept :
      (capacity : ℕ) (r : Ring T) → channel capacity ≡ some r → Kept (start r) × (r.cap ≡ capacity)
  unfolding channel
  start-Kept capacity r h =
      let new : Ring T = record {
        slots = replicate capacity none;
        cap = capacity;
        head = 0;
        tail = 0;
        closed = false;
      } in
      elim (Bool-cases (leb 1 capacity)) [
        | inl y ↦
            let e =
              some-injective new r (subst (λ b. (if b then some new else none) ≡ some r) y h) in
            subst (λ q. Kept (start q) × (q.cap ≡ capacity)) e
              (
                (
                  [],
                  record {
                    positive = ground (arith, y);
                    size = length-replicate capacity none;
                    fifo = refl;
                    held = tt;
                    room = omega arith;
                    order = omega arith;
                    producer_fact = refl;
                    consumer_fact = refl;
                  },
                ),
                refl,
              )
        | inr n ↦ absurd (cc (subst (λ b. (if b then some new else none) ≡ some r) n h))
      ]

  -- What a call that returned a value took was the last value taken.
  abbrev pub LastTaken : Popping T → List T → Type 0
  LastTaken (store_head h x) taken = (l : List T) × (taken ≡ l ++ (x ∷ []))
  LastTaken (popped (some x)) taken = (l : List T) × (taken ≡ l ++ (x ∷ []))
  LastTaken c taken = Unit

  on_slot-LastTaken :
      (h : ℕ) (o : Option (Option T)) (l : List T)
      → LastTaken (on_slot h o) (log_taken (on_slot h o) l)
  on_slot-LastTaken h none l = tt
  on_slot-LastTaken h (some none) l = tt
  on_slot-LastTaken h (some (some x)) l = (l, refl)

  after_tail-LastTaken : (h t : ℕ) (l : List T) → LastTaken (after_tail {T = T} h t) l
  after_tail-LastTaken h t l = elim (Bool-cases (h == t)) [
    | inl y ↦ rw (y, after_tail) tt
    | inr n ↦ rw (n, after_tail) tt
  ]

  pop_step-LastTaken :
      (r : Ring T) (c : Popping T) (l : List T)
      → LastTaken c l
      → LastTaken (pop_step r c).1 (taken_by c (pop_step r c).1 l)
  unfolding pop_step
  pop_step-LastTaken r own_head l last = tt
  pop_step-LastTaken r (see_tail h) l last = after_tail-LastTaken h r.tail l
  pop_step-LastTaken r (read_slot h) l last = on_slot-LastTaken h (get_elem? r.slots (h % r.cap)) l
  pop_step-LastTaken r (store_head h x) l last = last
  pop_step-LastTaken r (popped none) l last = tt
  pop_step-LastTaken r (popped (some x)) l last = last
  pop_step-LastTaken r fault l last = tt

  move-LastTaken :
      (w : World T) (m : Move T)
      → LastTaken w.consumer w.taken
      → LastTaken (move w m).consumer (move w m).taken
  unfolding move
  move-LastTaken w (call_push x) last = elim (Bool-cases (push_idle w.producer)) [
    | inl y ↦ rw y last
    | inr n ↦ rw n last
  ]
  move-LastTaken w next_push last = last
  move-LastTaken w push_again last = last
  move-LastTaken w call_pop last = elim (Bool-cases (pop_idle w.consumer)) [
    | inl y ↦ rw y tt
    | inr n ↦ rw n last
  ]
  move-LastTaken w next_pop last = pop_step-LastTaken w.ring w.consumer w.taken last
  move-LastTaken w close last = elim (Bool-cases (push_idle w.producer)) [
    | inl y ↦ rw y last
    | inr n ↦ rw n last
  ]

  run-LastTaken :
      (w : World T) (ms : List (Move T))
      → LastTaken w.consumer w.taken
      → LastTaken (run w ms).consumer (run w ms).taken
  unfolding run
  run-LastTaken w [] last = last
  run-LastTaken w (m ∷ ms) last = run-LastTaken (move w m) ms (move-LastTaken w m last)

  ConsumerFact-NotFault : (c : Popping T) (m head tail : ℕ) → ConsumerFact c m head tail → c ≢ fault
  ConsumerFact-NotFault c m head tail h e = subst (λ q. ConsumerFact q m head tail) e h

  pub push_step-capacity : (r : Ring T) (p : Pushing T) → (push_step r p).0.cap ≡ r.cap
  unfolding push_step
  push_step-capacity r (load_tail x) = refl
  push_step-capacity r (load_head x t) = refl
  push_step-capacity r (write_slot x t) = refl
  push_step-capacity r (store_tail t) = refl
  push_step-capacity r (pushed res) = refl

  pub pop_step-capacity : (r : Ring T) (c : Popping T) → (pop_step r c).0.cap ≡ r.cap
  unfolding pop_step
  pop_step-capacity r own_head = refl
  pop_step-capacity r (see_tail h) = refl
  pop_step-capacity r (read_slot h) = refl
  pop_step-capacity r (store_head h x) = refl
  pop_step-capacity r (popped res) = refl
  pop_step-capacity r fault = refl

  pub move-capacity : (w : World T) (m : Move T) → (move w m).ring.cap ≡ w.ring.cap
  unfolding move
  move-capacity w (call_push x) = elim (Bool-cases (push_idle w.producer)) [
    | inl y ↦ rw y refl
    | inr n ↦ rw n refl
  ]
  move-capacity w next_push = push_step-capacity w.ring w.producer
  move-capacity w push_again = refl
  move-capacity w call_pop = elim (Bool-cases (pop_idle w.consumer)) [
    | inl y ↦ rw y refl
    | inr n ↦ rw n refl
  ]
  move-capacity w next_pop = pop_step-capacity w.ring w.consumer
  move-capacity w close = elim (Bool-cases (push_idle w.producer)) [
    | inl y ↦ rw y refl
    | inr n ↦ rw n refl
  ]

  pub run-capacity : (w : World T) (ms : List (Move T)) → (run w ms).ring.cap ≡ w.ring.cap
  unfolding run
  run-capacity w [] = refl
  run-capacity w (m ∷ ms) = run-capacity (move w m) ms ∙ move-capacity w m

  length-left : (w : World T) (left : List T) → Inv w left → length left ≤ w.ring.cap
  length-left w left inv =
      let sum = length-fifo w left inv in
      let low = ConsumerFact-head w.consumer _ _ _ inv.consumer_fact in
      omega (arith, sum, low, inv.room)

  -- What holds of a ring of this capacity after any moves: no call has read a slot without a value, the
  -- values taken are the oldest ones written, in order, and a call that returned a value took the last.
  abbrev pub IsFifo : World T → ℕ → Type 0
  IsFifo w capacity =
      (w.consumer ≢ fault)
      × LastTaken w.consumer w.taken
      × (left : List T) × (w.written ≡ w.taken ++ left)
      × (length left ≤ capacity)

  -- On a new ring, whatever the order in which the two threads take their steps, and whichever calls they
  -- make, while fewer than 2^64 values are written: no try_pop reads a slot that holds no value; the values
  -- taken are the first ones written, in the order in which they were written, and at most as many as the
  -- capacity are written and not yet taken; and what a try_pop returns is the value taken last.
  pub run-Fifo :
      (capacity : ℕ) (r : Ring T) (ms : List (Move T))
      → channel capacity ≡ some r
      → length (run (start r) ms).written < word
      → IsFifo (run (start r) ms) capacity
  run-Fifo capacity r ms h young =
      let w = run (start r) ms in
      let (kept, size) = start-Kept capacity r h in
      let (left, inv) = run-Kept (start r) ms young kept in
      let few = length-left w left inv in
      let same = run-capacity (start r) ms in
      (
        ConsumerFact-NotFault w.consumer _ _ _ inv.consumer_fact,
        run-LastTaken (start r) ms tt,
        left,
        inv.fifo,
        omega (arith, few, same, size),
      )

  -- On a new ring, after any moves of the two threads that end with no call in progress, while fewer than
  -- 2^64 values are written: the drop of the ring drops initialised slots only, and each value written was
  -- either taken or is dropped then, once, in the order in which they were written.
  pub drop_ring-Fifo :
      (capacity : ℕ) (r : Ring T) (ms : List (Move T))
      → channel capacity ≡ some r
      → length (run (start r) ms).written < word
      → push_idle (run (start r) ms).producer ≡ true
      → pop_idle (run (start r) ms).consumer ≡ true
      → (left : List T) × (drop_ring (run (start r) ms).ring ≡ some left)
        × ((run (start r) ms).written ≡ (run (start r) ms).taken ++ left)
  unfolding drop_ring
  drop_ring-Fifo capacity r ms h young p c =
      let w = run (start r) ms in
      let (left, inv) = run-Kept (start r) ms young (start-Kept capacity r h).0 in
      let sum = length-fifo w left inv in
      let at_tail = idle-tail w.producer _ _ _ _ p inv.producer_fact in
      let at_head = idle-head w.consumer _ _ _ c inv.consumer_fact in
      let n : w.ring.tail - w.ring.head ≡ length left = omega (arith, sum, at_tail, at_head) in
      (left, rw (n, sym at_head) (drop_slots-Holds w.ring (length w.taken) left inv.held), inv.fifo)
