-- ===== src/Spsc/Progress.antt =====
-- core/src/spsc.rs: a push for which there is room returns, whatever the consumer does meanwhile.
use aetherflow.Base.{
  ℕ, suc, ◌+◌, ◌-◌, ◌≤◌, ◌<◌, ◌≡◌, refl, ap, inl, inr, Bool, true, false, some, List, [], ◌∷◌, ◌++◌,
  arith, ◌==◌, Bool-cases, length,
}
use aetherflow.Base.AllOf.{AllOf}
use aetherflow.Base.Words.{word, wrapping_sub}
use aetherflow.Errors.{ok}
use aetherflow.Spsc.{
  Ring, channel, Pushing, load_tail, load_head, write_slot, store_tail, pushed, Popping, own_head,
  see_tail, read_slot, store_head, popped, fault, World, Move, call_push, next_push, push_again,
  call_pop, next_pop, close, push_step, pop_step, after_heads, pop_idle, move, run, start,
}
use aetherflow.Spsc.Invariant.{ProducerFact, ConsumerFact, ConsumerFact-head, length-fifo}
use aetherflow.Spsc.Moves.{Kept, after_push}
use aetherflow.Spsc.Runs.{length-run, length-move, move-Kept, run-Kept}
use aetherflow.Spsc.Fifo.{
  start-Kept, push_step-capacity, pop_step-capacity, move-capacity, run-capacity,
}

module _ {T : Type 0} where
  -- A step of the producer, or any move of the consumer.
  abbrev pub is_step : Move T → Bool
  is_step (call_push x) = false
  is_step next_push = true
  is_step push_again = false
  is_step call_pop = true
  is_step next_pop = true
  is_step close = false

  abbrev pub push_steps : List (Move T) → ℕ
  push_steps [] = 0
  push_steps (next_push ∷ ms) = suc (push_steps ms)
  push_steps (call_push x ∷ ms) = push_steps ms
  push_steps (push_again ∷ ms) = push_steps ms
  push_steps (call_pop ∷ ms) = push_steps ms
  push_steps (next_pop ∷ ms) = push_steps ms
  push_steps (close ∷ ms) = push_steps ms

  abbrev steps_left : Pushing T → ℕ
  steps_left (load_tail x) = 4
  steps_left (load_head x t) = 3
  steps_left (write_slot x t) = 2
  steps_left (store_tail t) = 1
  steps_left (pushed r) = 0

  -- The push of a value onto these, under way or done.
  abbrev Pushes : T → List T → Pushing T → List T → Type 0
  Pushes x l (load_tail y) written = (y ≡ x) × (written ≡ l)
  Pushes x l (load_head y t) written = (y ≡ x) × (written ≡ l)
  Pushes x l (write_slot y t) written = (y ≡ x) × (written ≡ l)
  Pushes x l (store_tail t) written = written ≡ l ++ (x ∷ [])
  Pushes x l (pushed r) written = (r ≡ ok tt) × (written ≡ l ++ (x ∷ []))

  Pushes-done :
      (x : T) (l : List T) (p : Pushing T) (written : List T)
      → steps_left p ≤ 0
      → Pushes x l p written
      → (p ≡ pushed (ok tt)) × (written ≡ l ++ (x ∷ []))
  Pushes-done x l (load_tail y) written le h = absurd (ground (arith, le))
  Pushes-done x l (load_head y t) written le h = absurd (ground (arith, le))
  Pushes-done x l (write_slot y t) written le h = absurd (ground (arith, le))
  Pushes-done x l (store_tail t) written le h = absurd (ground (arith, le))
  Pushes-done x l (pushed r) written le (e, h) = (ap (λ r. pushed r) e, h)

  after_heads-room :
      (r : Ring T) (x : T) (t : ℕ)
      → t < word
      → r.head ≤ t
      → t < r.head + r.cap
      → after_heads r x t r.head ≡ write_slot x t
  after_heads-room r x t small low room = elim (Bool-cases (wrapping_sub t r.head == r.cap)) [
    | inl y ↦
        let sub : wrapping_sub t r.head ≡ t - r.head = omega (arith, small, low) in
        absurd (ground (arith, y, sub, low, room))
    | inr n ↦ rw (n, after_heads) refl
  ]

  -- A step of the producer takes the push further.
  after_push-Pushes :
      (w : World T) (p : Pushing T) (x : T) (l : List T)
      → ProducerFact p (length w.written) w.ring.tail w.ring.head w.ring.cap
      → length w.written < word
      → w.ring.head ≤ w.ring.tail
      → length l < w.ring.head + w.ring.cap
      → Pushes x l p w.written
      → Pushes x l (after_push w p).producer (after_push w p).written
        × (steps_left (after_push w p).producer ≤ steps_left p - 1)
  unfolding push_step
  after_push-Pushes w (load_tail y) x l fact young low room h = (h, omega arith)
  after_push-Pushes w (load_head y t) x l (e, e') young low room (v, h) =
      let same = ap (λ l. length l) h in
      let go =
        after_heads-room w.ring y t (omega (arith, e, e', young)) (omega (arith, e', low))
          (omega (arith, e, e', same, room)) in
      rw go ((v, h), omega arith)
  after_push-Pushes w (write_slot y t) x l fact young low room (v, h) =
      (rw (v, h) refl, omega arith)
  after_push-Pushes w (store_tail t) x l fact young low room h = ((refl, h), omega arith)
  after_push-Pushes w (pushed r) x l fact young low room h = (h, omega arith)

  push_step-head : (r : Ring T) (p : Pushing T) → (push_step r p).0.head ≡ r.head
  unfolding push_step
  push_step-head r (load_tail x) = refl
  push_step-head r (load_head x t) = refl
  push_step-head r (write_slot x t) = refl
  push_step-head r (store_tail t) = refl
  push_step-head r (pushed res) = refl

  pop_step-head :
      (r : Ring T) (c : Popping T) (m : ℕ)
      → ConsumerFact c m r.head r.tail
      → m < word
      → r.head ≤ (pop_step r c).0.head
  unfolding pop_step
  pop_step-head r own_head m fact small = omega arith
  pop_step-head r (see_tail h) m fact small = omega arith
  pop_step-head r (read_slot h) m fact small = omega arith
  pop_step-head r (store_head h x) m (e, e') small = omega (arith, e, e', small)
  pop_step-head r (popped res) m fact small = omega arith
  pop_step-head r fault m fact small = omega arith

  pop_idle-head : (w : World T) → (move w call_pop).ring.head ≡ w.ring.head
  unfolding move
  pop_idle-head w = elim (Bool-cases (pop_idle w.consumer)) [
    | inl y ↦ rw y refl
    | inr n ↦ rw n refl
  ]

  call_pop-Pushes :
      (w : World T) (x : T) (l : List T)
      → Pushes x l w.producer w.written
      → Pushes x l (move w call_pop).producer (move w call_pop).written
        × (steps_left (move w call_pop).producer ≤ steps_left w.producer)
  unfolding move
  call_pop-Pushes w x l h = elim (Bool-cases (pop_idle w.consumer)) [
    | inl y ↦ rw y (h, omega arith)
    | inr n ↦ rw n (h, omega arith)
  ]

  -- One step of either thread keeps the room that the push needs, and brings it no further away.
  move-Pushes :
      (w : World T) (m : Move T) (x : T) (l : List T)
      → Kept w
      → is_step m ≡ true
      → length w.written < word
      → length l < w.ring.head + w.ring.cap
      → Pushes x l w.producer w.written
      → (length l < (move w m).ring.head + (move w m).ring.cap)
        × Pushes x l (move w m).producer (move w m).written
        × (steps_left (move w m).producer ≤ steps_left w.producer - push_steps (m ∷ []))
  unfolding move
  move-Pushes w (call_push y) x l kept ok_move young room h = absurd (cc ok_move)
  move-Pushes w next_push x l (rest, inv) ok_move young room h =
      let low = ConsumerFact-head w.consumer _ _ _ inv.consumer_fact in
      let (h', fewer) =
        after_push-Pushes w w.producer x l inv.producer_fact young (omega (arith, low, inv.order))
          room h in
      let same = push_step-head w.ring w.producer in
      let cap_same = push_step-capacity w.ring w.producer in
      (omega (arith, same, cap_same, room), h', omega (arith, fewer))
  move-Pushes w push_again x l kept ok_move young room h = absurd (cc ok_move)
  move-Pushes w call_pop x l kept ok_move young room h =
      let (h', fewer) = call_pop-Pushes w x l h in
      let same = pop_idle-head w in
      let cap_same = move-capacity w call_pop in
      (omega (arith, same, cap_same, room), h', omega (arith, fewer))
  move-Pushes w next_pop x l (rest, inv) ok_move young room h =
      let sum = length-fifo w rest inv in
      let up =
        pop_step-head w.ring w.consumer (length w.taken) inv.consumer_fact
          (omega (arith, sum, young)) in
      let cap_same = pop_step-capacity w.ring w.consumer in
      (omega (arith, up, cap_same, room), h, omega arith)
  move-Pushes w close x l kept ok_move young room h = absurd (cc ok_move)

  push_steps-cons :
      (m : Move T) (ms : List (Move T)) → push_steps (m ∷ ms) ≡ push_steps (m ∷ []) + push_steps ms
  push_steps-cons (call_push x) ms = omega arith
  push_steps-cons next_push ms = omega arith
  push_steps-cons push_again ms = omega arith
  push_steps-cons call_pop ms = omega arith
  push_steps-cons next_pop ms = omega arith
  push_steps-cons close ms = omega arith

  run-Pushes :
      (w : World T) (ms : List (Move T)) (x : T) (l : List T)
      → Kept w
      → AllOf (λ m. is_step m ≡ true) ms
      → length (run w ms).written < word
      → length l < w.ring.head + w.ring.cap
      → Pushes x l w.producer w.written
      → steps_left w.producer ≤ push_steps ms
      → ((run w ms).producer ≡ pushed (ok tt)) × ((run w ms).written ≡ l ++ (x ∷ []))
  unfolding run
  run-Pushes w [] x l kept all young room h few = Pushes-done x l w.producer w.written few h
  run-Pushes w (m ∷ ms) x l kept (one, all) young room h few =
      let grows = length-move w m in
      let more = length-run (move w m) ms in
      let small : length w.written < word = omega (arith, grows, more, young) in
      let (room', h', fewer) = move-Pushes w m x l kept one small room h in
      run-Pushes (move w m) ms x l (move-Kept w m small kept) all young room' h'
        (omega (arith, fewer, few, push_steps-cons m ms))

  -- A try_push that begins when fewer values than the capacity are written and not yet released succeeds
  -- with at most four steps of its own, however many moves of the consumer come between them: it returns
  -- Ok, and its value is the next one written, on a ring into which fewer than 2^64 values are written.
  pub push-Returns :
      (capacity : ℕ) (r : Ring T) (before after : List (Move T)) (x : T)
      → channel capacity ≡ some r
      → (run (start r) before).producer ≡ load_tail x
      → length (run (start r) before).written < (run (start r) before).ring.head + capacity
      → AllOf (λ m. is_step m ≡ true) after
      → 4 ≤ push_steps after
      → length (run (run (start r) before) after).written < word
      → ((run (run (start r) before) after).producer ≡ pushed (ok tt))
        × ((run (run (start r) before) after).written ≡ (run (start r) before).written ++ (x ∷ []))
  push-Returns capacity r before after x new begun room steps enough young =
      let w = run (start r) before in
      let (kept, size) = start-Kept capacity r new in
      let more = length-run w after in
      let same = run-capacity (start r) before in
      run-Pushes w after x w.written (run-Kept (start r) before (omega (arith, more, young)) kept)
        steps young (omega (arith, room, same, size)) (rw begun (refl, refl)) (rw begun enough)
