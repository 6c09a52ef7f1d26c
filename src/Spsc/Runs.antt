-- ===== src/Spsc/Runs.antt =====
-- core/src/spsc.rs: every interleaving of the two threads keeps the invariant.
use aetherflow.Base.{
  ℕ, ◌≤◌, ◌<◌, ◌≡◌, inl, inr, true, List, [], ◌∷◌, arith, Bool-cases, length, length-append,
}
use aetherflow.Base.Words.{word}
use aetherflow.Errors.{full, closed, ok, err}
use aetherflow.Spsc.{
  Pushing, load_tail, load_head, write_slot, store_tail, pushed, Popping, own_head, see_tail,
  read_slot, store_head, popped, fault, World, Move, call_push, next_push, push_again, call_pop,
  next_pop, close, push_idle, pop_idle, push_blocking, move, run, log_written,
}
use aetherflow.Spsc.Invariant.{ProducerFact, ConsumerFact, Inv}
use aetherflow.Spsc.Moves.{Kept, with_producer, with_consumer, push-Kept, pop-Kept}

module _ {T : Type 0} where
  pub idle-tail :
      (p : Pushing T) (n tail head cap : ℕ)
      → push_idle p ≡ true
      → ProducerFact p n tail head cap
      → n ≡ tail
  idle-tail (load_tail x) n tail head cap i fact = absurd (cc i)
  idle-tail (load_head x t) n tail head cap i fact = absurd (cc i)
  idle-tail (write_slot x t) n tail head cap i fact = absurd (cc i)
  idle-tail (store_tail t) n tail head cap i fact = absurd (cc i)
  idle-tail (pushed r) n tail head cap i fact = fact

  pub idle-head :
      (c : Popping T) (m head tail : ℕ) → pop_idle c ≡ true → ConsumerFact c m head tail → m ≡ head
  idle-head own_head m head tail i fact = absurd (cc i)
  idle-head (see_tail h) m head tail i fact = absurd (cc i)
  idle-head (read_slot h) m head tail i fact = absurd (cc i)
  idle-head (store_head h x) m head tail i fact = absurd (cc i)
  idle-head (popped r) m head tail i fact = fact
  idle-head fault m head tail i fact = absurd (cc i)

  again-fact :
      (p : Pushing T) (n tail head cap : ℕ)
      → ProducerFact p n tail head cap
      → ProducerFact (push_blocking p) n tail head cap
  again-fact (load_tail x) n tail head cap fact = fact
  again-fact (load_head x t) n tail head cap fact = fact
  again-fact (write_slot x t) n tail head cap fact = fact
  again-fact (store_tail t) n tail head cap fact = fact
  again-fact (pushed (ok r)) n tail head cap fact = fact
  again-fact (pushed (err (full x))) n tail head cap fact = fact
  again-fact (pushed (err (closed x))) n tail head cap fact = fact

  close-Kept :
      (w : World T) (rest : List T)
      → Inv w rest
      → Inv (record w { ring = record w.ring { closed = true } }) rest
  close-Kept w rest inv = record {
    positive = inv.positive;
    size = inv.size;
    fifo = inv.fifo;
    held = inv.held;
    room = inv.room;
    order = inv.order;
    producer_fact = inv.producer_fact;
    consumer_fact = inv.consumer_fact;
  }

  pub move-Kept : (w : World T) (m : Move T) → length w.written < word → Kept w → Kept (move w m)
  unfolding move
  move-Kept w (call_push x) young (rest, inv) = elim (Bool-cases (push_idle w.producer)) [
    | inl y ↦ rw y (
      rest,
      with_producer w rest inv (load_tail x) (idle-tail w.producer _ _ _ _ y inv.producer_fact),
    )
    | inr n ↦ rw n (rest, inv)
  ]
  move-Kept w next_push young (rest, inv) = push-Kept w rest inv w.producer young inv.producer_fact
  move-Kept w push_again young (rest, inv) = (
    rest,
    with_producer w rest inv (push_blocking w.producer)
        (again-fact w.producer _ _ _ _ inv.producer_fact),
  )
  move-Kept w call_pop young (rest, inv) = elim (Bool-cases (pop_idle w.consumer)) [
    | inl y ↦
        rw y
          (rest, with_consumer w rest inv own_head (idle-head w.consumer _ _ _ y inv.consumer_fact))
    | inr n ↦ rw n (rest, inv)
  ]
  move-Kept w next_pop young (rest, inv) = pop-Kept w rest inv w.consumer young inv.consumer_fact
  move-Kept w close young (rest, inv) = elim (Bool-cases (push_idle w.producer)) [
    | inl y ↦ rw y (rest, close-Kept w rest inv)
    | inr n ↦ rw n (rest, inv)
  ]

  length-log_written : (p : Pushing T) (l : List T) → length l ≤ length (log_written p l)
  length-log_written (load_tail x) l = omega arith
  length-log_written (load_head x t) l = omega arith
  length-log_written (write_slot x t) l = let more = length-append l (x ∷ []) in omega (arith, more)
  length-log_written (store_tail t) l = omega arith
  length-log_written (pushed r) l = omega arith

  pub length-move : (w : World T) (m : Move T) → length w.written ≤ length (move w m).written
  unfolding move
  length-move w (call_push x) = elim (Bool-cases (push_idle w.producer)) [
    | inl y ↦ rw y (omega arith)
    | inr n ↦ rw n (omega arith)
  ]
  length-move w next_push = length-log_written w.producer w.written
  length-move w push_again = omega arith
  length-move w call_pop = elim (Bool-cases (pop_idle w.consumer)) [
    | inl y ↦ rw y (omega arith)
    | inr n ↦ rw n (omega arith)
  ]
  length-move w next_pop = omega arith
  length-move w close = elim (Bool-cases (push_idle w.producer)) [
    | inl y ↦ rw y (omega arith)
    | inr n ↦ rw n (omega arith)
  ]

  pub length-run : (w : World T) (ms : List (Move T)) → length w.written ≤ length (run w ms).written
  unfolding run
  length-run w [] = omega arith
  length-run w (m ∷ ms) =
      let one = length-move w m in let more = length-run (move w m) ms in omega (arith, one, more)

  pub run-Kept :
      (w : World T) (ms : List (Move T))
      → length (run w ms).written < word
      → Kept w
      → Kept (run w ms)
  unfolding run
  run-Kept w [] young kept = kept
  run-Kept w (m ∷ ms) young kept =
      let one = length-move w m in
      let more = length-run (move w m) ms in
      run-Kept (move w m) ms young (move-Kept w m (omega (arith, one, more, young)) kept)
