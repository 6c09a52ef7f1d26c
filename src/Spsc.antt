-- ===== src/Spsc.antt =====
-- core/src/spsc.rs: the bounded ring of one producer and one consumer. Each atomic access of `try_push`
-- and `try_pop`, and each access of a slot, is one step; accesses take effect in one order. A slot that
-- is not initialised is `none`, and reading it, or a slot out of the buffer, is a fault. The positions
-- are words that wrap, as in a release build.
pub mod Slots
pub mod Invariant
pub mod Moves
pub mod Runs
pub mod Fifo
pub mod Progress
mod Tests
use aetherflow.Base.{
  ℕ, zero, suc, ◌+◌, ◌-◌, ◌*◌, ◌/◌, ◌%◌, ◌^◌, ◌≤◌, ◌<◌, min, max, ◌≡◌, refl, sym, ap, ◌∙◌, ◌≢◌, ◌⊎◌,
  inl, inr, Bool, true, false, ◌&&◌, ◌||◌, not, Option, none, some, List, [], ◌∷◌, ◌++◌, map, arith,
  dec_lt, ℕ_discrete, ltb, leb, ◌==◌, if◌then◌else◌, Bool-cases, Option-cases, length, get_elem?,
  set, take, drop, replicate, length-set, length-append, get_elem?-set_self, get_elem?-set_ne,
  get_elem?_of_lt, lt_of_get_elem?,
}
use aetherflow.Base.Words.{word, wrapping_add, wrapping_sub}
use aetherflow.Errors.{TrySendError, full, closed, Result, ok, err}

-- `Ring`
pub record Ring (T : Type 0) : Type 0 where
  pub slots : List (Option T)
  pub cap : ℕ
  pub head : ℕ
  pub tail : ℕ
  pub closed : Bool

-- Where the producer is in `try_push`.
pub data Pushing (T : Type 0) : Type 0 where
  load_tail : T → Pushing T
  load_head : T → (tail : ℕ) → Pushing T
  write_slot : T → (tail : ℕ) → Pushing T
  store_tail : (tail : ℕ) → Pushing T
  pushed : Result (Unit {0}) (TrySendError T) → Pushing T

-- Where the consumer is in `try_pop`.
pub data Popping (T : Type 0) : Type 0 where
  own_head : Popping T
  see_tail : (head : ℕ) → Popping T
  read_slot : (head : ℕ) → Popping T
  store_head : (head : ℕ) → T → Popping T
  popped : Option T → Popping T
  fault : Popping T

module _ {T : Type 0} where
  -- `channel`; `none` is the failed assertion.
  unfoldable pub channel : ℕ → Option (Ring T)
  channel capacity =
      if leb 1 capacity
      then some (record {
        slots = replicate capacity none;
        cap = capacity;
        head = 0;
        tail = 0;
        closed = false;
      })
      else none

  -- `if tail - head == ring.cap`
  abbrev pub after_heads : Ring T → T → (tail head : ℕ) → Pushing T
  after_heads r x tail head =
      if wrapping_sub tail head == r.cap then pushed (err (full x)) else write_slot x tail

  -- The next access of `Producer::try_push`.
  unfoldable pub push_step : Ring T → Pushing T → Ring T × Pushing T
  push_step r (load_tail x) = (r, load_head x r.tail)
  push_step r (load_head x tail) = (r, after_heads r x tail r.head)
  push_step r (write_slot x tail) =
      (record r { slots = set r.slots (tail % r.cap) (some x) }, store_tail tail)
  push_step r (store_tail tail) = (record r { tail = wrapping_add tail 1 }, pushed (ok tt))
  push_step r (pushed res) = (r, pushed res)

  -- `if head == tail`
  abbrev pub after_tail : (head tail : ℕ) → Popping T
  after_tail head tail = if head == tail then popped none else read_slot head

  -- The value moved out of a slot, if there is one.
  abbrev pub on_slot : ℕ → Option (Option T) → Popping T
  on_slot head none = fault
  on_slot head (some none) = fault
  on_slot head (some (some x)) = store_head head x

  -- The next access of `Consumer::try_pop`.
  unfoldable pub pop_step : Ring T → Popping T → Ring T × Popping T
  pop_step r own_head = (r, see_tail r.head)
  pop_step r (see_tail head) = (r, after_tail head r.tail)
  pop_step r (read_slot head) = (
    record r { slots = set r.slots (head % r.cap) none },
    on_slot head (get_elem? r.slots (head % r.cap)),
  )
  pop_step r (store_head head x) = (record r { head = wrapping_add head 1 }, popped (some x))
  pop_step r (popped res) = (r, popped res)
  pop_step r fault = (r, fault)

  -- `Producer::drop`
  abbrev pub drop_producer : Ring T → Ring T
  drop_producer r = record r { closed = true }

  -- `Consumer::is_closed`
  abbrev pub is_closed : Ring T → Bool
  is_closed r = r.closed

  -- `Ring::drop`: the values of so many slots from a position on; `none` is a slot without one.
  abbrev pub cons_slot : Option (Option T) → Option (List T) → Option (List T)
  cons_slot none l = none
  cons_slot (some none) l = none
  cons_slot (some (some x)) none = none
  cons_slot (some (some x)) (some l) = some (x ∷ l)

  pub drop_slots : Ring T → ℕ → ℕ → Option (List T)
  drop_slots r zero pos = some []
  drop_slots r (suc n) pos = cons_slot (get_elem? r.slots (pos % r.cap)) (drop_slots r n (suc pos))

  unfoldable pub drop_ring : Ring T → Option (List T)
  unfolding drop_slots
  drop_ring r = drop_slots r (r.tail - r.head) r.head

  -- A call that has returned, so that the next one may begin.
  abbrev pub push_idle : Pushing T → Bool
  push_idle (pushed res) = true
  push_idle p = false

  abbrev pub pop_idle : Popping T → Bool
  pop_idle (popped res) = true
  pop_idle p = false

-- The ring with its two threads, and the values written and read so far, oldest first.
pub record World (T : Type 0) : Type 0 where
  pub ring : Ring T
  pub producer : Pushing T
  pub consumer : Popping T
  pub written : List T
  pub taken : List T

-- What happens next: a call begins, if the last one has returned, or a thread takes its next step;
-- `push_again` is the next attempt of `push_blocking`, with the value that came back.
pub data Move (T : Type 0) : Type 0 where
  call_push : T → Move T
  next_push : Move T
  push_again : Move T
  call_pop : Move T
  next_pop : Move T
  close : Move T

module _ {T : Type 0} where
  abbrev pub log_written : Pushing T → List T → List T
  log_written (write_slot x tail) l = l ++ (x ∷ [])
  log_written p l = l

  abbrev pub log_taken : Popping T → List T → List T
  log_taken (store_head head x) l = l ++ (x ∷ [])
  log_taken p l = l

  -- A value is taken with the read of its slot.
  abbrev pub taken_by : Popping T → Popping T → List T → List T
  taken_by (read_slot head) q l = log_taken q l
  taken_by p q l = l

  -- `Producer::push_blocking` after an attempt.
  abbrev pub push_blocking : Pushing T → Pushing T
  push_blocking (pushed (err (full x))) = load_tail x
  push_blocking (pushed (err (closed x))) = load_tail x
  push_blocking p = p

  unfoldable pub move : World T → Move T → World T
  move w (call_push x) = if push_idle w.producer then record w { producer = load_tail x } else w
  move w next_push =
      let (r, p) = push_step w.ring w.producer in
      record w { ring = r; producer = p; written = log_written w.producer w.written }
  move w push_again = record w { producer = push_blocking w.producer }
  move w call_pop = if pop_idle w.consumer then record w { consumer = own_head } else w
  move w next_pop =
      let (r, c) = pop_step w.ring w.consumer in
      record w { ring = r; consumer = c; taken = taken_by w.consumer c w.taken }
  move w close = if push_idle w.producer then record w { ring = drop_producer w.ring } else w

  pub run : World T → List (Move T) → World T
  run w [] = w
  run w (m ∷ ms) = run (move w m) ms

  abbrev pub start : Ring T → World T
  start r = record {
    ring = r;
    producer = pushed (ok tt);
    consumer = popped none;
    written = [];
    taken = [];
  }
