-- ===== src/Timer.antt =====
-- core/src/timer.rs: delayed and periodic messages. The heap is `std::collections::BinaryHeap`, which
-- pops a greatest entry; as it holds no two entries with one sequence number, it is kept here as the
-- list in the order of its pops. An instant is its nanoseconds. What a timer does when it fires is a
-- function of its deliveries so far and of what `try_send` returned, see `Fire`.
pub mod Order
pub mod Moves
pub mod Handles
pub mod Cancel
pub mod OneShot
pub mod Sorted
pub mod Due
pub mod Wake
mod Tests
use aetherflow.Base.{
  ℕ, zero, suc, ◌+◌, ◌-◌, ◌*◌, ◌/◌, ◌%◌, ◌^◌, ◌≤◌, ◌<◌, min, max, ◌≡◌, refl, sym, ap, ◌∙◌, ◌≢◌, ◌⊎◌,
  inl, inr, Bool, true, false, ◌&&◌, ◌||◌, not, Option, none, some, List, [], ◌∷◌, ◌++◌, map, arith,
  dec_lt, ℕ_discrete, ltb, leb, ◌==◌, if◌then◌else◌, Bool-cases, Option-cases, length, get_elem?,
  set, take, drop, replicate, length-set, length-append, get_elem?-set_self, get_elem?-set_ne,
  get_elem?_of_lt, lt_of_get_elem?,
}
use aetherflow.Base.Words.{wrapping_add}

-- What an entry does when it fires: once, or again after an interval unless the actor is gone. The
-- closure that makes the messages is the function of the number of its calls so far.
pub data Fire (M : Type 0) : Type 0 where
  once : Option M → Fire M
  every : (interval : ℕ) → (calls : ℕ) → (ℕ → M) → Fire M

-- `Entry`; the flag shared with the handle is kept by the timer's number, see `TimerState`.
pub record Entry (M : Type 0) : Type 0 where
  pub deadline : ℕ
  pub seq : ℕ
  pub handle : ℕ
  pub fire : Fire M

-- What `try_send` on the target's mailbox returned.
pub data Delivery : Type 0 where
  delivered : Delivery
  mailbox_full : Delivery
  actor_gone : Delivery

-- `Shared`, with the cancellation flags of the handles given out and the messages sent, newest last.
pub record TimerState (M : Type 0) : Type 0 where
  pub heap : List (Entry M)
  pub seq : ℕ
  pub cancelled : List Bool
  pub sent : List M

-- The result of a comparison.
pub data Ordering : Type 0 where
  less : Ordering
  equal : Ordering
  greater : Ordering

abbrev pub compare_numbers : ℕ → ℕ → Ordering
compare_numbers a b = if ltb a b then less else if a == b then equal else greater

-- `Ordering::then_with`
abbrev pub then_with : Ordering → Ordering → Ordering
then_with less o = less
then_with equal o = o
then_with greater o = greater

abbrev pub next_after : Delivery → ℕ → Option ℕ
next_after delivered deadline = some deadline
next_after mailbox_full deadline = some deadline
next_after actor_gone deadline = none

module _ {M : Type 0} where
  -- `Entry::cmp`: the earlier deadline, then the smaller number, is the greater entry.
  unfoldable pub cmp : Entry M → Entry M → Ordering
  cmp a b = then_with (compare_numbers b.deadline a.deadline) (compare_numbers b.seq a.seq)

  -- `Entry::eq`
  unfoldable pub eq : Entry M → Entry M → Bool
  eq a b = (a.deadline == b.deadline) && (a.seq == b.seq)

  -- `heap.push`: before the first entry that is not greater.
  unfoldable pub push : Entry M → List (Entry M) → List (Entry M)
  unfolding cmp
  push e [] = e ∷ []
  push e (x ∷ xs) =
      let rest = push e xs in
      elim (cmp e x) [ less ↦ x ∷ rest | equal ↦ e ∷ x ∷ xs | greater ↦ e ∷ x ∷ xs ]

  -- `schedule`
  unfoldable pub schedule : TimerState M → ℕ → ℕ → Fire M → TimerState M
  unfolding push
  schedule s deadline handle fire = record s {
    seq = wrapping_add s.seq 1;
    heap = push (record { deadline = deadline; seq = s.seq; handle = handle; fire = fire }) s.heap;
  }

  -- `ActorRef::send_after` at an instant, with the number of the new handle.
  unfoldable pub send_after : TimerState M → (now delay : ℕ) → M → TimerState M × ℕ
  unfolding schedule
  send_after s now delay msg =
      let handle = length s.cancelled in
      let s' = record s { cancelled = s.cancelled ++ (false ∷ []) } in
      (schedule s' (now + delay) handle (once (some msg)), handle)

  -- `ActorRef::send_every`; `none` is the failed assertion.
  unfoldable pub send_every :
      TimerState M → (now interval : ℕ) → (ℕ → M) → Option (TimerState M × ℕ)
  unfolding schedule
  send_every s now interval make =
      let handle = length s.cancelled in
      let s' = record s { cancelled = s.cancelled ++ (false ∷ []) } in
      if ltb 0 interval
      then some (schedule s' (now + interval) handle (every interval 0 make), handle)
      else none

  -- `TimerHandle::cancel`
  unfoldable pub cancel : TimerState M → ℕ → TimerState M
  cancel s handle = record s { cancelled = set s.cancelled handle true }

  abbrev pub is_cancelled : TimerState M → ℕ → Bool
  is_cancelled s handle = elim (get_elem? s.cancelled handle) [ none ↦ false | some b ↦ b ]

  abbrev pub record_sent : M → Delivery → List M → List M
  record_sent m delivered sent = sent ++ (m ∷ [])
  record_sent m mailbox_full sent = sent
  record_sent m actor_gone sent = sent

  -- `(entry.fire)()`: the next deadline, the closure's state, and what was sent.
  unfoldable pub run_fire : Fire M → (now : ℕ) → Delivery → List M → Option ℕ × Fire M × List M
  run_fire (once none) now d sent = (none, once none, sent)
  run_fire (once (some m)) now d sent = (none, once none, record_sent m d sent)
  run_fire (every interval calls make) now d sent = (
    next_after d (now + interval),
    every interval (suc calls) make,
    record_sent (make calls) d sent,
  )

  -- After the firing: an entry with a next deadline goes back, unless it was cancelled meanwhile.
  abbrev pub reschedule : TimerState M → Entry M → Option ℕ → Fire M → TimerState M
  reschedule s e none fire = s
  reschedule s e (some deadline) fire =
      if is_cancelled s e.handle
      then s
      else record s { heap = push (record e { deadline = deadline; fire = fire }) s.heap }

  -- One round of `while heap.peek()...`: none if no entry is due. The arguments after the clock are
  -- what the delivery meets, the clock when the closure reads it, and what other threads do to the
  -- state while the lock is released.
  unfoldable pub fire_due :
      TimerState M
      → (now : ℕ) → Delivery
      → (later : ℕ) → (TimerState M → TimerState M)
      → Option (TimerState M)
  unfolding run_fire push
  fire_due s now d later others = elim s.heap [
    | [] ↦ none
    | e ∷ rest ↦
        if leb e.deadline now
        then (let popped = record s { heap = rest } in
            if is_cancelled s e.handle
            then some popped
            else (let (next, fire, sent) = run_fire e.fire later d s.sent in
                some (reschedule (others (record popped { sent = sent })) e next fire)))
        else none
  ]

  -- How long the thread then sleeps: `wait_timeout`.
  abbrev pub sleep_for : TimerState M → ℕ → ℕ
  sleep_for s now = elim s.heap [ [] ↦ 3600000000000 | e ∷ rest ↦ e.deadline - now ]
