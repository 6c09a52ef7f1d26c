-- ===== src/Mpsc.antt =====
-- core/src/mpsc.rs: the mailbox of an actor, a bounded lock-free queue after Vyukov. Each atomic
-- access of `enqueue` and `dequeue` is one step here, from one program point to the next, so the
-- same functions serve an uninterrupted call and any interleaving of threads. Accesses take effect
-- in one order for all threads. A slot's value is `none` before its first write and after it has
-- been moved out.
mod Calls
pub mod Ends
pub mod Invariant
mod Channel
mod Single
pub mod Refine
pub mod Lossy
pub mod Teardown
pub mod Threads
mod Tests
use aetherflow.Base.{
  ℕ, zero, suc, Bool, false, Option, none, some, List, ◌&&◌, not, ◌==◌, if◌then◌else◌, get_elem?,
  set,
}
use aetherflow.Base.Words.{wrapping_add, wrapping_sub, is_negative, bit_and}
use aetherflow.Errors.{TrySendError, full, closed}

-- `Slot<T>`
pub record Slot {ℓ} (T : Type ℓ) : Type ℓ where
  pub seq : ℕ
  pub val : Option T

-- `Queue<T>`
pub record Queue {ℓ} (T : Type ℓ) : Type ℓ where
  pub buffer : List (Slot T)
  pub mask : ℕ
  pub enqueue_pos : ℕ
  pub dequeue_pos : ℕ
  pub producers : ℕ
  pub consumer_alive : Bool

-- Where a thread stands in `enqueue`, with its locals: before the first load of `consumer_alive`,
-- before a load of `enqueue_pos`, before the load of a slot's `seq`, before the exchange, before
-- the write, before the store of `seq`, before the second load of `consumer_alive`, and after it.
pub data Sending {ℓ} (T : Type ℓ) : Type ℓ where
  check : T → Sending T
  load : T → Sending T
  probe : ℕ → T → Sending T
  reserve : ℕ → T → Sending T
  write : ℕ → T → Sending T
  publish : ℕ → Sending T
  recheck : T → Sending T
  sent : Sending T
  refused : TrySendError T → Sending T
  out_of_range : Sending T

-- The same for `dequeue`. `uninit` stands for a read of a value that is not there.
pub data Receiving {ℓ} (T : Type ℓ) : Type ℓ where
  load : Receiving T
  probe : ℕ → Receiving T
  claim : ℕ → Receiving T
  read : ℕ → Receiving T
  release : ℕ → T → Receiving T
  received : Option T → Receiving T
  uninit : Receiving T
  out_of_range : Receiving T

module _ {ℓ} {T : Type ℓ} where
  -- `&self.buffer[pos & mask]`
  abbrev pub slot_index : Queue T → ℕ → ℕ
  slot_index q pos = bit_and pos q.mask

  abbrev pub slot_at : Queue T → ℕ → Option (Slot T)
  slot_at q pos = get_elem? q.buffer (slot_index q pos)

  abbrev pub put_slot : Queue T → ℕ → Slot T → Queue T
  put_slot q pos s = record q { buffer = set q.buffer (slot_index q pos) s }

  -- What `enqueue` does next once it has read the sequence number of its slot.
  pub after_seq : ℕ → T → ℕ → Sending T
  after_seq pos x seq =
      let dif = wrapping_sub seq pos in
      if dif == 0 then reserve pos x else if is_negative dif then recheck x else Sending.load x

  -- One atomic access of `enqueue`. `weak` says that `compare_exchange_weak` fails spuriously.
  pub enqueue_step : Bool → Queue T → Sending T → Queue T × Sending T
  unfolding after_seq
  enqueue_step weak q (check x) =
      (q, if q.consumer_alive then Sending.load x else refused (closed x))
  enqueue_step weak q (Sending.load x) = (q, Sending.probe q.enqueue_pos x)
  enqueue_step weak q (Sending.probe pos x) =
      (q, elim (slot_at q pos) [ none ↦ Sending.out_of_range | some s ↦ after_seq pos x s.seq ])
  enqueue_step weak q (reserve pos x) =
      if not weak && q.enqueue_pos == pos
      then (record q { enqueue_pos = wrapping_add pos 1 }, write pos x)
      else (q, Sending.probe q.enqueue_pos x)
  enqueue_step weak q (write pos x) = (
    elim (slot_at q pos) [ none ↦ q | some s ↦ put_slot q pos (record s { val = some x }) ],
    publish pos,
  )
  enqueue_step weak q (publish pos) = (
    elim (slot_at q pos) [
      | none ↦ q
      | some s ↦ put_slot q pos (record s { seq = wrapping_add pos 1 })
    ],
    sent,
  )
  enqueue_step weak q (recheck x) = (q, refused (if q.consumer_alive then full x else closed x))
  enqueue_step weak q sent = (q, sent)
  enqueue_step weak q (refused e) = (q, refused e)
  enqueue_step weak q Sending.out_of_range = (q, Sending.out_of_range)

  -- What `dequeue` does next once it has read the sequence number of its slot.
  pub after_head : ℕ → ℕ → Receiving T
  after_head pos seq =
      let dif = wrapping_sub seq (wrapping_add pos 1) in
      if dif == 0 then claim pos else if is_negative dif then received none else Receiving.load

  -- One atomic access of `dequeue`.
  pub dequeue_step : Bool → Queue T → Receiving T → Queue T × Receiving T
  unfolding after_head
  dequeue_step weak q Receiving.load = (q, Receiving.probe q.dequeue_pos)
  dequeue_step weak q (Receiving.probe pos) =
      (q, elim (slot_at q pos) [ none ↦ Receiving.out_of_range | some s ↦ after_head pos s.seq ])
  dequeue_step weak q (claim pos) =
      if not weak && q.dequeue_pos == pos
      then (record q { dequeue_pos = wrapping_add pos 1 }, read pos)
      else (q, Receiving.probe q.dequeue_pos)
  dequeue_step weak q (read pos) = elim (slot_at q pos) [
    | none ↦ (q, Receiving.out_of_range)
    | some s ↦ elim s.val [
      | none ↦ (q, uninit)
      | some x ↦ (put_slot q pos (record s { val = none }), release pos x)
    ]
  ]
  dequeue_step weak q (release pos x) = (
    elim (slot_at q pos) [
      | none ↦ q
      | some s ↦ put_slot q pos (record s { seq = wrapping_add (wrapping_add pos q.mask) 1 })
    ],
    received (some x),
  )
  dequeue_step weak q (received r) = (q, received r)
  dequeue_step weak q uninit = (q, uninit)
  dequeue_step weak q Receiving.out_of_range = (q, Receiving.out_of_range)

  -- A call that no other thread interrupts, for so many steps.
  pub run_enqueue : ℕ → Queue T → Sending T → Queue T × Sending T
  run_enqueue zero q p = (q, p)
  run_enqueue (suc n) q p = let (q', p') = enqueue_step false q p in run_enqueue n q' p'

  pub run_dequeue : ℕ → Queue T → Receiving T → Queue T × Receiving T
  run_dequeue zero q p = (q, p)
  run_dequeue (suc n) q p = let (q', p') = dequeue_step false q p in run_dequeue n q' p'

  -- `Queue::enqueue`, `Sender::try_send`: six steps lead from the entry to the return.
  pub try_send : Queue T → T → Queue T × Sending T
  unfolding run_enqueue enqueue_step
  try_send q x = run_enqueue 6 q (check x)

  -- `Queue::dequeue`, `Receiver::try_recv`: five steps.
  pub try_recv : Queue T → Queue T × Receiving T
  unfolding run_dequeue dequeue_step
  try_recv q = run_dequeue 5 q Receiving.load
