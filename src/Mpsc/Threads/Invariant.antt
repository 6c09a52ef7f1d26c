-- ===== src/Mpsc/Threads/Invariant.antt =====
-- What holds of the queue, of every thread's locals and of the two logs, however the threads
-- interleave. Positions count up without bound and are below 2^63, so no word wraps.
use native.Mathlib.Nat.{add-sub_of_le}
use aetherflow.Base.{
  ℕ, suc, ◌+◌, ◌-◌, ◌%◌, ◌^◌, ◌≤◌, ◌<◌, ◌≡◌, ◌≢◌, ◌⊎◌, sym, Option, none, some, List, arith, length,
  get_elem?, dec_lt,
}
use aetherflow.Base.Words.{IsPower}
use aetherflow.Mpsc.{
  Slot, Sending, Receiving, write, publish, reserve, claim, read, release, uninit,
}
use aetherflow.Mpsc.Invariant.{lap_ne}
use aetherflow.Mpsc.Threads.{World}

-- Two positions of one lap, which starts at `d`, have different slots.
pub apart :
    (cap d p p' : ℕ) → d ≤ p → p < d + cap → d ≤ p' → p' < d + cap → p ≢ p' → p % cap ≢ p' % cap
apart cap d p p' lo hi lo' hi' ne same = elim (dec_lt p p') [
  | yes lt ↦
      lap_ne {cap = cap} {i = p - d} {j = p' - d} d (omega arith) (omega arith)
        (rw (add-sub_of_le lo, add-sub_of_le lo') same)
  | no ge ↦
      lap_ne {cap = cap} {i = p' - d} {j = p - d} d (omega arith) (omega arith)
        (rw (add-sub_of_le lo, add-sub_of_le lo') (sym same))
]

module _ {T : Type 0} where
  -- The slot of position `p`.
  abbrev pub place : List (Slot T) → ℕ → ℕ → Option (Slot T)
  place b cap p = get_elem? b (p % cap)

  -- The slot is still to be published at this lap.
  abbrev pub IsOpen : List (Slot T) → ℕ → ℕ → Type 0
  IsOpen b cap p = (v : Option T) × (place b cap p ≡ some (record { seq = p; val = v }))

  -- The slot holds the message that reserved this position.
  abbrev pub IsFull : List (Slot T) → ℕ → List T → ℕ → Type 0
  IsFull b cap log p =
      (x : T) × (get_elem? log p ≡ some x)
      × (place b cap p ≡ some (record { seq = suc p; val = some x }))

  -- What the locals of a sender say about the queue: `d` positions are released, `c` claimed.
  abbrev pub SenderFact : List (Slot T) → ℕ → ℕ → ℕ → List T → Sending T → Type 0
  SenderFact b cap d c log (Sending.probe pos x) = pos ≤ length log
  SenderFact b cap d c log (reserve pos x) = pos < d + cap
  SenderFact b cap d c log (write pos x) =
      (c ≤ pos) × (pos < d + cap) × (get_elem? log pos ≡ some x) × IsOpen b cap pos
  SenderFact b cap d c log (publish pos) =
      (c ≤ pos)
      × (pos < d + cap)
      × ((x : T) × (get_elem? log pos ≡ some x)
          × (place b cap pos ≡ some (record { seq = pos; val = some x })))
  SenderFact b cap d c log Sending.out_of_range = ⊥
  SenderFact b cap d c log _ = Unit

  abbrev pub ReceiverFact : List (Slot T) → ℕ → ℕ → List T → Receiving T → Type 0
  ReceiverFact b cap d log (Receiving.probe pos) = pos ≡ d
  ReceiverFact b cap d log (claim pos) = (pos ≡ d) × IsFull b cap log d
  ReceiverFact b cap d log (read pos) = (pos ≡ d) × IsFull b cap log d
  ReceiverFact b cap d log (release pos x) =
      (pos ≡ d)
      × (get_elem? log d ≡ some x)
      × ((v : Option T) × (place b cap d ≡ some (record { seq = suc d; val = v })))
  ReceiverFact b cap d log uninit = ⊥
  ReceiverFact b cap d log Receiving.out_of_range = ⊥
  ReceiverFact b cap d log _ = Unit

  -- The receiver has claimed the position that it will release next.
  abbrev pub claimed : Receiving T → ℕ → ℕ
  claimed (read pos) d = suc d
  claimed (release pos x) d = suc d
  claimed _ d = d

  -- The position at which a sender may write.
  abbrev pub owned : Sending T → Option ℕ
  owned (write pos x) = some pos
  owned (publish pos) = some pos
  owned _ = none

  pub record Inv (cap : ℕ) (w : World T) : Type 0 where
    pub power : IsPower cap
    pub two : 2 ≤ cap
    pub mask : w.queue.mask ≡ cap - 1
    pub size : length w.queue.buffer ≡ cap
    pub tail : w.queue.enqueue_pos ≡ length w.reserved
    pub head : w.queue.dequeue_pos ≡ claimed w.receiver (length w.delivered)
    pub sent_first : claimed w.receiver (length w.delivered) ≤ length w.reserved
    pub room : length w.reserved ≤ length w.delivered + cap
    pub order : (j : ℕ) (y : T) → get_elem? w.delivered j ≡ some y → get_elem? w.reserved j ≡ some y
    pub slots :
        (p : ℕ)
        → claimed w.receiver (length w.delivered) ≤ p
        → p < length w.delivered + cap
        → IsOpen w.queue.buffer cap p ⊎ IsFull w.queue.buffer cap w.reserved p
    pub senders :
        (i : ℕ)
        → SenderFact w.queue.buffer cap
            (length w.delivered)
            (claimed w.receiver (length w.delivered))
            w.reserved
            (w.sender i)
    pub unique : (i j p : ℕ) → owned (w.sender i) ≡ some p → owned (w.sender j) ≡ some p → i ≡ j
    pub receiver : ReceiverFact w.queue.buffer cap (length w.delivered) w.reserved w.receiver

  -- Fewer than 2^63 positions have been handed out, with a lap to spare.
  abbrev pub IsYoung : ℕ → World T → Type 0
  IsYoung cap w = length w.reserved + cap < 2 ^ 63
