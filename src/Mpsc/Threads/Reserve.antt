-- ===== src/Mpsc/Threads/Reserve.antt =====
-- A successful exchange hands a position out, and keeps the invariant.
use aetherflow.Base.{
  ℕ, suc, ◌+◌, ◌<◌, ◌≡◌, ◌≢◌, refl, inl, inr, Bool, not, ◌&&◌, some, List, [], ◌∷◌, ◌++◌, arith,
  length, Bool-cases, ◌==◌, length-append, get_elem?-append_end, lt_of_get_elem?,
}
use aetherflow.Base.Words.{wrapping_add}
use aetherflow.Mpsc.{Slot, Sending, write, reserve, enqueue_step}
use aetherflow.Mpsc.Threads.Facts.{
  logged, IsFull-append, SenderFact-append, ReceiverFact-append, owned_facts,
}
use aetherflow.Mpsc.Threads.Senders.{quiet}
use aetherflow.Mpsc.Threads.{World, update, send_from}
use aetherflow.Mpsc.Threads.Invariant.{Inv, IsYoung, IsOpen, claimed, owned}

module _ {T : Type 0} {cap : ℕ} {w : World T} (inv : Inv cap w) (i pos : ℕ) (x : T)
    (here : w.sender i ≡ reserve pos x) where
  open inv use {power, two, mask, size, tail, head, sent_first, room, order, slots, senders, unique}

  abbrev d : ℕ
  d = length w.delivered

  abbrev c : ℕ
  c = claimed w.receiver (length w.delivered)

  abbrev b : List (Slot T)
  b = w.queue.buffer

  abbrev log : List T
  log = w.reserved ++ (x ∷ [])

  length-log : length log ≡ suc (length w.reserved)
  length-log = omega (arith, length-append w.reserved (x ∷ []))

  in_lap : pos < d + cap
  in_lap = rw here at (senders i)

  -- The next position is not in the log yet, so its slot is open.
  IsOpen-next : pos ≡ length w.reserved → IsOpen b cap pos
  IsOpen-next e = elim (slots pos (omega arith) in_lap) [
    | inl is_open ↦ is_open
    | inr (y, l, _) ↦ absurd (omega (arith, lt_of_get_elem? w.reserved pos y l))
  ]

  -- No sender owns it.
  unowned : pos ≡ length w.reserved → (j : ℕ) → owned (w.sender j) ≢ some pos
  unowned e j o = omega (arith, (owned_facts b cap d c w.reserved (w.sender j) pos (senders j) o).2)

  won :
      pos ≡ length w.reserved
      → IsYoung cap w
      → Inv cap (record w {
        queue = record w.queue { enqueue_pos = wrapping_add pos 1 };
        sender = update w.sender i (write pos x);
        reserved = log;
      })
  won e young = record {
    power = power;
    two = two;
    mask = mask;
    size = size;
    tail = omega (arith, length-log);
    head = head;
    sent_first = omega (arith, length-log);
    room = omega (arith, length-log, in_lap);
    order = λ j y l. logged w.reserved j x y (order j y l);
    slots = λ p lo hi. elim (slots p lo hi) [
      | inl is_open ↦ inl is_open
      | inr full ↦ inr (IsFull-append b cap w.reserved p x full)
    ];
    senders = λ j. elim (Bool-cases (i == j)) [
      | inl same ↦
          rw same (omega arith, in_lap, rw e (get_elem?-append_end w.reserved x), IsOpen-next e)
      | inr other ↦ rw other (SenderFact-append b cap d c w.reserved x (w.sender j) (senders j))
    ];
    unique = λ j k p o o'. ground (arith, unique j k p, unowned e j, unowned e k);
    receiver = ReceiverFact-append b cap d w.reserved x w.receiver inv.receiver;
  }

  pub reserve_Inv : (weak : Bool) → IsYoung cap w → Inv cap (send_from i weak (reserve pos x) w)
  unfolding send_from enqueue_step
  reserve_Inv weak young = elim (Bool-cases (not weak && w.queue.enqueue_pos == pos)) [
    | inl wins ↦ rw wins (won (ground arith) young)
    | inr loses ↦ rw loses (quiet inv i (Sending.probe w.queue.enqueue_pos x) (omega arith) refl)
  ]
