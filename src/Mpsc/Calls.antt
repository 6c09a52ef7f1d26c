-- ===== src/Mpsc/Calls.antt =====
-- An uninterrupted call of `enqueue` or `dequeue`, by what it finds in its slot.
use aetherflow.Base.{◌<◌, ◌≡◌, true, false, none, some, arith, length, set, get_elem?-set_self}
use aetherflow.Base.Words.{word, wrapping_add, wrapping_sub, is_negative}
use aetherflow.Errors.{full, closed}
use aetherflow.Mpsc.{Slot, Queue, sent, refused, received, slot_at, slot_index, try_send, try_recv}

module _ {T : Type 0} (q : Queue T) where
  -- The queue after a send: the slot is written, then numbered one further.
  abbrev pub after_send : T → Queue T
  after_send x =
      let i = slot_index q q.enqueue_pos in
      let n = wrapping_add q.enqueue_pos 1 in
      record q {
        buffer =
            set (set q.buffer i (record { seq = q.enqueue_pos; val = some x })) i
              (record { seq = n; val = some x });
        enqueue_pos = n;
      }

  pub try_send-free :
      (x : T) (s : Slot T)
      → q.consumer_alive ≡ true
      → q.enqueue_pos < word
      → slot_at q q.enqueue_pos ≡ some s
      → s.seq ≡ q.enqueue_pos
      → slot_index q q.enqueue_pos < length q.buffer
      → try_send q x ≡ (after_send x, sent)
  unfolding try_send
  try_send-free x s alive small here num inside = ground (
    arith,
    get_elem?-set_self q.buffer (slot_index q q.enqueue_pos)
        (record { seq = q.enqueue_pos; val = some x }) inside,
  )

  -- A slot one lap behind: full.
  pub try_send-full :
      (x : T) (s : Slot T)
      → q.consumer_alive ≡ true
      → slot_at q q.enqueue_pos ≡ some s
      → is_negative (wrapping_sub s.seq q.enqueue_pos) ≡ true
      → try_send q x ≡ (q, refused (full x))
  unfolding try_send
  try_send-full x s alive here behind = ground arith

  -- No consumer: the message comes back and nothing else happens.
  pub try_send-closed : (x : T) → q.consumer_alive ≡ false → try_send q x ≡ (q, refused (closed x))
  unfolding try_send
  try_send-closed x gone = ground arith

  -- The queue after a receive: the slot is emptied, then numbered for the next lap.
  abbrev pub after_recv : Queue T
  after_recv =
      let i = slot_index q q.dequeue_pos in
      let n = wrapping_add q.dequeue_pos 1 in
      record q {
        buffer =
            set (set q.buffer i (record { seq = n; val = none })) i
              (record { seq = wrapping_add (wrapping_add q.dequeue_pos q.mask) 1; val = none });
        dequeue_pos = n;
      }

  pub try_recv-some :
      (x : T)
      → slot_at q q.dequeue_pos ≡ some (record { seq = wrapping_add q.dequeue_pos 1; val = some x })
      → slot_index q q.dequeue_pos < length q.buffer
      → try_recv q ≡ (after_recv, received (some x))
  unfolding try_recv
  try_recv-some x here inside = ground (
    arith,
    get_elem?-set_self q.buffer (slot_index q q.dequeue_pos)
        (record { seq = wrapping_add q.dequeue_pos 1; val = none }) inside,
  )

  -- A slot that still waits for its producer: empty.
  pub try_recv-none :
      (s : Slot T)
      → slot_at q q.dequeue_pos ≡ some s
      → is_negative (wrapping_sub s.seq (wrapping_add q.dequeue_pos 1)) ≡ true
      → try_recv q ≡ (q, received none)
  unfolding try_recv
  try_recv-none s here behind = ground arith
