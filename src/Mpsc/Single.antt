-- ===== src/Mpsc/Single.antt =====
-- One call on a quiescent mailbox, against what it holds.
use native.Mathlib.Nat.{add-zero, mod-add-mod, add-mod_right, mod-lt}
use aetherflow.Base.{
  ℕ, ◌+◌, ◌%◌, ◌<◌, ◌≡◌, refl, ap, sym, ◌∙◌, true, false, none, some, List, [], ◌∷◌, arith, length,
  get_elem?, get_elem?_of_lt,
}
use aetherflow.Base.Words.{word, IsPower-range, wrapping_sub, wrapping_add, is_negative}
use aetherflow.Errors.{full}
use aetherflow.Mpsc.{Queue, sent, refused, received, slot_at, try_send, try_recv}
use aetherflow.Mpsc.Ends.{is_empty}
use aetherflow.Mpsc.Calls.{
  try_send-free, try_send-full, try_recv-some, try_recv-none, after_send, after_recv,
}
use aetherflow.Mpsc.Invariant.{Holds, vacant, taken, index_in, index-word}

module _ {T : Type 0} {cap h : ℕ} {items : List T} {q : Queue T} (v : Holds cap h items q) where
  open v use {power, two, room, tail, head, stored, free}

  slot-tail : slot_at q q.enqueue_pos ≡ get_elem? q.buffer ((h + length items) % cap)
  slot-tail = rw tail (ap (get_elem? q.buffer) (index-word v (h + length items)))

  slot-head : slot_at q q.dequeue_pos ≡ get_elem? q.buffer (h % cap)
  slot-head = rw head (ap (get_elem? q.buffer) (index-word v h))

  -- With room, a send returns at once and appends its message.
  pub send-room :
      (x : T) → q.consumer_alive ≡ true → length items < cap → try_send q x ≡ (after_send q x, sent)
  send-room x alive r =
      try_send-free q x (vacant (h + length items)) alive (rw tail (mod-lt _ (omega arith)))
        (slot-tail ∙ free _ (omega arith) r) (sym tail)
        (rw (tail, index-word v (h + length items)) (index_in v (h + length items)))

  -- In a full queue the next place is that of the oldest item.
  slot_full :
      (y : T)
      → get_elem? items 0 ≡ some y
      → length items ≡ cap
      → slot_at q q.enqueue_pos ≡ some (taken h y)
  slot_full y oldest e = slot-tail ∙ rw (e, add-mod_right) (rw add-zero at (stored 0 y oldest))

  -- Without room, a send returns `full` and changes nothing.
  pub send_no_room :
      (x : T) → q.consumer_alive ≡ true → length items ≡ cap → try_send q x ≡ (q, refused (full x))
  send_no_room x alive e =
      let (y, oldest) = get_elem?_of_lt items 0 (omega arith) in
      try_send-full q x (taken h y) alive (slot_full y oldest e) (rw (tail, e) behind)
    where
      behind : is_negative (wrapping_sub ((h + 1) % word) ((h + cap) % word)) ≡ true
      behind = ground (arith, IsPower-range power)

module _ {T : Type 0} {cap h : ℕ} {q : Queue T} where
  -- A receive from an empty queue returns `none` and changes nothing.
  pub recv_empty : Holds cap h [] q → try_recv q ≡ (q, received none)
  recv_empty v =
      try_recv-none q (vacant h)
        (slot-head v ∙ rw add-zero at (v.free 0 (omega arith) (omega (arith, v.two))))
        (rw v.head behind)
    where
      behind : is_negative (wrapping_sub (h % word) (wrapping_add (h % word) 1)) ≡ true
      behind = ground arith

  -- A receive takes the oldest item.
  pub recv_first :
      (x : T) (rest : List T)
      → Holds cap h (x ∷ rest) q
      → try_recv q ≡ (after_recv q, received (some x))
  recv_first x rest v =
      try_recv-some q x
        (slot-head v ∙ rw add-zero at (v.stored 0 x refl) ∙ rw (v.head, mod-add-mod))
        (rw (v.head, index-word v h) (index_in v h))

  pub is_empty-nil : Holds cap h [] q → is_empty q ≡ some true
  unfolding is_empty
  is_empty-nil v =
      rw (slot-head v, is_empty)
        (rw (rw add-zero at (v.free 0 (omega arith) (omega (arith, v.two))), is_empty)
          (rw v.head (ap some behind)))
    where
      behind : is_negative (wrapping_sub (h % word) (wrapping_add (h % word) 1)) ≡ true
      behind = ground arith

  pub is_empty-cons : (x : T) (rest : List T) → Holds cap h (x ∷ rest) q → is_empty q ≡ some false
  unfolding is_empty
  is_empty-cons x rest v =
      rw (slot-head v, is_empty)
        (rw (rw add-zero at (v.stored 0 x refl), is_empty) (rw v.head (ap some level)))
    where
      level : is_negative (wrapping_sub ((h + 1) % word) (wrapping_add (h % word) 1)) ≡ false
      level = ground arith
