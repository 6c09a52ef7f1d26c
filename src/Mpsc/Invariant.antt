-- ===== src/Mpsc/Invariant.antt =====
-- What a quiescent mailbox holds, and that sends and receives keep it. Positions count up without
-- bound here; the words of the queue are their remainders.
use mathlib.Core.Path.{subst}
use native.Mathlib.Nat.{
  div-add-mod, mul-le-mul_left, mod-lt, mod-add-mod, add_assoc, add-zero, add-mod_right,
}
use aetherflow.Base.{
  ℕ, suc, ◌+◌, ◌-◌, ◌/◌, ◌%◌, ◌≤◌, ◌<◌, ◌≡◌, ◌≢◌, ap, sym, ◌∙◌, none, some, List, [], ◌∷◌, ◌++◌,
  arith, length, get_elem?, set, dec_lt, length-append, length-set, get_elem?-set_self,
  get_elem?-set_ne, set-set_self, get_elem?-append_cases, lt_of_get_elem?, inl, inr,
}
use aetherflow.Base.Words.{word, IsPower, mod-word-mod, bit_and_index, wrapping_add}
use aetherflow.Mpsc.{Slot, Queue, slot_index}
use aetherflow.Mpsc.Calls.{after_send, after_recv}

-- The slot at position `p` of an empty place, and of one that holds `x`.
abbrev pub vacant {ℓ} : {T : Type ℓ} → ℕ → Slot T
vacant p = record { seq = p % word; val = none }

abbrev pub taken {ℓ} : {T : Type ℓ} → ℕ → T → Slot T
taken p x = record { seq = (p + 1) % word; val = some x }

-- The queue holds `items`, the oldest at position `h`, in `cap` slots.
pub record Holds {T : Type 0} (cap h : ℕ) (items : List T) (q : Queue T) : Type 0 where
  pub power : IsPower cap
  pub two : 2 ≤ cap
  pub room : length items ≤ cap
  pub mask : q.mask ≡ cap - 1
  pub size : length q.buffer ≡ cap
  pub tail : q.enqueue_pos ≡ (h + length items) % word
  pub head : q.dequeue_pos ≡ h % word
  pub stored :
      (j : ℕ) (x : T)
      → get_elem? items j ≡ some x
      → get_elem? q.buffer ((h + j) % cap) ≡ some (taken (h + j) x)
  pub free :
      (j : ℕ)
      → length items ≤ j
      → j < cap
      → get_elem? q.buffer ((h + j) % cap) ≡ some (vacant (h + j))

-- Different places of one lap have different slots.
pub lap_ne : {cap i j : ℕ} (h : ℕ) → i < j → j < cap → (h + i) % cap ≢ (h + j) % cap
lap_ne {cap} {i} {j} h lt in_lap e = elim (dec_lt ((h + i) / cap) ((h + j) / cap)) [
  | yes p ↦
      omega (arith, e, div-add-mod (h + i) cap, div-add-mod (h + j) cap, mul-le-mul_left cap p)
  | no np ↦ omega (
    arith,
    e,
    div-add-mod (h + i) cap,
    div-add-mod (h + j) cap,
    mul-le-mul_left {m = (h + j) / cap} {n = (h + i) / cap} cap (omega arith),
  )
]

module _ {T : Type 0} {cap h : ℕ} {items : List T} {q : Queue T} (v : Holds cap h items q) where
  open v use {power, two, room, mask, size, tail, head, stored, free}

  -- A position's word leads to the position's slot.
  pub index-word : (p : ℕ) → slot_index q (p % word) ≡ p % cap
  index-word p = rw (mask, bit_and_index power, mod-word-mod power)

  pub index_in : (p : ℕ) → p % cap < length q.buffer
  index_in p = rw size (mod-lt p (omega arith))

  -- The words of the counters at a free place and at the oldest item.
  tail_index : slot_index q q.enqueue_pos ≡ (h + length items) % cap
  tail_index = rw tail (index-word (h + length items))

  head_index : slot_index q q.dequeue_pos ≡ h % cap
  head_index = rw head (index-word h)

  abbrev pub n : ℕ
  n = length items

  module _ (x : T) where
    -- A send numbers and fills the slot of the next position.
    buffer-after_send : (after_send q x).buffer ≡ set q.buffer ((h + n) % cap) (taken (h + n) x)
    buffer-after_send = set-set_self q.buffer _ _ _ ∙ rw (tail_index, tail, mod-add-mod)

    send_stored :
        (j : ℕ) (y : T)
        → n < cap
        → get_elem? (items ++ (x ∷ [])) j ≡ some y
        → get_elem? (after_send q x).buffer ((h + j) % cap) ≡ some (taken (h + j) y)
    send_stored j y r e = rw buffer-after_send (elim (get_elem?-append_cases items x j y e) [
      | inl (lt, old) ↦
          rw (get_elem?-set_ne q.buffer _ _ (taken (h + n) x) (λ same. lap_ne h lt r (sym same)))
            (stored j y old)
      | inr (at_end, new) ↦
          rw (at_end, ← new) (get_elem?-set_self q.buffer _ (taken (h + n) x) (index_in (h + n)))
    ])

    send_free :
        (j : ℕ)
        → n < j
        → j < cap
        → get_elem? (after_send q x).buffer ((h + j) % cap) ≡ some (vacant (h + j))
    send_free j lt in_lap =
        rw (buffer-after_send, get_elem?-set_ne q.buffer _ _ (taken (h + n) x) (lap_ne h lt in_lap))
          (free j (omega arith) in_lap)

    -- A send to a queue with room leaves it holding one item more, the last.
    pub after_send-Holds : n < cap → Holds cap h (items ++ (x ∷ [])) (after_send q x)
    after_send-Holds r = record {
      power = power;
      two = two;
      room = omega (arith, length-append items (x ∷ []));
      mask = mask;
      size = rw buffer-after_send (length-set q.buffer _ _ ∙ size);
      tail =
          rw (tail, mod-add-mod, length-append items (x ∷ []))
            (ap (λ (t : ℕ). t % word) (omega arith));
      head = head;
      stored = λ j y e. send_stored j y r e;
      free = λ j le in_lap. send_free j (omega (arith, length-append items (x ∷ []))) in_lap;
    }

module _ {T : Type 0} {cap h : ℕ} {x : T} {rest : List T} {q : Queue T}
    (v : Holds cap h (x ∷ rest) q) where
  open v use {power, two, room, mask, size, tail, head, stored, free}

  next_lap : wrapping_add (wrapping_add q.dequeue_pos q.mask) 1 ≡ (h + cap) % word
  next_lap =
      rw (head, mask, mod-add-mod, add_assoc, mod-add-mod)
        (ap (λ (t : ℕ). t % word) (omega (arith, two)))

  -- A receive empties the oldest slot and numbers it for the next lap.
  buffer-after_recv : (after_recv q).buffer ≡ set q.buffer (h % cap) (vacant (h + cap))
  buffer-after_recv = set-set_self q.buffer _ _ _ ∙ rw (head_index v, next_lap)

  apart : (j : ℕ) → suc j < cap → h % cap ≢ (suc h + j) % cap
  apart j below =
      subst (λ a. a % cap ≢ (suc h + j) % cap) (add-zero h)
        (subst (λ b. (h + 0) % cap ≢ b % cap) shift
          (lap_ne {i = 0} {j = suc j} h (omega arith) below))
    where
      shift : h + suc j ≡ suc h + j
      shift = omega arith

  recv_stored :
      (j : ℕ) (y : T)
      → get_elem? rest j ≡ some y
      → get_elem? (after_recv q).buffer ((suc h + j) % cap) ≡ some (taken (suc h + j) y)
  recv_stored j y e =
      rw
        (
          buffer-after_recv,
          get_elem?-set_ne q.buffer (h % cap) _ (vacant (h + cap))
              (apart j (omega (arith, room, lt_of_get_elem? rest j y e))),
        )
        moved
    where
      shift : suc h + j ≡ h + suc j
      shift = omega arith

      moved : get_elem? q.buffer ((suc h + j) % cap) ≡ some (taken (suc h + j) y)
      moved = rw shift (stored (suc j) y e)

  recv_free :
      (j : ℕ)
      → length rest ≤ j
      → j < cap
      → get_elem? (after_recv q).buffer ((suc h + j) % cap) ≡ some (vacant (suc h + j))
  recv_free j le in_lap = elim (dec_lt (suc j) cap) [
    | yes below ↦
        rw
          (
            buffer-after_recv,
            get_elem?-set_ne q.buffer (h % cap) _ (vacant (h + cap)) (apart j below),
          )
          (rw shift (free (suc j) (omega arith) below))
    | no last ↦
        let e : suc h + j ≡ h + cap = omega arith in
        rw (e, add-mod_right, buffer-after_recv)
          (get_elem?-set_self q.buffer (h % cap) (vacant (h + cap)) (index_in v h))
  ]
    where
      shift : suc h + j ≡ h + suc j
      shift = omega arith

  -- A receive from a queue leaves it holding the items after the first.
  pub after_recv-Holds : Holds cap (suc h) rest (after_recv q)
  after_recv-Holds = record {
    power = power;
    two = two;
    room = omega (arith, room);
    mask = mask;
    size = rw buffer-after_recv (length-set q.buffer _ _ ∙ size);
    tail = rw tail (ap (λ (t : ℕ). t % word) (omega arith));
    head = rw (head, mod-add-mod) (ap (λ (t : ℕ). t % word) (omega arith));
    stored = recv_stored;
    free = recv_free;
  }
