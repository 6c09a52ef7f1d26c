-- ===== src/Mpsc/Threads/Receiver.antt =====
-- A step of the receiver keeps the invariant.
use mathlib.Core.Path.{subst}
use native.Mathlib.Nat.{mod-lt, le_refl}
use aetherflow.Base.{
  ℕ, suc, ◌%◌, ◌≤◌, ◌≡◌, refl, ◌⊎◌, inl, inr, sym, ◌∙◌, Bool, not, ◌&&◌, Option, some, List, arith,
  length, get_elem?_of_lt, Bool-cases, ◌==◌, lt_of_get_elem?, ℕ_discrete,
}
use aetherflow.Base.Words.{wrapping_add}
use aetherflow.Mpsc.{Slot, Receiving, claim, read, received, dequeue_step, after_head}
use aetherflow.Mpsc.Threads.Facts.{SenderFact-move, owned_facts, seq_of_place}
use aetherflow.Mpsc.Threads.Senders.{place_at}
use aetherflow.Mpsc.Threads.{World, recv_from}
use aetherflow.Mpsc.Threads.Invariant.{
  Inv, IsYoung, SenderFact, ReceiverFact, IsOpen, IsFull, claimed, owned, place,
}

module _ {T : Type 0} {cap : ℕ} {w : World T} (inv : Inv cap w) where
  open inv use {power, two, mask, size, tail, head, sent_first, room, order, slots, senders, unique}

  abbrev d : ℕ
  d = length w.delivered

  abbrev b : List (Slot T)
  b = w.queue.buffer

  -- A step that changes the receiver's locals alone, with nothing claimed before or after.
  pub look :
      (r : Receiving T)
      → claimed w.receiver d ≡ d
      → claimed r d ≡ d
      → ReceiverFact b cap d w.reserved r
      → Inv cap (record w { receiver = r })
  look r before after fact = record {
    power = power;
    two = two;
    mask = mask;
    size = size;
    tail = tail;
    head = omega (arith, head);
    sent_first = omega (arith, sent_first);
    room = room;
    order = order;
    slots = λ p lo hi. slots p (omega arith) hi;
    senders = λ i.
        subst (λ c. SenderFact b cap d c w.reserved (w.sender i)) (before ∙ sym after) (senders i);
    unique = unique;
    receiver = fact;
  }

  pub recv_load_Inv :
      (weak : Bool) → w.receiver ≡ Receiving.load → Inv cap (recv_from weak Receiving.load w)
  unfolding recv_from dequeue_step
  recv_load_Inv weak here =
      let nothing : claimed w.receiver d ≡ d = rw here in
      look (Receiving.probe w.queue.dequeue_pos) nothing refl (omega (arith, head))

  -- What the receiver finds in the slot of the next position.
  after_head_fact :
      (s : Slot T)
      → IsYoung cap w
      → place b cap d ≡ some s
      → IsOpen b cap d ⊎ IsFull b cap w.reserved d
      → ReceiverFact b cap d w.reserved (after_head d s.seq)
        × (claimed {T = T} (after_head d s.seq) d ≡ d)
  unfolding after_head
  after_head_fact s young here (inl (v, is_open)) = ground (arith, seq_of_place here is_open)
  after_head_fact s young here (inr (x, l, full)) =
      rw (seq_of_place here full) (rw claims ((refl, (x, l, full)), refl))
    where
      claims : after_head {T = T} d (suc d) ≡ claim d
      claims = ground (arith, lt_of_get_elem? w.reserved d x l)

  probe_step :
      (weak : Bool) (s : Slot T)
      → place b cap d ≡ some s
      → dequeue_step weak w.queue (Receiving.probe d) ≡ (w.queue, after_head d s.seq)
  unfolding dequeue_step
  probe_step weak s here = ground (arith, place_at inv 0 d)

  pub recv_probe_Inv :
      (weak : Bool) (pos : ℕ)
      → w.receiver ≡ Receiving.probe pos
      → IsYoung cap w
      → Inv cap (recv_from weak (Receiving.probe pos) w)
  unfolding recv_from
  recv_probe_Inv weak pos here young =
      let (s, at_d) = get_elem?_of_lt b (d % cap) (rw size (mod-lt d (omega arith))) in
      let e : pos ≡ d = rw here at inv.receiver in
      let nothing : claimed w.receiver d ≡ d = rw here in
      let f = after_head_fact s young at_d (slots d (omega arith) (omega arith)) in
      rw e (
        subst (λ t. Inv cap (record w { queue = t.0; receiver = t.1 }))
          (sym (probe_step weak s at_d)) (look (after_head d s.seq) nothing f.1 f.0))

  pub recv_done_Inv :
      (weak : Bool) (o : Option T)
      → w.receiver ≡ received o
      → Inv cap (recv_from weak (received o) w)
  unfolding recv_from dequeue_step
  recv_done_Inv weak o here =
      let nothing : claimed w.receiver d ≡ d = rw here in look (received o) nothing refl tt

  module _ (pos : ℕ) (here : w.receiver ≡ claim pos) where
    at_claim : ReceiverFact b cap d w.reserved (claim pos)
    at_claim = rw here at inv.receiver

    -- No sender owns the position that is claimed: its slot is full.
    not_owned : (i k : ℕ) → owned (w.sender i) ≡ some k → suc d ≤ k
    not_owned i k o =
        let f =
          owned_facts b cap d (claimed w.receiver d) w.reserved (w.sender i) k (senders i) o in
        let c : claimed w.receiver d ≡ d = rw here in
        let (x, l, full) = at_claim.1 in
        let (v, is_open) = f.3 in
        elim (ℕ_discrete d k) [
          | yes e ↦
              let at_d : place b cap d ≡ some (record { seq = k; val = v }) = rw e is_open in
              absurd (omega (arith, e, seq_of_place full at_d))
          | no ne ↦ omega (arith, f.0)
        ]

    won :
        IsYoung cap w
        → Inv cap (record w {
          queue = record w.queue { dequeue_pos = wrapping_add pos 1 };
          receiver = read pos;
        })
    won young =
        let (x, l, full) = at_claim.1 in
        record {
          power = power;
          two = two;
          mask = mask;
          size = size;
          tail = tail;
          head = omega (arith, at_claim.0, lt_of_get_elem? w.reserved d x l);
          sent_first = omega (arith, lt_of_get_elem? w.reserved d x l);
          room = room;
          order = order;
          slots = λ p lo hi. let c : claimed w.receiver d ≡ d = rw here in slots p (omega arith) hi;
          senders = λ i.
              SenderFact-move b cap d d (claimed w.receiver d) (suc d) w.reserved (w.sender i)
                (le_refl d) (not_owned i) (senders i);
          unique = unique;
          receiver = at_claim;
        }

    pub recv_claim_Inv : (weak : Bool) → IsYoung cap w → Inv cap (recv_from weak (claim pos) w)
    unfolding recv_from dequeue_step
    recv_claim_Inv weak young = elim (Bool-cases (not weak && w.queue.dequeue_pos == pos)) [
      | inl wins ↦ rw wins (won young)
      | inr loses ↦
          let nothing : claimed w.receiver d ≡ d = rw here in
          rw loses (look (Receiving.probe w.queue.dequeue_pos) nothing refl (omega (arith, head)))
    ]
