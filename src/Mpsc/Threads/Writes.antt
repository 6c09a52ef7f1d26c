-- ===== src/Mpsc/Threads/Writes.antt =====
-- The owner of a position writes its slot and publishes it, and keeps the invariant.
use mathlib.Core.Path.{subst}
use mathlib.Core.Option.{some-injective}
use native.Mathlib.Nat.{mod-lt, le_refl}
use aetherflow.Base.{
  ℕ, suc, ◌+◌, ◌%◌, ◌^◌, ◌≤◌, ◌<◌, ◌≡◌, ◌≢◌, ◌⊎◌, inl, inr, sym, ◌∙◌, Bool, Option, some, List,
  arith, length, set, Bool-cases, ◌==◌, get_elem?-set_self, get_elem?-set_ne, length-set,
  lt_of_get_elem?, ℕ_discrete,
}
use aetherflow.Mpsc.{Queue, Slot, Sending, write, publish, sent, enqueue_step}
use aetherflow.Mpsc.Threads.Facts.{
  SenderFact-set, ReceiverFact-set, owned_facts, le-claimed, seq_of_place,
}
use aetherflow.Mpsc.Threads.Senders.{place_at, index_at}
use aetherflow.Mpsc.Threads.{World, update, send_from}
use aetherflow.Mpsc.Threads.Invariant.{
  Inv, IsYoung, SenderFact, ReceiverFact, IsOpen, IsFull, claimed, owned, place, apart,
}

module _ {T : Type 0} {cap : ℕ} {w : World T} (inv : Inv cap w) (i pos : ℕ)
    (own : owned (w.sender i) ≡ some pos) where
  open inv use {power, two, mask, size, tail, head, sent_first, room, order, slots, senders, unique}

  abbrev d : ℕ
  d = length w.delivered

  abbrev c : ℕ
  c = claimed w.receiver (length w.delivered)

  abbrev b : List (Slot T)
  b = w.queue.buffer

  facts : (c ≤ pos) × (pos < d + cap) × (pos < length w.reserved) × IsOpen b cap pos
  facts = owned_facts b cap d c w.reserved (w.sender i) pos (senders i) own

  lap_start : d ≤ c
  lap_start = (le-claimed w.receiver (length w.delivered)).0

  module _ (s : Slot T) where
    abbrev b' : List (Slot T)
    b' = set b (pos % cap) s

    written : place b' cap pos ≡ some s
    written = get_elem?-set_self b (pos % cap) s (rw size (mod-lt pos (omega arith)))

    kept : (k : ℕ) → d ≤ k → k < d + cap → pos ≢ k → place b' cap k ≡ place b cap k
    kept k lo hi ne =
        get_elem?-set_ne b (pos % cap) (k % cap) s
          (apart cap d pos k (omega (arith, lap_start, facts)) facts.1 lo hi ne)

    not_oldest : (v : Option T) → place b cap d ≡ some (record { seq = suc d; val = v }) → pos ≢ d
    not_oldest v full e =
        let (v', is_open) = facts.3 in
        let is_open' : place b cap d ≡ some (record { seq = pos; val = v' }) = rw (← e) is_open in
        omega (arith, e, seq_of_place full is_open')

    -- The oldest slot, once claimed, is not the owner's.
    kept_oldest : ReceiverFact b' cap d w.reserved w.receiver
    kept_oldest =
        ReceiverFact-set b b' cap d w.reserved w.receiver
          (λ v full. kept d (le_refl d) (omega (arith, facts)) (not_oldest v full)) inv.receiver

    kept_other : (j k : ℕ) → i ≢ j → owned (w.sender j) ≡ some k → place b' cap k ≡ place b cap k
    kept_other j k ne o =
        let f = owned_facts b cap d c w.reserved (w.sender j) k (senders j) o in
        kept k (omega (arith, lap_start, f.0)) f.1 (λ e. ne (unique i j pos own (rw e o)))

    module _ (p : Sending T) (fact : SenderFact b' cap d c w.reserved p)
        (still : (k : ℕ) → owned p ≡ some k → pos ≡ k)
        (now : IsOpen b' cap pos ⊎ IsFull b' cap w.reserved pos) where
      pub rewritten :
          Inv cap
            (record w { queue = record w.queue { buffer = b' }; sender = update w.sender i p })
      rewritten = record {
        power = power;
        two = two;
        mask = mask;
        size = length-set b (pos % cap) s ∙ size;
        tail = tail;
        head = head;
        sent_first = sent_first;
        room = room;
        order = order;
        slots = λ k lo hi. elim (ℕ_discrete pos k) [
          | yes e ↦ rw (← e) now
          | no ne ↦ elim (slots k lo hi) [
            | inl (v, is_open) ↦ inl (v, kept k (omega (arith, lap_start)) hi ne ∙ is_open)
            | inr (x, l, full) ↦ inr (x, l, kept k (omega (arith, lap_start)) hi ne ∙ full)
          ]
        ];
        senders = λ j. elim (Bool-cases (i == j)) [
          | inl same ↦ rw same fact
          | inr other ↦ rw other (
              SenderFact-set b b' cap d c w.reserved (w.sender j)
                (λ k o. kept_other j k (ground (arith)) o) (senders j))
        ];
        unique = λ j k q o o'.
            ground (arith, unique j k q, unique i j pos own, unique i k pos own, still q);
        receiver = kept_oldest;
      }

module _ {T : Type 0} {cap : ℕ} {w : World T} (inv : Inv cap w) (i pos : ℕ) where
  -- The queue after a write to the slot of `pos`.
  abbrev rewrite_slot : Slot T → Queue T
  rewrite_slot s = record w.queue { buffer = set w.queue.buffer (pos % cap) s }

  write_step :
      (weak : Bool) (x : T) (v : Option T)
      → place w.queue.buffer cap pos ≡ some (record { seq = pos; val = v })
      → enqueue_step weak w.queue (write pos x)
        ≡ (rewrite_slot (record { seq = pos; val = some x }), publish pos)
  unfolding enqueue_step
  write_step weak x v here = ground (arith, place_at inv i pos, index_at inv i pos)

  publish_step :
      (weak : Bool) (x : T)
      → pos + 1 < 2 ^ 64
      → place w.queue.buffer cap pos ≡ some (record { seq = pos; val = some x })
      → enqueue_step weak w.queue (publish pos)
        ≡ (rewrite_slot (record { seq = suc pos; val = some x }), sent)
  unfolding enqueue_step
  publish_step weak x small here = ground (arith, place_at inv i pos, index_at inv i pos)

  pub write_Inv :
      (weak : Bool) (x : T) → w.sender i ≡ write pos x → Inv cap (send_from i weak (write pos x) w)
  unfolding send_from
  write_Inv weak x e =
      let own : owned (w.sender i) ≡ some pos = rw e in
      let (lo, hi, l, (v, is_open)) = at_write in
      let s : Slot T = record { seq = pos; val = some x } in
      let now = written inv i pos own s in
      subst (λ t. Inv cap (record w { queue = t.0; sender = update w.sender i t.1 }))
        (sym (write_step weak x v is_open))
        (rewritten inv i pos own s (publish pos) (lo, hi, (x, l, now))
          (λ k o. some-injective pos k o) (inl (some x, now)))
    where
      at_write :
          SenderFact w.queue.buffer cap
            (length w.delivered)
            (claimed w.receiver (length w.delivered))
            w.reserved
            (write pos x)
      at_write = rw e at (inv.senders i)

  pub publish_Inv :
      (weak : Bool)
      → w.sender i ≡ publish pos
      → IsYoung cap w
      → Inv cap (send_from i weak (publish pos) w)
  unfolding send_from
  publish_Inv weak e young =
      let own : owned (w.sender i) ≡ some pos = rw e in
      let (lo, hi, (x, l, is_open)) = at_publish in
      let s : Slot T = record { seq = suc pos; val = some x } in
      let now = written inv i pos own s in
      subst (λ t. Inv cap (record w { queue = t.0; sender = update w.sender i t.1 }))
        (sym (publish_step weak x (omega (arith, lt_of_get_elem? w.reserved pos x l)) is_open))
        (rewritten inv i pos own s sent tt (λ k o. absurd (ground arith)) (inr (x, l, now)))
    where
      at_publish :
          SenderFact w.queue.buffer cap
            (length w.delivered)
            (claimed w.receiver (length w.delivered))
            w.reserved
            (publish pos)
      at_publish = rw e at (inv.senders i)
