-- ===== src/Mpsc/Threads/Senders.antt =====
-- A step of a sender keeps the invariant.
use mathlib.Core.Path.{subst}
use mathlib.Core.Option.{some-injective}
use native.Mathlib.Nat.{add-mod_right, mod-lt}
use aetherflow.Base.{
  ℕ, suc, ◌+◌, ◌%◌, ◌≤◌, ◌≡◌, refl, inl, inr, sym, ap, ◌∙◌, Bool, true, false, none, some, List,
  arith, length, get_elem?, get_elem?_of_lt, dec_lt, Bool-cases, if◌then◌else◌, ◌==◌,
}
use aetherflow.Base.Words.{bit_and_index}
use aetherflow.Errors.{TrySendError, closed}
use aetherflow.Mpsc.{
  Slot, Sending, check, recheck, sent, refused, slot_at, slot_index, enqueue_step, after_seq,
}
use aetherflow.Mpsc.Threads.Facts.{oldest_slot}
use aetherflow.Mpsc.Threads.{World, update, send_from}
use aetherflow.Mpsc.Threads.Invariant.{Inv, IsYoung, SenderFact, claimed, owned, place}

module _ {T : Type 0} {cap : ℕ} {w : World T} (inv : Inv cap w) (i : ℕ) where
  open inv use {power, two, mask, size, tail, head, sent_first, room, order, slots, senders, unique}

  abbrev pub d : ℕ
  d = length w.delivered

  abbrev pub c : ℕ
  c = claimed w.receiver (length w.delivered)

  abbrev pub b : List (Slot T)
  b = w.queue.buffer

  pub index_at : (p : ℕ) → slot_index w.queue p ≡ p % cap
  index_at p = rw mask (bit_and_index power p)

  pub place_at : (p : ℕ) → slot_at w.queue p ≡ place b cap p
  place_at p = rw mask (ap (get_elem? b) (bit_and_index power p))

  -- A step that changes the sender's locals alone.
  pub quiet :
      (p : Sending T)
      → SenderFact b cap d c w.reserved p
      → owned p ≡ none
      → Inv cap (record w { sender = update w.sender i p })
  quiet p fact free = record {
    power = power;
    two = two;
    mask = mask;
    size = size;
    tail = tail;
    head = head;
    sent_first = sent_first;
    room = room;
    order = order;
    slots = slots;
    senders = λ j. elim (Bool-cases (i == j)) [ inl e ↦ rw e fact | inr ne ↦ rw ne (senders j) ];
    unique = λ j k p' own own'. ground (arith, unique j k p');
    receiver = inv.receiver;
  }

  old_seq :
      (pos : ℕ) (s : Slot T)
      → pos ≡ d + cap
      → place b cap pos ≡ some s
      → (d ≤ s.seq) × (s.seq ≤ suc d)
  old_seq pos s e here =
      let (s', here', lo, hi) =
        oldest_slot b cap d w.reserved w.receiver inv.receiver (λ le. slots d le (omega arith)) in
      let same : s' ≡ s =
        some-injective s' s (sym here' ∙ ap (get_elem? b) (rw (e, add-mod_right)) ∙ here) in
      rw (← same) (lo, hi)

  probe_step :
      (weak : Bool) (pos : ℕ) (x : T) (s : Slot T)
      → place b cap pos ≡ some s
      → enqueue_step weak w.queue (Sending.probe pos x) ≡ (w.queue, after_seq pos x s.seq)
  unfolding enqueue_step
  probe_step weak pos x s here = ground (arith, place_at pos)

  -- A slot found free at `pos` is free: a full slot of the lap before would be numbered lower.
  after_seq_fact :
      (pos : ℕ) (x : T) (s : Slot T)
      → pos ≤ length w.reserved
      → IsYoung cap w
      → place b cap pos ≡ some s
      → SenderFact b cap d c w.reserved (after_seq pos x s.seq)
        × (owned (after_seq pos x s.seq) ≡ none)
  unfolding after_seq
  after_seq_fact pos x s le young here = elim (dec_lt pos (d + cap)) [
    | yes in_lap ↦ ground arith
    | no past ↦ let old = old_seq pos s (omega arith) here in ground arith
  ]

  pub check_Inv : (weak : Bool) (x : T) → Inv cap (send_from i weak (check x) w)
  unfolding send_from enqueue_step
  check_Inv weak x = quiet _ (fact w.queue.consumer_alive) (free w.queue.consumer_alive)
    where
      fact :
          (t : Bool)
          → SenderFact b cap d c w.reserved (if t then Sending.load x else refused (closed x))
      fact true = tt
      fact false = tt

      free : (t : Bool) → owned (if t then Sending.load x else refused (closed x)) ≡ none
      free true = refl
      free false = refl

  pub load_Inv : (weak : Bool) (x : T) → Inv cap (send_from i weak (Sending.load x) w)
  unfolding send_from enqueue_step
  load_Inv weak x = quiet (Sending.probe w.queue.enqueue_pos x) (omega arith) refl

  pub probe_Inv :
      (weak : Bool) (pos : ℕ) (x : T)
      → w.sender i ≡ Sending.probe pos x
      → IsYoung cap w
      → Inv cap (send_from i weak (Sending.probe pos x) w)
  unfolding send_from
  probe_Inv weak pos x e young =
      let (s, here) = get_elem?_of_lt b (pos % cap) (rw size (mod-lt pos (omega arith))) in
      let f = after_seq_fact pos x s (rw e at (senders i)) young here in
      subst (λ t. Inv cap (record w { queue = t.0; sender = update w.sender i t.1 }))
        (sym (probe_step weak pos x s here)) (quiet (after_seq pos x s.seq) f.0 f.1)

  pub recheck_Inv : (weak : Bool) (x : T) → Inv cap (send_from i weak (recheck x) w)
  unfolding send_from enqueue_step
  recheck_Inv weak x = quiet (refused _) tt refl

  pub sent_Inv : (weak : Bool) → Inv cap (send_from i weak sent w)
  unfolding send_from enqueue_step
  sent_Inv weak = quiet sent tt refl

  pub refused_Inv : (weak : Bool) (e : TrySendError T) → Inv cap (send_from i weak (refused e) w)
  unfolding send_from enqueue_step
  refused_Inv weak e = quiet (refused e) tt refl
