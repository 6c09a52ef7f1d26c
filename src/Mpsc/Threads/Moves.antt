-- ===== src/Mpsc/Threads/Moves.antt =====
-- Every step of the world keeps the invariant, and it holds at the start.
use mathlib.Core.Path.{subst}
use native.Mathlib.Nat.{zero-add, mod-eq_of_lt}
use aetherflow.Base.{
  ℕ, suc, ◌+◌, ◌%◌, ◌^◌, ◌≤◌, ◌<◌, ◌≡◌, refl, inl, sym, Bool, Option, none, some, List, [], ◌∷◌,
  ◌++◌, arith, length, set, lt_of_get_elem?, length-append,
}
use aetherflow.Base.Words.{word, IsPower-range, next_power_of_two}
use aetherflow.Mpsc.{
  Slot, Queue, Sending, Receiving, check, recheck, write, publish, reserve, sent, refused, claim,
  read, release, received, uninit, dequeue_step,
}
use aetherflow.Mpsc.Channel.{channel-Holds}
use aetherflow.Mpsc.Invariant.{Holds}
use aetherflow.Mpsc.Ends.{channel, drop_receiver}
use aetherflow.Mpsc.Threads.Senders.{
  quiet, place_at, index_at, check_Inv, load_Inv, probe_Inv, recheck_Inv, sent_Inv, refused_Inv,
}
use aetherflow.Mpsc.Threads.Reserve.{reserve_Inv}
use aetherflow.Mpsc.Threads.Writes.{write_Inv, publish_Inv}
use aetherflow.Mpsc.Threads.Receiver.{
  look, recv_load_Inv, recv_probe_Inv, recv_claim_Inv, recv_done_Inv,
}
use aetherflow.Mpsc.Threads.Release.{emptied, released}
use aetherflow.Mpsc.Threads.{
  World, Step, Reach, Waiting, start, call_send, send_next, call_recv, recv_next, hang_up, begin,
  later, after_return, send_from, send_move, recv_from, recv_move, log_reserved,
}
use aetherflow.Mpsc.Threads.Invariant.{Inv, IsYoung, ReceiverFact, claimed, place}

module _ {T : Type 0} {cap : ℕ} {w : World T} (inv : Inv cap w) where
  send_from-Inv :
      (i : ℕ) (weak : Bool) (p : Sending T)
      → w.sender i ≡ p
      → IsYoung cap w
      → Inv cap (send_from i weak p w)
  send_from-Inv i weak (check x) e young = check_Inv inv i weak x
  send_from-Inv i weak (Sending.load x) e young = load_Inv inv i weak x
  send_from-Inv i weak (Sending.probe pos x) e young = probe_Inv inv i weak pos x e young
  send_from-Inv i weak (reserve pos x) e young = reserve_Inv inv i pos x e weak young
  send_from-Inv i weak (write pos x) e young = write_Inv inv i pos weak x e
  send_from-Inv i weak (publish pos) e young = publish_Inv inv i pos weak e young
  send_from-Inv i weak (recheck x) e young = recheck_Inv inv i weak x
  send_from-Inv i weak sent e young = sent_Inv inv i weak
  send_from-Inv i weak (refused r) e young = refused_Inv inv i weak r
  send_from-Inv i weak Sending.out_of_range e young = absurd (rw e at (inv.senders i))

  abbrev d : ℕ
  d = length w.delivered

  -- The queue after the slot of the next position is rewritten.
  abbrev rewrite_slot : Slot T → Queue T
  rewrite_slot s = record w.queue { buffer = set w.queue.buffer (d % cap) s }

  read_step :
      (weak : Bool) (x : T)
      → place w.queue.buffer cap d ≡ some (record { seq = suc d; val = some x })
      → dequeue_step weak w.queue (read d)
        ≡ (rewrite_slot (record { seq = suc d; val = none }), release d x)
  unfolding dequeue_step
  read_step weak x here = ground (arith, place_at inv 0 d, index_at inv 0 d)

  release_step :
      (weak : Bool) (x : T) (v : Option T)
      → d + cap < 2 ^ 63
      → place w.queue.buffer cap d ≡ some (record { seq = suc d; val = v })
      → dequeue_step weak w.queue (release d x)
        ≡ (rewrite_slot (record { seq = d + cap; val = v }), received (some x))
  unfolding dequeue_step
  release_step weak x v small here =
      ground (arith, place_at inv 0 d, index_at inv 0 d, inv.mask, inv.two)

  recv_from-Inv :
      (weak : Bool) (r : Receiving T)
      → w.receiver ≡ r
      → IsYoung cap w
      → Inv cap (recv_from weak r w)
  unfolding recv_from
  recv_from-Inv weak Receiving.load e young = recv_load_Inv inv weak e
  recv_from-Inv weak (Receiving.probe pos) e young = recv_probe_Inv inv weak pos e young
  recv_from-Inv weak (claim pos) e young = recv_claim_Inv inv pos e weak young
  recv_from-Inv weak (read pos) e young =
      let c : claimed w.receiver d ≡ suc d = rw e in
      let (at_d, (x, l, full)) = at_read in
      rw at_d (
        subst (λ t. Inv cap (record w { queue = t.0; receiver = t.1 }))
          (sym (read_step weak x full)) (emptied inv c _ x refl l))
    where
      at_read : ReceiverFact w.queue.buffer cap d w.reserved (read pos)
      at_read = rw e at inv.receiver
  recv_from-Inv weak (release pos x) e young =
      let c : claimed w.receiver d ≡ suc d = rw e in
      let (at_d, l, (v, here)) = at_release in
      rw at_d (
        subst
          (λ t.
            Inv cap (record w { queue = t.0; receiver = t.1; delivered = w.delivered ++ (x ∷ []) }))
          (sym (release_step weak x v (omega (arith, lt_of_get_elem? w.reserved d x l)) here))
          (released inv c _ x refl l))
    where
      at_release : ReceiverFact w.queue.buffer cap d w.reserved (release pos x)
      at_release = rw e at inv.receiver
  recv_from-Inv weak (received o) e young = recv_done_Inv inv weak o e
  recv_from-Inv weak uninit e young = absurd (rw e at inv.receiver)
  recv_from-Inv weak Receiving.out_of_range e young = absurd (rw e at inv.receiver)

  Waiting-claims_nothing : {r : Receiving T} → Waiting r → claimed r d ≡ d
  Waiting-claims_nothing (after_return o) = refl

  -- Every step keeps the invariant while fewer than 2^63 positions have been handed out.
  pub Step-Inv : {w' : World T} → Step w w' → IsYoung cap w → Inv cap w'
  unfolding send_move recv_move drop_receiver
  Step-Inv (call_send i x idle) young = quiet inv i (check x) tt refl
  Step-Inv (send_next i weak) young = send_from-Inv i weak (w.sender i) refl young
  Step-Inv (call_recv waiting alive) young =
      look inv Receiving.load (Waiting-claims_nothing waiting) refl tt
  Step-Inv (recv_next weak) young = recv_from-Inv weak w.receiver refl young
  Step-Inv (hang_up waiting) young = record {
    power = inv.power;
    two = inv.two;
    mask = inv.mask;
    size = inv.size;
    tail = inv.tail;
    head = inv.head;
    sent_first = inv.sent_first;
    room = inv.room;
    order = inv.order;
    slots = inv.slots;
    senders = inv.senders;
    unique = inv.unique;
    receiver = inv.receiver;
  }

module _ {T : Type 0} where
  log_grows : (p p' : Sending T) (log : List T) → length log ≤ length (log_reserved p p' log)
  log_grows (reserve pos x) (write pos' y) log = omega (arith, length-append log (x ∷ []))
  log_grows (reserve pos x) _ log = omega arith
  log_grows _ _ log = omega arith

  reserved_grow : {w w' : World T} → Step w w' → length w.reserved ≤ length w'.reserved
  unfolding send_move send_from recv_move recv_from
  reserved_grow {w} (call_send i x idle) = omega arith
  reserved_grow {w} (send_next i weak) = log_grows _ _ w.reserved
  reserved_grow {w} (call_recv waiting alive) = omega arith
  reserved_grow {w} (recv_next weak) = omega arith
  reserved_grow {w} (hang_up waiting) = omega arith

  younger : (cap : ℕ) {w w' : World T} → Step w w' → IsYoung cap w' → IsYoung cap w
  younger cap st young = omega (arith, reserved_grow st)

  start-Inv :
      (capacity : ℕ)
      → 2 ≤ capacity
      → capacity ≤ 2 ^ 63
      → Inv {T = T} (next_power_of_two capacity) (start capacity)
  unfolding start
  start-Inv capacity big small = record {
    power = v.power;
    two = v.two;
    mask = v.mask;
    size = v.size;
    tail = v.tail;
    head = v.head;
    sent_first = omega arith;
    room = omega arith;
    order = λ j y e. e;
    slots = λ p lo hi. inl (none, vacant_at p (omega arith));
    senders = λ i. tt;
    unique = λ i j p o o'. absurd (ground arith);
    receiver = tt;
  }
    where
      v : Holds {T = T} (next_power_of_two capacity) 0 [] (channel capacity)
      v = channel-Holds capacity big small

      vacant_at :
          (p : ℕ)
          → p < next_power_of_two capacity
          → place (channel {T = T} capacity).buffer (next_power_of_two capacity) p
            ≡ some (record { seq = p; val = none })
      vacant_at p lt =
          rw (zero-add, mod-eq_of_lt {n = p} {m = word} (omega (arith, IsPower-range v.power))) at
            (v.free p (omega arith) lt)

  -- The invariant holds in every world that a channel of capacity two or more can reach.
  pub Reach-Inv :
      (capacity : ℕ) {w : World T}
      → 2 ≤ capacity
      → capacity ≤ 2 ^ 63
      → IsYoung (next_power_of_two capacity) w
      → Reach capacity w
      → Inv (next_power_of_two capacity) w
  Reach-Inv capacity big small young begin = start-Inv capacity big small
  Reach-Inv capacity big small young (later r st) =
      let before = younger _ st young in Step-Inv (Reach-Inv capacity big small before r) st before
