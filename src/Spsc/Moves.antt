-- ===== src/Spsc/Moves.antt =====
-- core/src/spsc.rs: every step keeps the invariant.
use mathlib.Core.Path.{subst}
use mathlib.Core.List.{append_assoc}
use native.Mathlib.Nat.{mod-lt}
use aetherflow.Base.{
  ℕ, suc, ◌+◌, ◌-◌, ◌%◌, ◌≤◌, ◌<◌, ◌≡◌, refl, sym, ap, ◌∙◌, ◌≢◌, ◌⊎◌, inl, inr, none, some, List,
  [], ◌∷◌, ◌++◌, arith, ◌==◌, Bool-cases, length, get_elem?, set, length-set, length-append,
  get_elem?-set_self,
}
use aetherflow.Base.Words.{word, wrapping_add, wrapping_sub}
use aetherflow.Spsc.{
  Pushing, load_tail, load_head, write_slot, store_tail, pushed, Popping, own_head, see_tail,
  read_slot, store_head, popped, fault, World, push_step, pop_step, after_heads, after_tail,
  log_written, taken_by,
}
use aetherflow.Spsc.Slots.{slot_ne, Holds, Holds-set, Holds-snoc}
use aetherflow.Spsc.Invariant.{
  ProducerFact, ConsumerFact, Inv, ProducerFact-tail, ConsumerFact-head, ProducerFact-later,
  ConsumerFact-later, length-fifo,
}

module _ {T : Type 0} where
  -- The world after a step of the producer from `p`, or of the consumer from `c`.
  abbrev pub after_push : World T → Pushing T → World T
  after_push w p =
      let (r, p') = push_step w.ring p in
      record w { ring = r; producer = p'; written = log_written p w.written }

  abbrev pub after_pop : World T → Popping T → World T
  after_pop w c =
      let (r, c') = pop_step w.ring c in
      record w { ring = r; consumer = c'; taken = taken_by c c' w.taken }

  abbrev pub Kept : World T → Type 0
  Kept w = (rest : List T) × Inv w rest

  List-cases : (l : List T) → (l ≡ []) ⊎ ((x : T) × (l' : List T) × (l ≡ x ∷ l'))
  List-cases [] = inl refl
  List-cases (x ∷ l) = inr (x, l, refl)

module _ {T : Type 0} (w : World T) (rest : List T) (inv : Inv w rest) where
  -- The write goes to a slot that holds no value that is still to be taken.
  write-Holds :
      (x : T)
      → length w.written < w.ring.head + w.ring.cap
      → Holds
          (set w.ring.slots (length w.written % w.ring.cap) (some x))
          w.ring.cap
          (length w.taken)
          (rest ++ (x ∷ []))
  write-Holds x free =
      let q = length w.written in
      let cap = w.ring.cap in
      let sum = length-fifo w rest inv in
      let low = ConsumerFact-head w.consumer _ _ _ inv.consumer_fact in
      let kept =
        Holds-set w.ring.slots cap (length w.taken) q (some x) rest
          (λ k lo hi e.
            slot_ne k q cap (omega (arith, hi, sum)) (omega (arith, lo, low, free)) (sym e))
          inv.held in
      let inside : q % cap < length w.ring.slots = rw inv.size (mod-lt q inv.positive) in
      let fresh = get_elem?-set_self w.ring.slots (q % cap) (some x) inside in
      Holds-snoc (set w.ring.slots (q % cap) (some x)) cap (length w.taken) rest x kept
        (ap (λ k. get_elem? (set w.ring.slots (q % cap) (some x)) (k % cap)) (sym sum) ∙ fresh)

  -- The world with another producer that has its fact.
  pub with_producer :
      (p : Pushing T)
      → ProducerFact p (length w.written) w.ring.tail w.ring.head w.ring.cap
      → Inv (record w { producer = p }) rest
  with_producer p fact = record {
    positive = inv.positive;
    size = inv.size;
    fifo = inv.fifo;
    held = inv.held;
    room = inv.room;
    order = inv.order;
    producer_fact = fact;
    consumer_fact = inv.consumer_fact;
  }

  pub with_consumer :
      (c : Popping T)
      → ConsumerFact c (length w.taken) w.ring.head w.ring.tail
      → Inv (record w { consumer = c }) rest
  with_consumer c fact = record {
    positive = inv.positive;
    size = inv.size;
    fifo = inv.fifo;
    held = inv.held;
    room = inv.room;
    order = inv.order;
    producer_fact = inv.producer_fact;
    consumer_fact = fact;
  }

  room_left :
      (x : T) (t : ℕ)
      → length w.written < word
      → length w.written ≡ w.ring.tail
      → t ≡ w.ring.tail
      → ProducerFact
          (after_heads w.ring x t w.ring.head)
          (length w.written)
          w.ring.tail
          w.ring.head
          w.ring.cap
  room_left x t young e e' = elim (Bool-cases (wrapping_sub t w.ring.head == w.ring.cap)) [
    | inl y ↦ rw (y, after_heads) e
    | inr n ↦
        let low = ConsumerFact-head w.consumer _ _ _ inv.consumer_fact in
        let sub : wrapping_sub t w.ring.head ≡ t - w.ring.head =
          omega (arith, e, e', young, low, inv.order) in
        let ne : (t - w.ring.head) ≢ w.ring.cap = λ q. absurd (ground (arith, n, sub, q)) in
        rw (n, after_heads) (e, e', omega (arith, ne, e, e', low, inv.order, inv.room))
  ]

  pub push-Kept :
      (p : Pushing T)
      → length w.written < word
      → ProducerFact p (length w.written) w.ring.tail w.ring.head w.ring.cap
      → Kept (after_push w p)
  unfolding push_step
  push-Kept (load_tail x) young fact = (rest, with_producer (load_head x w.ring.tail) (fact, refl))
  push-Kept (load_head x t) young (e, e') = (rest, with_producer _ (room_left x t young e e'))
  push-Kept (write_slot x t) young (e, e', free) =
      let here : t ≡ length w.written = omega (arith, e, e') in
      let more = length-append w.written (x ∷ []) in
      (
        rest ++ (x ∷ []),
        record {
          positive = inv.positive;
          size = length-set w.ring.slots (t % w.ring.cap) (some x) ∙ inv.size;
          fifo = ap (λ l. l ++ (x ∷ [])) inv.fifo ∙ append_assoc w.taken rest (x ∷ []);
          held = rw here (write-Holds x (omega (arith, e, free)));
          room = omega (arith, more, e, free);
          order = inv.order;
          producer_fact = (omega (arith, more, e), e');
          consumer_fact = inv.consumer_fact;
        },
      )
  push-Kept (store_tail t) young (e, e') =
      let next : wrapping_add t 1 ≡ suc w.ring.tail = omega (arith, e, e', young) in
      let up : w.ring.tail ≤ wrapping_add t 1 = omega (arith, next) in
      (
        rest,
        record {
          positive = inv.positive;
          size = inv.size;
          fifo = inv.fifo;
          held = inv.held;
          room = inv.room;
          order = omega (arith, up, inv.order);
          producer_fact = omega (arith, next, e);
          consumer_fact = ConsumerFact-later w.consumer _ _ _ _ up inv.consumer_fact;
        },
      )
  push-Kept (pushed r) young fact = (rest, with_producer (pushed r) fact)

  tail_seen :
      (h : ℕ)
      → length w.taken ≡ w.ring.head
      → h ≡ w.ring.head
      → ConsumerFact (after_tail {T = T} h w.ring.tail) (length w.taken) w.ring.head w.ring.tail
  tail_seen h e e' = elim (Bool-cases (h == w.ring.tail)) [
    | inl y ↦ rw (y, after_tail) e
    | inr n ↦
        let ne : h ≢ w.ring.tail = λ q. absurd (ground (arith, n, q)) in
        rw (n, after_tail) (e, e', omega (arith, ne, e, e', inv.order))
  ]

  -- The read of the oldest value that was not taken.
  read-Inv :
      (x : T) (rest' : List T)
      → rest ≡ x ∷ rest'
      → length w.taken ≡ w.ring.head
      → w.ring.head < w.ring.tail
      → (get_elem? w.ring.slots (length w.taken % w.ring.cap) ≡ some (some x))
        × Holds
            (set w.ring.slots (length w.taken % w.ring.cap) none)
            w.ring.cap
            (suc (length w.taken))
            rest'
  read-Inv x rest' e here lt =
      let m = length w.taken in
      let cap = w.ring.cap in
      let (first, later) = subst (Holds w.ring.slots cap m) e inv.held in
      let sum = length-fifo w rest inv in
      let more = ap (λ l. length l) e in
      (
        first,
        Holds-set w.ring.slots cap (suc m) m none rest'
            (λ k lo hi.
              slot_ne m k cap (omega (arith, lo)) (omega (arith, hi, sum, more, here, inv.room)))
            later,
      )

  read-Kept :
      (h : ℕ) (x : T) (rest' : List T)
      → rest ≡ x ∷ rest'
      → length w.taken ≡ w.ring.head
      → h ≡ w.ring.head
      → w.ring.head < w.ring.tail
      → Kept (after_pop w (read_slot h))
  unfolding pop_step
  read-Kept h x rest' e here e' lt =
      let (first, later) = read-Inv x rest' e here lt in
      let at : h ≡ length w.taken = omega (arith, here, e') in
      let more = length-append w.taken (x ∷ []) in
      let up : suc (length w.taken) ≡ length (w.taken ++ (x ∷ [])) = omega (arith, more) in
      rw (at, first, after_pop)
        (
          rest',
          record {
            positive = inv.positive;
            size = length-set w.ring.slots (length w.taken % w.ring.cap) none ∙ inv.size;
            fifo = inv.fifo ∙ ap (λ l. w.taken ++ l) e ∙ sym (append_assoc w.taken (x ∷ []) rest');
            held =
                subst
                  (λ m.
                    Holds (set w.ring.slots (length w.taken % w.ring.cap) none) w.ring.cap m rest')
                  up later;
            room = inv.room;
            order = omega (arith, more, here, lt);
            producer_fact = inv.producer_fact;
            consumer_fact = (omega (arith, more, here), here);
          },
        )

  pub pop-Kept :
      (c : Popping T)
      → length w.written < word
      → ConsumerFact c (length w.taken) w.ring.head w.ring.tail
      → Kept (after_pop w c)
  unfolding pop_step
  pop-Kept own_head young fact = (rest, with_consumer (see_tail w.ring.head) (fact, refl))
  pop-Kept (see_tail h) young (e, e') = (rest, with_consumer _ (tail_seen h e e'))
  pop-Kept (read_slot h) young (e, e', lt) = elim (List-cases rest) [
    | inl none_left ↦
        let top = ProducerFact-tail w.producer _ _ _ _ inv.producer_fact in
        let sum = length-fifo w rest inv in
        let empty = ap (λ l. length l) none_left in absurd (omega (arith, top, sum, empty, e, lt))
    | inr (x, rest', q) ↦ read-Kept h x rest' q e e' lt
  ]
  pop-Kept (store_head h x) young (e, e') =
      let top = ProducerFact-tail w.producer _ _ _ _ inv.producer_fact in
      let next : wrapping_add h 1 ≡ suc w.ring.head = omega (arith, e, e', young, top, inv.order) in
      let up : w.ring.head ≤ wrapping_add h 1 = omega (arith, next) in
      (
        rest,
        record {
          positive = inv.positive;
          size = inv.size;
          fifo = inv.fifo;
          held = inv.held;
          room = omega (arith, up, inv.room);
          order = inv.order;
          producer_fact = ProducerFact-later w.producer _ _ _ _ _ up inv.producer_fact;
          consumer_fact = omega (arith, next, e);
        },
      )
  pop-Kept (popped r) young fact = (rest, with_consumer (popped r) fact)
  pop-Kept fault young fact = absurd fact
