-- ===== src/Spsc/Invariant.antt =====
-- core/src/spsc.rs: what holds between any two steps of the producer and the consumer.
use aetherflow.Base.{ℕ, suc, ◌+◌, ◌≤◌, ◌<◌, ◌≡◌, ap, ◌∙◌, List, ◌++◌, arith, length, length-append}
use aetherflow.Spsc.{
  Pushing, load_tail, load_head, write_slot, store_tail, pushed, Popping, own_head, see_tail,
  read_slot, store_head, popped, fault, World,
}
use aetherflow.Spsc.Slots.{Holds}

module _ {T : Type 0} where
  -- The producer, with the number of values written: only it moves the tail.
  abbrev pub ProducerFact : Pushing T → (written tail head cap : ℕ) → Type 0
  ProducerFact (load_tail x) n tail head cap = n ≡ tail
  ProducerFact (load_head x t) n tail head cap = (n ≡ tail) × (t ≡ tail)
  ProducerFact (write_slot x t) n tail head cap = (n ≡ tail) × (t ≡ tail) × (tail < head + cap)
  ProducerFact (store_tail t) n tail head cap = (n ≡ suc tail) × (t ≡ tail)
  ProducerFact (pushed r) n tail head cap = n ≡ tail

  -- The consumer, with the number of values taken: only it moves the head.
  abbrev pub ConsumerFact : Popping T → (taken head tail : ℕ) → Type 0
  ConsumerFact own_head m head tail = m ≡ head
  ConsumerFact (see_tail h) m head tail = (m ≡ head) × (h ≡ head)
  ConsumerFact (read_slot h) m head tail = (m ≡ head) × (h ≡ head) × (head < tail)
  ConsumerFact (store_head h x) m head tail = (m ≡ suc head) × (h ≡ head)
  ConsumerFact (popped r) m head tail = m ≡ head
  ConsumerFact fault m head tail = ⊥

  pub record Inv (w : World T) (rest : List T) : Type 0 where
    pub positive : 0 < w.ring.cap
    pub size : length w.ring.slots ≡ w.ring.cap
    pub fifo : w.written ≡ w.taken ++ rest
    pub held : Holds w.ring.slots w.ring.cap (length w.taken) rest
    pub room : length w.written ≤ w.ring.head + w.ring.cap
    pub order : length w.taken ≤ w.ring.tail
    pub producer_fact :
        ProducerFact w.producer (length w.written) w.ring.tail w.ring.head w.ring.cap
    pub consumer_fact : ConsumerFact w.consumer (length w.taken) w.ring.head w.ring.tail

  pub ProducerFact-tail :
      (p : Pushing T) (n tail head cap : ℕ) → ProducerFact p n tail head cap → tail ≤ n
  ProducerFact-tail (load_tail x) n tail head cap h = omega (arith, h)
  ProducerFact-tail (load_head x t) n tail head cap h = omega (arith, h)
  ProducerFact-tail (write_slot x t) n tail head cap h = omega (arith, h)
  ProducerFact-tail (store_tail t) n tail head cap h = omega (arith, h)
  ProducerFact-tail (pushed r) n tail head cap h = omega (arith, h)

  pub ConsumerFact-head : (c : Popping T) (m head tail : ℕ) → ConsumerFact c m head tail → head ≤ m
  ConsumerFact-head own_head m head tail h = omega (arith, h)
  ConsumerFact-head (see_tail k) m head tail h = omega (arith, h)
  ConsumerFact-head (read_slot k) m head tail h = omega (arith, h)
  ConsumerFact-head (store_head k x) m head tail h = omega (arith, h)
  ConsumerFact-head (popped r) m head tail h = omega (arith, h)
  ConsumerFact-head fault m head tail h = absurd h

  -- The other thread's move changes neither fact.
  pub ProducerFact-later :
      (p : Pushing T) (n tail head head' cap : ℕ)
      → head ≤ head'
      → ProducerFact p n tail head cap
      → ProducerFact p n tail head' cap
  ProducerFact-later (load_tail x) n tail head head' cap le h = h
  ProducerFact-later (load_head x t) n tail head head' cap le h = h
  ProducerFact-later (write_slot x t) n tail head head' cap le (e, e', lt) =
      (e, e', omega (arith, lt, le))
  ProducerFact-later (store_tail t) n tail head head' cap le h = h
  ProducerFact-later (pushed r) n tail head head' cap le h = h

  pub ConsumerFact-later :
      (c : Popping T) (m head tail tail' : ℕ)
      → tail ≤ tail'
      → ConsumerFact c m head tail
      → ConsumerFact c m head tail'
  ConsumerFact-later own_head m head tail tail' le h = h
  ConsumerFact-later (see_tail k) m head tail tail' le h = h
  ConsumerFact-later (read_slot k) m head tail tail' le (e, e', lt) = (e, e', omega (arith, lt, le))
  ConsumerFact-later (store_head k x) m head tail tail' le h = h
  ConsumerFact-later (popped r) m head tail tail' le h = h
  ConsumerFact-later fault m head tail tail' le h = h

  pub length-fifo :
      (w : World T) (rest : List T) → Inv w rest → length w.written ≡ length w.taken + length rest
  length-fifo w rest inv = ap (λ l. length l) inv.fifo ∙ length-append w.taken rest
