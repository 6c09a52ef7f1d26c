-- ===== src/Mpsc/Ends.antt =====
-- core/src/mpsc.rs: the construction of a channel, its two ends, and what they observe.
use aetherflow.Base.{
  ℕ, zero, suc, ◌+◌, ◌-◌, ◌%◌, max, Bool, true, false, Option, none, some, List, [], ◌∷◌, ltb,
}
use aetherflow.Base.Words.{
  word, wrapping_add, wrapping_sub, is_negative, saturating_sub, next_power_of_two,
}
use aetherflow.Mpsc.{Slot, Queue, Receiving, received, slot_at, try_recv}

-- What a return of `dequeue` means to the loop of `Drop for Queue`: an item, the end, or a call
-- that has not returned.
pub data Drained {ℓ} (T : Type ℓ) : Type ℓ where
  item : T → Drained T
  finished : Drained T
  hung : Drained T

module _ {ℓ} {T : Type ℓ} where
  -- The slots `i`, `i + 1`, ... of a new buffer, each numbered by its index.
  abbrev pub slots_from : ℕ → ℕ → List (Slot T)
  slots_from zero i = []
  slots_from (suc n) i = record { seq = i; val = none } ∷ slots_from n (i + 1)

  -- `channel(capacity)`: one sender and the receiver.
  unfoldable pub channel : ℕ → Queue T
  channel capacity =
      let cap = next_power_of_two (max capacity 1) in
      record {
        buffer = slots_from cap 0;
        mask = cap - 1;
        enqueue_pos = 0;
        dequeue_pos = 0;
        producers = 1;
        consumer_alive = true;
      }

  -- `Sender::clone`
  unfoldable pub clone_sender : Queue T → Queue T
  clone_sender q = record q { producers = wrapping_add q.producers 1 }

  -- `Drop for Sender`
  unfoldable pub drop_sender : Queue T → Queue T
  drop_sender q = record q { producers = (q.producers + word - 1) % word }

  -- `Drop for Receiver`
  unfoldable pub drop_receiver : Queue T → Queue T
  drop_receiver q = record q { consumer_alive = false }

  -- `Receiver::producers_alive`
  unfoldable pub producers_alive : Queue T → Bool
  producers_alive q = ltb 0 q.producers

  -- `Queue::is_empty`, `Receiver::is_empty`; `none` is an access out of range.
  unfoldable pub is_empty : Queue T → Option Bool
  is_empty q = elim (slot_at q q.dequeue_pos) [
    | none ↦ none
    | some s ↦ some (is_negative (wrapping_sub s.seq (wrapping_add q.dequeue_pos 1)))
  ]

  -- `Sender::total_enqueued`, `Sender::total_dequeued`, `Sender::depth`
  unfoldable pub total_enqueued : Queue T → ℕ
  total_enqueued q = q.enqueue_pos

  unfoldable pub total_dequeued : Queue T → ℕ
  total_dequeued q = q.dequeue_pos

  unfoldable pub depth : Queue T → ℕ
  unfolding total_enqueued total_dequeued
  depth q = saturating_sub (total_enqueued q) (total_dequeued q)

  abbrev pub outcome : Receiving T → Drained T
  outcome (received (some x)) = item x
  outcome (received none) = finished
  outcome _ = hung

  -- `Drop for Queue`: `while self.dequeue().is_some() {}`, with the items that it drops.
  unfoldable pub drain : ℕ → Queue T → Option (List T)
  drain zero q = none
  drain (suc n) q =
      let (q', r) = try_recv q in
      let rest = drain n q' in
      elim (outcome r) [
        | item x ↦ elim rest [ none ↦ none | some xs ↦ some (x ∷ xs) ]
        | finished ↦ some []
        | hung ↦ none
      ]
