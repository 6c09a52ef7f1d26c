-- ===== src/Mpsc/Teardown.antt =====
-- The counters of a mailbox, the count of its senders, and the drop of the queue.
use aetherflow.Base.{ℕ, zero, suc, ◌+◌, ◌-◌, ◌<◌, ◌≡◌, some, List, [], ◌∷◌, arith, length, ltb}
use aetherflow.Base.Words.{word}
use aetherflow.Mpsc.{Queue}
use aetherflow.Mpsc.Ends.{drain, depth, clone_sender, drop_sender, producers_alive}
use aetherflow.Mpsc.Invariant.{Holds, after_recv-Holds}
use aetherflow.Mpsc.Single.{recv_empty, recv_first}

module _ {T : Type 0} where
  -- Dropping a queue drops exactly the messages that were not received, oldest first; one round
  -- more than there are messages is enough.
  pub drain_lem :
      (fuel : ℕ) {cap h : ℕ} (items : List T) {q : Queue T}
      → length items < fuel
      → Holds cap h items q
      → drain fuel q ≡ some items
  unfolding drain
  drain_lem zero items lt v = elim lt [ ]
  drain_lem (suc fuel) [] lt v = ground (arith, recv_empty v)
  drain_lem (suc fuel) (x ∷ rest) lt v =
      ground (arith, recv_first x rest v, drain_lem fuel rest (omega arith) (after_recv-Holds v))

  -- While fewer than 2^64 messages have been sent, the depth is the number of messages held.
  pub depth_lem :
      {cap h : ℕ} {items : List T} {q : Queue T}
      → Holds cap h items q
      → h + length items < word
      → depth q ≡ length items
  unfolding depth
  depth_lem v small = omega (arith, v.tail, v.head)

-- The life of the senders: each is a clone of a live one, and is dropped once.
pub data EndOp : Type 0 where
  clone : EndOp
  drop : EndOp

-- How many senders are live after the calls, from `n` on.
pub live : ℕ → List EndOp → ℕ
live n [] = n
live n (clone ∷ ops) = live (n + 1) ops
live n (drop ∷ ops) = live (n - 1) ops

-- Only a live sender is cloned or dropped, and there are never 2^64 of them.
abbrev pub IsPossible : ℕ → List EndOp → Type 0
IsPossible n [] = Unit
IsPossible n (clone ∷ ops) = (0 < n) × (n + 1 < word) × IsPossible (n + 1) ops
IsPossible n (drop ∷ ops) = (0 < n) × IsPossible (n - 1) ops

module _ {ℓ} {T : Type ℓ} where
  pub use_ends : Queue T → List EndOp → Queue T
  use_ends q [] = q
  use_ends q (clone ∷ ops) = use_ends (clone_sender q) ops
  use_ends q (drop ∷ ops) = use_ends (drop_sender q) ops

  -- The receiver sees a producer exactly as long as a sender is live.
  pub producers_alive-use_ends :
      (n : ℕ) (q : Queue T) (ops : List EndOp)
      → q.producers ≡ n
      → n < word
      → IsPossible n ops
      → producers_alive (use_ends q ops) ≡ ltb 0 (live n ops)
  unfolding use_ends live producers_alive clone_sender drop_sender
  producers_alive-use_ends n q [] e small p = rw e
  producers_alive-use_ends n q (clone ∷ ops) e small (pos, fits, p) =
      producers_alive-use_ends (n + 1) (clone_sender q) ops (omega arith) fits p
  producers_alive-use_ends n q (drop ∷ ops) e small (pos, p) =
      producers_alive-use_ends (n - 1) (drop_sender q) ops (omega arith) (omega arith) p
