-- ===== src/Mpsc/Threads.antt =====
-- core/src/mpsc.rs under concurrency: any number of senders and the one receiver take their atomic
-- steps in any order. The world keeps two logs beside the queue: the messages whose position a
-- sender has reserved, in that order, and those that the receiver has returned.
pub mod Invariant
mod Facts
mod Senders
mod Reserve
mod Writes
mod Receiver
mod Release
mod Moves
pub mod Safety
use aetherflow.Base.{
  ℕ, ◌+◌, ◌≤◌, ◌<◌, ◌^◌, ◌≡◌, Bool, false, true, Option, none, some, List, [], ◌∷◌, ◌++◌,
  if◌then◌else◌, ◌==◌,
}
use aetherflow.Errors.{TrySendError}
use aetherflow.Mpsc.{
  Queue, Sending, Receiving, check, reserve, write, sent, refused, release, received, enqueue_step,
  dequeue_step,
}
use aetherflow.Mpsc.Ends.{channel, drop_receiver}

abbrev pub update {ℓ} : {A : Type ℓ} → (ℕ → A) → ℕ → A → ℕ → A
update f i a j = if i == j then a else f j

pub record World (T : Type 0) : Type 0 where
  pub queue : Queue T
  pub sender : ℕ → Sending T
  pub receiver : Receiving T
  pub reserved : List T
  pub delivered : List T

module _ {T : Type 0} where
  -- A thread may call `try_send` once its last call has returned.
  pub data Idle : Sending T → Type 0 where
    after_ok : Idle sent
    after_err : (e : TrySendError T) → Idle (refused e)

  pub data Waiting : Receiving T → Type 0 where
    after_return : (r : Option T) → Waiting (received r)

  -- The exchange that succeeds takes a sender from `reserve` to `write`.
  abbrev pub log_reserved : Sending T → Sending T → List T → List T
  log_reserved (reserve pos x) (write pos' y) l = l ++ (x ∷ [])
  log_reserved _ _ l = l

  abbrev pub log_delivered : Receiving T → List T → List T
  log_delivered (release pos x) l = l ++ (x ∷ [])
  log_delivered _ l = l

  -- The next atomic access of sender `i`, which stands at `p`.
  unfoldable pub send_from : ℕ → Bool → Sending T → World T → World T
  send_from i weak p w =
      let (q, p') = enqueue_step weak w.queue p in
      record w { queue = q; sender = update w.sender i p'; reserved = log_reserved p p' w.reserved }

  unfoldable pub send_move : ℕ → Bool → World T → World T
  unfolding send_from
  send_move i weak w = send_from i weak (w.sender i) w

  -- The next atomic access of the receiver, which stands at `r`.
  unfoldable pub recv_from : Bool → Receiving T → World T → World T
  recv_from weak r w =
      let (q, r') = dequeue_step weak w.queue r in
      record w { queue = q; receiver = r'; delivered = log_delivered r w.delivered }

  unfoldable pub recv_move : Bool → World T → World T
  unfolding recv_from
  recv_move weak w = recv_from weak w.receiver w

  pub data Step (w : World T) : World T → Type 0 where
    call_send :
        (i : ℕ) (x : T)
        → Idle (w.sender i)
        → Step w (record w { sender = update w.sender i (check x) })
    send_next : (i : ℕ) (weak : Bool) → Step w (send_move i weak w)
    call_recv :
        Waiting w.receiver
        → w.queue.consumer_alive ≡ true
        → Step w (record w { receiver = Receiving.load })
    recv_next : (weak : Bool) → Step w (recv_move weak w)
    hang_up : Waiting w.receiver → Step w (record w { queue = drop_receiver w.queue })

  -- No call has been made yet.
  unfoldable pub start : ℕ → World T
  start capacity = record {
    queue = channel capacity;
    sender = λ _. sent;
    receiver = received none;
    reserved = [];
    delivered = [];
  }

  pub data Reach (capacity : ℕ) : World T → Type 0 where
    begin : Reach capacity (start capacity)
    later : {w w' : World T} → Reach capacity w → Step w w' → Reach capacity w'
