-- ===== src/Mpsc/Refine.antt =====
-- The mailbox of core/src/mpsc.rs answers every sequence of calls as a bounded first-in first-out
-- queue does.
use mathlib.Core.Path.{ap₂}
use aetherflow.Base.{
  ℕ, suc, ◌≤◌, ◌^◌, ◌≡◌, refl, Bool, true, false, Option, none, some, List, [], ◌∷◌, arith, length,
  inl, inr, Bool-cases, ltb,
}
use aetherflow.Base.Words.{next_power_of_two}
use aetherflow.Errors.{ok, err, Result, TrySendError}
use aetherflow.Mailbox
use aetherflow.Mailbox.{
  Mailbox, Op, Reply, send, recv, ask_empty, of_send, of_recv, of_empty, of_drop,
}
use aetherflow.Mpsc.{Queue, Sending, Receiving, sent, refused, received, try_send, try_recv}
use aetherflow.Mpsc.Calls.{try_send-closed}
use aetherflow.Mpsc.Channel.{channel-Holds}
use aetherflow.Mpsc.Ends
use aetherflow.Mpsc.Ends.{channel, is_empty}
use aetherflow.Mpsc.Invariant.{Holds, after_send-Holds, after_recv-Holds}
use aetherflow.Mpsc.Single.{
  send-room, send_no_room, recv_empty, recv_first, is_empty-nil, is_empty-cons,
}

module _ {T : Type 0} where
  -- The answers of the code: `none` for a call that has not returned.
  abbrev pub send_reply : Sending T → Option (Result (Unit {0}) (TrySendError T))
  send_reply sent = some (ok tt)
  send_reply (refused e) = some (err e)
  send_reply _ = none

  abbrev pub recv_reply : Receiving T → Option (Option T)
  recv_reply (received r) = some r
  recv_reply _ = none

  unfoldable pub answer : Queue T → Op T → Queue T × Reply T
  answer q (send x) = let (q', p) = try_send q x in (q', of_send (send_reply p))
  answer q recv = let (q', p) = try_recv q in (q', of_recv (recv_reply p))
  answer q ask_empty = (q, of_empty (is_empty q))
  answer q Op.drop_receiver = (Ends.drop_receiver q, of_drop)

  unfoldable pub serve : Queue T → List (Op T) → List (Reply T)
  unfolding answer
  serve q [] = []
  serve q (op ∷ ops) = let (q', r) = answer q op in r ∷ serve q' ops

-- `q` stands for the abstract mailbox `m`.
pub record Represents {T : Type 0} (m : Mailbox T) (q : Queue T) : Type 0 where
  pub at_head : ℕ
  pub holds : Holds m.cap at_head m.items q
  pub flag : q.consumer_alive ≡ m.alive

module _ {T : Type 0} where
  -- What a call does to the queue and to the mailbox, side by side.
  record Agrees (concrete : Queue T × Reply T) (abstract : Mailbox T × Reply T) : Type 0 where
    state : Represents abstract.0 concrete.0
    reply : concrete.1 ≡ abstract.1

  abbrev mailbox : ℕ → List T → Bool → Mailbox T
  mailbox cap items alive = record { cap = cap; items = items; alive = alive }

  send-Agrees :
      (cap : ℕ) (items : List T) (alive : Bool) (x : T) {q : Queue T}
      → Represents (mailbox cap items alive) q
      → Agrees (answer q (send x)) (Mailbox.answer (mailbox cap items alive) (send x))
  unfolding answer Mailbox.answer
  send-Agrees cap items true x {q} r = elim (Bool-cases (ltb (length items) cap)) [
    | inl room ↦
        rw (room, send-room r.holds x r.flag (ground arith))
          (record {
            state = record {
              at_head = r.at_head;
              holds = after_send-Holds r.holds x (ground arith);
              flag = r.flag;
            };
            reply = refl;
          })
    | inr no_room ↦
        rw (no_room, send_no_room r.holds x r.flag (ground (arith, r.holds.room)))
          (record { state = r; reply = refl })
  ]
  send-Agrees cap items false x {q} r =
      rw (try_send-closed q x r.flag) (record { state = r; reply = refl })

  recv-Agrees :
      (cap : ℕ) (items : List T) (alive : Bool) {q : Queue T}
      → Represents (mailbox cap items alive) q
      → Agrees (answer q recv) (Mailbox.answer (mailbox cap items alive) recv)
  unfolding answer Mailbox.answer
  recv-Agrees cap [] alive r = rw (recv_empty r.holds) (record { state = r; reply = refl })
  recv-Agrees cap (x ∷ rest) alive r = rw (recv_first x rest r.holds) (record {
    state = record { at_head = suc r.at_head; holds = after_recv-Holds r.holds; flag = r.flag };
    reply = refl;
  })

  empty-Agrees :
      (cap : ℕ) (items : List T) (alive : Bool) {q : Queue T}
      → Represents (mailbox cap items alive) q
      → Agrees (answer q ask_empty) (Mailbox.answer (mailbox cap items alive) ask_empty)
  unfolding answer Mailbox.answer
  empty-Agrees cap [] alive r = rw (is_empty-nil r.holds) (record { state = r; reply = refl })
  empty-Agrees cap (x ∷ rest) alive r =
      rw (is_empty-cons x rest r.holds) (record { state = r; reply = refl })

  drop_receiver-Holds :
      {cap h : ℕ} {items : List T} {q : Queue T}
      → Holds cap h items q
      → Holds cap h items (Ends.drop_receiver q)
  unfolding Ends.drop_receiver
  drop_receiver-Holds v = record {
    power = v.power;
    two = v.two;
    room = v.room;
    mask = v.mask;
    size = v.size;
    tail = v.tail;
    head = v.head;
    stored = v.stored;
    free = v.free;
  }

  answer-Agrees :
      (op : Op T) {m : Mailbox T} {q : Queue T}
      → Represents m q
      → Agrees (answer q op) (Mailbox.answer m op)
  unfolding answer Mailbox.answer Ends.drop_receiver
  answer-Agrees (send x) {m} r = send-Agrees m.cap m.items m.alive x r
  answer-Agrees recv {m} r = recv-Agrees m.cap m.items m.alive r
  answer-Agrees ask_empty {m} r = empty-Agrees m.cap m.items m.alive r
  answer-Agrees Op.drop_receiver r = record {
    state = record { at_head = r.at_head; holds = drop_receiver-Holds r.holds; flag = refl };
    reply = refl;
  }

  -- No sequence of calls tells the queue from the mailbox that it stands for.
  pub serve_refines :
      (ops : List (Op T)) {m : Mailbox T} {q : Queue T}
      → Represents m q
      → serve q ops ≡ Mailbox.serve m ops
  unfolding serve Mailbox.serve
  serve_refines [] r = refl
  serve_refines (op ∷ ops) r =
      let a = answer-Agrees op r in ap₂ ◌∷◌ a.reply (serve_refines ops a.state)

  -- Sends and receives on a new channel of capacity at least two, in any order, return what a
  -- bounded first-in first-out queue returns, the capacity being the next power of two.
  pub serve-channel :
      (capacity : ℕ) (ops : List (Op T))
      → 2 ≤ capacity
      → capacity ≤ 2 ^ 63
      → serve (channel capacity) ops ≡ Mailbox.serve (Mailbox.new (next_power_of_two capacity)) ops
  unfolding Mailbox.new channel
  serve-channel capacity ops big small =
      serve_refines ops
        (record { at_head = 0; holds = channel-Holds capacity big small; flag = refl })
