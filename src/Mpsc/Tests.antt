-- ===== src/Mpsc/Tests.antt =====
-- Runs of the mailbox, and its theorems at concrete inputs.
use aetherflow.Base.{
  ℕ, zero, suc, ◌%◌, ◌≤◌, ◌≡◌, ◌≢◌, refl, false, none, some, List, [], ◌∷◌, ◌++◌, arith, length,
  ltb,
}
use aetherflow.Base.Words.{next_power_of_two}
use aetherflow.Errors.{closed, ok, err}
use aetherflow.Mailbox
use aetherflow.Mailbox.{
  Op, send, recv, ask_empty, of_send, of_recv, of_empty, of_drop, answer, try_send, try_recv, new,
}
use aetherflow.Mpsc.{
  Queue, Sending, Receiving, run_enqueue, run_dequeue, enqueue_step, dequeue_step, after_seq,
  after_head, check, uninit,
}
use aetherflow.Mpsc
use aetherflow.Mpsc.Ends.{channel, is_empty, drop_receiver, drain, producers_alive}
use aetherflow.Mpsc.Refine.{serve, serve-channel}
use aetherflow.Mpsc.Lossy.{Loses, one_slot-Loses}
use aetherflow.Mpsc.Channel.{channel-Holds}
use aetherflow.Mpsc.Invariant.{Holds, after_send-Holds}
use aetherflow.Mpsc.Teardown.{drain_lem, producers_alive-use_ends, use_ends, live, clone, drop}
use aetherflow.Mpsc.Threads.{
  World, Reach, begin, later, start, call_send, send_next, call_recv, recv_next, send_move,
  recv_move, after_ok, after_return, update,
}
use aetherflow.Mpsc.Threads.Invariant.{IsYoung}
use aetherflow.Mpsc.Threads.Safety.{fifo_in_any_order, one_writer, reader_alone, no_fault}

abbrev calls : List (Op ℕ)
calls = send 1 ∷ send 2 ∷ recv ∷ ask_empty ∷ recv ∷ recv ∷ Op.drop_receiver ∷ send 3 ∷ []

serve_run :
    serve (channel 3) calls
    ≡ of_send (some (ok tt))
      ∷ of_send (some (ok tt))
      ∷ of_recv (some (some 1))
      ∷ of_empty (some false)
      ∷ of_recv (some (some 2))
      ∷ of_recv (some none)
      ∷ of_drop
      ∷ of_send (some (err (closed 3)))
      ∷ []
unfolding serve channel next_power_of_two Mpsc.try_send Mpsc.try_recv is_empty drop_receiver
serve_run = refl

serve-channel_example :
    serve (channel 3) calls ≡ Mailbox.serve (Mailbox.new (next_power_of_two 3)) calls
serve-channel_example = serve-channel 3 calls (omega arith) (omega arith)

one_slot-Loses_example : Loses {T = ℕ} (channel 1) 7 8
one_slot-Loses_example = one_slot-Loses 1 7 8 (omega arith)

-- Sender 0 calls `try_send(7)` on a channel of two slots and takes four steps: it has reserved the
-- first position. Sender 1 then takes as many for `try_send(8)`.
abbrev sends : ℕ → ℕ → World ℕ → World ℕ
sends zero i w = w
sends (suc n) i w = send_move i false (sends n i w)

sends-Reach : (n i : ℕ) {w : World ℕ} → Reach 2 w → Reach 2 (sends n i w)
sends-Reach zero i r = r
sends-Reach (suc n) i r = later (sends-Reach n i r) (send_next i false)

abbrev call : ℕ → ℕ → World ℕ → World ℕ
call i x w = record w { sender = update w.sender i (check x) }

abbrev first : World ℕ
first = sends 4 0 (call 0 7 (start 2))

abbrev both : World ℕ
both = sends 4 1 (call 1 8 first)

both-Reach : Reach 2 both
unfolding start send_move
both-Reach =
    sends-Reach 4 1
      (later (sends-Reach 4 0 (later begin (call_send 0 7 after_ok))) (call_send 1 8 after_ok))

both_reserved : both.reserved ≡ 7 ∷ 8 ∷ []
unfolding start channel next_power_of_two send_move enqueue_step after_seq
both_reserved = refl

both-IsYoung : IsYoung (next_power_of_two 2) both
unfolding next_power_of_two
both-IsYoung = rw both_reserved (omega arith)

fifo_in_any_order_example :
    (pending : List ℕ) × (both.reserved ≡ both.delivered ++ pending)
    × (length pending ≤ next_power_of_two 2)
fifo_in_any_order_example = fifo_in_any_order 2 (omega arith) (omega arith) both-IsYoung both-Reach

one_writer_example : ◌≡◌ {A = ℕ} 1 1
unfolding start channel next_power_of_two send_move enqueue_step after_seq
one_writer_example =
    one_writer 2 (omega arith) (omega arith) both-IsYoung both-Reach 1 1 1 1 refl refl refl

-- Sender 0 has published its message, sender 1 has reserved the second position, and the receiver
-- has claimed the first.
abbrev published : World ℕ
published = sends 2 0 both

abbrev receiving : World ℕ
receiving =
    recv_move false
      (recv_move false (recv_move false (record published { receiver = Receiving.load })))

receiving-Reach : Reach 2 receiving
unfolding start channel next_power_of_two send_move enqueue_step after_seq recv_move
receiving-Reach =
    later
      (later
        (later (later (sends-Reach 2 0 both-Reach) (call_recv (after_return none) refl))
          (recv_next false))
        (recv_next false))
      (recv_next false)

receiving-IsYoung : IsYoung (next_power_of_two 2) receiving
unfolding start channel next_power_of_two send_move enqueue_step after_seq recv_move
receiving-IsYoung = omega arith

reader_alone_example : 0 % next_power_of_two 2 ≢ 1 % next_power_of_two 2
unfolding start channel next_power_of_two send_move enqueue_step after_seq recv_move dequeue_step
    after_head
reader_alone_example =
    reader_alone 2 (omega arith) (omega arith) receiving-IsYoung receiving-Reach 1 0 1 refl refl

no_fault_example :
    (both.receiver ≢ uninit)
    × (both.receiver ≢ Receiving.out_of_range)
    × ((i : ℕ) → both.sender i ≢ Sending.out_of_range)
no_fault_example = no_fault 2 (omega arith) (omega arith) both-IsYoung both-Reach

-- Two messages in a queue of four slots.
abbrev two_items : Queue ℕ
two_items = (Mpsc.try_send (Mpsc.try_send (channel 3) 1).0 2).0

two_items-Holds : Holds (next_power_of_two 3) 0 (1 ∷ 2 ∷ []) two_items
unfolding channel next_power_of_two Mpsc.try_send
two_items-Holds =
    after_send-Holds
      (after_send-Holds (channel-Holds 3 (omega arith) (omega arith)) 1 (omega arith)) 2
      (omega arith)

drain_lem_example : drain 3 two_items ≡ some (1 ∷ 2 ∷ [])
drain_lem_example = drain_lem 3 (1 ∷ 2 ∷ []) (omega arith) two_items-Holds

-- One sender is cloned, then both are dropped.
producers_alive-use_ends_example :
    producers_alive (use_ends (channel {T = ℕ} 3) (clone ∷ drop ∷ drop ∷ []))
    ≡ ltb 0 (live 1 (clone ∷ drop ∷ drop ∷ []))
unfolding channel
producers_alive-use_ends_example =
    producers_alive-use_ends 1 (channel 3) (clone ∷ drop ∷ drop ∷ []) refl (omega arith)
      (omega arith)
