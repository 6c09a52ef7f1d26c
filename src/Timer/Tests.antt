-- ===== src/Timer/Tests.antt =====
-- The timer's theorems at a concrete heap: a tick every 5, and a message at the same deadline.
use aetherflow.Base.{ℕ, ◌≡◌, refl, inl, inr, false, some, [], ◌∷◌, arith}
use aetherflow.Timer.{
  once, every, Entry, mailbox_full, TimerState, send_after, push, run_fire, fire_due,
}
use aetherflow.Base.{ℕ, List, length, ◌≤◌, ◌+◌}
use aetherflow.Timer.{delivered, send_every, schedule}
use aetherflow.Timer.Moves.{
  Move, calls, fires, sends_after, sends_every, cancels, do_call, do_calls, do_move, do_moves,
  no_timers, sent_by,
}
use aetherflow.Timer.Sorted.{do_moves-IsSorted}
use aetherflow.Timer.OneShot.{send_after-AtMostOnce}
use aetherflow.Timer.Order.{IsSorted}
use aetherflow.Timer.Due.{due}
use aetherflow.Timer.Wake.{wake, OnTime, wake-OnTime}

abbrev tick : Entry ℕ
tick = record { deadline = 10; seq = 0; handle = 0; fire = every 5 0 (λ k. k) }

abbrev two_timers : TimerState ℕ
two_timers = record {
  heap = tick ∷ record { deadline = 10; seq = 1; handle = 1; fire = once (some 42) } ∷ [];
  seq = 2;
  cancelled = false ∷ false ∷ [];
  sent = [];
}

abbrev after_tick : TimerState ℕ
after_tick = record {
  heap =
      record { deadline = 10; seq = 1; handle = 1; fire = once (some 42) }
      ∷ record { deadline = 16; seq = 0; handle = 0; fire = every 5 1 (λ k. k) }
      ∷ [];
  seq = 2;
  cancelled = false ∷ false ∷ [];
  sent = [];
}

tick_fires : fire_due two_timers 10 mailbox_full 11 (λ s. s) ≡ some after_tick
unfolding fire_due push run_fire
tick_fires = refl

-- A periodic timer fires twice before it is cancelled, the second time into a full mailbox.
abbrev ticking : List (Move ℕ)
ticking =
    calls (sends_every 0 5 (λ k. 100 + k))
    ∷ fires 5 delivered 6 (sends_after 6 4 7 ∷ [])
    ∷ fires 12 mailbox_full 13 []
    ∷ []

abbrev later_on : List (Move ℕ)
later_on =
    fires 20 delivered 21 (cancels 1 ∷ [])
    ∷ fires 30 delivered 31 []
    ∷ fires 40 delivered 41 []
    ∷ []

ticked_once : sent_by 0 (do_moves no_timers ticking).sent ≡ 1
unfolding do_moves do_move do_calls do_call send_after send_every schedule push fire_due run_fire
ticked_once = refl

send_after-AtMostOnce_example :
    sent_by
      (send_after
        (do_moves no_timers ticking)
        14
        1
        (length (do_moves no_timers ticking).cancelled, 9)).1
      (do_moves (do_call (do_moves no_timers ticking) (sends_after 14 1 9)) later_on).sent
    ≤ 1
send_after-AtMostOnce_example = send_after-AtMostOnce ticking 14 1 9 later_on

-- Two timers of one deadline, and a periodic one between their rounds.
abbrev waiting : TimerState (ℕ × ℕ)
waiting = record {
  heap =
      record { deadline = 10; seq = 0; handle = 0; fire = every 5 0 (λ k. (0, k)) }
      ∷ record { deadline = 10; seq = 1; handle = 1; fire = once (some (1, 42)) }
      ∷ [];
  seq = 2;
  cancelled = false ∷ false ∷ [];
  sent = [];
}

do_moves-IsSorted_example : IsSorted (do_moves waiting later_on).heap
do_moves-IsSorted_example =
    do_moves-IsSorted waiting later_on ((inr (refl, omega arith), tt), (tt, tt))

-- At 10 both timers are due; the periodic one goes back for 16, and a third one is not due.
abbrev with_third : TimerState (ℕ × ℕ)
with_third = record waiting {
  heap =
      record { deadline = 10; seq = 0; handle = 0; fire = every 5 0 (λ k. (0, k)) }
      ∷ record { deadline = 10; seq = 1; handle = 1; fire = once (some (1, 42)) }
      ∷ record { deadline = 30; seq = 2; handle = 2; fire = once (some (2, 43)) }
      ∷ [];
}

wake-OnTime_example :
    OnTime 10 with_third
      (wake 10 (λ k. delivered) (λ k. 11 + k) (λ k s. s) (due 10 with_third.heap + 1) 0 with_third)
wake-OnTime_example =
    wake-OnTime 10 (λ k. delivered) (λ k. 11 + k) with_third (λ k. omega arith)
      ((inr (refl, omega arith), (inl (omega arith), tt)), ((inl (omega arith), tt), (tt, tt)))
      (omega arith, (tt, (tt, tt)))
