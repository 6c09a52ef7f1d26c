-- ===== src/Timer/Moves.antt =====
-- core/src/timer.rs: what the users of the timer and its thread do, in one order. Each message carries
-- the number of the handle of its timer, so that the messages sent tell which timers they came from.
use aetherflow.Base.{ℕ, suc, Option, none, some, List, [], ◌∷◌, ◌==◌, if◌then◌else◌, length}
use aetherflow.Timer.{Delivery, TimerState, send_after, send_every, cancel, fire_due}

-- A call by a user.
pub data Call (P : Type 0) : Type 0 where
  sends_after : (now delay : ℕ) → P → Call P
  sends_every : (now interval : ℕ) → (ℕ → P) → Call P
  cancels : (handle : ℕ) → Call P

-- A call, or a round of the thread, with the calls that come while the lock is released for the firing.
pub data Move (P : Type 0) : Type 0 where
  calls : Call P → Move P
  fires : (now : ℕ) → Delivery → (later : ℕ) → List (Call P) → Move P

module _ {P : Type 0} where
  abbrev pub after_send_every :
      TimerState (ℕ × P) → Option (TimerState (ℕ × P) × ℕ) → TimerState (ℕ × P)
  after_send_every s none = s
  after_send_every s (some (s', handle)) = s'

  unfoldable pub do_call : TimerState (ℕ × P) → Call P → TimerState (ℕ × P)
  do_call s (sends_after now delay p) = (send_after s now delay (length s.cancelled, p)).0
  do_call s (sends_every now interval make) =
      after_send_every s (send_every s now interval (λ k. (length s.cancelled, make k)))
  do_call s (cancels handle) = cancel s handle

  unfoldable pub do_calls : TimerState (ℕ × P) → List (Call P) → TimerState (ℕ × P)
  do_calls s [] = s
  do_calls s (c ∷ cs) = do_calls (do_call s c) cs

  abbrev pub after_round : TimerState (ℕ × P) → Option (TimerState (ℕ × P)) → TimerState (ℕ × P)
  after_round s none = s
  after_round s (some s') = s'

  unfoldable pub do_move : TimerState (ℕ × P) → Move P → TimerState (ℕ × P)
  unfolding do_calls
  do_move s (calls c) = do_call s c
  do_move s (fires now d later during) =
      after_round s (fire_due s now d later (λ x. do_calls x during))

  unfoldable pub do_moves : TimerState (ℕ × P) → List (Move P) → TimerState (ℕ × P)
  do_moves s [] = s
  do_moves s (m ∷ ms) = do_moves (do_move s m) ms

  abbrev pub no_timers : TimerState (ℕ × P)
  no_timers = record { heap = []; seq = 0; cancelled = []; sent = [] }

  -- How many of the messages came from the timer of a handle.
  abbrev pub sent_by : ℕ → List (ℕ × P) → ℕ
  sent_by h [] = 0
  sent_by h (m ∷ ms) = let rest = sent_by h ms in if m.0 == h then suc rest else rest
