-- ===== src/Timer/Sorted.antt =====
-- core/src/timer.rs: the heap of timers stays in firing order.
use mathlib.Core.Path.{subst}
use aetherflow.Base.{ℕ, ◌≡◌, inl, inr, List, ◌∷◌, ltb, Bool-cases}
use aetherflow.Timer.{Entry, Delivery, TimerState, schedule, send_every, cancel}
use aetherflow.Timer.Order.{IsSorted, push-IsSorted, reschedule-IsSorted, send_after-IsSorted}
use aetherflow.Timer.Moves.{
  Call, sends_after, sends_every, cancels, Move, do_call, do_calls, do_moves,
}
use aetherflow.Timer.Handles.{do_calls-Keeps, do_moves-Keeps, fired_state, fired_back}

module _ {P : Type 0} where
  do_call-IsSorted :
      (s : TimerState (ℕ × P)) (c : Call P) → IsSorted s.heap → IsSorted (do_call s c).heap
  unfolding do_call send_every cancel schedule
  do_call-IsSorted s (sends_after now delay p) h = send_after-IsSorted s now delay _ 0 h
  do_call-IsSorted s (sends_every now interval make) h = elim (Bool-cases (ltb 0 interval)) [
    | inl y ↦ rw y (push-IsSorted _ s.heap h)
    | inr n ↦ rw n h
  ]
  do_call-IsSorted s (cancels handle) h = h

  fire-IsSorted :
      (s : TimerState (ℕ × P)) (e : Entry (ℕ × P)) (rest : List (Entry (ℕ × P))) (later : ℕ)
      (d : Delivery) (during : List (Call P))
      → s.heap ≡ e ∷ rest
      → IsSorted s.heap
      → IsSorted (fired_back s e rest later d during).heap
  fire-IsSorted s e rest later d during at h =
      let fired = fired_state s e rest later d in
      let after =
        do_calls-Keeps (λ x. IsSorted x.heap) do_call-IsSorted fired during
          (subst IsSorted at h).1 in
      reschedule-IsSorted (do_calls fired during) e _ _ after

  -- Whatever is scheduled and cancelled, by calls of any users, and whatever fires, also while other
  -- calls come in: a heap in firing order (by deadline, and by number within one) stays in it.
  pub do_moves-IsSorted :
      (s : TimerState (ℕ × P)) (ms : List (Move P))
      → IsSorted s.heap
      → IsSorted (do_moves s ms).heap
  do_moves-IsSorted =
      do_moves-Keeps (λ x. IsSorted x.heap) do_call-IsSorted
        (λ s e rest at h. (subst IsSorted at h).1)
        (λ s e rest later d during at live h. fire-IsSorted s e rest later d during at h)
