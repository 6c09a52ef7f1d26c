-- ===== src/Timer/OneShot.antt =====
-- core/src/timer.rs: how often a one-shot timer sends.
use mathlib.Core.Path.{subst}
use aetherflow.Base.{
  ℕ, suc, ◌+◌, ◌≤◌, ◌<◌, ◌≡◌, refl, ap, ◌≢◌, ◌⊎◌, inl, inr, true, false, Option, none, some, List,
  [], ◌∷◌, ◌++◌, arith, ℕ_discrete, ltb, ◌==◌, if◌then◌else◌, Bool-cases, length, length-set,
  length-append,
}
use aetherflow.Base.AllOf.{AllOf-weaken, AllOf}
use aetherflow.Timer.{
  Fire, once, every, Entry, Delivery, delivered, mailbox_full, actor_gone, TimerState, Ordering,
  less, equal, greater, cmp, push, schedule, send_after, send_every, cancel, run_fire, reschedule,
  is_cancelled, record_sent,
}
use aetherflow.Timer.Order.{place}
use aetherflow.Timer.Moves.{
  Call, sends_after, sends_every, cancels, Move, do_call, do_calls, do_moves, no_timers, sent_by,
}
use aetherflow.Timer.Handles.{
  Tags, IsOwned, AreOwned, push-AllOf, do_call-AreOwned, pop-AreOwned, fire-AreOwned,
  do_moves-AreOwned, do_calls-Keeps, do_moves-Keeps, fired_state, fired_back,
}
use aetherflow.Timer.Cancel.{run_fire-sent_by_ne}

module _ {P : Type 0} where
  abbrev IsOnce : Fire (ℕ × P) → Type 0
  IsOnce (once m) = Unit
  IsOnce (every interval k make) = ⊥

  -- Whether the timer has yet to send its message.
  abbrev waits : Fire (ℕ × P) → ℕ
  waits (once none) = 0
  waits (once (some m)) = 1
  waits (every interval k make) = 0

  abbrev pending : ℕ → ℕ → Fire (ℕ × P) → ℕ
  pending h k f = if k == h then waits f else 0

  abbrev waiting : ℕ → List (Entry (ℕ × P)) → ℕ
  waiting h [] = 0
  waiting h (e ∷ es) = pending h e.handle e.fire + waiting h es

  waiting-place :
      (h : ℕ) (o : Ordering) (e x : Entry (ℕ × P)) (xs rest : List (Entry (ℕ × P)))
      → waiting h rest ≡ pending h e.handle e.fire + waiting h xs
      → waiting h (place o e x xs rest) ≡ pending h e.handle e.fire + waiting h (x ∷ xs)
  waiting-place h less e x xs rest same = omega (arith, same)
  waiting-place h equal e x xs rest same = refl
  waiting-place h greater e x xs rest same = refl

  waiting-push :
      (h : ℕ) (e : Entry (ℕ × P)) (es : List (Entry (ℕ × P)))
      → waiting h (push e es) ≡ pending h e.handle e.fire + waiting h es
  unfolding push
  waiting-push h e [] = refl
  waiting-push h e (x ∷ xs) = waiting-place h (cmp e x) e x xs (push e xs) (waiting-push h e xs)

  pending-ne : (h k : ℕ) (f : Fire (ℕ × P)) → k ≢ h → pending h k f ≡ 0
  pending-ne h k f ne = ground (arith, ne)

  -- The timer of the handle is a one-shot, and sends at most one message, counting those it has sent.
  abbrev IsOneShot : ℕ → TimerState (ℕ × P) → Type 0
  IsOneShot h s =
      (h < length s.cancelled)
      × AllOf (λ e. e.handle ≡ h → IsOnce e.fire) s.heap
      × (sent_by h s.sent + waiting h s.heap ≤ 1)

  -- An entry of another handle goes into the heap.
  push-IsOneShot :
      (h : ℕ) (s : TimerState (ℕ × P)) (e : Entry (ℕ × P))
      → e.handle ≢ h
      → IsOneShot h s
      → IsOneShot h (record s { heap = push e s.heap })
  push-IsOneShot h s e ne (lt, all, few) =
      let same = waiting-push h e s.heap in
      let zero_pending = pending-ne h e.handle e.fire ne in
      (lt, push-AllOf _ e s.heap (λ q. absurd (ne q)) all, omega (arith, same, zero_pending, few))

  do_call-IsOneShot :
      (h : ℕ) (s : TimerState (ℕ × P)) (c : Call P) → IsOneShot h s → IsOneShot h (do_call s c)
  unfolding do_call send_after send_every cancel schedule
  do_call-IsOneShot h s (sends_after now delay p) (lt, all, few) =
      let n = length-append s.cancelled (false ∷ []) in
      push-IsOneShot h (record s { cancelled = s.cancelled ++ (false ∷ []) }) _
        (λ q. absurd (omega (arith, lt, q))) (omega (arith, n, lt), all, few)
  do_call-IsOneShot h s (sends_every now interval make) (lt, all, few) =
      elim (Bool-cases (ltb 0 interval)) [
        | inl y ↦
            let n = length-append s.cancelled (false ∷ []) in
            rw y (
              push-IsOneShot h (record s { cancelled = s.cancelled ++ (false ∷ []) }) _
                (λ q. absurd (omega (arith, lt, q))) (omega (arith, n, lt), all, few))
        | inr n ↦ rw n (lt, all, few)
      ]
  do_call-IsOneShot h s (cancels handle) (lt, all, few) =
      let n = length-set s.cancelled handle true in (omega (arith, n, lt), all, few)

  sent_by-snoc :
      (h : ℕ) (m : ℕ × P) (l : List (ℕ × P)) → sent_by h (l ++ (m ∷ [])) ≤ suc (sent_by h l)
  sent_by-snoc h m [] = ground arith
  sent_by-snoc h m (x ∷ l) = let more = sent_by-snoc h m l in ground (arith, more)

  record_sent-sent_by :
      (h : ℕ) (m : ℕ × P) (d : Delivery) (l : List (ℕ × P))
      → sent_by h (record_sent m d l) ≤ suc (sent_by h l)
  record_sent-sent_by h m delivered l = sent_by-snoc h m l
  record_sent-sent_by h m mailbox_full l = omega arith
  record_sent-sent_by h m actor_gone l = omega arith

  -- The firing of a one-shot uses up its message.
  run_fire-once :
      (h : ℕ) (f : Fire (ℕ × P)) (later : ℕ) (d : Delivery) (l : List (ℕ × P))
      → IsOnce f
      → (sent_by h (run_fire f later d l).2 ≤ sent_by h l + waits f)
        × ((run_fire f later d l).0 ≡ none)
  unfolding run_fire
  run_fire-once h (once none) later d l is_once = (omega arith, refl)
  run_fire-once h (once (some m)) later d l is_once =
      let one = record_sent-sent_by h m d l in (omega (arith, one), refl)
  run_fire-once h (every interval k make) later d l is_once = absurd is_once

  -- A firing, of this handle or of another one.
  run_fire-sent_by :
      (h k : ℕ) (f : Fire (ℕ × P)) (later : ℕ) (d : Delivery) (l : List (ℕ × P))
      → Tags k f
      → (k ≡ h → IsOnce f)
      → (sent_by h (run_fire f later d l).2 ≤ sent_by h l + pending h k f)
        × (((run_fire f later d l).0 ≡ none) ⊎ (k ≢ h))
  run_fire-sent_by h k f later d l tags shot = elim (ℕ_discrete k h) [
    | yes same ↦
        let (few, last) = run_fire-once h f later d l (shot same) in
        let all : pending h k f ≡ waits f = ground (arith, same) in
        (omega (arith, few, all), inl last)
    | no ne ↦
        let same = run_fire-sent_by_ne h k f later d l tags ne in (omega (arith, same), inr ne)
  ]

  reschedule-IsOneShot :
      (h : ℕ) (s : TimerState (ℕ × P)) (e : Entry (ℕ × P)) (next : Option ℕ) (f : Fire (ℕ × P))
      → (next ≡ none) ⊎ (e.handle ≢ h)
      → IsOneShot h s
      → IsOneShot h (reschedule s e next f)
  reschedule-IsOneShot h s e none f other shot = shot
  reschedule-IsOneShot h s e (some deadline) f (inl no_next) shot = absurd (cc no_next)
  reschedule-IsOneShot h s e (some deadline) f (inr ne) shot =
      elim (Bool-cases (is_cancelled s e.handle)) [
        | inl c ↦ rw (c, reschedule) shot
        | inr c ↦
            rw (c, reschedule)
              (push-IsOneShot h s (record e { deadline = deadline; fire = f }) ne shot)
      ]

  fire-IsOneShot :
      (h : ℕ) (s : TimerState (ℕ × P)) (e : Entry (ℕ × P)) (rest : List (Entry (ℕ × P))) (later : ℕ)
      (d : Delivery) (during : List (Call P))
      → s.heap ≡ e ∷ rest
      → AreOwned s
      → IsOneShot h s
      → IsOneShot h (fired_back s e rest later d during)
  fire-IsOneShot h s e rest later d during at owned (lt, all, few) =
      let ((own, tags), others) = subst (AllOf (IsOwned (length s.cancelled))) at owned.0 in
      let (shot, shots) = subst (AllOf (λ e. e.handle ≡ h → IsOnce e.fire)) at all in
      let counted = ap (λ l. waiting h l) at in
      let fired = fired_state s e rest later d in
      let (spent, ends) = run_fire-sent_by h e.handle e.fire later d s.sent tags shot in
      let begin : IsOneShot h fired = (lt, shots, omega (arith, spent, counted, few)) in
      reschedule-IsOneShot h (do_calls fired during) e _ _ ends
        (do_calls-Keeps (IsOneShot h) (do_call-IsOneShot h) fired during begin)

  pop-IsOneShot :
      (h : ℕ) (s : TimerState (ℕ × P)) (e : Entry (ℕ × P)) (rest : List (Entry (ℕ × P)))
      → s.heap ≡ e ∷ rest
      → IsOneShot h s
      → IsOneShot h (record s { heap = rest })
  pop-IsOneShot h s e rest at (lt, all, few) =
      let counted = ap (λ l. waiting h l) at in
      (
        lt,
        (subst (AllOf (λ e. e.handle ≡ h → IsOnce e.fire)) at all).1,
        omega (arith, counted, few),
      )

  sent_by-new : (n : ℕ) (l : List (ℕ × P)) → AllOf (λ m. m.0 < n) l → sent_by n l ≡ 0
  sent_by-new n [] all = refl
  sent_by-new n (m ∷ l) (lt, all) = let rest = sent_by-new n l all in ground (arith, lt, rest)

  waiting-new : (n : ℕ) (es : List (Entry (ℕ × P))) → AllOf (IsOwned n) es → waiting n es ≡ 0
  waiting-new n [] all = refl
  waiting-new n (e ∷ es) ((lt, tags), all) =
      let rest = waiting-new n es all in
      let here = pending-ne n e.handle e.fire (λ q. absurd (omega (arith, q, lt))) in
      omega (arith, here, rest)

  send_after-IsOneShot :
      (s : TimerState (ℕ × P)) (now delay : ℕ) (p : P)
      → AreOwned s
      → IsOneShot (length s.cancelled) (do_call s (sends_after now delay p))
  unfolding do_call send_after schedule
  send_after-IsOneShot s now delay p (heap, sent) =
      let n = length s.cancelled in
      let more = length-append s.cancelled (false ∷ []) in
      let e : Entry (ℕ × P) = record {
        deadline = now + delay;
        seq = s.seq;
        handle = n;
        fire = once (some (n, p));
      } in
      let same = waiting-push n e s.heap in
      let none_sent = sent_by-new n s.sent sent in
      let none_waits = waiting-new n s.heap heap in
      let one : pending n n e.fire ≡ 1 = ground arith in
      (
        omega (arith, more),
        push-AllOf _ e s.heap (λ q. tt)
            (AllOf-weaken _ _ s.heap (λ x h q. absurd (omega (arith, h.0, q))) heap),
        omega (arith, same, none_sent, none_waits, one),
      )

  -- A timer made with send_after sends at most one message, whatever is scheduled, cancelled or fired
  -- before and after, and whatever the deliveries meet.
  pub send_after-AtMostOnce :
      (before : List (Move P)) (now delay : ℕ) (p : P) (after : List (Move P))
      → sent_by
          (send_after
            (do_moves no_timers before)
            now
            delay
            (length (do_moves no_timers before).cancelled, p)).1
          (do_moves (do_call (do_moves no_timers before) (sends_after now delay p)) after).sent
        ≤ 1
  unfolding send_after
  send_after-AtMostOnce before now delay p after =
      let s = do_moves no_timers before in
      let h = length s.cancelled in
      let owned = do_moves-AreOwned no_timers before (tt, tt) in
      let (kept, (lt, all, few)) =
        do_moves-Keeps (λ x. AreOwned x × IsOneShot h x)
          (λ x c q. (do_call-AreOwned x c q.0, do_call-IsOneShot h x c q.1))
          (λ x e rest at q. (pop-AreOwned x e rest at q.0, pop-IsOneShot h x e rest at q.1))
          (λ x e rest later d during at live q. (
            fire-AreOwned x e rest later d during at q.0,
            fire-IsOneShot h x e rest later d during at q.0 q.1,
          ))
          (do_call s (sends_after now delay p)) after
          (
            do_call-AreOwned s (sends_after now delay p) owned,
            send_after-IsOneShot s now delay p owned,
          ) in
      omega (arith, few)
