-- ===== src/Timer/Handles.antt =====
-- core/src/timer.rs: an entry of the heap belongs to a handle that was given out.
use mathlib.Core.Path.{subst}
use aetherflow.Base.{
  ℕ, ◌+◌, ◌≤◌, ◌<◌, ◌≡◌, refl, inl, inr, true, false, Option, none, some, List, [], ◌∷◌, ◌++◌,
  arith, ltb, leb, Bool-cases, length, length-set, length-append,
}
use aetherflow.Base.AllOf.{AllOf-weaken, AllOf, AllOf-snoc}
use aetherflow.Timer.{
  Fire, once, every, Entry, Delivery, delivered, mailbox_full, actor_gone, TimerState, Ordering,
  less, equal, greater, cmp, push, schedule, send_after, send_every, cancel, run_fire, reschedule,
  is_cancelled, fire_due, record_sent,
}
use aetherflow.Timer.Order.{place, round}
use aetherflow.Timer.Moves.{
  Call, sends_after, sends_every, cancels, Move, calls, fires, do_call, do_calls, do_move, do_moves,
  after_round,
}

module _ {M : Type 0} (Q : Entry M → Type 0) where
  AllOf-place :
      (o : Ordering) (e x : Entry M) (xs rest : List (Entry M))
      → Q e
      → Q x
      → AllOf Q xs
      → AllOf Q rest
      → AllOf Q (place o e x xs rest)
  AllOf-place less e x xs rest he hx hs hr = (hx, hr)
  AllOf-place equal e x xs rest he hx hs hr = (he, (hx, hs))
  AllOf-place greater e x xs rest he hx hs hr = (he, (hx, hs))

  pub push-AllOf : (e : Entry M) (es : List (Entry M)) → Q e → AllOf Q es → AllOf Q (push e es)
  unfolding push
  push-AllOf e [] he hs = (he, tt)
  push-AllOf e (x ∷ xs) he (hx, hs) =
      AllOf-place (cmp e x) e x xs (push e xs) he hx hs (push-AllOf e xs he hs)

module _ {P : Type 0} where
  -- The messages of the timer carry this handle.
  abbrev pub Tags : ℕ → Fire (ℕ × P) → Type 0
  Tags h (once none) = Unit
  Tags h (once (some m)) = m.0 ≡ h
  Tags h (every interval k make) = (n : ℕ) → (make n).0 ≡ h

  abbrev pub IsOwned : ℕ → Entry (ℕ × P) → Type 0
  IsOwned n e = (e.handle < n) × Tags e.handle e.fire

  abbrev pub AreOwned : TimerState (ℕ × P) → Type 0
  AreOwned s =
      AllOf (IsOwned (length s.cancelled)) s.heap × AllOf (λ m. m.0 < length s.cancelled) s.sent

  -- Another handle is given out.
  more_handles :
      (s : TimerState (ℕ × P))
      → AreOwned s
      → AreOwned (record s { cancelled = s.cancelled ++ (false ∷ []) })
  more_handles s (heap, sent) =
      let n = length-append s.cancelled (false ∷ []) in
      (
        AllOf-weaken _ _ s.heap (λ e h. (omega (arith, n, h.0), h.1)) heap,
        AllOf-weaken _ _ s.sent (λ m h. omega (arith, n, h)) sent,
      )

  schedule-AreOwned :
      (s : TimerState (ℕ × P)) (deadline handle : ℕ) (fire : Fire (ℕ × P))
      → handle < length s.cancelled
      → Tags handle fire
      → AreOwned s
      → AreOwned (schedule s deadline handle fire)
  unfolding schedule
  schedule-AreOwned s deadline handle fire lt tags (heap, sent) = (
    push-AllOf _ (record { deadline = deadline; seq = s.seq; handle = handle; fire = fire }) s.heap
        (lt, tags) heap,
    sent,
  )

  pub do_call-AreOwned : (s : TimerState (ℕ × P)) (c : Call P) → AreOwned s → AreOwned (do_call s c)
  unfolding do_call send_after send_every cancel
  do_call-AreOwned s (sends_after now delay p) h =
      let n = length-append s.cancelled (false ∷ []) in
      schedule-AreOwned (record s { cancelled = s.cancelled ++ (false ∷ []) }) _ _ _
        (omega (arith, n)) refl (more_handles s h)
  do_call-AreOwned s (sends_every now interval make) h = elim (Bool-cases (ltb 0 interval)) [
    | inl y ↦
        let n = length-append s.cancelled (false ∷ []) in
        rw y (
          schedule-AreOwned (record s { cancelled = s.cancelled ++ (false ∷ []) }) (now + interval)
            (length s.cancelled) (every interval 0 (λ k. (length s.cancelled, make k)))
            (omega (arith, n)) (λ k. refl) (more_handles s h))
    | inr n ↦ rw n h
  ]
  do_call-AreOwned s (cancels handle) (heap, sent) =
      let n = length-set s.cancelled handle true in rw n (heap, sent)

  pub length-do_call :
      (s : TimerState (ℕ × P)) (c : Call P) → length s.cancelled ≤ length (do_call s c).cancelled
  unfolding do_call send_after send_every cancel schedule
  length-do_call s (sends_after now delay p) =
      let n = length-append s.cancelled (false ∷ []) in omega (arith, n)
  length-do_call s (sends_every now interval make) = elim (Bool-cases (ltb 0 interval)) [
    | inl y ↦ let n = length-append s.cancelled (false ∷ []) in rw y (omega (arith, n))
    | inr n ↦ rw n (omega arith)
  ]
  length-do_call s (cancels handle) = let n = length-set s.cancelled handle true in omega (arith, n)

  -- What a call keeps, any number of calls keep.
  pub do_calls-Keeps :
      (Q : TimerState (ℕ × P) → Type 0)
      → ((s : TimerState (ℕ × P)) (c : Call P) → Q s → Q (do_call s c))
      → (s : TimerState (ℕ × P)) (cs : List (Call P)) → Q s
      → Q (do_calls s cs)
  unfolding do_calls
  do_calls-Keeps Q keeps s [] h = h
  do_calls-Keeps Q keeps s (c ∷ cs) h = do_calls-Keeps Q keeps (do_call s c) cs (keeps s c h)

  pub length-do_calls :
      (s : TimerState (ℕ × P)) (cs : List (Call P))
      → length s.cancelled ≤ length (do_calls s cs).cancelled
  unfolding do_calls
  length-do_calls s [] = omega arith
  length-do_calls s (c ∷ cs) =
      let one = length-do_call s c in
      let more = length-do_calls (do_call s c) cs in omega (arith, one, more)

  -- The state after the entry has fired, and the calls that come meanwhile.
  abbrev pub fired_state :
      TimerState (ℕ × P) → Entry (ℕ × P) → List (Entry (ℕ × P)) → ℕ → Delivery → TimerState (ℕ × P)
  fired_state s e rest later d = record s { heap = rest; sent = (run_fire e.fire later d s.sent).2 }

  abbrev pub fired_back :
      TimerState (ℕ × P)
      → Entry (ℕ × P)
      → List (Entry (ℕ × P))
      → ℕ
      → Delivery
      → List (Call P)
      → TimerState (ℕ × P)
  fired_back s e rest later d during =
      reschedule (do_calls (fired_state s e rest later d) during) e
        ((run_fire e.fire later d s.sent).0) ((run_fire e.fire later d s.sent).1)

  module _ (Q : TimerState (ℕ × P) → Type 0)
      (call_keeps : (s : TimerState (ℕ × P)) (c : Call P) → Q s → Q (do_call s c))
      (pop_keeps : (s : TimerState (ℕ × P)) (e : Entry (ℕ × P)) (rest : List (Entry (ℕ × P)))
        → s.heap ≡ e ∷ rest
        → Q s
        → Q (record s { heap = rest }))
      (fire_keeps : (s : TimerState (ℕ × P)) (e : Entry (ℕ × P)) (rest : List (Entry (ℕ × P)))
          (later : ℕ) (d : Delivery) (during : List (Call P))
        → s.heap ≡ e ∷ rest
        → is_cancelled s e.handle ≡ false
        → Q s
        → Q (fired_back s e rest later d during)) where
    round-Keeps :
        (heap : List (Entry (ℕ × P))) (s : TimerState (ℕ × P)) (now : ℕ) (d : Delivery) (later : ℕ)
        (during : List (Call P))
        → s.heap ≡ heap
        → Q s
        → Q (after_round s (round heap s now d later (λ x. do_calls x during)))
    round-Keeps [] s now d later during e h = h
    round-Keeps (x ∷ rest) s now d later during e h = elim (Bool-cases (leb x.deadline now)) [
      | inr early ↦ rw (early, round) h
      | inl due ↦ elim (Bool-cases (is_cancelled s x.handle)) [
        | inl c ↦ rw (due, c, round) (pop_keeps s x rest e h)
        | inr c ↦ rw (due, c, round) (fire_keeps s x rest later d during e c h)
      ]
    ]

    do_move-Keeps : (s : TimerState (ℕ × P)) (m : Move P) → Q s → Q (do_move s m)
    unfolding do_move fire_due
    do_move-Keeps s (calls c) h = call_keeps s c h
    do_move-Keeps s (fires now d later during) h = round-Keeps s.heap s now d later during refl h

    -- What the calls and the firings keep, any moves keep.
    pub do_moves-Keeps : (s : TimerState (ℕ × P)) (ms : List (Move P)) → Q s → Q (do_moves s ms)
    unfolding do_moves
    do_moves-Keeps s [] h = h
    do_moves-Keeps s (m ∷ ms) h = do_moves-Keeps (do_move s m) ms (do_move-Keeps s m h)

  pub run_fire-Tags :
      (h : ℕ) (f : Fire (ℕ × P)) (later : ℕ) (d : Delivery) (l : List (ℕ × P))
      → Tags h f
      → Tags h (run_fire f later d l).1
  unfolding run_fire
  run_fire-Tags h (once none) later d l tags = tt
  run_fire-Tags h (once (some m)) later d l tags = tt
  run_fire-Tags h (every interval k make) later d l tags = tags

  record_sent-AllOf :
      (Q : ℕ × P → Type 0) (m : ℕ × P) (d : Delivery) (l : List (ℕ × P))
      → Q m
      → AllOf Q l
      → AllOf Q (record_sent m d l)
  record_sent-AllOf Q m delivered l p h = AllOf-snoc Q l m h p
  record_sent-AllOf Q m mailbox_full l p h = h
  record_sent-AllOf Q m actor_gone l p h = h

  run_fire-AllOf :
      (n h : ℕ) (f : Fire (ℕ × P)) (later : ℕ) (d : Delivery) (l : List (ℕ × P))
      → h < n
      → Tags h f
      → AllOf (λ m. m.0 < n) l
      → AllOf (λ m. m.0 < n) (run_fire f later d l).2
  unfolding run_fire
  run_fire-AllOf n h (once none) later d l lt tags all = all
  run_fire-AllOf n h (once (some m)) later d l lt tags all =
      record_sent-AllOf _ m d l (omega (arith, tags, lt)) all
  run_fire-AllOf n h (every interval k make) later d l lt tags all =
      record_sent-AllOf _ (make k) d l (omega (arith, tags k, lt)) all

  reschedule-AreOwned :
      (s : TimerState (ℕ × P)) (e : Entry (ℕ × P)) (next : Option ℕ) (f : Fire (ℕ × P))
      → e.handle < length s.cancelled
      → Tags e.handle f
      → AreOwned s
      → AreOwned (reschedule s e next f)
  reschedule-AreOwned s e none f lt tags h = h
  reschedule-AreOwned s e (some deadline) f lt tags (heap, sent) =
      elim (Bool-cases (is_cancelled s e.handle)) [
        | inl c ↦ rw (c, reschedule) (heap, sent)
        | inr c ↦
            rw (c, reschedule)
              (
                push-AllOf _ (record e { deadline = deadline; fire = f }) s.heap (lt, tags) heap,
                sent,
              )
      ]

  pub fire-AreOwned :
      (s : TimerState (ℕ × P)) (e : Entry (ℕ × P)) (rest : List (Entry (ℕ × P))) (later : ℕ)
      (d : Delivery) (during : List (Call P))
      → s.heap ≡ e ∷ rest
      → AreOwned s
      → AreOwned (fired_back s e rest later d during)
  fire-AreOwned s e rest later d during at (heap, sent) =
      let ((lt, tags), others) = subst (AllOf (IsOwned (length s.cancelled))) at heap in
      let fired = fired_state s e rest later d in
      let more = length-do_calls fired during in
      let after : AreOwned fired =
        (others, run_fire-AllOf (length s.cancelled) e.handle e.fire later d s.sent lt tags sent) in
      reschedule-AreOwned (do_calls fired during) e _ _ (omega (arith, more, lt))
        (run_fire-Tags e.handle e.fire later d s.sent tags)
        (do_calls-Keeps AreOwned do_call-AreOwned fired during after)

  pub pop-AreOwned :
      (s : TimerState (ℕ × P)) (e : Entry (ℕ × P)) (rest : List (Entry (ℕ × P)))
      → s.heap ≡ e ∷ rest
      → AreOwned s
      → AreOwned (record s { heap = rest })
  pop-AreOwned s e rest at (heap, sent) =
      ((subst (AllOf (IsOwned (length s.cancelled))) at heap).1, sent)

  pub do_moves-AreOwned :
      (s : TimerState (ℕ × P)) (ms : List (Move P)) → AreOwned s → AreOwned (do_moves s ms)
  do_moves-AreOwned =
      do_moves-Keeps AreOwned do_call-AreOwned pop-AreOwned
        (λ s e rest later d during at c h. fire-AreOwned s e rest later d during at h)
