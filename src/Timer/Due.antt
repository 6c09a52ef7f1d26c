-- ===== src/Timer/Due.antt =====
-- core/src/timer.rs: what a round of `run` does to the entries that are due and to the others.
use mathlib.Core.Path.{subst}
use mathlib.Core.List.{Memᴰ}
use mathlib.Core.List.Memᴰ.{head, tail}
use aetherflow.Base.{
  ℕ, suc, ◌≤◌, ◌<◌, ◌≡◌, refl, sym, ap, ◌∙◌, inl, inr, true, false, Option, none, some, List, [],
  ◌∷◌, arith, leb, if◌then◌else◌, Bool-cases,
}
use aetherflow.Base.AllOf.{AllOf}
use aetherflow.Timer.{
  Fire, once, every, Entry, Delivery, delivered, mailbox_full, actor_gone, TimerState, Ordering,
  less, equal, greater, cmp, push, run_fire, reschedule, is_cancelled, fire_due,
}
use aetherflow.Timer.Order.{BeforeAll, IsSorted, round, place}

module _ {M : Type 0} where
  -- How many entries are due.
  abbrev pub due : ℕ → List (Entry M) → ℕ
  due now [] = 0
  due now (e ∷ es) = let rest = due now es in if leb e.deadline now then suc rest else rest

  -- A periodic entry has an interval that is not 0, which `send_every` asserts.
  abbrev pub HasPeriod : Fire M → Type 0
  HasPeriod (once m) = Unit
  HasPeriod (every interval calls make) = 0 < interval

  abbrev pub IsPeriodic : Entry M → Type 0
  IsPeriodic e = HasPeriod e.fire

  abbrev pub IsLater : ℕ → Entry M → Type 0
  IsLater now e = now < e.deadline

  due-place :
      (now : ℕ) (o : Ordering) (e x : Entry M) (xs rest : List (Entry M))
      → due now rest ≡ due now (e ∷ xs)
      → due now (place o e x xs rest) ≡ due now (e ∷ x ∷ xs)
  due-place now less e x xs rest same = ground (arith, same)
  due-place now equal e x xs rest same = refl
  due-place now greater e x xs rest same = refl

  due-push : (now : ℕ) (e : Entry M) (es : List (Entry M)) → due now (push e es) ≡ due now (e ∷ es)
  unfolding push
  due-push now e [] = refl
  due-push now e (x ∷ xs) = due-place now (cmp e x) e x xs (push e xs) (due-push now e xs)

  -- In a heap in firing order whose first entry is not due, none is.
  IsLater-BeforeAll :
      (now : ℕ) (e : Entry M) (es : List (Entry M))
      → now < e.deadline
      → BeforeAll e es
      → AllOf (IsLater now) es
  IsLater-BeforeAll now e [] late all = tt
  IsLater-BeforeAll now e (x ∷ xs) late (before, all) =
      (ground (arith, before, late), IsLater-BeforeAll now e xs late all)

  mem-place :
      (o : Ordering) (y e x : Entry M) (xs rest : List (Entry M))
      → Memᴰ y (x ∷ xs)
      → (Memᴰ y xs → Memᴰ y rest)
      → Memᴰ y (place o e x xs rest)
  mem-place less y e x xs rest (head same) more = head same
  mem-place less y e x xs rest (tail h) more = tail (more h)
  mem-place equal y e x xs rest h more = tail h
  mem-place greater y e x xs rest h more = tail h

  mem-push : (y e : Entry M) (es : List (Entry M)) → Memᴰ y es → Memᴰ y (push e es)
  unfolding push
  mem-push y e [] h = tail h
  mem-push y e (x ∷ xs) h = mem-place (cmp e x) y e x xs (push e xs) h (mem-push y e xs)

  AllOf-place :
      (P : Entry M → Type 0) (o : Ordering) (e x : Entry M) (xs rest : List (Entry M))
      → P e
      → AllOf P (x ∷ xs)
      → AllOf P rest
      → AllOf P (place o e x xs rest)
  AllOf-place P less e x xs rest p (q, all) more = (q, more)
  AllOf-place P equal e x xs rest p all more = (p, all)
  AllOf-place P greater e x xs rest p all more = (p, all)

  AllOf-push :
      (P : Entry M → Type 0) (e : Entry M) (es : List (Entry M))
      → P e
      → AllOf P es
      → AllOf P (push e es)
  unfolding push
  AllOf-push P e [] p all = (p, tt)
  AllOf-push P e (x ∷ xs) p all =
      AllOf-place P (cmp e x) e x xs (push e xs) p all (AllOf-push P e xs p (all.1))

  -- What becomes of the entries: so many are due, they have their intervals, and those that are not due
  -- are all there.
  abbrev Keeps : ℕ → List (Entry M) → List (Entry M) → Type 0
  Keeps now rest heap =
      (due now heap ≡ due now rest)
      × AllOf IsPeriodic heap
      × ((y : Entry M) → IsLater now y → Memᴰ y rest → Memᴰ y heap)

  -- The next deadline, if any, is after the firing.
  abbrev IsNext : ℕ → Option ℕ × Fire M × List M → Type 0
  IsNext later (none, f, l) = Unit
  IsNext later (some n, f, l) = (later < n) × HasPeriod f

  run_fire-IsNext :
      (f : Fire M) (later : ℕ) (d : Delivery) (sent : List M)
      → HasPeriod f
      → IsNext later (run_fire f later d sent)
  unfolding run_fire
  run_fire-IsNext (once none) later d sent h = tt
  run_fire-IsNext (once (some m)) later d sent h = tt
  run_fire-IsNext (every interval calls make) later delivered sent h = (omega (arith, h), h)
  run_fire-IsNext (every interval calls make) later mailbox_full sent h = (omega (arith, h), h)
  run_fire-IsNext (every interval calls make) later actor_gone sent h = tt

  reschedule-Keeps :
      (s : TimerState M) (e : Entry M) (now later : ℕ) (r : Option ℕ × Fire M × List M)
      → now ≤ later
      → AllOf IsPeriodic s.heap
      → IsNext later r
      → Keeps now s.heap (reschedule s e r.0 r.1).heap
  reschedule-Keeps s e now later (none, f, l) le periods next = (refl, periods, λ y late h. h)
  reschedule-Keeps s e now later (some n, f, l) le periods (after, period) =
      let e' = record e { deadline = n; fire = f } in
      let not_due : leb n now ≡ false = ground (arith, le, after) in
      elim (Bool-cases (is_cancelled s e.handle)) [
        | inl c ↦ rw (c, reschedule) (refl, periods, λ y late h. h)
        | inr c ↦
            rw (c, reschedule)
              (
                due-push now e' s.heap ∙ rw not_due refl,
                AllOf-push IsPeriodic e' s.heap period periods,
                λ y late h. mem-push y e' s.heap h,
              )
      ]

  -- What a round does, when no other thread calls meanwhile: it takes one entry that is due, if any is.
  abbrev pub Fired : ℕ → TimerState M → Option (TimerState M) → Type 0
  Fired now s none = AllOf (IsLater now) s.heap
  Fired now s (some s') =
      (suc (due now s'.heap) ≡ due now s.heap)
      × AllOf IsPeriodic s'.heap
      × ((y : Entry M) → IsLater now y → Memᴰ y s.heap → Memᴰ y s'.heap)

  mem-later :
      (now : ℕ) (y e : Entry M) (es : List (Entry M))
      → IsLater now y
      → leb e.deadline now ≡ true
      → Memᴰ y (e ∷ es)
      → Memᴰ y es
  mem-later now y e es late is_due (head same) =
      let at = ap (λ x. x.deadline) same in absurd (ground (arith, at, late, is_due))
  mem-later now y e es late is_due (tail h) = h

  Keeps-Fired :
      (s s' : TimerState M) (now : ℕ) (e : Entry M) (rest : List (Entry M))
      → s.heap ≡ e ∷ rest
      → leb e.deadline now ≡ true
      → Keeps now rest s'.heap
      → Fired now s (some s')
  Keeps-Fired s s' now e rest heap is_due (same, periods, kept) = (
    ap suc same ∙ rw (heap, is_due) refl,
    periods,
    λ y late h. kept y late (mem-later now y e rest late is_due (subst (Memᴰ y) heap h)),
  )

  round-Fired :
      (heap : List (Entry M)) (s : TimerState M) (now later : ℕ) (d : Delivery)
      → s.heap ≡ heap
      → IsSorted heap
      → AllOf IsPeriodic heap
      → now ≤ later
      → Fired now s (round heap s now d later (λ x. x))
  round-Fired [] s now later d e sorted periods le = subst (AllOf (IsLater now)) (sym e) tt
  round-Fired (x ∷ rest) s now later d e sorted periods le =
      elim (Bool-cases (leb x.deadline now)) [
        | inr early ↦
            rw (early, round)
              (subst (AllOf (IsLater now)) (sym e) (
                ground (arith, early),
                IsLater-BeforeAll now x rest (ground (arith, early)) sorted.0,
              ))
        | inl is_due ↦ elim (Bool-cases (is_cancelled s x.handle)) [
          | inl c ↦
              rw (is_due, c, round)
                (Keeps-Fired s (record s { heap = rest }) now x rest e is_due
                  (refl, periods.1, λ y late h. h))
          | inr c ↦
              let fired = run_fire x.fire later d s.sent in
              let back = record s { heap = rest; sent = fired.2 } in
              rw (is_due, c, round)
                (Keeps-Fired s (reschedule back x fired.0 fired.1) now x rest e is_due (
                  reschedule-Keeps back x now later fired le periods.1
                    (run_fire-IsNext x.fire later d s.sent periods.0)))
        ]
      ]

  pub fire_due-Fired :
      (s : TimerState M) (now later : ℕ) (d : Delivery)
      → IsSorted s.heap
      → AllOf IsPeriodic s.heap
      → now ≤ later
      → Fired now s (fire_due s now d later (λ x. x))
  unfolding fire_due
  fire_due-Fired s now later d sorted periods le =
      round-Fired s.heap s now later d refl sorted periods le
