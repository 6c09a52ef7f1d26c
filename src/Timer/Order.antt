-- ===== src/Timer/Order.antt =====
-- core/src/timer.rs: entries fire by deadline, and those of one deadline in the order of their
-- registration.
use mathlib.Core.Path.{subst}
use aetherflow.Base.{
  ℕ, ◌≤◌, ◌<◌, ◌≡◌, refl, ◌≢◌, ◌⊎◌, inl, inr, Option, none, some, List, [], ◌∷◌, arith, leb,
  if◌then◌else◌, Bool-cases,
}
use aetherflow.Timer.{
  Fire, Entry, Delivery, TimerState, Ordering, less, equal, greater, cmp, push, schedule,
  send_after, cancel, run_fire, reschedule, is_cancelled, fire_due,
}

module _ {M : Type 0} where
  -- `a` fires no later than `b`.
  abbrev pub Before : Entry M → Entry M → Type 0
  Before a b = (a.deadline < b.deadline) ⊎ ((a.deadline ≡ b.deadline) × (a.seq ≤ b.seq))

  abbrev pub BeforeAll : Entry M → List (Entry M) → Type 0
  BeforeAll a [] = Unit
  BeforeAll a (b ∷ bs) = Before a b × BeforeAll a bs

  abbrev pub IsSorted : List (Entry M) → Type 0
  IsSorted [] = Unit
  IsSorted (e ∷ es) = BeforeAll e es × IsSorted es

  Before-trans : (a b c : Entry M) → Before a b → Before b c → Before a c
  Before-trans a b c h k = grind (arith, h, k)

  BeforeAll-trans :
      (a b : Entry M) (es : List (Entry M)) → Before a b → BeforeAll b es → BeforeAll a es
  BeforeAll-trans a b [] h hs = tt
  BeforeAll-trans a b (e ∷ es) h (k, hs) = (Before-trans a b e h k, BeforeAll-trans a b es h hs)

  -- `cmp` says which one fires first.
  cmp-cases : (a b : Entry M) → ((cmp a b ≡ less) × Before b a) ⊎ ((cmp a b ≢ less) × Before a b)
  unfolding cmp
  cmp-cases a b = ground arith

  abbrev pub place : Ordering → Entry M → Entry M → List (Entry M) → List (Entry M) → List (Entry M)
  place o e x xs rest = elim o [ less ↦ x ∷ rest | equal ↦ e ∷ x ∷ xs | greater ↦ e ∷ x ∷ xs ]

  BeforeAll-place :
      (o : Ordering) (a e x : Entry M) (xs rest : List (Entry M))
      → Before a e
      → BeforeAll a (x ∷ xs)
      → BeforeAll a rest
      → BeforeAll a (place o e x xs rest)
  BeforeAll-place less a e x xs rest h (k, ks) r = (k, r)
  BeforeAll-place equal a e x xs rest h ks r = (h, ks)
  BeforeAll-place greater a e x xs rest h ks r = (h, ks)

  BeforeAll-push :
      (a e : Entry M) (es : List (Entry M)) → Before a e → BeforeAll a es → BeforeAll a (push e es)
  unfolding push
  BeforeAll-push a e [] h hs = (h, tt)
  BeforeAll-push a e (x ∷ xs) h hs =
      BeforeAll-place (cmp e x) a e x xs (push e xs) h hs (BeforeAll-push a e xs h (hs.1))

  IsSorted-place :
      (o : Ordering) (e x : Entry M) (xs : List (Entry M))
      → ((o ≡ less) × Before x e) ⊎ ((o ≢ less) × Before e x)
      → IsSorted (x ∷ xs)
      → IsSorted (push e xs)
      → IsSorted (place o e x xs (push e xs))
  IsSorted-place less e x xs (inl (p, h)) (all, s) rest = (BeforeAll-push x e xs h all, rest)
  IsSorted-place less e x xs (inr (p, h)) (all, s) rest = absurd (p refl)
  IsSorted-place equal e x xs (inl (p, h)) (all, s) rest = absurd (ground (arith, p))
  IsSorted-place equal e x xs (inr (p, h)) (all, s) rest =
      ((h, BeforeAll-trans e x xs h all), (all, s))
  IsSorted-place greater e x xs (inl (p, h)) (all, s) rest = absurd (ground (arith, p))
  IsSorted-place greater e x xs (inr (p, h)) (all, s) rest =
      ((h, BeforeAll-trans e x xs h all), (all, s))

  pub push-IsSorted : (e : Entry M) (es : List (Entry M)) → IsSorted es → IsSorted (push e es)
  unfolding push
  push-IsSorted e [] h = (tt, tt)
  push-IsSorted e (x ∷ xs) h =
      IsSorted-place (cmp e x) e x xs (cmp-cases e x) h (push-IsSorted e xs (h.1))

  pub reschedule-IsSorted :
      (s : TimerState M) (e : Entry M) (next : Option ℕ) (f : Fire M)
      → IsSorted s.heap
      → IsSorted (reschedule s e next f).heap
  reschedule-IsSorted s e none f h = h
  reschedule-IsSorted s e (some deadline) f h = elim (Bool-cases (is_cancelled s e.handle)) [
    | inl c ↦ rw (c, reschedule) h
    | inr c ↦
        rw (c, reschedule) (push-IsSorted (record e { deadline = deadline; fire = f }) s.heap h)
  ]

  -- A round, given the entries of the heap.
  abbrev pub round :
      List (Entry M)
      → TimerState M
      → ℕ
      → Delivery
      → ℕ
      → (TimerState M → TimerState M)
      → Option (TimerState M)
  round heap s now d later others = elim heap [
    | [] ↦ none
    | e ∷ rest ↦
        if leb e.deadline now
        then (let popped = record s { heap = rest } in
            if is_cancelled s e.handle
            then some popped
            else (let (next, fire, sent) = run_fire e.fire later d s.sent in
                some (reschedule (others (record popped { sent = sent })) e next fire)))
        else none
  ]

  abbrev AreSorted : Option (TimerState M) → Type 0
  AreSorted none = Unit
  AreSorted (some s) = IsSorted s.heap

  round-AreSorted :
      (heap : List (Entry M)) (s : TimerState M) (now : ℕ) (d : Delivery) (later : ℕ)
      (others : TimerState M → TimerState M)
      → IsSorted heap
      → ((x : TimerState M) → IsSorted x.heap → IsSorted (others x).heap)
      → AreSorted (round heap s now d later others)
  round-AreSorted [] s now d later others h keeps = tt
  round-AreSorted (e ∷ rest) s now d later others h keeps = elim (Bool-cases (leb e.deadline now)) [
    | inr early ↦ rw (early, round) tt
    | inl due ↦ elim (Bool-cases (is_cancelled s e.handle)) [
      | inl c ↦ rw (due, c, round) (h.1)
      | inr c ↦
          let fired = run_fire e.fire later d s.sent in
          let back = others (record s { heap = rest; sent = fired.2 }) in
          let sorted = keeps (record s { heap = rest; sent = fired.2 }) (h.1) in
          rw (due, c, round) (reschedule-IsSorted back e (fired.0) (fired.1) sorted)
    ]
  ]

  -- When an entry fires and is scheduled again, the heap stays in firing order (by deadline, and by
  -- number within one), if it was and the other threads keep it so while the lock is released.
  pub fire_due-IsSorted :
      (s s' : TimerState M) (now : ℕ) (d : Delivery) (later : ℕ)
      (others : TimerState M → TimerState M)
      → IsSorted s.heap
      → ((x : TimerState M) → IsSorted x.heap → IsSorted (others x).heap)
      → fire_due s now d later others ≡ some s'
      → IsSorted s'.heap
  unfolding fire_due
  fire_due-IsSorted s s' now d later others h keeps fired =
      subst AreSorted fired (round-AreSorted s.heap s now d later others h keeps)

  -- A message scheduled with `send_after`, and the cancellation of any handle after it, leave a heap in
  -- firing order in firing order.
  pub send_after-IsSorted :
      (s : TimerState M) (now delay : ℕ) (m : M) (handle : ℕ)
      → IsSorted s.heap
      → IsSorted (cancel (send_after s now delay m).0 handle).heap
  unfolding send_after cancel schedule
  send_after-IsSorted s now delay m handle h = push-IsSorted _ s.heap h
