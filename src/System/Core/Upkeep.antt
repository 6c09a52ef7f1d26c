-- ===== src/System/Core/Upkeep.antt =====
-- core/src/system.rs: what a pass, the control plane and the drain at shutdown keep true of the cells of a
-- core, given what each call of a cell keeps true of it.
use mathlib.Core.Path.{subst}
use aetherflow.Base.{
  ℕ, zero, suc, ◌+◌, ◌-◌, ◌≤◌, ◌<◌, ◌≡◌, refl, ◌⊎◌, inl, inr, Bool, true, false, Option, some, List,
  [], ◌∷◌, arith, Bool-cases, Option-cases, length, get_elem?, length-set, length-append,
  lt_of_get_elem?,
}
use aetherflow.Base.AllOf.{AllOf, AllOf-get_elem?, AllOf-set, AllOf-snoc}
use aetherflow.System.Cell.{ErasedActor, PollOutcome, worked, empty, ok}
use aetherflow.System.Core.{
  Visited, kept, dropped, stopped, Pass, batch, end_batch, end_empty, visit, settle, run_pass,
  start_pass,
}
use aetherflow.System.Core.Removal.{AllOf-swap_remove, length-swap_remove}

module _ {C : Type 0} (Live Dropped : C → Type 0) where
  -- After a poll with such an outcome.
  abbrev pub Polled : C → PollOutcome → Type 0
  Polled c worked = Live c
  Polled c empty = Live c
  Polled c PollOutcome.panicked = Dropped c

-- `start` makes a new cell live, a poll keeps it live unless the actor panicked for good, and `stop` ends
-- a live cell whose mailbox was just found empty.
pub record Upkeep {C : Type 0} (e : ErasedActor C) (New Live Dropped Stopped : C → Type 0)
    : Type 0 where
  pub starts : (c : C) → New c → (e.start c).1 ≡ ok → Live (e.start c).0
  pub polls : (c : C) → Live c → Polled Live Dropped (e.poll_one c).0 (e.poll_one c).1
  pub stops : (c : C) → Live c → (e.poll_one c).1 ≡ empty → Stopped (e.stop (e.poll_one c).0).0

pub Outcome-cases : (o : PollOutcome) → (o ≡ worked) ⊎ (o ≡ empty) ⊎ (o ≡ PollOutcome.panicked)
Outcome-cases worked = inl refl
Outcome-cases empty = inr (inl refl)
Outcome-cases PollOutcome.panicked = inr (inr refl)

module _ {C : Type 0} (Live Dropped Stopped : C → Type 0) where
  -- A cell that was visited, and one that has left.
  abbrev pub Seen : Visited C → Type 0
  Seen (kept c) = Live c
  Seen (dropped c) = Dropped c
  Seen (stopped c) = Stopped c

  abbrev pub Left : Visited C → Type 0
  Left (kept c) = ⊥
  Left (dropped c) = Dropped c
  Left (stopped c) = Stopped c

  -- So many cells in all, those of the list live and the others gone.
  abbrev pub Tended : ℕ → List C → List (Visited C) → Type 0
  Tended n actors gone = (length actors + length gone ≡ n) × AllOf Live actors × AllOf Left gone

  -- The pass ends, with every cell accounted for.
  abbrev pub EndsTended : ℕ → Option (Pass C) → Type 0
  EndsTended n r = (p : Pass C) × (r ≡ some p) × Tended n p.actors p.gone

module _ {C : Type 0} (e : ErasedActor C) (New Live Dropped Stopped : C → Type 0)
    (keeps : Upkeep e New Live Dropped Stopped) where
  pub poll-worked : (c : C) → Live c → (e.poll_one c).1 ≡ worked → Live (e.poll_one c).0
  poll-worked c live o = subst (Polled Live Dropped (e.poll_one c).0) o (keeps.polls c live)

  pub poll-empty : (c : C) → Live c → (e.poll_one c).1 ≡ empty → Live (e.poll_one c).0
  poll-empty c live o = subst (Polled Live Dropped (e.poll_one c).0) o (keeps.polls c live)

  pub poll-panicked :
      (c : C) → Live c → (e.poll_one c).1 ≡ PollOutcome.panicked → Dropped (e.poll_one c).0
  poll-panicked c live o = subst (Polled Live Dropped (e.poll_one c).0) o (keeps.polls c live)

  abbrev Batched : C × Bool → Type 0
  Batched (c, true) = Dropped c
  Batched (c, false) = Live c

  batch-Batched : (n : ℕ) (c : C) → Live c → Batched (batch e n c)
  unfolding batch
  batch-Batched zero c live = live
  batch-Batched (suc n) c live = elim (Outcome-cases (e.poll_one c).1) [
    | inl o ↦ rw (o, batch) (batch-Batched n (e.poll_one c).0 (poll-worked c live o))
    | inr (inl o) ↦ rw (o, batch) (poll-empty c live o)
    | inr (inr o) ↦ rw (o, batch) (poll-panicked c live o)
  ]

  end_batch-Seen : (r : C × Bool) → Batched r → Seen Live Dropped Stopped (end_batch r).0
  end_batch-Seen (c, true) b = b
  end_batch-Seen (c, false) b = b

  pub visit-Seen : (n : ℕ) (c : C) → Live c → Seen Live Dropped Stopped (visit e n c).0
  unfolding visit
  visit-Seen n c live = elim (Outcome-cases (e.poll_one c).1) [
    | inl o ↦
        rw (o, visit)
          (end_batch-Seen (batch e (n - 1) (e.poll_one c).0)
            (batch-Batched (n - 1) (e.poll_one c).0 (poll-worked c live o)))
    | inr (inl o) ↦ elim (Bool-cases (e.closed_and_empty (e.poll_one c).0)) [
      | inl y ↦ rw (o, visit, end_empty, y) (keeps.stops c live o)
      | inr n ↦ rw (o, visit, end_empty, n) (poll-empty c live o)
    ]
    | inr (inr o) ↦ rw (o, visit) (poll-panicked c live o)
  ]

  -- A pass that is in the list, with so much fuel left.
  abbrev Fits : ℕ → ℕ → Pass C → Type 0
  Fits n fuel p =
      (p.i ≤ length p.actors)
      × (length p.actors ≤ p.i + fuel)
      × Tended Live Dropped Stopped n p.actors p.gone

  settle-Fits :
      (n fuel : ℕ) (p : Pass C) (v : Visited C) (did : Bool)
      → Seen Live Dropped Stopped v
      → p.i < length p.actors
      → Fits n (suc fuel) p
      → Fits n fuel (settle p (v, did))
  unfolding settle
  settle-Fits n fuel p (kept c) did seen inside (lo, hi, (all, live, left)) =
      let same = length-set p.actors p.i c in
      (
        omega (arith, same, inside),
        omega (arith, same, hi),
        (omega (arith, same, all), AllOf-set Live p.actors p.i c live seen, left),
      )
  settle-Fits n fuel p (dropped c) did seen inside (lo, hi, (all, live, left)) =
      let shorter = length-swap_remove p.actors p.i inside in
      let more = length-append p.gone (dropped c ∷ []) in
      (
        omega (arith, shorter, inside),
        omega (arith, shorter, hi),
        (
          omega (arith, shorter, more, all),
          AllOf-swap_remove Live p.actors p.i live,
          AllOf-snoc (Left Live Dropped Stopped) p.gone (dropped c) left seen,
        ),
      )
  settle-Fits n fuel p (stopped c) did seen inside (lo, hi, (all, live, left)) =
      let shorter = length-swap_remove p.actors p.i inside in
      let more = length-append p.gone (stopped c ∷ []) in
      (
        omega (arith, shorter, inside),
        omega (arith, shorter, hi),
        (
          omega (arith, shorter, more, all),
          AllOf-swap_remove Live p.actors p.i live,
          AllOf-snoc (Left Live Dropped Stopped) p.gone (stopped c) left seen,
        ),
      )

  run_pass-from :
      (n batch_drain fuel : ℕ) (p : Pass C)
      → Fits n fuel p
      → EndsTended Live Dropped Stopped n (run_pass e batch_drain (suc fuel) p)
  unfolding run_pass
  run_pass-from n batch_drain zero p fits = elim (Option-cases (get_elem? p.actors p.i)) [
    | inl q ↦ (p, rw (q, run_pass) refl, fits.2)
    | inr (c, q) ↦ absurd (omega (arith, fits.1, lt_of_get_elem? p.actors p.i c q))
  ]
  run_pass-from n batch_drain (suc fuel) p fits = elim (Option-cases (get_elem? p.actors p.i)) [
    | inl q ↦ (p, rw (q, run_pass) refl, fits.2)
    | inr (c, q) ↦
        let live = AllOf-get_elem? Live p.actors p.i c (fits.2.1) q in
        let inside = lt_of_get_elem? p.actors p.i c q in
        let (v, did) = visit e batch_drain c in
        rw (q, run_pass)
          (run_pass-from n batch_drain fuel (settle p (visit e batch_drain c))
            (settle-Fits n fuel p v did (visit-Seen batch_drain c live) inside fits))
  ]

  pub run_pass-Tended :
      (batch_drain : ℕ) (actors : List C)
      → AllOf Live actors
      → EndsTended Live Dropped Stopped
          (length actors)
          (run_pass e batch_drain (length actors + 1) (start_pass actors))
  run_pass-Tended batch_drain actors live =
      let fuel : length actors + 1 ≡ suc (length actors) = omega arith in
      rw fuel (
        run_pass-from (length actors) batch_drain (length actors) (start_pass actors)
          (omega arith, omega arith, (omega arith, live, tt)))
