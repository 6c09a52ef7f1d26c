-- ===== src/System/Core/Turns.antt =====
-- core/src/system.rs: what one turn of a core thread keeps true of its cells, and what it accounts for.
use mathlib.Core.Path.{subst}
use mathlib.Core.List.{append_assoc, append-nil}
use aetherflow.Base.{
  ℕ, zero, suc, ◌+◌, ◌≡◌, refl, sym, ap, ◌∙◌, ◌⊎◌, inl, inr, Bool, true, false, ◌||◌, Option, none,
  some, List, [], ◌∷◌, ◌++◌, arith, if◌then◌else◌, Bool-cases, Option-cases, length, length-append,
}
use aetherflow.Base.AllOf.{AllOf, AllOf-append}
use aetherflow.System.{SchedulingPolicy}
use aetherflow.System.Cell.{ErasedActor, LifecycleOutcome, ok}
use aetherflow.System.Core.{
  Control, add, shutdown, Visited, CoreState, Pass, Turn, finished, goes_on, cons_opt, run_pass,
  start_pass, control_step, control_phase, drain_cell, drain_all, end_turn, end_drain, after_pass,
  turn,
}
use aetherflow.System.Core.Upkeep.{
  Upkeep, Outcome-cases, Left, Tended, EndsTended, run_pass-Tended, poll-worked, poll-panicked,
}
use aetherflow.System.Core.Loop.{Inbox, asks, is_last, cons_started, started}

Lifecycle-cases : (o : LifecycleOutcome) → (o ≡ ok) ⊎ (o ≡ LifecycleOutcome.panicked)
Lifecycle-cases ok = inl refl
Lifecycle-cases LifecycleOutcome.panicked = inr refl

module _ {C : Type 0} (New : C → Type 0) where
  -- What is known of the cells that are added.
  abbrev pub AddsNew : List (Control C) → Type 0
  AddsNew [] = Unit
  AddsNew (add c ∷ ms) = New c × AddsNew ms
  AddsNew (shutdown ∷ ms) = AddsNew ms

module _ {C : Type 0} (e : ErasedActor C) (fuel : ℕ) (Live Dropped Stopped : C → Type 0) where
  -- A live cell whose drain takes more rounds than the fuel.
  abbrev pub Undrained : Type 0
  Undrained = (c : C) × Live c × (drain_cell e fuel c ≡ none)

  -- After a turn that is the last, or is not, with so many cells in all.
  abbrev pub TurnTended : Bool → ℕ → Option (Turn C) → Type 0
  TurnTended last n none = (last ≡ true) × Undrained
  TurnTended last n (some (finished gone)) =
      (last ≡ true) × (length gone ≡ n) × AllOf (Left Live Dropped Stopped) gone
  TurnTended last n (some (goes_on s gone action)) =
      (last ≡ false) × (s.shutting_down ≡ false) × Tended Live Dropped Stopped n s.actors gone

module _ {C : Type 0} (e : ErasedActor C) where
  control_phase-actors :
      (ms : List (Control C)) (s : CoreState C) (d : Bool)
      → (control_phase e s ms d).0.actors ≡ s.actors ++ started e ms
  unfolding control_phase
  control_phase-actors [] s d = sym (append-nil s.actors)
  control_phase-actors (add c ∷ ms) s d = elim (Lifecycle-cases (e.start c).1) [
    | inl o ↦
        rw (o, control_step, cons_started)
          (control_phase-actors ms (record s { actors = s.actors ++ ((e.start c).0 ∷ []) }) d
            ∙ append_assoc s.actors ((e.start c).0 ∷ []) (started e ms))
    | inr o ↦ rw (o, control_step, cons_started) (control_phase-actors ms s d)
  ]
  control_phase-actors (shutdown ∷ ms) s d =
      control_phase-actors ms (record s { shutting_down = true }) d

  control_phase-last :
      (ms : List (Control C)) (s : CoreState C) (d : Bool)
      → (control_phase e s ms d).0.shutting_down ≡ (s.shutting_down || (asks ms || d))
  unfolding control_phase
  control_phase-last [] s d = refl
  control_phase-last (add c ∷ ms) s d = elim (Lifecycle-cases (e.start c).1) [
    | inl o ↦
        rw (o, control_step)
          (control_phase-last ms (record s { actors = s.actors ++ ((e.start c).0 ∷ []) }) d)
    | inr o ↦ rw (o, control_step) (control_phase-last ms s d)
  ]
  control_phase-last (shutdown ∷ ms) s d =
      control_phase-last ms (record s { shutting_down = true }) d ∙ ground arith

module _ {C : Type 0} (e : ErasedActor C) (New Live Dropped Stopped : C → Type 0)
    (keeps : Upkeep e New Live Dropped Stopped) where
  started-Live : (ms : List (Control C)) → AddsNew New ms → AllOf Live (started e ms)
  started-Live [] news = tt
  started-Live (add c ∷ ms) (new, news) = elim (Lifecycle-cases (e.start c).1) [
    | inl o ↦ rw (o, cons_started) (keeps.starts c new o, started-Live ms news)
    | inr o ↦ rw (o, cons_started) (started-Live ms news)
  ]
  started-Live (shutdown ∷ ms) news = started-Live ms news

  abbrev LeftIf : Option (Visited C) → Type 0
  LeftIf none = Unit
  LeftIf (some v) = Left Live Dropped Stopped v

  drain_cell-LeftIf : (fuel : ℕ) (c : C) → Live c → LeftIf (drain_cell e fuel c)
  unfolding drain_cell
  drain_cell-LeftIf zero c live = tt
  drain_cell-LeftIf (suc fuel) c live = elim (Outcome-cases (e.poll_one c).1) [
    | inl o ↦
        rw (o, drain_cell)
          (drain_cell-LeftIf fuel (e.poll_one c).0
            (poll-worked e New Live Dropped Stopped keeps c live o))
    | inr (inl o) ↦ rw (o, drain_cell) (keeps.stops c live o)
    | inr (inr o) ↦ rw (o, drain_cell) (poll-panicked e New Live Dropped Stopped keeps c live o)
  ]

  -- The drain of the cells of a list: each has left, unless one takes more rounds than the fuel.
  abbrev DrainsAll : ℕ → List C → Option (List (Visited C)) → Type 0
  DrainsAll fuel cs none = Undrained e fuel Live Dropped Stopped
  DrainsAll fuel cs (some gone) = (length gone ≡ length cs) × AllOf (Left Live Dropped Stopped) gone

  cons_opt-DrainsAll :
      (fuel : ℕ) (c : C) (cs : List C) (v : Visited C) (rest : Option (List (Visited C)))
      → Left Live Dropped Stopped v
      → DrainsAll fuel cs rest
      → DrainsAll fuel (c ∷ cs) (cons_opt (some v) rest)
  cons_opt-DrainsAll fuel c cs v none left undrained = undrained
  cons_opt-DrainsAll fuel c cs v (some gone) left (n, all) = (ap suc n, (left, all))

  drain_all-DrainsAll :
      (fuel : ℕ) (cs : List C) → AllOf Live cs → DrainsAll fuel cs (drain_all e fuel cs)
  unfolding drain_all
  drain_all-DrainsAll fuel [] live = (refl, tt)
  drain_all-DrainsAll fuel (c ∷ cs) (live, more) = elim (Option-cases (drain_cell e fuel c)) [
    | inl q ↦ rw (q, cons_opt) (c, live, q)
    | inr (v, q) ↦ rw q (
        cons_opt-DrainsAll fuel c cs v (drain_all e fuel cs)
          (subst LeftIf q (drain_cell-LeftIf fuel c live)) (drain_all-DrainsAll fuel cs more))
  ]

  end_drain-TurnTended :
      (fuel n : ℕ) (p : Pass C) (drained : Option (List (Visited C)))
      → Tended Live Dropped Stopped n p.actors p.gone
      → DrainsAll fuel p.actors drained
      → TurnTended e fuel Live Dropped Stopped true n (end_drain p.gone drained)
  end_drain-TurnTended fuel n p none tended undrained = (refl, undrained)
  end_drain-TurnTended fuel n p (some drained) (all, live, left) (m, left') =
      let sum = length-append p.gone drained in
      (
        refl,
        omega (arith, sum, m, all),
        AllOf-append (Left Live Dropped Stopped) p.gone drained left left',
      )

  end_turn-TurnTended :
      (fuel n : ℕ) (policy : SchedulingPolicy) (s : CoreState C) (active : Bool) (p : Pass C)
      → s.shutting_down ≡ false
      → Tended Live Dropped Stopped n p.actors p.gone
      → TurnTended e fuel Live Dropped Stopped false n (some (end_turn policy s active p))
  end_turn-TurnTended fuel n policy s active p on tended =
      elim (Bool-cases (p.did_work || active)) [
        | inl y ↦ rw (y, end_turn) (refl, on, tended)
        | inr z ↦ rw (z, end_turn) (refl, on, tended)
      ]

  after_pass-TurnTended :
      (fuel n : ℕ) (policy : SchedulingPolicy) (s : CoreState C) (active last : Bool)
      (r : Option (Pass C))
      → s.shutting_down ≡ last
      → EndsTended Live Dropped Stopped n r
      → TurnTended e fuel Live Dropped Stopped last n (after_pass e policy fuel s active r)
  after_pass-TurnTended fuel n policy s active true r on (p, q, tended) =
      rw (q, after_pass, on)
        (end_drain-TurnTended fuel n p (drain_all e fuel p.actors) tended
          (drain_all-DrainsAll fuel p.actors tended.1))
  after_pass-TurnTended fuel n policy s active false r on (p, q, tended) =
      rw (q, after_pass)
        (subst
          (λ x. TurnTended e fuel Live Dropped Stopped false n (
            if x
            then end_drain p.gone (drain_all e fuel p.actors)
            else some (end_turn policy s active p)))
          (sym on) (end_turn-TurnTended fuel n policy s active p on tended))

  pub turn-TurnTended :
      (policy : SchedulingPolicy) (fuel : ℕ) (s : CoreState C) (b : Inbox C)
      → s.shutting_down ≡ false
      → AllOf Live s.actors
      → AddsNew New b.messages
      → TurnTended e fuel Live Dropped Stopped
          (is_last b)
          (length s.actors + length (started e b.messages))
          (turn e policy fuel s b.messages b.disconnected)
  unfolding turn
  turn-TurnTended policy fuel s b on live news =
      let s' = (control_phase e s b.messages b.disconnected).0 in
      let actors = control_phase-actors e b.messages s b.disconnected in
      let now : s'.shutting_down ≡ is_last b =
        control_phase-last e b.messages s b.disconnected ∙ ap (λ x. x || is_last b) on in
      let all : AllOf Live s'.actors =
        subst (AllOf Live) (sym actors)
          (AllOf-append Live s.actors (started e b.messages) live (started-Live b.messages news)) in
      let n : length s'.actors ≡ length s.actors + length (started e b.messages) =
        ap (λ l. length l) actors ∙ length-append s.actors (started e b.messages) in
      subst
        (λ k.
          TurnTended e fuel Live Dropped Stopped (is_last b) k
            (turn e policy fuel s b.messages b.disconnected))
        n
        (after_pass-TurnTended fuel (length s'.actors) policy s'
          ((control_phase e s b.messages b.disconnected).1) (is_last b)
          (run_pass e policy.batch_drain (length s'.actors + 1) (start_pass s'.actors)) now
          (run_pass-Tended e New Live Dropped Stopped keeps policy.batch_drain s'.actors all))
