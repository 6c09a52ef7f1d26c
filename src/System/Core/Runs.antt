-- ===== src/System/Core/Runs.antt =====
-- core/src/system.rs: what any number of turns of a core thread keep true of its cells.
use mathlib.Core.Path.{subst}
use mathlib.Core.List.{append-nil}
use native.Mathlib.Nat.{zero-add}
use aetherflow.Base.{
  ℕ, ◌+◌, ◌≡◌, refl, Bool, true, false, ◌||◌, Option, none, some, List, [], ◌∷◌, ◌++◌, arith,
  if◌then◌else◌, length, length-append,
}
use aetherflow.Base.AllOf.{AllOf, AllOf-append}
use aetherflow.System.{SchedulingPolicy}
use aetherflow.System.Cell.{ErasedActor}
use aetherflow.System.Core.{Visited, CoreState, Turn, finished, goes_on, turn}
use aetherflow.System.Core.Upkeep.{Upkeep, Left, Tended}
use aetherflow.System.Core.Loop.{
  Inbox, Ran, no_actors, running, exited, after_turn, core_loop, is_last, any_last, started,
  all_started,
}
use aetherflow.System.Core.Turns.{AddsNew, Undrained, TurnTended, turn-TurnTended}

module _ {C : Type 0} (New : C → Type 0) where
  -- What is known of the cells that are added.
  abbrev pub AllAddNew : List (Inbox C) → Type 0
  AllAddNew [] = Unit
  AllAddNew (b ∷ inboxes) = AddsNew New b.messages × AllAddNew inboxes

module _ {C : Type 0} (e : ErasedActor C) (fuel : ℕ) (Live Dropped Stopped : C → Type 0) where
  abbrev pub RunTended : Bool → ℕ → Option (Ran C) → Type 0
  RunTended last n none = (last ≡ true) × Undrained e fuel Live Dropped Stopped
  RunTended last n (some (exited gone)) =
      (last ≡ true) × (length gone ≡ n) × AllOf (Left Live Dropped Stopped) gone
  RunTended last n (some (running s gone)) =
      (last ≡ false) × (s.shutting_down ≡ false) × Tended Live Dropped Stopped n s.actors gone

module _ {C : Type 0} (e : ErasedActor C) (New Live Dropped Stopped : C → Type 0)
    (keeps : Upkeep e New Live Dropped Stopped) where
  after_turn-RunTended :
      (fuel n m : ℕ) (any last : Bool) (st rest : List C) (gone : List (Visited C))
      (more : CoreState C → List (Visited C) → Option (Ran C)) (actors : List C)
      (t : Option (Turn C))
      → Tended Live Dropped Stopped n actors gone
      → m ≡ length actors + length st
      → TurnTended e fuel Live Dropped Stopped last m t
      → ((s : CoreState C) (gone' : List (Visited C))
          → s.shutting_down ≡ false
          → Tended Live Dropped Stopped (n + length st) s.actors gone'
          → RunTended e fuel Live Dropped Stopped any
              ((n + length st) + length rest)
              (more s gone'))
      → RunTended e fuel Live Dropped Stopped
          (last || any)
          (n + length (st ++ (if last then [] else rest)))
          (after_turn more gone t)
  after_turn-RunTended fuel n m any last st rest gone more actors none tended sum (l, undrained)
        go =
      rw l (refl, undrained)
  after_turn-RunTended fuel n m any last st rest gone more actors (some (finished left))
        (all, live, g) sum (l, k, g') go =
      let both = length-append gone left in
      rw (l, append-nil st)
        (
          refl,
          omega (arith, both, k, sum, all),
          AllOf-append (Left Live Dropped Stopped) gone left g g',
        )
  after_turn-RunTended fuel n m any last st rest gone more actors (some (goes_on s left action))
        (all, live, g) sum (l, on, (k, live', g')) go =
      let both = length-append gone left in
      let sizes = length-append st rest in
      let total : (n + length st) + length rest ≡ n + length (st ++ rest) = omega (arith, sizes) in
      rw (l, ← total)
        (go s (gone ++ left) on (
          omega (arith, both, k, sum, all),
          live',
          AllOf-append (Left Live Dropped Stopped) gone left g g',
        ))

  -- So many turns of the loop, from a state with so many cells in all.
  core_loop-RunTended_from :
      (policy : SchedulingPolicy) (fuel n : ℕ) (inboxes : List (Inbox C)) (s : CoreState C)
      (gone : List (Visited C))
      → s.shutting_down ≡ false
      → Tended Live Dropped Stopped n s.actors gone
      → AllAddNew New inboxes
      → RunTended e fuel Live Dropped Stopped
          (any_last inboxes)
          (n + length (all_started e inboxes))
          (core_loop e policy fuel s gone inboxes)
  unfolding core_loop
  core_loop-RunTended_from policy fuel n [] s gone on (all, live, left) news =
      (refl, on, (omega (arith, all), live, left))
  core_loop-RunTended_from policy fuel n (b ∷ inboxes) s gone on tended (new, news) =
      after_turn-RunTended fuel n (length s.actors + length (started e b.messages))
        (any_last inboxes) (is_last b) (started e b.messages) (all_started e inboxes) gone
        (λ s' gone'. core_loop e policy fuel s' gone' inboxes) s.actors
        (turn e policy fuel s b.messages b.disconnected) tended refl
        (turn-TurnTended e New Live Dropped Stopped keeps policy fuel s b on tended.1 new)
        (λ s' gone' on' tended'.
          core_loop-RunTended_from policy fuel (n + length (started e b.messages)) inboxes s' gone'
            on' tended' news)

  -- From the start of the thread.
  pub core_loop-RunTended :
      (policy : SchedulingPolicy) (fuel : ℕ) (inboxes : List (Inbox C))
      → AllAddNew New inboxes
      → RunTended e fuel Live Dropped Stopped
          (any_last inboxes)
          (length (all_started e inboxes))
          (core_loop e policy fuel no_actors [] inboxes)
  core_loop-RunTended policy fuel inboxes news =
      subst
        (λ k.
          RunTended e fuel Live Dropped Stopped (any_last inboxes) k
            (core_loop e policy fuel no_actors [] inboxes))
        (zero-add _)
        (core_loop-RunTended_from policy fuel 0 inboxes no_actors [] refl (omega arith, tt, tt)
          news)
