-- ===== src/System/Core/Loop.antt =====
-- core/src/system.rs: `core_loop` over any number of turns. What the control channel holds at each turn
-- is an input; what other threads send to a mailbox meanwhile is up to the cell's calls.
use aetherflow.Base.{
  ℕ, Bool, true, false, ◌||◌, Option, none, some, List, [], ◌∷◌, ◌++◌, if◌then◌else◌,
}
use aetherflow.System.{SchedulingPolicy}
use aetherflow.System.Cell.{ErasedActor, LifecycleOutcome, ok}
use aetherflow.System.Core.{
  Control, add, shutdown, Visited, CoreState, Turn, finished, goes_on, turn,
}

-- What `control.try_recv()` returns in a turn: messages, and whether the channel is disconnected then.
pub record Inbox (C : Type 0) : Type 0 where
  pub messages : List (Control C)
  pub disconnected : Bool

-- After some turns: the thread is in its loop, or has left it. The cells that left are recorded.
pub data Ran (C : Type 0) : Type 0 where
  running : CoreState C → (gone : List (Visited C)) → Ran C
  exited : (gone : List (Visited C)) → Ran C

module _ {C : Type 0} where
  abbrev pub no_actors : CoreState C
  no_actors = record { actors = []; shutting_down = false; idle_count = 0 }

  abbrev pub after_turn :
      (CoreState C → List (Visited C) → Option (Ran C))
      → List (Visited C)
      → Option (Turn C)
      → Option (Ran C)
  after_turn more gone none = none
  after_turn more gone (some (finished left)) = some (exited (gone ++ left))
  after_turn more gone (some (goes_on s left action)) = more s (gone ++ left)

  -- `loop { .. }`; the fuel bounds the drain of each cell at shutdown.
  unfoldable pub core_loop :
      ErasedActor C
      → SchedulingPolicy
      → ℕ
      → CoreState C
      → List (Visited C)
      → List (Inbox C)
      → Option (Ran C)
  core_loop e policy fuel s gone [] = some (running s gone)
  core_loop e policy fuel s gone (b ∷ inboxes) =
      after_turn (λ s' gone'. core_loop e policy fuel s' gone' inboxes) gone
        (turn e policy fuel s b.messages b.disconnected)

  -- Whether the messages ask the thread to stop.
  abbrev pub asks : List (Control C) → Bool
  asks [] = false
  asks (add c ∷ ms) = asks ms
  asks (shutdown ∷ ms) = true

  abbrev pub is_last : Inbox C → Bool
  is_last b = asks b.messages || b.disconnected

  abbrev pub any_last : List (Inbox C) → Bool
  any_last [] = false
  any_last (b ∷ inboxes) = is_last b || any_last inboxes

  -- The cells that the messages add and whose `on_start` does not panic, after it.
  abbrev pub cons_started : C → LifecycleOutcome → List C → List C
  cons_started c ok l = c ∷ l
  cons_started c LifecycleOutcome.panicked l = l

  abbrev pub started : ErasedActor C → List (Control C) → List C
  started e [] = []
  started e (add c ∷ ms) = cons_started (e.start c).0 (e.start c).1 (started e ms)
  started e (shutdown ∷ ms) = started e ms

  -- Those of the turns up to the one that is the last.
  abbrev pub all_started : ErasedActor C → List (Inbox C) → List C
  all_started e [] = []
  all_started e (b ∷ inboxes) =
      let rest = all_started e inboxes in started e b.messages ++ (if is_last b then [] else rest)
