-- ===== src/System/Core/Shutdown.antt =====
-- core/src/system.rs: a core thread that is asked to shut down ends, with every message processed.
use aetherflow.Base.{ℕ, ◌+◌, ◌<◌, ◌≡◌, Bool, true, false, Option, none, some, [], length}
use aetherflow.Base.AllOf.{AllOf}
use aetherflow.System.Cell.{Actor, Clock, Cell}
use aetherflow.System.Core.Drain.{Ended}
use aetherflow.System.Core.Upkeep.{Upkeep}
use aetherflow.System.Core.Loop.{Ran, running, exited}

module _ {S T : Type 0} (a : Actor S T) (clock : ℕ → Clock) where
  -- Fewer messages in the mailbox than this.
  abbrev pub IsSmall : ℕ → ℕ × Cell S T → Type 0
  IsSmall fuel p = length p.1.rx.items < fuel

  abbrev pub IsAny : ℕ × Cell S T → Type 0
  IsAny p = Unit

  abbrev pub IsEmptied : ℕ × Cell S T → Type 0
  IsEmptied p = p.1.rx.items ≡ []

  -- The thread is in its loop, or has left it with every cell stopped with nothing left to process, or
  -- dropped after a panic.
  abbrev pub Graceful : Bool → ℕ → Option (Ran (ℕ × Cell S T)) → Type 0
  Graceful last n none = ⊥
  Graceful last n (some (running s gone)) =
      (last ≡ false) × (length s.actors + length gone ≡ n) × AllOf Ended gone
  Graceful last n (some (exited gone)) = (last ≡ true) × (length gone ≡ n) × AllOf Ended gone
