-- ===== src/System/Core/Handled.antt =====
-- core/src/system.rs: what an actor handles while its core thread runs and other threads send to it.
use aetherflow.Base.{suc, ◌≡◌, none, List, [], ◌∷◌, ◌++◌}
use aetherflow.Mailbox.{Mailbox}
use aetherflow.System.Cell.{PollOutcome, Actor, Cell}
use aetherflow.System.Core.InOrder.{after_stop}
use aetherflow.System.Core.Upkeep.{Upkeep, Polled}
use aetherflow.System.Core.Messages.{HandlesAll}
use aetherflow.System.Core.Traffic.{Traced}

module _ {S T : Type 0} (a : Actor S T) where
  -- The mailbox of a new actor may hold messages.
  abbrev pub IsNew : Traced S T → Type 0
  IsNew p = p.accepted ≡ p.cell.rx.items

  -- The actor is in the state that the messages that were accepted make of it, in that order, but for
  -- those that the mailbox holds.
  abbrev pub IsHandled : Traced S T → Type 0
  IsHandled p =
      (handled : List T) × (handled ++ p.cell.rx.items ≡ p.accepted)
      × HandlesAll a p.cell.factory p.begun handled p.cell.actor

  -- Its handler has panicked on the message after those that it had handled.
  abbrev pub HasPanicked : Traced S T → Type 0
  HasPanicked p =
      (handled : List T) × (m : T) × (s : S) × (handled ++ (m ∷ p.cell.rx.items) ≡ p.accepted)
      × HandlesAll a p.cell.factory p.begun handled s
      × (a.handle s m ≡ none)

  -- It was stopped with on_stop after it had handled every message that was accepted.
  abbrev pub IsDone : Traced S T → Type 0
  IsDone p =
      (s : S) × HandlesAll a p.cell.factory p.begun p.accepted s
      × (p.cell.actor ≡ after_stop a s)
      × (p.cell.rx.items ≡ [])

  -- The trace after a poll of its cell with such a result.
  abbrev StaysHandled : Traced S T → Cell S T × PollOutcome → Type 0
  StaysHandled q r = Polled IsHandled HasPanicked (record q { cell = r.0; polls = suc q.polls }) r.1
