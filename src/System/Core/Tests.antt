-- ===== src/System/Core/Tests.antt =====
-- A core thread at concrete inputs: actors that count, and panic on 7.
use aetherflow.Base.{
  ℕ, zero, suc, ◌+◌, ◌*◌, ◌≤◌, refl, true, false, none, some, List, [], ◌∷◌, arith, ◌==◌,
  if◌then◌else◌,
}
use aetherflow.System.Supervise.{RestartPolicy, limited, default_supervised, no_restarts, answers}
use aetherflow.System.Supervise.Stretch.{allowed, answers-Stretch}
use aetherflow.System.Cell.{Actor, Clock, Cell, cell_actor}
use aetherflow.System.Core.{add, shutdown, drain_cell, visit}
use aetherflow.System.Core.InOrder.{StoppedIn}
use aetherflow.System.Core.Loop.{Inbox}
use aetherflow.System.Core.Lifecycle.{Life, fresh}
use aetherflow.System.Core.Traffic.{Others, Traced}
use aetherflow.System.Core.Restarts.{drain_cell-Restarts}
use aetherflow.System.Core.Share.{Shares, visit-Shares}

abbrev counter : Actor ℕ ℕ
counter = record {
  handle = λ s m. if m == 7 then none else some (s + m);
  on_start = some;
  on_stop = some;
  on_restart = some;
}

abbrev clock : ℕ → Clock
clock k = record { now = k * 10; elapsed = 3 }

abbrev cell : RestartPolicy → List ℕ → Cell ℕ ℕ
cell policy items = record {
  actor = 0;
  rx = record { cap = 4; items = items; alive = true };
  senders = 1;
  factory = some (some 100);
  restart_policy = policy;
  restarts = no_restarts;
  metrics = none;
}

-- Two actors are added, one of which breaks; a third comes with the shutdown.
abbrev inboxes : {A : Type 0} → (Cell ℕ ℕ → A) → List (Inbox A)
inboxes wrap =
    (record {
      messages =
          add (wrap (cell default_supervised (1 ∷ 7 ∷ [])))
          ∷ add (wrap (cell (limited 0 5) (7 ∷ 2 ∷ [])))
          ∷ [];
      disconnected = false;
    })
    ∷ (record { messages = []; disconnected = false })
    ∷ (record {
      messages = shutdown ∷ add (wrap (cell default_supervised (3 ∷ []))) ∷ [];
      disconnected = false;
    })
    ∷ []

abbrev unstarted : Cell ℕ ℕ → (ℕ × Cell ℕ ℕ) × Life
unstarted c = ((0, c), fresh)

-- Two messages are sent before its first poll, and one before its third.
abbrev sends : ℕ → Others ℕ
sends zero = record { sent = 4 ∷ []; senders = 2; sent_later = 5 ∷ []; senders_later = 2 }
sends (suc zero) = record { sent = []; senders = 2; sent_later = []; senders_later = 1 }
sends (suc (suc zero)) = record { sent = []; senders = 1; sent_later = 7 ∷ []; senders_later = 1 }
sends (suc (suc (suc k))) = record { sent = []; senders = 1; sent_later = []; senders_later = 0 }

abbrev traced : Cell ℕ ℕ → Traced ℕ ℕ
traced c = record { cell = c; polls = 0; accepted = c.rx.items; begun = c.actor; others = sends }

-- It panics on two of the messages, and is allowed two restarts.
drain_cell-Restarts_example :
    StoppedIn counter 104
      (drain_cell (cell_actor counter clock) 5 (0, cell (limited 2 5) (3 ∷ 7 ∷ 7 ∷ 4 ∷ [])))
drain_cell-Restarts_example =
    drain_cell-Restarts counter 100 clock 0 (cell (limited 2 5) (3 ∷ 7 ∷ 7 ∷ 4 ∷ []))
      (some 100, refl, refl, omega arith)

visit-Shares_example :
    Shares counter clock 2 3
      (visit (cell_actor counter clock) 2 (0, cell default_supervised (1 ∷ 7 ∷ 2 ∷ [])))
visit-Shares_example = visit-Shares counter clock 2 0 (cell default_supervised (1 ∷ 7 ∷ 2 ∷ []))

-- Two requests at the end of a window of 100 and two in the next are allowed.
answers-Stretch_example :
    allowed (
      answers
        (limited 2 100)
        (record { window_start = some 0; count = 0 })
        (99 ∷ 100 ∷ 101 ∷ 102 ∷ []))
    ≤ 2 * 2
answers-Stretch_example =
    answers-Stretch 2 100 99 (record { window_start = some 0; count = 0 })
      (99 ∷ 100 ∷ 101 ∷ 102 ∷ []) (omega arith, (omega arith, (omega arith, (omega arith, tt))))
      (omega arith, (omega arith, (omega arith, (omega arith, tt)))) (omega arith)
