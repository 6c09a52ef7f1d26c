-- ===== src/System/Tests.antt =====
-- The runtime's theorems at concrete inputs: an actor that counts, and panics on 7.
use aetherflow.Base.{
  ℕ, zero, suc, ◌+◌, ◌*◌, ◌<◌, ◌≡◌, refl, inr, true, none, some, List, [], ◌∷◌, ◌++◌, arith, ◌==◌,
  if◌then◌else◌, length, drop, replicate,
}
use aetherflow.System.{backoff, spin_loop, yield_now, sleep, idle_passes}
use aetherflow.System.Stages.{idle_passes-Stages}
use aetherflow.Errors.{SendError, Result}
use aetherflow.Mailbox.{Mailbox}
use aetherflow.System.Supervise.{
  limited, default_supervised, no_restarts, answers, first_only, answers_lem,
}
use aetherflow.System.Cell.{Actor, Clock, Cell, cell_actor}
use aetherflow.System.Core.{run_pass, start_pass}
use aetherflow.System.Core.Visits.{Ends, visits, run_pass-Ends}
use aetherflow.System.Placement.{send_loop, CoreHandle, System}
use aetherflow.Base.{◌<◌, ◌+◌}
use aetherflow.System.Placement.Spread.{spawn_all, sent_to, spawn_all-Even}
use aetherflow.System.Placement.RoundRobin.{AllRunning}
use mathlib.Core.Path.{subst}
use mathlib.Core.Option.{some-injective}
use aetherflow.System.Placement.Laws.{Accounts, send_loop-Accounts}

answers_lem_example :
    answers (limited 2 100) no_restarts (10 ∷ 20 ∷ 90 ∷ 110 ∷ [])
    ≡ first_only 2 (10 ∷ 20 ∷ 90 ∷ 110 ∷ [])
answers_lem_example = answers_lem 2 100 10 (20 ∷ 90 ∷ 110 ∷ []) (omega arith) (omega arith)

abbrev counter : Actor ℕ ℕ
counter = record {
  handle = λ s m. if m == 7 then none else some (s + m);
  on_start = some;
  on_stop = some;
  on_restart = some;
}

abbrev clock : ℕ → Clock
clock k = record { now = k * 10; elapsed = 3 }

abbrev holding : List ℕ → Cell ℕ ℕ
holding items = record {
  actor = 0;
  rx = record { cap = 4; items = items; alive = true };
  senders = 0;
  factory = some (some 100);
  restart_policy = default_supervised;
  restarts = no_restarts;
  metrics = none;
}

abbrev three_cells : List (ℕ × Cell ℕ ℕ)
three_cells = (0, holding []) ∷ (0, holding (1 ∷ 7 ∷ [])) ∷ (0, holding (2 ∷ [])) ∷ []

run_pass-Ends_example :
    Ends
      (run_pass (cell_actor counter clock) 128 (length three_cells + 1) (start_pass three_cells))
      (visits (cell_actor counter clock) 128 three_cells)
run_pass-Ends_example = run_pass-Ends (cell_actor counter clock) 128 three_cells

abbrev full_mailbox : Mailbox ℕ
full_mailbox = record { cap = 2; items = 5 ∷ 6 ∷ []; alive = true }

-- The receiver takes a message before the second attempt.
abbrev one_taken : ℕ → Mailbox ℕ → Mailbox ℕ
one_taken zero m = m
one_taken (suc k) m = record m { items = drop 1 m.items }

send_loop-Accounts_example :
    (r : Mailbox ℕ × Result (Unit {0}) (SendError ℕ)) × (send_loop one_taken 2 0 full_mailbox 9
      ≡ some r)
    × Accounts 9 r
send_loop-Accounts_example = send_loop-Accounts one_taken 1 0 full_mailbox 9 (inr (omega arith))

abbrev idle_core : CoreHandle (Cell ℕ ℕ)
idle_core = record { control = []; running = true }

abbrev two_cores : System (Cell ℕ ℕ)
two_cores = record { cores = idle_core ∷ idle_core ∷ []; next = 5 }

two_running : AllRunning two_cores.cores
two_running zero h e = subst (λ y. y.running ≡ true) (some-injective idle_core h e) refl
two_running (suc zero) h e = subst (λ y. y.running ≡ true) (some-injective idle_core h e) refl
two_running (suc (suc i)) h e = absurd (ground (arith, e))

spawn_all-Even_example :
    (s' : System (Cell ℕ ℕ)) × (spawn_all two_cores (7 ∷ 8 ∷ 9 ∷ 10 ∷ []) ≡ some s')
    × ((i : ℕ) → i < length two_cores.cores → sent_to s' i ≡ sent_to two_cores i + 2)
spawn_all-Even_example =
    spawn_all-Even two_cores (7 ∷ 8 ∷ 9 ∷ 10 ∷ []) 2 two_running (omega arith) (omega arith)
      (omega arith)

idle_passes-Stages_example :
    idle_passes (backoff 2 1 50) 0 (2 + (1 + 4))
    ≡ replicate 2 spin_loop ++ (replicate 1 yield_now ++ replicate 4 (sleep 50))
idle_passes-Stages_example = idle_passes-Stages 2 1 50 (omega arith) 4
