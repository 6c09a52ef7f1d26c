-- ===== src/System/Core.antt =====
-- core/src/system.rs: `core_loop`, the thread that runs the actors of a core, over any cells that it
-- knows through `ErasedActor`. What the control channel (`std::sync::mpsc`) holds at a turn is an
-- input. Thread pinning has no effect here. A cell that leaves the core is recorded with how it left.
pub mod Visits
pub mod Drain
pub mod InOrder
pub mod Removal
pub mod Upkeep
pub mod Loop
pub mod Turns
pub mod Runs
pub mod Lifecycle
pub mod Shutdown
pub mod Restarts
pub mod Share
pub mod Messages
pub mod Traffic
pub mod Handled
mod Tests
use aetherflow.Base.{
  ℕ, zero, suc, ◌+◌, ◌-◌, ◌*◌, ◌/◌, ◌%◌, ◌^◌, ◌≤◌, ◌<◌, min, max, ◌≡◌, refl, sym, ap, ◌∙◌, ◌≢◌, ◌⊎◌,
  inl, inr, Bool, true, false, ◌&&◌, ◌||◌, not, Option, none, some, List, [], ◌∷◌, ◌++◌, map, arith,
  dec_lt, ℕ_discrete, ltb, leb, ◌==◌, if◌then◌else◌, Bool-cases, Option-cases, length, get_elem?,
  set, take, drop, replicate, length-set, length-append, get_elem?-set_self, get_elem?-set_ne,
  get_elem?_of_lt, lt_of_get_elem?,
}
use aetherflow.System.{SchedulingPolicy, IdleAction, idle, next_idle_count}
use aetherflow.System.Cell.{ErasedActor, PollOutcome, LifecycleOutcome, worked, empty, ok}

-- `Control`
pub data Control (C : Type 0) : Type 0 where
  add : C → Control C
  shutdown : Control C

-- What a visit makes of a cell: it stays, it is dropped without `on_stop`, or it is stopped.
pub data Visited (C : Type 0) : Type 0 where
  kept : C → Visited C
  dropped : C → Visited C
  stopped : C → Visited C

-- The variables of the thread.
pub record CoreState (C : Type 0) : Type 0 where
  pub actors : List C
  pub shutting_down : Bool
  pub idle_count : ℕ

-- The variables of a pass: the list with its index, `did_work`, and the cells that left.
pub record Pass (C : Type 0) : Type 0 where
  pub actors : List C
  pub i : ℕ
  pub did_work : Bool
  pub gone : List (Visited C)

abbrev pub cons_opt : {B : Type 0} → Option B → Option (List B) → Option (List B)
cons_opt none r = none
cons_opt (some b) none = none
cons_opt (some b) (some bs) = some (b ∷ bs)

module _ {C : Type 0} where
  -- `Vec::swap_remove`: the last element takes the place of the one removed.
  abbrev pub under_first : C → List C → List C
  under_first x [] = x ∷ []
  under_first x (l ∷ xs) = l ∷ x ∷ xs

  abbrev pub last_first : List C → List C
  last_first [] = []
  last_first (x ∷ xs) = under_first x (last_first xs)

  abbrev pub swap_remove : List C → ℕ → List C
  swap_remove [] i = []
  swap_remove (x ∷ xs) zero = last_first xs
  swap_remove (x ∷ xs) (suc i) = x ∷ swap_remove xs i

  -- `for _ in 1..batch_drain`, with whether the actor panicked.
  pub batch : ErasedActor C → ℕ → C → C × Bool
  batch e zero c = (c, false)
  batch e (suc n) c =
      let (c', o) = e.poll_one c in
      let rest = batch e n c' in
      elim o [ worked ↦ rest | empty ↦ (c', false) | PollOutcome.panicked ↦ (c', true) ]

  abbrev pub end_batch : C × Bool → Visited C × Bool
  end_batch (c, panicked) = (if panicked then dropped c else kept c, true)

  abbrev pub end_empty : ErasedActor C → C → Visited C × Bool
  end_empty e c = (if e.closed_and_empty c then stopped (e.stop c).0 else kept c, false)

  -- The visit of one actor, with whether it did work.
  unfoldable pub visit : ErasedActor C → ℕ → C → Visited C × Bool
  unfolding batch
  visit e batch_drain c =
      let (c', o) = e.poll_one c in
      elim o [
        | worked ↦ end_batch (batch e (batch_drain - 1) c')
        | empty ↦ end_empty e c'
        | PollOutcome.panicked ↦ (dropped c', true)
      ]

  -- The list and the index after the visit at the index.
  unfoldable pub settle : Pass C → Visited C × Bool → Pass C
  settle p (v, did) =
      let did_work = p.did_work || did in
      elim v [
        | kept c ↦ record p { actors = set p.actors p.i c; i = p.i + 1; did_work = did_work }
        | dropped c ↦ record p {
          actors = swap_remove p.actors p.i;
          did_work = did_work;
          gone = p.gone ++ (dropped c ∷ []);
        }
        | stopped c ↦ record p {
          actors = swap_remove p.actors p.i;
          did_work = did_work;
          gone = p.gone ++ (stopped c ∷ []);
        }
      ]

  -- `while i < actors.len()`, on fuel.
  pub run_pass : ErasedActor C → ℕ → ℕ → Pass C → Option (Pass C)
  run_pass e batch_drain zero p = none
  run_pass e batch_drain (suc fuel) p = elim (get_elem? p.actors p.i) [
    | none ↦ some p
    | some c ↦ run_pass e batch_drain fuel (settle p (visit e batch_drain c))
  ]

  abbrev pub start_pass : List C → Pass C
  start_pass actors = record { actors = actors; i = 0; did_work = false; gone = [] }

  -- One control message, with whether it is activity.
  abbrev pub control_step : ErasedActor C → CoreState C → Control C → CoreState C × Bool
  control_step e s (add c) =
      let (c', o) = e.start c in
      elim o [
        | ok ↦ (record s { actors = s.actors ++ (c' ∷ []) }, true)
        | LifecycleOutcome.panicked ↦ (s, true)
      ]
  control_step e s shutdown = (record s { shutting_down = true }, false)

  -- The control plane: the messages there are, and whether the channel is disconnected after them.
  pub control_phase : ErasedActor C → CoreState C → List (Control C) → Bool → CoreState C × Bool
  control_phase e s [] disconnected =
      (record s { shutting_down = s.shutting_down || disconnected }, false)
  control_phase e s (m ∷ ms) disconnected =
      let (s', active) = control_step e s m in
      let (s'', active') = control_phase e s' ms disconnected in (s'', active || active')

  -- The drain of one cell at shutdown, on fuel, and `on_stop` unless it panicked.
  unfoldable pub drain_cell : ErasedActor C → ℕ → C → Option (Visited C)
  drain_cell e zero c = none
  drain_cell e (suc fuel) c =
      let (c', o) = e.poll_one c in
      let rest = drain_cell e fuel c' in
      elim o [
        | worked ↦ rest
        | empty ↦ some (stopped (e.stop c').0)
        | PollOutcome.panicked ↦ some (dropped c')
      ]

  -- `for mut cell in actors.drain(..)`
  pub drain_all : ErasedActor C → ℕ → List C → Option (List (Visited C))
  drain_all e fuel [] = some []
  drain_all e fuel (c ∷ cs) = cons_opt (drain_cell e fuel c) (drain_all e fuel cs)

-- What a turn of the loop ends with: the thread stops, or it goes on, after an idle action or none.
pub data Turn (C : Type 0) : Type 0 where
  finished : (gone : List (Visited C)) → Turn C
  goes_on : CoreState C → (gone : List (Visited C)) → Option IdleAction → Turn C

module _ {C : Type 0} where
  abbrev pub end_turn : SchedulingPolicy → CoreState C → Bool → Pass C → Turn C
  end_turn policy s active p =
      if p.did_work || active
      then goes_on (record s { actors = p.actors; idle_count = 0 }) p.gone none
      else goes_on (record s { actors = p.actors; idle_count = next_idle_count s.idle_count })
          p.gone (some (idle policy.idle s.idle_count))

  abbrev pub end_drain : List (Visited C) → Option (List (Visited C)) → Option (Turn C)
  end_drain gone none = none
  end_drain gone (some drained) = some (finished (gone ++ drained))

  abbrev pub after_pass :
      ErasedActor C → SchedulingPolicy → ℕ → CoreState C → Bool → Option (Pass C) → Option (Turn C)
  after_pass e policy fuel s active none = none
  after_pass e policy fuel s active (some p) =
      if s.shutting_down
      then end_drain p.gone (drain_all e fuel p.actors)
      else some (end_turn policy s active p)

  -- One turn of the loop; the fuel bounds the drain at shutdown.
  unfoldable pub turn :
      ErasedActor C → SchedulingPolicy → ℕ → CoreState C → List (Control C) → Bool → Option (Turn C)
  unfolding run_pass control_phase drain_all
  turn e policy fuel s messages disconnected =
      let (s', active) = control_phase e s messages disconnected in
      let passed = run_pass e policy.batch_drain (length s'.actors + 1) (start_pass s'.actors) in
      after_pass e policy fuel s' active passed
