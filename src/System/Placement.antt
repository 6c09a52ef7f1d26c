-- ===== src/System/Placement.antt =====
-- core/src/system.rs: `System`, `SpawnBuilder` and `ActorRef`. A thread is its control channel and
-- whether it runs; pinning and the name of a thread are not modelled. An assertion that fails, and
-- `panic!`, are `none`.
pub mod Laws
pub mod RoundRobin
pub mod Spread
use aetherflow.Base.{
  ℕ, zero, suc, ◌+◌, ◌-◌, ◌*◌, ◌/◌, ◌%◌, ◌^◌, ◌≤◌, ◌<◌, min, max, ◌≡◌, refl, sym, ap, ◌∙◌, ◌≢◌, ◌⊎◌,
  inl, inr, Bool, true, false, ◌&&◌, ◌||◌, not, Option, none, some, List, [], ◌∷◌, ◌++◌, map, arith,
  dec_lt, ℕ_discrete, ltb, leb, ◌==◌, if◌then◌else◌, Bool-cases, Option-cases, length, get_elem?,
  set, take, drop, replicate, length-set, length-append, get_elem?-set_self, get_elem?-set_ne,
  get_elem?_of_lt, lt_of_get_elem?,
}
use aetherflow.Base.Words.{wrapping_add, next_power_of_two}
use aetherflow.Errors.{TrySendError, full, closed, SendError, Result, ok, err}
use aetherflow.Mailbox
use aetherflow.Mailbox.{Mailbox}
use aetherflow.Metrics.{LatencyHistogram}
use aetherflow.Metrics
use aetherflow.System.Supervise.{RestartPolicy, never, default_supervised, no_restarts}
use aetherflow.System.Cell.{Cell}
use aetherflow.System.Core.{Control, add, shutdown}

-- `CoreHandle`: the control messages sent, and the thread.
pub record CoreHandle (C : Type 0) : Type 0 where
  pub control : List (Control C)
  pub running : Bool

-- `System`
pub record System (C : Type 0) : Type 0 where
  pub cores : List (CoreHandle C)
  pub next : ℕ

-- `ActorRef`, less the sending end of the mailbox, which the cell's `rx` and `senders` stand for.
pub record ActorRef : Type 0 where
  pub instrumented : Bool
  pub core : ℕ

-- `DEFAULT_MAILBOX_CAPACITY`
abbrev pub default_mailbox_capacity : ℕ
default_mailbox_capacity = 1024

module _ {C : Type 0} where
  -- `System::with_policy`
  unfoldable pub with_cores : ℕ → Option (System C)
  with_cores n =
      if leb 1 n
      then some (record { cores = replicate n (record { control = []; running = true }); next = 0 })
      else none

  -- `System::num_cores`
  abbrev pub num_cores : System C → ℕ
  num_cores s = length s.cores

  -- `self.cores[core].control.send(m)`; the thread's end is there as long as it runs.
  abbrev pub send_control : System C → ℕ → Control C → Option (System C)
  send_control s core m = elim (get_elem? s.cores core) [
    | none ↦ none
    | some h ↦
        if h.running
        then some
            (record s { cores = set s.cores core (record h { control = h.control ++ (m ∷ []) }) })
        else none
  ]

  -- `self.next.fetch_add(1) % self.cores.len()`
  abbrev pub next_core : System C → System C × ℕ
  next_core s = (record s { next = wrapping_add s.next 1 }, s.next % length s.cores)

  -- `System::drop`: a thread whose channel is closed is skipped, and every thread is joined.
  abbrev pub stop_core : CoreHandle C → CoreHandle C
  stop_core h = record {
    control = if h.running then h.control ++ (shutdown ∷ []) else h.control;
    running = false;
  }

  unfoldable pub drop_system : System C → System C
  drop_system s = record s { cores = map stop_core s.cores }

  -- `System::shutdown`
  abbrev pub shutdown_system : System C → System C
  shutdown_system s = drop_system s

abbrev pub is_some : Option LatencyHistogram → Bool
is_some none = false
is_some (some h) = true

abbrev pub policy_of : Option RestartPolicy → RestartPolicy
policy_of none = default_supervised
policy_of (some p) = p

module _ {S T : Type 0} where
  -- The cell that `System::install` makes.
  abbrev pub new_cell :
      ℕ → S → Option (Option S) → RestartPolicy → Option LatencyHistogram → Cell S T
  new_cell mailbox actor factory policy metrics = record {
    actor = actor;
    rx = Mailbox.new (next_power_of_two mailbox);
    senders = 1;
    factory = factory;
    restart_policy = policy;
    restarts = no_restarts;
    metrics = metrics;
  }

  abbrev pub with_ref :
      ℕ
      → Option LatencyHistogram
      → Option (System (Cell S T))
      → Option (System (Cell S T) × ActorRef)
  with_ref core metrics none = none
  with_ref core metrics (some s) = some (s, record { instrumented = is_some metrics; core = core })

  -- `System::install`
  unfoldable pub install :
      System (Cell S T)
      → ℕ
      → ℕ
      → S
      → Option (Option S)
      → RestartPolicy
      → Option LatencyHistogram
      → Option (System (Cell S T) × ActorRef)
  install s core mailbox actor factory policy metrics =
      if ltb core (length s.cores)
      then with_ref core metrics
          (send_control s core (add (new_cell mailbox actor factory policy metrics)))
      else none

  -- `System::spawn_on_with`
  abbrev pub spawn_on_with : System (Cell S T) → ℕ → S → ℕ → Option (System (Cell S T) × ActorRef)
  spawn_on_with s core actor mailbox = install s core mailbox actor none never none

  -- `System::spawn_on`
  abbrev pub spawn_on : System (Cell S T) → ℕ → S → Option (System (Cell S T) × ActorRef)
  spawn_on s core actor = spawn_on_with s core actor default_mailbox_capacity

  -- `System::spawn`
  unfoldable pub spawn : System (Cell S T) → S → Option (System (Cell S T) × ActorRef)
  spawn s actor = let (s', core) = next_core s in spawn_on s' core actor

  -- `System::spawn_on_supervised_with`; a factory that panics takes the caller with it.
  abbrev pub spawn_on_supervised_with :
      System (Cell S T) → ℕ → Option S → ℕ → Option (System (Cell S T) × ActorRef)
  spawn_on_supervised_with s core none mailbox = none
  spawn_on_supervised_with s core (some made) mailbox =
      install s core mailbox made (some (some made)) default_supervised none

  -- `System::spawn_on_supervised`
  abbrev pub spawn_on_supervised :
      System (Cell S T) → ℕ → Option S → Option (System (Cell S T) × ActorRef)
  spawn_on_supervised s core make = spawn_on_supervised_with s core make default_mailbox_capacity

-- `SpawnBuilder`, less the system that it borrows.
pub record SpawnBuilder (S : Type 0) : Type 0 where
  pub make : Option S
  pub core : Option ℕ
  pub mailbox : ℕ
  pub supervised : Bool
  pub restart_policy : Option RestartPolicy
  pub instrumented : Bool

module _ {S : Type 0} where
  -- `System::build`
  abbrev pub build : Option S → SpawnBuilder S
  build make = record {
    make = make;
    core = none;
    mailbox = default_mailbox_capacity;
    supervised = false;
    restart_policy = none;
    instrumented = false;
  }

  abbrev pub on_core : SpawnBuilder S → ℕ → SpawnBuilder S
  on_core b core = record b { core = some core }

  abbrev pub with_mailbox : SpawnBuilder S → ℕ → SpawnBuilder S
  with_mailbox b capacity = record b { mailbox = capacity }

  abbrev pub as_supervised : SpawnBuilder S → SpawnBuilder S
  as_supervised b = record b { supervised = true }

  abbrev pub with_restart_policy : SpawnBuilder S → RestartPolicy → SpawnBuilder S
  with_restart_policy b policy = record b { supervised = true; restart_policy = some policy }

  abbrev pub as_instrumented : SpawnBuilder S → SpawnBuilder S
  as_instrumented b = record b { instrumented = true }

module _ {S T : Type 0} where
  abbrev pub choose_core : System (Cell S T) → Option ℕ → System (Cell S T) × ℕ
  choose_core s (some core) = (s, core)
  choose_core s none = next_core s

  -- `SpawnBuilder::spawn`
  unfoldable pub spawn_built :
      System (Cell S T) → SpawnBuilder S → Option (System (Cell S T) × ActorRef)
  spawn_built s b =
      let (s', core) = choose_core s b.core in
      let metrics = if b.instrumented then some Metrics.new else none in
      elim b.make [
        | none ↦ none
        | some actor ↦
            if b.supervised
            then install s' core b.mailbox actor (some b.make) (policy_of b.restart_policy) metrics
            else install s' core b.mailbox actor none never metrics
      ]

-- `ActorRef::would_deadlock_calling_core`, with the core of the calling thread.
unfoldable pub would_deadlock : Option ℕ → ActorRef → Bool
would_deadlock none r = false
would_deadlock (some core) r = core == r.core

-- How a blocking send ends: by the failed assertion, or with a result.
pub data SendOutcome (T : Type 0) : Type 0 where
  assertion_failed : SendOutcome T
  returned : Result (Unit {0}) (SendError T) → SendOutcome T

module _ {T : Type 0} where
  -- The loop of `ActorRef::send_blocking`, on fuel; `others` is what the other threads do to the
  -- mailbox before an attempt.
  pub send_loop :
      (ℕ → Mailbox T → Mailbox T)
      → ℕ
      → ℕ
      → Mailbox T
      → T
      → Option (Mailbox T × Result (Unit {0}) (SendError T))
  send_loop others zero k m x = none
  send_loop others (suc fuel) k m x =
      let (m', r) = Mailbox.try_send (others k m) x in
      elim r [
        | ok u ↦ some (m', ok tt)
        | err e ↦ elim e [
          | full returned_msg ↦ send_loop others fuel (suc k) m' returned_msg
          | TrySendError.closed returned_msg ↦ some (m', err (SendError.closed returned_msg))
        ]
      ]

  abbrev pub as_returned :
      Option (Mailbox T × Result (Unit {0}) (SendError T)) → Option (Mailbox T × SendOutcome T)
  as_returned none = none
  as_returned (some (m, r)) = some (m, returned r)

  -- `ActorRef::send_blocking`
  unfoldable pub send_blocking :
      Option ℕ
      → ActorRef
      → (ℕ → Mailbox T → Mailbox T)
      → ℕ
      → Mailbox T
      → T
      → Option (Mailbox T × SendOutcome T)
  unfolding send_loop
  send_blocking current r others fuel m x =
      if would_deadlock current r
      then some (m, assertion_failed)
      else as_returned (send_loop others fuel 0 m x)
