-- ===== src/System/Cell.antt =====
-- core/src/system.rs: `ErasedActor` and `Cell`. The actor is a parameter; `none` is a panic that
-- `catch_unwind` contains, and what a handler does to other actors is not recorded. The mailbox is
-- the abstract one of Mailbox.antt, which core/src/mpsc.rs implements.
use aetherflow.Base.{ℕ, suc, ◌%◌, Bool, ◌&&◌, Option, none, some, ◌==◌, if◌then◌else◌}
use aetherflow.Base.Words.{word}
use aetherflow.Mailbox.{Mailbox, try_recv, is_nil}
use aetherflow.Metrics.{LatencyHistogram, record_sample}
use aetherflow.System.Supervise.{RestartPolicy, RestartState, allow_restart}

-- `PollOutcome`
pub data PollOutcome : Type 0 where
  worked : PollOutcome
  empty : PollOutcome
  panicked : PollOutcome

-- `LifecycleOutcome`
pub data LifecycleOutcome : Type 0 where
  ok : LifecycleOutcome
  panicked : LifecycleOutcome

-- `ErasedActor`: what a core thread knows of an actor's cell.
pub record ErasedActor (C : Type 0) : Type 0 where
  pub start : C → C × LifecycleOutcome
  pub poll_one : C → C × PollOutcome
  pub closed_and_empty : C → Bool
  pub stop : C → C × LifecycleOutcome

-- The trait `Actor` of core/src/lib.rs, of an actor with state `S` and messages `T`.
pub record Actor (S T : Type 0) : Type 0 where
  pub handle : S → T → Option S
  pub on_start : S → Option S
  pub on_stop : S → Option S
  pub on_restart : S → Option S

-- What the clock says at a poll: the instant of a restart request, and the time the handler took.
pub record Clock : Type 0 where
  pub now : ℕ
  pub elapsed : ℕ

-- `Cell`, with the number of its senders. The factory makes a new actor, or panics.
pub record Cell (S T : Type 0) : Type 0 where
  pub actor : S
  pub rx : Mailbox T
  pub senders : ℕ
  pub factory : Option (Option S)
  pub restart_policy : RestartPolicy
  pub restarts : RestartState
  pub metrics : Option LatencyHistogram

module _ {S T : Type 0} where
  -- A lifecycle hook within the panic boundary.
  abbrev pub run_hook : (S → Option S) → Cell S T → Cell S T × LifecycleOutcome
  run_hook hook c = elim (hook c.actor) [
    | none ↦ (c, LifecycleOutcome.panicked)
    | some a ↦ (record c { actor = a }, ok)
  ]

  -- `self.metrics.record(elapsed as u64)`
  abbrev pub measure : ℕ → Cell S T → Cell S T
  measure elapsed c = elim c.metrics [
    | none ↦ c
    | some h ↦ record c { metrics = some (record_sample h (elapsed % word)) }
  ]

  -- The factory and `on_restart`, within the panic boundary.
  abbrev pub rebuild : Actor S T → Option S → Option S
  rebuild a none = none
  rebuild a (some made) = a.on_restart made

  abbrev pub install_rebuilt : Cell S T → Option S → Cell S T × PollOutcome
  install_rebuilt c none = (c, PollOutcome.panicked)
  install_rebuilt c (some a) = (record c { actor = a }, worked)

  -- After a handler's panic: `if self.factory.is_some() && self.allow_restart()`.
  unfoldable pub after_panic : Actor S T → ℕ → Cell S T → Cell S T × PollOutcome
  after_panic a now c = elim c.factory [
    | none ↦ (c, PollOutcome.panicked)
    | some make ↦
        let (s, allowed) = allow_restart c.restart_policy c.restarts now in
        let c' = record c { restarts = s } in
        if allowed then install_rebuilt c' (rebuild a make) else (c', PollOutcome.panicked)
  ]

  -- A message that was taken from the mailbox.
  unfoldable pub process : Actor S T → Clock → Cell S T → T → Cell S T × PollOutcome
  process a t c msg =
      let result = a.handle c.actor msg in
      let c' = measure t.elapsed c in
      elim result [ none ↦ after_panic a t.now c' | some s ↦ (record c' { actor = s }, worked) ]

  -- `Cell::poll_one`
  unfoldable pub poll_one : Actor S T → Clock → Cell S T → Cell S T × PollOutcome
  poll_one a t c =
      let (rx', r) = try_recv c.rx in
      elim r [ none ↦ (c, empty) | some msg ↦ process a t (record c { rx = rx' }) msg ]

  -- `Cell::closed_and_empty`
  abbrev pub closed_and_empty : Cell S T → Bool
  closed_and_empty c = (c.senders == 0) && is_nil (c.rx.items)

  -- A cell together with the number of its polls, driven through the trait.
  abbrev pub cell_actor : Actor S T → (ℕ → Clock) → ErasedActor (ℕ × Cell S T)
  cell_actor a clock = record {
    start = λ p. let (c, o) = run_hook a.on_start (p.1) in ((p.0, c), o);
    poll_one = λ p. let (c, o) = poll_one a (clock (p.0)) (p.1) in ((suc (p.0), c), o);
    closed_and_empty = λ p. closed_and_empty (p.1);
    stop = λ p. let (c, o) = run_hook a.on_stop (p.1) in ((p.0, c), o);
  }
