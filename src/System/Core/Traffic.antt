-- ===== src/System/Core/Traffic.antt =====
-- core/src/system.rs: an actor to which other threads send messages while its core thread runs. Each
-- send takes effect between two calls of the cell.
use aetherflow.Base.{ℕ, suc, List, [], ◌∷◌, ◌++◌}
use aetherflow.Errors.{Result, ok, err, TrySendError}
use aetherflow.Mailbox.{try_send}
use aetherflow.System.Cell.{ErasedActor, Actor, Clock, Cell, run_hook, poll_one, closed_and_empty}

-- What other threads do to a mailbox before a poll: the messages that they send, those that
-- `closed_and_empty` finds, if it is called before the poll, and the later ones, and the senders there
-- are at each of the two.
pub record Others (T : Type 0) : Type 0 where
  pub sent : List T
  pub senders : ℕ
  pub sent_later : List T
  pub senders_later : ℕ

-- A cell with its history: the number of its polls, the messages that its mailbox has accepted, and the
-- state in which the actor began; and what the others do before each poll.
pub record Traced (S T : Type 0) : Type 0 where
  pub cell : Cell S T
  pub polls : ℕ
  pub accepted : List T
  pub begun : S
  pub others : ℕ → Others T

abbrev pub note : {T : Type 0} → List T → T → Result (Unit {0}) (TrySendError T) → List T
note accepted m (ok u) = accepted ++ (m ∷ [])
note accepted m (err e) = accepted

module _ {S T : Type 0} where
  -- `ActorRef::try_send` of another thread.
  abbrev pub offer : T → Traced S T → Traced S T
  offer m p =
      let (rx', r) = try_send p.cell.rx m in
      record p { cell = record p.cell { rx = rx' }; accepted = note p.accepted m r }

  abbrev pub offer_all : List T → Traced S T → Traced S T
  offer_all [] p = p
  offer_all (m ∷ ms) p = offer_all ms (offer m p)

  abbrev pub with_senders : ℕ → Traced S T → Traced S T
  with_senders n p = record p { cell = record p.cell { senders = n } }

  -- Up to the next call of `closed_and_empty`, and up to the next poll.
  abbrev pub before_check : Traced S T → Traced S T
  before_check p = let o = p.others p.polls in with_senders o.senders (offer_all o.sent p)

  abbrev pub before_poll : Traced S T → Traced S T
  before_poll p =
      let o = p.others p.polls in
      with_senders o.senders_later (offer_all o.sent_later (offer_all o.sent p))

  -- The cell as its core thread sees it.
  abbrev pub busy_actor : Actor S T → (ℕ → Clock) → ErasedActor (Traced S T)
  busy_actor a clock = record {
    start =
        λ p. let (c, o) = run_hook a.on_start p.cell in (record p { cell = c; begun = c.actor }, o);
    poll_one = λ p.
        let q = before_poll p in
        let (c, o) = poll_one a (clock q.polls) q.cell in
        (record q { cell = c; polls = suc q.polls }, o);
    closed_and_empty = λ p. closed_and_empty (before_check p).cell;
    stop = λ p. let (c, o) = run_hook a.on_stop p.cell in (record p { cell = c }, o);
  }
