-- ===== src/System/Core/Lifecycle.antt =====
-- core/src/system.rs: the order in which a core thread calls `start`, `poll_one` and `stop` of an actor.
use aetherflow.Base.{◌≡◌}
use aetherflow.System.Cell.{ErasedActor, PollOutcome, LifecycleOutcome, worked, empty, ok}
use aetherflow.System.Core.Upkeep.{Upkeep}

-- The life of an actor: `on_start` once, then its messages, then `on_stop` once, unless it panicked for
-- good. Any other order of calls is out of order.
pub data Life : Type 0 where
  fresh : Life
  alive : Life
  broken : Life
  over : Life
  out_of_order : Life

abbrev after_start : Life → LifecycleOutcome → Life
after_start fresh ok = alive
after_start fresh LifecycleOutcome.panicked = broken
after_start alive o = out_of_order
after_start broken o = out_of_order
after_start over o = out_of_order
after_start out_of_order o = out_of_order

abbrev after_poll : Life → PollOutcome → Life
after_poll fresh o = out_of_order
after_poll alive worked = alive
after_poll alive empty = alive
after_poll alive PollOutcome.panicked = broken
after_poll broken o = out_of_order
after_poll over o = out_of_order
after_poll out_of_order o = out_of_order

abbrev after_stop : Life → Life
after_stop fresh = out_of_order
after_stop alive = over
after_stop broken = out_of_order
after_stop over = out_of_order
after_stop out_of_order = out_of_order

module _ {C : Type 0} where
  -- A cell together with its life so far.
  abbrev pub watched : ErasedActor C → ErasedActor (C × Life)
  watched e = record {
    start = λ p. let (c, o) = e.start p.0 in ((c, after_start p.1 o), o);
    poll_one = λ p. let (c, o) = e.poll_one p.0 in ((c, after_poll p.1 o), o);
    closed_and_empty = λ p. e.closed_and_empty p.0;
    stop = λ p. let (c, o) = e.stop p.0 in ((c, after_stop p.1), o);
  }

  abbrev pub IsFresh : C × Life → Type 0
  IsFresh p = p.1 ≡ fresh

  abbrev pub IsAlive : C × Life → Type 0
  IsAlive p = p.1 ≡ alive

  abbrev pub IsBroken : C × Life → Type 0
  IsBroken p = p.1 ≡ broken

  abbrev pub IsOver : C × Life → Type 0
  IsOver p = p.1 ≡ over
