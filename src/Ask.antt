-- ===== src/Ask.antt =====
-- core/src/ask.rs: request and reply. The reply cell is shared by the caller and by the `Responder`
-- that the actor holds; every access of either is one step, and accesses take effect in one order.
-- A cell that is read before it was written, or touched after it was freed, is a fault.
pub mod Protocol
pub mod Outcome
pub mod OnStack
mod Tests
use aetherflow.Base.{
  ℕ, zero, suc, ◌+◌, ◌-◌, ◌*◌, ◌/◌, ◌%◌, ◌^◌, ◌≤◌, ◌<◌, min, max, ◌≡◌, refl, sym, ap, ◌∙◌, ◌≢◌, ◌⊎◌,
  inl, inr, Bool, true, false, ◌&&◌, ◌||◌, not, Option, none, some, List, [], ◌∷◌, ◌++◌, map, arith,
  dec_lt, ℕ_discrete, ltb, leb, ◌==◌, if◌then◌else◌, Bool-cases, Option-cases, length, get_elem?,
  set, take, drop, replicate, length-set, length-append, get_elem?-set_self, get_elem?-set_ne,
  get_elem?_of_lt, lt_of_get_elem?,
}
use aetherflow.Errors.{Result, ok, err}

-- `AskError`
pub data AskError : Type 0 where
  no_reply : AskError
  closed : AskError
  would_block_calling_core : AskError
  timeout : AskError

-- `PENDING`, `REPLIED`, `ABANDONED` and `CONSUMED`
pub data CellState : Type 0 where
  pending : CellState
  replied : CellState
  abandoned : CellState
  consumed : CellState

-- Where the caller is in `ask` or `ask_timeout`.
pub data Caller (R : Type 0) : Type 0 where
  waiting : Caller R
  reading : Caller R
  consuming : R → Caller R
  leaving : Result R AskError → Caller R
  returned : Result R AskError → Caller R

-- Where the responder is: in the actor's hands, in `reply` before its store, before the release of
-- the cell, or gone.
pub data Responder : Type 0 where
  holding : Responder
  storing : Responder
  releasing : Responder
  gone : Responder

-- `ReplyCell` with its holders. An owned cell is in an `Arc` (`ask_timeout`), and a borrowed one on the
-- caller's stack (`ask`). The values that the cell's drop discards are kept.
pub record Shared (R : Type 0) : Type 0 where
  pub owned : Bool
  pub state : CellState
  pub slot : Option R
  pub caller : Caller R
  pub responder : Responder
  pub destroyed : Bool
  pub discarded : List R
  pub fault : Bool

abbrev pub is_gone : Responder → Bool
is_gone holding = false
is_gone storing = false
is_gone releasing = false
is_gone gone = true

-- The steps of both sides, in some order.
pub data Move (R : Type 0) : Type 0 where
  by_caller : (expired : Bool) → Move R
  by_responder : Option R → Move R

module _ {R : Type 0} where
  -- `ReplyCell::new` and the `Responder`
  unfoldable pub new_reply_cell : Bool → Shared R
  new_reply_cell owned = record {
    owned = owned;
    state = pending;
    slot = none;
    caller = waiting;
    responder = holding;
    destroyed = false;
    discarded = [];
    fault = false;
  }

  -- An access to the cell.
  abbrev pub touch : Shared R → Shared R
  touch s = record s { fault = s.fault || s.destroyed }

  -- `assume_init_drop`
  abbrev pub discard_slot : Shared R → Shared R
  discard_slot s = elim s.slot [
    | none ↦ record s { fault = true }
    | some v ↦ record s { discarded = s.discarded ++ (v ∷ []) }
  ]

  -- `ReplyCell::drop`
  unfoldable pub drop_cell : Shared R → Shared R
  drop_cell s =
      let s' = record (touch s) { destroyed = true } in
      elim s.state [ pending ↦ s' | replied ↦ discard_slot s' | abandoned ↦ s' | consumed ↦ s' ]

  abbrev pub has_returned : Caller R → Bool
  has_returned waiting = false
  has_returned reading = false
  has_returned (consuming v) = false
  has_returned (leaving r) = false
  has_returned (returned r) = true

  -- The loop of `ask` and `ask_timeout`: the load, and the deadline of the latter.
  abbrev pub on_load : Bool → Shared R → Shared R
  on_load expired s =
      let late = if s.owned && expired then record s { caller = leaving (err timeout) } else s in
      elim s.state [
        | pending ↦ late
        | replied ↦ record s { caller = reading }
        | abandoned ↦ record s { caller = leaving (err no_reply) }
        | consumed ↦ late
      ]

  -- `assume_init_read`
  abbrev pub on_read : Shared R → Shared R
  on_read s = elim s.slot [
    | none ↦ record s { fault = true }
    | some v ↦ record s { caller = consuming v }
  ]

  -- The caller gives up its hold of the cell: a borrowed cell goes with it.
  abbrev pub leave : Result R AskError → Shared R → Shared R
  leave r s =
      let s' = record s { caller = returned r } in
      if s.owned then if is_gone s.responder then drop_cell s' else s' else drop_cell s'

  -- One step of the caller; the argument tells whether the deadline has passed.
  unfoldable pub caller_step : Bool → Shared R → Shared R
  unfolding drop_cell
  caller_step expired s = elim s.caller [
    | waiting ↦ on_load expired (touch s)
    | reading ↦ on_read (touch s)
    | consuming v ↦ record (touch s) { state = consumed; caller = leaving (ok v) }
    | leaving r ↦ leave r s
    | returned r ↦ s
  ]

  -- The compare-exchange of `Responder::drop`.
  abbrev pub abandon : Shared R → Shared R
  abandon s = elim s.state [
    | pending ↦ record s { state = abandoned; responder = releasing }
    | replied ↦ record s { responder = releasing }
    | abandoned ↦ record s { responder = releasing }
    | consumed ↦ record s { responder = releasing }
  ]

  -- The actor's choice: `Responder::reply` with a value, or `Responder::drop`.
  abbrev pub answer : Option R → Shared R → Shared R
  answer none s = abandon s
  answer (some v) s = record s { slot = some v; responder = storing }

  -- The drop of the `Cell` inside the responder: nothing for a borrowed one.
  abbrev pub release : Shared R → Shared R
  release s =
      let s' = record s { responder = gone } in
      if s.owned && has_returned s.caller then drop_cell s' else s'

  -- One step of the responder.
  unfoldable pub responder_step : Option R → Shared R → Shared R
  unfolding drop_cell
  responder_step choice s = elim s.responder [
    | holding ↦ answer choice (touch s)
    | storing ↦ record (touch s) { state = replied; responder = releasing }
    | releasing ↦ release s
    | gone ↦ s
  ]

  unfoldable pub run : Shared R → List (Move R) → Shared R
  unfolding caller_step responder_step
  run s [] = s
  run s (by_caller expired ∷ ms) = run (caller_step expired s) ms
  run s (by_responder choice ∷ ms) = run (responder_step choice s) ms

-- What a wait does at a count of rounds.
pub data Wait : Type 0 where
  spin_loop : Wait
  yield_now : Wait
  sleep : Wait

-- `backoff`, with the next count.
unfoldable pub backoff : ℕ → Wait × ℕ
backoff waited = (
  if ltb waited 256 then spin_loop else if ltb waited 512 then yield_now else sleep,
  min (waited + 1) (2 ^ 32 - 1),
)

-- How a call begins: `WouldBlockCallingCore`, `Closed` with the responder dropped inside the message
-- that came back, or the wait.
pub data Begun (R : Type 0) : Type 0 where
  failed : AskError → Begun R
  waits : Shared R → Begun R

-- The beginning of `ask` (not owned) and of `ask_timeout` (owned), given the guard's answer and
-- whether the send succeeded.
unfoldable pub begin : {R : Type 0} → (owned would_deadlock sent : Bool) → Begun R
unfolding new_reply_cell
begin owned would_deadlock sent =
    if would_deadlock
    then failed would_block_calling_core
    else if sent
    then waits (new_reply_cell owned)
    else failed closed
