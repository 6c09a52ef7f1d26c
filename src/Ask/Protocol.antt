-- ===== src/Ask/Protocol.antt =====
-- core/src/ask.rs: the protocol of a reply cell. Each state that the steps reach is a row of a table,
-- so no step of any interleaving touches a freed cell or reads one that was not written.
use aetherflow.Base.{◌≡◌, refl, ap, ◌∙◌, Bool, true, false, ◌&&◌, Option, none, some, List, [], ◌∷◌}
use aetherflow.Errors.{ok, err}
use aetherflow.Ask.{
  no_reply, timeout, CellState, replied, abandoned, consumed, Caller, waiting, reading, consuming,
  leaving, returned, Responder, storing, releasing, gone, Shared, new_reply_cell, drop_cell,
  caller_step, responder_step, Move, by_caller, by_responder, run,
}

-- The caller before a reply: it waits, or it has timed out.
pub data Late : Type 0 where
  on_time : Late
  leaves : Late
  left : Late

-- The caller once there is a reply.
pub data Taking : Type 0 where
  unseen : Taking
  seen : Taking
  moved : Taking
  took : Taking
  done : Taking
  too_late : Taking
  missed : Taking

-- The caller once the responder was dropped.
pub data Quitting : Type 0 where
  unaware : Quitting
  quits : Quitting
  quit : Quitting
  timed_out : Quitting
  away : Quitting

-- The states of a cell. The flag says that the responder is gone.
pub data Row (R : Type 0) : Type 0 where
  asked : Late → Row R
  written : R → Late → Row R
  answered : R → Taking → (released : Bool) → Row R
  dropped : Quitting → (released : Bool) → Row R

abbrev pub state_at : Taking → CellState
state_at unseen = replied
state_at seen = replied
state_at moved = replied
state_at took = consumed
state_at done = consumed
state_at too_late = replied
state_at missed = replied

abbrev pub responder_at : Bool → Responder
responder_at false = releasing
responder_at true = gone

abbrev pub end_of_taking : Taking → Bool
end_of_taking done = true
end_of_taking missed = true
end_of_taking t = false

abbrev pub end_of_quitting : Quitting → Bool
end_of_quitting quit = true
end_of_quitting away = true
end_of_quitting q = false

abbrev pub late_next : Bool → Late → Late
late_next true on_time = leaves
late_next false on_time = on_time
late_next e leaves = left
late_next e left = left

abbrev pub taking_next : Taking → Taking
taking_next unseen = seen
taking_next seen = moved
taking_next moved = took
taking_next took = done
taking_next done = done
taking_next too_late = missed
taking_next missed = missed

abbrev pub quitting_next : Quitting → Quitting
quitting_next unaware = quits
quitting_next quits = quit
quitting_next quit = quit
quitting_next timed_out = away
quitting_next away = away

abbrev pub taking_of : Late → Taking
taking_of on_time = unseen
taking_of leaves = too_late
taking_of left = missed

abbrev pub quitting_of : Late → Quitting
quitting_of on_time = unaware
quitting_of leaves = timed_out
quitting_of left = away

module _ {R : Type 0} where
  abbrev pub caller_at : Late → Caller R
  caller_at on_time = waiting
  caller_at leaves = leaving (err timeout)
  caller_at left = returned (err timeout)

  abbrev pub taker_at : R → Taking → Caller R
  taker_at v unseen = waiting
  taker_at v seen = reading
  taker_at v moved = consuming v
  taker_at v took = leaving (ok v)
  taker_at v done = returned (ok v)
  taker_at v too_late = leaving (err timeout)
  taker_at v missed = returned (err timeout)

  abbrev pub quitter_at : Quitting → Caller R
  quitter_at unaware = waiting
  quitter_at quits = leaving (err no_reply)
  quitter_at quit = returned (err no_reply)
  quitter_at timed_out = leaving (err timeout)
  quitter_at away = returned (err timeout)

  -- A value that nobody takes any more is discarded with the cell.
  abbrev pub discarded_at : R → Taking → Bool → List R
  discarded_at v missed true = v ∷ []
  discarded_at v t b = []

  -- The cell of `ask_timeout` in a row: it is freed when both sides are done with it.
  abbrev pub owned_at : Row R → Shared R
  owned_at (asked l) = record (new_reply_cell true) { caller = caller_at l }
  owned_at (written v l) = record (new_reply_cell true) {
    slot = some v;
    caller = caller_at l;
    responder = storing;
  }
  owned_at (answered v t b) = record {
    owned = true;
    state = state_at t;
    slot = some v;
    caller = taker_at v t;
    responder = responder_at b;
    destroyed = end_of_taking t && b;
    discarded = discarded_at v t b;
    fault = false;
  }
  owned_at (dropped q b) = record {
    owned = true;
    state = abandoned;
    slot = none;
    caller = quitter_at q;
    responder = responder_at b;
    destroyed = end_of_quitting q && b;
    discarded = [];
    fault = false;
  }

  abbrev pub caller_next : Bool → Row R → Row R
  caller_next e (asked l) = asked (late_next e l)
  caller_next e (written v l) = written v (late_next e l)
  caller_next e (answered v t b) = answered v (taking_next t) b
  caller_next e (dropped q b) = dropped (quitting_next q) b

  abbrev pub responder_next : Option R → Row R → Row R
  responder_next none (asked l) = dropped (quitting_of l) false
  responder_next (some v) (asked l) = written v l
  responder_next o (written v l) = answered v (taking_of l) false
  responder_next o (answered v t b) = answered v t true
  responder_next o (dropped q b) = dropped q true

  owned-caller_step :
      (e : Bool) (r : Row R) → caller_step e (owned_at r) ≡ owned_at (caller_next e r)
  unfolding caller_step drop_cell new_reply_cell
  owned-caller_step true (asked on_time) = refl
  owned-caller_step false (asked on_time) = refl
  owned-caller_step e (asked leaves) = refl
  owned-caller_step e (asked left) = refl
  owned-caller_step true (written v on_time) = refl
  owned-caller_step false (written v on_time) = refl
  owned-caller_step e (written v leaves) = refl
  owned-caller_step e (written v left) = refl
  owned-caller_step e (answered v unseen b) = refl
  owned-caller_step e (answered v seen b) = refl
  owned-caller_step e (answered v moved b) = refl
  owned-caller_step e (answered v took false) = refl
  owned-caller_step e (answered v took true) = refl
  owned-caller_step e (answered v done b) = refl
  owned-caller_step e (answered v too_late false) = refl
  owned-caller_step e (answered v too_late true) = refl
  owned-caller_step e (answered v missed b) = refl
  owned-caller_step e (dropped unaware b) = refl
  owned-caller_step e (dropped quits false) = refl
  owned-caller_step e (dropped quits true) = refl
  owned-caller_step e (dropped quit b) = refl
  owned-caller_step e (dropped timed_out false) = refl
  owned-caller_step e (dropped timed_out true) = refl
  owned-caller_step e (dropped away b) = refl

  owned-responder_step :
      (o : Option R) (r : Row R) → responder_step o (owned_at r) ≡ owned_at (responder_next o r)
  unfolding responder_step drop_cell new_reply_cell
  owned-responder_step none (asked on_time) = refl
  owned-responder_step none (asked leaves) = refl
  owned-responder_step none (asked left) = refl
  owned-responder_step (some v) (asked l) = refl
  owned-responder_step o (written v on_time) = refl
  owned-responder_step o (written v leaves) = refl
  owned-responder_step o (written v left) = refl
  owned-responder_step o (answered v t true) = refl
  owned-responder_step o (answered v unseen false) = refl
  owned-responder_step o (answered v seen false) = refl
  owned-responder_step o (answered v moved false) = refl
  owned-responder_step o (answered v took false) = refl
  owned-responder_step o (answered v done false) = refl
  owned-responder_step o (answered v too_late false) = refl
  owned-responder_step o (answered v missed false) = refl
  owned-responder_step o (dropped q true) = refl
  owned-responder_step o (dropped unaware false) = refl
  owned-responder_step o (dropped quits false) = refl
  owned-responder_step o (dropped quit false) = refl
  owned-responder_step o (dropped timed_out false) = refl
  owned-responder_step o (dropped away false) = refl

  abbrev pub move_next : Move R → Row R → Row R
  move_next (by_caller e) r = caller_next e r
  move_next (by_responder o) r = responder_next o r

  abbrev pub rows : Row R → List (Move R) → Row R
  rows r [] = r
  rows r (m ∷ ms) = rows (move_next m r) ms

  pub run-owned_at : (r : Row R) (ms : List (Move R)) → run (owned_at r) ms ≡ owned_at (rows r ms)
  unfolding run
  run-owned_at r [] = refl
  run-owned_at r (by_caller e ∷ ms) =
      ap (λ s. run s ms) (owned-caller_step e r) ∙ run-owned_at (caller_next e r) ms
  run-owned_at r (by_responder o ∷ ms) =
      ap (λ s. run s ms) (owned-responder_step o r) ∙ run-owned_at (responder_next o r) ms
