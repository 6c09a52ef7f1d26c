-- ===== src/Ask/OnStack.antt =====
-- core/src/ask.rs: the exchange of `ask`, whose cell is on the caller's stack.
use mathlib.Core.Path.{subst}
use aetherflow.Base.{◌≡◌, refl, sym, Bool, true, false, Option, none, some, List, [], ◌∷◌, arith}
use aetherflow.Ask.{
  abandoned, Responder, holding, storing, releasing, gone, Shared, new_reply_cell, drop_cell,
  caller_step, responder_step, Move, by_caller, by_responder, run, has_returned,
}
use aetherflow.Ask.Protocol.{
  on_time, leaves, left, Taking, unseen, seen, moved, took, done, too_late, missed, Quitting,
  unaware, quits, quit, timed_out, away, Row, asked, written, answered, dropped, taker_at,
  quitter_at, state_at, responder_at,
}
use aetherflow.Ask.Outcome.{IsSound}

abbrev is_done : Taking → Bool
is_done done = true
is_done t = false

abbrev has_quit : Quitting → Bool
has_quit quit = true
has_quit q = false

abbrev pub has_answered : Responder → Bool
has_answered holding = false
has_answered storing = false
has_answered releasing = true
has_answered gone = true

module _ {R : Type 0} where
  -- The rows without a deadline.
  abbrev pub IsPrompt : Row R → Type 0
  IsPrompt (asked on_time) = Unit
  IsPrompt (asked l) = ⊥
  IsPrompt (written v on_time) = Unit
  IsPrompt (written v l) = ⊥
  IsPrompt (answered v too_late b) = ⊥
  IsPrompt (answered v missed b) = ⊥
  IsPrompt (answered v t b) = Unit
  IsPrompt (dropped timed_out b) = ⊥
  IsPrompt (dropped away b) = ⊥
  IsPrompt (dropped q b) = Unit

  -- The cell of `ask` in a row: it is freed when the caller returns.
  abbrev pub borrowed_at : Row R → Shared R
  borrowed_at (asked l) = new_reply_cell false
  borrowed_at (written v l) = record (new_reply_cell false) { slot = some v; responder = storing }
  borrowed_at (answered v t b) = record {
    owned = false;
    state = state_at t;
    slot = some v;
    caller = taker_at v t;
    responder = responder_at b;
    destroyed = is_done t;
    discarded = [];
    fault = false;
  }
  borrowed_at (dropped q b) = record {
    owned = false;
    state = abandoned;
    slot = none;
    caller = quitter_at q;
    responder = responder_at b;
    destroyed = has_quit q;
    discarded = [];
    fault = false;
  }

  -- The step of either side goes to a row again, which has no deadline either.
  abbrev Prompt : Shared R → Type 0
  Prompt s = (r : Row R) × IsPrompt r × (s ≡ borrowed_at r)

  borrowed-caller_step :
      (e : Bool) (r : Row R) → IsPrompt r → Prompt (caller_step e (borrowed_at r))
  unfolding caller_step drop_cell new_reply_cell
  borrowed-caller_step e (asked on_time) p = (asked on_time, tt, refl)
  borrowed-caller_step e (written v on_time) p = (written v on_time, tt, refl)
  borrowed-caller_step e (answered v unseen b) p = (answered v seen b, tt, refl)
  borrowed-caller_step e (answered v seen b) p = (answered v moved b, tt, refl)
  borrowed-caller_step e (answered v moved b) p = (answered v took b, tt, refl)
  borrowed-caller_step e (answered v took b) p = (answered v done b, tt, refl)
  borrowed-caller_step e (answered v done b) p = (answered v done b, tt, refl)
  borrowed-caller_step e (dropped unaware b) p = (dropped quits b, tt, refl)
  borrowed-caller_step e (dropped quits b) p = (dropped quit b, tt, refl)
  borrowed-caller_step e (dropped quit b) p = (dropped quit b, tt, refl)
  borrowed-caller_step e (asked leaves) p = elim p [ ]
  borrowed-caller_step e (asked left) p = elim p [ ]
  borrowed-caller_step e (written v leaves) p = elim p [ ]
  borrowed-caller_step e (written v left) p = elim p [ ]
  borrowed-caller_step e (answered v too_late b) p = elim p [ ]
  borrowed-caller_step e (answered v missed b) p = elim p [ ]
  borrowed-caller_step e (dropped timed_out b) p = elim p [ ]
  borrowed-caller_step e (dropped away b) p = elim p [ ]

  borrowed-responder_step :
      (o : Option R) (r : Row R) → IsPrompt r → Prompt (responder_step o (borrowed_at r))
  unfolding responder_step drop_cell new_reply_cell
  borrowed-responder_step none (asked on_time) p = (dropped unaware false, tt, refl)
  borrowed-responder_step (some v) (asked on_time) p = (written v on_time, tt, refl)
  borrowed-responder_step o (written v on_time) p = (answered v unseen false, tt, refl)
  borrowed-responder_step o (answered v unseen true) p = (answered v unseen true, tt, refl)
  borrowed-responder_step o (answered v unseen false) p = (answered v unseen true, tt, refl)
  borrowed-responder_step o (answered v seen true) p = (answered v seen true, tt, refl)
  borrowed-responder_step o (answered v seen false) p = (answered v seen true, tt, refl)
  borrowed-responder_step o (answered v moved true) p = (answered v moved true, tt, refl)
  borrowed-responder_step o (answered v moved false) p = (answered v moved true, tt, refl)
  borrowed-responder_step o (answered v took true) p = (answered v took true, tt, refl)
  borrowed-responder_step o (answered v took false) p = (answered v took true, tt, refl)
  borrowed-responder_step o (answered v done true) p = (answered v done true, tt, refl)
  borrowed-responder_step o (answered v done false) p = (answered v done true, tt, refl)
  borrowed-responder_step o (dropped unaware true) p = (dropped unaware true, tt, refl)
  borrowed-responder_step o (dropped unaware false) p = (dropped unaware true, tt, refl)
  borrowed-responder_step o (dropped quits true) p = (dropped quits true, tt, refl)
  borrowed-responder_step o (dropped quits false) p = (dropped quits true, tt, refl)
  borrowed-responder_step o (dropped quit true) p = (dropped quit true, tt, refl)
  borrowed-responder_step o (dropped quit false) p = (dropped quit true, tt, refl)
  borrowed-responder_step o (asked leaves) p = elim p [ ]
  borrowed-responder_step o (asked left) p = elim p [ ]
  borrowed-responder_step o (written v leaves) p = elim p [ ]
  borrowed-responder_step o (written v left) p = elim p [ ]
  borrowed-responder_step o (answered v too_late b) p = elim p [ ]
  borrowed-responder_step o (answered v missed b) p = elim p [ ]
  borrowed-responder_step o (dropped timed_out b) p = elim p [ ]
  borrowed-responder_step o (dropped away b) p = elim p [ ]

  Prompt-run : (ms : List (Move R)) (s : Shared R) → Prompt s → Prompt (run s ms)
  unfolding run
  Prompt-run [] s h = h
  Prompt-run (by_caller e ∷ ms) s (r, p, h) =
      Prompt-run ms (caller_step e s)
        (subst (λ x. Prompt (caller_step e x)) (sym h) (borrowed-caller_step e r p))
  Prompt-run (by_responder o ∷ ms) s (r, p, h) =
      Prompt-run ms (responder_step o s)
        (subst (λ x. Prompt (responder_step o x)) (sym h) (borrowed-responder_step o r p))

  borrowed_at-IsSound : (r : Row R) → IsPrompt r → IsSound (borrowed_at r)
  unfolding new_reply_cell
  borrowed_at-IsSound (asked on_time) p = (refl, refl)
  borrowed_at-IsSound (written v on_time) p = (refl, refl)
  borrowed_at-IsSound (answered v unseen b) p = (refl, refl)
  borrowed_at-IsSound (answered v seen b) p = (refl, refl)
  borrowed_at-IsSound (answered v moved b) p = (refl, refl)
  borrowed_at-IsSound (answered v took b) p = (refl, refl)
  borrowed_at-IsSound (answered v done false) p = (refl, refl)
  borrowed_at-IsSound (answered v done true) p = (refl, (refl, refl, refl))
  borrowed_at-IsSound (dropped unaware b) p = (refl, refl)
  borrowed_at-IsSound (dropped quits b) p = (refl, refl)
  borrowed_at-IsSound (dropped quit false) p = (refl, refl)
  borrowed_at-IsSound (dropped quit true) p = (refl, (refl, refl))
  borrowed_at-IsSound (asked leaves) p = elim p [ ]
  borrowed_at-IsSound (asked left) p = elim p [ ]
  borrowed_at-IsSound (written v leaves) p = elim p [ ]
  borrowed_at-IsSound (written v left) p = elim p [ ]
  borrowed_at-IsSound (answered v too_late b) p = elim p [ ]
  borrowed_at-IsSound (answered v missed b) p = elim p [ ]
  borrowed_at-IsSound (dropped timed_out b) p = elim p [ ]
  borrowed_at-IsSound (dropped away b) p = elim p [ ]

  none_discarded : (r : Row R) → (borrowed_at r).discarded ≡ []
  unfolding new_reply_cell
  none_discarded (asked l) = refl
  none_discarded (written v l) = refl
  none_discarded (answered v t b) = refl
  none_discarded (dropped q b) = refl

  -- In every interleaving of `ask`, although the cell is freed as soon as the caller returns, no side
  -- touches it after that or reads a value that was not written, and no value is discarded; so once
  -- both are done, the value of a reply is the one that the caller has returned.
  pub borrowed-IsSound :
      (ms : List (Move R))
      → IsSound (run (new_reply_cell false) ms) × ((run (new_reply_cell false) ms).discarded ≡ [])
  borrowed-IsSound ms =
      let (r, p, e) = Prompt-run ms (new_reply_cell false) (asked on_time, tt, refl) in
      subst (λ s. IsSound s × (s.discarded ≡ [])) (sym e)
        (borrowed_at-IsSound r p, none_discarded r)

  abbrev pub four_steps : List (Move R)
  four_steps = by_caller false ∷ by_caller false ∷ by_caller false ∷ by_caller false ∷ []

  borrowed_at-Returns :
      (r : Row R)
      → IsPrompt r
      → has_answered (borrowed_at r).responder ≡ true
      → has_returned (run (borrowed_at r) four_steps).caller ≡ true
  unfolding run caller_step drop_cell new_reply_cell
  borrowed_at-Returns (asked on_time) p h = absurd (ground (arith, h))
  borrowed_at-Returns (written v on_time) p h = absurd (ground (arith, h))
  borrowed_at-Returns (answered v unseen b) p h = refl
  borrowed_at-Returns (answered v seen b) p h = refl
  borrowed_at-Returns (answered v moved b) p h = refl
  borrowed_at-Returns (answered v took b) p h = refl
  borrowed_at-Returns (answered v done b) p h = refl
  borrowed_at-Returns (dropped unaware b) p h = refl
  borrowed_at-Returns (dropped quits b) p h = refl
  borrowed_at-Returns (dropped quit b) p h = refl
  borrowed_at-Returns (asked leaves) p h = elim p [ ]
  borrowed_at-Returns (asked left) p h = elim p [ ]
  borrowed_at-Returns (written v leaves) p h = elim p [ ]
  borrowed_at-Returns (written v left) p h = elim p [ ]
  borrowed_at-Returns (answered v too_late b) p h = elim p [ ]
  borrowed_at-Returns (answered v missed b) p h = elim p [ ]
  borrowed_at-Returns (dropped timed_out b) p h = elim p [ ]
  borrowed_at-Returns (dropped away b) p h = elim p [ ]

  -- In `ask`, once the responder has stored a reply, or was dropped without one, four more steps of
  -- the caller suffice for it to return, wherever it stands.
  pub borrowed-Returns :
      (ms : List (Move R))
      → has_answered (run (new_reply_cell false) ms).responder ≡ true
      → has_returned (run (run (new_reply_cell false) ms) four_steps).caller ≡ true
  borrowed-Returns ms answers =
      let (r, p, e) = Prompt-run ms (new_reply_cell false) (asked on_time, tt, refl) in
      subst (λ s. has_returned (run s four_steps).caller ≡ true) (sym e)
        (borrowed_at-Returns r p (subst (λ s. has_answered s.responder ≡ true) e answers))
