-- ===== src/Ask/Tests.antt =====
-- Exchanges at concrete interleavings.
use aetherflow.Base.{ℕ, ◌≡◌, refl, true, false, none, some, List, [], ◌∷◌}
use aetherflow.Ask.{
  new_reply_cell, Move, by_caller, by_responder, run, caller_step, responder_step, drop_cell,
  has_returned,
}
use aetherflow.Ask.Outcome.{IsSound, owned-IsSound}
use aetherflow.Ask.OnStack.{borrowed-IsSound, borrowed-Returns, has_answered, four_steps}

-- The caller times out between the write of the value and its publication.
abbrev late_reply : List (Move ℕ)
late_reply =
    by_caller false
    ∷ by_responder (some 5)
    ∷ by_caller true
    ∷ by_responder none
    ∷ by_caller false
    ∷ by_responder none
    ∷ []

late_reply_discarded : (run (new_reply_cell true) late_reply).discarded ≡ 5 ∷ []
unfolding run caller_step responder_step drop_cell new_reply_cell
late_reply_discarded = refl

owned-IsSound_example : IsSound (run (new_reply_cell true) late_reply)
owned-IsSound_example = owned-IsSound late_reply

-- The caller returns before the responder has released the cell.
abbrev prompt_reply : List (Move ℕ)
prompt_reply =
    by_responder (some 5)
    ∷ by_responder none
    ∷ by_caller false
    ∷ by_caller false
    ∷ by_caller false
    ∷ by_caller false
    ∷ by_responder none
    ∷ []

borrowed-IsSound_example :
    IsSound (run (new_reply_cell false) prompt_reply)
    × ((run (new_reply_cell false) prompt_reply).discarded ≡ [])
borrowed-IsSound_example = borrowed-IsSound prompt_reply

abbrev replied_already : List (Move ℕ)
replied_already = by_caller false ∷ by_responder (some 5) ∷ by_responder none ∷ []

replied : has_answered (run (new_reply_cell false) replied_already).responder ≡ true
unfolding run caller_step responder_step drop_cell new_reply_cell
replied = refl

borrowed-Returns_example :
    has_returned (run (run (new_reply_cell false) replied_already) four_steps).caller ≡ true
borrowed-Returns_example = borrowed-Returns replied_already replied
