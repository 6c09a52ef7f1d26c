-- ===== src/Ask/Outcome.antt =====
-- core/src/ask.rs: what an exchange comes to, for the owned cell of `ask_timeout` and for the borrowed
-- one of `ask`, under every interleaving of the caller and the responder.
use mathlib.Core.Path.{subst}
use aetherflow.Base.{◌≡◌, refl, sym, Bool, true, false, Option, none, some, List, [], ◌∷◌}
use aetherflow.Errors.{ok, err}
use aetherflow.Ask.{timeout, Caller, returned, Responder, gone, Shared, new_reply_cell, Move, run}
use aetherflow.Ask.Protocol.{
  on_time, leaves, left, unseen, seen, moved, took, done, too_late, missed, unaware, quits, quit,
  timed_out, away, Row, asked, written, answered, dropped, owned_at, rows, run-owned_at,
}

module _ {R : Type 0} where
  -- Once both sides are done, the cell is freed, and the value of a reply has gone to the caller that
  -- returns it, or was discarded, once, by a caller that had timed out. Before, none is discarded.
  abbrev pub Settles : Caller R → Responder → Option R → Bool → List R → Type 0
  Settles (returned (ok v)) gone slot d l = (slot ≡ some v) × (d ≡ true) × (l ≡ [])
  Settles (returned (err e)) gone none d l = (d ≡ true) × (l ≡ [])
  Settles (returned (err e)) gone (some v) d l = (e ≡ timeout) × (d ≡ true) × (l ≡ v ∷ [])
  Settles c r slot d l = l ≡ []

  abbrev pub IsSound : Shared R → Type 0
  IsSound s = (s.fault ≡ false) × Settles s.caller s.responder s.slot s.destroyed s.discarded

  owned_at-IsSound : (r : Row R) → IsSound (owned_at r)
  unfolding new_reply_cell
  owned_at-IsSound (asked on_time) = (refl, refl)
  owned_at-IsSound (asked leaves) = (refl, refl)
  owned_at-IsSound (asked left) = (refl, refl)
  owned_at-IsSound (written v on_time) = (refl, refl)
  owned_at-IsSound (written v leaves) = (refl, refl)
  owned_at-IsSound (written v left) = (refl, refl)
  owned_at-IsSound (answered v unseen b) = (refl, refl)
  owned_at-IsSound (answered v seen b) = (refl, refl)
  owned_at-IsSound (answered v moved b) = (refl, refl)
  owned_at-IsSound (answered v took b) = (refl, refl)
  owned_at-IsSound (answered v done false) = (refl, refl)
  owned_at-IsSound (answered v done true) = (refl, (refl, refl, refl))
  owned_at-IsSound (answered v too_late b) = (refl, refl)
  owned_at-IsSound (answered v missed false) = (refl, refl)
  owned_at-IsSound (answered v missed true) = (refl, (refl, refl, refl))
  owned_at-IsSound (dropped unaware b) = (refl, refl)
  owned_at-IsSound (dropped quits b) = (refl, refl)
  owned_at-IsSound (dropped quit false) = (refl, refl)
  owned_at-IsSound (dropped quit true) = (refl, (refl, refl))
  owned_at-IsSound (dropped timed_out b) = (refl, refl)
  owned_at-IsSound (dropped away false) = (refl, refl)
  owned_at-IsSound (dropped away true) = (refl, (refl, refl))

  -- In every interleaving of `ask_timeout`, no side touches the cell after it is freed or reads a value
  -- that was not written; and once both are done, the cell is freed, and the value of a reply has been
  -- returned to the caller, or discarded exactly once after the caller had timed out.
  pub owned-IsSound : (ms : List (Move R)) → IsSound (run (new_reply_cell true) ms)
  unfolding new_reply_cell
  owned-IsSound ms =
      subst IsSound (sym (run-owned_at (asked on_time) ms))
        (owned_at-IsSound (rows (asked on_time) ms))
