-- ===== src/Mailbox.antt =====
-- What a mailbox promises to its clients, whatever its representation: a bounded first-in first-out
-- queue with a flag for its consumer. core/src/mpsc.rs is shown to implement it; the model of
-- core/src/system.rs runs over it.
use aetherflow.Base.{
  ℕ, ltb, Bool, true, false, Option, none, some, List, [], ◌∷◌, ◌++◌, if◌then◌else◌, length,
}
use aetherflow.Errors.{TrySendError, full, closed, Result, ok, err}

pub record Mailbox {ℓ} (T : Type ℓ) : Type ℓ where
  pub cap : ℕ
  pub items : List T
  pub alive : Bool

-- The calls of a client. Each end may be used in any order.
pub data Op {ℓ} (T : Type ℓ) : Type ℓ where
  send : T → Op T
  recv : Op T
  ask_empty : Op T
  drop_receiver : Op T

-- What a call returns; `none` is a call that does not return.
pub data Reply {ℓ} (T : Type ℓ) : Type ℓ where
  of_send : Option (Result (Unit {0}) (TrySendError T)) → Reply T
  of_recv : Option (Option T) → Reply T
  of_empty : Option Bool → Reply T
  of_drop : Reply T

module _ {ℓ} {T : Type ℓ} where
  unfoldable pub new : ℕ → Mailbox T
  new cap = record { cap = cap; items = []; alive = true }

  unfoldable pub try_send : Mailbox T → T → Mailbox T × Result (Unit {0}) (TrySendError T)
  try_send m x =
      if m.alive
      then if ltb (length m.items) m.cap
        then (record m { items = m.items ++ (x ∷ []) }, ok tt)
        else (m, err (full x))
      else (m, err (closed x))

  -- The oldest item and the rest.
  abbrev pub uncons : List T → Option T × List T
  uncons [] = (none, [])
  uncons (x ∷ xs) = (some x, xs)

  unfoldable pub try_recv : Mailbox T → Mailbox T × Option T
  try_recv m = let (r, rest) = uncons m.items in (record m { items = rest }, r)

  abbrev pub is_nil : List T → Bool
  is_nil [] = true
  is_nil (x ∷ xs) = false

  unfoldable pub answer : Mailbox T → Op T → Mailbox T × Reply T
  unfolding try_send try_recv
  answer m (send x) = let (m', r) = try_send m x in (m', of_send (some r))
  answer m recv = let (m', r) = try_recv m in (m', of_recv (some r))
  answer m ask_empty = (m, of_empty (some (is_nil m.items)))
  answer m drop_receiver = (record m { alive = false }, of_drop)

  -- A client's calls in order, with what each returns.
  unfoldable pub serve : Mailbox T → List (Op T) → List (Reply T)
  serve m [] = []
  serve m (op ∷ ops) = let (m', r) = answer m op in r ∷ serve m' ops
