-- ===== src/System/Placement/Laws.antt =====
-- core/src/system.rs: where actors are placed, and what a blocking send does with its message.
use aetherflow.Base.{
  ℕ, zero, suc, ◌≤◌, ◌<◌, ◌≡◌, refl, sym, ap, ◌∙◌, ◌⊎◌, inl, inr, Bool, true, false, Option, some,
  List, [], ◌∷◌, ◌++◌, arith, ltb, if◌then◌else◌, Bool-cases, length,
}
use mathlib.Core.Path.{subst}
use aetherflow.Errors.{TrySendError, full, SendError, Result, ok, err}
use aetherflow.Mailbox
use aetherflow.Mailbox.{Mailbox}
use aetherflow.System.Placement.{send_loop}

module _ {T : Type 0} where
  -- The mailbox has room, or its receiver is gone.
  abbrev pub CanReturn : Mailbox T → Type 0
  CanReturn m = (m.alive ≡ false) ⊎ (length m.items < m.cap)

  -- The message is in the mailbox, last, or it is back with the sender of a dead mailbox.
  abbrev pub Accounts : T → Mailbox T × Result (Unit {0}) (SendError T) → Type 0
  Accounts x (m, ok u) = (before : List T) × (m.items ≡ before ++ (x ∷ []))
  Accounts x (m, err (SendError.closed y)) = (y ≡ x) × (m.alive ≡ false)

  -- The mailbox as the other threads leave it before attempt `k + n`, all attempts before it failing.
  abbrev pub after_others : (ℕ → Mailbox T → Mailbox T) → ℕ → ℕ → Mailbox T → Mailbox T
  after_others others k zero m = others k m
  after_others others k (suc n) m = after_others others (suc k) n (others k m)

  -- A send is accepted, or comes back from a closed mailbox, or from one without room.
  try_send_cases :
      (m : Mailbox T) (x : T)
      → (Mailbox.try_send m x ≡ (record m { items = m.items ++ (x ∷ []) }, ok tt))
        ⊎ (((m.alive ≡ false) × (Mailbox.try_send m x ≡ (m, err (TrySendError.closed x))))
            ⊎ ((m.alive ≡ true)
                × (m.cap ≤ length m.items)
                × (Mailbox.try_send m x ≡ (m, err (full x)))))
  unfolding Mailbox.try_send
  try_send_cases m x = elim (Bool-cases m.alive) [
    | inl live ↦ elim (Bool-cases (ltb (length m.items) m.cap)) [
      | inl room ↦ inl (ap (λ b. choose b room_left) live ∙ ap (choose true) room)
      | inr no_room ↦
          inr
            (inr (live, ground arith, ap (λ b. choose b room_left) live ∙ ap (choose true) no_room))
    ]
    | inr dead ↦ inr (inl (dead, ap (λ b. choose b room_left) dead))
  ]
    where
      room_left : Bool
      room_left = ltb (length m.items) m.cap

      choose : Bool → Bool → Mailbox T × Result (Unit {0}) (TrySendError T)
      choose a b =
          if a
          then if b then (record m { items = m.items ++ (x ∷ []) }, ok tt) else (m, err (full x))
          else (m, err (TrySendError.closed x))

  abbrev send_next :
      (ℕ → Mailbox T → Mailbox T)
      → ℕ
      → ℕ
      → T
      → Mailbox T × Result (Unit {0}) (TrySendError T)
      → Option (Mailbox T × Result (Unit {0}) (SendError T))
  send_next others fuel k x (m', r) = elim r [
    | ok u ↦ some (m', ok tt)
    | err e ↦ elim e [
      | full y ↦ send_loop others fuel (suc k) m' y
      | TrySendError.closed y ↦ some (m', err (SendError.closed y))
    ]
  ]

  send_loop-next :
      (others : ℕ → Mailbox T → Mailbox T) (fuel k : ℕ) (m : Mailbox T) (x : T)
      (r : Mailbox T × Result (Unit {0}) (TrySendError T))
      → Mailbox.try_send (others k m) x ≡ r
      → send_loop others (suc fuel) k m x ≡ send_next others fuel k x r
  unfolding send_loop
  send_loop-next others fuel k m x r e = ap (send_next others fuel k x) e

  abbrev Settled : T → Option (Mailbox T × Result (Unit {0}) (SendError T)) → Type 0
  Settled x o = (r : Mailbox T × Result (Unit {0}) (SendError T)) × (o ≡ some r) × Accounts x r

  send_loop-first :
      (others : ℕ → Mailbox T → Mailbox T) (n k : ℕ) (m : Mailbox T) (x : T)
      → ((others k m).alive ≡ true
          → (others k m).cap ≤ length (others k m).items
          → Settled x (send_loop others n (suc k) (others k m) x))
      → Settled x (send_loop others (suc n) k m x)
  send_loop-first others n k m x again = elim (try_send_cases (others k m) x) [
    | inl e ↦ subst (Settled x) (sym (send_loop-next others n k m x _ e)) (
      (record (others k m) { items = (others k m).items ++ (x ∷ []) }, ok tt),
      refl,
      ((others k m).items, refl),
    )
    | inr (inl (dead, e)) ↦
        subst (Settled x) (sym (send_loop-next others n k m x _ e))
          ((others k m, err (SendError.closed x)), refl, (refl, dead))
    | inr (inr (live, no_room, e)) ↦
        subst (Settled x) (sym (send_loop-next others n k m x _ e)) (again live no_room)
  ]

  -- If at some attempt the other threads have left room or the receiver is gone, the loop returns by
  -- then, and the message is the mailbox's last one or comes back from a mailbox that is closed.
  pub send_loop-Accounts :
      (others : ℕ → Mailbox T → Mailbox T) (n k : ℕ) (m : Mailbox T) (x : T)
      → CanReturn (after_others others k n m)
      → (r : Mailbox T × Result (Unit {0}) (SendError T)) × (send_loop others (suc n) k m x
          ≡ some r)
        × Accounts x r
  send_loop-Accounts others zero k m x can = send_loop-first others 0 k m x (λ live no_room.
      elim can [
        | inl dead ↦ absurd (ground (arith, live, dead))
        | inr room ↦ absurd (omega (arith, room, no_room))
      ])
  send_loop-Accounts others (suc n) k m x can =
      send_loop-first others (suc n) k m x
        (λ live no_room. send_loop-Accounts others n (suc k) (others k m) x can)
