-- ===== src/Timer/Cancel.antt =====
-- core/src/timer.rs: what a cancellation stops, and how often a one-shot timer sends.
use aetherflow.Base.{
  ℕ, ◌≡◌, refl, sym, ◌∙◌, ◌≢◌, true, none, some, List, [], ◌∷◌, ◌++◌, arith, get_elem?,
}
use aetherflow.Base.AllOf.{AllOf}
use aetherflow.Timer.{
  Fire, once, every, Delivery, delivered, mailbox_full, actor_gone, TimerState, run_fire,
  record_sent,
}
use aetherflow.Timer.Moves.{sent_by}
use aetherflow.Timer.Handles.{Tags, AreOwned}

module _ {P : Type 0} where
  -- The flag of a handle is set, for good.
  abbrev IsFlagged : ℕ → TimerState (ℕ × P) → Type 0
  IsFlagged h s = get_elem? s.cancelled h ≡ some true

  sent_by-snoc_ne :
      (h : ℕ) (m : ℕ × P) (l : List (ℕ × P)) → m.0 ≢ h → sent_by h (l ++ (m ∷ [])) ≡ sent_by h l
  sent_by-snoc_ne h m [] ne = ground (arith, ne)
  sent_by-snoc_ne h m (x ∷ l) ne = rw (sent_by-snoc_ne h m l ne) refl

  record_sent-sent_by_ne :
      (h : ℕ) (m : ℕ × P) (d : Delivery) (l : List (ℕ × P))
      → m.0 ≢ h
      → sent_by h (record_sent m d l) ≡ sent_by h l
  record_sent-sent_by_ne h m delivered l ne = sent_by-snoc_ne h m l ne
  record_sent-sent_by_ne h m mailbox_full l ne = refl
  record_sent-sent_by_ne h m actor_gone l ne = refl

  -- The firing of another handle's timer.
  pub run_fire-sent_by_ne :
      (h k : ℕ) (f : Fire (ℕ × P)) (later : ℕ) (d : Delivery) (l : List (ℕ × P))
      → Tags k f
      → k ≢ h
      → sent_by h (run_fire f later d l).2 ≡ sent_by h l
  unfolding run_fire
  run_fire-sent_by_ne h k (once none) later d l tags ne = refl
  run_fire-sent_by_ne h k (once (some m)) later d l tags ne =
      record_sent-sent_by_ne h m d l (λ e. ne (sym tags ∙ e))
  run_fire-sent_by_ne h k (every interval n make) later d l tags ne =
      record_sent-sent_by_ne h (make n) d l (λ e. ne (sym (tags n) ∙ e))

  -- The timer of the handle is cancelled, and has sent so many messages.
  abbrev IsSilent : ℕ → ℕ → TimerState (ℕ × P) → Type 0
  IsSilent h n s = AreOwned s × IsFlagged h s × (sent_by h s.sent ≡ n)
