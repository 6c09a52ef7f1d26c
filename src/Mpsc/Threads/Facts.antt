-- ===== src/Mpsc/Threads/Facts.antt =====
-- How the facts of the invariant follow the log and the buffer.
use mathlib.Core.Path.{subst}
use native.Mathlib.Nat.{le_refl}
use aetherflow.Base.{
  ℕ, suc, ◌+◌, ◌≤◌, ◌<◌, ◌≡◌, refl, ◌⊎◌, inl, inr, sym, ap, ◌∙◌, Option, some, List, [], ◌∷◌, ◌++◌,
  arith, length, get_elem?, lt_of_get_elem?, length-append, get_elem?-append_left,
}
use mathlib.Core.Option.{some-injective}
use aetherflow.Mpsc.{
  Slot, Sending, Receiving, check, recheck, write, publish, reserve, sent, refused, claim, read,
  release, received, uninit,
}
use aetherflow.Mpsc.Threads.Invariant.{
  SenderFact, ReceiverFact, IsOpen, IsFull, claimed, owned, place,
}

module _ {T : Type 0} where
  -- The log only grows: what it says of a position stays.
  pub logged :
      (log : List T) (p : ℕ) (x y : T)
      → get_elem? log p ≡ some y
      → get_elem? (log ++ (x ∷ [])) p ≡ some y
  logged log p x y e = get_elem?-append_left log (x ∷ []) p (lt_of_get_elem? log p y e) ∙ e

  pub IsFull-append :
      (b : List (Slot T)) (cap : ℕ) (log : List T) (p : ℕ) (x : T)
      → IsFull b cap log p
      → IsFull b cap (log ++ (x ∷ [])) p
  IsFull-append b cap log p x (y, e, here) = (y, logged log p x y e, here)

  pub SenderFact-append :
      (b : List (Slot T)) (cap d c : ℕ) (log : List T) (x : T) (p : Sending T)
      → SenderFact b cap d c log p
      → SenderFact b cap d c (log ++ (x ∷ [])) p
  SenderFact-append b cap d c log x (check y) f = tt
  SenderFact-append b cap d c log x (Sending.load y) f = tt
  SenderFact-append b cap d c log x (Sending.probe pos y) f =
      omega (arith, length-append log (x ∷ []))
  SenderFact-append b cap d c log x (reserve pos y) f = f
  SenderFact-append b cap d c log x (write pos y) (lo, hi, e, here) =
      (lo, hi, logged log pos x y e, here)
  SenderFact-append b cap d c log x (publish pos) (lo, hi, (y, e, here)) =
      (lo, hi, (y, logged log pos x y e, here))
  SenderFact-append b cap d c log x (recheck y) f = tt
  SenderFact-append b cap d c log x sent f = tt
  SenderFact-append b cap d c log x (refused e) f = tt
  SenderFact-append b cap d c log x Sending.out_of_range f = f

  pub ReceiverFact-append :
      (b : List (Slot T)) (cap d : ℕ) (log : List T) (x : T) (r : Receiving T)
      → ReceiverFact b cap d log r
      → ReceiverFact b cap d (log ++ (x ∷ [])) r
  ReceiverFact-append b cap d log x Receiving.load f = tt
  ReceiverFact-append b cap d log x (Receiving.probe pos) f = f
  ReceiverFact-append b cap d log x (claim pos) (e, full) = (e, IsFull-append b cap log d x full)
  ReceiverFact-append b cap d log x (read pos) (e, full) = (e, IsFull-append b cap log d x full)
  ReceiverFact-append b cap d log x (release pos y) (e, l, here) = (e, logged log d x y l, here)
  ReceiverFact-append b cap d log x (received o) f = tt
  ReceiverFact-append b cap d log x uninit f = f
  ReceiverFact-append b cap d log x Receiving.out_of_range f = f

  -- A sender that owns a position stands on a slot of this lap that is open, and on the log.
  pub owned_facts :
      (b : List (Slot T)) (cap d c : ℕ) (log : List T) (p : Sending T) (pos : ℕ)
      → SenderFact b cap d c log p
      → owned p ≡ some pos
      → (c ≤ pos) × (pos < d + cap) × (pos < length log) × IsOpen b cap pos
  owned_facts b cap d c log (check y) pos f o = absurd (ground arith)
  owned_facts b cap d c log (Sending.load y) pos f o = absurd (ground arith)
  owned_facts b cap d c log (Sending.probe k y) pos f o = absurd (ground arith)
  owned_facts b cap d c log (reserve k y) pos f o = absurd (ground arith)
  owned_facts b cap d c log (write k y) pos (lo, hi, e, here) o =
      subst (λ t. (c ≤ t) × (t < d + cap) × (t < length log) × IsOpen b cap t)
        (some-injective k pos o) (lo, hi, lt_of_get_elem? log k y e, here)
  owned_facts b cap d c log (publish k) pos (lo, hi, (y, e, here)) o =
      subst (λ t. (c ≤ t) × (t < d + cap) × (t < length log) × IsOpen b cap t)
        (some-injective k pos o) (lo, hi, lt_of_get_elem? log k y e, (some y, here))
  owned_facts b cap d c log (recheck y) pos f o = absurd (ground arith)
  owned_facts b cap d c log sent pos f o = absurd (ground arith)
  owned_facts b cap d c log (refused e) pos f o = absurd (ground arith)
  owned_facts b cap d c log Sending.out_of_range pos f o = absurd f

  -- The oldest slot of the lap is numbered by its position or one past it.
  pub oldest_slot :
      (b : List (Slot T)) (cap d : ℕ) (log : List T) (r : Receiving T)
      → ReceiverFact b cap d log r
      → (claimed r d ≤ d → IsOpen b cap d ⊎ IsFull b cap log d)
      → (s : Slot T) × (place b cap d ≡ some s) × (d ≤ s.seq) × (s.seq ≤ suc d)
  oldest_slot b cap d log r f lap = by_receiver r f lap
    where
      by_lap :
          IsOpen b cap d ⊎ IsFull b cap log d
          → (s : Slot T) × (place b cap d ≡ some s) × (d ≤ s.seq) × (s.seq ≤ suc d)
      by_lap (inl (v, here)) = (_, here, omega arith, omega arith)
      by_lap (inr (x, l, here)) = (_, here, omega arith, omega arith)

      by_receiver :
          (r : Receiving T)
          → ReceiverFact b cap d log r
          → (claimed r d ≤ d → IsOpen b cap d ⊎ IsFull b cap log d)
          → (s : Slot T) × (place b cap d ≡ some s) × (d ≤ s.seq) × (s.seq ≤ suc d)
      by_receiver (read pos) (e, (x, l, here)) lap = (_, here, omega arith, omega arith)
      by_receiver (release pos x) (e, l, (v, here)) lap = (_, here, omega arith, omega arith)
      by_receiver uninit f lap = absurd f
      by_receiver Receiving.load f lap = by_lap (lap (le_refl d))
      by_receiver (Receiving.probe pos) f lap = by_lap (lap (le_refl d))
      by_receiver (claim pos) f lap = by_lap (lap (le_refl d))
      by_receiver (received o) f lap = by_lap (lap (le_refl d))
      by_receiver Receiving.out_of_range f lap = absurd f

  -- A write to the buffer that leaves a sender's own slot alone keeps what its locals say.
  pub SenderFact-set :
      (b b' : List (Slot T)) (cap d c : ℕ) (log : List T) (p : Sending T)
      → ((k : ℕ) → owned p ≡ some k → place b' cap k ≡ place b cap k)
      → SenderFact b cap d c log p
      → SenderFact b' cap d c log p
  SenderFact-set b b' cap d c log (write k y) keep (lo, hi, e, (v, here)) =
      (lo, hi, e, (v, keep k refl ∙ here))
  SenderFact-set b b' cap d c log (publish k) keep (lo, hi, (y, e, here)) =
      (lo, hi, (y, e, keep k refl ∙ here))
  SenderFact-set b b' cap d c log (check y) keep f = f
  SenderFact-set b b' cap d c log _ keep f = f

  pub ReceiverFact-set :
      (b b' : List (Slot T)) (cap d : ℕ) (log : List T) (r : Receiving T)
      → ((v : Option T)
          → place b cap d ≡ some (record { seq = suc d; val = v })
          → place b' cap d ≡ place b cap d)
      → ReceiverFact b cap d log r
      → ReceiverFact b' cap d log r
  ReceiverFact-set b b' cap d log (claim pos) keep (e, (x, l, here)) =
      (e, (x, l, keep (some x) here ∙ here))
  ReceiverFact-set b b' cap d log (read pos) keep (e, (x, l, here)) =
      (e, (x, l, keep (some x) here ∙ here))
  ReceiverFact-set b b' cap d log (release pos x) keep (e, l, (v, here)) =
      (e, l, (v, keep v here ∙ here))
  ReceiverFact-set b b' cap d log Receiving.load keep f = f
  ReceiverFact-set b b' cap d log _ keep f = f

  -- At most one position is claimed and not released.
  pub le-claimed : (r : Receiving T) (d : ℕ) → (d ≤ claimed r d) × (claimed r d ≤ suc d)
  le-claimed (read pos) d = omega arith
  le-claimed _ d = omega arith

  pub seq_of_place :
      {o : Option (Slot T)} {s s' : Slot T} → o ≡ some s → o ≡ some s' → s.seq ≡ s'.seq
  seq_of_place {s} {s'} e e' = ap (λ t. t.seq) (some-injective s s' (sym e ∙ e'))

  -- Releasing and claiming positions that a sender does not own keeps what its locals say.
  pub SenderFact-move :
      (b : List (Slot T)) (cap d d' c c' : ℕ) (log : List T) (p : Sending T)
      → d ≤ d'
      → ((k : ℕ) → owned p ≡ some k → c' ≤ k)
      → SenderFact b cap d c log p
      → SenderFact b cap d' c' log p
  SenderFact-move b cap d d' c c' log (Sending.probe k y) le ge f = f
  SenderFact-move b cap d d' c c' log (reserve k y) le ge f = omega arith
  SenderFact-move b cap d d' c c' log (write k y) le ge (lo, hi, e, here) =
      (ge k refl, omega arith, e, here)
  SenderFact-move b cap d d' c c' log (publish k) le ge (lo, hi, at_slot) =
      (ge k refl, omega arith, at_slot)
  SenderFact-move b cap d d' c c' log (check y) le ge f = f
  SenderFact-move b cap d d' c c' log _ le ge f = f
