-- ===== src/System/Core/Share.antt =====
-- core/src/system.rs: how many messages an actor gets to process in one visit of a pass.
use aetherflow.Base.{
  ℕ, zero, suc, ◌+◌, ◌-◌, ◌≤◌, ◌<◌, max, ◌≡◌, refl, ap, ◌∙◌, inl, inr, Bool, true, false, List, [],
  ◌∷◌, arith, ltb, Bool-cases, length,
}
use aetherflow.System.Cell.{Actor, Clock, Cell, poll_one, cell_actor}
use aetherflow.System.Core.{Visited, kept, dropped, stopped, batch, end_batch, end_empty, visit}
use aetherflow.System.Core.Drain.{poll_one_lem}
use aetherflow.System.Core.Upkeep.{Outcome-cases}

module _ {S T : Type 0} (a : Actor S T) (clock : ℕ → Clock) where
  -- After so many polls at most, of a mailbox with so many messages.
  abbrev Batched : ℕ → ℕ → (ℕ × Cell S T) × Bool → Type 0
  Batched n held (p, false) = length p.1.rx.items ≡ held - n
  Batched n held (p, true) = (length p.1.rx.items < held) × (held ≤ length p.1.rx.items + n)

  Batched-suc :
      (n held : ℕ) (r : (ℕ × Cell S T) × Bool) → Batched n held r → Batched (suc n) (suc held) r
  Batched-suc n held (p, false) h = omega (arith, h)
  Batched-suc n held (p, true) (lo, hi) = (omega (arith, lo), omega (arith, hi))

  batch-Batched :
      (n k : ℕ) (c : Cell S T) (items : List T)
      → c.rx.items ≡ items
      → Batched n (length items) (batch (cell_actor a clock) n (k, c))
  unfolding batch
  batch-Batched zero k c items e = let same = ap (λ l. length l) e in omega (arith, same)
  batch-Batched (suc n) k c [] e =
      let polled = (poll_one_lem a (clock k) c).0 e in
      let o = ap (λ r. r.1) polled in
      let same = ap (λ r. length r.0.rx.items) polled ∙ ap (λ l. length l) e in
      rw (o, batch) (omega (arith, same))
  batch-Batched (suc n) k c (m ∷ rest) e =
      let (left, working) = (poll_one_lem a (clock k) c).1 m rest e in
      let same = ap (λ l. length l) left in
      let c' = (poll_one a (clock k) c).0 in
      elim (Outcome-cases (poll_one a (clock k) c).1) [
        | inl o ↦
            rw (o, batch)
              (Batched-suc n (length rest) (batch (cell_actor a clock) n (suc k, c'))
                (batch-Batched n (suc k) c' rest left))
        | inr (inl o) ↦ absurd (working o)
        | inr (inr o) ↦ rw (o, batch) (omega (arith, same), omega (arith, same))
      ]

  -- A visit of an actor with so many messages, and whether it did work.
  abbrev pub Shares : ℕ → ℕ → Visited (ℕ × Cell S T) × Bool → Type 0
  Shares n held (kept p, did) = (length p.1.rx.items ≡ held - max n 1) × (did ≡ ltb 0 held)
  Shares n held (dropped p, did) =
      (length p.1.rx.items < held) × (held ≤ length p.1.rx.items + max n 1) × (did ≡ true)
  Shares n held (stopped p, did) = (held ≡ 0) × (did ≡ false)

  end_batch-Shares :
      (n held : ℕ) (r : (ℕ × Cell S T) × Bool)
      → Batched (n - 1) held r
      → Shares n (suc held) (end_batch r)
  end_batch-Shares n held (p, false) h = (omega (arith, h), ground arith)
  end_batch-Shares n held (p, true) (lo, hi) = (omega (arith, lo), omega (arith, hi), refl)

  visit-from :
      (n k : ℕ) (c : Cell S T) (items : List T)
      → c.rx.items ≡ items
      → Shares n (length items) (visit (cell_actor a clock) n (k, c))
  unfolding visit
  visit-from n k c [] e =
      let polled = (poll_one_lem a (clock k) c).0 e in
      let o = ap (λ r. r.1) polled in
      let same = ap (λ r. length r.0.rx.items) polled ∙ ap (λ l. length l) e in
      elim (Bool-cases
        ((cell_actor a clock).closed_and_empty (suc k, (poll_one a (clock k) c).0))) [
          | inl y ↦ rw (o, visit, end_empty, y) (refl, refl)
          | inr z ↦ rw (o, visit, end_empty, z) (omega (arith, same), refl)
        ]
  visit-from n k c (m ∷ rest) e =
      let (left, working) = (poll_one_lem a (clock k) c).1 m rest e in
      let same = ap (λ l. length l) left in
      let c' = (poll_one a (clock k) c).0 in
      elim (Outcome-cases (poll_one a (clock k) c).1) [
        | inl o ↦
            rw (o, visit)
              (end_batch-Shares n (length rest) (batch (cell_actor a clock) (n - 1) (suc k, c'))
                (batch-Batched (n - 1) (suc k) c' rest left))
        | inr (inl o) ↦ absurd (working o)
        | inr (inr o) ↦ rw (o, visit) (omega (arith, same), omega (arith, same), refl)
      ]

  -- A visit of an actor in a pass, with no new messages meanwhile: an actor that stays has then processed
  -- exactly batch_drain of its messages (at least one), or all if it had no more; one that is dropped has
  -- processed at least one and no more than that; one is stopped only if it had none. The visit counts as
  -- work exactly if there was a message.
  pub visit-Shares :
      (batch_drain k : ℕ) (c : Cell S T)
      → Shares batch_drain (length c.rx.items) (visit (cell_actor a clock) batch_drain (k, c))
  visit-Shares n k c = visit-from n k c c.rx.items refl
