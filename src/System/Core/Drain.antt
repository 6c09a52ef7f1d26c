-- ===== src/System/Core/Drain.antt =====
-- core/src/system.rs: what a poll of a cell does to its mailbox, and what the drain at shutdown
-- processes.
use aetherflow.Base.{
  ℕ, suc, ◌+◌, ◌≡◌, refl, sym, ap, ◌∙◌, ◌≢◌, inl, inr, Option, none, some, List, [], ◌∷◌, arith,
  Bool-cases, Option-cases, length,
}
use mathlib.Core.Path.{subst}
use aetherflow.Mailbox.{try_recv, uncons}
use aetherflow.System.Supervise.{allow_restart}
use aetherflow.System.Cell.{
  ErasedActor, PollOutcome, worked, empty, Actor, Clock, Cell, run_hook, measure, rebuild,
  install_rebuilt, after_panic, process, poll_one, cell_actor,
}
use aetherflow.System.Core.{Visited, kept, dropped, stopped, drain_cell}

module _ {S T : Type 0} where
  -- What a poll leaves and returns when messages are `rest` after the one that it takes.
  abbrev pub Took : List T → Cell S T × PollOutcome → Type 0
  Took rest (c, o) = (c.rx.items ≡ rest) × (o ≢ empty)

  install_rebuilt-Took : (c : Cell S T) (r : Option S) → Took (c.rx.items) (install_rebuilt c r)
  install_rebuilt-Took c none = (refl, λ e. absurd (ground (arith, e)))
  install_rebuilt-Took c (some s) = (refl, λ e. absurd (ground (arith, e)))

  after_panic-Took :
      (a : Actor S T) (now : ℕ) (c : Cell S T) → Took (c.rx.items) (after_panic a now c)
  unfolding after_panic
  after_panic-Took a now c = elim (Option-cases c.factory) [
    | inl e ↦ rw (e, after_panic) (refl, λ e'. absurd (ground (arith, e')))
    | inr (make, e) ↦ elim (Bool-cases (allow_restart c.restart_policy c.restarts now).1) [
      | inl allowed ↦
          rw (e, after_panic, allowed)
            (install_rebuilt-Took
              (record c { restarts = (allow_restart c.restart_policy c.restarts now).0 })
              (rebuild a make))
      | inr refused ↦ rw (e, after_panic, refused) (refl, λ e'. absurd (ground (arith, e')))
    ]
  ]

  pub rx-measure : (n : ℕ) (c : Cell S T) → (measure n c).rx ≡ c.rx
  rx-measure n c = elim (Option-cases c.metrics) [
    | inl e ↦ rw (e, measure) refl
    | inr (h, e) ↦ rw (e, measure) refl
  ]

  process-Took :
      (a : Actor S T) (t : Clock) (c : Cell S T) (m : T) → Took (c.rx.items) (process a t c m)
  unfolding process
  process-Took a t c m =
      let same : (measure t.elapsed c).rx.items ≡ c.rx.items =
        ap (λ rx. rx.items) (rx-measure t.elapsed c) in
      elim (Option-cases (a.handle c.actor m)) [
        | inl e ↦
            let (items, working) = after_panic-Took a t.now (measure t.elapsed c) in
            rw (e, process) (items ∙ same, working)
        | inr (s, e) ↦ rw (e, process) (same, λ e'. absurd (ground (arith, e')))
      ]

  -- The poll, given the messages in the mailbox.
  abbrev pub poll_items : Actor S T → Clock → Cell S T → List T → Cell S T × PollOutcome
  poll_items a t c [] = (c, empty)
  poll_items a t c (m ∷ rest) = process a t (record c { rx = record c.rx { items = rest } }) m

  pub poll_one-items :
      (a : Actor S T) (t : Clock) (c : Cell S T) (items : List T)
      → c.rx.items ≡ items
      → poll_one a t c ≡ poll_items a t c items
  unfolding poll_one try_recv
  poll_one-items a t c [] e = ap (from_parts c) e
    where
      from_parts : Cell S T → List T → Cell S T × PollOutcome
      from_parts c items = elim (uncons items).0 [
        | none ↦ (c, empty)
        | some m ↦ process a t (record c { rx = record c.rx { items = (uncons items).1 } }) m
      ]
  poll_one-items a t c (m ∷ rest) e = ap (from_parts c) e
    where
      from_parts : Cell S T → List T → Cell S T × PollOutcome
      from_parts c items = elim (uncons items).0 [
        | none ↦ (c, empty)
        | some m ↦ process a t (record c { rx = record c.rx { items = (uncons items).1 } }) m
      ]

  -- A poll takes exactly the oldest message of the mailbox, whatever the handler, the factory and the
  -- hooks do, and reports an empty mailbox only when there is none.
  pub poll_one_lem :
      (a : Actor S T) (t : Clock) (c : Cell S T)
      → ((c.rx.items ≡ []) → poll_one a t c ≡ (c, empty))
        × ((m : T) (rest : List T) → c.rx.items ≡ m ∷ rest → Took rest (poll_one a t c))
  poll_one_lem a t c = (
    (λ e. poll_one-items a t c [] e),
    λ m rest e.
        subst (Took rest) (sym (poll_one-items a t c (m ∷ rest) e))
          (process-Took a t (record c { rx = record c.rx { items = rest } }) m),
  )

  -- The actor was stopped with nothing left to process, or dropped after a panic.
  abbrev pub Ended : Visited (ℕ × Cell S T) → Type 0
  Ended (kept p) = ⊥
  Ended (dropped p) = Unit
  Ended (stopped p) = p.1.rx.items ≡ []

  abbrev pub Drained : Option (Visited (ℕ × Cell S T)) → Type 0
  Drained r = (v : Visited (ℕ × Cell S T)) × (r ≡ some v) × Ended v

  pub rx-run_hook : (hook : S → Option S) (c : Cell S T) → (run_hook hook c).0.rx ≡ c.rx
  rx-run_hook hook c = elim (Option-cases (hook c.actor)) [
    | inl e ↦ rw (e, run_hook) refl
    | inr (s, e) ↦ rw (e, run_hook) refl
  ]

  -- One round of the drain, by what the poll returns.
  abbrev pub drain_next :
      ErasedActor (ℕ × Cell S T) → ℕ → ℕ × Cell S T → PollOutcome → Option (Visited (ℕ × Cell S T))
  drain_next e fuel p o = elim o [
    | worked ↦ drain_cell e fuel p
    | empty ↦ some (stopped (e.stop p).0)
    | PollOutcome.panicked ↦ some (dropped p)
  ]

  pub drain_cell-next :
      (e : ErasedActor (ℕ × Cell S T)) (fuel : ℕ) (p : ℕ × Cell S T)
      → drain_cell e (suc fuel) p ≡ drain_next e fuel (e.poll_one p).0 (e.poll_one p).1
  unfolding drain_cell
  drain_cell-next e fuel p = refl

  drain_next-Drained :
      (e : ErasedActor (ℕ × Cell S T)) (fuel : ℕ) (p : ℕ × Cell S T) (o : PollOutcome)
      → o ≢ empty
      → Drained (drain_cell e fuel p)
      → Drained (drain_next e fuel p o)
  drain_next-Drained e fuel p worked ne ih = ih
  drain_next-Drained e fuel p empty ne ih = absurd (ne refl)
  drain_next-Drained e fuel p PollOutcome.panicked ne ih = (dropped p, refl, tt)

  drain_cell-from :
      (a : Actor S T) (clock : ℕ → Clock) (items : List T) (k : ℕ) (c : Cell S T)
      → c.rx.items ≡ items
      → Drained (drain_cell (cell_actor a clock) (suc (length items)) (k, c))
  drain_cell-from a clock [] k c e =
      let erased = cell_actor a clock in
      let poll = (poll_one_lem a (clock k) c).0 e in
      let end = (run_hook a.on_stop c).0 in
      let none_left = ap (λ rx. rx.items) (rx-run_hook a.on_stop c) ∙ e in
      subst Drained
        (sym
          (drain_cell-next erased 0 (k, c) ∙ ap (λ r. drain_next erased 0 (suc k, r.0) (r.1)) poll))
        (stopped (suc k, end), refl, none_left)
  drain_cell-from a clock (m ∷ items) k c e =
      let erased = cell_actor a clock in
      let fuel = suc (length items) in
      let (left, working) = (poll_one_lem a (clock k) c).1 m items e in
      let polled = poll_one a (clock k) c in
      let ih = drain_cell-from a clock items (suc k) (polled.0) left in
      subst Drained (sym (drain_cell-next erased fuel (k, c)))
        (drain_next-Drained erased fuel (suc k, polled.0) (polled.1) working ih)

  -- With no new messages, the drain of a cell at shutdown ends within one round more than there are
  -- messages, whatever its handlers do, and the actor is then either stopped with every message
  -- processed, or dropped without `on_stop` after a panic.
  pub drain_cell-Drained :
      (a : Actor S T) (clock : ℕ → Clock) (k : ℕ) (c : Cell S T)
      → Drained (drain_cell (cell_actor a clock) (length c.rx.items + 1) (k, c))
  drain_cell-Drained a clock k c =
      let e : length c.rx.items + 1 ≡ suc (length c.rx.items) = omega arith in
      rw e (drain_cell-from a clock (c.rx.items) k c refl)
