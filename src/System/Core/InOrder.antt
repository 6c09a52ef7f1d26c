-- ===== src/System/Core/InOrder.antt =====
-- core/src/system.rs: the drain at shutdown handles the messages in the order in which they were sent.
use mathlib.Core.Path.{subst}
use mathlib.Core.Option.{some-injective}
use aetherflow.Base.{
  ℕ, suc, ◌≡◌, refl, sym, ap, ◌∙◌, inl, inr, Option, none, some, List, [], ◌∷◌, arith, Option-cases,
  length,
}
use aetherflow.System.Cell.{worked, Actor, Clock, Cell, run_hook, measure, process, cell_actor}
use aetherflow.System.Core.{Visited, stopped, drain_cell}
use aetherflow.System.Core.Drain.{
  poll_one-items, rx-measure, rx-run_hook, drain_next, drain_cell-next,
}

module _ {S T : Type 0} where
  -- The handler on each message in turn, none as soon as it panics.
  abbrev pub handle_all : Actor S T → S → List T → Option S
  handle_all a s [] = some s
  handle_all a s (m ∷ ms) = elim (a.handle s m) [ none ↦ none | some s' ↦ handle_all a s' ms ]

  -- `on_stop`, whose panic leaves the actor as it was.
  abbrev pub after_stop : Actor S T → S → S
  after_stop a s = elim (a.on_stop s) [ none ↦ s | some s' ↦ s' ]

  pub actor-run_hook :
      (a : Actor S T) (c : Cell S T) → (run_hook a.on_stop c).0.actor ≡ after_stop a c.actor
  actor-run_hook a c = elim (Option-cases (a.on_stop c.actor)) [
    | inl e ↦ rw (e, run_hook, after_stop) refl
    | inr (s, e) ↦ rw (e, run_hook, after_stop) refl
  ]

  -- A handler that does not panic.
  pub process-handled :
      (a : Actor S T) (t : Clock) (c : Cell S T) (m : T) (s : S)
      → a.handle c.actor m ≡ some s
      → process a t c m ≡ (record (measure t.elapsed c) { actor = s }, worked)
  unfolding process
  process-handled a t c m s e = rw (e, process) refl

  pub handled_first :
      (a : Actor S T) (s s' : S) (m : T) (ms : List T)
      → handle_all a s (m ∷ ms) ≡ some s'
      → (s1 : S) × (a.handle s m ≡ some s1) × (handle_all a s1 ms ≡ some s')
  handled_first a s s' m ms h = elim (Option-cases (a.handle s m)) [
    | inl e ↦ absurd (ground (arith, e, h))
    | inr (s1, e) ↦
        (s1, e, ap (λ o. elim o [ none ↦ none | some x ↦ handle_all a x ms ]) (sym e) ∙ h)
  ]

  -- The drain stops the actor in state `s'`, with no message left.
  abbrev pub StoppedIn : Actor S T → S → Option (Visited (ℕ × Cell S T)) → Type 0
  StoppedIn a s' r =
      (p : ℕ × Cell S T) × (r ≡ some (stopped p))
      × (p.1.actor ≡ after_stop a s')
      × (p.1.rx.items ≡ [])

  drain_cell-in_order :
      (a : Actor S T) (clock : ℕ → Clock) (items : List T) (k : ℕ) (c : Cell S T) (s' : S)
      → c.rx.items ≡ items
      → handle_all a c.actor items ≡ some s'
      → StoppedIn a s' (drain_cell (cell_actor a clock) (suc (length items)) (k, c))
  drain_cell-in_order a clock [] k c s' e h =
      let erased = cell_actor a clock in
      let poll = poll_one-items a (clock k) c [] e in
      let end = (run_hook a.on_stop c).0 in
      let none_left = ap (λ rx. rx.items) (rx-run_hook a.on_stop c) ∙ e in
      let state = actor-run_hook a c ∙ ap (after_stop a) (some-injective c.actor s' h) in
      subst (StoppedIn a s')
        (sym
          (drain_cell-next erased 0 (k, c) ∙ ap (λ r. drain_next erased 0 (suc k, r.0) (r.1)) poll))
        ((suc k, end), refl, state, none_left)
  drain_cell-in_order a clock (m ∷ items) k c s' e h =
      let erased = cell_actor a clock in
      let fuel = suc (length items) in
      let (s1, handled, later) = handled_first a c.actor s' m items h in
      let c1 = record c { rx = record c.rx { items = items } } in
      let next = record (measure (clock k).elapsed c1) { actor = s1 } in
      let poll =
        poll_one-items a (clock k) c (m ∷ items) e ∙ process-handled a (clock k) c1 m s1 handled in
      let left = ap (λ rx. rx.items) (rx-measure (clock k).elapsed c1) in
      subst (StoppedIn a s')
        (sym (
          drain_cell-next erased fuel (k, c)
          ∙ ap (λ r. drain_next erased fuel (suc k, r.0) (r.1)) poll))
        (drain_cell-in_order a clock items (suc k) next s' left later)

  -- If the handler panics on none of the messages in the mailbox, taken in the order in which they
  -- were sent, the drain at shutdown ends with the state that handling them in that order gives, on
  -- which `on_stop` is called once, and with no message left.
  pub drain_cell-InOrder :
      (a : Actor S T) (clock : ℕ → Clock) (k : ℕ) (c : Cell S T) (s' : S)
      → handle_all a c.actor c.rx.items ≡ some s'
      → StoppedIn a s' (drain_cell (cell_actor a clock) (suc (length c.rx.items)) (k, c))
  drain_cell-InOrder a clock k c s' h = drain_cell-in_order a clock (c.rx.items) k c s' refl h
