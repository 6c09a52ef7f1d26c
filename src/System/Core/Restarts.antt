-- ===== src/System/Core/Restarts.antt =====
-- core/src/system.rs: a supervised actor that panics is rebuilt, and goes on with the next message.
use mathlib.Core.Path.{subst}
use native.Mathlib.Nat.{mod-le}
use aetherflow.Base.{
  ℕ, suc, ◌+◌, ◌-◌, ◌≤◌, ◌≡◌, refl, sym, ap, ◌∙◌, inl, inr, true, Option, none, some, List, [], ◌∷◌,
  arith, leb, if◌then◌else◌, Bool-cases, Option-cases, length,
}
use aetherflow.System.{u32}
use aetherflow.System.Supervise.{
  RestartPolicy, never, limited, always, RestartState, count_request, allow_restart,
}
use aetherflow.System.Cell.{
  PollOutcome, worked, Actor, Clock, Cell, run_hook, measure, rebuild, install_rebuilt, after_panic,
  process, cell_actor,
}
use aetherflow.System.Core.{drain_cell}
use aetherflow.System.Core.Drain.{
  poll_one-items, rx-measure, rx-run_hook, drain_next, drain_cell-next,
}
use aetherflow.System.Core.InOrder.{StoppedIn, actor-run_hook}

-- The policy allows so many restarts more, whenever they are requested.
abbrev pub Allows : RestartPolicy → RestartState → ℕ → Type 0
Allows never s k = k ≡ 0
Allows (limited max_restarts within) s k = s.count + k ≤ max_restarts
Allows always s k = Unit

count_request-count :
    (window : Option ℕ) (count within now : ℕ)
    → (count_request (record { window_start = window; count = count }) within now).count ≤ count + 1
unfolding count_request
count_request-count none count within now = omega arith
count_request-count (some start) count within now = elim (Bool-cases (leb (now - start) within)) [
  | inl y ↦ rw y (mod-le (count + 1) u32)
  | inr n ↦ rw n (omega arith)
]

allow_restart-Allows :
    (p : RestartPolicy) (s : RestartState) (now k : ℕ)
    → Allows p s (suc k)
    → ((allow_restart p s now).1 ≡ true) × Allows p (allow_restart p s now).0 k
unfolding allow_restart
allow_restart-Allows never s now k h = absurd (omega (arith, h))
allow_restart-Allows (limited m within) s now k h =
    let up = count_request-count s.window_start s.count within now in
    (ground (arith, up, h), omega (arith, up, h))
allow_restart-Allows always s now k h = (refl, tt)

module _ {S T : Type 0} (a : Actor S T) (made : S) where
  -- The handler on each message in turn; a message on which it panics is given up, and the actor is
  -- the one that the factory made.
  abbrev pub handle_or_restart : S → List T → S
  handle_or_restart s [] = s
  handle_or_restart s (m ∷ ms) = elim (a.handle s m) [
    | none ↦ handle_or_restart made ms
    | some s' ↦ handle_or_restart s' ms
  ]

  -- On how many messages it panics.
  abbrev pub panics : S → List T → ℕ
  panics s [] = 0
  panics s (m ∷ ms) = elim (a.handle s m) [ none ↦ suc (panics made ms) | some s' ↦ panics s' ms ]

  -- The cell is supervised, its factory makes an actor, and the policy allows so many restarts more.
  abbrev pub CanRestart : ℕ → Cell S T → Type 0
  CanRestart k c =
      (make : Option S) × (c.factory ≡ some make)
      × (rebuild a make ≡ some made)
      × Allows c.restart_policy c.restarts k

  CanRestart-measure : (k n : ℕ) (c : Cell S T) → CanRestart k c → CanRestart k (measure n c)
  CanRestart-measure k n c can = elim (Option-cases c.metrics) [
    | inl e ↦ rw (e, measure) can
    | inr (h, e) ↦ rw (e, measure) can
  ]

  after_panic-restarts :
      (now k : ℕ) (c : Cell S T)
      → CanRestart (suc k) c
      → (after_panic a now c ≡ (
        record c { restarts = (allow_restart c.restart_policy c.restarts now).0; actor = made },
        worked,
      ))
        × CanRestart k (record c {
          restarts = (allow_restart c.restart_policy c.restarts now).0;
          actor = made;
        })
  unfolding after_panic
  after_panic-restarts now k c (make, factory, built, allows) =
      let (yes_restart, more) = allow_restart-Allows c.restart_policy c.restarts now k allows in
      let asked = allow_restart c.restart_policy c.restarts now in
      let c' = record c { restarts = asked.0 } in
      let restart : Option (Option S) → Cell S T × PollOutcome = λ o. elim o [
        | none ↦ (c, PollOutcome.panicked)
        | some make ↦
            if asked.1 then install_rebuilt c' (rebuild a make) else (c', PollOutcome.panicked)
      ] in
      (
        ap restart factory
            ∙ ap
                (λ b. if b then install_rebuilt c' (rebuild a make) else (c', PollOutcome.panicked))
                yes_restart
            ∙ ap (λ o. install_rebuilt c' o) built,
        (make, factory, built, more),
      )

  -- What is left to do after a message: the state, the messages, and the restarts that may be needed.
  abbrev Goes : S → List T → ℕ → Cell S T × PollOutcome → Type 0
  Goes s items k r = (r.1 ≡ worked) × (r.0.actor ≡ s) × (r.0.rx.items ≡ items) × CanRestart k r.0

  process-Goes :
      (t : Clock) (c : Cell S T) (m : T) (items : List T)
      → c.rx.items ≡ items
      → CanRestart (panics c.actor (m ∷ items)) c
      → (s : S) × (handle_or_restart c.actor (m ∷ items) ≡ handle_or_restart s items)
        × Goes s items (panics s items) (process a t c m)
  unfolding process
  process-Goes t c m items e can = elim (Option-cases (a.handle c.actor m)) [
    | inl q ↦
        let can' =
          subst
            (λ o.
              CanRestart (elim o [ none ↦ suc (panics made items) | some s' ↦ panics s' items ]) c)
            q can in
        let (done, after) =
          after_panic-restarts t.now (panics made items) (measure t.elapsed c)
            (CanRestart-measure (suc (panics made items)) t.elapsed c can') in
        let left = ap (λ rx. rx.items) (rx-measure t.elapsed c) ∙ e in
        (made, rw (q, handle_or_restart) refl, rw (q, process, done) (refl, refl, left, after))
    | inr (s, q) ↦
        let can' =
          subst
            (λ o.
              CanRestart (elim o [ none ↦ suc (panics made items) | some s' ↦ panics s' items ]) c)
            q can in
        let left = ap (λ rx. rx.items) (rx-measure t.elapsed c) ∙ e in
        (
          s,
          rw (q, handle_or_restart) refl,
          rw (q, process) (refl, refl, left, CanRestart-measure (panics s items) t.elapsed c can'),
        )
  ]

  drain_cell-restarts :
      (clock : ℕ → Clock) (items : List T) (k : ℕ) (c : Cell S T)
      → c.rx.items ≡ items
      → CanRestart (panics c.actor items) c
      → StoppedIn a
          (handle_or_restart c.actor items)
          (drain_cell (cell_actor a clock) (suc (length items)) (k, c))
  drain_cell-restarts clock [] k c e can =
      let erased = cell_actor a clock in
      let poll = poll_one-items a (clock k) c [] e in
      subst (StoppedIn a c.actor)
        (sym
          (drain_cell-next erased 0 (k, c) ∙ ap (λ r. drain_next erased 0 (suc k, r.0) (r.1)) poll))
        (
          (suc k, (run_hook a.on_stop c).0),
          refl,
          actor-run_hook a c,
          ap (λ rx. rx.items) (rx-run_hook a.on_stop c) ∙ e,
        )
  drain_cell-restarts clock (m ∷ items) k c e can =
      let erased = cell_actor a clock in
      let fuel = suc (length items) in
      let c1 = record c { rx = record c.rx { items = items } } in
      let r = process a (clock k) c1 m in
      let (s, same, (works, state, left, more)) = process-Goes (clock k) c1 m items refl can in
      let poll = poll_one-items a (clock k) c (m ∷ items) e in
      let step =
        drain_cell-next erased fuel (k, c)
        ∙ ap (λ r. drain_next erased fuel (suc k, r.0) (r.1)) poll
        ∙ ap (λ o. drain_next erased fuel (suc k, r.0) o) works in
      let rest = drain_cell-restarts clock items (suc k) r.0 left (rw state more) in
      subst (λ v. StoppedIn a v (drain_cell erased (suc fuel) (k, c))) (sym same)
        (subst (StoppedIn a (handle_or_restart s items)) (sym step) (
          subst (λ v. StoppedIn a (handle_or_restart v items) (drain_cell erased fuel (suc k, r.0)))
            state rest))

  -- A supervised actor, whose factory and on_restart give a fresh actor, whose policy allows as many
  -- restarts more as there are messages on which its handler panics: the drain at shutdown handles the
  -- messages in the order in which they were sent, all but those on which the handler panics, each panic
  -- leaving a fresh actor for the next message; on the state that this gives on_stop is called once, and
  -- no message is left. For Limited this holds whenever the panics come.
  pub drain_cell-Restarts :
      (clock : ℕ → Clock) (k : ℕ) (c : Cell S T)
      → CanRestart (panics c.actor c.rx.items) c
      → StoppedIn a
          (handle_or_restart c.actor c.rx.items)
          (drain_cell (cell_actor a clock) (suc (length c.rx.items)) (k, c))
  drain_cell-Restarts clock k c can = drain_cell-restarts clock c.rx.items k c refl can
