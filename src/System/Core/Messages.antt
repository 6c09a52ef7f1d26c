-- ===== src/System/Core/Messages.antt =====
-- core/src/system.rs: what a message makes of an actor, with the restart after a panic.
use mathlib.Core.Path.{subst}
use aetherflow.Base.{
  ℕ, ◌%◌, ◌≡◌, refl, sym, ap, ◌∙◌, ◌⊎◌, inl, inr, Bool, Option, none, some, List, [], ◌∷◌, ◌++◌,
  if◌then◌else◌, Bool-cases, Option-cases,
}
use aetherflow.Base.Words.{word}
use aetherflow.Metrics.{LatencyHistogram, record_sample}
use aetherflow.System.Supervise.{allow_restart}
use aetherflow.System.Cell.{
  PollOutcome, Actor, Clock, Cell, measure, process, after_panic, rebuild, install_rebuilt, worked,
}

-- A measurement changes the histogram at most.
measure-metrics :
    {S T : Type 0} (n : ℕ) (c : Cell S T)
    → (x : Option LatencyHistogram) × (measure n c ≡ record c { metrics = x })
measure-metrics n c =
    let measured : Option LatencyHistogram → Cell _ _ = λ o. elim o [
      | none ↦ c
      | some h ↦ record c { metrics = some (record_sample h (n % word)) }
    ] in
    elim (Option-cases c.metrics) [
      | inl e ↦ (c.metrics, ap measured e)
      | inr (h, e) ↦ (some (record_sample h (n % word)), ap measured e)
    ]

module _ {S T : Type 0} (a : Actor S T) where
  -- What a message makes of an actor with such a factory: its handler returns; or it panics, and the
  -- actor is rebuilt.
  abbrev pub Handles : Option (Option S) → S → T → S → Type 0
  Handles factory s m s' =
      (a.handle s m ≡ some s')
      ⊎ ((a.handle s m ≡ none)
          × (make : Option S) × (factory ≡ some make)
          × (rebuild a make ≡ some s'))

  -- The messages in turn.
  abbrev pub HandlesAll : Option (Option S) → S → List T → S → Type 0
  HandlesAll factory s [] s' = s ≡ s'
  HandlesAll factory s (m ∷ ms) s' = (s1 : S) × Handles factory s m s1 × HandlesAll factory s1 ms s'

  pub HandlesAll-more :
      (factory : Option (Option S)) (handled : List T) (m : T) (s s1 s2 : S)
      → HandlesAll factory s handled s1
      → Handles factory s1 m s2
      → HandlesAll factory s (handled ++ (m ∷ [])) s2
  HandlesAll-more factory [] m s s1 s2 e step =
      (s2, subst (λ x. Handles factory x m s2) (sym e) step, refl)
  HandlesAll-more factory (h ∷ hs) m s s1 s2 (next, first, later) step =
      (next, first, HandlesAll-more factory hs m next s1 s2 later step)

  -- After a message: the actor has handled it, or its handler has panicked on it and it goes.
  abbrev pub Handled : Cell S T → T → Cell S T × PollOutcome → Type 0
  Handled c m (c', o) =
      (c'.rx ≡ c.rx)
      × (c'.factory ≡ c.factory)
      × ((Handles c.factory c.actor m c'.actor × (o ≡ worked))
          ⊎ ((a.handle c.actor m ≡ none) × (o ≡ PollOutcome.panicked)))

  install_rebuilt-Handled :
      (c : Cell S T) (m : T) (make : Option S)
      → a.handle c.actor m ≡ none
      → c.factory ≡ some make
      → Handled c m (install_rebuilt c (rebuild a make))
  install_rebuilt-Handled c m make e factory = elim (Option-cases (rebuild a make)) [
    | inl failed ↦
        subst (λ o. Handled c m (install_rebuilt c o)) (sym failed) (refl, refl, inr (e, refl))
    | inr (made, built) ↦
        subst (λ o. Handled c m (install_rebuilt c o)) (sym built)
          (refl, refl, inl (inr (e, make, factory, built), refl))
  ]

  after_panic-Handled :
      (now : ℕ) (c : Cell S T) (m : T)
      → a.handle c.actor m ≡ none
      → Handled c m (after_panic a now c)
  unfolding after_panic
  after_panic-Handled now c m e =
      let (asked, allowed) = allow_restart c.restart_policy c.restarts now in
      let c' = record c { restarts = asked } in
      let ask : Bool → Option S → Cell S T × PollOutcome =
        λ b make. if b then install_rebuilt c' (rebuild a make) else (c', PollOutcome.panicked) in
      let restart : Option (Option S) → Cell S T × PollOutcome =
        λ o. elim o [ none ↦ (c, PollOutcome.panicked) | some make ↦ ask allowed make ] in
      elim (Option-cases c.factory) [
        | inl alone ↦ subst (Handled c m) (sym (ap restart alone)) (refl, refl, inr (e, refl))
        | inr (make, factory) ↦ elim (Bool-cases allowed) [
          | inl granted ↦
              subst (Handled c m) (sym (ap restart factory ∙ ap (λ b. ask b make) granted))
                (install_rebuilt-Handled c' m make e factory)
          | inr refused ↦
              subst (Handled c m) (sym (ap restart factory ∙ ap (λ b. ask b make) refused))
                (refl, refl, inr (e, refl))
        ]
      ]

  pub process-Handled : (t : Clock) (c : Cell S T) (m : T) → Handled c m (process a t c m)
  unfolding process
  process-Handled t c m =
      let (x, p) = measure-metrics t.elapsed c in
      let handle : Option S → Cell S T × PollOutcome = λ o. elim o [
        | none ↦ after_panic a t.now (measure t.elapsed c)
        | some s ↦ (record (measure t.elapsed c) { actor = s }, worked)
      ] in
      elim (Option-cases (a.handle c.actor m)) [
        | inl e ↦
            subst (Handled c m) (sym (ap handle e ∙ ap (after_panic a t.now) p))
              (after_panic-Handled t.now (record c { metrics = x }) m e)
        | inr (s, e) ↦
            subst (Handled c m) (sym (ap handle e ∙ ap (λ y. (record y { actor = s }, worked)) p))
              (refl, refl, inl (inl e, refl))
      ]
