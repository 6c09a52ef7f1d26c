-- ===== src/Spsc/Slots.antt =====
-- core/src/spsc.rs: the slots that hold the values not yet taken.
use aetherflow.Base.{
  ℕ, suc, ◌+◌, ◌-◌, ◌%◌, ◌≤◌, ◌<◌, ◌≡◌, refl, sym, ap, ◌∙◌, ◌≢◌, Option, some, List, [], ◌∷◌, ◌++◌,
  arith, length, get_elem?, set, get_elem?-set_ne,
}
use aetherflow.Mpsc.Invariant.{lap_ne}
use aetherflow.Spsc.{Ring, drop_slots}

-- Two positions less than a lap apart have different slots.
pub slot_ne : (a b cap : ℕ) → a < b → b < a + cap → a % cap ≢ b % cap
slot_ne a b cap lt near e =
    let e1 : a + 0 ≡ a = omega arith in
    let e2 : a + (b - a) ≡ b = omega arith in
    lap_ne {cap = cap} {i = 0} {j = b - a} a (omega arith) (omega arith) (rw (e1, e2) e)

module _ {T : Type 0} where
  -- The slots from a position on hold these values.
  abbrev pub Holds : List (Option T) → ℕ → ℕ → List T → Type 0
  Holds slots cap p [] = Unit
  Holds slots cap p (x ∷ rest) =
      (get_elem? slots (p % cap) ≡ some (some x)) × Holds slots cap (suc p) rest

  -- A write to a slot of none of these positions.
  pub Holds-set :
      (slots : List (Option T)) (cap p q : ℕ) (v : Option T) (rest : List T)
      → ((k : ℕ) → p ≤ k → k < p + length rest → q % cap ≢ k % cap)
      → Holds slots cap p rest
      → Holds (set slots (q % cap) v) cap p rest
  Holds-set slots cap p q v [] ne h = tt
  Holds-set slots cap p q v (x ∷ rest) ne (here, h) = (
    get_elem?-set_ne slots (q % cap) (p % cap) v (ne p (omega arith) (omega arith)) ∙ here,
    Holds-set slots cap (suc p) q v rest (λ k lo hi. ne k (omega (arith, lo)) (omega (arith, hi)))
        h,
  )

  -- A value written behind the last one.
  pub Holds-snoc :
      (slots : List (Option T)) (cap p : ℕ) (rest : List T) (x : T)
      → Holds slots cap p rest
      → get_elem? slots ((p + length rest) % cap) ≡ some (some x)
      → Holds slots cap p (rest ++ (x ∷ []))
  Holds-snoc slots cap p [] x h e =
      let z : p + 0 ≡ p = omega arith in (ap (λ q. get_elem? slots (q % cap)) (sym z) ∙ e, tt)
  Holds-snoc slots cap p (y ∷ rest) x (here, h) e =
      let z : p + suc (length rest) ≡ suc p + length rest = omega arith in
      (
        here,
        Holds-snoc slots cap (suc p) rest x h (ap (λ q. get_elem? slots (q % cap)) (sym z) ∙ e),
      )

  pub drop_slots-Holds :
      (r : Ring T) (p : ℕ) (rest : List T)
      → Holds r.slots r.cap p rest
      → drop_slots r (length rest) p ≡ some rest
  unfolding drop_slots
  drop_slots-Holds r p [] h = refl
  drop_slots-Holds r p (x ∷ rest) (here, h) =
      rw (here, drop_slots-Holds r (suc p) rest h, drop_slots) refl
