-- ===== src/System/Placement/RoundRobin.antt =====
-- core/src/system.rs: placement by `System::spawn`.
use mathlib.Core.Path.{subst}
use native.Mathlib.Nat.{mod-lt}
use mathlib.Core.Option.{some-injective}
use aetherflow.Base.{
  ℕ, zero, suc, ◌%◌, ◌<◌, ◌≡◌, refl, ap, true, false, none, some, List, [], ◌∷◌, ◌++◌, arith, ltb,
  length, get_elem?, set, get_elem?_of_lt,
}
use aetherflow.Base.Words.{wrapping_add}
use aetherflow.System.Supervise.{never}
use aetherflow.System.Cell.{Cell}
use aetherflow.System.Core.{Control, add}
use aetherflow.System.Placement.{
  CoreHandle, System, spawn, install, new_cell, with_ref, send_control, default_mailbox_capacity,
}

module _ {C : Type 0} where
  -- Every core's thread runs.
  abbrev pub AllRunning : List (CoreHandle C) → Type 0
  AllRunning hs = (i : ℕ) (h : CoreHandle C) → get_elem? hs i ≡ some h → h.running ≡ true

  AllRunning-set :
      (hs : List (CoreHandle C)) (i : ℕ) (h : CoreHandle C)
      → AllRunning hs
      → h.running ≡ true
      → AllRunning (set hs i h)
  AllRunning-set [] i h all r j k e = absurd (ground (arith, e))
  AllRunning-set (x ∷ hs) zero h all r zero k e =
      subst (λ y. y.running ≡ true) (some-injective h k e) r
  AllRunning-set (x ∷ hs) zero h all r (suc j) k e = all (suc j) k e
  AllRunning-set (x ∷ hs) (suc i) h all r zero k e = all zero k e
  AllRunning-set (x ∷ hs) (suc i) h all r (suc j) k e =
      AllRunning-set hs i h (λ i h e. all (suc i) h e) r j k e

  send_control-running :
      (s : System C) (core : ℕ) (m : Control C) (h : CoreHandle C)
      → get_elem? s.cores core ≡ some h
      → h.running ≡ true
      → send_control s core m
        ≡ some
            (record s { cores = set s.cores core (record h { control = h.control ++ (m ∷ []) }) })
  send_control-running s core m h e r = rw (e, send_control, r) refl

module _ {S T : Type 0} where
  -- The system after a spawn on a core: the cell is that core's last control message.
  abbrev pub placed : System (Cell S T) → ℕ → S → CoreHandle (Cell S T) → System (Cell S T)
  placed s core actor h = record {
    next = wrapping_add s.next 1;
    cores = set s.cores core (record h {
      control = h.control ++ (add (new_cell default_mailbox_capacity actor none never none) ∷ []);
    });
  }

  -- On a system with at least one core, all of them running, a spawn without a core succeeds: the actor
  -- goes to the core that the cursor names, modulo the number of cores, as its last control message;
  -- the cursor advances by one, wrapping at 2^64; and all cores are running after it.
  pub spawn-AllRunning :
      (s : System (Cell S T)) (actor : S)
      → 0 < length s.cores
      → AllRunning s.cores
      → (h : CoreHandle (Cell S T)) × (get_elem? s.cores (s.next % length s.cores) ≡ some h)
        × (spawn s actor
            ≡ some (
              placed s (s.next % length s.cores) actor h,
              record { instrumented = false; core = s.next % length s.cores },
            ))
        × AllRunning (placed s (s.next % length s.cores) actor h).cores
  unfolding spawn install
  spawn-AllRunning s actor pos all =
      let core = s.next % length s.cores in
      let inside : core < length s.cores = mod-lt s.next pos in
      let (h, e) = get_elem?_of_lt s.cores core inside in
      let r = all core h e in
      let test : ltb core (length s.cores) ≡ true = ground arith in
      let m = add (new_cell default_mailbox_capacity actor none never none) in
      let sent = send_control-running (record s { next = wrapping_add s.next 1 }) core m h e r in
      (
        h,
        e,
        rw test (ap (with_ref core none) sent),
        AllRunning-set s.cores core (record h { control = h.control ++ (m ∷ []) }) all r,
      )
