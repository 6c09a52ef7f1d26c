-- ===== src/System/Placement/Spread.antt =====
-- core/src/system.rs: how `System::spawn` spreads the actors over the cores.
use native.Mathlib.Nat.{mod-eq_of_lt, add-mod_right}
use aetherflow.Base.{
  ℕ, zero, suc, ◌+◌, ◌*◌, ◌%◌, ◌≤◌, ◌<◌, ◌≡◌, refl, ap, ◌∙◌, Option, none, some, List, [], ◌∷◌,
  ◌++◌, arith, ℕ_discrete, ◌==◌, if◌then◌else◌, length, get_elem?, length-set, length-append,
  get_elem?-set_self, get_elem?-set_ne, lt_of_get_elem?,
}
use aetherflow.Base.Words.{word}
use aetherflow.System.Supervise.{never}
use aetherflow.System.Cell.{Cell}
use aetherflow.System.Core.{add}
use aetherflow.System.Placement.{
  CoreHandle, System, ActorRef, spawn, new_cell, default_mailbox_capacity,
}
use aetherflow.System.Placement.RoundRobin.{AllRunning, placed, spawn-AllRunning}

-- How many of so many positions from one on name a core.
abbrev same_core : (core i : ℕ) → ℕ
same_core core i = if core == i then 1 else 0

abbrev one_hit : (n c i : ℕ) → ℕ
one_hit n c i = same_core (c % n) i

abbrev hits : (n c m i : ℕ) → ℕ
hits n c zero i = 0
hits n c (suc m) i = one_hit n c i + hits n (suc c) m i

hits-append : (n c a b i : ℕ) → hits n c (a + b) i ≡ hits n c a i + hits n (c + a) b i
hits-append n c zero b i =
    let z : c + 0 ≡ c = omega arith in let y : 0 + b ≡ b = omega arith in rw (z, y) (omega arith)
hits-append n c (suc a) b i =
    let rest = hits-append n (suc c) a b i in
    let z : suc c + a ≡ c + suc a = omega arith in
    let y : suc a + b ≡ suc (a + b) = omega arith in
    let moved = ap (λ k. hits n k b i) z in rw y (omega (arith, rest, moved))

-- Positions below the number of cores name themselves.
hits-below : (n c m i : ℕ) → c + m ≤ n → i < c → hits n c m i ≡ 0
hits-below n c zero i le lt = refl
hits-below n c (suc m) i le lt =
    let rest = hits-below n (suc c) m i (omega (arith, le)) (omega (arith, lt)) in
    let here : c % n ≡ c = mod-eq_of_lt (omega (arith, le)) in
    let miss : one_hit n c i ≡ 0 = ground (arith, here, lt) in omega (arith, rest, miss)

hits-within : (n c m i : ℕ) → c + m ≤ n → c ≤ i → i < c + m → hits n c m i ≡ 1
hits-within n c zero i le lo hi = absurd (omega (arith, lo, hi))
hits-within n c (suc m) i le lo hi =
    let here : c % n ≡ c = mod-eq_of_lt (omega (arith, le)) in
    elim (ℕ_discrete c i) [
      | yes same ↦
          let rest = hits-below n (suc c) m i (omega (arith, le)) (omega (arith, same)) in
          let hit : one_hit n c i ≡ 1 = ground (arith, here, same) in omega (arith, rest, hit)
      | no ne ↦
          let rest =
            hits-within n (suc c) m i (omega (arith, le)) (omega (arith, lo, ne))
              (omega (arith, hi)) in
          let miss : one_hit n c i ≡ 0 = ground (arith, here, ne) in omega (arith, rest, miss)
    ]

-- As many positions in a row as there are cores name each core once.
hits-round : (n c i : ℕ) → i < n → hits n c n i ≡ 1
hits-round n zero i lt = hits-within n 0 n i (omega arith) (omega arith) (omega (arith, lt))
hits-round n (suc c) i lt =
    let before = hits-round n c i lt in
    let whole = hits-append n c n 1 i in
    let first : hits n c (n + 1) i ≡ one_hit n c i + hits n (suc c) n i =
      let e : n + 1 ≡ suc n = omega arith in ap (λ k. hits n c k i) e in
    let last : one_hit n (c + n) i ≡ one_hit n c i = ap (λ k. same_core k i) (add-mod_right c n) in
    omega (arith, before, whole, first, last)

hits-rounds : (n c rounds i : ℕ) → i < n → hits n c (rounds * n) i ≡ rounds
hits-rounds n c zero i lt = let z : 0 * n ≡ 0 = omega arith in rw z refl
hits-rounds n c (suc rounds) i lt =
    let e : suc rounds * n ≡ n + rounds * n = ground arith in
    let first = hits-round n c i lt in
    let rest = hits-rounds n (c + n) rounds i lt in
    let whole = hits-append n c n (rounds * n) i in rw e (omega (arith, first, rest, whole))

module _ {S T : Type 0} where
  abbrev pub spawn_next :
      (System (Cell S T) → Option (System (Cell S T)))
      → Option (System (Cell S T) × ActorRef)
      → Option (System (Cell S T))
  spawn_next more none = none
  spawn_next more (some (s, r)) = more s

  -- A spawn for each actor, in order.
  pub spawn_all : System (Cell S T) → List S → Option (System (Cell S T))
  spawn_all s [] = some s
  spawn_all s (actor ∷ actors) = spawn_next (λ s'. spawn_all s' actors) (spawn s actor)

  -- How many actors a core was sent.
  abbrev control_count : Option (CoreHandle (Cell S T)) → ℕ
  control_count none = 0
  control_count (some h) = length h.control

  abbrev pub sent_to : System (Cell S T) → ℕ → ℕ
  sent_to s i = control_count (get_elem? s.cores i)

  placed-sent_to :
      (s : System (Cell S T)) (core : ℕ) (actor : S) (h : CoreHandle (Cell S T)) (i : ℕ)
      → get_elem? s.cores core ≡ some h
      → sent_to (placed s core actor h) i ≡ sent_to s i + same_core core i
  placed-sent_to s core actor h i at =
      let m = add (new_cell default_mailbox_capacity actor none never none) in
      let h' : CoreHandle (Cell S T) = record h { control = h.control ++ (m ∷ []) } in
      elim (ℕ_discrete core i) [
        | yes same ↦
            let set_here = get_elem?-set_self s.cores core h' (lt_of_get_elem? s.cores core h at) in
            let now : sent_to (placed s core actor h) core ≡ length (h.control ++ (m ∷ [])) =
              ap control_count set_here in
            let was : sent_to s core ≡ length h.control = ap control_count at in
            let more = length-append h.control (m ∷ []) in
            let hit : same_core core i ≡ 1 = ground (arith, same) in
            rw (hit, ← same) (omega (arith, now, was, more))
        | no ne ↦
            let miss : same_core core i ≡ 0 = ground (arith, ne) in
            let same = ap control_count (get_elem?-set_ne s.cores core i h' ne) in
            omega (arith, miss, same)
      ]

  spawn_all-Hits :
      (s : System (Cell S T)) (actors : List S)
      → 0 < length s.cores
      → AllRunning s.cores
      → s.next + length actors < word
      → (s' : System (Cell S T)) × (spawn_all s actors ≡ some s')
        × ((i : ℕ) → sent_to s' i ≡ sent_to s i + hits (length s.cores) s.next (length actors) i)
  unfolding spawn_all
  spawn_all-Hits s [] pos all small = (s, refl, λ i. omega arith)
  spawn_all-Hits s (actor ∷ actors) pos all small =
      let (h, at, spawned, running) = spawn-AllRunning s actor pos all in
      let core = s.next % length s.cores in
      let s1 = placed s core actor h in
      let m = add (new_cell default_mailbox_capacity actor none never none) in
      let same : length s1.cores ≡ length s.cores =
        length-set s.cores core (record h { control = h.control ++ (m ∷ []) }) in
      let next : s1.next ≡ suc s.next = mod-eq_of_lt (omega (arith, small)) ∙ omega arith in
      let (s', rest, counts) =
        spawn_all-Hits s1 actors (omega (arith, same, pos)) running (omega (arith, next, small)) in
      (
        s',
        rw (spawned, spawn_next) rest,
        λ i.
            let here = placed-sent_to s core actor h i at in
            let later = counts i in
            let moved : hits (length s1.cores) s1.next (length actors) i
                ≡ hits (length s.cores) (suc s.next) (length actors) i =
              ap (λ k. hits k s1.next (length actors) i) same
              ∙ ap (λ k. hits (length s.cores) k (length actors) i) next in
            omega (arith, here, later, moved),
      )

  -- On a system whose cores all run, spawns without a core spread the actors evenly: when so many times
  -- as many actors as there are cores are spawned in a row, from any position of the cursor that does
  -- not wrap meanwhile, all spawns succeed and each core is sent exactly that many of the actors.
  pub spawn_all-Even :
      (s : System (Cell S T)) (actors : List S) (rounds : ℕ)
      → AllRunning s.cores
      → 0 < length s.cores
      → length actors ≡ rounds * length s.cores
      → s.next + length actors < word
      → (s' : System (Cell S T)) × (spawn_all s actors ≡ some s')
        × ((i : ℕ) → i < length s.cores → sent_to s' i ≡ sent_to s i + rounds)
  spawn_all-Even s actors rounds all pos whole small =
      let (s', done, counts) = spawn_all-Hits s actors pos all small in
      (
        s',
        done,
        λ i lt.
            let even = ap (λ m. hits (length s.cores) s.next m i) whole in
            let each = hits-rounds (length s.cores) s.next rounds i lt in
            let count = counts i in omega (arith, even, each, count),
      )
