-- ===== src/System/Core/Visits.antt =====
-- core/src/system.rs: a pass of `core_loop` visits every actor exactly once, although the actors
use mathlib.Core.Path.{subst}
-- that leave are replaced by the last one of the list.
use mathlib.Core.List.{append_assoc, append-nil, map-append}
use mathlib.Core.List.Perm
use mathlib.Core.List.{Perm, perm_middle}
use aetherflow.Base.{
  ℕ, zero, suc, ◌+◌, ◌≤◌, ◌≡◌, refl, sym, ap, ◌∙◌, Bool, false, ◌||◌, Option, none, some, List, [],
  ◌∷◌, ◌++◌, map, arith, length, get_elem?, set, length-append,
}
use aetherflow.System.Cell.{ErasedActor}
use aetherflow.System.Core.{
  Visited, kept, dropped, stopped, Pass, under_first, last_first, swap_remove, visit, settle,
  run_pass, start_pass,
}

module _ {V : Type 0} where
  move_out :
      (a g : List V) (x : V) (r : List V) → Perm (((a ++ (x ∷ [])) ++ g) ++ r) ((a ++ g) ++ (x ∷ r))
  move_out a g x r =
      let e : ((a ++ (x ∷ [])) ++ g) ++ r ≡ a ++ (x ∷ (g ++ r)) =
        rw (append_assoc a (x ∷ []) g, append_assoc a (x ∷ g) r) refl in
      let e' : a ++ (g ++ r) ≡ (a ++ g) ++ r = sym (append_assoc a g r) in
      subst (λ l. Perm l ((a ++ g) ++ (x ∷ r))) (sym e)
        (Perm.trans (perm_middle a (g ++ r)) (
          subst (λ l. Perm (x ∷ l) ((a ++ g) ++ (x ∷ r))) (sym e')
            (Perm.symm (perm_middle (a ++ g) r))))

  move_last :
      (a g : List V) (x : V) (r : List V) → (a ++ (g ++ (x ∷ []))) ++ r ≡ (a ++ g) ++ (x ∷ r)
  move_last a g x r = rw (← append_assoc a g (x ∷ []), append_assoc (a ++ g) (x ∷ []) r) refl

module _ {C : Type 0} where
  get_elem?-append_cons :
      (done : List C) (c : C) (cs : List C) → get_elem? (done ++ (c ∷ cs)) (length done) ≡ some c
  get_elem?-append_cons [] c cs = refl
  get_elem?-append_cons (d ∷ done) c cs = get_elem?-append_cons done c cs

  get_elem?-end : (done : List C) → get_elem? (done ++ []) (length done) ≡ none
  get_elem?-end [] = refl
  get_elem?-end (d ∷ done) = get_elem?-end done

  set-append_cons :
      (done : List C) (c c' : C) (cs : List C)
      → set (done ++ (c ∷ cs)) (length done) c' ≡ (done ++ (c' ∷ [])) ++ cs
  set-append_cons [] c c' cs = refl
  set-append_cons (d ∷ done) c c' cs = ap (λ l. d ∷ l) (set-append_cons done c c' cs)

  swap_remove-append_cons :
      (done : List C) (c : C) (cs : List C)
      → swap_remove (done ++ (c ∷ cs)) (length done) ≡ done ++ last_first cs
  swap_remove-append_cons [] c cs = refl
  swap_remove-append_cons (d ∷ done) c cs = ap (λ l. d ∷ l) (swap_remove-append_cons done c cs)

  under_first-Perm : (x : C) (xs : List C) → Perm (under_first x xs) (x ∷ xs)
  under_first-Perm x [] = Perm.refl (x ∷ [])
  under_first-Perm x (l ∷ xs) = Perm.swap x l xs

  last_first-Perm : (xs : List C) → Perm (last_first xs) xs
  last_first-Perm [] = Perm.refl []
  last_first-Perm (x ∷ xs) =
      Perm.trans (under_first-Perm x (last_first xs)) (Perm.cons x (last_first-Perm xs))

  length-under_first : (x : C) (xs : List C) → length (under_first x xs) ≡ suc (length xs)
  length-under_first x [] = refl
  length-under_first x (l ∷ xs) = refl

  pub length-last_first : (xs : List C) → length (last_first xs) ≡ length xs
  length-last_first [] = refl
  length-last_first (x ∷ xs) = length-under_first x (last_first xs) ∙ ap suc (length-last_first xs)

  length-snoc : (xs : List C) (c : C) → length (xs ++ (c ∷ [])) ≡ length xs + 1
  length-snoc xs c = length-append xs (c ∷ [])

  -- The visits that are expected: of each actor of the list, as it is at the start of the pass.
  abbrev pub visits : ErasedActor C → ℕ → List C → List (Visited C)
  visits e batch_drain cs = map (λ c. (visit e batch_drain c).0) cs

  -- The pass ends, and what stays in the list and what has left are so many visits.
  unfoldable pub Ends : Option (Pass C) → List (Visited C) → Type 0
  Ends r vs = (p : Pass C) × (r ≡ some p) × Perm (map kept p.actors ++ p.gone) vs

  Ends-Perm : (r : Option (Pass C)) {vs ws : List (Visited C)} → Ends r vs → Perm vs ws → Ends r ws
  unfolding Ends
  Ends-Perm r (p, e, perm) more = (p, e, Perm.trans perm more)

  cursor : List C → List C → Bool → List (Visited C) → Pass C
  cursor done rest did gone = record {
    actors = done ++ rest;
    i = length done;
    did_work = did;
    gone = gone;
  }

  seen : List C → List (Visited C) → List (Visited C)
  seen done gone = map kept done ++ gone

  run_pass-end :
      (e : ErasedActor C) (n fuel : ℕ) (p : Pass C)
      → get_elem? p.actors p.i ≡ none
      → run_pass e n (suc fuel) p ≡ some p
  unfolding run_pass
  run_pass-end e n fuel p stop = rw (stop, run_pass) refl

  run_pass-step :
      (e : ErasedActor C) (n fuel : ℕ) (p : Pass C) (c : C)
      → get_elem? p.actors p.i ≡ some c
      → run_pass e n (suc fuel) p ≡ run_pass e n fuel (settle p (visit e n c))
  unfolding run_pass
  run_pass-step e n fuel p c here = rw (here, run_pass) refl

  -- What is shown of a shorter rest of the list.
  abbrev Shorter : ErasedActor C → ℕ → ℕ → Type 0
  Shorter e n fuel =
      (done rest : List C) (did : Bool) (gone : List (Visited C))
      → length rest ≤ fuel
      → Ends (run_pass e n (suc fuel) (cursor done rest did gone))
          (seen done gone ++ visits e n rest)

  -- The actor at the index leaves, with `v` recorded.
  run_pass-leaves :
      (e : ErasedActor C) (n fuel : ℕ) (done cs : List C) (c : C) (did : Bool)
      (gone : List (Visited C)) (v : Visited C)
      → Shorter e n fuel
      → length cs ≤ fuel
      → Ends
          (run_pass e n (suc fuel) (record {
            actors = swap_remove (done ++ (c ∷ cs)) (length done);
            i = length done;
            did_work = did;
            gone = gone ++ (v ∷ []);
          }))
          (seen done gone ++ (v ∷ visits e n cs))
  unfolding cursor seen
  run_pass-leaves e n fuel done cs c did gone v ih enough =
      let short : length (last_first cs) ≤ fuel = omega (arith, length-last_first cs) in
      let h = ih done (last_first cs) did (gone ++ (v ∷ [])) short in
      let perm = Perm.map (λ c. (visit e n c).0) (last_first-Perm cs) in
      let h' = Ends-Perm _ h (Perm.append_left (seen done (gone ++ (v ∷ []))) perm) in
      rw (swap_remove-append_cons done c cs, ← move_last (map kept done) gone v (visits e n cs)) h'

  run_pass-settle :
      (e : ErasedActor C) (n fuel : ℕ) (done cs : List C) (c : C) (did : Bool)
      (gone : List (Visited C)) (v : Visited C) (b : Bool)
      → Shorter e n fuel
      → length cs ≤ fuel
      → Ends
          (run_pass e n (suc fuel) (settle (cursor done (c ∷ cs) did gone) (v, b)))
          (seen done gone ++ (v ∷ visits e n cs))
  unfolding cursor seen settle
  run_pass-settle e n fuel done cs c did gone (kept c') b ih enough =
      let h = ih (done ++ (c' ∷ [])) cs (did || b) gone enough in
      let perm = move_out (map kept done) gone (kept c') (visits e n cs) in
      rw (set-append_cons done c c' cs, ← length-snoc done c')
        (Ends-Perm _ h (rw (map-append kept done (c' ∷ [])) perm))
  run_pass-settle e n fuel done cs c did gone (dropped c') b ih enough =
      run_pass-leaves e n fuel done cs c (did || b) gone (dropped c') ih enough
  run_pass-settle e n fuel done cs c did gone (stopped c') b ih enough =
      run_pass-leaves e n fuel done cs c (did || b) gone (stopped c') ih enough

  run_pass-from :
      (e : ErasedActor C) (n fuel : ℕ) (done rest : List C) (did : Bool) (gone : List (Visited C))
      → length rest ≤ fuel
      → Ends
          (run_pass e n (suc fuel) (cursor done rest did gone))
          (seen done gone ++ visits e n rest)
  unfolding cursor seen Ends
  run_pass-from e n fuel done [] did gone enough =
      let p = cursor done [] did gone in
      let none_left = run_pass-end e n fuel p (get_elem?-end done) in
      (p, none_left, rw (append-nil done, append-nil (seen done gone)) (Perm.refl (seen done gone)))
  run_pass-from e n zero done (c ∷ cs) did gone enough = absurd (omega arith)
  run_pass-from e n (suc fuel) done (c ∷ cs) did gone enough =
      let p = cursor done (c ∷ cs) did gone in
      let step = run_pass-step e n (suc fuel) p c (get_elem?-append_cons done c cs) in
      let v = visit e n c in
      let ih : Shorter e n fuel = run_pass-from e n fuel in
      subst (λ r. Ends r (seen done gone ++ visits e n (c ∷ cs))) (sym step)
        (run_pass-settle e n fuel done cs c did gone (v.0) (v.1) ih (omega arith))

  -- A pass of a core thread ends within one round more than there are actors, and what it leaves in
  -- the list together with the cells that left is, in some order, one visit of each actor that was
  -- in the list: none is skipped, visited twice or lost when another one leaves.
  pub run_pass-Ends :
      (e : ErasedActor C) (batch_drain : ℕ) (actors : List C)
      → Ends
          (run_pass e batch_drain (length actors + 1) (start_pass actors))
          (visits e batch_drain actors)
  unfolding cursor seen
  run_pass-Ends e n actors =
      let fuel : length actors + 1 ≡ suc (length actors) = omega arith in
      rw fuel (run_pass-from e n (length actors) [] actors false [] (omega arith))
