-- ===== src/Spsc/Tests.antt =====
-- The ring at concrete inputs: a ring of two values, with calls that overlap.
use aetherflow.Base.{ℕ, ◌≡◌, refl, false, none, some, List, [], ◌∷◌, ◌++◌, arith}
use aetherflow.Errors.{full, ok, err}
use aetherflow.Spsc.{
  Ring, channel, pushed, Move, call_push, next_push, push_again, call_pop, next_pop, push_step,
  pop_step, move, run, start, drop_ring,
}
use aetherflow.Spsc.Progress.{push-Returns}
use aetherflow.Spsc.Fifo.{IsFifo, run-Fifo, drop_ring-Fifo}

abbrev two : Ring ℕ
two = record { slots = none ∷ none ∷ []; cap = 2; head = 0; tail = 0; closed = false }

-- Two values are written, the second while the first is read; the third finds the ring full.
abbrev overlap : List (Move ℕ)
overlap =
    call_push 7
    ∷ next_push
    ∷ next_push
    ∷ next_push
    ∷ next_push
    ∷ call_pop
    ∷ next_pop
    ∷ call_push 8
    ∷ next_push
    ∷ next_pop
    ∷ next_push
    ∷ next_push
    ∷ next_pop
    ∷ next_push
    ∷ call_push 9
    ∷ next_push
    ∷ next_push
    ∷ next_pop
    ∷ []

new_two : channel 2 ≡ some two
unfolding channel
new_two = refl

full_before_the_head : (run (start two) overlap).producer ≡ pushed (err (full 9))
unfolding run move push_step pop_step
full_before_the_head = refl

run-Fifo_example : IsFifo (run (start two) overlap) 2
unfolding run move push_step pop_step
run-Fifo_example = run-Fifo 2 two overlap new_two (ground arith)

drop_ring-Fifo_example :
    (left : List ℕ) × (drop_ring (run (start two) overlap).ring ≡ some left)
    × ((run (start two) overlap).written ≡ (run (start two) overlap).taken ++ left)
unfolding run move push_step pop_step
drop_ring-Fifo_example = drop_ring-Fifo 2 two overlap new_two (ground arith) refl refl

-- The ring is full until the consumer has released a slot; the second attempt then succeeds.
abbrev retried : List (Move ℕ)
retried = overlap ++ (next_pop ∷ push_again ∷ [])

abbrev pushes_again : List (Move ℕ)
pushes_again =
    next_push ∷ call_pop ∷ next_push ∷ next_pop ∷ next_push ∷ next_pop ∷ next_push ∷ next_pop ∷ []

push-Returns_example :
    ((run (run (start two) retried) pushes_again).producer ≡ pushed (ok tt))
    × ((run (run (start two) retried) pushes_again).written
        ≡ (run (start two) retried).written ++ (9 ∷ []))
unfolding run move push_step pop_step
push-Returns_example =
    push-Returns 2 two retried pushes_again 9 new_two refl (ground arith)
      (refl, (refl, (refl, (refl, (refl, (refl, (refl, (refl, tt)))))))) (ground arith)
      (ground arith)
