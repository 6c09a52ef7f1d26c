-- ===== src/Net/Conn/Flush.antt =====
-- core/src/net.rs: what a flush does with the outbound bytes.
use mathlib.Core.List.{append_assoc}
use aetherflow.Base.{
  ◌≤◌, ◌≡◌, refl, ap, ◌∙◌, inl, inr, List, [], ◌∷◌, ◌++◌, arith, ◌==◌, Bool-cases, length, take,
  drop,
}
use aetherflow.Base.{take-append-drop, length-drop}
use aetherflow.Net.{Bytes}
use aetherflow.Net.Conn.{Written, wrote, write_blocked, write_interrupted, write_failed, flush}

-- A flush neither loses, repeats nor reorders a byte: what was sent and what is left are the bytes that
-- there were, whatever the results of the writes; and what is left can only be shorter.
pub flush_lem :
    (ws : List Written) (out sent : Bytes)
    → ((flush ws out sent).sent ++ (flush ws out sent).out ≡ sent ++ out)
      × (length (flush ws out sent).out ≤ length out)
unfolding flush
flush_lem ws [] sent = (refl, omega arith)
flush_lem [] (b ∷ bs) sent = (refl, omega arith)
flush_lem (wrote n ∷ ws) (b ∷ bs) sent = elim (Bool-cases (n == 0)) [
  | inl z ↦ rw z (refl, omega arith)
  | inr more ↦
      let (kept, shorter) = flush_lem ws (drop n (b ∷ bs)) (sent ++ take n (b ∷ bs)) in
      rw more (
        kept
            ∙ append_assoc sent (take n (b ∷ bs)) (drop n (b ∷ bs))
            ∙ ap (λ l. sent ++ l) (take-append-drop n (b ∷ bs)),
        omega (arith, shorter, length-drop n (b ∷ bs)),
      )
]
flush_lem (write_blocked ∷ ws) (b ∷ bs) sent = (refl, omega arith)
flush_lem (write_interrupted ∷ ws) (b ∷ bs) sent = flush_lem ws (b ∷ bs) sent
flush_lem (write_failed ∷ ws) (b ∷ bs) sent = (refl, omega arith)
