-- ===== src/Net/Codec/Newlines.antt =====
-- core/src/net.rs: `Lines` has what the framing adapter needs of a codec.
use mathlib.Core.List.{append-nil}
use aetherflow.Base.{
  ℕ, suc, ◌+◌, ◌≤◌, ◌<◌, ◌≡◌, refl, sym, ap, ◌∙◌, ◌⊎◌, inl, inr, none, some, [], ◌∷◌, ◌++◌, arith,
  ◌==◌, Bool-cases, Option-cases, length, take, drop,
}
use aetherflow.Base.{take-append_le, drop-append_le, length-drop}
use aetherflow.Net.{Bytes}
use aetherflow.Net.Codec.{newline_position, strip_return, decode_lines, lines}
use aetherflow.Net.Codec.Laws.{IsStreaming}

-- The newline found is inside the buffer, and is found whatever follows.
newline_position-lt : (b : Bytes) (p : ℕ) → newline_position b ≡ some p → p < length b
unfolding newline_position
newline_position-lt [] p = λ e. absurd (ground (arith, e))
newline_position-lt (x ∷ b) p = elim (Bool-cases (x == 10)) [
  | inl y ↦ rw y (λ e. let z : 0 ≡ p = ground (arith, e) in omega arith)
  | inr n ↦ rw n (elim (Option-cases (newline_position b)) [
    | inl none_left ↦ rw none_left (λ e. absurd (ground (arith, e)))
    | inr (q, at) ↦
        rw at
          (λ e. let z : suc q ≡ p = ground (arith, e) in omega (arith, newline_position-lt b q at))
  ])
]

newline_position-append :
    (b m : Bytes) (p : ℕ) → newline_position b ≡ some p → newline_position (b ++ m) ≡ some p
unfolding newline_position
newline_position-append [] m p = λ e. absurd (ground (arith, e))
newline_position-append (x ∷ b) m p = elim (Bool-cases (x == 10)) [
  | inl y ↦ rw y (λ e. e)
  | inr n ↦ rw n (elim (Option-cases (newline_position b)) [
    | inl none_left ↦ rw none_left (λ e. absurd (ground (arith, e)))
    | inr (q, at) ↦ rw (at, newline_position-append b m q at) (λ e. e)
  ])
]

pub decode_lines-cases :
    (k : Unit {0}) (b : Bytes)
    → (decode_lines k b ≡ record { codec = k; buf = b; frame = none })
      ⊎ ((p : ℕ) × (p < length b)
          × ((m : Bytes)
              → decode_lines k (b ++ m) ≡ record {
                codec = k;
                buf = drop (p + 1) b ++ m;
                frame = some (strip_return (take p b));
              }))
unfolding decode_lines
decode_lines-cases k b = elim (Option-cases (newline_position b)) [
  | inl none_left ↦ inl (rw (none_left, decode_lines) refl)
  | inr (p, at) ↦
      let inside = newline_position-lt b p at in
      inr (
        p,
        inside,
        λ m.
            rw
              (
                newline_position-append b m p at,
                decode_lines,
                take-append_le p b m (omega (arith, inside)),
                drop-append_le (p + 1) b m (omega (arith, inside)),
              )
              refl,
      )
]

-- Without anything behind it.
lines_here :
    (k : Unit {0}) (b : Bytes) (p : ℕ)
    → ((m : Bytes)
        → decode_lines k (b ++ m)
          ≡ record { codec = k; buf = drop (p + 1) b ++ m; frame = some (strip_return (take p b)) })
    → decode_lines k b
      ≡ record { codec = k; buf = drop (p + 1) b; frame = some (strip_return (take p b)) }
lines_here k b p found =
    ap (decode_lines k) (sym (append-nil b))
    ∙ found []
    ∙ ap (λ l. record { codec = k; buf = l; frame = some (strip_return (take p b)) })
        (append-nil (drop (p + 1) b))

lines-progress :
    (k : Unit {0}) (b f : Bytes)
    → (decode_lines k b).frame ≡ some f
    → length (decode_lines k b).buf < length b
lines-progress k b f = elim (decode_lines-cases k b) [
  | inl e ↦ rw e (λ h. absurd (ground (arith, h)))
  | inr (p, inside, found) ↦
      rw (lines_here k b p found) (λ h'. omega (arith, inside, length-drop (p + 1) b))
]

lines-stable :
    (k : Unit {0}) (b m f : Bytes)
    → (decode_lines k b).frame ≡ some f
    → decode_lines k (b ++ m) ≡ record (decode_lines k b) { buf = (decode_lines k b).buf ++ m }
lines-stable k b m f = elim (decode_lines-cases k b) [
  | inl e ↦ rw e (λ h. absurd (ground (arith, h)))
  | inr (p, inside, found) ↦ rw (lines_here k b p found, found m) (λ h'. refl)
]

lines-keeps :
    (k : Unit {0}) (b : Bytes)
    → (decode_lines k b).frame ≡ none
    → length (decode_lines k b).buf ≤ length b
lines-keeps k b = elim (decode_lines-cases k b) [
  | inl e ↦ rw e (λ h. omega arith)
  | inr (p, inside, found) ↦ rw (lines_here k b p found) (λ h'. absurd (ground (arith, h')))
]

lines-waits :
    (k : Unit {0}) (b m : Bytes)
    → (decode_lines k b).frame ≡ none
    → decode_lines k (b ++ m) ≡ decode_lines (decode_lines k b).codec ((decode_lines k b).buf ++ m)
lines-waits k b m = elim (decode_lines-cases k b) [
  | inl e ↦ rw e (λ h. refl)
  | inr (p, inside, found) ↦ rw (lines_here k b p found) (λ h'. absurd (ground (arith, h')))
]

-- A line is found or not whatever follows it, and takes at least its newline.
pub lines-IsStreaming : IsStreaming lines
lines-IsStreaming = record {
  progress = lines-progress;
  stable = lines-stable;
  keeps = lines-keeps;
  waits = lines-waits;
}
