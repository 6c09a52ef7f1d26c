-- ===== src/Net/Codec/Laws.antt =====
-- core/src/net.rs: what the framing adapter needs of a codec, and that both codecs have it.
use aetherflow.Base.{
  ℕ, suc, ◌+◌, ◌≤◌, ◌<◌, ◌≡◌, refl, ap, ◌∙◌, ◌⊎◌, inl, inr, false, none, some, [], ◌∷◌, ◌++◌, arith,
  ltb, if◌then◌else◌, Bool-cases, length, take, drop, length-append,
}
use aetherflow.Base.{take-append_le, drop-append_le, length-drop}
use aetherflow.Net.{Bytes}
use aetherflow.Net.Codec.{Step, Codec, from_be_bytes, decode_prefixed, length_prefixed}

-- A frame is found or not whatever follows it, and takes at least one byte out of the buffer.
pub record IsStreaming {K : Type 0} (c : Codec K) : Type 0 where
  pub progress :
      (k : K) (b f : Bytes) → (c.decode k b).frame ≡ some f → length (c.decode k b).buf < length b
  pub stable :
      (k : K) (b m f : Bytes)
      → (c.decode k b).frame ≡ some f
      → c.decode k (b ++ m) ≡ record (c.decode k b) { buf = (c.decode k b).buf ++ m }
  pub keeps :
      (k : K) (b : Bytes) → (c.decode k b).frame ≡ none → length (c.decode k b).buf ≤ length b
  pub waits :
      (k : K) (b m : Bytes)
      → (c.decode k b).frame ≡ none
      → c.decode k (b ++ m) ≡ c.decode (c.decode k b).codec ((c.decode k b).buf ++ m)

-- After the four bytes of the length.
abbrev pub body : Unit {0} → Bytes → ℕ → Bytes → Step (Unit {0})
body k whole n rest =
    if ltb (length rest) n
    then record { codec = k; buf = whole; frame = none }
    else record { codec = k; buf = drop n rest; frame = some (take n rest) }

pub decode_prefixed-body :
    (k : Unit {0}) (b0 b1 b2 b3 : ℕ) (rest : Bytes)
    → decode_prefixed k (b0 ∷ b1 ∷ b2 ∷ b3 ∷ rest)
      ≡ body k (b0 ∷ b1 ∷ b2 ∷ b3 ∷ rest) (from_be_bytes b0 b1 b2 b3) rest
unfolding decode_prefixed
decode_prefixed-body k b0 b1 b2 b3 rest =
    let n = from_be_bytes b0 b1 b2 b3 in
    let four : ltb (suc (suc (suc (suc (length rest))))) 4 ≡ false = ground arith in
    let e : 4 + n ≡ suc (suc (suc (suc n))) = omega arith in
    let e' : ltb (suc (suc (suc (suc (length rest))))) (suc (suc (suc (suc n))))
        ≡ ltb (length rest) n =
      ground arith in
    rw (four, e, e') refl

-- There are four bytes of a length, and as many more as they say.
pub record HasFrame (b : Bytes) : Type 0 where
  pub b0 : ℕ
  pub b1 : ℕ
  pub b2 : ℕ
  pub b3 : ℕ
  pub rest : Bytes
  pub whole : b ≡ b0 ∷ b1 ∷ b2 ∷ b3 ∷ rest
  pub enough : from_be_bytes b0 b1 b2 b3 ≤ length rest

body_enough :
    (k : Unit {0}) (whole : Bytes) (n : ℕ) (rest : Bytes)
    → n ≤ length rest
    → body k whole n rest ≡ record { codec = k; buf = drop n rest; frame = some (take n rest) }
body_enough k whole n rest h =
    let e : ltb (length rest) n ≡ false = ground arith in rw (e, body) refl

pub decode_prefixed-HasFrame :
    (k : Unit {0}) (b : Bytes) (h : HasFrame b)
    → decode_prefixed k b ≡ record {
      codec = k;
      buf = drop (from_be_bytes h.b0 h.b1 h.b2 h.b3) h.rest;
      frame = some (take (from_be_bytes h.b0 h.b1 h.b2 h.b3) h.rest);
    }
decode_prefixed-HasFrame k b h =
    ap (decode_prefixed k) h.whole
    ∙ decode_prefixed-body k h.b0 h.b1 h.b2 h.b3 h.rest
    ∙ body_enough k _ (from_be_bytes h.b0 h.b1 h.b2 h.b3) h.rest h.enough

body-cases :
    (k : Unit {0}) (b0 b1 b2 b3 : ℕ) (rest : Bytes)
    → (decode_prefixed k (b0 ∷ b1 ∷ b2 ∷ b3 ∷ rest)
        ≡ record { codec = k; buf = b0 ∷ b1 ∷ b2 ∷ b3 ∷ rest; frame = none })
      ⊎ HasFrame (b0 ∷ b1 ∷ b2 ∷ b3 ∷ rest)
body-cases k b0 b1 b2 b3 rest = elim (Bool-cases (ltb (length rest) (from_be_bytes b0 b1 b2 b3))) [
  | inl few ↦ inl (decode_prefixed-body k b0 b1 b2 b3 rest ∙ rw (few, body) refl)
  | inr many ↦ inr (record {
    b0 = b0;
    b1 = b1;
    b2 = b2;
    b3 = b3;
    rest = rest;
    whole = refl;
    enough = ground arith;
  })
]

-- The length prefix is the only decision of the decoder.
pub decode_prefixed-cases :
    (k : Unit {0}) (b : Bytes)
    → (decode_prefixed k b ≡ record { codec = k; buf = b; frame = none }) ⊎ HasFrame b
unfolding decode_prefixed
decode_prefixed-cases k [] = inl refl
decode_prefixed-cases k (b0 ∷ []) = inl refl
decode_prefixed-cases k (b0 ∷ b1 ∷ []) = inl refl
decode_prefixed-cases k (b0 ∷ b1 ∷ b2 ∷ []) = inl refl
decode_prefixed-cases k (b0 ∷ b1 ∷ b2 ∷ b3 ∷ rest) = body-cases k b0 b1 b2 b3 rest

HasFrame-append : (b m : Bytes) → HasFrame b → HasFrame (b ++ m)
HasFrame-append b m h = record {
  b0 = h.b0;
  b1 = h.b1;
  b2 = h.b2;
  b3 = h.b3;
  rest = h.rest ++ m;
  whole = ap (λ l. l ++ m) h.whole;
  enough = omega (arith, h.enough, length-append h.rest m);
}

prefixed-progress :
    (k : Unit {0}) (b f : Bytes)
    → (decode_prefixed k b).frame ≡ some f
    → length (decode_prefixed k b).buf < length b
prefixed-progress k b f = elim (decode_prefixed-cases k b) [
  | inl e ↦ rw e (λ h. absurd (ground (arith, h)))
  | inr h ↦
      let n = from_be_bytes h.b0 h.b1 h.b2 h.b3 in
      rw (decode_prefixed-HasFrame k b h)
        (λ h'. omega (arith, length-drop n h.rest, ap (λ l. length l) h.whole))
]

prefixed-stable :
    (k : Unit {0}) (b m f : Bytes)
    → (decode_prefixed k b).frame ≡ some f
    → decode_prefixed k (b ++ m)
      ≡ record (decode_prefixed k b) { buf = (decode_prefixed k b).buf ++ m }
unfolding HasFrame-append
prefixed-stable k b m f = elim (decode_prefixed-cases k b) [
  | inl e ↦ rw e (λ h. absurd (ground (arith, h)))
  | inr h ↦
      let n = from_be_bytes h.b0 h.b1 h.b2 h.b3 in
      rw
        (
          decode_prefixed-HasFrame k b h,
          decode_prefixed-HasFrame k (b ++ m) (HasFrame-append b m h),
          take-append_le n h.rest m h.enough,
          drop-append_le n h.rest m h.enough,
        )
        (λ h'. refl)
]

prefixed-keeps :
    (k : Unit {0}) (b : Bytes)
    → (decode_prefixed k b).frame ≡ none
    → length (decode_prefixed k b).buf ≤ length b
prefixed-keeps k b = elim (decode_prefixed-cases k b) [
  | inl e ↦ rw e (λ h. omega arith)
  | inr h ↦ rw (decode_prefixed-HasFrame k b h) (λ h'. absurd (ground (arith, h')))
]

prefixed-waits :
    (k : Unit {0}) (b m : Bytes)
    → (decode_prefixed k b).frame ≡ none
    → decode_prefixed k (b ++ m)
      ≡ decode_prefixed (decode_prefixed k b).codec ((decode_prefixed k b).buf ++ m)
prefixed-waits k b m = elim (decode_prefixed-cases k b) [
  | inl e ↦ rw e (λ h. refl)
  | inr h ↦ rw (decode_prefixed-HasFrame k b h) (λ h'. absurd (ground (arith, h')))
]

-- A length-prefixed frame is found or not whatever follows it, and takes at least one byte.
pub length_prefixed-IsStreaming : IsStreaming length_prefixed
length_prefixed-IsStreaming = record {
  progress = prefixed-progress;
  stable = prefixed-stable;
  keeps = prefixed-keeps;
  waits = prefixed-waits;
}
