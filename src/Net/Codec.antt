-- ===== src/Net/Codec.antt =====
-- core/src/net.rs: the trait `Codec`, its two implementations, and the adapter `Framed`. A codec's
-- `decode` changes its own state and the buffer, and may return a frame.
pub mod Laws
pub mod Newlines
pub mod Chunks
pub mod Feed
pub mod RoundTrip
pub mod Lines
mod Tests
use aetherflow.Base.{
  ℕ, zero, suc, ◌+◌, ◌-◌, ◌*◌, ◌/◌, ◌%◌, ◌^◌, ◌≤◌, ◌<◌, min, max, ◌≡◌, refl, sym, ap, ◌∙◌, ◌≢◌, ◌⊎◌,
  inl, inr, Bool, true, false, ◌&&◌, ◌||◌, not, Option, none, some, List, [], ◌∷◌, ◌++◌, map, arith,
  dec_lt, ℕ_discrete, ltb, leb, ◌==◌, if◌then◌else◌, Bool-cases, Option-cases, length, get_elem?,
  set, take, drop, replicate, length-set, length-append, get_elem?-set_self, get_elem?-set_ne,
  get_elem?_of_lt, lt_of_get_elem?,
}
use aetherflow.Net.{Bytes, Io, Connection}

-- What `decode` leaves and returns.
pub record Step (K : Type 0) : Type 0 where
  pub codec : K
  pub buf : Bytes
  pub frame : Option Bytes

-- The trait `Codec`, with `Default`.
pub record Codec (K : Type 0) : Type 0 where
  pub default : K
  pub decode : K → Bytes → Step K

abbrev pub byte_at : Bytes → ℕ → ℕ
byte_at buf i = elim (get_elem? buf i) [ none ↦ 0 | some b ↦ b ]

-- `u32::from_be_bytes`
abbrev pub from_be_bytes : (a b c d : ℕ) → ℕ
from_be_bytes a b c d = ((a * 256 + b) * 256 + c) * 256 + d

-- `LengthPrefixed::decode`
unfoldable pub decode_prefixed : Unit {0} → Bytes → Step (Unit {0})
decode_prefixed k buf =
    let n = from_be_bytes (byte_at buf 0) (byte_at buf 1) (byte_at buf 2) (byte_at buf 3) in
    if ltb (length buf) 4
    then record { codec = k; buf = buf; frame = none }
    else if ltb (length buf) (4 + n)
    then record { codec = k; buf = buf; frame = none }
    else record { codec = k; buf = drop (4 + n) buf; frame = some (take n (drop 4 buf)) }

-- `LengthPrefixed`
abbrev pub length_prefixed : Codec (Unit {0})
length_prefixed = record { default = tt; decode = decode_prefixed }

-- `buf.iter().position(|&b| b == b'\n')`
abbrev pub map_suc : Option ℕ → Option ℕ
map_suc none = none
map_suc (some n) = some (suc n)

unfoldable pub newline_position : Bytes → Option ℕ
newline_position [] = none
newline_position (b ∷ bs) =
    let rest = map_suc (newline_position bs) in if b == 10 then some 0 else rest

-- `if line.last() == Some(&b'\r') { line.pop(); }`
unfoldable pub strip_return : Bytes → Bytes
strip_return [] = []
strip_return (b ∷ []) = if b == 13 then [] else b ∷ []
strip_return (b ∷ c ∷ bs) = b ∷ strip_return (c ∷ bs)

-- `Lines::decode`
unfoldable pub decode_lines : Unit {0} → Bytes → Step (Unit {0})
unfolding newline_position strip_return
decode_lines k buf = elim (newline_position buf) [
  | none ↦ record { codec = k; buf = buf; frame = none }
  | some pos ↦ record {
    codec = k;
    buf = drop (pos + 1) buf;
    frame = some (strip_return (take pos buf));
  }
]

-- `Lines`
abbrev pub lines : Codec (Unit {0})
lines = record { default = tt; decode = decode_lines }

-- The trait `FramedConnection`, less its codec.
pub record FramedConnection (S : Type 0) : Type 0 where
  pub on_open : S → Io → S × Io
  pub on_frame : S → Bytes → Io → S × Io
  pub on_close : S → S

-- `Framed`
pub record Framed (S K : Type 0) : Type 0 where
  pub inner : S
  pub codec : K
  pub buf : Bytes

module _ {S K : Type 0} where
  -- `Framed::new`
  abbrev pub new_framed : Codec K → S → Framed S K
  new_framed c inner = record { inner = inner; codec = c.default; buf = [] }

  -- `while let Some(frame) = self.codec.decode(&mut self.buf)`, on fuel.
  pub deliver : Codec K → FramedConnection S → ℕ → Framed S K → Io → Option (Framed S K × Io)
  deliver c h zero f io = none
  deliver c h (suc fuel) f io =
      let step = c.decode f.codec f.buf in
      elim step.frame [
        | none ↦ some (record f { codec = step.codec; buf = step.buf }, io)
        | some frame ↦
            let (inner', io') = h.on_frame f.inner frame io in
            deliver c h fuel (record { inner = inner'; codec = step.codec; buf = step.buf }) io'
      ]

  -- `Framed::on_data`; the fuel is one round more than there are bytes.
  unfoldable pub on_data :
      Codec K → FramedConnection S → Framed S K → Bytes → Io → Option (Framed S K × Io)
  unfolding deliver
  on_data c h f chunk io =
      let buf' = f.buf ++ chunk in deliver c h (length buf' + 1) (record f { buf = buf' }) io

  -- `Framed` as a `Connection`; a loop that does not end leaves the handler as it was.
  abbrev pub or_same : Framed S K × Io → Option (Framed S K × Io) → Framed S K × Io
  or_same same none = same
  or_same same (some r) = r

  abbrev pub framed_connection : Codec K → FramedConnection S → Connection (Framed S K)
  framed_connection c h = record {
    on_open =
        λ f io. let (inner', io') = h.on_open f.inner io in (record f { inner = inner' }, io');
    on_data = λ f chunk io. or_same (f, io) (on_data c h f chunk io);
    on_close = λ f. record f { inner = h.on_close f.inner };
  }
