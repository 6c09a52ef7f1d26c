-- ===== src/Net/Codec/RoundTrip.antt =====
-- core/src/net.rs: what is sent as frames arrives as the same frames, whatever the codec; and LengthPrefixed.
use mathlib.Core.Path.{subst}
use mathlib.Core.List.{map-id}
use aetherflow.Base.{
  ℕ, ◌/◌, ◌%◌, ◌^◌, ◌<◌, ◌≡◌, refl, sym, ap, ◌∙◌, none, some, List, [], ◌∷◌, ◌++◌, map, arith,
  length, length-append,
}
use aetherflow.Base.AllOf.{AllOf}
use aetherflow.Base.{take-append, drop-append}
use aetherflow.Net.{Bytes, Io}
use aetherflow.Net.Codec.{
  Codec, FramedConnection, Framed, on_data, new_framed, from_be_bytes, decode_prefixed,
  length_prefixed,
}
use aetherflow.Net.Codec.Laws.{IsStreaming, decode_prefixed-HasFrame, length_prefixed-IsStreaming}
use aetherflow.Net.Codec.Chunks.{Delivers, Delivers-frame, Delivers-none, on_data-Delivers}
use aetherflow.Net.Codec.Feed.{feed, concat, feed-concat}

-- What the handler makes of frames, one after the other.
pub on_frames : {S : Type 0} → FramedConnection S → S → List Bytes → Io → S × Io
on_frames h s [] io = (s, io)
on_frames h s (f ∷ fs) io = let (s', io') = h.on_frame s f io in on_frames h s' fs io'

-- The bytes of items, one behind the other.
unfoldable pub encode_all : {A : Type 0} → (A → Bytes) → List A → Bytes
encode_all encode [] = []
encode_all encode (f ∷ fs) = encode f ++ encode_all encode fs

-- An item of this kind is decoded as its frame, and what follows it stays.
abbrev pub Decodes :
    {A : Type 0} → Codec (Unit {0}) → (A → Bytes) → (A → Bytes) → (A → Type 0) → Type 0
Decodes c encode frame Good =
    (x : _) (rest : Bytes)
    → Good x
    → c.decode tt (encode x ++ rest) ≡ record { codec = tt; buf = rest; frame = some (frame x) }

module _ {S A : Type 0} (c : Codec (Unit {0})) (h : FramedConnection S) (encode frame : A → Bytes)
    (Good : A → Type 0) (laws : IsStreaming c) (reads : Decodes c encode frame Good)
    (ends : c.decode tt [] ≡ record { codec = tt; buf = []; frame = none }) where
  abbrev pub holding : S → Bytes → Framed S (Unit {0})
  holding s b = record { inner = s; codec = tt; buf = b }

  abbrev pub after_frames : S → List A → Io → Framed S (Unit {0}) × Io
  after_frames s xs io = let (s', io') = on_frames h s (map frame xs) io in (holding s' [], io')

  Delivers-encode_all :
      (s : S) (xs : List A) (io : Io)
      → AllOf Good xs
      → Delivers c h (holding s (encode_all encode xs)) io (after_frames s xs io)
  unfolding on_frames encode_all
  Delivers-encode_all s [] io good =
      subst
        (λ x.
          Delivers c h (holding s []) io (record { inner = s; codec = x.codec; buf = x.buf }, io))
        ends (Delivers-none c h (holding s []) io (ap (λ z. z.frame) ends))
  Delivers-encode_all s (x ∷ xs) io (good, goods) =
      let bytes = encode x ++ encode_all encode xs in
      let step = reads x (encode_all encode xs) good in
      let found = ap (λ z. z.frame) step in
      let next =
        ap (λ z. record { inner = (h.on_frame s (frame x) io).0; codec = z.codec; buf = z.buf })
          step in
      let after = after_frames s (x ∷ xs) io in
      let rest =
        Delivers-encode_all (h.on_frame s (frame x) io).0 xs (h.on_frame s (frame x) io).1 goods in
      Delivers-frame c h (holding s bytes) (frame x) io after found
        (laws.progress tt bytes (frame x) found)
        (subst (λ z. Delivers c h z (h.on_frame s (frame x) io).1 after) (sym next) rest)

  pub feed-encode_all :
      (s : S) (xs : List A) (io : Io) (chunk : Bytes) (chunks : List Bytes)
      → AllOf Good xs
      → chunk ++ concat chunks ≡ encode_all encode xs
      → feed c h (holding s []) (chunk ∷ chunks) io ≡ some (after_frames s xs io)
  feed-encode_all s xs io chunk chunks good cut =
      let (r, fed, whole) = feed-concat c h laws (holding s []) io chunk chunks in
      let d = Delivers-encode_all s xs io good in
      let all =
        on_data-Delivers c h (holding s []) (encode_all encode xs) io (after_frames s xs io) d in
      fed ∙ sym whole ∙ ap (λ b. on_data c h (holding s []) b io) cut ∙ all

-- `(frame.len() as u32).to_be_bytes()`
abbrev pub to_be_bytes : ℕ → Bytes
to_be_bytes n = n / 16777216 % 256 ∷ n / 65536 % 256 ∷ n / 256 % 256 ∷ n % 256 ∷ []

abbrev pub encode_prefixed : Bytes → Bytes
encode_prefixed f = to_be_bytes (length f) ++ f

from_be_bytes-to_be_bytes :
    (n : ℕ)
    → n < 2 ^ 32
    → from_be_bytes (n / 16777216 % 256) (n / 65536 % 256) (n / 256 % 256) (n % 256) ≡ n
from_be_bytes-to_be_bytes n h = omega arith

prefixed-Decodes : Decodes length_prefixed encode_prefixed (λ f. f) (λ f. length f < 2 ^ 32)
prefixed-Decodes f rest h =
    let n = length f in
    let e = from_be_bytes-to_be_bytes n h in
    decode_prefixed-HasFrame tt (encode_prefixed f ++ rest) (record {
      b0 = n / 16777216 % 256;
      b1 = n / 65536 % 256;
      b2 = n / 256 % 256;
      b3 = n % 256;
      rest = f ++ rest;
      whole = refl;
      enough = rw e (omega (arith, length-append f rest));
    })
    ∙ rw (e, take-append f rest, drop-append f rest) refl

module _ {S : Type 0} (h : FramedConnection S) (s : S) (fs : List Bytes) (io : Io) (chunk : Bytes)
    (chunks : List Bytes) where
  -- Frames of fewer than 2^32 bytes, each behind its length as four bytes, reach the handler as they
  -- were, in order and each once, however the stream is cut into chunks, and no byte is left over.
  pub length_prefixed_roundtrip :
      AllOf (λ f. length f < 2 ^ 32) fs
      → chunk ++ concat chunks ≡ encode_all encode_prefixed fs
      → feed length_prefixed h (new_framed length_prefixed s) (chunk ∷ chunks) io
        ≡ some (new_framed length_prefixed (on_frames h s fs io).0, (on_frames h s fs io).1)
  unfolding decode_prefixed
  length_prefixed_roundtrip good cut =
      feed-encode_all length_prefixed h encode_prefixed (λ f. f) _ length_prefixed-IsStreaming
        prefixed-Decodes refl s fs io chunk chunks good cut
      ∙ ap
          (λ gs. some (new_framed length_prefixed (on_frames h s gs io).0, (on_frames h s gs io).1))
          (map-id fs)
