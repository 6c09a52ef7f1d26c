-- ===== src/Net/Codec/Tests.antt =====
-- Streams cut into chunks, through the two codecs.
use aetherflow.Base.{◌≡◌, refl, some, List, [], ◌∷◌, ◌++◌, arith}
use aetherflow.Net.{Bytes, Io, new_io}
use aetherflow.Net.Codec.{FramedConnection, Framed, new_framed, on_data, length_prefixed, lines}
use aetherflow.Net.Codec.Newlines.{lines-IsStreaming}
use aetherflow.Net.Codec.Feed.{feed, concat, feed-concat}
use aetherflow.Net.Codec.RoundTrip.{on_frames, encode_all, length_prefixed_roundtrip}

-- A handler that keeps the frames, and writes each of them back.
abbrev echo : FramedConnection (List Bytes)
echo = record {
  on_open = λ s io. (s, io);
  on_frame = λ s f io. (s ++ (f ∷ []), record io { out = io.out ++ f });
  on_close = λ s. s;
}

-- "foo\nba" and "r\n"
abbrev first_chunk : Bytes
first_chunk = 102 ∷ 111 ∷ 111 ∷ 10 ∷ 98 ∷ 97 ∷ []

abbrev second_chunk : Bytes
second_chunk = 114 ∷ 10 ∷ []

feed-concat_example :
    (r : Framed (List Bytes) (Unit {0}) × Io) × (feed lines echo
        (new_framed lines [])
        (first_chunk ∷ second_chunk ∷ [])
        new_io
      ≡ some r)
    × (on_data lines echo (new_framed lines []) (first_chunk ++ concat (second_chunk ∷ [])) new_io
        ≡ some r)
feed-concat_example =
    feed-concat lines echo lines-IsStreaming (new_framed lines []) new_io first_chunk
      (second_chunk ∷ [])

abbrev foo : Bytes
foo = 102 ∷ 111 ∷ 111 ∷ []

abbrev bar : Bytes
bar = 98 ∷ 97 ∷ 114 ∷ []

length_prefixed_roundtrip_example :
    feed length_prefixed echo
      (new_framed length_prefixed [])
      ((0 ∷ 0 ∷ []) ∷ (0 ∷ 2 ∷ 7 ∷ 8 ∷ []) ∷ [])
      new_io
    ≡ some (
      new_framed length_prefixed (on_frames echo [] ((7 ∷ 8 ∷ []) ∷ []) new_io).0,
      (on_frames echo [] ((7 ∷ 8 ∷ []) ∷ []) new_io).1,
    )
unfolding concat encode_all
length_prefixed_roundtrip_example =
    length_prefixed_roundtrip echo [] ((7 ∷ 8 ∷ []) ∷ []) new_io (0 ∷ 0 ∷ [])
      ((0 ∷ 2 ∷ 7 ∷ 8 ∷ []) ∷ []) (omega arith, tt) refl
