-- ===== src/Net/Codec/Feed.antt =====
-- core/src/net.rs: a stream that arrives in chunks, through `Framed::on_data`.
use mathlib.Core.List.{append-nil}
use aetherflow.Base.{◌≡◌, refl, Option, none, some, List, [], ◌∷◌, ◌++◌, arith, length}
use aetherflow.Net.{Bytes, Io}
use aetherflow.Net.Codec.{Codec, FramedConnection, Framed, on_data}
use aetherflow.Net.Codec.Laws.{IsStreaming}
use aetherflow.Net.Codec.Chunks.{
  with_more, Delivers, on_data-Delivers, Delivers-total, on_data-chunk,
}

unfoldable pub concat : List Bytes → Bytes
concat [] = []
concat (chunk ∷ chunks) = chunk ++ concat chunks

module _ {S K : Type 0} where
  -- `on_data` on each chunk in turn.
  pub feed : Codec K → FramedConnection S → Framed S K → List Bytes → Io → Option (Framed S K × Io)
  feed c h f [] io = some (f, io)
  feed c h f (chunk ∷ chunks) io = elim (on_data c h f chunk io) [
    | none ↦ none
    | some r ↦ feed c h (r.0) chunks (r.1)
  ]

  feed-Delivers :
      (c : Codec K) (h : FramedConnection S)
      → IsStreaming c
      → (f : Framed S K) (io : Io) (chunk : Bytes) (chunks : List Bytes)
      → (r : Framed S K × Io) × (feed c h f (chunk ∷ chunks) io ≡ some r)
        × Delivers c h (with_more c h f (chunk ++ concat chunks)) io r
  unfolding feed concat
  feed-Delivers c h laws f io chunk [] =
      let (r, d) =
        Delivers-total c h laws (length (f.buf ++ chunk)) (with_more c h f chunk) io
          (omega arith) in
      (r, rw (on_data-Delivers c h f chunk io r d, feed) refl, rw (append-nil chunk) d)
  feed-Delivers c h laws f io chunk (next ∷ chunks) =
      let (r, d) =
        Delivers-total c h laws (length (f.buf ++ chunk)) (with_more c h f chunk) io
          (omega arith) in
      let (r', e, d') = feed-Delivers c h laws (r.0) (r.1) next chunks in
      (
        r',
        rw (on_data-Delivers c h f chunk io r d, feed) e,
        on_data-chunk c h laws f io chunk (next ++ concat chunks) r r' d d',
      )

  -- For a codec whose frames do not depend on what follows them, `on_data` ends, and a stream that
  -- arrives in any number of chunks leaves the handler, the buffer and the outbound data as the same
  -- bytes in one chunk do.
  pub feed-concat :
      (c : Codec K) (h : FramedConnection S)
      → IsStreaming c
      → (f : Framed S K) (io : Io) (chunk : Bytes) (chunks : List Bytes)
      → (r : Framed S K × Io) × (feed c h f (chunk ∷ chunks) io ≡ some r)
        × (on_data c h f (chunk ++ concat chunks) io ≡ some r)
  feed-concat c h laws f io chunk chunks =
      let (r, e, d) = feed-Delivers c h laws f io chunk chunks in
      (r, e, on_data-Delivers c h f (chunk ++ concat chunks) io r d)
