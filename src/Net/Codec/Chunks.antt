-- ===== src/Net/Codec/Chunks.antt =====
-- core/src/net.rs: `Framed::on_data` ends, and how a stream is cut into chunks does not matter.
use mathlib.Core.Path.{subst}
use mathlib.Core.Option.{some-injective}
use mathlib.Core.List.{append_assoc}
use aetherflow.Base.{
  ℕ, zero, suc, ◌+◌, ◌≤◌, ◌<◌, ◌≡◌, refl, sym, ap, ◌∙◌, inl, inr, Option, none, some, ◌++◌, arith,
  Option-cases, length, length-append,
}
use aetherflow.Net.{Bytes, Io}
use aetherflow.Net.Codec.{Step, Codec, FramedConnection, Framed, deliver, on_data}
use aetherflow.Net.Codec.Laws.{IsStreaming}

module _ {S K : Type 0} (c : Codec K) (h : FramedConnection S) where
  -- The bytes that arrive behind those in the buffer.
  abbrev pub with_more : Framed S K → Bytes → Framed S K
  with_more f m = record f { buf = f.buf ++ m }

  -- The adapter after the handler has had a frame.
  abbrev pub next_framed : Framed S K → Bytes → Io → Framed S K
  next_framed f frame io = record {
    inner = (h.on_frame f.inner frame io).0;
    codec = (c.decode f.codec f.buf).codec;
    buf = (c.decode f.codec f.buf).buf;
  }

  pub deliver-frame :
      (fuel : ℕ) (f : Framed S K) (frame : Bytes) (io : Io)
      → (c.decode f.codec f.buf).frame ≡ some frame
      → deliver c h (suc fuel) f io
        ≡ deliver c h fuel (next_framed f frame io) (h.on_frame f.inner frame io).1
  unfolding deliver
  deliver-frame fuel f frame io e = rw (e, deliver) refl

  -- A round, given what `decode` returned.
  abbrev round : ℕ → S → Step K → Io → Option (Framed S K × Io)
  round fuel inner step io = elim step.frame [
    | none ↦ some (record { inner = inner; codec = step.codec; buf = step.buf }, io)
    | some frame ↦
        let (inner', io') = h.on_frame inner frame io in
        deliver c h fuel (record { inner = inner'; codec = step.codec; buf = step.buf }) io'
  ]

  deliver-round :
      (fuel : ℕ) (f : Framed S K) (io : Io)
      → deliver c h (suc fuel) f io ≡ round fuel f.inner (c.decode f.codec f.buf) io
  unfolding deliver
  deliver-round fuel f io = refl

  pub deliver-none :
      (fuel : ℕ) (f : Framed S K) (io : Io)
      → (c.decode f.codec f.buf).frame ≡ none
      → deliver c h (suc fuel) f io
        ≡ some (
          record f { codec = (c.decode f.codec f.buf).codec; buf = (c.decode f.codec f.buf).buf },
          io,
        )
  unfolding deliver
  deliver-none fuel f io e = rw (e, deliver) refl

  -- With more fuel than there are bytes the loop ends with `r`.
  pub Delivers : Framed S K → Io → Framed S K × Io → Type 0
  Delivers f io r = (fuel : ℕ) → length f.buf < fuel → deliver c h fuel f io ≡ some r

  pub Delivers-frame :
      (f : Framed S K) (frame : Bytes) (io : Io) (r : Framed S K × Io)
      → (c.decode f.codec f.buf).frame ≡ some frame
      → length (c.decode f.codec f.buf).buf < length f.buf
      → Delivers (next_framed f frame io) (h.on_frame f.inner frame io).1 r
      → Delivers f io r
  unfolding Delivers
  Delivers-frame f frame io r e less d zero enough = absurd (omega arith)
  Delivers-frame f frame io r e less d (suc fuel) enough =
      deliver-frame fuel f frame io e ∙ d fuel (omega (arith, enough, less))

  -- The same way back: the rest of the loop ends as the whole does.
  Delivers-next :
      (f : Framed S K) (frame : Bytes) (io : Io) (r : Framed S K × Io)
      → (c.decode f.codec f.buf).frame ≡ some frame
      → ((r' : Framed S K × Io) × Delivers
            (next_framed f frame io)
            (h.on_frame f.inner frame io).1
            r')
      → length (c.decode f.codec f.buf).buf < length f.buf
      → Delivers f io r
      → Delivers (next_framed f frame io) (h.on_frame f.inner frame io).1 r
  unfolding Delivers
  Delivers-next f frame io r e (r', d') less d fuel enough =
      let whole = length f.buf + 1 in
      let e1 : whole ≡ suc (length f.buf) = omega arith in
      let long =
        sym (d whole (omega arith))
        ∙ ap (λ n. deliver c h n f io) e1
        ∙ deliver-frame (length f.buf) f frame io e
        ∙ d' (length f.buf) less in
      d' fuel enough ∙ sym long

  pub Delivers-none :
      (f : Framed S K) (io : Io)
      → (c.decode f.codec f.buf).frame ≡ none
      → Delivers f io (
        record f { codec = (c.decode f.codec f.buf).codec; buf = (c.decode f.codec f.buf).buf },
        io,
      )
  unfolding Delivers
  Delivers-none f io e zero enough = absurd (omega arith)
  Delivers-none f io e (suc fuel) enough = deliver-none fuel f io e

  pub on_data-Delivers :
      (f : Framed S K) (m : Bytes) (io : Io) (r : Framed S K × Io)
      → Delivers (with_more f m) io r
      → on_data c h f m io ≡ some r
  unfolding Delivers on_data
  on_data-Delivers f m io r d = d (length (f.buf ++ m) + 1) (omega arith)

  Delivers-unique :
      (f : Framed S K) (io : Io) (r r' : Framed S K × Io)
      → Delivers f io r
      → Delivers f io r'
      → r ≡ r'
  unfolding Delivers
  Delivers-unique f io r r' d d' =
      let n = length f.buf + 1 in some-injective r r' (sym (d n (omega arith)) ∙ d' n (omega arith))

module _ {S K : Type 0} (c : Codec K) (h : FramedConnection S) (laws : IsStreaming c) where
  pub Delivers-total :
      (n : ℕ) (f : Framed S K) (io : Io)
      → length f.buf ≤ n
      → (r : Framed S K × Io) × Delivers c h f io r
  Delivers-total zero f io bound = elim (Option-cases (c.decode f.codec f.buf).frame) [
    | inl e ↦ (_, Delivers-none c h f io e)
    | inr (frame, e) ↦ absurd (omega (arith, bound, laws.progress f.codec f.buf frame e))
  ]
  Delivers-total (suc n) f io bound = elim (Option-cases (c.decode f.codec f.buf).frame) [
    | inl e ↦ (_, Delivers-none c h f io e)
    | inr (frame, e) ↦
        let less = laws.progress f.codec f.buf frame e in
        let (r, d) =
          Delivers-total n (next_framed c h f frame io) (h.on_frame f.inner frame io).1
            (omega (arith, bound, less)) in
        (r, Delivers-frame c h f frame io r e less d)
  ]

  -- Nothing was found in the first chunk.
  Delivers-waits :
      (f : Framed S K) (io : Io) (m : Bytes) (r' : Framed S K × Io)
      → (c.decode f.codec f.buf).frame ≡ none
      → Delivers c h
          (record f {
            codec = (c.decode f.codec f.buf).codec;
            buf = (c.decode f.codec f.buf).buf ++ m;
          })
          io
          r'
      → Delivers c h (with_more c h f m) io r'
  unfolding Delivers
  Delivers-waits f io m r' e d zero enough = absurd (omega arith)
  Delivers-waits f io m r' e d (suc fuel) enough =
      let step = c.decode f.codec f.buf in
      let keep = laws.keeps f.codec f.buf e in
      let short : length (step.buf ++ m) < suc fuel =
        omega (arith, enough, keep, length-append step.buf m, length-append f.buf m) in
      deliver-round c h fuel (with_more c h f m) io
      ∙ ap (λ x. round c h fuel f.inner x io) (laws.waits f.codec f.buf m e)
      ∙ sym (deliver-round c h fuel (record f { codec = step.codec; buf = step.buf ++ m }) io)
      ∙ d (suc fuel) short

  -- A frame was found in the first chunk, and the rest of the stream ends with `r'`.
  Delivers-found :
      (f : Framed S K) (frame : Bytes) (io : Io) (m : Bytes) (r' : Framed S K × Io)
      → (c.decode f.codec f.buf).frame ≡ some frame
      → Delivers c h
          (with_more c h (next_framed c h f frame io) m)
          (h.on_frame f.inner frame io).1
          r'
      → Delivers c h (with_more c h f m) io r'
  Delivers-found f frame io m r' e d =
      let step = laws.stable f.codec f.buf m frame e in
      let found : (c.decode f.codec (f.buf ++ m)).frame ≡ some frame = ap (λ x. x.frame) step ∙ e in
      let next =
        ap (λ x. record { inner = (h.on_frame f.inner frame io).0; codec = x.codec; buf = x.buf })
          step in
      Delivers-frame c h (with_more c h f m) frame io r' found
        (laws.progress f.codec (f.buf ++ m) frame found)
        (subst (λ x. Delivers c h x (h.on_frame f.inner frame io).1 r') (sym next) d)

  Delivers-chunk_waits :
      (f : Framed S K) (io : Io) (m : Bytes) (r r' : Framed S K × Io)
      → (c.decode f.codec f.buf).frame ≡ none
      → Delivers c h f io r
      → Delivers c h (with_more c h (r.0) m) (r.1) r'
      → Delivers c h (with_more c h f m) io r'
  Delivers-chunk_waits f io m r r' e d d' =
      let same = Delivers-unique c h f io _ r (Delivers-none c h f io e) d in
      Delivers-waits f io m r' e
        (subst (λ x. Delivers c h (with_more c h (x.0) m) (x.1) r') (sym same) d')

  -- The whole stream at once ends as the second chunk does after the first one.
  Delivers-chunk :
      (n : ℕ) (f : Framed S K) (io : Io) (m : Bytes) (r r' : Framed S K × Io)
      → length f.buf ≤ n
      → Delivers c h f io r
      → Delivers c h (with_more c h (r.0) m) (r.1) r'
      → Delivers c h (with_more c h f m) io r'
  Delivers-chunk zero f io m r r' bound d d' = elim (Option-cases (c.decode f.codec f.buf).frame) [
    | inl e ↦ Delivers-chunk_waits f io m r r' e d d'
    | inr (frame, e) ↦ absurd (omega (arith, bound, laws.progress f.codec f.buf frame e))
  ]
  Delivers-chunk (suc n) f io m r r' bound d d' =
      elim (Option-cases (c.decode f.codec f.buf).frame) [
        | inl e ↦ Delivers-chunk_waits f io m r r' e d d'
        | inr (frame, e) ↦
            let less = laws.progress f.codec f.buf frame e in
            let after = next_framed c h f frame io in
            let io2 = (h.on_frame f.inner frame io).1 in
            let short : length after.buf ≤ n = omega (arith, bound, less) in
            let d2 = Delivers-next c h f frame io r e (Delivers-total n after io2 short) less d in
            Delivers-found f frame io m r' e (Delivers-chunk n after io2 m r r' short d2 d')
      ]

  pub on_data-chunk :
      (f : Framed S K) (io : Io) (m m' : Bytes) (r r' : Framed S K × Io)
      → Delivers c h (with_more c h f m) io r
      → Delivers c h (with_more c h (r.0) m') (r.1) r'
      → Delivers c h (with_more c h f (m ++ m')) io r'
  on_data-chunk f io m m' r r' d d' =
      let bound : length (f.buf ++ m) ≤ length (f.buf ++ m) = omega arith in
      subst (λ b. Delivers c h (record f { buf = b }) io r') (append_assoc f.buf m m')
        (Delivers-chunk (length (f.buf ++ m)) (with_more c h f m) io m' r r' bound d d')
