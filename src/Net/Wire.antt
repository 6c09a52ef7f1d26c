-- ===== src/Net/Wire.antt =====
-- core/src/net.rs: what goes over the wire of a connection, in either reactor. The handler is kept with
-- a record of the bytes that it was given and of those that it wrote.
use mathlib.Core.List.{append_assoc, append-nil}
use aetherflow.Base.{◌≡◌, refl, sym, ap, ◌∙◌, List, [], ◌∷◌, ◌++◌, length, drop}
use aetherflow.Base.{drop-append}
use aetherflow.Base.AllOf.{AllOf}
use aetherflow.Net.{Bytes, Io, Connection}
use aetherflow.Net.Conn.{
  Socket, Read, got, read_blocked, read_interrupted, read_failed, Conn, next_read, take_read,
  try_flush,
}
use aetherflow.Net.Conn.Flush.{flush_lem}
use aetherflow.Net.Closing.{Keeps, IsEnd, IsPause}
use aetherflow.Net.Scan.{Accept, scan_reactor, no_conns}
use aetherflow.Net.Scan.Once.{StaysClean, AllMakeFresh, scan_reactor-StaysClean}
use aetherflow.Net.Epoll
use aetherflow.Net.Epoll.{Waited, epoll_reactor, no_fds}
use aetherflow.Net.Epoll.Once
use aetherflow.Net.Epoll.Once.{WaitMakesFresh, epoll_reactor-IsClean}

-- A handler with the bytes that it was given, those that it wrote, and those that its socket brings.
pub record Logged (S : Type 0) : Type 0 where
  pub inner : S
  pub received : Bytes
  pub written : Bytes
  pub brought : Bytes

-- The bytes of the reads to come.
abbrev bytes_of : Read → Bytes
bytes_of (got bs) = bs
bytes_of read_blocked = []
bytes_of read_interrupted = []
bytes_of read_failed = []

abbrev pub to_come : List Read → Bytes
to_come [] = []
to_come (r ∷ rs) = bytes_of r ++ to_come rs

to_come-next : (rs : List Read) → to_come rs ≡ bytes_of (next_read rs).0 ++ to_come (next_read rs).1
to_come-next [] = refl
to_come-next (r ∷ rs) = refl

bytes_of-IsPause : (r : Read) → IsPause r → bytes_of r ≡ []
bytes_of-IsPause (got bs) h = absurd h
bytes_of-IsPause read_blocked h = refl
bytes_of-IsPause read_interrupted h = refl
bytes_of-IsPause read_failed h = refl

bytes_of-IsEnd : (r : Read) → IsEnd r → bytes_of r ≡ []
bytes_of-IsEnd (got []) h = refl
bytes_of-IsEnd (got (b ∷ bs)) h = absurd h
bytes_of-IsEnd read_blocked h = refl
bytes_of-IsEnd read_interrupted h = refl
bytes_of-IsEnd read_failed h = refl

-- What a handler appends is what its record takes up.
appended : (out out' w : Bytes) → out' ≡ out ++ w → out ++ drop (length out) out' ≡ out'
appended out out' w e = rw e (ap (λ l. out ++ l) (drop-append out w))

module _ {S : Type 0} where
  abbrev pub logged : Connection S → Connection (Logged S)
  logged h = record {
    on_open = λ l io.
        let (s, io') = h.on_open l.inner io in
        (record l { inner = s; written = l.written ++ drop (length io.out) io'.out }, io');
    on_data = λ l bytes io.
        let (s, io') = h.on_data l.inner bytes io in
        (
          record l {
            inner = s;
            received = l.received ++ bytes;
            written = l.written ++ drop (length io.out) io'.out;
          },
          io',
        );
    on_close = λ l. record l { inner = h.on_close l.inner };
  }

  -- A handler only appends to the outbound bytes: the field is private, and `Io::write` appends.
  abbrev pub OnlyWrites : Connection S → Type 0
  OnlyWrites h =
      (s : S) (bytes : Bytes) (io : Io) → (w : Bytes) × ((h.on_data s bytes io).1.out ≡ io.out ++ w)

  abbrev pub MadeEmpty : Logged S → Socket → Type 0
  MadeEmpty l stream =
      (l.received ≡ []) × (l.written ≡ []) × (l.brought ≡ to_come stream.reads) × (stream.sent ≡ [])

  -- What was sent and what waits to be sent are what the handler wrote; what it was given and what is
  -- still to come are what the socket brings.
  abbrev pub OnWire : Conn (Logged S) → Type 0
  OnWire c =
      (c.stream.sent ++ c.io.out ≡ c.handler.written)
      × (c.handler.received ++ to_come c.stream.reads ≡ c.handler.brought)

  read_on :
      (c : Conn (Logged S)) (r : Read)
      → (take_read c).0 ≡ r
      → OnWire c
      → (c.handler.received ++ bytes_of r) ++ to_come (take_read c).1.stream.reads
        ≡ c.handler.brought
  read_on c r e (sent, brought) =
      append_assoc c.handler.received (bytes_of r) (to_come (take_read c).1.stream.reads)
      ∙ ap (λ q. c.handler.received ++ (bytes_of q ++ to_come (take_read c).1.stream.reads)) (sym e)
      ∙ ap (λ l. c.handler.received ++ l) (sym (to_come-next c.stream.reads))
      ∙ brought

  nothing_read :
      (c : Conn (Logged S)) → bytes_of (take_read c).0 ≡ [] → OnWire c → OnWire (take_read c).1
  nothing_read c e wire = (
    wire.0,
    ap (λ l. l ++ to_come (take_read c).1.stream.reads)
          (sym (append-nil c.handler.received) ∙ ap (λ l. c.handler.received ++ l) (sym e))
        ∙ read_on c (take_read c).0 refl wire,
  )

  logged-Keeps : (h : Connection S) → OnlyWrites h → Keeps (logged h) MadeEmpty OnWire OnWire
  unfolding try_flush
  logged-Keeps h writes = record {
    opens = λ made stream (none_received, none_written, script, none_sent).
        (rw (none_sent, none_written) refl, rw none_received (sym script));
    flushes =
        λ c (sent, brought). ((flush_lem c.stream.writes c.io.out c.stream.sent).0 ∙ sent, brought);
    receives = λ c b bs e wire.
        let io' = (h.on_data c.handler.inner (b ∷ bs) c.io).1 in
        let (w, more) = writes c.handler.inner (b ∷ bs) c.io in
        (
          ap (λ l. c.stream.sent ++ l) (sym (appended c.io.out io'.out w more))
              ∙ sym (append_assoc c.stream.sent c.io.out (drop (length c.io.out) io'.out))
              ∙ ap (λ l. l ++ drop (length c.io.out) io'.out) wire.0,
          read_on c (got (b ∷ bs)) e wire,
        );
    pauses = λ c pause wire. nothing_read c (bytes_of-IsPause _ pause) wire;
    closes = λ c wire. wire;
    ends = λ c end wire. nothing_read c (bytes_of-IsEnd _ end) wire;
  }

-- In either reactor, whatever the kernel reports and the sockets return, for each connection, also one
-- that was dropped: the bytes that were sent and those that wait to be sent are exactly those that its
-- handler wrote, in order; and the bytes that the handler was given are exactly the first of those that
-- its socket brings, in order. The handler may do anything but take back bytes that it has written.
pub reactors-OnWire :
    {S : Type 0} (h : Connection S) (turns : List (List (Accept (Logged S))))
    (waits : List (Waited (Logged S)))
    → OnlyWrites h
    → AllMakeFresh MadeEmpty turns
    → AllOf (WaitMakesFresh MadeEmpty) waits
    → StaysClean OnWire OnWire (scan_reactor (logged h) turns no_conns)
      × Epoll.Once.IsClean OnWire OnWire (epoll_reactor (logged h) no_fds waits)
reactors-OnWire h turns waits writes fresh_turns fresh_waits =
    let keeps = logged-Keeps h writes in
    (
      scan_reactor-StaysClean (logged h) MadeEmpty OnWire OnWire keeps turns no_conns fresh_turns
          (tt, tt),
      epoll_reactor-IsClean (logged h) MadeEmpty OnWire OnWire keeps waits no_fds fresh_waits
          (tt, tt),
    )
