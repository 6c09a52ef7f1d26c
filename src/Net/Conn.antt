-- ===== src/Net/Conn.antt =====
-- core/src/net.rs: a connection's socket and `Conn`. A socket is the results of its coming reads and
-- writes, after the last of which it would block, with the bytes that it has sent. It belongs to the
-- operating system: a write that succeeds has sent a first part of the bytes that it was given.
pub mod Flush
use aetherflow.Base.{
  ℕ, zero, suc, ◌+◌, ◌-◌, ◌*◌, ◌/◌, ◌%◌, ◌^◌, ◌≤◌, ◌<◌, min, max, ◌≡◌, refl, sym, ap, ◌∙◌, ◌≢◌, ◌⊎◌,
  inl, inr, Bool, true, false, ◌&&◌, ◌||◌, not, Option, none, some, List, [], ◌∷◌, ◌++◌, map, arith,
  dec_lt, ℕ_discrete, ltb, leb, ◌==◌, if◌then◌else◌, Bool-cases, Option-cases, length, get_elem?,
  set, take, drop, replicate, length-set, length-append, get_elem?-set_self, get_elem?-set_ne,
  get_elem?_of_lt, lt_of_get_elem?,
}
use aetherflow.Net.{Bytes, Io, new_io, Connection}

-- `stream.write(&self.io.out)`
pub data Written : Type 0 where
  wrote : ℕ → Written
  write_blocked : Written
  write_interrupted : Written
  write_failed : Written

-- `stream.read(&mut rbuf)`; a read of no bytes is the end of the stream.
pub data Read : Type 0 where
  got : Bytes → Read
  read_blocked : Read
  read_interrupted : Read
  read_failed : Read

pub record Socket : Type 0 where
  pub writes : List Written
  pub reads : List Read
  pub sent : Bytes

-- `Conn`
pub record Conn (S : Type 0) : Type 0 where
  pub stream : Socket
  pub handler : S
  pub io : Io

-- The loop of `Conn::try_flush`: what is left to write, what was sent, and whether it failed.
pub record Flushed : Type 0 where
  pub writes : List Written
  pub out : Bytes
  pub sent : Bytes
  pub failed : Bool

pub flush : List Written → Bytes → Bytes → Flushed
flush ws [] sent = record { writes = ws; out = []; sent = sent; failed = false }
flush [] (b ∷ bs) sent = record { writes = []; out = b ∷ bs; sent = sent; failed = false }
flush (wrote n ∷ ws) (b ∷ bs) sent =
    let rest = flush ws (drop n (b ∷ bs)) (sent ++ take n (b ∷ bs)) in
    if n == 0 then record { writes = ws; out = b ∷ bs; sent = sent; failed = false } else rest
flush (write_blocked ∷ ws) (b ∷ bs) sent = record {
  writes = ws;
  out = b ∷ bs;
  sent = sent;
  failed = false;
}
flush (write_interrupted ∷ ws) (b ∷ bs) sent = flush ws (b ∷ bs) sent
flush (write_failed ∷ ws) (b ∷ bs) sent = record {
  writes = ws;
  out = b ∷ bs;
  sent = sent;
  failed = true;
}

abbrev pub is_empty : Bytes → Bool
is_empty [] = true
is_empty (b ∷ bs) = false

-- The next result of a read.
abbrev pub next_read : List Read → Read × List Read
next_read [] = (read_blocked, [])
next_read (r ∷ rs) = (r, rs)

module _ {S : Type 0} where
  -- `Conn::try_flush`, with whether it returns an error.
  unfoldable pub try_flush : Conn S → Conn S × Bool
  unfolding flush
  try_flush c =
      let f = flush c.stream.writes c.io.out c.stream.sent in
      (
        record c {
          stream = record c.stream { writes = f.writes; sent = f.sent };
          io = record c.io { out = f.out };
        },
        f.failed,
      )

  -- `Conn::closing_done`
  abbrev pub closing_done : Conn S → Bool
  closing_done c = c.io.close && is_empty c.io.out

  -- `handler.on_close()`
  abbrev pub call_close : Connection S → Conn S → Conn S
  call_close h c = record c { handler = h.on_close c.handler }

  -- `handler.on_data(&rbuf[..n], &mut io)`
  abbrev pub call_data : Connection S → Bytes → Conn S → Conn S
  call_data h bytes c =
      let (s, io') = h.on_data c.handler bytes c.io in record c { handler = s; io = io' }

  -- `factory()` and `on_open` on a new connection.
  abbrev pub open_conn : Connection S → S → Socket → Conn S
  open_conn h made stream =
      let (s, io') = h.on_open made new_io in record { stream = stream; handler = s; io = io' }

  -- `Conn::service`: true to drop the connection.
  unfoldable pub service : Connection S → Conn S → Conn S × Bool
  unfolding try_flush
  service h c =
      let (c', failed) = try_flush c in
      if failed || closing_done c' then (call_close h c', true) else (c', false)

  abbrev pub take_read : Conn S → Read × Conn S
  take_read c =
      let (r, rs) = next_read c.stream.reads in
      (r, record c { stream = record c.stream { reads = rs } })
