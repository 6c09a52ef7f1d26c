-- ===== src/Net.antt =====
-- core/src/net.rs: connections as messages. A byte is a number, and a handler is a parameter. This file
-- holds the outbound handle and the trait of a connection; the children hold the codecs, the framing
-- adapter, a connection's socket, the two reactors, and the server.
pub mod Codec
pub mod Conn
pub mod Closing
pub mod Scan
pub mod Epoll
pub mod Wire
pub mod Serve
mod Tests
use aetherflow.Base.{
  ℕ, zero, suc, ◌+◌, ◌-◌, ◌*◌, ◌/◌, ◌%◌, ◌^◌, ◌≤◌, ◌<◌, min, max, ◌≡◌, refl, sym, ap, ◌∙◌, ◌≢◌, ◌⊎◌,
  inl, inr, Bool, true, false, ◌&&◌, ◌||◌, not, Option, none, some, List, [], ◌∷◌, ◌++◌, map, arith,
  dec_lt, ℕ_discrete, ltb, leb, ◌==◌, if◌then◌else◌, Bool-cases, Option-cases, length, get_elem?,
  set, take, drop, replicate, length-set, length-append, get_elem?-set_self, get_elem?-set_ne,
  get_elem?_of_lt, lt_of_get_elem?,
}

abbrev pub Bytes : Type 0
Bytes = List ℕ

-- `Io`
pub record Io : Type 0 where
  pub out : Bytes
  pub close : Bool

-- `Io::default`
abbrev pub new_io : Io
new_io = record { out = []; close = false }

-- `Io::write`
abbrev pub write : Io → Bytes → Io
write io bytes = record io { out = io.out ++ bytes }

-- `Io::close`
abbrev pub close_io : Io → Io
close_io io = record io { close = true }

-- `Io::pending`
abbrev pub pending : Io → ℕ
pending io = length io.out

-- The trait `Connection`, of a handler with state `S`.
pub record Connection (S : Type 0) : Type 0 where
  pub on_open : S → Io → S × Io
  pub on_data : S → Bytes → Io → S × Io
  pub on_close : S → S
