-- ===== src/Net/Closing.antt =====
-- core/src/net.rs: what every step of a connection keeps true. A reactor keeps `Open` of its
-- connections, and `Closed` of those that it has dropped; `Fresh` is what it knows of a new handler with
-- its socket.
use aetherflow.Base.{ℕ, suc, ◌≡◌, ap, inl, inr, Bool, true, false, ◌||◌, [], ◌∷◌, Bool-cases}
use aetherflow.Net.{Bytes, Connection}
use aetherflow.Net.Conn.{
  Socket, Read, got, read_blocked, read_interrupted, read_failed, Conn, try_flush, closing_done,
  call_close, call_data, open_conn, service, take_read,
}

-- A read that ends the connection, and one that brings nothing.
abbrev pub IsEnd : Read → Type 0
IsEnd (got []) = Unit
IsEnd (got (b ∷ bs)) = ⊥
IsEnd read_blocked = ⊥
IsEnd read_interrupted = ⊥
IsEnd read_failed = Unit

abbrev pub IsPause : Read → Type 0
IsPause (got bs) = ⊥
IsPause read_blocked = Unit
IsPause read_interrupted = Unit
IsPause read_failed = ⊥

-- The calls of a handler and the flushes keep `Open`, and `on_close` goes from `Open` to `Closed`.
pub record Keeps {S : Type 0} (h : Connection S) (Fresh : S → Socket → Type 0)
    (Open Closed : Conn S → Type 0) : Type 0 where
  pub opens : (made : S) (stream : Socket) → Fresh made stream → Open (open_conn h made stream)
  pub flushes : (c : Conn S) → Open c → Open (try_flush c).0
  pub receives :
      (c : Conn S) (b : ℕ) (bs : Bytes)
      → (take_read c).0 ≡ got (b ∷ bs)
      → Open c
      → Open (call_data h (b ∷ bs) (take_read c).1)
  pub pauses : (c : Conn S) → IsPause (take_read c).0 → Open c → Open (take_read c).1
  pub closes : (c : Conn S) → Open c → Closed (call_close h c)
  pub ends : (c : Conn S) → IsEnd (take_read c).0 → Open c → Closed (call_close h (take_read c).1)

module _ {S : Type 0} (Open Closed : Conn S → Type 0) where
  -- A connection that is dropped is closed, and one that stays is open.
  abbrev pub Served : Conn S × Bool → Type 0
  Served (c, true) = Closed c
  Served (c, false) = Open c

module _ {S : Type 0} (h : Connection S) (Fresh : S → Socket → Type 0)
    (Open Closed : Conn S → Type 0) (keeps : Keeps h Fresh Open Closed) where
  pub service-Served : (c : Conn S) → Open c → Served Open Closed (service h c)
  unfolding service
  service-Served c o = elim (Bool-cases ((try_flush c).1 || closing_done (try_flush c).0)) [
    | inl y ↦ rw (y, service) (keeps.closes (try_flush c).0 (keeps.flushes c o))
    | inr n ↦ rw (n, service) (keeps.flushes c o)
  ]

-- A handler together with the number of the calls of its `on_close`.
abbrev pub counted : {S : Type 0} → Connection S → Connection (S × ℕ)
counted h = record {
  on_open = λ p io. let (s, io') = h.on_open (p.0) io in ((s, p.1), io');
  on_data = λ p b io. let (s, io') = h.on_data (p.0) b io in ((s, p.1), io');
  on_close = λ p. (h.on_close (p.0), suc (p.1));
}

module _ {S : Type 0} where
  abbrev pub MadeUnclosed : S × ℕ → Socket → Type 0
  MadeUnclosed p stream = p.1 ≡ 0

  abbrev pub NotClosed : Conn (S × ℕ) → Type 0
  NotClosed c = c.handler.1 ≡ 0

  abbrev pub ClosedOnce : Conn (S × ℕ) → Type 0
  ClosedOnce c = c.handler.1 ≡ 1

  pub counted-Keeps : (h : Connection S) → Keeps (counted h) MadeUnclosed NotClosed ClosedOnce
  unfolding try_flush
  counted-Keeps h = record {
    opens = λ made stream e. e;
    flushes = λ c e. e;
    receives = λ c b bs r e. e;
    pauses = λ c r e. e;
    closes = λ c e. ap suc e;
    ends = λ c r e. ap suc e;
  }
