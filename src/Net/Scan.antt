-- ===== src/Net/Scan.antt =====
-- core/src/net.rs: `scan_reactor`, which reads every connection at each turn. What the listener returns
-- at a turn is an input, and so is the handler that the factory makes for a new connection; after its
-- last result the listener would block. A connection that is dropped is kept in `gone`.
pub mod Once
use aetherflow.Base.{
  ℕ, zero, suc, ◌+◌, ◌-◌, ◌*◌, ◌/◌, ◌%◌, ◌^◌, ◌≤◌, ◌<◌, min, max, ◌≡◌, refl, sym, ap, ◌∙◌, ◌≢◌, ◌⊎◌,
  inl, inr, Bool, true, false, ◌&&◌, ◌||◌, not, Option, none, some, List, [], ◌∷◌, ◌++◌, map, arith,
  dec_lt, ℕ_discrete, ltb, leb, ◌==◌, if◌then◌else◌, Bool-cases, Option-cases, length, get_elem?,
  set, take, drop, replicate, length-set, length-append, get_elem?-set_self, get_elem?-set_ne,
  get_elem?_of_lt, lt_of_get_elem?,
}
use aetherflow.Net.{Bytes, Io, Connection}
use aetherflow.Net.Conn.{
  Socket, Read, got, read_blocked, read_interrupted, read_failed, Conn, call_close, call_data,
  open_conn, service, take_read,
}
use aetherflow.System.Core.{swap_remove}

-- `listener.accept()`, with the result of `set_nonblocking` and the new handler.
pub data Accept (S : Type 0) : Type 0 where
  accepted : (nonblocking : Bool) → S → Socket → Accept S
  accept_blocked : Accept S
  accept_interrupted : Accept S
  accept_failed : Accept S

-- The variables of the reactor's thread.
pub record Reactor (S : Type 0) : Type 0 where
  pub conns : List (Conn S)
  pub gone : List (Conn S)

-- The variables of a pass over the connections.
pub record Scan (S : Type 0) : Type 0 where
  pub conns : List (Conn S)
  pub i : ℕ
  pub gone : List (Conn S)

-- What a turn ends with: the pause between turns, with its nanoseconds.
pub data Pause : Type 0 where
  spin_loop : Pause
  sleep : ℕ → Pause

abbrev pub pause : Bool → Pause
pause busy_poll = if busy_poll then spin_loop else sleep 100000

module _ {S : Type 0} where
  -- `if !conn.service() { conns.push(conn); }`
  abbrev pub keep_or_drop : Reactor S → Conn S × Bool → Reactor S
  keep_or_drop r (c, remove) =
      if remove
      then record r { gone = r.gone ++ (c ∷ []) }
      else record r { conns = r.conns ++ (c ∷ []) }

  -- A connection that was accepted.
  abbrev pub on_accept : Connection S → S → Socket → Reactor S → Reactor S
  on_accept h made stream r = keep_or_drop r (service h (open_conn h made stream))

  -- The loop of accepts.
  pub accept_loop : Connection S → List (Accept S) → Reactor S → Reactor S
  accept_loop h [] r = r
  accept_loop h (accepted nonblocking made stream ∷ es) r =
      accept_loop h es (if nonblocking then on_accept h made stream r else r)
  accept_loop h (accept_blocked ∷ es) r = r
  accept_loop h (accept_interrupted ∷ es) r = accept_loop h es r
  accept_loop h (accept_failed ∷ es) r = r

  -- What a read leads to, with whether to remove the connection.
  abbrev pub on_read : Connection S → Read → Conn S → Conn S × Bool
  on_read h (got []) c = (call_close h c, true)
  on_read h (got (b ∷ bs)) c = service h (call_data h (b ∷ bs) c)
  on_read h read_blocked c = service h c
  on_read h read_interrupted c = (c, false)
  on_read h read_failed c = (call_close h c, true)

  -- The read of one connection.
  unfoldable pub read_conn : Connection S → Conn S → Conn S × Bool
  read_conn h c = let (r, c') = take_read c in on_read h r c'

  -- The list and the index after the read at the index.
  unfoldable pub step_scan : Scan S → Conn S × Bool → Scan S
  step_scan p (c, remove) =
      if remove
      then record p { conns = swap_remove p.conns p.i; gone = p.gone ++ (c ∷ []) }
      else record p { conns = set p.conns p.i c; i = p.i + 1 }

  -- `while i < conns.len()`, on fuel.
  pub scan : Connection S → ℕ → Scan S → Option (Scan S)
  scan h zero p = none
  scan h (suc fuel) p = elim (get_elem? p.conns p.i) [
    | none ↦ some p
    | some c ↦ scan h fuel (step_scan p (read_conn h c))
  ]

  -- One turn of the loop.
  unfoldable pub turn_scan : Connection S → List (Accept S) → Reactor S → Option (Reactor S)
  unfolding accept_loop scan
  turn_scan h accepts r =
      let r' = accept_loop h accepts r in
      elim (scan h (length r'.conns + 1) (record { conns = r'.conns; i = 0; gone = r'.gone })) [
        | none ↦ none
        | some p ↦ some (record { conns = p.conns; gone = p.gone })
      ]

  -- `while !stop.load()`: a turn for each list of the listener's results, until the flag is set.
  pub scan_reactor : Connection S → List (List (Accept S)) → Reactor S → Option (Reactor S)
  scan_reactor h [] r = some r
  scan_reactor h (accepts ∷ turns) r = elim (turn_scan h accepts r) [
    | none ↦ none
    | some r' ↦ scan_reactor h turns r'
  ]

  abbrev pub no_conns : Reactor S
  no_conns = record { conns = []; gone = [] }
