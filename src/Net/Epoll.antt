-- ===== src/Net/Epoll.antt =====
-- core/src/net.rs: `epoll_reactor`, which serves the connections that the kernel reports. The kernel's
-- interest list is a map from a descriptor to whether it was asked for writability; the events of a
-- wait, and the new descriptors of accepts, are inputs.
pub mod Interest
pub mod Once
use aetherflow.Base.{
  ℕ, zero, suc, ◌+◌, ◌-◌, ◌*◌, ◌/◌, ◌%◌, ◌^◌, ◌≤◌, ◌<◌, min, max, ◌≡◌, refl, sym, ap, ◌∙◌, ◌≢◌, ◌⊎◌,
  inl, inr, Bool, true, false, ◌&&◌, ◌||◌, not, Option, none, some, List, [], ◌∷◌, ◌++◌, map, arith,
  dec_lt, ℕ_discrete, ltb, leb, ◌==◌, if◌then◌else◌, Bool-cases, Option-cases, length, get_elem?,
  set, take, drop, replicate, length-set, length-append, get_elem?-set_self, get_elem?-set_ne,
  get_elem?_of_lt, lt_of_get_elem?,
}
use aetherflow.Base.Maps.{lookup, insert, delete}
use aetherflow.Net.{Bytes, Io, Connection}
use aetherflow.Net.Conn.{
  Socket, Read, got, read_blocked, read_interrupted, read_failed, Conn, is_empty, try_flush,
  closing_done, call_close, call_data, open_conn, take_read,
}

-- `listener.accept()`, with the result of `set_nonblocking`, the descriptor and the new handler.
pub data AcceptFd (S : Type 0) : Type 0 where
  accepted : (nonblocking : Bool) → (fd : ℕ) → S → Socket → AcceptFd S
  accept_blocked : AcceptFd S
  accept_interrupted : AcceptFd S
  accept_failed : AcceptFd S

-- An event: the listener's, with the results of its accepts, or a descriptor's, with whether it is
-- hung up or in error (`EPOLLHUP | EPOLLERR`) and whether it is readable (`EPOLLIN`).
pub data Event (S : Type 0) : Type 0 where
  at_listener : List (AcceptFd S) → Event S
  at_conn : (fd : ℕ) → (hung_up readable : Bool) → Event S

-- `epoll_wait`
pub data Waited (S : Type 0) : Type 0 where
  events : List (Event S) → Waited S
  wait_interrupted : Waited S
  wait_failed : Waited S

-- The variables of the thread, with the kernel's interest list, and the connections that were dropped.
pub record EpollState (S : Type 0) : Type 0 where
  pub conns : List (ℕ × Conn S)
  pub interest : List (ℕ × Bool)
  pub gone : List (Conn S)

module _ {S : Type 0} where
  -- Whether the connection has bytes to write: `!conn.io.out.is_empty()`.
  abbrev pub wants_out : Conn S → Bool
  wants_out c = not (is_empty c.io.out)

  abbrev pub drop_conn : Conn S → EpollState S → EpollState S
  drop_conn c s = record s { gone = s.gone ++ (c ∷ []) }

  -- `ctl(EPOLL_CTL_ADD or EPOLL_CTL_MOD, fd, wants_out)`, and the connection under its descriptor.
  abbrev pub register : ℕ → Conn S → EpollState S → EpollState S
  register fd c s = record s {
    conns = insert s.conns fd c;
    interest = insert s.interest fd (wants_out c);
  }

  -- A connection that was accepted. An error of this first flush is not looked at.
  abbrev pub on_accept : Connection S → ℕ → S → Socket → EpollState S → EpollState S
  on_accept h fd made stream s =
      let (c, failed) = try_flush (open_conn h made stream) in
      if closing_done c then drop_conn (call_close h c) s else register fd c s

  pub accept_all : Connection S → List (AcceptFd S) → EpollState S → EpollState S
  accept_all h [] s = s
  accept_all h (accepted nonblocking fd made stream ∷ es) s =
      accept_all h es (if nonblocking then on_accept h fd made stream s else s)
  accept_all h (accept_blocked ∷ es) s = s
  accept_all h (accept_interrupted ∷ es) s = accept_all h es s
  accept_all h (accept_failed ∷ es) s = s

  -- The read of an event, with whether to remove the connection.
  abbrev pub on_read : Connection S → Read → Conn S → Conn S × Bool
  on_read h (got []) c = (call_close h c, true)
  on_read h (got (b ∷ bs)) c = (call_data h (b ∷ bs) c, false)
  on_read h read_blocked c = (c, false)
  on_read h read_interrupted c = (c, false)
  on_read h read_failed c = (call_close h c, true)

  -- After the read: the flush, and the end of a connection that failed or is done.
  abbrev pub after_read : Connection S → Conn S × Bool → Conn S × Bool
  after_read h (c, remove) =
      let (c', failed) = try_flush c in
      if remove
      then (c, true)
      else if failed || closing_done c'
      then (call_close h c', true)
      else (c', false)

  -- An event on a connection.
  unfoldable pub on_ready : Connection S → Bool → Bool → Conn S → Conn S × Bool
  on_ready h hung_up readable c =
      let (r, c') = take_read c in
      if hung_up
      then (call_close h c, true)
      else if readable
      then after_read h (on_read h r c')
      else after_read h (c, false)

  -- `ctl(EPOLL_CTL_DEL, fd)` and `conns.remove(&fd)`, or `ctl(EPOLL_CTL_MOD, ..)`.
  abbrev pub settle_event : ℕ → EpollState S → Conn S × Bool → EpollState S
  settle_event fd s (c, remove) =
      if remove
      then record s {
        conns = delete s.conns fd;
        interest = delete s.interest fd;
        gone = s.gone ++ (c ∷ []);
      }
      else register fd c s

  -- An event; one for a descriptor that is not there is ignored.
  unfoldable pub on_event : Connection S → EpollState S → Event S → EpollState S
  unfolding accept_all
  on_event h s (at_listener es) = accept_all h es s
  on_event h s (at_conn fd hung_up readable) = elim (lookup s.conns fd) [
    | none ↦ s
    | some c ↦ settle_event fd s (on_ready h hung_up readable c)
  ]

  pub on_events : Connection S → EpollState S → List (Event S) → EpollState S
  on_events h s [] = s
  on_events h s (e ∷ es) = on_events h (on_event h s e) es

  -- `while !stop.load()`: the waits until the flag is set, or until one fails.
  pub epoll_reactor : Connection S → EpollState S → List (Waited S) → EpollState S
  epoll_reactor h s [] = s
  epoll_reactor h s (events es ∷ waits) = epoll_reactor h (on_events h s es) waits
  epoll_reactor h s (wait_interrupted ∷ waits) = epoll_reactor h s waits
  epoll_reactor h s (wait_failed ∷ waits) = s

  abbrev pub no_fds : EpollState S
  no_fds = record { conns = []; interest = []; gone = [] }
