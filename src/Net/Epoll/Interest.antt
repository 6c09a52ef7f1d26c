-- ===== src/Net/Epoll/Interest.antt =====
-- core/src/net.rs: a connection with bytes to write is registered for writability.
use aetherflow.Base.{
  ℕ, ◌≡◌, ap, inl, inr, Bool, true, false, some, List, [], ◌∷◌, ◌++◌, arith, ℕ_discrete, Bool-cases,
  Option-cases,
}
use mathlib.Core.Option.{some-injective}
use aetherflow.Base.Maps.{
  lookup, delete, lookup-delete_self, lookup-delete_ne, lookup-insert_self, lookup-insert_ne,
}
use aetherflow.Net.{Connection}
use aetherflow.Net.Conn.{Socket, Conn, try_flush, closing_done, open_conn}
use aetherflow.Net.Epoll.{
  AcceptFd, accepted, accept_blocked, accept_interrupted, accept_failed, Event, at_listener,
  at_conn, Waited, events, wait_interrupted, wait_failed, EpollState, wants_out, register,
  on_accept, accept_all, on_ready, settle_event, on_event, on_events, epoll_reactor, no_fds,
}

module _ {S : Type 0} where
  -- Each connection is registered, and for writability exactly if it has bytes to write.
  abbrev pub AreRegistered : EpollState S → Type 0
  AreRegistered s =
      (fd : ℕ) (c : Conn S) → lookup s.conns fd ≡ some c → lookup s.interest fd ≡ some (wants_out c)

  register-AreRegistered :
      (fd : ℕ) (c : Conn S) (s : EpollState S) → AreRegistered s → AreRegistered (register fd c s)
  register-AreRegistered fd c s reg k d = elim (ℕ_discrete fd k) [
    | yes e ↦
        rw (← e, lookup-insert_self s.conns fd c, lookup-insert_self s.interest fd (wants_out c))
          (λ q. ap (λ x. some (wants_out x)) (some-injective c d q))
    | no ne ↦
        rw (lookup-insert_ne s.conns fd k c ne, lookup-insert_ne s.interest fd k (wants_out c) ne)
          (reg k d)
  ]

  delete-AreRegistered :
      (fd : ℕ) (s : EpollState S) (gone : List (Conn S))
      → AreRegistered s
      → AreRegistered
          (record s { conns = delete s.conns fd; interest = delete s.interest fd; gone = gone })
  delete-AreRegistered fd s gone reg k d = elim (ℕ_discrete fd k) [
    | yes e ↦ rw (← e, lookup-delete_self s.conns fd) (λ q. absurd (ground (arith, q)))
    | no ne ↦ rw (lookup-delete_ne s.conns fd k ne, lookup-delete_ne s.interest fd k ne) (reg k d)
  ]

  settle_event-AreRegistered :
      (fd : ℕ) (s : EpollState S) (r : Conn S × Bool)
      → AreRegistered s
      → AreRegistered (settle_event fd s r)
  settle_event-AreRegistered fd s (c, true) reg = delete-AreRegistered fd s (s.gone ++ (c ∷ [])) reg
  settle_event-AreRegistered fd s (c, false) reg = register-AreRegistered fd c s reg

  on_accept-AreRegistered :
      (h : Connection S) (fd : ℕ) (made : S) (stream : Socket) (s : EpollState S)
      → AreRegistered s
      → AreRegistered (on_accept h fd made stream s)
  on_accept-AreRegistered h fd made stream s reg =
      let c = (try_flush (open_conn h made stream)).0 in
      elim (Bool-cases (closing_done c)) [
        | inl y ↦ rw (y, on_accept) reg
        | inr n ↦ rw (n, on_accept) (register-AreRegistered fd c s reg)
      ]

  accept_all-AreRegistered :
      (h : Connection S) (es : List (AcceptFd S)) (s : EpollState S)
      → AreRegistered s
      → AreRegistered (accept_all h es s)
  unfolding accept_all
  accept_all-AreRegistered h [] s reg = reg
  accept_all-AreRegistered h (accepted true fd made stream ∷ es) s reg =
      accept_all-AreRegistered h es (on_accept h fd made stream s)
        (on_accept-AreRegistered h fd made stream s reg)
  accept_all-AreRegistered h (accepted false fd made stream ∷ es) s reg =
      accept_all-AreRegistered h es s reg
  accept_all-AreRegistered h (accept_blocked ∷ es) s reg = reg
  accept_all-AreRegistered h (accept_interrupted ∷ es) s reg = accept_all-AreRegistered h es s reg
  accept_all-AreRegistered h (accept_failed ∷ es) s reg = reg

  on_event-AreRegistered :
      (h : Connection S) (s : EpollState S) (e : Event S)
      → AreRegistered s
      → AreRegistered (on_event h s e)
  unfolding on_event
  on_event-AreRegistered h s (at_listener es) reg = accept_all-AreRegistered h es s reg
  on_event-AreRegistered h s (at_conn fd hung_up readable) reg =
      elim (Option-cases (lookup s.conns fd)) [
        | inl e ↦ rw (e, on_event) reg
        | inr (c, e) ↦
            rw (e, on_event) (settle_event-AreRegistered fd s (on_ready h hung_up readable c) reg)
      ]

  on_events-AreRegistered :
      (h : Connection S) (es : List (Event S)) (s : EpollState S)
      → AreRegistered s
      → AreRegistered (on_events h s es)
  unfolding on_events
  on_events-AreRegistered h [] s reg = reg
  on_events-AreRegistered h (e ∷ es) s reg =
      on_events-AreRegistered h es (on_event h s e) (on_event-AreRegistered h s e reg)

  epoll_reactor-from :
      (h : Connection S) (waits : List (Waited S)) (s : EpollState S)
      → AreRegistered s
      → AreRegistered (epoll_reactor h s waits)
  unfolding epoll_reactor
  epoll_reactor-from h [] s reg = reg
  epoll_reactor-from h (events es ∷ waits) s reg =
      epoll_reactor-from h waits (on_events h s es) (on_events-AreRegistered h es s reg)
  epoll_reactor-from h (wait_interrupted ∷ waits) s reg = epoll_reactor-from h waits s reg
  epoll_reactor-from h (wait_failed ∷ waits) s reg = reg

  -- Whatever the kernel reports and the sockets return, each connection of the epoll reactor is in the
  -- kernel's interest list, and for writability exactly if it has bytes left to write.
  pub epoll_reactor-AreRegistered :
      (h : Connection S) (waits : List (Waited S)) → AreRegistered (epoll_reactor h no_fds waits)
  epoll_reactor-AreRegistered h waits =
      epoll_reactor-from h waits no_fds (λ fd c e. absurd (ground (arith, e)))
