-- ===== src/Net/Epoll/Once.antt =====
-- core/src/net.rs: the epoll reactor closes each connection once.
use mathlib.Core.Path.{subst}
use aetherflow.Base.{
  ℕ, ◌≡◌, refl, sym, inl, inr, Bool, true, false, ◌||◌, List, [], ◌∷◌, Bool-cases, Option-cases,
}
use aetherflow.Base.AllOf.{AllOf, AllOf-snoc}
use aetherflow.Base.Maps.{lookup, AllOf-delete, AllOf-lookup}
use aetherflow.Net.{Connection}
use aetherflow.Net.Conn.{
  Socket, Read, got, read_blocked, read_interrupted, read_failed, Conn, try_flush, closing_done,
  call_close, open_conn, take_read,
}
use aetherflow.Net.Closing.{
  Keeps, IsEnd, IsPause, Served, counted, MadeUnclosed, NotClosed, ClosedOnce, counted-Keeps,
}
use aetherflow.Net.Epoll.{
  AcceptFd, accepted, accept_blocked, accept_interrupted, accept_failed, Event, at_listener,
  at_conn, Waited, events, wait_interrupted, wait_failed, EpollState, register, on_accept,
  accept_all, on_read, after_read, on_ready, settle_event, on_event, on_events, epoll_reactor,
  no_fds,
}

module _ {S : Type 0} (Open Closed : Conn S → Type 0) where
  -- Every connection is open, and every one that was dropped is closed.
  abbrev pub IsClean : EpollState S → Type 0
  IsClean s = AllOf (λ (e : ℕ × Conn S). Open (e.1)) s.conns × AllOf Closed s.gone

module _ {S : Type 0} (Fresh : S → Socket → Type 0) where
  -- What is known of the handlers that the factory makes.
  abbrev pub MakesFresh : List (AcceptFd S) → Type 0
  MakesFresh [] = Unit
  MakesFresh (accepted nonblocking fd made stream ∷ es) = Fresh made stream × MakesFresh es
  MakesFresh (accept_blocked ∷ es) = MakesFresh es
  MakesFresh (accept_interrupted ∷ es) = MakesFresh es
  MakesFresh (accept_failed ∷ es) = MakesFresh es

  abbrev pub EventMakesFresh : Event S → Type 0
  EventMakesFresh (at_listener es) = MakesFresh es
  EventMakesFresh (at_conn fd hung_up readable) = Unit

  abbrev pub WaitMakesFresh : Waited S → Type 0
  WaitMakesFresh (events es) = AllOf EventMakesFresh es
  WaitMakesFresh wait_interrupted = Unit
  WaitMakesFresh wait_failed = Unit

module _ {S : Type 0} (h : Connection S) (Fresh : S → Socket → Type 0)
    (Open Closed : Conn S → Type 0) (keeps : Keeps h Fresh Open Closed) where
  register-IsClean :
      (fd : ℕ) (c : Conn S) (s : EpollState S)
      → IsClean Open Closed s
      → Open c
      → IsClean Open Closed (register fd c s)
  register-IsClean fd c s (o, d) o' = ((o', AllOf-delete _ s.conns fd o), d)

  settle_event-IsClean :
      (fd : ℕ) (s : EpollState S) (r : Conn S × Bool)
      → IsClean Open Closed s
      → Served Open Closed r
      → IsClean Open Closed (settle_event fd s r)
  settle_event-IsClean fd s (c, true) (o, d) served =
      (AllOf-delete _ s.conns fd o, AllOf-snoc _ s.gone c d served)
  settle_event-IsClean fd s (c, false) clean served = register-IsClean fd c s clean served

  on_accept-IsClean :
      (fd : ℕ) (made : S) (stream : Socket) (s : EpollState S)
      → IsClean Open Closed s
      → Fresh made stream
      → IsClean Open Closed (on_accept h fd made stream s)
  unfolding try_flush
  on_accept-IsClean fd made stream s (o, d) o' =
      let c = (try_flush (open_conn h made stream)).0 in
      let opened = keeps.flushes _ (keeps.opens made stream o') in
      elim (Bool-cases (closing_done c)) [
        | inl y ↦
            rw (y, on_accept) (o, AllOf-snoc _ s.gone (call_close h c) d (keeps.closes c opened))
        | inr n ↦ rw (n, on_accept) (register-IsClean fd c s (o, d) opened)
      ]

  accept_all-IsClean :
      (es : List (AcceptFd S)) (s : EpollState S)
      → MakesFresh Fresh es
      → IsClean Open Closed s
      → IsClean Open Closed (accept_all h es s)
  unfolding accept_all
  accept_all-IsClean [] s makes clean = clean
  accept_all-IsClean (accepted true fd made stream ∷ es) s (o, makes) clean =
      accept_all-IsClean es (on_accept h fd made stream s) makes
        (on_accept-IsClean fd made stream s clean o)
  accept_all-IsClean (accepted false fd made stream ∷ es) s (o, makes) clean =
      accept_all-IsClean es s makes clean
  accept_all-IsClean (accept_blocked ∷ es) s makes clean = clean
  accept_all-IsClean (accept_interrupted ∷ es) s makes clean = accept_all-IsClean es s makes clean
  accept_all-IsClean (accept_failed ∷ es) s makes clean = clean

  on_read-Served :
      (c : Conn S) (r : Read)
      → (take_read c).0 ≡ r
      → Open c
      → Served Open Closed (on_read h r (take_read c).1)
  on_read-Served c (got []) e o = keeps.ends c (subst IsEnd (sym e) tt) o
  on_read-Served c (got (b ∷ bs)) e o = keeps.receives c b bs e o
  on_read-Served c read_blocked e o = keeps.pauses c (subst IsPause (sym e) tt) o
  on_read-Served c read_interrupted e o = keeps.pauses c (subst IsPause (sym e) tt) o
  on_read-Served c read_failed e o = keeps.ends c (subst IsEnd (sym e) tt) o

  after_read-Served :
      (r : Conn S × Bool) → Served Open Closed r → Served Open Closed (after_read h r)
  unfolding try_flush
  after_read-Served (c, true) served = served
  after_read-Served (c, false) o =
      elim (Bool-cases ((try_flush c).1 || closing_done (try_flush c).0)) [
        | inl y ↦ rw (y, after_read) (keeps.closes (try_flush c).0 (keeps.flushes c o))
        | inr n ↦ rw (n, after_read) (keeps.flushes c o)
      ]

  on_ready-Served :
      (hung_up readable : Bool) (c : Conn S)
      → Open c
      → Served Open Closed (on_ready h hung_up readable c)
  unfolding on_ready
  on_ready-Served true readable c o = keeps.closes c o
  on_ready-Served false true c o =
      after_read-Served (on_read h (take_read c).0 (take_read c).1)
        (on_read-Served c (take_read c).0 refl o)
  on_ready-Served false false c o = after_read-Served (c, false) o

  on_event-IsClean :
      (s : EpollState S) (e : Event S)
      → EventMakesFresh Fresh e
      → IsClean Open Closed s
      → IsClean Open Closed (on_event h s e)
  unfolding on_event
  on_event-IsClean s (at_listener es) makes clean = accept_all-IsClean es s makes clean
  on_event-IsClean s (at_conn fd hung_up readable) makes clean =
      elim (Option-cases (lookup s.conns fd)) [
        | inl e ↦ rw (e, on_event) clean
        | inr (c, e) ↦
            let o = AllOf-lookup Open s.conns fd c (clean.0) e in
            rw (e, on_event)
              (settle_event-IsClean fd s (on_ready h hung_up readable c) clean
                (on_ready-Served hung_up readable c o))
      ]

  on_events-IsClean :
      (es : List (Event S)) (s : EpollState S)
      → AllOf (EventMakesFresh Fresh) es
      → IsClean Open Closed s
      → IsClean Open Closed (on_events h s es)
  unfolding on_events
  on_events-IsClean [] s makes clean = clean
  on_events-IsClean (e ∷ es) s (m, makes) clean =
      on_events-IsClean es (on_event h s e) makes (on_event-IsClean s e m clean)

  pub epoll_reactor-IsClean :
      (waits : List (Waited S)) (s : EpollState S)
      → AllOf (WaitMakesFresh Fresh) waits
      → IsClean Open Closed s
      → IsClean Open Closed (epoll_reactor h s waits)
  unfolding epoll_reactor
  epoll_reactor-IsClean [] s makes clean = clean
  epoll_reactor-IsClean (events es ∷ waits) s (m, makes) clean =
      epoll_reactor-IsClean waits (on_events h s es) makes (on_events-IsClean es s m clean)
  epoll_reactor-IsClean (wait_interrupted ∷ waits) s (m, makes) clean =
      epoll_reactor-IsClean waits s makes clean
  epoll_reactor-IsClean (wait_failed ∷ waits) s makes clean = clean

-- Whatever the kernel reports and the sockets return, the handler of a connection that is in the epoll
-- reactor has never been told that it was closed, and the handler of each that was dropped has been
-- told exactly once.
pub epoll_reactor-Once :
    {S : Type 0} (h : Connection S) (waits : List (Waited (S × ℕ)))
    → AllOf (WaitMakesFresh MadeUnclosed) waits
    → IsClean NotClosed ClosedOnce (epoll_reactor (counted h) no_fds waits)
epoll_reactor-Once h waits makes =
    epoll_reactor-IsClean (counted h) MadeUnclosed NotClosed ClosedOnce (counted-Keeps h) waits
      no_fds makes (tt, tt)
