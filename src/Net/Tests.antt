-- ===== src/Net/Tests.antt =====
-- The reactors and the server at concrete inputs: an echo server.
use aetherflow.Base.{ℕ, ◌+◌, refl, true, false, List, [], ◌∷◌, ◌++◌, ◌==◌, if◌then◌else◌, length}
use aetherflow.Errors.{Result, ok, err}
use aetherflow.Net.{Connection}
use aetherflow.Net.Conn.{Socket, wrote, write_blocked, got, read_blocked, read_failed}
use aetherflow.Net.Closing.{counted, NotClosed, ClosedOnce}
use aetherflow.Net.Scan
use aetherflow.Net.Scan.{Accept, scan_reactor, no_conns}
use aetherflow.Net.Scan.Once.{StaysClean, scan_reactor-Once}
use aetherflow.Net.Epoll
use aetherflow.Net.Epoll.{
  Waited, events, wait_interrupted, at_listener, at_conn, epoll_reactor, no_fds,
}
use aetherflow.Net.Epoll.Interest.{AreRegistered, epoll_reactor-AreRegistered}
use aetherflow.Net.Epoll.Once.{IsClean, epoll_reactor-Once}
use aetherflow.Net.Wire.{Logged, logged, OnWire, reactors-OnWire}
use aetherflow.Net.Serve.{ListenerCalls}

-- The handler counts the bytes that it gets.
abbrev echo : Connection ℕ
echo = record {
  on_open = λ s io. (s, record io { out = io.out ++ (0 ∷ []) });
  on_data = λ s b io. (s + length b, record io { out = io.out ++ b });
  on_close = λ s. s;
}

abbrev talks : Socket
talks = record {
  writes = wrote 1 ∷ write_blocked ∷ wrote 1 ∷ wrote 1 ∷ [];
  reads = got (7 ∷ 8 ∷ []) ∷ read_blocked ∷ got [] ∷ [];
  sent = [];
}

abbrev breaks : Socket
breaks = record { writes = wrote 1 ∷ []; reads = read_failed ∷ []; sent = [] }

abbrev turns : List (List (Accept (ℕ × ℕ)))
turns = (Scan.accepted true (0, 0) talks ∷ Scan.accepted true (0, 0) breaks ∷ []) ∷ [] ∷ [] ∷ []

scan_reactor-Once_example :
    StaysClean NotClosed ClosedOnce (scan_reactor (counted echo) turns no_conns)
scan_reactor-Once_example = scan_reactor-Once echo turns ((refl, (refl, tt)), (tt, (tt, tt)))

abbrev waits : List (Waited (ℕ × ℕ))
waits =
    events (
      at_listener (Epoll.accepted true 5 (0, 0) talks ∷ Epoll.accepted true 6 (0, 0) breaks ∷ [])
      ∷ [])
    ∷ wait_interrupted
    ∷ events (at_conn 5 false true ∷ at_conn 6 true false ∷ at_conn 9 false true ∷ [])
    ∷ []

epoll_reactor-Once_example :
    IsClean NotClosed ClosedOnce (epoll_reactor (counted echo) no_fds waits)
epoll_reactor-Once_example =
    epoll_reactor-Once echo waits (((refl, (refl, tt)), tt), (tt, ((tt, (tt, (tt, tt))), tt)))

epoll_reactor-AreRegistered_example : AreRegistered (epoll_reactor (counted echo) no_fds waits)
epoll_reactor-AreRegistered_example = epoll_reactor-AreRegistered (counted echo) waits

-- Every listener starts, and core 2 has no thread.
abbrev all_fine : ListenerCalls
all_fine = record {
  new_socket = ok tt;
  set_reuse_address = ok tt;
  set_reuse_port = ok tt;
  set_nonblocking = ok tt;
  bind = ok tt;
  listen = ok tt;
}

abbrev listeners : ℕ → ListenerCalls
listeners core = all_fine

abbrev spawns : ℕ → Result (Unit {0}) ℕ
spawns core = if core == 2 then err 11 else ok tt

-- The factory's handlers, each with the bytes that its socket is going to bring.
abbrev empty_log : List ℕ → Logged ℕ
empty_log brought = record { inner = 0; received = []; written = []; brought = brought }

abbrev logged_turns : List (List (Accept (Logged ℕ)))
logged_turns =
    (Scan.accepted true (empty_log (7 ∷ 8 ∷ [])) talks
      ∷ Scan.accepted true (empty_log []) breaks
      ∷ [])
    ∷ []
    ∷ []
    ∷ []

abbrev logged_waits : List (Waited (Logged ℕ))
logged_waits =
    events (at_listener (Epoll.accepted true 5 (empty_log (7 ∷ 8 ∷ [])) talks ∷ []) ∷ [])
    ∷ events (at_conn 5 false true ∷ at_conn 5 false false ∷ [])
    ∷ []

reactors-OnWire_example :
    StaysClean OnWire OnWire (scan_reactor (logged echo) logged_turns no_conns)
    × IsClean OnWire OnWire (epoll_reactor (logged echo) no_fds logged_waits)
reactors-OnWire_example =
    reactors-OnWire echo logged_turns logged_waits (λ s bytes io. (bytes, refl))
      (((refl, refl, refl, refl), ((refl, refl, refl, refl), tt)), (tt, (tt, tt)))
      (((((refl, refl, refl, refl), tt), tt), ((tt, (tt, tt)), tt)))
