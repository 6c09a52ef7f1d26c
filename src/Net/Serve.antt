-- ===== src/Net/Serve.antt =====
-- core/src/net.rs: starting and stopping a server. The results of the calls of the operating system and
-- of socket2 are inputs; an error is its number. A reactor's thread is its options, and the threads that
-- run with a stop flag that was not set are what a call leaves behind.
pub mod Cores
use aetherflow.Base.{
  ℕ, zero, suc, ◌+◌, ◌-◌, ◌*◌, ◌/◌, ◌%◌, ◌^◌, ◌≤◌, ◌<◌, min, max, ◌≡◌, refl, sym, ap, ◌∙◌, ◌≢◌, ◌⊎◌,
  inl, inr, Bool, true, false, ◌&&◌, ◌||◌, not, Option, none, some, List, [], ◌∷◌, ◌++◌, map, arith,
  dec_lt, ℕ_discrete, ltb, leb, ◌==◌, if◌then◌else◌, Bool-cases, Option-cases, length, get_elem?,
  set, take, drop, replicate, length-set, length-append, get_elem?-set_self, get_elem?-set_ne,
  get_elem?_of_lt, lt_of_get_elem?,
}
use aetherflow.Errors.{Result, ok, err}

-- `ServeOptions`
pub record ServeOptions : Type 0 where
  pub busy_poll : Bool
  pub pin_core : Option ℕ
  pub epoll : Bool

-- `ServeOptions::default`
abbrev pub default_options : ServeOptions
default_options = record { busy_poll = false; pin_core = none; epoll = false }

-- `ServerHandle`: the address, the flag, and the threads to join.
pub record ServerHandle : Type 0 where
  pub addr : ℕ
  pub stop : Bool
  pub joins : List ServeOptions

-- A call that may fail, and the rest: `?`.
abbrev pub and_then : {A B : Type 0} → Result A ℕ → (A → Result B ℕ) → Result B ℕ
and_then (ok a) f = f a
and_then (err e) f = err e

-- `serve_with`: the bind, `set_nonblocking`, `local_addr` and the spawn of the thread.
pub record ServeCalls : Type 0 where
  pub bind : Result (Unit {0}) ℕ
  pub set_nonblocking : Result (Unit {0}) ℕ
  pub local_addr : Result ℕ ℕ
  pub spawn : Result (Unit {0}) ℕ

unfoldable pub serve_with : ServeCalls → ServeOptions → Result ServerHandle ℕ
serve_with os opts = and_then os.bind (λ u. and_then os.set_nonblocking (λ u.
    and_then os.local_addr (λ local.
      and_then os.spawn (λ u. ok (record { addr = local; stop = false; joins = opts ∷ [] })))))

-- `serve`
abbrev pub serve : ServeCalls → Result ServerHandle ℕ
serve os = serve_with os default_options

-- `reuseport_listener`
pub record ListenerCalls : Type 0 where
  pub new_socket : Result (Unit {0}) ℕ
  pub set_reuse_address : Result (Unit {0}) ℕ
  pub set_reuse_port : Result (Unit {0}) ℕ
  pub set_nonblocking : Result (Unit {0}) ℕ
  pub bind : Result (Unit {0}) ℕ
  pub listen : Result (Unit {0}) ℕ

unfoldable pub reuseport_listener : ListenerCalls → Result (Unit {0}) ℕ
reuseport_listener os = and_then os.new_socket (λ u. and_then os.set_reuse_address (λ u.
    and_then os.set_reuse_port
      (λ u. and_then os.set_nonblocking (λ u. and_then os.bind (λ u. os.listen)))))

-- A core's listener, and the spawn of its thread.
abbrev pub start_core : (ℕ → ListenerCalls) → (ℕ → Result (Unit {0}) ℕ) → ℕ → Result (Unit {0}) ℕ
start_core listeners spawns core = and_then (reuseport_listener (listeners core)) (λ u. spawns core)

abbrev pub pinned : ServeOptions → ℕ → ServeOptions
pinned opts core = record opts { pin_core = some core }

-- `for &core in cores`, with the threads started so far: the handles, or the error with the threads
-- that run nevertheless.
unfoldable pub start_cores :
    (ℕ → Result (Unit {0}) ℕ)
    → ServeOptions
    → List ℕ
    → List ServeOptions
    → Result (List ServeOptions) ℕ × List ServeOptions
start_cores start opts [] joins = (ok joins, joins)
start_cores start opts (core ∷ cores) joins = elim (start core) [
  | err e ↦ (err e, joins)
  | ok u ↦ start_cores start opts cores (joins ++ (pinned opts core ∷ []))
]

-- `serve_on_cores`, with the threads that run after it; `none` is the failed assertion. The error of an
-- address that does not resolve to anything is 22.
abbrev pub resolve : Result (Option ℕ) ℕ → Result ℕ ℕ
resolve (ok (some addr)) = ok addr
resolve (ok none) = err 22
resolve (err e) = err e

abbrev pub with_handle :
    ℕ → Result (List ServeOptions) ℕ × List ServeOptions → Result ServerHandle ℕ × List ServeOptions
with_handle addr (ok joins, running) =
    (ok (record { addr = addr; stop = false; joins = joins }), running)
with_handle addr (err e, running) = (err e, running)

abbrev pub on_addr :
    (ℕ → Result (Unit {0}) ℕ)
    → ServeOptions
    → List ℕ
    → Result ℕ ℕ
    → Result ServerHandle ℕ × List ServeOptions
on_addr start opts cores (ok addr) = with_handle addr (start_cores start opts cores [])
on_addr start opts cores (err e) = (err e, [])

unfoldable pub serve_on_cores :
    Result (Option ℕ) ℕ
    → (ℕ → ListenerCalls)
    → (ℕ → Result (Unit {0}) ℕ)
    → ServeOptions
    → List ℕ
    → Option (Result ServerHandle ℕ × List ServeOptions)
unfolding start_cores reuseport_listener
serve_on_cores addrs listeners spawns opts [] = none
serve_on_cores addrs listeners spawns opts (core ∷ cores) =
    some (on_addr (start_core listeners spawns) opts (core ∷ cores) (resolve addrs))

-- Which reactor a thread runs: `reactor_loop`.
pub data ReactorKind : Type 0 where
  scanning : ReactorKind
  polling : ReactorKind

unfoldable pub reactor_loop : (linux : Bool) → ServeOptions → ReactorKind
reactor_loop linux opts = if linux && opts.epoll then polling else scanning

-- `ServerHandle::shutdown` and its `Drop`: the flag is set and every thread is joined.
unfoldable pub shutdown : ServerHandle → ServerHandle
shutdown s = record s { stop = true; joins = [] }
