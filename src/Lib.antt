-- ===== src/Lib.antt =====
-- AetherFlow: a thread-per-core actor runtime. Actors are placed on core threads, each actor has a
-- bounded mailbox, and a core thread runs its actors to completion.
--
-- Base: shared names, lists over native numbers, usize words (Base/Words), maps as association
-- lists (Base/Maps) and predicates on every member of a list (Base/AllOf).
-- Errors: TrySendError and SendError of core/src/lib.rs, with their texts.
-- Mailbox: the abstract mailbox, a bounded first-in first-out queue.
-- Mpsc: the mailbox of core/src/mpsc.rs. Mpsc.antt has the queue and the atomic steps of `enqueue`
-- and `dequeue`, Mpsc/Ends the constructor and the two ends, Mpsc/Calls, Invariant, Channel, Single
-- and Refine the uninterrupted calls, Mpsc/Threads and below the interleaved ones, Mpsc/Lossy the
-- channel of one slot, Mpsc/Teardown the drop of the queue and the count of the senders.
-- Metrics: the latency histogram of core/src/metrics.rs; the product of the count and a quantile, a
-- floating-point number, is an argument.
-- System: core/src/system.rs. System.antt has the idle strategy (whose stages System/Stages is
-- about) and the knobs, System/Supervise the restart policy and `allow_restart`, System/Cell the
-- trait `Actor` (a parameter) and the cell that the core thread drives through `ErasedActor`,
-- System/Core the loop `core_loop`: its control messages, its pass over the actors and the drain at
-- shutdown. Core/Visits, Removal and Share are about a pass; Core/Drain, InOrder and Restarts about
-- the drain; Core/Loop has the loop itself, Core/Upkeep, Turns and Runs what its turns keep, given
-- the laws of a cell's calls, and Core/Lifecycle, Shutdown and Handled three instances of them, the
-- last with other threads that send meanwhile (Core/Traffic, and Core/Messages for what a message
-- makes of an actor). System/Supervise/Stretch is about restarts in a stretch of time.
-- System/Placement has the runtime's constructor, the spawning of actors (Placement/RoundRobin and
-- Spread), the builder and the blocking send (Placement/Laws), and System/Handle the observations
-- of an `ActorRef`.
-- Pinning: core/src/pinning.rs; what the operating system returns is an argument.
-- Timer: the heap of timers and the thread that fires them, core/src/timer.rs. Timer/Order is about
-- the order of the heap; Timer/Moves has sequences of calls and firings, Timer/Handles what they
-- keep, and Timer/Sorted what that means for the order, Timer/Cancel and Timer/OneShot are about
-- the messages that they send, and Timer/Due and Timer/Wake about a wake of the thread, from its
-- first round to its sleep.
-- Ask: request and reply, core/src/ask.rs. Ask.antt has the reply cell and the steps of the caller
-- and of the `Responder`, Ask/Protocol the table of the states that they reach, Ask/Outcome the
-- exchange of `ask_timeout`, whose cell is shared, and Ask/OnStack the one of `ask`, whose cell is
-- the caller's.
-- Spsc: the ring of one producer and one consumer, core/src/spsc.rs. Spsc.antt has the ring, the
-- steps of `try_push` and `try_pop` and the moves of the two threads, Spsc/Slots, Invariant, Moves
-- and Runs what every move keeps, Spsc/Fifo what follows for any run and for the drop of the ring,
-- and Spsc/Progress when a push returns.
-- Net: core/src/net.rs. Net.antt has the trait `Connection` (a parameter) and `Io`, Net/Codec the
-- codecs and `Framed`, with Codec/Laws, Newlines, Chunks, Feed, RoundTrip and Lines on how streams
-- are cut, Net/Conn a connection and its flush, Net/Scan and Net/Epoll the two reactors. What the
-- steps of a connection keep is a record of laws in Net/Closing, which Scan/Once and Epoll/Once
-- carry over to the reactors; its instances are how often `on_close` is called (Net/Closing) and
-- which bytes go over the wire (Net/Wire). Epoll/Interest is about the interest list, and Net/Serve
-- is the start and the shutdown of a server.
--
-- Interaction: System/Cell takes messages from the abstract mailbox of Mailbox.antt, which
-- Mpsc/Refine shows the queue of Mpsc.antt to implement, and records in the histogram of
-- Metrics.antt. A handler's panic is `none`, and what `catch_unwind` returns is the outcome of the
-- poll.
--
-- Fuel: the calls of the mailbox run on the steps that Mpsc/Calls shows to suffice without
-- interference. A pass runs on one round more than there are actors, the drain of a cell on one
-- round more than it has messages (in `core_loop`: on more than any mailbox has), the loop on a
-- list of what the control channel holds in each turn, a wake of the timer thread on one round more
-- than there are entries due, a blocking send on the attempts that its theorem takes. A pass of the
-- scanning reactor runs on one round more than there are connections, and the loop that delivers
-- frames on one round more than there are bytes; a reactor's turns are the list of what its waits
-- return.
--
-- Not modelled: weak memory (atomic accesses take effect in one order), sockets, epoll and threads
-- themselves (what the calls of the operating system return is an input, and `epoll_ctl` is taken
-- to succeed), a panic of a network handler, the effects of a handler on other actors, the
-- synchronisation shim and the capability experiment, which have no logic of the runtime, and the
-- empty crates cluster, remote, streams and persistence. Instants are natural numbers and inputs,
-- and a word is a natural number modulo 2^64.
pub mod Base
pub mod Errors
pub mod Mailbox
pub mod Metrics
pub mod System
pub mod Timer
pub mod Ask
pub mod Net
pub mod Pinning
pub mod Spsc
pub mod Mpsc
