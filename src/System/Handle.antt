-- ===== src/System/Handle.antt =====
-- core/src/system.rs: `ActorRef` with the sending end of its mailbox: what it observes, its sends that
-- do not block, and its clones. The blocking send is in System/Placement.antt.
use aetherflow.Base.{ℕ, Option, none, some}
use aetherflow.Mpsc
use aetherflow.Mpsc.{Queue, Sending}
use aetherflow.Mpsc.Ends.{depth, clone_sender, total_enqueued, total_dequeued}
use aetherflow.Metrics.{LatencyHistogram, LatencySnapshot, Quantiles, snapshot}

-- `ActorRef`
pub record Handle (T : Type 0) : Type 0 where
  pub tx : Queue T
  pub metrics : Option LatencyHistogram
  pub core : ℕ

module _ {T : Type 0} where
  -- `ActorRef::try_send`
  abbrev pub try_send_to : Handle T → T → Handle T × Sending T
  try_send_to r msg = let (q, res) = Mpsc.try_send r.tx msg in (record r { tx = q }, res)

  -- `ActorRef::mailbox_depth`
  abbrev pub mailbox_depth : Handle T → ℕ
  mailbox_depth r = depth r.tx

  -- `ActorRef::total_sent`
  abbrev pub total_sent : Handle T → ℕ
  total_sent r = total_enqueued r.tx

  -- `ActorRef::total_processed`
  abbrev pub total_processed : Handle T → ℕ
  total_processed r = total_dequeued r.tx

  -- `ActorRef::latency`
  unfoldable pub latency : Quantiles → Handle T → Option LatencySnapshot
  latency q r = elim r.metrics [ none ↦ none | some h ↦ some (snapshot q h) ]

  -- `ActorRef::clone`
  unfoldable pub clone_ref : Handle T → Handle T
  clone_ref r = record r { tx = clone_sender r.tx }
