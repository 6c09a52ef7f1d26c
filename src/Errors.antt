-- ===== src/Errors.antt =====
-- core/src/lib.rs: the two errors of a send. Each carries the message back to the sender.
-- The trait `Actor` is in System/Cell.antt.
use Prim.Native.String.{String}

-- `TrySendError<T>`
pub data TrySendError {ℓ} (T : Type ℓ) : Type ℓ where
  full : T → TrySendError T
  closed : T → TrySendError T

-- `SendError<T>`
pub data SendError {ℓ} (T : Type ℓ) : Type ℓ where
  closed : T → SendError T

module _ {ℓ} {T : Type ℓ} where
  -- `TrySendError::into_message`
  unfoldable pub try_into_message : TrySendError T → T
  try_into_message (TrySendError.full m) = m
  try_into_message (TrySendError.closed m) = m

  -- `SendError::into_message`
  unfoldable pub into_message : SendError T → T
  into_message (SendError.closed m) = m

module _ {ℓ} {T : Type ℓ} where
  -- `Debug` and `Display` of `TrySendError`; the message has no part in the text.
  abbrev pub debug_try_send : TrySendError T → String
  debug_try_send (TrySendError.full m) = "TrySendError::Full(mailbox full)"
  debug_try_send (TrySendError.closed m) = "TrySendError::Closed(actor gone)"

  abbrev pub display_try_send : TrySendError T → String
  display_try_send (TrySendError.full m) = "mailbox full (backpressure)"
  display_try_send (TrySendError.closed m) = "actor is gone (permanently closed)"

  -- `Debug` and `Display` of `SendError`
  abbrev pub debug_send : SendError T → String
  debug_send (SendError.closed m) = "SendError::Closed(actor gone)"

  abbrev pub display_send : SendError T → String
  display_send (SendError.closed m) = "actor is gone (permanently closed)"

-- `Result<A, E>`
pub data Result {ℓ κ} (A : Type ℓ) (E : Type κ) : Type (ℓ ⊔ κ) where
  ok : A → Result A E
  err : E → Result A E
