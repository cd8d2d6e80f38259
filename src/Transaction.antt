-- ===== src/Transaction.antt =====
-- transactions.go: `RunInTransaction` over the channel that the record `Cluster` stands for. The text of
-- an error is left out: what is kept is whether `errors.As` finds a timeout in it.
pub mod Commit
mod Tests
use mcgv.Base.{ℕ, Bool, true, false, Option, none, some, if◌then◌else◌}

pub data Failure : Type 0 where
  timeout other : Failure

pub data Reply {ℓ} (A : Type ℓ) : Type ℓ where
  reply : A → Reply A
  failed : Failure → Reply A

-- How a function ends: it returns nil or an error, or it panics.
pub data Ending : Type 0 where
  returned : Option Failure → Ending
  panicked : Ending

-- What the client uses: the state of the network and of the cluster, and the channels to it.
pub record Cluster : Type 1 where
  pub World : Type 0
  pub Chan : Type 0
  pub TransactionOptions : Type 0
  -- `cli.ch.defaultChannel`
  pub default_channel : World → Reply Chan × World
  -- `currCh.protocolContext().SupportsTransactions()`
  pub supports_transactions : Chan → Bool
  -- `ch.send` of opTxStart, and of opTxEnd with the id and whether to commit; true is for a context of
  -- its own, `context.Background()`.
  pub send_start : Chan → TransactionOptions → World → Reply ℕ × World
  pub send_end : Bool → Chan → ℕ → Bool → World → Option Failure × World

module _ (cluster : Cluster) where
  open cluster use {
    World, Chan, TransactionOptions, default_channel, supports_transactions, send_start, send_end,
  }

  -- `txSession`
  pub record Session : Type 0 where
    pub tx_id : ℕ
    pub ch : Chan

  abbrev session_of : Chan → Reply ℕ × World → Reply Session × World
  session_of ch (reply id, w) = (reply (record { tx_id = id; ch = ch }), w)
  session_of ch (failed e, w) = (failed e, w)

  unfoldable pub start_on : TransactionOptions → Reply Chan × World → Reply Session × World
  start_on opts (failed e, w) = (failed e, w)
  start_on opts (reply ch, w) =
      if supports_transactions ch then session_of ch (send_start ch opts w) else (failed other, w)

  -- `startTx`
  unfoldable pub start_tx : TransactionOptions → World → Reply Session × World
  unfolding start_on
  start_tx opts w = start_on opts (default_channel w)

  -- `closeTx`
  unfoldable pub close_tx : Bool → Session → Bool → World → Option Failure × World
  close_tx background tx committed w = send_end background tx.ch tx.tx_id committed w

  -- The second attempt, if the first one timed out.
  unfoldable pub retry_close : Session → Bool → Option Failure × World → Option Failure × World
  unfolding close_tx
  retry_close tx committed (some timeout, w) = close_tx true tx committed w
  retry_close tx committed (some other, w) = (some other, w)
  retry_close tx committed (none, w) = (none, w)

  abbrev pub is_nil : Option Failure → Bool
  is_nil none = true
  is_nil (some e) = false

  -- The error of `RunInTransaction`: that of `closeTx`, or else that of the function.
  unfoldable pub final_error : Option Failure → Option Failure × World → Ending × World
  final_error tx_err (some e, w) = (returned (some e), w)
  final_error tx_err (none, w) = (returned tx_err, w)

  abbrev rolled_back : Option Failure × World → Ending × World
  rolled_back (e, w) = (panicked, w)

  -- `RunInTransaction` after `txFunc`, the deferred function included.
  unfoldable pub after_function : Session → Ending × World → Ending × World
  unfolding retry_close final_error close_tx
  after_function tx (panicked, w) = rolled_back (close_tx true tx false w)
  after_function tx (returned tx_err, w) =
      final_error tx_err (retry_close tx (is_nil tx_err) (close_tx false tx (is_nil tx_err) w))

  unfoldable pub after_start :
      (Session → World → Ending × World) → Reply Session × World → Ending × World
  unfolding after_function
  after_start tx_func (failed e, w) = (returned (some e), w)
  after_start tx_func (reply tx, w) = after_function tx (tx_func tx w)

  -- `RunInTransaction`, with the options already applied.
  unfoldable pub run_in_transaction :
      TransactionOptions → (Session → World → Ending × World) → World → Ending × World
  unfolding after_start start_tx
  run_in_transaction opts tx_func w = after_start tx_func (start_tx opts w)
