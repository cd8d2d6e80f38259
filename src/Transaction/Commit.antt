-- ===== src/Transaction/Commit.antt =====
-- When `RunInTransaction` of transactions.go reports success.
use mcgv.Base.{◌≡◌, true, false, none, some}
use mcgv.Transaction.{timeout, reply, Ending, returned, Cluster, Session, start_tx, close_tx}

module _ (cluster : Cluster) where
  open cluster use {World, TransactionOptions}

  -- The commit was answered without an error, by the first attempt or after a timeout by the second.
  pub data Closed (tx : Session cluster) (w w' : World) : Type 0 where
    at_once : close_tx cluster false tx true w ≡ (none, w') → Closed tx w w'
    after_timeout :
        (between : World)
        → close_tx cluster false tx true w ≡ (some timeout, between)
        → close_tx cluster true tx true between ≡ (none, w')
        → Closed tx w w'

  -- A transaction that was started, whose function returned nil, and that was committed.
  pub record Committed (opts : TransactionOptions)
      (tx_func : Session cluster → World → Ending × World) (w w' : World) : Type 0 where
    pub tx : Session cluster
    pub started : World
    pub finished : World
    pub start : start_tx cluster opts w ≡ (reply tx, started)
    pub succeeded : tx_func tx started ≡ (returned none, finished)
    pub closed : Closed tx finished w'
