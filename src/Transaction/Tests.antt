-- ===== src/Transaction/Tests.antt =====
-- A run of transactions.go whose first commit times out, and the theorem at a concrete input.
use mcgv.Base.{ℕ, ◌+◌, ◌≡◌, refl, Bool, true, false, Option, none, some}
use mcgv.Transaction.{
  Failure, timeout, reply, Ending, returned, panicked, Cluster, Session, run_in_transaction,
  after_start, after_function, start_tx, start_on, close_tx, retry_close, final_error,
}

-- The state of the network counts the requests. The end of a transaction times out unless the context
-- is one of its own.
abbrev slow_end : Bool → ℕ → Option Failure × ℕ
slow_end true w = (none, w + 1)
slow_end false w = (some timeout, w + 1)

abbrev slow : Cluster
slow = record {
  World = ℕ;
  Chan = ℕ;
  TransactionOptions = Unit {0};
  default_channel = λ w. (reply 1, w);
  supports_transactions = λ ch. true;
  send_start = λ ch opts w. (reply 40, w + 1);
  send_end = λ background ch id committed w. slow_end background w;
}

-- A function that puts one value.
abbrev put_one : Session slow → ℕ → Ending × ℕ
put_one tx w = (returned none, w + 1)

abbrev crash : Session slow → ℕ → Ending × ℕ
crash tx w = (panicked, w)

-- The transaction of a function that panics is ended once.
run_crash : run_in_transaction slow tt crash 0 ≡ (panicked, 2)
unfolding run_in_transaction after_start after_function start_tx start_on close_tx retry_close
    final_error
run_crash = refl
