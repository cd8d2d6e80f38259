-- ===== src/Cache/Requests.antt =====
-- The calls that end without a request.
use mcgv.Base.{◌≡◌, arith, Option, some, Result, ◌∷◌, []}
use mcgv.Transaction.{Session}
use mcgv.Cache.{Cache}
use mcgv.Cache.Client.{Client, CacheError, World}
use mcgv.Cache.Operations.{
  get, put, put_if_absent, get_all, put_all, get_and_put, get_and_replace, get_and_remove,
  get_and_put_if_absent, replace, replace_if_equals, contains_key, contains_keys, clear_all, clear,
  clear_keys, remove, remove_if_equals, remove_keys, remove_all, size,
}
use mcgv.Cache.Calls.{
  Call, Returned, at_once, run, call_get, call_put, call_put_if_absent, call_get_all, call_put_all,
  call_get_and_put, call_get_and_replace, call_get_and_remove, call_get_and_put_if_absent,
  call_replace, call_replace_if_equals, call_contains_key, call_contains_keys, call_clear_all,
  call_clear, call_clear_keys, call_remove, call_remove_if_equals, call_remove_keys,
  call_remove_all, call_size,
}

module _ (cli : Client) (tx : Option (Session cli.cluster)) (cache : Cache) where
  -- A call that lacks a value returns the error for the first value that is nil, in the order of the
  -- arguments, and a call with an empty list of keys or pairs returns true, no pairs or nothing: in both
  -- cases the network is left as it was.
  pub run-at_once :
      (c : Call cli) (r : Result CacheError (Returned cli c)) (w : World cli)
      → at_once cli c ≡ some r
      → run cli tx cache c w ≡ (r, w)
  unfolding run get put put_if_absent get_all put_all get_and_put get_and_replace get_and_remove
      get_and_put_if_absent replace replace_if_equals contains_key contains_keys clear_all clear
      clear_keys remove remove_if_equals remove_keys remove_all size
  run-at_once (call_get k) r w e = ground arith
  run-at_once (call_put k v) r w e = ground arith
  run-at_once (call_put_if_absent k v) r w e = ground arith
  run-at_once (call_get_all []) r w e = ground arith
  run-at_once (call_get_all (v ∷ vs)) r w e = absurd (cc)
  run-at_once (call_put_all []) r w e = ground arith
  run-at_once (call_put_all (v ∷ vs)) r w e = absurd (cc)
  run-at_once (call_get_and_put k v) r w e = ground arith
  run-at_once (call_get_and_replace k v) r w e = ground arith
  run-at_once (call_get_and_remove k) r w e = ground arith
  run-at_once (call_get_and_put_if_absent k v) r w e = ground arith
  run-at_once (call_replace k v) r w e = ground arith
  run-at_once (call_replace_if_equals k old new) r w e = ground arith
  run-at_once (call_contains_key k) r w e = ground arith
  run-at_once (call_contains_keys []) r w e = ground arith
  run-at_once (call_contains_keys (v ∷ vs)) r w e = absurd (cc)
  run-at_once call_clear_all r w e = absurd (cc)
  run-at_once (call_clear k) r w e = ground arith
  run-at_once (call_clear_keys []) r w e = ground arith
  run-at_once (call_clear_keys (v ∷ vs)) r w e = absurd (cc)
  run-at_once (call_remove k) r w e = ground arith
  run-at_once (call_remove_if_equals k old) r w e = ground arith
  run-at_once (call_remove_keys []) r w e = ground arith
  run-at_once (call_remove_keys (v ∷ vs)) r w e = absurd (cc)
  run-at_once call_remove_all r w e = absurd (cc)
  run-at_once (call_size modes) r w e = absurd (cc)
