-- ===== src/Cache/Operations.antt =====
-- The methods of `Cache` of cache.go.
use mcgv.Base.{ℕ, Bool, true, List, [], Option, ok}
use mcgv.Stream.Out.{◌▸◌, write_uint8}
use mcgv.Stream.In.{read_bool, read_uint64}
use mcgv.Transaction.{Session}
use mcgv.Metadata.Wire.{write_sequence, read_pairs}
use mcgv.Cache.{Cache}
use mcgv.Cache.Client.{
  Client, nil_key, nil_value, nil_old_value, nil_new_value, op_cache_get, op_cache_put,
  op_cache_put_if_absent, op_cache_get_all, op_cache_put_all, op_cache_get_and_put,
  op_cache_get_and_replace, op_cache_get_and_remove, op_cache_get_and_put_if_absent,
  op_cache_replace, op_cache_replace_if_equals, op_cache_contains_key, op_cache_contains_keys,
  op_cache_clear, op_cache_clear_key, op_cache_clear_keys, op_cache_remove_key,
  op_cache_remove_if_equals, op_cache_remove_keys, op_cache_remove_all, op_cache_get_size, Value,
  Action, check, unless_empty, write_present, write_entry, read_entry, request, nothing,
}

module _ (cli : Client) (tx : Option (Session cli.cluster)) (cache : Cache) where
  -- `Get`
  unfoldable pub get : Value cli → Action cli (Value cli)
  unfolding request
  get key =
      check cli key nil_key
        (request cli tx cache op_cache_get (cli.marsh.marshal_value key) cli.marsh.unmarshal_value)

  -- `GetAndPut`
  unfoldable pub get_and_put : Value cli → Value cli → Action cli (Value cli)
  unfolding request
  get_and_put key value = check cli key nil_key (
      check cli value nil_value (
        request cli tx cache op_cache_get_and_put
          (cli.marsh.marshal_value key ▸ cli.marsh.marshal_value value) cli.marsh.unmarshal_value))

  -- `GetAndReplace`
  unfoldable pub get_and_replace : Value cli → Value cli → Action cli (Value cli)
  unfolding request
  get_and_replace key value = check cli key nil_key (
      check cli value nil_value (
        request cli tx cache op_cache_get_and_replace
          (cli.marsh.marshal_value key ▸ cli.marsh.marshal_value value) cli.marsh.unmarshal_value))

  -- `Put`
  unfoldable pub put : Value cli → Value cli → Action cli Unit
  unfolding request
  put key value = check cli key nil_key (
      check cli value nil_value (
        request cli tx cache op_cache_put
          (cli.marsh.marshal_value key ▸ cli.marsh.marshal_value value) nothing))

  -- `PutIfAbsent`
  unfoldable pub put_if_absent : Value cli → Value cli → Action cli Bool
  unfolding request
  put_if_absent key value = check cli key nil_key (
      check cli value nil_value (
        request cli tx cache op_cache_put_if_absent
          (cli.marsh.marshal_value key ▸ cli.marsh.marshal_value value) read_bool))

  -- `GetAndPutIfAbsent`
  unfoldable pub get_and_put_if_absent : Value cli → Value cli → Action cli (Value cli)
  unfolding request
  get_and_put_if_absent key value = check cli key nil_key (
      check cli value nil_value (
        request cli tx cache op_cache_get_and_put_if_absent
          (cli.marsh.marshal_value key ▸ cli.marsh.marshal_value value) cli.marsh.unmarshal_value))

  -- `ContainsKey`
  unfoldable pub contains_key : Value cli → Action cli Bool
  unfolding request
  contains_key key =
      check cli key nil_key
        (request cli tx cache op_cache_contains_key (cli.marsh.marshal_value key) read_bool)

  -- `ContainsKeys`
  unfoldable pub contains_keys : List (Value cli) → Action cli Bool
  unfolding request write_present
  contains_keys keys = unless_empty cli keys true (
      request cli tx cache op_cache_contains_keys (write_sequence (write_present cli) keys)
        read_bool)

  -- `GetAll`
  unfoldable pub get_all : List (Value cli) → Action cli (List (Value cli × Value cli))
  unfolding request write_present read_entry
  get_all keys = unless_empty cli keys [] (
      request cli tx cache op_cache_get_all (write_sequence (write_present cli) keys)
        (read_pairs (read_entry cli)))

  -- `PutAll`
  unfoldable pub put_all : List (Value cli × Value cli) → Action cli Unit
  unfolding request write_entry
  put_all pairs =
      unless_empty cli pairs tt
        (request cli tx cache op_cache_put_all (write_sequence (write_entry cli) pairs) nothing)

  -- `ReplaceIfEquals`
  unfoldable pub replace_if_equals : Value cli → Value cli → Value cli → Action cli Bool
  unfolding request
  replace_if_equals key old_value new_value = check cli key nil_key (
      check cli old_value nil_old_value (
        check cli new_value nil_new_value (
          request cli tx cache op_cache_replace_if_equals
            (cli.marsh.marshal_value key
              ▸ cli.marsh.marshal_value old_value
              ▸ cli.marsh.marshal_value new_value)
            read_bool)))

  -- `Replace`
  unfoldable pub replace : Value cli → Value cli → Action cli Bool
  unfolding request
  replace key value = check cli key nil_key (
      check cli value nil_value (
        request cli tx cache op_cache_replace
          (cli.marsh.marshal_value key ▸ cli.marsh.marshal_value value) read_bool))

  -- `Remove`
  unfoldable pub remove : Value cli → Action cli Bool
  unfolding request
  remove key =
      check cli key nil_key
        (request cli tx cache op_cache_remove_key (cli.marsh.marshal_value key) read_bool)

  -- `GetAndRemove`
  unfoldable pub get_and_remove : Value cli → Action cli (Value cli)
  unfolding request
  get_and_remove key = check cli key nil_key (
      request cli tx cache op_cache_get_and_remove (cli.marsh.marshal_value key)
        cli.marsh.unmarshal_value)

  -- `RemoveIfEquals`
  unfoldable pub remove_if_equals : Value cli → Value cli → Action cli Bool
  unfolding request
  remove_if_equals key old_value = check cli key nil_key (
      check cli old_value nil_old_value (
        request cli tx cache op_cache_remove_if_equals
          (cli.marsh.marshal_value key ▸ cli.marsh.marshal_value old_value) read_bool))

  -- `RemoveKeys`
  unfoldable pub remove_keys : List (Value cli) → Action cli Unit
  unfolding request write_present
  remove_keys keys =
      unless_empty cli keys tt (
        request cli tx cache op_cache_remove_keys (write_sequence (write_present cli) keys) nothing)

  -- `RemoveAll`
  unfoldable pub remove_all : Action cli Unit
  unfolding request
  remove_all = request cli tx cache op_cache_remove_all ok nothing

  -- `Clear`
  unfoldable pub clear : Value cli → Action cli Unit
  unfolding request
  clear key =
      check cli key nil_key
        (request cli tx cache op_cache_clear_key (cli.marsh.marshal_value key) nothing)

  -- `ClearKeys`
  unfoldable pub clear_keys : List (Value cli) → Action cli Unit
  unfolding request write_present
  clear_keys keys =
      unless_empty cli keys tt
        (request cli tx cache op_cache_clear_keys (write_sequence (write_present cli) keys) nothing)

  -- `ClearAll`
  unfoldable pub clear_all : Action cli Unit
  unfolding request
  clear_all = request cli tx cache op_cache_clear ok nothing

  -- `Size`; a peek mode is the number of its constant.
  unfoldable pub size : List ℕ → Action cli ℕ
  unfolding request
  size peek_modes =
      request cli tx cache op_cache_get_size (write_sequence write_uint8 peek_modes) read_uint64
