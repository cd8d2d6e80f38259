-- ===== src/Cache/Client.antt =====
-- What the methods of `Cache` of cache.go share. A method takes the transaction of its context, and the
-- state of the network, and returns a value or an error.
use mcgv.Base.{ℕ, false, ◌||◌, List, [], ◌∷◌, Option, none, some, Result, ok, err, panic, stuck}
use mcgv.Base.{if◌then◌else◌}
use mcgv.Stream.Types.{Error, nil_argument}
use mcgv.Stream.Out.{Write, ◌▸◌}
use mcgv.Stream.In.{In, Read, ◌>>>◌, return}
use mcgv.Protocol.{ProtocolContext}
use mcgv.Transaction.{Cluster, Session}
use mcgv.Channel.{ChannelError, Reply, input, failed, panicked}
use mcgv.Object.{Marshaller}
use mcgv.Cache.{Cache, write_cache_info}

-- What the methods use of `Client`: the channels and transactions, `cli.ch`, `send` of a channel, and
-- the marshaller.
pub record Client : Type 1 where
  pub cluster : Cluster
  pub ch : cluster.Chan
  pub send :
      cluster.Chan → ℕ → (Option ProtocolContext → Write) → cluster.World → Reply × cluster.World
  pub marsh : Marshaller

pub data CacheError : Type 0 where
  nil_key nil_value nil_old_value nil_new_value empty_name : CacheError
  request_failed : ChannelError → CacheError
  broken_answer : Error → CacheError

-- The constants of the operations, and their codes.
pub data CacheOp : Type 0 where
  op_cache_get op_cache_put op_cache_put_if_absent op_cache_get_all op_cache_put_all : CacheOp
  op_cache_get_and_put op_cache_get_and_replace op_cache_get_and_remove : CacheOp
  op_cache_get_and_put_if_absent op_cache_replace op_cache_replace_if_equals : CacheOp
  op_cache_contains_key op_cache_contains_keys op_cache_clear op_cache_clear_key : CacheOp
  op_cache_clear_keys op_cache_remove_key op_cache_remove_if_equals op_cache_remove_keys : CacheOp
  op_cache_remove_all op_cache_get_size op_cache_get_configuration : CacheOp

abbrev pub op_code : CacheOp → ℕ
op_code op_cache_get = 1000
op_code op_cache_put = 1001
op_code op_cache_put_if_absent = 1002
op_code op_cache_get_all = 1003
op_code op_cache_put_all = 1004
op_code op_cache_get_and_put = 1005
op_code op_cache_get_and_replace = 1006
op_code op_cache_get_and_remove = 1007
op_code op_cache_get_and_put_if_absent = 1008
op_code op_cache_replace = 1009
op_code op_cache_replace_if_equals = 1010
op_code op_cache_contains_key = 1011
op_code op_cache_contains_keys = 1012
op_code op_cache_clear = 1013
op_code op_cache_clear_key = 1014
op_code op_cache_clear_keys = 1015
op_code op_cache_remove_key = 1016
op_code op_cache_remove_if_equals = 1017
op_code op_cache_remove_keys = 1018
op_code op_cache_remove_all = 1019
op_code op_cache_get_size = 1020
op_code op_cache_get_configuration = 1055

abbrev pub session_id : {c : Cluster} → Option (Session c) → Option ℕ
session_id none = none
session_id (some tx) = some tx.tx_id

-- An answer of which nothing is read.
abbrev pub nothing : Read (Unit {0})
nothing = return tt

module _ (cli : Client) where
  abbrev pub World : Type 0
  World = cli.cluster.World

  abbrev pub Value : Type 0
  Value = cli.marsh.Value

  -- What a method does: it returns, and leaves the network in a state.
  abbrev pub Action : Type 0 → Type 0
  Action A = World → Result CacheError A × World

  -- `cache.channel`
  abbrev pub channel_of : Option (Session cli.cluster) → cli.cluster.Chan
  channel_of none = cli.ch
  channel_of (some tx) = tx.ch

  -- What a reader reads, or its error.
  abbrev pub read_value : {A : Type 0} → Result Error (A × In) → Result CacheError A
  read_value (ok (v, s)) = ok v
  read_value (err e) = err (broken_answer e)
  read_value panic = panic
  read_value stuck = stuck

  -- The callback of a request that reads its answer by `r`.
  abbrev pub receive : {A : Type 0} → Read A → Reply → Result CacheError A
  receive r (input s) = read_value (r s)
  receive r (failed e) = err (request_failed e)
  receive r panicked = panic

  -- A nil argument: the method returns an error at once.
  abbrev pub check : {A : Type 0} → Value → CacheError → Action A → Action A
  check v e action w = if cli.marsh.is_nil v then (err e, w) else action w

  -- No arguments: the method returns at once.
  abbrev pub unless_empty : {A B : Type 0} → List B → A → Action A → Action A
  unless_empty [] v action w = (ok v, w)
  unless_empty (k ∷ ks) v action w = action w

  -- An element of a sequence that is nil is an error of the writer.
  unfoldable pub write_present : Value → Write
  write_present v =
      if cli.marsh.is_nil v then (λ s. err nil_argument) else cli.marsh.marshal_value v

  unfoldable pub write_entry : Value × Value → Write
  write_entry (k, v) =
      if cli.marsh.is_nil k || cli.marsh.is_nil v
      then (λ s. err nil_argument)
      else (cli.marsh.marshal_value k ▸ cli.marsh.marshal_value v)

  unfoldable pub read_entry : Read (Value × Value)
  read_entry = cli.marsh.unmarshal_value >>> λ k. cli.marsh.unmarshal_value >>> λ v. return (k, v)

  module _ (tx : Option (Session cli.cluster)) (cache : Cache) where
    -- `cache.channel(ctx).send`, with the head of the request before what `w` writes.
    unfoldable pub request : {A : Type 0} → CacheOp → Write → Read A → Action A
    request op body r world =
        let (reply, world') =
          cli.send (channel_of tx) (op_code op)
            (λ ctx. write_cache_info (session_id tx) ctx cache.id cache.expiry_policy false ▸ body)
            world in
        (receive r reply, world')
