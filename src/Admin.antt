-- ===== src/Admin.antt =====
-- client.go: the calls of a client that manage caches and the cluster. `trim` is strings.TrimSpace, and
-- `text` the value of a string for the marshaller.
mod Tests
pub mod Support
pub mod Answered
use mcgv.Base.{
  ℕ, Bool, true, false, not, ◌&&◌, List, [], ◌∷◌, Option, none, some, Result, ok, err, panic, stuck,
  ltb,
}
use mcgv.Base.{String, if◌then◌else◌}
use mcgv.Stream.Types.{not_supported}
use mcgv.Stream.Out.{Write, ◌▸◌, write_bool, write_uint8, write_uint32}
use mcgv.Stream.In.{Read, ◌>>>◌, return, read_bool, read_uint8, read_size}
use mcgv.Hash.{hash_code}
use mcgv.Marshal.Writer.{marshal_string}
use mcgv.Marshal.Reader.{make, unmarshal_string}
use mcgv.Metadata.Wire.{read_all}
use mcgv.Protocol.{ProtocolContext, supports, since_expiry_policy, supports_attribute_feature}
use mcgv.Cache.{Cache}
use mcgv.Cache.Client.{Client, CacheError, empty_name, World, Value, Action, receive, nothing}
use mcgv.Config.{CacheConfiguration}
use mcgv.Config.Getters.{name}
use mcgv.Config.Writer.{marshal_configuration}

abbrev pub cluster_states_feature : ℕ
cluster_states_feature = 2

-- `checkClusterApiSupportedByServer`
unfoldable pub check_cluster_api : ProtocolContext → Write
check_cluster_api ctx s =
    if not (supports ctx.version since_expiry_policy)
      && supports_attribute_feature ctx cluster_states_feature
    then err not_supported
    else ok s

-- The method on the protocol context of the channel, which panics for nil.
abbrev pub with_protocol : (ProtocolContext → Write) → Option ProtocolContext → Write
with_protocol f none = λ s. panic
with_protocol f (some ctx) = f ctx

-- An int8 that is above 1.
abbrev pub is_above_one : ℕ → Bool
is_above_one state = ltb 1 state && ltb state 128

-- A state above `Active` needs a feature.
unfoldable pub check_state : ℕ → ProtocolContext → Write
check_state state ctx s =
    if is_above_one state && not (supports_attribute_feature ctx cluster_states_feature)
    then err not_supported
    else ok s

-- `newCache`: the id is the hash of the name; `units` gives the code points of a string.
unfoldable pub new_cache : (String → List ℕ) → String → Cache
new_cache units cache_name = record {
  expiry_policy = none;
  name = cache_name;
  id = hash_code (units cache_name);
}

-- The names of caches; `make` panics on a negative size.
unfoldable pub read_names : Read (List String)
read_names = read_size >>> λ sz. make sz (λ n. read_all unmarshal_string n)

module _ (cli : Client) (trim : String → String) (units : String → List ℕ)
    (text : String → Value cli) where
  -- `cli.ch.send`
  unfoldable pub request :
      {A : Type 0} → ℕ → (Option ProtocolContext → Write) → Read A → Action cli A
  request code writer r world =
      let (reply, world') = cli.send cli.ch code writer world in (receive cli r reply, world')

  -- A cache once it is there, or the error.
  abbrev pub cache_or_error : String → Result CacheError (Unit {0}) → Result CacheError Cache
  cache_or_error cache_name (ok v) = ok (new_cache units cache_name)
  cache_or_error cache_name (err e) = err e
  cache_or_error cache_name panic = panic
  cache_or_error cache_name stuck = stuck

  unfoldable pub make_cache : ℕ → String → (Option ProtocolContext → Write) → Action cli Cache
  unfolding request new_cache
  make_cache code cache_name writer world =
      let (r, world') = request code writer nothing world in (cache_or_error cache_name r, world')

  -- A name that is blank is an error.
  abbrev pub unless_blank : String → (String → Action cli Cache) → Action cli Cache
  unless_blank [] make_it world = (err empty_name, world)
  unless_blank (c ∷ cs) make_it world = make_it (c ∷ cs) world

  -- `CacheNames`
  unfoldable pub cache_names : Action cli (List String)
  unfolding request read_names
  cache_names = request 1050 (λ ctx. ok) read_names

  -- `CreateCache`
  unfoldable pub create_cache : String → Action cli Cache
  unfolding make_cache
  create_cache cache_name =
      unless_blank (trim cache_name) (λ n. make_cache 1051 n (λ ctx. marshal_string n))

  -- `GetOrCreateCache`
  unfoldable pub get_or_create_cache : String → Action cli Cache
  unfolding make_cache
  get_or_create_cache cache_name =
      unless_blank (trim cache_name)
        (λ n. make_cache 1052 n (λ ctx. cli.marsh.marshal_value (text n)))

  -- `CreateCacheWithConfiguration`
  unfoldable pub create_cache_with_configuration :
      CacheConfiguration cli.marsh.Value → Action cli Cache
  unfolding make_cache
  create_cache_with_configuration config =
      make_cache 1053 (name config)
        (with_protocol (λ ctx. marshal_configuration cli.marsh ctx config))

  -- `GetOrCreateCacheWithConfiguration`
  unfoldable pub get_or_create_cache_with_configuration :
      CacheConfiguration cli.marsh.Value → Action cli Cache
  unfolding make_cache
  get_or_create_cache_with_configuration config =
      make_cache 1054 (name config)
        (with_protocol (λ ctx. marshal_configuration cli.marsh ctx config))

  -- `DestroyCache`
  unfoldable pub destroy_cache : String → Action cli Unit
  unfolding request
  destroy_cache cache_name =
      request 1056 (λ ctx. write_uint32 (hash_code (units cache_name))) nothing

  -- `GetClusterState`
  unfoldable pub get_cluster_state : Action cli ℕ
  unfolding request
  get_cluster_state = request 5000 (with_protocol check_cluster_api) read_uint8

  -- `ChangeClusterState`
  unfoldable pub change_cluster_state : ℕ → Action cli Unit
  unfolding request
  change_cluster_state state =
      request 5001
        (with_protocol (λ ctx. check_cluster_api ctx ▸ check_state state ctx ▸ write_uint8 state))
        nothing

  -- `IsWalEnabled`
  unfoldable pub is_wal_enabled : String → Action cli Bool
  unfolding request
  is_wal_enabled cache_name =
      request 5003 (with_protocol (λ ctx. check_cluster_api ctx ▸ marshal_string cache_name))
        read_bool

  -- `changeWalState`
  unfoldable pub change_wal_state : String → Bool → Action cli Bool
  unfolding request
  change_wal_state cache_name is_enabled =
      request 5002
        (with_protocol
          (λ ctx. check_cluster_api ctx ▸ marshal_string cache_name ▸ write_bool is_enabled))
        read_bool

  -- `EnableWal`
  unfoldable pub enable_wal : String → Action cli Bool
  unfolding change_wal_state
  enable_wal cache_name = change_wal_state cache_name true

  -- `DisableWal`
  unfoldable pub disable_wal : String → Action cli Bool
  unfolding change_wal_state
  disable_wal cache_name = change_wal_state cache_name false
