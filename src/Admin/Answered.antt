-- ===== src/Admin/Answered.antt =====
-- The calls of client.go that make caches, over one connection: the bytes that are sent, and what an
-- answer comes to.
use mcgv.Base.{
  ℕ, ◌+◌, ◌%◌, ◌^◌, ◌≤◌, ◌≡◌, ◌≢◌, refl, sym, ◌∙◌, Bool, false, List, [], ◌∷◌, ◌++◌, Option, none,
  some,
}
use mcgv.Base.{Result, ok, err, length, String}
use mcgv.Base.Bytes.{le_bytes}
use mcgv.Base.Int.{signed}
use mathlib.Core.Path.{subst}
use mcgv.Stream.Out.{Write, max_int32}
use mcgv.Stream.Out.Writes.{Emits}
use mcgv.Packet.Step.{frame}
use mcgv.Protocol.{ProtocolContext}
use mcgv.Request.{handshake_id}
use mcgv.Request.Framing.{head}
use mcgv.Transaction.{Reply as ClusterReply, Failure}
use mcgv.Channel.{Network, State, Reply, answered, client_server_error}
use mcgv.Channel.Answers.{Answer, IsAnswer, answer_bytes, with_topology, IsReply, send-answer}
use mcgv.Object.{Marshaller, Laws}
use mcgv.Metadata.Wire.Sequences.{string_bytes, marshal_string-Emits}
use mcgv.Hash.{hash_code}
use mcgv.Cache.{Cache}
use mcgv.Cache.Client.{Client, CacheError, request_failed, Action, receive, nothing}
use mcgv.Cache.Answered.{tcp_client}
use mcgv.Config.{CacheConfiguration}
use mcgv.Config.Getters.{name}
use mcgv.Config.PropertyBytes.{AllWritable, rest_bytes, marshal_configuration-Emits}
use mcgv.Admin.{
  new_cache, with_protocol, unless_blank, cache_or_error, request, make_cache, create_cache,
  get_or_create_cache, create_cache_with_configuration, get_or_create_cache_with_configuration,
}
use mcgv.Marshal.Writer.{marshal_string}
use mcgv.Config.Writer.{marshal_configuration}

module _ (net : Network) (marsh : Marshaller) (laws : Laws marsh) (Options : Type 0)
    (supported : Bool) (start : Options → State net → ClusterReply ℕ × State net)
    (finish : Bool → ℕ → Bool → State net → Option Failure × State net) (trim : String → String)
    (units : String → List ℕ) (text : String → marsh.Value) where
  open net use {World as NetWorld, is_closed, await}

  abbrev cli : Client
  cli = tcp_client net marsh laws Options supported start finish

  -- The four ways to make a cache.
  pub data Creation : Type 0 where
    by_name get_by_name : String → Creation
    by_config get_by_config : CacheConfiguration marsh.Value → Creation

  abbrev pub run : Creation → Action cli Cache
  run (by_name n) = create_cache cli trim units text n
  run (get_by_name n) = get_or_create_cache cli trim units text n
  run (by_config c) = create_cache_with_configuration cli trim units text c
  run (get_by_config c) = get_or_create_cache_with_configuration cli trim units text c

  abbrev pub code_of : Creation → ℕ
  code_of (by_name n) = 1051
  code_of (get_by_name n) = 1052
  code_of (by_config c) = 1053
  code_of (get_by_config c) = 1054

  -- The name of the cache, and what is sent.
  abbrev pub name_of : Creation → String
  name_of (by_name n) = trim n
  name_of (get_by_name n) = trim n
  name_of (by_config c) = name c
  name_of (get_by_config c) = name c

  abbrev config_bytes : ProtocolContext → CacheConfiguration marsh.Value → List ℕ
  config_bytes ctx c =
      le_bytes 4 (length (rest_bytes marsh ctx laws c)) ++ rest_bytes marsh ctx laws c

  abbrev pub creation_bytes : ProtocolContext → Creation → List ℕ
  creation_bytes ctx (by_name n) = string_bytes (trim n)
  creation_bytes ctx (get_by_name n) = laws.encode (text (trim n))
  creation_bytes ctx (by_config c) = config_bytes ctx c
  creation_bytes ctx (get_by_config c) = config_bytes ctx c

  -- A name that is not blank, or properties that the protocol supports.
  abbrev pub IsCreation : ProtocolContext → Creation → Type 0
  IsCreation ctx (by_name n) = trim n ≢ []
  IsCreation ctx (get_by_name n) = (trim n ≢ []) × laws.Fits (text (trim n))
  IsCreation ctx (by_config c) = AllWritable marsh ctx laws c
  IsCreation ctx (get_by_config c) = AllWritable marsh ctx laws c

  abbrev writer_of : Creation → Option ProtocolContext → Write
  writer_of (by_name n) ctx = marshal_string (trim n)
  writer_of (get_by_name n) ctx = marsh.marshal_value (text (trim n))
  writer_of (by_config c) ctx = with_protocol (λ p. marshal_configuration marsh p c) ctx
  writer_of (get_by_config c) ctx = with_protocol (λ p. marshal_configuration marsh p c) ctx

  writer-Emits :
      (how : Creation) (ctx : ProtocolContext)
      → IsCreation ctx how
      → Emits (writer_of how (some ctx)) (creation_bytes ctx how)
  writer-Emits (by_name n) ctx h = marshal_string-Emits (trim n)
  writer-Emits (get_by_name n) ctx h = laws.emits (text (trim n)) h.1
  writer-Emits (by_config c) ctx h = marshal_configuration-Emits marsh ctx laws c h
  writer-Emits (get_by_config c) ctx h = marshal_configuration-Emits marsh ctx laws c h

  not_blank :
      (m : String) (make_it : String → Action cli Cache) (s : State net)
      → m ≢ []
      → unless_blank cli trim units text m make_it s ≡ make_it m s
  not_blank [] make_it s h = absurd (h refl)
  not_blank (c ∷ cs) make_it s h = refl

  run-make_cache :
      (how : Creation) (ctx : ProtocolContext) (s : State net)
      → IsCreation ctx how
      → run how s ≡ make_cache cli trim units text (code_of how) (name_of how) (writer_of how) s
  unfolding create_cache get_or_create_cache create_cache_with_configuration
      get_or_create_cache_with_configuration
  run-make_cache (by_name n) ctx s h =
      not_blank (trim n) (λ m. make_cache cli trim units text 1051 m (λ ctx'. marshal_string m)) s h
  run-make_cache (get_by_name n) ctx s h =
      not_blank (trim n)
        (λ m. make_cache cli trim units text 1052 m (λ ctx'. marsh.marshal_value (text m))) s h.0
  run-make_cache (by_config c) ctx s h = refl
  run-make_cache (get_by_config c) ctx s h = refl

  -- How the server answers: the cache is there, with whatever follows, or a status and a message.
  pub data Outcome : Type 0 where
    made : List ℕ → Outcome
    refused : ℕ → String → Outcome

  abbrev pub answer_of : Option (ℕ × ℕ) → Outcome → Answer
  answer_of t (made rest) = record { topology = t; failure = none; body = rest }
  answer_of t (refused status message) = record {
    topology = t;
    failure = some (status, message);
    body = [];
  }

  abbrev pub returned_of : Creation → Outcome → Result CacheError Cache
  returned_of how (made rest) =
      ok (record { expiry_policy = none; name = name_of how; id = hash_code (units (name_of how)) })
  returned_of how (refused status message) =
      err (request_failed (client_server_error message (signed 32 status)))

  topology_lem : (t : Option (ℕ × ℕ)) (o : Outcome) → (answer_of t o).topology ≡ t
  topology_lem t (made rest) = refl
  topology_lem t (refused status message) = refl

  receive_lem :
      (how : Creation) (t : Option (ℕ × ℕ)) (o : Outcome) (r : Reply)
      → IsReply (answer_of t o).failure (answer_of t o).body r
      → cache_or_error cli trim units text (name_of how) (receive cli nothing r) ≡ returned_of how o
  unfolding new_cache
  receive_lem how t (made rest) r (i, e, shows) = rw e refl
  receive_lem how t (refused status message) r e = rw e refl

  -- Over one connection, each of the four methods that make a cache sends the packet of its operation
  -- code and of the trimmed name or the configuration, and then returns a cache with that name, the
  -- `HashCode` of it as the id and no expiry policy, or else the status and the message in the answer as an error. This
  -- holds if the name is not blank, its value or the properties are in range and supported, the
  -- connection is open after a handshake, the packet fits a stream, and the network answers it by an
  -- answer in range.
  pub creation-answered :
      (how : Creation) (ctx : ProtocolContext) (s : State net) (t : Option (ℕ × ℕ)) (o : Outcome)
      (w : NetWorld)
      → IsCreation ctx how
      → s.protocol_ctx ≡ some ctx
      → is_closed s.world ≡ false
      → (s.id_gen + 1) % 2 ^ 64 ≢ handshake_id
      → 4 + length (head ((s.id_gen + 1) % 2 ^ 64) (code_of how) ++ creation_bytes ctx how)
        ≤ max_int32
      → IsAnswer (answer_of t o)
      → await
          ((s.id_gen + 1) % 2 ^ 64)
          (frame (head ((s.id_gen + 1) % 2 ^ 64) (code_of how) ++ creation_bytes ctx how))
          s.world
        ≡ (answered (answer_bytes ((s.id_gen + 1) % 2 ^ 64) (answer_of t o)), w)
      → run how s ≡ (
        returned_of how o,
        with_topology net t (record s { id_gen = (s.id_gen + 1) % 2 ^ 64; world = w }),
      )
  unfolding make_cache request
  creation-answered how ctx s t o w h proto open_now other small fine e =
      let emits : Emits (writer_of how s.protocol_ctx) (creation_bytes ctx how) =
        subst (λ c. Emits (writer_of how c) (creation_bytes ctx how)) (sym proto)
          (writer-Emits how ctx h) in
      let (r, sent, is) =
        send-answer net (code_of how) (writer_of how) (creation_bytes ctx how) s (answer_of t o) w
          open_now emits other small fine e in
      run-make_cache how ctx s h ∙ rw (sent, receive_lem how t o r is, topology_lem t o) refl
