-- ===== src/Cache/Answered.antt =====
-- The calls of a cache over one connection: the bytes that are sent, and what an answer comes to.
use mcgv.Base.{
  ℕ, ◌+◌, ◌%◌, ◌^◌, ◌≤◌, ◌≡◌, ◌≢◌, refl, sym, ◌∙◌, Bool, true, false, List, [], ◌∷◌, ◌++◌, Option,
  none, some,
}
use mcgv.Base.{Result, ok, err, length, String, if◌then◌else◌}
use mcgv.Base.Bytes.{le_bytes}
use mcgv.Base.Int.{signed}
use mcgv.Stream.Out.{max_int32, ◌▸◌}
use mcgv.Stream.Out.Writes.{
  Emits, ◌⊳◌, skip_Emits, write_uint8-Emits, write_uint32-Emits, write_uint64-Emits,
}
use mcgv.Stream.Types.{not_supported}
use mathlib.Core.Path.{subst}
use mcgv.Packet.Step.{frame}
use mcgv.Protocol.{ProtocolContext, supports, since_expiry_policy}
use mcgv.Request.{handshake_id}
use mcgv.Request.Framing.{head}
use mcgv.Transaction.{Cluster, Session, Reply as ClusterReply, reply, Failure}
use mcgv.Channel.{Network, State, Reply, answered, client_server_error, send}
use mcgv.Channel.Answers.{Answer, IsAnswer, answer_bytes, with_topology, IsReply, send-answer}
use mcgv.Object.{Marshaller, Laws}
use mcgv.Cache.{
  Cache, ExpiryPolicy, duration_to_millis, int64_of, write_cache_info, check_policy, write_policy,
  write_tx_id,
}
use mcgv.Cache.Client.{Client, CacheError, request_failed, session_id, request, receive}
use mcgv.Cache.Calls.{Call, Returned, kind_of, code_of, run}
use mcgv.Cache.Results.{result_bytes, IsResult, canon_result, reader_of, result_Reads}
use mcgv.Cache.Wire.{IsComplete, argument_bytes, writer_of, code_lem, arguments-Emits, run-request}

-- The head of a request: the id of the cache, the flags, the times of the expiry policy in milliseconds,
-- and the id of the transaction.
abbrev policy_bytes : Option ExpiryPolicy → List ℕ
policy_bytes none = []
policy_bytes (some p) =
    le_bytes 8 (int64_of (duration_to_millis p.creation))
    ++ (le_bytes 8 (int64_of (duration_to_millis p.update))
        ++ le_bytes 8 (int64_of (duration_to_millis p.access)))

abbrev tx_bytes : Option ℕ → List ℕ
tx_bytes none = []
tx_bytes (some id) = le_bytes 4 id

abbrev flags_of : Option ExpiryPolicy → Option ℕ → ℕ
flags_of none none = 0
flags_of none (some id) = 2
flags_of (some p) none = 4
flags_of (some p) (some id) = 6

abbrev pub info_bytes : Option ℕ → Cache → List ℕ
info_bytes tx_id cache =
    le_bytes 4 cache.id
    ++ (flags_of cache.expiry_policy tx_id ∷ (policy_bytes cache.expiry_policy ++ tx_bytes tx_id))

-- The protocol of the connection supports the expiry policy, if there is one.
abbrev pub IsSupported : Option ProtocolContext → Option ExpiryPolicy → Type 0
IsSupported ctx none = Unit
IsSupported none (some p) = ⊥
IsSupported (some ctx) (some p) = supports ctx.version since_expiry_policy ≡ true

policy-Emits : (p : ExpiryPolicy) → Emits (write_policy (some p)) (policy_bytes (some p))
unfolding write_policy
policy-Emits p = write_uint64-Emits _ ⊳ write_uint64-Emits _ ⊳ write_uint64-Emits _

check-Emits :
    (ctx : ProtocolContext) (p : ExpiryPolicy)
    → supports ctx.version since_expiry_policy ≡ true
    → Emits (check_policy (some ctx) (some p)) []
unfolding check_policy
check-Emits ctx p h =
    subst (λ (b : Bool). Emits (λ s. if b then ok s else err not_supported) []) (sym h) skip_Emits

head-Emits :
    (tx_id : Option ℕ) (ctx : Option ProtocolContext) (id : ℕ) (policy : Option ExpiryPolicy)
    → IsSupported ctx policy
    → Emits
        (write_cache_info tx_id ctx id policy false)
        (le_bytes 4 id ++ (flags_of policy tx_id ∷ (policy_bytes policy ++ tx_bytes tx_id)))
unfolding write_cache_info check_policy write_tx_id
head-Emits none ctx id none h =
    write_uint32-Emits id ⊳ skip_Emits ⊳ write_uint8-Emits 0 ⊳ skip_Emits ⊳ skip_Emits
head-Emits (some tx) ctx id none h =
    write_uint32-Emits id ⊳ skip_Emits ⊳ write_uint8-Emits 2 ⊳ skip_Emits ⊳ write_uint32-Emits tx
head-Emits tx none id (some p) h = absurd h
head-Emits none (some ctx) id (some p) h =
    write_uint32-Emits id ⊳ check-Emits ctx p h ⊳ write_uint8-Emits 4 ⊳ policy-Emits p ⊳ skip_Emits
head-Emits (some tx) (some ctx) id (some p) h =
    write_uint32-Emits id
    ⊳ check-Emits ctx p h
    ⊳ write_uint8-Emits 6
    ⊳ policy-Emits p
    ⊳ write_uint32-Emits tx

info-Emits :
    (tx_id : Option ℕ) (ctx : Option ProtocolContext) (cache : Cache)
    → IsSupported ctx cache.expiry_policy
    → Emits (write_cache_info tx_id ctx cache.id cache.expiry_policy false) (info_bytes tx_id cache)
info-Emits tx_id ctx cache h = head-Emits tx_id ctx cache.id cache.expiry_policy h

-- The client over one connection of channel.go. The transactions of it are parameters.
module _ (net : Network) (marsh : Marshaller) (laws : Laws marsh) (Options : Type 0)
    (supported : Bool) (start : Options → State net → ClusterReply ℕ × State net)
    (finish : Bool → ℕ → Bool → State net → Option Failure × State net) where
  open net use {World as NetWorld, is_closed, await}

  abbrev tcp_cluster : Cluster
  tcp_cluster = record {
    World = State net;
    Chan = Unit {0};
    TransactionOptions = Options;
    default_channel = λ s. (reply tt, s);
    supports_transactions = λ ch. supported;
    send_start = λ ch opts s. start opts s;
    send_end = λ background ch id committed s. finish background id committed s;
  }

  abbrev pub tcp_client : Client
  tcp_client = record {
    cluster = tcp_cluster;
    ch = tt;
    send = λ ch op writer s. send net op writer s;
    marsh = marsh;
  }

  -- How the server answers a call: by a result and whatever follows it, or by a status and a message.
  pub data Outcome (c : Call tcp_client) : Type 0 where
    result : Returned tcp_client c → List ℕ → Outcome c
    refusal : ℕ → String → Outcome c

  abbrev pub answer_of : (c : Call tcp_client) → Option (ℕ × ℕ) → Outcome c → Answer
  answer_of c topology (result v rest) = record {
    topology = topology;
    failure = none;
    body = result_bytes tcp_client laws (kind_of tcp_client c) v ++ rest;
  }
  answer_of c topology (refusal status message) = record {
    topology = topology;
    failure = some (status, message);
    body = [];
  }

  -- A result is in range, so that it can be read back.
  abbrev pub IsReadable : (c : Call tcp_client) → Outcome c → Type 0
  IsReadable c (result v rest) = IsResult tcp_client laws (kind_of tcp_client c) v
  IsReadable c (refusal status message) = Unit

  abbrev pub returned_of :
      (c : Call tcp_client) → Outcome c → Result CacheError (Returned tcp_client c)
  returned_of c (result v rest) = ok (canon_result tcp_client laws (kind_of tcp_client c) v)
  returned_of c (refusal status message) =
      err (request_failed (client_server_error message (signed 32 status)))

  topology_lem :
      (c : Call tcp_client) (t : Option (ℕ × ℕ)) (o : Outcome c) → (answer_of c t o).topology ≡ t
  topology_lem c t (result v rest) = refl
  topology_lem c t (refusal status message) = refl

  receive_lem :
      (c : Call tcp_client) (t : Option (ℕ × ℕ)) (o : Outcome c) (r : Reply)
      → IsReadable c o
      → IsReply (answer_of c t o).failure (answer_of c t o).body r
      → receive tcp_client (reader_of tcp_client laws (kind_of tcp_client c)) r ≡ returned_of c o
  receive_lem c t (result v rest) r h (i, e, shows) =
      rw (e, (result_Reads tcp_client laws (kind_of tcp_client c) v h).result i rest shows) refl
  receive_lem c t (refusal status message) r h e = rw e refl

  module _ (tx : Option (Session tcp_cluster)) (cache : Cache) where
    -- The bytes after the size of the packet of a call: the operation and the id of the request, the
    -- head with the cache, and the arguments.
    abbrev pub call_bytes : Call tcp_client → ℕ → List ℕ
    call_bytes c id =
        head id (code_of tcp_client c)
        ++ (info_bytes (session_id tx) cache ++ argument_bytes tcp_client laws c)

    -- Over one connection, each of the 21 calls sends the packet of its operation code, of the head
    -- with the cache, its expiry policy and the transaction, and of its arguments; and then returns the
    -- result in the answer as it is read back, or the status and the message in it as an error, with the
    -- versions of the topology in the answer left in the channel. This holds if the arguments are there
    -- and in range, the lists of keys and pairs are not empty, the protocol supports the expiry policy,
    -- the connection is open, the packet fits a stream, and the network answers that packet by an answer
    -- in range.
    pub run-answered :
        (c : Call tcp_client) (s : State net) (t : Option (ℕ × ℕ)) (o : Outcome c) (w : NetWorld)
        → IsComplete tcp_client laws c
        → IsSupported s.protocol_ctx cache.expiry_policy
        → is_closed s.world ≡ false
        → (s.id_gen + 1) % 2 ^ 64 ≢ handshake_id
        → 4 + length (call_bytes c ((s.id_gen + 1) % 2 ^ 64)) ≤ max_int32
        → IsAnswer (answer_of c t o)
        → IsReadable c o
        → await ((s.id_gen + 1) % 2 ^ 64) (frame (call_bytes c ((s.id_gen + 1) % 2 ^ 64))) s.world
          ≡ (answered (answer_bytes ((s.id_gen + 1) % 2 ^ 64) (answer_of c t o)), w)
        → run tcp_client tx cache c s ≡ (
          returned_of c o,
          with_topology net t (record s { id_gen = (s.id_gen + 1) % 2 ^ 64; world = w }),
        )
    unfolding request
    run-answered c s t o w complete supp open_now other small fine readable e =
        let writes =
          info-Emits (session_id tx) s.protocol_ctx cache supp
          ⊳ arguments-Emits tcp_client laws c complete in
        let (r, sent, is) =
          send-answer net (code_of tcp_client c)
            (λ ctx.
              write_cache_info (session_id tx) ctx cache.id cache.expiry_policy false
              ▸ writer_of tcp_client laws c)
            (info_bytes (session_id tx) cache ++ argument_bytes tcp_client laws c) s
            (answer_of c t o) w open_now writes other small fine e in
        run-request tcp_client laws tx cache c s complete
        ∙ rw (code_lem tcp_client laws c, sent, receive_lem c t o r readable is, topology_lem c t o)
            refl
