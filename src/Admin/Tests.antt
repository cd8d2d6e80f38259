-- ===== src/Admin/Tests.antt =====
-- The theorems on the calls of client.go at concrete calls.
use mcgv.Base.{
  ℕ, ◌+◌, ◌≡◌, refl, arith, Bool, true, false, [], ◌∷◌, Option, none, some, ok, panic, String,
}
use mcgv.Base.Bytes.{le_bytes}
use mcgv.Hash.{hash_code}
use mcgv.Stream.Out.{Write, new_output_stream}
use mcgv.Stream.In.{Read}
use mcgv.Marshal.Types.{TypeDesc, Payload, scalar, string}
use mcgv.Protocol.{version_of, new_protocol_context}
use mcgv.Metadata.{BinaryMetadata}
use mcgv.Object.{Marshaller, Laws}
use mcgv.Object.Payloads.{payload_marshaller, payload_laws}
use mcgv.Transaction.{Reply as ClusterReply, reply, Failure}
use mcgv.Channel.{Network, State, answered}
use mcgv.Channel.Answers.{answer_bytes, with_topology}
use mcgv.Admin.{check_cluster_api}
use mcgv.Admin.Support.{check_cluster_api-passes}
use mcgv.Admin.Answered.{by_name, made, run, creation-answered}

abbrev no_write : ℕ → Write
no_write n s = panic

abbrev no_read : TypeDesc → Read Payload
no_read t s = panic

abbrev accept : BinaryMetadata → Bool
accept meta = true

abbrev marsh : Marshaller
marsh = payload_marshaller no_write no_read (λ n. none) (λ s. s) true accept 3

abbrev marsh_laws : Laws marsh
marsh_laws = payload_laws no_write no_read (λ n. none) (λ s. s) true accept 3 (λ meta. refl)

-- A server that makes every cache, and counts the requests.
abbrev making : Network
making = record {
  World = ℕ;
  is_closed = λ w. false;
  await = λ id bytes w. (
    answered (answer_bytes id (record { topology = some (9, 1); failure = none; body = [] })),
    w + 1,
  );
}

abbrev start_seven : Unit {0} → State making → ClusterReply ℕ × State making
start_seven opts s = (reply 7, s)

abbrev finish_well : Bool → ℕ → Bool → State making → Option Failure × State making
finish_well background id committed s = (none, s)

abbrev connected : State making
connected = record {
  id_gen = 1;
  top_ver = 0;
  min_top_ver = 0;
  protocol_ctx = some (record { version = version_of 1 7 0; features = none });
  world = 0;
}

abbrev same : String → String
same s = s

abbrev text : String → Payload
text s = scalar (string s)

creation-answered_example :
    run making marsh marsh_laws
      (Unit {0})
      true
      start_seven
      finish_well
      same
      same
      text
      (by_name (99 ∷ []))
      connected
    ≡ (
      ok (record { expiry_policy = none; name = 99 ∷ []; id = 99 }),
      with_topology making (some (9, 1)) (record connected { id_gen = 2; world = 1 }),
    )
unfolding le_bytes hash_code
creation-answered_example =
    creation-answered making marsh marsh_laws (Unit {0}) true start_seven finish_well same same text
      (by_name (99 ∷ [])) (record { version = version_of 1 7 0; features = none }) connected
      (some (9, 1)) (made []) 1 (λ e. absurd (cc)) refl refl (omega arith) (omega arith)
      (record { versions = (omega arith, omega arith); status = tt }) refl

check_cluster_api-passes_example :
    check_cluster_api (new_protocol_context (version_of 1 5 0) []) (new_output_stream 4)
    ≡ ok (new_output_stream 4)
check_cluster_api-passes_example =
    check_cluster_api-passes (version_of 1 5 0) [] (new_output_stream 4)
      (record { major = omega arith; minor = omega arith; patch = omega arith })
