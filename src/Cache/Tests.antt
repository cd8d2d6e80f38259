-- ===== src/Cache/Tests.antt =====
-- The theorems on cache.go at concrete calls.
use mcgv.Base.{
  ℕ, ◌^◌, ◌<◌, ◌+◌, ◌≡◌, refl, arith, Bool, true, false, List, [], ◌∷◌, Option, none, some, ok, err,
  panic, ◌++◌,
}
use mcgv.Base.Bytes.{le_bytes}
use mcgv.Base.Int.{pos, negsuc}
use mcgv.Stream.Out.{Write}
use mcgv.Stream.In.{Read}
use mcgv.Marshal.Types.{TypeDesc, Payload, nil, uint32, scalar, string}
use mcgv.Marshal.Encoding.{encode}
use mcgv.Marshal.Canon.{IsInRange, depth, canon}
use mcgv.Protocol.{version_of, supports, compare_to}
use mcgv.Metadata.{BinaryMetadata}
use mcgv.Object.{Marshaller, Laws}
use mcgv.Object.Payloads.{payload_marshaller, payload_laws}
use mcgv.Transaction.{Session, Reply as ClusterReply, reply, Failure}
use mcgv.Channel.{Network, State, answered}
use mcgv.Channel.Answers.{answer_bytes, with_topology}
use mcgv.Cache.{Cache, duration_to_millis, millis_to_duration, int64_of}
use mcgv.Cache.Client.{nil_value, Client}
use mcgv.Cache.Calls.{Call, call_get_and_put, run}
use mcgv.Cache.Requests.{run-at_once}
use mcgv.Cache.Answered.{tcp_client, Outcome, result, run-answered}
use mcgv.Cache.Durations.{millis_to_duration-IsCut, IsCut}

abbrev no_write : ℕ → Write
no_write n s = panic

abbrev no_read : TypeDesc → Read Payload
no_read t s = panic

abbrev accept : BinaryMetadata → Bool
accept meta = true

abbrev marsh : Marshaller
marsh = payload_marshaller no_write no_read (λ n. none) (λ s. s) true accept 3

abbrev marsh_laws : Laws marsh
marsh_laws = payload_laws no_write no_read (λ n. none) (λ s. s) true accept 3 (λ meta. refl)

-- A server that answers every request with the value 7, and counts the requests.
abbrev seven : List ℕ
seven = encode (uint32 7)

abbrev old_value : Payload
old_value = scalar (string (104 ∷ 105 ∷ []))

abbrev replying : Network
replying = record {
  World = ℕ;
  is_closed = λ w. false;
  await = λ id bytes w. (
    answered (
        answer_bytes id
          (record { topology = some (9, 1); failure = none; body = encode old_value ++ [] })),
    w + 1,
  );
}

abbrev start_seven : Unit {0} → State replying → ClusterReply ℕ × State replying
start_seven opts s = (reply 7, s)

abbrev finish_well : Bool → ℕ → Bool → State replying → Option Failure × State replying
finish_well background id committed s = (none, s)

abbrev cli : Client
cli = tcp_client replying marsh marsh_laws (Unit {0}) true start_seven finish_well

abbrev session : Session cli.cluster
session = record { tx_id = 7; ch = tt }

-- A cache whose entries live for a second.
abbrev cache : Cache
cache = record {
  expiry_policy = some (record { creation = pos 1000000000; access = negsuc 1; update = negsuc 0 });
  name = 99 ∷ [];
  id = 99;
}

abbrev connected : State replying
connected = record {
  id_gen = 1;
  top_ver = 0;
  min_top_ver = 0;
  protocol_ctx = some (record { version = version_of 1 7 0; features = none });
  world = 0;
}

abbrev call : Call cli
call = call_get_and_put (uint32 5) (uint32 6)

abbrev outcome : Outcome replying marsh marsh_laws (Unit {0}) true start_seven finish_well call
outcome = result old_value []

small_fits : (n : ℕ) → n < 2 ^ 32 → marsh_laws.Fits (uint32 n)
unfolding IsInRange depth
small_fits n h = (h, omega arith)

text_fits : marsh_laws.Fits old_value
unfolding IsInRange depth
text_fits = (omega arith, omega arith)

run-answered_example : run cli (some session) cache call connected ≡ (
  ok old_value,
  with_topology replying (some (9, 1)) (record connected { id_gen = 2; world = 1 }),
)
unfolding supports compare_to encode le_bytes int64_of duration_to_millis canon
run-answered_example =
    run-answered replying marsh marsh_laws (Unit {0}) true start_seven finish_well (some session)
      cache call connected (some (9, 1)) outcome 1
      ((refl, small_fits 5 (omega arith)), (refl, small_fits 6 (omega arith))) refl refl
      (omega arith) (omega arith) (record { versions = (omega arith, omega arith); status = tt })
      text_fits refl

run-at_once_example :
    run cli none cache (call_get_and_put (uint32 5) nil) connected ≡ (err nil_value, connected)
run-at_once_example =
    run-at_once cli none cache (call_get_and_put (uint32 5) nil) (err nil_value) connected refl

-- A microsecond is cut to nothing.
millis_to_duration-IsCut_example :
    IsCut (pos 1000) (millis_to_duration (duration_to_millis (pos 1000)))
millis_to_duration-IsCut_example = millis_to_duration-IsCut (pos 1000) (omega arith)
