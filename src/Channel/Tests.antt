-- ===== src/Channel/Tests.antt =====
-- Runs of one connection of channel.go, and the theorems at concrete inputs.
use mcgv.Base.{ℕ, ◌+◌, ◌≡◌, refl, arith, true, false, List, [], ◌∷◌, none, some, ok}
use mcgv.Base.Bytes.{le_bytes, of_le}
use mcgv.Stream.Out.{write_uint64}
use mcgv.Stream.Out.Writes.{write_uint64-Emits}
use mcgv.Stream.In.{new_input_stream, read_uint64}
use mcgv.Channel.{Network, State, Reply, answered, send}
use mcgv.Channel.Answers.{Answer, IsAnswer, answer_bytes, with_topology, IsReply, send-answer}
use mcgv.Channel.Pending.{
  Request, Shared, Reachable, start, next, by_sender, by_reader, register, load, write_response,
  clear_error, close_answered, new_shared, response_id, change,
}
use mcgv.Channel.Pending.Safe.{done-HasAnswer}

-- An answer with a new topology and an error of the server: status 1001, "no".
abbrev refusal : Answer
refusal = record { topology = some (5, 2); failure = some (1001, 110 ∷ 111 ∷ []); body = [] }

-- A server that refuses every request, and counts them.
abbrev refusing : Network
refusing = record {
  World = ℕ;
  is_closed = λ w. false;
  await = λ id bytes w. (answered (answer_bytes id refusal), w + 1);
}

abbrev fresh_channel : State refusing
fresh_channel = record { id_gen = 1; top_ver = 0; min_top_ver = 0; protocol_ctx = none; world = 0 }

refusal-IsAnswer : IsAnswer refusal
refusal-IsAnswer = record {
  versions = (omega arith, omega arith);
  status = (omega arith, omega arith);
}

send-answer_example :
    (reply : Reply) × (send refusing 2001 (λ c. write_uint64 5) fresh_channel ≡ (
      reply,
      with_topology refusing refusal.topology (record fresh_channel { id_gen = 2; world = 1 }),
    ))
    × IsReply refusal.failure refusal.body reply
unfolding le_bytes
send-answer_example =
    send-answer refusing 2001 (λ c. write_uint64 5) (le_bytes 8 5) fresh_channel refusal 1 refl
      (write_uint64-Emits 5) (omega arith) (omega arith) refusal-IsAnswer refl

-- A request with id 2 is registered, and answered.
abbrev packet_two : List ℕ
packet_two = 2 ∷ 0 ∷ 0 ∷ 0 ∷ 0 ∷ 0 ∷ 0 ∷ 0 ∷ 0 ∷ 0 ∷ []

starts_with_two : response_id packet_two ≡ some 2
unfolding response_id of_le
starts_with_two = refl

abbrev one_request : Request
one_request = record { response = some packet_two; failed = false; done = true }

answered_two : (s : Shared) × Reachable s × (s.requests 2 ≡ some one_request)
unfolding change
answered_two =
    let s1 = next _ _ start (by_sender _ _ (register 2 new_shared refl)) in
    let s2 = next _ _ s1 (by_reader _ _ (load 2 packet_two _ refl starts_with_two refl)) in
    let s3 = next _ _ s2 (by_reader _ _ (write_response 2 packet_two _ refl)) in
    let s4 = next _ _ s3 (by_reader _ _ (clear_error 2 _ refl)) in
    let s5 = next _ _ s4 (by_reader _ _ (close_answered 2 _ refl)) in (_, s5, refl)

done-HasAnswer_example :
    (packet : List ℕ) × (one_request.response ≡ some packet)
    × (read_uint64 (new_input_stream packet 0)
        ≡ ok (2, record (new_input_stream packet 0) { position = 8 }))
done-HasAnswer_example =
    done-HasAnswer answered_two.0 2 one_request answered_two.1 answered_two.2 refl refl
