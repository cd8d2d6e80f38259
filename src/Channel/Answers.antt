-- ===== src/Channel/Answers.antt =====
-- The answers of a server, and what `send` of channel.go makes of them.
use mcgv.Base.{
  ℕ, ◌+◌, ◌%◌, ◌^◌, ◌≤◌, ◌<◌, ◌≡◌, ◌≢◌, refl, ◌∙◌, arith, true, false, Option, none, some,
}
use mcgv.Base.{List, [], ◌++◌, append_assoc, ok, length, leb, ==_refl, ==_false, String}
use mcgv.Base.Bytes.{le_bytes, length-le_bytes}
use mcgv.Base.Int.{signed}
use mcgv.Stream.Out.{Write, max_int32}
use mcgv.Stream.Out.Writes.{Emits}
use mcgv.Stream.In.{In, new_input_stream, read_size}
use mcgv.Stream.In.Reads.{
  Reads, Shows, advance, advance-Shows, new-Shows, bind_Reads, map_Reads, return-Reads,
  uint16_Reads, uint32_Reads, uint64_Reads,
}
use mcgv.Marshal.Canon.{IsLength}
use mcgv.Marshal.Reader.{unmarshal_string}
use mathlib.Core.Path.{subst}
use mcgv.Metadata.Wire.Sequences.{string_bytes, string_Reads}
use mcgv.Packet.Step.{frame}
use mcgv.Protocol.{ProtocolContext}
use mcgv.Request.{handshake_id}
use mcgv.Request.Framing.{head, new_request-frame}
use mcgv.Channel.{
  Network, State, Reply, input, failed, answered, client_server_error, check_flag, read_topology,
  read_status, server_failure, read_answer, after_wait, exchange, send0, send, request_id,
}

-- An answer: the versions of a new topology, the status and the message of an error, and the rest.
pub record Answer : Type 0 where
  pub topology : Option (ℕ × ℕ)
  pub failure : Option (ℕ × String)
  pub body : List ℕ

abbrev flags_of : {A B : Type 0} → Option A → Option B → ℕ
flags_of none none = 0
flags_of none (some f) = 1
flags_of (some t) none = 2
flags_of (some t) (some f) = 3

abbrev topology_bytes : Option (ℕ × ℕ) → List ℕ
topology_bytes none = []
topology_bytes (some (top, min_top)) = le_bytes 8 top ++ le_bytes 4 min_top

abbrev failure_bytes : Option (ℕ × String) → List ℕ
failure_bytes none = []
failure_bytes (some (status, message)) = le_bytes 4 status ++ string_bytes message

-- The packet that answers the request with that id.
abbrev pub answer_bytes : ℕ → Answer → List ℕ
answer_bytes id a =
    le_bytes 8 id
    ++ (le_bytes 2 (flags_of a.topology a.failure)
        ++ (topology_bytes a.topology ++ (failure_bytes a.failure ++ a.body)))

abbrev IsTopology : Option (ℕ × ℕ) → Type 0
IsTopology none = Unit
IsTopology (some (top, min_top)) = (top < 2 ^ 64) × (min_top < 2 ^ 32)

abbrev IsFailure : Option (ℕ × String) → Type 0
IsFailure none = Unit
IsFailure (some (status, message)) = (status < 2 ^ 32) × IsLength (length message)

-- The numbers fit their types.
pub record IsAnswer (a : Answer) : Type 0 where
  pub versions : IsTopology a.topology
  pub status : IsFailure a.failure

-- What the reader of the response is given: the input that shows the rest, or the error.
abbrev pub IsReply : Option (ℕ × String) → List ℕ → Reply → Type 0
IsReply none body reply = (i : In) × (reply ≡ input i) × Shows i body
IsReply (some (status, message)) body reply =
    reply ≡ failed (client_server_error message (signed 32 status))

module _ (net : Network) where
  -- The state after the answer.
  abbrev pub with_topology : Option (ℕ × ℕ) → State net → State net
  with_topology none s = s
  with_topology (some (top, min_top)) s = record s { top_ver = top; min_top_ver = min_top }

  topology_Reads :
      (t : Option (ℕ × ℕ)) (f : Option (ℕ × String)) (s : State net)
      → IsTopology t
      → Reads (read_topology net (flags_of t f) s) (topology_bytes t) (with_topology t s)
  unfolding read_topology check_flag
  topology_Reads none none s h = return-Reads s
  topology_Reads none (some f) s h = return-Reads s
  topology_Reads (some (top, m)) none s h =
      bind_Reads _ (uint64_Reads top h.0) (map_Reads _ _ _ _ (uint32_Reads m h.1))
  topology_Reads (some (top, m)) (some f) s h =
      bind_Reads _ (uint64_Reads top h.0) (map_Reads _ _ _ _ (uint32_Reads m h.1))

status_Reads : (n : ℕ) → n < 2 ^ 32 → Reads read_size (le_bytes 4 n) (signed 32 n)
unfolding read_size
status_Reads n h = map_Reads _ (signed 32) _ n (uint32_Reads n h)

small_flags : {A B : Type 0} (t : Option A) (f : Option B) → flags_of t f < 2 ^ 16
small_flags none none = omega arith
small_flags none (some f) = omega arith
small_flags (some t) none = omega arith
small_flags (some t) (some f) = omega arith

-- The status and the message of an error, read one after the other.
failure_lem :
    (n : ℕ) (m : String) (body : List ℕ) (i : In)
    → IsFailure (some (n, m))
    → Shows i (failure_bytes (some (n, m)) ++ body)
    → (read_size i ≡ ok (signed 32 n, advance 4 i))
      × (unmarshal_string (advance 4 i) ≡ ok (m, advance (length (string_bytes m)) (advance 4 i)))
failure_lem n m body i h shows =
    let shows' : Shows i (le_bytes 4 n ++ (string_bytes m ++ body)) = record {
      inside = shows.inside;
      left = shows.left ∙ append_assoc (le_bytes 4 n) _ _;
    } in
    let four = length-le_bytes 4 n in
    let next : Shows (advance 4 i) (string_bytes m ++ body) =
      subst (λ (k : ℕ). Shows (advance k i) (string_bytes m ++ body)) four
        (advance-Shows i (le_bytes 4 n) _ shows') in
    (
      subst (λ (k : ℕ). read_size i ≡ ok (signed 32 n, advance k i)) four
          ((status_Reads n h.0).result i _ shows'),
      (string_Reads m h.1).result (advance 4 i) body next,
    )

module _ (net : Network) where
  status_lem :
      (t : Option (ℕ × ℕ)) (f : Option (ℕ × String)) (body : List ℕ) (i : In)
      → IsFailure f
      → Shows i (failure_bytes f ++ body)
      → (reply : Reply) × (j : In) × (read_status net (flags_of t f) i ≡ ok (reply, j))
        × IsReply f body reply
  unfolding read_status check_flag server_failure
  status_lem none none body i h shows = (input i, i, refl, (i, refl, shows))
  status_lem (some t) none body i h shows = (input i, i, refl, (i, refl, shows))
  status_lem none (some (n, m)) body i h shows =
      let (e, e') = failure_lem n m body i h shows in
      (failed (client_server_error m (signed 32 n)), advance 4 i, rw (e, e') refl, refl)
  status_lem (some t) (some (n, m)) body i h shows =
      let (e, e') = failure_lem n m body i h shows in
      (failed (client_server_error m (signed 32 n)), advance 4 i, rw (e, e') refl, refl)

  read_answer_lem :
      (a : Answer) (id : ℕ) (s : State net)
      → IsAnswer a
      → id < 2 ^ 64
      → (reply : Reply) × (j : In) × (read_answer net id s (new_input_stream (answer_bytes id a) 0)
          ≡ ok ((reply, with_topology net a.topology s), j))
        × IsReply a.failure a.body reply
  unfolding read_answer
  read_answer_lem a id s h small =
      let i0 = new_input_stream (answer_bytes id a) 0 in
      let flags = flags_of a.topology a.failure in
      let s0 : Shows i0 (answer_bytes id a) = new-Shows _ in
      let i1 = advance (length (le_bytes 8 id)) i0 in
      let s1 = advance-Shows i0 (le_bytes 8 id) _ s0 in
      let i2 = advance (length (le_bytes 2 flags)) i1 in
      let s2 = advance-Shows i1 (le_bytes 2 flags) _ s1 in
      let i3 = advance (length (topology_bytes a.topology)) i2 in
      let s3 = advance-Shows i2 (topology_bytes a.topology) _ s2 in
      let (reply, j, e, is) = status_lem a.topology a.failure a.body i3 h.status s3 in
      (
        reply,
        j,
        rw
            (
              (uint64_Reads id small).result i0 _ s0,
              ==_refl id,
              (uint16_Reads flags (small_flags a.topology a.failure)).result i1 _ s1,
              (topology_Reads net a.topology a.failure s h.versions).result i2 _ s2,
              e,
            )
            refl,
        is,
      )

-- The rest of `send0` for a request of which the packet of an answer comes back.
module _ (net : Network) where
  open net use {World, is_closed, await}

  exchange_lem :
      (a : Answer) (id : ℕ) (bytes : List ℕ) (s : State net) (w : World)
      → IsAnswer a
      → id < 2 ^ 64
      → id ≢ handshake_id
      → await id bytes s.world ≡ (answered (answer_bytes id a), w)
      → (reply : Reply) × (exchange net id s (ok bytes)
          ≡ (reply, with_topology net a.topology (record s { world = w })))
        × IsReply a.failure a.body reply
  unfolding exchange after_wait
  exchange_lem a id bytes s w h small other e =
      let (reply, j, run, is) = read_answer_lem net a id (record s { world = w }) h small in
      (reply, rw (e, ==_false id handshake_id other, run) refl, is)

  -- If the connection is open, the request's writer appends `body`, the frame of the request fits a
  -- stream, and its packet is answered by an answer in range, then `send` leaves the versions of the
  -- topology that the answer announces, and gives its reader the input that shows the body of the
  -- answer, or else the status and the message of the error in it.
  pub send-answer :
      (op_code : ℕ) (request_writer : Option ProtocolContext → Write) (body : List ℕ)
      (s : State net) (a : Answer) (w : World)
      → is_closed s.world ≡ false
      → Emits (request_writer s.protocol_ctx) body
      → (s.id_gen + 1) % 2 ^ 64 ≢ handshake_id
      → 4 + length (head ((s.id_gen + 1) % 2 ^ 64) op_code ++ body) ≤ max_int32
      → IsAnswer a
      → await
          ((s.id_gen + 1) % 2 ^ 64)
          (frame (head ((s.id_gen + 1) % 2 ^ 64) op_code ++ body))
          s.world
        ≡ (answered (answer_bytes ((s.id_gen + 1) % 2 ^ 64) a), w)
      → (reply : Reply) × (send net op_code request_writer s ≡ (
        reply,
        with_topology net a.topology (record s { id_gen = (s.id_gen + 1) % 2 ^ 64; world = w }),
      ))
        × IsReply a.failure a.body reply
  unfolding send send0 request_id
  send-answer op_code request_writer body s a w open_now emits other small h e =
      let id = (s.id_gen + 1) % 2 ^ 64 in
      let bytes = head id op_code ++ body in
      let request = new_request-frame id op_code (request_writer s.protocol_ctx) body emits in
      let fits : leb (4 + length bytes) max_int32 ≡ true = ground arith in
      let (reply, run, is) =
        exchange_lem a id (frame bytes) (record s { id_gen = id }) w h (omega arith) other e in
      (reply, rw (open_now, request, fits) run, is)
