-- ===== src/Channel.antt =====
-- channel.go: a request on one connection and what its response reader is given (`tcpChannel.send`).
-- What happens to the request between its registration and the end of the wait is the interface
-- `Network`; the goroutines that end the wait are in Pending.
pub mod Answers
pub mod Pending
mod Tests
use mcgv.Base.{
  ℕ, ◌+◌, ◌%◌, ◌^◌, Bool, true, false, not, Option, none, some, List, Result, ok, err, panic, stuck,
}
use mcgv.Base.{◌==◌, if◌then◌else◌, bit_and, String}
use mcgv.Base.Int.{ℤ, signed}
use mcgv.Stream.Types.{Error}
use mcgv.Stream.Out.{Write}
use mcgv.Stream.In.{
  In, Read, ◌>>>◌, return, new_input_stream, read_uint16, read_uint32, read_uint64, read_size,
}
use mcgv.Marshal.Reader.{unmarshal_string}
use mcgv.Protocol.{ProtocolContext}
use mcgv.Request.{handshake_id, new_request}

-- The types of errors that the code makes, and an error of the request's writer.
pub data ChannelError : Type 0 where
  client_error client_connection_error client_timeout_error : ChannelError
  client_server_error : String → ℤ → ChannelError
  writer_failed : Error → ChannelError

-- What a response reader is given, or a panic on the way to it. The input beside an error is left out.
pub data Reply : Type 0 where
  input : In → Reply
  failed : ChannelError → Reply
  panicked : Reply

-- How the wait of `send0` ends: the context is done, or the channel is, and then whether `closeErr` is
-- set; or the request itself is done, with an error or a packet.
pub data Waited : Type 0 where
  cancelled closed : Bool → Waited
  request_failed : ChannelError → Waited
  answered : List ℕ → Waited

pub record Network : Type 1 where
  pub World : Type 0
  -- `ch.closed`
  pub is_closed : World → Bool
  -- the wait for the request with that id and that data
  pub await : ℕ → List ℕ → World → Waited × World

-- `processCloseError`
unfoldable pub process_close_error : Bool → Bool → ChannelError
process_close_error is_timeout close_err =
    if close_err
    then client_connection_error
    else if is_timeout
    then client_timeout_error
    else client_error

abbrev pub error_flag : ℕ
error_flag = 1

abbrev pub affinity_topology_changed_flag : ℕ
affinity_topology_changed_flag = 2

-- `checkFlag`
unfoldable pub check_flag : ℕ → ℕ → Bool
check_flag flags flag = not (bit_and flags flag == 0)

module _ (net : Network) where
  open net use {World, is_closed, await}

  -- The fields of `tcpChannel` that requests change, and the network. `id_gen`, `top_ver` and
  -- `min_top_ver` are bit patterns.
  pub record State : Type 0 where
    pub id_gen : ℕ
    pub top_ver : ℕ
    pub min_top_ver : ℕ
    pub protocol_ctx : Option ProtocolContext
    pub world : World

  -- The topology in the head of an answer.
  unfoldable pub read_topology : ℕ → State → Read State
  unfolding check_flag
  read_topology flags s =
      if check_flag flags affinity_topology_changed_flag
      then (read_uint64 >>> λ top.
          read_uint32 >>> λ min_top. return (record s { top_ver = top; min_top_ver = min_top }))
      else return s

  -- The reply for a status code and for what `unmarshalString` returned.
  unfoldable pub server_failure : ℤ → Result Error (String × In) → Reply
  server_failure status (ok (message, s)) = failed (client_server_error message status)
  server_failure status (err e) = failed client_connection_error
  server_failure status panic = panicked
  server_failure status stuck = panicked

  -- The status and the error message in the head of an answer, or else the input itself.
  unfoldable pub read_status : ℕ → Read Reply
  unfolding check_flag server_failure
  read_status flags =
      if check_flag flags error_flag
      then (read_size >>> λ status. λ s. ok (server_failure status (unmarshal_string s), s))
      else λ s. ok (input s, s)

  -- An answer: the id of the request, or a panic; the flags; and what they announce.
  unfoldable pub read_answer : ℕ → State → Read (Reply × State)
  unfolding read_topology read_status
  read_answer id s = read_uint64 >>> λ res_id.
      if res_id == id
      then (read_uint16 >>> λ flags.
          read_topology flags s >>> λ s'. read_status flags >>> λ reply. return (reply, s'))
      else λ inp. panic

  abbrev pub reply_or_panic : State → Result Error ((Reply × State) × In) → Reply × State
  reply_or_panic s (ok (r, i)) = r
  reply_or_panic s _ = (panicked, s)

  -- The end of `send0`, by how the wait ended.
  unfoldable pub after_wait : ℕ → State → Waited → Reply × State
  unfolding process_close_error read_answer new_input_stream
  after_wait id s (cancelled close_err) = (failed (process_close_error true close_err), s)
  after_wait id s (closed close_err) = (failed (process_close_error false close_err), s)
  after_wait id s (request_failed e) = (failed e, s)
  after_wait id s (answered packet) =
      let inp = new_input_stream packet 0 in
      if id == handshake_id then (input inp, s) else reply_or_panic s (read_answer id s inp)

  -- The rest of `send0`, from what `newRequest` returned.
  unfoldable pub exchange : ℕ → State → Result Error (List ℕ) → Reply × State
  unfolding after_wait
  exchange id s (ok bytes) =
      let (waited, w) = await id bytes s.world in after_wait id (record s { world = w }) waited
  exchange id s (err e) = (failed (writer_failed e), s)
  exchange id s panic = (panicked, s)
  exchange id s stuck = (panicked, s)

  -- `send0`
  unfoldable pub send0 : ℕ → ℕ → (Option ProtocolContext → Write) → State → Reply × State
  unfolding exchange new_request
  send0 id op_code request_writer s =
      if is_closed s.world
      then (failed client_connection_error, s)
      else exchange id s (new_request id op_code (request_writer s.protocol_ctx))

  -- `requestId`: the next id, of 64 bits.
  unfoldable pub request_id : State → ℕ × State
  request_id s = let id = (s.id_gen + 1) % 2 ^ 64 in (id, record s { id_gen = id })

  -- `send`
  unfoldable pub send : ℕ → (Option ProtocolContext → Write) → State → Reply × State
  unfolding send0 request_id
  send op_code request_writer s = let (id, s') = request_id s in send0 id op_code request_writer s'
