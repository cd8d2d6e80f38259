-- ===== src/Request.antt =====
-- `newRequest` of channel.go: a request, with its size before it. An `opCode` and an id are the bit
-- patterns of an int16 and an int64.
pub mod Framing
mod Tests
use mcgv.Base.{ℕ, ◌+◌, ◌-◌, ◌%◌, ◌^◌, List, Result, ok, ◌>>=◌, ◌==◌, if◌then◌else◌}
use mcgv.Stream.Types.{Error}
use mcgv.Stream.Out.{
  Out, Write, ◌▸◌, new_output_stream, contents, set_position, write_uint16, write_uint32,
  write_uint64,
}

-- The id of the handshake, -1.
abbrev pub handshake_id : ℕ
handshake_id = 2 ^ 64 - 1

-- The code of the operation and the id, which the handshake has not.
unfoldable pub write_head : ℕ → ℕ → Write
write_head id op_code = if id == handshake_id then ok else (write_uint16 op_code ▸ write_uint64 id)

-- The end of `newRequest`: `int32(currPosition - intBytes)` at the front, and the position restored.
unfoldable pub write_size : Write
unfolding set_position
write_size s = write_uint32 ((s.position + 2 ^ 32 - 4) % 2 ^ 32) (set_position 0 s) >>= λ s'.
    ok (set_position s.position s')

-- `newRequest`: the data of the request that `request_writer` writes.
unfoldable pub new_request : ℕ → ℕ → Write → Result Error (List ℕ)
unfolding write_head write_size
new_request id op_code request_writer =
    (write_uint32 0 ▸ write_head id op_code ▸ request_writer ▸ write_size) (new_output_stream 64)
    >>= λ s. ok (contents s)
