-- ===== src/Stream/Out.antt =====
-- `binaryOutputStreamImpl` of buffer.go. Positions are never negative here, and a number is the bit
-- pattern of its Go type, so a conversion between a signed and an unsigned type of one width is the
-- identity. A write panics if the buffer would pass 2 ^ 31 - 1 bytes.
pub mod Writes
pub mod Slices
use mcgv.Base.{
  ℕ, zero, suc, ◌+◌, ◌-◌, ◌*◌, ◌%◌, ◌^◌, Bool, true, false, ◌&&◌, List, [], ◌∷◌, ◌++◌, map,
}
use mcgv.Base.{ltb, leb, if◌then◌else◌, length, take, drop, replicate, arith, ◌||◌}
use mcgv.Base.{Result, ok, err, panic, stuck, ◌>>=◌}
use mcgv.Base.Bytes.{le_bytes}
use mcgv.Stream.Types.{Error, Elem, bools, int8s, elem_bytes, is_little_endian, Host, memory_image}
use mcgv.Hash.{slice_hash_code}

pub record Out : Type 0 where
  pub buffer : List ℕ
  pub position : ℕ

-- A write returns the stream after it.
abbrev pub Write : Type 0
Write = Out → Result Error Out

-- One write, then another.
infixr 4 ◌▸◌
abbrev pub ◌▸◌ : Write → Write → Write
◌▸◌ w w' s = w s >>= w'

-- `NewBinaryOutputStream`
unfoldable pub new_output_stream : ℕ → Out
new_output_stream n = record { buffer = replicate n 0; position = 0 }

unfoldable pub contents : Out → List ℕ
contents s = take s.position s.buffer

-- `Slice`: `buffer[offset:limit]`. Every buffer is made by `make`, so its capacity is its length.
unfoldable pub slice : Out → ℕ → ℕ → Result Error (List ℕ)
slice s offset limit =
    if leb offset limit && leb limit (length s.buffer)
    then ok (take (limit - offset) (drop offset s.buffer))
    else panic

unfoldable pub set_position : ℕ → Out → Out
set_position pos s = record s { position = pos }

abbrev pub max_int32 : ℕ
max_int32 = 2 ^ 31 - 1

unfoldable pub ensure_available : ℕ → Write
ensure_available size s =
    if ltb max_int32 (s.position + size)
    then panic
    else if ltb (length s.buffer) (s.position + size)
    then ok (record s { buffer = s.buffer ++ replicate (s.position + size - length s.buffer) 0 })
    else ok s

-- `copy(buffer[position:], bytes); position += len(bytes)`, where the room is ensured.
unfoldable pub put : List ℕ → Out → Out
put bytes s = record s {
  buffer = take s.position s.buffer ++ (bytes ++ drop (s.position + length bytes) s.buffer);
  position = s.position + length bytes;
}

-- `WriteBytes`
unfoldable pub write_bytes : List ℕ → Write
unfolding put
write_bytes v s = ensure_available (length v) s >>= λ s'. ok (put v s')

unfoldable pub write_bool : Bool → Write
unfolding put
write_bool v s = ensure_available 1 s >>= λ s'. ok (put ((if v then 1 else 0) ∷ []) s')

-- `WriteUInt8` and `WriteInt8`
unfoldable pub write_uint8 : ℕ → Write
unfolding put
write_uint8 v s = ensure_available 1 s >>= λ s'. ok (put (v ∷ []) s')

-- `WriteUInt16` and `WriteInt16`
unfoldable pub write_uint16 : ℕ → Write
unfolding put
write_uint16 v s = ensure_available 2 s >>= λ s'. ok (put (le_bytes 2 v) s')

-- `WriteUInt32` and `WriteInt32`; `WriteFloat32` writes the bits of its argument this way.
unfoldable pub write_uint32 : ℕ → Write
unfolding put
write_uint32 v s = ensure_available 4 s >>= λ s'. ok (put (le_bytes 4 v) s')

-- `WriteUInt64` and `WriteInt64`; `WriteFloat64` writes the bits of its argument this way.
unfoldable pub write_uint64 : ℕ → Write
unfolding put
write_uint64 v s = ensure_available 8 s >>= λ s'. ok (put (le_bytes 8 v) s')

-- `WriteType`: `int8(typ)`, the byte of a type descriptor.
unfoldable pub write_type : ℕ → Write
unfolding write_uint8
write_type t = write_uint8 t

-- `writePrimitiveSliceFast`: the memory of the slice. `&val[0]` panics on an empty slice.
unfoldable pub write_primitive_slice_fast : Host → ℕ → List ℕ → Write
unfolding put
write_primitive_slice_fast host n [] s = panic
write_primitive_slice_fast host n (v ∷ vs) s =
    ensure_available (length (v ∷ vs) * n) s >>= λ s'. ok (put (memory_image host n (v ∷ vs)) s')

-- The loop of the other branch, element by element.
unfoldable pub write_each : ℕ → List ℕ → Write
write_each n [] s = ok s
write_each n (v ∷ vs) s =
    ((λ r. ensure_available n r >>= λ r'. ok (put (le_bytes n v) r')) ▸ write_each n vs) s

-- `WriteBoolSlice` to `WriteFloat64Slice`
unfoldable pub write_slice : Host → Elem → List ℕ → Write
unfolding write_primitive_slice_fast write_each is_little_endian
write_slice host bools vs = write_primitive_slice_fast host 1 vs
write_slice host int8s vs = write_primitive_slice_fast host 1 vs
write_slice host el vs =
    if is_little_endian
    then write_primitive_slice_fast host (elem_bytes el) vs
    else write_each (elem_bytes el) vs

-- `HashCode`
unfoldable pub hash_code : Out → ℕ → ℕ → Result Error ℕ
hash_code s start end =
    if ltb (length s.buffer) start || ltb (length s.buffer) end || ltb end start
    then panic
    else ok (slice_hash_code (take (end - start) (drop start s.buffer)))
