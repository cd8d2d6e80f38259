-- ===== src/Stream/In.antt =====
-- `binaryInputStreamImpl` of buffer.go, and the readers of marshaller.go that only check and read.
-- Reading outside the buffer panics. A size is an `int`, so it may be negative.
pub mod Reads
use mcgv.Base.{ℕ, zero, suc, ◌+◌, ◌-◌, ◌*◌, Bool, true, false, List, [], ◌∷◌, ◌++◌}
use mcgv.Base.{leb, ltb, ◌==◌, if◌then◌else◌, length, take, drop, replicate}
use mcgv.Base.{Result, ok, err, panic, ◌>>=◌, ◌>>◌, guard}
use mcgv.Base.Bytes.{of_le}
use mcgv.Base.Int.{ℤ, pos, negsuc, signed}
use mcgv.Stream.Types.{
  Error, invalid_stream, Elem, bools, int8s, elem_bytes, is_little_endian, Host, of_memory,
}

pub record In : Type 0 where
  pub buffer : List ℕ
  pub position : ℕ

-- A read returns its value and the stream after it.
abbrev pub Read {ℓ} : Type ℓ → Type ℓ
Read A = In → Result Error (A × In)

infixl 4 ◌>>>◌
abbrev pub ◌>>>◌ {ℓ κ} : {A : Type ℓ} {B : Type κ} → Read A → (A → Read B) → Read B
◌>>>◌ m f s = m s >>= λ (a, s'). f a s'

abbrev pub return {ℓ} : {A : Type ℓ} → A → Read A
return a s = ok (a, s)

-- `NewBinaryInputStream`
unfoldable pub new_input_stream : List ℕ → ℕ → In
new_input_stream buffer offset = record { buffer = buffer; position = offset }

-- `SetPosition`
unfoldable pub set_position : ℤ → In → Result Error In
set_position (negsuc k) s = panic
set_position (pos p) s = if ltb (length s.buffer) p then panic else ok (record s { position = p })

-- `n` bytes at the position, as a little-endian number.
unfoldable pub read_le : ℕ → Read ℕ
read_le n s =
    if leb (s.position + n) (length s.buffer)
    then ok (of_le (take n (drop s.position s.buffer)), record s { position = s.position + n })
    else panic

-- `ReadBool`: true only for the byte 1.
unfoldable pub read_bool : Read Bool
unfolding read_le
read_bool = read_le 1 >>> λ b. return (b == 1)

-- `ReadUInt8` and `ReadInt8`
unfoldable pub read_uint8 : Read ℕ
unfolding read_le
read_uint8 = read_le 1

unfoldable pub read_uint16 : Read ℕ
unfolding read_le
read_uint16 = read_le 2

unfoldable pub read_uint32 : Read ℕ
unfolding read_le
read_uint32 = read_le 4

unfoldable pub read_uint64 : Read ℕ
unfolding read_le
read_uint64 = read_le 8

-- `int(reader.ReadInt32())`
unfoldable pub read_size : Read ℤ
unfolding read_uint32
read_size = read_uint32 >>> λ n. return (signed 32 n)

-- `ReadBytes`: as many as there are, padded with zeros to `size`.
unfoldable pub read_bytes : ℤ → Read (List ℕ)
read_bytes (negsuc k) s = panic
read_bytes (pos size) s =
    if ltb (length s.buffer) s.position
    then panic
    else let found = take size (drop s.position s.buffer) in
      ok (
        found ++ replicate (size - length found) 0,
        record s { position = s.position + length found },
      )

-- The memory of `size` elements of `n` bytes.
pub elements : Host → ℕ → ℕ → List ℕ → List ℕ
elements host n zero bytes = []
elements host n (suc size) bytes =
    of_memory host (take n bytes) ∷ elements host n size (drop n bytes)

-- `readPrimitiveSliceFast`: `&ret[0]` panics for the size 0. The buffer has no capacity beyond its
-- length, as that of a packet, which `make` makes.
unfoldable pub read_primitive_slice_fast : Host → ℕ → ℤ → Read (List ℕ)
unfolding elements
read_primitive_slice_fast host n (negsuc k) s = panic
read_primitive_slice_fast host n (pos zero) s = panic
read_primitive_slice_fast host n (pos (suc size)) s =
    if leb (s.position + suc size * n) (length s.buffer)
    then ok (
      elements host n (suc size) (drop s.position s.buffer),
      record s { position = s.position + suc size * n },
    )
    else panic

-- The loop of the other branch.
unfoldable pub read_each : ℕ → ℕ → Read (List ℕ)
unfolding read_le
read_each n zero = return []
read_each n (suc size) = read_le n >>> λ v. read_each n size >>> λ vs. return (v ∷ vs)

read_loop : ℕ → ℤ → Read (List ℕ)
unfolding read_each
read_loop n (negsuc k) s = panic
read_loop n (pos size) s = read_each n size s

-- `ReadBoolSlice` to `ReadFloat64Slice`
unfoldable pub read_slice : Host → Elem → ℤ → Read (List ℕ)
unfolding read_primitive_slice_fast read_loop is_little_endian
read_slice host bools size = read_primitive_slice_fast host 1 size
read_slice host int8s size = read_primitive_slice_fast host 1 size
read_slice host el size =
    if is_little_endian
    then read_primitive_slice_fast host (elem_bytes el) size
    else read_loop (elem_bytes el) size

-- `ensureAvailable`: an error unless that many bytes are left.
unfoldable pub ensure_available : ℤ → In → Result Error (Unit {0})
ensure_available (pos n) s = guard (leb (s.position + n) (length s.buffer)) invalid_stream
ensure_available (negsuc k) s = guard (leb s.position (length s.buffer + suc k)) invalid_stream

-- `if err := ensureAvailable(reader, n); err != nil { return nil, err }`, and on.
abbrev pub with_room {ℓ} : {A : Type ℓ} → ℤ → Read A → Read A
with_room n m s = ensure_available n s >> m s
