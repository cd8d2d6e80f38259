-- ===== src/Marshal/Writer.antt =====
-- `marshal` of marshaller.go and its helpers.
use mcgv.Base.{ℕ, ◌%◌, ◌^◌, ◌-◌, List, [], ◌∷◌, Option, none, some, ok, length, take, drop}
use mcgv.Base.Bytes.{of_le}
use mcgv.Stream.Types.{Host}
use mcgv.Stream.Out.{
  Write, ◌▸◌, write_bytes, write_bool, write_uint8, write_uint16, write_uint32, write_uint64,
  write_type, write_slice,
}
use mcgv.Marshal.Types.{
  byte_type, short_type, int_type, long_type, float_type, double_type, char_type, bool_type,
  byte_array_type, object_array_type, collection_type, map_type, null_type,
  optimized_marshaller_object_type, string_type, code,
}
use mcgv.Marshal.Types.{
  Scalar, string, uuid, time, date, ScalarType, element_type, array_of, scalar_type, slice_type,
}
use mcgv.Marshal.Types.{
  Payload, nil, null_of, bool, uint8, int8, uint16, int16, uint32, int32, uint, int, uint64, int64,
  float32, float64, slice, bytes, scalar, typed_array, object_array, collection, map, optimized,
  other,
}
use mcgv.Marshal.Types.{Payloads, end, item, Entries, done, entry, count_items, count_entries}
use mathlib.Core.List.{reverse}

-- `int32(n)` of a length.
abbrev pub int32_of : ℕ → ℕ
int32_of n = n % 2 ^ 32

-- `WriteNull`
unfoldable pub write_null : Write
write_null = write_type (code null_type)

-- `writeString`, `marshalByteArray` without its type, and the payload of `OptimizedMarshallerObject`.
unfoldable pub write_counted : List ℕ → Write
write_counted v = write_uint32 (int32_of (length v)) ▸ write_bytes v

-- `marshalString`
unfoldable pub marshal_string : List ℕ → Write
unfolding write_counted
marshal_string name = write_type (code string_type) ▸ write_counted name

-- `binary.BigEndian.Uint64`
abbrev pub of_big_endian : List ℕ → ℕ
of_big_endian buf = of_le (reverse buf)

-- `writeUuid`
unfoldable pub write_uuid : List ℕ → Write
write_uuid v =
    write_uint64 (of_big_endian (take 8 v)) ▸ write_uint64 (of_big_endian (take 8 (drop 8 v)))

-- `writeString`, `writeUuid`, `writeTime` and `writeDate`
unfoldable pub write_scalar : Scalar → Write
unfolding write_counted write_uuid
write_scalar (string v) = write_counted v
write_scalar (uuid v) = write_uuid v
write_scalar (time v) = write_uint64 v
write_scalar (date v) = write_uint64 v

-- The loop of `writeIgniteTypedArrayP`
unfoldable pub write_elements : ScalarType → List (Option Scalar) → Write
unfolding write_null
write_elements t [] = ok
write_elements t (none ∷ els) = write_null ▸ write_elements t els
write_elements t (some el ∷ els) =
    write_type (code (element_type t)) ▸ write_scalar el ▸ write_elements t els

-- What the machine and the code outside the model contribute.
module _ (host : Host) (write_other : ℕ → Write) where
  unfoldable mutual
    pub marshal : Payload → Write
    marshal nil = write_null
    marshal (null_of k) = write_null
    marshal (bool v) = write_type (code bool_type) ▸ write_bool v
    marshal (uint8 v) = write_type (code byte_type) ▸ write_uint8 v
    marshal (int8 v) = write_type (code byte_type) ▸ write_uint8 v
    marshal (uint16 v) = write_type (code char_type) ▸ write_uint16 v
    marshal (int16 v) = write_type (code short_type) ▸ write_uint16 v
    marshal (uint32 v) = write_type (code int_type) ▸ write_uint32 v
    marshal (int32 v) = write_type (code int_type) ▸ write_uint32 v
    marshal (uint v) = write_type (code long_type) ▸ write_uint64 v
    marshal (int v) = write_type (code long_type) ▸ write_uint64 v
    marshal (uint64 v) = write_type (code long_type) ▸ write_uint64 v
    marshal (int64 v) = write_type (code long_type) ▸ write_uint64 v
    marshal (float32 v) = write_type (code float_type) ▸ write_uint32 v
    marshal (float64 v) = write_type (code double_type) ▸ write_uint64 v
    marshal (slice el v) =
        write_type (code (slice_type el))
        ▸ write_uint32 (int32_of (length v))
        ▸ write_slice host el v
    marshal (bytes v) = write_type (code byte_array_type) ▸ write_counted v
    marshal (scalar v) = write_type (code (element_type (scalar_type v))) ▸ write_scalar v
    marshal (typed_array t v) =
        write_type (code (array_of t)) ▸ write_uint32 (int32_of (length v)) ▸ write_elements t v
    marshal (object_array v) =
        write_type (code object_array_type)
        ▸ write_uint32 (2 ^ 32 - 1)
        ▸ write_uint32 (int32_of (count_items v))
        ▸ marshal_items v
    marshal (collection kind v) =
        write_type (code collection_type)
        ▸ write_uint32 (int32_of (count_items v))
        ▸ write_uint8 kind
        ▸ marshal_items v
    marshal (map kind v) =
        write_type (code map_type)
        ▸ write_uint32 (int32_of (count_entries v))
        ▸ write_uint8 kind
        ▸ marshal_entries v
    marshal (optimized v) = write_type (code optimized_marshaller_object_type) ▸ write_counted v
    marshal (other n) = write_other n

    -- The loops of `writeSequence` and `writeSequenceWithKind`.
    pub marshal_items : Payloads → Write
    marshal_items end = ok
    marshal_items (item v vs) = marshal v ▸ marshal_items vs

    pub marshal_entries : Entries → Write
    marshal_entries done = ok
    marshal_entries (entry k v es) = marshal k ▸ marshal v ▸ marshal_entries es
