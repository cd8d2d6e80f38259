-- ===== src/Marshal/Writes.antt =====
-- `marshal` (marshaller.go) writes the wire format, and nothing else.
use mcgv.Base.{ℕ, List, [], ◌∷◌}
use mcgv.Base.{Option, none, some, length, arith}
use mcgv.Stream.Types.{little}
use mcgv.Stream.Out.{Write}
use mcgv.Stream.Out.Writes.{
  ◌⊳◌, Emits, skip_Emits, write_bytes-Emits, write_bool-Emits, write_uint8-Emits,
  write_uint16-Emits, write_uint32-Emits, write_uint64-Emits, write_type-Emits,
}
use mcgv.Stream.Out.Slices.{write_slice-Emits}
use mcgv.Marshal.Types.{null_type, code}
use mcgv.Marshal.Types.{Scalar, string, uuid, time, date, ScalarType, element_type}
use mcgv.Marshal.Types.{
  Payload, nil, null_of, bool, uint8, int8, uint16, int16, uint32, int32, uint, int, uint64, int64,
  float32, float64, slice, bytes, scalar, typed_array, object_array, collection, map, optimized,
  other,
}
use mcgv.Marshal.Types.{Payloads, end, item, Entries, done, entry}
use mcgv.Marshal.Writer.{
  int32_of, write_null, write_counted, write_scalar, write_elements, marshal, marshal_items,
  marshal_entries,
}
use mcgv.Marshal.Encoding.{
  counted, encode_scalar, encode_elements, encode, encode_items, encode_entries, IsCovered,
  AreCovered, EntriesCovered,
}

counted-Emits : (v : List ℕ) → Emits (write_counted v) (counted v)
unfolding write_counted
counted-Emits v = write_uint32-Emits (int32_of (length v)) ⊳ write_bytes-Emits v

scalar_Emits : (v : Scalar) → Emits (write_scalar v) (encode_scalar v)
unfolding write_scalar
scalar_Emits (string v) = counted-Emits v
scalar_Emits (uuid v) = write_uint64-Emits _ ⊳ write_uint64-Emits _
scalar_Emits (time v) = write_uint64-Emits v
scalar_Emits (date v) = write_uint64-Emits v

null_Emits : Emits write_null (code null_type ∷ [])
unfolding write_null
null_Emits = write_type-Emits (code null_type)

elements_Emits :
    (t : ScalarType) (v : List (Option Scalar)) → Emits (write_elements t v) (encode_elements t v)
unfolding write_elements
elements_Emits t [] = skip_Emits
elements_Emits t (none ∷ els) = null_Emits ⊳ elements_Emits t els
elements_Emits t (some el ∷ els) =
    write_type-Emits (code (element_type t)) ⊳ scalar_Emits el ⊳ elements_Emits t els

module _ (write_other : ℕ → Write) where
  mutual
    unfolding marshal marshal_items marshal_entries encode encode_items encode_entries IsCovered
        AreCovered EntriesCovered

    emits : (p : Payload) → IsCovered p → Emits (marshal little write_other p) (encode p)
    emits nil h = null_Emits
    emits (null_of k) h = null_Emits
    emits (bool v) h = write_type-Emits _ ⊳ write_bool-Emits v
    emits (uint8 v) h = write_type-Emits _ ⊳ write_uint8-Emits v
    emits (int8 v) h = write_type-Emits _ ⊳ write_uint8-Emits v
    emits (uint16 v) h = write_type-Emits _ ⊳ write_uint16-Emits v
    emits (int16 v) h = write_type-Emits _ ⊳ write_uint16-Emits v
    emits (uint32 v) h = write_type-Emits _ ⊳ write_uint32-Emits v
    emits (int32 v) h = write_type-Emits _ ⊳ write_uint32-Emits v
    emits (uint v) h = write_type-Emits _ ⊳ write_uint64-Emits v
    emits (int v) h = write_type-Emits _ ⊳ write_uint64-Emits v
    emits (uint64 v) h = write_type-Emits _ ⊳ write_uint64-Emits v
    emits (int64 v) h = write_type-Emits _ ⊳ write_uint64-Emits v
    emits (float32 v) h = write_type-Emits _ ⊳ write_uint32-Emits v
    emits (float64 v) h = write_type-Emits _ ⊳ write_uint64-Emits v
    emits (slice el []) h = absurd (omega arith)
    emits (slice el (v ∷ vs)) h =
        write_type-Emits _ ⊳ write_uint32-Emits _ ⊳ write_slice-Emits el v vs
    emits (bytes v) h = write_type-Emits _ ⊳ counted-Emits v
    emits (scalar v) h = write_type-Emits _ ⊳ scalar_Emits v
    emits (typed_array t v) h = write_type-Emits _ ⊳ write_uint32-Emits _ ⊳ elements_Emits t v
    emits (object_array v) h =
        write_type-Emits _ ⊳ write_uint32-Emits _ ⊳ write_uint32-Emits _ ⊳ items_emit v h
    emits (collection kind v) h =
        write_type-Emits _ ⊳ write_uint32-Emits _ ⊳ write_uint8-Emits kind ⊳ items_emit v h
    emits (map kind v) h =
        write_type-Emits _ ⊳ write_uint32-Emits _ ⊳ write_uint8-Emits kind ⊳ entries_emit v h
    emits (optimized v) h = write_type-Emits _ ⊳ counted-Emits v
    emits (other n) h = absurd h

    items_emit :
        (vs : Payloads)
        → AreCovered vs
        → Emits (marshal_items little write_other vs) (encode_items vs)
    items_emit end h = skip_Emits
    items_emit (item v vs) h = emits v h.0 ⊳ items_emit vs h.1

    entries_emit :
        (es : Entries)
        → EntriesCovered es
        → Emits (marshal_entries little write_other es) (encode_entries es)
    entries_emit done h = skip_Emits
    entries_emit (entry k v es) h = emits k h.0 ⊳ emits v h.1 ⊳ entries_emit es h.2

  -- For a payload in which no primitive slice is empty and no part lies outside the model, at any depth,
  -- `marshal` on a little-endian machine appends exactly the wire format of the payload, or panics if
  -- that does not fit the stream.
  pub marshal-Emits : (p : Payload) → IsCovered p → Emits (marshal little write_other p) (encode p)
  marshal-Emits p h = emits p h
