-- ===== src/Marshal/Encoding.antt =====
-- The wire format as a function into bytes, and that `marshal` (marshaller.go) writes it.
use mcgv.Base.{ℕ, ◌-◌, ◌^◌, ◌≤◌, List, [], ◌∷◌, ◌++◌}
use mcgv.Base.{Option, none, some, length, take, drop, if◌then◌else◌}
use mcgv.Base.Bytes.{le_bytes}
use mcgv.Stream.Types.{elem_bytes}
use mcgv.Stream.Out.Slices.{slice_bytes}
use mcgv.Marshal.Types.{
  byte_type, short_type, int_type, long_type, float_type, double_type, char_type, bool_type,
  byte_array_type, object_array_type, collection_type, map_type, null_type,
  optimized_marshaller_object_type, code,
}
use mcgv.Marshal.Types.{
  Scalar, string, uuid, time, date, ScalarType, element_type, array_of, scalar_type, slice_type,
}
use mcgv.Marshal.Types.{
  Payload, nil, null_of, bool, uint8, int8, uint16, int16, uint32, int32, uint, int, uint64, int64,
  float32, float64, slice, bytes, scalar, typed_array, object_array, collection, map, optimized,
  other,
}
use mcgv.Marshal.Types.{Payloads, end, item, Entries, done, entry, count_items, count_entries}
use mcgv.Marshal.Writer.{int32_of, of_big_endian}

-- A length, then the bytes.
abbrev pub counted : List ℕ → List ℕ
counted v = le_bytes 4 (int32_of (length v)) ++ v

abbrev pub encode_scalar : Scalar → List ℕ
encode_scalar (string v) = counted v
encode_scalar (uuid v) =
    le_bytes 8 (of_big_endian (take 8 v)) ++ le_bytes 8 (of_big_endian (take 8 (drop 8 v)))
encode_scalar (time v) = le_bytes 8 v
encode_scalar (date v) = le_bytes 8 v

abbrev pub encode_elements : ScalarType → List (Option Scalar) → List ℕ
encode_elements t [] = []
encode_elements t (none ∷ els) = code null_type ∷ encode_elements t els
encode_elements t (some el ∷ els) =
    (code (element_type t) ∷ encode_scalar el) ++ encode_elements t els

-- Only `other` has no format here.
unfoldable mutual
  pub encode : Payload → List ℕ
  encode nil = code null_type ∷ []
  encode (null_of k) = code null_type ∷ []
  encode (bool v) = code bool_type ∷ (if v then 1 else 0) ∷ []
  encode (uint8 v) = code byte_type ∷ v ∷ []
  encode (int8 v) = code byte_type ∷ v ∷ []
  encode (uint16 v) = code char_type ∷ le_bytes 2 v
  encode (int16 v) = code short_type ∷ le_bytes 2 v
  encode (uint32 v) = code int_type ∷ le_bytes 4 v
  encode (int32 v) = code int_type ∷ le_bytes 4 v
  encode (uint v) = code long_type ∷ le_bytes 8 v
  encode (int v) = code long_type ∷ le_bytes 8 v
  encode (uint64 v) = code long_type ∷ le_bytes 8 v
  encode (int64 v) = code long_type ∷ le_bytes 8 v
  encode (float32 v) = code float_type ∷ le_bytes 4 v
  encode (float64 v) = code double_type ∷ le_bytes 8 v
  encode (slice el v) =
      code (slice_type el) ∷ (le_bytes 4 (int32_of (length v)) ++ slice_bytes (elem_bytes el) v)
  encode (bytes v) = code byte_array_type ∷ counted v
  encode (scalar v) = code (element_type (scalar_type v)) ∷ encode_scalar v
  encode (typed_array t v) =
      code (array_of t) ∷ (le_bytes 4 (int32_of (length v)) ++ encode_elements t v)
  encode (object_array v) =
      code object_array_type
      ∷ (le_bytes 4 (2 ^ 32 - 1) ++ (le_bytes 4 (int32_of (count_items v)) ++ encode_items v))
  encode (collection kind v) =
      code collection_type ∷ (le_bytes 4 (int32_of (count_items v)) ++ (kind ∷ encode_items v))
  encode (map kind v) =
      code map_type ∷ (le_bytes 4 (int32_of (count_entries v)) ++ (kind ∷ encode_entries v))
  encode (optimized v) = code optimized_marshaller_object_type ∷ counted v
  encode (other n) = []

  pub encode_items : Payloads → List ℕ
  encode_items end = []
  encode_items (item v vs) = encode v ++ encode_items vs

  pub encode_entries : Entries → List ℕ
  encode_entries done = []
  encode_entries (entry k v es) = encode k ++ (encode v ++ encode_entries es)

-- No primitive slice of the payload is empty, and no part lies outside the model, at any depth.
unfoldable mutual
  pub IsCovered : Payload → Type 0
  IsCovered (slice el v) = 1 ≤ length v
  IsCovered (object_array v) = AreCovered v
  IsCovered (collection kind v) = AreCovered v
  IsCovered (map kind v) = EntriesCovered v
  IsCovered (other n) = ⊥
  IsCovered _ = Unit

  pub AreCovered : Payloads → Type 0
  AreCovered end = Unit
  AreCovered (item v vs) = IsCovered v × AreCovered vs

  pub EntriesCovered : Entries → Type 0
  EntriesCovered done = Unit
  EntriesCovered (entry k v es) = IsCovered k × IsCovered v × EntriesCovered es
