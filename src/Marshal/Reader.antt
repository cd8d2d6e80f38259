-- ===== src/Marshal/Reader.antt =====
-- `unmarshal` of marshaller.go and its helpers. A size that is negative passes the check for
-- available bytes, and the allocation for it panics.
use mcgv.Base.{ℕ, zero, suc, ◌-◌, ◌*◌, Bool, true, false, List, [], ◌∷◌, ◌++◌}
use mcgv.Base.{Option, none, some, err, panic, stuck, ◌==◌, if◌then◌else◌}
use mcgv.Base.Bytes.{le_bytes}
use mcgv.Base.Int.{ℤ, pos, negsuc}
use mcgv.Stream.Types.{
  Error, unexpected_type, unsupported_type, Elem, bools, int16s, uint16s, int32s, int64s, float32s,
  float64s, elem_bytes, Host,
}
use mcgv.Stream.In.{
  Read, ◌>>>◌, return, read_bool, read_uint8, read_uint16, read_uint32, read_uint64, read_size,
  read_bytes, read_slice, with_room,
}
use mathlib.Core.List.{reverse}
use mcgv.Marshal.Types.{
  TypeDesc, byte_type, short_type, int_type, long_type, float_type, double_type, char_type,
  bool_type, string_type, uuid_type, date_type, byte_array_type, short_array_type, int_array_type,
  long_array_type, float_array_type, double_array_type, char_array_type, bool_array_type,
  string_array_type, uuid_array_type, date_array_type, object_array_type, collection_type, map_type,
  wrapped_object_type, enum_type, enum_array_type, decimal_type, decimal_array_type, class_type,
  timestamp_type, timestamp_array_type, proxy_type, time_type, time_array_type, binary_enum_type,
  null_type, binary_object_type, optimized_marshaller_object_type, code,
}
use mcgv.Marshal.Types.{
  Scalar, string, uuid, time, date, ScalarType, strings, uuids, times, dates, element_type,
}
use mcgv.Marshal.Types.{
  Payload, nil, bool, int8, uint16, int16, int32, int64, float32, float64, slice, bytes, scalar,
  typed_array, object_array, collection, map, optimized,
}
use mcgv.Marshal.Types.{Payloads, end, item, Entries, done, entry}

-- The descriptor of a byte, if there is one among `ts`.
abbrev pub find_code : ℕ → List TypeDesc → Option TypeDesc
find_code b [] = none
find_code b (t ∷ ts) = if code t == b then some t else find_code b ts

-- The cases of the switch of `unmarshal`.
abbrev pub supported : List TypeDesc
supported =
    null_type ∷ bool_type ∷ byte_type ∷ short_type ∷ char_type ∷ int_type ∷ long_type ∷ float_type
    ∷ double_type ∷ byte_array_type ∷ bool_array_type ∷ short_array_type ∷ char_array_type
    ∷ int_array_type ∷ long_array_type ∷ float_array_type ∷ double_array_type ∷ string_type
    ∷ string_array_type ∷ uuid_type ∷ uuid_array_type ∷ time_type ∷ time_array_type ∷ date_type
    ∷ date_array_type ∷ timestamp_type ∷ timestamp_array_type ∷ decimal_type ∷ decimal_array_type
    ∷ object_array_type ∷ collection_type ∷ map_type ∷ binary_object_type ∷ enum_type
    ∷ binary_enum_type ∷ enum_array_type ∷ wrapped_object_type ∷ class_type
    ∷ optimized_marshaller_object_type ∷ proxy_type ∷ []

abbrev pub fail {ℓ} : {A : Type ℓ} → Error → Read A
fail e s = err e

-- `checkNotNull`
unfoldable pub check_not_null : TypeDesc → Read Bool
check_not_null expected = with_room (pos 1) (
    read_uint8 >>> λ t.
    if t == code null_type
    then return false
    else if t == code expected
    then return true
    else fail (unexpected_type t))

-- `readByteArray` and `readString`
unfoldable pub read_byte_array : Read (List ℕ)
read_byte_array = with_room (pos 4) (read_size >>> λ sz. with_room sz (read_bytes sz))

-- `unmarshalString`: null is the empty string.
unfoldable pub unmarshal_string : Read (List ℕ)
unfolding check_not_null read_byte_array
unmarshal_string =
    check_not_null string_type >>> λ present. if present then read_byte_array else return []

-- `unmarshalByteArray`: null is a nil slice.
unfoldable pub unmarshal_byte_array : Read (Option (List ℕ))
unfolding check_not_null read_byte_array
unmarshal_byte_array = check_not_null byte_array_type >>> λ present.
    if present then (read_byte_array >>> λ v. return (some v)) else return none

-- `binary.BigEndian.PutUint64`
abbrev pub big_endian : ℕ → List ℕ
big_endian v = reverse (le_bytes 8 v)

-- `readUuid`
unfoldable pub read_uuid : Read (List ℕ)
read_uuid =
    with_room (pos 16)
      (read_uint64 >>> λ hi. read_uint64 >>> λ lo. return (big_endian hi ++ big_endian lo))

-- `readClass`: a type id, and the name of a type that is not registered.
unfoldable pub read_class : Read (ℕ × List ℕ)
unfolding unmarshal_string
read_class = with_room (pos 4) (
    read_uint32 >>> λ id.
    if id == 0 then (unmarshal_string >>> λ name. return (id, name)) else return (id, []))

-- `readString`, `readUuid`, `readTime` and `readDate`
unfoldable pub read_scalar : ScalarType → Read Scalar
unfolding read_byte_array read_uuid
read_scalar strings = read_byte_array >>> λ v. return (string v)
read_scalar uuids = read_uuid >>> λ v. return (uuid v)
read_scalar times = with_room (pos 8) read_uint64 >>> λ v. return (time v)
read_scalar dates = with_room (pos 8) read_uint64 >>> λ v. return (date v)

-- `make([]T, sz)`, which panics on a negative size.
abbrev pub make {ℓ} : {A : Type ℓ} → ℤ → (ℕ → Read A) → Read A
make (pos n) f = f n
make (negsuc k) f = λ s. panic

-- The element reader of `readIgniteTypedArray`.
unfoldable pub read_element : ScalarType → Read (Option Scalar)
unfolding check_not_null read_scalar
read_element t = check_not_null (element_type t) >>> λ present.
    if present then (read_scalar t >>> λ v. return (some v)) else return none

-- The loop of `readSequence`, for the elements of a typed array.
unfoldable pub read_elements : ScalarType → ℕ → Read (List (Option Scalar))
unfolding read_element
read_elements t zero = return []
read_elements t (suc n) = read_element t >>> λ v. read_elements t n >>> λ vs. return (v ∷ vs)

-- `readIgniteTypedArray`
unfoldable pub read_typed_array : ScalarType → Read Payload
unfolding read_elements
read_typed_array t =
    with_room (pos 4)
      (read_size >>> λ sz. make sz (λ n. read_elements t n >>> λ vs. return (typed_array t vs)))

-- The loop of `readSequence`, for elements that `unmarshal` reads.
unfoldable pub read_items : Read Payload → ℕ → Read Payloads
read_items m zero = return end
read_items m (suc n) = m >>> λ v. read_items m n >>> λ vs. return (item v vs)

unfoldable pub read_entries : Read Payload → ℕ → Read Entries
read_entries m zero = return done
read_entries m (suc n) = m >>> λ k. m >>> λ v. read_entries m n >>> λ es. return (entry k v es)

-- `readIgniteObjectArray`
unfoldable pub read_object_array : Read Payload → Read Payload
unfolding read_class read_items
read_object_array m = read_class >>> λ cls.
    with_room (pos 4)
      (read_size >>> λ sz. make sz (λ n. read_items m n >>> λ vs. return (object_array vs)))

-- `readIgniteCollection`
unfoldable pub read_collection : Read Payload → Read Payload
unfolding read_items
read_collection m = with_room (pos 4) (
    read_size >>> λ sz.
    with_room (pos 1)
      (read_uint8 >>> λ kind. make sz (λ n. read_items m n >>> λ vs. return (collection kind vs))))

-- `readIgniteMap`
unfoldable pub read_map : Read Payload → Read Payload
unfolding read_entries
read_map m = with_room (pos 4) (
    read_size >>> λ sz.
    with_room (pos 1)
      (read_uint8 >>> λ kind. make sz (λ n. read_entries m n >>> λ es. return (map kind es))))

-- `sz*elemSz`
abbrev pub scale : ℤ → ℕ → ℤ
scale (pos k) n = pos (k * n)
scale (negsuc k) n = negsuc (suc k * n - 1)

-- The case of the primitive arrays.
unfoldable pub read_array : Host → Elem → Read Payload
read_array host el = with_room (pos 4) (
    read_size >>> λ sz.
    with_room (scale sz (elem_bytes el)) (read_slice host el sz >>> λ v. return (slice el v)))

-- The machine, and the cases that are not modelled.
module _ (host : Host) (read_other : TypeDesc → Read Payload) where
  -- The switch, on the descriptor of the byte `b`; `m` reads a nested payload.
  unfoldable pub unmarshal_case : ℕ → Option TypeDesc → Read Payload → Read Payload
  unfolding read_scalar read_array read_typed_array read_object_array read_collection read_map
  unmarshal_case b none m = fail (unsupported_type b)
  unmarshal_case b (some null_type) m = return nil
  unmarshal_case b (some bool_type) m = with_room (pos 1) read_bool >>> λ v. return (bool v)
  unmarshal_case b (some byte_type) m = with_room (pos 1) read_uint8 >>> λ v. return (int8 v)
  unmarshal_case b (some short_type) m = with_room (pos 2) read_uint16 >>> λ v. return (int16 v)
  unmarshal_case b (some char_type) m = with_room (pos 2) read_uint16 >>> λ v. return (uint16 v)
  unmarshal_case b (some int_type) m = with_room (pos 4) read_uint32 >>> λ v. return (int32 v)
  unmarshal_case b (some long_type) m = with_room (pos 8) read_uint64 >>> λ v. return (int64 v)
  unmarshal_case b (some float_type) m = with_room (pos 4) read_uint32 >>> λ v. return (float32 v)
  unmarshal_case b (some double_type) m = with_room (pos 8) read_uint64 >>> λ v. return (float64 v)
  unmarshal_case b (some byte_array_type) m = read_byte_array >>> λ v. return (bytes v)
  unmarshal_case b (some bool_array_type) m = read_array host bools
  unmarshal_case b (some short_array_type) m = read_array host int16s
  unmarshal_case b (some char_array_type) m = read_array host uint16s
  unmarshal_case b (some int_array_type) m = read_array host int32s
  unmarshal_case b (some long_array_type) m = read_array host int64s
  unmarshal_case b (some float_array_type) m = read_array host float32s
  unmarshal_case b (some double_array_type) m = read_array host float64s
  unmarshal_case b (some string_type) m = read_scalar strings >>> λ v. return (scalar v)
  unmarshal_case b (some string_array_type) m = read_typed_array strings
  unmarshal_case b (some uuid_type) m = read_scalar uuids >>> λ v. return (scalar v)
  unmarshal_case b (some uuid_array_type) m = read_typed_array uuids
  unmarshal_case b (some time_type) m = read_scalar times >>> λ v. return (scalar v)
  unmarshal_case b (some time_array_type) m = read_typed_array times
  unmarshal_case b (some date_type) m = read_scalar dates >>> λ v. return (scalar v)
  unmarshal_case b (some date_array_type) m = read_typed_array dates
  unmarshal_case b (some object_array_type) m = read_object_array m
  unmarshal_case b (some collection_type) m = read_collection m
  unmarshal_case b (some map_type) m = read_map m
  unmarshal_case b (some optimized_marshaller_object_type) m =
      read_byte_array >>> λ v. return (optimized v)
  unmarshal_case b (some t) m = read_other t

  -- Each level of nesting takes one of the fuel.
  unfoldable pub unmarshal : ℕ → Read Payload
  unfolding unmarshal_case
  unmarshal zero s = stuck
  unmarshal (suc fuel) s =
      with_room (pos 1)
        (read_uint8 >>> λ b. unmarshal_case b (find_code b supported) (unmarshal fuel)) s
