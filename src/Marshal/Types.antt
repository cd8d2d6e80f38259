-- ===== src/Marshal/Types.antt =====
-- The type descriptors of marshaller.go, and the payloads that are modelled. A number is the bit
-- pattern of its Go type, and a float is its IEEE bits.
use mcgv.Base.{ℕ, suc, Bool, List, Option}
use mcgv.Stream.Types.{
  Elem, bools, int8s, uint16s, int16s, uint32s, int32s, uints, ints, uint64s, int64s, float32s,
  float64s,
}

-- `TypeDesc`
pub data TypeDesc : Type 0 where
  byte_type short_type int_type long_type float_type double_type char_type bool_type : TypeDesc
  string_type uuid_type date_type byte_array_type short_array_type int_array_type : TypeDesc
  long_array_type float_array_type double_array_type char_array_type bool_array_type : TypeDesc
  string_array_type uuid_array_type date_array_type object_array_type collection_type : TypeDesc
  map_type wrapped_object_type enum_type enum_array_type decimal_type decimal_array_type : TypeDesc
  class_type timestamp_type timestamp_array_type proxy_type time_type time_array_type : TypeDesc
  binary_enum_type null_type handle_type binary_object_type : TypeDesc
  optimized_marshaller_object_type object_type unregistered_type : TypeDesc

-- The byte of a descriptor, an int8.
abbrev pub code : TypeDesc → ℕ
code optimized_marshaller_object_type = 254
code object_type = 255
code unregistered_type = 0
code byte_type = 1
code short_type = 2
code int_type = 3
code long_type = 4
code float_type = 5
code double_type = 6
code char_type = 7
code bool_type = 8
code string_type = 9
code uuid_type = 10
code date_type = 11
code byte_array_type = 12
code short_array_type = 13
code int_array_type = 14
code long_array_type = 15
code float_array_type = 16
code double_array_type = 17
code char_array_type = 18
code bool_array_type = 19
code string_array_type = 20
code uuid_array_type = 21
code date_array_type = 22
code object_array_type = 23
code collection_type = 24
code map_type = 25
code wrapped_object_type = 27
code enum_type = 28
code enum_array_type = 29
code decimal_type = 30
code decimal_array_type = 31
code class_type = 32
code timestamp_type = 33
code timestamp_array_type = 34
code proxy_type = 35
code time_type = 36
code time_array_type = 37
code binary_enum_type = 38
code null_type = 101
code handle_type = 102
code binary_object_type = 103

-- The values that stand alone or as elements of a typed array: a string by its bytes, a UUID by its
-- 16 bytes, a `Time` and a `Date` by their milliseconds.
pub data Scalar : Type 0 where
  string : List ℕ → Scalar
  uuid : List ℕ → Scalar
  time : ℕ → Scalar
  date : ℕ → Scalar

pub data ScalarType : Type 0 where
  strings uuids times dates : ScalarType

abbrev pub element_type : ScalarType → TypeDesc
element_type strings = string_type
element_type uuids = uuid_type
element_type times = time_type
element_type dates = date_type

abbrev pub array_of : ScalarType → TypeDesc
array_of strings = string_array_type
array_of uuids = uuid_array_type
array_of times = time_array_type
array_of dates = date_array_type

abbrev pub scalar_type : Scalar → ScalarType
scalar_type (string v) = strings
scalar_type (uuid v) = uuids
scalar_type (time v) = times
scalar_type (date v) = dates

-- The descriptor that `marshal` writes for a slice of primitives.
abbrev pub slice_type : Elem → TypeDesc
slice_type bools = bool_array_type
slice_type int8s = byte_array_type
slice_type uint16s = char_array_type
slice_type int16s = short_array_type
slice_type uint32s = int_array_type
slice_type int32s = int_array_type
slice_type uints = long_array_type
slice_type ints = long_array_type
slice_type uint64s = long_array_type
slice_type int64s = long_array_type
slice_type float32s = float_array_type
slice_type float64s = double_array_type

-- The types of the nulls that are not the untyped nil: nil slices of primitives, of bytes, of strings
-- and the like, and of interfaces, and a `Collection` or a `Map` that is null.
pub data NullKind : Type 0 where
  null_slice : Elem → NullKind
  null_array : ScalarType → NullKind
  null_bytes null_objects null_collection null_map : NullKind

-- The Go values that `marshal` takes and `unmarshal` returns. `nil` is the untyped nil, and `null_of k`
-- a null of a type; `typed_array` is a `[]*T`, or a `[]T` if no element is missing; `other n` is a value
-- outside the model, by a handle, as is a nil of another type.
mutual
  pub data Payload : Type 0 where
    nil : Payload
    null_of : NullKind → Payload
    bool : Bool → Payload
    uint8 int8 uint16 int16 uint32 int32 uint int uint64 int64 float32 float64 : ℕ → Payload
    slice : Elem → List ℕ → Payload
    bytes : List ℕ → Payload
    scalar : Scalar → Payload
    typed_array : ScalarType → List (Option Scalar) → Payload
    object_array : Payloads → Payload
    collection : ℕ → Payloads → Payload
    map : ℕ → Entries → Payload
    optimized : List ℕ → Payload
    other : ℕ → Payload

  pub data Payloads : Type 0 where
    end : Payloads
    item : Payload → Payloads → Payloads

  pub data Entries : Type 0 where
    done : Entries
    entry : Payload → Payload → Entries → Entries

abbrev pub count_items : Payloads → ℕ
count_items end = 0
count_items (item v vs) = suc (count_items vs)

abbrev pub count_entries : Entries → ℕ
count_entries done = 0
count_entries (entry k v es) = suc (count_entries es)
