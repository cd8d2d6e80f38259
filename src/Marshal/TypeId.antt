-- ===== src/Marshal/TypeId.antt =====
-- `getTypeId` of marshaller.go: the type of a value, which a field of a binary object is registered with.
use mcgv.Base.{ℕ, ◌≡◌, refl, List, ◌∷◌, Option, some}
use mcgv.Stream.Types.{Elem, bools, little}
use mcgv.Marshal.Types.{
  TypeDesc, byte_type, short_type, int_type, long_type, float_type, double_type, char_type,
  bool_type, byte_array_type, object_array_type, collection_type, map_type, null_type,
  optimized_marshaller_object_type, code, element_type, array_of, scalar_type, slice_type,
}
use mcgv.Marshal.Types.{
  NullKind, null_slice, null_array, null_bytes, null_objects, null_collection, null_map, Payload,
  nil, null_of, bool, uint8, int8, uint16, int16, uint32, int32, uint, int, uint64, int64, float32,
  float64, slice, bytes, scalar, typed_array, object_array, collection, map, optimized, other,
}
use mathlib.Core.Path.{subst}
use mcgv.Stream.Out.{Write}
use mcgv.Stream.Out.Writes.{Emits}
use mcgv.Marshal.Encoding.{encode, IsCovered}
use mcgv.Marshal.Writer.{marshal}
use mcgv.Marshal.Writes.{marshal-Emits}

-- The type of a slice. There is no case for `[]bool`, which so is any slice.
abbrev pub slice_type_id : Elem → TypeDesc
slice_type_id bools = object_array_type
slice_type_id el = slice_type el

-- The type of a null that is not the untyped nil, for which `getTypeId` looks at the type alone.
abbrev pub null_type_id : NullKind → TypeDesc
null_type_id (null_slice el) = slice_type_id el
null_type_id (null_array t) = array_of t
null_type_id null_bytes = byte_array_type
null_type_id null_objects = object_array_type
null_type_id null_collection = collection_type
null_type_id null_map = map_type

-- `getTypeId`, where `type_of_other` gives the type of a value outside the model.
unfoldable pub get_type_id : (ℕ → Option TypeDesc) → Payload → Option TypeDesc
get_type_id type_of_other nil = some null_type
get_type_id type_of_other (null_of k) = some (null_type_id k)
get_type_id type_of_other (bool v) = some bool_type
get_type_id type_of_other (uint8 v) = some byte_type
get_type_id type_of_other (int8 v) = some byte_type
get_type_id type_of_other (uint16 v) = some char_type
get_type_id type_of_other (int16 v) = some short_type
get_type_id type_of_other (uint32 v) = some int_type
get_type_id type_of_other (int32 v) = some int_type
get_type_id type_of_other (uint v) = some long_type
get_type_id type_of_other (int v) = some long_type
get_type_id type_of_other (uint64 v) = some long_type
get_type_id type_of_other (int64 v) = some long_type
get_type_id type_of_other (float32 v) = some float_type
get_type_id type_of_other (float64 v) = some double_type
get_type_id type_of_other (slice el v) = some (slice_type_id el)
get_type_id type_of_other (bytes v) = some byte_array_type
get_type_id type_of_other (scalar v) = some (element_type (scalar_type v))
get_type_id type_of_other (typed_array t v) = some (array_of t)
get_type_id type_of_other (object_array v) = some object_array_type
get_type_id type_of_other (collection kind v) = some collection_type
get_type_id type_of_other (map kind v) = some map_type
get_type_id type_of_other (optimized v) = some optimized_marshaller_object_type
get_type_id type_of_other (other n) = type_of_other n

-- A value of the model, but for a slice of booleans and a null with a type.
abbrev pub IsTyped : Payload → Type 0
IsTyped (slice bools v) = ⊥
IsTyped (null_of k) = ⊥
IsTyped (other n) = ⊥
IsTyped _ = Unit

-- `l` starts with the descriptor `t`.
abbrev StartsWith : TypeDesc → List ℕ → Type 0
StartsWith t l = (rest : List ℕ) × (l ≡ code t ∷ rest)

slice_Starts :
    (el : Elem) (v : List ℕ)
    → IsTyped (slice el v)
    → StartsWith (slice_type_id el) (encode (slice el v))
unfolding encode
slice_Starts bools v h = absurd h
slice_Starts _ v h = (_, refl)

encoded :
    (type_of_other : ℕ → Option TypeDesc) (p : Payload)
    → IsTyped p
    → (t : TypeDesc) × (get_type_id type_of_other p ≡ some t) × StartsWith t (encode p)
unfolding get_type_id encode
encoded type_of_other (slice el v) h = (slice_type_id el, refl, slice_Starts el v h)
encoded type_of_other (other n) h = absurd h
encoded type_of_other (null_of k) h = absurd h
encoded type_of_other nil h = (null_type, refl, (_, refl))
encoded type_of_other (bool v) h = (bool_type, refl, (_, refl))
encoded type_of_other (uint8 v) h = (byte_type, refl, (_, refl))
encoded type_of_other (int8 v) h = (byte_type, refl, (_, refl))
encoded type_of_other (uint16 v) h = (char_type, refl, (_, refl))
encoded type_of_other (int16 v) h = (short_type, refl, (_, refl))
encoded type_of_other (uint32 v) h = (int_type, refl, (_, refl))
encoded type_of_other (int32 v) h = (int_type, refl, (_, refl))
encoded type_of_other (uint v) h = (long_type, refl, (_, refl))
encoded type_of_other (int v) h = (long_type, refl, (_, refl))
encoded type_of_other (uint64 v) h = (long_type, refl, (_, refl))
encoded type_of_other (int64 v) h = (long_type, refl, (_, refl))
encoded type_of_other (float32 v) h = (float_type, refl, (_, refl))
encoded type_of_other (float64 v) h = (double_type, refl, (_, refl))
encoded type_of_other (bytes v) h = (byte_array_type, refl, (_, refl))
encoded type_of_other (scalar v) h = (element_type (scalar_type v), refl, (_, refl))
encoded type_of_other (typed_array t v) h = (array_of t, refl, (_, refl))
encoded type_of_other (object_array v) h = (object_array_type, refl, (_, refl))
encoded type_of_other (collection kind v) h = (collection_type, refl, (_, refl))
encoded type_of_other (map kind v) h = (map_type, refl, (_, refl))
encoded type_of_other (optimized v) h = (optimized_marshaller_object_type, refl, (_, refl))

-- `getTypeId` and `marshal` on a little-endian machine agree: for a value of the model that is no slice
-- of booleans and no null of a type, and in which no primitive slice is empty, there is one type that
-- `getTypeId` returns and with whose descriptor the bytes start that `marshal` appends, unless it panics
-- since they do not fit the stream.
pub get_type_id-marshal :
    (type_of_other : ℕ → Option TypeDesc) (write_other : ℕ → Write) (p : Payload)
    → IsTyped p
    → IsCovered p
    → (t : TypeDesc) × (rest : List ℕ) × (get_type_id type_of_other p ≡ some t)
      × Emits (marshal little write_other p) (code t ∷ rest)
get_type_id-marshal type_of_other write_other p h covered =
    let (t, found, (rest, e)) = encoded type_of_other p h in
    let emits : Emits (marshal little write_other p) (code t ∷ rest) =
      subst (λ l. Emits (marshal little write_other p) l) e (marshal-Emits write_other p covered) in
    (t, rest, found, emits)
