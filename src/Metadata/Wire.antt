-- ===== src/Metadata/Wire.antt =====
-- Metadata as bytes: the request of `sendBinaryMeta` and `unmarshalBinaryMeta` of binary_schema.go, and
-- the sequences and maps of buffer.go that they use.
pub mod Sequences
pub mod Bytes
pub mod RoundTrip
use mcgv.Base.{
  ℕ, zero, suc, Bool, true, false, List, [], ◌∷◌, map, ok, length, ◌>>=◌, if◌then◌else◌,
}
use mcgv.Base.{String, Map, lookup, put, string_keys, number_keys, Comparable}
use mcgv.Base.Int.{ℤ, pos, negsuc}
use mcgv.Stream.Out.{Write, ◌▸◌, write_uint32, write_bool}
use mcgv.Stream.In.{Read, ◌>>>◌, return, with_room, read_uint32, read_size, read_bool}
use mcgv.Marshal.Writer.{int32_of, write_null, marshal_string}
use mcgv.Marshal.Reader.{make, unmarshal_string}
use mcgv.Schema.{BinarySchema}
use mcgv.Metadata.{BinaryFieldMeta, BinaryMetadata, field_or_zero, invert}

-- The loop of `writeSequence` and `writeMap`.
unfoldable pub write_all {ℓ} : {A : Type ℓ} → (A → Write) → List A → Write
write_all w [] = ok
write_all w (v ∷ vs) = w v ▸ write_all w vs

-- `writeSequence`, and `writeMap` of the pairs of a map.
unfoldable pub write_sequence {ℓ} : {A : Type ℓ} → (A → Write) → List A → Write
unfolding write_all
write_sequence w vs = write_uint32 (int32_of (length vs)) ▸ write_all w vs

-- `readSequence`
unfoldable pub read_all {ℓ} : {A : Type ℓ} → Read A → ℕ → Read (List A)
read_all r zero = return []
read_all r (suc n) = r >>> λ v. read_all r n >>> λ vs. return (v ∷ vs)

-- `readSlice`, which panics on a negative size.
unfoldable pub read_slice_of {ℓ} : {A : Type ℓ} → Read A → Read (List A)
unfolding read_all
read_slice_of r = with_room (pos 4) (read_size >>> λ sz. make sz (λ n. read_all r n))

-- A loop does nothing for a negative length.
abbrev pub rounds : ℤ → ℕ
rounds (pos n) = n
rounds (negsuc n) = 0

-- The pairs that `readMap` puts into a new map.
unfoldable pub read_pairs {ℓ} : {A : Type ℓ} → Read A → Read (List A)
unfolding read_all
read_pairs r = read_size >>> λ sz. read_all r (rounds sz)

-- Pairs put into a map in turn.
unfoldable pub put_all {ℓ κ} :
    {K : Type ℓ} {V : Type κ} ⦃c : Comparable K⦄ → Map K V → Map K V → Map K V
put_all [] acc = acc
put_all ((k, v) ∷ m) acc = put_all m (put k v acc)

-- `marshalEmptyStringAsNull`
unfoldable pub marshal_empty_string_as_null : String → Write
marshal_empty_string_as_null [] = write_null
marshal_empty_string_as_null (c ∷ cs) = marshal_string (c ∷ cs)

-- The entries of the three sequences.
unfoldable pub write_field_meta : Map String BinaryFieldMeta → String → Write
write_field_meta fields name =
    let f = field_or_zero (lookup name fields) in
    marshal_string name ▸ write_uint32 f.type_id ▸ write_uint32 f.field_id

unfoldable pub write_name : String × ℕ → Write
write_name (name, ord) = marshal_string name ▸ write_uint32 ord

unfoldable pub write_schema : ℕ × BinarySchema → Write
unfolding write_sequence
write_schema (id, schema) =
    write_uint32 schema.schema_id ▸ write_sequence write_uint32 schema.field_ids

-- The body of the request of `sendBinaryMeta`.
unfoldable pub write_meta : BinaryMetadata → Write
unfolding marshal_empty_string_as_null write_sequence write_field_meta write_name write_schema
write_meta meta =
    write_uint32 meta.type_id
    ▸ marshal_string meta.type_name
    ▸ marshal_empty_string_as_null meta.aff_key_name
    ▸ write_sequence (write_field_meta meta.fields) meta.fields_order
    ▸ write_bool meta.is_enum
    ▸ (if meta.is_enum then write_sequence write_name meta.name_to_ord else ok)
    ▸ write_sequence write_schema meta.schemas

unfoldable pub read_field_meta : Read (String × BinaryFieldMeta)
read_field_meta = unmarshal_string >>> λ key. read_uint32 >>> λ type_id.
    read_uint32 >>> λ field_id. return (key, record { type_id = type_id; field_id = field_id })

unfoldable pub read_name : Read (String × ℕ)
read_name = unmarshal_string >>> λ name. read_uint32 >>> λ ord. return (name, ord)

unfoldable pub read_schema : Read (ℕ × BinarySchema)
unfolding read_slice_of
read_schema = read_uint32 >>> λ key.
    read_slice_of read_uint32 >>> λ ids. return (key, record { schema_id = key; field_ids = ids })

-- The metadata of the parts that were read.
abbrev pub meta_of :
    ℕ
    → String
    → String
    → Map String BinaryFieldMeta
    → Bool
    → Map String ℕ
    → Map ℕ BinarySchema
    → BinaryMetadata
meta_of type_id type_name aff_key_name fields is_enum names schemas = record {
  type_id = type_id;
  type_name = type_name;
  aff_key_name = aff_key_name;
  is_enum = is_enum;
  fields = put_all fields [];
  fields_order = map (λ f. f.0) fields;
  schemas = put_all schemas [];
  ord_to_name = invert names [];
  name_to_ord = put_all names [];
}

-- `unmarshalBinaryMeta`
unfoldable pub unmarshal_binary_meta : Read BinaryMetadata
unfolding read_pairs read_field_meta read_name read_schema put_all invert
unmarshal_binary_meta = read_uint32 >>> λ type_id. unmarshal_string >>> λ type_name.
    unmarshal_string >>> λ aff_key_name. read_pairs read_field_meta >>> λ fields.
    read_bool >>> λ is_enum. (if is_enum then read_pairs read_name else return []) >>> λ names.
    read_pairs read_schema >>> λ schemas.
    return (meta_of type_id type_name aff_key_name fields is_enum names schemas)
