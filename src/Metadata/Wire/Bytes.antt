-- ===== src/Metadata/Wire/Bytes.antt =====
-- The bytes of the request of `sendBinaryMeta` of binary_schema.go.
use mcgv.Base.{ℕ, Bool, true, false}
use mcgv.Base.{List, [], ◌∷◌, ◌++◌, ok, if◌then◌else◌}
use mcgv.Base.{String, Map, lookup, string_keys, number_keys}
use mcgv.Base.Bytes.{le_bytes}
use mcgv.Stream.Out.{write_uint32}
use mcgv.Stream.Out.Writes.{Emits, ◌⊳◌, skip_Emits, write_uint32-Emits, write_bool-Emits}
use mcgv.Schema.{BinarySchema}
use mcgv.Metadata.{BinaryFieldMeta, BinaryMetadata, field_or_zero}
use mcgv.Metadata.Wire.{write_meta, write_field_meta, write_name, write_schema, write_sequence}
use mcgv.Metadata.Wire.Sequences.{
  sequence_bytes, string_bytes, nullable_bytes, write_sequence-Emits, marshal_string-Emits,
  nullable_Emits,
}

abbrev pub field_bytes : Map String BinaryFieldMeta → String → List ℕ
field_bytes fields name =
    let f = field_or_zero (lookup name fields) in
    string_bytes name ++ (le_bytes 4 f.type_id ++ le_bytes 4 f.field_id)

abbrev pub name_bytes : String × ℕ → List ℕ
name_bytes (name, ord) = string_bytes name ++ le_bytes 4 ord

abbrev pub schema_bytes : ℕ × BinarySchema → List ℕ
schema_bytes (id, schema) =
    le_bytes 4 schema.schema_id ++ sequence_bytes (le_bytes 4) schema.field_ids

abbrev pub names_bytes : Bool → Map String ℕ → List ℕ
names_bytes true names = sequence_bytes name_bytes names
names_bytes false names = []

-- The request of `sendBinaryMeta`.
abbrev pub meta_bytes : BinaryMetadata → List ℕ
meta_bytes meta =
    le_bytes 4 meta.type_id
    ++ (string_bytes meta.type_name
        ++ (nullable_bytes meta.aff_key_name
            ++ (sequence_bytes (field_bytes meta.fields) meta.fields_order
                ++ (((if meta.is_enum then 1 else 0) ∷ [])
                    ++ (names_bytes meta.is_enum meta.name_to_ord
                        ++ sequence_bytes schema_bytes meta.schemas)))))

field_Emits :
    (fields : Map String BinaryFieldMeta) (name : String)
    → Emits (write_field_meta fields name) (field_bytes fields name)
unfolding write_field_meta
field_Emits fields name =
    let f = field_or_zero (lookup name fields) in
    marshal_string-Emits name ⊳ write_uint32-Emits f.type_id ⊳ write_uint32-Emits f.field_id

name_Emits : (p : String × ℕ) → Emits (write_name p) (name_bytes p)
unfolding write_name
name_Emits (name, ord) = marshal_string-Emits name ⊳ write_uint32-Emits ord

schema_Emits : (p : ℕ × BinarySchema) → Emits (write_schema p) (schema_bytes p)
unfolding write_schema
schema_Emits (id, schema) =
    write_uint32-Emits schema.schema_id
    ⊳ write_sequence-Emits write_uint32 (le_bytes 4) schema.field_ids write_uint32-Emits

names_Emits :
    (e : Bool) (names : Map String ℕ)
    → Emits (if e then write_sequence write_name names else ok) (names_bytes e names)
names_Emits true names = write_sequence-Emits write_name name_bytes names name_Emits
names_Emits false names = skip_Emits

pub write_meta-Emits : (meta : BinaryMetadata) → Emits (write_meta meta) (meta_bytes meta)
unfolding write_meta
write_meta-Emits meta =
    write_uint32-Emits meta.type_id
    ⊳ marshal_string-Emits meta.type_name
    ⊳ nullable_Emits meta.aff_key_name
    ⊳ write_sequence-Emits (write_field_meta meta.fields) (field_bytes meta.fields)
        meta.fields_order (field_Emits meta.fields)
    ⊳ write_bool-Emits meta.is_enum
    ⊳ names_Emits meta.is_enum meta.name_to_ord
    ⊳ write_sequence-Emits write_schema schema_bytes meta.schemas schema_Emits
