-- ===== src/Schema.antt =====
-- The schema of a binary object, from binary_schema.go: which fields it has, in their order, and the
-- footer with the offset of each. Ids and offsets are the bit patterns of int32.
pub mod Footer
pub mod Built
mod Tests
use mcgv.Base.{
  ℕ, ◌+◌, ◌*◌, ◌/◌, ◌%◌, ◌^◌, bit_xor, List, [], ◌∷◌, ◌++◌, map, Bool, true, false, not, ok,
}
use mcgv.Base.{ltb, if◌then◌else◌}
use mcgv.Stream.Out.{Write, ◌▸◌, write_uint8, write_uint16, write_uint32}

-- `binarySchema`
pub record BinarySchema : Type 0 where
  pub schema_id : ℕ
  pub field_ids : List ℕ

-- `binarySchemaBuilder`. Its `data` holds ids and offsets in turn; here they are pairs.
pub record BinarySchemaBuilder : Type 0 where
  pub schema_id : ℕ
  pub data_of : List (ℕ × ℕ)

abbrev pub fnv1_offset_basis : ℕ
fnv1_offset_basis = 0x811C9DC5

abbrev pub fnv1_prime : ℕ
fnv1_prime = 0x01000193

-- `newBinarySchemaBuilder`
unfoldable pub new_builder : BinarySchemaBuilder
new_builder = record { schema_id = fnv1_offset_basis; data_of = [] }

-- One byte of a field id goes into the schema id.
abbrev pub mix_byte : ℕ → ℕ → ℕ
mix_byte schema_id byte = (bit_xor schema_id byte * fnv1_prime) % 2 ^ 32

-- `updateSchemaId`. `(fieldId >> 24) & 0xFF` is the last byte, whatever the sign.
unfoldable pub update_schema_id : ℕ → ℕ → ℕ
update_schema_id schema_id field_id =
    mix_byte
      (mix_byte (mix_byte (mix_byte schema_id (field_id % 256)) (field_id / 2 ^ 8 % 256))
        (field_id / 2 ^ 16 % 256))
      (field_id / 2 ^ 24 % 256)

-- `AddField`
unfoldable pub add_field : BinarySchemaBuilder → ℕ → ℕ → BinarySchemaBuilder
unfolding update_schema_id
add_field bld field_id offset = record {
  schema_id = update_schema_id bld.schema_id field_id;
  data_of = bld.data_of ++ ((field_id, offset) ∷ []);
}

-- `Build`
unfoldable pub build : BinarySchemaBuilder → BinarySchema
build bld = record { schema_id = bld.schema_id; field_ids = map (λ d. d.0) bld.data_of }

abbrev pub last_offset : List (ℕ × ℕ) → ℕ
last_offset [] = 0
last_offset ((id, offset) ∷ []) = offset
last_offset (d ∷ (e ∷ ds)) = last_offset (e ∷ ds)

-- The comparisons `lastOffset < maxOffset1` and `lastOffset < maxOffset2` of int32: a negative one is
-- less.
abbrev pub field_size : ℕ → ℕ
field_size last =
    if ltb last (2 ^ 8)
    then 1
    else if not (ltb last (2 ^ 31))
    then 1
    else if ltb last (2 ^ 16)
    then 2
    else 4

-- `int8(offset)`, `int16(offset)` or the offset itself.
unfoldable pub write_offset : ℕ → ℕ → Write
write_offset size offset =
    if ltb size 2
    then write_uint8 (offset % 2 ^ 8)
    else if ltb size 4
    then write_uint16 (offset % 2 ^ 16)
    else write_uint32 offset

-- The loop of `WriteFooter`.
unfoldable pub write_offsets : Bool → ℕ → List (ℕ × ℕ) → Write
unfolding write_offset
write_offsets compact size [] = ok
write_offsets compact size ((id, offset) ∷ ds) =
    (if compact then ok else write_uint32 id)
    ▸ write_offset size offset
    ▸ write_offsets compact size ds

-- The result of `WriteFooter`: the size of an offset, 0 if there is no field.
unfoldable pub footer_size : BinarySchemaBuilder → ℕ
footer_size bld = elim bld.data_of [ [] ↦ 0 | d ∷ ds ↦ field_size (last_offset (d ∷ ds)) ]

-- What `WriteFooter` writes.
unfoldable pub write_footer : BinarySchemaBuilder → Bool → Write
unfolding write_offsets footer_size
write_footer bld compact_footer = write_offsets compact_footer (footer_size bld) bld.data_of
