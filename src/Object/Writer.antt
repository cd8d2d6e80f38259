-- ===== src/Object/Writer.antt =====
-- `binaryWriterImpl` of binary_object.go.
use mcgv.Base.{ℕ, ◌+◌, ◌-◌, bit_and, bit_or, not, List, [], ◌∷◌, Option, none, some}
use mcgv.Base.{
  Result, ok, err, panic, stuck, ◌>>=◌, ◌==◌, if◌then◌else◌, String, lookup, string_keys,
}
use mcgv.Stream.Types.{Error}
use mcgv.Stream.Out.{
  Out, Write, ◌▸◌, set_position, ensure_available, write_type, write_uint8, write_uint16,
  write_uint32, hash_code,
}
use mcgv.Marshal.Types.{binary_object_type, code}
use mcgv.Marshal.Writer.{marshal_string}
use mcgv.Schema.{
  BinarySchemaBuilder, new_builder, add_field as add_schema_field, build, write_footer, footer_size,
}
use mcgv.Metadata.{BinaryFieldMeta, BinaryMetadata, add_field, add_schema}
use mcgv.Object.{Marshaller, ObjectError, no_type_id, field_type_differs, registry_failed, stream}

abbrev pub header_length : ℕ
header_length = 24

abbrev pub unregistered : ℕ
unregistered = 0

-- A result of a stream, as one of this file.
abbrev pub lifted {ℓ} : {A : Type ℓ} → Result Error A → Result ObjectError A
lifted (ok a) = ok a
lifted (err e) = err (stream e)
lifted panic = panic
lifted stuck = stuck

pub record BinaryWriter : Type 0 where
  pub new_meta : BinaryMetadata
  pub old_meta : Option BinaryMetadata
  pub schema_bld : BinarySchemaBuilder
  pub out_stream : Out
  pub start_pos : ℕ
  pub offset : ℕ
  pub flags : ℕ

module _ (marsh : Marshaller) where
  open marsh use {
    Value, is_nil, type_of, marshal_value, type_id_of, field_id_of, compact_footer, put_metadata,
  }

  -- `boField`; the type id is none for -1.
  pub record BoField : Type 0 where
    pub type_id : Option ℕ
    pub value : Value

  -- `newBinaryWriterImpl`
  unfoldable pub new_binary_writer :
      Out → BinaryMetadata → Option BinaryMetadata → Result ObjectError BinaryWriter
  unfolding set_position marshal_string
  new_binary_writer s new_meta old_meta = lifted (ensure_available header_length s) >>= λ s1.
      let start : ℕ = s1.position in
      let s2 : Out = set_position (start + header_length) s1 in
      let named = lifted (marshal_string new_meta.type_name s2) in
      let writer : Out → ℕ → BinaryWriter = λ out offset. record {
        new_meta = new_meta;
        old_meta = old_meta;
        schema_bld = new_builder;
        out_stream = out;
        start_pos = start;
        offset = offset;
        flags = if compact_footer then bit_or 1 32 else 1;
      } in
      if new_meta.type_id == unregistered
      then (named >>= λ s3. ok (writer s3 (s3.position - start)))
      else ok (writer s2 header_length)

  -- The metadata of a field that was known before.
  unfoldable pub old_field : Option BinaryMetadata → String → Option BinaryFieldMeta
  old_field none name = none
  old_field (some meta) name = lookup name meta.fields

  -- The type of a field, if it is not given: that of the value, or for nil that known before.
  unfoldable pub field_type : Option BinaryFieldMeta → BoField → Result ObjectError ℕ
  field_type known field = elim field.type_id [
    | some t ↦ ok t
    | none ↦
        if not (is_nil field.value)
        then (elim (type_of field.value) [ some t ↦ ok t | none ↦ err no_type_id ])
        else (elim known [ some f ↦ ok f.type_id | none ↦ ok (code binary_object_type) ])
  ]

  -- `field.typeId != oldFieldMeta.typeId`, and `addField` of a field that was not known.
  unfoldable pub with_field :
      Option BinaryFieldMeta → BinaryMetadata → String → ℕ → ℕ → Result ObjectError BinaryMetadata
  with_field (some f) meta name type_id field_id =
      if f.type_id == type_id then ok meta else err field_type_differs
  with_field none meta name type_id field_id = ok (add_field meta name type_id field_id)

  -- `writeField0`
  unfoldable pub write_field : String → BoField → BinaryWriter → Result ObjectError BinaryWriter
  unfolding old_field field_type with_field
  write_field name field w =
      let known = old_field w.old_meta name in
      let field_id = field_id_of w.new_meta.type_id name in
      field_type known field >>= λ type_id.
      with_field known w.new_meta name type_id field_id >>= λ meta.
      lifted (marshal_value field.value w.out_stream) >>= λ out. ok (record w {
        flags = bit_or w.flags 2;
        new_meta = meta;
        schema_bld = add_schema_field w.schema_bld field_id (w.out_stream.position - w.start_pos);
        out_stream = out;
      })

  unfoldable pub write_fields :
      List (String × BoField) → BinaryWriter → Result ObjectError BinaryWriter
  unfolding write_field
  write_fields [] w = ok w
  write_fields ((name, field) ∷ fields) w = write_field name field w >>= write_fields fields

  -- The flag of the size of an offset.
  abbrev pub size_flag : ℕ → ℕ → ℕ
  size_flag flags size =
      if size == 1 then bit_or flags 8 else if size == 2 then bit_or flags 16 else flags

  -- The footer, in `finalize`.
  unfoldable pub finish_fields : BinaryWriter → Result ObjectError BinaryWriter
  finish_fields w =
      let footer = lifted (write_footer w.schema_bld compact_footer w.out_stream) in
      if bit_and w.flags 2 == 2
      then (footer >>= λ out. ok (record w {
        offset = w.out_stream.position - w.start_pos;
        flags = size_flag w.flags (footer_size w.schema_bld);
        out_stream = out;
      }))
      else ok w

  -- The header but for the hash code, in `finalize`; `end` is the end of the object.
  unfoldable pub write_header : BinaryWriter → ℕ → Write
  unfolding set_position
  write_header w end s =
      (write_type (code binary_object_type)
          ▸ write_uint8 1
          ▸ write_uint16 w.flags
          ▸ write_uint32 w.new_meta.type_id)
        (set_position w.start_pos s)
      >>= λ s'.
          (write_uint32 (end - w.start_pos)
              ▸ write_uint32 w.schema_bld.schema_id
              ▸ write_uint32 w.offset)
            (set_position (w.start_pos + 12) s')

  -- The hash code of the fields, in `finalize`, and the position restored.
  unfoldable pub write_hash : BinaryWriter → ℕ → Write
  unfolding set_position
  write_hash w end s = hash_code s (w.start_pos + header_length) (w.start_pos + w.offset) >>= λ h.
      write_uint32 h (set_position (w.start_pos + 8) s) >>= λ s'. ok (set_position end s')

  -- The metadata that `finalize` registers.
  unfoldable pub final_meta : BinaryWriter → BinaryMetadata
  final_meta w =
      let meta = add_schema w.new_meta (build w.schema_bld) in
      if meta.type_id == unregistered
      then record meta { type_id = type_id_of meta.type_name }
      else meta

  -- `finalize`: the stream at the end of the object.
  unfoldable pub finalize : BinaryWriter → Result ObjectError Out
  unfolding finish_fields write_header write_hash final_meta
  finalize w = finish_fields w >>= λ w'.
      let end : ℕ = w'.out_stream.position in
      lifted (write_header w' end w'.out_stream) >>= λ s.
      if put_metadata (final_meta w') then lifted (write_hash w' end s) else err registry_failed

  -- The part of `newBinaryObject` and `marshalBinarylizable` that writes.
  unfoldable pub write_object :
      BinaryMetadata
      → Option BinaryMetadata
      → List (String × BoField)
      → Out
      → Result ObjectError Out
  unfolding new_binary_writer write_fields finalize
  write_object new_meta old_meta fields s =
      new_binary_writer s new_meta old_meta >>= λ w. write_fields fields w >>= finalize
