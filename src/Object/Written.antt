-- ===== src/Object/Written.antt =====
-- The bytes of an object that `binaryWriterImpl` of binary_object.go writes.
pub mod Body
pub mod Final
pub mod Whole
use mcgv.Base.{
  ℕ, ◌+◌, ◌-◌, ◌≤◌, ◌<◌, ◌≡◌, refl, sym, ap, ◌∙◌, arith, List, [], ◌∷◌, ◌++◌, append_assoc,
  append-nil,
}
use mcgv.Base.{
  Bool, true, false, Option, none, some, ok, err, ◌>>=◌, ◌==◌, if◌then◌else◌, bit_or, not, ltb, inl,
  inr, Bool-cases, ==_iff,
}
use mcgv.Base.{length, take, drop, length-append, length-take, String, map}
use mcgv.Stream.Out.{Out, Write, contents, max_int32, set_position, ensure_available}
use mcgv.Stream.Out.Writes.{IsValid, Appended, Emits}
use mcgv.Schema.{BinarySchemaBuilder, new_builder, add_field as add_schema_field}
use mcgv.Schema.Built.{add_all, add_all-last}
use mcgv.Metadata.{BinaryFieldMeta, BinaryMetadata, add_field}
use mcgv.Object.{Marshaller, Laws, ObjectError}
use mcgv.Object.Writer.{
  BinaryWriter, BoField, header_length, lifted, new_binary_writer, old_field, field_type,
  with_field, write_field, write_fields,
}
use mcgv.Object.Offsets.{Fields, values_bytes, offsets}

module _ (m : Marshaller) (laws : Laws m) where
  open m use {field_id_of, marshal_value, compact_footer}
  open laws use {encode, Fits, emits}

  -- A field whose type is known, and is that of the registered metadata if the name is there.
  pub record Agrees (old_meta : Option BinaryMetadata) (name : String) (field : BoField m)
      : Type 0 where
    pub type_id : ℕ
    pub typed : field_type m (old_field m old_meta name) field ≡ ok type_id
    pub same_type : (f : BinaryFieldMeta) → old_field m old_meta name ≡ some f → f.type_id ≡ type_id

  abbrev pub AllFit : Option BinaryMetadata → Fields m laws 0 → Type 0
  AllFit old_meta [] = Unit
  AllFit old_meta ((name, f) ∷ fs) = Fits f.value × Agrees old_meta name f × AllFit old_meta fs

  -- A writer between two fields: before the object `pre`, then room for the header, then `body`.
  pub record Writing (w : BinaryWriter) (type_id : ℕ) (pre junk body : List ℕ) (flags : ℕ)
      (ds : List (ℕ × ℕ)) : Type 0 where
    pub valid : IsValid w.out_stream
    pub held : contents w.out_stream ≡ pre ++ (junk ++ body)
    pub position : w.out_stream.position ≡ length pre + 24 + length body
    pub start : w.start_pos ≡ length pre
    pub junk_length : length junk ≡ 24
    pub type : w.new_meta.type_id ≡ type_id
    pub flags_are : w.flags ≡ flags
    pub built : w.schema_bld ≡ add_all new_builder ds

  -- The metadata of a field that agrees.
  with_field-type :
      (known : Option BinaryFieldMeta) (meta : BinaryMetadata) (name : String) (t id : ℕ)
      → ((f : BinaryFieldMeta) → known ≡ some f → f.type_id ≡ t)
      → (meta' : BinaryMetadata) × (with_field m known meta name t id ≡ ok meta')
        × (meta'.type_id ≡ meta.type_id)
  unfolding with_field add_field
  with_field-type none meta name t id h = (add_field meta name t id, refl, refl)
  with_field-type (some f) meta name t id h =
      let same : (f.type_id == t) ≡ true = (==_iff f.type_id t).1 (h f refl) in
      (meta, rw same refl, refl)

  -- One field.
  pub write_field-Writing :
      (w : BinaryWriter) (type_id : ℕ) (pre junk body : List ℕ) (flags : ℕ) (ds : List (ℕ × ℕ))
      (name : String) (f : BoField m)
      → Writing w type_id pre junk body flags ds
      → Fits f.value
      → Agrees w.old_meta name f
      → length pre + 24 + length (body ++ encode f.value) ≤ max_int32
      → (w' : BinaryWriter) × (write_field m name f w ≡ ok w')
        × Writing w' type_id pre junk
            (body ++ encode f.value)
            (bit_or flags 2)
            (ds ++ ((field_id_of type_id name, 24 + length body) ∷ []))
        × (w'.old_meta ≡ w.old_meta)
  unfolding write_field
  write_field-Writing w type_id pre junk body flags ds name f h fits agrees room =
      let known = old_field m w.old_meta name in
      let id = field_id_of w.new_meta.type_id name in
      let at_offset : w.out_stream.position - w.start_pos ≡ 24 + length body =
        omega (arith, h.position, h.start) in
      let (meta, ran, kept) =
        with_field-type known w.new_meta name agrees.type_id id agrees.same_type in
      let (out, wrote, app) =
        (emits f.value fits).fits w.out_stream h.valid
          (omega (arith, h.position, length-append body (encode f.value))) in
      (
        record w {
          flags = bit_or w.flags 2;
          new_meta = meta;
          schema_bld = add_schema_field w.schema_bld id (w.out_stream.position - w.start_pos);
          out_stream = out;
        },
        rw (agrees.typed, ran, wrote) refl,
        record {
          valid = app.valid;
          held =
              app.grown
              ∙ ap (λ l. l ++ encode f.value) h.held
              ∙ append_assoc pre (junk ++ body) (encode f.value)
              ∙ ap (λ l. pre ++ l) (append_assoc junk body (encode f.value));
          position = omega (arith, app.moved, h.position, length-append body (encode f.value));
          start = h.start;
          junk_length = h.junk_length;
          type = kept ∙ h.type;
          flags_are = ap (λ k. bit_or k 2) h.flags_are;
          built =
              ap (λ b. add_schema_field b id (w.out_stream.position - w.start_pos)) h.built
              ∙ rw (h.type, at_offset) refl
              ∙ add_all-last new_builder ds (field_id_of type_id name) (24 + length body);
        },
        refl,
      )
