-- ===== src/Object/RoundTrip.antt =====
-- A binary object of binary_object.go that is written, and read with `Field`.
use mcgv.Base.{ℕ, ◌+◌, ◌^◌, ◌≤◌, ◌<◌, ◌≡◌, refl, sym, ap, ◌∙◌, arith, ◌∷◌, ◌++◌, map}
use mcgv.Base.{◌⊎◌, inr, true, false, append_assoc, Option, some, ok, ◌==◌}
use mcgv.Base.{length, drop, length-append, length-take, drop-append, ltb-false, String}
use mcgv.Base.{lookup, string_keys, number_keys}
use mcgv.Base.Bytes.{le_bytes, of_le, of_le-le_bytes}
use mcgv.Stream.Out.{Out, contents, max_int32}
use mcgv.Stream.Out.Writes.{IsValid}
use mcgv.Schema.{BinarySchema, new_builder, build, last_offset, field_size}
use mcgv.Schema.Built.{add_all, new_data, new_small}
use mcgv.Schema.Footer.{field_size-IsSize, IsSize-read}
use mcgv.Metadata.{BinaryMetadata}
use mcgv.Object.{Marshaller, Laws}
use mcgv.Object.Writer.{BoField, write_object}
use mcgv.Object.Reader.{
  FieldError, BinaryObject, word_at, is_short, flags_of, schema_id_of, has_flag, get_type_id,
  read_value, field_of,
}
use mcgv.Object.Layout.{AreDistinct}
use mcgv.Object.Offsets.{Fields, values_bytes, offsets, offsets-UpTo, offsets-below}
use mcgv.Object.Header.{regroup}
use mcgv.Object.Lookup.{lookup-Stands, lookup-UpTo}
use mcgv.Object.Written.{AllFit}
use mcgv.Object.Written.Whole.{
  fields_footer, object_flags, object_schema_id, object_bytes, length-object_bytes,
  write_object-Appended,
}
use mcgv.Object.Framed.{
  size_flag-FlagsSay, framed-flags, framed-type, framed-schema, framed-offset, framed-split,
}
use mcgv.Object.Find.{
  find_field-IsAt, get_type_id-raw, footer_of-append, read_value-append, field_of-steps,
  lookup-Fits,
}

module _ (m : Marshaller) (laws : Laws m) (type_id : ℕ) where
  open m use {compact_footer, field_id_of}

  -- A written object gives back the value of each of its fields.
  field_of-object_bytes :
      (schemas : ℕ → ℕ → FieldError ⊎ Option BinarySchema) (f : String × BoField m)
      (fs : Fields m laws type_id) (name : String) (g : BoField m)
      → (type_id == 0) ≡ false
      → type_id < 2 ^ 32
      → laws.Fits g.value
      → AreDistinct (offsets m laws type_id 24 (f ∷ fs))
      → schemas type_id (object_schema_id m laws type_id (f ∷ fs))
        ≡ inr (some (build (add_all new_builder (offsets m laws type_id 24 (f ∷ fs)))))
      → length (object_bytes m laws type_id (f ∷ fs)) ≤ max_int32
      → lookup name (f ∷ fs) ≡ some g
      → field_of m schemas
          (record { type_id = 0; bytes = object_bytes m laws type_id (f ∷ fs) })
          name
        ≡ ok (some (laws.canon g.value))
  unfolding flags_of schema_id_of build
  field_of-object_bytes schemas f fs name g registered int32 fits distinct known room e =
      let all = f ∷ fs in
      let b : BinaryObject = record { type_id = 0; bytes = object_bytes m laws type_id all } in
      let body = values_bytes m laws type_id all in
      let footer = fields_footer m laws type_id all in
      let ds = offsets m laws type_id 24 all in
      let total = length-object_bytes m laws type_id all in
      let below = offsets-below m laws type_id 24 f fs in
      let size_ok = field_size-IsSize (last_offset ds) (omega (arith, total, below)) in
      let says =
        size_flag-FlagsSay m compact_footer (last_offset ds) (field_size (last_offset ds))
          size_ok in
      let long : is_short b ≡ false = ltb-false _ _ (omega (arith, total)) in
      let flag : flags_of b ≡ object_flags m laws type_id all = rw long (
        framed-flags body footer _ _ _ _ _
        ∙ of_le-le_bytes 2 (object_flags m laws type_id all) says.small) in
      let schema_id : schema_id_of b ≡ object_schema_id m laws type_id all = rw long (
        framed-schema body footer _ _ _ _ _
        ∙ of_le-le_bytes 4 (object_schema_id m laws type_id all) (omega (arith, new_small ds))) in
      let (header, twenty_four, split) = framed-split body footer _ _ _ _ _ in
      let start : word_at 4 20 b.bytes ≡ length (header ++ body) =
        framed-offset body footer _ _ _ _ _
        ∙ of_le-le_bytes 4 (24 + length body) (omega (arith, total))
        ∙ omega (arith, length-append header body, twenty_four) in
      let typed : get_type_id m b ≡ ok type_id =
        get_type_id-raw m b type_id long refl
          (framed-type body footer _ _ _ _ _ ∙ of_le-le_bytes 4 type_id (omega arith)) registered in
      let footed =
        footer_of-append b compact_footer (field_size (last_offset ds))
          (object_flags m laws type_id all) (header ++ body) footer long flag says start
          (split ∙ sym (append_assoc header body footer)) in
      let stands = lookup-Stands m laws type_id 24 all name g distinct e in
      let (idx, found, at') =
        find_field-IsAt m schemas b compact_footer type_id (field_id_of type_id name)
          (field_size (last_offset ds)) stands.offset ds (build (add_all new_builder ds))
          (ap (λ k. has_flag k 32) flag ∙ says.is_compact) (ap (schemas type_id) schema_id ∙ known)
          (ap (map (λ d. d.0)) (new_data ds)) distinct stands.found in
      let number : of_le (le_bytes (field_size (last_offset ds)) stands.offset) ≡ stands.offset =
        IsSize-read (last_offset ds) (field_size (last_offset ds)) stands.offset size_ok (
          lookup-UpTo (last_offset ds) (field_id_of type_id name) stands.offset ds
            (offsets-UpTo m laws type_id 24 f fs) stands.found) in
      let here =
        split
        ∙ ap (λ l. header ++ (l ++ footer)) stands.split
        ∙ ap (λ l. header ++ l) (regroup stands.front (laws.encode g.value) stands.back footer)
        ∙ sym (append_assoc header stands.front (laws.encode g.value ++ (stands.back ++ footer))) in
      let value =
        read_value-append m laws b g.value (header ++ stands.front) (stands.back ++ footer)
          stands.offset fits here
          (omega (arith, stands.moved, length-append header stands.front, twenty_four)) in
      let has : has_flag (flags_of b) 2 ≡ true = ap (λ k. has_flag k 2) flag ∙ says.has_schema in
      field_of-steps m schemas b name type_id footer (field_size (last_offset ds)) idx
        (le_bytes (field_size (last_offset ds)) stands.offset) (some (laws.canon g.value)) has typed
        footed found at'.found (ap (read_value m b) number ∙ value)

  -- An object of a type with an id is written with its fields if it fits the stream, and `Field` then
  -- reads the value of each from the bytes that were appended. The marshaller takes the values and reads
  -- them back, and a field that is in the old metadata has the type that it has there; the registry takes
  -- all metadata; the ids of the fields are int32 and different; and `getSchema` finds the schema of the
  -- object.
  pub write_object-field_of :
      (s : Out) (new_meta : BinaryMetadata) (old_meta : Option BinaryMetadata)
      (schemas : ℕ → ℕ → FieldError ⊎ Option BinarySchema) (f : String × BoField m)
      (fs : Fields m laws type_id) (name : String) (g : BoField m)
      → IsValid s
      → new_meta.type_id ≡ type_id
      → (type_id == 0) ≡ false
      → type_id < 2 ^ 32
      → AllFit m laws old_meta (f ∷ fs)
      → AreDistinct (offsets m laws type_id 24 (f ∷ fs))
      → schemas type_id (object_schema_id m laws type_id (f ∷ fs))
        ≡ inr (some (build (add_all new_builder (offsets m laws type_id 24 (f ∷ fs)))))
      → s.position + length (object_bytes m laws type_id (f ∷ fs)) ≤ max_int32
      → lookup name (f ∷ fs) ≡ some g
      → (s' : Out) × (write_object m new_meta old_meta (f ∷ fs) s ≡ ok s')
        × (field_of m schemas (record { type_id = 0; bytes = drop s.position (contents s') }) name
            ≡ ok (some (laws.canon g.value)))
  unfolding contents
  write_object-field_of s new_meta old_meta schemas f fs name g v same registered int32 fit distinct
        known room e =
      let (s', ran, app) =
        write_object-Appended m laws type_id s new_meta old_meta f fs v same registered fit room in
      let bytes : drop s.position (contents s') ≡ object_bytes m laws type_id (f ∷ fs) =
        ap (drop s.position) app.grown
        ∙ drop-append (contents s) (object_bytes m laws type_id (f ∷ fs)) s.position
            (sym (length-take s.position s.buffer v.inside)) in
      (
        s',
        ran,
        ap (λ l. field_of m schemas (record { type_id = 0; bytes = l }) name) bytes
            ∙ field_of-object_bytes schemas f fs name g registered int32
                (lookup-Fits m laws old_meta (f ∷ fs) name g fit e) distinct known (omega arith) e,
      )
