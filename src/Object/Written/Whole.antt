-- ===== src/Object/Written/Whole.antt =====
-- A whole object that `newBinaryObject` of binary_object.go writes, with `finalize`.
use mcgv.Base.{
  ℕ, ◌+◌, ◌-◌, ◌≤◌, ◌<◌, ◌^◌, ◌≡◌, refl, sym, ap, ◌∙◌, arith, List, [], ◌∷◌, ◌++◌, append_assoc,
}
use mcgv.Base.{
  Bool, true, false, Option, ok, ◌==◌, if◌then◌else◌, bit_or, bit_and, length, length-append,
  length-take, String,
}
use mathlib.Core.Path.{subst}
use mcgv.Base.Bytes.{le_bytes, length-le_bytes}
use mcgv.Hash.{slice_hash_code}
use mcgv.Stream.Out.{Out, contents, max_int32, set_position}
use mcgv.Stream.Out.Writes.{IsValid, Appended, Emits}
use mcgv.Schema.{
  BinarySchemaBuilder, new_builder, last_offset, field_size, footer_size, write_footer,
}
use mcgv.Schema.Built.{add_all, new_data}
use mcgv.Schema.Footer.{footer_bytes, sized_footer-Emits, UpTo}
use mcgv.Metadata.{BinaryMetadata}
use mcgv.Object.{Marshaller, Laws}
use mcgv.Object.Writer.{
  BinaryWriter, BoField, size_flag, write_fields, final_meta, finish_fields, finalize, write_object,
}
use mcgv.Object.Offsets.{Fields, values_bytes, offsets, offsets-UpTo, offsets-below}
use mcgv.Object.Header.{Over}
use mcgv.Object.Written.{Writing, Agrees, AllFit, write_field-Writing}
use mcgv.Object.Written.Body.{write_fields-Writing, new_binary_writer-Writing}
use mcgv.Object.Written.Final.{
  header_front, header_back, length-header_front, length-header_back, write_header_lem,
  write_hash_lem,
}

-- The flags of an object with fields, but for the size of an offset.
abbrev pub written_flags : Bool → ℕ
written_flags true = 35
written_flags false = 3

first_flags : (c : Bool) → bit_or (if c then 33 else 1) 2 ≡ written_flags c
first_flags true = refl
first_flags false = refl

later_flags : (c : Bool) → bit_or (written_flags c) 2 ≡ written_flags c
later_flags true = refl
later_flags false = refl

have_fields : (c : Bool) → (bit_and (written_flags c) 2 == 2) ≡ true
have_fields true = refl
have_fields false = refl

footer-Emits :
    (bld : BinarySchemaBuilder) (compact : Bool) (d : ℕ × ℕ) (ds : List (ℕ × ℕ))
    → bld.data_of ≡ d ∷ ds
    → UpTo (last_offset (d ∷ ds)) (d ∷ ds)
    → last_offset (d ∷ ds) < 2 ^ 31
    → (footer_size bld ≡ field_size (last_offset (d ∷ ds)))
      × Emits
          (write_footer bld compact)
          (footer_bytes compact (field_size (last_offset (d ∷ ds))) (d ∷ ds))
unfolding footer_size
footer-Emits bld compact d ds e up small =
    let size : footer_size bld ≡ field_size (last_offset (d ∷ ds)) = rw e refl in
    (
      size,
      subst (λ l. Emits (write_footer bld compact) l)
          (ap (λ n. footer_bytes compact n bld.data_of) size
            ∙ ap (λ l. footer_bytes compact (field_size (last_offset (d ∷ ds))) l) e)
          (sized_footer-Emits bld compact (subst (λ l. UpTo (last_offset l) l) (sym e) up)
            (subst (λ l. last_offset l < 2 ^ 31) (sym e) small)),
    )

-- The header, the fields and the footer.
abbrev pub framed : List ℕ → List ℕ → ℕ → ℕ → ℕ → ℕ → ℕ → List ℕ
framed body footer flags id size schema_id offset =
    header_front flags id
    ++ (le_bytes 4 (slice_hash_code body)
        ++ (header_back size schema_id offset ++ (body ++ footer)))

module _ (m : Marshaller) (laws : Laws m) (type_id : ℕ) where
  open m use {compact_footer}

  abbrev pub fields_footer : Fields m laws type_id → List ℕ
  fields_footer fs =
      let ds = offsets m laws type_id 24 fs in
      footer_bytes compact_footer (field_size (last_offset ds)) ds

  abbrev pub object_flags : Fields m laws type_id → ℕ
  object_flags fs =
      size_flag m (written_flags compact_footer)
        (field_size (last_offset (offsets m laws type_id 24 fs)))

  abbrev pub object_schema_id : Fields m laws type_id → ℕ
  object_schema_id fs = (add_all new_builder (offsets m laws type_id 24 fs)).schema_id

  abbrev pub object_bytes : Fields m laws type_id → List ℕ
  object_bytes fs =
      let body = values_bytes m laws type_id fs in
      let footer = fields_footer fs in
      framed body footer (object_flags fs) type_id (24 + length body + length footer)
        (object_schema_id fs) (24 + length body)

  pub length-object_bytes :
      (fs : Fields m laws type_id)
      → length (object_bytes fs)
        ≡ 24 + length (values_bytes m laws type_id fs) + length (fields_footer fs)
  length-object_bytes fs =
      let body = values_bytes m laws type_id fs in
      let footer = fields_footer fs in
      let front = header_front (object_flags fs) type_id in
      let hash = le_bytes 4 (slice_hash_code body) in
      let back =
        header_back (24 + length body + length footer) (object_schema_id fs) (24 + length body) in
      omega (
        arith,
        length-append front (hash ++ (back ++ (body ++ footer))),
        length-append hash (back ++ (body ++ footer)),
        length-append back (body ++ footer),
        length-append body footer,
        length-header_front (object_flags fs) type_id,
        length-le_bytes 4 (slice_hash_code body),
        length-header_back (24 + length body + length footer) (object_schema_id fs)
            (24 + length body),
      )

  -- `finalize`, after the fields.
  finalize-Appended :
      (w : BinaryWriter) (s : Out) (junk : List ℕ) (f : String × BoField m)
      (fs : Fields m laws type_id)
      → s.position ≡ length (contents s)
      → Writing m laws w type_id
          (contents s)
          junk
          (values_bytes m laws type_id (f ∷ fs))
          (written_flags compact_footer)
          (offsets m laws type_id 24 (f ∷ fs))
      → s.position + length (object_bytes (f ∷ fs)) ≤ max_int32
      → (s' : Out) × (finalize m w ≡ ok s') × Appended s (object_bytes (f ∷ fs)) s'
  unfolding finalize finish_fields set_position contents
  finalize-Appended w s junk f fs at_end h room =
      let all = f ∷ fs in
      let pre = contents s in
      let body = values_bytes m laws type_id all in
      let footer = fields_footer all in
      let d = offsets m laws type_id 24 all in
      let total = length-object_bytes all in
      let small : last_offset d < 2 ^ 31 = omega (arith, offsets-below m laws type_id 24 f fs) in
      let entries : w.schema_bld.data_of ≡ d = ap (λ b. b.data_of) h.built ∙ new_data d in
      let (size, emits) =
        footer-Emits w.schema_bld compact_footer _ _ entries (offsets-UpTo m laws type_id 24 f fs)
          small in
      let (out, wrote, app) = emits.fits w.out_stream h.valid (omega (arith, h.position)) in
      let at_body : w.out_stream.position - w.start_pos ≡ 24 + length body =
        omega (arith, h.position, h.start) in
      let has : (bit_and w.flags 2 == 2) ≡ true =
        ap (λ k. bit_and k 2 == 2) h.flags_are ∙ have_fields compact_footer in
      let w1 : BinaryWriter = record w {
        offset = w.out_stream.position - w.start_pos;
        flags = size_flag m w.flags (footer_size w.schema_bld);
        out_stream = out;
      } in
      let finished : finish_fields m w ≡ ok w1 = rw (has, wrote) refl in
      let held =
        app.grown
        ∙ ap (λ l. l ++ footer) h.held
        ∙ append_assoc pre (junk ++ body) footer
        ∙ ap (λ l. pre ++ l) (append_assoc junk body footer) in
      let end_at : out.position - w.start_pos ≡ 24 + length body + length footer =
        omega (arith, app.moved, h.position, h.start) in
      let over : Over (set_position w.start_pos out) out.position pre junk (body ++ footer) =
        record {
          inside = app.valid.inside;
          small = app.valid.small;
          whole = held;
          at_done = h.start;
        } in
      let (s1, gap, ran1, four, o1) =
        write_header_lem m w1 out out.position pre junk (body ++ footer) over h.start
          h.junk_length in
      let (s2, ran2, valid, holds, moved) =
        write_hash_lem m w1 s1 out.position pre (header_front w1.flags w.new_meta.type_id) gap
          (header_back (out.position - w.start_pos) w.schema_bld.schema_id w1.offset) body footer o1
          h.start at_body (length-header_front w1.flags w.new_meta.type_id) four
          (length-header_back (out.position - w.start_pos) w.schema_bld.schema_id w1.offset) in
      (
        s2,
        rw finished (rw (ran1, laws.registers (final_meta m w1), ran2) refl),
        record {
          valid = valid;
          grown =
              holds
              ∙ ap
                  (λ k.
                    pre
                    ++ framed body footer k w.new_meta.type_id (out.position - w.start_pos)
                        w.schema_bld.schema_id w1.offset)
                  (ap (λ k. size_flag m k (footer_size w.schema_bld)) h.flags_are
                    ∙ ap (size_flag m (written_flags compact_footer)) size)
              ∙ ap
                  (λ k.
                    pre
                    ++ framed body footer (object_flags all) k (out.position - w.start_pos)
                        w.schema_bld.schema_id w1.offset)
                  h.type
              ∙ ap
                  (λ k.
                    pre
                    ++ framed body footer (object_flags all) type_id k w.schema_bld.schema_id
                        w1.offset)
                  end_at
              ∙ ap
                  (λ b.
                    pre
                    ++ framed body footer (object_flags all) type_id
                        (24 + length body + length footer) b.schema_id w1.offset)
                  h.built
              ∙ ap
                  (λ k.
                    pre
                    ++ framed body footer (object_flags all) type_id
                        (24 + length body + length footer) (object_schema_id all) k)
                  at_body;
          moved = omega (arith, moved, app.moved, h.position, total);
        },
      )

  -- The bytes of an object of a registered type with at least one field, appended.
  pub write_object-Appended :
      (s : Out) (new_meta : BinaryMetadata) (old_meta : Option BinaryMetadata)
      (f : String × BoField m) (fs : Fields m laws type_id)
      → IsValid s
      → new_meta.type_id ≡ type_id
      → (type_id == 0) ≡ false
      → AllFit m laws old_meta (f ∷ fs)
      → s.position + length (object_bytes (f ∷ fs)) ≤ max_int32
      → (s' : Out) × (write_object m new_meta old_meta (f ∷ fs) s ≡ ok s')
        × Appended s (object_bytes (f ∷ fs)) s'
  unfolding write_object write_fields contents
  write_object-Appended s new_meta old_meta (name, f) fs v same registered fit room =
      let total = length-object_bytes ((name, f) ∷ fs) in
      let at_end : s.position ≡ length (contents s) =
        sym (length-take s.position s.buffer v.inside) in
      let split = length-append (laws.encode f.value) (values_bytes m laws type_id fs) in
      let (w, junk, ran, start, old) =
        new_binary_writer-Writing m laws s new_meta old_meta v (ap (λ k. k == 0) same ∙ registered)
          (omega (arith, total)) in
      let (w1, ran1, h1, old1) =
        write_field-Writing m laws w type_id (contents s) junk [] (if compact_footer then 33 else 1)
          [] name f
          (subst
            (λ k. Writing m laws w k (contents s) junk [] (if compact_footer then 33 else 1) [])
            same start)
          fit.0 (subst (λ o. Agrees m laws o name f) (sym old) fit.1)
          (omega (arith, total, split, at_end)) in
      let (w2, ran2, h2) =
        write_fields-Writing m laws fs w1 type_id (contents s) junk (laws.encode f.value)
          (written_flags compact_footer) ((m.field_id_of type_id name, 24) ∷ [])
          (later_flags compact_footer)
          (subst
            (λ k.
              Writing m laws w1 type_id (contents s) junk (laws.encode f.value) k
                ((m.field_id_of type_id name, 24) ∷ []))
            (first_flags compact_footer) h1)
          (subst (λ o. AllFit m laws o fs) (sym (old1 ∙ old)) fit.2)
          (omega (arith, total, split, at_end)) in
      let (s', ran3, app) = finalize-Appended w2 s junk (name, f) fs at_end h2 room in
      (s', rw (ran, ran1, ran2) ran3, app)
