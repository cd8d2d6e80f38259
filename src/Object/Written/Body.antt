-- ===== src/Object/Written/Body.antt =====
-- All fields of an object that `binaryWriterImpl` of binary_object.go writes, from the room for the
-- header on.
use mcgv.Base.{
  ℕ, ◌+◌, ◌≤◌, ◌≡◌, refl, sym, ap, ◌∙◌, arith, List, [], ◌∷◌, ◌++◌, append_assoc, append-nil,
}
use mcgv.Base.{
  false, Option, ok, ◌==◌, if◌then◌else◌, bit_or, length, take, length-append, length-take, drop,
  length-drop, take-drop, take-append,
}
use mathlib.Core.Path.{subst}
use mcgv.Stream.Out.{Out, contents, max_int32, set_position}
use mcgv.Stream.Out.Writes.{IsValid, ensure_room}
use mcgv.Schema.{new_builder}
use mcgv.Metadata.{BinaryMetadata}
use mcgv.Object.{Marshaller, Laws}
use mcgv.Object.Writer.{BinaryWriter, header_length, new_binary_writer, write_fields}
use mcgv.Object.Offsets.{Fields, values_bytes, offsets}
use mcgv.Object.Written.{Writing, AllFit, write_field-Writing}

take_both :
    (a b : ℕ) (l : List ℕ) → a + b ≤ length l → take (a + b) l ≡ take a l ++ take b (drop a l)
take_both a b l h =
    let back = drop b (drop a l) in
    let front = take a l ++ take b (drop a l) in
    let whole : l ≡ front ++ back =
      sym (take-drop a l)
      ∙ ap (λ k. take a l ++ k) (sym (take-drop b (drop a l)))
      ∙ sym (append_assoc (take a l) (take b (drop a l)) back) in
    ap (take (a + b)) whole
    ∙ take-append front back (a + b) (
        omega (
          arith,
          length-append (take a l) (take b (drop a l)),
          length-take a l (omega arith),
          length-take b (drop a l) (omega (arith, length-drop a l)),
          length-drop a l,
        ))

module _ (m : Marshaller) (laws : Laws m) where
  open m use {compact_footer, field_id_of}
  open laws use {encode}

  -- Any number of fields, after the first.
  pub write_fields-Writing :
      (fs : Fields m laws 0) (w : BinaryWriter) (type_id : ℕ) (pre junk body : List ℕ) (flags : ℕ)
      (ds : List (ℕ × ℕ))
      → bit_or flags 2 ≡ flags
      → Writing m laws w type_id pre junk body flags ds
      → AllFit m laws w.old_meta fs
      → length pre + 24 + length (body ++ values_bytes m laws type_id fs) ≤ max_int32
      → (w' : BinaryWriter) × (write_fields m fs w ≡ ok w')
        × Writing m laws w' type_id pre junk
            (body ++ values_bytes m laws type_id fs)
            flags
            (ds ++ offsets m laws type_id (24 + length body) fs)
  unfolding write_fields
  write_fields-Writing [] w type_id pre junk body flags ds idem h fit room =
      (w, refl, rw (append-nil body, append-nil ds) h)
  write_fields-Writing ((name, f) ∷ fs) w type_id pre junk body flags ds idem h fit room =
      let bytes = encode f.value in
      let rest = values_bytes m laws type_id fs in
      let total = length-append (body ++ bytes) rest in
      let split = append_assoc body bytes rest in
      let (w1, ran, h1, same) =
        write_field-Writing m laws w type_id pre junk body flags ds name f h fit.0 fit.1
          (omega (arith, total, ap length split)) in
      let next : ℕ = 24 + length body + length bytes in
      let entry : ℕ × ℕ = (field_id_of type_id name, 24 + length body) in
      let at_next : 24 + length body + length bytes ≡ 24 + length (body ++ bytes) =
        omega (arith, length-append body bytes) in
      let (w2, ran2, h2) =
        write_fields-Writing fs w1 type_id pre junk (body ++ bytes) flags (ds ++ (entry ∷ [])) idem
          (rw idem at h1) (subst (λ o. AllFit m laws o fs) (sym same) fit.2)
          (rw (← split) at room) in
      (
        w2,
        rw ran ran2,
        subst
            (λ b.
              Writing m laws w2 type_id pre junk b flags
                (ds ++ (entry ∷ offsets m laws type_id next fs)))
            split
            (subst (λ d. Writing m laws w2 type_id pre junk (body ++ bytes ++ rest) flags d)
              (append_assoc ds (entry ∷ []) _
                ∙ ap (λ k. ds ++ (entry ∷ offsets m laws type_id k fs)) (sym at_next))
              h2),
      )

  -- The room for the header.
  pub new_binary_writer-Writing :
      (s : Out) (new_meta : BinaryMetadata) (old_meta : Option BinaryMetadata)
      → IsValid s
      → (new_meta.type_id == 0) ≡ false
      → s.position + 24 ≤ max_int32
      → (w : BinaryWriter) × (junk : List ℕ) × (new_binary_writer m s new_meta old_meta ≡ ok w)
        × Writing m laws w new_meta.type_id
            (contents s)
            junk
            []
            (if compact_footer then 33 else 1)
            []
        × (w.old_meta ≡ old_meta)
  unfolding new_binary_writer set_position contents new_builder
  new_binary_writer-Writing s new_meta old_meta v registered room =
      let (r, ran, at', same, enough) = ensure_room header_length s v room in
      let inside : r.position ≤ length r.buffer = omega arith in
      let junk = take 24 (drop r.position r.buffer) in
      let pre_length : length (contents s) ≡ r.position =
        ap length (sym same) ∙ length-take r.position r.buffer inside in
      (
        record {
          new_meta = new_meta;
          old_meta = old_meta;
          schema_bld = new_builder;
          out_stream = record r { position = r.position + 24 };
          start_pos = r.position;
          offset = 24;
          flags = if compact_footer then bit_or 1 32 else 1;
        },
        junk,
        rw (ran, registered) refl,
        record {
          valid = record { inside = omega arith; small = omega arith };
          held =
              take_both r.position 24 r.buffer (omega arith)
              ∙ ap (λ l. l ++ junk) same
              ∙ ap (λ l. contents s ++ l) (sym (append-nil junk));
          position = omega (arith, pre_length);
          start = sym pre_length;
          junk_length =
              length-take 24 (drop r.position r.buffer)
                (omega (arith, length-drop r.position r.buffer));
          type = refl;
          flags_are = refl;
          built = refl;
        },
        refl,
      )
