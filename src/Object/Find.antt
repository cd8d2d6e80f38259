-- ===== src/Object/Find.antt =====
-- The steps of `Field` of binary_object.go, on an object whose parts are known.
use mcgv.Base.{
  ℕ, suc, ◌+◌, ◌-◌, ◌*◌, ◌≤◌, ◌≡◌, refl, ap, ◌∙◌, arith, inl, inr, List, [], ◌∷◌, ◌++◌, map,
}
use mcgv.Base.{
  Bool, true, false, Bool-cases, Option, none, some, ok, ◌==◌, leb, ltb, not, ◌&&◌, ◌⊎◌,
}
use mcgv.Base.{length, drop, length-append, drop-append, String}
use mcgv.Base.{lookup, some-injective, same_string, string_keys, number_keys}
use mathlib.Core.Path.{subst}
use mcgv.Base.Bytes.{le_bytes, of_le, length-le_bytes}
use mcgv.Stream.In.{new_input_stream}
use mcgv.Stream.In.Reads.{Shows}
use mcgv.Schema.{BinarySchema}
use mcgv.Schema.Footer.{footer_bytes}
use mcgv.Metadata.{BinaryMetadata}
use mcgv.Object.{Marshaller, Laws}
use mcgv.Object.Writer.{BoField}
use mcgv.Object.Reader.{
  FieldError, place_in_schema, last_index, BinaryObject, word_at, is_short, flags_of, schema_id_of,
  has_flag, sub_slice, footer_of, get_type_id, find_field, read_value, field_at, field_of,
}
use mcgv.Object.Layout.{AreDistinct, IsAt, sub_slice-inside, find_entry_lem, last_index_lem}
use mcgv.Object.Offsets.{Fields}
use mcgv.Object.Written.{AllFit}
use mcgv.Object.Framed.{FlagsSay}

length-footer_bytes :
    (size : ℕ) (ds : List (ℕ × ℕ)) → length ds ≤ length (footer_bytes false size ds)
length-footer_bytes size [] = omega arith
length-footer_bytes size ((i, o) ∷ ds) =
    let rest = footer_bytes false size ds in
    omega (
      arith,
      length-footer_bytes size ds,
      length-append (le_bytes 4 i ++ le_bytes size o) rest,
      length-append (le_bytes 4 i) (le_bytes size o),
      length-le_bytes 4 i,
    )

place_lem :
    (id size idx : ℕ) (ids : List ℕ) (schema : BinarySchema)
    → schema.field_ids ≡ ids
    → last_index id ids 0 none ≡ some idx
    → place_in_schema id size (inr (some schema)) ≡ ok (some (idx * size))
place_lem id size idx ids schema e run =
    let found : last_index id schema.field_ids 0 none ≡ some idx =
      ap (λ l. last_index id l 0 none) e ∙ run in
    rw (place_in_schema, found) refl

-- Where the offset stands in the footer, whether it has ids or not.
pub find_field-IsAt :
    (m : Marshaller) (schemas : ℕ → ℕ → FieldError ⊎ Option BinarySchema) (b : BinaryObject)
    (compact : Bool) (type_id id size offset : ℕ) (ds : List (ℕ × ℕ)) (schema : BinarySchema)
    → has_flag (flags_of b) 32 ≡ compact
    → schemas type_id (schema_id_of b) ≡ inr (some schema)
    → schema.field_ids ≡ map (λ d. d.0) ds
    → AreDistinct ds
    → lookup id ds ≡ some offset
    → (idx : ℕ) × (find_field m schemas b type_id id
          (footer_bytes compact size ds)
          (length (footer_bytes compact size ds))
          size
        ≡ ok (some idx))
      × IsAt (footer_bytes compact size ds) size offset idx
unfolding find_field
find_field-IsAt m schemas b true type_id id size offset ds schema flag known ids d e =
    let (idx, run, at') =
      last_index_lem size id offset (footer_bytes true size ds) [] ds 0 none refl (omega arith) d
        e in
    let placed : place_in_schema id size (inr (some schema)) ≡ ok (some (idx * size)) =
      place_lem id size idx (map (λ d. d.0) ds) schema ids run in
    (idx * size, rw (flag, known) placed, at')
find_field-IsAt m schemas b false type_id id size offset ds schema flag known ids d e =
    let footer = footer_bytes false size ds in
    let (idx, run, at') =
      find_entry_lem (suc (length footer)) size id offset footer [] ds 0 refl
        (omega (arith, length-footer_bytes size ds)) refl d e in
    (idx, rw (flag, run) refl, at')

pub get_type_id-raw :
    (m : Marshaller) (b : BinaryObject) (type_id : ℕ)
    → is_short b ≡ false
    → b.type_id ≡ 0
    → word_at 4 4 b.bytes ≡ type_id
    → (type_id == 0) ≡ false
    → get_type_id m b ≡ ok type_id
unfolding get_type_id
get_type_id-raw m b type_id long unset raw registered = rw (long, unset, raw, registered) refl

pub footer_of-append :
    (b : BinaryObject) (compact : Bool) (size flags : ℕ) (front footer : List ℕ)
    → is_short b ≡ false
    → flags_of b ≡ flags
    → FlagsSay compact size flags
    → word_at 4 20 b.bytes ≡ length front
    → b.bytes ≡ front ++ footer
    → footer_of b ≡ ok (footer, length footer, size)
unfolding footer_of
footer_of-append b compact size flags front footer long flag says start e =
    let total = ap length e ∙ length-append front footer in
    let inside : leb (length front + 0) (length b.bytes) ≡ true = ground (arith, total) in
    let cells : drop (length front) b.bytes ≡ footer =
      ap (drop (length front)) e ∙ drop-append front footer (length front) refl in
    let len : length b.bytes - 0 - length front ≡ length footer = omega (arith, total) in
    rw (flag, long, says.has_schema, says.has_raw, start, inside, says.offset_size, cells, len) refl

pub read_value-append :
    (m : Marshaller) (laws : Laws m) (b : BinaryObject) (v : m.Value) (front back : List ℕ)
    (offset : ℕ)
    → laws.Fits v
    → b.bytes ≡ front ++ (laws.encode v ++ back)
    → offset ≡ length front
    → read_value m b offset ≡ ok (some (laws.canon v))
unfolding read_value new_input_stream
read_value-append m laws b v front back offset fits e at_front =
    let shows : Shows (new_input_stream b.bytes offset) (laws.encode v ++ back) = record {
      inside = omega (arith, ap length e, length-append front (laws.encode v ++ back));
      left = ap (drop offset) e ∙ drop-append front (laws.encode v ++ back) offset at_front;
    } in
    rw (read_value, (laws.reads v fits).result (new_input_stream b.bytes offset) back shows) refl

pub field_of-steps :
    (m : Marshaller) (schemas : ℕ → ℕ → FieldError ⊎ Option BinarySchema) (b : BinaryObject)
    (name : String) (type_id : ℕ) (footer : List ℕ) (size idx : ℕ) (w : List ℕ)
    (value : Option m.Value)
    → has_flag (flags_of b) 2 ≡ true
    → get_type_id m b ≡ ok type_id
    → footer_of b ≡ ok (footer, length footer, size)
    → find_field m schemas b type_id (m.field_id_of type_id name) footer (length footer) size
      ≡ ok (some idx)
    → sub_slice footer idx (idx + size) ≡ ok w
    → read_value m b (of_le w) ≡ ok value
    → field_of m schemas b name ≡ ok value
unfolding field_of field_at
field_of-steps m schemas b name type_id footer size idx w value has typed footed found slice read =
    let inside : idx + size ≤ length footer = sub_slice-inside footer idx (idx + size) w slice in
    let indexed : (size == 1 && not (ltb idx (length footer))) ≡ false = ground (arith, inside) in
    rw (typed, footed, found, indexed, slice, has) read

pub lookup-Fits :
    (m : Marshaller) (laws : Laws m) (old_meta : Option BinaryMetadata) (fs : Fields m laws 0)
    (name : String) (f : BoField m)
    → AllFit m laws old_meta fs
    → lookup name fs ≡ some f
    → laws.Fits f.value
lookup-Fits m laws old_meta [] name f fit e = cc e
lookup-Fits m laws old_meta ((n, g) ∷ fs) name f fit e = elim (Bool-cases (same_string name n)) [
  | inl same ↦
      let value : g ≡ f = some-injective (rw same at e) in
      subst (λ k. laws.Fits k.value) value fit.0
  | inr other ↦ lookup-Fits m laws old_meta fs name f fit.2 (rw other at e)
]
