-- ===== src/Schema/Footer.antt =====
-- The bytes of the footer that `WriteFooter` of binary_schema.go writes.
use mcgv.Base.{ℕ, ◌%◌, ◌^◌, ◌≤◌, ◌<◌, ◌≡◌, refl, sym, ap, ◌∙◌, arith, inl, inr, Bool, true, false}
use mathlib.Core.Path.{subst}
use mcgv.Base.{List, [], ◌∷◌, ◌++◌, ltb, if◌then◌else◌, All, Bool-cases, append_assoc}
use mcgv.Base.{ltb→lt, ltb→le}
use mcgv.Base.Bytes.{le_bytes, of_le, of_le-le_bytes}
use mcgv.Stream.Out.Writes.{
  ◌⊳◌, Emits, skip_Emits, write_uint8-Emits, write_uint16-Emits, write_uint32-Emits,
}
use mcgv.Schema.{
  BinarySchemaBuilder, last_offset, field_size, write_offset, write_offsets, footer_size,
  write_footer,
}

-- Fields with offsets: the footer has an entry for each, with the id unless it is compact.
abbrev pub entry_bytes : Bool → ℕ → ℕ × ℕ → List ℕ
entry_bytes compact size (id, offset) =
    (if compact then [] else le_bytes 4 id) ++ le_bytes size offset

abbrev pub footer_bytes : Bool → ℕ → List (ℕ × ℕ) → List ℕ
footer_bytes compact size [] = []
footer_bytes compact size (d ∷ ds) = entry_bytes compact size d ++ footer_bytes compact size ds

-- The offsets are not negative, and none is past the last.
abbrev pub UpTo : ℕ → List (ℕ × ℕ) → Type 0
UpTo last ds = All (λ d. d.1 ≤ last) ds

-- An offset up to `last` takes 1, 2 or 4 bytes.
pub data IsSize (last : ℕ) : ℕ → Type 0 where
  one : last < 2 ^ 8 → IsSize last 1
  two : last < 2 ^ 16 → IsSize last 2
  four : last < 2 ^ 32 → IsSize last 4

pub field_size-IsSize : (last : ℕ) → last < 2 ^ 31 → IsSize last (field_size last)
field_size-IsSize last h = elim (Bool-cases (ltb last (2 ^ 8))) [
  | inl small ↦ rw small (one (ltb→lt _ _ small))
  | inr big ↦
      let positive : ltb last (2 ^ 31) ≡ true = ground arith in
      elim (Bool-cases (ltb last (2 ^ 16))) [
        | inl small ↦ rw (big, positive, small) (two (ltb→lt _ _ small))
        | inr large ↦ rw (big, positive, large) (four (omega arith))
      ]
]

-- Numbers that a size takes are read back from their bytes.
pub IsSize-read :
    (last size offset : ℕ)
    → IsSize last size
    → offset ≤ last
    → of_le (le_bytes size offset) ≡ offset
IsSize-read last size offset (one h) k = of_le-le_bytes 1 offset (omega arith)
IsSize-read last size offset (two h) k = of_le-le_bytes 2 offset (omega arith)
IsSize-read last size offset (four h) k = of_le-le_bytes 4 offset (omega arith)

write_offset-Emits :
    (last size offset : ℕ)
    → IsSize last size
    → offset ≤ last
    → Emits (write_offset size offset) (le_bytes size offset)
unfolding write_offset le_bytes
write_offset-Emits last size offset (one h) k = write_uint8-Emits (offset % 2 ^ 8)
write_offset-Emits last size offset (two h) k =
    let same : offset % 2 ^ 16 ≡ offset = omega arith in rw same (write_uint16-Emits offset)
write_offset-Emits last size offset (four h) k = write_uint32-Emits offset

write_offsets-Emits :
    (compact : Bool) (last size : ℕ) (ds : List (ℕ × ℕ))
    → IsSize last size
    → UpTo last ds
    → Emits (write_offsets compact size ds) (footer_bytes compact size ds)
unfolding write_offsets
write_offsets-Emits compact last size [] h up = skip_Emits
write_offsets-Emits true last size ((id, offset) ∷ ds) h up =
    skip_Emits
    ⊳ write_offset-Emits last size offset h up.0
    ⊳ write_offsets-Emits true last size ds h up.1
write_offsets-Emits false last size ((id, offset) ∷ ds) h up =
    rw (append_assoc (le_bytes 4 id) (le_bytes size offset) (footer_bytes false size ds)) (
      write_uint32-Emits id
      ⊳ write_offset-Emits last size offset h up.0
      ⊳ write_offsets-Emits false last size ds h up.1)

-- What `WriteFooter` appends, with the size that it finds.
pub sized_footer-Emits :
    (bld : BinarySchemaBuilder) (compact : Bool)
    → UpTo (last_offset bld.data_of) bld.data_of
    → last_offset bld.data_of < 2 ^ 31
    → Emits (write_footer bld compact) (footer_bytes compact (footer_size bld) bld.data_of)
unfolding write_footer footer_size
sized_footer-Emits bld compact up small = go bld.data_of up small
  where
    go :
        (ds : List (ℕ × ℕ))
        → UpTo (last_offset ds) ds
        → last_offset ds < 2 ^ 31
        → Emits
            (write_offsets compact
              (footer_size (record { schema_id = bld.schema_id; data_of = ds }))
              ds)
            (footer_bytes compact
              (footer_size (record { schema_id = bld.schema_id; data_of = ds }))
              ds)
    go [] up' small' = write_offsets-Emits compact 0 1 [] (one (omega arith)) tt
    go (d ∷ ds) up' small' =
        write_offsets-Emits compact (last_offset (d ∷ ds)) (field_size (last_offset (d ∷ ds)))
          (d ∷ ds) (field_size-IsSize (last_offset (d ∷ ds)) small') up'

-- The least of 1, 2 and 4 bytes that hold the last offset.
pub data IsLeastSize (last : ℕ) : ℕ → Type 0 where
  in_one : last < 2 ^ 8 → IsLeastSize last 1
  in_two : 2 ^ 8 ≤ last → last < 2 ^ 16 → IsLeastSize last 2
  in_four : 2 ^ 16 ≤ last → IsLeastSize last 4

field_size-IsLeastSize : (last : ℕ) → last < 2 ^ 31 → IsLeastSize last (field_size last)
field_size-IsLeastSize last h = elim (Bool-cases (ltb last (2 ^ 8))) [
  | inl small ↦ rw small (in_one (ltb→lt _ _ small))
  | inr big ↦
      let positive : ltb last (2 ^ 31) ≡ true = ground arith in
      let above : 2 ^ 8 ≤ last = ltb→le _ _ big in
      elim (Bool-cases (ltb last (2 ^ 16))) [
        | inl small ↦ rw (big, positive, small) (in_two above (ltb→lt _ _ small))
        | inr large ↦ rw (big, positive, large) (in_four (ltb→le _ _ large))
      ]
]

-- Every offset is read back from its bytes in the footer.
abbrev pub ReadBack : ℕ → List (ℕ × ℕ) → Type 0
ReadBack size ds = All (λ d. of_le (le_bytes size d.1) ≡ d.1) ds

read_back : (last size : ℕ) (ds : List (ℕ × ℕ)) → IsSize last size → UpTo last ds → ReadBack size ds
read_back last size [] h up = tt
read_back last size (d ∷ ds) h up =
    (IsSize-read last size d.1 h up.0, read_back last size ds h up.1)

last_offset_lem : (ds : List (ℕ × ℕ)) (id last : ℕ) → last_offset (ds ++ ((id, last) ∷ [])) ≡ last
last_offset_lem [] id last = refl
last_offset_lem (d ∷ []) id last = refl
last_offset_lem (d ∷ (e ∷ ds)) id last = last_offset_lem (e ∷ ds) id last

-- The size of an offset, if there is a field.
size_lem :
    (bld : BinarySchemaBuilder) (ds : List (ℕ × ℕ)) (id last : ℕ)
    → bld.data_of ≡ ds ++ ((id, last) ∷ [])
    → footer_size bld ≡ field_size last
unfolding footer_size
size_lem bld ds id last e = rw e (go ds)
  where
    go :
        (l : List (ℕ × ℕ))
        → footer_size (record { schema_id = bld.schema_id; data_of = l ++ ((id, last) ∷ []) })
          ≡ field_size last
    go [] = refl
    go (d ∷ l) = ap field_size (last_offset_lem (d ∷ l) id last)

-- `WriteFooter` for a schema with fields, none of which has an offset past that of the last one, which
-- is below 2 ^ 31. It appends the entries in the order of the fields, or panics if they do not fit the
-- stream. An entry is the id, unless the footer is compact, and the offset in the least of 1, 2 and 4
-- bytes that hold the last offset; that number is also the result. Each offset is read back from its
-- bytes.
pub write_footer-Emits :
    (bld : BinarySchemaBuilder) (compact : Bool) (ds : List (ℕ × ℕ)) (id last : ℕ)
    → bld.data_of ≡ ds ++ ((id, last) ∷ [])
    → UpTo last bld.data_of
    → last < 2 ^ 31
    → (size : ℕ) × IsLeastSize last size
      × (footer_size bld ≡ size)
      × Emits (write_footer bld compact) (footer_bytes compact size bld.data_of)
      × ReadBack size bld.data_of
write_footer-Emits bld compact ds id last e up small =
    let same : last_offset bld.data_of ≡ last = ap last_offset e ∙ last_offset_lem ds id last in
    let size : footer_size bld ≡ field_size last = size_lem bld ds id last e in
    let emits : Emits (write_footer bld compact)
        (footer_bytes compact (field_size last) bld.data_of) =
      subst (λ n. Emits (write_footer bld compact) (footer_bytes compact n bld.data_of)) size
        (sized_footer-Emits bld compact (subst (λ l. UpTo l bld.data_of) (sym same) up)
          (omega (arith, same))) in
    (
      field_size last,
      field_size-IsLeastSize last small,
      size,
      emits,
      read_back last (field_size last) bld.data_of (field_size-IsSize last small) up,
    )
