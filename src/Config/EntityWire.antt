-- ===== src/Config/EntityWire.antt =====
-- Query entities as they are written, and what is read of them.
pub mod RoundTrip
use mcgv.Base.{
  ℕ, suc, ◌+◌, ◌-◌, ◌%◌, ◌^◌, ◌≤◌, ◌<◌, ◌≡◌, refl, sym, ap, ◌∙◌, arith, Bool, true, false, List, [],
  ◌∷◌, ◌++◌, map, All, length, ok, inl, inr,
}
use mcgv.Base.{String, Map, Bool-cases, string_keys, if◌then◌else◌, ltb}
use mcgv.Base.Bytes.{le_bytes}
use mcgv.Base.Int.{ℤ, pos, negsuc, signed}
use mathlib.Core.Path.{subst}
use mcgv.Stream.Out.{Write, ◌▸◌, write_uint32}
use mcgv.Stream.Out.Writes.{
  Emits, ◌⊳◌, skip_Emits, write_bool-Emits, write_uint8-Emits, write_uint32-Emits,
}
use mcgv.Stream.In.{Read, ◌>>>◌, return, read_size}
use mcgv.Stream.In.Reads.{
  Reads, bind_Reads, map_Reads, return-Reads, bool_Reads, uint8_Reads, uint32_Reads,
}
use mcgv.Marshal.Canon.{IsLength}
use mcgv.Metadata.Wire.{put_all, read_slice_of, read_pairs}
use mcgv.Metadata.Wire.Sequences.{
  sequence_bytes, sequence_Emits, write_sequence-Emits, read_pairs-Reads, read_slice_of-Reads,
  string_bytes, nullable_bytes, marshal_string-Emits, nullable_Emits, string_Reads, nullable_Reads,
}
use mcgv.Protocol.{ProtocolContext, supports, since_query_entity_precision_and_scale}
use mcgv.Object.{Marshaller, Laws}
use mcgv.Config.{CacheKeyConfig, IndexField, QueryIndex, QueryField, QueryEntity, int32_of_int}
use mcgv.Config.Writer.{
  write_index_field, write_alias, marshal_query_index, marshal_query_field, marshal_query_entity,
}
use mcgv.Config.Reader.{
  read_index_field, read_alias, unmarshal_query_index, int_if, unmarshal_query_field,
  unmarshal_query_entity,
}

abbrev pub bool_byte : Bool → ℕ
bool_byte b = if b then 1 else 0

-- An int that an int32 holds.
abbrev pub IsInt32 : ℤ → Type 0
IsInt32 (pos n) = n < 2 ^ 31
IsInt32 (negsuc n) = n < 2 ^ 31

pub int_Reads : (z : ℤ) → IsInt32 z → Reads read_size (le_bytes 4 (int32_of_int z)) z
unfolding read_size int32_of_int
int_Reads (pos n) h =
    let e : signed 32 (n % 2 ^ 32) ≡ pos n = ground arith in
    subst (λ (z : ℤ). Reads read_size (le_bytes 4 (n % 2 ^ 32)) z) e
      (map_Reads _ (signed 32) _ (n % 2 ^ 32) (uint32_Reads (n % 2 ^ 32) (omega arith)))
int_Reads (negsuc n) h =
    let v : ℕ = 2 ^ 32 - 1 - n % 2 ^ 32 in
    let e : signed 32 (2 ^ 32 - 1 - n % 2 ^ 32) ≡ negsuc n = ground arith in
    subst (λ (z : ℤ). Reads read_size (le_bytes 4 (2 ^ 32 - 1 - n % 2 ^ 32)) z) e
      (map_Reads _ (signed 32) _ (2 ^ 32 - 1 - n % 2 ^ 32)
        (uint32_Reads (2 ^ 32 - 1 - n % 2 ^ 32) (omega arith)))

pub map_same {ℓ} : {A : Type ℓ} (l : List A) → map (λ (x : A). x) l ≡ l
map_same [] = refl
map_same (x ∷ l) = ap (λ r. x ∷ r) (map_same l)

abbrev pub IsText : String → Type 0
IsText s = IsLength (length s)

-- Aliases and indexes.
abbrev pub alias_bytes : String × String → List ℕ
alias_bytes (k, v) = string_bytes k ++ string_bytes v

abbrev pub index_field_bytes : IndexField → List ℕ
index_field_bytes f = string_bytes f.name ++ (bool_byte f.asc ∷ [])

abbrev pub index_bytes : QueryIndex → List ℕ
index_bytes i =
    string_bytes i.name
    ++ (i.idx_type
        ∷ (le_bytes 4 (int32_of_int i.inline_sz) ++ sequence_bytes index_field_bytes i.fields))

abbrev pub IsIndex : QueryIndex → Type 0
IsIndex i =
    IsText i.name
    × (i.idx_type < 256)
    × IsInt32 i.inline_sz
    × IsLength (length i.fields)
    × All (λ (f : IndexField). IsText f.name) i.fields

pub alias-Emits : (p : String × String) → Emits (write_alias p) (alias_bytes p)
unfolding write_alias
alias-Emits (k, v) = marshal_string-Emits k ⊳ marshal_string-Emits v

pub alias-Reads :
    (p : String × String) → IsText p.0 × IsText p.1 → Reads read_alias (alias_bytes p) p
unfolding read_alias
alias-Reads (k, v) h = bind_Reads _ (string_Reads k h.0) (map_Reads _ _ _ _ (string_Reads v h.1))

index_field-Emits : (f : IndexField) → Emits (write_index_field f) (index_field_bytes f)
unfolding write_index_field
index_field-Emits f = marshal_string-Emits f.name ⊳ write_bool-Emits f.asc

index_field-Reads :
    (f : IndexField) → IsText f.name → Reads read_index_field (index_field_bytes f) f
unfolding read_index_field
index_field-Reads f h = bind_Reads _ (string_Reads f.name h) (map_Reads _ _ _ _ (bool_Reads f.asc))

pub index-Emits : (i : QueryIndex) → Emits (marshal_query_index i) (index_bytes i)
unfolding marshal_query_index
index-Emits i =
    marshal_string-Emits i.name
    ⊳ write_uint8-Emits i.idx_type
    ⊳ write_uint32-Emits _
    ⊳ write_sequence-Emits write_index_field index_field_bytes i.fields index_field-Emits

pub each_Reads {ℓ κ} :
    {A : Type ℓ} (P : A → Type κ) (r : Read A) (bytes : A → List ℕ)
    → ((v : A) → P v → Reads r (bytes v) v)
    → (vs : List A) → All P vs
    → All (λ v. Reads r (bytes v) v) vs
each_Reads P r bytes f [] h = tt
each_Reads P r bytes f (v ∷ vs) h = (f v h.0, each_Reads P r bytes f vs h.1)

pub index-Reads : (i : QueryIndex) → IsIndex i → Reads unmarshal_query_index (index_bytes i) i
unfolding unmarshal_query_index
index-Reads i (name, t, sz, len, fs) =
    let each = each_Reads _ read_index_field index_field_bytes index_field-Reads i.fields fs in
    let sequence =
      subst
        (λ (l : List IndexField).
          Reads (read_slice_of read_index_field) (sequence_bytes index_field_bytes i.fields) l)
        (map_same i.fields)
        (read_slice_of-Reads read_index_field index_field_bytes (λ f. f) i.fields len each) in
    bind_Reads _ (string_Reads i.name name) (
      bind_Reads _ (uint8_Reads i.idx_type t)
        (bind_Reads _ (int_Reads i.inline_sz sz) (map_Reads _ _ _ _ sequence)))
