-- ===== src/Metadata/Wire/RoundTrip.antt =====
-- What `unmarshalBinaryMeta` of binary_schema.go makes of the bytes that `sendBinaryMeta` writes.
use mcgv.Base.{ℕ, ◌+◌, ◌^◌, ◌≤◌, ◌<◌, ◌≡◌, refl, sym, ap, ◌∙◌, arith, inl, inr, Bool, true, false}
use mcgv.Base.{
  List, [], ◌∷◌, ◌++◌, map, append-nil, Option, none, some, ok, length, All, Bool-cases,
  if◌then◌else◌,
}
use mcgv.Base.{
  String, Map, lookup, is_listed, has_value, same_string, same_string_iff, string_keys, number_keys,
}
use mcgv.Base.Bytes.{le_bytes}
use mathlib.Core.Path.{subst}
use mcgv.Stream.Out.{contents, max_int32, new_output_stream, Out}
use mcgv.Stream.Out.Writes.{new-IsValid, contents-new}
use mcgv.Stream.In.{new_input_stream, read_uint32, return}
use mcgv.Stream.In.Reads.{
  Reads, Shows, new-Shows, bind_Reads, map_Reads, return-Reads, uint32_Reads, bool_Reads,
}
use mcgv.Marshal.Canon.{IsLength}
use mcgv.Schema.{BinarySchema}
use mcgv.Metadata.{BinaryFieldMeta, BinaryMetadata, field_or_zero}
use mcgv.Metadata.Merge.{IsOrdered}
use mcgv.Metadata.Wire.{
  write_meta, read_field_meta, read_name, read_schema, read_pairs, meta_of, put_all,
  unmarshal_binary_meta,
}
use mcgv.Metadata.Wire.Sequences.{
  sequence_bytes, read_pairs-Reads, read_slice_of-Reads, string_Reads, nullable_Reads, HasKeys,
  lookup-new,
}
use mcgv.Metadata.Wire.Bytes.{
  meta_bytes, field_bytes, name_bytes, schema_bytes, names_bytes, write_meta-Emits,
}

-- The fields in their order, with what is known of each.
abbrev pub entries_of : BinaryMetadata → Map String BinaryFieldMeta
entries_of meta = map (λ n. (n, field_or_zero (lookup n meta.fields))) meta.fields_order

abbrev pub FieldInRange : Map String BinaryFieldMeta → String → Type 0
FieldInRange fields name =
    let f = field_or_zero (lookup name fields) in
    IsLength (length name) × (f.type_id < 2 ^ 32) × (f.field_id < 2 ^ 32)

abbrev pub NameInRange : String × ℕ → Type 0
NameInRange (name, ord) = IsLength (length name) × (ord < 2 ^ 32)

abbrev pub SchemaInRange : ℕ × BinarySchema → Type 0
SchemaInRange (id, schema) =
    (schema.schema_id ≡ id)
    × (id < 2 ^ 32)
    × IsLength (length schema.field_ids)
    × All (λ i. i < 2 ^ 32) schema.field_ids

-- Metadata whose numbers are int32, whose lengths an int32 holds, and whose maps have each key once.
pub record IsWritable (meta : BinaryMetadata) : Type 0 where
  pub type_id : meta.type_id < 2 ^ 32
  pub type_name : IsLength (length meta.type_name)
  pub aff_key_name : IsLength (length meta.aff_key_name)
  pub ordered : IsOrdered meta
  pub field_count : IsLength (length meta.fields_order)
  pub fields : All (FieldInRange meta.fields) meta.fields_order
  pub field_keys : HasKeys (entries_of meta)
  pub name_count : IsLength (length meta.name_to_ord)
  pub names : All NameInRange meta.name_to_ord
  pub name_keys : HasKeys meta.name_to_ord
  pub schema_count : IsLength (length meta.schemas)
  pub schemas : All SchemaInRange meta.schemas
  pub schema_keys : HasKeys meta.schemas

each {ℓ} :
    {A : Type ℓ} {P Q : A → Type 0} (vs : List A) → All P vs → ((v : A) → P v → Q v) → All Q vs
each [] h f = tt
each (v ∷ vs) h f = (f v h.0, each vs h.1 f)

map-same {ℓ} : {A : Type ℓ} (f : A → A) (vs : List A) → All (λ v. f v ≡ v) vs → map f vs ≡ vs
map-same f [] h = refl
map-same f (v ∷ vs) h = ap (λ u. u ∷ map f vs) h.0 ∙ ap (λ us. v ∷ us) (map-same f vs h.1)

field_Reads :
    (fields : Map String BinaryFieldMeta) (name : String)
    → FieldInRange fields name
    → Reads read_field_meta (field_bytes fields name) (name, field_or_zero (lookup name fields))
unfolding read_field_meta
field_Reads fields name h =
    let f = field_or_zero (lookup name fields) in
    bind_Reads _ (string_Reads name h.0) (
      bind_Reads _ (uint32_Reads f.type_id h.1) (
        map_Reads _ (λ i. (name, record { type_id = f.type_id; field_id = i })) _ _
          (uint32_Reads f.field_id h.2)))

name_Reads : (p : String × ℕ) → NameInRange p → Reads read_name (name_bytes p) p
unfolding read_name
name_Reads (name, ord) h =
    bind_Reads _ (string_Reads name h.0) (map_Reads _ (λ o. (name, o)) _ _ (uint32_Reads ord h.1))

schema_Reads : (p : ℕ × BinarySchema) → SchemaInRange p → Reads read_schema (schema_bytes p) p
unfolding read_schema
schema_Reads (id, schema) h =
    let ids : map (λ i. i) schema.field_ids ≡ schema.field_ids =
      map-same (λ i. i) schema.field_ids (each schema.field_ids h.3 (λ v k. refl)) in
    subst (λ p. Reads read_schema (schema_bytes (id, schema)) p)
      (ap (λ l. (schema.schema_id, record { schema_id = schema.schema_id; field_ids = l })) ids
        ∙ ap (λ k. (k, schema)) h.0)
      (bind_Reads _ (uint32_Reads schema.schema_id (omega (arith, h.0))) (
        map_Reads _
          (λ l. (schema.schema_id, record { schema_id = schema.schema_id; field_ids = l })) _ _
          (read_slice_of-Reads read_uint32 (le_bytes 4) (λ i. i) schema.field_ids h.2
            (each schema.field_ids h.3 uint32_Reads))))

-- The names are read if the type is an enum.
abbrev names_of : Bool → Map String ℕ → Map String ℕ
names_of true names = names
names_of false names = []

names_Reads :
    (e : Bool) (names : Map String ℕ)
    → IsLength (length names)
    → All NameInRange names
    → Reads (if e then read_pairs read_name else return []) (names_bytes e names) (names_of e names)
names_Reads true names small h =
    subst (λ l. Reads (read_pairs read_name) (names_bytes true names) l)
      (map-same (λ p. p) names (each names h (λ p k. refl)))
      (read_pairs-Reads read_name name_bytes (λ p. p) names small (each names h name_Reads))
names_Reads false names small h = return-Reads []

-- What is read of the metadata.
abbrev read_meta : BinaryMetadata → BinaryMetadata
read_meta meta =
    meta_of meta.type_id meta.type_name meta.aff_key_name (entries_of meta) meta.is_enum
      (names_of meta.is_enum meta.name_to_ord) meta.schemas

unmarshal-Reads :
    (meta : BinaryMetadata)
    → IsWritable meta
    → Reads unmarshal_binary_meta (meta_bytes meta) (read_meta meta)
unfolding unmarshal_binary_meta
unmarshal-Reads meta h = bind_Reads _ (uint32_Reads meta.type_id h.type_id) (
    bind_Reads _ (string_Reads meta.type_name h.type_name) (
      bind_Reads _ (nullable_Reads meta.aff_key_name h.aff_key_name) (
        bind_Reads _
          (read_pairs-Reads read_field_meta (field_bytes meta.fields)
            (λ n. (n, field_or_zero (lookup n meta.fields))) meta.fields_order h.field_count
            (each meta.fields_order h.fields (field_Reads meta.fields)))
          (bind_Reads _ (bool_Reads meta.is_enum) (
            bind_Reads _ (names_Reads meta.is_enum meta.name_to_ord h.name_count h.names) (
              map_Reads _
                (λ l.
                  meta_of meta.type_id meta.type_name meta.aff_key_name (entries_of meta)
                    meta.is_enum (names_of meta.is_enum meta.name_to_ord) l)
                _ _
                (subst
                  (λ l. Reads (read_pairs read_schema) (sequence_bytes schema_bytes meta.schemas) l)
                  (map-same (λ p. p) meta.schemas (each meta.schemas h.schemas (λ p k. refl)))
                  (read_pairs-Reads read_schema schema_bytes (λ p. p) meta.schemas h.schema_count
                    (each meta.schemas h.schemas schema_Reads)))))))))

-- Two metadata with the same fields in the same order, and the same names and schemas.
pub record SameMeta (meta meta' : BinaryMetadata) : Type 0 where
  pub type_ids : meta'.type_id ≡ meta.type_id
  pub type_names : meta'.type_name ≡ meta.type_name
  pub aff_keys : meta'.aff_key_name ≡ meta.aff_key_name
  pub enums : meta'.is_enum ≡ meta.is_enum
  pub orders : meta'.fields_order ≡ meta.fields_order
  pub fields : (j : String) → lookup j meta'.fields ≡ lookup j meta.fields
  pub names :
      (j : String)
      → lookup j meta'.name_to_ord ≡ (if meta.is_enum then lookup j meta.name_to_ord else none)
  pub schemas : (id : ℕ) → lookup id meta'.schemas ≡ lookup id meta.schemas

entries-order :
    (g : String → BinaryFieldMeta) (order : List String)
    → map (λ (p : String × BinaryFieldMeta). p.0) (map (λ n. (n, g n)) order) ≡ order
entries-order g [] = refl
entries-order g (n ∷ order) = ap (λ l. n ∷ l) (entries-order g order)

lookup-entries :
    (j : String) (g : String → BinaryFieldMeta) (order : List String)
    → lookup j (map (λ n. (n, g n)) order) ≡ (if is_listed j order then some (g j) else none)
lookup-entries j g [] = refl
lookup-entries j g (n ∷ order) = elim (Bool-cases (same_string j n)) [
  | inl e ↦ rw e (ap (λ k. some (g k)) (sym ((same_string_iff j n).0 e)))
  | inr e ↦ rw e (lookup-entries j g order)
]

known_field :
    (o : Option BinaryFieldMeta) → (if has_value o then some (field_or_zero o) else none) ≡ o
known_field none = refl
known_field (some f) = refl

names_same :
    (e : Bool) (names : Map String ℕ) (j : String)
    → HasKeys names
    → lookup j (put_all (names_of e names) []) ≡ (if e then lookup j names else none)
unfolding put_all
names_same true names j h = lookup-new j names h
names_same false names j h = refl

read_meta-SameMeta : (meta : BinaryMetadata) → IsWritable meta → SameMeta meta (read_meta meta)
read_meta-SameMeta meta h =
    let known : String → BinaryFieldMeta = λ n. field_or_zero (lookup n meta.fields) in
    record {
      type_ids = refl;
      type_names = refl;
      aff_keys = refl;
      enums = refl;
      orders = entries-order known meta.fields_order;
      fields = λ j.
          lookup-new j (entries_of meta) h.field_keys
          ∙ lookup-entries j known meta.fields_order
          ∙ ap (λ b. if b then some (known j) else none) (h.ordered.listed j)
          ∙ known_field (lookup j meta.fields);
      names = λ j. names_same meta.is_enum meta.name_to_ord j h.name_keys;
      schemas = λ id. lookup-new id meta.schemas h.schema_keys;
    }

-- The body of the request of `sendBinaryMeta` is written to a new stream without a panic if it fits, and
-- `unmarshalBinaryMeta` reads from its bytes metadata with the same fields in the same order, the same
-- schemas and, for an enum, the same names, and takes all of them.
pub unmarshal_binary_meta-write_meta :
    (meta : BinaryMetadata) (n : ℕ)
    → IsWritable meta
    → length (meta_bytes meta) ≤ max_int32
    → (s : Out) × (meta' : BinaryMetadata) × (write_meta meta (new_output_stream n) ≡ ok s)
      × (unmarshal_binary_meta (new_input_stream (contents s) 0)
          ≡ ok (meta', new_input_stream (contents s) (length (contents s))))
      × SameMeta meta meta'
unfolding new_input_stream
unmarshal_binary_meta-write_meta meta n h small =
    let start = new_output_stream n in
    let bytes = meta_bytes meta in
    let room : start.position + length bytes ≤ max_int32 =
      unfold new_output_stream in omega arith in
    let (s, e, a) = (write_meta-Emits meta).fits start (new-IsValid n) room in
    let whole : contents s ≡ bytes = a.grown ∙ ap (λ (l : List ℕ). l ++ bytes) (contents-new n) in
    let shows : Shows (new_input_stream bytes 0) (bytes ++ []) =
      rw (append-nil bytes) (new-Shows bytes) in
    let run : unmarshal_binary_meta (new_input_stream bytes 0)
        ≡ ok (read_meta meta, new_input_stream bytes (length bytes)) =
      (unmarshal-Reads meta h).result (new_input_stream bytes 0) [] shows
      ∙ ap (λ (k : ℕ). ok (read_meta meta, record { buffer = bytes; position = k }))
          (omega arith) in
    (s, read_meta meta, e, rw whole run, read_meta-SameMeta meta h)
