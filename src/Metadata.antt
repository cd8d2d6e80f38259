-- ===== src/Metadata.antt =====
-- The metadata of binary types and their cache, from binary_schema.go. A pointer that is shared is not
-- modelled: a function that changes its argument returns it.
pub mod Merge
pub mod Cache
pub mod Wire
mod Tests
use mcgv.Base.{
  ℕ, suc, ◌+◌, Bool, true, false, not, ◌&&◌, ◌||◌, List, [], ◌∷◌, ◌++◌, Option, none, some,
}
use mcgv.Base.{Result, ok, err, panic, stuck, ◌>>=◌, ◌==◌, ltb, if◌then◌else◌, length}
use mcgv.Base.{String, Map, lookup, put, same_string, number_keys, string_keys}
use mcgv.Schema.{BinarySchema}

-- `binaryFieldMeta`
pub record BinaryFieldMeta : Type 0 where
  pub type_id : ℕ
  pub field_id : ℕ

-- `binaryMetadata`. A map that is nil reads as an empty one.
pub record BinaryMetadata : Type 0 where
  pub type_id : ℕ
  pub type_name : String
  pub aff_key_name : String
  pub is_enum : Bool
  pub fields : Map String BinaryFieldMeta
  pub fields_order : List String
  pub schemas : Map ℕ BinarySchema
  pub ord_to_name : Map ℕ String
  pub name_to_ord : Map String ℕ

-- The errors of `mergeMetadata`, and `errNilMetadata`.
pub data MetadataError : Type 0 where
  type_ids_differ type_names_differ enum_and_not affinity_keys_differ : MetadataError
  conflicting_name conflicting_ordinal field_types_differ nil_metadata : MetadataError

-- `newBinaryMetadata`
unfoldable pub new_binary_metadata : ℕ → String → String → BinaryMetadata
new_binary_metadata type_id type_name aff_key_name = record {
  type_id = type_id;
  type_name = type_name;
  aff_key_name = aff_key_name;
  is_enum = false;
  fields = [];
  fields_order = [];
  schemas = [];
  ord_to_name = [];
  name_to_ord = [];
}

-- The loop of `newEnumMetadata`, and of the copies of enum maps.
unfoldable pub invert : Map String ℕ → Map ℕ String → Map ℕ String
invert [] acc = acc
invert ((name, ord) ∷ m) acc = invert m (put ord name acc)

unfoldable pub copy_names : Map String ℕ → Map String ℕ → Map String ℕ
copy_names [] acc = acc
copy_names ((name, ord) ∷ m) acc = copy_names m (put name ord acc)

-- `newEnumMetadata`
unfoldable pub new_enum_metadata : ℕ → String → Map String ℕ → BinaryMetadata
unfolding invert copy_names
new_enum_metadata type_id type_name name_to_ord = record {
  type_id = type_id;
  type_name = type_name;
  aff_key_name = [];
  is_enum = true;
  fields = [];
  fields_order = [];
  schemas = [];
  ord_to_name = invert name_to_ord [];
  name_to_ord = copy_names name_to_ord [];
}

-- `addField`
unfoldable pub add_field : BinaryMetadata → String → ℕ → ℕ → BinaryMetadata
add_field meta name type_id field_id = record meta {
  fields = put name (record { type_id = type_id; field_id = field_id }) meta.fields;
  fields_order = meta.fields_order ++ (name ∷ []);
}

-- `addSchema`
unfoldable pub add_schema : BinaryMetadata → BinarySchema → BinaryMetadata
add_schema meta schema = record meta { schemas = put schema.schema_id schema meta.schemas }

-- `EnumName`
unfoldable pub enum_name : BinaryMetadata → ℕ → String
enum_name meta ord =
    if not meta.is_enum then [] else (elim (lookup ord meta.ord_to_name) [ none ↦ [] | some n ↦ n ])

-- The loops of `copy` over the ordinals of an enum.
unfoldable pub invert_names : Map ℕ String → Map String ℕ → Map String ℕ
invert_names [] acc = acc
invert_names ((ord, name) ∷ m) acc = invert_names m (put name ord acc)

-- `copy`, with no options: an enum is copied from its ordinals.
unfoldable pub copy : BinaryMetadata → BinaryMetadata
unfolding invert_names new_binary_metadata
copy meta =
    if meta.is_enum
    then record (new_binary_metadata meta.type_id meta.type_name meta.aff_key_name) {
      is_enum = true;
      ord_to_name = meta.ord_to_name;
      name_to_ord = invert_names meta.ord_to_name [];
    }
    else record (new_binary_metadata meta.type_id meta.type_name meta.aff_key_name) {
      fields = meta.fields;
      fields_order = meta.fields_order;
      schemas = meta.schemas;
    }

-- A missing key reads as the zero value.
abbrev pub field_or_zero : Option BinaryFieldMeta → BinaryFieldMeta
field_or_zero none = record { type_id = 0; field_id = 0 }
field_or_zero (some f) = f

-- The first loop of `mergeMetadata` over fields.
unfoldable pub copy_fields :
    List String
    → Map String BinaryFieldMeta
    → Map String BinaryFieldMeta
    → Map String BinaryFieldMeta
copy_fields [] fields merged = merged
copy_fields (name ∷ order) fields merged =
    copy_fields order fields (put name (field_or_zero (lookup name fields)) merged)

-- What the loops over the new metadata build.
pub record MergedFields : Type 0 where
  pub changed : Bool
  pub fields : Map String BinaryFieldMeta
  pub order : List String

-- The second loop: the fields of the new metadata.
unfoldable pub merge_fields :
    List String
    → Map String BinaryFieldMeta
    → Map String BinaryFieldMeta
    → MergedFields
    → Result MetadataError MergedFields
merge_fields [] fields old_fields merged = ok merged
merge_fields (name ∷ order) fields old_fields merged =
    let field = field_or_zero (lookup name fields) in
    elim (lookup name old_fields) [
      | some old ↦
          if old.type_id == field.type_id
          then merge_fields order fields old_fields merged
          else err field_types_differ
      | none ↦ merge_fields order fields old_fields (record {
        changed = true;
        fields = put name field merged.fields;
        order = merged.order ++ (name ∷ []);
      })
    ]

-- The loops over the schemas.
unfoldable pub copy_schemas : Map ℕ BinarySchema → Map ℕ BinarySchema → Map ℕ BinarySchema
copy_schemas [] merged = merged
copy_schemas ((id, schema) ∷ m) merged = copy_schemas m (put id schema merged)

unfoldable pub merge_schemas :
    Map ℕ BinarySchema → Map ℕ BinarySchema → Bool × Map ℕ BinarySchema → Bool × Map ℕ BinarySchema
merge_schemas [] old_schemas merged = merged
merge_schemas ((id, schema) ∷ m) old_schemas (changed, merged) = elim (lookup id old_schemas) [
  | some old ↦ merge_schemas m old_schemas (changed, merged)
  | none ↦ merge_schemas m old_schemas (true, put id schema merged)
]

-- The loop over the names of an enum.
unfoldable pub merge_names :
    Map String ℕ → Map ℕ String × Map String ℕ → Result MetadataError (Map ℕ String × Map String ℕ)
merge_names [] merged = ok merged
merge_names ((name, ord) ∷ m) (names, ords) =
    let other_name : Bool = elim (lookup ord names) [
      | none ↦ false
      | some n ↦ not (same_string n name)
    ] in
    let other_ord : Bool = elim (lookup name ords) [ none ↦ false | some o ↦ not (o == ord) ] in
    let rest = merge_names m (put ord name names, put name ord ords) in
    if other_name then err conflicting_name else if other_ord then err conflicting_ordinal else rest

-- The branch of `mergeMetadata` for enums.
unfoldable pub merge_enum :
    BinaryMetadata → BinaryMetadata → Result MetadataError (Bool × BinaryMetadata)
unfolding invert copy_names merge_names new_binary_metadata
merge_enum old meta =
    let merged =
      merge_names meta.name_to_ord (invert old.name_to_ord [], copy_names old.name_to_ord []) in
    elim meta.name_to_ord [
      | [] ↦ ok (false, meta)
      | n ∷ ns ↦ merged >>= λ (names, ords).
          if ltb (length old.name_to_ord) (length ords)
          then ok (
            true,
            record (new_binary_metadata meta.type_id meta.type_name []) {
              is_enum = true;
              ord_to_name = names;
              name_to_ord = ords;
            },
          )
          else ok (false, meta)
    ]

-- The end of the other branch.
unfoldable pub merged_object :
    BinaryMetadata → MergedFields → Bool × Map ℕ BinarySchema → Bool × BinaryMetadata
unfolding new_binary_metadata
merged_object meta merged (true, schemas) = (
  true,
  record (new_binary_metadata meta.type_id meta.type_name meta.aff_key_name) {
    fields = merged.fields;
    fields_order = merged.order;
    schemas = schemas;
  },
)
merged_object meta merged (false, schemas) = (false, meta)

unfoldable pub with_schemas : BinaryMetadata → BinaryMetadata → MergedFields → Bool × BinaryMetadata
unfolding merged_object copy_schemas merge_schemas
with_schemas old meta merged =
    merged_object meta merged
      (merge_schemas meta.schemas old.schemas (merged.changed, copy_schemas old.schemas []))

-- The other branch.
unfoldable pub merge_object :
    BinaryMetadata → BinaryMetadata → Result MetadataError (Bool × BinaryMetadata)
unfolding copy_fields merge_fields with_schemas
merge_object old meta =
    merge_fields meta.fields_order meta.fields old.fields (record {
      changed = false;
      fields = copy_fields old.fields_order old.fields [];
      order = old.fields_order;
    })
    >>= λ merged. ok (with_schemas old meta merged)

-- `mergeMetadata`: whether there is something new, and the new metadata afterwards.
unfoldable pub merge_metadata :
    Option BinaryMetadata → BinaryMetadata → Result MetadataError (Bool × BinaryMetadata)
unfolding merge_enum merge_object
merge_metadata none meta = ok (true, meta)
merge_metadata (some old) meta =
    if not (old.type_id == meta.type_id)
    then err type_ids_differ
    else if not (same_string old.type_name meta.type_name)
    then err type_names_differ
    else if (if old.is_enum then not meta.is_enum else meta.is_enum)
    then err enum_and_not
    else if not (same_string old.aff_key_name meta.aff_key_name)
    then err affinity_keys_differ
    else if meta.is_enum
    then merge_enum old meta
    else merge_object old meta
