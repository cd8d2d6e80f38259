-- ===== src/Metadata/Cache.antt =====
-- `binaryMetadataCache` of binary_schema.go.
pub mod Keeps
pub mod Accepts
use mcgv.Base.{ℕ, Bool, true, false, List, [], ◌∷◌, Option, none, some, if◌then◌else◌}
use mcgv.Base.{Result, ok, err, panic, stuck, ◌>>=◌, ltb, length}
use mcgv.Base.{String, Map, lookup, put, number_keys, string_keys, pair_keys}
use mcgv.Schema.{BinarySchema}
use mcgv.Metadata.{BinaryMetadata, MetadataError, copy, merge_metadata}

-- `binaryMetadataCache`. A key of the class names is a type id and a platform, as numbers.
pub record BinaryMetadataCache : Type 0 where
  pub name_mapping : Map (ℕ × ℕ) String
  pub meta_data : Map ℕ BinaryMetadata

-- `newBinaryMetadataCache`, and what `clearRegistry` leaves.
unfoldable pub new_cache : BinaryMetadataCache
new_cache = record { name_mapping = []; meta_data = [] }

-- `getMetadata`
unfoldable pub get_metadata : BinaryMetadataCache → ℕ → Option BinaryMetadata
get_metadata r type_id = elim (lookup type_id r.meta_data) [
  | none ↦ none
  | some meta ↦ some (copy meta)
]

-- `getSchema`
unfoldable pub get_schema : BinaryMetadataCache → ℕ → ℕ → Option BinarySchema
get_schema r type_id schema_id = elim (lookup type_id r.meta_data) [
  | none ↦ none
  | some meta ↦ lookup schema_id meta.schemas
]

-- `putMetadata`, of metadata that is not nil.
unfoldable pub put_metadata :
    BinaryMetadataCache → BinaryMetadata → Result MetadataError BinaryMetadataCache
put_metadata r meta = merge_metadata (lookup meta.type_id r.meta_data) meta >>= λ (changed, merged).
    if changed then ok (record r { meta_data = put merged.type_id merged r.meta_data }) else ok r

-- `getClassName`
unfoldable pub get_class_name : BinaryMetadataCache → ℕ → ℕ → String
get_class_name r platform type_id = elim (lookup (type_id, platform) r.name_mapping) [
  | none ↦ []
  | some name ↦ name
]

-- `registerClassName`
unfoldable pub register_class_name : BinaryMetadataCache → ℕ → ℕ → String → BinaryMetadataCache
register_class_name r platform type_id name =
    if ltb 0 (length name)
    then record r { name_mapping = put (type_id, platform) name r.name_mapping }
    else r
