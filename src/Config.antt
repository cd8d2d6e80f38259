-- ===== src/Config.antt =====
-- cache_configuration.go: the properties of a cache and its query entities. A Go `int` is its value. The
-- default value of a field is a value of the marshaller.
pub mod Writer
pub mod Reader
pub mod Getters
pub mod Options
pub mod EntityCopies
pub mod EntityWire
pub mod Sized
pub mod PropertyBytes
pub mod Copies
pub mod Writes
pub mod Answer
mod Tests
use mcgv.Base.{ℕ, ◌+◌, ◌-◌, ◌%◌, ◌^◌, Bool, List, [], ◌∷◌, map, Option, none, some}
use mcgv.Base.{String, Map, put, number_keys, string_keys}
use mcgv.Base.Int.{ℤ, pos, negsuc}
use mcgv.Cache.{ExpiryPolicy}
use mcgv.Metadata.Wire.{put_all}

-- `int32(n)` of an integer.
unfoldable pub int32_of_int : ℤ → ℕ
int32_of_int (pos n) = n % 2 ^ 32
int32_of_int (negsuc n) = 2 ^ 32 - 1 - n % 2 ^ 32

pub record CacheKeyConfig : Type 0 where
  pub type_name : String
  pub aff_key_fld_name : String

pub record IndexField : Type 0 where
  pub name : String
  pub asc : Bool

-- The type is the bit pattern of an int8.
pub record QueryIndex : Type 0 where
  pub name : String
  pub idx_type : ℕ
  pub inline_sz : ℤ
  pub fields : List IndexField

pub record QueryField (Value : Type 0) : Type 0 where
  pub name : String
  pub type_name : String
  pub is_key : Bool
  pub is_not_null : Bool
  pub precision : ℤ
  pub scale : ℤ
  pub dflt_val : Value

-- Maps and slices that are nil are empty ones.
pub record QueryEntity (Value : Type 0) : Type 0 where
  pub key_type : String
  pub val_type : String
  pub tbl_name : String
  pub key_fld_name : String
  pub val_fld_name : String
  pub fields : List (QueryField Value)
  pub aliases : Map String String
  pub indexes : List QueryIndex

-- The values of properties by their Go types; `other` is a type that `marshal` has no case for.
pub data Property (Value : Type 0) : Type 0 where
  string : String → Property Value
  bool : Bool → Property Value
  int int32 int64 : ℤ → Property Value
  cache_mode cache_atomicity_mode partition_loss_policy : ℤ → Property Value
  cache_write_synchronization_mode cache_rebalance_mode : ℤ → Property Value
  expiry_policy : Option ExpiryPolicy → Property Value
  cache_key_configs : List CacheKeyConfig → Property Value
  query_entities : List (QueryEntity Value) → Property Value
  other : Property Value

-- The constants of type `propertyCode`.
pub data PropertyCode : Type 0 where
  cache_name_prop cache_mode_prop cache_atomicity_mode_prop backups_prop : PropertyCode
  write_sync_mode_prop copy_on_read_prop read_from_backup_prop data_region_name_prop : PropertyCode
  on_heap_cache_enabled_prop query_entities_prop query_parallelism_prop : PropertyCode
  query_details_metric_size_prop sql_schema_prop sql_index_max_inline_size_prop : PropertyCode
  sql_escape_all_prop max_query_iterators_prop rebalance_mode_prop rebalance_order_prop :
      PropertyCode
  group_name_prop cache_key_config_prop max_async_ops_prop partition_loss_policy_prop : PropertyCode
  eager_ttl_prop stats_enabled_prop expire_policy_prop : PropertyCode

abbrev pub property_code : PropertyCode → ℕ
property_code cache_name_prop = 0
property_code cache_mode_prop = 1
property_code cache_atomicity_mode_prop = 2
property_code backups_prop = 3
property_code write_sync_mode_prop = 4
property_code copy_on_read_prop = 5
property_code read_from_backup_prop = 6
property_code data_region_name_prop = 100
property_code on_heap_cache_enabled_prop = 101
property_code query_entities_prop = 200
property_code query_parallelism_prop = 201
property_code query_details_metric_size_prop = 202
property_code sql_schema_prop = 203
property_code sql_index_max_inline_size_prop = 204
property_code sql_escape_all_prop = 205
property_code max_query_iterators_prop = 206
property_code rebalance_mode_prop = 300
property_code rebalance_order_prop = 305
property_code group_name_prop = 400
property_code cache_key_config_prop = 401
property_code max_async_ops_prop = 403
property_code partition_loss_policy_prop = 404
property_code eager_ttl_prop = 405
property_code stats_enabled_prop = 406
property_code expire_policy_prop = 407

module _ (Value : Type 0) where
  -- `CacheConfiguration`: the properties by their codes.
  abbrev pub CacheConfiguration : Type 0
  CacheConfiguration = Map ℕ (Property Value)

  -- `config.props[code] = v`
  abbrev pub set_property : PropertyCode → Property Value → CacheConfiguration → CacheConfiguration
  set_property code v config = put (property_code code) v config

  abbrev pub apply_all : {A : Type 0} → List (A → A) → A → A
  apply_all [] v = v
  apply_all (opt ∷ opts) v = apply_all opts (opt v)

  -- `CreateCacheConfiguration`
  unfoldable pub create_cache_configuration :
      String → List (CacheConfiguration → CacheConfiguration) → CacheConfiguration
  create_cache_configuration name opts =
      apply_all opts (set_property cache_name_prop (string name) [])

  -- `QueryIndex.Copy`
  unfoldable pub copy_index : QueryIndex → QueryIndex
  copy_index q = record {
    name = q.name;
    idx_type = q.idx_type;
    inline_sz = q.inline_sz;
    fields = q.fields;
  }

  -- `QueryEntity.Copy`: the aliases are put into a new map.
  unfoldable pub copy_entity : QueryEntity Value → QueryEntity Value
  unfolding copy_index put_all
  copy_entity q = record {
    key_type = q.key_type;
    val_type = q.val_type;
    tbl_name = q.tbl_name;
    key_fld_name = q.key_fld_name;
    val_fld_name = q.val_fld_name;
    fields = q.fields;
    aliases = put_all q.aliases [];
    indexes = map copy_index q.indexes;
  }

  -- The loop of `Copy` over the properties; an empty list of configurations is left out.
  unfoldable pub copy_properties : CacheConfiguration → CacheConfiguration → CacheConfiguration
  unfolding copy_entity
  copy_properties [] acc = acc
  copy_properties ((code, query_entities []) ∷ props) acc = copy_properties props acc
  copy_properties ((code, query_entities (e ∷ es)) ∷ props) acc =
      copy_properties props (put code (query_entities (map copy_entity (e ∷ es))) acc)
  copy_properties ((code, cache_key_configs []) ∷ props) acc = copy_properties props acc
  copy_properties ((code, v) ∷ props) acc = copy_properties props (put code v acc)

  -- `Copy`
  unfoldable pub copy :
      CacheConfiguration → List (CacheConfiguration → CacheConfiguration) → CacheConfiguration
  unfolding copy_properties
  copy config opts = apply_all opts (copy_properties config [])
