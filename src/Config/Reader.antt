-- ===== src/Config/Reader.antt =====
-- `unmarshalCacheConfiguration` of cache_configuration.go and the readers of query entities. The answer
-- of a server has the properties in a fixed order.
use mcgv.Base.{Bool, [], ◌∷◌, some}
use mcgv.Base.{String, number_keys, string_keys, if◌then◌else◌}
use mcgv.Base.Int.{ℤ, negsuc, signed}
use mcgv.Stream.In.{Read, ◌>>>◌, return, read_bool, read_uint8, read_uint32, read_uint64, read_size}
use mcgv.Marshal.Reader.{unmarshal_string}
use mcgv.Metadata.Wire.{read_slice_of, read_pairs, put_all}
use mcgv.Protocol.{
  ProtocolContext, supports, since_expiry_policy, since_query_entity_precision_and_scale,
}
use mcgv.Object.{Marshaller}
use mcgv.Cache.{millis_to_duration}
use mcgv.Config.{
  CacheKeyConfig, IndexField, QueryIndex, QueryField, QueryEntity, Property, string, bool, int,
  cache_mode, cache_atomicity_mode, partition_loss_policy, cache_write_synchronization_mode,
  cache_rebalance_mode, expiry_policy, cache_key_configs, query_entities, CacheConfiguration,
  set_property, PropertyCode, backups_prop, cache_atomicity_mode_prop, cache_key_config_prop,
  cache_mode_prop, cache_name_prop, copy_on_read_prop, data_region_name_prop, eager_ttl_prop,
  expire_policy_prop, group_name_prop, max_async_ops_prop, max_query_iterators_prop,
  on_heap_cache_enabled_prop, partition_loss_policy_prop, query_details_metric_size_prop,
  query_entities_prop, query_parallelism_prop, read_from_backup_prop, rebalance_mode_prop,
  rebalance_order_prop, sql_escape_all_prop, sql_index_max_inline_size_prop, sql_schema_prop,
  stats_enabled_prop, write_sync_mode_prop,
}

unfoldable pub read_key_config : Read CacheKeyConfig
read_key_config = unmarshal_string >>> λ t.
    unmarshal_string >>> λ f. return (record { type_name = t; aff_key_fld_name = f })

unfoldable pub read_index_field : Read IndexField
read_index_field =
    unmarshal_string >>> λ n. read_bool >>> λ a. return (record { name = n; asc = a })

unfoldable pub read_alias : Read (String × String)
read_alias = unmarshal_string >>> λ k. unmarshal_string >>> λ v. return (k, v)

-- `unmarshalQueryIndex`
unfoldable pub unmarshal_query_index : Read QueryIndex
unfolding read_index_field
unmarshal_query_index = unmarshal_string >>> λ n. read_uint8 >>> λ t. read_size >>> λ sz.
    read_slice_of read_index_field >>> λ fs.
    return (record { name = n; idx_type = t; inline_sz = sz; fields = fs })

-- The precision or the scale of a field, -1 where the protocol has none.
abbrev pub int_if : Bool → Read ℤ
int_if present = if present then read_size else return (negsuc 0)

-- `time.Duration` of milliseconds in the answer.
unfoldable pub read_duration : Read ℤ
read_duration = read_uint64 >>> λ n. return (millis_to_duration (signed 64 n))

module _ (marsh : Marshaller) (ctx : ProtocolContext) where
  -- `unmarshalQueryField`
  unfoldable pub unmarshal_query_field : Read (QueryField marsh.Value)
  unmarshal_query_field =
      let with_precision = supports ctx.version since_query_entity_precision_and_scale in
      unmarshal_string >>> λ n. unmarshal_string >>> λ t. read_bool >>> λ key.
      read_bool >>> λ not_null. marsh.unmarshal_value >>> λ d. int_if with_precision >>> λ p.
      int_if with_precision >>> λ sc. return (record {
        name = n;
        type_name = t;
        is_key = key;
        is_not_null = not_null;
        precision = p;
        scale = sc;
        dflt_val = d;
      })

  -- `unmarshalQueryEntity`
  unfoldable pub unmarshal_query_entity : Read (QueryEntity marsh.Value)
  unfolding unmarshal_query_field read_alias unmarshal_query_index
  unmarshal_query_entity = unmarshal_string >>> λ k. unmarshal_string >>> λ v.
      unmarshal_string >>> λ t. unmarshal_string >>> λ kf. unmarshal_string >>> λ vf.
      read_slice_of unmarshal_query_field >>> λ fs. read_pairs read_alias >>> λ as'.
      read_slice_of unmarshal_query_index >>> λ is. return (record {
        key_type = k;
        val_type = v;
        tbl_name = t;
        key_fld_name = kf;
        val_fld_name = vf;
        fields = fs;
        aliases = put_all as' [];
        indexes = is;
      })

  abbrev Config : Type 0
  Config = CacheConfiguration marsh.Value

  -- A statement that sets properties, and the next one.
  infixr 4 ◌⨾◌
  abbrev pub ◌⨾◌ : (Config → Read Config) → (Config → Read Config) → Config → Read Config
  ◌⨾◌ f g props = f props >>> g

  -- `props[code] = ...` of what is read.
  abbrev pub set_read :
      {A : Type 0} → Read A → (A → Property marsh.Value) → PropertyCode → Config → Read Config
  set_read r f code props = r >>> λ v. return (set_property marsh.Value code (f v) props)

  -- `setStringProperty`: an empty text is left out.
  abbrev pub set_text : String → PropertyCode → Config → Config
  set_text [] code props = props
  set_text (c ∷ cs) code props = set_property marsh.Value code (string (c ∷ cs)) props

  unfoldable pub set_string_property : PropertyCode → Config → Read Config
  set_string_property code props = unmarshal_string >>> λ v. return (set_text v code props)

  -- A deprecated field, skipped.
  abbrev pub skip : {A : Type 0} → Read A → Config → Read Config
  skip r props = r >>> λ v. return props

  unfoldable pub read_policy : Config → Read Config
  read_policy props = read_bool >>> λ present.
      if present
      then (read_duration >>> λ c. read_duration >>> λ u. read_duration >>> λ a. return (
          set_property marsh.Value expire_policy_prop
            (expiry_policy (some (record { creation = c; update = u; access = a }))) props))
      else return props

  -- `unmarshalCacheConfiguration` up to the name of the group, up to readFromBackup, up to the inline size,
  -- and up to the query entities.
  unfoldable pub read_first : Config → Read Config
  unfolding set_string_property
  read_first =
      skip read_uint32
      ⨾ set_read read_size cache_atomicity_mode cache_atomicity_mode_prop
      ⨾ set_read read_size int backups_prop
      ⨾ set_read read_size cache_mode cache_mode_prop
      ⨾ set_read read_bool bool copy_on_read_prop
      ⨾ set_string_property data_region_name_prop
      ⨾ set_read read_bool bool eager_ttl_prop
      ⨾ set_read read_bool bool stats_enabled_prop
      ⨾ set_string_property group_name_prop

  unfoldable pub read_second : Config → Read Config
  unfolding set_string_property
  read_second =
      skip read_uint64
      ⨾ set_read read_size int max_async_ops_prop
      ⨾ set_read read_size int max_query_iterators_prop
      ⨾ set_string_property cache_name_prop
      ⨾ set_read read_bool bool on_heap_cache_enabled_prop
      ⨾ set_read read_size partition_loss_policy partition_loss_policy_prop
      ⨾ set_read read_size int query_details_metric_size_prop
      ⨾ set_read read_size int query_parallelism_prop
      ⨾ set_read read_bool bool read_from_backup_prop

  unfoldable pub read_third : Config → Read Config
  unfolding set_string_property
  read_third =
      skip read_uint32
      ⨾ skip read_uint64
      ⨾ skip read_uint64
      ⨾ set_read read_size cache_rebalance_mode rebalance_mode_prop
      ⨾ set_read read_size int rebalance_order_prop
      ⨾ skip read_uint64
      ⨾ skip read_uint64
      ⨾ set_read read_bool bool sql_escape_all_prop
      ⨾ set_read read_size int sql_index_max_inline_size_prop

  unfoldable pub read_fourth : Config → Read Config
  unfolding set_string_property read_key_config unmarshal_query_entity
  read_fourth =
      set_string_property sql_schema_prop
      ⨾ set_read read_size cache_write_synchronization_mode write_sync_mode_prop
      ⨾ set_read (read_slice_of read_key_config) cache_key_configs cache_key_config_prop
      ⨾ set_read (read_slice_of unmarshal_query_entity) query_entities query_entities_prop

  unfoldable pub read_policy_if : Config → Read Config
  unfolding read_policy
  read_policy_if p = if supports ctx.version since_expiry_policy then read_policy p else return p

  -- `unmarshalCacheConfiguration`
  unfoldable pub unmarshal_cache_configuration : Read Config
  unfolding read_first read_second read_third read_fourth read_policy_if
  unmarshal_cache_configuration =
      (read_first ⨾ read_second ⨾ read_third ⨾ read_fourth ⨾ read_policy_if) []
