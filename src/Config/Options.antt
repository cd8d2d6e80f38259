-- ===== src/Config/Options.antt =====
-- The options of cache_configuration.go. `trim` is strings.TrimSpace. The type assertion of the options
-- that append to a list panics on a property of another type, which no option sets.
use mcgv.Base.{ℕ, Bool, true, false, List, [], ◌∷◌, ◌++◌, map, some}
use mcgv.Base.{String, put, number_keys, string_keys, is_listed, if◌then◌else◌}
use mcgv.Base.Int.{ℤ, negsuc}
use mcgv.Config.{
  CacheKeyConfig, IndexField, QueryIndex, QueryField, QueryEntity, bool, cache_atomicity_mode,
  cache_key_configs, cache_mode, cache_rebalance_mode, cache_write_synchronization_mode,
  expiry_policy, int, partition_loss_policy, query_entities, string, CacheConfiguration,
  set_property, apply_all, backups_prop, cache_atomicity_mode_prop, cache_key_config_prop,
  cache_mode_prop, cache_name_prop, copy_on_read_prop, data_region_name_prop, eager_ttl_prop,
  expire_policy_prop, group_name_prop, max_async_ops_prop, max_query_iterators_prop,
  on_heap_cache_enabled_prop, partition_loss_policy_prop, query_details_metric_size_prop,
  query_entities_prop, query_parallelism_prop, read_from_backup_prop, rebalance_mode_prop,
  rebalance_order_prop, sql_escape_all_prop, sql_index_max_inline_size_prop, sql_schema_prop,
  stats_enabled_prop, write_sync_mode_prop,
}
use mcgv.Config.Getters.{key_configuration, query_entities_of}

-- `QueryIndexOption`
abbrev pub QueryIndexOption : Type 0
QueryIndexOption = QueryIndex → QueryIndex

-- `WithIndexType`
unfoldable pub with_index_type : ℕ → QueryIndexOption
with_index_type t index = record index { idx_type = t }

-- `WithInlineSize`
unfoldable pub with_inline_size : ℤ → QueryIndexOption
with_inline_size n index = record index { inline_sz = n }

abbrev field_names : List IndexField → List String
field_names fs = map (λ (f : IndexField). f.name) fs

-- `WithIndexField`: a field with a name that the index has is left out.
unfoldable pub with_index_field : IndexField → QueryIndexOption
with_index_field field index =
    if is_listed field.name (field_names index.fields)
    then index
    else record index { fields = index.fields ++ (field ∷ []) }

module _ (trim : String → String) (Value : Type 0) where
  abbrev pub QueryFieldOption : Type 0
  QueryFieldOption = QueryField Value → QueryField Value

  abbrev pub QueryEntityOption : Type 0
  QueryEntityOption = QueryEntity Value → QueryEntity Value

  abbrev pub CacheConfigurationOption : Type 0
  CacheConfigurationOption = CacheConfiguration Value → CacheConfiguration Value

  -- `WithNotNull`
  unfoldable pub with_not_null : QueryFieldOption
  with_not_null field = record field { is_not_null = true }

  -- `WithKey`
  unfoldable pub with_key : QueryFieldOption
  with_key field = record field { is_key = true }

  -- `WithDefaultValue`
  unfoldable pub with_default_value : Value → QueryFieldOption
  with_default_value v field = record field { dflt_val = v }

  -- `WithScale`
  unfoldable pub with_scale : ℤ → QueryFieldOption
  with_scale n field = record field { scale = n }

  -- `WithPrecision`
  unfoldable pub with_precision : ℤ → QueryFieldOption
  with_precision n field = record field { precision = n }

  -- A text that is blank sets nothing.
  abbrev unless_blank : {A : Type 0} → String → A → (String → A) → A
  unless_blank [] old set = old
  unless_blank (c ∷ cs) old set = set (c ∷ cs)

  -- `WithTableName`
  unfoldable pub with_table_name : String → QueryEntityOption
  with_table_name name entity =
      unless_blank (trim name) entity (λ n. record entity { tbl_name = n })

  -- `WithKeyFieldName`
  unfoldable pub with_key_field_name : String → QueryEntityOption
  with_key_field_name name entity =
      unless_blank (trim name) entity (λ n. record entity { key_fld_name = n })

  -- `WithValueFieldName`
  unfoldable pub with_value_field_name : String → QueryEntityOption
  with_value_field_name name entity =
      unless_blank (trim name) entity (λ n. record entity { val_fld_name = n })

  -- `WithQueryField`; `nil` is the default value of a field that has none.
  unfoldable pub with_query_field :
      Value → String → String → List QueryFieldOption → QueryEntityOption
  with_query_field nil name type_name opts entity =
      let field : QueryField Value = record {
        name = name;
        type_name = type_name;
        is_key = false;
        is_not_null = false;
        precision = negsuc 0;
        scale = negsuc 0;
        dflt_val = nil;
      } in
      record entity { fields = entity.fields ++ (apply_all Value opts field ∷ []) }

  -- `WithFieldAlias`
  unfoldable pub with_field_alias : String → String → QueryEntityOption
  with_field_alias orig alias entity = record entity { aliases = put orig alias entity.aliases }

  -- `WithIndex`: an index with a name that the entity has is left out.
  unfoldable pub with_index : String → List QueryIndexOption → QueryEntityOption
  with_index name opts entity =
      let idx : QueryIndex = record {
        name = name;
        idx_type = 0;
        inline_sz = negsuc 0;
        fields = [];
      } in
      if is_listed name (map (λ (i : QueryIndex). i.name) entity.indexes)
      then entity
      else record entity { indexes = entity.indexes ++ (apply_all Value opts idx ∷ []) }

  -- `WithQueryEntity`: an entity with a value type that there is already is left out.
  unfoldable pub with_query_entity :
      String → String → List QueryEntityOption → CacheConfigurationOption
  unfolding query_entities_of
  with_query_entity key_type value_type opts config =
      let found = query_entities_of config in
      let entity : QueryEntity Value = record {
        key_type = key_type;
        val_type = value_type;
        tbl_name = [];
        key_fld_name = [];
        val_fld_name = [];
        fields = [];
        aliases = [];
        indexes = [];
      } in
      if is_listed value_type (map (λ (e : QueryEntity Value). e.val_type) found)
      then config
      else set_property Value query_entities_prop
          (query_entities (found ++ (apply_all Value opts entity ∷ []))) config

  -- `WithCacheKeyConfiguration`: the affinity field tells the configurations apart.
  unfoldable pub with_cache_key_configuration : String → String → CacheConfigurationOption
  unfolding key_configuration
  with_cache_key_configuration type_name affinity_key_field config =
      let found = key_configuration config in
      let key_config : CacheKeyConfig = record {
        type_name = type_name;
        aff_key_fld_name = affinity_key_field;
      } in
      if is_listed affinity_key_field (map (λ (c : CacheKeyConfig). c.aff_key_fld_name) found)
      then config
      else set_property Value cache_key_config_prop (cache_key_configs (found ++ (key_config ∷ [])))
          config

  -- `WithExpiryPolicy`
  unfoldable pub with_expiry_policy : ℤ → ℤ → ℤ → CacheConfigurationOption
  with_expiry_policy creation access update =
      set_property Value expire_policy_prop
        (expiry_policy (some (record { creation = creation; access = access; update = update })))

  -- `WithCacheName`
  unfoldable pub with_cache_name : String → CacheConfigurationOption
  with_cache_name name config =
      unless_blank (trim name) config (λ n. set_property Value cache_name_prop (string n) config)

  -- `WithCacheGroupName`
  unfoldable pub with_cache_group_name : String → CacheConfigurationOption
  with_cache_group_name name config =
      unless_blank (trim name) config (λ n. set_property Value group_name_prop (string n) config)

  -- `WithBackupsCount`
  unfoldable pub with_backups_count : ℤ → CacheConfigurationOption
  with_backups_count v = set_property Value backups_prop (int v)

  -- `WithWriteSynchronizationMode`
  unfoldable pub with_write_synchronization_mode : ℤ → CacheConfigurationOption
  with_write_synchronization_mode v =
      set_property Value write_sync_mode_prop (cache_write_synchronization_mode v)

  -- `WithCopyOnRead`
  unfoldable pub with_copy_on_read : Bool → CacheConfigurationOption
  with_copy_on_read v = set_property Value copy_on_read_prop (bool v)

  -- `WithReadFromBackup`
  unfoldable pub with_read_from_backup : Bool → CacheConfigurationOption
  with_read_from_backup v = set_property Value read_from_backup_prop (bool v)

  -- `WithDataRegionName`
  unfoldable pub with_data_region_name : String → CacheConfigurationOption
  with_data_region_name name config =
      unless_blank (trim name) config
        (λ n. set_property Value data_region_name_prop (string n) config)

  -- `WithOnHeapCacheEnabled`
  unfoldable pub with_on_heap_cache_enabled : Bool → CacheConfigurationOption
  with_on_heap_cache_enabled v = set_property Value on_heap_cache_enabled_prop (bool v)

  -- `WithCacheMode`
  unfoldable pub with_cache_mode : ℤ → CacheConfigurationOption
  with_cache_mode v = set_property Value cache_mode_prop (cache_mode v)

  -- `WithCacheAtomicityMode`
  unfoldable pub with_cache_atomicity_mode : ℤ → CacheConfigurationOption
  with_cache_atomicity_mode v =
      set_property Value cache_atomicity_mode_prop (cache_atomicity_mode v)

  -- `WithQueryParallelism`
  unfoldable pub with_query_parallelism : ℤ → CacheConfigurationOption
  with_query_parallelism v = set_property Value query_parallelism_prop (int v)

  -- `WithQueryDetailsMetricsSize`
  unfoldable pub with_query_details_metrics_size : ℤ → CacheConfigurationOption
  with_query_details_metrics_size v = set_property Value query_details_metric_size_prop (int v)

  -- `WithSqlSchema`
  unfoldable pub with_sql_schema : String → CacheConfigurationOption
  with_sql_schema name config =
      unless_blank (trim name) config (λ n. set_property Value sql_schema_prop (string n) config)

  -- `WithSqlIndexMaxInlineSize`
  unfoldable pub with_sql_index_max_inline_size : ℤ → CacheConfigurationOption
  with_sql_index_max_inline_size v = set_property Value sql_index_max_inline_size_prop (int v)

  -- `WithSqlEscapeAll`
  unfoldable pub with_sql_escape_all : Bool → CacheConfigurationOption
  with_sql_escape_all v = set_property Value sql_escape_all_prop (bool v)

  -- `WithRebalanceMode`
  unfoldable pub with_rebalance_mode : ℤ → CacheConfigurationOption
  with_rebalance_mode v = set_property Value rebalance_mode_prop (cache_rebalance_mode v)

  -- `WithRebalanceOrder`
  unfoldable pub with_rebalance_order : ℤ → CacheConfigurationOption
  with_rebalance_order v = set_property Value rebalance_order_prop (int v)

  -- `WithMaxConcurrentAsyncOperations`
  unfoldable pub with_max_concurrent_async_operations : ℤ → CacheConfigurationOption
  with_max_concurrent_async_operations v = set_property Value max_async_ops_prop (int v)

  -- `WithPartitionLossPolicy`
  unfoldable pub with_partition_loss_policy : ℤ → CacheConfigurationOption
  with_partition_loss_policy v =
      set_property Value partition_loss_policy_prop (partition_loss_policy v)

  -- `WithMaxQueryIteratorsCount`
  unfoldable pub with_max_query_iterators_count : ℤ → CacheConfigurationOption
  with_max_query_iterators_count v = set_property Value max_query_iterators_prop (int v)

  -- `WithEagerTtl`
  unfoldable pub with_eager_ttl : Bool → CacheConfigurationOption
  with_eager_ttl v = set_property Value eager_ttl_prop (bool v)

  -- `WithStatsEnabled`
  unfoldable pub with_stats_enabled : Bool → CacheConfigurationOption
  with_stats_enabled v = set_property Value stats_enabled_prop (bool v)
