-- ===== src/Config/Getters.antt =====
-- The methods of `CacheConfiguration` of cache_configuration.go that return its properties. Nil slices
-- and nil pointers are [] and none.
use mcgv.Base.{Bool, false, List, [], Option, none, some}
use mcgv.Base.{String, lookup, number_keys, value_or}
use mcgv.Base.Int.{ℤ, pos, negsuc}
use mcgv.Cache.{ExpiryPolicy}
use mcgv.Config.{
  CacheKeyConfig, QueryEntity, Property, string, bool, int, cache_mode, cache_atomicity_mode,
  partition_loss_policy, cache_write_synchronization_mode, cache_rebalance_mode, expiry_policy,
  cache_key_configs, query_entities, CacheConfiguration, PropertyCode, property_code, backups_prop,
  cache_atomicity_mode_prop, cache_key_config_prop, cache_mode_prop, cache_name_prop,
  copy_on_read_prop, data_region_name_prop, eager_ttl_prop, expire_policy_prop, group_name_prop,
  max_async_ops_prop, max_query_iterators_prop, on_heap_cache_enabled_prop,
  partition_loss_policy_prop, query_details_metric_size_prop, query_entities_prop,
  query_parallelism_prop, read_from_backup_prop, rebalance_mode_prop, rebalance_order_prop,
  sql_escape_all_prop, sql_index_max_inline_size_prop, sql_schema_prop, stats_enabled_prop,
  write_sync_mode_prop,
}

-- `SyncRebalanceMode`
abbrev pub sync_rebalance_mode : ℤ
sync_rebalance_mode = pos 0

module _ {Value : Type 0} where
  -- The type assertions.
  abbrev pub as_string : Property Value → Option String
  as_string (string v) = some v
  as_string _ = none

  abbrev pub as_bool : Property Value → Option Bool
  as_bool (bool v) = some v
  as_bool _ = none

  abbrev pub as_int : Property Value → Option ℤ
  as_int (int v) = some v
  as_int _ = none

  abbrev pub as_cache_mode : Property Value → Option ℤ
  as_cache_mode (cache_mode v) = some v
  as_cache_mode _ = none

  abbrev pub as_cache_atomicity_mode : Property Value → Option ℤ
  as_cache_atomicity_mode (cache_atomicity_mode v) = some v
  as_cache_atomicity_mode _ = none

  abbrev pub as_partition_loss_policy : Property Value → Option ℤ
  as_partition_loss_policy (partition_loss_policy v) = some v
  as_partition_loss_policy _ = none

  abbrev pub as_cache_write_synchronization_mode : Property Value → Option ℤ
  as_cache_write_synchronization_mode (cache_write_synchronization_mode v) = some v
  as_cache_write_synchronization_mode _ = none

  abbrev pub as_cache_rebalance_mode : Property Value → Option ℤ
  as_cache_rebalance_mode (cache_rebalance_mode v) = some v
  as_cache_rebalance_mode _ = none

  abbrev pub as_expiry_policy : Property Value → Option (Option ExpiryPolicy)
  as_expiry_policy (expiry_policy v) = some v
  as_expiry_policy _ = none

  abbrev pub as_cache_key_configs : Property Value → Option (List CacheKeyConfig)
  as_cache_key_configs (cache_key_configs v) = some v
  as_cache_key_configs _ = none

  abbrev pub as_query_entities : Property Value → Option (List (QueryEntity Value))
  as_query_entities (query_entities v) = some v
  as_query_entities _ = none

  -- `getProperty`: the default value also for a property of another type.
  abbrev pub get_property :
      {A : Type 0} → (Property Value → Option A) → CacheConfiguration Value → PropertyCode → A → A
  get_property cast config code d = elim (lookup (property_code code) config) [
    | none ↦ d
    | some v ↦ value_or d (cast v)
  ]

  -- `Name`
  unfoldable pub name : CacheConfiguration Value → String
  name config = get_property as_string config cache_name_prop []

  -- `Backups`
  unfoldable pub backups : CacheConfiguration Value → ℤ
  backups config = get_property as_int config backups_prop (pos 0)

  -- `CacheMode`
  unfoldable pub cache_mode_of : CacheConfiguration Value → ℤ
  cache_mode_of config = get_property as_cache_mode config cache_mode_prop (negsuc 0)

  -- `CacheAtomicityMode`
  unfoldable pub cache_atomicity_mode_of : CacheConfiguration Value → ℤ
  cache_atomicity_mode_of config =
      get_property as_cache_atomicity_mode config cache_atomicity_mode_prop (negsuc 0)

  -- `IsCopyOnRead`
  unfoldable pub is_copy_on_read : CacheConfiguration Value → Bool
  is_copy_on_read config = get_property as_bool config copy_on_read_prop false

  -- `DataRegionName`
  unfoldable pub data_region_name : CacheConfiguration Value → String
  data_region_name config = get_property as_string config data_region_name_prop []

  -- `IsEagerTtl`
  unfoldable pub is_eager_ttl : CacheConfiguration Value → Bool
  is_eager_ttl config = get_property as_bool config eager_ttl_prop false

  -- `CacheGroupName`
  unfoldable pub cache_group_name : CacheConfiguration Value → String
  cache_group_name config = get_property as_string config group_name_prop []

  -- `MaxConcurrentAsyncOperations`
  unfoldable pub max_concurrent_async_operations : CacheConfiguration Value → ℤ
  max_concurrent_async_operations config = get_property as_int config max_async_ops_prop (pos 0)

  -- `MaxQueryIteratorsCount`
  unfoldable pub max_query_iterators_count : CacheConfiguration Value → ℤ
  max_query_iterators_count config = get_property as_int config max_query_iterators_prop (pos 0)

  -- `IsOnHeapCacheEnabled`
  unfoldable pub is_on_heap_cache_enabled : CacheConfiguration Value → Bool
  is_on_heap_cache_enabled config = get_property as_bool config on_heap_cache_enabled_prop false

  -- `PartitionLossPolicy`
  unfoldable pub partition_loss_policy_of : CacheConfiguration Value → ℤ
  partition_loss_policy_of config =
      get_property as_partition_loss_policy config partition_loss_policy_prop (negsuc 0)

  -- `QueryDetailsMetricsSize`
  unfoldable pub query_details_metrics_size : CacheConfiguration Value → ℤ
  query_details_metrics_size config =
      get_property as_int config query_details_metric_size_prop (pos 0)

  -- `QueryParallelism`
  unfoldable pub query_parallelism : CacheConfiguration Value → ℤ
  query_parallelism config = get_property as_int config query_parallelism_prop (pos 0)

  -- `IsReadFromBackup`
  unfoldable pub is_read_from_backup : CacheConfiguration Value → Bool
  is_read_from_backup config = get_property as_bool config read_from_backup_prop false

  -- `RebalanceMode`
  unfoldable pub rebalance_mode : CacheConfiguration Value → ℤ
  rebalance_mode config =
      get_property as_cache_rebalance_mode config rebalance_mode_prop sync_rebalance_mode

  -- `RebalanceOrder`
  unfoldable pub rebalance_order : CacheConfiguration Value → ℤ
  rebalance_order config = get_property as_int config rebalance_order_prop (pos 0)

  -- `IsSqlEscapeAll`
  unfoldable pub is_sql_escape_all : CacheConfiguration Value → Bool
  is_sql_escape_all config = get_property as_bool config sql_escape_all_prop false

  -- `IsStatsEnabled`
  unfoldable pub is_stats_enabled : CacheConfiguration Value → Bool
  is_stats_enabled config = get_property as_bool config stats_enabled_prop false

  -- `SqlIndexMaxInlineSize`
  unfoldable pub sql_index_max_inline_size : CacheConfiguration Value → ℤ
  sql_index_max_inline_size config =
      get_property as_int config sql_index_max_inline_size_prop (pos 0)

  -- `SqlSchema`
  unfoldable pub sql_schema : CacheConfiguration Value → String
  sql_schema config = get_property as_string config sql_schema_prop []

  -- `WriteSynchronizationMode`
  unfoldable pub write_synchronization_mode : CacheConfiguration Value → ℤ
  write_synchronization_mode config =
      get_property as_cache_write_synchronization_mode config write_sync_mode_prop (negsuc 0)

  -- `ExpiryPolicy`
  unfoldable pub expiry_policy_of : CacheConfiguration Value → Option ExpiryPolicy
  expiry_policy_of config = get_property as_expiry_policy config expire_policy_prop none

  -- `KeyConfiguration`
  unfoldable pub key_configuration : CacheConfiguration Value → List CacheKeyConfig
  key_configuration config = get_property as_cache_key_configs config cache_key_config_prop []

  -- `QueryEntities`
  unfoldable pub query_entities_of : CacheConfiguration Value → List (QueryEntity Value)
  query_entities_of config = get_property as_query_entities config query_entities_prop []
