-- ===== src/Config/Answer/Shown.antt =====
-- What the methods of a configuration return once it is read from the answer of a server.
use mcgv.Base.{ℕ, ◌≡◌, refl, ap, ◌∙◌, false, [], ◌∷◌, map, Option, none, some, ok, length}
use mcgv.Base.{String, lookup, number_keys, value_or}
use mcgv.Base.Int.{pos, negsuc}
use mcgv.Stream.In.{new_input_stream}
use mcgv.Stream.Whole.{read_whole}
use mcgv.Metadata.Wire.Sequences.{first_of}
use mcgv.Protocol.{ProtocolContext}
use mcgv.Object.{Marshaller, Laws}
use mcgv.Cache.{ExpiryPolicy}
use mcgv.Config.{Property, CacheConfiguration}
use mcgv.Config.Getters.{
  name, backups, cache_mode_of, cache_atomicity_mode_of, is_copy_on_read, data_region_name,
  is_eager_ttl, cache_group_name, max_concurrent_async_operations, max_query_iterators_count,
  is_on_heap_cache_enabled, partition_loss_policy_of, query_details_metrics_size, query_parallelism,
  is_read_from_backup, rebalance_mode, rebalance_order, is_sql_escape_all, is_stats_enabled,
  sql_index_max_inline_size, sql_schema, write_synchronization_mode, expiry_policy_of,
  key_configuration, query_entities_of, as_string, as_bool, as_int, as_cache_mode,
  as_cache_atomicity_mode, as_partition_loss_policy, as_cache_write_synchronization_mode,
  as_cache_rebalance_mode, as_expiry_policy, as_cache_key_configs, as_query_entities,
  sync_rebalance_mode,
}
use mcgv.Config.EntityWire.RoundTrip.{canon_entity}
use mcgv.Config.Reader.{unmarshal_cache_configuration}
use mcgv.Config.Writes.{add_all, last_write, lookup-add_all}
use mcgv.Config.Answer.{
  Settings, IsSettings, first_writes, second_writes, third_writes, fourth_writes, policy_property,
  policy_of, has_policy, text_property, settings_bytes, settings_config,
}
use mcgv.Config.Answer.Steps.{settings-Reads}

module _ (marsh : Marshaller) (ctx : ProtocolContext) (laws : Laws marsh) where
  abbrev get :
      {A : Type 0} → (Property marsh.Value → Option A) → A → Option (Property marsh.Value) → A
  get cast d o = elim o [ none ↦ d | some v ↦ value_or d (cast v) ]

  abbrev the_policy : Settings marsh ctx laws → Option ExpiryPolicy
  the_policy a = policy_of marsh ctx laws (has_policy marsh ctx laws) a.policy

  lookup-settings :
      (k : ℕ) (a : Settings marsh ctx laws)
      → lookup k (settings_config marsh ctx laws a)
        ≡ last_write k ((407, policy_property marsh ctx laws (the_policy a)) ∷ []) (
            last_write k (fourth_writes marsh ctx laws a) (
              last_write k (third_writes marsh ctx laws a) (
                last_write k
                  (second_writes marsh ctx laws a)
                  (last_write k (first_writes marsh ctx laws a) none))))
  lookup-settings k a =
      lookup-add_all k ((407, policy_property marsh ctx laws (the_policy a)) ∷ []) (
        add_all (fourth_writes marsh ctx laws a) (
          add_all (third_writes marsh ctx laws a) (
            add_all (second_writes marsh ctx laws a) (add_all (first_writes marsh ctx laws a) []))))
      ∙ ap (last_write k ((407, policy_property marsh ctx laws (the_policy a)) ∷ [])) (
          lookup-add_all k (fourth_writes marsh ctx laws a) (
            add_all (third_writes marsh ctx laws a) (
              add_all (second_writes marsh ctx laws a)
                (add_all (first_writes marsh ctx laws a) [])))
          ∙ ap (last_write k (fourth_writes marsh ctx laws a)) (
              lookup-add_all k (third_writes marsh ctx laws a) (
                add_all (second_writes marsh ctx laws a)
                  (add_all (first_writes marsh ctx laws a) []))
              ∙ ap (last_write k (third_writes marsh ctx laws a)) (
                  lookup-add_all k (second_writes marsh ctx laws a)
                    (add_all (first_writes marsh ctx laws a) [])
                  ∙ ap (last_write k (second_writes marsh ctx laws a))
                      (lookup-add_all k (first_writes marsh ctx laws a) []))))

  shown_text : (v : String) → get as_string [] (first_of (text_property marsh ctx laws v) none) ≡ v
  shown_text [] = refl
  shown_text (c ∷ cs) = refl

  shown_policy :
      (p : Option ExpiryPolicy)
      → get as_expiry_policy none (first_of (policy_property marsh ctx laws p) none) ≡ p
  shown_policy none = refl
  shown_policy (some p) = refl

  -- Every method returns what the answer has.
  pub record HasSettings (a : Settings marsh ctx laws) (config : CacheConfiguration marsh.Value)
      : Type 0 where
    pub name_shown : name config ≡ a.cache_name
    pub backups_shown : backups config ≡ a.backups
    pub cache_mode_of_shown : cache_mode_of config ≡ a.cache_mode
    pub cache_atomicity_mode_of_shown : cache_atomicity_mode_of config ≡ a.cache_atomicity_mode
    pub is_copy_on_read_shown : is_copy_on_read config ≡ a.copy_on_read
    pub data_region_name_shown : data_region_name config ≡ a.data_region_name
    pub is_eager_ttl_shown : is_eager_ttl config ≡ a.eager_ttl
    pub cache_group_name_shown : cache_group_name config ≡ a.group_name
    pub max_concurrent_async_operations_shown :
        max_concurrent_async_operations config ≡ a.max_async_ops
    pub max_query_iterators_count_shown : max_query_iterators_count config ≡ a.max_query_iterators
    pub is_on_heap_cache_enabled_shown : is_on_heap_cache_enabled config ≡ a.on_heap_cache_enabled
    pub partition_loss_policy_of_shown : partition_loss_policy_of config ≡ a.partition_loss_policy
    pub query_details_metrics_size_shown :
        query_details_metrics_size config ≡ a.query_details_metric_size
    pub query_parallelism_shown : query_parallelism config ≡ a.query_parallelism
    pub is_read_from_backup_shown : is_read_from_backup config ≡ a.read_from_backup
    pub rebalance_mode_shown : rebalance_mode config ≡ a.rebalance_mode
    pub rebalance_order_shown : rebalance_order config ≡ a.rebalance_order
    pub is_sql_escape_all_shown : is_sql_escape_all config ≡ a.sql_escape_all
    pub is_stats_enabled_shown : is_stats_enabled config ≡ a.stats_enabled
    pub sql_index_max_inline_size_shown :
        sql_index_max_inline_size config ≡ a.sql_index_max_inline_size
    pub sql_schema_shown : sql_schema config ≡ a.sql_schema
    pub write_synchronization_mode_shown : write_synchronization_mode config ≡ a.write_sync_mode
    pub expiry_policy_of_shown : expiry_policy_of config ≡ the_policy a
    pub key_configuration_shown : key_configuration config ≡ a.key_configs
    pub query_entities_of_shown :
        query_entities_of config ≡ map (canon_entity marsh ctx laws) a.entities

  settings_config-HasSettings :
      (a : Settings marsh ctx laws) → HasSettings a (settings_config marsh ctx laws a)
  unfolding name backups cache_mode_of cache_atomicity_mode_of is_copy_on_read data_region_name
      is_eager_ttl cache_group_name max_concurrent_async_operations max_query_iterators_count
      is_on_heap_cache_enabled partition_loss_policy_of query_details_metrics_size query_parallelism
      is_read_from_backup rebalance_mode rebalance_order is_sql_escape_all is_stats_enabled
      sql_index_max_inline_size sql_schema write_synchronization_mode expiry_policy_of
      key_configuration query_entities_of
  settings_config-HasSettings a = record {
    name_shown = ap (get as_string []) (lookup-settings 0 a) ∙ shown_text a.cache_name;
    backups_shown = ap (get as_int (pos 0)) (lookup-settings 3 a);
    cache_mode_of_shown = ap (get as_cache_mode (negsuc 0)) (lookup-settings 1 a);
    cache_atomicity_mode_of_shown =
        ap (get as_cache_atomicity_mode (negsuc 0)) (lookup-settings 2 a);
    is_copy_on_read_shown = ap (get as_bool false) (lookup-settings 5 a);
    data_region_name_shown =
        ap (get as_string []) (lookup-settings 100 a) ∙ shown_text a.data_region_name;
    is_eager_ttl_shown = ap (get as_bool false) (lookup-settings 405 a);
    cache_group_name_shown =
        ap (get as_string []) (lookup-settings 400 a) ∙ shown_text a.group_name;
    max_concurrent_async_operations_shown = ap (get as_int (pos 0)) (lookup-settings 403 a);
    max_query_iterators_count_shown = ap (get as_int (pos 0)) (lookup-settings 206 a);
    is_on_heap_cache_enabled_shown = ap (get as_bool false) (lookup-settings 101 a);
    partition_loss_policy_of_shown =
        ap (get as_partition_loss_policy (negsuc 0)) (lookup-settings 404 a);
    query_details_metrics_size_shown = ap (get as_int (pos 0)) (lookup-settings 202 a);
    query_parallelism_shown = ap (get as_int (pos 0)) (lookup-settings 201 a);
    is_read_from_backup_shown = ap (get as_bool false) (lookup-settings 6 a);
    rebalance_mode_shown =
        ap (get as_cache_rebalance_mode sync_rebalance_mode) (lookup-settings 300 a);
    rebalance_order_shown = ap (get as_int (pos 0)) (lookup-settings 305 a);
    is_sql_escape_all_shown = ap (get as_bool false) (lookup-settings 205 a);
    is_stats_enabled_shown = ap (get as_bool false) (lookup-settings 406 a);
    sql_index_max_inline_size_shown = ap (get as_int (pos 0)) (lookup-settings 204 a);
    sql_schema_shown = ap (get as_string []) (lookup-settings 203 a) ∙ shown_text a.sql_schema;
    write_synchronization_mode_shown =
        ap (get as_cache_write_synchronization_mode (negsuc 0)) (lookup-settings 4 a);
    expiry_policy_of_shown =
        ap (get as_expiry_policy none) (lookup-settings 407 a) ∙ shown_policy (the_policy a);
    key_configuration_shown = ap (get as_cache_key_configs []) (lookup-settings 401 a);
    query_entities_of_shown = ap (get as_query_entities []) (lookup-settings 200 a);
  }

  -- From the bytes of an answer in range, `unmarshalCacheConfiguration` takes all the bytes and returns a
  -- configuration of which each of the 25 methods returns what the answer has: the numbers, flags and
  -- texts, the key configurations, the query entities as they are read back, and, if the protocol supports
  -- it, the expiry policy, with its milliseconds as durations.
  pub unmarshal_cache_configuration-HasSettings :
      (a : Settings marsh ctx laws)
      → IsSettings marsh ctx laws a
      → (config : CacheConfiguration marsh.Value) × (unmarshal_cache_configuration marsh ctx
            (new_input_stream (settings_bytes marsh ctx laws a) 0)
          ≡ ok (
            config,
            new_input_stream
                (settings_bytes marsh ctx laws a)
                (length (settings_bytes marsh ctx laws a)),
          ))
        × HasSettings a config
  unmarshal_cache_configuration-HasSettings a h = (
    settings_config marsh ctx laws a,
    read_whole _ _ _ (settings-Reads marsh ctx laws a h),
    settings_config-HasSettings a,
  )
