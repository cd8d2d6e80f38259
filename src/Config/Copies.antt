-- ===== src/Config/Copies.antt =====
-- A copy of a configuration has the properties of the configuration.
use mcgv.Base.{
  ℕ, ◌≡◌, refl, sym, ap, ◌∙◌, inl, inr, Bool, true, false, List, [], ◌∷◌, map, Option, none, some,
}
use mcgv.Base.{
  lookup, put, lookup-put, number_keys, string_keys, Bool-cases, value_or, is_listed, ◌==◌,
  if◌then◌else◌, ==_iff,
}
use mcgv.Base.Int.{pos, negsuc}
use mathlib.Core.Path.{subst}
use mcgv.Metadata.Wire.Sequences.{HasKeys, unlisted, first_of, or_none}
use mcgv.Config.{
  QueryEntity, Property, string, bool, int, int32, int64, cache_mode, cache_atomicity_mode,
  partition_loss_policy, cache_write_synchronization_mode, cache_rebalance_mode, expiry_policy,
  cache_key_configs, query_entities, other, CacheConfiguration, PropertyCode, property_code,
  backups_prop, cache_atomicity_mode_prop, cache_mode_prop, cache_name_prop, copy_on_read_prop,
  data_region_name_prop, eager_ttl_prop, expire_policy_prop, group_name_prop, max_async_ops_prop,
  max_query_iterators_prop, on_heap_cache_enabled_prop, partition_loss_policy_prop,
  query_details_metric_size_prop, query_parallelism_prop, read_from_backup_prop,
  rebalance_mode_prop, rebalance_order_prop, sql_escape_all_prop, sql_index_max_inline_size_prop,
  sql_schema_prop, stats_enabled_prop, write_sync_mode_prop, copy_entity, copy_properties, copy,
}
use mcgv.Config.EntityCopies.{SameEntities, HaveKeys, copies-SameEntities}
use mcgv.Config.Getters.{
  name, backups, cache_mode_of, cache_atomicity_mode_of, is_copy_on_read, data_region_name,
  is_eager_ttl, cache_group_name, max_concurrent_async_operations, max_query_iterators_count,
  is_on_heap_cache_enabled, partition_loss_policy_of, query_details_metrics_size, query_parallelism,
  is_read_from_backup, rebalance_mode, rebalance_order, is_sql_escape_all, is_stats_enabled,
  sql_index_max_inline_size, sql_schema, write_synchronization_mode, expiry_policy_of,
  key_configuration, query_entities_of, as_string, as_bool, as_int, as_cache_mode,
  as_cache_atomicity_mode, as_partition_loss_policy, as_cache_write_synchronization_mode,
  as_cache_rebalance_mode, as_expiry_policy, as_cache_key_configs, as_query_entities, get_property,
  sync_rebalance_mode,
}

module _ (Value : Type 0) where
  -- What the copy has for a property.
  abbrev copied : Property Value → Option (Property Value)
  copied (query_entities []) = none
  copied (query_entities (e ∷ es)) = some (query_entities (map (copy_entity Value) (e ∷ es)))
  copied (cache_key_configs []) = none
  copied v = some v

  abbrev copied? : Option (Property Value) → Option (Property Value)
  copied? none = none
  copied? (some v) = copied v

  abbrev add : ℕ → Option (Property Value) → CacheConfiguration Value → CacheConfiguration Value
  add code none acc = acc
  add code (some v) acc = put code v acc

  copy_step :
      (code : ℕ) (v : Property Value) (props acc : CacheConfiguration Value)
      → copy_properties Value ((code, v) ∷ props) acc
        ≡ copy_properties Value props (add code (copied v) acc)
  unfolding copy_properties
  copy_step code (string v) props acc = refl
  copy_step code (bool v) props acc = refl
  copy_step code (int v) props acc = refl
  copy_step code (int32 v) props acc = refl
  copy_step code (int64 v) props acc = refl
  copy_step code (cache_mode v) props acc = refl
  copy_step code (cache_atomicity_mode v) props acc = refl
  copy_step code (partition_loss_policy v) props acc = refl
  copy_step code (cache_write_synchronization_mode v) props acc = refl
  copy_step code (cache_rebalance_mode v) props acc = refl
  copy_step code (expiry_policy v) props acc = refl
  copy_step code (cache_key_configs []) props acc = refl
  copy_step code (cache_key_configs (c ∷ cs)) props acc = refl
  copy_step code (query_entities []) props acc = refl
  copy_step code (query_entities (e ∷ es)) props acc = refl
  copy_step code other props acc = refl

  lookup-add :
      (k code : ℕ) (o : Option (Property Value)) (acc : CacheConfiguration Value)
      → lookup k (add code o acc) ≡ (if k == code then first_of o (lookup k acc) else lookup k acc)
  lookup-add k code none acc = choose (k == code)
    where
      choose : (b : Bool) → lookup k acc ≡ (if b then lookup k acc else lookup k acc)
      choose true = refl
      choose false = refl
  lookup-add k code (some v) acc = lookup-put k code v acc

  lookup-copy_properties :
      (k : ℕ) (config acc : CacheConfiguration Value)
      → HasKeys config
      → lookup k (copy_properties Value config acc)
        ≡ first_of (copied? (lookup k config)) (lookup k acc)
  unfolding copy_properties
  lookup-copy_properties k [] acc h = refl
  lookup-copy_properties k ((code, v) ∷ props) acc h =
      ap (λ c. lookup k c) (copy_step code v props acc)
      ∙ lookup-copy_properties k props (add code (copied v) acc) h.1
      ∙ ap (first_of (copied? (lookup k props))) (lookup-add k code (copied v) acc)
      ∙ elim (Bool-cases (k == code)) [
        | inl e ↦
            let gone : lookup k props ≡ none =
              unlisted k props
                (ap (λ i. is_listed i (map (λ p. p.0) props)) ((==_iff k code).0 e) ∙ h.0) in
            rw (e, gone) refl
        | inr e ↦ rw e refl
      ]

  -- The property with a code.
  lookup-copy :
      (k : ℕ) (config : CacheConfiguration Value)
      → HasKeys config
      → lookup k (copy Value config []) ≡ copied? (lookup k config)
  unfolding copy
  lookup-copy k config h =
      lookup-copy_properties k config [] h ∙ or_none (copied? (lookup k config))

  abbrev get : {A : Type 0} → (Property Value → Option A) → A → Option (Property Value) → A
  get cast d o = elim o [ none ↦ d | some v ↦ value_or d (cast v) ]

  -- A type assertion to neither type of lists gives the same of the copy.
  get-copied? :
      {A : Type 0} (cast : Property Value → Option A) (d : A) (o : Option (Property Value))
      → ((es : List (QueryEntity Value)) → cast (query_entities es) ≡ none)
      → cast (cache_key_configs []) ≡ none
      → get cast d (copied? o) ≡ get cast d o
  get-copied? cast d none h h' = refl
  get-copied? cast d (some (string v)) h h' = refl
  get-copied? cast d (some (bool v)) h h' = refl
  get-copied? cast d (some (int v)) h h' = refl
  get-copied? cast d (some (int32 v)) h h' = refl
  get-copied? cast d (some (int64 v)) h h' = refl
  get-copied? cast d (some (cache_mode v)) h h' = refl
  get-copied? cast d (some (cache_atomicity_mode v)) h h' = refl
  get-copied? cast d (some (partition_loss_policy v)) h h' = refl
  get-copied? cast d (some (cache_write_synchronization_mode v)) h h' = refl
  get-copied? cast d (some (cache_rebalance_mode v)) h h' = refl
  get-copied? cast d (some (expiry_policy v)) h h' = refl
  get-copied? cast d (some (cache_key_configs (c ∷ cs))) h h' = refl
  get-copied? cast d (some other) h h' = refl
  get-copied? cast d (some (cache_key_configs [])) h h' = rw h' refl
  get-copied? cast d (some (query_entities [])) h h' = rw (h []) refl
  get-copied? cast d (some (query_entities (e ∷ es))) h h' =
      rw (h (e ∷ es), h (map (copy_entity Value) (e ∷ es))) refl

  key_configs-copied? :
      (o : Option (Property Value))
      → get as_cache_key_configs [] (copied? o) ≡ get as_cache_key_configs [] o
  key_configs-copied? none = refl
  key_configs-copied? (some (string v)) = refl
  key_configs-copied? (some (bool v)) = refl
  key_configs-copied? (some (int v)) = refl
  key_configs-copied? (some (int32 v)) = refl
  key_configs-copied? (some (int64 v)) = refl
  key_configs-copied? (some (cache_mode v)) = refl
  key_configs-copied? (some (cache_atomicity_mode v)) = refl
  key_configs-copied? (some (partition_loss_policy v)) = refl
  key_configs-copied? (some (cache_write_synchronization_mode v)) = refl
  key_configs-copied? (some (cache_rebalance_mode v)) = refl
  key_configs-copied? (some (expiry_policy v)) = refl
  key_configs-copied? (some (cache_key_configs [])) = refl
  key_configs-copied? (some (cache_key_configs (c ∷ cs))) = refl
  key_configs-copied? (some (query_entities [])) = refl
  key_configs-copied? (some (query_entities (e ∷ es))) = refl
  key_configs-copied? (some other) = refl

  entities-copied? :
      (o : Option (Property Value))
      → get as_query_entities [] (copied? o) ≡ map (copy_entity Value) (get as_query_entities [] o)
  entities-copied? none = refl
  entities-copied? (some (string v)) = refl
  entities-copied? (some (bool v)) = refl
  entities-copied? (some (int v)) = refl
  entities-copied? (some (int32 v)) = refl
  entities-copied? (some (int64 v)) = refl
  entities-copied? (some (cache_mode v)) = refl
  entities-copied? (some (cache_atomicity_mode v)) = refl
  entities-copied? (some (partition_loss_policy v)) = refl
  entities-copied? (some (cache_write_synchronization_mode v)) = refl
  entities-copied? (some (cache_rebalance_mode v)) = refl
  entities-copied? (some (expiry_policy v)) = refl
  entities-copied? (some (cache_key_configs [])) = refl
  entities-copied? (some (cache_key_configs (c ∷ cs))) = refl
  entities-copied? (some (query_entities [])) = refl
  entities-copied? (some (query_entities (e ∷ es))) = refl
  entities-copied? (some other) = refl

  scalar :
      {A : Type 0} (config : CacheConfiguration Value) (code : PropertyCode)
      (cast : Property Value → Option A) (d : A)
      → HasKeys config
      → ((es : List (QueryEntity Value)) → cast (query_entities es) ≡ none)
      → cast (cache_key_configs []) ≡ none
      → get_property cast (copy Value config []) code d ≡ get_property cast config code d
  scalar config code cast d h e e' =
      ap (get cast d) (lookup-copy (property_code code) config h)
      ∙ get-copied? cast d (lookup (property_code code) config) e e'

  -- Every property that the methods return is the same of one configuration and of another; the query
  -- entities have the same names, fields, indexes and aliases.
  pub record HasSame (config config' : CacheConfiguration Value) : Type 0 where
    pub name_same : name config' ≡ name config
    pub backups_same : backups config' ≡ backups config
    pub cache_mode_of_same : cache_mode_of config' ≡ cache_mode_of config
    pub cache_atomicity_mode_of_same :
        cache_atomicity_mode_of config' ≡ cache_atomicity_mode_of config
    pub is_copy_on_read_same : is_copy_on_read config' ≡ is_copy_on_read config
    pub data_region_name_same : data_region_name config' ≡ data_region_name config
    pub is_eager_ttl_same : is_eager_ttl config' ≡ is_eager_ttl config
    pub cache_group_name_same : cache_group_name config' ≡ cache_group_name config
    pub max_concurrent_async_operations_same :
        max_concurrent_async_operations config' ≡ max_concurrent_async_operations config
    pub max_query_iterators_count_same :
        max_query_iterators_count config' ≡ max_query_iterators_count config
    pub is_on_heap_cache_enabled_same :
        is_on_heap_cache_enabled config' ≡ is_on_heap_cache_enabled config
    pub partition_loss_policy_of_same :
        partition_loss_policy_of config' ≡ partition_loss_policy_of config
    pub query_details_metrics_size_same :
        query_details_metrics_size config' ≡ query_details_metrics_size config
    pub query_parallelism_same : query_parallelism config' ≡ query_parallelism config
    pub is_read_from_backup_same : is_read_from_backup config' ≡ is_read_from_backup config
    pub rebalance_mode_same : rebalance_mode config' ≡ rebalance_mode config
    pub rebalance_order_same : rebalance_order config' ≡ rebalance_order config
    pub is_sql_escape_all_same : is_sql_escape_all config' ≡ is_sql_escape_all config
    pub is_stats_enabled_same : is_stats_enabled config' ≡ is_stats_enabled config
    pub sql_index_max_inline_size_same :
        sql_index_max_inline_size config' ≡ sql_index_max_inline_size config
    pub sql_schema_same : sql_schema config' ≡ sql_schema config
    pub write_synchronization_mode_same :
        write_synchronization_mode config' ≡ write_synchronization_mode config
    pub expiry_policy_of_same : expiry_policy_of config' ≡ expiry_policy_of config
    pub key_configuration_same : key_configuration config' ≡ key_configuration config
    pub query_entities_same :
        SameEntities Value (query_entities_of config) (query_entities_of config')

  -- `Copy` with no options of a configuration whose codes are all different, and in whose query entities
  -- no field has two aliases: every method returns the same of the copy. The query entities of the copy
  -- are as many, in the same order, with the same names, fields and indexes, and with the same alias for
  -- every field.
  pub copy-HasSame :
      (config : CacheConfiguration Value)
      → HasKeys config
      → HaveKeys Value (query_entities_of config)
      → HasSame config (copy Value config [])
  unfolding name backups cache_mode_of cache_atomicity_mode_of is_copy_on_read data_region_name
      is_eager_ttl cache_group_name max_concurrent_async_operations max_query_iterators_count
      is_on_heap_cache_enabled partition_loss_policy_of query_details_metrics_size query_parallelism
      is_read_from_backup rebalance_mode rebalance_order is_sql_escape_all is_stats_enabled
      sql_index_max_inline_size sql_schema write_synchronization_mode expiry_policy_of
      key_configuration query_entities_of
  copy-HasSame config h keys = record {
    name_same = scalar config cache_name_prop as_string [] h (λ es. refl) refl;
    backups_same = scalar config backups_prop as_int (pos 0) h (λ es. refl) refl;
    cache_mode_of_same = scalar config cache_mode_prop as_cache_mode (negsuc 0) h (λ es. refl) refl;
    cache_atomicity_mode_of_same =
        scalar config cache_atomicity_mode_prop as_cache_atomicity_mode (negsuc 0) h (λ es. refl)
          refl;
    is_copy_on_read_same = scalar config copy_on_read_prop as_bool false h (λ es. refl) refl;
    data_region_name_same = scalar config data_region_name_prop as_string [] h (λ es. refl) refl;
    is_eager_ttl_same = scalar config eager_ttl_prop as_bool false h (λ es. refl) refl;
    cache_group_name_same = scalar config group_name_prop as_string [] h (λ es. refl) refl;
    max_concurrent_async_operations_same =
        scalar config max_async_ops_prop as_int (pos 0) h (λ es. refl) refl;
    max_query_iterators_count_same =
        scalar config max_query_iterators_prop as_int (pos 0) h (λ es. refl) refl;
    is_on_heap_cache_enabled_same =
        scalar config on_heap_cache_enabled_prop as_bool false h (λ es. refl) refl;
    partition_loss_policy_of_same =
        scalar config partition_loss_policy_prop as_partition_loss_policy (negsuc 0) h (λ es. refl)
          refl;
    query_details_metrics_size_same =
        scalar config query_details_metric_size_prop as_int (pos 0) h (λ es. refl) refl;
    query_parallelism_same =
        scalar config query_parallelism_prop as_int (pos 0) h (λ es. refl) refl;
    is_read_from_backup_same =
        scalar config read_from_backup_prop as_bool false h (λ es. refl) refl;
    rebalance_mode_same =
        scalar config rebalance_mode_prop as_cache_rebalance_mode sync_rebalance_mode h (λ es. refl)
          refl;
    rebalance_order_same = scalar config rebalance_order_prop as_int (pos 0) h (λ es. refl) refl;
    is_sql_escape_all_same = scalar config sql_escape_all_prop as_bool false h (λ es. refl) refl;
    is_stats_enabled_same = scalar config stats_enabled_prop as_bool false h (λ es. refl) refl;
    sql_index_max_inline_size_same =
        scalar config sql_index_max_inline_size_prop as_int (pos 0) h (λ es. refl) refl;
    sql_schema_same = scalar config sql_schema_prop as_string [] h (λ es. refl) refl;
    write_synchronization_mode_same =
        scalar config write_sync_mode_prop as_cache_write_synchronization_mode (negsuc 0) h
          (λ es. refl) refl;
    expiry_policy_of_same =
        scalar config expire_policy_prop as_expiry_policy none h (λ es. refl) refl;
    key_configuration_same =
        ap (get as_cache_key_configs []) (lookup-copy 401 config h)
        ∙ key_configs-copied? (lookup 401 config);
    query_entities_same =
        subst (SameEntities Value (query_entities_of config))
          (sym (
            ap (get as_query_entities []) (lookup-copy 200 config h)
            ∙ entities-copied? (lookup 200 config)))
          (copies-SameEntities Value (query_entities_of config) keys);
  }
