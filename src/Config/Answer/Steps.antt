-- ===== src/Config/Answer/Steps.antt =====
-- `unmarshalCacheConfiguration` on the bytes of an answer, one statement after the other.
use mcgv.Base.{
  ℕ, ◌^◌, ◌<◌, ◌≡◌, refl, Bool, true, false, List, [], ◌∷◌, ◌++◌, map, Option, none, some,
}
use mcgv.Base.{String, number_keys, if◌then◌else◌}
use mcgv.Base.Bytes.{le_bytes}
use mathlib.Core.Path.{subst}
use mcgv.Stream.In.{Read, return}
use mcgv.Stream.In.Reads.{
  Reads, then_Reads, bind_Reads, map_Reads, return-Reads, bool_Reads, uint32_Reads, uint64_Reads,
}
use mcgv.Metadata.Wire.{read_slice_of}
use mcgv.Metadata.Wire.Sequences.{
  sequence_bytes, read_slice_of-Reads, nullable_bytes, string_Reads, nullable_Reads,
}
use mcgv.Protocol.{ProtocolContext}
use mcgv.Object.{Marshaller, Laws}
use mcgv.Config.{
  CacheKeyConfig, Property, bool, int, cache_mode, cache_atomicity_mode, partition_loss_policy,
  cache_write_synchronization_mode, cache_rebalance_mode, cache_key_configs, query_entities,
  CacheConfiguration, PropertyCode, property_code, backups_prop, cache_atomicity_mode_prop,
  cache_key_config_prop, cache_mode_prop, cache_name_prop, copy_on_read_prop, data_region_name_prop,
  eager_ttl_prop, expire_policy_prop, group_name_prop, max_async_ops_prop, max_query_iterators_prop,
  on_heap_cache_enabled_prop, partition_loss_policy_prop, query_details_metric_size_prop,
  query_entities_prop, query_parallelism_prop, read_from_backup_prop, rebalance_mode_prop,
  rebalance_order_prop, sql_escape_all_prop, sql_index_max_inline_size_prop, sql_schema_prop,
  stats_enabled_prop, write_sync_mode_prop,
}
use mcgv.Config.Reader.{
  read_key_config, read_duration, set_text, set_string_property, set_read, ◌⨾◌, skip,
  read_policy_if, read_policy, read_first, read_second, read_third, read_fourth,
  unmarshal_query_entity, unmarshal_cache_configuration,
}
use mcgv.Config.EntityWire.{int_Reads, IsText, each_Reads, map_same}
use mcgv.Config.EntityWire.RoundTrip.{entity_bytes, canon_entity, entities-Read}
use mcgv.Config.Writes.{add, add_all}
use mcgv.Config.Answer.{
  Settings, IsPolicy, IsSettings, key_config_bytes, text_property, first_bytes, first_writes,
  second_bytes, second_writes, third_bytes, third_writes, fourth_bytes, fourth_writes, policy_bytes,
  duration_of, policy_of, policy_property, has_policy, settings_bytes, settings_config,
}

module _ (marsh : Marshaller) (ctx : ProtocolContext) (laws : Laws marsh) where
  -- What a statement reads, and what it does to the properties.
  record Sets (f : CacheConfiguration marsh.Value → Read (CacheConfiguration marsh.Value))
      (bytes : List ℕ) (set : CacheConfiguration marsh.Value → CacheConfiguration marsh.Value)
      : Type 0 where
    run : (props : CacheConfiguration marsh.Value) → Reads (f props) bytes (set props)

  infixr 4 ◌⊕◌
  ◌⊕◌ :
      {f g : CacheConfiguration marsh.Value → Read (CacheConfiguration marsh.Value)} {b c : List ℕ}
      {s t : CacheConfiguration marsh.Value → CacheConfiguration marsh.Value}
      → Sets f b s
      → Sets g c t
      → Sets (◌⨾◌ marsh ctx f g) (b ++ c) (λ props. t (s props))
  ◌⊕◌ {f} {g} {b} {c} {s} {t} first second = record {
    run = λ props.
        then_Reads (f props) g b c (s props) (t (s props)) (first.run props) (second.run (s props));
  }

  set_read-Sets :
      {A : Type 0} (r : Read A) (f : A → Property marsh.Value) (code : PropertyCode) {b : List ℕ}
      {v : A}
      → Reads r b v
      → Sets (set_read marsh ctx r f code) b (λ props. add (property_code code) (some (f v)) props)
  set_read-Sets r f code h = record { run = λ props. map_Reads _ _ _ _ h }

  skip-Sets :
      {A : Type 0} (r : Read A) {b : List ℕ} {v : A}
      → Reads r b v
      → Sets (skip marsh ctx r) b (λ props. props)
  skip-Sets r h = record { run = λ props. map_Reads _ (λ v. props) _ _ h }

  text-same :
      (v : String) (code : PropertyCode) (props : CacheConfiguration marsh.Value)
      → set_text marsh ctx v code props
        ≡ add (property_code code) ((text_property marsh ctx laws) v) props
  text-same [] code props = refl
  text-same (c ∷ cs) code props = refl

  text-Sets :
      (v : String) (code : PropertyCode)
      → IsText v
      → Sets
          (set_string_property marsh ctx code)
          (nullable_bytes v)
          (λ props. add (property_code code) ((text_property marsh ctx laws) v) props)
  unfolding set_string_property
  text-Sets v code h = record {
    run = λ props.
        subst (λ c. Reads (set_string_property marsh ctx code props) (nullable_bytes v) c)
          (text-same v code props)
          (map_Reads _ (λ u. set_text marsh ctx u code props) _ _ (nullable_Reads v h));
  }

  key_config-Reads :
      (c : CacheKeyConfig)
      → IsText c.type_name × IsText c.aff_key_fld_name
      → Reads read_key_config ((key_config_bytes marsh ctx laws) c) c
  unfolding read_key_config
  key_config-Reads c h =
      bind_Reads _ (string_Reads c.type_name h.0)
        (map_Reads _ _ _ _ (string_Reads c.aff_key_fld_name h.1))

  keys-Read :
      (a : (Settings marsh ctx laws))
      → (IsSettings marsh ctx laws) a
      → Reads
          (read_slice_of read_key_config)
          (sequence_bytes (key_config_bytes marsh ctx laws) a.key_configs)
          a.key_configs
  keys-Read a h =
      subst
        (λ (l : List CacheKeyConfig).
          Reads (read_slice_of read_key_config)
            (sequence_bytes (key_config_bytes marsh ctx laws) a.key_configs) l)
        (map_same a.key_configs)
        (read_slice_of-Reads read_key_config (key_config_bytes marsh ctx laws) (λ c. c)
          a.key_configs h.key_count
          (each_Reads _ read_key_config (key_config_bytes marsh ctx laws) key_config-Reads
            a.key_configs h.each_key))

  entities-Reads :
      (a : (Settings marsh ctx laws))
      → (IsSettings marsh ctx laws) a
      → Reads
          (read_slice_of (unmarshal_query_entity marsh ctx))
          (sequence_bytes (entity_bytes marsh ctx laws) a.entities)
          (map (canon_entity marsh ctx laws) a.entities)
  entities-Reads a h =
      read_slice_of-Reads _ (entity_bytes marsh ctx laws) (canon_entity marsh ctx laws) a.entities
        h.entity_count (entities-Read marsh ctx laws a.entities h.each_entity)

  first-Sets :
      (a : (Settings marsh ctx laws))
      → (IsSettings marsh ctx laws) a
      → Sets
          (read_first marsh ctx)
          ((first_bytes marsh ctx laws) a)
          (λ props. add_all ((first_writes marsh ctx laws) a) props)
  unfolding read_first
  first-Sets a h =
      skip-Sets _ (uint32_Reads _ h.skipped_1_fits)
      ⊕ set_read-Sets _ cache_atomicity_mode cache_atomicity_mode_prop
          (int_Reads a.cache_atomicity_mode h.cache_atomicity_mode_fits)
      ⊕ set_read-Sets _ int backups_prop (int_Reads a.backups h.backups_fits)
      ⊕ set_read-Sets _ cache_mode cache_mode_prop (int_Reads a.cache_mode h.cache_mode_fits)
      ⊕ set_read-Sets _ bool copy_on_read_prop (bool_Reads a.copy_on_read)
      ⊕ text-Sets a.data_region_name data_region_name_prop h.data_region_name_fits
      ⊕ set_read-Sets _ bool eager_ttl_prop (bool_Reads a.eager_ttl)
      ⊕ set_read-Sets _ bool stats_enabled_prop (bool_Reads a.stats_enabled)
      ⊕ text-Sets a.group_name group_name_prop h.group_name_fits

  second-Sets :
      (a : (Settings marsh ctx laws))
      → (IsSettings marsh ctx laws) a
      → Sets
          (read_second marsh ctx)
          ((second_bytes marsh ctx laws) a)
          (λ props. add_all ((second_writes marsh ctx laws) a) props)
  unfolding read_second
  second-Sets a h =
      skip-Sets _ (uint64_Reads _ h.skipped_2_fits)
      ⊕ set_read-Sets _ int max_async_ops_prop (int_Reads a.max_async_ops h.max_async_ops_fits)
      ⊕ set_read-Sets _ int max_query_iterators_prop
          (int_Reads a.max_query_iterators h.max_query_iterators_fits)
      ⊕ text-Sets a.cache_name cache_name_prop h.cache_name_fits
      ⊕ set_read-Sets _ bool on_heap_cache_enabled_prop (bool_Reads a.on_heap_cache_enabled)
      ⊕ set_read-Sets _ partition_loss_policy partition_loss_policy_prop
          (int_Reads a.partition_loss_policy h.partition_loss_policy_fits)
      ⊕ set_read-Sets _ int query_details_metric_size_prop
          (int_Reads a.query_details_metric_size h.query_details_metric_size_fits)
      ⊕ set_read-Sets _ int query_parallelism_prop
          (int_Reads a.query_parallelism h.query_parallelism_fits)
      ⊕ set_read-Sets _ bool read_from_backup_prop (bool_Reads a.read_from_backup)

  third-Sets :
      (a : (Settings marsh ctx laws))
      → (IsSettings marsh ctx laws) a
      → Sets
          (read_third marsh ctx)
          ((third_bytes marsh ctx laws) a)
          (λ props. add_all ((third_writes marsh ctx laws) a) props)
  unfolding read_third
  third-Sets a h =
      skip-Sets _ (uint32_Reads _ h.skipped_3_fits)
      ⊕ skip-Sets _ (uint64_Reads _ h.skipped_4_fits)
      ⊕ skip-Sets _ (uint64_Reads _ h.skipped_5_fits)
      ⊕ set_read-Sets _ cache_rebalance_mode rebalance_mode_prop
          (int_Reads a.rebalance_mode h.rebalance_mode_fits)
      ⊕ set_read-Sets _ int rebalance_order_prop
          (int_Reads a.rebalance_order h.rebalance_order_fits)
      ⊕ skip-Sets _ (uint64_Reads _ h.skipped_6_fits)
      ⊕ skip-Sets _ (uint64_Reads _ h.skipped_7_fits)
      ⊕ set_read-Sets _ bool sql_escape_all_prop (bool_Reads a.sql_escape_all)
      ⊕ set_read-Sets _ int sql_index_max_inline_size_prop
          (int_Reads a.sql_index_max_inline_size h.sql_index_max_inline_size_fits)

  fourth-Sets :
      (a : (Settings marsh ctx laws))
      → (IsSettings marsh ctx laws) a
      → Sets
          (read_fourth marsh ctx)
          ((fourth_bytes marsh ctx laws) a)
          (λ props. add_all ((fourth_writes marsh ctx laws) a) props)
  unfolding read_fourth
  fourth-Sets a h =
      text-Sets a.sql_schema sql_schema_prop h.sql_schema_fits
      ⊕ set_read-Sets _ cache_write_synchronization_mode write_sync_mode_prop
          (int_Reads a.write_sync_mode h.write_sync_mode_fits)
      ⊕ set_read-Sets _ cache_key_configs cache_key_config_prop (keys-Read a h)
      ⊕ set_read-Sets _ query_entities query_entities_prop (entities-Reads a h)

  duration-Reads :
      (n : ℕ) → n < 2 ^ 64 → Reads read_duration (le_bytes 8 n) ((duration_of marsh ctx laws) n)
  unfolding read_duration
  duration-Reads n h = map_Reads _ _ _ _ (uint64_Reads n h)

  policy-Reads :
      (b : Bool) (p : Option (ℕ × ℕ × ℕ)) (props : CacheConfiguration marsh.Value)
      → (IsPolicy marsh ctx laws) p
      → Reads
          (if b then read_policy marsh ctx props else return props)
          ((policy_bytes marsh ctx laws) b p)
          (add
            (property_code expire_policy_prop)
            ((policy_property marsh ctx laws) ((policy_of marsh ctx laws) b p))
            props)
  unfolding read_policy
  policy-Reads false p props h = return-Reads props
  policy-Reads true none props h = bind_Reads _ (bool_Reads false) (return-Reads props)
  policy-Reads true (some (c, u, t)) props h = bind_Reads _ (bool_Reads true) (
      bind_Reads _ (duration-Reads c h.0)
        (bind_Reads _ (duration-Reads u h.1) (map_Reads _ _ _ _ (duration-Reads t h.2))))

  policy-Sets :
      (p : Option (ℕ × ℕ × ℕ))
      → (IsPolicy marsh ctx laws) p
      → Sets
          (read_policy_if marsh ctx)
          ((policy_bytes marsh ctx laws) (has_policy marsh ctx laws) p)
          (λ props.
            add
              (property_code expire_policy_prop)
              ((policy_property marsh ctx laws)
                ((policy_of marsh ctx laws) (has_policy marsh ctx laws) p))
              props)
  unfolding read_policy_if
  policy-Sets p h = record { run = λ props. policy-Reads (has_policy marsh ctx laws) p props h }

  pub settings-Reads :
      (a : (Settings marsh ctx laws))
      → (IsSettings marsh ctx laws) a
      → Reads
          (unmarshal_cache_configuration marsh ctx)
          ((settings_bytes marsh ctx laws) a)
          ((settings_config marsh ctx laws) a)
  unfolding unmarshal_cache_configuration
  settings-Reads a h =
      (first-Sets a h
          ⊕ second-Sets a h
          ⊕ third-Sets a h
          ⊕ fourth-Sets a h
          ⊕ policy-Sets a.policy h.policy_fits).run
        []
