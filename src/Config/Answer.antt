-- ===== src/Config/Answer.antt =====
-- The answer of a server to the request for a configuration, described as bytes, and the properties that
-- `unmarshalCacheConfiguration` takes from it.
pub mod Steps
pub mod Shown
use mcgv.Base.{
  ℕ, ◌^◌, ◌<◌, ◌≡◌, refl, sym, ap, ◌∙◌, arith, Bool, true, false, List, [], ◌∷◌, ◌++◌, map, Option,
  none, some, All, length, inl, inr,
}
use mcgv.Base.{String, lookup, put, lookup-put, number_keys, Bool-cases, if◌then◌else◌, ◌==◌}
use mcgv.Base.Bytes.{le_bytes}
use mcgv.Base.Int.{ℤ, pos, negsuc, signed}
use mathlib.Core.Path.{subst}
use mcgv.Stream.In.{Read, ◌>>>◌, return, read_bool, read_size, read_uint32, read_uint64}
use mcgv.Stream.In.Reads.{
  Reads, then_Reads, bind_Reads, map_Reads, return-Reads, bool_Reads, uint32_Reads, uint64_Reads,
}
use mcgv.Marshal.Canon.{IsLength}
use mcgv.Metadata.Wire.{read_slice_of}
use mcgv.Metadata.Wire.Sequences.{
  sequence_bytes, read_slice_of-Reads, string_bytes, nullable_bytes, string_Reads, nullable_Reads,
  first_of,
}
use mcgv.Protocol.{ProtocolContext, supports, since_expiry_policy}
use mcgv.Object.{Marshaller, Laws}
use mcgv.Cache.{ExpiryPolicy, millis_to_duration}
use mcgv.Config.{
  CacheKeyConfig, QueryEntity, Property, string, bool, int, cache_mode, cache_atomicity_mode,
  partition_loss_policy, cache_write_synchronization_mode, cache_rebalance_mode, expiry_policy,
  cache_key_configs, query_entities, CacheConfiguration, PropertyCode, property_code, set_property,
  int32_of_int, backups_prop, cache_atomicity_mode_prop, cache_key_config_prop, cache_mode_prop,
  cache_name_prop, copy_on_read_prop, data_region_name_prop, eager_ttl_prop, expire_policy_prop,
  group_name_prop, max_async_ops_prop, max_query_iterators_prop, on_heap_cache_enabled_prop,
  partition_loss_policy_prop, query_details_metric_size_prop, query_entities_prop,
  query_parallelism_prop, read_from_backup_prop, rebalance_mode_prop, rebalance_order_prop,
  sql_escape_all_prop, sql_index_max_inline_size_prop, sql_schema_prop, stats_enabled_prop,
  write_sync_mode_prop,
}
use mcgv.Config.Reader.{
  read_key_config, read_duration, set_text, set_string_property, set_read, ◌⨾◌, skip,
  read_policy_if, read_policy, read_first, read_second, read_third, read_fourth,
  unmarshal_query_entity, unmarshal_cache_configuration,
}
use mcgv.Config.EntityWire.{bool_byte, IsInt32, int_Reads, IsText, each_Reads, map_same}
use mcgv.Config.EntityWire.RoundTrip.{IsEntity, entity_bytes, canon_entity, entities-Read}
use mcgv.Config.Writes.{add, add_all}

module _ (marsh : Marshaller) (ctx : ProtocolContext) (laws : Laws marsh) where
  -- The values in an answer, with those that are skipped, and the times of the expiry policy.
  pub record Settings : Type 0 where
    pub skipped_1 : ℕ
    pub cache_atomicity_mode : ℤ
    pub backups : ℤ
    pub cache_mode : ℤ
    pub copy_on_read : Bool
    pub data_region_name : String
    pub eager_ttl : Bool
    pub stats_enabled : Bool
    pub group_name : String
    pub skipped_2 : ℕ
    pub max_async_ops : ℤ
    pub max_query_iterators : ℤ
    pub cache_name : String
    pub on_heap_cache_enabled : Bool
    pub partition_loss_policy : ℤ
    pub query_details_metric_size : ℤ
    pub query_parallelism : ℤ
    pub read_from_backup : Bool
    pub skipped_3 : ℕ
    pub skipped_4 : ℕ
    pub skipped_5 : ℕ
    pub rebalance_mode : ℤ
    pub rebalance_order : ℤ
    pub skipped_6 : ℕ
    pub skipped_7 : ℕ
    pub sql_escape_all : Bool
    pub sql_index_max_inline_size : ℤ
    pub sql_schema : String
    pub write_sync_mode : ℤ
    pub key_configs : List CacheKeyConfig
    pub entities : List (QueryEntity marsh.Value)
    pub policy : Option (ℕ × ℕ × ℕ)

  abbrev pub IsPolicy : Option (ℕ × ℕ × ℕ) → Type 0
  IsPolicy none = Unit
  IsPolicy (some (c, u, t)) = (c < 2 ^ 64) × (u < 2 ^ 64) × (t < 2 ^ 64)

  -- They fit what they are sent as.
  pub record IsSettings (a : Settings) : Type 0 where
    pub skipped_1_fits : a.skipped_1 < 2 ^ 32
    pub cache_atomicity_mode_fits : IsInt32 a.cache_atomicity_mode
    pub backups_fits : IsInt32 a.backups
    pub cache_mode_fits : IsInt32 a.cache_mode
    pub data_region_name_fits : IsText a.data_region_name
    pub group_name_fits : IsText a.group_name
    pub skipped_2_fits : a.skipped_2 < 2 ^ 64
    pub max_async_ops_fits : IsInt32 a.max_async_ops
    pub max_query_iterators_fits : IsInt32 a.max_query_iterators
    pub cache_name_fits : IsText a.cache_name
    pub partition_loss_policy_fits : IsInt32 a.partition_loss_policy
    pub query_details_metric_size_fits : IsInt32 a.query_details_metric_size
    pub query_parallelism_fits : IsInt32 a.query_parallelism
    pub skipped_3_fits : a.skipped_3 < 2 ^ 32
    pub skipped_4_fits : a.skipped_4 < 2 ^ 64
    pub skipped_5_fits : a.skipped_5 < 2 ^ 64
    pub rebalance_mode_fits : IsInt32 a.rebalance_mode
    pub rebalance_order_fits : IsInt32 a.rebalance_order
    pub skipped_6_fits : a.skipped_6 < 2 ^ 64
    pub skipped_7_fits : a.skipped_7 < 2 ^ 64
    pub sql_index_max_inline_size_fits : IsInt32 a.sql_index_max_inline_size
    pub sql_schema_fits : IsText a.sql_schema
    pub write_sync_mode_fits : IsInt32 a.write_sync_mode
    pub key_count : IsLength (length a.key_configs)
    pub each_key :
        All (λ (c : CacheKeyConfig). IsText c.type_name × IsText c.aff_key_fld_name) a.key_configs
    pub entity_count : IsLength (length a.entities)
    pub each_entity : All (IsEntity marsh ctx laws) a.entities
    pub policy_fits : IsPolicy a.policy

  abbrev pub key_config_bytes : CacheKeyConfig → List ℕ
  key_config_bytes c = string_bytes c.type_name ++ string_bytes c.aff_key_fld_name

  abbrev pub text_property : String → Option (Property marsh.Value)
  text_property [] = none
  text_property (c ∷ cs) = some (string (c ∷ cs))

  -- The bytes of each value, in the order of the answer, and the properties that they set.
  abbrev pub first_bytes : Settings → List ℕ
  first_bytes a =
      le_bytes 4 a.skipped_1
      ++ (le_bytes 4 (int32_of_int a.cache_atomicity_mode)
          ++ (le_bytes 4 (int32_of_int a.backups)
              ++ (le_bytes 4 (int32_of_int a.cache_mode)
                  ++ ((bool_byte a.copy_on_read ∷ [])
                      ++ (nullable_bytes a.data_region_name
                          ++ ((bool_byte a.eager_ttl ∷ [])
                              ++ ((bool_byte a.stats_enabled ∷ [])
                                  ++ (nullable_bytes a.group_name))))))))

  abbrev pub first_writes : Settings → List (ℕ × Option (Property marsh.Value))
  first_writes a =
      (property_code cache_atomicity_mode_prop, some (cache_atomicity_mode a.cache_atomicity_mode))
      ∷ (property_code backups_prop, some (int a.backups))
      ∷ (property_code cache_mode_prop, some (cache_mode a.cache_mode))
      ∷ (property_code copy_on_read_prop, some (bool a.copy_on_read))
      ∷ (property_code data_region_name_prop, text_property a.data_region_name)
      ∷ (property_code eager_ttl_prop, some (bool a.eager_ttl))
      ∷ (property_code stats_enabled_prop, some (bool a.stats_enabled))
      ∷ (property_code group_name_prop, text_property a.group_name)
      ∷ []

  abbrev pub second_bytes : Settings → List ℕ
  second_bytes a =
      le_bytes 8 a.skipped_2
      ++ (le_bytes 4 (int32_of_int a.max_async_ops)
          ++ (le_bytes 4 (int32_of_int a.max_query_iterators)
              ++ (nullable_bytes a.cache_name
                  ++ ((bool_byte a.on_heap_cache_enabled ∷ [])
                      ++ (le_bytes 4 (int32_of_int a.partition_loss_policy)
                          ++ (le_bytes 4 (int32_of_int a.query_details_metric_size)
                              ++ (le_bytes 4 (int32_of_int a.query_parallelism)
                                  ++ ((bool_byte a.read_from_backup ∷ [])))))))))

  abbrev pub second_writes : Settings → List (ℕ × Option (Property marsh.Value))
  second_writes a =
      (property_code max_async_ops_prop, some (int a.max_async_ops))
      ∷ (property_code max_query_iterators_prop, some (int a.max_query_iterators))
      ∷ (property_code cache_name_prop, text_property a.cache_name)
      ∷ (property_code on_heap_cache_enabled_prop, some (bool a.on_heap_cache_enabled))
      ∷ (
        property_code partition_loss_policy_prop,
        some (partition_loss_policy a.partition_loss_policy),
      )
      ∷ (property_code query_details_metric_size_prop, some (int a.query_details_metric_size))
      ∷ (property_code query_parallelism_prop, some (int a.query_parallelism))
      ∷ (property_code read_from_backup_prop, some (bool a.read_from_backup))
      ∷ []

  abbrev pub third_bytes : Settings → List ℕ
  third_bytes a =
      le_bytes 4 a.skipped_3
      ++ (le_bytes 8 a.skipped_4
          ++ (le_bytes 8 a.skipped_5
              ++ (le_bytes 4 (int32_of_int a.rebalance_mode)
                  ++ (le_bytes 4 (int32_of_int a.rebalance_order)
                      ++ (le_bytes 8 a.skipped_6
                          ++ (le_bytes 8 a.skipped_7
                              ++ ((bool_byte a.sql_escape_all ∷ [])
                                  ++ (le_bytes 4 (int32_of_int a.sql_index_max_inline_size)))))))))

  abbrev pub third_writes : Settings → List (ℕ × Option (Property marsh.Value))
  third_writes a =
      (property_code rebalance_mode_prop, some (cache_rebalance_mode a.rebalance_mode))
      ∷ (property_code rebalance_order_prop, some (int a.rebalance_order))
      ∷ (property_code sql_escape_all_prop, some (bool a.sql_escape_all))
      ∷ (property_code sql_index_max_inline_size_prop, some (int a.sql_index_max_inline_size))
      ∷ []

  abbrev pub fourth_bytes : Settings → List ℕ
  fourth_bytes a =
      nullable_bytes a.sql_schema
      ++ (le_bytes 4 (int32_of_int a.write_sync_mode)
          ++ (sequence_bytes key_config_bytes a.key_configs
              ++ (sequence_bytes (entity_bytes marsh ctx laws) a.entities)))

  abbrev pub fourth_writes : Settings → List (ℕ × Option (Property marsh.Value))
  fourth_writes a =
      (property_code sql_schema_prop, text_property a.sql_schema)
      ∷ (
        property_code write_sync_mode_prop,
        some (cache_write_synchronization_mode a.write_sync_mode),
      )
      ∷ (property_code cache_key_config_prop, some (cache_key_configs a.key_configs))
      ∷ (
        property_code query_entities_prop,
        some (query_entities (map (canon_entity marsh ctx laws) a.entities)),
      )
      ∷ []

  abbrev pub policy_bytes : Bool → Option (ℕ × ℕ × ℕ) → List ℕ
  policy_bytes false p = []
  policy_bytes true none = 0 ∷ []
  policy_bytes true (some (c, u, t)) = 1 ∷ (le_bytes 8 c ++ (le_bytes 8 u ++ le_bytes 8 t))

  abbrev pub duration_of : ℕ → ℤ
  duration_of n = millis_to_duration (signed 64 n)

  abbrev pub policy_of : Bool → Option (ℕ × ℕ × ℕ) → Option ExpiryPolicy
  policy_of true (some (c, u, t)) =
      some (record { creation = duration_of c; update = duration_of u; access = duration_of t })
  policy_of b p = none

  abbrev pub policy_property : Option ExpiryPolicy → Option (Property marsh.Value)
  policy_property none = none
  policy_property (some p) = some (expiry_policy (some p))

  abbrev pub has_policy : Bool
  has_policy = supports ctx.version since_expiry_policy

  abbrev pub settings_bytes : Settings → List ℕ
  settings_bytes a =
      first_bytes a
      ++ (second_bytes a ++ (third_bytes a ++ (fourth_bytes a ++ policy_bytes has_policy a.policy)))

  abbrev pub settings_config : Settings → CacheConfiguration marsh.Value
  settings_config a =
      add (property_code expire_policy_prop) (policy_property (policy_of has_policy a.policy)) (
        add_all (fourth_writes a)
          (add_all (third_writes a) (add_all (second_writes a) (add_all (first_writes a) []))))
