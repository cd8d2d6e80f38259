-- ===== src/Config/PropertyBytes.antt =====
-- `marshal` of a configuration as bytes.
use mcgv.Base.{
  ℕ, ◌%◌, ◌^◌, ◌≡◌, sym, Bool, true, false, List, [], ◌∷◌, ◌++◌, All, length, Option, none, some,
  err,
}
use mcgv.Base.{if◌then◌else◌}
use mcgv.Base.Bytes.{le_bytes}
use mathlib.Core.Path.{subst}
use mcgv.Stream.Types.{not_supported}
use mcgv.Stream.Out.Writes.{
  Emits, ◌⊳◌, write_bool-Emits, write_uint16-Emits, write_uint32-Emits, write_uint64-Emits,
}
use mcgv.Metadata.Wire.Sequences.{
  all_bytes, sequence_bytes, each_Emits, sequence_Emits, write_sequence-Emits, string_bytes,
  marshal_string-Emits,
}
use mcgv.Protocol.{ProtocolContext, supports, since_expiry_policy}
use mcgv.Object.{Marshaller, Laws}
use mcgv.Cache.{ExpiryPolicy, int64_of, duration_to_millis}
use mcgv.Config.{
  CacheKeyConfig, QueryEntity, Property, string, bool, int, int32, int64, cache_mode,
  cache_atomicity_mode, partition_loss_policy, cache_write_synchronization_mode,
  cache_rebalance_mode, expiry_policy, cache_key_configs, query_entities, other, CacheConfiguration,
  int32_of_int,
}
use mcgv.Config.EntityWire.{bool_byte}
use mcgv.Config.EntityWire.RoundTrip.{IsEntity, entity_bytes, entity-Emits}
use mcgv.Config.Writer.{
  write_key_config, write_expiry, marshal_query_entity, write_property, write_coded,
  write_properties, marshal_configuration,
}
use mcgv.Config.Sized.{sized-Emits}

-- The bytes of a property, and of a whole configuration.
module _ (marsh : Marshaller) (ctx : ProtocolContext) (laws : Laws marsh) where
  abbrev pub key_config_bytes : CacheKeyConfig → List ℕ
  key_config_bytes c = string_bytes c.type_name ++ string_bytes c.aff_key_fld_name

  abbrev expiry_bytes : Option ExpiryPolicy → List ℕ
  expiry_bytes none = 0 ∷ []
  expiry_bytes (some p) =
      1
      ∷ (le_bytes 8 (int64_of (duration_to_millis p.creation))
          ++ (le_bytes 8 (int64_of (duration_to_millis p.update))
              ++ le_bytes 8 (int64_of (duration_to_millis p.access))))

  abbrev pub property_bytes : Property marsh.Value → List ℕ
  property_bytes (string v) = string_bytes v
  property_bytes (bool v) = bool_byte v ∷ []
  property_bytes (int64 v) = le_bytes 8 (int64_of v)
  property_bytes (int v) = le_bytes 4 (int32_of_int v)
  property_bytes (int32 v) = le_bytes 4 (int32_of_int v)
  property_bytes (cache_mode v) = le_bytes 4 (int32_of_int v)
  property_bytes (cache_atomicity_mode v) = le_bytes 4 (int32_of_int v)
  property_bytes (partition_loss_policy v) = le_bytes 4 (int32_of_int v)
  property_bytes (cache_write_synchronization_mode v) = le_bytes 4 (int32_of_int v)
  property_bytes (cache_rebalance_mode v) = le_bytes 4 (int32_of_int v)
  property_bytes (expiry_policy v) = expiry_bytes v
  property_bytes (cache_key_configs v) = sequence_bytes key_config_bytes v
  property_bytes (query_entities v) = sequence_bytes (entity_bytes marsh ctx laws) v
  property_bytes other = []

  -- A property that the protocol supports, with entities in range.
  abbrev pub IsWritable : Property marsh.Value → Type 0
  IsWritable (expiry_policy v) = supports ctx.version since_expiry_policy ≡ true
  IsWritable (query_entities v) = All (IsEntity marsh ctx laws) v
  IsWritable other = ⊥
  IsWritable _ = Unit

  abbrev pub coded_bytes : ℕ × Property marsh.Value → List ℕ
  coded_bytes (code, v) = le_bytes 2 code ++ property_bytes v

  -- The number of the properties, and each with its code.
  abbrev pub rest_bytes : CacheConfiguration marsh.Value → List ℕ
  rest_bytes config = le_bytes 2 (length config % 2 ^ 16) ++ all_bytes coded_bytes config

  key_config-Emits : (c : CacheKeyConfig) → Emits (write_key_config c) (key_config_bytes c)
  unfolding write_key_config
  key_config-Emits c = marshal_string-Emits c.type_name ⊳ marshal_string-Emits c.aff_key_fld_name

  expiry-Emits : (p : Option ExpiryPolicy) → Emits (write_expiry marsh ctx p) (expiry_bytes p)
  unfolding write_expiry
  expiry-Emits none = write_bool-Emits false
  expiry-Emits (some p) =
      write_bool-Emits true ⊳ write_uint64-Emits _ ⊳ write_uint64-Emits _ ⊳ write_uint64-Emits _

  entities-Emit :
      (es : List (QueryEntity marsh.Value))
      → All (IsEntity marsh ctx laws) es
      → All (λ e. Emits (marshal_query_entity marsh ctx e) (entity_bytes marsh ctx laws e)) es
  entities-Emit [] h = tt
  entities-Emit (e ∷ es) h = (entity-Emits marsh ctx laws e h.0, entities-Emit es h.1)

  property-Emits :
      (v : Property marsh.Value)
      → IsWritable v
      → Emits (write_property marsh ctx v) (property_bytes v)
  unfolding write_property
  property-Emits (string v) h = marshal_string-Emits v
  property-Emits (bool v) h = write_bool-Emits v
  property-Emits (int64 v) h = write_uint64-Emits _
  property-Emits (int v) h = write_uint32-Emits _
  property-Emits (int32 v) h = write_uint32-Emits _
  property-Emits (cache_mode v) h = write_uint32-Emits _
  property-Emits (cache_atomicity_mode v) h = write_uint32-Emits _
  property-Emits (partition_loss_policy v) h = write_uint32-Emits _
  property-Emits (cache_write_synchronization_mode v) h = write_uint32-Emits _
  property-Emits (cache_rebalance_mode v) h = write_uint32-Emits _
  property-Emits (expiry_policy v) h =
      subst
        (λ (b : Bool).
          Emits (if b then write_expiry marsh ctx v else (λ s. err not_supported)) (expiry_bytes v))
        (sym h) (expiry-Emits v)
  property-Emits (cache_key_configs v) h =
      write_sequence-Emits write_key_config key_config_bytes v key_config-Emits
  property-Emits (query_entities v) h = sequence_Emits _ _ v (entities-Emit v h)
  property-Emits other h = absurd h

  abbrev pub AllWritable : CacheConfiguration marsh.Value → Type 0
  AllWritable config = All (λ p. IsWritable p.1) config

  coded-Emit :
      (config : CacheConfiguration marsh.Value)
      → AllWritable config
      → All (λ p. Emits (write_coded marsh ctx p) (coded_bytes p)) config
  unfolding write_coded
  coded-Emit [] h = tt
  coded-Emit ((code, v) ∷ config) h =
      (write_uint16-Emits code ⊳ property-Emits v h.0, coded-Emit config h.1)

  -- `marshal` of a configuration whose properties the protocol supports, with query entities in range,
  -- appends the size of what follows, the number of the properties, and each property with its code,
  -- or panics if that does not fit the stream.
  pub marshal_configuration-Emits :
      (config : CacheConfiguration marsh.Value)
      → AllWritable config
      → Emits
          (marshal_configuration marsh ctx config)
          (le_bytes 4 (length (rest_bytes config)) ++ rest_bytes config)
  unfolding marshal_configuration write_properties
  marshal_configuration-Emits config h =
      sized-Emits (write_properties marsh ctx config) (rest_bytes config)
        (write_uint16-Emits _ ⊳ each_Emits _ _ config (coded-Emit config h))
