-- ===== src/Config/Writer.antt =====
-- `CacheConfiguration.marshal` of cache_configuration.go and the writers of query entities.
use mcgv.Base.{ℕ, ◌+◌, ◌-◌, ◌%◌, ◌^◌, true, false, Option, none, some, ok, err, ◌>>=◌, length}
use mcgv.Base.{String, if◌then◌else◌}
use mcgv.Stream.Types.{not_supported}
use mcgv.Stream.Out.{
  Write, ◌▸◌, write_bool, write_uint8, write_uint16, write_uint32, write_uint64, set_position,
}
use mcgv.Marshal.Writer.{marshal_string}
use mcgv.Metadata.Wire.{write_sequence, write_all, marshal_empty_string_as_null}
use mcgv.Protocol.{
  ProtocolContext, supports, since_expiry_policy, since_query_entity_precision_and_scale,
}
use mcgv.Object.{Marshaller}
use mcgv.Cache.{ExpiryPolicy, int64_of, duration_to_millis}
use mcgv.Config.{
  CacheKeyConfig, IndexField, QueryIndex, QueryField, QueryEntity, Property, string, bool, int,
  int32, int64, cache_mode, cache_atomicity_mode, partition_loss_policy,
  cache_write_synchronization_mode, cache_rebalance_mode, expiry_policy, cache_key_configs,
  query_entities, other, CacheConfiguration, int32_of_int,
}

-- The elements of the sequences.
unfoldable pub write_key_config : CacheKeyConfig → Write
write_key_config c = marshal_string c.type_name ▸ marshal_string c.aff_key_fld_name

unfoldable pub write_index_field : IndexField → Write
write_index_field f = marshal_string f.name ▸ write_bool f.asc

unfoldable pub write_alias : String × String → Write
write_alias (orig, alias) = marshal_string orig ▸ marshal_string alias

-- `marshalQueryIndex`
unfoldable pub marshal_query_index : QueryIndex → Write
unfolding write_index_field
marshal_query_index index =
    marshal_string index.name
    ▸ write_uint8 index.idx_type
    ▸ write_uint32 (int32_of_int index.inline_sz)
    ▸ write_sequence write_index_field index.fields

-- The end of `marshal`: `int32(finalPos - origPos - 4)` at the start, and the position restored.
unfoldable pub write_size_at : ℕ → Write
write_size_at start s =
    write_uint32 ((s.position + 2 ^ 32 - start - 4) % 2 ^ 32) (set_position start s) >>= λ s'.
    ok (set_position s.position s')

-- Over the marshaller, and the protocol of its server.
module _ (marsh : Marshaller) (ctx : ProtocolContext) where
  -- `marshalQueryField`
  unfoldable pub marshal_query_field : QueryField marsh.Value → Write
  marshal_query_field field =
      marshal_string field.name
      ▸ marshal_string field.type_name
      ▸ write_bool field.is_key
      ▸ write_bool field.is_not_null
      ▸ marsh.marshal_value field.dflt_val
      ▸ (if supports ctx.version since_query_entity_precision_and_scale
          then (write_uint32 (int32_of_int field.precision)
              ▸ write_uint32 (int32_of_int field.scale))
          else ok)

  -- `marshalQueryEntity`
  unfoldable pub marshal_query_entity : QueryEntity marsh.Value → Write
  unfolding marshal_query_field write_alias marshal_query_index
  marshal_query_entity entity =
      marshal_string entity.key_type
      ▸ marshal_string entity.val_type
      ▸ marshal_empty_string_as_null entity.tbl_name
      ▸ marshal_empty_string_as_null entity.key_fld_name
      ▸ marshal_empty_string_as_null entity.val_fld_name
      ▸ write_sequence marshal_query_field entity.fields
      ▸ write_sequence write_alias entity.aliases
      ▸ write_sequence marshal_query_index entity.indexes

  unfoldable pub write_expiry : Option ExpiryPolicy → Write
  write_expiry none = write_bool false
  write_expiry (some p) =
      write_bool true
      ▸ write_uint64 (int64_of (duration_to_millis p.creation))
      ▸ write_uint64 (int64_of (duration_to_millis p.update))
      ▸ write_uint64 (int64_of (duration_to_millis p.access))

  -- The switch of `marshal`.
  unfoldable pub write_property : Property marsh.Value → Write
  unfolding write_expiry write_key_config marshal_query_entity
  write_property (string v) = marshal_string v
  write_property (bool v) = write_bool v
  write_property (int v) = write_uint32 (int32_of_int v)
  write_property (int32 v) = write_uint32 (int32_of_int v)
  write_property (int64 v) = write_uint64 (int64_of v)
  write_property (cache_mode v) = write_uint32 (int32_of_int v)
  write_property (cache_atomicity_mode v) = write_uint32 (int32_of_int v)
  write_property (partition_loss_policy v) = write_uint32 (int32_of_int v)
  write_property (cache_write_synchronization_mode v) = write_uint32 (int32_of_int v)
  write_property (cache_rebalance_mode v) = write_uint32 (int32_of_int v)
  write_property (expiry_policy v) =
      if supports ctx.version since_expiry_policy then write_expiry v else (λ s. err not_supported)
  write_property (cache_key_configs v) = write_sequence write_key_config v
  write_property (query_entities v) = write_sequence marshal_query_entity v
  write_property other = λ s. err not_supported

  unfoldable pub write_coded : ℕ × Property marsh.Value → Write
  unfolding write_property
  write_coded (code, v) = write_uint16 code ▸ write_property v

  -- The number of the properties, and each with its code.
  unfoldable pub write_properties : CacheConfiguration marsh.Value → Write
  unfolding write_coded
  write_properties config = write_uint16 (length config % 2 ^ 16) ▸ write_all write_coded config

  -- `CacheConfiguration.marshal`
  unfoldable pub marshal_configuration : CacheConfiguration marsh.Value → Write
  unfolding write_properties write_size_at
  marshal_configuration config s =
      (write_uint32 0 ▸ write_properties config ▸ write_size_at s.position) s
