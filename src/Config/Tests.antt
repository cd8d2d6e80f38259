-- ===== src/Config/Tests.antt =====
-- The theorems on cache_configuration.go at concrete configurations.
use mcgv.Base.{ℕ, ◌≡◌, refl, arith, Bool, true, false, [], ◌∷◌, ◌++◌, none, some, ok, length, panic}
use mcgv.Base.{number_keys}
use mcgv.Base.Int.{pos, negsuc}
use mcgv.Base.Bytes.{le_bytes}
use mcgv.Stream.Out.{Out, Write, contents, new_output_stream}
use mcgv.Stream.Out.Writes.{Emits}
use mcgv.Stream.In.{Read, new_input_stream}
use mcgv.Marshal.Types.{TypeDesc, Payload, uint32}
use mcgv.Marshal.Encoding.{encode}
use mcgv.Marshal.Canon.{IsInRange, depth}
use mcgv.Metadata.{BinaryMetadata}
use mcgv.Protocol.{ProtocolContext, version_of, supports, compare_to}
use mcgv.Object.{Marshaller, Laws}
use mcgv.Object.Payloads.{payload_marshaller, payload_laws}
use mcgv.Config.{
  QueryEntity, string, int, query_entities, CacheConfiguration, create_cache_configuration, copy,
}
use mcgv.Config.Options.{with_backups_count}
use mcgv.Config.Getters.{query_entities_of}
use mcgv.Config.Writer.{marshal_query_entity, marshal_configuration}
use mcgv.Config.Reader.{unmarshal_query_entity, unmarshal_cache_configuration}
use mcgv.Config.EntityWire.RoundTrip.{
  IsEntity, canon_entity, unmarshal_query_entity-marshal_query_entity,
}
use mcgv.Config.PropertyBytes.{rest_bytes, marshal_configuration-Emits}
use mcgv.Config.Copies.{HasSame, copy-HasSame}
use mcgv.Config.Answer.{Settings, IsSettings, settings_bytes}
use mcgv.Config.Answer.Shown.{HasSettings, unmarshal_cache_configuration-HasSettings}

abbrev no_write : ℕ → Write
no_write n s = panic

abbrev no_read : TypeDesc → Read Payload
no_read t s = panic

abbrev accept : BinaryMetadata → Bool
accept meta = true

abbrev marsh : Marshaller
marsh = payload_marshaller no_write no_read (λ n. none) (λ s. s) true accept 3

abbrev marsh_laws : Laws marsh
marsh_laws = payload_laws no_write no_read (λ n. none) (λ s. s) true accept 3 (λ meta. refl)

abbrev ctx : ProtocolContext
ctx = record { version = version_of 1 7 0; features = none }

abbrev entity_a : QueryEntity Payload
entity_a = record {
  key_type = 107 ∷ [];
  val_type = 118 ∷ [];
  tbl_name = [];
  key_fld_name = 105 ∷ [];
  val_fld_name = [];
  fields =
      record {
        name = 97 ∷ [];
        type_name = 116 ∷ [];
        is_key = true;
        is_not_null = false;
        precision = negsuc 0;
        scale = pos 2;
        dflt_val = uint32 8;
      }
      ∷ [];
  aliases = (97 ∷ [], 65 ∷ []) ∷ [];
  indexes =
      record {
        name = 120 ∷ [];
        idx_type = 0;
        inline_sz = negsuc 0;
        fields = record { name = 97 ∷ []; asc = true } ∷ [];
      }
      ∷ [];
}

sample-IsEntity : IsEntity marsh ctx marsh_laws entity_a
unfolding IsInRange depth
sample-IsEntity = record {
  key = omega arith;
  val = omega arith;
  tbl = omega arith;
  key_fld = omega arith;
  val_fld = omega arith;
  field_count = omega arith;
  each_field = omega arith;
  alias_count = omega arith;
  each_alias = omega arith;
  index_count = omega arith;
  each_index = omega arith;
}

unmarshal_query_entity-marshal_query_entity_example :
    (s : Out) × (marshal_query_entity marsh ctx entity_a (new_output_stream 64) ≡ ok s)
    × (unmarshal_query_entity marsh ctx (new_input_stream (contents s) 0)
        ≡ ok (
          canon_entity marsh ctx marsh_laws entity_a,
          new_input_stream (contents s) (length (contents s)),
        ))
unfolding supports compare_to encode le_bytes
unmarshal_query_entity-marshal_query_entity_example =
    unmarshal_query_entity-marshal_query_entity marsh ctx marsh_laws entity_a 64 sample-IsEntity
      (omega arith)

abbrev config : CacheConfiguration Payload
config = (0, string (99 ∷ [])) ∷ (3, int (pos 2)) ∷ (200, query_entities (entity_a ∷ [])) ∷ []

marshal_configuration-Emits_example : Emits (marshal_configuration marsh ctx config) (
    le_bytes 4 (length (rest_bytes marsh ctx marsh_laws config))
    ++ rest_bytes marsh ctx marsh_laws config)
marshal_configuration-Emits_example =
    marshal_configuration-Emits marsh ctx marsh_laws config (tt, (tt, ((sample-IsEntity, tt), tt)))

copy-HasSame_example : HasSame Payload config (copy Payload config [])
unfolding query_entities_of
copy-HasSame_example = copy-HasSame Payload config (refl, (refl, (refl, tt))) ((refl, tt), tt)

-- A configuration with an option, made as `CreateCacheConfiguration` does.
two_backups :
    create_cache_configuration Payload (99 ∷ []) (with_backups_count (λ s. s) Payload (pos 2) ∷ [])
    ≡ (0, string (99 ∷ [])) ∷ (3, int (pos 2)) ∷ []
unfolding create_cache_configuration with_backups_count
two_backups = refl

abbrev settings : Settings marsh ctx marsh_laws
settings = record {
  skipped_1 = 0;
  cache_atomicity_mode = pos 1;
  backups = pos 1;
  cache_mode = pos 1;
  copy_on_read = true;
  data_region_name = [];
  eager_ttl = true;
  stats_enabled = true;
  group_name = [];
  skipped_2 = 0;
  max_async_ops = pos 1;
  max_query_iterators = pos 1;
  cache_name = 99 ∷ [];
  on_heap_cache_enabled = true;
  partition_loss_policy = pos 1;
  query_details_metric_size = pos 1;
  query_parallelism = pos 1;
  read_from_backup = true;
  skipped_3 = 0;
  skipped_4 = 0;
  skipped_5 = 0;
  rebalance_mode = pos 1;
  rebalance_order = pos 1;
  skipped_6 = 0;
  skipped_7 = 0;
  sql_escape_all = true;
  sql_index_max_inline_size = pos 1;
  sql_schema = [];
  write_sync_mode = pos 1;
  key_configs = record { type_name = 107 ∷ []; aff_key_fld_name = 105 ∷ [] } ∷ [];
  entities = entity_a ∷ [];
  policy = some (1000, 0, 5);
}

settings-IsSettings : IsSettings marsh ctx marsh_laws settings
settings-IsSettings = record {
  skipped_1_fits = omega arith;
  cache_atomicity_mode_fits = omega arith;
  backups_fits = omega arith;
  cache_mode_fits = omega arith;
  data_region_name_fits = omega arith;
  group_name_fits = omega arith;
  skipped_2_fits = omega arith;
  max_async_ops_fits = omega arith;
  max_query_iterators_fits = omega arith;
  cache_name_fits = omega arith;
  partition_loss_policy_fits = omega arith;
  query_details_metric_size_fits = omega arith;
  query_parallelism_fits = omega arith;
  skipped_3_fits = omega arith;
  skipped_4_fits = omega arith;
  skipped_5_fits = omega arith;
  rebalance_mode_fits = omega arith;
  rebalance_order_fits = omega arith;
  skipped_6_fits = omega arith;
  skipped_7_fits = omega arith;
  sql_index_max_inline_size_fits = omega arith;
  sql_schema_fits = omega arith;
  write_sync_mode_fits = omega arith;
  key_count = omega arith;
  each_key = omega arith;
  entity_count = omega arith;
  each_entity = (sample-IsEntity, tt);
  policy_fits = omega arith;
}

unmarshal_cache_configuration-HasSettings_example :
    (config : CacheConfiguration Payload) × (unmarshal_cache_configuration marsh ctx
        (new_input_stream (settings_bytes marsh ctx marsh_laws settings) 0)
      ≡ ok (
        config,
        new_input_stream
            (settings_bytes marsh ctx marsh_laws settings)
            (length (settings_bytes marsh ctx marsh_laws settings)),
      ))
    × HasSettings marsh ctx marsh_laws settings config
unmarshal_cache_configuration-HasSettings_example =
    unmarshal_cache_configuration-HasSettings marsh ctx marsh_laws settings settings-IsSettings
