-- ===== src/Config/EntityWire/RoundTrip.antt =====
-- Fields and whole query entities: what is written, and what is read of it.
use mcgv.Base.{ℕ, ◌≤◌, ◌≡◌, Bool, true, false, List, [], ◌∷◌, ◌++◌, map, All, length, ok}
use mcgv.Base.{String, Map, string_keys, if◌then◌else◌}
use mcgv.Base.Bytes.{le_bytes}
use mcgv.Base.Int.{ℤ, negsuc}
use mathlib.Core.Path.{subst}
use mcgv.Stream.Out.{Out, ◌▸◌, write_uint32, contents, max_int32, new_output_stream}
use mcgv.Stream.Whole.{written_read}
use mcgv.Stream.Out.Writes.{Emits, ◌⊳◌, skip_Emits, write_bool-Emits, write_uint32-Emits}
use mcgv.Stream.In.{new_input_stream, ◌>>>◌, return}
use mcgv.Stream.In.Reads.{Reads, bind_Reads, map_Reads, return-Reads, bool_Reads}
use mcgv.Marshal.Canon.{IsLength}
use mcgv.Metadata.Wire.{put_all, read_pairs, read_slice_of}
use mcgv.Metadata.Wire.Sequences.{
  sequence_bytes, sequence_Emits, write_sequence-Emits, read_pairs-Reads, read_slice_of-Reads,
  string_bytes, nullable_bytes, marshal_string-Emits, nullable_Emits, string_Reads, nullable_Reads,
}
use mcgv.Protocol.{ProtocolContext, supports, since_query_entity_precision_and_scale}
use mcgv.Object.{Marshaller, Laws}
use mcgv.Config.{QueryIndex, QueryField, QueryEntity, int32_of_int}
use mcgv.Config.Writer.{write_alias, marshal_query_index, marshal_query_field, marshal_query_entity}
use mcgv.Config.Reader.{
  read_alias, unmarshal_query_index, int_if, unmarshal_query_field, unmarshal_query_entity,
}
use mcgv.Config.EntityWire.{
  bool_byte, IsInt32, int_Reads, map_same, IsText, alias_bytes, index_bytes, IsIndex, alias-Emits,
  alias-Reads, index-Emits, index-Reads, each_Reads,
}

module _ (marsh : Marshaller) (ctx : ProtocolContext) (laws : Laws marsh) where
  abbrev with_precision : Bool
  with_precision = supports ctx.version since_query_entity_precision_and_scale

  abbrev precision_bytes : Bool → ℤ → ℤ → List ℕ
  precision_bytes true p s = le_bytes 4 (int32_of_int p) ++ le_bytes 4 (int32_of_int s)
  precision_bytes false p s = []

  abbrev pub field_bytes : QueryField marsh.Value → List ℕ
  field_bytes f =
      string_bytes f.name
      ++ (string_bytes f.type_name
          ++ (bool_byte f.is_key
              ∷ (bool_byte f.is_not_null
                  ∷ (laws.encode f.dflt_val
                      ++ precision_bytes with_precision f.precision f.scale))))

  abbrev pub IsField : QueryField marsh.Value → Type 0
  IsField f =
      IsText f.name
      × IsText f.type_name
      × laws.Fits f.dflt_val
      × IsInt32 f.precision
      × IsInt32 f.scale

  -- What is read of a field: the precision and the scale are -1 if the protocol has none.
  abbrev pub canon_field : QueryField marsh.Value → QueryField marsh.Value
  canon_field f = record f {
    precision = if with_precision then f.precision else negsuc 0;
    scale = if with_precision then f.scale else negsuc 0;
    dflt_val = laws.canon f.dflt_val;
  }

  precision-Emits :
      (b : Bool) (p s : ℤ)
      → Emits
          (if b then (write_uint32 (int32_of_int p) ▸ write_uint32 (int32_of_int s)) else ok)
          (precision_bytes b p s)
  precision-Emits true p s = write_uint32-Emits _ ⊳ write_uint32-Emits _
  precision-Emits false p s = skip_Emits

  field-Emits :
      (f : QueryField marsh.Value)
      → IsField f
      → Emits (marshal_query_field marsh ctx f) (field_bytes f)
  unfolding marshal_query_field
  field-Emits f h =
      marshal_string-Emits f.name
      ⊳ marshal_string-Emits f.type_name
      ⊳ write_bool-Emits f.is_key
      ⊳ write_bool-Emits f.is_not_null
      ⊳ laws.emits f.dflt_val h.2
      ⊳ precision-Emits with_precision f.precision f.scale

  precision-Reads :
      {A : Type 0} (b : Bool) (p s : ℤ) (k : ℤ → ℤ → A)
      → IsInt32 p
      → IsInt32 s
      → Reads
          (int_if b >>> λ x. int_if b >>> λ y. return (k x y))
          (precision_bytes b p s)
          (k (if b then p else negsuc 0) (if b then s else negsuc 0))
  precision-Reads true p s k h h' =
      bind_Reads _ (int_Reads p h) (map_Reads _ _ _ _ (int_Reads s h'))
  precision-Reads false p s k h h' = return-Reads _

  field-Reads :
      (f : QueryField marsh.Value)
      → IsField f
      → Reads (unmarshal_query_field marsh ctx) (field_bytes f) (canon_field f)
  unfolding unmarshal_query_field
  field-Reads f h = bind_Reads _ (string_Reads f.name h.0) (
      bind_Reads _ (string_Reads f.type_name h.1) (
        bind_Reads _ (bool_Reads f.is_key) (
          bind_Reads _ (bool_Reads f.is_not_null) (
            bind_Reads _ (laws.reads f.dflt_val h.2)
              (precision-Reads with_precision f.precision f.scale _ h.3 h.4)))))

  -- An entity whose texts, lists and numbers fit what they are written as.
  pub record IsEntity (e : QueryEntity marsh.Value) : Type 0 where
    pub key : IsText e.key_type
    pub val : IsText e.val_type
    pub tbl : IsText e.tbl_name
    pub key_fld : IsText e.key_fld_name
    pub val_fld : IsText e.val_fld_name
    pub field_count : IsLength (length e.fields)
    pub each_field : All IsField e.fields
    pub alias_count : IsLength (length e.aliases)
    pub each_alias : All (λ (p : String × String). IsText p.0 × IsText p.1) e.aliases
    pub index_count : IsLength (length e.indexes)
    pub each_index : All IsIndex e.indexes

  abbrev pub entity_bytes : QueryEntity marsh.Value → List ℕ
  entity_bytes e =
      string_bytes e.key_type
      ++ (string_bytes e.val_type
          ++ (nullable_bytes e.tbl_name
              ++ (nullable_bytes e.key_fld_name
                  ++ (nullable_bytes e.val_fld_name
                      ++ (sequence_bytes field_bytes e.fields
                          ++ (sequence_bytes alias_bytes e.aliases
                              ++ sequence_bytes index_bytes e.indexes))))))

  abbrev pub canon_entity : QueryEntity marsh.Value → QueryEntity marsh.Value
  canon_entity e = record e { fields = map canon_field e.fields; aliases = put_all e.aliases [] }

  fields-Emit :
      (fs : List (QueryField marsh.Value))
      → All IsField fs
      → All (λ f. Emits (marshal_query_field marsh ctx f) (field_bytes f)) fs
  fields-Emit [] h = tt
  fields-Emit (f ∷ fs) h = (field-Emits f h.0, fields-Emit fs h.1)

  fields-Read :
      (fs : List (QueryField marsh.Value))
      → All IsField fs
      → All (λ f. Reads (unmarshal_query_field marsh ctx) (field_bytes f) (canon_field f)) fs
  fields-Read [] h = tt
  fields-Read (f ∷ fs) h = (field-Reads f h.0, fields-Read fs h.1)

  pub entity-Emits :
      (e : QueryEntity marsh.Value)
      → IsEntity e
      → Emits (marshal_query_entity marsh ctx e) (entity_bytes e)
  unfolding marshal_query_entity
  entity-Emits e h =
      marshal_string-Emits e.key_type
      ⊳ marshal_string-Emits e.val_type
      ⊳ nullable_Emits e.tbl_name
      ⊳ nullable_Emits e.key_fld_name
      ⊳ nullable_Emits e.val_fld_name
      ⊳ sequence_Emits _ _ e.fields (fields-Emit e.fields h.each_field)
      ⊳ write_sequence-Emits write_alias alias_bytes e.aliases alias-Emits
      ⊳ write_sequence-Emits marshal_query_index index_bytes e.indexes index-Emits

  aliases-Read :
      (e : QueryEntity marsh.Value)
      → IsEntity e
      → Reads (read_pairs read_alias) (sequence_bytes alias_bytes e.aliases) e.aliases
  aliases-Read e h =
      subst
        (λ (l : Map String String).
          Reads (read_pairs read_alias) (sequence_bytes alias_bytes e.aliases) l)
        (map_same e.aliases)
        (read_pairs-Reads read_alias alias_bytes (λ p. p) e.aliases h.alias_count
          (each_Reads _ read_alias alias_bytes alias-Reads e.aliases h.each_alias))

  indexes-Read :
      (e : QueryEntity marsh.Value)
      → IsEntity e
      → Reads (read_slice_of unmarshal_query_index) (sequence_bytes index_bytes e.indexes) e.indexes
  indexes-Read e h =
      subst
        (λ (l : List QueryIndex).
          Reads (read_slice_of unmarshal_query_index) (sequence_bytes index_bytes e.indexes) l)
        (map_same e.indexes)
        (read_slice_of-Reads unmarshal_query_index index_bytes (λ p. p) e.indexes h.index_count
          (each_Reads _ unmarshal_query_index index_bytes index-Reads e.indexes h.each_index))

  pub entity-Reads :
      (e : QueryEntity marsh.Value)
      → IsEntity e
      → Reads (unmarshal_query_entity marsh ctx) (entity_bytes e) (canon_entity e)
  unfolding unmarshal_query_entity
  entity-Reads e h = bind_Reads _ (string_Reads e.key_type h.key) (
      bind_Reads _ (string_Reads e.val_type h.val) (
        bind_Reads _ (nullable_Reads e.tbl_name h.tbl) (
          bind_Reads _ (nullable_Reads e.key_fld_name h.key_fld) (
            bind_Reads _ (nullable_Reads e.val_fld_name h.val_fld) (
              bind_Reads _
                (read_slice_of-Reads _ field_bytes canon_field e.fields h.field_count
                  (fields-Read e.fields h.each_field))
                (bind_Reads _ (aliases-Read e h) (map_Reads _ _ _ _ (indexes-Read e h))))))))

  pub entities-Read :
      (es : List (QueryEntity marsh.Value))
      → All IsEntity es
      → All (λ e. Reads (unmarshal_query_entity marsh ctx) (entity_bytes e) (canon_entity e)) es
  entities-Read [] h = tt
  entities-Read (e ∷ es) h = (entity-Reads e h.0, entities-Read es h.1)

  -- A query entity that fits is written to a new stream, and read from its bytes, all of which are taken:
  -- with the same names, indexes and types, with its default values as the marshaller reads them back, with
  -- its aliases put into a new map, and with its precisions and scales if the protocol has them, or else
  -- with -1 for each.
  pub unmarshal_query_entity-marshal_query_entity :
      (e : QueryEntity marsh.Value) (n : ℕ)
      → IsEntity e
      → length (entity_bytes e) ≤ max_int32
      → (s : Out) × (marshal_query_entity marsh ctx e (new_output_stream n) ≡ ok s)
        × (unmarshal_query_entity marsh ctx (new_input_stream (contents s) 0)
            ≡ ok (canon_entity e, new_input_stream (contents s) (length (contents s))))
  unmarshal_query_entity-marshal_query_entity e n h small =
      written_read (marshal_query_entity marsh ctx e) (unmarshal_query_entity marsh ctx)
        (entity_bytes e) (canon_entity e) n (entity-Emits e h) (entity-Reads e h) small
