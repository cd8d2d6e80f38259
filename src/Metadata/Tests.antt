-- ===== src/Metadata/Tests.antt =====
-- The theorems on the metadata of binary_schema.go at concrete types.
use mcgv.Base.{
  arith, false, ℕ, ◌≡◌, refl, ap, sym, ◌∙◌, true, [], ◌∷◌, some, ok, length, ◌==◌, if◌then◌else◌,
  inl, inr, Bool-cases,
}
use mathlib.Core.Path.{subst}
use mcgv.Base.{
  String, lookup, same_string, same_string_iff, string_keys, number_keys, some-injective,
}
use mcgv.Metadata.{BinaryMetadata, new_binary_metadata, add_field, merge_object, merge_metadata}
use mcgv.Metadata.Merge.{IsOrdered, IsUnion, latest, either, merge_object-IsUnion}
use mcgv.Metadata.Cache.{BinaryMetadataCache, put_metadata}
use mcgv.Metadata.Wire.{write_meta, unmarshal_binary_meta}
use mcgv.Metadata.Wire.RoundTrip.{IsWritable, SameMeta, unmarshal_binary_meta-write_meta}
use mcgv.Stream.Out.{Out, contents, new_output_stream}
use mcgv.Stream.In.{new_input_stream}
use mcgv.Base.Bytes.{le_bytes}
use mcgv.Metadata.Cache.Keeps.{IsSound, field_of, put_metadata-IsSound}
use mcgv.Metadata.Cache.Accepts.{Agree, put_metadata-ok}

abbrev person : BinaryMetadata
unfolding new_binary_metadata
person = new_binary_metadata 5 (112 ∷ []) []

-- Two versions of a type: with the field `a`, and with the field `b`.
abbrev with_a : BinaryMetadata
with_a = add_field person (97 ∷ []) 3 97

abbrev with_b : BinaryMetadata
with_b = add_field person (98 ∷ []) 9 98

one_field : (name : String) (t id : ℕ) → IsOrdered (add_field person name t id)
unfolding add_field new_binary_metadata
one_field name t id = record {
  listed = λ j. elim (Bool-cases (same_string j name)) [ inl e ↦ rw e refl | inr e ↦ rw e refl ];
}

abbrev with_both : BinaryMetadata
with_both = add_field with_a (98 ∷ []) 9 98

merged : merge_object with_a with_b ≡ ok (true, with_both)
unfolding merge_object add_field new_binary_metadata
merged = refl

merge_object-IsUnion_example : IsUnion with_a with_b (latest with_a true with_both)
merge_object-IsUnion_example =
    merge_object-IsUnion with_a with_b with_both true (one_field (97 ∷ []) 3 97)
      (one_field (98 ∷ []) 9 98) merged

-- A cache that knows the first version, and after the second is put.
abbrev cache : BinaryMetadataCache
cache = record { name_mapping = []; meta_data = (5, with_a) ∷ [] }

abbrev cache_after : BinaryMetadataCache
cache_after = record { name_mapping = []; meta_data = (5, with_both) ∷ [] }

cache-IsSound : IsSound cache
cache-IsSound = record {
  ordered = λ t m e. elim (Bool-cases (t == 5)) [
    | inl same ↦ subst IsOrdered (some-injective (rw same at e)) (one_field (97 ∷ []) 3 97)
    | inr other ↦ cc (rw other at e)
  ];
}

cache_put : put_metadata cache with_b ≡ ok cache_after
unfolding put_metadata merge_metadata add_field new_binary_metadata
cache_put = refl

put_metadata-IsSound_example :
    IsSound cache_after
    × ((t : ℕ) (j : String)
        → field_of cache_after t j ≡ (
            if t == with_b.type_id
            then either (field_of cache t j) (lookup j with_b.fields)
            else field_of cache t j))
unfolding add_field new_binary_metadata
put_metadata-IsSound_example =
    put_metadata-IsSound cache cache_after with_b cache-IsSound (one_field (98 ∷ []) 9 98) refl
      cache_put

versions-Agree :
    (old : BinaryMetadata) → lookup with_b.type_id cache.meta_data ≡ some old → Agree old with_b
unfolding add_field new_binary_metadata
versions-Agree old e = subst (λ o. Agree o with_b) (some-injective e) agree
  where
    agree : Agree with_a with_b
    agree = record {
      type_ids = refl;
      type_names = refl;
      objects = (refl, refl);
      affinity_keys = refl;
      field_types = λ j f g known here. elim (Bool-cases (same_string j (97 ∷ []))) [
        | inl e ↦
            cc (sym (ap (λ k. lookup k with_b.fields) ((same_string_iff j (97 ∷ [])).0 e)) ∙ here)
        | inr e ↦ cc (rw e at known)
      ];
    }

put_metadata-ok_example : (r' : BinaryMetadataCache) × (put_metadata cache with_b ≡ ok r')
put_metadata-ok_example = put_metadata-ok cache with_b (one_field (98 ∷ []) 9 98) versions-Agree

-- The first version with a schema.
abbrev written : BinaryMetadata
written = record {
  type_id = 5;
  type_name = 112 ∷ [];
  aff_key_name = [];
  is_enum = false;
  fields = (97 ∷ [], record { type_id = 3; field_id = 97 }) ∷ [];
  fields_order = (97 ∷ []) ∷ [];
  schemas = (7, record { schema_id = 7; field_ids = 97 ∷ [] }) ∷ [];
  ord_to_name = [];
  name_to_ord = [];
}

written-IsWritable : IsWritable written
written-IsWritable = record {
  type_id = omega arith;
  type_name = omega arith;
  aff_key_name = omega arith;
  ordered = record {
    listed =
        λ j. elim (Bool-cases (same_string j (97 ∷ []))) [ inl e ↦ rw e refl | inr e ↦ rw e refl ];
  };
  field_count = omega arith;
  fields = ((omega arith, omega arith, omega arith), tt);
  field_keys = (refl, tt);
  name_count = omega arith;
  names = tt;
  name_keys = tt;
  schema_count = omega arith;
  schemas = ((refl, omega arith, omega arith, (omega arith, tt)), tt);
  schema_keys = (refl, tt);
}

unmarshal_binary_meta-write_meta_example :
    (s : Out) × (meta' : BinaryMetadata) × (write_meta written (new_output_stream 4) ≡ ok s)
    × (unmarshal_binary_meta (new_input_stream (contents s) 0)
        ≡ ok (meta', new_input_stream (contents s) (length (contents s))))
    × SameMeta written meta'
unfolding le_bytes
unmarshal_binary_meta-write_meta_example =
    unmarshal_binary_meta-write_meta written 4 written-IsWritable (omega arith)
