-- ===== src/Metadata/Merge.antt =====
-- What `mergeMetadata` of binary_schema.go makes of the fields of two versions of one type.
mod Fields
pub use Fields.{ok_injective, IsOrdered, SameResult}
use mcgv.Base.{
  ℕ, ◌≡◌, refl, sym, ap, ◌∙◌, inl, inr, Bool, true, false, not, ◌||◌, List, [], ◌∷◌, ◌++◌,
}
use mcgv.Base.{
  Option, none, some, Result, ok, err, panic, stuck, ◌>>=◌, ◌==◌, if◌then◌else◌, Bool-cases,
  Option-cases,
}
use mcgv.Base.{
  String, Map, lookup, put, same_string, same_string_iff, string_keys, number_keys, is_listed,
  has_value, lookup-put, is_listed-append,
}
use mcgv.Schema.{BinarySchema}
use mcgv.Metadata.{
  BinaryFieldMeta, BinaryMetadata, MetadataError, MergedFields, field_or_zero, copy_fields,
  merge_fields, copy_schemas, merge_schemas, merge_object, with_schemas, merged_object,
  field_types_differ, new_binary_metadata,
}
use mcgv.Metadata.Merge.Fields.{union_value, lookup-copy_fields, merge_fields-Extended, Extended}

-- A change of the fields stays one when the schemas are merged.
merge_schemas_changed :
    (m old merged : Map ℕ BinarySchema) → (merge_schemas m old (true, merged)).0 ≡ true
unfolding merge_schemas
merge_schemas_changed [] old merged = refl
merge_schemas_changed ((id, schema) ∷ m) old merged = elim (Option-cases (lookup id old)) [
  | inl e ↦ rw (merge_schemas, e) (merge_schemas_changed m old (put id schema merged))
  | inr (s, e) ↦ rw (merge_schemas, e) (merge_schemas_changed m old merged)
]

-- What is left of the merged fields in the result.
data Outcome (meta merged : BinaryMetadata) (after : MergedFields) : Bool → Type 0 where
  replaced :
      merged.fields ≡ after.fields
      → merged.fields_order ≡ after.order
      → Outcome meta merged after true
  kept : merged ≡ meta → after.changed ≡ false → Outcome meta merged after false

with_schemas_lem :
    (old meta merged : BinaryMetadata) (after : MergedFields) (changed : Bool)
    → with_schemas old meta after ≡ (changed, merged)
    → Outcome meta merged after changed
unfolding with_schemas merged_object new_binary_metadata
with_schemas_lem old meta merged after changed e =
    go after.changed refl
      (merge_schemas meta.schemas old.schemas (after.changed, copy_schemas old.schemas [])) refl e
  where
    go :
        (c : Bool)
        → after.changed ≡ c
        → (r : Bool × Map ℕ BinarySchema)
        → merge_schemas meta.schemas old.schemas (after.changed, copy_schemas old.schemas []) ≡ r
        → merged_object meta after r ≡ (changed, merged)
        → Outcome meta merged after changed
    go c before (true, schemas) run h =
        rw (← ap (λ p. p.0) h)
          (replaced (ap (λ p. p.1.fields) (sym h)) (ap (λ p. p.1.fields_order) (sym h)))
    go false before (false, schemas) run h =
        rw (← ap (λ p. p.0) h) (kept (ap (λ p. p.1) (sym h)) before)
    go true before (false, schemas) run h = cc (
      ap (λ p. p.0) (rw before at run),
      merge_schemas_changed meta.schemas old.schemas (copy_schemas old.schemas []),
    )

-- The fields of one version, and those of the other that it has not.
abbrev pub either : Option BinaryFieldMeta → Option BinaryFieldMeta → Option BinaryFieldMeta
either (some f) other = some f
either none other = other

union_either :
    (o m : Option BinaryFieldMeta)
    → union_value o
        (has_value m)
        (field_or_zero m)
        (if has_value o then some (field_or_zero o) else none)
      ≡ either o m
union_either (some f) m = refl
union_either none (some f) = refl
union_either none none = refl

or_either :
    (o m : Option BinaryFieldMeta)
    → (has_value o || (if has_value o then false else has_value m)) ≡ has_value (either o m)
or_either (some f) m = refl
or_either none (some f) = refl
or_either none none = refl

either_known :
    (o m : Option BinaryFieldMeta) → (has_value m ≡ true → has_value o ≡ true) → o ≡ either o m
either_known (some f) m h = refl
either_known none none h = refl
either_known none (some f) h = cc (h refl)

-- What is known of the type after a merge.
abbrev pub latest : BinaryMetadata → Bool → BinaryMetadata → BinaryMetadata
latest old changed merged = if changed then merged else old

-- `merged` has the fields of `old`, and those of `meta` that `old` has not.
pub record IsUnion (old meta merged : BinaryMetadata) : Type 0 where
  pub fields :
      (j : String) → lookup j merged.fields ≡ either (lookup j old.fields) (lookup j meta.fields)
  pub ordered : IsOrdered merged

module _ (old meta : BinaryMetadata) (ordered : IsOrdered old) (ordered' : IsOrdered meta) where
  abbrev start : MergedFields
  start = record {
    changed = false;
    fields = copy_fields old.fields_order old.fields [];
    order = old.fields_order;
  }

  module _ (after : MergedFields)
      (x : Extended meta.fields_order meta.fields old.fields start after) where
    after_fields :
        (j : String) → lookup j after.fields ≡ either (lookup j old.fields) (lookup j meta.fields)
    after_fields j =
        x.values j
        ∙ rw
            (
              lookup-copy_fields old.fields_order old.fields [] j,
              ordered.listed j,
              ordered'.listed j,
            )
            (union_either (lookup j old.fields) (lookup j meta.fields))

    after_order :
        (j : String)
        → is_listed j after.order ≡ has_value (either (lookup j old.fields) (lookup j meta.fields))
    after_order j =
        x.ordered j
        ∙ rw (ordered.listed j, ordered'.listed j)
            (or_either (lookup j old.fields) (lookup j meta.fields))

    after-IsUnion :
        (merged : BinaryMetadata) (changed : Bool)
        → Outcome meta merged after changed
        → IsUnion old meta (latest old changed merged)
    after-IsUnion merged true (replaced p q) = record {
      fields = λ j. ap (λ l. lookup j l) p ∙ after_fields j;
      ordered = record {
        listed = λ j.
            ap (λ l. is_listed j l) q
            ∙ after_order j
            ∙ ap has_value (sym (after_fields j))
            ∙ ap (λ l. has_value (lookup j l)) (sym p);
      };
    }
    after-IsUnion merged false (kept p q) = record {
      fields = λ j.
          either_known (lookup j old.fields) (lookup j meta.fields)
            (λ h. x.nothing_new q j (ordered'.listed j ∙ h));
      ordered = ordered;
    }

-- `mergeMetadata` of two versions of an object type whose orders list just their fields: what is known
-- afterwards, the merged version if something changed and the old one otherwise, has the fields of the
-- old version and those of the new one that the old one has not, and its order lists just them.
pub merge_object-IsUnion :
    (old meta merged : BinaryMetadata) (changed : Bool)
    → IsOrdered old
    → IsOrdered meta
    → merge_object old meta ≡ ok (changed, merged)
    → IsUnion old meta (latest old changed merged)
unfolding merge_object
merge_object-IsUnion old meta merged changed ordered ordered' e =
    go (merge_fields meta.fields_order meta.fields old.fields (start old meta ordered ordered'))
      refl e
  where
    go :
        (r : Result MetadataError MergedFields)
        → merge_fields meta.fields_order meta.fields old.fields (start old meta ordered ordered')
          ≡ r
        → (r >>= λ m. ok (with_schemas old meta m)) ≡ ok (changed, merged)
        → IsUnion old meta (latest old changed merged)
    go (ok after) run h =
        after-IsUnion old meta ordered ordered' after
          (merge_fields-Extended meta.fields_order meta.fields old.fields _ after run) merged
          changed (with_schemas_lem old meta merged after changed (ok_injective _ _ h))
    go (err f) run h = cc h
    go panic run h = cc h
    go stuck run h = cc h

-- The type of the result is that of the new version.
pub merge_object_type :
    (old meta merged : BinaryMetadata) (changed : Bool)
    → merge_object old meta ≡ ok (changed, merged)
    → merged.type_id ≡ meta.type_id
unfolding merge_object with_schemas merged_object new_binary_metadata
merge_object_type old meta merged changed e =
    go
      (merge_fields meta.fields_order meta.fields old.fields (record {
        changed = false;
        fields = copy_fields old.fields_order old.fields [];
        order = old.fields_order;
      }))
      e
  where
    end :
        (m : MergedFields) (r : Bool × Map ℕ BinarySchema)
        → (merged_object meta m r).1.type_id ≡ meta.type_id
    end m (true, s) = refl
    end m (false, s) = refl

    go :
        (r : Result MetadataError MergedFields)
        → (r >>= λ m. ok (with_schemas old meta m)) ≡ ok (changed, merged)
        → merged.type_id ≡ meta.type_id
    go (ok m) h = ap (λ p. p.1.type_id) (sym (ok_injective _ _ h)) ∙ end m _
    go (err f) h = cc h
    go panic h = cc h
    go stuck h = cc h
