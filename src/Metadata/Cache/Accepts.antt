-- ===== src/Metadata/Cache/Accepts.antt =====
-- Which metadata `putMetadata` of binary_schema.go takes.
use mcgv.Base.{
  ◌≡◌, refl, sym, ap, ◌∙◌, inl, inr, Bool, true, false, not, ◌||◌, List, [], ◌∷◌, ◌++◌, some,
}
use mcgv.Base.{ok, ◌==◌, if◌then◌else◌, Option-cases, ==_iff}
use mcgv.Base.{
  String, Map, lookup, put, is_listed, has_value, same_string, same_string_iff, same_refl,
  string_keys, number_keys,
}
use mcgv.Metadata.{
  BinaryFieldMeta, BinaryMetadata, MergedFields, field_or_zero, copy_fields, merge_fields,
  with_schemas, merge_object, merge_metadata,
}
use mcgv.Metadata.Merge.{IsOrdered, SameResult}
use mcgv.Metadata.Cache.{BinaryMetadataCache, put_metadata}

-- Two versions of one object type, in which a field has one type.
pub record Agree (old meta : BinaryMetadata) : Type 0 where
  pub type_ids : old.type_id ≡ meta.type_id
  pub type_names : old.type_name ≡ meta.type_name
  pub objects : (old.is_enum ≡ false) × (meta.is_enum ≡ false)
  pub affinity_keys : old.aff_key_name ≡ meta.aff_key_name
  pub field_types :
      (j : String) (f g : BinaryFieldMeta)
      → lookup j old.fields ≡ some f
      → lookup j meta.fields ≡ some g
      → f.type_id ≡ g.type_id

-- The loop over the new fields ends if each that was known has the type that was known.
merge_fields-ok :
    (order : List String) (fields old : Map String BinaryFieldMeta) (before : MergedFields)
    → ((n : String) (f : BinaryFieldMeta)
        → is_listed n order ≡ true
        → lookup n old ≡ some f
        → (f.type_id == (field_or_zero (lookup n fields)).type_id) ≡ true)
    → (after : MergedFields) × (merge_fields order fields old before ≡ ok after)
unfolding merge_fields
merge_fields-ok [] fields old before h = (before, refl)
merge_fields-ok (n ∷ order) fields old before h =
    let first : (is_listed n (n ∷ order)) ≡ true = rw (same_refl n) refl in
    let later : (m : String) (f : BinaryFieldMeta)
        → is_listed m order ≡ true
        → lookup m old ≡ some f
        → (f.type_id == (field_or_zero (lookup m fields)).type_id) ≡ true =
      λ m f l e. h m f (or_true (same_string m n) (is_listed m order) l) e in
    elim (Option-cases (lookup n old)) [
      | inl new ↦
          let field = field_or_zero (lookup n fields) in
          let (after, run) =
            merge_fields-ok order fields old
              (record {
                changed = true;
                fields = put n field before.fields;
                order = before.order ++ (n ∷ []);
              })
              later in
          (after, rw (merge_fields, new) run)
      | inr (f, known) ↦
          let (after, run) = merge_fields-ok order fields old before later in
          (after, rw (merge_fields, known, h n f first known) run)
    ]
  where
    or_true : (a b : Bool) → b ≡ true → (a || b) ≡ true
    or_true true b e = refl
    or_true false b e = e

merge_object-ok :
    (old meta : BinaryMetadata)
    → IsOrdered meta
    → Agree old meta
    → (result : Bool × BinaryMetadata) × (merge_object old meta ≡ ok result)
unfolding merge_object
merge_object-ok old meta ordered agree =
    let (after, run) =
      merge_fields-ok meta.fields_order meta.fields old.fields
        (record {
          changed = false;
          fields = copy_fields old.fields_order old.fields [];
          order = old.fields_order;
        })
        (λ n f listed known. elim (Option-cases (lookup n meta.fields)) [
          | inl absent ↦ cc (sym listed ∙ ordered.listed n ∙ ap has_value absent)
          | inr (g, here) ↦
              rw here ((==_iff f.type_id g.type_id).1 (agree.field_types n f g known here))
        ]) in
    (with_schemas old meta after, rw run refl)

-- The tests of `mergeMetadata`, all passed.
all_passed {ℓ} :
    {A : Type ℓ} (a b c d e : Bool) (f g h i x y : A)
    → a ≡ true
    → b ≡ true
    → c ≡ false
    → d ≡ true
    → e ≡ false
    → (if not a
        then f
        else if not b
        then g
        else if c
        then h
        else if not d
        then i
        else if e
        then x
        else y)
      ≡ y
all_passed a b c d e f g h i x y pa pb pc pd pe = rw (pa, pb, pc, pd, pe) refl

same_kind : (a b : Bool) → a ≡ false → b ≡ false → (if a then not b else b) ≡ false
same_kind a b p q = rw (p, q) refl

merge_metadata-ok :
    (old meta : BinaryMetadata)
    → IsOrdered meta
    → Agree old meta
    → (result : Bool × BinaryMetadata) × (merge_metadata (some old) meta ≡ ok result)
unfolding merge_metadata
merge_metadata-ok old meta ordered agree =
    let (result, run) = merge_object-ok old meta ordered agree in
    let ids : (old.type_id == meta.type_id) ≡ true =
      (==_iff old.type_id meta.type_id).1 agree.type_ids in
    let names : same_string old.type_name meta.type_name ≡ true =
      (same_string_iff old.type_name meta.type_name).1 agree.type_names in
    let keys : same_string old.aff_key_name meta.aff_key_name ≡ true =
      (same_string_iff old.aff_key_name meta.aff_key_name).1 agree.affinity_keys in
    (
      result,
      all_passed _ _ _ _ _ _ _ _ _ _ _ ids names (same_kind _ _ agree.objects.0 agree.objects.1)
            keys agree.objects.1
          ∙ run,
    )

-- `putMetadata` returns no error for metadata of a type that the cache has not, and for that of an
-- object type that agrees with what the cache has.
pub put_metadata-ok :
    (r : BinaryMetadataCache) (meta : BinaryMetadata)
    → IsOrdered meta
    → ((old : BinaryMetadata) → lookup meta.type_id r.meta_data ≡ some old → Agree old meta)
    → (r' : BinaryMetadataCache) × (put_metadata r meta ≡ ok r')
unfolding put_metadata merge_metadata
put_metadata-ok r meta ordered agrees = elim (Option-cases (lookup meta.type_id r.meta_data)) [
  | inl new ↦ (record r { meta_data = put meta.type_id meta r.meta_data }, rw new refl)
  | inr (old, known) ↦
      let ((changed, merged), run) = merge_metadata-ok old meta ordered (agrees old known) in
      (
        if changed then record r { meta_data = put merged.type_id merged r.meta_data } else r,
        rw (known, run) (choose changed _ _),
      )
]
  where
    choose :
        (changed : Bool) (a b : BinaryMetadataCache)
        → SameResult (if changed then ok a else ok b) (ok (if changed then a else b))
    choose true a b = refl
    choose false a b = refl
