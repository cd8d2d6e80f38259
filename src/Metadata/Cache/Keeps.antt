-- ===== src/Metadata/Cache/Keeps.antt =====
-- What the metadata cache of binary_schema.go knows after `putMetadata`.
use mcgv.Base.{ℕ, ◌≡◌, refl, sym, ap, ◌∙◌, Bool, true, false, not, Option, none, some, inl, inr}
use mcgv.Base.{Result, ok, err, panic, stuck, ◌>>=◌, ◌==◌, if◌then◌else◌, Option-cases, ==_iff}
use mcgv.Base.{
  String, lookup, put, same_string, string_keys, number_keys, lookup-put, some-injective,
}
use mathlib.Core.Path.{subst}
use mcgv.Metadata.{BinaryFieldMeta, BinaryMetadata, MetadataError, merge_metadata, merge_object}
use mcgv.Metadata.Cache.{BinaryMetadataCache, put_metadata}
use mcgv.Metadata.Merge.{IsOrdered, either, merge_object-IsUnion, merge_object_type, ok_injective}

-- Every type in the cache lists just its fields.
pub record IsSound (r : BinaryMetadataCache) : Type 0 where
  pub ordered : (t : ℕ) (m : BinaryMetadata) → lookup t r.meta_data ≡ some m → IsOrdered m

abbrev pub fields_of : Option BinaryMetadata → String → Option BinaryFieldMeta
fields_of none j = none
fields_of (some m) j = lookup j m.fields

-- The field `j` of the type `t`, if the cache knows it.
abbrev pub field_of : BinaryMetadataCache → ℕ → String → Option BinaryFieldMeta
field_of r t j = fields_of (lookup t r.meta_data) j

module _ {ℓ} {A : Type ℓ} where
  -- A check that ends in an error was passed if the whole is a result.
  passed :
      (b : Bool) (f : MetadataError) (y : Result MetadataError A) (a : A)
      → (if b then err f else y) ≡ ok a
      → (b ≡ false) × (y ≡ ok a)
  passed true f y a e = cc e
  passed false f y a e = (refl, e)

  second : (b : Bool) (x y z : A) → b ≡ false → (if b then x else y) ≡ z → y ≡ z
  second true x y z h e = cc h
  second false x y z h e = e

-- Behind the tests, `mergeMetadata` of an object type is its last branch.
to_object :
    (old meta : BinaryMetadata) (changed : Bool) (merged : BinaryMetadata)
    → meta.is_enum ≡ false
    → merge_metadata (some old) meta ≡ ok (changed, merged)
    → ((old.type_id == meta.type_id) ≡ true) × (merge_object old meta ≡ ok (changed, merged))
unfolding merge_metadata
to_object old meta changed merged object e =
    let a = passed (not (old.type_id == meta.type_id)) _ _ _ e in
    let b = passed (not (same_string old.type_name meta.type_name)) _ _ _ a.1 in
    let c = passed _ _ _ _ b.1 in
    let d = passed (not (same_string old.aff_key_name meta.aff_key_name)) _ _ _ c.1 in
    (not_false (old.type_id == meta.type_id) a.0, second meta.is_enum _ _ _ object d.1)
  where
    not_false : (b : Bool) → not b ≡ false → b ≡ true
    not_false true h = refl
    not_false false h = cc h

-- What `putMetadata` leaves in the cache, which is `c`.
record Puts (r : BinaryMetadataCache) (meta : BinaryMetadata) (r' : BinaryMetadataCache)
    : Type 0 where
  known : BinaryMetadata
  entry :
      (t : ℕ)
      → lookup t r'.meta_data ≡ (if t == meta.type_id then some known else lookup t r.meta_data)
  ordered : IsOrdered known
  fields :
      (j : String)
      → lookup j known.fields ≡ either (field_of r meta.type_id j) (lookup j meta.fields)

module _ (r r' : BinaryMetadataCache) (meta old : BinaryMetadata) where
  -- The type was in the cache.
  known-Puts :
      IsSound r
      → IsOrdered meta
      → meta.is_enum ≡ false
      → lookup meta.type_id r.meta_data ≡ some old
      → (res : Result MetadataError (Bool × BinaryMetadata)) → merge_metadata (some old) meta ≡ res
      → (res >>= λ (changed, merged).
          if changed
          then ok (record r { meta_data = put merged.type_id merged r.meta_data })
          else ok r)
        ≡ ok r'
      → Puts r meta r'
  known-Puts sound ordered object cached (ok (true, m)) run e =
      let obj = (to_object old meta true m object run).1 in
      let union =
        merge_object-IsUnion old meta m true (sound.ordered meta.type_id old cached) ordered obj in
      let type = merge_object_type old meta m true obj in
      record {
        known = m;
        entry = λ t.
            ap (λ c. lookup t c.meta_data) (sym (ok_injective _ _ e))
            ∙ lookup-put t m.type_id m r.meta_data
            ∙ ap (λ n. if t == n then some m else lookup t r.meta_data) type;
        ordered = union.ordered;
        fields = λ j.
            union.fields j ∙ ap (λ o. either (fields_of o j) (lookup j meta.fields)) (sym cached);
      }
  known-Puts sound ordered object cached (ok (false, m)) run e =
      let obj = (to_object old meta false m object run).1 in
      let union =
        merge_object-IsUnion old meta m false (sound.ordered meta.type_id old cached) ordered obj in
      record {
        known = old;
        entry = λ t.
            ap (λ c. lookup t c.meta_data) (sym (ok_injective _ _ e))
            ∙ unchanged t (t == meta.type_id) refl;
        ordered = union.ordered;
        fields = λ j.
            union.fields j ∙ ap (λ o. either (fields_of o j) (lookup j meta.fields)) (sym cached);
      }
    where
      unchanged :
          (t : ℕ) (b : Bool)
          → (t == meta.type_id) ≡ b
          → lookup t r.meta_data ≡ (if b then some old else lookup t r.meta_data)
      unchanged t true h = ap (λ n. lookup n r.meta_data) ((==_iff t meta.type_id).0 h) ∙ cached
      unchanged t false h = refl
  known-Puts sound ordered object cached (err f) run e = cc e
  known-Puts sound ordered object cached panic run e = cc e
  known-Puts sound ordered object cached stuck run e = cc e

puts :
    (r r' : BinaryMetadataCache) (meta : BinaryMetadata)
    → IsSound r
    → IsOrdered meta
    → meta.is_enum ≡ false
    → put_metadata r meta ≡ ok r'
    → Puts r meta r'
unfolding put_metadata merge_metadata
puts r r' meta sound ordered object e = elim (Option-cases (lookup meta.type_id r.meta_data)) [
  | inl new ↦
      let same : record r { meta_data = put meta.type_id meta r.meta_data } ≡ r' =
        ok_injective _ _ (rw new at e) in
      record {
        known = meta;
        entry = λ t.
            ap (λ c. lookup t c.meta_data) (sym same) ∙ lookup-put t meta.type_id meta r.meta_data;
        ordered = ordered;
        fields = λ j. rw new refl;
      }
  | inr (old, cached) ↦
      known-Puts r r' meta old sound ordered object cached (merge_metadata (some old) meta) refl
        (rw cached at e)
]

-- `putMetadata` of an object type, if it returns no error: the fields that the cache knows of a type are
-- those it knew, and for the type put also those that were put and not known. The cache stays sound.
pub put_metadata-IsSound :
    (r r' : BinaryMetadataCache) (meta : BinaryMetadata)
    → IsSound r
    → IsOrdered meta
    → meta.is_enum ≡ false
    → put_metadata r meta ≡ ok r'
    → IsSound r'
      × ((t : ℕ) (j : String)
          → field_of r' t j ≡ (
              if t == meta.type_id
              then either (field_of r t j) (lookup j meta.fields)
              else field_of r t j))
put_metadata-IsSound r r' meta sound ordered object e =
    let p = puts r r' meta sound ordered object e in
    (
      record { ordered = λ t m h. kept t m (t == meta.type_id) refl p (sym (p.entry t) ∙ h) },
      λ t j. ap (λ o. fields_of o j) (p.entry t) ∙ field t j (t == meta.type_id) refl p,
    )
  where
    kept :
        (t : ℕ) (m : BinaryMetadata) (b : Bool)
        → (t == meta.type_id) ≡ b
        → (p : Puts r meta r')
        → (if t == meta.type_id then some p.known else lookup t r.meta_data) ≡ some m
        → IsOrdered m
    kept t m true h p k = subst IsOrdered (some-injective (rw h at k)) p.ordered
    kept t m false h p k = sound.ordered t m (rw h at k)

    field :
        (t : ℕ) (j : String) (b : Bool)
        → (t == meta.type_id) ≡ b
        → (p : Puts r meta r')
        → fields_of (if t == meta.type_id then some p.known else lookup t r.meta_data) j ≡ (
            if t == meta.type_id
            then either (field_of r t j) (lookup j meta.fields)
            else field_of r t j)
    field t j true h p = rw h (
        p.fields j
        ∙ ap (λ n. either (field_of r n j) (lookup j meta.fields))
            (sym ((==_iff t meta.type_id).0 h)))
    field t j false h p = rw h refl
