-- ===== src/Metadata/Merge/Fields.antt =====
-- The loops of `mergeMetadata` of binary_schema.go over the fields of two versions of one type.
use mcgv.Base.{◌≡◌, refl, sym, ap, ◌∙◌, inl, inr, Bool, true, false, not, ◌||◌, List, [], ◌∷◌, ◌++◌}
use mcgv.Base.{
  Option, none, some, Result, ok, err, panic, stuck, ◌==◌, if◌then◌else◌, Bool-cases, Option-cases,
}
use mcgv.Base.{
  String, Map, lookup, put, same_string, same_string_iff, string_keys, number_keys, is_listed,
  has_value, lookup-put, is_listed-append,
}
use mcgv.Metadata.{
  BinaryFieldMeta, BinaryMetadata, MetadataError, MergedFields, field_or_zero, copy_fields,
  merge_fields, field_types_differ,
}

-- The order of the fields lists just those that the map has.
pub record IsOrdered (meta : BinaryMetadata) : Type 0 where
  pub listed : (j : String) → is_listed j meta.fields_order ≡ has_value (lookup j meta.fields)

-- The fields of `old`, and those of `order` that it has not.
abbrev pub union_value :
    Option BinaryFieldMeta
    → Bool
    → BinaryFieldMeta
    → Option BinaryFieldMeta
    → Option BinaryFieldMeta
union_value (some f) new field other = other
union_value none new field other = if new then some field else other

pub lookup-copy_fields :
    (order : List String) (fields acc : Map String BinaryFieldMeta) (j : String)
    → lookup j (copy_fields order fields acc)
      ≡ (if is_listed j order then some (field_or_zero (lookup j fields)) else lookup j acc)
unfolding copy_fields
lookup-copy_fields [] fields acc j = refl
lookup-copy_fields (n ∷ order) fields acc j =
    lookup-copy_fields order fields (put n (field_or_zero (lookup n fields)) acc) j
    ∙ rw (lookup-put j n (field_or_zero (lookup n fields)) acc)
        (choose (is_listed j order) (same_string j n) refl)
  where
    choose :
        (a b : Bool)
        → same_string j n ≡ b
        → (if a
            then some (field_or_zero (lookup j fields))
            else (if b then some (field_or_zero (lookup n fields)) else lookup j acc))
          ≡ (if b || a then some (field_or_zero (lookup j fields)) else lookup j acc)
    choose true true e = refl
    choose true false e = refl
    choose false true e =
        ap (λ k. some (field_or_zero (lookup k fields))) (sym ((same_string_iff j n).0 e))
    choose false false e = refl

-- What the loop over the new fields does.
pub record Extended (order : List String) (fields old : Map String BinaryFieldMeta)
    (before after : MergedFields) : Type 0 where
  pub values :
      (j : String)
      → lookup j after.fields
        ≡ union_value
            (lookup j old)
            (is_listed j order)
            (field_or_zero (lookup j fields))
            (lookup j before.fields)
  pub ordered :
      (j : String)
      → is_listed j after.order ≡ (
          is_listed j before.order
          || (if has_value (lookup j old) then false else is_listed j order))
  pub grown : before.changed ≡ true → after.changed ≡ true
  pub nothing_new :
      after.changed ≡ false
      → (j : String) → is_listed j order ≡ true
      → has_value (lookup j old) ≡ true

union_none :
    (o : Option BinaryFieldMeta) (f : BinaryFieldMeta) (x : Option BinaryFieldMeta)
    → union_value o false f x ≡ x
union_none none f x = refl
union_none (some g) f x = refl

or_false : (a b : Bool) → (a || (if b then false else false)) ≡ a
or_false true b = refl
or_false false true = refl
or_false false false = refl

result_or {ℓ} : {A : Type ℓ} → A → Result MetadataError A → A
result_or d (ok a) = a
result_or d (err e) = d
result_or d panic = d
result_or d stuck = d

abbrev pub SameResult {ℓ} : {A : Type ℓ} → Result MetadataError A → Result MetadataError A → Type ℓ
SameResult r s = r ≡ s

pub ok_injective {ℓ} : {A : Type ℓ} (a b : A) → SameResult (ok a) (ok b) → a ≡ b
unfolding result_or
ok_injective a b e = ap (result_or a) e

-- Of two names of which one only has a value in `old`, one is not the other.
names_differ :
    (j n : String) (old : Map String BinaryFieldMeta) (b : Bool)
    → has_value (lookup n old) ≡ b
    → has_value (lookup j old) ≡ not b
    → same_string j n ≡ false
names_differ j n old b h k = elim (Bool-cases (same_string j n)) [
  | inl e ↦
      let e' : j ≡ n = (same_string_iff j n).0 e in
      absurd (not_both b (sym h ∙ ap (λ i. has_value (lookup i old)) (sym e') ∙ k))
  | inr e ↦ e
]
  where
    not_both : (c : Bool) → c ≡ not c → ⊥
    not_both true q = cc q
    not_both false q = cc q

-- A field that the old metadata has is passed over.
skip_field :
    (n : String) (order : List String) (fields old : Map String BinaryFieldMeta)
    (before after : MergedFields)
    → has_value (lookup n old) ≡ true
    → Extended order fields old before after
    → Extended (n ∷ order) fields old before after
skip_field n order fields old before after known x = record {
  values = λ j. x.values j ∙ value j (lookup j old) refl;
  ordered = λ j. x.ordered j ∙ listed j (lookup j old) refl;
  grown = x.grown;
  nothing_new = λ same j h. here j same (same_string j n) refl h;
}
  where
    value :
        (j : String) (o : Option BinaryFieldMeta)
        → lookup j old ≡ o
        → union_value o
            (is_listed j order)
            (field_or_zero (lookup j fields))
            (lookup j before.fields)
          ≡ union_value o
              (same_string j n || is_listed j order)
              (field_or_zero (lookup j fields))
              (lookup j before.fields)
    value j (some f) e = refl
    value j none e = rw (names_differ j n old true known (ap has_value e)) refl

    listed :
        (j : String) (o : Option BinaryFieldMeta)
        → lookup j old ≡ o
        → (is_listed j before.order || (if has_value o then false else is_listed j order)) ≡ (
            is_listed j before.order
            || (if has_value o then false else (same_string j n || is_listed j order)))
    listed j (some f) e = refl
    listed j none e = rw (names_differ j n old true known (ap has_value e)) refl

    here :
        (j : String)
        → after.changed ≡ false
        → (b : Bool) → same_string j n ≡ b
        → (b || is_listed j order) ≡ true
        → has_value (lookup j old) ≡ true
    here j same true e h = ap (λ i. has_value (lookup i old)) ((same_string_iff j n).0 e) ∙ known
    here j same false e h = x.nothing_new same j h

-- A field that the old metadata has not is put at the end.
new_field :
    (n : String) (order : List String) (fields old : Map String BinaryFieldMeta)
    (before after : MergedFields)
    → lookup n old ≡ none
    → Extended order fields old
        (record {
          changed = true;
          fields = put n (field_or_zero (lookup n fields)) before.fields;
          order = before.order ++ (n ∷ []);
        })
        after
    → Extended (n ∷ order) fields old before after
new_field n order fields old before after unknown x = record {
  values = λ j.
      x.values j
      ∙ rw (lookup-put j n (field_or_zero (lookup n fields)) before.fields)
          (value j (lookup j old) (same_string j n) (is_listed j order) refl refl);
  ordered = λ j.
      x.ordered j
      ∙ rw (is_listed-append j n before.order) (
          listed j (lookup j old) (same_string j n) (is_listed j before.order) (is_listed j order)
            refl refl);
  grown = λ h. x.grown refl;
  nothing_new = λ same. cc (x.grown refl, same);
}
  where
    value :
        (j : String) (o : Option BinaryFieldMeta) (b a : Bool)
        → lookup j old ≡ o
        → same_string j n ≡ b
        → union_value o a
            (field_or_zero (lookup j fields))
            (if b then some (field_or_zero (lookup n fields)) else lookup j before.fields)
          ≡ union_value o (b || a) (field_or_zero (lookup j fields)) (lookup j before.fields)
    value j (some f) true a e same =
        cc (names_differ j n old false (ap has_value unknown) (ap has_value e), same)
    value j (some f) false a e same = refl
    value j none true true e same = refl
    value j none true false e same =
        ap (λ k. some (field_or_zero (lookup k fields))) (sym ((same_string_iff j n).0 same))
    value j none false a e same = refl

    listed :
        (j : String) (o : Option BinaryFieldMeta) (b a c : Bool)
        → lookup j old ≡ o
        → same_string j n ≡ b
        → ((b || a) || (if has_value o then false else c))
          ≡ (a || (if has_value o then false else (b || c)))
    listed j (some f) true a c e same =
        cc (names_differ j n old false (ap has_value unknown) (ap has_value e), same)
    listed j (some f) false a c e same = refl
    listed j none true true c e same = refl
    listed j none true false c e same = refl
    listed j none false a c e same = refl

pub merge_fields-Extended :
    (order : List String) (fields old : Map String BinaryFieldMeta) (before after : MergedFields)
    → merge_fields order fields old before ≡ ok after
    → Extended order fields old before after
unfolding merge_fields
merge_fields-Extended [] fields old before after e =
    let same : before ≡ after = ok_injective before after e in
    record {
      values = λ j.
          ap (λ m. lookup j m.fields) (sym same)
          ∙ sym (
              union_none (lookup j old) (field_or_zero (lookup j fields)) (lookup j before.fields));
      ordered = λ j.
          ap (λ m. is_listed j m.order) (sym same)
          ∙ sym (or_false (is_listed j before.order) (has_value (lookup j old)));
      grown = λ h. ap (λ m. m.changed) (sym same) ∙ h;
      nothing_new = λ h j k. cc k;
    }
merge_fields-Extended (n ∷ order) fields old before after e = elim (Option-cases (lookup n old)) [
  | inl unknown ↦
      new_field n order fields old before after unknown
        (merge_fields-Extended order fields old _ after (rw (merge_fields, unknown) at e))
  | inr (f, known) ↦ elim (Bool-cases (f.type_id == (field_or_zero (lookup n fields)).type_id)) [
    | inl agree ↦ skip_field n order fields old before after (ap has_value known) (
        merge_fields-Extended order fields old before after
          (rw agree at (rw (merge_fields, known) at e)))
    | inr clash ↦ fails (rw clash at (rw (merge_fields, known) at e))
  ]
]
  where
    fails : err field_types_differ ≡ ok after → Extended (n ∷ order) fields old before after
    fails h = cc h
