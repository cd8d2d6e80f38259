-- ===== src/Object/Lookup.antt =====
-- The field with a name among the fields of a binary object, by its id, as `Field` of binary_object.go
-- looks it up.
use mcgv.Base.{
  ℕ, ◌+◌, ◌≤◌, ◌≡◌, refl, sym, ap, ◌∙◌, arith, inl, inr, true, false, List, [], ◌∷◌, ◌++◌, map,
}
use mcgv.Base.{append_assoc, some, ◌==◌, length, length-append, Bool-cases, ==_iff, String}
use mcgv.Base.{
  lookup, is_listed, string_keys, same_string, same_string_iff, number_keys, some-injective,
}
use mcgv.Schema.Footer.{UpTo}
use mcgv.Object.{Marshaller, Laws}
use mcgv.Object.Writer.{BoField}
use mcgv.Object.Layout.{AreDistinct}
use mcgv.Object.Offsets.{Fields, values_bytes, offsets}

-- A key that has a value is listed.
lookup-is_listed :
    (id v : ℕ) (ds : List (ℕ × ℕ)) → lookup id ds ≡ some v → is_listed id (map (λ d. d.0) ds) ≡ true
lookup-is_listed id v [] h = cc h
lookup-is_listed id v ((i, o) ∷ ds) h = elim (Bool-cases (id == i)) [
  | inl same ↦ rw same refl
  | inr other ↦ rw other (lookup-is_listed id v ds (rw other at h))
]

pub lookup-UpTo :
    (last id v : ℕ) (ds : List (ℕ × ℕ)) → UpTo last ds → lookup id ds ≡ some v → v ≤ last
lookup-UpTo last id v [] up h = cc h
lookup-UpTo last id v ((i, o) ∷ ds) up h = elim (Bool-cases (id == i)) [
  | inl same ↦ let e : o ≡ v = some-injective (rw same at h) in omega (arith, up.0)
  | inr other ↦ lookup-UpTo last id v ds up.1 (rw other at h)
]

module _ (m : Marshaller) (laws : Laws m) (type_id : ℕ) where
  open m use {field_id_of}
  open laws use {encode, Fits}

  -- Where the value of a field stands among those of all fields, that start at `at`.
  pub record Stands (at : ℕ) (fs : Fields m laws type_id) (name : String) (f : BoField m)
      : Type 0 where
    pub offset : ℕ
    pub found : lookup (field_id_of type_id name) (offsets m laws type_id at fs) ≡ some offset
    pub front : List ℕ
    pub back : List ℕ
    pub split : values_bytes m laws type_id fs ≡ front ++ (encode f.value ++ back)
    pub moved : offset ≡ at + length front

  pub lookup-Stands :
      (at : ℕ) (fs : Fields m laws type_id) (name : String) (f : BoField m)
      → AreDistinct (offsets m laws type_id at fs)
      → lookup name fs ≡ some f
      → Stands at fs name f
  lookup-Stands at [] name f d h = cc h
  lookup-Stands at ((n, g) ∷ fs) name f d h =
      let id = field_id_of type_id name in
      let rest = offsets m laws type_id (at + length (encode g.value)) fs in
      elim (Bool-cases (same_string name n)) [
        | inl same ↦
            let value : g ≡ f = some-injective (rw same at h) in
            let id_same : (id == field_id_of type_id n) ≡ true =
              (==_iff id (field_id_of type_id n)).1
                (ap (field_id_of type_id) ((same_string_iff name n).0 same)) in
            record {
              offset = at;
              found = rw id_same refl;
              front = [];
              back = values_bytes m laws type_id fs;
              split = ap (λ k. encode k.value ++ values_bytes m laws type_id fs) value;
              moved = omega arith;
            }
        | inr other ↦
            let s = lookup-Stands (at + length (encode g.value)) fs name f d.2 (rw other at h) in
            let listed = lookup-is_listed id s.offset rest s.found in
            let id_other : (id == field_id_of type_id n) ≡ false =
              elim (Bool-cases (id == field_id_of type_id n)) [
                | inr e ↦ e
                | inl e ↦ cc (
                    sym (
                      ap (λ k. is_listed k (map (λ p. p.0) rest))
                        ((==_iff id (field_id_of type_id n)).0 e)
                      ∙ d.0)
                    ∙ listed)
              ] in
            record {
              offset = s.offset;
              found = rw id_other s.found;
              front = encode g.value ++ s.front;
              back = s.back;
              split =
                  ap (λ l. encode g.value ++ l) s.split
                  ∙ sym (append_assoc (encode g.value) s.front (encode f.value ++ s.back));
              moved = omega (arith, s.moved, length-append (encode g.value) s.front);
            }
      ]
