-- ===== src/Object/Ends.antt =====
-- The loop of `Field` of binary_object.go over a footer ends, whatever the bytes are.
use mcgv.Base.{
  ◌⊎◌, inl, inr, ℕ, zero, suc, ◌+◌, ◌*◌, ◌≤◌, ◌<◌, ◌≡◌, refl, arith, Bool, true, false, not, List,
  Option, none, some,
}
use mcgv.Base.{
  Result, ok, err, panic, stuck, ◌>>=◌, ◌==◌, ltb, leb, ◌&&◌, if◌then◌else◌, length, ltb→lt,
}
use mcgv.Base.Bytes.{of_le}
use mcgv.Schema.{BinarySchema}
use mcgv.Object.{Marshaller}
use mcgv.Object.Reader.{
  FieldError, BinaryObject, sub_slice, has_flag, place_in_schema, flags_of, schema_id_of,
  last_index, find_entry, find_field,
}

-- A value, an error or a panic, but not the end of the fuel.
abbrev pub Ends {ℓ} : {A : Type ℓ} → Result FieldError A → Type 0
Ends (ok a) = Unit
Ends (err e) = Unit
Ends panic = Unit
Ends stuck = ⊥

if-Ends {ℓ} :
    {A : Type ℓ} (b : Bool) (x y : Result FieldError A)
    → (b ≡ true → Ends x)
    → (b ≡ false → Ends y)
    → Ends (if b then x else y)
if-Ends true x y h k = h refl
if-Ends false x y h k = k refl

bind-Ends {ℓ κ} :
    {A : Type ℓ} {B : Type κ} (r : Result FieldError A) (f : A → Result FieldError B)
    → Ends r
    → ((a : A) → Ends (f a))
    → Ends (r >>= f)
bind-Ends (ok a) f h k = k a
bind-Ends (err e) f h k = tt
bind-Ends panic f h k = tt
bind-Ends stuck f h k = absurd h

sub_slice-Ends : (l : List ℕ) (low high : ℕ) → Ends (sub_slice l low high)
sub_slice-Ends l low high = if-Ends (leb low high && leb high (length l)) _ _ (λ e. tt) (λ e. tt)

undo_not : (b : Bool) → not b ≡ false → b ≡ true
undo_not true h = refl
undo_not false h = cc h

find_entry-Ends :
    (fuel len : ℕ) (footer : List ℕ) (size id pos : ℕ)
    → 1 ≤ fuel
    → len < pos + fuel
    → Ends (find_entry fuel len footer size id pos)
unfolding find_entry
find_entry-Ends zero len footer size id pos some_fuel h = absurd (omega arith)
find_entry-Ends (suc fuel) len footer size id pos some_fuel h =
    if-Ends (not (ltb pos len)) _ _ (λ e. tt)
      (λ e.
        let inside : pos < len = ltb→lt _ _ (undo_not (ltb pos len) e) in
        bind-Ends (sub_slice footer pos (pos + 4)) _ (sub_slice-Ends footer pos (pos + 4)) (λ w.
          if-Ends (of_le w == id) _ _ (λ k. tt)
            (λ k.
              find_entry-Ends fuel len footer size id (pos + 4 + size) (omega arith)
                (omega arith))))

schema_Ends :
    (field_id size : ℕ) (o : FieldError ⊎ Option BinarySchema)
    → Ends (place_in_schema field_id size o)
schema_Ends field_id size (inl e) = tt
schema_Ends field_id size (inr none) = tt
schema_Ends field_id size (inr (some schema)) =
    at_index (last_index field_id schema.field_ids 0 none)
  where
    at_index : (o : Option ℕ) → Ends (elim o [ none ↦ ok none | some idx ↦ ok (some (idx * size)) ])
    at_index none = tt
    at_index (some idx) = tt

-- The search of `Field` for the offset of a field ends for every object, footer, length of it and size,
-- also if their bytes are corrupted, and whatever `getSchema` finds: it gives a place or none, an error, or a panic.
pub find_field-Ends :
    (m : Marshaller) (schemas : ℕ → ℕ → FieldError ⊎ Option BinarySchema) (b : BinaryObject)
    (type_id field_id : ℕ) (footer : List ℕ) (len size : ℕ)
    → Ends (find_field m schemas b type_id field_id footer len size)
unfolding find_field
find_field-Ends m schemas b type_id field_id footer len size =
    if-Ends (has_flag (flags_of b) 32) _ _
      (λ e. schema_Ends field_id size (schemas type_id (schema_id_of b)))
      (λ e. find_entry-Ends (suc len) len footer size field_id 0 (omega arith) (omega arith))
