-- ===== src/Object/Offsets.antt =====
-- The fields of a binary object in their order: their bytes, and where each starts.
use mcgv.Base.{ℕ, ◌+◌, ◌≤◌, arith, List, [], ◌∷◌, ◌++◌}
use mcgv.Base.{length, length-append, String}
use mcgv.Schema.{last_offset}
use mcgv.Schema.Footer.{UpTo}
use mcgv.Object.{Marshaller, Laws}
use mcgv.Object.Writer.{BoField}

module _ (m : Marshaller) (laws : Laws m) (type_id : ℕ) where
  open m use {field_id_of}
  open laws use {encode}

  abbrev pub Fields : Type 0
  Fields = List (String × BoField m)

  abbrev pub values_bytes : Fields → List ℕ
  values_bytes [] = []
  values_bytes ((name, f) ∷ fs) = encode f.value ++ values_bytes fs

  -- The id of each field with its offset, from `at` on.
  abbrev pub offsets : ℕ → Fields → List (ℕ × ℕ)
  offsets at [] = []
  offsets at ((name, f) ∷ fs) =
      (field_id_of type_id name, at) ∷ offsets (at + length (encode f.value)) fs

  pub offsets-above :
      (at : ℕ) (f : String × BoField m) (fs : Fields) → at ≤ last_offset (offsets at (f ∷ fs))
  offsets-above at (n, f) [] = omega arith
  offsets-above at (n, f) (g ∷ fs) =
      omega (arith, offsets-above (at + length (encode f.value)) g fs)

  pub offsets-below :
      (at : ℕ) (f : String × BoField m) (fs : Fields)
      → last_offset (offsets at (f ∷ fs)) ≤ at + length (values_bytes (f ∷ fs))
  offsets-below at (n, f) [] = omega arith
  offsets-below at (n, f) (g ∷ fs) = omega (
    arith,
    offsets-below (at + length (encode f.value)) g fs,
    length-append (encode f.value) (values_bytes (g ∷ fs)),
  )

  pub offsets-UpTo :
      (at : ℕ) (f : String × BoField m) (fs : Fields)
      → UpTo (last_offset (offsets at (f ∷ fs))) (offsets at (f ∷ fs))
  offsets-UpTo at (n, f) [] = (omega arith, tt)
  offsets-UpTo at (n, f) (g ∷ fs) =
      (offsets-above at (n, f) (g ∷ fs), offsets-UpTo (at + length (encode f.value)) g fs)
