-- ===== src/Metadata/Wire/Sequences.antt =====
-- Sequences of entries and maps of buffer.go, written and read.
use mcgv.Base.{ℕ, ◌≡◌, refl, ap, ◌∙◌, arith, inl, inr, Bool, true, false}
use mcgv.Base.{
  List, [], ◌∷◌, ◌++◌, map, Option, none, some, length, All, length-append, Bool-cases,
  if◌then◌else◌,
}
use mcgv.Base.{String, Map, lookup, put, lookup-put, is_listed, Comparable}
use mcgv.Base.Bytes.{le_bytes, length-le_bytes}
use mcgv.Stream.Out.{Write}
use mcgv.Stream.Out.Writes.{
  Emits, ◌⊳◌, skip_Emits, write_uint32-Emits, write_type-Emits, write_bytes-Emits,
}
use mcgv.Stream.In.{Read}
use mcgv.Stream.In.Reads.{Reads, bind_Reads, map_Reads, return-Reads, room_Reads}
use mcgv.Marshal.Types.{code, string_type, null_type, strings}
use mcgv.Marshal.Writer.{int32_of, marshal_string, write_null, write_counted}
use mcgv.Marshal.Encoding.{counted}
use mcgv.Marshal.Reader.{unmarshal_string}
use mcgv.Marshal.Canon.{IsLength}
use mcgv.Marshal.Scalars.{length_Reads, byte_array_Reads, present_Reads, missing_Reads}
use mcgv.Metadata.Wire.{
  write_all, write_sequence, read_all, read_slice_of, read_pairs, put_all,
  marshal_empty_string_as_null,
}

module _ {ℓ} {A : Type ℓ} where
  -- The bytes of each element in turn, and the number of elements before them.
  abbrev pub all_bytes : (A → List ℕ) → List A → List ℕ
  all_bytes bytes [] = []
  all_bytes bytes (v ∷ vs) = bytes v ++ all_bytes bytes vs

  abbrev pub sequence_bytes : (A → List ℕ) → List A → List ℕ
  sequence_bytes bytes vs = le_bytes 4 (int32_of (length vs)) ++ all_bytes bytes vs

  write_all-Emits :
      (w : A → Write) (bytes : A → List ℕ) (vs : List A)
      → ((v : A) → Emits (w v) (bytes v))
      → Emits (write_all w vs) (all_bytes bytes vs)
  unfolding write_all
  write_all-Emits w bytes [] h = skip_Emits
  write_all-Emits w bytes (v ∷ vs) h = h v ⊳ write_all-Emits w bytes vs h

  pub write_sequence-Emits :
      (w : A → Write) (bytes : A → List ℕ) (vs : List A)
      → ((v : A) → Emits (w v) (bytes v))
      → Emits (write_sequence w vs) (sequence_bytes bytes vs)
  unfolding write_sequence
  write_sequence-Emits w bytes vs h =
      write_uint32-Emits (int32_of (length vs)) ⊳ write_all-Emits w bytes vs h

pub each_Emits {ℓ} :
    {A : Type ℓ} (w : A → Write) (bytes : A → List ℕ) (vs : List A)
    → All (λ v. Emits (w v) (bytes v)) vs
    → Emits (write_all w vs) (all_bytes bytes vs)
unfolding write_all
each_Emits w bytes [] h = skip_Emits
each_Emits w bytes (v ∷ vs) h = h.0 ⊳ each_Emits w bytes vs h.1

-- A sequence of elements each of which is written as its bytes.
pub sequence_Emits {ℓ} :
    {A : Type ℓ} (w : A → Write) (bytes : A → List ℕ) (vs : List A)
    → All (λ v. Emits (w v) (bytes v)) vs
    → Emits (write_sequence w vs) (sequence_bytes bytes vs)
unfolding write_sequence
sequence_Emits w bytes vs h = write_uint32-Emits (int32_of (length vs)) ⊳ each_Emits w bytes vs h

module _ {ℓ κ} {A : Type ℓ} {B : Type κ} where
  read_all-Reads :
      (r : Read B) (bytes : A → List ℕ) (f : A → B) (vs : List A)
      → All (λ v. Reads r (bytes v) (f v)) vs
      → Reads (read_all r (length vs)) (all_bytes bytes vs) (map f vs)
  unfolding read_all
  read_all-Reads r bytes f [] h = return-Reads []
  read_all-Reads r bytes f (v ∷ vs) h =
      bind_Reads _ h.0 (map_Reads _ (λ us. f v ∷ us) _ _ (read_all-Reads r bytes f vs h.1))

  pub read_pairs-Reads :
      (r : Read B) (bytes : A → List ℕ) (f : A → B) (vs : List A)
      → IsLength (length vs)
      → All (λ v. Reads r (bytes v) (f v)) vs
      → Reads (read_pairs r) (sequence_bytes bytes vs) (map f vs)
  unfolding read_pairs
  read_pairs-Reads r bytes f vs small h =
      bind_Reads _ (length_Reads (length vs) small) (read_all-Reads r bytes f vs h)

  pub read_slice_of-Reads :
      (r : Read B) (bytes : A → List ℕ) (f : A → B) (vs : List A)
      → IsLength (length vs)
      → All (λ v. Reads r (bytes v) (f v)) vs
      → Reads (read_slice_of r) (sequence_bytes bytes vs) (map f vs)
  unfolding read_slice_of
  read_slice_of-Reads r bytes f vs small h =
      room_Reads 4 _ _ _
        (omega (
          arith,
          length-append (le_bytes 4 (int32_of (length vs))) (all_bytes bytes vs),
          length-le_bytes 4 (int32_of (length vs)),
        ))
        (bind_Reads _ (length_Reads (length vs) small) (read_all-Reads r bytes f vs h))

-- A string with its descriptor, and null for the empty one.
abbrev pub string_bytes : String → List ℕ
string_bytes s = code string_type ∷ counted s

abbrev pub nullable_bytes : String → List ℕ
nullable_bytes [] = code null_type ∷ []
nullable_bytes (c ∷ cs) = string_bytes (c ∷ cs)

pub marshal_string-Emits : (s : String) → Emits (marshal_string s) (string_bytes s)
unfolding marshal_string write_counted
marshal_string-Emits s =
    write_type-Emits (code string_type)
    ⊳ write_uint32-Emits (int32_of (length s))
    ⊳ write_bytes-Emits s

pub nullable_Emits : (s : String) → Emits (marshal_empty_string_as_null s) (nullable_bytes s)
unfolding marshal_empty_string_as_null write_null
nullable_Emits [] = write_type-Emits (code null_type)
nullable_Emits (c ∷ cs) = marshal_string-Emits (c ∷ cs)

pub string_Reads : (s : String) → IsLength (length s) → Reads unmarshal_string (string_bytes s) s
unfolding unmarshal_string
string_Reads s h = bind_Reads _ (present_Reads strings) (byte_array_Reads s h)

pub nullable_Reads :
    (s : String) → IsLength (length s) → Reads unmarshal_string (nullable_bytes s) s
unfolding unmarshal_string
nullable_Reads [] h = bind_Reads _ (missing_Reads string_type) (return-Reads [])
nullable_Reads (c ∷ cs) h = string_Reads (c ∷ cs) h

-- The first value of two.
abbrev pub first_of {ℓ} : {V : Type ℓ} → Option V → Option V → Option V
first_of none o = o
first_of (some v) o = some v

pub or_none {ℓ} : {V : Type ℓ} (o : Option V) → first_of o none ≡ o
or_none none = refl
or_none (some v) = refl

module _ {ℓ κ} {K : Type ℓ} {V : Type κ} ⦃c : Comparable K⦄ where
  -- The keys are all different.
  abbrev pub HasKeys : Map K V → Type 0
  HasKeys [] = Unit
  HasKeys ((k, v) ∷ m) = (is_listed k (map (λ p. p.0) m) ≡ false) × HasKeys m

  pub unlisted : (k : K) (m : Map K V) → is_listed k (map (λ p. p.0) m) ≡ false → lookup k m ≡ none
  unlisted k [] h = refl
  unlisted k ((j, v) ∷ m) h = elim (Bool-cases (c.same k j)) [
    | inl same ↦ cc (rw same at h)
    | inr other ↦ rw other (unlisted k m (rw other at h))
  ]

  lookup-put_all :
      (k : K) (m acc : Map K V)
      → HasKeys m
      → lookup k (put_all m acc) ≡ first_of (lookup k m) (lookup k acc)
  unfolding put_all
  lookup-put_all k [] acc h = refl
  lookup-put_all k ((j, v) ∷ m) acc h =
      lookup-put_all k m (put j v acc) h.1
      ∙ ap (first_of (lookup k m)) (lookup-put k j v acc)
      ∙ choose (c.same k j) refl
    where
      choose :
          (b : Bool)
          → c.same k j ≡ b
          → first_of (lookup k m) (if b then some v else lookup k acc)
            ≡ first_of (if b then some v else lookup k m) (lookup k acc)
      choose true e =
          rw (unlisted k m (ap (λ i. is_listed i (map (λ p. p.0) m)) ((c.same_iff k j).0 e) ∙ h.0))
            refl
      choose false e = refl

  -- A map that is put into a new one.
  pub lookup-new : (k : K) (m : Map K V) → HasKeys m → lookup k (put_all m []) ≡ lookup k m
  lookup-new k m h = lookup-put_all k m [] h ∙ or_none (lookup k m)
