-- ===== src/Stream/Out/Slices.antt =====
-- The slice writers of buffer.go, fast path and loop.
use mcgv.Base.{ℕ, ◌+◌, ◌*◌, ◌≤◌, ◌≡◌, refl, sym, ap, ◌∙◌, ◌%◌, ◌/◌}
use mcgv.Base.{List, [], ◌∷◌, ◌++◌, arith, length, panic, ok, ◌>>=◌, length-append}
use mcgv.Base.Bytes.{le_bytes, length-le_bytes}
use mcgv.Stream.Types.{
  Elem, bools, int8s, uint16s, int16s, uint32s, int32s, uints, ints, uint64s, int64s, float32s,
  float64s, elem_bytes, Host, little, big, memory, memory_image,
}
use mcgv.Stream.Out.{
  Out, ensure_available, put, write_primitive_slice_fast, write_each, write_slice,
}
use mcgv.Stream.Out.Writes.{Emits, IsValid, put-Emits, skip_Emits, then_Emits}
use mcgv.Stream.Out.{contents, max_int32}
use mathlib.Core.Path.{subst}

-- The wire format of a primitive slice.
abbrev pub slice_bytes : ℕ → List ℕ → List ℕ
slice_bytes n [] = []
slice_bytes n (v ∷ vs) = le_bytes n v ++ slice_bytes n vs

pub length-slice_bytes : (n : ℕ) (vs : List ℕ) → length (slice_bytes n vs) ≡ length vs * n
length-slice_bytes n [] = omega arith
length-slice_bytes n (v ∷ vs) = omega (
  arith,
  length-append (le_bytes n v) (slice_bytes n vs),
  length-le_bytes n v,
  length-slice_bytes n vs,
)

memory_little : (n : ℕ) (vs : List ℕ) → memory_image little n vs ≡ slice_bytes n vs
unfolding memory
memory_little n [] = refl
memory_little n (v ∷ vs) = ap (λ l. le_bytes n v ++ l) (memory_little n vs)

-- The fast path on a little-endian machine writes what the loop writes.
pub fast_Emits :
    (n v : ℕ) (vs : List ℕ)
    → Emits (write_primitive_slice_fast little n (v ∷ vs)) (slice_bytes n (v ∷ vs))
unfolding write_primitive_slice_fast
fast_Emits n v vs =
    let image = memory_little n (v ∷ vs) in
    subst (λ b. Emits (write_primitive_slice_fast little n (v ∷ vs)) b) image
      (put-Emits (memory_image little n (v ∷ vs)) (length (v ∷ vs) * n)
        (rw image (length-slice_bytes n (v ∷ vs))))

pub each_Emits : (n : ℕ) (vs : List ℕ) → Emits (write_each n vs) (slice_bytes n vs)
unfolding write_each
each_Emits n [] = skip_Emits
each_Emits n (v ∷ vs) =
    then_Emits (λ s. ensure_available n s >>= λ s'. ok (put (le_bytes n v) s')) (write_each n vs)
      (le_bytes n v) (slice_bytes n vs) (put-Emits (le_bytes n v) n (length-le_bytes n v))
      (each_Emits n vs)

-- On a little-endian machine, the writer of a slice that is not empty appends its elements in
-- little-endian order, or panics if they do not fit.
pub write_slice-Emits :
    (el : Elem) (v : ℕ) (vs : List ℕ)
    → Emits (write_slice little el (v ∷ vs)) (slice_bytes (elem_bytes el) (v ∷ vs))
unfolding write_slice
write_slice-Emits bools v vs = fast_Emits 1 v vs
write_slice-Emits int8s v vs = fast_Emits 1 v vs
write_slice-Emits uint16s v vs = fast_Emits 2 v vs
write_slice-Emits int16s v vs = fast_Emits 2 v vs
write_slice-Emits uint32s v vs = fast_Emits 4 v vs
write_slice-Emits int32s v vs = fast_Emits 4 v vs
write_slice-Emits float32s v vs = fast_Emits 4 v vs
write_slice-Emits uints v vs = fast_Emits 8 v vs
write_slice-Emits ints v vs = fast_Emits 8 v vs
write_slice-Emits uint64s v vs = fast_Emits 8 v vs
write_slice-Emits int64s v vs = fast_Emits 8 v vs
write_slice-Emits float64s v vs = fast_Emits 8 v vs

-- Every slice writer panics on a slice without elements.
pub write_slice_empty : (host : Host) (el : Elem) (s : Out) → write_slice host el [] s ≡ panic
unfolding write_slice write_primitive_slice_fast
write_slice_empty host bools s = refl
write_slice_empty host int8s s = refl
write_slice_empty host _ s = refl

-- Two-byte elements with the high byte first.
abbrev pub high_first : List ℕ → List ℕ
high_first [] = []
high_first (v ∷ vs) = (v / 256 % 256) ∷ (v % 256) ∷ high_first vs

big_image : (vs : List ℕ) → memory_image big 2 vs ≡ high_first vs
unfolding memory le_bytes
big_image [] = refl
big_image (v ∷ vs) = ap (λ l. (v / 256 % 256) ∷ (v % 256) ∷ l) (big_image vs)

length-high_first : (vs : List ℕ) → length (high_first vs) ≡ length vs * 2
length-high_first [] = omega arith
length-high_first (v ∷ vs) = omega (arith, length-high_first vs)

-- On a big-endian machine, `WriteUInt16Slice` of a slice that is not empty appends each element
-- with its high byte first, as `getNativeEndian` is true there too, or panics if they do not fit.
pub write_slice_big_endian :
    (v : ℕ) (vs : List ℕ) → Emits (write_slice big uint16s (v ∷ vs)) (high_first (v ∷ vs))
unfolding write_slice write_primitive_slice_fast
write_slice_big_endian v vs =
    let image = big_image (v ∷ vs) in
    subst (λ b. Emits (write_slice big uint16s (v ∷ vs)) b) image
      (put-Emits (memory_image big 2 (v ∷ vs)) (length (v ∷ vs) * 2)
        (rw image (length-high_first (v ∷ vs))))

-- On a little-endian machine, the fast path and the loop write a slice that is not empty and fits
-- without a panic, and leave the same contents and position.
pub fast-each :
    (n v : ℕ) (vs : List ℕ) (s : Out)
    → IsValid s
    → s.position + length (slice_bytes n (v ∷ vs)) ≤ max_int32
    → (t : Out) × (u : Out) × (write_primitive_slice_fast little n (v ∷ vs) s ≡ ok t)
      × (write_each n (v ∷ vs) s ≡ ok u)
      × (contents t ≡ contents u)
      × (t.position ≡ u.position)
fast-each n v vs s h room =
    let (t, e, a) = (fast_Emits n v vs).fits s h room in
    let (u, e', b) = (each_Emits n (v ∷ vs)).fits s h room in
    (t, u, e, e', a.grown ∙ sym b.grown, a.moved ∙ sym b.moved)
