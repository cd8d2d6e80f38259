-- ===== src/Marshal/Scalars.antt =====
-- Strings, UUIDs, times, dates and their arrays are read as they were written.
use mcgv.Base.{ℕ, zero, suc, ◌%◌, ◌^◌, ◌<◌, ◌≡◌, refl, sym, ap, ◌∙◌, true, false}
use mcgv.Base.{
  List, [], ◌∷◌, ◌++◌, Option, none, some, length, take, drop, All, arith, length-append,
  length-take, length-drop, All-take, All-drop, length-reverse, All-reverse,
}
use mcgv.Base.Bytes.{IsByte, le_bytes, of_le, le_bytes-of_le, of_le-lt, length-le_bytes}
use mcgv.Base.Int.{pos}
use mcgv.Stream.In.{read_size}
use mcgv.Stream.In.Reads.{
  Reads, bind_Reads, map_Reads, return-Reads, room_Reads, uint8_Reads, uint64_Reads, size_Reads,
  bytes_Reads,
}
use mathlib.Core.Path.{subst}
use mathlib.Core.List.{reverse, reverse-reverse}
use mcgv.Marshal.Types.{TypeDesc, null_type, code}
use mcgv.Marshal.Types.{
  Scalar, string, uuid, time, date, ScalarType, strings, uuids, times, dates, element_type,
  scalar_type,
}
use mcgv.Marshal.Types.{typed_array}
use mcgv.Marshal.Writer.{int32_of, of_big_endian}
use mcgv.Marshal.Encoding.{counted, encode_scalar, encode_elements}
use mcgv.Marshal.Reader.{
  check_not_null, read_byte_array, big_endian, read_uuid, read_scalar, read_element, read_elements,
  read_typed_array,
}
use mcgv.Marshal.Canon.{IsLength, ScalarInRange, ElementsInRange}

-- The length of a slice is read as the number that was written.
pub length_Reads : (n : ℕ) → IsLength n → Reads read_size (le_bytes 4 (int32_of n)) (pos n)
length_Reads n h = let whole : n % 2 ^ 32 ≡ n = omega arith in rw whole (size_Reads n h)

pub byte_array_Reads : (v : List ℕ) → IsLength (length v) → Reads read_byte_array (counted v) v
unfolding read_byte_array
byte_array_Reads v h =
    room_Reads 4 _ (counted v) v
      (omega (
        arith,
        length-append (le_bytes 4 (int32_of (length v))) v,
        length-le_bytes 4 (int32_of (length v)),
      ))
      (bind_Reads _ (length_Reads (length v) h)
        (room_Reads (length v) _ v v (omega arith) (bytes_Reads v)))

-- A descriptor that is expected, or null in its place.
pub present_Reads :
    (t : ScalarType) → Reads (check_not_null (element_type t)) (code (element_type t) ∷ []) true
unfolding check_not_null
present_Reads strings =
    room_Reads 1 _ _ true (omega arith)
      (bind_Reads _ (uint8_Reads 9 (omega arith)) (return-Reads true))
present_Reads uuids =
    room_Reads 1 _ _ true (omega arith)
      (bind_Reads _ (uint8_Reads 10 (omega arith)) (return-Reads true))
present_Reads times =
    room_Reads 1 _ _ true (omega arith)
      (bind_Reads _ (uint8_Reads 36 (omega arith)) (return-Reads true))
present_Reads dates =
    room_Reads 1 _ _ true (omega arith)
      (bind_Reads _ (uint8_Reads 11 (omega arith)) (return-Reads true))

pub missing_Reads : (t : TypeDesc) → Reads (check_not_null t) (code null_type ∷ []) false
unfolding check_not_null
missing_Reads t =
    room_Reads 1 _ _ false (omega arith)
      (bind_Reads _ (uint8_Reads 101 (omega arith)) (return-Reads false))

-- Eight bytes, from big-endian to little-endian and back.
big_endian_lem : (v : List ℕ) → length v ≡ 8 → All IsByte v → big_endian (of_big_endian v) ≡ v
big_endian_lem v e h =
    let count : length (reverse v) ≡ 8 = length-reverse v ∙ e in
    let back = le_bytes-of_le (reverse v) (All-reverse IsByte v h) in
    ap reverse (ap (λ (n : ℕ). le_bytes n (of_le (reverse v))) (sym count) ∙ back)
    ∙ reverse-reverse v

half_bound : (v : List ℕ) → length v ≡ 8 → All IsByte v → of_big_endian v < 2 ^ 64
half_bound v e h =
    let count : length (reverse v) ≡ 8 = length-reverse v ∙ e in
    subst (λ (n : ℕ). of_le (reverse v) < 256 ^ n) count
      (of_le-lt (reverse v) (All-reverse IsByte v h))

take_all : (n : ℕ) (v : List ℕ) → length v ≡ n → take n v ≡ v
take_all zero [] e = refl
take_all zero (x ∷ v) e = absurd (omega arith)
take_all (suc n) [] e = refl
take_all (suc n) (x ∷ v) e = ap (λ l. x ∷ l) (take_all n v (omega arith))

take-append-drop : (n : ℕ) (v : List ℕ) → take n v ++ drop n v ≡ v
take-append-drop zero v = refl
take-append-drop (suc n) [] = refl
take-append-drop (suc n) (x ∷ v) = ap (λ l. x ∷ l) (take-append-drop n v)

halves_lem : (v : List ℕ) → length v ≡ 16 → take 8 v ++ take 8 (drop 8 v) ≡ v
halves_lem v e =
    let rest_length : length (drop 8 v) ≡ 8 = length-drop 8 v ∙ omega arith in
    ap (λ l. take 8 v ++ l) (take_all 8 (drop 8 v) rest_length) ∙ take-append-drop 8 v

uuid_Reads :
    (v : List ℕ) → length v ≡ 16 → All IsByte v → Reads read_uuid (encode_scalar (uuid v)) v
unfolding read_uuid
uuid_Reads v e h =
    let hi = take 8 v in
    let lo = take 8 (drop 8 v) in
    let hi_length : length hi ≡ 8 = length-take 8 v (omega arith) in
    let rest_length : length (drop 8 v) ≡ 8 = length-drop 8 v ∙ omega arith in
    let lo_length : length lo ≡ 8 = length-take 8 (drop 8 v) (omega arith) in
    let hi_bytes = All-take IsByte 8 v h in
    let lo_bytes = All-take IsByte 8 (drop 8 v) (All-drop IsByte 8 v h) in
    let halves : big_endian (of_big_endian hi) ++ big_endian (of_big_endian lo) ≡ v =
      rw (big_endian_lem hi hi_length hi_bytes, big_endian_lem lo lo_length lo_bytes)
        (halves_lem v e) in
    subst (λ (r : List ℕ). Reads read_uuid (encode_scalar (uuid v)) r) halves
      (room_Reads 16 _ (encode_scalar (uuid v)) _
        (omega (
          arith,
          length-append (le_bytes 8 (of_big_endian hi)) (le_bytes 8 (of_big_endian lo)),
          length-le_bytes 8 (of_big_endian hi),
          length-le_bytes 8 (of_big_endian lo),
        ))
        (bind_Reads _ (uint64_Reads (of_big_endian hi) (half_bound hi hi_length hi_bytes)) (
          map_Reads _ (λ n. big_endian (of_big_endian hi) ++ big_endian n) _ _
            (uint64_Reads (of_big_endian lo) (half_bound lo lo_length lo_bytes)))))

pub scalar_Reads :
    (v : Scalar) → ScalarInRange v → Reads (read_scalar (scalar_type v)) (encode_scalar v) v
unfolding read_scalar
scalar_Reads (string v) h = map_Reads read_byte_array string (counted v) v (byte_array_Reads v h)
scalar_Reads (uuid v) h = map_Reads read_uuid uuid (encode_scalar (uuid v)) v (uuid_Reads v h.0 h.1)
scalar_Reads (time v) h =
    map_Reads _ time (le_bytes 8 v) v
      (room_Reads 8 _ (le_bytes 8 v) v (omega (arith, length-le_bytes 8 v)) (uint64_Reads v h))
scalar_Reads (date v) h =
    map_Reads _ date (le_bytes 8 v) v
      (room_Reads 8 _ (le_bytes 8 v) v (omega (arith, length-le_bytes 8 v)) (uint64_Reads v h))

element_Reads :
    (t : ScalarType) (v : Scalar)
    → scalar_type v ≡ t
    → ScalarInRange v
    → Reads (read_element t) (code (element_type t) ∷ encode_scalar v) (some v)
unfolding read_element
element_Reads t v e h = bind_Reads _ (present_Reads t) (
    map_Reads (read_scalar t) some (encode_scalar v) v
      (subst (λ (u : ScalarType). Reads (read_scalar u) (encode_scalar v) v) e (scalar_Reads v h)))

elements_Reads :
    (t : ScalarType) (els : List (Option Scalar))
    → ElementsInRange t els
    → Reads (read_elements t (length els)) (encode_elements t els) els
unfolding read_elements
elements_Reads t [] h = return-Reads []
elements_Reads t (none ∷ els) h =
    bind_Reads _ (missing_element t) (map_Reads _ (λ vs. none ∷ vs) _ els (elements_Reads t els h))
  where
    missing_element : (u : ScalarType) → Reads (read_element u) (code null_type ∷ []) none
    missing_element u = bind_Reads _ (missing_Reads (element_type u)) (return-Reads none)
elements_Reads t (some v ∷ els) h =
    bind_Reads _ (element_Reads t v h.0 h.1)
      (map_Reads _ (λ vs. some v ∷ vs) _ els (elements_Reads t els h.2))

-- A typed array is read as it was written, nulls included.
pub typed_array_Reads :
    (t : ScalarType) (els : List (Option Scalar))
    → IsLength (length els)
    → ElementsInRange t els
    → Reads
        (read_typed_array t)
        (le_bytes 4 (int32_of (length els)) ++ encode_elements t els)
        (typed_array t els)
unfolding read_typed_array
typed_array_Reads t els n h =
    room_Reads 4 _ _ _
      (omega (
        arith,
        length-append (le_bytes 4 (int32_of (length els))) (encode_elements t els),
        length-le_bytes 4 (int32_of (length els)),
      ))
      (bind_Reads _ (length_Reads (length els) n)
        (map_Reads _ (typed_array t) _ els (elements_Reads t els h)))
