-- ===== src/Marshal/Canon.antt =====
-- What a payload becomes when it is written and read back, and which payloads are in range.
use mcgv.Base.{ℕ, suc, ◌^◌, ◌≤◌, ◌<◌, ◌≡◌, List, [], ◌∷◌, Option, none, some, length, All}
use mcgv.Base.Bytes.{IsByte}
use mcgv.Stream.Types.{
  Elem, bools, int8s, uint16s, int16s, uint32s, int32s, uints, ints, uint64s, int64s, float32s,
  float64s, elem_bytes,
}
use Prim.Native.Nat.{max}
use mcgv.Marshal.Types.{Scalar, string, uuid, time, date, ScalarType, scalar_type}
use mcgv.Marshal.Types.{
  Payload, nil, null_of, bool, uint8, int8, uint16, int16, uint32, int32, uint, int, uint64, int64,
  float32, float64, slice, bytes, scalar, typed_array, object_array, collection, map, optimized,
  other,
}
use mcgv.Marshal.Types.{Payloads, end, item, Entries, done, entry, count_items, count_entries}

-- A slice is read as the signed slice of its width, and an int8 slice as a byte slice.
abbrev pub canon_slice : Elem → List ℕ → Payload
canon_slice bools v = slice bools v
canon_slice int8s v = bytes v
canon_slice uint16s v = slice uint16s v
canon_slice int16s v = slice int16s v
canon_slice uint32s v = slice int32s v
canon_slice int32s v = slice int32s v
canon_slice uints v = slice int64s v
canon_slice ints v = slice int64s v
canon_slice uint64s v = slice int64s v
canon_slice int64s v = slice int64s v
canon_slice float32s v = slice float32s v
canon_slice float64s v = slice float64s v

-- The protocol has no unsigned types but `char`: the bits stay, the type becomes the signed one. A null
-- loses its type.
unfoldable mutual
  pub canon : Payload → Payload
  canon (null_of k) = nil
  canon (uint8 v) = int8 v
  canon (uint32 v) = int32 v
  canon (uint v) = int64 v
  canon (int v) = int64 v
  canon (uint64 v) = int64 v
  canon (slice el v) = canon_slice el v
  canon (object_array v) = object_array (canon_items v)
  canon (collection kind v) = collection kind (canon_items v)
  canon (map kind v) = map kind (canon_entries v)
  canon p = p

  pub canon_items : Payloads → Payloads
  canon_items end = end
  canon_items (item v vs) = item (canon v) (canon_items vs)

  pub canon_entries : Entries → Entries
  canon_entries done = done
  canon_entries (entry k v es) = entry (canon k) (canon v) (canon_entries es)

-- How deep a payload is nested, counting itself.
unfoldable mutual
  pub depth : Payload → ℕ
  depth (object_array v) = suc (depth_items v)
  depth (collection kind v) = suc (depth_items v)
  depth (map kind v) = suc (depth_entries v)
  depth p = 1

  pub depth_items : Payloads → ℕ
  depth_items end = 0
  depth_items (item v vs) = max (depth v) (depth_items vs)

  pub depth_entries : Entries → ℕ
  depth_entries done = 0
  depth_entries (entry k v es) = max (max (depth k) (depth v)) (depth_entries es)

-- A length that an int32 holds.
abbrev pub IsLength : ℕ → Type 0
IsLength n = n < 2 ^ 31

abbrev pub ScalarInRange : Scalar → Type 0
ScalarInRange (string v) = IsLength (length v)
ScalarInRange (uuid v) = (length v ≡ 16) × All IsByte v
ScalarInRange (time v) = v < 2 ^ 64
ScalarInRange (date v) = v < 2 ^ 64

-- The elements of a `[]*T` are of the type `T`.
abbrev pub ElementsInRange : ScalarType → List (Option Scalar) → Type 0
ElementsInRange t [] = Unit
ElementsInRange t (none ∷ els) = ElementsInRange t els
ElementsInRange t (some v ∷ els) = (scalar_type v ≡ t) × ScalarInRange v × ElementsInRange t els

-- Every number is a pattern of its type, every length fits, no primitive slice is empty, and no part
-- lies outside the model.
unfoldable mutual
  pub IsInRange : Payload → Type 0
  IsInRange nil = Unit
  IsInRange (null_of k) = Unit
  IsInRange (bool v) = Unit
  IsInRange (uint8 v) = v < 256
  IsInRange (int8 v) = v < 256
  IsInRange (uint16 v) = v < 2 ^ 16
  IsInRange (int16 v) = v < 2 ^ 16
  IsInRange (uint32 v) = v < 2 ^ 32
  IsInRange (int32 v) = v < 2 ^ 32
  IsInRange (uint v) = v < 2 ^ 64
  IsInRange (int v) = v < 2 ^ 64
  IsInRange (uint64 v) = v < 2 ^ 64
  IsInRange (int64 v) = v < 2 ^ 64
  IsInRange (float32 v) = v < 2 ^ 32
  IsInRange (float64 v) = v < 2 ^ 64
  IsInRange (slice el v) =
      (1 ≤ length v) × IsLength (length v) × All (λ n. n < 256 ^ elem_bytes el) v
  IsInRange (bytes v) = IsLength (length v)
  IsInRange (scalar v) = ScalarInRange v
  IsInRange (typed_array t v) = IsLength (length v) × ElementsInRange t v
  IsInRange (object_array v) = IsLength (count_items v) × ItemsInRange v
  IsInRange (collection kind v) = IsLength (count_items v) × (kind < 256) × ItemsInRange v
  IsInRange (map kind v) = IsLength (count_entries v) × (kind < 256) × EntriesInRange v
  IsInRange (optimized v) = IsLength (length v)
  IsInRange (other n) = ⊥

  pub ItemsInRange : Payloads → Type 0
  ItemsInRange end = Unit
  ItemsInRange (item v vs) = IsInRange v × ItemsInRange vs

  pub EntriesInRange : Entries → Type 0
  EntriesInRange done = Unit
  EntriesInRange (entry k v es) = IsInRange k × IsInRange v × EntriesInRange es
