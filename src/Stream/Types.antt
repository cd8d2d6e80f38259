-- ===== src/Stream/Types.antt =====
-- What the writing and the reading half of buffer.go share.
use mcgv.Base.{ℕ, Bool, List, [], ◌∷◌, ◌++◌, ◌==◌}
use mcgv.Base.Bytes.{le_bytes, of_le}
use mathlib.Core.List.{reverse}

-- The errors that buffer.go and marshaller.go return, and those of the writers of requests: a nil value
-- in a sequence, and what the protocol of the server does not support.
pub data Error : Type 0 where
  invalid_stream : Error
  nil_argument not_supported : Error
  unexpected_type : ℕ → Error
  unsupported_type : ℕ → Error
  empty_coefficient : Error

-- The element types of the primitive slices (`primitives` of buffer.go).
pub data Elem : Type 0 where
  bools int8s uint16s int16s uint32s int32s uints ints uint64s int64s float32s float64s : Elem

-- boolBytes to longBytes, as each slice function passes them.
abbrev pub elem_bytes : Elem → ℕ
elem_bytes bools = 1
elem_bytes int8s = 1
elem_bytes uint16s = 2
elem_bytes int16s = 2
elem_bytes uint32s = 4
elem_bytes int32s = 4
elem_bytes float32s = 4
elem_bytes uints = 8
elem_bytes ints = 8
elem_bytes uint64s = 8
elem_bytes int64s = 8
elem_bytes float64s = 8

-- `getNativeEndian`: decodes 0x12 0x34 by `binary.LittleEndian`.
unfoldable pub is_little_endian : Bool
unfolding of_le
is_little_endian = of_le (0x12 ∷ 0x34 ∷ []) == 0x3412

-- The byte order of the machine, which the unsafe slice casts expose.
pub data Host : Type 0 where
  little big : Host

-- How a number of `n` bytes lies in memory.
unfoldable pub memory : Host → ℕ → ℕ → List ℕ
memory little n v = le_bytes n v
memory big n v = reverse (le_bytes n v)

unfoldable pub of_memory : Host → List ℕ → ℕ
of_memory little bs = of_le bs
of_memory big bs = of_le (reverse bs)

-- A slice of `n`-byte elements in memory.
abbrev pub memory_image : Host → ℕ → List ℕ → List ℕ
memory_image host n [] = []
memory_image host n (v ∷ vs) = memory host n v ++ memory_image host n vs
