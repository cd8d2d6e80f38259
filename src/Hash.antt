-- ===== src/Hash.antt =====
-- internal/utils.go: the Java hash codes of names and of byte slices, in int32 arithmetic.
pub mod Bounds
pub mod Polynomial
mod Tests
use mcgv.Base.{ℕ, ◌+◌, ◌-◌, ◌*◌, ◌/◌, ◌%◌, ◌^◌, List, [], ◌∷◌, leb, ltb, ◌&&◌}
use mcgv.Base.{if◌then◌else◌}

-- `31*hash + x`, wrapped to 32 bits.
abbrev pub mix : ℕ → ℕ → ℕ
mix hash x = (31 * hash + x) % 2 ^ 32

-- `int32(int8(b))`, as a pattern of 32 bits.
abbrev pub sign_extend : ℕ → ℕ
sign_extend b = if ltb b 128 then b else b + 2 ^ 32 - 256

pub slice_hash_loop : ℕ → List ℕ → ℕ
slice_hash_loop hash [] = hash
slice_hash_loop hash (b ∷ bs) = slice_hash_loop (mix hash (sign_extend b)) bs

unfoldable pub slice_hash_code : List ℕ → ℕ
unfolding slice_hash_loop
slice_hash_code bytes = slice_hash_loop 1 bytes

-- The two surrogates of `utf16.EncodeRune`, for a code point above 0xFFFF.
abbrev pub surrogates : ℕ → List ℕ
surrogates r = (0xD800 + (r - 0x10000) / 2 ^ 10) ∷ (0xDC00 + (r - 0x10000) % 2 ^ 10) ∷ []

-- One round of `HashCode`, on the code point `r`.
pub hash_rune : ℕ → ℕ → ℕ
hash_rune hash r =
    if leb r 0xFFFF
    then mix hash r
    else if ltb 0xFFFF r && leb r 0x10FFFF
    then mix (mix hash (0xD800 + (r - 0x10000) / 2 ^ 10)) (0xDC00 + (r - 0x10000) % 2 ^ 10)
    else mix hash 0xFFFD

pub hash_loop : ℕ → List ℕ → ℕ
unfolding hash_rune
hash_loop hash [] = hash
hash_loop hash (r ∷ rs) = hash_loop (hash_rune hash r) rs

-- `HashCode`, on the code points of the name.
unfoldable pub hash_code : List ℕ → ℕ
unfolding hash_loop
hash_code [] = 0
hash_code (r ∷ rs) = hash_loop 0 (r ∷ rs)
