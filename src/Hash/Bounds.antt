-- ===== src/Hash/Bounds.antt =====
-- The hash codes of internal/utils.go are 32-bit numbers.
use mcgv.Base.{ℕ, ◌^◌, ◌<◌, arith, List, [], ◌∷◌}
use mcgv.Hash.{hash_code, hash_loop, hash_rune}

hash_rune-small : (hash r : ℕ) → hash_rune hash r < 2 ^ 32
unfolding hash_rune
hash_rune-small hash r = ground arith

hash_loop-small : (rs : List ℕ) (hash : ℕ) → hash < 2 ^ 32 → hash_loop hash rs < 2 ^ 32
unfolding hash_loop
hash_loop-small [] hash h = h
hash_loop-small (r ∷ rs) hash h = hash_loop-small rs (hash_rune hash r) (hash_rune-small hash r)

pub hash_code-small : (rs : List ℕ) → hash_code rs < 2 ^ 32
unfolding hash_code
hash_code-small [] = omega arith
hash_code-small (r ∷ rs) = hash_loop-small (r ∷ rs) 0 (omega arith)
