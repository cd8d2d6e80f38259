-- ===== src/Hash/Tests.antt =====
-- The theorem on internal/utils.go at concrete bytes, the last of them negative.
use mcgv.Base.{ℕ, ◌+◌, ◌%◌, ◌^◌, ◌≡◌, List, [], ◌∷◌, length}
use mcgv.Hash.{slice_hash_code}
use mcgv.Hash.Polynomial.{weighted, slice_hash_code_lem}

abbrev sample : List ℕ
sample = 104 ∷ 105 ∷ 200 ∷ []

slice_hash_code_lem_example :
    slice_hash_code sample ≡ (31 ^ length sample + weighted sample) % 2 ^ 32
slice_hash_code_lem_example = slice_hash_code_lem sample
