-- ===== src/Bitset/Tests.antt =====
-- Runs of bitset.go on small sets, and the theorems at concrete inputs.
use mcgv.Base.{ℕ, ◌≡◌, refl, true, false, ◌&&◌, ◌||◌, not, List, [], ◌∷◌, get_or, ◌↔◌}
use mcgv.Bitset.{BitSet, new, test, set_bit, clear, equals, from_bytes, to_bytes}
use mcgv.Base.Bytes.{of_le}
use mcgv.Bitset.Valid.{IsValid, new-IsValid}
use mcgv.Bitset.Update.{set_bit-IsValid, clear-IsValid}
use mcgv.Bitset.Membership.{shared, test-set_bit, test-clear}
use mcgv.Bitset.Codec.{equals_iff, from_bytes-to_bytes}

-- The bitmap of a server that supports the features 2, 8 and 11.
abbrev bitmap : List ℕ
bitmap = 4 ∷ 9 ∷ []

bitmap_read : test (from_bytes bitmap) 8 ≡ true
unfolding test from_bytes of_le
bitmap_read = refl

bitmap_absent : test (from_bytes bitmap) 9 ≡ false
unfolding test from_bytes of_le
bitmap_absent = refl

abbrev some_set : BitSet
some_set = set_bit new 70

some_set-IsValid : IsValid some_set
some_set-IsValid = set_bit-IsValid new 70 new-IsValid

set_bit-IsValid_example : IsValid (set_bit some_set 200)
set_bit-IsValid_example = set_bit-IsValid some_set 200 some_set-IsValid

clear-IsValid_example : IsValid (clear some_set 70)
clear-IsValid_example = clear-IsValid some_set 70 some_set-IsValid

test-set_bit_example : test (set_bit some_set 11) 8 ≡ (shared 11 8 || test some_set 8)
test-set_bit_example = test-set_bit some_set 11 8 some_set-IsValid

test-clear_example : test (clear some_set 70) 3 ≡ (test some_set 3 && not (shared 70 3))
test-clear_example = test-clear some_set 70 3 some_set-IsValid

equals_iff_example :
    (equals some_set new ≡ true) ↔ ((i : ℕ) → get_or some_set.words i 0 ≡ get_or new.words i 0)
equals_iff_example = equals_iff some_set new some_set-IsValid new-IsValid

from_bytes-to_bytes_example : equals (from_bytes (to_bytes some_set)) some_set ≡ true
from_bytes-to_bytes_example = from_bytes-to_bytes some_set some_set-IsValid
