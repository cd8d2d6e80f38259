-- ===== src/Bitset/Membership.antt =====
-- What `Test` answers after `Set` and `Clear` (bitset.go).
use mcgv.Base.{ℕ, ◌-◌, ◌/◌, ◌^◌, ◌≤◌, ◌<◌, ◌≡◌}
use mcgv.Base.{arith, Bool, true, false, not, ◌&&◌, ◌||◌, ◌∙◌}
use mcgv.Base.{◌==◌, get_or, leb, refl}
use mcgv.Base.Bits.{bit-bit_or, bit-bit_and, bit-pow, bit-complement, pow-lt}
use mcgv.Bitset.{BitSet, new, word_index, slot, test, set_bit, clear}
use mcgv.Bitset.Valid.{IsValid, slot-lt, test-bit}
use mcgv.Bitset.Update.{set_bit-word, set_bit-IsValid, clear-word, clear-IsValid}

-- The two indices are stored at the same bit of the same word.
abbrev pub shared : ℕ → ℕ → Bool
shared i j = word_index i == word_index j && slot i == slot j

pub test-new : (i : ℕ) → test new i ≡ false
unfolding test new
test-new i = let above : leb 0 (word_index i) ≡ true = ground arith in rw above refl

-- After `Set(i)` on a valid set, `Test(j)` is true exactly if it was before, or `j` is stored at
-- the bit of the word where `i` is.
pub test-set_bit :
    (bs : BitSet) (i j : ℕ) → IsValid bs → test (set_bit bs i) j ≡ (shared i j || test bs j)
test-set_bit bs i j v =
    rw
      (
        test-bit (set_bit bs i) j (set_bit-IsValid bs i v),
        test-bit bs j v,
        set_bit-word bs i (word_index j) v,
      )
      (ground (
        arith,
        bit-bit_or (slot j) (get_or bs.words (word_index j) 0) (2 ^ slot i),
        bit-pow (slot j) (slot i),
      ))

-- After `Clear(i)` on a valid set, `Test(j)` is true exactly if it was before and `j` is not
-- stored at the bit of the word where `i` is.
pub test-clear :
    (bs : BitSet) (i j : ℕ) → IsValid bs → test (clear bs i) j ≡ (test bs j && not (shared i j))
test-clear bs i j v =
    rw
      (
        test-bit (clear bs i) j (clear-IsValid bs i v),
        test-bit bs j v,
        clear-word bs i (word_index j) v,
      )
      (ground (
        arith,
        bit-bit_and (slot j) (get_or bs.words (word_index j) 0) (2 ^ 64 - 1 - 2 ^ slot i),
        bit-complement (slot j) 64 (2 ^ slot i) (slot-lt j) (pow-lt (slot i) 64 (slot-lt i)),
        bit-pow (slot j) (slot i),
      ))

-- For indices below 64 no two are stored at one bit.
pub shared_small : (i j : ℕ) → i < 64 → j < 64 → shared i j ≡ (i == j)
shared_small i j h k = ground arith

-- All indices from 64 to 127 are stored at one bit: `idx % wordIdx` is `idx % 1`.
pub shared_second_word : (i j : ℕ) → 64 ≤ i → i < 128 → 64 ≤ j → j < 128 → shared i j ≡ true
shared_second_word i j h h' k k' =
    let a : i / 64 ≡ 1 = omega arith in let b : j / 64 ≡ 1 = omega arith in rw (a, b) (ground arith)

-- After `Set(i)` on a valid set with `i` in the second word, `Test(j)` is true for every `j` of
-- that word.
pub test-set_bit_collision :
    (bs : BitSet) (i j : ℕ)
    → IsValid bs
    → 64 ≤ i
    → i < 128
    → 64 ≤ j
    → j < 128
    → test (set_bit bs i) j ≡ true
test-set_bit_collision bs i j v h h' k k' =
    test-set_bit bs i j v ∙ rw (shared_second_word i j h h' k k')
