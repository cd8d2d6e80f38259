-- ===== src/Bitset/Valid.antt =====
-- What holds of a bit set between two operations of bitset.go.
use mcgv.Base.{ℕ, zero, suc, ◌+◌, ◌-◌, ◌*◌, ◌/◌, ◌%◌, ◌^◌, ◌≤◌, ◌<◌, ◌≡◌, ◌≢◌, ◌⊎◌, refl}
use mcgv.Base.{arith, [], ◌∷◌, inl, inr, ap, ◌∙◌, sym}
use mcgv.Base.{leb, length, get_or, Bool-cases}
use mcgv.Base.Bits.{pow-lt, masked_bit, bit, bit-zero}
use mcgv.Bitset.{BitSet, new, word_index, slot, mask, test}
use native.Mathlib.Nat.{mod-eq_of_lt, mod-le, mul-add-mod_self_left}

pub record IsValid (bs : BitSet) : Type 0 where
  pub in_range : bs.words_in_use ≤ length bs.words
  pub word_sized : (i : ℕ) → get_or bs.words i 0 < 2 ^ 64
  pub zero_above : (i : ℕ) → bs.words_in_use ≤ i → get_or bs.words i 0 ≡ 0
  pub last_used : (bs.words_in_use ≡ 0) ⊎ (get_or bs.words (bs.words_in_use - 1) 0 ≢ 0)

pub blank : (i : ℕ) → get_or {A = ℕ} (0 ∷ []) i 0 ≡ 0
blank zero = refl
blank (suc i) = refl

pub new-IsValid : IsValid new
unfolding new
new-IsValid = record {
  in_range = omega arith;
  word_sized = λ i. rw (blank i) (omega arith);
  zero_above = λ i h. blank i;
  last_used = inl refl;
}

-- The slot is taken from the index within the word.
mod_of_word : (i : ℕ) → i % (i / 64) ≡ (i % 64) % (i / 64)
mod_of_word i =
    let split : i ≡ i / 64 * 64 + i % 64 = omega arith in
    let step : (i / 64 * 64 + i % 64) % (i / 64) ≡ i % 64 % (i / 64) =
      mul-add-mod_self_left (i / 64) 64 (i % 64) in
    ap (λ (k : ℕ). k % (i / 64)) split ∙ step

pub slot-lt : (idx : ℕ) → slot idx < 64
slot-lt idx = ground (arith, mod_of_word idx, mod-le (idx % 64) (idx / 64))

pub mask-eq : (idx : ℕ) → mask (slot idx) ≡ 2 ^ slot idx
mask-eq idx = mod-eq_of_lt (pow-lt (slot idx) 64 (slot-lt idx))

-- On a valid set `test` reads one bit.
pub test-bit :
    (bs : BitSet) (idx : ℕ)
    → IsValid bs
    → test bs idx ≡ bit (slot idx) (get_or bs.words (word_index idx) 0)
unfolding test
test-bit bs idx v = elim (Bool-cases (leb bs.words_in_use (word_index idx))) [
  | inl e ↦ rw e (sym (rw (v.zero_above (word_index idx) (ground arith)) (bit-zero (slot idx))))
  | inr e ↦ rw (e, mask-eq idx) (masked_bit (slot idx) (get_or bs.words (word_index idx) 0))
]
