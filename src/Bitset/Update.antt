-- ===== src/Bitset/Update.antt =====
-- `Set` and `Clear` of bitset.go: the words that they leave, and that they keep a set valid.
use mcgv.Base.{ℕ, zero, suc, ◌+◌, ◌-◌, ◌*◌, ◌^◌, ◌≤◌, ◌<◌, ◌≡◌, ◌≢◌, ◌⊎◌, refl}
use mcgv.Base.{bit_and, bit_or, arith, List, inl, inr}
use mcgv.Base.{leb, ◌==◌, if◌then◌else◌, length, get_or, set, replicate, Bool-cases}
use mcgv.Base.{length-append, length-replicate, length-set, get_or-set}
use mcgv.Base.{get_or-append_default}
use mcgv.Base.Bits.{bit_or-lt, bit_and-lt, bit_or-pow_ne, zero-bit_and, pow-lt}
use mcgv.Bitset.{
  BitSet, word_index, slot, mask, max_uint, expand_to, set_bit, used_below,
  recalculate_words_in_use, clear,
}
use mcgv.Bitset.Valid.{IsValid, slot-lt, mask-eq}

expand_to-word : (bs : BitSet) (w i : ℕ) → get_or (expand_to bs w).words i 0 ≡ get_or bs.words i 0
unfolding expand_to
expand_to-word bs w i = ground (
  arith,
  get_or-append_default bs.words (max_uint (w + 1) (length bs.words * 2) - length bs.words) i 0,
)

expand_to-length :
    (bs : BitSet) (w : ℕ)
    → IsValid bs
    → (w < (expand_to bs w).words_in_use)
      × ((expand_to bs w).words_in_use ≤ length (expand_to bs w).words)
      × (bs.words_in_use ≤ (expand_to bs w).words_in_use)
unfolding expand_to
expand_to-length bs w v = ground (
  arith,
  length-append bs.words (replicate (max_uint (w + 1) (length bs.words * 2) - length bs.words) 0),
  length-replicate {A = ℕ} (max_uint (w + 1) (length bs.words * 2) - length bs.words) 0,
)

-- `Set` stores one bit, and leaves every other word.
pub set_bit-word :
    (bs : BitSet) (idx i : ℕ)
    → IsValid bs
    → get_or (set_bit bs idx).words i 0 ≡ (
        if word_index idx == i
        then bit_or (get_or bs.words i 0) (2 ^ slot idx)
        else get_or bs.words i 0)
unfolding set_bit
set_bit-word bs idx i v =
    let w = word_index idx in
    let room = expand_to-length bs w v in
    let inside : w < length (expand_to bs w).words = omega arith in
    rw (get_or-set _ _ _ _ _ inside, expand_to-word bs w w, expand_to-word bs w i, mask-eq idx)
      (ground arith)

expand_to_use :
    (bs : BitSet) (w : ℕ)
    → ((expand_to bs w).words_in_use ≡ w + 1) ⊎ ((expand_to bs w).words_in_use ≡ bs.words_in_use)
unfolding expand_to
expand_to_use bs w = ground arith

set_bit_use :
    (bs : BitSet) (idx : ℕ)
    → (set_bit bs idx).words_in_use ≡ (expand_to bs (word_index idx)).words_in_use
unfolding set_bit
set_bit_use bs idx = refl

length-set_bit :
    (bs : BitSet) (idx : ℕ)
    → length (set_bit bs idx).words ≡ length (expand_to bs (word_index idx)).words
unfolding set_bit
length-set_bit bs idx = length-set _ _ _

set_bit_last :
    (bs : BitSet) (idx : ℕ)
    → IsValid bs
    → get_or (set_bit bs idx).words ((set_bit bs idx).words_in_use - 1) 0 ≢ 0
set_bit_last bs idx v =
    let last = (set_bit bs idx).words_in_use - 1 in
    let room = expand_to-length bs (word_index idx) v in
    rw (set_bit-word bs idx last v) (
      ground (
        arith,
        room,
        v.last_used,
        set_bit_use bs idx,
        expand_to_use bs (word_index idx),
        bit_or-pow_ne (get_or bs.words last 0) (slot idx),
      ))

-- `Set` keeps a set valid: the words in use are among the words, each is below 2 ^ 64, those
-- above are 0, and the last word in use is not.
pub set_bit-IsValid : (bs : BitSet) (idx : ℕ) → IsValid bs → IsValid (set_bit bs idx)
set_bit-IsValid bs idx v =
    let w = word_index idx in
    let room = expand_to-length bs w v in
    record {
      in_range = omega (arith, length-set_bit bs idx, set_bit_use bs idx);
      word_sized = λ i. rw (set_bit-word bs idx i v) (
          ground (
            arith,
            v.word_sized i,
            bit_or-lt 64 (get_or bs.words i 0) (2 ^ slot idx),
            pow-lt (slot idx) 64 (slot-lt idx),
          ));
      zero_above =
          λ i h. rw (set_bit-word bs idx i v) (ground (arith, v.zero_above i, set_bit_use bs idx));
      last_used = inr (set_bit_last bs idx v);
    }

used_below_le : (words : List ℕ) (n : ℕ) → used_below words n ≤ n
unfolding used_below
used_below_le words zero = omega arith
used_below_le words (suc n) = ground (arith, used_below_le words n)

used_below_zero : (words : List ℕ) (n i : ℕ) → used_below words n ≤ i → i < n → get_or words i 0 ≡ 0
unfolding used_below
used_below_zero words zero i h k = absurd (omega arith)
used_below_zero words (suc n) i h k = ground (arith, used_below_zero words n i)

used_below_last :
    (words : List ℕ) (n : ℕ)
    → (used_below words n ≡ 0) ⊎ (get_or words (used_below words n - 1) 0 ≢ 0)
unfolding used_below
used_below_last words zero = inl refl
used_below_last words (suc n) = elim (Bool-cases (get_or words n 0 == 0)) [
  | inl e ↦ rw e (used_below_last words n)
  | inr e ↦ rw e (inr (ground arith))
]

-- `recalculateWordsInUse` restores the invariant from the other fields.
pub recalculate-IsValid :
    (bs : BitSet)
    → bs.words_in_use ≤ length bs.words
    → ((i : ℕ) → get_or bs.words i 0 < 2 ^ 64)
    → ((i : ℕ) → bs.words_in_use ≤ i → get_or bs.words i 0 ≡ 0)
    → IsValid (recalculate_words_in_use bs)
unfolding recalculate_words_in_use
recalculate-IsValid bs fits sized above = record {
  in_range = omega (arith, used_below_le bs.words bs.words_in_use);
  word_sized = sized;
  zero_above = λ i h. ground (arith, used_below_zero bs.words bs.words_in_use i, above i);
  last_used = used_below_last bs.words bs.words_in_use;
}

-- `Clear` resets one bit, and leaves every other word.
pub clear-word :
    (bs : BitSet) (idx i : ℕ)
    → IsValid bs
    → get_or (clear bs idx).words i 0 ≡ (
        if word_index idx == i
        then bit_and (get_or bs.words i 0) (2 ^ 64 - 1 - 2 ^ slot idx)
        else get_or bs.words i 0)
unfolding clear
clear-word bs idx i v = elim (Bool-cases (leb bs.words_in_use (word_index idx))) [
  | inl e ↦ rw e (ground (arith, v.zero_above i, zero-bit_and (2 ^ 64 - 1 - 2 ^ slot idx)))
  | inr e ↦
      let w = word_index idx in
      let cleared = bit_and (get_or bs.words w 0) (2 ^ 64 - 1 - mask (slot idx)) in
      let inside : w < length bs.words = ground arith in
      rw e (rw (get_or-set bs.words w i cleared 0 inside, mask-eq idx) (ground arith))
]

-- `Clear` keeps a set valid, so the words that have become 0 at the end are no longer in use.
pub clear-IsValid : (bs : BitSet) (idx : ℕ) → IsValid bs → IsValid (clear bs idx)
unfolding clear
clear-IsValid bs idx v = elim (Bool-cases (leb bs.words_in_use (word_index idx))) [
  | inl e ↦ rw e v
  | inr e ↦
      let w = word_index idx in
      let cleared = bit_and (get_or bs.words w 0) (2 ^ 64 - 1 - mask (slot idx)) in
      let inside : w < length bs.words = ground arith in
      rw e (
        recalculate-IsValid (record bs { words = set bs.words w cleared })
          (omega (arith, length-set bs.words w cleared))
          (λ i. rw (get_or-set bs.words w i cleared 0 inside) (
            ground (
              arith,
              v.word_sized i,
              bit_and-lt 64 (get_or bs.words w 0) (2 ^ 64 - 1 - mask (slot idx)) (v.word_sized w),
            )))
          (λ i h. rw (get_or-set bs.words w i cleared 0 inside) (ground (arith, v.zero_above i))))
]
