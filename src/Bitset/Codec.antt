-- ===== src/Bitset/Codec.antt =====
-- `FromBytes`, `Bytes` and `Equals` of bitset.go.
use mcgv.Base.{ℕ, zero, suc, ◌-◌, ◌*◌, ◌/◌, ◌%◌, ◌^◌, ◌≤◌, ◌<◌, ◌≡◌, ◌↔◌, refl}
use mcgv.Base.{arith, true, false, List, [], ◌∷◌, inl, inr, ap, sym, ◌∙◌}
use mcgv.Base.{ltb, length, get_or, take, drop, All, Bool-cases}
use mcgv.Base.{length-append, get_or_above, take-append, drop-append}
use native.Mathlib.Nat.{pow-le-pow_right}
use mcgv.Base.{All-append, All-take, All-drop, All-replicate}
use mcgv.Base.{ltb→le, ==_refl}
use mcgv.Base.Bytes.{
  IsByte, le_bytes, of_le, length-le_bytes, le_bytes-IsByte, of_le-le_bytes, of_le-lt,
}
use mcgv.Bitset.{
  BitSet, new, recalculate_words_in_use, same_words, equals, words_of, pad, from_bytes, bytes_of,
  to_bytes,
}
use mcgv.Bitset.Valid.{IsValid, blank, new-IsValid}
use mcgv.Bitset.Update.{recalculate-IsValid}

same_words_iff :
    (n : ℕ) (xs ys : List ℕ)
    → (same_words n xs ys ≡ true) ↔ ((i : ℕ) → i < n → get_or xs i 0 ≡ get_or ys i 0)
unfolding same_words
same_words_iff zero xs ys = ((λ h i lt. absurd (omega arith)), λ h. refl)
same_words_iff (suc n) xs ys = (
  (λ h i lt. ground (arith, (same_words_iff n xs ys).0 (ground arith) i)),
  (λ h.
      let below : same_words n xs ys ≡ true =
        (same_words_iff n xs ys).1 (λ i lt. h i (omega arith)) in
      rw (below, h n (omega arith)) (==_refl (get_or ys n 0))),
)

-- `Equals` of two valid sets is true exactly if they have the same word at every index, where a
-- word that is missing is 0.
pub equals_iff :
    (a b : BitSet)
    → IsValid a
    → IsValid b
    → (equals a b ≡ true) ↔ ((i : ℕ) → get_or a.words i 0 ≡ get_or b.words i 0)
unfolding equals
equals_iff a b v w = (
  (λ h i.
      let same : a.words_in_use ≡ b.words_in_use = ground arith in
      let used : same_words a.words_in_use a.words b.words ≡ true = ground arith in
      ground (
        arith,
        (same_words_iff a.words_in_use a.words b.words).0 used i,
        v.zero_above i,
        w.zero_above i,
      )),
  (λ h.
      let used = (same_words_iff a.words_in_use a.words b.words).1 (λ i lt. h i) in
      let same : a.words_in_use ≡ b.words_in_use = ground (
        arith,
        v.last_used,
        w.last_used,
        h (a.words_in_use - 1),
        h (b.words_in_use - 1),
        v.zero_above (b.words_in_use - 1),
        w.zero_above (a.words_in_use - 1),
      ) in
      rw (used) (rw (← same) (rw (==_refl a.words_in_use) refl))),
)

length-bytes_of : (n : ℕ) (words : List ℕ) → length (bytes_of n words) ≡ 8 * n
unfolding bytes_of
length-bytes_of zero words = refl
length-bytes_of (suc n) [] =
    omega (
      arith,
      length-append (le_bytes 8 0) (bytes_of n []),
      length-le_bytes 8 0,
      length-bytes_of n [],
    )
length-bytes_of (suc n) (w ∷ ws) =
    omega (
      arith,
      length-append (le_bytes 8 w) (bytes_of n ws),
      length-le_bytes 8 w,
      length-bytes_of n ws,
    )

words_of-bytes_of :
    (n : ℕ) (words : List ℕ)
    → n ≤ length words
    → ((i : ℕ) → get_or words i 0 < 2 ^ 64)
    → words_of n (bytes_of n words) ≡ take n words
unfolding bytes_of words_of
words_of-bytes_of zero words h sized = refl
words_of-bytes_of (suc n) [] h sized = absurd (omega arith)
words_of-bytes_of (suc n) (w ∷ ws) h sized =
    let eight = sym (length-le_bytes 8 w) in
    rw (
      take-append (le_bytes 8 w) (bytes_of n ws) 8 eight,
      drop-append (le_bytes 8 w) (bytes_of n ws) 8 eight,
      of_le-le_bytes 8 w (sized 0),
      words_of-bytes_of n ws (omega arith) (λ i. sized (suc i)),
    )

length-words_of : (n : ℕ) (bytes : List ℕ) → length (words_of n bytes) ≡ n
unfolding words_of
length-words_of zero bytes = refl
length-words_of (suc n) bytes = ap suc (length-words_of n (drop 8 bytes))

length-take_le : (n : ℕ) (xs : List ℕ) → length (take n xs) ≤ n
length-take_le zero xs = omega arith
length-take_le (suc n) [] = omega arith
length-take_le (suc n) (x ∷ xs) = omega (arith, length-take_le n xs)

of_le_eight : (bytes : List ℕ) → All IsByte bytes → of_le (take 8 bytes) < 2 ^ 64
of_le_eight bytes h =
    let small : 256 ^ length (take 8 bytes) ≤ 256 ^ 8 =
      pow-le-pow_right (omega arith) (length-take_le 8 bytes) in
    omega (arith, small, of_le-lt (take 8 bytes) (All-take IsByte 8 bytes h))

words_of-lt :
    (n : ℕ) (bytes : List ℕ) (i : ℕ) → All IsByte bytes → get_or (words_of n bytes) i 0 < 2 ^ 64
unfolding words_of
words_of-lt zero bytes i h = omega arith
words_of-lt (suc n) bytes zero h = of_le_eight bytes h
words_of-lt (suc n) bytes (suc i) h = words_of-lt n (drop 8 bytes) i (All-drop IsByte 8 bytes h)

-- The set that the bytes stand for, before `recalculateWordsInUse`.
abbrev raw : List ℕ → BitSet
raw bytes = record {
  words = words_of (length bytes / 2 ^ 3) bytes;
  words_in_use = length bytes / 2 ^ 3;
}

raw-IsValid : (bytes : List ℕ) → All IsByte bytes → IsValid (recalculate_words_in_use (raw bytes))
raw-IsValid bytes h =
    let n = length bytes / 2 ^ 3 in
    recalculate-IsValid (raw bytes) (omega (arith, length-words_of n bytes))
      (λ i. words_of-lt n bytes i h)
      (λ i k. get_or_above (words_of n bytes) i 0 (omega (arith, length-words_of n bytes)))

pad-IsByte : (bytes : List ℕ) → All IsByte bytes → All IsByte (pad bytes)
pad-IsByte bytes h = elim (Bool-cases (ltb 0 (length bytes % 8))) [
  | inl e ↦
      rw e
        (All-append IsByte bytes _ h (All-replicate IsByte (8 - length bytes % 8) 0 (omega arith)))
  | inr e ↦ rw e h
]

-- Whatever bytes a server sends, `FromBytes` makes a valid set.
pub from_bytes-IsValid : (bytes : List ℕ) → All IsByte bytes → IsValid (from_bytes bytes)
unfolding from_bytes
from_bytes-IsValid [] h = new-IsValid
from_bytes-IsValid (b ∷ bs) h = raw-IsValid (pad (b ∷ bs)) (pad-IsByte (b ∷ bs) h)

-- `Bytes` writes eight bytes for each word in use.
pub length-to_bytes : (bs : BitSet) → length (to_bytes bs) ≡ 8 * bs.words_in_use
unfolding to_bytes
length-to_bytes bs = length-bytes_of bs.words_in_use bs.words

from_bytes_words :
    (bytes : List ℕ) (n : ℕ)
    → length bytes ≡ 8 * suc n
    → (from_bytes bytes).words ≡ words_of (suc n) bytes
unfolding from_bytes
from_bytes_words [] n h = absurd (omega arith)
from_bytes_words (b ∷ bs) n h =
    let whole : ltb 0 (length (b ∷ bs) % 8) ≡ false = ground arith in
    let count : length (b ∷ bs) / 8 ≡ suc n = omega arith in rw whole (rw count refl)

get_or-take : (n i : ℕ) (words : List ℕ) → i < n → get_or (take n words) i 0 ≡ get_or words i 0
get_or-take zero i words h = absurd (omega arith)
get_or-take (suc n) i [] h = refl
get_or-take (suc n) zero (w ∷ ws) h = refl
get_or-take (suc n) (suc i) (w ∷ ws) h = get_or-take n i ws (omega arith)

bytes_of-IsByte : (n : ℕ) (words : List ℕ) → All IsByte (bytes_of n words)
unfolding bytes_of
bytes_of-IsByte zero words = tt
bytes_of-IsByte (suc n) [] =
    All-append IsByte (le_bytes 8 0) _ (le_bytes-IsByte 8 0) (bytes_of-IsByte n [])
bytes_of-IsByte (suc n) (w ∷ ws) =
    All-append IsByte (le_bytes 8 w) _ (le_bytes-IsByte 8 w) (bytes_of-IsByte n ws)

-- `Bytes` writes bytes.
pub to_bytes-IsByte : (bs : BitSet) → All IsByte (to_bytes bs)
unfolding to_bytes
to_bytes-IsByte bs = bytes_of-IsByte bs.words_in_use bs.words

read_back :
    (bs : BitSet) (n i : ℕ)
    → IsValid bs
    → bs.words_in_use ≡ n
    → get_or (from_bytes (bytes_of n bs.words)).words i 0 ≡ get_or bs.words i 0
read_back bs zero i v e =
    unfold from_bytes bytes_of new in blank i ∙ sym (v.zero_above i (omega arith))
read_back bs (suc n) i v e =
    rw
      (
        from_bytes_words (bytes_of (suc n) bs.words) n (length-bytes_of (suc n) bs.words),
        words_of-bytes_of (suc n) bs.words (omega (arith, v.in_range)) v.word_sized,
      )
      (elim (Bool-cases (ltb i (suc n))) [
        | inl h ↦ get_or-take (suc n) i bs.words (ground arith)
        | inr h ↦
            get_or_above (take (suc n) bs.words) i 0
              (omega (arith, length-take_le (suc n) bs.words, ltb→le i (suc n) h))
            ∙ sym (v.zero_above i (ground arith))
      ])

-- A valid set that is written to bytes and read back is `Equals` to what was written.
pub from_bytes-to_bytes : (bs : BitSet) → IsValid bs → equals (from_bytes (to_bytes bs)) bs ≡ true
unfolding to_bytes
from_bytes-to_bytes bs v =
    (equals_iff (from_bytes (to_bytes bs)) bs
        (from_bytes-IsValid (to_bytes bs) (to_bytes-IsByte bs)) v).1
      (λ i. read_back bs bs.words_in_use i v refl)
