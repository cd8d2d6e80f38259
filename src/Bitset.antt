-- ===== src/Bitset.antt =====
-- internal/bitset/bitset.go: the set of feature flags, as words of 64 bits.
-- A word is a number below 2 ^ 64 and an index is a number; the invariant of Bitset/Valid is about
-- the words that an index may reach.
pub mod Valid
pub mod Update
pub mod Codec
pub mod Membership
mod Tests
use mcgv.Base.{ℕ, zero, suc, ◌+◌, ◌-◌, ◌*◌, ◌/◌, ◌%◌, ◌^◌, bit_and, bit_or, arith}
use mcgv.Base.{Bool, true, false, not, ◌&&◌, List, [], ◌∷◌, ◌++◌}
use mcgv.Base.{ltb, leb, ◌==◌, if◌then◌else◌, length, get_or, set, take, drop, replicate}
use mcgv.Base.Bytes.{le_bytes, of_le}

pub record BitSet : Type 0 where
  pub words : List ℕ
  pub words_in_use : ℕ

unfoldable pub new : BitSet
new = record { words = 0 ∷ []; words_in_use = 0 }

-- `bitIndex >> addressBitsPerWord`
abbrev pub word_index : ℕ → ℕ
word_index idx = idx / 2 ^ 6

-- The bit of its word that an index is stored at: `if wordIdx > 0 { idx = idx % wordIdx }`.
abbrev pub slot : ℕ → ℕ
slot idx = if ltb 0 (word_index idx) then idx % word_index idx else idx

-- `uint64(1) << idx`, 0 from 64 on.
abbrev pub mask : ℕ → ℕ
mask i = 2 ^ i % 2 ^ 64

pub max_uint : ℕ → ℕ → ℕ
max_uint x y = if ltb y x then x else y

pub test : BitSet → ℕ → Bool
test bs idx =
    if leb bs.words_in_use (word_index idx)
    then false
    else not (bit_and (get_or bs.words (word_index idx) 0) (mask (slot idx)) == 0)

pub ensure_capacity : BitSet → ℕ → BitSet
unfolding max_uint
ensure_capacity bs required =
    if ltb (length bs.words) required
    then record bs {
      words = bs.words ++ replicate (max_uint required (length bs.words * 2) - length bs.words) 0;
    }
    else bs

pub expand_to : BitSet → ℕ → BitSet
unfolding ensure_capacity
expand_to bs word_idx =
    if ltb bs.words_in_use (word_idx + 1)
    then record (ensure_capacity bs (word_idx + 1)) { words_in_use = word_idx + 1 }
    else bs

pub set_bit : BitSet → ℕ → BitSet
unfolding expand_to
set_bit bs idx =
    let bs' = expand_to bs (word_index idx) in
    record bs' {
      words =
          set bs'.words (word_index idx)
            (bit_or (get_or bs'.words (word_index idx) 0) (mask (slot idx)));
    }

-- The loop of `recalculateWordsInUse`, from `n` words down: one more than the last used index.
pub used_below : List ℕ → ℕ → ℕ
used_below words zero = 0
used_below words (suc n) =
    let rest = used_below words n in if get_or words n 0 == 0 then rest else suc n

pub recalculate_words_in_use : BitSet → BitSet
unfolding used_below
recalculate_words_in_use bs = record bs { words_in_use = used_below bs.words bs.words_in_use }

pub clear : BitSet → ℕ → BitSet
unfolding recalculate_words_in_use
clear bs idx =
    if leb bs.words_in_use (word_index idx)
    then bs
    else recalculate_words_in_use (record bs {
      words =
          set bs.words (word_index idx)
            (bit_and (get_or bs.words (word_index idx) 0) (2 ^ 64 - 1 - mask (slot idx)));
    })

-- The loop of `Equals` over the first `n` words.
pub same_words : ℕ → List ℕ → List ℕ → Bool
same_words zero xs ys = true
same_words (suc n) xs ys = same_words n xs ys && get_or xs n 0 == get_or ys n 0

pub equals : BitSet → BitSet → Bool
unfolding same_words
equals bs other =
    if not (bs.words_in_use == other.words_in_use)
    then false
    else same_words bs.words_in_use bs.words other.words

-- The words of a byte slice, eight bytes each; a last group that is short is padded with zeros.
pub words_of : ℕ → List ℕ → List ℕ
words_of zero data' = []
words_of (suc n) data' = of_le (take 8 data') ∷ words_of n (drop 8 data')

abbrev pub pad : List ℕ → List ℕ
pad bytes = if ltb 0 (length bytes % 8) then bytes ++ replicate (8 - length bytes % 8) 0 else bytes

pub from_bytes : List ℕ → BitSet
unfolding words_of recalculate_words_in_use new
from_bytes [] = new
from_bytes (b ∷ bs) =
    let bytes = pad (b ∷ bs) in
    let n = length bytes / 2 ^ 3 in
    recalculate_words_in_use (record { words = words_of n bytes; words_in_use = n })

pub bytes_of : ℕ → List ℕ → List ℕ
bytes_of zero words = []
bytes_of (suc n) [] = le_bytes 8 0 ++ bytes_of n []
bytes_of (suc n) (w ∷ ws) = le_bytes 8 w ++ bytes_of n ws

pub to_bytes : BitSet → List ℕ
unfolding bytes_of
to_bytes bs = bytes_of bs.words_in_use bs.words
