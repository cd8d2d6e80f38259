-- ===== src/Cache/Durations.antt =====
-- Durations as they are sent.
use mcgv.Base.{ℕ, zero, suc, true, ◌+◌, ◌*◌, ◌/◌, ◌%◌, ◌^◌, ◌≤◌, ◌<◌, ◌≡◌, refl, arith, inl, inr}
use mcgv.Base.{Bool-cases, ltb, leb}
use mcgv.Base.Int.{ℤ, pos, negsuc}
use mcgv.Cache.{duration_to_millis, millis_to_duration}

-- What is left of a duration that is sent and read back: a positive one is cut to whole milliseconds,
-- and one below -2 is -2.
abbrev pub IsCut : ℤ → ℤ → Type 0
IsCut (pos n) back = (m : ℕ) × (back ≡ pos m) × (m ≤ n) × (n < m + 1000000) × (m % 1000000 ≡ 0)
IsCut (negsuc zero) back = back ≡ negsuc 0
IsCut (negsuc (suc n)) back = back ≡ negsuc 1

abbrev IsInt64 : ℤ → Type 0
IsInt64 (pos n) = n < 2 ^ 63
IsInt64 (negsuc n) = n < 2 ^ 63

whole :
    (n : ℕ)
    → n < 2 ^ 63
    → millis_to_duration (duration_to_millis (pos n)) ≡ pos (n / 1000000 * 1000000)
unfolding millis_to_duration duration_to_millis
whole n h = elim (Bool-cases (ltb 0 n)) [
  | inl e ↦ elim (Bool-cases (ltb 0 (n / 1000000))) [
    | inl e' ↦
        let small : n / 1000000 * 1000000 % 2 ^ 64 ≡ n / 1000000 * 1000000 = omega arith in
        let positive : ltb (n / 1000000 * 1000000) (2 ^ 63) ≡ true = ground arith in
        rw (e, e', small, positive) refl
    | inr e' ↦ let none_left : n / 1000000 ≡ 0 = ground arith in rw (e, none_left) refl
  ]
  | inr e ↦ let zero_here : n ≡ 0 = ground arith in rw zero_here refl
]

-- For every duration of 64 bits, `millisToDuration` of `durationToMillis` does not overflow: a duration
-- from 0 on gives the greatest multiple of a millisecond that is not above it, -1 and -2 give themselves,
-- and a duration below -2 gives -2.
pub millis_to_duration-IsCut :
    (d : ℤ) → IsInt64 d → IsCut d (millis_to_duration (duration_to_millis d))
unfolding millis_to_duration duration_to_millis
millis_to_duration-IsCut (pos n) h =
    (n / 1000000 * 1000000, whole n h, omega arith, omega arith, omega arith)
millis_to_duration-IsCut (negsuc zero) h = refl
millis_to_duration-IsCut (negsuc (suc n)) h =
    let low : leb 1 (suc n) ≡ true = ground arith in rw low refl
