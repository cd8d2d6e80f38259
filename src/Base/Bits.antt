-- ===== src/Base/Bits.antt =====
-- Bits of a number, and the native bit operations in terms of them.
use Prim.Native.Nat.{ℕ, zero, suc, ◌+◌, ◌-◌, ◌*◌, ◌/◌, ◌%◌, ◌^◌, ◌≤◌, ◌<◌, min, max}
use Prim.Native.Nat.{bit_and, bit_or, digits, bit_and-bitwise, bit_or-bitwise}
use mathlib.Core.Path.{◌≡◌, refl, sym, ap, ◌∙◌}
use mathlib.Core.Bool.{Bool, true, false, not, ◌&&◌, ◌||◌}
use native.Mathlib.Omega.{arith}
use native.Mathlib.Nat.{pow-suc}
use mathlib.Core.Logic.{◌≢◌}
use mcgv.Base.Tests.{==_refl, ◌==◌, if◌then◌else◌}

-- Bit `i` of `n`.
abbrev pub bit : ℕ → ℕ → Bool
bit zero n = n % 2 == 1
bit (suc i) n = bit i (n / 2)

-- Any operation on digits, `z` once the left number has run out: a count of digits that covers the
-- left number gives the same result as any other.
module _ (z : ℕ → ℕ) (f : ℕ → ℕ → ℕ) where
  spare_digits : (m n c d : ℕ) → c ≤ m → c ≤ n → digits z f m c d ≡ digits z f n c d
  spare_digits zero n (suc c) d hm hn = absurd (omega arith)
  spare_digits zero zero zero d hm hn = refl
  spare_digits zero (suc n) zero d hm hn = refl
  spare_digits (suc m) zero (suc c) d hm hn = absurd (omega arith)
  spare_digits (suc m) zero zero d hm hn = refl
  spare_digits (suc m) (suc n) zero d hm hn = refl
  spare_digits (suc m) (suc n) (suc c) d hm hn =
      ap (λ (q : ℕ). q * 2 + f (suc c % 2) (d % 2))
        (spare_digits m n (suc c / 2) (d / 2) (omega arith) (omega arith))

  -- The lowest digit of the result, and the rest.
  split_digits :
      (c d : ℕ)
      → digits z f (suc c) (suc c) d
        ≡ digits z f (suc c / 2) (suc c / 2) (d / 2) * 2 + f (suc c % 2) (d % 2)
  split_digits c d =
      ap (λ (q : ℕ). q * 2 + f (suc c % 2) (d % 2))
        (spare_digits c (suc c / 2) (suc c / 2) (d / 2) (omega arith) (omega arith))

bit_and_step : (a b : ℕ) → bit_and a b ≡ bit_and (a / 2) (b / 2) * 2 + min (a % 2) (b % 2)
bit_and_step zero b = omega (arith, bit_and-bitwise zero (b / 2), bit_and-bitwise zero b)
bit_and_step (suc c) d =
    bit_and-bitwise (suc c) d
    ∙ split_digits (λ _. zero) min c d
    ∙ ap (λ (q : ℕ). q * 2 + min (suc c % 2) (d % 2)) (sym (bit_and-bitwise (suc c / 2) (d / 2)))

bit_or_step : (a b : ℕ) → bit_or a b ≡ bit_or (a / 2) (b / 2) * 2 + max (a % 2) (b % 2)
bit_or_step zero b = omega (arith, bit_or-bitwise zero (b / 2), bit_or-bitwise zero b)
bit_or_step (suc c) d =
    bit_or-bitwise (suc c) d
    ∙ split_digits (λ r. r) max c d
    ∙ ap (λ (q : ℕ). q * 2 + max (suc c % 2) (d % 2)) (sym (bit_or-bitwise (suc c / 2) (d / 2)))

pub bit-zero : (i : ℕ) → bit i 0 ≡ false
bit-zero zero = refl
bit-zero (suc i) = bit-zero i

pub bit-bit_or : (i a b : ℕ) → bit i (bit_or a b) ≡ bit i a || bit i b
bit-bit_or zero a b = ground (arith, bit_or_step a b)
bit-bit_or (suc i) a b =
    let half : bit_or a b / 2 ≡ bit_or (a / 2) (b / 2) = omega (arith, bit_or_step a b) in
    rw half (bit-bit_or i (a / 2) (b / 2))

pub bit-bit_and : (i a b : ℕ) → bit i (bit_and a b) ≡ bit i a && bit i b
bit-bit_and zero a b = ground (arith, bit_and_step a b)
bit-bit_and (suc i) a b =
    let half : bit_and a b / 2 ≡ bit_and (a / 2) (b / 2) = omega (arith, bit_and_step a b) in
    rw half (bit-bit_and i (a / 2) (b / 2))

pub pow_step : (k : ℕ) → 2 ^ suc k ≡ 2 * 2 ^ k
pow_step k = rw pow-suc (omega arith)

pub bit-pow : (i j : ℕ) → bit i (2 ^ j) ≡ (i == j)
bit-pow zero zero = refl
bit-pow zero (suc j) = ground (arith, pow_step j)
bit-pow (suc i) zero = ground (arith, bit-zero i)
bit-pow (suc i) (suc j) =
    let half : 2 ^ suc j / 2 ≡ 2 ^ j = omega (arith, pow_step j) in
    rw half (ground (arith, bit-pow i j))

-- The complement in a word of `k` bits.
pub bit-complement : (i k m : ℕ) → i < k → m < 2 ^ k → bit i (2 ^ k - 1 - m) ≡ not (bit i m)
bit-complement i zero m h hm = absurd (omega arith)
bit-complement zero (suc k) m h hm = ground (arith, pow_step k)
bit-complement (suc i) (suc k) m h hm =
    let half : (2 ^ suc k - 1 - m) / 2 ≡ 2 ^ k - 1 - m / 2 = omega (arith, pow_step k) in
    rw half (bit-complement i k (m / 2) (omega arith) (omega (arith, pow_step k)))

no_digits : (n c : ℕ) → digits (λ _. zero) min n c 0 ≡ 0
no_digits zero c = refl
no_digits (suc n) zero = refl
no_digits (suc n) (suc c) = omega (arith, no_digits n (suc c / 2))

bit_and-zero : (w : ℕ) → bit_and w 0 ≡ 0
bit_and-zero w = bit_and-bitwise w 0 ∙ no_digits w w

-- Masking with a single bit keeps that bit.
pub bit_and-pow : (i w : ℕ) → bit_and w (2 ^ i) ≡ (if bit i w then 2 ^ i else 0)
bit_and-pow zero w = ground (arith, bit_and_step w 1, bit_and-zero (w / 2))
bit_and-pow (suc i) w =
    let half : 2 ^ suc i / 2 ≡ 2 ^ i = omega (arith, pow_step i) in
    let low : 2 ^ suc i % 2 ≡ 0 = omega (arith, pow_step i) in
    let step : bit_and w (2 ^ suc i) ≡ bit_and (w / 2) (2 ^ i) * 2 + 0 =
      bit_and_step w (2 ^ suc i) ∙ rw (half, low) (omega arith) in
    ground (arith, step, bit_and-pow i (w / 2), pow_step i)

pub bit_and-lt : (k a b : ℕ) → a < 2 ^ k → bit_and a b < 2 ^ k
bit_and-lt zero a b h = ground (arith, bit_and_step a b, bit_and-bitwise 0 (b / 2))
bit_and-lt (suc k) a b h =
    omega (
      arith,
      pow_step k,
      bit_and_step a b,
      bit_and-lt k (a / 2) (b / 2) (omega (arith, pow_step k)),
    )

pub bit_or-lt : (k a b : ℕ) → a < 2 ^ k → b < 2 ^ k → bit_or a b < 2 ^ k
bit_or-lt zero zero zero h g = omega (arith, bit_or-bitwise 0 0)
bit_or-lt zero zero (suc b) h g = absurd (omega arith)
bit_or-lt zero (suc a) b h g = absurd (omega arith)
bit_or-lt (suc k) a b h g = omega (
  arith,
  pow_step k,
  bit_or_step a b,
  bit_or-lt k (a / 2) (b / 2) (omega (arith, pow_step k)) (omega (arith, pow_step k)),
)

pub pow-positive : (k : ℕ) → 0 < 2 ^ k
pow-positive zero = omega arith
pow-positive (suc k) = omega (arith, pow_step k, pow-positive k)

pub masked_bit : (i w : ℕ) → not (bit_and w (2 ^ i) == 0) ≡ bit i w
masked_bit i w = rw bit_and-pow (ground (arith, pow-positive i))

pub pow-lt : (i k : ℕ) → i < k → 2 ^ i < 2 ^ k
pow-lt i zero h = absurd (omega arith)
pow-lt zero (suc k) h = omega (arith, pow_step k, pow-positive k)
pow-lt (suc i) (suc k) h = omega (arith, pow_step i, pow_step k, pow-lt i k (omega arith))

bit_or-ge_fuel : (n a b : ℕ) → a ≤ n → a ≤ bit_or a b
bit_or-ge_fuel n zero b h = omega arith
bit_or-ge_fuel zero (suc a) b h = absurd (omega arith)
bit_or-ge_fuel (suc n) (suc a) b h =
    omega (arith, bit_or_step (suc a) b, bit_or-ge_fuel n (suc a / 2) (b / 2) (omega arith))

pub bit_or-ge : (a b : ℕ) → a ≤ bit_or a b
bit_or-ge a b = bit_or-ge_fuel a a b (omega arith)

or_true : (b : Bool) → b || true ≡ true
or_true true = refl
or_true false = refl

-- A number with a bit set is not zero.
pub bit_or-pow_ne : (a i : ℕ) → bit_or a (2 ^ i) ≢ 0
bit_or-pow_ne a i e = cc (
  sym (bit-zero i),
  ap (bit i) (sym e),
  bit-bit_or i a (2 ^ i),
  bit-pow i i,
  ==_refl i,
  or_true (bit i a),
)

pub zero-bit_and : (b : ℕ) → bit_and 0 b ≡ 0
zero-bit_and b = bit_and-bitwise 0 b
