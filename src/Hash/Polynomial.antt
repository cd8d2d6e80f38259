-- ===== src/Hash/Polynomial.antt =====
-- `SliceHashCode` of internal/utils.go as the polynomial of Java's `Arrays.hashCode`.
use mcgv.Base.{
  ℕ, suc, ◌+◌, ◌*◌, ◌/◌, ◌%◌, ◌^◌, ◌<◌, ◌≡◌, sym, ap, ◌∙◌, arith, List, [], ◌∷◌, length,
}
use native.Mathlib.Nat.{pow-suc, add-mul-mod_self_left}
use mcgv.Hash.{slice_hash_code, slice_hash_loop, mix, sign_extend}

-- Each byte with its weight, the last with the weight 1.
abbrev pub weighted : List ℕ → ℕ
weighted [] = 0
weighted (b ∷ bs) = 31 ^ length bs * sign_extend b + weighted bs

regroup : (k q r w M : ℕ) → k * (M * q + r) + w ≡ M * (k * q) + (k * r + w)
regroup k q r w M = grind arith

mod_inner : (k x w : ℕ) → (k * (x % 2 ^ 32) + w) % 2 ^ 32 ≡ (k * x + w) % 2 ^ 32
mod_inner k x w =
    let parts : x ≡ 2 ^ 32 * (x / 2 ^ 32) + x % 2 ^ 32 = omega arith in
    sym (
      ap (λ y. (k * y + w) % 2 ^ 32) parts
      ∙ ap (λ y. y % 2 ^ 32) (regroup k (x / 2 ^ 32) (x % 2 ^ 32) w (2 ^ 32))
      ∙ ap (λ y. y % 2 ^ 32) (swap (2 ^ 32 * (k * (x / 2 ^ 32))) (k * (x % 2 ^ 32) + w))
      ∙ add-mul-mod_self_left (k * (x % 2 ^ 32) + w) (2 ^ 32) (k * (x / 2 ^ 32)))
  where
    swap : (a b : ℕ) → a + b ≡ b + a
    swap a b = omega arith

-- Horner's rule, one step.
step : (p h x w : ℕ) → p * (31 * h + x) + w ≡ 31 * p * h + (p * x + w)
step p h x w = grind arith

slice_hash_loop_lem :
    (bs : List ℕ) (hash : ℕ)
    → hash < 2 ^ 32
    → slice_hash_loop hash bs ≡ (31 ^ length bs * hash + weighted bs) % 2 ^ 32
unfolding slice_hash_loop
slice_hash_loop_lem [] hash h = omega arith
slice_hash_loop_lem (b ∷ bs) hash h =
    slice_hash_loop_lem bs (mix hash (sign_extend b)) (omega arith)
    ∙ mod_inner (31 ^ length bs) (31 * hash + sign_extend b) (weighted bs)
    ∙ ap (λ y. y % 2 ^ 32)
        (step (31 ^ length bs) hash (sign_extend b) (weighted bs)
          ∙ ap (λ p. p * hash + (31 ^ length bs * sign_extend b + weighted bs)) (power (length bs)))
  where
    power : (n : ℕ) → 31 * 31 ^ n ≡ 31 ^ suc n
    power n = rw pow-suc (omega arith)

-- The hash code of n bytes is 31 ^ n and the sum of the bytes, each extended with its sign to 32 bits and
-- times the power of 31 that its place from the end says, modulo 2 ^ 32.
pub slice_hash_code_lem :
    (bs : List ℕ) → slice_hash_code bs ≡ (31 ^ length bs + weighted bs) % 2 ^ 32
unfolding slice_hash_code
slice_hash_code_lem bs =
    slice_hash_loop_lem bs 1 (omega arith)
    ∙ ap (λ y. (y + weighted bs) % 2 ^ 32) (one (31 ^ length bs))
  where
    one : (y : ℕ) → y * 1 ≡ y
    one y = omega arith
