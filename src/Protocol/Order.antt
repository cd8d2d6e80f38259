-- ===== src/Protocol/Order.antt =====
-- The order on versions that `Compare` of protocol_context.go decides.
use mcgv.Base.{ℕ, ◌+◌, ◌*◌, ◌^◌, ◌<◌, ◌≡◌, ◌∙◌, arith, inl, inr}
use mcgv.Base.{leb, ◌==◌, Bool-cases}
use mcgv.Base.Int.{signed}
use mcgv.Protocol.{ProtocolVersion, diff16, compare_to, is_at_least_zero, supports}

-- No number of the version is negative.
pub record InRange (v : ProtocolVersion) : Type 0 where
  pub major : v.major < 2 ^ 15
  pub minor : v.minor < 2 ^ 15
  pub patch : v.patch < 2 ^ 15

-- The numbers of a version as the digits of one.
abbrev pub rank : ProtocolVersion → ℕ
rank v = v.major * 2 ^ 30 + v.minor * 2 ^ 15 + v.patch

-- A difference of numbers in range does not wrap.
diff16_sign :
    (a b : ℕ) → a < 2 ^ 15 → b < 2 ^ 15 → is_at_least_zero (signed 16 (diff16 a b)) ≡ leb b a
diff16_sign a b h k = ground arith

diff16_zero : (a b : ℕ) → a < 2 ^ 15 → b < 2 ^ 15 → (diff16 a b == 0) ≡ (a == b)
diff16_zero a b h k = ground arith

-- On versions with no negative number, a version supports what came with another exactly if it is not
-- before it in the lexicographic order.
pub supports_iff :
    (v since : ProtocolVersion)
    → InRange v
    → InRange since
    → supports v since ≡ leb (rank since) (rank v)
unfolding supports compare_to
supports_iff v since h k = elim (Bool-cases (v.major == since.major)) [
  | inr differ ↦
      rw (diff16_zero v.major since.major h.major k.major, differ)
        (diff16_sign v.major since.major h.major k.major
          ∙ ground (arith, h.minor, h.patch, k.minor, k.patch))
  | inl same ↦
      rw (diff16_zero v.major since.major h.major k.major, same)
        (elim (Bool-cases (v.minor == since.minor)) [
          | inr differ ↦
              rw (diff16_zero v.minor since.minor h.minor k.minor, differ)
                (diff16_sign v.minor since.minor h.minor k.minor
                  ∙ ground (arith, same, h.patch, k.patch))
          | inl same' ↦
              rw (diff16_zero v.minor since.minor h.minor k.minor, same')
                (diff16_sign v.patch since.patch h.patch k.patch ∙ ground (arith, same, same'))
        ])
]
