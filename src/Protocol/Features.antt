-- ===== src/Protocol/Features.antt =====
-- The features of a context of protocol_context.go.
use mcgv.Base.{ℕ, ◌<◌, ◌≡◌, refl, ◌∙◌, Bool, true, false, ◌&&◌, ◌||◌, List, [], ◌∷◌}
use mcgv.Base.{inl, inr, ◌==◌, All, Bool-cases}
use mcgv.Bitset.{BitSet, new, set_bit, test}
use mcgv.Bitset.Valid.{IsValid, new-IsValid}
use mcgv.Bitset.Update.{set_bit-IsValid}
use mcgv.Bitset.Membership.{test-new, test-set_bit, shared_small}
use mcgv.Protocol.{
  ProtocolVersion, supports_bitmap_features, with_features, new_protocol_context,
  supports_attribute_feature,
}

-- Whether `f` is among the features.
abbrev pub is_among : ℕ → List ℕ → Bool
is_among f [] = false
is_among f (g ∷ gs) = g == f || is_among f gs

or_swap : (a b c : Bool) → (a || (b || c)) ≡ ((b || a) || c)
or_swap true true c = refl
or_swap true false c = refl
or_swap false true c = refl
or_swap false false c = refl

or_false : (a : Bool) → (a || false) ≡ a
or_false true = refl
or_false false = refl

test-with_features :
    (bs : BitSet) (fs : List ℕ) (f : ℕ)
    → IsValid bs
    → All (λ g. g < 64) fs
    → f < 64
    → test (with_features bs fs) f ≡ (is_among f fs || test bs f)
unfolding with_features
test-with_features bs [] f v small h = refl
test-with_features bs (g ∷ gs) f v small h =
    test-with_features (set_bit bs g) gs f (set_bit-IsValid bs g v) small.1 h
    ∙ rw (test-set_bit bs g f v, shared_small g f small.0 h)
        (or_swap (is_among f gs) (g == f) (test bs f))

-- A context that `NewProtocolContext` makes supports just the features it was given, if its version has
-- a bitmap of features, and none otherwise. The features are numbers below 64, as all declared ones are.
pub new_protocol_context_features :
    (v : ProtocolVersion) (fs : List ℕ) (f : ℕ)
    → All (λ g. g < 64) fs
    → f < 64
    → supports_attribute_feature (new_protocol_context v fs) f
      ≡ (supports_bitmap_features v && is_among f fs)
unfolding supports_attribute_feature new_protocol_context
new_protocol_context_features v fs f small h = elim (Bool-cases (supports_bitmap_features v)) [
  | inl e ↦
      rw e (
        test-with_features new fs f new-IsValid small h
        ∙ rw (test-new f) (or_false (is_among f fs)))
  | inr e ↦ rw e refl
]
