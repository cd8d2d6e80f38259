-- ===== src/Protocol/Tests.antt =====
-- Contexts of protocol_context.go, and the theorems at concrete inputs.
use mcgv.Base.{ℕ, ◌≡◌, refl, arith, ◌&&◌, List, [], ◌∷◌}
use mcgv.Base.Int.{negsuc}
use mcgv.Protocol.{
  ProtocolVersion, version_of, compare_to, supports_bitmap_features, new_protocol_context,
  supports_attribute_feature,
}
use mcgv.Protocol.Features.{is_among, new_protocol_context_features}

abbrev v1_7_0 : ProtocolVersion
v1_7_0 = version_of 1 7 0

compare_run : compare_to (version_of 1 4 0) v1_7_0 ≡ negsuc 2
unfolding compare_to
compare_run = refl

-- UserAttributesFeature, ClusterGroupsFeature and IndexQueryFeature
abbrev some_features : List ℕ
some_features = 0 ∷ 4 ∷ 14 ∷ []

new_protocol_context_features_example :
    supports_attribute_feature (new_protocol_context v1_7_0 some_features) 4
    ≡ (supports_bitmap_features v1_7_0 && is_among 4 some_features)
new_protocol_context_features_example =
    new_protocol_context_features v1_7_0 some_features 4
      (omega arith, (omega arith, (omega arith, tt))) (omega arith)
