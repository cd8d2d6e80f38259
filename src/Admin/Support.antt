-- ===== src/Admin/Support.antt =====
-- What `checkClusterApiSupportedByServer` of cluster.go finds out about a server.
use mcgv.Base.{
  ℕ, ◌≡◌, refl, sym, ◌∙◌, arith, Bool, true, false, not, ◌&&◌, List, ok, inl, inr, Bool-cases, leb,
}
use mcgv.Stream.Out.{Out}
use mcgv.Protocol.{
  ProtocolVersion, supports, since_expiry_policy, since_bitmap_features, supports_bitmap_features,
  new_protocol_context, supports_attribute_feature,
}
use mcgv.Protocol.Order.{InRange, rank, supports_iff}
use mcgv.Admin.{check_cluster_api}

and_false : (b : Bool) → (b && false) ≡ false
and_false true = refl
and_false false = refl

-- A server with a bitmap of features has the cluster API.
bitmap_implies_api :
    (v : ProtocolVersion)
    → InRange v
    → supports v since_bitmap_features ≡ true
    → supports v since_expiry_policy ≡ true
bitmap_implies_api v h e =
    let low : InRange since_expiry_policy = record {
      major = omega arith;
      minor = omega arith;
      patch = omega arith;
    } in
    let high : InRange since_bitmap_features = record {
      major = omega arith;
      minor = omega arith;
      patch = omega arith;
    } in
    let above : leb (rank since_bitmap_features) (rank v) ≡ true =
      sym (supports_iff v since_bitmap_features h high) ∙ e in
    supports_iff v since_expiry_policy h low ∙ ground (arith, above)

-- For every version with no negative number, those before 1.6.0 included, and with any features,
-- `checkClusterApiSupportedByServer` returns no error on the context that `NewProtocolContext` makes of
-- them: the request goes on as it was written so far.
pub check_cluster_api-passes :
    (v : ProtocolVersion) (fs : List ℕ) (s : Out)
    → InRange v
    → check_cluster_api (new_protocol_context v fs) s ≡ ok s
unfolding check_cluster_api new_protocol_context supports_attribute_feature supports_bitmap_features
check_cluster_api-passes v fs s h = elim (Bool-cases (supports v since_bitmap_features)) [
  | inl e ↦ rw (bitmap_implies_api v h e) refl
  | inr e ↦ rw (e, and_false (not (supports v since_expiry_policy))) refl
]
