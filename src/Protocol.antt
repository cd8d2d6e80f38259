-- ===== src/Protocol.antt =====
-- protocol_context.go: versions of the protocol, and the features that a server has. A number of a
-- version is the bit pattern of an int16.
pub mod Order
pub mod Features
mod Tests
use mcgv.Base.{ℕ, ◌+◌, ◌-◌, ◌%◌, ◌^◌, Bool, true, false, not, List, [], ◌∷◌, Option, none, some}
use mcgv.Base.{ok, panic, ◌==◌, if◌then◌else◌}
use mcgv.Base.Int.{ℤ, pos, negsuc, signed}
use mcgv.Bitset.{BitSet, new, set_bit, test, to_bytes}
use mcgv.Stream.Out.{Write, ◌▸◌, write_uint8, write_uint16, write_type}
use mcgv.Marshal.Types.{byte_array_type, code}
use mcgv.Marshal.Writer.{write_counted}

pub record ProtocolVersion : Type 0 where
  pub major : ℕ
  pub minor : ℕ
  pub patch : ℕ

-- The difference of two int16, which wraps.
abbrev pub diff16 : ℕ → ℕ → ℕ
diff16 a b = (a + 2 ^ 16 - b) % 2 ^ 16

-- `Compare`
unfoldable pub compare_to : ProtocolVersion → ProtocolVersion → ℤ
compare_to curr other =
    if not (diff16 curr.major other.major == 0)
    then signed 16 (diff16 curr.major other.major)
    else if not (diff16 curr.minor other.minor == 0)
    then signed 16 (diff16 curr.minor other.minor)
    else signed 16 (diff16 curr.patch other.patch)

-- `>= 0`
abbrev pub is_at_least_zero : ℤ → Bool
is_at_least_zero (pos n) = true
is_at_least_zero (negsuc n) = false

abbrev pub version_of : ℕ → ℕ → ℕ → ProtocolVersion
version_of a b c = record { major = a; minor = b; patch = c }

-- The methods `Supports`, by the version that each asks for.
unfoldable pub supports : ProtocolVersion → ProtocolVersion → Bool
unfolding compare_to
supports version since = is_at_least_zero (compare_to version since)

abbrev pub since_authorization : ProtocolVersion
since_authorization = version_of 1 1 0

abbrev pub since_query_entity_precision_and_scale : ProtocolVersion
since_query_entity_precision_and_scale = version_of 1 2 0

abbrev pub since_partition_awareness : ProtocolVersion
since_partition_awareness = version_of 1 4 0

abbrev pub since_transactions : ProtocolVersion
since_transactions = version_of 1 5 0

-- Also of `SupportsClusterApi`.
abbrev pub since_expiry_policy : ProtocolVersion
since_expiry_policy = version_of 1 6 0

abbrev pub since_bitmap_features : ProtocolVersion
since_bitmap_features = version_of 1 7 0

-- `features` is none for nil.
pub record ProtocolContext : Type 0 where
  pub version : ProtocolVersion
  pub features : Option BitSet

unfoldable pub supports_bitmap_features : ProtocolVersion → Bool
unfolding supports
supports_bitmap_features version = supports version since_bitmap_features

-- The loop of `NewProtocolContext`.
unfoldable pub with_features : BitSet → List ℕ → BitSet
with_features bs [] = bs
with_features bs (f ∷ fs) = with_features (set_bit bs f) fs

-- `NewProtocolContext`
unfoldable pub new_protocol_context : ProtocolVersion → List ℕ → ProtocolContext
unfolding supports_bitmap_features with_features
new_protocol_context v fs = record {
  version = v;
  features = if supports_bitmap_features v then some (with_features new fs) else none;
}

-- `updateAttributeFeatures`
unfoldable pub update_attribute_features : ProtocolContext → Option BitSet → ProtocolContext
update_attribute_features ctx none = ctx
update_attribute_features ctx (some bs) = record ctx { features = some bs }

-- `SupportsAttributeFeature`
unfoldable pub supports_attribute_feature : ProtocolContext → ℕ → Bool
supports_attribute_feature ctx f = elim ctx.features [ none ↦ false | some bs ↦ test bs f ]

-- The bitmap of `marshal`; `Bytes` of nil panics.
unfoldable pub write_features : Option BitSet → Write
write_features none s = panic
write_features (some bs) s = (write_type (code byte_array_type) ▸ write_counted (to_bytes bs)) s

-- `ProtocolContext.marshal`
unfoldable pub write_context : ProtocolContext → Write
unfolding supports_bitmap_features write_features
write_context ctx =
    let features =
      if supports_bitmap_features ctx.version then write_features ctx.features else ok in
    write_uint16 ctx.version.major
    ▸ write_uint16 ctx.version.minor
    ▸ write_uint16 ctx.version.patch
    ▸ write_uint8 2
    ▸ features
