-- ===== src/Cache.antt =====
-- cache.go: expiry policies, and the head of the requests of a cache. The operations are in Operations.
pub mod Durations
pub mod Client
pub mod Operations
pub mod Calls
pub mod Requests
pub mod Results
pub mod Wire
pub mod Answered
mod Tests
use mcgv.Base.{
  ℕ, ◌-◌, ◌*◌, ◌/◌, ◌%◌, ◌^◌, Bool, true, false, not, Option, none, some, ok, err, panic, bit_and,
  bit_or,
}
use mcgv.Base.{ltb, leb, ◌==◌, if◌then◌else◌, String}
use mcgv.Base.Int.{ℤ, pos, negsuc, signed}
use mcgv.Stream.Types.{not_supported}
use mcgv.Stream.Out.{Write, ◌▸◌, write_uint8, write_uint32, write_uint64}
use mcgv.Protocol.{ProtocolContext, supports, since_expiry_policy}

-- `durationToMillis`: a `time.Duration` is its nanoseconds, of which `Milliseconds` drops the rest.
unfoldable pub duration_to_millis : ℤ → ℤ
duration_to_millis (pos n) = if ltb 0 n then pos (n / 1000000) else pos n
duration_to_millis (negsuc n) = if leb 1 n then negsuc 1 else negsuc n

-- `millisToDuration`: the product wraps.
unfoldable pub millis_to_duration : ℤ → ℤ
millis_to_duration (pos n) = if ltb 0 n then signed 64 (n * 1000000 % 2 ^ 64) else pos n
millis_to_duration (negsuc n) = negsuc n

-- The bit pattern of an int64.
unfoldable pub int64_of : ℤ → ℕ
int64_of (pos n) = n % 2 ^ 64
int64_of (negsuc n) = 2 ^ 64 - 1 - n

pub record ExpiryPolicy : Type 0 where
  pub creation : ℤ
  pub access : ℤ
  pub update : ℤ

-- `Cache` but for its client. The id is the bit pattern of an int32.
pub record Cache : Type 0 where
  pub expiry_policy : Option ExpiryPolicy
  pub name : String
  pub id : ℕ

-- `WithExpiryPolicy`
unfoldable pub with_expiry_policy : ℤ → ℤ → ℤ → Cache → Cache
with_expiry_policy creation access update cache = record {
  expiry_policy = some (record { creation = creation; access = access; update = update });
  name = cache.name;
  id = cache.id;
}

abbrev pub keep_binary_mask : ℕ
keep_binary_mask = 1

abbrev pub transactional_mask : ℕ
transactional_mask = 2

abbrev pub expiry_policy_mask : ℕ
expiry_policy_mask = 4

-- The bit that a test sets.
abbrev pub flag_if : Bool → ℕ → ℕ
flag_if set mask = if set then mask else 0

abbrev pub is_set {ℓ} : {A : Type ℓ} → Option A → Bool
is_set o = elim o [ none ↦ false | some v ↦ true ]

abbrev pub cache_flags : Bool → Option ExpiryPolicy → Option ℕ → ℕ
cache_flags keep_binary policy tx_id =
    bit_or
      (bit_or (flag_if keep_binary keep_binary_mask) (flag_if (is_set policy) expiry_policy_mask))
      (flag_if (is_set tx_id) transactional_mask)

-- An expiry policy needs a protocol that supports it. A nil context panics.
unfoldable pub check_policy : Option ProtocolContext → Option ExpiryPolicy → Write
check_policy ctx none = ok
check_policy none (some policy) = λ s. panic
check_policy (some ctx) (some policy) =
    λ s. if supports ctx.version since_expiry_policy then ok s else err not_supported

unfoldable pub write_policy : Option ExpiryPolicy → Write
write_policy none = λ s. panic
write_policy (some policy) =
    write_uint64 (int64_of (duration_to_millis policy.creation))
    ▸ write_uint64 (int64_of (duration_to_millis policy.update))
    ▸ write_uint64 (int64_of (duration_to_millis policy.access))

unfoldable pub write_tx_id : Option ℕ → Write
write_tx_id none = λ s. panic
write_tx_id (some tx_id) = write_uint32 tx_id

-- `writeCacheInfo`; the transaction is that of the context.
unfoldable pub write_cache_info :
    Option ℕ → Option ProtocolContext → ℕ → Option ExpiryPolicy → Bool → Write
unfolding check_policy write_policy write_tx_id
write_cache_info tx_id ctx cache_id policy keep_binary =
    let flag = cache_flags keep_binary policy tx_id in
    write_uint32 cache_id
    ▸ check_policy ctx policy
    ▸ write_uint8 flag
    ▸ (if not (bit_and flag expiry_policy_mask == 0) then write_policy policy else ok)
    ▸ (if not (bit_and flag transactional_mask == 0) then write_tx_id tx_id else ok)
