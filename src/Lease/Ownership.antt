-- ===== src/Lease/Ownership.antt =====
-- ownership.go, ownership_policy.go, ownership_validation.go, lease_config.go: what a registry asks of
-- a policy, and of a buffer that is released.
use bufferpool.Base.{
  ℕ, ◌+◌, ◌*◌, ◌/◌, ◌%◌, ◌^◌, Bool, true, false, not, ◌&&◌, ◌||◌, ltb, leb, ◌==◌, if◌then◌else◌,
  Option, none, some, Result, ok, err, ◌>>◌, fail_if, max_uint64,
}
use bufferpool.Size.{ClassSize}
use bufferpool.Slice.{Slice, nil, view, capacity, is_nil, reslice_empty}
use bufferpool.Policy.{
  OwnershipPolicy, OwnershipMode, PolicyRatio, policy_ratio_scale, ownership_is_zero,
}
use bufferpool.Policy.Defaults.{default_policy_max_returned_capacity_growth}
use bufferpool.Lease.Counters.{OwnershipViolationKind}
use bufferpool.Lease.{
  LeaseRecord, LeaseError, release_nil_buffer, release_zero_capacity, release_foreign_buffer,
  release_capacity_growth,
}

abbrev pub requires_lease : OwnershipMode → Bool
requires_lease OwnershipMode.accounting = true
requires_lease OwnershipMode.strict = true
requires_lease _ = false

abbrev pub is_strict_mode : OwnershipMode → Bool
is_strict_mode OwnershipMode.strict = true
is_strict_mode _ = false

abbrev pub tracks_in_use : OwnershipPolicy → Bool
tracks_in_use p = p.track_in_use_bytes || p.track_in_use_buffers || requires_lease p.mode

abbrev pub detects_double_release : OwnershipPolicy → Bool
detects_double_release p = p.detect_double_release || requires_lease p.mode

abbrev pub enforces_strict_buffer_identity : OwnershipPolicy → Bool
enforces_strict_buffer_identity p = is_strict_mode p.mode

abbrev pub enforces_capacity_growth : OwnershipPolicy → Bool
enforces_capacity_growth p = requires_lease p.mode && not (p.max_returned_capacity_growth == 0)

abbrev pub accounting_ownership_policy : OwnershipPolicy
accounting_ownership_policy = record {
  mode = OwnershipMode.accounting;
  track_in_use_bytes = true;
  track_in_use_buffers = true;
  detect_double_release = true;
  max_returned_capacity_growth = default_policy_max_returned_capacity_growth;
}

abbrev pub strict_ownership_policy : OwnershipPolicy
strict_ownership_policy = record {
  mode = OwnershipMode.strict;
  track_in_use_bytes = true;
  track_in_use_buffers = true;
  detect_double_release = true;
  max_returned_capacity_growth = default_policy_max_returned_capacity_growth;
}

-- `case OwnershipModeAccounting`, `case OwnershipModeStrict`
abbrev pub with_tracking : OwnershipPolicy → OwnershipPolicy
with_tracking p =
    if requires_lease p.mode
    then record p {
      track_in_use_bytes = true;
      track_in_use_buffers = true;
      detect_double_release = true;
    }
    else p

abbrev pub with_growth : OwnershipPolicy → OwnershipPolicy
with_growth p =
    if p.max_returned_capacity_growth == 0
    then record p { max_returned_capacity_growth = default_policy_max_returned_capacity_growth }
    else p

abbrev pub is_unset_mode : OwnershipMode → Bool
is_unset_mode OwnershipMode.unset = true
is_unset_mode _ = false

unfoldable pub normalize_for_lease_registry : OwnershipPolicy → OwnershipPolicy
unfolding ownership_is_zero
normalize_for_lease_registry p =
    if ownership_is_zero p || is_unset_mode p.mode
    then strict_ownership_policy
    else with_tracking (with_growth p)

pub data ConfigError : Type 0 where
  no_lease_mode unsupported_mode missing_growth_ratio : ConfigError

abbrev pub validate_lease_mode : OwnershipMode → Result ConfigError (Unit {0})
validate_lease_mode OwnershipMode.accounting = ok tt
validate_lease_mode OwnershipMode.strict = ok tt
validate_lease_mode OwnershipMode.none = err no_lease_mode
validate_lease_mode OwnershipMode.unset = err no_lease_mode
validate_lease_mode (OwnershipMode.unknown value) = err unsupported_mode

unfoldable pub validate_for_lease_registry : OwnershipPolicy → Result ConfigError (Unit {0})
validate_for_lease_registry p =
    validate_lease_mode p.mode
    >> fail_if (is_strict_mode p.mode && p.max_returned_capacity_growth == 0) missing_growth_ratio

-- bufferBackingData: the address of the first byte, nil without capacity
abbrev pub buffer_backing_data : Slice → Option ℕ
buffer_backing_data nil = none
buffer_backing_data (view base len cap) = if cap == 0 then none else some base

abbrev pub same_address : Option ℕ → Option ℕ → Bool
same_address none none = true
same_address (some a) (some b) = a == b
same_address _ _ = false

-- bits.Mul64 is the high and the low word of the product, bits.Div64 divides them.
unfoldable pub ownership_max_returned_capacity : ClassSize → PolicyRatio → ℕ
ownership_max_returned_capacity origin ratio =
    let hi = (origin * ratio) / 2 ^ 64 in
    let lo = (origin * ratio) % 2 ^ 64 in
    let value = (hi * 2 ^ 64 + lo) / policy_ratio_scale in
    if ratio == 0
    then origin
    else if leb policy_ratio_scale hi
    then max_uint64
    else if value == 0
    then 1
    else value

pub record Refusal : Type 0 where
  pub violation : OwnershipViolationKind
  pub error : LeaseError

abbrev pub refuse : OwnershipViolationKind → LeaseError → Refusal
refuse v e = record { violation = v; error = e }

unfoldable pub validate_lease_release :
    LeaseRecord → Slice → OwnershipPolicy → Result Refusal (Unit {0})
unfolding ownership_max_returned_capacity
validate_lease_release r buffer policy =
    fail_if (is_nil buffer) (refuse OwnershipViolationKind.nil_buffer release_nil_buffer)
    >> fail_if (capacity buffer == 0)
        (refuse OwnershipViolationKind.zero_capacity release_zero_capacity)
    >> fail_if
        (enforces_strict_buffer_identity policy
          && not (same_address (buffer_backing_data buffer) r.base))
        (refuse OwnershipViolationKind.foreign_buffer release_foreign_buffer)
    >> fail_if
        (enforces_capacity_growth policy
          && ltb
              (ownership_max_returned_capacity r.origin_class policy.max_returned_capacity_growth)
              (capacity buffer))
        (refuse OwnershipViolationKind.capacity_growth release_capacity_growth)

-- canonicalLeaseReturnBuffer
unfoldable pub canonical_return_buffer : LeaseRecord → Slice → OwnershipPolicy → Slice
canonical_return_buffer r buffer policy =
    if enforces_strict_buffer_identity policy then reslice_empty r.buffer else buffer
