-- ===== src/Policy.antt =====
-- policy.go: what a pool is configured with. An enumeration is a uint8: the values that the source
-- names, and `unknown` for the others. A ratio is its basis points, a duration its nanoseconds.
pub mod Report
pub mod Sections
pub mod Behaviour
pub mod Validate
pub mod Retention
pub mod Laws
pub mod Admission
pub mod Pressure
pub mod Acting
pub mod Valid
pub mod Serves
mod Tests
pub mod Shape
pub mod Defaults
pub mod Profiles
use bufferpool.Base.{ℕ, ◌*◌, Bool, true, false, not, ◌&&◌, List, ◌==◌, length}
use bufferpool.Base.Int.{ℤ, is_zero_int}
use bufferpool.Size.{Size, ClassSize, is_zero}

pub data ShardSelectionMode : Type 0 where
  unset single round_robin random processor_inspired affinity : ShardSelectionMode
  unknown : ℕ → ShardSelectionMode

pub data ZeroSizeRequestPolicy : Type 0 where
  unset smallest_class empty_buffer reject : ZeroSizeRequestPolicy
  unknown : ℕ → ZeroSizeRequestPolicy

pub data ReturnedBufferPolicy : Type 0 where
  unset admit drop : ReturnedBufferPolicy
  unknown : ℕ → ReturnedBufferPolicy

pub data AdmissionAction : Type 0 where
  unset drop ignore error : AdmissionAction
  unknown : ℕ → AdmissionAction

pub data OwnershipMode : Type 0 where
  unset none accounting strict : OwnershipMode
  unknown : ℕ → OwnershipMode

abbrev pub PolicyRatio : Type 0
PolicyRatio = ℕ

abbrev pub policy_ratio_scale : ℕ
policy_ratio_scale = 10000

abbrev pub policy_ratio_one : PolicyRatio
policy_ratio_one = policy_ratio_scale

-- time.Duration
abbrev pub Duration : Type 0
Duration = ℤ

-- `m == ShardSelectionModeUnset`, and so on
abbrev pub is_unset_selection : ShardSelectionMode → Bool
is_unset_selection ShardSelectionMode.unset = true
is_unset_selection _ = false

abbrev pub is_unset_request : ZeroSizeRequestPolicy → Bool
is_unset_request ZeroSizeRequestPolicy.unset = true
is_unset_request _ = false

abbrev pub is_unset_returned : ReturnedBufferPolicy → Bool
is_unset_returned ReturnedBufferPolicy.unset = true
is_unset_returned _ = false

abbrev pub is_unset_action : AdmissionAction → Bool
is_unset_action AdmissionAction.unset = true
is_unset_action _ = false

abbrev pub is_unset_ownership : OwnershipMode → Bool
is_unset_ownership OwnershipMode.unset = true
is_unset_ownership _ = false

pub record RetentionPolicy : Type 0 where
  pub soft_retained_bytes : Size
  pub hard_retained_bytes : Size
  pub max_retained_buffers : ℕ
  pub max_request_size : Size
  pub max_retained_buffer_capacity : Size
  pub max_class_retained_bytes : Size
  pub max_class_retained_buffers : ℕ
  pub max_shard_retained_bytes : Size
  pub max_shard_retained_buffers : ℕ

unfoldable pub retention_is_zero : RetentionPolicy → Bool
retention_is_zero r =
    is_zero r.soft_retained_bytes
    && is_zero r.hard_retained_bytes
    && r.max_retained_buffers == 0
    && is_zero r.max_request_size
    && is_zero r.max_retained_buffer_capacity
    && is_zero r.max_class_retained_bytes
    && r.max_class_retained_buffers == 0
    && is_zero r.max_shard_retained_bytes
    && r.max_shard_retained_buffers == 0

pub record ClassPolicy : Type 0 where
  pub sizes : List ClassSize

abbrev pub classes_is_zero : ClassPolicy → Bool
classes_is_zero c = length c.sizes == 0

pub record ShardPolicy : Type 0 where
  pub selection : ShardSelectionMode
  pub shards_per_class : ℤ
  pub bucket_slots_per_shard : ℤ
  pub bucket_segment_slots_per_shard : ℤ
  pub acquisition_fallback_shards : ℤ
  pub return_fallback_shards : ℤ

unfoldable pub shards_is_zero : ShardPolicy → Bool
shards_is_zero s =
    is_unset_selection s.selection
    && is_zero_int s.shards_per_class
    && is_zero_int s.bucket_slots_per_shard
    && is_zero_int s.bucket_segment_slots_per_shard
    && is_zero_int s.acquisition_fallback_shards
    && is_zero_int s.return_fallback_shards

pub record AdmissionPolicy : Type 0 where
  pub zero_size_requests : ZeroSizeRequestPolicy
  pub returned_buffers : ReturnedBufferPolicy
  pub oversized_return : AdmissionAction
  pub unsupported_class : AdmissionAction
  pub class_mismatch : AdmissionAction
  pub credit_exhausted : AdmissionAction
  pub bucket_full : AdmissionAction
  pub zero_retained_buffers : Bool
  pub zero_dropped_buffers : Bool

unfoldable pub admission_is_zero : AdmissionPolicy → Bool
admission_is_zero a =
    is_unset_request a.zero_size_requests
    && is_unset_returned a.returned_buffers
    && is_unset_action a.oversized_return
    && is_unset_action a.unsupported_class
    && is_unset_action a.class_mismatch
    && is_unset_action a.credit_exhausted
    && is_unset_action a.bucket_full
    && not a.zero_retained_buffers
    && not a.zero_dropped_buffers

pub record PressureLevelPolicy : Type 0 where
  pub retention_scale : PolicyRatio
  pub trim_scale : PolicyRatio
  pub max_retained_buffer_capacity : Size
  pub drop_returned_capacity_above : Size
  pub disable_retention : Bool
  pub preserve_small_hot_classes : Bool

unfoldable pub level_is_zero : PressureLevelPolicy → Bool
level_is_zero p =
    p.retention_scale == 0
    && p.trim_scale == 0
    && is_zero p.max_retained_buffer_capacity
    && is_zero p.drop_returned_capacity_above
    && not p.disable_retention
    && not p.preserve_small_hot_classes

pub record PressurePolicy : Type 0 where
  pub enabled : Bool
  pub medium : PressureLevelPolicy
  pub high : PressureLevelPolicy
  pub critical : PressureLevelPolicy

unfoldable pub pressure_is_zero : PressurePolicy → Bool
unfolding level_is_zero
pressure_is_zero p =
    not p.enabled && level_is_zero p.medium && level_is_zero p.high && level_is_zero p.critical

pub record TrimPolicy : Type 0 where
  pub enabled : Bool
  pub interval : Duration
  pub full_scan_interval : Duration
  pub max_buffers_per_cycle : ℕ
  pub max_bytes_per_cycle : Size
  pub max_pools_per_cycle : ℤ
  pub max_classes_per_pool_per_cycle : ℤ
  pub max_shards_per_class_per_cycle : ℤ
  pub trim_on_policy_shrink : Bool
  pub trim_on_pressure : Bool
  pub trim_on_close : Bool

unfoldable pub trim_is_zero : TrimPolicy → Bool
trim_is_zero t =
    not t.enabled
    && is_zero_int t.interval
    && is_zero_int t.full_scan_interval
    && t.max_buffers_per_cycle == 0
    && is_zero t.max_bytes_per_cycle
    && is_zero_int t.max_pools_per_cycle
    && is_zero_int t.max_classes_per_pool_per_cycle
    && is_zero_int t.max_shards_per_class_per_cycle
    && not t.trim_on_policy_shrink
    && not t.trim_on_pressure
    && not t.trim_on_close

pub record OwnershipPolicy : Type 0 where
  pub mode : OwnershipMode
  pub track_in_use_bytes : Bool
  pub track_in_use_buffers : Bool
  pub detect_double_release : Bool
  pub max_returned_capacity_growth : PolicyRatio

unfoldable pub ownership_is_zero : OwnershipPolicy → Bool
ownership_is_zero o =
    is_unset_ownership o.mode
    && not o.track_in_use_bytes
    && not o.track_in_use_buffers
    && not o.detect_double_release
    && o.max_returned_capacity_growth == 0

pub record Policy : Type 0 where
  pub retention : RetentionPolicy
  pub classes : ClassPolicy
  pub shards : ShardPolicy
  pub admission : AdmissionPolicy
  pub pressure : PressurePolicy
  pub trim : TrimPolicy
  pub ownership : OwnershipPolicy

unfoldable pub policy_is_zero : Policy → Bool
unfolding retention_is_zero shards_is_zero admission_is_zero pressure_is_zero trim_is_zero
    ownership_is_zero
policy_is_zero p =
    retention_is_zero p.retention
    && classes_is_zero p.classes
    && shards_is_zero p.shards
    && admission_is_zero p.admission
    && pressure_is_zero p.pressure
    && trim_is_zero p.trim
    && ownership_is_zero p.ownership
