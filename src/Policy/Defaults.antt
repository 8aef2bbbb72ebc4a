-- ===== src/Policy/Defaults.antt =====
-- policy_defaults.go: the constants of the default policy, and the two that depend on the processors.
pub mod Sections
use bufferpool.Base.{
  ℕ, ◌+◌, ◌*◌, ◌%◌, ◌^◌, Bool, true, false, List, [], ◌∷◌, Result, ok, err, ◌>>=◌, if◌then◌else◌,
}
use bufferpool.Base.Int.{ℤ, pos, lt_int, int_of, uint64_of}
use bufferpool.Size.{Size, ClassSize, kib, mib}
use bufferpool.Panic.{Panic}
use bufferpool.Mathx.{next_power_of_two, clamp}
use bufferpool.Policy.{
  Policy, RetentionPolicy, ClassPolicy, ShardPolicy, AdmissionPolicy, AdmissionAction,
  PressurePolicy, PressureLevelPolicy, TrimPolicy, OwnershipPolicy, OwnershipMode,
  ShardSelectionMode, ZeroSizeRequestPolicy, ReturnedBufferPolicy, policy_ratio_one,
}

abbrev pub second : ℕ
second = 1000000000

abbrev pub minute : ℕ
minute = 60 * second

abbrev pub default_policy_soft_retained_bytes : ℕ
default_policy_soft_retained_bytes = 32 * mib

abbrev pub default_policy_hard_retained_bytes : ℕ
default_policy_hard_retained_bytes = 64 * mib

abbrev pub default_policy_max_retained_buffers : ℕ
default_policy_max_retained_buffers = 4096

abbrev pub default_policy_max_request_size : ℕ
default_policy_max_request_size = mib

abbrev pub default_policy_max_retained_buffer_capacity : ℕ
default_policy_max_retained_buffer_capacity = mib

abbrev pub default_policy_max_class_retained_bytes : ℕ
default_policy_max_class_retained_bytes = 16 * mib

abbrev pub default_policy_max_shard_retained_bytes : ℕ
default_policy_max_shard_retained_bytes = 4 * mib

abbrev pub default_policy_max_shard_retained_buffers : ℕ
default_policy_max_shard_retained_buffers = 32

abbrev pub default_policy_min_shards_per_class : ℕ
default_policy_min_shards_per_class = 1

abbrev pub default_policy_max_shards_per_class : ℕ
default_policy_max_shards_per_class = 32

abbrev pub default_policy_bucket_slots_per_shard : ℕ
default_policy_bucket_slots_per_shard = 32

abbrev pub default_policy_bucket_segment_slots_per_shard : ℕ
default_policy_bucket_segment_slots_per_shard = 8

abbrev pub default_policy_acquisition_fallback_shards : ℕ
default_policy_acquisition_fallback_shards = 1

abbrev pub default_policy_return_fallback_shards : ℕ
default_policy_return_fallback_shards = 0

abbrev pub default_policy_medium_pressure_retention_scale : ℕ
default_policy_medium_pressure_retention_scale = 7500

abbrev pub default_policy_medium_pressure_trim_scale : ℕ
default_policy_medium_pressure_trim_scale = policy_ratio_one

abbrev pub default_policy_high_pressure_retention_scale : ℕ
default_policy_high_pressure_retention_scale = 5000

abbrev pub default_policy_high_pressure_trim_scale : ℕ
default_policy_high_pressure_trim_scale = 2 * policy_ratio_one

abbrev pub default_policy_critical_pressure_retention_scale : ℕ
default_policy_critical_pressure_retention_scale = 0

abbrev pub default_policy_critical_pressure_trim_scale : ℕ
default_policy_critical_pressure_trim_scale = 4 * policy_ratio_one

abbrev pub default_policy_high_pressure_max_retained_buffer_capacity : ℕ
default_policy_high_pressure_max_retained_buffer_capacity = 512 * kib

abbrev pub default_policy_high_pressure_drop_returned_capacity_above : ℕ
default_policy_high_pressure_drop_returned_capacity_above = 512 * kib

abbrev pub default_policy_critical_pressure_max_retained_buffer_capacity : ℕ
default_policy_critical_pressure_max_retained_buffer_capacity = 64 * kib

abbrev pub default_policy_critical_pressure_drop_returned_capacity_above : ℕ
default_policy_critical_pressure_drop_returned_capacity_above = 64 * kib

abbrev pub default_policy_trim_interval : ℕ
default_policy_trim_interval = 30 * second

abbrev pub default_policy_full_scan_interval : ℕ
default_policy_full_scan_interval = 5 * minute

abbrev pub default_policy_max_trim_buffers_per_cycle : ℕ
default_policy_max_trim_buffers_per_cycle = 1024

abbrev pub default_policy_max_trim_bytes_per_cycle : ℕ
default_policy_max_trim_bytes_per_cycle = 8 * mib

abbrev pub default_policy_max_trim_pools_per_cycle : ℕ
default_policy_max_trim_pools_per_cycle = 64

abbrev pub default_policy_max_trim_classes_per_pool_per_cycle : ℕ
default_policy_max_trim_classes_per_pool_per_cycle = 8

abbrev pub default_policy_max_trim_shards_per_class_per_cycle : ℕ
default_policy_max_trim_shards_per_class_per_cycle = 4

abbrev pub default_policy_max_returned_capacity_growth : ℕ
default_policy_max_returned_capacity_growth = 2 * policy_ratio_one

-- defaultPolicyShardsPerClassForGOMAXPROCS; the number of processors is the caller's.
unfoldable pub default_policy_shards_per_class : ℤ → Result Panic ℤ
unfolding next_power_of_two clamp
default_policy_shards_per_class procs =
    let at_least =
      if lt_int procs (pos default_policy_min_shards_per_class)
      then pos default_policy_min_shards_per_class
      else procs in
    next_power_of_two (uint64_of at_least) >>= λ shards.
    clamp (int_of shards) (pos default_policy_min_shards_per_class)
      (pos default_policy_max_shards_per_class)

unfoldable pub default_policy_max_class_retained_buffers : ℤ → Result Panic ℕ
unfolding default_policy_shards_per_class
default_policy_max_class_retained_buffers procs =
    default_policy_shards_per_class procs >>= λ shards.
    ok ((uint64_of shards * default_policy_max_shard_retained_buffers) % 2 ^ 64)
