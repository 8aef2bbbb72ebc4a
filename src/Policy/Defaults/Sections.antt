-- ===== src/Policy/Defaults/Sections.antt =====
-- policy_defaults.go: the sections of the default policy.
use bufferpool.Base.{◌*◌, true, false, List, [], ◌∷◌, Result, ok, ◌>>=◌}
use bufferpool.Base.Int.{ℤ, pos}
use bufferpool.Size.{ClassSize, kib, mib}
use bufferpool.Panic.{Panic}
use bufferpool.Policy.{
  Policy, RetentionPolicy, ClassPolicy, ShardPolicy, AdmissionPolicy, AdmissionAction,
  PressurePolicy, PressureLevelPolicy, TrimPolicy, OwnershipPolicy, OwnershipMode,
  ShardSelectionMode, ZeroSizeRequestPolicy, ReturnedBufferPolicy,
}
use bufferpool.Policy.Shape.{PoolShapePolicy, PoolRetentionPolicy, new_policy_from_sections}
use bufferpool.Policy.Defaults.{
  default_policy_shards_per_class, default_policy_max_class_retained_buffers,
  default_policy_soft_retained_bytes, default_policy_hard_retained_bytes,
  default_policy_max_retained_buffers, default_policy_max_request_size,
  default_policy_max_retained_buffer_capacity, default_policy_max_class_retained_bytes,
  default_policy_max_shard_retained_bytes, default_policy_max_shard_retained_buffers,
  default_policy_bucket_slots_per_shard, default_policy_bucket_segment_slots_per_shard,
  default_policy_acquisition_fallback_shards, default_policy_return_fallback_shards,
  default_policy_medium_pressure_retention_scale, default_policy_medium_pressure_trim_scale,
  default_policy_high_pressure_retention_scale, default_policy_high_pressure_trim_scale,
  default_policy_critical_pressure_retention_scale, default_policy_critical_pressure_trim_scale,
  default_policy_high_pressure_max_retained_buffer_capacity,
  default_policy_high_pressure_drop_returned_capacity_above,
  default_policy_critical_pressure_max_retained_buffer_capacity,
  default_policy_critical_pressure_drop_returned_capacity_above, default_policy_trim_interval,
  default_policy_full_scan_interval, default_policy_max_trim_buffers_per_cycle,
  default_policy_max_trim_bytes_per_cycle, default_policy_max_trim_pools_per_cycle,
  default_policy_max_trim_classes_per_pool_per_cycle,
  default_policy_max_trim_shards_per_class_per_cycle, default_policy_max_returned_capacity_growth,
}

abbrev pub default_class_sizes : List ClassSize
default_class_sizes =
    256
    ∷ 512
    ∷ kib
    ∷ (2 * kib)
    ∷ (4 * kib)
    ∷ (8 * kib)
    ∷ (16 * kib)
    ∷ (32 * kib)
    ∷ (64 * kib)
    ∷ (128 * kib)
    ∷ (256 * kib)
    ∷ (512 * kib)
    ∷ mib
    ∷ []

unfoldable pub default_retention_policy : ℤ → Result Panic RetentionPolicy
unfolding default_policy_max_class_retained_buffers
default_retention_policy procs =
    default_policy_max_class_retained_buffers procs >>= λ max_class_retained_buffers. ok (record {
      soft_retained_bytes = default_policy_soft_retained_bytes;
      hard_retained_bytes = default_policy_hard_retained_bytes;
      max_retained_buffers = default_policy_max_retained_buffers;
      max_request_size = default_policy_max_request_size;
      max_retained_buffer_capacity = default_policy_max_retained_buffer_capacity;
      max_class_retained_bytes = default_policy_max_class_retained_bytes;
      max_class_retained_buffers = max_class_retained_buffers;
      max_shard_retained_bytes = default_policy_max_shard_retained_bytes;
      max_shard_retained_buffers = default_policy_max_shard_retained_buffers;
    })

unfoldable pub default_shard_policy : ℤ → Result Panic ShardPolicy
unfolding default_policy_shards_per_class
default_shard_policy procs = default_policy_shards_per_class procs >>= λ shards_per_class.
    ok (record {
      selection = ShardSelectionMode.processor_inspired;
      shards_per_class = shards_per_class;
      bucket_slots_per_shard = pos default_policy_bucket_slots_per_shard;
      bucket_segment_slots_per_shard = pos default_policy_bucket_segment_slots_per_shard;
      acquisition_fallback_shards = pos default_policy_acquisition_fallback_shards;
      return_fallback_shards = pos default_policy_return_fallback_shards;
    })

unfoldable pub default_admission_policy : AdmissionPolicy
default_admission_policy = record {
  zero_size_requests = ZeroSizeRequestPolicy.empty_buffer;
  returned_buffers = ReturnedBufferPolicy.admit;
  oversized_return = AdmissionAction.drop;
  unsupported_class = AdmissionAction.drop;
  class_mismatch = AdmissionAction.drop;
  credit_exhausted = AdmissionAction.drop;
  bucket_full = AdmissionAction.drop;
  zero_retained_buffers = false;
  zero_dropped_buffers = false;
}

unfoldable pub default_medium_pressure_policy : PressureLevelPolicy
default_medium_pressure_policy = record {
  retention_scale = default_policy_medium_pressure_retention_scale;
  trim_scale = default_policy_medium_pressure_trim_scale;
  max_retained_buffer_capacity = 0;
  drop_returned_capacity_above = 0;
  disable_retention = false;
  preserve_small_hot_classes = true;
}

unfoldable pub default_high_pressure_policy : PressureLevelPolicy
default_high_pressure_policy = record {
  retention_scale = default_policy_high_pressure_retention_scale;
  trim_scale = default_policy_high_pressure_trim_scale;
  max_retained_buffer_capacity = default_policy_high_pressure_max_retained_buffer_capacity;
  drop_returned_capacity_above = default_policy_high_pressure_drop_returned_capacity_above;
  disable_retention = false;
  preserve_small_hot_classes = true;
}

unfoldable pub default_critical_pressure_policy : PressureLevelPolicy
default_critical_pressure_policy = record {
  retention_scale = default_policy_critical_pressure_retention_scale;
  trim_scale = default_policy_critical_pressure_trim_scale;
  max_retained_buffer_capacity = default_policy_critical_pressure_max_retained_buffer_capacity;
  drop_returned_capacity_above = default_policy_critical_pressure_drop_returned_capacity_above;
  disable_retention = true;
  preserve_small_hot_classes = false;
}

unfoldable pub default_pressure_policy : PressurePolicy
unfolding default_medium_pressure_policy default_high_pressure_policy
    default_critical_pressure_policy
default_pressure_policy = record {
  enabled = true;
  medium = default_medium_pressure_policy;
  high = default_high_pressure_policy;
  critical = default_critical_pressure_policy;
}

unfoldable pub default_trim_policy : TrimPolicy
default_trim_policy = record {
  enabled = true;
  interval = pos default_policy_trim_interval;
  full_scan_interval = pos default_policy_full_scan_interval;
  max_buffers_per_cycle = default_policy_max_trim_buffers_per_cycle;
  max_bytes_per_cycle = default_policy_max_trim_bytes_per_cycle;
  max_pools_per_cycle = pos default_policy_max_trim_pools_per_cycle;
  max_classes_per_pool_per_cycle = pos default_policy_max_trim_classes_per_pool_per_cycle;
  max_shards_per_class_per_cycle = pos default_policy_max_trim_shards_per_class_per_cycle;
  trim_on_policy_shrink = true;
  trim_on_pressure = true;
  trim_on_close = true;
}

unfoldable pub default_ownership_policy : OwnershipPolicy
default_ownership_policy = record {
  mode = OwnershipMode.none;
  track_in_use_bytes = false;
  track_in_use_buffers = false;
  detect_double_release = false;
  max_returned_capacity_growth = default_policy_max_returned_capacity_growth;
}

abbrev pub default_class_policy : ClassPolicy
default_class_policy = record { sizes = default_class_sizes }

unfoldable pub default_pool_shape_policy : ℤ → Result Panic PoolShapePolicy
unfolding default_shard_policy
default_pool_shape_policy procs = default_shard_policy procs >>= λ shards.
    ok (record { classes = default_class_policy; shards = shards })

unfoldable pub default_pool_retention_policy : ℤ → Result Panic PoolRetentionPolicy
unfolding default_retention_policy default_admission_policy default_pressure_policy
    default_trim_policy
default_pool_retention_policy procs = default_retention_policy procs >>= λ retention. ok (record {
  retention = retention;
  admission = default_admission_policy;
  pressure = default_pressure_policy;
  trim = default_trim_policy;
})

unfoldable pub default_policy : ℤ → Result Panic Policy
unfolding default_pool_shape_policy default_pool_retention_policy default_ownership_policy
    new_policy_from_sections
default_policy procs = default_pool_shape_policy procs >>= λ shape.
    default_pool_retention_policy procs >>= λ retention.
    ok (new_policy_from_sections shape retention default_ownership_policy)
