-- ===== src/Policy/Profiles/StrictBounded.antt =====
-- profiles.go: StrictBoundedPolicy.
use bufferpool.Base.{◌*◌, true, false, List, [], ◌∷◌}
use bufferpool.Base.Int.{pos}
use bufferpool.Size.{ClassSize, kib, mib}
use bufferpool.Policy.{
  Policy, AdmissionAction, OwnershipMode, ShardSelectionMode, ZeroSizeRequestPolicy,
  ReturnedBufferPolicy, policy_ratio_one,
}
use bufferpool.Policy.Defaults.{second, minute}

abbrev pub strict_bounded_class_sizes : List ClassSize
strict_bounded_class_sizes =
    kib
    ∷ (2 * kib)
    ∷ (4 * kib)
    ∷ (8 * kib)
    ∷ (16 * kib)
    ∷ (32 * kib)
    ∷ (64 * kib)
    ∷ (128 * kib)
    ∷ (256 * kib)
    ∷ (512 * kib)
    ∷ []

unfoldable pub strict_bounded_policy : Policy
strict_bounded_policy = record {
  retention = record {
    soft_retained_bytes = 16 * mib;
    hard_retained_bytes = 32 * mib;
    max_retained_buffers = 2048;
    max_request_size = 512 * kib;
    max_retained_buffer_capacity = 512 * kib;
    max_class_retained_bytes = 8 * mib;
    max_class_retained_buffers = 128;
    max_shard_retained_bytes = mib;
    max_shard_retained_buffers = 16;
  };
  classes = record { sizes = strict_bounded_class_sizes };
  shards = record {
    selection = ShardSelectionMode.processor_inspired;
    shards_per_class = pos 8;
    bucket_slots_per_shard = pos 16;
    bucket_segment_slots_per_shard = pos 8;
    acquisition_fallback_shards = pos 0;
    return_fallback_shards = pos 0;
  };
  admission = record {
    zero_size_requests = ZeroSizeRequestPolicy.reject;
    returned_buffers = ReturnedBufferPolicy.admit;
    oversized_return = AdmissionAction.error;
    unsupported_class = AdmissionAction.error;
    class_mismatch = AdmissionAction.error;
    credit_exhausted = AdmissionAction.drop;
    bucket_full = AdmissionAction.drop;
    zero_retained_buffers = false;
    zero_dropped_buffers = false;
  };
  pressure = record {
    enabled = true;
    medium = record {
      retention_scale = 5000;
      trim_scale = policy_ratio_one;
      max_retained_buffer_capacity = 256 * kib;
      drop_returned_capacity_above = 256 * kib;
      disable_retention = false;
      preserve_small_hot_classes = true;
    };
    high = record {
      retention_scale = 2500;
      trim_scale = 2 * policy_ratio_one;
      max_retained_buffer_capacity = 128 * kib;
      drop_returned_capacity_above = 128 * kib;
      disable_retention = false;
      preserve_small_hot_classes = true;
    };
    critical = record {
      retention_scale = 0;
      trim_scale = 4 * policy_ratio_one;
      max_retained_buffer_capacity = 32 * kib;
      drop_returned_capacity_above = 32 * kib;
      disable_retention = true;
      preserve_small_hot_classes = false;
    };
  };
  trim = record {
    enabled = true;
    interval = pos (10 * second);
    full_scan_interval = pos minute;
    max_buffers_per_cycle = 1024;
    max_bytes_per_cycle = 8 * mib;
    max_pools_per_cycle = pos 64;
    max_classes_per_pool_per_cycle = pos 8;
    max_shards_per_class_per_cycle = pos 8;
    trim_on_policy_shrink = true;
    trim_on_pressure = true;
    trim_on_close = true;
  };
  ownership = record {
    mode = OwnershipMode.accounting;
    track_in_use_bytes = true;
    track_in_use_buffers = true;
    detect_double_release = false;
    max_returned_capacity_growth = policy_ratio_one;
  };
}
