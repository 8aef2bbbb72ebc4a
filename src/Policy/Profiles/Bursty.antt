-- ===== src/Policy/Profiles/Bursty.antt =====
-- profiles.go: BurstyPolicy.
use bufferpool.Base.{◌*◌, true, false, List, [], ◌∷◌}
use bufferpool.Base.Int.{pos}
use bufferpool.Size.{ClassSize, kib, mib}
use bufferpool.Policy.{
  Policy, AdmissionAction, OwnershipMode, ShardSelectionMode, ZeroSizeRequestPolicy,
  ReturnedBufferPolicy, policy_ratio_one,
}
use bufferpool.Policy.Defaults.{second, minute}

abbrev pub bursty_class_sizes : List ClassSize
bursty_class_sizes =
    512
    ∷ kib
    ∷ (2 * kib)
    ∷ (4 * kib)
    ∷ (8 * kib)
    ∷ (16 * kib)
    ∷ (32 * kib)
    ∷ (64 * kib)
    ∷ (128 * kib)
    ∷ (256 * kib)
    ∷ (512 * kib)
    ∷ mib
    ∷ (2 * mib)
    ∷ (4 * mib)
    ∷ (8 * mib)
    ∷ []

unfoldable pub bursty_policy : Policy
bursty_policy = record {
  retention = record {
    soft_retained_bytes = 64 * mib;
    hard_retained_bytes = 512 * mib;
    max_retained_buffers = 16384;
    max_request_size = 8 * mib;
    max_retained_buffer_capacity = 8 * mib;
    max_class_retained_bytes = 128 * mib;
    max_class_retained_buffers = 1024;
    max_shard_retained_bytes = 16 * mib;
    max_shard_retained_buffers = 64;
  };
  classes = record { sizes = bursty_class_sizes };
  shards = record {
    selection = ShardSelectionMode.processor_inspired;
    shards_per_class = pos 16;
    bucket_slots_per_shard = pos 64;
    bucket_segment_slots_per_shard = pos 16;
    acquisition_fallback_shards = pos 1;
    return_fallback_shards = pos 0;
  };
  admission = record {
    zero_size_requests = ZeroSizeRequestPolicy.empty_buffer;
    returned_buffers = ReturnedBufferPolicy.admit;
    oversized_return = AdmissionAction.drop;
    unsupported_class = AdmissionAction.drop;
    class_mismatch = AdmissionAction.drop;
    credit_exhausted = AdmissionAction.drop;
    bucket_full = AdmissionAction.drop;
    zero_retained_buffers = false;
    zero_dropped_buffers = false;
  };
  pressure = record {
    enabled = true;
    medium = record {
      retention_scale = 7000;
      trim_scale = policy_ratio_one;
      max_retained_buffer_capacity = 4 * mib;
      drop_returned_capacity_above = 4 * mib;
      disable_retention = false;
      preserve_small_hot_classes = true;
    };
    high = record {
      retention_scale = 4000;
      trim_scale = 3 * policy_ratio_one;
      max_retained_buffer_capacity = mib;
      drop_returned_capacity_above = mib;
      disable_retention = false;
      preserve_small_hot_classes = true;
    };
    critical = record {
      retention_scale = 0;
      trim_scale = 5 * policy_ratio_one;
      max_retained_buffer_capacity = 256 * kib;
      drop_returned_capacity_above = 256 * kib;
      disable_retention = true;
      preserve_small_hot_classes = false;
    };
  };
  trim = record {
    enabled = true;
    interval = pos (20 * second);
    full_scan_interval = pos (3 * minute);
    max_buffers_per_cycle = 4096;
    max_bytes_per_cycle = 32 * mib;
    max_pools_per_cycle = pos 128;
    max_classes_per_pool_per_cycle = pos 12;
    max_shards_per_class_per_cycle = pos 8;
    trim_on_policy_shrink = true;
    trim_on_pressure = true;
    trim_on_close = true;
  };
  ownership = record {
    mode = OwnershipMode.none;
    track_in_use_bytes = false;
    track_in_use_buffers = false;
    detect_double_release = false;
    max_returned_capacity_growth = 4 * policy_ratio_one;
  };
}
