-- ===== src/Policy/Profiles/Throughput.antt =====
-- profiles.go: ThroughputPolicy.
use bufferpool.Base.{◌*◌, true, false, List, [], ◌∷◌}
use bufferpool.Base.Int.{pos}
use bufferpool.Size.{ClassSize, kib, mib}
use bufferpool.Policy.{
  Policy, AdmissionAction, OwnershipMode, ShardSelectionMode, ZeroSizeRequestPolicy,
  ReturnedBufferPolicy, policy_ratio_one,
}
use bufferpool.Policy.Defaults.{second, minute}

abbrev pub throughput_class_sizes : List ClassSize
throughput_class_sizes =
    256
    ∷ 512
    ∷ kib
    ∷ (2 * kib)
    ∷ (4 * kib)
    ∷ (8 * kib)
    ∷ (16 * kib)
    ∷ (32 * kib)
    ∷ (64 * kib)
    ∷ (128 * kib)
    ∷ (256 * kib)
    ∷ (512 * kib)
    ∷ mib
    ∷ (2 * mib)
    ∷ (4 * mib)
    ∷ []

unfoldable pub throughput_policy : Policy
throughput_policy = record {
  retention = record {
    soft_retained_bytes = 128 * mib;
    hard_retained_bytes = 256 * mib;
    max_retained_buffers = 16384;
    max_request_size = 4 * mib;
    max_retained_buffer_capacity = 4 * mib;
    max_class_retained_bytes = 64 * mib;
    max_class_retained_buffers = 1024;
    max_shard_retained_bytes = 8 * mib;
    max_shard_retained_buffers = 64;
  };
  classes = record { sizes = throughput_class_sizes };
  shards = record {
    selection = ShardSelectionMode.processor_inspired;
    shards_per_class = pos 64;
    bucket_slots_per_shard = pos 64;
    bucket_segment_slots_per_shard = pos 16;
    acquisition_fallback_shards = pos 1;
    return_fallback_shards = pos 0;
  };
  admission = record {
    zero_size_requests = ZeroSizeRequestPolicy.empty_buffer;
    returned_buffers = ReturnedBufferPolicy.admit;
    oversized_return = AdmissionAction.drop;
    unsupported_class = AdmissionAction.drop;
    class_mismatch = AdmissionAction.drop;
    credit_exhausted = AdmissionAction.drop;
    bucket_full = AdmissionAction.drop;
    zero_retained_buffers = false;
    zero_dropped_buffers = false;
  };
  pressure = record {
    enabled = true;
    medium = record {
      retention_scale = 8000;
      trim_scale = policy_ratio_one;
      max_retained_buffer_capacity = 0;
      drop_returned_capacity_above = 0;
      disable_retention = false;
      preserve_small_hot_classes = true;
    };
    high = record {
      retention_scale = 6000;
      trim_scale = 2 * policy_ratio_one;
      max_retained_buffer_capacity = 2 * mib;
      drop_returned_capacity_above = 2 * mib;
      disable_retention = false;
      preserve_small_hot_classes = true;
    };
    critical = record {
      retention_scale = 2500;
      trim_scale = 4 * policy_ratio_one;
      max_retained_buffer_capacity = 256 * kib;
      drop_returned_capacity_above = 256 * kib;
      disable_retention = false;
      preserve_small_hot_classes = true;
    };
  };
  trim = record {
    enabled = true;
    interval = pos (45 * second);
    full_scan_interval = pos (5 * minute);
    max_buffers_per_cycle = 2048;
    max_bytes_per_cycle = 16 * mib;
    max_pools_per_cycle = pos 128;
    max_classes_per_pool_per_cycle = pos 8;
    max_shards_per_class_per_cycle = pos 4;
    trim_on_policy_shrink = true;
    trim_on_pressure = true;
    trim_on_close = true;
  };
  ownership = record {
    mode = OwnershipMode.none;
    track_in_use_bytes = false;
    track_in_use_buffers = false;
    detect_double_release = false;
    max_returned_capacity_growth = 3 * policy_ratio_one;
  };
}
