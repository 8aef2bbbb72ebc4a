-- ===== src/Panic.antt =====
-- The panics of the modelled files, one constructor for each `err...` message constant that they
-- panic with.

pub data Panic : Type 0 where
  size_negative_int size_too_large_for_int size_clamp_invalid_range : Panic
  class_size_zero size_class_zero_size : Panic
  class_table_empty class_table_too_many_classes : Panic
  class_table_zero_class_size class_table_unordered_class_sizes : Panic
  bucket_invalid_slot_limit bucket_invalid_segment_slot_limit bucket_invalid_count : Panic
  bucket_non_empty_free_slot bucket_empty_occupied_slot bucket_negative_trim_limit : Panic
  bucket_retained_bytes_overflow bucket_retained_bytes_underflow : Panic
  generation_overflow : Panic
  shard_credit_partial_limit shard_credit_inconsistent_limit : Panic
  class_budget_zero_class_size class_budget_class_size_mismatch class_budget_invalid_limit : Panic
  class_budget_shard_count_invalid class_budget_shard_index_out_of_range : Panic
  lifecycle_unknown_state lifecycle_invalid_transition : Panic
  gauge_overflow gauge_underflow : Panic
  shard_invalid_allocation_capacity : Panic
  class_state_invalid_class class_state_invalid_shard_count class_state_shard_index_out_of_range :
      Panic
  class_state_request_exceeds_class_size class_state_invalid_allocation_capacity : Panic
  class_state_allocation_below_class_size : Panic
  shard_selector_nil shard_selector_invalid_shard_count shard_selector_invalid_index : Panic
  mathx_next_power_zero mathx_next_power_overflow mathx_clamp_invalid_range : Panic
