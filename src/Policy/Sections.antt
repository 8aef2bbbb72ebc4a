-- ===== src/Policy/Sections.antt =====
-- policy_validate.go: the validation of the retention, class and shard sections. A validation is the
-- list of its errors, in order; it is empty where the source returns nil.
use bufferpool.Base.{
  ℕ, ◌+◌, Bool, true, false, not, ◌&&◌, List, [], ◌∷◌, ◌++◌, ltb, ◌==◌, if◌then◌else◌, length,
}
use bufferpool.Base.Int.{is_not_positive, is_negative, lt_int}
use bufferpool.Size.{ClassSize, is_zero}
use bufferpool.ClassTable.{max_classes}
use bufferpool.Policy.{
  RetentionPolicy, ClassPolicy, ShardPolicy, ShardSelectionMode, is_unset_selection,
  retention_is_zero, classes_is_zero, shards_is_zero,
}
use bufferpool.Policy.Report.{
  PolicyError, report, zero_retention, soft_zero, hard_zero, soft_above_hard, max_buffers_zero,
  max_request_zero, max_capacity_zero, capacity_above_hard, class_bytes_zero,
  class_bytes_above_hard, class_buffers_zero, class_buffers_above_max, shard_bytes_zero,
  shard_bytes_above_class, shard_buffers_zero, shard_buffers_above_class, no_classes,
  too_many_classes, class_zero, class_order, zero_shards, selection_unknown, selection_unset,
  shards_not_positive, slots_not_positive, segment_slots_not_positive, segment_slots_above_slots,
  acquisition_fallback_negative, return_fallback_negative, return_fallback_unsupported,
}

abbrev pub retention_checks : RetentionPolicy → List (Bool × PolicyError)
retention_checks r =
    (is_zero r.soft_retained_bytes, soft_zero)
    ∷ (is_zero r.hard_retained_bytes, hard_zero)
    ∷ (ltb r.hard_retained_bytes r.soft_retained_bytes, soft_above_hard)
    ∷ (r.max_retained_buffers == 0, max_buffers_zero)
    ∷ (is_zero r.max_request_size, max_request_zero)
    ∷ (is_zero r.max_retained_buffer_capacity, max_capacity_zero)
    ∷ (ltb r.hard_retained_bytes r.max_retained_buffer_capacity, capacity_above_hard)
    ∷ (is_zero r.max_class_retained_bytes, class_bytes_zero)
    ∷ (ltb r.hard_retained_bytes r.max_class_retained_bytes, class_bytes_above_hard)
    ∷ (r.max_class_retained_buffers == 0, class_buffers_zero)
    ∷ (ltb r.max_retained_buffers r.max_class_retained_buffers, class_buffers_above_max)
    ∷ (is_zero r.max_shard_retained_bytes, shard_bytes_zero)
    ∷ (ltb r.max_class_retained_bytes r.max_shard_retained_bytes, shard_bytes_above_class)
    ∷ (r.max_shard_retained_buffers == 0, shard_buffers_zero)
    ∷ (ltb r.max_class_retained_buffers r.max_shard_retained_buffers, shard_buffers_above_class)
    ∷ []

unfoldable pub validate_retention : RetentionPolicy → List PolicyError
unfolding retention_is_zero
validate_retention r =
    if retention_is_zero r then zero_retention ∷ [] else report (retention_checks r)

-- The loop over the class sizes; the head is `c.Sizes[index]`, and a zero size is not the next one's
-- `previous`.
unfoldable pub validate_sizes : ℕ → ClassSize → List ClassSize → List PolicyError
validate_sizes index previous [] = []
validate_sizes index previous (size ∷ sizes) =
    if is_zero size
    then class_zero ∷ validate_sizes (index + 1) previous sizes
    else report ((ltb 0 index && not (ltb previous size), class_order) ∷ [])
      ++ validate_sizes (index + 1) size sizes

unfoldable pub validate_classes : ClassPolicy → List PolicyError
unfolding validate_sizes
validate_classes c =
    if classes_is_zero c
    then no_classes ∷ []
    else report ((ltb max_classes (length c.sizes), too_many_classes) ∷ [])
      ++ validate_sizes 0 0 c.sizes

abbrev pub is_known_selection : ShardSelectionMode → Bool
is_known_selection (ShardSelectionMode.unknown value) = false
is_known_selection _ = true

abbrev pub shard_checks : ShardPolicy → List (Bool × PolicyError)
shard_checks s =
    (not (is_known_selection s.selection), selection_unknown)
    ∷ (is_unset_selection s.selection, selection_unset)
    ∷ (is_not_positive s.shards_per_class, shards_not_positive)
    ∷ (is_not_positive s.bucket_slots_per_shard, slots_not_positive)
    ∷ (is_not_positive s.bucket_segment_slots_per_shard, segment_slots_not_positive)
    ∷ (
      not (is_not_positive s.bucket_slots_per_shard)
          && lt_int s.bucket_slots_per_shard s.bucket_segment_slots_per_shard,
      segment_slots_above_slots,
    )
    ∷ (is_negative s.acquisition_fallback_shards, acquisition_fallback_negative)
    ∷ (is_negative s.return_fallback_shards, return_fallback_negative)
    ∷ (not (is_not_positive s.return_fallback_shards), return_fallback_unsupported)
    ∷ []

unfoldable pub validate_shards : ShardPolicy → List PolicyError
unfolding shards_is_zero
validate_shards s = if shards_is_zero s then zero_shards ∷ [] else report (shard_checks s)
