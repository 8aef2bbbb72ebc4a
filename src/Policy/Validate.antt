-- ===== src/Policy/Validate.antt =====
-- policy_validate.go: the checks across sections, and the validation of a whole policy.
use bufferpool.Base.{
  ℕ, ◌*◌, ◌/◌, ◌-◌, Bool, not, ◌&&◌, ◌||◌, List, [], ◌∷◌, ◌++◌, Option, some, none, ltb, ◌==◌,
  if◌then◌else◌, length, get_or, max_uint64,
}
use bufferpool.Base.Int.{ℤ, is_negative, uint64_of}
use bufferpool.Size.{ClassSize, is_zero}
use bufferpool.Policy.{
  Policy, RetentionPolicy, ClassPolicy, ShardPolicy, PressurePolicy, PressureLevelPolicy,
  pressure_is_zero, level_is_zero, policy_is_zero,
}
use bufferpool.Policy.Report.{
  PolicyError, report, combine, is_nil_error, zero_policy, request_above_classes,
  capacity_below_classes, class_above_capacity, class_above_class_bytes, class_above_shard_bytes,
  shard_buffers_above_slots, slots_overflow, class_buffers_above_slots, level_capacity_above_normal,
  level_drop_above_normal,
}
use bufferpool.Policy.Sections.{validate_retention, validate_classes, validate_shards}
use bufferpool.Policy.Behaviour.{
  validate_admission, validate_pressure, validate_trim, validate_ownership,
}

abbrev pub smallest_class : ClassPolicy → ClassSize
smallest_class c = get_or c.sizes 0 0

abbrev pub largest_class : ClassPolicy → ClassSize
largest_class c = get_or c.sizes (length c.sizes - 1) 0

abbrev pub class_retention_checks : RetentionPolicy → ClassPolicy → List (Bool × PolicyError)
class_retention_checks r c =
    (ltb (largest_class c) r.max_request_size, request_above_classes)
    ∷ (ltb r.max_retained_buffer_capacity (smallest_class c), capacity_below_classes)
    ∷ (ltb r.max_retained_buffer_capacity (largest_class c), class_above_capacity)
    ∷ (ltb r.max_class_retained_bytes (largest_class c), class_above_class_bytes)
    ∷ (ltb r.max_shard_retained_bytes (largest_class c), class_above_shard_bytes)
    ∷ []

-- validatePolicyClassRetentionConsistency
unfoldable pub validate_class_retention : RetentionPolicy → ClassPolicy → List PolicyError
validate_class_retention r c =
    if length c.sizes == 0 then [] else report (class_retention_checks r c)

-- policyUint64Product
unfoldable pub uint64_product : ℤ → ℤ → Option ℕ
uint64_product left right =
    let unsigned_left = uint64_of left in
    let unsigned_right = uint64_of right in
    if is_negative left || is_negative right
    then none
    else if not (unsigned_right == 0) && ltb (max_uint64 / unsigned_right) unsigned_left
    then none
    else some (unsigned_left * unsigned_right)

-- validatePolicyShardRetentionConsistency; the classes are not used.
unfoldable pub validate_shard_retention : RetentionPolicy → ShardPolicy → List PolicyError
unfolding uint64_product
validate_shard_retention r s =
    report (
      (
        ltb (uint64_of s.bucket_slots_per_shard) r.max_shard_retained_buffers,
        shard_buffers_above_slots,
      )
      ∷ [])
    ++ elim (uint64_product s.shards_per_class s.bucket_slots_per_shard) [
      | none ↦ slots_overflow ∷ []
      | some total_class_slots ↦
          report
            ((ltb total_class_slots r.max_class_retained_buffers, class_buffers_above_slots) ∷ [])
    ]

-- validatePressureLevelRetentionConsistency
unfoldable pub validate_level_retention : RetentionPolicy → PressureLevelPolicy → List PolicyError
unfolding level_is_zero
validate_level_retention r level =
    if level_is_zero level
    then []
    else report (
        (
          not (is_zero level.max_retained_buffer_capacity)
              && ltb r.max_retained_buffer_capacity level.max_retained_buffer_capacity,
          level_capacity_above_normal,
        )
        ∷ (
          not (is_zero level.drop_returned_capacity_above)
              && ltb r.max_retained_buffer_capacity level.drop_returned_capacity_above,
          level_drop_above_normal,
        )
        ∷ [])

-- validatePolicyPressureRetentionConsistency
unfoldable pub validate_pressure_retention : RetentionPolicy → PressurePolicy → List PolicyError
unfolding pressure_is_zero validate_level_retention
validate_pressure_retention r p =
    if pressure_is_zero p
    then []
    else validate_level_retention r p.medium
      ++ validate_level_retention r p.high
      ++ validate_level_retention r p.critical

-- The errors of a policy that is not zero, those of each section and of each check across sections.
unfoldable pub policy_errors : Policy → List (List PolicyError)
unfolding validate_retention validate_classes validate_shards validate_admission validate_pressure
    validate_trim validate_ownership validate_class_retention validate_shard_retention
    validate_pressure_retention
policy_errors p =
    let retention_ok = is_nil_error (validate_retention p.retention) in
    let classes_ok = is_nil_error (validate_classes p.classes) in
    let shards_ok = is_nil_error (validate_shards p.shards) in
    let pressure_ok = is_nil_error (validate_pressure p.pressure) in
    validate_retention p.retention
    ∷ validate_classes p.classes
    ∷ validate_shards p.shards
    ∷ validate_admission p.admission
    ∷ validate_pressure p.pressure
    ∷ validate_trim p.trim
    ∷ validate_ownership p.ownership
    ∷ (if retention_ok && classes_ok then validate_class_retention p.retention p.classes else [])
    ∷ (if retention_ok && classes_ok && shards_ok
        then validate_shard_retention p.retention p.shards
        else [])
    ∷ (if retention_ok && pressure_ok
        then validate_pressure_retention p.retention p.pressure
        else [])
    ∷ []

unfoldable pub validate_policy : Policy → List PolicyError
unfolding policy_is_zero policy_errors
validate_policy p = if policy_is_zero p then zero_policy ∷ [] else combine (policy_errors p)
