-- ===== src/Policy/Behaviour.antt =====
-- policy_validate.go: the validation of the admission, pressure, trim and ownership sections.
use bufferpool.Base.{Bool, true, false, not, ◌&&◌, List, [], ◌∷◌, ◌++◌, ltb, ◌==◌, if◌then◌else◌}
use bufferpool.Base.Int.{is_not_positive, lt_int}
use bufferpool.Size.{is_zero}
use bufferpool.Policy.{
  AdmissionPolicy, AdmissionAction, PressurePolicy, PressureLevelPolicy, TrimPolicy,
  OwnershipPolicy, OwnershipMode, ZeroSizeRequestPolicy, ReturnedBufferPolicy, policy_ratio_one,
  is_unset_request, is_unset_returned, admission_is_zero, pressure_is_zero, level_is_zero,
  trim_is_zero, ownership_is_zero,
}
use bufferpool.Policy.Report.{
  PolicyError, report, prefixed, is_nil_error, zero_admission, request_unknown, request_unset,
  returned_unknown, returned_unset, action_unknown, action_unset, pressure_disabled, medium_missing,
  high_missing, critical_missing, scale_above_one, trim_scale_zero, drop_above_capacity,
  medium_invalid, high_invalid, critical_invalid, medium_scale_below_high,
  high_scale_below_critical, medium_trim_above_high, high_trim_above_critical, trim_disabled,
  interval_not_positive, full_scan_not_positive, full_scan_below_interval, trim_buffers_zero,
  trim_bytes_zero, trim_pools_not_positive, trim_classes_not_positive, trim_shards_not_positive,
  ownership_unknown, ownership_unset, bytes_without_ownership, buffers_without_ownership,
  detection_without_ownership, growth_zero, growth_below_one,
}

abbrev pub is_known_action : AdmissionAction → Bool
is_known_action (AdmissionAction.unknown value) = false
is_known_action _ = true

abbrev pub is_known_request : ZeroSizeRequestPolicy → Bool
is_known_request (ZeroSizeRequestPolicy.unknown value) = false
is_known_request _ = true

abbrev pub is_known_returned : ReturnedBufferPolicy → Bool
is_known_returned (ReturnedBufferPolicy.unknown value) = false
is_known_returned _ = true

-- validateAdmissionAction
abbrev pub validate_action : AdmissionAction → List PolicyError
validate_action (AdmissionAction.unknown value) = action_unknown ∷ []
validate_action AdmissionAction.unset = action_unset ∷ []
validate_action _ = []

unfoldable pub validate_admission : AdmissionPolicy → List PolicyError
unfolding admission_is_zero
validate_admission a =
    if admission_is_zero a
    then zero_admission ∷ []
    else report (
        (not (is_known_request a.zero_size_requests), request_unknown)
        ∷ (is_unset_request a.zero_size_requests, request_unset)
        ∷ (not (is_known_returned a.returned_buffers), returned_unknown)
        ∷ (is_unset_returned a.returned_buffers, returned_unset)
        ∷ [])
      ++ validate_action a.oversized_return
      ++ validate_action a.unsupported_class
      ++ validate_action a.class_mismatch
      ++ validate_action a.credit_exhausted
      ++ validate_action a.bucket_full

unfoldable pub validate_level : PressureLevelPolicy → List PolicyError
unfolding level_is_zero
validate_level p =
    if level_is_zero p
    then []
    else report (
        (ltb policy_ratio_one p.retention_scale, scale_above_one)
        ∷ (p.trim_scale == 0, trim_scale_zero)
        ∷ (
          not (is_zero p.max_retained_buffer_capacity)
              && not (is_zero p.drop_returned_capacity_above)
              && ltb p.max_retained_buffer_capacity p.drop_returned_capacity_above,
          drop_above_capacity,
        )
        ∷ [])

-- validatePressureLevelOrdering
unfoldable pub validate_level_ordering : PressurePolicy → List PolicyError
validate_level_ordering p = report (
    (ltb p.medium.retention_scale p.high.retention_scale, medium_scale_below_high)
    ∷ (ltb p.high.retention_scale p.critical.retention_scale, high_scale_below_critical)
    ∷ (ltb p.high.trim_scale p.medium.trim_scale, medium_trim_above_high)
    ∷ (ltb p.critical.trim_scale p.high.trim_scale, high_trim_above_critical)
    ∷ [])

unfoldable pub validate_pressure : PressurePolicy → List PolicyError
unfolding pressure_is_zero level_is_zero validate_level validate_level_ordering
validate_pressure p =
    let medium_error = validate_level p.medium in
    let high_error = validate_level p.high in
    let critical_error = validate_level p.critical in
    if pressure_is_zero p
    then []
    else if not p.enabled
    then pressure_disabled ∷ []
    else report (
        (level_is_zero p.medium, medium_missing)
        ∷ (level_is_zero p.high, high_missing)
        ∷ (level_is_zero p.critical, critical_missing)
        ∷ [])
      ++ prefixed medium_invalid medium_error
      ++ prefixed high_invalid high_error
      ++ prefixed critical_invalid critical_error
      ++ (if is_nil_error medium_error
            && is_nil_error high_error
            && is_nil_error critical_error
            && not (level_is_zero p.medium)
            && not (level_is_zero p.high)
            && not (level_is_zero p.critical)
          then validate_level_ordering p
          else [])

unfoldable pub validate_trim : TrimPolicy → List PolicyError
unfolding trim_is_zero
validate_trim t =
    if trim_is_zero t
    then []
    else if not t.enabled
    then trim_disabled ∷ []
    else report (
        (is_not_positive t.interval, interval_not_positive)
        ∷ (is_not_positive t.full_scan_interval, full_scan_not_positive)
        ∷ (
          not (is_not_positive t.interval)
              && not (is_not_positive t.full_scan_interval)
              && lt_int t.full_scan_interval t.interval,
          full_scan_below_interval,
        )
        ∷ (t.max_buffers_per_cycle == 0, trim_buffers_zero)
        ∷ (is_zero t.max_bytes_per_cycle, trim_bytes_zero)
        ∷ (is_not_positive t.max_pools_per_cycle, trim_pools_not_positive)
        ∷ (is_not_positive t.max_classes_per_pool_per_cycle, trim_classes_not_positive)
        ∷ (is_not_positive t.max_shards_per_class_per_cycle, trim_shards_not_positive)
        ∷ [])

-- The checks of a mode of ownership; the source tests for each mode in turn.
unfoldable pub validate_mode : OwnershipMode → OwnershipPolicy → List PolicyError
validate_mode (OwnershipMode.unknown value) o = ownership_unknown ∷ []
validate_mode OwnershipMode.unset o = ownership_unset ∷ []
validate_mode OwnershipMode.none o = report (
    (o.track_in_use_bytes, bytes_without_ownership)
    ∷ (o.track_in_use_buffers, buffers_without_ownership)
    ∷ (o.detect_double_release, detection_without_ownership)
    ∷ [])
validate_mode _ o = report (
    (o.max_returned_capacity_growth == 0, growth_zero)
    ∷ (
      not (o.max_returned_capacity_growth == 0)
          && ltb o.max_returned_capacity_growth policy_ratio_one,
      growth_below_one,
    )
    ∷ [])

unfoldable pub validate_ownership : OwnershipPolicy → List PolicyError
unfolding ownership_is_zero validate_mode
validate_ownership o = if ownership_is_zero o then [] else validate_mode o.mode o
