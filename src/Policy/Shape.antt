-- ===== src/Policy/Shape.antt =====
-- policy.go and policy_validate.go: the parts of a policy that a pool is built from and the part that
-- a published policy may change.
use bufferpool.Base.{Bool, false, ◌≡◌, ◌++◌, ltb, List, [], ◌∷◌, ◌&&◌, if◌then◌else◌, length}
use bufferpool.Policy.{
  Policy, ClassPolicy, ShardPolicy, RetentionPolicy, AdmissionPolicy, PressurePolicy, TrimPolicy,
  OwnershipPolicy, classes_is_zero, shards_is_zero, retention_is_zero, admission_is_zero,
  pressure_is_zero, trim_is_zero, policy_is_zero,
}
use bufferpool.ClassTable.{max_classes}
use bufferpool.Policy.Report.{
  PolicyError, no_classes, too_many_classes, zero_retention, report, zero_policy, zero_shape,
  zero_retention_section, combine, combine_iff, section_iff, is_nil_error,
}
use bufferpool.Policy.Sections.{
  validate_sizes, retention_checks, validate_retention, validate_classes, validate_shards,
}
use bufferpool.Policy.Behaviour.{validate_admission, validate_pressure, validate_trim}
use bufferpool.Policy.Validate.{validate_pressure_retention, policy_errors, validate_policy}

pub record PoolShapePolicy : Type 0 where
  pub classes : ClassPolicy
  pub shards : ShardPolicy

abbrev pub shape_is_zero : PoolShapePolicy → Bool
unfolding shards_is_zero
shape_is_zero s = classes_is_zero s.classes && shards_is_zero s.shards

pub record PoolRetentionPolicy : Type 0 where
  pub retention : RetentionPolicy
  pub admission : AdmissionPolicy
  pub pressure : PressurePolicy
  pub trim : TrimPolicy

unfoldable pub pool_retention_is_zero : PoolRetentionPolicy → Bool
unfolding retention_is_zero admission_is_zero pressure_is_zero trim_is_zero
pool_retention_is_zero r =
    retention_is_zero r.retention
    && admission_is_zero r.admission
    && pressure_is_zero r.pressure
    && trim_is_zero r.trim

unfoldable pub new_policy_from_sections :
    PoolShapePolicy → PoolRetentionPolicy → OwnershipPolicy → Policy
new_policy_from_sections shape retention ownership = record {
  retention = retention.retention;
  classes = record { sizes = shape.classes.sizes };
  shards = shape.shards;
  admission = retention.admission;
  pressure = retention.pressure;
  trim = retention.trim;
  ownership = ownership;
}

abbrev pub shape_policy : Policy → PoolShapePolicy
shape_policy p = record { classes = record { sizes = p.classes.sizes }; shards = p.shards }

abbrev pub retention_policy : Policy → PoolRetentionPolicy
retention_policy p = record {
  retention = p.retention;
  admission = p.admission;
  pressure = p.pressure;
  trim = p.trim;
}

unfoldable pub validate_shape : PoolShapePolicy → List PolicyError
unfolding validate_classes validate_shards
validate_shape s =
    if shape_is_zero s
    then zero_shape ∷ []
    else combine (validate_classes s.classes ∷ validate_shards s.shards ∷ [])

unfoldable pub pool_retention_errors : PoolRetentionPolicy → List (List PolicyError)
unfolding validate_retention validate_admission validate_pressure validate_trim
    validate_pressure_retention
pool_retention_errors r =
    let retention_ok = is_nil_error (validate_retention r.retention) in
    let pressure_ok = is_nil_error (validate_pressure r.pressure) in
    validate_retention r.retention
    ∷ validate_admission r.admission
    ∷ validate_pressure r.pressure
    ∷ validate_trim r.trim
    ∷ (if retention_ok && pressure_ok
        then validate_pressure_retention r.retention r.pressure
        else [])
    ∷ []

unfoldable pub validate_pool_retention : PoolRetentionPolicy → List PolicyError
unfolding pool_retention_is_zero pool_retention_errors
validate_pool_retention r =
    if pool_retention_is_zero r
    then zero_retention_section ∷ []
    else combine (pool_retention_errors r)

false_and : (a b : Bool) → a ≡ false → (a && b) ≡ false
false_and a b e = rw e

false_and_all : (a b c d : Bool) → a ≡ false → (a && b && c && d) ≡ false
false_and_all a b c d e = rw e

validate_shape_lem :
    (s : PoolShapePolicy)
    → validate_classes s.classes ≡ []
    → validate_shards s.shards ≡ []
    → validate_shape s ≡ []
unfolding validate_shape validate_classes
validate_shape_lem s classes shards =
    let some_class =
      (section_iff (classes_is_zero s.classes) no_classes (
          report ((ltb max_classes (length s.classes.sizes), too_many_classes) ∷ [])
          ++ validate_sizes 0 0 s.classes.sizes)).0
        classes in
    (section_iff (shape_is_zero s) zero_shape
        (combine (validate_classes s.classes ∷ validate_shards s.shards ∷ []))).1
      (
        false_and (classes_is_zero s.classes) (shards_is_zero s.shards) some_class.0,
        (combine_iff (validate_classes s.classes ∷ validate_shards s.shards ∷ [])).1
            (classes, (shards, tt)),
      )

validate_retention-is_zero :
    (r : RetentionPolicy) → validate_retention r ≡ [] → retention_is_zero r ≡ false
unfolding validate_retention
validate_retention-is_zero r e =
    ((section_iff (retention_is_zero r) zero_retention (report (retention_checks r))).0 e).0

validate_pool_retention_lem :
    (r : PoolRetentionPolicy)
    → validate_retention r.retention ≡ []
    → combine (pool_retention_errors r) ≡ []
    → validate_pool_retention r ≡ []
unfolding validate_pool_retention pool_retention_is_zero
validate_pool_retention_lem r retention rest =
    (section_iff (pool_retention_is_zero r) zero_retention_section
        (combine (pool_retention_errors r))).1
      (
        false_and_all (retention_is_zero r.retention) (admission_is_zero r.admission)
            (pressure_is_zero r.pressure) (trim_is_zero r.trim)
            (validate_retention-is_zero r.retention retention),
        rest,
      )

-- The sections of a policy that Validate accepts are accepted on their own: the part that a pool is
-- built from, and the part that a published policy may change.
pub validate_policy-validate_shape :
    (p : Policy)
    → validate_policy p ≡ []
    → (validate_shape (shape_policy p) ≡ []) × (validate_pool_retention (retention_policy p) ≡ [])
unfolding validate_policy policy_errors pool_retention_errors
validate_policy-validate_shape p e =
    let sections = (section_iff (policy_is_zero p) zero_policy (combine (policy_errors p))).0 e in
    let clean = (combine_iff (policy_errors p)).0 sections.1 in
    (
      validate_shape_lem (shape_policy p) clean.1.0 clean.1.1.0,
      validate_pool_retention_lem (retention_policy p) clean.0 (
          (combine_iff (pool_retention_errors (retention_policy p))).1 (
            clean.0,
            (
              clean.1.1.1.0,
              (clean.1.1.1.1.0, (clean.1.1.1.1.1.0, (clean.1.1.1.1.1.1.1.1.1.0, tt))),
            ),
          )),
    )
