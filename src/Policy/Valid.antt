-- ===== src/Policy/Valid.antt =====
-- What a pool may rely on when its policy is valid.
use bufferpool.Base.{◌*◌, ◌≤◌, ◌<◌, ◌≡◌, refl, false, [], arith, length, ◌==◌}
use bufferpool.Base.Int.{ℤ, pos, negsuc, is_negative, magnitude, uint64_of}
use bufferpool.Policy.{Policy, RetentionPolicy, ClassPolicy, ShardPolicy, policy_is_zero}
use bufferpool.Policy.Report.{
  combine, zero_policy, report, report_iff, combine_iff, section_iff, is_nil_error_lem,
}
use bufferpool.Policy.Sections.{validate_retention, validate_classes, validate_shards}
use bufferpool.Policy.Validate.{
  largest_class, class_retention_checks, validate_class_retention, uint64_product,
  validate_shard_retention, policy_errors, validate_policy,
}
use bufferpool.Policy.Retention.{IsRetention, validate_retention_iff}
use bufferpool.Policy.Admission.{IsAdmission, validate_admission-IsAdmission}
use bufferpool.Policy.Pressure.{IsPressure, validate_pressure-IsPressure}
use bufferpool.Policy.Acting.{
  IsTrim, IsOwnership, validate_trim-IsTrim, validate_ownership-IsOwnership,
}
use bufferpool.Policy.Laws.{IsClassList, IsSharding, validate_classes_iff, validate_shards_iff}

pub record IsUsable (p : Policy) : Type 0 where
  pub retention : IsRetention p.retention
  pub classes : IsClassList p.classes
  pub shards : IsSharding p.shards
  pub admission : IsAdmission p.admission
  pub pressure : IsPressure p.pressure
  pub trim : IsTrim p.trim
  pub ownership : IsOwnership p.ownership
  -- every request that the policy allows has a class
  pub served : p.retention.max_request_size ≤ largest_class p.classes
  -- a buffer of any class is within the limits of its shard, its class and the pool
  pub kept_by_pool : largest_class p.classes ≤ p.retention.max_retained_buffer_capacity
  pub kept_by_class : largest_class p.classes ≤ p.retention.max_class_retained_bytes
  pub kept_by_shard : largest_class p.classes ≤ p.retention.max_shard_retained_bytes
  -- the buckets have a slot for every buffer that may be retained
  pub shard_slots :
      p.retention.max_shard_retained_buffers ≤ magnitude p.shards.bucket_slots_per_shard
  pub class_slots :
      p.retention.max_class_retained_buffers
      ≤ magnitude p.shards.shards_per_class * magnitude p.shards.bucket_slots_per_shard

magnitude_positive :
    (z : ℤ) → 0 < magnitude z → (is_negative z ≡ false) × (uint64_of z ≡ magnitude z)
magnitude_positive (pos n) h = (refl, refl)
magnitude_positive (negsuc n) h = absurd (omega arith)

record FitsClasses (r : RetentionPolicy) (c : ClassPolicy) : Type 0 where
  served : r.max_request_size ≤ largest_class c
  kept_by_pool : largest_class c ≤ r.max_retained_buffer_capacity
  kept_by_class : largest_class c ≤ r.max_class_retained_bytes
  kept_by_shard : largest_class c ≤ r.max_shard_retained_bytes

class_retention-FitsClasses :
    (r : RetentionPolicy) (c : ClassPolicy)
    → 0 < length c.sizes
    → validate_class_retention r c ≡ []
    → FitsClasses r c
unfolding validate_class_retention
class_retention-FitsClasses r c some_class e =
    let nonempty : (length c.sizes == 0) ≡ false = ground arith in
    let p = (report_iff (class_retention_checks r c)).0 (by_nonempty nonempty e) in
    record {
      served = ground (arith, p.0);
      kept_by_pool = ground (arith, p.1.1.0);
      kept_by_class = ground (arith, p.1.1.1.0);
      kept_by_shard = ground (arith, p.1.1.1.1.0);
    }
  where
    by_nonempty :
        (length c.sizes == 0) ≡ false
        → validate_class_retention r c ≡ []
        → report (class_retention_checks r c) ≡ []
    by_nonempty n f = ground (arith, n, f)

shard_retention_slots :
    (r : RetentionPolicy) (s : ShardPolicy)
    → IsSharding s
    → validate_shard_retention r s ≡ []
    → (r.max_shard_retained_buffers ≤ magnitude s.bucket_slots_per_shard)
      × (r.max_class_retained_buffers
          ≤ magnitude s.shards_per_class * magnitude s.bucket_slots_per_shard)
unfolding validate_shard_retention uint64_product
shard_retention_slots r s v e =
    let shards = magnitude_positive s.shards_per_class v.some_shard in
    let slots = magnitude_positive s.bucket_slots_per_shard v.some_slot in
    (ground (arith, e, slots.1), ground (arith, e, shards, slots))

-- A policy that Validate accepts has valid sections (retention, classes, shards and admission, and
-- pressure, trim and ownership, which may also be left zero) that fit each other: every permitted request has
-- a class, a buffer of any class is within all byte limits, and the buckets have the slots for all
-- buffers that may be retained.
pub validate_policy-IsUsable : (p : Policy) → validate_policy p ≡ [] → IsUsable p
unfolding validate_policy policy_errors
validate_policy-IsUsable p e =
    let sections = (section_iff (policy_is_zero p) zero_policy (combine (policy_errors p))).0 e in
    let clean = (combine_iff (policy_errors p)).0 sections.1 in
    let retention_ok = is_nil_error_lem (validate_retention p.retention) clean.0 in
    let classes_ok = is_nil_error_lem (validate_classes p.classes) clean.1.0 in
    let shards_ok = is_nil_error_lem (validate_shards p.shards) clean.1.1.0 in
    let classes = (validate_classes_iff p.classes).0 clean.1.0 in
    let shards = (validate_shards_iff p.shards).0 clean.1.1.0 in
    let fit =
      class_retention-FitsClasses p.retention p.classes classes.some_class
        (ground (arith, retention_ok, classes_ok, clean.1.1.1.1.1.1.1.0)) in
    let slots =
      shard_retention_slots p.retention p.shards shards
        (ground (arith, retention_ok, classes_ok, shards_ok, clean.1.1.1.1.1.1.1.1.0)) in
    record {
      retention = (validate_retention_iff p.retention).0 clean.0;
      classes = classes;
      shards = shards;
      admission = validate_admission-IsAdmission p.admission clean.1.1.1.0;
      pressure = validate_pressure-IsPressure p.pressure clean.1.1.1.1.0;
      trim = validate_trim-IsTrim p.trim clean.1.1.1.1.1.0;
      ownership = validate_ownership-IsOwnership p.ownership clean.1.1.1.1.1.1.0;
      served = fit.served;
      kept_by_pool = fit.kept_by_pool;
      kept_by_class = fit.kept_by_class;
      kept_by_shard = fit.kept_by_shard;
      shard_slots = slots.0;
      class_slots = slots.1;
    }
