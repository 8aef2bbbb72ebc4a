-- ===== src/Policy/Acting.antt =====
-- Valid trim and ownership sections of a policy, described independently of the checks, which are
-- sound.
use bufferpool.Base.{
  ◌≤◌, ◌<◌, ◌≡◌, ◌⊎◌, inl, inr, Bool, true, false, not, ◌&&◌, [], ◌∷◌, arith, ltb, ◌==◌, List,
}
use bufferpool.Base.Int.{ℤ, pos, negsuc, magnitude, is_not_positive, lt_int}
use bufferpool.Size.{is_zero}
use bufferpool.Policy.{
  TrimPolicy, OwnershipPolicy, OwnershipMode, policy_ratio_one, trim_is_zero, ownership_is_zero,
}
use bufferpool.Policy.Report.{
  not-false, optional, PolicyError, report_iff, section_iff, interval_not_positive,
  full_scan_not_positive, full_scan_below_interval, trim_buffers_zero, trim_bytes_zero,
  trim_pools_not_positive, trim_classes_not_positive, trim_shards_not_positive,
  bytes_without_ownership, buffers_without_ownership, detection_without_ownership, growth_zero,
  growth_below_one, trim_disabled,
}
use bufferpool.Policy.Behaviour.{validate_trim, validate_mode, validate_ownership}

pub record IsEnabledTrim (t : TrimPolicy) : Type 0 where
  pub enabled : t.enabled ≡ true
  pub some_interval : 0 < magnitude t.interval
  pub interval_le_full_scan : magnitude t.interval ≤ magnitude t.full_scan_interval
  pub some_buffers : 0 < t.max_buffers_per_cycle
  pub some_bytes : 0 < t.max_bytes_per_cycle
  pub some_pools : 0 < magnitude t.max_pools_per_cycle
  pub some_classes : 0 < magnitude t.max_classes_per_pool_per_cycle
  pub some_shards : 0 < magnitude t.max_shards_per_class_per_cycle

-- The section is zero, or trimming is enabled with positive intervals, the full scan's no shorter, and
-- positive limits.
abbrev pub IsTrim : TrimPolicy → Type 0
IsTrim t = (trim_is_zero t ≡ true) ⊎ IsEnabledTrim t

positive : (z : ℤ) → is_not_positive z ≡ false → 0 < magnitude z
positive (pos n) e = ground (arith, e)
positive (negsuc n) e = cc

ordered_int :
    (a b : ℤ)
    → is_not_positive a ≡ false
    → is_not_positive b ≡ false
    → (not (is_not_positive a) && not (is_not_positive b) && lt_int b a) ≡ false
    → magnitude a ≤ magnitude b
ordered_int (pos a) (pos b) p q e = ground (arith, e, p, q)
ordered_int (negsuc a) b p q e = cc
ordered_int (pos a) (negsuc b) p q e = cc

abbrev trim_checks : TrimPolicy → List (Bool × PolicyError)
trim_checks t =
    (is_not_positive t.interval, interval_not_positive)
    ∷ (is_not_positive t.full_scan_interval, full_scan_not_positive)
    ∷ (
      not (is_not_positive t.interval)
          && not (is_not_positive t.full_scan_interval)
          && lt_int t.full_scan_interval t.interval,
      full_scan_below_interval,
    )
    ∷ (t.max_buffers_per_cycle == 0, trim_buffers_zero)
    ∷ (is_zero t.max_bytes_per_cycle, trim_bytes_zero)
    ∷ (is_not_positive t.max_pools_per_cycle, trim_pools_not_positive)
    ∷ (is_not_positive t.max_classes_per_pool_per_cycle, trim_classes_not_positive)
    ∷ (is_not_positive t.max_shards_per_class_per_cycle, trim_shards_not_positive)
    ∷ []

pub validate_trim-IsTrim : (t : TrimPolicy) → validate_trim t ≡ [] → IsTrim t
unfolding validate_trim
validate_trim-IsTrim t e = elim (optional (trim_is_zero t) _ e) [
  | inl zero ↦ inl zero
  | inr body ↦
      let on = (section_iff (not t.enabled) trim_disabled _).0 body in
      let p = (report_iff (trim_checks t)).0 on.1 in
      inr record {
        enabled = not-false t.enabled on.0;
        some_interval = positive t.interval p.0;
        interval_le_full_scan = ordered_int t.interval t.full_scan_interval p.0 p.1.0 p.1.1.0;
        some_buffers = ground (arith, p.1.1.1.0);
        some_bytes = ground (arith, p.1.1.1.1.0);
        some_pools = positive t.max_pools_per_cycle p.1.1.1.1.1.0;
        some_classes = positive t.max_classes_per_pool_per_cycle p.1.1.1.1.1.1.0;
        some_shards = positive t.max_shards_per_class_per_cycle p.1.1.1.1.1.1.1.0;
      }
]

-- Nothing is tracked without ownership, and with it buffers may come back as large as they went.
abbrev pub IsMode : OwnershipMode → OwnershipPolicy → Type 0
IsMode OwnershipMode.unset o = ⊥
IsMode (OwnershipMode.unknown value) o = ⊥
IsMode OwnershipMode.none o =
    (o.track_in_use_bytes ≡ false)
    × (o.track_in_use_buffers ≡ false)
    × (o.detect_double_release ≡ false)
IsMode _ o = policy_ratio_one ≤ o.max_returned_capacity_growth

abbrev pub IsOwnership : OwnershipPolicy → Type 0
IsOwnership o = (ownership_is_zero o ≡ true) ⊎ IsMode o.mode o

growth :
    (o : OwnershipPolicy)
    → (o.max_returned_capacity_growth == 0) ≡ false
    → (not (o.max_returned_capacity_growth == 0)
        && ltb o.max_returned_capacity_growth policy_ratio_one)
      ≡ false
    → policy_ratio_one ≤ o.max_returned_capacity_growth
growth o some_growth e = ground (arith, some_growth, e)

abbrev tracking_checks : OwnershipPolicy → List (Bool × PolicyError)
tracking_checks o =
    (o.track_in_use_bytes, bytes_without_ownership)
    ∷ (o.track_in_use_buffers, buffers_without_ownership)
    ∷ (o.detect_double_release, detection_without_ownership)
    ∷ []

abbrev growth_checks : OwnershipPolicy → List (Bool × PolicyError)
growth_checks o =
    (o.max_returned_capacity_growth == 0, growth_zero)
    ∷ (
      not (o.max_returned_capacity_growth == 0)
          && ltb o.max_returned_capacity_growth policy_ratio_one,
      growth_below_one,
    )
    ∷ []

validate_mode-IsMode :
    (m : OwnershipMode) (o : OwnershipPolicy) → validate_mode m o ≡ [] → IsMode m o
unfolding validate_mode
validate_mode-IsMode OwnershipMode.unset o e = cc
validate_mode-IsMode (OwnershipMode.unknown value) o e = cc
validate_mode-IsMode OwnershipMode.none o e =
    let p = (report_iff (tracking_checks o)).0 e in (p.0, p.1.0, p.1.1.0)
validate_mode-IsMode _ o e = let p = (report_iff (growth_checks o)).0 e in growth o p.0 p.1.0

pub validate_ownership-IsOwnership :
    (o : OwnershipPolicy) → validate_ownership o ≡ [] → IsOwnership o
unfolding validate_ownership
validate_ownership-IsOwnership o e = elim (optional (ownership_is_zero o) _ e) [
  | inl zero ↦ inl zero
  | inr checked ↦ inr (validate_mode-IsMode o.mode o checked)
]
