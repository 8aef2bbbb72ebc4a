-- ===== src/Policy/Pressure.antt =====
-- A valid pressure section of a policy, described independently of the checks, which are sound.
use bufferpool.Base.{
  ◌≤◌, ◌<◌, ◌≡◌, ◌⊎◌, inl, inr, refl, Bool, true, false, not, ◌&&◌, [], ◌∷◌, arith, ltb, ◌==◌, List,
}
use bufferpool.Size.{is_zero}
use bufferpool.Policy.{
  PressurePolicy, PressureLevelPolicy, policy_ratio_one, pressure_is_zero, level_is_zero,
}
use bufferpool.Policy.Report.{
  not-false, optional, required, PolicyError, report_iff, append_iff, prefixed_iff, section_iff,
  is_nil_error, medium_missing, high_missing, critical_missing, medium_scale_below_high,
  high_scale_below_critical, medium_trim_above_high, high_trim_above_critical, scale_above_one,
  trim_scale_zero, drop_above_capacity, pressure_disabled, medium_invalid, high_invalid,
  critical_invalid,
}
use bufferpool.Policy.Behaviour.{validate_level, validate_level_ordering, validate_pressure}

-- A level of pressure that is configured: it retains no more than without pressure and trims.
pub record IsLevel (l : PressureLevelPolicy) : Type 0 where
  pub configured : level_is_zero l ≡ false
  pub scaled : l.retention_scale ≤ policy_ratio_one
  pub trims : 0 < l.trim_scale
  pub drops :
      0 < l.max_retained_buffer_capacity
      → l.drop_returned_capacity_above ≤ l.max_retained_buffer_capacity

pub record IsEnabledPressure (p : PressurePolicy) : Type 0 where
  pub enabled : p.enabled ≡ true
  pub medium : IsLevel p.medium
  pub high : IsLevel p.high
  pub critical : IsLevel p.critical
  -- more pressure retains no more and trims no less
  pub high_retains : p.high.retention_scale ≤ p.medium.retention_scale
  pub critical_retains : p.critical.retention_scale ≤ p.high.retention_scale
  pub high_trims : p.medium.trim_scale ≤ p.high.trim_scale
  pub critical_trims : p.high.trim_scale ≤ p.critical.trim_scale

abbrev level_checks : PressureLevelPolicy → List (Bool × PolicyError)
level_checks l =
    (ltb policy_ratio_one l.retention_scale, scale_above_one)
    ∷ (l.trim_scale == 0, trim_scale_zero)
    ∷ (
      not (is_zero l.max_retained_buffer_capacity)
          && not (is_zero l.drop_returned_capacity_above)
          && ltb l.max_retained_buffer_capacity l.drop_returned_capacity_above,
      drop_above_capacity,
    )
    ∷ []

validate_level-IsLevel :
    (l : PressureLevelPolicy) → level_is_zero l ≡ false → validate_level l ≡ [] → IsLevel l
unfolding validate_level
validate_level-IsLevel l some_level e = elim (optional (level_is_zero l) _ e) [
  | inl zero ↦ cc (zero, some_level)
  | inr checked ↦
      let p = (report_iff (level_checks l)).0 checked in
      record {
        configured = some_level;
        scaled = ground (arith, p.0);
        trims = ground (arith, p.1.0);
        drops = λ h. ground (arith, p.1.1.0, h);
      }
]

-- The section is zero, or pressure is enabled with its levels.
abbrev pub IsPressure : PressurePolicy → Type 0
IsPressure p = (pressure_is_zero p ≡ true) ⊎ IsEnabledPressure p

abbrev presence_checks : PressurePolicy → List (Bool × PolicyError)
presence_checks p =
    (level_is_zero p.medium, medium_missing)
    ∷ (level_is_zero p.high, high_missing)
    ∷ (level_is_zero p.critical, critical_missing)
    ∷ []

abbrev ordering_checks : PressurePolicy → List (Bool × PolicyError)
ordering_checks p =
    (ltb p.medium.retention_scale p.high.retention_scale, medium_scale_below_high)
    ∷ (ltb p.high.retention_scale p.critical.retention_scale, high_scale_below_critical)
    ∷ (ltb p.high.trim_scale p.medium.trim_scale, medium_trim_above_high)
    ∷ (ltb p.critical.trim_scale p.high.trim_scale, high_trim_above_critical)
    ∷ []

pub validate_pressure-IsPressure : (p : PressurePolicy) → validate_pressure p ≡ [] → IsPressure p
unfolding validate_pressure validate_level_ordering
validate_pressure-IsPressure p e = elim (optional (pressure_is_zero p) _ e) [
  | inl zero ↦ inl zero
  | inr body ↦
      let on = (section_iff (not p.enabled) pressure_disabled _).0 body in
      let p0 = (append_iff _ _).0 on.1 in
      let p1 = (append_iff _ _).0 p0.0 in
      let p2 = (append_iff _ _).0 p1.0 in
      let p3 = (append_iff _ _).0 p2.0 in
      let present = (report_iff (presence_checks p)).0 p3.0 in
      let medium_ok = (prefixed_iff medium_invalid (validate_level p.medium)).0 p3.1 in
      let high_ok = (prefixed_iff high_invalid (validate_level p.high)).0 p2.1 in
      let critical_ok = (prefixed_iff critical_invalid (validate_level p.critical)).0 p1.1 in
      let ordered = (report_iff (ordering_checks p)).0 (
        required _ _
          (all_present p present.0 present.1.0 present.1.1.0 medium_ok high_ok critical_ok) p0.1) in
      inr record {
        enabled = not-false p.enabled on.0;
        medium = validate_level-IsLevel p.medium present.0 medium_ok;
        high = validate_level-IsLevel p.high present.1.0 high_ok;
        critical = validate_level-IsLevel p.critical present.1.1.0 critical_ok;
        high_retains = ground (arith, ordered.0);
        critical_retains = ground (arith, ordered.1.0);
        high_trims = ground (arith, ordered.1.1.0);
        critical_trims = ground (arith, ordered.1.1.1.0);
      }
]
  where
    all_present :
        (q : PressurePolicy)
        → level_is_zero q.medium ≡ false
        → level_is_zero q.high ≡ false
        → level_is_zero q.critical ≡ false
        → validate_level q.medium ≡ []
        → validate_level q.high ≡ []
        → validate_level q.critical ≡ []
        → (is_nil_error (validate_level q.medium)
            && is_nil_error (validate_level q.high)
            && is_nil_error (validate_level q.critical)
            && not (level_is_zero q.medium)
            && not (level_is_zero q.high)
            && not (level_is_zero q.critical))
          ≡ true
    all_present q some_m some_h some_c m h c = rw (m, h, c, some_m, some_h, some_c) refl
