-- ===== src/Policy/Report.antt =====
-- The errors of a validation, and how they are collected. multierr.Combine of no errors is nil, and
-- of some errors an error that is none of them alone: a combined error is the list of its causes.
use bufferpool.Base.{
  Bool, true, false, ◌≡◌, refl, ◌↔◌, ◌⊎◌, inl, inr, not, List, [], ◌∷◌, ◌++◌, if◌then◌else◌, All,
}

-- The messages, one constructor for each.
pub data PolicyError : Type 0 where
  zero_policy zero_shape zero_retention_section : PolicyError
  zero_retention soft_zero hard_zero soft_above_hard max_buffers_zero : PolicyError
  max_request_zero max_capacity_zero capacity_above_hard class_bytes_zero : PolicyError
  class_bytes_above_hard class_buffers_zero class_buffers_above_max shard_bytes_zero : PolicyError
  shard_bytes_above_class shard_buffers_zero shard_buffers_above_class : PolicyError
  no_classes too_many_classes class_zero class_order : PolicyError
  zero_shards selection_unknown selection_unset shards_not_positive : PolicyError
  slots_not_positive segment_slots_not_positive segment_slots_above_slots : PolicyError
  acquisition_fallback_negative return_fallback_negative return_fallback_unsupported : PolicyError
  zero_admission request_unknown request_unset returned_unknown returned_unset : PolicyError
  action_unknown action_unset : PolicyError
  pressure_disabled medium_missing high_missing critical_missing : PolicyError
  scale_above_one trim_scale_zero drop_above_capacity : PolicyError
  medium_invalid high_invalid critical_invalid : PolicyError
  medium_scale_below_high high_scale_below_critical : PolicyError
  medium_trim_above_high high_trim_above_critical : PolicyError
  trim_disabled interval_not_positive full_scan_not_positive full_scan_below_interval : PolicyError
  trim_buffers_zero trim_bytes_zero trim_pools_not_positive : PolicyError
  trim_classes_not_positive trim_shards_not_positive : PolicyError
  ownership_unknown ownership_unset bytes_without_ownership : PolicyError
  buffers_without_ownership detection_without_ownership growth_zero growth_below_one : PolicyError
  request_above_classes capacity_below_classes class_above_capacity : PolicyError
  class_above_class_bytes class_above_shard_bytes : PolicyError
  shard_buffers_above_slots slots_overflow class_buffers_above_slots : PolicyError
  level_capacity_above_normal level_drop_above_normal : PolicyError

-- `if test { errs = append(errs, …) }`, one after the other
abbrev pub report : List (Bool × PolicyError) → List PolicyError
report [] = []
report ((true, e) ∷ checks) = e ∷ report checks
report ((false, e) ∷ checks) = report checks

-- `err == nil`
abbrev pub is_nil_error : List PolicyError → Bool
is_nil_error [] = true
is_nil_error (e ∷ errors) = false

-- prefixPolicyValidationError
abbrev pub prefixed : PolicyError → List PolicyError → List PolicyError
prefixed e [] = []
prefixed e (cause ∷ causes) = e ∷ cause ∷ causes

-- multierr.Combine of the sections' errors, and errs = append(errs, …)
abbrev pub combine : List (List PolicyError) → List PolicyError
combine [] = []
combine (errors ∷ rest) = errors ++ combine rest

-- No check fails.
abbrev pub Passes : List (Bool × PolicyError) → Type 0
Passes [] = Unit
Passes ((test, e) ∷ checks) = (test ≡ false) × Passes checks

pub report_iff : (checks : List (Bool × PolicyError)) → (report checks ≡ []) ↔ Passes checks
report_iff [] = ((λ e. tt), λ p. refl)
report_iff ((true, e) ∷ checks) = ((λ h. cc), λ p. cc (p.0))
report_iff ((false, e) ∷ checks) =
    ((λ h. (refl, (report_iff checks).0 h)), λ p. (report_iff checks).1 p.1)

pub prefixed_iff :
    (e : PolicyError) (causes : List PolicyError) → (prefixed e causes ≡ []) ↔ (causes ≡ [])
prefixed_iff e [] = ((λ h. refl), λ h. refl)
prefixed_iff e (c ∷ cs) = ((λ h. cc), λ h. cc)

pub append_iff : (xs ys : List PolicyError) → (xs ++ ys ≡ []) ↔ ((xs ≡ []) × (ys ≡ []))
append_iff [] ys = ((λ h. (refl, h)), λ h. h.1)
append_iff (x ∷ xs) ys = ((λ h. cc), λ h. cc (h.0))

pub combine_iff :
    (parts : List (List PolicyError)) → (combine parts ≡ []) ↔ All (λ errors. errors ≡ []) parts
combine_iff [] = ((λ h. tt), λ h. refl)
combine_iff (errors ∷ rest) =
    let both = append_iff errors (combine rest) in
    let more = combine_iff rest in
    ((λ h. ((both.0 h).0, more.0 (both.0 h).1)), λ h. both.1 (h.0, more.1 h.1))

-- `if zero { return … }` and the rest
pub section_iff :
    (zero : Bool) (e : PolicyError) (errors : List PolicyError)
    → ((if zero then e ∷ [] else errors) ≡ []) ↔ ((zero ≡ false) × (errors ≡ []))
section_iff true e errors = ((λ h. cc), λ h. cc (h.0))
section_iff false e errors = ((λ h. (refl, h)), λ h. h.1)

pub is_nil_error_lem : (errors : List PolicyError) → errors ≡ [] → is_nil_error errors ≡ true
is_nil_error_lem errors e = rw e

pub not-false : (b : Bool) → not b ≡ false → b ≡ true
not-false true e = refl
not-false false e = cc

-- `if zero { return nil }` and the rest
pub optional :
    (zero : Bool) (errors : List PolicyError)
    → (if zero then [] else errors) ≡ []
    → (zero ≡ true) ⊎ (errors ≡ [])
optional true errors e = inl refl
optional false errors e = inr e

pub required :
    (test : Bool) (errors : List PolicyError)
    → test ≡ true
    → (if test then errors else []) ≡ []
    → errors ≡ []
required true errors h e = e
required false errors h e = cc
