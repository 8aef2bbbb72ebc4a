-- ===== src/Policy/Admission.antt =====
-- A valid admission section of a policy, described independently of the checks, which are sound.
use bufferpool.Base.{◌≡◌, refl, Bool, true, false, not, [], ◌∷◌, List}
use bufferpool.Policy.{
  AdmissionPolicy, AdmissionAction, is_unset_request, is_unset_returned, admission_is_zero,
}
use bufferpool.Policy.Report.{
  not-false, PolicyError, report_iff, append_iff, section_iff, request_unknown, request_unset,
  returned_unknown, returned_unset, zero_admission,
}
use bufferpool.Policy.Behaviour.{
  is_known_request, is_known_returned, validate_action, validate_admission,
}

-- An action that is set, to one that the source names.
abbrev pub is_set_action : AdmissionAction → Bool
is_set_action AdmissionAction.unset = false
is_set_action (AdmissionAction.unknown value) = false
is_set_action _ = true

pub record IsAdmission (a : AdmissionPolicy) : Type 0 where
  pub known_request : is_known_request a.zero_size_requests ≡ true
  pub set_request : is_unset_request a.zero_size_requests ≡ false
  pub known_returned : is_known_returned a.returned_buffers ≡ true
  pub set_returned : is_unset_returned a.returned_buffers ≡ false
  pub oversized_return : is_set_action a.oversized_return ≡ true
  pub unsupported_class : is_set_action a.unsupported_class ≡ true
  pub class_mismatch : is_set_action a.class_mismatch ≡ true
  pub credit_exhausted : is_set_action a.credit_exhausted ≡ true
  pub bucket_full : is_set_action a.bucket_full ≡ true

action_set : (a : AdmissionAction) → validate_action a ≡ [] → is_set_action a ≡ true
action_set AdmissionAction.unset e = cc
action_set (AdmissionAction.unknown value) e = cc
action_set _ e = refl

abbrev admission_checks : AdmissionPolicy → List (Bool × PolicyError)
admission_checks a =
    (not (is_known_request a.zero_size_requests), request_unknown)
    ∷ (is_unset_request a.zero_size_requests, request_unset)
    ∷ (not (is_known_returned a.returned_buffers), returned_unknown)
    ∷ (is_unset_returned a.returned_buffers, returned_unset)
    ∷ []

pub validate_admission-IsAdmission :
    (a : AdmissionPolicy) → validate_admission a ≡ [] → IsAdmission a
unfolding validate_admission
validate_admission-IsAdmission a e =
    let body = ((section_iff (admission_is_zero a) zero_admission _).0 e).1 in
    let p0 = (append_iff _ _).0 body in
    let p1 = (append_iff _ _).0 p0.0 in
    let p2 = (append_iff _ _).0 p1.0 in
    let p3 = (append_iff _ _).0 p2.0 in
    let p4 = (append_iff _ _).0 p3.0 in
    let passes = (report_iff (admission_checks a)).0 p4.0 in
    record {
      known_request = not-false _ passes.0;
      set_request = passes.1.0;
      known_returned = not-false _ passes.1.1.0;
      set_returned = passes.1.1.1.0;
      oversized_return = action_set a.oversized_return p4.1;
      unsupported_class = action_set a.unsupported_class p3.1;
      class_mismatch = action_set a.class_mismatch p2.1;
      credit_exhausted = action_set a.credit_exhausted p1.1;
      bucket_full = action_set a.bucket_full p0.1;
    }
