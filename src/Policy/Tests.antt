-- ===== src/Policy/Tests.antt =====
-- The policies of the profiles, and policies that Validate refuses.
use bufferpool.Base.{
  ℕ, ◌+◌, ◌^◌, ◌≤◌, ◌≡◌, ◌↔◌, refl, [], ◌∷◌, ok, some, arith, true, false, none, Result,
}
use bufferpool.Panic.{Panic}
use bufferpool.Base.Int.{pos}
use bufferpool.Size.{mib}
use bufferpool.Policy.{Policy}
use bufferpool.ClassTable.{ClassTable, new_class_table, class_for_request, class_at}
use bufferpool.ClassTable.Search.{linear_search, linear_search-IsSortSearch}
use bufferpool.ClassTable.Lookup.{IsBestFit}
use bufferpool.Policy.Report.{request_above_classes}
use bufferpool.Policy.Sections.{validate_retention}
use bufferpool.Policy.Validate.{validate_policy}
use bufferpool.Policy.Retention.{IsRetention, validate_retention_iff}
use bufferpool.Policy.Valid.{IsUsable, validate_policy-IsUsable}
use bufferpool.Policy.Serves.{Serves, validate_policy-class_for_request}
use bufferpool.Policy.Shape.{
  shape_policy, retention_policy, validate_shape, validate_pool_retention,
  validate_policy-validate_shape,
}
use bufferpool.Policy.Defaults.{default_policy_shards_per_class}
use bufferpool.Policy.Profiles.{PolicyProfile, is_named, policy_for_profile}
use bufferpool.Policy.Profiles.Secure.{secure_policy}
use bufferpool.Policy.Profiles.Valid.{
  ReturnsValid, default_policy_shards_per_class_lem, policy_for_profile-ReturnsValid,
}

-- One test for each kind of check: across sections, in a section, and the product of the slots.
large_request :
    validate_policy (record secure_policy {
      retention = record secure_policy.retention { max_request_size = mib + 1 };
    })
    ≡ request_above_classes ∷ []
unfolding validate_policy secure_policy
large_request = refl

secure_valid : validate_policy secure_policy ≡ []
unfolding validate_policy secure_policy
secure_valid = refl

three_processors : default_policy_shards_per_class (pos 3) ≡ ok (pos 4)
unfolding default_policy_shards_per_class
three_processors = refl

validate_retention_iff_example :
    (validate_retention secure_policy.retention ≡ []) ↔ IsRetention secure_policy.retention
validate_retention_iff_example = validate_retention_iff secure_policy.retention

validate_policy-IsUsable_example : IsUsable secure_policy
validate_policy-IsUsable_example = validate_policy-IsUsable secure_policy secure_valid

validate_policy-class_for_request_example :
    (t : ClassTable) × (new_class_table secure_policy.classes.sizes ≡ ok t)
    × (index : ℕ) × (class_for_request linear_search t 3000 ≡ some (class_at t index))
    × IsBestFit t 3000 index
    × Serves secure_policy 3000 (class_at t index)
unfolding secure_policy
validate_policy-class_for_request_example =
    validate_policy-class_for_request linear_search linear_search-IsSortSearch secure_policy 3000
      secure_valid (omega arith)

validate_policy-validate_shape_example :
    (validate_shape (shape_policy secure_policy) ≡ [])
    × (validate_pool_retention (retention_policy secure_policy) ≡ [])
validate_policy-validate_shape_example = validate_policy-validate_shape secure_policy secure_valid

default_policy_shards_per_class_lem_example :
    (k : ℕ) × (k ≤ 5) × (default_policy_shards_per_class (pos 12) ≡ ok (pos (2 ^ k)))
default_policy_shards_per_class_lem_example =
    default_policy_shards_per_class_lem (pos 12) (omega arith)

policy_for_profile-ReturnsValid_example :
    (is_named PolicyProfile.default ≡ true
      → (result : Result Panic Policy) × (policy_for_profile (pos 12) PolicyProfile.default
          ≡ some result)
        × ReturnsValid result)
    × (is_named PolicyProfile.default ≡ false
        → policy_for_profile (pos 12) PolicyProfile.default ≡ none)
policy_for_profile-ReturnsValid_example =
    policy_for_profile-ReturnsValid (pos 12) PolicyProfile.default (omega arith)
