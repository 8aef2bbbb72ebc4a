-- ===== src/Policy/Profiles/Valid.antt =====
-- policy_defaults.go and profiles.go: the number of shards, and the policies of the profiles.
use bufferpool.Base.{
  Bool-cases, inl, inr, ℕ, zero, suc, ◌^◌, ◌≤◌, ◌<◌, true, false, [], none, Result, ok, ltb, ◌≡◌,
  refl, some, arith,
}
use bufferpool.Base.Int.{ℤ, pos, negsuc, int_of, magnitude}
use bufferpool.Panic.{Panic}
use bufferpool.Size.{max_int}
use bufferpool.Mathx.{clamp}
use bufferpool.Mathx.Laws.{pow_suc, pow_positive, next_power_of_two_lem}
use bufferpool.Policy.{Policy}
use bufferpool.Policy.Validate.{validate_policy}
use bufferpool.Policy.Defaults.{
  default_policy_shards_per_class, default_policy_max_class_retained_buffers,
}
use bufferpool.Policy.Defaults.Sections.{
  default_policy, default_pool_shape_policy, default_pool_retention_policy, default_shard_policy,
  default_retention_policy,
}
use bufferpool.Policy.Profiles.{PolicyProfile, is_named, policy_for_profile}
use bufferpool.Policy.Profiles.Throughput.{throughput_policy}
use bufferpool.Policy.Profiles.MemoryConstrained.{memory_constrained_policy}
use bufferpool.Policy.Profiles.Bursty.{bursty_policy}
use bufferpool.Policy.Profiles.StrictBounded.{strict_bounded_policy}
use bufferpool.Policy.Profiles.Secure.{secure_policy}

clamp_above :
    (n : ℕ) → 32 < n → (j : ℕ) × (j ≤ 5) × (clamp (int_of n) (pos 1) (pos 32) ≡ ok (pos (2 ^ j)))
unfolding clamp
clamp_above n h =
    let not_below : ltb n 1 ≡ false = ground arith in
    let above : ltb 32 n ≡ true = ground arith in
    elim (Bool-cases (ltb n (2 ^ 63))) [
      | inl e ↦ (5, omega arith, rw (e, not_below, above) refl)
      | inr e ↦ (0, omega arith, rw e refl)
    ]

pow_six : (k : ℕ) → 32 < 2 ^ suc (suc (suc (suc (suc (suc k)))))
pow_six k = omega (
  arith,
  pow_positive k,
  pow_suc k,
  pow_suc (suc k),
  pow_suc (suc (suc k)),
  pow_suc (suc (suc (suc k))),
  pow_suc (suc (suc (suc (suc k)))),
  pow_suc (suc (suc (suc (suc (suc k))))),
)

-- What Clamp makes of a power of two; 2 ^ 63 is a negative int.
clamp_power :
    (k : ℕ) → (j : ℕ) × (j ≤ 5) × (clamp (int_of (2 ^ k)) (pos 1) (pos 32) ≡ ok (pos (2 ^ j)))
unfolding clamp
clamp_power zero = (0, omega arith, refl)
clamp_power (suc zero) = (1, omega arith, refl)
clamp_power (suc (suc zero)) = (2, omega arith, refl)
clamp_power (suc (suc (suc zero))) = (3, omega arith, refl)
clamp_power (suc (suc (suc (suc zero)))) = (4, omega arith, refl)
clamp_power (suc (suc (suc (suc (suc zero))))) = (5, omega arith, refl)
clamp_power (suc (suc (suc (suc (suc (suc k)))))) =
    clamp_above (2 ^ suc (suc (suc (suc (suc (suc k)))))) (pow_six k)

-- For any number of processors, the default policy has 2 ^ k shards for each class, with k at most 5.
pub default_policy_shards_per_class_lem :
    (procs : ℤ)
    → magnitude procs ≤ max_int
    → (k : ℕ) × (k ≤ 5) × (default_policy_shards_per_class procs ≡ ok (pos (2 ^ k)))
unfolding default_policy_shards_per_class
default_policy_shards_per_class_lem (negsuc n) h = (0, omega arith, refl)
default_policy_shards_per_class_lem (pos zero) h = (0, omega arith, refl)
default_policy_shards_per_class_lem (pos (suc n)) h =
    let power = next_power_of_two_lem (suc n) (omega arith) (omega arith) in
    let clamped = clamp_power power.0 in
    let at_least : ltb (suc n) 1 ≡ false = ground arith in
    (clamped.0, clamped.1, rw (at_least, power.1) clamped.2)

-- The call returns a policy, and the policy is valid.
abbrev pub ReturnsValid : Result Panic Policy → Type 0
ReturnsValid result = (policy : Policy) × (result ≡ ok policy) × (validate_policy policy ≡ [])

default_policy_of :
    (procs : ℤ) (k : ℕ)
    → k ≤ 5
    → default_policy_shards_per_class procs ≡ ok (pos (2 ^ k))
    → ReturnsValid (default_policy procs)
unfolding default_policy default_pool_shape_policy default_pool_retention_policy
    default_shard_policy default_retention_policy default_policy_max_class_retained_buffers
    validate_policy
default_policy_of procs zero h e = rw e (_, refl, refl)
default_policy_of procs (suc zero) h e = rw e (_, refl, refl)
default_policy_of procs (suc (suc zero)) h e = rw e (_, refl, refl)
default_policy_of procs (suc (suc (suc zero))) h e = rw e (_, refl, refl)
default_policy_of procs (suc (suc (suc (suc zero)))) h e = rw e (_, refl, refl)
default_policy_of procs (suc (suc (suc (suc (suc zero))))) h e = rw e (_, refl, refl)
default_policy_of procs (suc (suc (suc (suc (suc (suc k)))))) h e = absurd (omega arith)

-- PolicyForProfile knows every profile but the unset one and unknown values, and each policy that it
-- returns, on any number of processors, is one that Validate accepts.
pub policy_for_profile-ReturnsValid :
    (procs : ℤ) (profile : PolicyProfile)
    → magnitude procs ≤ max_int
    → (is_named profile ≡ true
        → (result : Result Panic Policy) × (policy_for_profile procs profile ≡ some result)
          × ReturnsValid result)
      × (is_named profile ≡ false → policy_for_profile procs profile ≡ none)
unfolding policy_for_profile validate_policy
policy_for_profile-ReturnsValid procs PolicyProfile.default h =
    let shards = default_policy_shards_per_class_lem procs h in
    ((λ e. (_, refl, default_policy_of procs shards.0 shards.1 shards.2)), λ e. cc)
policy_for_profile-ReturnsValid procs PolicyProfile.throughput h =
    ((λ e. (_, refl, (throughput_policy, refl, refl))), λ e. cc)
policy_for_profile-ReturnsValid procs PolicyProfile.memory_constrained h =
    ((λ e. (_, refl, (memory_constrained_policy, refl, refl))), λ e. cc)
policy_for_profile-ReturnsValid procs PolicyProfile.bursty h =
    ((λ e. (_, refl, (bursty_policy, refl, refl))), λ e. cc)
policy_for_profile-ReturnsValid procs PolicyProfile.strict_bounded h =
    ((λ e. (_, refl, (strict_bounded_policy, refl, refl))), λ e. cc)
policy_for_profile-ReturnsValid procs PolicyProfile.secure h =
    ((λ e. (_, refl, (secure_policy, refl, refl))), λ e. cc)
policy_for_profile-ReturnsValid procs PolicyProfile.unset h = ((λ e. cc), λ e. refl)
policy_for_profile-ReturnsValid procs (PolicyProfile.unknown value) h = ((λ e. cc), λ e. refl)
