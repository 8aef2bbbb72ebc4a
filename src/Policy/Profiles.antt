-- ===== src/Policy/Profiles.antt =====
-- profiles.go: the named policies.
pub mod Throughput
pub mod MemoryConstrained
pub mod Bursty
pub mod StrictBounded
pub mod Secure
pub mod Valid
use bufferpool.Base.{
  Option, none, some, ℕ, ◌+◌, ◌*◌, ◌%◌, ◌^◌, Bool, true, false, List, [], ◌∷◌, Result, ok, err,
  ◌>>=◌, if◌then◌else◌,
}
use bufferpool.Base.Int.{ℤ, pos, lt_int, int_of, uint64_of}
use bufferpool.Size.{Size, ClassSize, kib, mib}
use bufferpool.Panic.{Panic}
use bufferpool.Mathx.{next_power_of_two, clamp}
use bufferpool.Policy.{
  Policy, RetentionPolicy, ClassPolicy, ShardPolicy, AdmissionPolicy, AdmissionAction,
  PressurePolicy, PressureLevelPolicy, TrimPolicy, OwnershipPolicy, OwnershipMode,
  ShardSelectionMode, ZeroSizeRequestPolicy, ReturnedBufferPolicy, policy_ratio_one,
}
use bufferpool.Policy.Defaults.Sections.{default_policy}
use bufferpool.Policy.Profiles.Throughput.{throughput_policy}
use bufferpool.Policy.Profiles.MemoryConstrained.{memory_constrained_policy}
use bufferpool.Policy.Profiles.Bursty.{bursty_policy}
use bufferpool.Policy.Profiles.StrictBounded.{strict_bounded_policy}
use bufferpool.Policy.Profiles.Secure.{secure_policy}

-- A uint8: the profiles that the source names, and `unknown` for other values.
pub data PolicyProfile : Type 0 where
  unset default throughput memory_constrained bursty strict_bounded secure : PolicyProfile
  unknown : ℕ → PolicyProfile

-- A profile that the source names, and that is not the unset one.
abbrev pub is_named : PolicyProfile → Bool
is_named PolicyProfile.unset = false
is_named (PolicyProfile.unknown value) = false
is_named _ = true

unfoldable pub policy_for_profile : ℤ → PolicyProfile → Option (Result Panic Policy)
unfolding default_policy throughput_policy memory_constrained_policy bursty_policy
    strict_bounded_policy secure_policy
policy_for_profile procs PolicyProfile.default = some (default_policy procs)
policy_for_profile procs PolicyProfile.throughput = some (ok throughput_policy)
policy_for_profile procs PolicyProfile.memory_constrained = some (ok memory_constrained_policy)
policy_for_profile procs PolicyProfile.bursty = some (ok bursty_policy)
policy_for_profile procs PolicyProfile.strict_bounded = some (ok strict_bounded_policy)
policy_for_profile procs PolicyProfile.secure = some (ok secure_policy)
policy_for_profile procs PolicyProfile.unset = none
policy_for_profile procs (PolicyProfile.unknown value) = none
