-- ===== src/ShardCredit/Decide.antt =====
-- What the credit decisions mean.
use bufferpool.Base.{ℕ, ◌+◌, ◌≤◌, ◌<◌, ◌≡◌, ◌↔◌, ◌⊎◌, true, false, ok, err, arith, max_uint64, max}
use bufferpool.Panic.{shard_credit_partial_limit, shard_credit_inconsistent_limit}
use bufferpool.Generation.{Generation, max_generation}
use bufferpool.Generation.Publish.{publish_at_least_lem}
use bufferpool.ShardCredit.{
  Credit, Limit, Usage, accept, validate, limit_is_consistent, evaluate_retain, update_at_least,
  remaining, overage, is_over_target,
}

-- Credit that can admit a buffer: both targets are set, with at least a byte for each buffer.
pub record IsUsable (s : Credit) : Type 0 where
  pub some_buffer : 0 < s.target_buffers
  pub enough_bytes : s.target_buffers ≤ s.target_bytes

-- A buffer is accepted exactly when it has a capacity, the credit is usable, and the usage with this
-- buffer added stays within both targets. (Targets and usage are uint64s.)
pub evaluate_retain-accept :
    (s : Credit) (usage : Usage) (candidate : ℕ)
    → s.target_bytes ≤ max_uint64
    → (evaluate_retain s usage candidate ≡ accept) ↔ (
        IsUsable s
        × (0 < candidate)
        × (usage.retained_buffers + 1 ≤ s.target_buffers)
        × (usage.retained_bytes + candidate ≤ s.target_bytes))
unfolding evaluate_retain
evaluate_retain-accept s usage candidate h = ((λ e. ground arith), λ p. ground arith)

-- A limit passes validation exactly when IsConsistent says so: it is zero, or usable as a credit.
pub validate_iff :
    (l : Limit)
    → ((validate l ≡ ok tt) ↔ (limit_is_consistent l ≡ true))
      × ((limit_is_consistent l ≡ true) ↔ (
          ((l.target_buffers ≡ 0) × (l.target_bytes ≡ 0))
          ⊎ ((0 < l.target_buffers) × (l.target_buffers ≤ l.target_bytes))))
unfolding validate limit_is_consistent
validate_iff l =
    (((λ e. ground arith), λ e. ground arith), ((λ e. ground arith), λ e. ground arith))

-- With usable credit, what remains of a target and what is over it balance the usage, and the shard
-- is over its target exactly when one of the two usages is.
pub remaining-overage :
    (s : Credit) (usage : Usage)
    → IsUsable s
    → (usage.retained_buffers + (remaining s usage).buffers
        ≡ s.target_buffers + (overage s usage).buffers)
      × (usage.retained_bytes + (remaining s usage).bytes
          ≡ s.target_bytes + (overage s usage).bytes)
      × ((is_over_target s usage ≡ false)
          ↔ ((usage.retained_buffers ≤ s.target_buffers) × (usage.retained_bytes ≤ s.target_bytes)))
unfolding remaining is_over_target
remaining-overage s usage u = (ground arith, ground arith, ((λ e. ground arith), λ e. ground arith))

validate_errors :
    (l : Limit)
    → ((l.target_buffers ≡ 0) × (0 < l.target_bytes) → validate l ≡ err shard_credit_partial_limit)
      × ((0 < l.target_buffers) × (l.target_bytes ≡ 0)
          → validate l ≡ err shard_credit_partial_limit)
      × ((0 < l.target_bytes) × (l.target_bytes < l.target_buffers)
          → validate l ≡ err shard_credit_inconsistent_limit)
unfolding validate
validate_errors l = ((λ h. ground arith), (λ h. ground arith), λ h. ground arith)

-- An update with a consistent limit stores its targets under a generation that is later than the
-- present one and at least the minimum asked for. One with only one target, or with fewer bytes than
-- buffers, panics.
pub update_at_least_lem :
    (c : Credit) (l : Limit) (minimum : Generation)
    → minimum ≤ max_generation
    → c.generation < max_generation
    → (limit_is_consistent l ≡ true
        → update_at_least c l minimum
          ≡ ok (
            record {
              generation = max (c.generation + 1) minimum;
              target_buffers = l.target_buffers;
              target_bytes = l.target_bytes;
            },
            max (c.generation + 1) minimum,
          ))
      × ((l.target_buffers ≡ 0) × (0 < l.target_bytes)
          → update_at_least c l minimum ≡ err shard_credit_partial_limit)
      × ((0 < l.target_buffers) × (l.target_bytes ≡ 0)
          → update_at_least c l minimum ≡ err shard_credit_partial_limit)
      × ((0 < l.target_bytes) × (l.target_bytes < l.target_buffers)
          → update_at_least c l minimum ≡ err shard_credit_inconsistent_limit)
unfolding update_at_least
update_at_least_lem c l minimum hm hg = (
  (λ e. rw ((validate_iff l).0.1 e, (publish_at_least_lem minimum c.generation hm).0 hg)),
  (λ h. rw ((validate_errors l).0 h)),
  (λ h. rw ((validate_errors l).1 h)),
  λ h. rw ((validate_errors l).2 h),
)
