-- ===== src/ClassState.antt =====
-- class_state.go, class_admission.go: the shards of one size class, under one budget.
pub mod Counters
pub mod Get
pub mod Inv
pub mod Held
pub mod Gets
pub mod Search
pub mod Fallback
pub mod Answers
pub mod Retains
pub mod Create
pub mod Credits
pub mod Keeps
pub mod Clear
pub mod Run
mod Tests
use bufferpool.Base.{
  ℕ, zero, suc, ◌+◌, ◌-◌, ◌%◌, ◌^◌, Bool, true, false, not, ◌&&◌, ◌||◌, ltb, leb, ◌==◌,
  if◌then◌else◌, List, [], ◌∷◌, replicate, length, get_elem?, set, Option, none, some, Result, ok,
  err, ◌>>=◌, ◌>>◌, fail_if, max_uint64,
}
use bufferpool.Base.Int.{ℤ, pos, negsuc, is_not_positive, magnitude}
use bufferpool.Panic.{
  Panic, class_state_invalid_class, class_state_invalid_shard_count,
  class_state_shard_index_out_of_range, class_state_request_exceeds_class_size,
  class_state_invalid_allocation_capacity, class_state_allocation_below_class_size,
}
use bufferpool.Size.{Size, ClassSize, is_positive}
use bufferpool.Slice.{Slice, capacity, is_nil, Memory}
use bufferpool.ClassTable.{SizeClass}
use bufferpool.Generation.{Generation, no_generation}
use bufferpool.Bucket.{TrimResult}
use bufferpool.ClassBudget.{
  ClassBudget, BudgetLimit, CreditPlan, new_class_budget, update_assigned_bytes_at_least,
  update_budget_at_least, shard_credit_plan, credit_for_shard,
}
use bufferpool.Shard.{
  Shard, GetResult, RetainResult, new_shard, try_get, record_shard_allocation,
  try_retain_with_options, shard_trim_bounded, shard_clear, update_credit_at_least,
}
use bufferpool.ClassState.Counters.{
  ClassCounters, zero_class_counters, record_get_result, count_allocation, record_retain_result,
  record_rejected_put, count_trim, count_clear, record_clear_amount,
}

pub record ClassState : Type 0 where
  pub class : SizeClass
  pub counters : ClassCounters
  pub budget : ClassBudget
  pub shards : List Shard

-- The loop of newClassState: each shard is built from the same limits.
unfoldable pub new_shards : ℕ → ℤ → Option ℤ → Result Panic (List Shard)
unfolding new_shard
new_shards zero slot_limit segment_slot_limit = ok []
new_shards (suc n) slot_limit segment_slot_limit = do
  shard ← new_shard slot_limit segment_slot_limit
  rest ← new_shards n slot_limit segment_slot_limit
  ok (shard ∷ rest)

unfoldable pub new_class_state : SizeClass → ℤ → ℤ → Option ℤ → Result Panic ClassState
unfolding new_shards new_class_budget
new_class_state class shard_count slot_limit segment_slot_limit = do
  fail_if (not (is_positive class.size)) class_state_invalid_class
  fail_if (is_not_positive shard_count) class_state_invalid_shard_count
  shards ← new_shards (magnitude shard_count) slot_limit segment_slot_limit
  budget ← new_class_budget class.size
  ok (record { class = class; counters = zero_class_counters; budget = budget; shards = shards })

-- mustShardAt
unfoldable pub must_shard_at : ClassState → ℤ → Result Panic (ℕ × Shard)
must_shard_at s (negsuc n) = err class_state_shard_index_out_of_range
must_shard_at s (pos index) = elim (get_elem? s.shards index) [
  | none ↦ err class_state_shard_index_out_of_range
  | some shard ↦ ok (index, shard)
]

-- A shard is changed in its place.
abbrev pub with_shard : ClassState → ℕ → Shard → ClassState
with_shard s index shard = record s { shards = set s.shards index shard }

-- The loop of applyShardCreditPlanAtLeast; the head is `s.shards[index]`.
unfoldable pub apply_credits : CreditPlan → Generation → ℕ → List Shard → Result Panic (List Shard)
unfolding credit_for_shard update_credit_at_least
apply_credits plan minimum index [] = ok []
apply_credits plan minimum index (shard ∷ shards) = do
  credit ← credit_for_shard plan (pos index)
  (updated, generation) ← update_credit_at_least shard credit minimum
  rest ← apply_credits plan minimum (index + 1) shards
  ok (updated ∷ rest)

unfoldable pub apply_shard_credit_plan_at_least :
    ClassState → CreditPlan → Generation → Result Panic ClassState
apply_shard_credit_plan_at_least s plan minimum = do
  fail_if (not (plan.shard_count == length s.shards)) class_state_invalid_shard_count
  shards ← apply_credits plan minimum 0 s.shards
  ok (record s { shards = shards })

-- updateBudgetAtLeast
unfoldable pub update_class_budget_at_least :
    ClassState → Size → Generation → Result Panic (ClassState × Generation)
unfolding update_assigned_bytes_at_least shard_credit_plan apply_shard_credit_plan_at_least
update_class_budget_at_least s assigned minimum = do
  (budget, generation) ← update_assigned_bytes_at_least s.budget assigned minimum
  plan ← shard_credit_plan budget (pos (length s.shards))
  updated ← apply_shard_credit_plan_at_least (record s { budget = budget }) plan generation
  ok (updated, generation)

-- updateBudget and disableBudget apply the plan without a minimum.
unfoldable pub update_class_budget : ClassState → Size → Result Panic (ClassState × Generation)
unfolding update_assigned_bytes_at_least shard_credit_plan apply_shard_credit_plan_at_least
update_class_budget s assigned = do
  (budget, generation) ← update_assigned_bytes_at_least s.budget assigned no_generation
  plan ← shard_credit_plan budget (pos (length s.shards))
  updated ← apply_shard_credit_plan_at_least (record s { budget = budget }) plan no_generation
  ok (updated, generation)

unfoldable pub disable_class_budget : ClassState → Result Panic (ClassState × Generation)
unfolding update_class_budget
disable_class_budget s = update_class_budget s 0

-- validateAllocationCapacity
abbrev pub validate_allocation_capacity : ClassState → ℕ → Result Panic (Unit {0})
validate_allocation_capacity s allocated =
    fail_if (allocated == 0) class_state_invalid_allocation_capacity
    >> fail_if (ltb allocated s.class.size) class_state_allocation_below_class_size

unfoldable pub record_class_allocation : ClassState → ℤ → ℕ → Result Panic ClassState
unfolding must_shard_at record_shard_allocation count_allocation
record_class_allocation s index allocated = do
  (place, shard) ← must_shard_at s index
  validate_allocation_capacity s allocated
  updated ← record_shard_allocation shard allocated
  ok (record (with_shard s place updated) { counters = count_allocation s.counters allocated })

pub data ClassRetainDecision : Type 0 where
  class_retain_accept reject_nil_buffer reject_zero_capacity reject_capacity_below_class_size :
      ClassRetainDecision

abbrev pub allows_shard_retain : ClassRetainDecision → Bool
allows_shard_retain class_retain_accept = true
allows_shard_retain _ = false

unfoldable pub evaluate_class_retain : SizeClass → Slice → ClassRetainDecision
evaluate_class_retain class buffer =
    if is_nil buffer
    then reject_nil_buffer
    else if capacity buffer == 0
    then reject_zero_capacity
    else if ltb (capacity buffer) class.size
    then reject_capacity_below_class_size
    else class_retain_accept

-- `shard` is none where the class refused the buffer, the source's zero shardRetainResult.
pub record ClassRetainResult : Type 0 where
  pub class : SizeClass
  pub shard_index : ℕ
  pub class_decision : ClassRetainDecision
  pub shard : Option RetainResult
  pub returned_capacity : ℕ

-- tryRetainWithOptions
unfoldable pub class_try_retain :
    ClassState → Memory → ℤ → Slice → Bool → Result Panic (ClassState × Memory × ClassRetainResult)
unfolding must_shard_at evaluate_class_retain try_retain_with_options record_retain_result
    record_rejected_put
class_try_retain s m index buffer zero_before_retain = do
  (place, shard) ← must_shard_at s index
  let decision = evaluate_class_retain s.class buffer
  if not (allows_shard_retain decision)
      then ok (
        record s { counters = record_rejected_put s.counters (capacity buffer) },
        m,
        record {
          class = s.class;
          shard_index = place;
          class_decision = decision;
          shard = none;
          returned_capacity = capacity buffer;
        },
      )
      else do
        (updated, memory, result) ← try_retain_with_options shard m buffer zero_before_retain
        ok (
          record (with_shard s place updated) { counters = record_retain_result s.counters result },
          memory,
          record {
            class = s.class;
            shard_index = place;
            class_decision = decision;
            shard = some result;
            returned_capacity = result.capacity;
          },
        )

unfoldable pub trim_class_shard : ClassState → ℤ → ℤ → ℕ → Result Panic (ClassState × TrimResult)
unfolding must_shard_at shard_trim_bounded count_trim
trim_class_shard s index max_buffers max_bytes = do
  (place, shard) ← must_shard_at s index
  (updated, result) ← shard_trim_bounded shard max_buffers max_bytes
  ok (record (with_shard s place updated) { counters = count_trim s.counters result }, result)

unfoldable pub clear_class_shard : ClassState → ℤ → Result Panic (ClassState × TrimResult)
unfolding must_shard_at shard_clear count_clear
clear_class_shard s index = do
  (place, shard) ← must_shard_at s index
  (updated, result) ← shard_clear shard
  ok (record (with_shard s place updated) { counters = count_clear s.counters result }, result)

-- The loop of clear, with what it has removed.
unfoldable pub clear_shards : List Shard → Result Panic (List Shard × ℕ × ℕ)
unfolding shard_clear
clear_shards [] = ok ([], 0, 0)
clear_shards (shard ∷ shards) = do
  (updated, result) ← shard_clear shard
  (rest, removed_buffers, removed_bytes) ← clear_shards shards
  ok (
    updated ∷ rest,
    result.removed_buffers + removed_buffers,
    (result.removed_bytes + removed_bytes) % 2 ^ 64,
  )

unfoldable pub clear_class : ClassState → Result Panic (ClassState × ℕ × ℕ)
unfolding record_clear_amount
clear_class s = do
  (shards, removed_buffers, removed_bytes) ← clear_shards s.shards
  ok (
    record s {
      shards = shards;
      counters = record_clear_amount s.counters removed_buffers removed_bytes;
    },
    removed_buffers,
    removed_bytes,
  )
