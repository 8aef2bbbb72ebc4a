-- ===== src/ClassBudget.antt =====
-- class_budget.go: the byte budget of one size class, and its split into shard credits.
-- Values are uint64s and products and sums wrap, as written. The gauge and the generation are plain
-- fields: each operation here runs undisturbed. A shard count or index is an `int` with a sign.
pub mod Limits
pub mod Plan
mod Tests
use bufferpool.Base.{
  ℕ, zero, suc, ◌+◌, ◌-◌, ◌*◌, ◌/◌, ◌%◌, ◌^◌, Bool, not, ◌&&◌, ◌||◌, List, [], ◌∷◌, ltb, leb, ◌==◌,
  if◌then◌else◌, Result, ok, err, ◌>>=◌, ◌>>◌, fail_if, max_uint64,
}
use bufferpool.Base.Int.{ℤ, pos, negsuc, is_not_positive, magnitude}
use bufferpool.Panic.{
  Panic, class_budget_zero_class_size, class_budget_class_size_mismatch, class_budget_invalid_limit,
  class_budget_shard_count_invalid, class_budget_shard_index_out_of_range,
}
use bufferpool.Size.{Size, ClassSize, is_zero}
use bufferpool.Generation.{Generation, no_generation, publish_at_least}
use bufferpool.ShardCredit.{Limit, no_limit, new_limit}

abbrev pub word : ℕ
word = 2 ^ 64

pub record ClassBudget : Type 0 where
  pub class_size : ClassSize
  pub generation : Generation
  pub assigned_bytes : ℕ

pub record BudgetLimit : Type 0 where
  pub class_size : ClassSize
  pub assigned_bytes : ℕ
  pub target_buffers : ℕ
  pub target_bytes : ℕ
  pub remainder_bytes : ℕ

-- classBudgetSnapshot: a generation with the limit's fields
pub record BudgetSnapshot : Type 0 where
  pub generation : Generation
  pub limit : BudgetLimit

unfoldable pub new_class_budget : ClassSize → Result Panic ClassBudget
new_class_budget class_size =
    if is_zero class_size
    then err class_budget_zero_class_size
    else ok (record { class_size = class_size; generation = 0; assigned_bytes = 0 })

unfoldable pub new_budget_limit : ClassSize → Size → Result Panic BudgetLimit
new_budget_limit class_size assigned =
    let target_buffers = assigned / class_size in
    let target_bytes = target_buffers * class_size % word in
    if is_zero class_size
    then err class_budget_zero_class_size
    else ok (record {
      class_size = class_size;
      assigned_bytes = assigned;
      target_buffers = target_buffers;
      target_bytes = target_bytes;
      remainder_bytes = (assigned + word - target_bytes) % word;
    })

unfoldable pub validate_budget : BudgetLimit → Result Panic (Unit {0})
validate_budget l = do
  fail_if (is_zero l.class_size) class_budget_zero_class_size
  fail_if (ltb (max_uint64 / l.class_size) l.target_buffers) class_budget_invalid_limit
  fail_if (not (l.target_bytes == l.target_buffers * l.class_size % word))
      class_budget_invalid_limit
  fail_if (leb l.class_size l.remainder_bytes) class_budget_invalid_limit
  fail_if (ltb (max_uint64 - l.remainder_bytes) l.target_bytes) class_budget_invalid_limit
  fail_if (not (l.assigned_bytes == (l.target_bytes + l.remainder_bytes) % word))
      class_budget_invalid_limit

unfoldable pub update_budget_at_least :
    ClassBudget → BudgetLimit → Generation → Result Panic (ClassBudget × Generation)
unfolding validate_budget publish_at_least
update_budget_at_least b limit minimum = do
  validate_budget limit
  fail_if (is_zero b.class_size) class_budget_zero_class_size
  fail_if (not (limit.class_size == b.class_size)) class_budget_class_size_mismatch
  published ← publish_at_least minimum b.generation
  ok (record b { generation = published; assigned_bytes = limit.assigned_bytes }, published)

unfoldable pub update_assigned_bytes_at_least :
    ClassBudget → Size → Generation → Result Panic (ClassBudget × Generation)
unfolding new_budget_limit update_budget_at_least
update_assigned_bytes_at_least b assigned minimum = do
  fail_if (is_zero b.class_size) class_budget_zero_class_size
  limit ← new_budget_limit b.class_size assigned
  update_budget_at_least b limit minimum

unfoldable pub update_assigned_bytes : ClassBudget → Size → Result Panic (ClassBudget × Generation)
unfolding update_assigned_bytes_at_least
update_assigned_bytes b assigned = update_assigned_bytes_at_least b assigned no_generation

unfoldable pub disable : ClassBudget → Result Panic (ClassBudget × Generation)
unfolding update_assigned_bytes
disable b = update_assigned_bytes b 0

unfoldable pub snapshot : ClassBudget → Result Panic BudgetSnapshot
unfolding new_budget_limit
snapshot b = do
  fail_if (is_zero b.class_size) class_budget_zero_class_size
  limit ← new_budget_limit b.class_size b.assigned_bytes
  ok (record { generation = b.generation; limit = limit })

unfoldable pub is_effective : BudgetLimit → Bool
is_effective l = ltb 0 l.target_buffers && ltb 0 l.target_bytes

-- classBudgetLimit.Limit
unfoldable pub credit_limit : BudgetLimit → Result Panic Limit
unfolding validate_budget is_effective new_limit
credit_limit l = do
  validate_budget l
  if is_effective l then new_limit l.target_buffers l.target_bytes else ok no_limit

pub record CreditPlan : Type 0 where
  pub class_size : ClassSize
  pub shard_count : ℕ
  pub target_buffers : ℕ
  pub target_bytes : ℕ
  pub base_buffers_per_shard : ℕ
  pub extra_shards : ℕ

unfoldable pub new_credit_plan : BudgetLimit → ℤ → Result Panic CreditPlan
unfolding validate_budget
new_credit_plan limit shard_count = do
  validate_budget limit
  fail_if (is_not_positive shard_count) class_budget_shard_count_invalid
  ok (record {
    class_size = limit.class_size;
    shard_count = magnitude shard_count;
    target_buffers = limit.target_buffers;
    target_bytes = limit.target_bytes;
    base_buffers_per_shard = limit.target_buffers / magnitude shard_count;
    extra_shards = limit.target_buffers % magnitude shard_count;
  })

-- classBudget.shardCreditPlan, through the snapshot and the limit, each of which validates
unfoldable pub shard_credit_plan : ClassBudget → ℤ → Result Panic CreditPlan
unfolding snapshot validate_budget new_credit_plan
shard_credit_plan b shard_count = do
  s ← snapshot b
  validate_budget s.limit
  new_credit_plan s.limit shard_count

abbrev pub plan_is_zero : CreditPlan → Bool
plan_is_zero p = p.target_buffers == 0 && p.target_bytes == 0

unfoldable pub shard_buffers : CreditPlan → ℕ → ℕ
shard_buffers p index =
    if ltb index p.extra_shards then p.base_buffers_per_shard + 1 else p.base_buffers_per_shard

unfoldable pub credit_in_range : CreditPlan → ℕ → Result Panic Limit
unfolding shard_buffers new_limit
credit_in_range p index =
    if plan_is_zero p
    then ok no_limit
    else if shard_buffers p index == 0
    then ok no_limit
    else new_limit (shard_buffers p index) (shard_buffers p index * p.class_size % word)

unfoldable pub credit_for_shard : CreditPlan → ℤ → Result Panic Limit
unfolding credit_in_range
credit_for_shard p (negsuc n) = err class_budget_shard_index_out_of_range
credit_for_shard p (pos index) =
    if leb p.shard_count index
    then err class_budget_shard_index_out_of_range
    else credit_in_range p index

-- The loop of credits: `left` shards from `index` on.
unfoldable pub credits_from : CreditPlan → ℕ → ℕ → Result Panic (List Limit)
unfolding credit_for_shard
credits_from p zero index = ok []
credits_from p (suc left) index = do
  c ← credit_for_shard p (pos index)
  rest ← credits_from p left (index + 1)
  ok (c ∷ rest)

unfoldable pub credits : CreditPlan → Result Panic (List Limit)
unfolding credits_from
credits p = credits_from p p.shard_count 0

pub record CreditTotal : Type 0 where
  pub buffers : ℕ
  pub bytes : ℕ

-- The loop of totalCredit.
unfoldable pub sum_credits : ℕ → ℕ → List Limit → CreditTotal
sum_credits buffers bytes [] = record { buffers = buffers; bytes = bytes }
sum_credits buffers bytes (c ∷ cs) =
    sum_credits ((buffers + c.target_buffers) % word) ((bytes + c.target_bytes) % word) cs

unfoldable pub total_credit : CreditPlan → Result Panic CreditTotal
unfolding credits sum_credits
total_credit p = do cs ← credits p; ok (sum_credits 0 0 cs)
