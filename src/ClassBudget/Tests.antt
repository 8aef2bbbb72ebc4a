-- ===== src/ClassBudget/Tests.antt =====
-- Class budgets at concrete values.
use bufferpool.Base.{ℕ, ◌+◌, ◌*◌, ◌≤◌, ◌≡◌, refl, [], ◌∷◌, ok, err, arith}
use bufferpool.Base.Int.{pos, negsuc}
use bufferpool.Panic.{class_budget_shard_index_out_of_range}
use bufferpool.ShardCredit.{Limit}
use bufferpool.ClassBudget.{
  ClassBudget, BudgetLimit, update_assigned_bytes_at_least, snapshot, new_credit_plan, credits,
  total_credit, credit_for_shard, shard_buffers,
}
use bufferpool.ClassBudget.Limits.{IsLimit, limit_of, snapshot-update_assigned_bytes}
use bufferpool.ClassBudget.Plan.{
  plan_of, share, total_credit-new_credit_plan, credit_for_shard_even,
}

-- Ten buffers of 1 KiB and 100 bytes more.
abbrev limit : BudgetLimit
limit = record {
  class_size = 1024;
  assigned_bytes = 10340;
  target_buffers = 10;
  target_bytes = 10240;
  remainder_bytes = 100;
}

limit-IsLimit : IsLimit limit
limit-IsLimit = omega arith

abbrev budget : ClassBudget
budget = record { class_size = 1024; generation = 4; assigned_bytes = 0 }

abbrev credit_of : ℕ → Limit
credit_of n = record { target_buffers = n; target_bytes = n * 1024 }

four_shards :
    credits (plan_of limit 4) ≡ ok (credit_of 3 ∷ credit_of 3 ∷ credit_of 2 ∷ credit_of 2 ∷ [])
unfolding credits
four_shards = refl

snapshot-update_assigned_bytes_example :
    (b' : ClassBudget) × (update_assigned_bytes_at_least budget 10340 9 ≡ ok (b', 9))
    × (snapshot b' ≡ ok (record { generation = 9; limit = limit_of 1024 10340 }))
snapshot-update_assigned_bytes_example =
    snapshot-update_assigned_bytes budget 10340 9 (omega arith) (omega arith) (omega arith)
      (omega arith)

total_credit-new_credit_plan_example :
    (new_credit_plan limit (pos 4) ≡ ok (plan_of limit 4))
    × (total_credit (plan_of limit 4) ≡ ok (record { buffers = 10; bytes = 10240 }))
total_credit-new_credit_plan_example =
    total_credit-new_credit_plan limit 4 limit-IsLimit (omega arith)

credit_for_shard_even_example :
    let p = plan_of limit 4 in
    (credit_for_shard p (pos 1) ≡ ok (share p 1))
    × (credit_for_shard p (pos 3) ≡ ok (share p 3))
    × (shard_buffers p 3 ≤ shard_buffers p 1)
    × (shard_buffers p 1 ≤ shard_buffers p 3 + 1)
    × ((k : ℕ) → 4 ≤ k → credit_for_shard p (pos k) ≡ err class_budget_shard_index_out_of_range)
    × ((k : ℕ) → credit_for_shard p (negsuc k) ≡ err class_budget_shard_index_out_of_range)
credit_for_shard_even_example =
    credit_for_shard_even limit 4 1 3 limit-IsLimit (omega arith) (omega arith)
