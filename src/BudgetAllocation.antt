-- ===== src/BudgetAllocation.antt =====
-- budget_allocation.go: how a parent's budget is divided among children that have a base, a minimum
-- and a maximum. A child's score is a float, of which only the integer weight that
-- budgetScoreWeight makes of it is used: an input carries that weight.
pub mod Pass
pub mod Reduce
pub mod Share
pub mod Weights
pub mod Round
pub mod Distribute
pub mod Exact
pub mod Served
pub mod Allocate
mod Tests
use bufferpool.Base.{
  ℕ, zero, suc, ◌+◌, ◌-◌, ◌*◌, ◌/◌, ◌%◌, ◌^◌, Bool, true, false, ◌||◌, List, [], ◌∷◌, map, Option,
  some, none, ltb, leb, ◌==◌, if◌then◌else◌, max_uint64, saturating_add, min_uint64,
}

pub record Input : Type 0 where
  pub base_bytes : ℕ
  pub min_bytes : ℕ
  pub max_bytes : ℕ
  pub weight : ℕ

-- budgetAllocationResult
pub record Target : Type 0 where
  pub assigned_bytes : ℕ
  pub min_bytes : ℕ
  pub max_bytes : ℕ

unfoldable pub allocation_max_bytes : ℕ → ℕ
allocation_max_bytes max_bytes = if max_bytes == 0 then max_uint64 else max_bytes

unfoldable pub clamp_uint64 : ℕ → ℕ → ℕ → ℕ
clamp_uint64 value min_value max_value =
    if ltb value min_value then min_value else if ltb max_value value then max_value else value

-- The body of the loop of phase 1.
unfoldable pub initial_target : Input → Target
unfolding allocation_max_bytes clamp_uint64
initial_target input =
    let given = allocation_max_bytes input.max_bytes in
    let max_bytes = if ltb given input.min_bytes then input.min_bytes else given in
    record {
      assigned_bytes = clamp_uint64 input.base_bytes input.min_bytes max_bytes;
      min_bytes = input.min_bytes;
      max_bytes = max_bytes;
    }

-- `total = poolSaturatingAdd(total, …)` over the results, from `acc` on
unfoldable pub total_from : ℕ → List Target → ℕ
unfolding saturating_add
total_from acc [] = acc
total_from acc (r ∷ rs) = total_from (saturating_add acc r.assigned_bytes) rs

unfoldable pub allocation_total : List Target → ℕ
unfolding total_from
allocation_total rs = total_from 0 rs

abbrev pub reducible_count : List Target → ℕ
reducible_count [] = 0
reducible_count (r ∷ rs) =
    if ltb r.min_bytes r.assigned_bytes then reducible_count rs + 1 else reducible_count rs

-- `a - b` on uint64s
unfoldable pub sub_uint64 : ℕ → ℕ → ℕ
sub_uint64 a b = if ltb a b then a + 2 ^ 64 - b else a - b

-- One pass of the inner loop of reduceBudgetAssignmentsToLimit: the targets and the total after it.
-- Where the source returns from inside, the rest stays as it is, and the total ends the outer loop.
unfoldable pub reduce_pass : ℕ → ℕ → ℕ → List Target → List Target × ℕ
unfolding sub_uint64 min_uint64
reduce_pass share limit total [] = ([], total)
reduce_pass share limit total (r ∷ rs) =
    let reduction = min_uint64 share (r.assigned_bytes - r.min_bytes) in
    let left = sub_uint64 total reduction in
    let reduced : Target = record r { assigned_bytes = r.assigned_bytes - reduction } in
    elim (leb r.assigned_bytes r.min_bytes) [
      | true ↦ let rest = reduce_pass share limit total rs in (r ∷ rest.0, rest.1)
      | false ↦ elim (leb left limit) [
        | true ↦ (reduced ∷ rs, left)
        | false ↦ let rest = reduce_pass share limit left rs in (reduced ∷ rest.0, rest.1)
      ]
    ]

-- The outer loop, for a number of passes; `none` if they are not enough.
unfoldable pub reduce_loop : ℕ → ℕ → ℕ → List Target → Option (List Target × ℕ)
unfolding reduce_pass
reduce_loop zero limit total rs = none
reduce_loop (suc passes) limit total rs =
    let eligible = reducible_count rs in
    let share = (total - limit) / eligible in
    elim (leb total limit || eligible == 0) [
      | true ↦ some (rs, total)
      | false ↦
          let pass = reduce_pass (if share == 0 then 1 else share) limit total rs in
          reduce_loop passes limit pass.1 pass.0
    ]

-- A pass takes at least a byte, so that the total's number of passes, and one that only looks, do.
unfoldable pub reduce_to_limit : List Target → ℕ → Option (List Target × ℕ)
unfolding reduce_loop allocation_total
reduce_to_limit rs limit = reduce_loop (allocation_total rs + 1) limit (allocation_total rs) rs
