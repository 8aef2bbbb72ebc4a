-- ===== src/BudgetAllocation/Tests.antt =====
-- Allocations at small inputs: runs, and the theorems at concrete inputs.
use bufferpool.Base.{
  ◌*◌, ◌/◌, ◌≤◌, ◌<◌, ◌≡◌, refl, List, [], ◌∷◌, map, some, false, arith, max_uint64,
}
use bufferpool.BudgetAllocation.{Input, Target, initial_target, reduce_to_limit}
use bufferpool.BudgetAllocation.Share.{weighted_share, distribute_remainder}
use bufferpool.BudgetAllocation.Reduce.{Reduces, reduce_to_limit-Reduces}
use bufferpool.BudgetAllocation.Distribute.{Distributes, distribute_remainder-Distributes}
use bufferpool.BudgetAllocation.Allocate.{
  Allocates, reason_minimums_exceed_parent, allocate_report, allocate_report-Allocates,
}
use bufferpool.BudgetAllocation.Exact.{weighted_share_lem}

-- Two children with a base, one of them capped, and one with nothing but a score.
abbrev children : List Input
children =
    record { base_bytes = 40; min_bytes = 10; max_bytes = 50; weight = 1 }
    ∷ record { base_bytes = 20; min_bytes = 15; max_bytes = 0; weight = 2 }
    ∷ record { base_bytes = 0; min_bytes = 0; max_bytes = 30; weight = 1 }
    ∷ []

abbrev targets : List Target
targets = map initial_target children

targets_lem :
    targets
    ≡ record { assigned_bytes = 40; min_bytes = 10; max_bytes = 50 }
      ∷ record { assigned_bytes = 20; min_bytes = 15; max_bytes = max_uint64 }
      ∷ record { assigned_bytes = 0; min_bytes = 0; max_bytes = 30 }
      ∷ []
unfolding initial_target
targets_lem = refl

-- 60 bytes are cut to 40: 10 each, of which the second child has only 5.
reduced_run :
    reduce_to_limit targets 40
    ≡ some (
      record { assigned_bytes = 25; min_bytes = 10; max_bytes = 50 }
          ∷ record { assigned_bytes = 15; min_bytes = 15; max_bytes = max_uint64 }
          ∷ record { assigned_bytes = 0; min_bytes = 0; max_bytes = 30 }
          ∷ [],
      40,
    )
unfolding reduce_to_limit initial_target
reduced_run = refl

-- 40 bytes over: the capped child takes 10, the others share by weight until all is given.
grown_run :
    distribute_remainder targets children 40
    ≡ some (
        record { assigned_bytes = 50; min_bytes = 10; max_bytes = 50 }
        ∷ record { assigned_bytes = 40; min_bytes = 15; max_bytes = max_uint64 }
        ∷ record { assigned_bytes = 10; min_bytes = 0; max_bytes = 30 }
        ∷ [])
unfolding distribute_remainder initial_target
grown_run = refl

reduce_to_limit-Reduces_example : Reduces 40 targets (reduce_to_limit targets 40)
unfolding initial_target
reduce_to_limit-Reduces_example = reduce_to_limit-Reduces targets 40 (omega arith)

distribute_remainder-Distributes_example :
    Distributes 40 targets (distribute_remainder targets children 40)
distribute_remainder-Distributes_example = distribute_remainder-Distributes targets children 40

allocate_report-Allocates_example : Allocates 100 children (allocate_report 100 children)
unfolding initial_target
allocate_report-Allocates_example =
    allocate_report-Allocates 100 children (omega arith) (omega arith)

weighted_share_lem_example :
    (3 < 7 → weighted_share 100 3 7 ≡ 100 * 3 / 7)
    × (7 ≤ 3 → weighted_share 100 3 7 ≡ 100)
    × (weighted_share 100 3 7 ≤ 100)
weighted_share_lem_example = weighted_share_lem 100 3 7 (omega arith) (omega arith)

-- Minimums of 25 bytes, for a parent with 20.
short_run :
    allocate_report 20 children
    ≡ some (record {
      results =
          record { assigned_bytes = 10; min_bytes = 10; max_bytes = 50 }
          ∷ record { assigned_bytes = 15; min_bytes = 15; max_bytes = max_uint64 }
          ∷ record { assigned_bytes = 0; min_bytes = 0; max_bytes = 30 }
          ∷ [];
      feasible = false;
      requested_bytes = 20;
      assigned_bytes = 25;
      overcommitted_bytes = 5;
      reason = reason_minimums_exceed_parent;
    })
unfolding allocate_report reduce_to_limit
short_run = refl

abbrev unbounded_child : Target
unbounded_child = record { assigned_bytes = max_uint64; min_bytes = 0; max_bytes = max_uint64 }

abbrev part_of_child : Target
part_of_child = record {
  assigned_bytes = 9223372036854775808;
  min_bytes = 0;
  max_bytes = max_uint64;
}

-- Where the sum passes the uint64s, the saturated total reaches the limit before the assignments do.
saturated_run :
    reduce_to_limit (unbounded_child ∷ unbounded_child ∷ []) 1
    ≡ some (part_of_child ∷ part_of_child ∷ [], 1)
unfolding reduce_to_limit
saturated_run = refl
