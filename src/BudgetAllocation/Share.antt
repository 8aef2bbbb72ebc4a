-- ===== src/BudgetAllocation/Share.antt =====
-- The distribution of a remainder by weights, and the whole allocation.
use bufferpool.Base.{
  ℕ, zero, suc, ◌+◌, ◌-◌, ◌*◌, ◌/◌, ◌%◌, ◌^◌, Bool, true, false, not, ◌||◌, List, [], ◌∷◌, Option,
  some, none, ltb, leb, ◌==◌, if◌then◌else◌, saturating_add, min_uint64,
}
use bufferpool.BudgetAllocation.{Input, Target}

-- budgetWeightedShare; the product and the quotient of bits.Mul64 and bits.Div64 are exact.
unfoldable pub weighted_share : ℕ → ℕ → ℕ → ℕ
unfolding saturating_add
weighted_share total weight total_weight =
    if total == 0 || weight == 0 || total_weight == 0
    then 0
    else if leb total_weight weight
    then total
    else let share =
        saturating_add (total / total_weight * weight % 2 ^ 64)
          (total % total_weight * weight / total_weight) in
      if ltb total share then total else share

abbrev pub has_room : Target → Bool
has_room r = ltb r.assigned_bytes r.max_bytes

-- The first loop of budgetAllocationWeights, over results and inputs of the same length.
unfoldable pub score_weights : List Target → List Input → List ℕ
score_weights [] inputs = []
score_weights (r ∷ rs) [] = 0 ∷ score_weights rs []
score_weights (r ∷ rs) (input ∷ inputs) =
    (if has_room r then input.weight else 0) ∷ score_weights rs inputs

unfoldable pub equal_weights : List Target → List ℕ
equal_weights [] = []
equal_weights (r ∷ rs) = (if has_room r then 1 else 0) ∷ equal_weights rs

abbrev pub some_positive : List ℕ → Bool
some_positive [] = false
some_positive (w ∷ ws) = ltb 0 w || some_positive ws

unfoldable pub allocation_weights : List Target → List Input → List ℕ
unfolding score_weights equal_weights
allocation_weights rs inputs =
    if some_positive (score_weights rs inputs) then score_weights rs inputs else equal_weights rs

unfoldable pub weight_total_from : ℕ → List ℕ → ℕ
unfolding saturating_add
weight_total_from acc [] = acc
weight_total_from acc (w ∷ ws) = weight_total_from (saturating_add acc w) ws

-- budgetAllocationWeightTotal
unfoldable pub weight_total : List ℕ → ℕ
unfolding weight_total_from
weight_total ws = weight_total_from 0 ws

-- `added`, for a child with room and a positive weight
unfoldable pub added_to : ℕ → ℕ → ℕ → ℕ → Target → ℕ
unfolding weighted_share min_uint64
added_to pass_remainder total_weight remainder weight r =
    let share = weighted_share pass_remainder weight total_weight in
    min_uint64 (if share == 0 then 1 else share)
      (min_uint64 (r.max_bytes - r.assigned_bytes) remainder)

-- One pass of the inner loop of distributeBudgetRemainder: the targets, the remainder, and whether
-- it changed anything. With no remainder the source returns.
unfoldable pub distribute_pass : ℕ → ℕ → ℕ → List Target → List ℕ → List Target × ℕ × Bool
unfolding added_to
distribute_pass pass_remainder total_weight remainder [] ws = ([], remainder, false)
distribute_pass pass_remainder total_weight remainder (r ∷ rs) [] = (r ∷ rs, remainder, false)
distribute_pass pass_remainder total_weight remainder (r ∷ rs) (w ∷ ws) =
    let added = added_to pass_remainder total_weight remainder w r in
    let grown : Target = record r { assigned_bytes = r.assigned_bytes + added } in
    elim (remainder == 0) [
      | true ↦ (r ∷ rs, remainder, false)
      | false ↦ elim (not (has_room r) || w == 0) [
        | true ↦
            let rest = distribute_pass pass_remainder total_weight remainder rs ws in
            (r ∷ rest.0, rest.1, rest.2)
        | false ↦
            let rest = distribute_pass pass_remainder total_weight (remainder - added) rs ws in
            (grown ∷ rest.0, rest.1, true)
      ]
    ]

-- The outer loop, for a number of passes; `none` if they are not enough.
unfoldable pub distribute_loop : ℕ → List Input → ℕ → List Target → Option (List Target)
unfolding allocation_weights weight_total distribute_pass
distribute_loop zero inputs remainder rs = none
distribute_loop (suc passes) inputs remainder rs =
    let ws = allocation_weights rs inputs in
    elim (remainder == 0 || weight_total ws == 0) [
      | true ↦ some rs
      | false ↦
          let pass = distribute_pass remainder (weight_total ws) remainder rs ws in
          elim pass.2 [ false ↦ some pass.0 | true ↦ distribute_loop passes inputs pass.1 pass.0 ]
    ]

-- A pass that changes something takes at least a byte off the remainder.
unfoldable pub distribute_remainder : List Target → List Input → ℕ → Option (List Target)
unfolding distribute_loop
distribute_remainder rs inputs remainder = distribute_loop (remainder + 1) inputs remainder rs
