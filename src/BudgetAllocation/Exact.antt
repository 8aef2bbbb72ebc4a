-- ===== src/BudgetAllocation/Exact.antt =====
-- budgetWeightedShare against the plain fraction.
use bufferpool.Base.{
  subst, ℕ, ◌+◌, ◌*◌, ◌/◌, ◌%◌, ◌≤◌, ◌<◌, ◌≡◌, sym, ap, ◌∙◌, arith, max_uint64, saturating_add,
}
use native.Mathlib.Nat.{div-add-mod', add-mul-div_right, mul-le-mul_left, div-le_of_le-mul}
use native.Mathlib.Decide.{dec_lt}
use bufferpool.BudgetAllocation.Share.{weighted_share}

-- The split of the total loses nothing.
split_lem :
    (total weight total_weight : ℕ)
    → 0 < total_weight
    → total * weight / total_weight
      ≡ total / total_weight * weight + total % total_weight * weight / total_weight
split_lem total weight total_weight p =
    ap (λ n. n / total_weight) product
    ∙ (add-mul-div_right (total % total_weight * weight) (total / total_weight * weight) p
        ∙ omega arith)
  where
    product :
        total * weight
        ≡ total % total_weight * weight + total / total_weight * weight * total_weight
    product = ap (λ n. n * weight) (sym (div-add-mod' total total_weight)) ∙ omega arith

fraction-le :
    (total weight total_weight : ℕ) → weight < total_weight → total * weight / total_weight ≤ total
fraction-le total weight total_weight lt = div-le_of_le-mul total_weight (mul_bound (omega arith))
  where
    mul_bound : weight ≤ total_weight → total * weight ≤ total_weight * total
    mul_bound le = omega (arith, mul-le-mul_left total le)

share_below :
    (total weight total_weight : ℕ)
    → total ≤ max_uint64
    → 0 < weight
    → weight < total_weight
    → weighted_share total weight total_weight ≡ total * weight / total_weight
unfolding weighted_share saturating_add
share_below total weight total_weight small p lt = ground (
  arith,
  split_lem total weight total_weight (omega arith),
  fraction-le total weight total_weight lt,
)

-- The share is the whole part of total * weight / totalWeight, for any uint64s, without an overflow
-- on the way; a weight of at least the whole gets everything, and no share is more than the total.
pub weighted_share_lem :
    (total weight total_weight : ℕ)
    → total ≤ max_uint64
    → 0 < total_weight
    → (weight < total_weight
        → weighted_share total weight total_weight ≡ total * weight / total_weight)
      × (total_weight ≤ weight → weighted_share total weight total_weight ≡ total)
      × (weighted_share total weight total_weight ≤ total)
unfolding weighted_share
weighted_share_lem total weight total_weight small p = (below, (λ ge. ground arith), bound)
  where
    below :
        weight < total_weight
        → weighted_share total weight total_weight ≡ total * weight / total_weight
    below lt = elim (dec_lt 0 weight) [
      | yes w ↦ share_below total weight total_weight small w lt
      | no w ↦
          let zero_weight : 0 ≡ weight = omega arith in
          subst (λ w. weighted_share total w total_weight ≡ total * w / total_weight) zero_weight
            (ground arith)
    ]

    bound : weighted_share total weight total_weight ≤ total
    bound = elim (dec_lt weight total_weight) [
      | yes lt ↦ omega (arith, below lt, fraction-le total weight total_weight lt)
      | no ge ↦ ground arith
    ]
