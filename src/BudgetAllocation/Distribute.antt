-- ===== src/BudgetAllocation/Distribute.antt =====
-- The distribution of a remainder: a pass, and the loop.
use bufferpool.Base.{
  ℕ, zero, suc, ◌+◌, ◌<◌, ◌≡◌, refl, ◌⊎◌, inl, inr, Bool, true, false, Bool-cases, List, Option,
  some, arith, ◌==◌, ◌||◌, ◌∙◌,
}
use bufferpool.BudgetAllocation.{Input, Target}
use bufferpool.BudgetAllocation.Pass.{assigned_sum}
use bufferpool.BudgetAllocation.Share.{
  allocation_weights, weight_total, distribute_pass, distribute_loop, distribute_remainder,
}
use bufferpool.BudgetAllocation.Weights.{
  IsGrown, IsFull, IsGrown-refl, IsGrown-trans, allocation_weights-Weighs, weight_total_from_zero,
  weight_total-IsFull,
}
use bufferpool.BudgetAllocation.Round.{Passes, run-Passes}

-- What the distribution of a remainder does: the bytes that are not assigned are those that no child
-- has room for.
pub record Distributes (remainder : ℕ) (rs : List Target) (distribution : Option (List Target))
    : Type 0 where
  pub results : List Target
  pub left : ℕ
  pub result : distribution ≡ some results
  pub grown : IsGrown rs results
  pub tracks : assigned_sum results + left ≡ assigned_sum rs + remainder
  pub ends : (left ≡ 0) ⊎ IsFull results

module _ (passes : ℕ) (inputs : List Input) (remainder : ℕ) (rs : List Target) where
  abbrev weights : List ℕ
  weights = allocation_weights rs inputs

  abbrev pass : List Target × ℕ × Bool
  pass = distribute_pass remainder (weight_total weights) remainder rs weights

  loop_stop :
      (remainder == 0 || weight_total weights == 0) ≡ true
      → distribute_loop (suc passes) inputs remainder rs ≡ some rs
  unfolding distribute_loop
  loop_stop e = rw (distribute_loop, e)

  loop_last :
      (remainder == 0 || weight_total weights == 0) ≡ false
      → pass.2 ≡ false
      → distribute_loop (suc passes) inputs remainder rs ≡ some pass.0
  unfolding distribute_loop
  loop_last e f = rw (distribute_loop, e) (rw f)

  loop_go :
      (remainder == 0 || weight_total weights == 0) ≡ false
      → pass.2 ≡ true
      → distribute_loop (suc passes) inputs remainder rs
        ≡ distribute_loop passes inputs pass.1 pass.0
  unfolding distribute_loop
  loop_go e f = rw (distribute_loop, e) (rw f)

  stops :
      (remainder == 0 || weight_total weights == 0) ≡ true
      → Distributes remainder rs (distribute_loop (suc passes) inputs remainder rs)
  stops e = record {
    results = rs;
    left = remainder;
    result = loop_stop e;
    grown = IsGrown-refl rs;
    tracks = refl;
    ends = elim (Bool-cases (remainder == 0)) [
      | inl z ↦ inl (ground (arith, z))
      | inr z ↦ inr (weight_total-IsFull rs inputs (ground (arith, e, z)))
    ];
  }

  pass-Passes : Passes remainder rs weights pass
  pass-Passes =
      run-Passes remainder (weight_total weights) remainder rs weights
        (allocation_weights-Weighs rs inputs)

  -- A pass over children with room changes something.
  never_last : (remainder == 0 || weight_total weights == 0) ≡ false → pass.2 ≡ false → ⊥
  unfolding weight_total
  never_last e f = elim (pass-Passes.unchanged f) [
    | inl z ↦ ground (arith, e, z)
    | inr zeros ↦
        let none : weight_total weights ≡ 0 = (weight_total_from_zero 0 weights).1 (refl, zeros) in
        ground (arith, e, none)
  ]

distribute_loop-Distributes :
    (passes : ℕ) (inputs : List Input) (remainder : ℕ) (rs : List Target)
    → remainder < passes
    → Distributes remainder rs (distribute_loop passes inputs remainder rs)
distribute_loop-Distributes zero inputs remainder rs enough = absurd (omega arith)
distribute_loop-Distributes (suc passes) inputs remainder rs enough =
    elim (Bool-cases (remainder == 0 || weight_total (allocation_weights rs inputs) == 0)) [
      | inl e ↦ stops passes inputs remainder rs e
      | inr e ↦
          let done = pass-Passes passes inputs remainder rs in
          let out = pass passes inputs remainder rs in
          elim (Bool-cases (pass passes inputs remainder rs).2) [
            | inr f ↦ absurd (never_last passes inputs remainder rs e f)
            | inl f ↦
                let less : out.1 < remainder = done.changes f in
                let rest =
                  distribute_loop-Distributes passes inputs out.1 out.0 (omega (arith, less)) in
                record {
                  results = rest.results;
                  left = rest.left;
                  result = loop_go passes inputs remainder rs e f ∙ rest.result;
                  grown = IsGrown-trans rs out.0 rest.results done.grown rest.grown;
                  tracks = omega (arith, rest.tracks, done.tracks);
                  ends = rest.ends;
                }
          ]
    ]

-- The distribution of a remainder ends after finitely many passes. No child loses anything or gets
-- more than its maximum, and what is not given out is left only when no child has room.
pub distribute_remainder-Distributes :
    (rs : List Target) (inputs : List Input) (remainder : ℕ)
    → Distributes remainder rs (distribute_remainder rs inputs remainder)
unfolding distribute_remainder
distribute_remainder-Distributes rs inputs remainder =
    distribute_loop-Distributes (remainder + 1) inputs remainder rs (omega arith)
