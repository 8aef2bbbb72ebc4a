-- ===== src/BudgetAllocation/Allocate.antt =====
-- allocateBudgetTargetsReport: the whole allocation, and what it guarantees.
use bufferpool.Base.{
  ℕ, ◌+◌, ◌-◌, ◌≤◌, ◌<◌, ◌≡◌, refl, ◌⊎◌, inl, inr, Bool, true, false, List, [], ◌∷◌, map, Option,
  some, none, ltb, leb, if◌then◌else◌, arith, max_uint64, Bool-cases,
}
use bufferpool.BudgetAllocation.{
  Input, Target, initial_target, allocation_total, reduce_to_limit, reducible_count,
}
use bufferpool.BudgetAllocation.Share.{distribute_remainder}
use bufferpool.BudgetAllocation.Pass.{assigned_sum}
use bufferpool.BudgetAllocation.Reduce.{reduce_to_limit-Reduces, allocation_total_lem}
use bufferpool.BudgetAllocation.Served.{
  AllServed, initial_target-AllServed, reduced-AllServed, grown-AllServed,
}
use bufferpool.BudgetAllocation.Weights.{IsFull}
use bufferpool.BudgetAllocation.Distribute.{distribute_remainder-Distributes}

pub data Reason : Type 0 where
  reason_feasible reason_minimums_exceed_parent : Reason

pub record Report : Type 0 where
  pub results : List Target
  pub feasible : Bool
  pub requested_bytes : ℕ
  pub assigned_bytes : ℕ
  pub overcommitted_bytes : ℕ
  pub reason : Reason

-- Phase 2: the targets and the total, reduced where the parent cannot fund them.
unfoldable pub fitted : List Target → ℕ → Option (List Target × ℕ)
unfolding allocation_total
fitted rs parent_bytes =
    if ltb parent_bytes (allocation_total rs)
    then reduce_to_limit rs parent_bytes
    else some (rs, allocation_total rs)

-- After phase 2: the early return, or phase 3.
unfoldable pub funded : List Input → ℕ → List Target → ℕ → Option Report
unfolding allocation_total
funded inputs parent_bytes rs total =
    if leb parent_bytes total
    then some (record {
      results = rs;
      feasible = leb total parent_bytes;
      requested_bytes = parent_bytes;
      assigned_bytes = total;
      overcommitted_bytes = total - parent_bytes;
      reason = if leb total parent_bytes then reason_feasible else reason_minimums_exceed_parent;
    })
    else elim (distribute_remainder rs inputs (parent_bytes - total)) [
      | none ↦ none
      | some results ↦ some (record {
        results = results;
        feasible = true;
        requested_bytes = parent_bytes;
        assigned_bytes = allocation_total results;
        overcommitted_bytes = 0;
        reason = reason_feasible;
      })
    ]

-- `none` would mean that a loop's passes were not enough.
unfoldable pub allocate_report : ℕ → List Input → Option Report
unfolding fitted funded initial_target
allocate_report parent_bytes [] = some (record {
  results = [];
  feasible = true;
  requested_bytes = parent_bytes;
  assigned_bytes = 0;
  overcommitted_bytes = 0;
  reason = reason_feasible;
})
allocate_report parent_bytes (input ∷ inputs) =
    elim (fitted (map initial_target (input ∷ inputs)) parent_bytes) [
      | none ↦ none
      | some fit ↦ funded (input ∷ inputs) parent_bytes fit.0 fit.1
    ]

-- A right allocation of a parent's bytes.
pub record Allocates (parent_bytes : ℕ) (inputs : List Input) (allocation : Option Report)
    : Type 0 where
  pub report : Report
  pub result : allocation ≡ some report
  pub summed : report.assigned_bytes ≡ assigned_sum report.results
  pub served : AllServed inputs report.results
  -- infeasible: every child is at its minimum or below, and that is still over the parent's bytes
  pub overcommits :
      report.feasible ≡ false
      → (reducible_count report.results ≡ 0)
        × (report.assigned_bytes ≡ parent_bytes + report.overcommitted_bytes)
        × (0 < report.overcommitted_bytes)
  -- feasible: within the parent's bytes, and all of them unless no child has room
  pub fits :
      report.feasible ≡ true
      → (report.assigned_bytes ≤ parent_bytes)
        × ((report.assigned_bytes ≡ parent_bytes) ⊎ IsFull report.results)

-- What phase 2 leaves.
record Fits (inputs : List Input) (parent_bytes : ℕ) (fit : Option (List Target × ℕ)) : Type 0 where
  results : List Target
  total : ℕ
  result : fit ≡ some (results, total)
  summed : total ≡ assigned_sum results
  served : AllServed inputs results
  over : parent_bytes < total → reducible_count results ≡ 0

fitted-Fits :
    (inputs : List Input) (parent_bytes : ℕ) (rs : List Target)
    → assigned_sum rs ≤ max_uint64
    → AllServed inputs rs
    → Fits inputs parent_bytes (fitted rs parent_bytes)
unfolding fitted
fitted-Fits inputs parent_bytes rs h s =
    elim (Bool-cases (ltb parent_bytes (allocation_total rs))) [
      | inl e ↦
          let r = reduce_to_limit-Reduces rs parent_bytes h in
          record {
            results = r.results;
            total = r.total;
            result = rw e r.result;
            summed = r.summed;
            served = reduced-AllServed inputs rs r.results r.reduced s;
            over = λ above. elim r.ends [
              | inl e ↦ absurd (omega (arith, e, above))
              | inr (inl low) ↦ low.0
              | inr (inr kept) ↦ absurd (omega (arith, kept.1, above))
            ];
          }
      | inr e ↦ record {
        results = rs;
        total = allocation_total rs;
        result = rw e;
        summed = allocation_total_lem rs h;
        served = s;
        over = λ above. absurd (ground (arith, e, above));
      }
    ]

funded-Allocates :
    (inputs : List Input) (parent_bytes : ℕ) (rs : List Target) (total : ℕ)
    → parent_bytes ≤ max_uint64
    → total ≡ assigned_sum rs
    → AllServed inputs rs
    → (parent_bytes < total → reducible_count rs ≡ 0)
    → Allocates parent_bytes inputs (funded inputs parent_bytes rs total)
unfolding funded
funded-Allocates inputs parent_bytes rs total h summed served over =
    elim (Bool-cases (leb parent_bytes total)) [
      | inl e ↦ record {
        report = record {
          results = rs;
          feasible = leb total parent_bytes;
          requested_bytes = parent_bytes;
          assigned_bytes = total;
          overcommitted_bytes = total - parent_bytes;
          reason =
              if leb total parent_bytes then reason_feasible else reason_minimums_exceed_parent;
        };
        result = rw e;
        summed = summed;
        served = served;
        overcommits = λ f. (over (ground (arith, f)), ground (arith, e), ground (arith, f));
        fits = λ f. (ground (arith, f), inl (ground (arith, e, f)));
      }
      | inr e ↦
          let d = distribute_remainder-Distributes rs inputs (parent_bytes - total) in
          let below : total < parent_bytes = ground (arith, e) in
          let within : assigned_sum d.results ≤ parent_bytes =
            omega (arith, d.tracks, summed, below) in
          let sum = allocation_total_lem d.results (omega (arith, within, h)) in
          record {
            report = record {
              results = d.results;
              feasible = true;
              requested_bytes = parent_bytes;
              assigned_bytes = allocation_total d.results;
              overcommitted_bytes = 0;
              reason = reason_feasible;
            };
            result = rw e (rw d.result);
            summed = sum;
            served = grown-AllServed inputs rs d.results d.grown served;
            overcommits = λ f. cc;
            fits = λ f. (
              omega (arith, sum, within),
              elim d.ends [
                | inl z ↦ inl (omega (arith, sum, d.tracks, summed, below, z))
                | inr full ↦ inr full
              ],
            );
          }
    ]

-- Where the children's initial assignments and the parent's bytes are within the uint64s, the
-- allocation ends and reports the exact sum of the assignments, each of which is within the bounds of
-- its child. It is infeasible only where every
-- child is at its minimum or below and the sum is still over the parent's bytes, by the overcommitted
-- bytes. Otherwise the sum is within the parent's bytes, and is all of them unless no child has room.
pub allocate_report-Allocates :
    (parent_bytes : ℕ) (inputs : List Input)
    → parent_bytes ≤ max_uint64
    → assigned_sum (map initial_target inputs) ≤ max_uint64
    → Allocates parent_bytes inputs (allocate_report parent_bytes inputs)
unfolding allocate_report
allocate_report-Allocates parent_bytes [] h s = record {
  report = record {
    results = [];
    feasible = true;
    requested_bytes = parent_bytes;
    assigned_bytes = 0;
    overcommitted_bytes = 0;
    reason = reason_feasible;
  };
  result = refl;
  summed = refl;
  served = tt;
  overcommits = λ f. cc;
  fits = λ f. (omega arith, inr tt);
}
allocate_report-Allocates parent_bytes (input ∷ inputs) h s =
    let fit =
      fitted-Fits (input ∷ inputs) parent_bytes (map initial_target (input ∷ inputs)) s
        (initial_target-AllServed (input ∷ inputs)) in
    rw (allocate_report, fit.result)
      (funded-Allocates (input ∷ inputs) parent_bytes fit.results fit.total h fit.summed fit.served
        fit.over)
