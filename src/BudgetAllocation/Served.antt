-- ===== src/BudgetAllocation/Served.antt =====
-- Every child's assignment stays within its own bounds, through reduction and distribution.
use bufferpool.Base.{◌≤◌, ◌≡◌, refl, List, [], ◌∷◌, map, arith}
use bufferpool.BudgetAllocation.{Input, Target, initial_target, clamp_uint64}
use bufferpool.BudgetAllocation.Pass.{IsLess, IsReduced}
use bufferpool.BudgetAllocation.Weights.{IsMore, IsGrown}

-- A child's target, within the input's minimum and the maximum that phase 1 makes of the input's.
pub record IsServed (input : Input) (r : Target) : Type 0 where
  pub same_min : r.min_bytes ≡ input.min_bytes
  pub same_max : r.max_bytes ≡ (initial_target input).max_bytes
  pub at_least : r.min_bytes ≤ r.assigned_bytes
  pub at_most : r.assigned_bytes ≤ r.max_bytes

-- Child by child.
abbrev pub AllServed : List Input → List Target → Type 0
AllServed [] [] = Unit
AllServed (input ∷ inputs) (r ∷ rs) = IsServed input r × AllServed inputs rs
AllServed [] (r ∷ rs) = ⊥
AllServed (input ∷ inputs) [] = ⊥

pub initial_target-AllServed : (inputs : List Input) → AllServed inputs (map initial_target inputs)
initial_target-AllServed [] = tt
initial_target-AllServed (input ∷ inputs) = (
  unfold initial_target clamp_uint64 in
      record { same_min = refl; same_max = refl; at_least = ground arith; at_most = ground arith },
  initial_target-AllServed inputs,
)

less-IsServed : (input : Input) (r r' : Target) → IsLess r r' → IsServed input r → IsServed input r'
less-IsServed input r r' l s = record {
  same_min = omega (arith, l.same_min, s.same_min);
  same_max = omega (arith, l.same_max, s.same_max);
  at_least = grind (arith, l.same_min, l.above_min, s.at_least);
  at_most = omega (arith, l.same_max, l.no_more, s.at_most);
}

more-IsServed : (input : Input) (r r' : Target) → IsMore r r' → IsServed input r → IsServed input r'
more-IsServed input r r' m s = record {
  same_min = omega (arith, m.same_min, s.same_min);
  same_max = omega (arith, m.same_max, s.same_max);
  at_least = omega (arith, m.same_min, m.no_less, s.at_least);
  at_most = grind (arith, m.same_max, m.within_max, s.at_most);
}

pub reduced-AllServed :
    (inputs : List Input) (rs rs' : List Target)
    → IsReduced rs rs'
    → AllServed inputs rs
    → AllServed inputs rs'
reduced-AllServed [] [] [] a s = tt
reduced-AllServed [] [] (r' ∷ rs') a s = absurd a
reduced-AllServed [] (r ∷ rs) rs' a s = absurd s
reduced-AllServed (input ∷ inputs) [] rs' a s = absurd s
reduced-AllServed (input ∷ inputs) (r ∷ rs) [] a s = absurd a
reduced-AllServed (input ∷ inputs) (r ∷ rs) (r' ∷ rs') a s =
    (less-IsServed input r r' a.0 s.0, reduced-AllServed inputs rs rs' a.1 s.1)

pub grown-AllServed :
    (inputs : List Input) (rs rs' : List Target)
    → IsGrown rs rs'
    → AllServed inputs rs
    → AllServed inputs rs'
grown-AllServed [] [] [] a s = tt
grown-AllServed [] [] (r' ∷ rs') a s = absurd a
grown-AllServed [] (r ∷ rs) rs' a s = absurd s
grown-AllServed (input ∷ inputs) [] rs' a s = absurd s
grown-AllServed (input ∷ inputs) (r ∷ rs) [] a s = absurd a
grown-AllServed (input ∷ inputs) (r ∷ rs) (r' ∷ rs') a s =
    (more-IsServed input r r' a.0 s.0, grown-AllServed inputs rs rs' a.1 s.1)
