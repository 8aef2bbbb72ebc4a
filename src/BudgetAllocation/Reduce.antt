-- ===== src/BudgetAllocation/Reduce.antt =====
-- The reduction of assignments towards their minimums: a pass, and the loop.
use bufferpool.Base.{
  ap, ◌∙◌, ◌/◌, saturating_add, saturating_add_lem, Option, ℕ, zero, suc, ◌+◌, ◌-◌, ◌*◌, ◌≤◌, ◌<◌,
  ◌≡◌, refl, ◌⊎◌, inl, inr, true, false, Bool-cases, List, [], ◌∷◌, some, arith, leb, ◌==◌, ◌||◌,
  if◌then◌else◌, max_uint64,
}
use bufferpool.BudgetAllocation.{
  Target, reducible_count, reduce_pass, reduce_loop, reduce_to_limit, total_from, allocation_total,
}
use native.Mathlib.Nat.{div-mul-le_self}
use native.Mathlib.Decide.{dec_le}
use bufferpool.BudgetAllocation.Pass.{assigned_sum, IsReduced, IsReduced-refl, pass-Passes}

-- What the reduction of a list of children does, from a total that is their sum.
pub record Reduces (limit : ℕ) (rs : List Target) (reduction : Option (List Target × ℕ))
    : Type 0 where
  pub results : List Target
  pub total : ℕ
  pub result : reduction ≡ some (results, total)
  pub summed : total ≡ assigned_sum results
  pub reduced : IsReduced rs results
  -- It ends at the limit, or with every child at its minimum or below, or it had nothing to do.
  pub ends :
      (total ≡ limit)
      ⊎ (((reducible_count results ≡ 0) × (limit < total)) ⊎ ((results ≡ rs) × (total ≤ limit)))

IsReduced-trans : (xs ys zs : List Target) → IsReduced xs ys → IsReduced ys zs → IsReduced xs zs
IsReduced-trans [] [] [] a b = tt
IsReduced-trans (x ∷ xs) (y ∷ ys) (z ∷ zs) a b = (
  record {
    same_min = omega (arith, a.0.same_min, b.0.same_min);
    same_max = omega (arith, a.0.same_max, b.0.same_max);
    no_more = omega (arith, a.0.no_more, b.0.no_more);
    above_min = grind (arith, a.0.above_min, b.0.above_min, a.0.same_min);
  },
  IsReduced-trans xs ys zs a.1 b.1,
)
IsReduced-trans [] [] (z ∷ zs) a b = absurd b
IsReduced-trans [] (y ∷ ys) zs a b = absurd a
IsReduced-trans (x ∷ xs) [] zs a b = absurd a
IsReduced-trans (x ∷ xs) (y ∷ ys) [] a b = absurd b

-- The share of a pass: an equal part of what is over the limit, and at least a byte.
abbrev pass_share : ℕ → ℕ → List Target → ℕ
pass_share limit total rs =
    let share = (total - limit) / reducible_count rs in if share == 0 then 1 else share

pass_share_lem :
    (limit total : ℕ) (rs : List Target)
    → limit < total
    → (0 < pass_share limit total rs)
      × ((pass_share limit total rs * reducible_count rs + limit ≤ total)
          ⊎ (pass_share limit total rs ≡ 1))
pass_share_lem limit total rs above =
    elim (Bool-cases ((total - limit) / reducible_count rs == 0)) [
      | inl e ↦ rw e (omega arith, inr refl)
      | inr e ↦ rw e (
        ground (arith, e),
        inl (omega (arith, above, div-mul-le_self (total - limit) (reducible_count rs))),
      )
    ]

module _ (passes limit total : ℕ) (rs : List Target) where
  loop_stop :
      (leb total limit || reducible_count rs == 0) ≡ true
      → reduce_loop (suc passes) limit total rs ≡ some (rs, total)
  unfolding reduce_loop
  loop_stop e = rw (reduce_loop, e)

  loop_go :
      (leb total limit || reducible_count rs == 0) ≡ false
      → reduce_loop (suc passes) limit total rs
        ≡ reduce_loop passes limit
            (reduce_pass (pass_share limit total rs) limit total rs).1
            (reduce_pass (pass_share limit total rs) limit total rs).0
  unfolding reduce_loop
  loop_go e = rw (reduce_loop, e)

total_from_lem :
    (acc : ℕ) (rs : List Target)
    → acc + assigned_sum rs ≤ max_uint64
    → total_from acc rs ≡ acc + assigned_sum rs
unfolding total_from
total_from_lem acc [] h = omega arith
total_from_lem acc (r ∷ rs) h =
    let exact : saturating_add acc r.assigned_bytes ≡ acc + r.assigned_bytes =
      omega (arith, saturating_add_lem acc r.assigned_bytes (omega arith)) in
    ap (λ a. total_from a rs) exact
    ∙ omega (arith, total_from_lem (acc + r.assigned_bytes) rs (omega arith))

pub allocation_total_lem :
    (rs : List Target) → assigned_sum rs ≤ max_uint64 → allocation_total rs ≡ assigned_sum rs
unfolding allocation_total
allocation_total_lem rs h = omega (arith, total_from_lem 0 rs (omega arith))

widen : {A B C : Type 0} → A ⊎ B → A ⊎ (B ⊎ C)
widen (inl a) = inl a
widen (inr b) = inr (inl b)

ends_lem :
    (limit : ℕ) (rs : List Target) (total : ℕ) (results : List Target) (total' : ℕ)
    → total ≡ assigned_sum rs
    → limit ≤ total
    → total' ≡ assigned_sum results
    → (total' ≡ limit)
      ⊎ (((reducible_count results ≡ 0) × (limit < total')) ⊎ ((results ≡ rs) × (total' ≤ limit)))
    → (total' ≡ limit) ⊎ ((reducible_count results ≡ 0) × (limit < total'))
ends_lem limit rs total results total' s enough s' (inl e) = inl e
ends_lem limit rs total results total' s enough s' (inr (inl e)) = inr e
ends_lem limit rs total results total' s enough s' (inr (inr (same, le))) =
    inl (omega (arith, ap assigned_sum same, s, s', le, enough))

reduce_loop-Reduces :
    (passes limit total : ℕ) (rs : List Target)
    → total ≡ assigned_sum rs
    → total < passes
    → Reduces limit rs (reduce_loop passes limit total rs)
reduce_loop-Reduces zero limit total rs summed enough = absurd (omega arith)
reduce_loop-Reduces (suc passes) limit total rs summed enough =
    elim (Bool-cases (leb total limit || reducible_count rs == 0)) [
      | inl e ↦ record {
        results = rs;
        total = total;
        result = loop_stop passes limit total rs e;
        summed = summed;
        reduced = IsReduced-refl rs;
        ends = elim (dec_le total limit) [
          | yes le ↦ inr (inr (refl, le))
          | no above ↦ inr (inl (ground (arith, e), omega arith))
        ];
      }
      | inr e ↦
          let above : limit < total = ground (arith, e) in
          let some_left : 0 < reducible_count rs = ground (arith, e) in
          let share = pass_share_lem limit total rs above in
          let pass =
            pass-Passes (pass_share limit total rs) limit total rs share.0 above
              (omega (arith, summed)) share.1 in
          let out = reduce_pass (pass_share limit total rs) limit total rs in
          let summed' : out.1 ≡ assigned_sum out.0 = omega (arith, pass.tracks, summed) in
          let less : out.1 < total = omega (arith, pass.progress, some_left) in
          let rest = reduce_loop-Reduces passes limit out.1 out.0 summed' (omega (arith, less)) in
          record {
            results = rest.results;
            total = rest.total;
            result = loop_go passes limit total rs e ∙ rest.result;
            summed = rest.summed;
            reduced = IsReduced-trans rs out.0 rest.results pass.reduced rest.reduced;
            ends = widen (
                ends_lem limit out.0 out.1 rest.results rest.total summed' pass.enough rest.summed
                  rest.ends);
          }
    ]

-- Children with a sum in the uint64s are reduced in finitely many passes, none below its minimum,
-- with the reported total the sum of the assignments: to the limit exactly, or with every child at
-- its minimum or below where that is still over the limit, or not at all where nothing was over.
pub reduce_to_limit-Reduces :
    (rs : List Target) (limit : ℕ)
    → assigned_sum rs ≤ max_uint64
    → Reduces limit rs (reduce_to_limit rs limit)
unfolding reduce_to_limit
reduce_to_limit-Reduces rs limit fits =
    rw (allocation_total_lem rs fits)
      (reduce_loop-Reduces (assigned_sum rs + 1) limit (assigned_sum rs) rs refl (omega arith))
