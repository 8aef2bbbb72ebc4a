-- ===== src/ClassState/Credits.antt =====
-- Budgets keep a class valid: every shard gets its credit, and keeps its buffers.
use bufferpool.Base.{
  ℕ, suc, ◌+◌, ◌%◌, ◌*◌, ◌≤◌, ◌≡◌, refl, ap, subst, ◌∙◌, not, ◌==◌, leb, List, [], ◌∷◌, All, Result,
  ok, ◌>>=◌, fail_if, Holds, Holds-if, Holds->>=, length, arith, max_uint64,
}
use bufferpool.Base.Int.{pos}
use bufferpool.Panic.{
  class_state_invalid_shard_count, class_budget_zero_class_size, class_budget_class_size_mismatch,
}
use bufferpool.Size.{Size, ClassSize, is_zero}
use bufferpool.Generation.{Generation, no_generation, publish_at_least}
use bufferpool.ShardCredit.{Limit, new_limit, validate, update_at_least}
use bufferpool.ClassBudget.{
  BudgetLimit, ClassBudget, CreditPlan, credit_for_shard, credit_in_range, shard_buffers,
  plan_is_zero, word, shard_credit_plan, update_assigned_bytes_at_least, update_budget_at_least,
  validate_budget, new_budget_limit,
}
use bufferpool.Shard.{Shard, update_credit_at_least}
use bufferpool.Shard.Reach.{step-IsShard, credits}
use bufferpool.ClassState.{
  ClassState, apply_credits, apply_shard_credit_plan_at_least, update_class_budget_at_least,
  update_class_budget, disable_class_budget,
}
use bufferpool.ClassState.Inv.{IsClass, IsClassShard}

pub returned :
    {E A : Type 0} (P : A → Type 0) (result : Result E A) (value : A)
    → Holds P result
    → result ≡ ok value
    → P value
returned P result value h e = subst (Holds P) e h

-- A credit that a plan gives is of uint64s.
credit_for_shard-fits :
    (plan : CreditPlan) (index : ℕ)
    → Holds (λ c. c.target_bytes ≤ max_uint64) (credit_for_shard plan (pos index))
unfolding credit_for_shard credit_in_range new_limit
credit_for_shard-fits plan index =
    Holds-if (λ c. c.target_bytes ≤ max_uint64) (leb plan.shard_count index) _ _ (λ e. tt)
      (λ e.
        Holds-if (λ c. c.target_bytes ≤ max_uint64) (plan_is_zero plan) _ _ (λ z. omega arith)
          (λ nz.
            Holds-if (λ c. c.target_bytes ≤ max_uint64) (shard_buffers plan index == 0) _ _
              (λ z. omega arith)
              (λ some_buffers.
                Holds->>= (λ c. c.target_bytes ≤ max_uint64)
                  (validate (record {
                    target_buffers = shard_buffers plan index;
                    target_bytes = (shard_buffers plan index * plan.class_size) % word;
                  }))
                  _ λ u valid. omega arith)))

update_credit-IsClassShard :
    (size : ClassSize) (shard : Shard) (credit : Limit) (minimum : Generation)
    → IsClassShard size shard
    → credit.target_bytes ≤ max_uint64
    → Holds (λ r. IsClassShard size r.0) (update_credit_at_least shard credit minimum)
unfolding update_credit_at_least
update_credit-IsClassShard size shard credit minimum v fits =
    Holds->>= (λ r. IsClassShard size r.0) (update_at_least shard.credit credit minimum) _
      λ r e. record {
        valid =
            step-IsShard shard (record shard { credit = r.0 }) v.valid
              (credits credit minimum r.1 fits (rw e refl));
        fits = v.fits;
      }

-- Shards of the class, as many as before.
pub record AreShards (size : ClassSize) (n : ℕ) (shards : List Shard) : Type 0 where
  pub all : All (IsClassShard size) shards
  pub many : length shards ≡ n

apply_credits-AreShards :
    (size : ClassSize) (plan : CreditPlan) (minimum : Generation) (index : ℕ) (shards : List Shard)
    → All (IsClassShard size) shards
    → Holds (AreShards size (length shards)) (apply_credits plan minimum index shards)
unfolding apply_credits
apply_credits-AreShards size plan minimum index [] v = record { all = tt; many = refl }
apply_credits-AreShards size plan minimum index (shard ∷ shards) v =
    Holds->>= (AreShards size (suc (length shards))) (credit_for_shard plan (pos index)) _
      λ credit e.
        let fits : credit.target_bytes ≤ max_uint64 =
          returned (λ c. c.target_bytes ≤ max_uint64) _ credit (credit_for_shard-fits plan index)
            e in
        Holds->>= (AreShards size (suc (length shards)))
          (update_credit_at_least shard credit minimum) _
          λ updated f.
            let held =
              returned (λ x. IsClassShard size x.0) _ updated
                (update_credit-IsClassShard size shard credit minimum v.0 fits) f in
            Holds->>= (AreShards size (suc (length shards)))
              (apply_credits plan minimum (index + 1) shards) _
              λ rest g.
                let others =
                  returned (AreShards size (length shards)) _ rest
                    (apply_credits-AreShards size plan minimum (index + 1) shards v.1) g in
                record { all = (held, others.all); many = ap suc others.many }

apply_plan-IsClass :
    (s : ClassState) (budget : ClassBudget) (plan : CreditPlan) (minimum : Generation)
    → IsClass s
    → budget.class_size ≡ s.class.size
    → Holds IsClass (apply_shard_credit_plan_at_least (record s { budget = budget }) plan minimum)
unfolding apply_shard_credit_plan_at_least
apply_plan-IsClass s budget plan minimum v same =
    Holds->>= IsClass
      (fail_if (not (plan.shard_count == length s.shards)) class_state_invalid_shard_count) _
      λ u checked. Holds->>= IsClass (apply_credits plan minimum 0 s.shards) _ λ shards e.
        let kept =
          returned (AreShards s.class.size (length s.shards)) _ shards
            (apply_credits-AreShards s.class.size plan minimum 0 s.shards v.shards) e in
        record {
          some_size = v.some_size;
          some_shard = omega (arith, kept.many, v.some_shard);
          budgeted = same;
          shards = kept.all;
        }

-- An update of a budget is not one of its class size.
abbrev SameSize : ClassBudget → ClassBudget × Generation → Type 0
SameSize b r = r.0.class_size ≡ b.class_size

limit-class_size :
    (b : ClassBudget) (limit : BudgetLimit) (minimum : Generation)
    → Holds (SameSize b) (update_budget_at_least b limit minimum)
unfolding update_budget_at_least
limit-class_size b limit minimum = Holds->>= (SameSize b) (validate_budget limit) _ λ u1 e1.
    Holds->>= (SameSize b) (fail_if (is_zero b.class_size) class_budget_zero_class_size) _ λ u2 e2.
      Holds->>= (SameSize b)
        (fail_if (not (limit.class_size == b.class_size)) class_budget_class_size_mismatch) _
        λ u3 e3.
          Holds->>= (SameSize b) (publish_at_least minimum b.generation) _ λ published e4. refl

budget-class_size :
    (b : ClassBudget) (assigned : Size) (minimum : Generation)
    → Holds (SameSize b) (update_assigned_bytes_at_least b assigned minimum)
unfolding update_assigned_bytes_at_least
budget-class_size b assigned minimum =
    Holds->>= (SameSize b) (fail_if (is_zero b.class_size) class_budget_zero_class_size) _ λ u1 e1.
      Holds->>= (SameSize b) (new_budget_limit b.class_size assigned) _
        λ limit e2. limit-class_size b limit minimum

abbrev IsUpdated : ClassState × Generation → Type 0
IsUpdated r = IsClass r.0

-- The tail of an update, under the minimum that the credits are published with.
update_tail-IsClass :
    (s : ClassState) (assigned : Size) (minimum : Generation)
    (credit_minimum : Generation → Generation)
    → IsClass s
    → Holds IsUpdated (
        update_assigned_bytes_at_least s.budget assigned minimum >>= λ b.
        shard_credit_plan b.0 (pos (length s.shards)) >>= λ plan.
        apply_shard_credit_plan_at_least (record s { budget = b.0 }) plan (credit_minimum b.1)
        >>= λ updated. ok (updated, b.1))
update_tail-IsClass s assigned minimum credit_minimum v =
    Holds->>= (λ r. IsClass r.0) (update_assigned_bytes_at_least s.budget assigned minimum) _
      λ b e.
        let same =
          returned (SameSize s.budget) _ b (budget-class_size s.budget assigned minimum) e in
        Holds->>= (λ r. IsClass r.0) (shard_credit_plan b.0 (pos (length s.shards))) _
          λ plan f.
            Holds->>= (λ r. IsClass r.0)
              (apply_shard_credit_plan_at_least (record s { budget = b.0 }) plan
                (credit_minimum b.1))
              _
              λ updated g.
                returned IsClass _ updated
                  (apply_plan-IsClass s b.0 plan (credit_minimum b.1) v (same ∙ v.budgeted)) g

pub update_class_budget_at_least-IsClass :
    (s : ClassState) (assigned : Size) (minimum : Generation)
    → IsClass s
    → Holds (λ r. IsClass r.0) (update_class_budget_at_least s assigned minimum)
unfolding update_class_budget_at_least
update_class_budget_at_least-IsClass s assigned minimum v =
    update_tail-IsClass s assigned minimum (λ published. published) v

pub update_class_budget-IsClass :
    (s : ClassState) (assigned : Size)
    → IsClass s
    → Holds (λ r. IsClass r.0) (update_class_budget s assigned)
unfolding update_class_budget
update_class_budget-IsClass s assigned v =
    update_tail-IsClass s assigned no_generation (λ published. no_generation) v

pub disable_class_budget-IsClass :
    (s : ClassState) → IsClass s → Holds (λ r. IsClass r.0) (disable_class_budget s)
unfolding disable_class_budget
disable_class_budget-IsClass s v = update_class_budget-IsClass s 0 v
