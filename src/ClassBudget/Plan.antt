-- ===== src/ClassBudget/Plan.antt =====
-- Credit plans: the split of a class budget over the shards.
use bufferpool.Base.{
  ℕ, zero, suc, ◌+◌, ◌*◌, ◌/◌, ◌%◌, ◌≤◌, ◌<◌, ◌≡◌, refl, sym, ap, ap₂, ◌∙◌, List, [], ◌∷◌, ok, err,
  arith, max_uint64, min,
}
use bufferpool.Base.Int.{pos, negsuc}
use native.Mathlib.Nat.{mod-eq_of_lt, div-add-mod', mod-lt, mul-le-mul_left, mul-le-mul_right}
use bufferpool.Panic.{class_budget_shard_index_out_of_range}
use bufferpool.ShardCredit.{Limit}
use bufferpool.ClassBudget.{
  BudgetLimit, CreditPlan, word, new_credit_plan, shard_buffers, credit_in_range, credit_for_shard,
  credits_from, credits, sum_credits, total_credit,
}
use bufferpool.ClassBudget.Limits.{IsLimit, validate_complete}

-- The plan's numbers: every buffer of the target has a shard, and the bytes fit a uint64.
pub record IsPlan (p : CreditPlan) : Type 0 where
  pub some_shard : 0 < p.shard_count
  pub class_positive : 0 < p.class_size
  pub buffers : p.base_buffers_per_shard * p.shard_count + p.extra_shards ≡ p.target_buffers
  pub extra : p.extra_shards < p.shard_count
  pub bytes : p.target_bytes ≡ p.target_buffers * p.class_size
  pub fits : p.target_bytes ≤ max_uint64

-- The plan of a valid limit.
abbrev pub plan_of : BudgetLimit → ℕ → CreditPlan
plan_of l shards = record {
  class_size = l.class_size;
  shard_count = shards;
  target_buffers = l.target_buffers;
  target_bytes = l.target_bytes;
  base_buffers_per_shard = l.target_buffers / shards;
  extra_shards = l.target_buffers % shards;
}

plan_of-IsPlan : (l : BudgetLimit) (shards : ℕ) → IsLimit l → 0 < shards → IsPlan (plan_of l shards)
plan_of-IsPlan l shards v h = record {
  some_shard = h;
  class_positive = v.class_positive;
  buffers = div-add-mod' l.target_buffers shards;
  extra = mod-lt l.target_buffers h;
  bytes = v.whole;
  fits = omega (arith, v.all, v.fits);
}

new_credit_plan_lem :
    (l : BudgetLimit) (shards : ℕ)
    → IsLimit l
    → 0 < shards
    → new_credit_plan l (pos shards) ≡ ok (plan_of l shards)
unfolding new_credit_plan
new_credit_plan_lem l zero v h = absurd (omega arith)
new_credit_plan_lem l (suc n) v h = rw (validate_complete l v)

-- The credit of one shard, with no wrap.
abbrev pub share : CreditPlan → ℕ → Limit
share p i = record {
  target_buffers = shard_buffers p i;
  target_bytes = shard_buffers p i * p.class_size;
}

shares : CreditPlan → ℕ → ℕ → List Limit
shares p zero index = []
shares p (suc left) index = share p index ∷ shares p left (index + 1)

-- The buffers of the first `k` shards.
upto : CreditPlan → ℕ → ℕ
upto p k = p.base_buffers_per_shard * k + min k p.extra_shards

module _ (p : CreditPlan) (v : IsPlan p) where
  upto_suc : (k : ℕ) → upto p k + shard_buffers p k ≡ upto p (k + 1)
  unfolding upto shard_buffers
  upto_suc k = ground arith

  upto_le : (k : ℕ) → k ≤ p.shard_count → upto p k ≤ p.target_buffers
  unfolding upto
  upto_le k h = omega (arith, v.buffers, v.extra, mul-le-mul_left p.base_buffers_per_shard h)

  upto_all : upto p p.shard_count ≡ p.target_buffers
  unfolding upto
  upto_all = omega (arith, v.buffers, v.extra)

  bytes_le : (n : ℕ) → n ≤ p.target_buffers → n * p.class_size ≤ p.target_bytes
  bytes_le n h = omega (arith, v.bytes, mul-le-mul_right p.class_size h)

  share_le : (i : ℕ) → i < p.shard_count → shard_buffers p i ≤ p.target_buffers
  share_le i h = omega (arith, upto_suc i, upto_le (i + 1) (omega arith))

  pub share_lem : (i : ℕ) → i < p.shard_count → credit_in_range p i ≡ ok (share p i)
  unfolding credit_in_range
  share_lem i h = ground (
    arith,
    v.bytes,
    v.class_positive,
    share_le i h,
    bytes_le (shard_buffers p i) (share_le i h),
    mul-le-mul_left (shard_buffers p i) v.class_positive,
    mod-eq_of_lt {n = shard_buffers p i * p.class_size} {m = word}
        (omega (arith, bytes_le (shard_buffers p i) (share_le i h), v.fits)),
  )

  credits_from_lem :
      (left index : ℕ)
      → index + left ≡ p.shard_count
      → credits_from p left index ≡ ok (shares p left index)
  unfolding credits_from shares credit_for_shard
  credits_from_lem zero index h = refl
  credits_from_lem (suc left) index h =
      ground (arith, share_lem index (omega arith), credits_from_lem left (index + 1) (omega arith))

  buffers_fit : p.target_buffers ≤ max_uint64
  buffers_fit = omega (arith, v.bytes, v.fits, mul-le-mul_left p.target_buffers v.class_positive)

  next_buffers :
      (k : ℕ) → k < p.shard_count → (upto p k + shard_buffers p k) % word ≡ upto p (k + 1)
  next_buffers k h = rw (upto_suc k) (
      mod-eq_of_lt {n = upto p (k + 1)} {m = word}
        (omega (arith, upto_le (k + 1) (omega arith), buffers_fit)))

  next_bytes :
      (k : ℕ)
      → k < p.shard_count
      → (upto p k * p.class_size + shard_buffers p k * p.class_size) % word
        ≡ upto p (k + 1) * p.class_size
  next_bytes k h =
      let added : upto p k * p.class_size + shard_buffers p k * p.class_size
          ≡ upto p (k + 1) * p.class_size =
        omega (arith, ap (λ t. t * p.class_size) (upto_suc k)) in
      rw added (
        mod-eq_of_lt {n = upto p (k + 1) * p.class_size} {m = word}
          (omega (arith, bytes_le (upto p (k + 1)) (upto_le (k + 1) (omega arith)), v.fits)))

  sum_credits_lem :
      (left index : ℕ)
      → index + left ≡ p.shard_count
      → sum_credits (upto p index) (upto p index * p.class_size) (shares p left index)
        ≡ record { buffers = p.target_buffers; bytes = p.target_bytes }
  unfolding sum_credits shares
  sum_credits_lem zero index h =
      let last : index ≡ p.shard_count = omega arith in
      let all : upto p index ≡ p.target_buffers = ap (upto p) last ∙ upto_all in
      ground (arith, all, v.bytes, ap (λ t. t * p.class_size) all)
  sum_credits_lem (suc left) index h =
      ap₂ (λ u w. sum_credits u w (shares p left (index + 1))) (next_buffers index (omega arith))
        (next_bytes index (omega arith))
      ∙ sum_credits_lem left (index + 1) (omega arith)

  upto_zero : upto p 0 ≡ 0
  unfolding upto
  upto_zero = omega arith

  total_credit_lem :
      total_credit p ≡ ok (record { buffers = p.target_buffers; bytes = p.target_bytes })
  unfolding total_credit credits
  total_credit_lem =
      let no_bytes : 0 ≡ upto p 0 * p.class_size =
        omega (arith, ap (λ t. t * p.class_size) upto_zero) in
      rw (credits_from_lem p.shard_count 0 (omega arith)) (
        ap₂ (λ u w. ok (sum_credits u w (shares p p.shard_count 0))) (sym upto_zero) no_bytes
        ∙ ap ok (sum_credits_lem p.shard_count 0 (omega arith)))

-- For a valid class limit and at least one shard the plan exists, and the credits of its shards add up
-- to exactly the class's target buffers and target bytes: nothing is lost, doubled or wrapped.
pub total_credit-new_credit_plan :
    (l : BudgetLimit) (shards : ℕ)
    → IsLimit l
    → 0 < shards
    → (new_credit_plan l (pos shards) ≡ ok (plan_of l shards))
      × (total_credit (plan_of l shards)
          ≡ ok (record { buffers = l.target_buffers; bytes = l.target_bytes }))
total_credit-new_credit_plan l shards v h = (
  new_credit_plan_lem l shards v h,
  total_credit_lem (plan_of l shards) (plan_of-IsPlan l shards v h),
)

-- Every shard of the plan gets whole buffers of the class; an earlier shard gets as many buffers as a
-- later one or one more; and every index past the shards, and every negative one, panics.
pub credit_for_shard_even :
    (l : BudgetLimit) (shards i j : ℕ)
    → IsLimit l
    → i ≤ j
    → j < shards
    → let p = plan_of l shards in
      (credit_for_shard p (pos i) ≡ ok (share p i))
      × (credit_for_shard p (pos j) ≡ ok (share p j))
      × (shard_buffers p j ≤ shard_buffers p i)
      × (shard_buffers p i ≤ shard_buffers p j + 1)
      × ((k : ℕ)
          → shards ≤ k
          → credit_for_shard p (pos k) ≡ err class_budget_shard_index_out_of_range)
      × ((k : ℕ) → credit_for_shard p (negsuc k) ≡ err class_budget_shard_index_out_of_range)
unfolding credit_for_shard shard_buffers
credit_for_shard_even l shards i j v ij js =
    let p = plan_of l shards in
    let pv = plan_of-IsPlan l shards v (omega arith) in
    (
      ground (arith, share_lem p pv i (omega arith)),
      ground (arith, share_lem p pv j js),
      ground arith,
      ground arith,
      λ k h. ground arith,
      λ k. refl,
    )
