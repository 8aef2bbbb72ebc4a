-- ===== src/ClassState/Inv.antt =====
-- The invariant of a class.
use bufferpool.Base.{
  ℕ, zero, suc, ◌<◌, ◌≤◌, ◌≡◌, refl, subst, List, [], ◌∷◌, ◌++◌, All, some, length, get_elem?, set,
  length-set, arith,
}
use bufferpool.Slice.{capacity}
use bufferpool.Size.{ClassSize}
use bufferpool.Segment.Window.{contents}
use bufferpool.Shard.{Shard}
use bufferpool.Shard.Inv.{IsShard}
use bufferpool.ClassState.{ClassState}

-- A shard that is valid and holds only buffers of the class.
pub record IsClassShard (size : ClassSize) (s : Shard) : Type 0 where
  pub valid : IsShard s
  pub fits : All (λ x. size ≤ capacity x) (contents s.bucket.segments)

-- `All` over the shards of the class.
pub record IsClass (s : ClassState) : Type 0 where
  pub some_size : 0 < s.class.size
  pub some_shard : 0 < length s.shards
  pub budgeted : s.budget.class_size ≡ s.class.size
  pub shards : All (IsClassShard s.class.size) s.shards

module _ {A : Type 0} (P : A → Type 0) where
  pub All-get : (xs : List A) (i : ℕ) (x : A) → All P xs → get_elem? xs i ≡ some x → P x
  All-get [] i x v e = cc
  All-get (y ∷ xs) zero x v e = let same : y ≡ x = cc in subst P same v.0
  All-get (y ∷ xs) (suc i) x v e = All-get xs i x v.1 e

  pub All-set : (xs : List A) (i : ℕ) (x : A) → All P xs → P x → All P (set xs i x)
  All-set [] i x v p = tt
  All-set (y ∷ xs) zero x v p = (p, v.1)
  All-set (y ∷ xs) (suc i) x v p = (v.0, All-set xs i x v.1 p)

  pub All-append : (xs ys : List A) → All P (xs ++ ys) → All P ys
  All-append [] ys v = v
  All-append (x ∷ xs) ys v = All-append xs ys v.1

pub with_shard-IsClass :
    (s : ClassState) (index : ℕ) (shard : Shard)
    → IsClass s
    → IsClassShard s.class.size shard
    → IsClass (record s { shards = set s.shards index shard })
with_shard-IsClass s index shard v w = record {
  some_size = v.some_size;
  some_shard = omega (arith, length-set s.shards index shard, v.some_shard);
  budgeted = v.budgeted;
  shards = All-set (IsClassShard s.class.size) s.shards index shard v.shards w;
}

pub get_elem?-some :
    {A : Type 0} (xs : List A) (i : ℕ) → i < length xs → (x : A) × (get_elem? xs i ≡ some x)
get_elem?-some [] i h = absurd (omega arith)
get_elem?-some (x ∷ xs) zero h = (x, refl)
get_elem?-some (x ∷ xs) (suc i) h = get_elem?-some xs i (omega arith)
