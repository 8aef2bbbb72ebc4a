-- ===== src/ClassTable/Search.antt =====
-- What the documentation of Go's `sort.Search(n, f)` promises for an f that is false on a prefix of
-- 0..n-1 and true on the rest: the first index at which f is true, or n if there is none.
use bufferpool.Base.{ℕ, zero, suc, ◌+◌, ◌≤◌, ◌<◌, ◌≡◌, Bool, true, false, arith, if◌then◌else◌}
use bufferpool.Base.{Bool-cases, inl, inr}
use native.Mathlib.Decide.{ℕ_discrete}

-- f stays true from where it is true first.
abbrev pub IsMonotone : ℕ → (ℕ → Bool) → Type 0
IsMonotone n f = (i j : ℕ) → i ≤ j → j < n → f i ≡ true → f j ≡ true

pub record IsFirst (n : ℕ) (f : ℕ → Bool) (k : ℕ) : Type 0 where
  pub bounded : k ≤ n
  pub before : (i : ℕ) → i < k → f i ≡ false
  pub at : k < n → f k ≡ true

pub record IsSortSearch (search : ℕ → (ℕ → Bool) → ℕ) : Type 0 where
  pub first : (n : ℕ) (f : ℕ → Bool) → IsMonotone n f → IsFirst n f (search n f)

-- A search from the left meets the promise.
pub linear_from : ℕ → ℕ → (ℕ → Bool) → ℕ
linear_from i zero f = i
linear_from i (suc k) f = let rest = linear_from (i + 1) k f in if f i then i else rest

unfoldable pub linear_search : ℕ → (ℕ → Bool) → ℕ
unfolding linear_from
linear_search n f = linear_from 0 n f

below_suc :
    (i : ℕ) (f : ℕ → Bool)
    → ((j : ℕ) → j < i → f j ≡ false)
    → f i ≡ false
    → (j : ℕ) → j < i + 1
    → f j ≡ false
below_suc i f below miss j h = elim (ℕ_discrete j i) [
  | yes e ↦ rw e miss
  | no ne ↦ below j (omega arith)
]

linear_from_first :
    (i k n : ℕ) (f : ℕ → Bool)
    → i + k ≡ n
    → ((j : ℕ) → j < i → f j ≡ false)
    → IsFirst n f (linear_from i k f)
unfolding linear_from
linear_from_first i zero n f e below = record {
  bounded = omega arith;
  before = below;
  at = λ h. absurd (omega arith);
}
linear_from_first i (suc k) n f e below = elim (Bool-cases (f i)) [
  | inl hit ↦ rw hit (record { bounded = omega arith; before = below; at = λ _. hit })
  | inr miss ↦ rw miss (linear_from_first (i + 1) k n f (omega arith) (below_suc i f below miss))
]

pub linear_search-IsSortSearch : IsSortSearch linear_search
unfolding linear_search
linear_search-IsSortSearch = record {
  first = λ n f _. linear_from_first 0 n n f (omega arith) (λ j h. absurd (omega arith));
}
