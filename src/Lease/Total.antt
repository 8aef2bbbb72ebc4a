-- ===== src/Lease/Total.antt =====
-- Sums over the records of a registry, as they change with the records.
use bufferpool.Base.{ℕ, zero, suc, ◌+◌, ◌≡◌, List, [], ◌∷◌, ◌++◌, some, get_elem?, set, arith}

module _ {ℓ} {A : Type ℓ} (f : A → ℕ) where
  abbrev pub total : List A → ℕ
  total [] = 0
  total (x ∷ xs) = f x + total xs

  pub total-append : (xs : List A) (y : A) → total (xs ++ y ∷ []) ≡ total xs + f y
  total-append [] y = omega arith
  total-append (x ∷ xs) y = omega (arith, total-append xs y)

  pub total-set :
      (xs : List A) (i : ℕ) (x y : A)
      → get_elem? xs i ≡ some x
      → total (set xs i y) + f x ≡ total xs + f y
  total-set [] i x y e = cc
  total-set (z ∷ xs) zero x y e = let same : f z ≡ f x = cc in omega (arith, same)
  total-set (z ∷ xs) (suc i) x y e = omega (arith, total-set xs i x y e)
