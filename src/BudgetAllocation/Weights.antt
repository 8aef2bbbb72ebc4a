-- ===== src/BudgetAllocation/Weights.antt =====
-- The growth of assignments within their maximums, and the weights of a pass.
use bufferpool.Base.{
  sym, subst, ℕ, ◌≤◌, ◌<◌, ◌≡◌, refl, ◌⊎◌, inl, inr, true, false, Bool-cases, List, [], ◌∷◌, arith,
  ltb, saturating_add, ◌∙◌,
}
use bufferpool.BudgetAllocation.{Input, Target}
use bufferpool.BudgetAllocation.Share.{
  has_room, score_weights, equal_weights, some_positive, allocation_weights, weight_total_from,
  weight_total,
}

-- The child got something, within its maximum.
pub record IsMore (r r' : Target) : Type 0 where
  pub same_min : r'.min_bytes ≡ r.min_bytes
  pub same_max : r'.max_bytes ≡ r.max_bytes
  pub no_less : r.assigned_bytes ≤ r'.assigned_bytes
  pub within_max : (r'.assigned_bytes ≤ r.max_bytes) ⊎ (r'.assigned_bytes ≡ r.assigned_bytes)

-- Child by child.
abbrev pub IsGrown : List Target → List Target → Type 0
IsGrown [] [] = Unit
IsGrown (r ∷ rs) (r' ∷ rs') = IsMore r r' × IsGrown rs rs'
IsGrown [] (r' ∷ rs') = ⊥
IsGrown (r ∷ rs) [] = ⊥

-- No child has room.
abbrev pub IsFull : List Target → Type 0
IsFull [] = Unit
IsFull (r ∷ rs) = (r.max_bytes ≤ r.assigned_bytes) × IsFull rs

pub IsMore-refl : (r : Target) → IsMore r r
IsMore-refl r = record {
  same_min = refl;
  same_max = refl;
  no_less = omega arith;
  within_max = inr refl;
}

pub IsGrown-refl : (rs : List Target) → IsGrown rs rs
IsGrown-refl [] = tt
IsGrown-refl (r ∷ rs) = (IsMore-refl r, IsGrown-refl rs)

pub IsGrown-trans : (xs ys zs : List Target) → IsGrown xs ys → IsGrown ys zs → IsGrown xs zs
IsGrown-trans [] [] [] a b = tt
IsGrown-trans (x ∷ xs) (y ∷ ys) (z ∷ zs) a b = (
  record {
    same_min = omega (arith, a.0.same_min, b.0.same_min);
    same_max = omega (arith, a.0.same_max, b.0.same_max);
    no_less = omega (arith, a.0.no_less, b.0.no_less);
    within_max = grind (arith, a.0.within_max, b.0.within_max, a.0.same_max);
  },
  IsGrown-trans xs ys zs a.1 b.1,
)
IsGrown-trans [] [] (z ∷ zs) a b = absurd b
IsGrown-trans [] (y ∷ ys) zs a b = absurd a
IsGrown-trans (x ∷ xs) [] zs a b = absurd a
IsGrown-trans (x ∷ xs) (y ∷ ys) [] a b = absurd b

-- A weight for each child, positive only where the child has room.
abbrev pub Weighs : List Target → List ℕ → Type 0
Weighs [] [] = Unit
Weighs (r ∷ rs) (w ∷ ws) = ((w ≡ 0) ⊎ (r.assigned_bytes < r.max_bytes)) × Weighs rs ws
Weighs [] (w ∷ ws) = ⊥
Weighs (r ∷ rs) [] = ⊥

score_weights-Weighs :
    (rs : List Target) (inputs : List Input) → Weighs rs (score_weights rs inputs)
unfolding score_weights
score_weights-Weighs [] inputs = tt
score_weights-Weighs (r ∷ rs) [] = (inl refl, score_weights-Weighs rs [])
score_weights-Weighs (r ∷ rs) (input ∷ inputs) = (
  elim (Bool-cases (has_room r)) [ inl e ↦ inr (ground (arith, e)) | inr e ↦ inl (rw e) ],
  score_weights-Weighs rs inputs,
)

equal_weights-Weighs : (rs : List Target) → Weighs rs (equal_weights rs)
unfolding equal_weights
equal_weights-Weighs [] = tt
equal_weights-Weighs (r ∷ rs) = (
  elim (Bool-cases (has_room r)) [ inl e ↦ inr (ground (arith, e)) | inr e ↦ inl (rw e) ],
  equal_weights-Weighs rs,
)

pub allocation_weights-Weighs :
    (rs : List Target) (inputs : List Input) → Weighs rs (allocation_weights rs inputs)
unfolding allocation_weights
allocation_weights-Weighs rs inputs = elim (Bool-cases (some_positive (score_weights rs inputs))) [
  | inl e ↦ rw e (score_weights-Weighs rs inputs)
  | inr e ↦ rw e (equal_weights-Weighs rs)
]

-- No weight at all.
abbrev pub AllZero : List ℕ → Type 0
AllZero [] = Unit
AllZero (w ∷ ws) = (w ≡ 0) × AllZero ws

saturating_add_zero :
    (a b : ℕ)
    → (saturating_add a b ≡ 0 → (a ≡ 0) × (b ≡ 0)) × ((a ≡ 0) × (b ≡ 0) → saturating_add a b ≡ 0)
unfolding saturating_add
saturating_add_zero a b = ((λ e. ground arith), λ e. ground arith)

pub weight_total_from_zero :
    (acc : ℕ) (ws : List ℕ)
    → ((weight_total_from acc ws ≡ 0) → (acc ≡ 0) × AllZero ws)
      × ((acc ≡ 0) × AllZero ws → weight_total_from acc ws ≡ 0)
unfolding weight_total_from
weight_total_from_zero acc [] = ((λ e. (e, tt)), λ e. e.0)
weight_total_from_zero acc (w ∷ ws) =
    let rest = weight_total_from_zero (saturating_add acc w) ws in
    let sum = saturating_add_zero acc w in
    (
      (λ e. let zeros = rest.0 e in ((sum.0 zeros.0).0, ((sum.0 zeros.0).1, zeros.1))),
      λ zeros. rest.1 (sum.1 (zeros.0, zeros.1.0), zeros.1.1),
    )

some_positive-AllZero : (ws : List ℕ) → some_positive ws ≡ true → AllZero ws → ⊥
some_positive-AllZero [] e z = cc
some_positive-AllZero (w ∷ ws) e z = elim (Bool-cases (ltb 0 w)) [
  | inl h ↦ ground (arith, h, z.0)
  | inr h ↦ some_positive-AllZero ws (sym (rw h) ∙ e) z.1
]

equal_weights-IsFull : (rs : List Target) → AllZero (equal_weights rs) → IsFull rs
unfolding equal_weights
equal_weights-IsFull [] z = tt
equal_weights-IsFull (r ∷ rs) z = (
  elim (Bool-cases (has_room r)) [
    | inl h ↦ absurd (ground (arith, h, z.0))
    | inr h ↦ ground (arith, h)
  ],
  equal_weights-IsFull rs z.1,
)

by_scores :
    (rs : List Target) (inputs : List Input)
    → some_positive (score_weights rs inputs) ≡ true
    → allocation_weights rs inputs ≡ score_weights rs inputs
unfolding allocation_weights
by_scores rs inputs h = rw h

by_equal :
    (rs : List Target) (inputs : List Input)
    → some_positive (score_weights rs inputs) ≡ false
    → allocation_weights rs inputs ≡ equal_weights rs
unfolding allocation_weights
by_equal rs inputs h = rw h

-- Without weights no child has room.
pub weight_total-IsFull :
    (rs : List Target) (inputs : List Input)
    → weight_total (allocation_weights rs inputs) ≡ 0
    → IsFull rs
unfolding allocation_weights weight_total
weight_total-IsFull rs inputs e =
    let zeros = (weight_total_from_zero 0 (allocation_weights rs inputs)).0 e in
    elim (Bool-cases (some_positive (score_weights rs inputs))) [
      | inl h ↦ absurd (
          some_positive-AllZero (score_weights rs inputs) h
            (subst AllZero (by_scores rs inputs h) zeros.1))
      | inr h ↦ equal_weights-IsFull rs (subst AllZero (by_equal rs inputs h) zeros.1)
    ]
