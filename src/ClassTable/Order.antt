-- ===== src/ClassTable/Order.antt =====
-- The classes of a constructed table are in the order of their sizes and of their ids.
use bufferpool.Base.{
  ℕ, zero, suc, ◌+◌, ◌≤◌, ◌<◌, ◌≡◌, List, [], ◌∷◌, map, none, some, arith, length, get_or, tests,
  ltb, leb,
}
use bufferpool.Size.{Size, ClassSize}
use bufferpool.ClassTable.{SizeClass, ClassTable, class_at, table_len, zero_class, class_by_id}
use bufferpool.ClassTable.Search.{IsMonotone}
use bufferpool.ClassTable.Build.{IsTable, IsIncreasing, IsNumbered}

size_at : List SizeClass → ℕ → ClassSize
size_at cs i = (get_or cs i zero_class).size

above_previous :
    (previous : ClassSize) (cs : List SizeClass) (i : ℕ)
    → IsIncreasing previous (map (λ c. c.size) cs)
    → i < length cs
    → previous < size_at cs i
unfolding size_at
above_previous previous [] i h lt = absurd (omega arith)
above_previous previous (c ∷ cs) zero h lt = h.0
above_previous previous (c ∷ cs) (suc i) h lt =
    omega (arith, h.0, above_previous c.size cs i h.1 (omega arith))

sizes_mono :
    (previous : ClassSize) (cs : List SizeClass) (i j : ℕ)
    → IsIncreasing previous (map (λ c. c.size) cs)
    → i < j
    → j < length cs
    → size_at cs i < size_at cs j
unfolding size_at
sizes_mono previous [] i j h ij lt = absurd (omega arith)
sizes_mono previous (c ∷ cs) zero zero h ij lt = absurd (omega arith)
sizes_mono previous (c ∷ cs) zero (suc j) h ij lt = above_previous c.size cs j h.1 (omega arith)
sizes_mono previous (c ∷ cs) (suc i) zero h ij lt = absurd (omega arith)
sizes_mono previous (c ∷ cs) (suc i) (suc j) h ij lt =
    sizes_mono c.size cs i j h.1 (omega arith) (omega arith)

id_at :
    (k : ℕ) (cs : List SizeClass) (i : ℕ)
    → IsNumbered k cs
    → i < length cs
    → (get_or cs i zero_class).id ≡ k + i
id_at k [] i h lt = absurd (omega arith)
id_at k (c ∷ cs) zero h lt = omega (arith, h.0)
id_at k (c ∷ cs) (suc i) h lt = omega (arith, id_at (suc k) cs i h.1 (omega arith))

module _ {t : ClassTable} (v : IsTable t) where
  pub class_at_mono :
      (i j : ℕ) → i < j → j < table_len t → (class_at t i).size < (class_at t j).size
  unfolding size_at
  class_at_mono i j ij lt = sizes_mono 0 t.classes i j v.increasing ij lt

  pub class_at_le : (i j : ℕ) → i ≤ j → j < table_len t → (class_at t i).size ≤ (class_at t j).size
  class_at_le i j ij lt = grind (arith, class_at_mono)

  pub class_at_positive : (i : ℕ) → i < table_len t → 0 < (class_at t i).size
  unfolding size_at
  class_at_positive i lt = above_previous 0 t.classes i v.increasing lt

  -- The class ids are the positions, and classByID finds a class by its own id: nothing else is found.
  pub class_by_id-class_at :
      (id : ℕ)
      → (id < table_len t → (class_by_id t id ≡ some (class_at t id)) × ((class_at t id).id ≡ id))
        × (table_len t ≤ id → class_by_id t id ≡ none)
  unfolding class_by_id
  class_by_id-class_at id = (
    (λ lt. (ground arith, omega (arith, id_at 0 t.classes id v.numbered lt))),
    λ le. ground arith,
  )

  -- The predicates that the lookups search by are monotone over the table.
  pub at_least-IsMonotone :
      (size : Size) → IsMonotone (table_len t) (λ i. leb size (class_at t i).size)
  at_least-IsMonotone size i j ij lt h = omega (tests, class_at_le i j ij lt)

  pub greater-IsMonotone :
      (size : Size) → IsMonotone (table_len t) (λ i. ltb size (class_at t i).size)
  greater-IsMonotone size i j ij lt h = omega (tests, class_at_le i j ij lt)
