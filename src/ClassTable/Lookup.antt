-- ===== src/ClassTable/Lookup.antt =====
-- The lookups of a constructed table: by request size, by capacity and by exact size.
use bufferpool.Base.{
  ℕ, ◌-◌, ◌≤◌, ◌<◌, ◌≡◌, ap, subst, ◌≢◌, ◌⊎◌, inl, inr, Bool, none, some, arith, tests, ltb, leb,
  leb→le, leb→lt, ltb→lt, ltb→le,
}
use native.Mathlib.Decide.{dec_lt, ℕ_discrete}
use bufferpool.Size.{Size, ClassSize}
use bufferpool.ClassTable.{
  SizeClass, ClassTable, class_at, table_len, class_for_exact_size, class_for_request,
  class_for_capacity,
}
use bufferpool.ClassTable.Search.{IsFirst, IsSortSearch}
use bufferpool.ClassTable.Build.{IsTable}
use bufferpool.ClassTable.Order.{
  class_at_mono, class_at_positive, at_least-IsMonotone, greater-IsMonotone,
}

-- `c` is the class of least size that serves a request.
pub record IsBestFit (t : ClassTable) (requested : Size) (index : ℕ) : Type 0 where
  pub inside : index < table_len t
  pub serves : requested ≤ (class_at t index).size
  pub least : (i : ℕ) → i < index → (class_at t i).size < requested

-- The class at `index` is the largest that is no larger than the capacity.
pub record IsOrigin (t : ClassTable) (capacity : Size) (index : ℕ) : Type 0 where
  pub inside : index < table_len t
  pub fits : (class_at t index).size ≤ capacity
  pub largest : (i : ℕ) → index < i → i < table_len t → capacity < (class_at t i).size

module _ (sort_search : ℕ → (ℕ → Bool) → ℕ) (ss : IsSortSearch sort_search) (t : ClassTable)
    (v : IsTable t) where
  -- classForRequest finds the smallest class that can serve the request, and fails exactly when the
  -- request is larger than every class.
  pub class_for_request_best :
      (requested : Size)
      → ((index : ℕ) × IsBestFit t requested index
          × (class_for_request sort_search t requested ≡ some (class_at t index)))
        ⊎ (((i : ℕ) → i < table_len t → (class_at t i).size < requested)
            × (class_for_request sort_search t requested ≡ none))
  unfolding class_for_request
  class_for_request_best requested = elim (dec_lt k n) [
    | yes lt ↦ inl (
      k,
      record {
        inside = lt;
        serves = leb→le _ _ (first.at lt);
        least = λ i h. leb→lt _ _ (first.before i h);
      },
      ground (arith, v.nonempty),
    )
    | no ge ↦ inr ((λ i h. leb→lt _ _ (first.before i (omega arith))), ground (arith, v.nonempty))
  ]
    where
      n : ℕ
      n = table_len t

      f : ℕ → Bool
      f i = leb requested (class_at t i).size

      k : ℕ
      k = sort_search n f

      first : IsFirst n f k
      first = ss.first n f (at_least-IsMonotone v requested)

  -- classForCapacity finds the largest class that a buffer of the capacity can serve, and fails
  -- exactly when the capacity is smaller than every class.
  pub class_for_capacity-IsOrigin :
      (capacity : Size)
      → ((index : ℕ) × IsOrigin t capacity index
          × (class_for_capacity sort_search t capacity ≡ some (class_at t index)))
        ⊎ (((i : ℕ) → i < table_len t → capacity < (class_at t i).size)
            × (class_for_capacity sort_search t capacity ≡ none))
  unfolding class_for_capacity
  class_for_capacity-IsOrigin capacity = elim (dec_lt 0 k) [
    | yes some_fit ↦ inl (
      k - 1,
      origin some_fit,
      ground (
        arith,
        v.nonempty,
        (origin some_fit).fits,
        class_at_positive v (k - 1) (origin some_fit).inside,
      ),
    )
    | no none_fits ↦ inr ((λ i lt. above i (omega arith) lt), ground arith)
  ]
    where
      n : ℕ
      n = table_len t

      f : ℕ → Bool
      f i = ltb capacity (class_at t i).size

      k : ℕ
      k = sort_search n f

      first : IsFirst n f k
      first = ss.first n f (greater-IsMonotone v capacity)

      -- From the first class that is too large on, all are.
      above : (i : ℕ) → k ≤ i → i < n → capacity < (class_at t i).size
      above i ki lt = ltb→lt _ _ (greater-IsMonotone v capacity k i ki lt (first.at (omega arith)))

      origin : 0 < k → IsOrigin t capacity (k - 1)
      origin h = record {
        inside = omega (arith, first.bounded);
        fits = ltb→le _ _ (first.before (k - 1) (omega arith));
        largest = λ i ki lt. above i (omega arith) lt;
      }

  -- classForExactSize finds a class exactly when some class has this size, and then it is that class.
  pub class_for_exact_size_exact :
      (size : ClassSize)
      → ((index : ℕ) × (index < table_len t)
          × ((class_at t index).size ≡ size)
          × (class_for_exact_size sort_search t size ≡ some (class_at t index)))
        ⊎ (((i : ℕ) → i < table_len t → (class_at t i).size ≢ size)
            × (class_for_exact_size sort_search t size ≡ none))
  unfolding class_for_exact_size
  class_for_exact_size_exact size = elim (dec_lt k n) [
    | no ge ↦ inr ((λ i h e. absurd (below i (omega arith) e)), ground (arith, v.nonempty))
    | yes lt ↦ elim (ℕ_discrete (class_at t k).size size) [
      | yes same ↦ inl (k, lt, same, ground (arith, v.nonempty, class_at_positive v k lt))
      | no differs ↦ inr ((λ i h e. missing lt differs i h e), ground (arith, v.nonempty))
    ]
  ]
    where
      n : ℕ
      n = table_len t

      f : ℕ → Bool
      f i = leb size (class_at t i).size

      k : ℕ
      k = sort_search n f

      first : IsFirst n f k
      first = ss.first n f (at_least-IsMonotone v size)

      below : (i : ℕ) → i < k → (class_at t i).size ≢ size
      below i h e = omega (tests, first.before i h, e)

      missing : k < n → (class_at t k).size ≢ size → (i : ℕ) → i < n → (class_at t i).size ≢ size
      missing lt differs i h e = elim (dec_lt i k) [
        | yes b ↦ below i b e
        | no nb ↦ elim (ℕ_discrete i k) [
          | yes ik ↦ differs (subst (λ j. (class_at t j).size ≡ size) ik e)
          | no ne ↦ omega (tests, first.at lt, class_at_mono v k i (omega arith) h, e)
        ]
      ]

  origin_unique :
      (capacity : Size) (i j : ℕ) → IsOrigin t capacity i → IsOrigin t capacity j → i ≡ j
  origin_unique capacity i j oi oj = elim (dec_lt i j) [
    | yes h ↦ absurd (omega (arith, oi.largest j h oj.inside, oj.fits))
    | no ge ↦ elim (dec_lt j i) [
      | yes h ↦ absurd (omega (arith, oj.largest i h oi.inside, oi.fits))
      | no le ↦ omega arith
    ]
  ]

  pub class_for_capacity_lem :
      (capacity : Size) (i : ℕ)
      → IsOrigin t capacity i
      → class_for_capacity sort_search t capacity ≡ some (class_at t i)
  class_for_capacity_lem capacity i o = elim (class_for_capacity-IsOrigin capacity) [
    | inl (j, oj, found) ↦ rw (origin_unique capacity i j o oj) found
    | inr (over, _) ↦ absurd (omega (arith, over i o.inside, o.fits))
  ]

  own-IsOrigin : (i : ℕ) → i < table_len t → IsOrigin t (class_at t i).size i
  own-IsOrigin i lt = record {
    inside = lt;
    fits = omega arith;
    largest = λ j ij jt. class_at_mono v i j ij jt;
  }

  -- The class that classForRequest finds for a request is at least as large as the request, and
  -- classForCapacity finds this class again for a capacity of exactly its size.
  pub capacity-request_class :
      (requested : Size) {c : SizeClass}
      → class_for_request sort_search t requested ≡ some c
      → (requested ≤ c.size) × (class_for_capacity sort_search t c.size ≡ some c)
  capacity-request_class requested {c} e = elim (class_for_request_best requested) [
    | inl (i, fit, found) ↦
        let ic : class_at t i ≡ c = cc found in
        (
          omega (arith, fit.serves, ap (λ x. x.size) ic),
          subst (λ x. class_for_capacity sort_search t x.size ≡ some x) ic
              (class_for_capacity_lem (class_at t i).size i (own-IsOrigin i fit.inside)),
        )
    | inr (_, missing) ↦ cc missing
  ]
