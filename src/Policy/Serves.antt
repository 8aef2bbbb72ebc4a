-- ===== src/Policy/Serves.antt =====
-- A valid policy and the class table that is built from it.
use bufferpool.Base.{
  ℕ, zero, suc, ◌-◌, ◌≤◌, ◌≡◌, refl, sym, ap, ◌∙◌, subst, Bool, List, [], ◌∷◌, map, inl, inr, some,
  ok, arith, length, get_or, length-map,
}
use bufferpool.Size.{Size}
use bufferpool.ClassTable.{
  SizeClass, ClassTable, class_sizes, class_at, table_len, new_class_table, class_for_request,
  zero_class,
}
use bufferpool.ClassTable.Search.{IsSortSearch}
use bufferpool.ClassTable.Build.{new_class_table_accepts}
use bufferpool.ClassTable.Order.{class_at_le}
use bufferpool.ClassTable.Lookup.{IsBestFit, class_for_request_best}
use bufferpool.Policy.{Policy}
use bufferpool.Policy.Validate.{largest_class, validate_policy}
use bufferpool.Policy.Valid.{IsUsable, validate_policy-IsUsable}

-- A class that serves a request of the policy, and whose buffers all limits admit.
pub record Serves (p : Policy) (requested : Size) (c : SizeClass) : Type 0 where
  pub serves : requested ≤ c.size
  pub kept_by_pool : c.size ≤ p.retention.max_retained_buffer_capacity
  pub kept_by_class : c.size ≤ p.retention.max_class_retained_bytes
  pub kept_by_shard : c.size ≤ p.retention.max_shard_retained_bytes

get_or-class_sizes :
    (cs : List SizeClass) (i : ℕ)
    → get_or (map (λ c. c.size) cs) i 0 ≡ (get_or cs i zero_class).size
get_or-class_sizes [] i = refl
get_or-class_sizes (c ∷ cs) zero = refl
get_or-class_sizes (c ∷ cs) (suc i) = get_or-class_sizes cs i

-- The largest class of the policy is the last one of the table.
largest_class-class_at :
    (p : Policy) (t : ClassTable)
    → class_sizes t ≡ p.classes.sizes
    → largest_class p.classes ≡ (class_at t (table_len t - 1)).size
largest_class-class_at p t e =
    let n : length p.classes.sizes ≡ table_len t =
      ap length (sym e) ∙ length-map t.classes (λ c. c.size) in
    rw n (
      subst (λ sizes. get_or sizes (table_len t - 1) 0 ≡ (class_at t (table_len t - 1)).size) e
        (get_or-class_sizes t.classes (table_len t - 1)))

Serves-largest :
    (p : Policy) (requested : Size) (c : SizeClass)
    → IsUsable p
    → requested ≤ c.size
    → c.size ≤ largest_class p.classes
    → Serves p requested c
Serves-largest p requested c u fits below = record {
  serves = fits;
  kept_by_pool = omega (arith, u.kept_by_pool);
  kept_by_class = omega (arith, u.kept_by_class);
  kept_by_shard = omega (arith, u.kept_by_shard);
}

-- From a policy that Validate accepts the class table is built without a panic, and it serves every
-- request that the policy allows with the smallest class that can. A buffer of that class is
-- within the byte limits of the pool, the class and the shard.
pub validate_policy-class_for_request :
    (sort_search : ℕ → (ℕ → Bool) → ℕ)
    → IsSortSearch sort_search
    → (p : Policy) (requested : Size) → validate_policy p ≡ []
    → requested ≤ p.retention.max_request_size
    → (t : ClassTable) × (new_class_table p.classes.sizes ≡ ok t)
      × (index : ℕ) × (class_for_request sort_search t requested ≡ some (class_at t index))
      × IsBestFit t requested index
      × Serves p requested (class_at t index)
validate_policy-class_for_request sort_search ss p requested valid allowed =
    let u = validate_policy-IsUsable p valid in
    let both = new_class_table_accepts p.classes.sizes in
    let made = both.0 (record {
      some_size = u.classes.some_class;
      few = u.classes.small;
      ordered = u.classes.increasing;
    }) in
    let t = made.0 in
    let built = both.1 t made.1 in
    let largest = largest_class-class_at p t built.2 in
    let last = table_len t - 1 in
    elim (class_for_request_best sort_search ss t built.1 requested) [
      | inl found ↦
          let below =
            class_at_le built.1 found.0 last (omega (arith, found.1.inside))
              (omega (arith, built.1.nonempty)) in
          (
            t,
            made.1,
            found.0,
            found.2,
            found.1,
            Serves-largest p requested (class_at t found.0) u found.1.serves
                (omega (arith, largest, below)),
          )
      | inr missing ↦
          absurd
            (omega (arith, missing.0 last (omega (arith, built.1.nonempty)), largest, u.served))
    ]
