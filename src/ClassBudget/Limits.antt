-- ===== src/ClassBudget/Limits.antt =====
-- Budget limits: what newClassBudgetLimit computes, and what validate accepts.
use bufferpool.Base.{
  ℕ, ◌+◌, ◌-◌, ◌*◌, ◌/◌, ◌%◌, ◌≤◌, ◌<◌, ◌≡◌, ◌↔◌, refl, ap, subst, ◌∙◌, false, ok, err, arith,
  max_uint64, max, ◌==◌,
}
use native.Mathlib.Decide.{dec_lt}
use native.Mathlib.Nat.{
  mod-eq_of_lt, div-mul-le_self, lt-div-mul-add, le-div_iff_mul-le, div-eq_of_lt-le,
}
use bufferpool.Panic.{class_budget_zero_class_size}
use bufferpool.Generation.{Generation, max_generation}
use bufferpool.Generation.Publish.{publish_at_least_lem}
use bufferpool.ClassBudget.{
  ClassBudget, BudgetLimit, word, new_budget_limit, validate_budget, update_assigned_bytes_at_least,
  snapshot,
}

-- A limit for whole buffers of the class, and the bytes that do not fill another one.
pub record IsLimit (l : BudgetLimit) : Type 0 where
  pub class_positive : 0 < l.class_size
  pub whole : l.target_bytes ≡ l.target_buffers * l.class_size
  pub rest : l.remainder_bytes < l.class_size
  pub all : l.assigned_bytes ≡ l.target_bytes + l.remainder_bytes
  pub fits : l.assigned_bytes ≤ max_uint64

abbrev pub limit_of : ℕ → ℕ → BudgetLimit
limit_of class_size assigned = record {
  class_size = class_size;
  assigned_bytes = assigned;
  target_buffers = assigned / class_size;
  target_bytes = assigned / class_size * class_size;
  remainder_bytes = assigned - assigned / class_size * class_size;
}

-- newClassBudgetLimit does not wrap.
pub new_budget_limit_lem :
    (class_size assigned : ℕ)
    → 0 < class_size
    → assigned ≤ max_uint64
    → (new_budget_limit class_size assigned ≡ ok (limit_of class_size assigned))
      × IsLimit (limit_of class_size assigned)
unfolding new_budget_limit
new_budget_limit_lem c a p h = (
  rw (mod-eq_of_lt {n = a / c * c} {m = word} (omega (arith, div-mul-le_self a c)), some_class)
      (ap (λ r. ok (record (limit_of c a) { remainder_bytes = r })) no_wrap),
  record {
    class_positive = p;
    whole = refl;
    rest = omega (arith, lt-div-mul-add {a = a} p, div-mul-le_self a c);
    all = omega (arith, div-mul-le_self a c);
    fits = h;
  },
)
  where
    some_class : (c == 0) ≡ false
    some_class = ground arith

    no_wrap : (a + word - a / c * c) % word ≡ a - a / c * c
    no_wrap = omega (arith, div-mul-le_self a c)

pub validate_sound :
    (l : BudgetLimit)
    → l.class_size ≤ max_uint64
    → l.assigned_bytes ≤ max_uint64
    → validate_budget l ≡ ok tt
    → IsLimit l
unfolding validate_budget
validate_sound l hc h e = record {
  class_positive = positive;
  whole = product;
  rest = ground arith;
  all = ground arith;
  fits = h;
}
  where
    positive : 0 < l.class_size
    positive = ground arith

    small : l.target_buffers ≤ max_uint64 / l.class_size
    small = ground arith

    no_wrap : l.target_buffers * l.class_size ≤ max_uint64
    no_wrap = (le-div_iff_mul-le positive).0 small

    product : l.target_bytes ≡ l.target_buffers * l.class_size
    product = ground (
      arith,
      mod-eq_of_lt {n = l.target_buffers * l.class_size} {m = word} (omega (arith, no_wrap)),
    )

pub validate_complete : (l : BudgetLimit) → IsLimit l → validate_budget l ≡ ok tt
unfolding validate_budget
validate_complete l v = ground (
  arith,
  v.class_positive,
  v.whole,
  v.rest,
  v.all,
  v.fits,
  (le-div_iff_mul-le {x = l.target_buffers} {y = max_uint64} v.class_positive).1
      (omega (arith, v.whole, v.all, v.fits)),
  mod-eq_of_lt {n = l.target_buffers * l.class_size} {m = word}
      (omega (arith, v.whole, v.all, v.fits)),
  mod-eq_of_lt {n = l.target_bytes + l.remainder_bytes} {m = word} (omega (arith, v.all, v.fits)),
)

limit_unique : (l : BudgetLimit) → IsLimit l → limit_of l.class_size l.assigned_bytes ≡ l
limit_unique l v = ground (arith, v.whole, v.all, quotient)
  where
    quotient : l.assigned_bytes / l.class_size ≡ l.target_buffers
    quotient =
        div-eq_of_lt-le l.class_size {m = l.assigned_bytes} (omega (arith, v.whole, v.all))
          (grind (arith, v.whole, v.all, v.rest))

new_budget_limit_zero : (a : ℕ) → new_budget_limit 0 a ≡ err class_budget_zero_class_size
unfolding new_budget_limit
new_budget_limit_zero a = refl

-- validate accepts exactly the limits that newClassBudgetLimit makes of their class size and assigned
-- bytes: whole buffers of the class, with a remainder that is smaller than the class size.
pub validate_budget_iff :
    (l : BudgetLimit)
    → l.class_size ≤ max_uint64
    → l.assigned_bytes ≤ max_uint64
    → ((validate_budget l ≡ ok tt) ↔ IsLimit l)
      × (IsLimit l ↔ (new_budget_limit l.class_size l.assigned_bytes ≡ ok l))
validate_budget_iff l hc h = ((validate_sound l hc h, validate_complete l), (makes, made))
  where
    makes : IsLimit l → new_budget_limit l.class_size l.assigned_bytes ≡ ok l
    makes v =
        (new_budget_limit_lem l.class_size l.assigned_bytes v.class_positive h).0
        ∙ ap ok (limit_unique l v)

    made : new_budget_limit l.class_size l.assigned_bytes ≡ ok l → IsLimit l
    made e = elim (dec_lt 0 l.class_size) [
      | yes p ↦
          let (new, v) = new_budget_limit_lem l.class_size l.assigned_bytes p h in
          subst IsLimit (cc new) v
      | no zero_class ↦
          let z : l.class_size ≡ 0 = omega arith in
          cc (
            subst (λ c. new_budget_limit c l.assigned_bytes ≡ ok l) z e,
            new_budget_limit_zero l.assigned_bytes,
          )
    ]

-- Assigning bytes to a class stores them under a new generation, and the snapshot then shows the
-- limit of these bytes. Every assignment of a uint64 to a class with a size is accepted, as long as the
-- budget is not at the largest generation and the minimum is one that may be published.
pub snapshot-update_assigned_bytes :
    (b : ClassBudget) (assigned : ℕ) (minimum : Generation)
    → 0 < b.class_size
    → assigned ≤ max_uint64
    → minimum ≤ max_generation
    → b.generation < max_generation
    → let g = max (b.generation + 1) minimum in
      (b' : ClassBudget) × (update_assigned_bytes_at_least b assigned minimum ≡ ok (b', g))
      × (snapshot b' ≡ ok (record { generation = g; limit = limit_of b.class_size assigned }))
unfolding update_assigned_bytes_at_least snapshot
snapshot-update_assigned_bytes b assigned minimum p h hm hg =
    let g = max (b.generation + 1) minimum in
    let (new, v) = new_budget_limit_lem b.class_size assigned p h in
    let valid = validate_complete (limit_of b.class_size assigned) v in
    let published = (publish_at_least_lem minimum b.generation hm).0 hg in
    (
      record b { generation = g; assigned_bytes = assigned },
      ground (arith, new, valid, published),
      ground (arith, new),
    )
