-- ===== src/Bucket/Ops/Trim.antt =====
-- The loop of trimBounded on a valid bucket.
use bufferpool.Base.{
  ℕ, zero, suc, ◌+◌, ◌-◌, ◌≤◌, ◌<◌, ◌≡◌, refl, ap, ◌∙◌, true, false, Bool-cases, inl, inr, List, [],
  ◌∷◌, ◌++◌, ok, arith, length, ltb, ◌⊎◌,
}
use bufferpool.Slice.{Slice, capacity, capacity-reslice_empty}
use bufferpool.Segment.Window.{contents, total}
use bufferpool.Bucket.{Bucket}
use bufferpool.Bucket.Ops.{trim_loop, pop, peek_head_capacity}
use bufferpool.Bucket.Ops.Invariant.{IsBucket}
use bufferpool.Bucket.Ops.Pop.{empty, takes, pop-Pops}

module _ (left max_bytes : ℕ) (b : Bucket) (removed_buffers removed_bytes : ℕ) {size : ℕ}
    (peeked : peek_head_capacity b ≡ ok (size, true)) where
  trim_loop_stops :
      ltb (max_bytes - removed_bytes) size ≡ true
      → trim_loop (suc left) max_bytes b removed_buffers removed_bytes
        ≡ ok (b, removed_buffers, removed_bytes)
  unfolding trim_loop
  trim_loop_stops over = ground (arith, peeked)

  trim_loop_steps :
      {b' : Bucket} {buffer : Slice}
      → ltb (max_bytes - removed_bytes) size ≡ false
      → pop b ≡ ok (b', buffer, true)
      → trim_loop (suc left) max_bytes b removed_buffers removed_bytes
        ≡ trim_loop left max_bytes b' (removed_buffers + 1) (removed_bytes + capacity buffer)
  unfolding trim_loop
  trim_loop_steps fits popped = ground (arith, peeked, popped)

-- What the loop has done when it stops: `dropped` holds the removed buffers, newest first.
pub record Dropped (b : Bucket) (left max_bytes removed_buffers removed_bytes : ℕ) : Type 0 where
  pub after : Bucket
  pub dropped : List Slice
  pub result :
      trim_loop left max_bytes b removed_buffers removed_bytes
      ≡ ok (after, removed_buffers + length dropped, removed_bytes + total dropped)
  pub split : contents b.segments ≡ dropped ++ contents after.segments
  pub in_budget : removed_bytes + total dropped ≤ max_bytes
  pub in_limit : length dropped ≤ left
  pub same_limit : after.slot_limit ≡ b.slot_limit
  pub valid : IsBucket after
  pub maximal :
      (length dropped ≡ left)
      ⊎ ((x : Slice) × (rest : List Slice) × (contents after.segments ≡ x ∷ rest)
          × (max_bytes < removed_bytes + total dropped + capacity x))

next_maximal :
    (bytes size used : ℕ) {n m left : ℕ} {rest : List Slice}
    → (n ≡ left)
      ⊎ ((x : Slice) × (xs : List Slice) × (rest ≡ x ∷ xs) × (m < bytes + size + used + capacity x))
    → (suc n ≡ suc left)
      ⊎ ((x : Slice) × (xs : List Slice) × (rest ≡ x ∷ xs)
          × (m < bytes + (size + used) + capacity x))
next_maximal bytes size used (inl e) = inl (ap suc e)
next_maximal bytes size used (inr (x, xs, e, over)) = inr (x, xs, e, omega arith)

pub trim_loop-Dropped :
    (left max_bytes : ℕ) (b : Bucket) (removed_buffers removed_bytes : ℕ)
    → IsBucket b
    → left ≤ length (contents b.segments)
    → removed_bytes ≤ max_bytes
    → Dropped b left max_bytes removed_buffers removed_bytes
trim_loop-Dropped zero max_bytes b removed_buffers removed_bytes v h le = record {
  after = b;
  dropped = [];
  result = unfold trim_loop in ground arith;
  split = refl;
  in_budget = omega arith;
  in_limit = omega arith;
  same_limit = refl;
  valid = v;
  maximal = inl refl;
}
trim_loop-Dropped (suc left) max_bytes b removed_buffers removed_bytes v h le =
    elim (pop-Pops b v) [
      | empty none_held _ ↦ absurd (omega (arith, ap length none_held))
      | takes b' x held _ popped peeked same v' ↦
          elim (Bool-cases (ltb (max_bytes - removed_bytes) (capacity x))) [
            | inl over ↦ record {
              after = b;
              dropped = [];
              result =
                  trim_loop_stops left max_bytes b removed_buffers removed_bytes peeked over
                  ∙ ground arith;
              split = refl;
              in_budget = omega arith;
              in_limit = omega arith;
              same_limit = refl;
              valid = v;
              maximal = inr (x, contents b'.segments, held, ground arith);
            }
            | inr fits ↦
                let r =
                  trim_loop-Dropped left max_bytes b' (removed_buffers + 1)
                    (removed_bytes + capacity x) v' (omega (arith, ap length held))
                    (ground arith) in
                record {
                  after = r.after;
                  dropped = x ∷ r.dropped;
                  result =
                      trim_loop_steps left max_bytes b removed_buffers removed_bytes peeked fits
                        popped
                      ∙ rw (capacity-reslice_empty x) (r.result ∙ ground arith);
                  split = held ∙ ap (◌∷◌ x) r.split;
                  in_budget = omega (arith, r.in_budget, capacity-reslice_empty x);
                  in_limit = omega (arith, r.in_limit);
                  same_limit = r.same_limit ∙ same;
                  valid = r.valid;
                  maximal = next_maximal removed_bytes (capacity x) (total r.dropped) r.maximal;
                }
          ]
    ]
