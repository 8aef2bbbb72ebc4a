-- ===== src/Bucket/Ops/TrimBounded.antt =====
-- trimBounded on a valid bucket.
use bufferpool.Base.{
  ℕ, ◌+◌, ◌-◌, ◌≤◌, ◌<◌, ◌≡◌, refl, ap, inl, inr, List, [], ◌∷◌, ◌++◌, ok, arith, length, ltb,
  if◌then◌else◌, ◌⊎◌, length-append,
}
use bufferpool.Base.Int.{pos}
use native.Mathlib.Decide.{dec_lt}
use bufferpool.Slice.{Slice, capacity}
use bufferpool.Segment.Window.{contents, total}
use bufferpool.Bucket.{Bucket, TrimResult, state}
use bufferpool.Bucket.Ops.{trim_bounded}
use bufferpool.Bucket.Ops.Trim.{Dropped, trim_loop-Dropped}
use bufferpool.Bucket.Ops.Invariant.{IsBucket}

pub state_lem :
    (b : Bucket)
    → b.retained_buffers ≤ b.slot_limit
    → state b
      ≡ ok (record {
        retained_buffers = b.retained_buffers;
        retained_bytes = b.retained_bytes;
        slot_limit = b.slot_limit;
        available_slots = b.slot_limit - b.retained_buffers;
      })
unfolding state
state_lem b h = ground arith

-- The result that a removal of `buffers` and `bytes` reports with the bucket that is left.
unfoldable pub reported : ℕ → ℕ → Bucket → TrimResult
reported buffers bytes b = record {
  removed_buffers = buffers;
  removed_bytes = bytes;
  retained_buffers = b.retained_buffers;
  retained_bytes = b.retained_bytes;
  slot_limit = b.slot_limit;
  available_slots = b.slot_limit - b.retained_buffers;
}

-- What trimBounded does: it drops the newest buffers `dropped`.
pub record Trims (b : Bucket) (max_buffers max_bytes : ℕ) : Type 0 where
  pub after : Bucket
  pub dropped : List Slice
  pub result :
      trim_bounded b (pos max_buffers) max_bytes
      ≡ ok (after, reported (length dropped) (total dropped) after)
  pub split : contents b.segments ≡ dropped ++ contents after.segments
  pub in_budget : total dropped ≤ max_bytes
  pub in_limit : length dropped ≤ max_buffers
  pub same_limit : after.slot_limit ≡ b.slot_limit
  pub valid : IsBucket after
  -- It stopped at the buffer limit, at an empty bucket, or at a buffer that passes the byte limit.
  pub maximal :
      (length dropped ≡ max_buffers)
      ⊎ ((contents after.segments ≡ [])
          ⊎ ((x : Slice) × (rest : List Slice) × (contents after.segments ≡ x ∷ rest)
              × (max_bytes < total dropped + capacity x)))

loop_limit : Bucket → ℕ → ℕ
loop_limit b n = if ltb b.retained_buffers n then b.retained_buffers else n

loop_limit-le : (b : Bucket) (n : ℕ) → IsBucket b → loop_limit b n ≤ length (contents b.segments)
unfolding loop_limit
loop_limit-le b n v = ground (arith, v.counted)

nil_of_append : (xs ys zs : List Slice) → xs ≡ ys ++ zs → length xs ≡ length ys → zs ≡ []
nil_of_append xs ys [] e h = refl
nil_of_append xs ys (z ∷ zs) e h = absurd (omega (arith, ap length e, length-append ys (z ∷ zs)))

module _ (b : Bucket) (max_buffers max_bytes : ℕ) (v : IsBucket b)
    (r : Dropped b (loop_limit b max_buffers) max_bytes 0 0) where
  result_lem :
      trim_bounded b (pos max_buffers) max_bytes
      ≡ ok (r.after, reported (length r.dropped) (total r.dropped) r.after)
  unfolding trim_bounded loop_limit reported
  result_lem = ground (arith, v.bounded, r.result, state_lem r.after r.valid.bounded)

  loop_limit_bound : length r.dropped ≤ max_buffers
  unfolding loop_limit
  loop_limit_bound = ground (arith, r.in_limit)

  maximal_lem :
      (length r.dropped ≡ loop_limit b max_buffers)
        ⊎ ((x : Slice) × (rest : List Slice) × (contents r.after.segments ≡ x ∷ rest)
            × (max_bytes < 0 + total r.dropped + capacity x))
      → (length r.dropped ≡ max_buffers)
        ⊎ ((contents r.after.segments ≡ [])
            ⊎ ((x : Slice) × (rest : List Slice) × (contents r.after.segments ≡ x ∷ rest)
                × (max_bytes < total r.dropped + capacity x)))
  unfolding loop_limit
  maximal_lem (inr (x, rest, e, over)) = inr (inr (x, rest, e, omega arith))
  maximal_lem (inl e) = elim (dec_lt b.retained_buffers max_buffers) [
    | yes all ↦ inr (
        inl (
          nil_of_append (contents b.segments) r.dropped (contents r.after.segments) r.split
            (ground (arith, v.counted))))
    | no limited ↦ inl (ground arith)
  ]

-- On a valid bucket trimBounded never panics for a limit that is not negative: it removes the newest
-- buffers within both limits, as many as they allow, reports exactly what it removed and what is
-- left, and keeps the invariant. The loop ends by itself.
pub trim_bounded-Trims :
    (b : Bucket) (max_buffers max_bytes : ℕ) → IsBucket b → Trims b max_buffers max_bytes
trim_bounded-Trims b max_buffers max_bytes v = of_dropped (
    trim_loop-Dropped (loop_limit b max_buffers) max_bytes b 0 0 v (loop_limit-le b max_buffers v)
      (omega arith))
  where
    of_dropped : Dropped b (loop_limit b max_buffers) max_bytes 0 0 → Trims b max_buffers max_bytes
    of_dropped r = record {
      after = r.after;
      dropped = r.dropped;
      result = result_lem b max_buffers max_bytes v r;
      split = r.split;
      in_budget = omega (arith, r.in_budget);
      in_limit = loop_limit_bound b max_buffers max_bytes v r;
      same_limit = r.same_limit;
      valid = r.valid;
      maximal = maximal_lem b max_buffers max_bytes v r r.maximal;
    }
