-- ===== src/ClassState/Answers.antt =====
-- What a shard of a class answers to a return, and what it holds after one or after a removal.
use bufferpool.Base.{
  ◌<◌, ◌≤◌, ◌≡◌, ◌⊎◌, ◌∷◌, inl, inr, refl, subst, Bool, true, false, All, Result, ok, arith,
}
use bufferpool.Panic.{Panic}
use bufferpool.Slice.{Slice, nil, view, capacity, reslice_empty, capacity-reslice_empty, Memory}
use bufferpool.Size.{ClassSize}
use bufferpool.Segment.Window.{contents}
use bufferpool.ClassTable.{SizeClass}
use bufferpool.Bucket.{TrimResult}
use bufferpool.Shard.{Shard, RetainResult, try_retain_with_options}
use bufferpool.Shard.Inv.{Drops}
use bufferpool.Shard.Retain.{after_drop, drops, retains, try_retain-Retains}
use bufferpool.ClassState.{class_retain_accept, allows_shard_retain, evaluate_class_retain}
use bufferpool.ClassState.Inv.{IsClassShard, All-append}

-- The class accepts exactly the buffers that hold its size.
pub evaluate_class_retain_iff :
    (class : SizeClass) (buffer : Slice)
    → 0 < class.size
    → (allows_shard_retain (evaluate_class_retain class buffer) ≡ true
        → class.size ≤ capacity buffer)
      × (class.size ≤ capacity buffer → evaluate_class_retain class buffer ≡ class_retain_accept)
unfolding evaluate_class_retain
evaluate_class_retain_iff class nil h = ((λ e. cc), λ le. absurd (omega arith))
evaluate_class_retain_iff class (view base len cap) h = ((λ e. ground arith), λ le. ground arith)

-- The buffer is on top of the shard's, cut to length 0, or the shard holds what it held.
abbrev pub KeptOrDropped : Shard → Slice → Shard → RetainResult → Type 0
KeptOrDropped shard buffer updated reply =
    ((reply.retained ≡ true)
      × (contents updated.bucket.segments ≡ reslice_empty buffer ∷ contents shard.bucket.segments))
    ⊎ ((reply.retained ≡ false) × (updated.bucket ≡ shard.bucket))

-- What a shard does with a buffer of the class.
pub shard_retain :
    (size : ClassSize) (shard : Shard) (m : Memory) (buffer : Slice) (zero_before_retain : Bool)
    → IsClassShard size shard
    → size ≤ capacity buffer
    → (updated : Shard) × (memory : Memory) × (reply : RetainResult) × (try_retain_with_options
          shard m buffer zero_before_retain
        ≡ ok (updated, memory, reply))
      × IsClassShard size updated
      × (reply.capacity ≡ capacity buffer)
      × KeptOrDropped shard buffer updated reply
shard_retain size shard m buffer z v fits = elim (try_retain-Retains shard m buffer z v.valid) [
  | drops why result valid ↦ (
    after_drop shard buffer,
    m,
    _,
    result,
    record { valid = valid; fits = v.fits },
    refl,
    inr (refl, refl),
  )
  | retains s' accepted room result held buffers bytes credit valid ↦ (
    s',
    _,
    _,
    result,
    record { valid = valid; fits = rw held (omega (arith, capacity-reslice_empty buffer), v.fits) },
    refl,
    inl (refl, held),
  )
]

-- A shard that has dropped some of its newest buffers.
pub dropped-IsClassShard :
    (size : ClassSize) (shard : Shard) {operation : Result Panic (Shard × TrimResult)}
    (d : Drops shard operation)
    → IsClassShard size shard
    → IsClassShard size d.after
dropped-IsClassShard size shard d v = record {
  valid = d.valid;
  fits =
      All-append _ d.dropped (contents d.after.bucket.segments)
        (subst (All (λ x. size ≤ capacity x)) d.split v.fits);
}
