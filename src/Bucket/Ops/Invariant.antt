-- ===== src/Bucket/Ops/Invariant.antt =====
-- The bucket's invariant, and each helper's result in a bucket that has it.
use bufferpool.Base.{
  ℕ, ◌-◌, ◌≤◌, ◌<◌, ◌≡◌, refl, Bool, false, not, List, [], ◌∷◌, ok, arith, length, ltb, ◌==◌,
  if◌then◌else◌, max_uint64, length-replicate, get_or-replicate,
}
use bufferpool.Slice.{nil}
use bufferpool.Segment.{Segment, new_segment}
use bufferpool.Segment.Window.{IsChain, contents, total, fresh}
use bufferpool.Bucket.{Bucket, next_segment_slot_limit, grow, ensure_for}
use bufferpool.Bucket.Ops.{reusable_head, free_head_slot}

pub record IsBucket (b : Bucket) : Type 0 where
  pub chain : IsChain b.segments
  pub counted : b.retained_buffers ≡ length (contents b.segments)
  pub bytes : b.retained_bytes ≡ total (contents b.segments)
  pub bounded : b.retained_buffers ≤ b.slot_limit
  pub segment_slots : 0 < b.segment_slot_limit
  pub fits : b.retained_bytes ≤ max_uint64

-- The head segment takes another buffer.
unfoldable pub has_room : List Segment → Bool
has_room [] = false
has_room (head ∷ previous) = not (head.count == length head.slots)

pub reusable_head_lem : (ss : List Segment) → IsChain ss → reusable_head ss ≡ ok (has_room ss)
unfolding reusable_head has_room
reusable_head_lem [] c = refl
reusable_head_lem (head ∷ previous) c =
    ground (arith, c.0.count_le, c.0.free head.count (omega arith))

unfoldable pub new_slots : Bucket → ℕ
new_slots b =
    if ltb (b.slot_limit - b.retained_buffers) b.segment_slot_limit
    then b.slot_limit - b.retained_buffers
    else b.segment_slot_limit

unfoldable pub grown : Bucket → Bucket
unfolding new_slots fresh
grown b = record b { segments = fresh (new_slots b) ∷ b.segments }

pub grow_lem :
    (b : Bucket)
    → b.retained_buffers < b.slot_limit
    → 0 < b.segment_slot_limit
    → (grow b ≡ ok (grown b)) × (0 < new_slots b)
unfolding grow grown next_segment_slot_limit new_segment
grow_lem b lt pos = (ground arith, ground arith)

pub ensure_for_lem :
    (ss : List Segment) (b : Bucket) → IsChain ss → has_room ss ≡ false → ensure_for ss b ≡ grow b
unfolding ensure_for has_room
ensure_for_lem [] b c h = refl
ensure_for_lem (head ∷ previous) b c h = ground (arith, c.0.count_le)

pub free_head_slot-fresh :
    (n : ℕ) (ss : List Segment) → 0 < n → free_head_slot (fresh n ∷ ss) ≡ ok tt
unfolding free_head_slot fresh
free_head_slot-fresh n ss h = ground (arith, length-replicate n nil, get_or-replicate n 0 nil)
