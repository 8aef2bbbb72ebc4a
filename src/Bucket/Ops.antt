-- ===== src/Bucket/Ops.antt =====
-- bucket.go: push, pop, trim and clear.
pub mod Invariant
pub mod Push
pub mod Pop
pub mod Trim
pub mod TrimBounded
pub mod Clear
pub mod Create
mod Tests
use bufferpool.Base.{
  ℕ, zero, suc, ◌+◌, ◌-◌, Bool, true, false, not, ◌||◌, List, [], ◌∷◌, ltb, leb, ◌==◌,
  if◌then◌else◌, Result, ok, err, ◌>>=◌, ◌>>◌, fail_if, set, max_uint64, min,
}
use bufferpool.Base.Int.{ℤ, pos, negsuc, is_negative, magnitude}
use bufferpool.Panic.{Panic, bucket_invalid_count, bucket_negative_trim_limit}
use bufferpool.Slice.{Slice, nil, reslice_empty}
use bufferpool.Segment.{
  Segment, buffer_capacity, can_retain, must_have_valid_count, segment_is_full, must_have_free_slot,
  must_have_occupied_slot, clear_occupied_slots,
}
use bufferpool.Bucket.{
  Bucket, BucketState, TrimResult, new_trim_result, must_have_valid_bucket_count, is_full, state,
  add_retained, remove_retained, ensure_head_segment, must_have_head_segment, release_empty_head,
}

-- Whether push can use the head segment: the source keeps it in `segment`, or sets that to nil.
pub reusable_head : List Segment → Result Panic Bool
unfolding segment_is_full must_have_free_slot must_have_valid_count
reusable_head [] = ok false
reusable_head (head ∷ previous) = do
  must_have_valid_count head
  full ← segment_is_full head
  if full then ok false else must_have_free_slot head head.count >> ok true

-- `segment.slots[segment.count] = buffer[:0]` and the three counters, on the head segment.
pub store_at_head : List Segment → Bucket → Slice → Result Panic Bucket
store_at_head [] b buffer = err bucket_invalid_count
store_at_head (head ∷ previous) b buffer = ok (record b {
  segments =
      record head {
        slots = set head.slots head.count (reslice_empty buffer);
        count = head.count + 1;
      }
      ∷ previous;
  retained_buffers = b.retained_buffers + 1;
})

pub free_head_slot : List Segment → Result Panic (Unit {0})
unfolding must_have_free_slot
free_head_slot [] = ok tt
free_head_slot (head ∷ previous) = must_have_free_slot head head.count

pub push_retained : Bucket → Slice → Result Panic Bucket
unfolding reusable_head add_retained ensure_head_segment free_head_slot store_at_head
push_retained b buffer = do
  reuse ← reusable_head b.segments
  counted ← add_retained b (buffer_capacity buffer)
  ready ←
      (if reuse
        then ok counted
        else do grown ← ensure_head_segment counted; free_head_slot grown.segments; ok grown)
  store_at_head ready.segments ready buffer

unfoldable pub push : Bucket → Slice → Result Panic (Bucket × Bool)
unfolding must_have_valid_bucket_count is_full push_retained
push b buffer = do
  must_have_valid_bucket_count b
  full ← is_full b
  if full || not (can_retain buffer)
      then ok (b, false)
      else do stored ← push_retained b buffer; ok (stored, true)

-- `segment.slots[index] = nil`, `segment.count--`, `b.retainedBuffers--` and releaseEmptyHeadSegment.
pub remove_at_head : List Segment → Bucket → ℕ → Bucket
unfolding release_empty_head
remove_at_head [] b index = b
remove_at_head (head ∷ previous) b index = record b {
  segments =
      release_empty_head
        (record { slots = set head.slots index nil; count = head.count - 1 } ∷ previous);
  retained_buffers = b.retained_buffers - 1;
}

pub pop_retained : Bucket → Result Panic (Bucket × Slice)
unfolding must_have_head_segment must_have_occupied_slot remove_retained remove_at_head
pop_retained b = do
  head ← must_have_head_segment b.segments
  buffer ← must_have_occupied_slot head (head.count - 1)
  counted ← remove_retained b (buffer_capacity buffer)
  ok (remove_at_head counted.segments counted (head.count - 1), reslice_empty buffer)

unfoldable pub pop : Bucket → Result Panic (Bucket × Slice × Bool)
unfolding must_have_valid_bucket_count pop_retained
pop b = do
  must_have_valid_bucket_count b
  if b.retained_buffers == 0
      then ok (b, nil, false)
      else do (popped, buffer) ← pop_retained b; ok (popped, buffer, true)

unfoldable pub peek_head_capacity : Bucket → Result Panic (ℕ × Bool)
unfolding must_have_head_segment must_have_occupied_slot
peek_head_capacity b = if b.retained_buffers == 0 then ok (0, false) else do
  head ← must_have_head_segment b.segments
  buffer ← must_have_occupied_slot head (head.count - 1)
  ok (buffer_capacity buffer, true)

-- The loop of trimBounded: `left` is limit - removedBuffers. The result is the bucket with what was
-- removed. The recursive call is made under the case, since what follows a bind waits.
pub trim_loop : ℕ → ℕ → Bucket → ℕ → ℕ → Result Panic (Bucket × ℕ × ℕ)
unfolding peek_head_capacity pop
trim_loop zero max_bytes b removed_buffers removed_bytes = ok (b, removed_buffers, removed_bytes)
trim_loop (suc left) max_bytes b removed_buffers removed_bytes = do
  (capacity, found) ← peek_head_capacity b
  elim (not found || ltb (max_bytes - removed_bytes) capacity) [
    | true ↦ ok (b, removed_buffers, removed_bytes)
    | false ↦ do
      (popped, buffer, _) ← pop b
      trim_loop left max_bytes popped (removed_buffers + 1) (removed_bytes + buffer_capacity buffer)
  ]

unfoldable pub trim_bounded : Bucket → ℤ → ℕ → Result Panic (Bucket × TrimResult)
unfolding must_have_valid_bucket_count trim_loop state new_trim_result
trim_bounded b max_buffers max_bytes = do
  fail_if (is_negative max_buffers) bucket_negative_trim_limit
  must_have_valid_bucket_count b
  let limit = magnitude max_buffers
  let bounded = if ltb b.retained_buffers limit then b.retained_buffers else limit
  (trimmed, removed_buffers, removed_bytes) ← trim_loop bounded max_bytes b 0 0
  s ← state trimmed
  ok (trimmed, new_trim_result removed_buffers removed_bytes s)

-- `^uint64(0)` as the byte bound
unfoldable pub trim : Bucket → ℤ → Result Panic (Bucket × TrimResult)
unfolding trim_bounded
trim b max_buffers = trim_bounded b max_buffers max_uint64

-- The loop of clear over the chain; the cleared segments are dropped with the head.
pub clear_segments : List Segment → Result Panic (Unit {0})
unfolding clear_occupied_slots
clear_segments [] = ok tt
clear_segments (s ∷ previous) = do cleared ← clear_occupied_slots s; clear_segments previous

unfoldable pub clear : Bucket → Result Panic (Bucket × TrimResult)
unfolding must_have_valid_bucket_count clear_segments state new_trim_result
clear b = do
  must_have_valid_bucket_count b
  clear_segments b.segments
  let cleared : Bucket = record b { segments = []; retained_buffers = 0; retained_bytes = 0 }
  s ← state cleared
  ok (cleared, new_trim_result b.retained_buffers b.retained_bytes s)
