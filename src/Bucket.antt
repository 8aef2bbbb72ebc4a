-- ===== src/Bucket.antt =====
-- bucket.go and bucket_trim.go: the bounded LIFO store of one shard.
-- Counts and limits are `int`s that are never negative once the constructor has run, and are numbers
-- here; an `int` argument that the code tests for a sign is an integer.
pub mod Ops
use bufferpool.Base.{
  ℕ, zero, suc, ◌+◌, ◌-◌, ◌%◌, ◌^◌, Bool, true, false, not, ◌||◌, List, [], ◌∷◌, Option, none, some,
  ltb, leb, ◌==◌, if◌then◌else◌, Result, ok, err, ◌>>=◌, ◌>>◌, fail_if, length, get_or, set,
  replicate, max_uint64, min,
}
use bufferpool.Base.Int.{ℤ, pos, negsuc, is_negative, is_not_positive, magnitude}
use bufferpool.Panic.{
  Panic, bucket_invalid_slot_limit, bucket_invalid_segment_slot_limit, bucket_invalid_count,
  bucket_negative_trim_limit, bucket_retained_bytes_overflow, bucket_retained_bytes_underflow,
}
use bufferpool.Slice.{Slice, nil, reslice_empty}
use bufferpool.Segment.{
  Segment, buffer_capacity, can_retain, new_segment, must_have_valid_count, segment_is_full,
  must_have_free_slot, must_have_occupied_slot, clear_occupied_slots,
}

pub record Bucket : Type 0 where
  -- the head segment first
  pub segments : List Segment
  pub retained_buffers : ℕ
  pub retained_bytes : ℕ
  pub slot_limit : ℕ
  pub segment_slot_limit : ℕ

-- DefaultPolicyBucketSegmentSlotsPerShard
abbrev pub default_segment_slots : ℕ
default_segment_slots = 8

pub record BucketState : Type 0 where
  pub retained_buffers : ℕ
  pub retained_bytes : ℕ
  pub slot_limit : ℕ
  pub available_slots : ℕ

pub record TrimResult : Type 0 where
  pub removed_buffers : ℕ
  pub removed_bytes : ℕ
  pub retained_buffers : ℕ
  pub retained_bytes : ℕ
  pub slot_limit : ℕ
  pub available_slots : ℕ

unfoldable pub new_trim_result : ℕ → ℕ → BucketState → TrimResult
new_trim_result removed_buffers removed_bytes s = record {
  removed_buffers = removed_buffers;
  removed_bytes = removed_bytes;
  retained_buffers = s.retained_buffers;
  retained_bytes = s.retained_bytes;
  slot_limit = s.slot_limit;
  available_slots = s.available_slots;
}

-- bucketSegmentSlotLimit: `values...` is empty or has a first value.
unfoldable pub segment_limit : ℤ → Option ℤ → ℤ
segment_limit slot_limit (some value) = value
segment_limit (negsuc n) none = negsuc n
segment_limit (pos n) none =
    if ltb n default_segment_slots then pos n else pos default_segment_slots

unfoldable pub new_bucket : ℤ → Option ℤ → Result Panic Bucket
unfolding segment_limit
new_bucket slot_limit segment_slot_limit = do
  fail_if (is_not_positive slot_limit) bucket_invalid_slot_limit
  let resolved = segment_limit slot_limit segment_slot_limit
  fail_if (is_not_positive resolved || ltb (magnitude slot_limit) (magnitude resolved))
      bucket_invalid_segment_slot_limit
  ok (record {
    segments = [];
    retained_buffers = 0;
    retained_bytes = 0;
    slot_limit = magnitude slot_limit;
    segment_slot_limit = magnitude resolved;
  })

unfoldable pub must_have_valid_bucket_count : Bucket → Result Panic (Unit {0})
must_have_valid_bucket_count b = fail_if (ltb b.slot_limit b.retained_buffers) bucket_invalid_count

unfoldable pub is_full : Bucket → Result Panic Bool
unfolding must_have_valid_bucket_count
is_full b = do must_have_valid_bucket_count b; ok (b.retained_buffers == b.slot_limit)

unfoldable pub is_empty : Bucket → Result Panic Bool
unfolding must_have_valid_bucket_count
is_empty b = do must_have_valid_bucket_count b; ok (b.retained_buffers == 0)

unfoldable pub available_slots : Bucket → Result Panic ℕ
unfolding must_have_valid_bucket_count
available_slots b = do must_have_valid_bucket_count b; ok (b.slot_limit - b.retained_buffers)

-- state, through len, retained, slotLimit and availableSlots
unfoldable pub state : Bucket → Result Panic BucketState
unfolding must_have_valid_bucket_count available_slots
state b = do
  must_have_valid_bucket_count b
  available ← available_slots b
  ok (record {
    retained_buffers = b.retained_buffers;
    retained_bytes = b.retained_bytes;
    slot_limit = b.slot_limit;
    available_slots = available;
  })

unfoldable pub add_retained : Bucket → ℕ → Result Panic Bucket
add_retained b capacity = do
  fail_if (ltb (max_uint64 - capacity) b.retained_bytes) bucket_retained_bytes_overflow
  ok (record b { retained_bytes = b.retained_bytes + capacity })

unfoldable pub remove_retained : Bucket → ℕ → Result Panic Bucket
remove_retained b capacity = do
  fail_if (ltb b.retained_bytes capacity) bucket_retained_bytes_underflow
  ok (record b { retained_bytes = b.retained_bytes - capacity })

unfoldable pub next_segment_slot_limit : Bucket → Result Panic ℕ
next_segment_slot_limit b =
    let remaining = b.slot_limit - b.retained_buffers in
    if leb b.slot_limit b.retained_buffers
    then err bucket_invalid_count
    else if ltb remaining b.segment_slot_limit
    then ok remaining
    else ok b.segment_slot_limit

pub grow : Bucket → Result Panic Bucket
unfolding next_segment_slot_limit new_segment
grow b = do
  limit ← next_segment_slot_limit b
  head ← new_segment limit
  ok (record b { segments = head ∷ b.segments })

pub ensure_for : List Segment → Bucket → Result Panic Bucket
unfolding grow segment_is_full
ensure_for [] b = grow b
ensure_for (head ∷ previous) b = do
  must_have_valid_count head
  full ← segment_is_full head
  if full then grow b else ok b

-- After it, the head segment of the bucket is the segment that the source returns.
unfoldable pub ensure_head_segment : Bucket → Result Panic Bucket
unfolding ensure_for
ensure_head_segment b = ensure_for b.segments b

unfoldable pub must_have_head_segment : List Segment → Result Panic Segment
unfolding must_have_valid_count
must_have_head_segment [] = err bucket_invalid_count
must_have_head_segment (head ∷ previous) = do
  must_have_valid_count head
  fail_if (head.count == 0) bucket_invalid_count
  ok head

unfoldable pub release_empty_head : List Segment → List Segment
release_empty_head [] = []
release_empty_head (head ∷ previous) = if head.count == 0 then previous else head ∷ previous
