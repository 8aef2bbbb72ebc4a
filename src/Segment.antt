-- ===== src/Segment.antt =====
-- bucket_segment.go. A segment has a fixed number of slots; the first `count` hold buffers and the
-- rest hold nil. The `previous` pointers make a chain that only the bucket reaches: a list.
pub mod Window
use bufferpool.Base.{
  ℕ, zero, suc, ◌+◌, ◌-◌, Bool, not, List, [], ◌∷◌, ltb, leb, ◌==◌, if◌then◌else◌, Result, ok, err,
  ◌>>=◌, ◌>>◌, fail_if, length, get_or, set, replicate,
}
use bufferpool.Panic.{
  Panic, bucket_invalid_segment_slot_limit, bucket_invalid_count, bucket_non_empty_free_slot,
  bucket_empty_occupied_slot,
}
use bufferpool.Slice.{Slice, nil, capacity, is_nil}

pub record Segment : Type 0 where
  pub slots : List Slice
  pub count : ℕ

-- bucketBufferCapacity
abbrev pub buffer_capacity : Slice → ℕ
buffer_capacity buffer = capacity buffer

-- bucketCanRetain
abbrev pub can_retain : Slice → Bool
can_retain buffer = ltb 0 (buffer_capacity buffer)

unfoldable pub new_segment : ℕ → Result Panic Segment
new_segment slot_limit =
    if slot_limit == 0
    then err bucket_invalid_segment_slot_limit
    else ok (record { slots = replicate slot_limit nil; count = 0 })

-- `s` is not nil here: the bucket's list has a segment.
unfoldable pub must_have_valid_count : Segment → Result Panic (Unit {0})
must_have_valid_count s = fail_if (ltb (length s.slots) s.count) bucket_invalid_count

unfoldable pub segment_is_full : Segment → Result Panic Bool
unfolding must_have_valid_count
segment_is_full s = do must_have_valid_count s; ok (s.count == length s.slots)

unfoldable pub must_have_free_slot : Segment → ℕ → Result Panic (Unit {0})
unfolding must_have_valid_count
must_have_free_slot s index = do
  must_have_valid_count s
  fail_if (leb (length s.slots) index) bucket_invalid_count
  fail_if (not (is_nil (get_or s.slots index nil))) bucket_non_empty_free_slot

unfoldable pub must_have_occupied_slot : Segment → ℕ → Result Panic Slice
unfolding must_have_valid_count
must_have_occupied_slot s index = do
  must_have_valid_count s
  fail_if (leb s.count index) bucket_invalid_count
  fail_if (not (can_retain (get_or s.slots index nil))) bucket_empty_occupied_slot
  ok (get_or s.slots index nil)

-- The loop of clearOccupiedSlots: `left` rounds from `index` on.
unfoldable pub clear_slots : ℕ → ℕ → Segment → Result Panic Segment
unfolding must_have_occupied_slot
clear_slots zero index s = ok s
clear_slots (suc left) index s = do
  buffer ← must_have_occupied_slot s index
  clear_slots left (index + 1) (record s { slots = set s.slots index nil })

unfoldable pub clear_occupied_slots : Segment → Result Panic Segment
unfolding must_have_valid_count clear_slots
clear_occupied_slots s = do
  must_have_valid_count s
  cleared ← clear_slots s.count 0 s
  ok (record cleared { count = 0 })
