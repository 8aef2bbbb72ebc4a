-- ===== src/Shard/Tests.antt =====
-- A shard at small inputs: runs, and the theorems at concrete inputs.
use bufferpool.Base.{◌≡◌, refl, [], ◌∷◌, ok, some, true, false, arith, ◌>>=◌}
use bufferpool.Base.Int.{pos}
use bufferpool.Slice.{nil, view}
use bufferpool.Bucket.Ops.{push, pop}
use bufferpool.Segment.Window.{IsSegment, fresh, stored_in, fresh-IsSegment, stored_in-IsSegment}
use bufferpool.ShardCredit.{allows_retain, evaluate_retain, update_at_least}
use bufferpool.Shard.{Shard, new_shard, try_get, try_retain, update_credit_at_least}
use bufferpool.Shard.Counters.{record_retain, zero_counters}
use bufferpool.Shard.Inv.{IsShard, Gets, ShardTrims, try_get-Gets, shard_trim_bounded-ShardTrims}
use bufferpool.Shard.Reach.{here, after, gets, Reach-IsShard}
use bufferpool.Shard.Retain.{Retains, try_retain-Retains}

abbrev fresh_shard : Shard
fresh_shard = record {
  bucket = record {
    segments = [];
    retained_buffers = 0;
    retained_bytes = 0;
    slot_limit = 4;
    segment_slot_limit = 2;
  };
  counters = zero_counters;
  credit = record { generation = 0; target_buffers = 0; target_bytes = 0 };
}

fresh_lem : new_shard (pos 4) (some (pos 2)) ≡ ok fresh_shard
unfolding new_shard
fresh_lem = refl

-- One retained buffer of 64 bytes, under a credit of 2 buffers and 100 bytes.
abbrev busy : Shard
busy = record {
  bucket = record {
    segments = record { slots = view 300 0 64 ∷ nil ∷ []; count = 1 } ∷ [];
    retained_buffers = 1;
    retained_bytes = 64;
    slot_limit = 4;
    segment_slot_limit = 2;
  };
  counters = record zero_counters {
    puts = 1;
    returned_bytes = 64;
    retains = 1;
    retained_bytes = 64;
    current_retained_buffers = 1;
    current_retained_bytes = 64;
  };
  credit = record { generation = 1; target_buffers = 2; target_bytes = 100 };
}

busy_lem :
    (do
      s ← new_shard (pos 4) (some (pos 2))
      (s1, _) ← update_credit_at_least s (record { target_buffers = 2; target_bytes = 100 }) 1
      (s2, m, _) ← try_retain s1 (λ a. 7) (view 300 9 64)
      ok s2)
    ≡ ok busy
unfolding new_shard update_credit_at_least try_retain push allows_retain record_retain
    evaluate_retain update_at_least
busy_lem = refl

one_slot-IsSegment : IsSegment (record { slots = view 300 0 64 ∷ nil ∷ []; count = 1 })
unfolding stored_in fresh
one_slot-IsSegment =
    stored_in-IsSegment (fresh 2) (view 300 9 64) (fresh-IsSegment 2) (omega arith) (omega arith)

busy-IsShard : IsShard busy
busy-IsShard = record {
  bucket = record {
    chain = (one_slot-IsSegment, omega arith, tt);
    counted = refl;
    bytes = refl;
    bounded = omega arith;
    segment_slots = omega arith;
    fits = omega arith;
  };
  buffers = refl;
  bytes = refl;
  small = omega arith;
  credit_fits = omega arith;
  get_outcomes = refl;
  put_outcomes = refl;
}

try_get-Gets_example : Gets busy 50
try_get-Gets_example = try_get-Gets busy 50 busy-IsShard

try_retain-Retains_example : Retains busy (λ a. 7) (view 400 3 16) true
try_retain-Retains_example = try_retain-Retains busy (λ a. 7) (view 400 3 16) true busy-IsShard

shard_trim_bounded-ShardTrims_example : ShardTrims busy 3 64
shard_trim_bounded-ShardTrims_example = shard_trim_bounded-ShardTrims busy 3 64 busy-IsShard

abbrev after_miss : Shard
after_miss = record fresh_shard {
  counters = record zero_counters { gets = 1; requested_bytes = 50; misses = 1 };
}

miss_lem :
    try_get fresh_shard 50 ≡ ok (after_miss, record { buffer = nil; hit = false; capacity = 0 })
unfolding try_get pop
miss_lem = refl

Reach-IsShard_example : IsShard after_miss
Reach-IsShard_example =
    Reach-IsShard 4 2 fresh_shard after_miss (omega arith) (omega arith) (omega arith) fresh_lem (
      after fresh_shard after_miss here
        (gets 50 (record { buffer = nil; hit = false; capacity = 0 }) miss_lem))
