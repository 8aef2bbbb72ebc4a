-- ===== src/Shard.antt =====
-- shard.go: one shard, which guards a bucket by a mutex, counts, and asks its credit before it
-- retains. An operation runs under the lock, and is a function of the shard's state; the memory that
-- slices view is a state of its own, changed only where a retained buffer is cleared.
pub mod Counters
pub mod Gauges
pub mod Inv
pub mod Reach
pub mod Retain
mod Tests
use bufferpool.Base.{
  ℕ, Bool, true, false, not, ◌||◌, Option, ◌==◌, if◌then◌else◌, Result, ok, err, ◌>>=◌, ◌>>◌,
  fail_if, max_uint64,
}
use bufferpool.Base.Int.{ℤ}
use bufferpool.Panic.{Panic, shard_invalid_allocation_capacity}
use bufferpool.Size.{Size}
use bufferpool.Generation.{Generation}
use bufferpool.Slice.{Slice, nil, capacity, Memory, zero_buffer_capacity}
use bufferpool.Segment.{can_retain}
use bufferpool.Bucket.{Bucket, TrimResult, new_bucket, is_full}
use bufferpool.Bucket.Ops.{push, pop, trim_bounded, clear}
use bufferpool.ShardCredit
use bufferpool.ShardCredit.{
  Credit, Limit, Usage, Decision, evaluate_retain, allows_retain, update_at_least,
}
use Counters.{
  zero_counters, record_get, record_hit, record_miss, record_allocation, record_put, record_retain,
  record_drop, record_trim, record_clear,
}

pub record Shard : Type 0 where
  pub bucket : Bucket
  pub counters : Counters.Counters
  pub credit : Credit

unfoldable pub new_shard : ℤ → Option ℤ → Result Panic Shard
unfolding new_bucket
new_shard slot_limit segment_slot_limit = do
  bucket ← new_bucket slot_limit segment_slot_limit
  ok (record {
    bucket = bucket;
    counters = zero_counters;
    credit = record { generation = 0; target_buffers = 0; target_bytes = 0 };
  })

pub record GetResult : Type 0 where
  pub buffer : Slice
  pub hit : Bool
  pub capacity : ℕ

unfoldable pub try_get : Shard → Size → Result Panic (Shard × GetResult)
unfolding record_get record_hit record_miss
try_get s requested = do
  let counted = record_get s.counters requested
  (bucket, buffer, found) ← pop s.bucket
  if not found
      then ok (
        record s { bucket = bucket; counters = record_miss counted },
        record { buffer = nil; hit = false; capacity = 0 },
      )
      else do
        counters ← record_hit counted (capacity buffer)
        ok (
          record s { bucket = bucket; counters = counters },
          record { buffer = buffer; hit = true; capacity = capacity buffer },
        )

unfoldable pub record_shard_allocation : Shard → ℕ → Result Panic Shard
unfolding record_allocation
record_shard_allocation s allocated = do
  fail_if (allocated == 0) shard_invalid_allocation_capacity
  ok (record s { counters = record_allocation s.counters allocated })

pub record RetainResult : Type 0 where
  pub capacity : ℕ
  pub retained : Bool
  pub credit_decision : Decision

-- creditUsage
abbrev pub credit_usage : Shard → Usage
credit_usage s = record {
  retained_buffers = s.counters.current_retained_buffers;
  retained_bytes = s.counters.current_retained_bytes;
}

-- recordDrop, and the result of a buffer that is not kept
dropped : Shard → Memory → Slice → Decision → Shard × Memory × RetainResult
unfolding record_drop
dropped s m buffer decision = (
  record s { counters = record_drop s.counters (capacity buffer) },
  m,
  record { capacity = capacity buffer; retained = false; credit_decision = decision },
)

retain_admitted :
    Shard → Memory → Slice → Decision → Bool → Result Panic (Shard × Memory × RetainResult)
unfolding dropped record_retain
retain_admitted s m buffer decision zero_before_retain = do
  full ← is_full s.bucket
  if full || not (can_retain buffer) then ok (dropped s m buffer decision) else do
    let cleared : Memory = if zero_before_retain then zero_buffer_capacity buffer m else m
    (bucket, stored) ← push s.bucket buffer
    if not stored then ok (dropped (record s { bucket = bucket }) cleared buffer decision) else do
      counters ← record_retain s.counters (capacity buffer)
      ok (
        record s { bucket = bucket; counters = counters },
        cleared,
        record { capacity = capacity buffer; retained = true; credit_decision = decision },
      )

unfoldable pub try_retain_with_options :
    Shard → Memory → Slice → Bool → Result Panic (Shard × Memory × RetainResult)
unfolding record_put retain_admitted dropped
try_retain_with_options s m buffer zero_before_retain =
    let counted : Shard = record s { counters = record_put s.counters (capacity buffer) } in
    let decision = evaluate_retain counted.credit (credit_usage counted) (capacity buffer) in
    if not (allows_retain decision)
    then ok (dropped counted m buffer decision)
    else retain_admitted counted m buffer decision zero_before_retain

-- tryRetain: the zero options
unfoldable pub try_retain : Shard → Memory → Slice → Result Panic (Shard × Memory × RetainResult)
unfolding try_retain_with_options
try_retain s m buffer = try_retain_with_options s m buffer false

unfoldable pub shard_trim_bounded : Shard → ℤ → ℕ → Result Panic (Shard × TrimResult)
unfolding record_trim
shard_trim_bounded s max_buffers max_bytes = do
  (bucket, result) ← trim_bounded s.bucket max_buffers max_bytes
  counters ← record_trim s.counters result
  ok (record s { bucket = bucket; counters = counters }, result)

unfoldable pub shard_trim : Shard → ℤ → Result Panic (Shard × TrimResult)
unfolding shard_trim_bounded
shard_trim s max_buffers = shard_trim_bounded s max_buffers max_uint64

unfoldable pub shard_clear : Shard → Result Panic (Shard × TrimResult)
unfolding record_clear
shard_clear s = do
  (bucket, result) ← clear s.bucket
  counters ← record_clear s.counters result
  ok (record s { bucket = bucket; counters = counters }, result)

unfoldable pub update_credit_at_least :
    Shard → Limit → Generation → Result Panic (Shard × Generation)
update_credit_at_least s limit minimum = do
  (credit, published) ← update_at_least s.credit limit minimum
  ok (record s { credit = credit }, published)
