-- ===== src/Shard/Counters.antt =====
-- shard_counters.go: what one shard counts. Counters wrap; the two gauges of what is retained panic
-- where they would leave the uint64s.
use bufferpool.Base.{ℕ, ◌&&◌, ◌==◌, if◌then◌else◌, Result, ok, ◌>>=◌}
use bufferpool.Panic.{Panic}
use bufferpool.Atomic.{counter_add, counter_inc, gauge_add, gauge_sub, gauge_inc, gauge_dec}
use bufferpool.Bucket.{TrimResult}

pub record Counters : Type 0 where
  pub gets : ℕ
  pub requested_bytes : ℕ
  pub hits : ℕ
  pub hit_bytes : ℕ
  pub misses : ℕ
  pub allocations : ℕ
  pub allocated_bytes : ℕ
  pub puts : ℕ
  pub returned_bytes : ℕ
  pub retains : ℕ
  pub retained_bytes : ℕ
  pub drops : ℕ
  pub dropped_bytes : ℕ
  pub trim_operations : ℕ
  pub trimmed_buffers : ℕ
  pub trimmed_bytes : ℕ
  pub clear_operations : ℕ
  pub cleared_buffers : ℕ
  pub cleared_bytes : ℕ
  pub current_retained_buffers : ℕ
  pub current_retained_bytes : ℕ

abbrev pub zero_counters : Counters
zero_counters = record {
  gets = 0;
  requested_bytes = 0;
  hits = 0;
  hit_bytes = 0;
  misses = 0;
  allocations = 0;
  allocated_bytes = 0;
  puts = 0;
  returned_bytes = 0;
  retains = 0;
  retained_bytes = 0;
  drops = 0;
  dropped_bytes = 0;
  trim_operations = 0;
  trimmed_buffers = 0;
  trimmed_bytes = 0;
  clear_operations = 0;
  cleared_buffers = 0;
  cleared_bytes = 0;
  current_retained_buffers = 0;
  current_retained_bytes = 0;
}

unfoldable pub record_get : Counters → ℕ → Counters
record_get c requested_size = record c {
  gets = counter_inc c.gets;
  requested_bytes = counter_add c.requested_bytes requested_size;
}

unfoldable pub record_hit : Counters → ℕ → Result Panic Counters
unfolding gauge_dec gauge_sub
record_hit c capacity = do
  buffers ← gauge_dec c.current_retained_buffers
  bytes ← gauge_sub c.current_retained_bytes capacity
  ok (record c {
    hits = counter_inc c.hits;
    hit_bytes = counter_add c.hit_bytes capacity;
    current_retained_buffers = buffers;
    current_retained_bytes = bytes;
  })

unfoldable pub record_miss : Counters → Counters
record_miss c = record c { misses = counter_inc c.misses }

unfoldable pub record_allocation : Counters → ℕ → Counters
record_allocation c capacity = record c {
  allocations = counter_inc c.allocations;
  allocated_bytes = counter_add c.allocated_bytes capacity;
}

unfoldable pub record_put : Counters → ℕ → Counters
record_put c capacity = record c {
  puts = counter_inc c.puts;
  returned_bytes = counter_add c.returned_bytes capacity;
}

unfoldable pub record_retain : Counters → ℕ → Result Panic Counters
unfolding gauge_inc gauge_add
record_retain c capacity = do
  buffers ← gauge_inc c.current_retained_buffers
  bytes ← gauge_add c.current_retained_bytes capacity
  ok (record c {
    retains = counter_inc c.retains;
    retained_bytes = counter_add c.retained_bytes capacity;
    current_retained_buffers = buffers;
    current_retained_bytes = bytes;
  })

unfoldable pub record_drop : Counters → ℕ → Counters
record_drop c capacity = record c {
  drops = counter_inc c.drops;
  dropped_bytes = counter_add c.dropped_bytes capacity;
}

unfoldable pub record_trim : Counters → TrimResult → Result Panic Counters
unfolding gauge_sub
record_trim c result =
    let counted : Counters = record c { trim_operations = counter_inc c.trim_operations } in
    if result.removed_buffers == 0 && result.removed_bytes == 0 then ok counted else do
      buffers ← gauge_sub c.current_retained_buffers result.removed_buffers
      bytes ← gauge_sub c.current_retained_bytes result.removed_bytes
      ok (record counted {
        trimmed_buffers = counter_add c.trimmed_buffers result.removed_buffers;
        trimmed_bytes = counter_add c.trimmed_bytes result.removed_bytes;
        current_retained_buffers = buffers;
        current_retained_bytes = bytes;
      })

unfoldable pub record_clear : Counters → TrimResult → Result Panic Counters
unfolding gauge_sub
record_clear c result =
    let counted : Counters = record c { clear_operations = counter_inc c.clear_operations } in
    if result.removed_buffers == 0 && result.removed_bytes == 0 then ok counted else do
      buffers ← gauge_sub c.current_retained_buffers result.removed_buffers
      bytes ← gauge_sub c.current_retained_bytes result.removed_bytes
      ok (record counted {
        cleared_buffers = counter_add c.cleared_buffers result.removed_buffers;
        cleared_bytes = counter_add c.cleared_bytes result.removed_bytes;
        current_retained_buffers = buffers;
        current_retained_bytes = bytes;
      })
