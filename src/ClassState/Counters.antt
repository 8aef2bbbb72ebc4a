-- ===== src/ClassState/Counters.antt =====
-- class_counters.go: what a class counts over its shards. The counters wrap.
use bufferpool.Base.{ℕ, ◌&&◌, ◌==◌, if◌then◌else◌}
use bufferpool.Size.{Size}
use bufferpool.Atomic.{counter_add, counter_inc}
use bufferpool.Bucket.{TrimResult}
use bufferpool.Shard.{GetResult, RetainResult}

pub record ClassCounters : Type 0 where
  pub gets : ℕ
  pub requested_bytes : ℕ
  pub hits : ℕ
  pub hit_bytes : ℕ
  pub misses : ℕ
  pub allocations : ℕ
  pub allocated_bytes : ℕ
  pub puts : ℕ
  pub returned_bytes : ℕ
  pub retains : ℕ
  pub retained_bytes : ℕ
  pub drops : ℕ
  pub dropped_bytes : ℕ
  pub trim_operations : ℕ
  pub trimmed_buffers : ℕ
  pub trimmed_bytes : ℕ
  pub clear_operations : ℕ
  pub cleared_buffers : ℕ
  pub cleared_bytes : ℕ

abbrev pub zero_class_counters : ClassCounters
zero_class_counters = record {
  gets = 0;
  requested_bytes = 0;
  hits = 0;
  hit_bytes = 0;
  misses = 0;
  allocations = 0;
  allocated_bytes = 0;
  puts = 0;
  returned_bytes = 0;
  retains = 0;
  retained_bytes = 0;
  drops = 0;
  dropped_bytes = 0;
  trim_operations = 0;
  trimmed_buffers = 0;
  trimmed_bytes = 0;
  clear_operations = 0;
  cleared_buffers = 0;
  cleared_bytes = 0;
}

abbrev pub count_get : ClassCounters → Size → ClassCounters
count_get c requested = record c {
  gets = counter_inc c.gets;
  requested_bytes = counter_add c.requested_bytes requested;
}

abbrev pub count_hit : ClassCounters → ℕ → ClassCounters
count_hit c capacity = record c {
  hits = counter_inc c.hits;
  hit_bytes = counter_add c.hit_bytes capacity;
}

abbrev pub count_miss : ClassCounters → ClassCounters
count_miss c = record c { misses = counter_inc c.misses }

unfoldable pub record_get_result : ClassCounters → Size → GetResult → ClassCounters
record_get_result c requested result =
    if result.hit
    then count_hit (count_get c requested) result.capacity
    else count_miss (count_get c requested)

unfoldable pub count_allocation : ClassCounters → ℕ → ClassCounters
count_allocation c capacity = record c {
  allocations = counter_inc c.allocations;
  allocated_bytes = counter_add c.allocated_bytes capacity;
}

abbrev pub count_put : ClassCounters → ℕ → ClassCounters
count_put c capacity = record c {
  puts = counter_inc c.puts;
  returned_bytes = counter_add c.returned_bytes capacity;
}

abbrev pub count_retain : ClassCounters → ℕ → ClassCounters
count_retain c capacity = record c {
  retains = counter_inc c.retains;
  retained_bytes = counter_add c.retained_bytes capacity;
}

abbrev pub count_drop : ClassCounters → ℕ → ClassCounters
count_drop c capacity = record c {
  drops = counter_inc c.drops;
  dropped_bytes = counter_add c.dropped_bytes capacity;
}

unfoldable pub record_retain_result : ClassCounters → RetainResult → ClassCounters
record_retain_result c result =
    if result.retained
    then count_retain (count_put c result.capacity) result.capacity
    else count_drop (count_put c result.capacity) result.capacity

unfoldable pub record_rejected_put : ClassCounters → ℕ → ClassCounters
record_rejected_put c capacity = count_drop (count_put c capacity) capacity

unfoldable pub count_trim : ClassCounters → TrimResult → ClassCounters
count_trim c result =
    let counted : ClassCounters = record c { trim_operations = counter_inc c.trim_operations } in
    if result.removed_buffers == 0 && result.removed_bytes == 0 then counted else record counted {
      trimmed_buffers = counter_add counted.trimmed_buffers result.removed_buffers;
      trimmed_bytes = counter_add counted.trimmed_bytes result.removed_bytes;
    }

unfoldable pub record_clear_amount : ClassCounters → ℕ → ℕ → ClassCounters
record_clear_amount c removed_buffers removed_bytes =
    let counted : ClassCounters = record c { clear_operations = counter_inc c.clear_operations } in
    if removed_buffers == 0 && removed_bytes == 0 then counted else record counted {
      cleared_buffers = counter_add counted.cleared_buffers removed_buffers;
      cleared_bytes = counter_add counted.cleared_bytes removed_bytes;
    }

unfoldable pub count_clear : ClassCounters → TrimResult → ClassCounters
unfolding record_clear_amount
count_clear c result = record_clear_amount c result.removed_buffers result.removed_bytes
