-- ===== src/Shard/Gauges.antt =====
-- The counter updates that move a gauge, where the gauge allows them.
use bufferpool.Base.{
  ℕ, ◌+◌, ◌-◌, ◌≤◌, ◌≡◌, refl, ok, arith, max_uint64, ◌==◌, ◌&&◌, Bool-cases, inl, inr,
}
use bufferpool.Atomic.{counter_add, counter_inc, gauge_inc, gauge_dec, gauge_sub}
use bufferpool.Atomic.Laws.{gauge_add_lem, gauge_sub_lem}
use bufferpool.Bucket.{TrimResult}
use bufferpool.Shard.Counters.{Counters, record_hit, record_retain, record_trim, record_clear}

abbrev pub hit_counters : Counters → ℕ → Counters
hit_counters c capacity = record c {
  hits = counter_inc c.hits;
  hit_bytes = counter_add c.hit_bytes capacity;
  current_retained_buffers = c.current_retained_buffers - 1;
  current_retained_bytes = c.current_retained_bytes - capacity;
}

pub record_hit_lem :
    (c : Counters) (capacity : ℕ)
    → 1 ≤ c.current_retained_buffers
    → capacity ≤ c.current_retained_bytes
    → record_hit c capacity ≡ ok (hit_counters c capacity)
unfolding record_hit gauge_dec
record_hit_lem c capacity one h =
    rw (gauge_sub_lem c.current_retained_buffers 1 one)
      (rw (gauge_sub_lem c.current_retained_bytes capacity h))

abbrev pub retain_counters : Counters → ℕ → Counters
retain_counters c capacity = record c {
  retains = counter_inc c.retains;
  retained_bytes = counter_add c.retained_bytes capacity;
  current_retained_buffers = c.current_retained_buffers + 1;
  current_retained_bytes = c.current_retained_bytes + capacity;
}

pub record_retain_lem :
    (c : Counters) (capacity : ℕ)
    → c.current_retained_buffers + 1 ≤ max_uint64
    → c.current_retained_bytes + capacity ≤ max_uint64
    → record_retain c capacity ≡ ok (retain_counters c capacity)
unfolding record_retain gauge_inc
record_retain_lem c capacity one h =
    rw (gauge_add_lem c.current_retained_buffers 1 one)
      (rw (gauge_add_lem c.current_retained_bytes capacity h))

-- What a removal leaves of the counters, whatever it was.
pub record Removed (c c' : Counters) (result : TrimResult) : Type 0 where
  pub buffers : c'.current_retained_buffers ≡ c.current_retained_buffers - result.removed_buffers
  pub bytes : c'.current_retained_bytes ≡ c.current_retained_bytes - result.removed_bytes
  pub gets : (c'.hits ≡ c.hits) × (c'.misses ≡ c.misses) × (c'.gets ≡ c.gets)
  pub puts : (c'.retains ≡ c.retains) × (c'.drops ≡ c.drops) × (c'.puts ≡ c.puts)

module _ (c : Counters) (result : TrimResult)
    (buffers : result.removed_buffers ≤ c.current_retained_buffers)
    (bytes : result.removed_bytes ≤ c.current_retained_bytes) where
  less_buffers :
      gauge_sub c.current_retained_buffers result.removed_buffers
      ≡ ok (c.current_retained_buffers - result.removed_buffers)
  less_buffers = gauge_sub_lem c.current_retained_buffers result.removed_buffers buffers

  less_bytes :
      gauge_sub c.current_retained_bytes result.removed_bytes
      ≡ ok (c.current_retained_bytes - result.removed_bytes)
  less_bytes = gauge_sub_lem c.current_retained_bytes result.removed_bytes bytes

  pub record_trim_lem : (c' : Counters) × (record_trim c result ≡ ok c') × Removed c c' result
  unfolding record_trim
  record_trim_lem = elim (Bool-cases (result.removed_buffers == 0 && result.removed_bytes == 0)) [
    | inl e ↦ (
      record c { trim_operations = counter_inc c.trim_operations },
      ground (arith, e),
      record {
        buffers = ground (arith, e);
        bytes = ground (arith, e);
        gets = (refl, refl, refl);
        puts = (refl, refl, refl);
      },
    )
    | inr e ↦ (
      record c {
        trim_operations = counter_inc c.trim_operations;
        trimmed_buffers = counter_add c.trimmed_buffers result.removed_buffers;
        trimmed_bytes = counter_add c.trimmed_bytes result.removed_bytes;
        current_retained_buffers = c.current_retained_buffers - result.removed_buffers;
        current_retained_bytes = c.current_retained_bytes - result.removed_bytes;
      },
      rw e (rw less_buffers (rw less_bytes)),
      record { buffers = refl; bytes = refl; gets = (refl, refl, refl); puts = (refl, refl, refl) },
    )
  ]

  pub record_clear_lem : (c' : Counters) × (record_clear c result ≡ ok c') × Removed c c' result
  unfolding record_clear
  record_clear_lem = elim (Bool-cases (result.removed_buffers == 0 && result.removed_bytes == 0)) [
    | inl e ↦ (
      record c { clear_operations = counter_inc c.clear_operations },
      ground (arith, e),
      record {
        buffers = ground (arith, e);
        bytes = ground (arith, e);
        gets = (refl, refl, refl);
        puts = (refl, refl, refl);
      },
    )
    | inr e ↦ (
      record c {
        clear_operations = counter_inc c.clear_operations;
        cleared_buffers = counter_add c.cleared_buffers result.removed_buffers;
        cleared_bytes = counter_add c.cleared_bytes result.removed_bytes;
        current_retained_buffers = c.current_retained_buffers - result.removed_buffers;
        current_retained_bytes = c.current_retained_bytes - result.removed_bytes;
      },
      rw e (rw less_buffers (rw less_bytes)),
      record { buffers = refl; bytes = refl; gets = (refl, refl, refl); puts = (refl, refl, refl) },
    )
  ]
