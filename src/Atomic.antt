-- ===== src/Atomic.antt =====
-- internal/atomicx/counters.go: uint64 counters, which wrap, and gauges, which panic instead.
-- A counter or a gauge is its value; the swap of an undisturbed operation succeeds at once.
pub mod Laws
use bufferpool.Base.{
  ℕ, ◌+◌, ◌-◌, ◌%◌, ◌^◌, Bool, ltb, ◌==◌, if◌then◌else◌, Result, ok, err, max_uint64,
}
use bufferpool.Panic.{Panic, gauge_overflow, gauge_underflow}

-- Uint64Counter.Add
abbrev pub counter_add : ℕ → ℕ → ℕ
counter_add c delta = (c + delta) % 2 ^ 64

-- Uint64Counter.Inc
abbrev pub counter_inc : ℕ → ℕ
counter_inc c = counter_add c 1

pub record CounterDelta : Type 0 where
  pub previous : ℕ
  pub current : ℕ
  pub value : ℕ
  pub wrapped : Bool

unfoldable pub new_counter_delta : ℕ → ℕ → CounterDelta
new_counter_delta previous current = record {
  previous = previous;
  current = current;
  value = (current + 2 ^ 64 - previous) % 2 ^ 64;
  wrapped = ltb current previous;
}

-- Uint64Gauge.Add
unfoldable pub gauge_add : ℕ → ℕ → Result Panic ℕ
gauge_add g delta =
    if delta == 0
    then ok g
    else if ltb (max_uint64 - delta) g
    then err gauge_overflow
    else ok (g + delta)

-- Uint64Gauge.Sub
unfoldable pub gauge_sub : ℕ → ℕ → Result Panic ℕ
gauge_sub g delta =
    if delta == 0 then ok g else if ltb g delta then err gauge_underflow else ok (g - delta)

-- Uint64Gauge.Inc
unfoldable pub gauge_inc : ℕ → Result Panic ℕ
unfolding gauge_add
gauge_inc g = gauge_add g 1

-- Uint64Gauge.Dec
unfoldable pub gauge_dec : ℕ → Result Panic ℕ
unfolding gauge_sub
gauge_dec g = gauge_sub g 1
