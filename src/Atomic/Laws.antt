-- ===== src/Atomic/Laws.antt =====
-- What counters and gauges guarantee.
use bufferpool.Base.{ℕ, ◌+◌, ◌-◌, ◌^◌, ◌≤◌, ◌<◌, ◌≡◌, ◌↔◌, true, ok, err, arith, max_uint64}
use bufferpool.Panic.{gauge_overflow, gauge_underflow}
use bufferpool.Atomic.{counter_add, new_counter_delta, gauge_add, gauge_sub}

-- The delta of two samples recovers what was added between them, also across a wrap, which it
-- reports, if less than 2^64 was added in all.
pub new_counter_delta-counter_add :
    (c a b : ℕ)
    → c < 2 ^ 64
    → a + b < 2 ^ 64
    → ((new_counter_delta c (counter_add (counter_add c a) b)).value ≡ a + b)
      × (((new_counter_delta c (counter_add (counter_add c a) b)).wrapped ≡ true)
          ↔ (2 ^ 64 ≤ c + (a + b)))
unfolding new_counter_delta
new_counter_delta-counter_add c a b hc h = (omega arith, ((λ e. ground arith), λ e. ground arith))

pub gauge_add_lem : (g delta : ℕ) → g + delta ≤ max_uint64 → gauge_add g delta ≡ ok (g + delta)
unfolding gauge_add
gauge_add_lem g delta h = ground arith

pub gauge_sub_lem : (g delta : ℕ) → delta ≤ g → gauge_sub g delta ≡ ok (g - delta)
unfolding gauge_sub
gauge_sub_lem g delta h = ground arith

-- A gauge holds the true sum or difference exactly when it is a uint64: otherwise it panics.
pub gauge_exact :
    (g delta : ℕ)
    → g ≤ max_uint64
    → delta ≤ max_uint64
    → (g + delta ≤ max_uint64 → gauge_add g delta ≡ ok (g + delta))
      × (max_uint64 < g + delta → gauge_add g delta ≡ err gauge_overflow)
      × (delta ≤ g → gauge_sub g delta ≡ ok (g - delta))
      × (g < delta → gauge_sub g delta ≡ err gauge_underflow)
unfolding gauge_add gauge_sub
gauge_exact g delta hg hd =
    ((λ h. ground arith), (λ h. ground arith), (λ h. ground arith), λ h. ground arith)
