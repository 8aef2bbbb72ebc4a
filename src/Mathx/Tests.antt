-- ===== src/Mathx/Tests.antt =====
-- The powers of two at concrete values.
use bufferpool.Base.{◌+◌, ◌^◌, ◌≡◌, refl, err}
use bufferpool.Panic.{mathx_next_power_overflow}
use bufferpool.Mathx.{next_power_of_two}

past_the_last : next_power_of_two (2 ^ 63 + 1) ≡ err mathx_next_power_overflow
unfolding next_power_of_two
past_the_last = refl
