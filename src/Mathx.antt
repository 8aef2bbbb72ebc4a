-- ===== src/Mathx.antt =====
-- internal/mathx (pow2.go, clamp.go): the integer helpers of the other parts.
pub mod Laws
mod Tests
use Prim.Native.Nat.{bit_and}
use bufferpool.Base.{
  ℕ, zero, suc, ◌-◌, ◌/◌, ◌^◌, Bool, not, ◌&&◌, ltb, ◌==◌, if◌then◌else◌, Result, ◌>>◌, ok, err,
  fail_if,
}
use bufferpool.Base.Int.{ℤ, lt_int}
use bufferpool.Panic.{
  Panic, mathx_next_power_zero, mathx_next_power_overflow, mathx_clamp_invalid_range,
}

-- bits.Len64: the bits of a number. A uint64 has 64 at most, which is the fuel.
abbrev pub bits : ℕ → ℕ → ℕ
bits zero n = 0
bits (suc fuel) n = let rest = bits fuel (n / 2) in if n == 0 then 0 else suc rest

abbrev pub len64 : ℕ → ℕ
len64 n = bits 64 n

abbrev pub max_power_of_two_uint64 : ℕ
max_power_of_two_uint64 = 2 ^ 63

unfoldable pub next_power_of_two : ℕ → Result Panic ℕ
next_power_of_two value =
    fail_if (value == 0) mathx_next_power_zero
    >> fail_if (ltb max_power_of_two_uint64 value) mathx_next_power_overflow
    >> ok (2 ^ len64 (value - 1))

-- Clamp at int.
unfoldable pub clamp : ℤ → ℤ → ℤ → Result Panic ℤ
clamp value min_value max_value =
    fail_if (lt_int max_value min_value) mathx_clamp_invalid_range
    >> ok (
        if lt_int value min_value
        then min_value
        else if lt_int max_value value
        then max_value
        else value)
