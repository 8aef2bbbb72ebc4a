-- ===== src/Base/Words.antt =====
-- uint64 values as native numbers: the largest value, and the saturating helpers of pool_classes.go.
use Prim.Native.Nat.{ℕ, ◌+◌, ◌-◌, ◌*◌, ◌/◌, ◌^◌, ◌≤◌, min}
use mathlib.Core.Path.{◌≡◌}
use mathlib.Core.Bool.{◌||◌}
use native.Mathlib.Omega.{arith}
use bufferpool.Base.Tests.{ltb, ◌==◌, if◌then◌else◌}

-- `^uint64(0)`
abbrev pub max_uint64 : ℕ
max_uint64 = 2 ^ 64 - 1

-- poolSaturatingAdd
unfoldable pub saturating_add : ℕ → ℕ → ℕ
saturating_add left right = if ltb (max_uint64 - right) left then max_uint64 else left + right

-- poolSaturatingProduct
unfoldable pub saturating_product : ℕ → ℕ → ℕ
saturating_product left right =
    if left == 0 || right == 0
    then 0
    else if ltb (max_uint64 / right) left
    then max_uint64
    else left * right

-- poolMinUint64
unfoldable pub min_uint64 : ℕ → ℕ → ℕ
min_uint64 left right = if ltb left right then left else right

pub saturating_add_lem : (a b : ℕ) → b ≤ max_uint64 → saturating_add a b ≡ min (a + b) max_uint64
unfolding saturating_add
saturating_add_lem a b h = ground arith

pub min_uint64_lem : (a b : ℕ) → min_uint64 a b ≡ min a b
unfolding min_uint64
min_uint64_lem a b = ground arith
