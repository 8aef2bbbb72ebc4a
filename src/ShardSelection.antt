-- ===== src/ShardSelection.antt =====
-- shard_selection.go: the choice of a shard, and the selectors whose choice does not depend on the
-- goroutine or on chance. A shard count is an int with a sign.
use bufferpool.Base.{
  ℕ, ◌+◌, ◌%◌, ◌^◌, ◌||◌, leb, Option, none, some, Result, ok, err, ◌>>=◌, ◌>>◌, fail_if,
}
use bufferpool.Base.Int.{ℤ, pos, is_not_positive, is_negative, magnitude}
use bufferpool.Panic.{
  Panic, shard_selector_nil, shard_selector_invalid_shard_count, shard_selector_invalid_index,
}

abbrev pub validate_shard_count : ℤ → Result Panic (Unit {0})
validate_shard_count shard_count =
    fail_if (is_not_positive shard_count) shard_selector_invalid_shard_count

unfoldable pub select_single : ℤ → Result Panic ℤ
select_single shard_count = validate_shard_count shard_count >> ok (pos 0)

-- The state is `next`; `s.next.Add(1) - 1` is its value before.
unfoldable pub select_round_robin : ℕ → ℤ → Result Panic (ℕ × ℤ)
select_round_robin next shard_count =
    validate_shard_count shard_count >> ok ((next + 1) % 2 ^ 64, pos (next % magnitude shard_count))

-- selectShardIndex: `none` is the nil selector, and the choice of another one is an argument.
unfoldable pub select_shard_index : Option (ℤ → Result Panic ℤ) → ℤ → Result Panic ℕ
select_shard_index none shard_count = err shard_selector_nil
select_shard_index (some select) shard_count =
    validate_shard_count shard_count
    >> (select shard_count >>= λ index.
        fail_if (is_negative index || leb (magnitude shard_count) (magnitude index))
          shard_selector_invalid_index
        >> ok (magnitude index))
