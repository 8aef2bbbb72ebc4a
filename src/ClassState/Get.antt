-- ===== src/ClassState/Get.antt =====
-- class_state.go: gets from a class, from one shard or with fallback to the next ones.
use Prim.Native.Nat.{bit_and}
use bufferpool.Base.{
  ℕ, zero, suc, ◌+◌, ◌-◌, ◌%◌, ◌&&◌, ◌||◌, ltb, leb, ◌==◌, if◌then◌else◌, length, Option, none,
  some, Result, ok, ◌>>=◌, ◌>>◌, fail_if,
}
use bufferpool.Base.Int.{ℤ, pos, is_not_positive, magnitude}
use bufferpool.Panic.{Panic, class_state_request_exceeds_class_size}
use bufferpool.Size.{Size}
use bufferpool.ClassTable.{SizeClass}
use bufferpool.Shard.{GetResult, try_get}
use bufferpool.ShardSelection.{select_shard_index}
use bufferpool.ClassState.Counters.{record_get_result}
use bufferpool.ClassState.{ClassState, must_shard_at, with_shard}

pub record ClassGetResult : Type 0 where
  pub class : SizeClass
  pub shard_index : ℕ
  pub shard : GetResult

-- tryGetShard
unfoldable pub try_get_shard : ClassState → ℤ → Size → Result Panic (ClassState × ClassGetResult)
unfolding must_shard_at try_get
try_get_shard s index requested = do
  fail_if (ltb s.class.size requested) class_state_request_exceeds_class_size
  (place, shard) ← must_shard_at s index
  (updated, result) ← try_get shard requested
  ok (with_shard s place updated, record { class = s.class; shard_index = place; shard = result })

-- `s.counters.recordGetResult(requestedSize, result.Shard)`
unfoldable pub counted_get : Size → ClassState × ClassGetResult → ClassState × ClassGetResult
unfolding record_get_result
counted_get requested (s, result) =
    (record s { counters = record_get_result s.counters requested result.shard }, result)

-- tryGet
unfoldable pub class_try_get : ClassState → ℤ → Size → Result Panic (ClassState × ClassGetResult)
unfolding try_get_shard counted_get
class_try_get s index requested =
    try_get_shard s index requested >>= λ got. ok (counted_get requested got)

-- boundedFallbackShardCount
unfoldable pub bounded_fallback_shard_count : ℤ → ℕ → ℕ
bounded_fallback_shard_count configured shard_count =
    if is_not_positive configured || leb shard_count 1
    then 0
    else if ltb (shard_count - 1) (magnitude configured)
    then shard_count - 1
    else magnitude configured

-- fallbackShardIndex
unfoldable pub fallback_shard_index : ℕ → ℕ → ℕ → ℕ
fallback_shard_index primary offset shard_count =
    if ltb 0 shard_count && bit_and shard_count (shard_count - 1) == 0
    then bit_and (primary + offset) (shard_count - 1)
    else (primary + offset) % shard_count

-- The loop over the fallback shards, `left` of them from `offset` on: the state, and the first hit.
unfoldable pub fallback_gets :
    ℕ → ℕ → ClassState → ℕ → Size → Result Panic (ClassState × Option ClassGetResult)
unfolding fallback_shard_index try_get_shard
fallback_gets zero offset s primary requested = ok (s, none)
fallback_gets (suc left) offset s primary requested =
    try_get_shard s (pos (fallback_shard_index primary offset (length s.shards))) requested
    >>= λ got.
        if got.1.shard.hit
        then ok (got.0, some got.1)
        else fallback_gets left (offset + 1) got.0 primary requested

-- tryGetSelectedWithFallback
unfoldable pub try_get_selected_with_fallback :
    Option (ℤ → Result Panic ℤ) → ClassState → Size → ℤ → Result Panic (ClassState × ClassGetResult)
unfolding select_shard_index try_get_shard bounded_fallback_shard_count fallback_gets counted_get
try_get_selected_with_fallback selector s requested fallback_shards =
    select_shard_index selector (pos (length s.shards)) >>= λ primary.
    try_get_shard s (pos primary) requested >>= λ got.
    if got.1.shard.hit
    then ok (counted_get requested got)
    else (fallback_gets (bounded_fallback_shard_count fallback_shards (length s.shards)) 1 got.0
          primary requested
        >>= λ tried. elim tried.1 [
          | some hit ↦ ok (counted_get requested (tried.0, hit))
          | none ↦ ok (counted_get requested (tried.0, got.1))
        ])
