-- ===== src/ShardCredit.antt =====
-- shard_credit.go: the retention credit of a shard, as a buffer target and a byte target.
-- Values are uint64s. The gauges are plain fields: each operation here runs undisturbed.
pub mod Decide
mod Tests
use bufferpool.Base.{
  ℕ, ◌+◌, ◌-◌, ◌≤◌, Bool, true, false, not, ◌&&◌, ◌||◌, ltb, leb, ◌==◌, if◌then◌else◌, Result, ok,
  err, ◌>>=◌, ◌>>◌, max_uint64,
}
use bufferpool.Panic.{Panic, shard_credit_partial_limit, shard_credit_inconsistent_limit}
use bufferpool.Generation.{Generation, no_generation, publish_at_least}

pub record Credit : Type 0 where
  pub generation : Generation
  pub target_buffers : ℕ
  pub target_bytes : ℕ

pub record Limit : Type 0 where
  pub target_buffers : ℕ
  pub target_bytes : ℕ

abbrev pub no_limit : Limit
no_limit = record { target_buffers = 0; target_bytes = 0 }

pub record Usage : Type 0 where
  pub retained_buffers : ℕ
  pub retained_bytes : ℕ

-- shardCreditRemaining and shardCreditAmount
pub record Amount : Type 0 where
  pub buffers : ℕ
  pub bytes : ℕ

pub data Decision : Type 0 where
  accept reject_invalid_capacity reject_no_credit reject_inconsistent_credit : Decision
  reject_buffer_credit_exhausted reject_byte_credit_exhausted : Decision
  reject_byte_accounting_overflow not_evaluated : Decision

unfoldable pub allows_retain : Decision → Bool
allows_retain accept = true
allows_retain other = false

unfoldable pub validate : Limit → Result Panic (Unit {0})
validate l =
    if l.target_buffers == 0 && l.target_bytes == 0
    then ok tt
    else if l.target_buffers == 0 || l.target_bytes == 0
    then err shard_credit_partial_limit
    else if ltb l.target_bytes l.target_buffers
    then err shard_credit_inconsistent_limit
    else ok tt

unfoldable pub new_limit : ℕ → ℕ → Result Panic Limit
unfolding validate
new_limit target_buffers target_bytes =
    let limit : Limit = record { target_buffers = target_buffers; target_bytes = target_bytes } in
    validate limit >> ok limit

abbrev pub limit_is_enabled : Limit → Bool
limit_is_enabled l = ltb 0 l.target_buffers && ltb 0 l.target_bytes

abbrev pub limit_is_zero : Limit → Bool
limit_is_zero l = l.target_buffers == 0 && l.target_bytes == 0

-- `(l.TargetBuffers == 0) != (l.TargetBytes == 0)`
abbrev pub limit_is_partial : Limit → Bool
limit_is_partial l =
    if l.target_buffers == 0 then not (l.target_bytes == 0) else l.target_bytes == 0

unfoldable pub limit_is_consistent : Limit → Bool
limit_is_consistent l =
    if limit_is_zero l
    then true
    else if limit_is_partial l
    then false
    else leb l.target_buffers l.target_bytes

unfoldable pub update_at_least : Credit → Limit → Generation → Result Panic (Credit × Generation)
unfolding validate publish_at_least
update_at_least c limit minimum = do
  validate limit
  published ← publish_at_least minimum c.generation
  ok (
    record {
      generation = published;
      target_buffers = limit.target_buffers;
      target_bytes = limit.target_bytes;
    },
    published,
  )

unfoldable pub update : Credit → Limit → Result Panic (Credit × Generation)
unfolding update_at_least
update c limit = update_at_least c limit no_generation

unfoldable pub disable : Credit → Result Panic (Credit × Generation)
unfolding update
disable c = update c no_limit

-- shardCreditSnapshot.Limit
abbrev pub credit_limit : Credit → Limit
credit_limit s = record { target_buffers = s.target_buffers; target_bytes = s.target_bytes }

unfoldable pub evaluate_retain : Credit → Usage → ℕ → Decision
unfolding limit_is_consistent
evaluate_retain s usage candidate_capacity =
    if candidate_capacity == 0
    then reject_invalid_capacity
    else if not (limit_is_consistent (credit_limit s))
    then reject_inconsistent_credit
    else if not (limit_is_enabled (credit_limit s))
    then reject_no_credit
    else if leb s.target_buffers usage.retained_buffers
    then reject_buffer_credit_exhausted
    else if leb s.target_bytes usage.retained_bytes
    then reject_byte_credit_exhausted
    else if ltb (max_uint64 - usage.retained_bytes) candidate_capacity
    then reject_byte_accounting_overflow
    else if ltb s.target_bytes (usage.retained_bytes + candidate_capacity)
    then reject_byte_credit_exhausted
    else accept

-- `if a < b { x = b - a }` over `var x uint64`
abbrev shortfall : ℕ → ℕ → ℕ
shortfall a b = if ltb a b then b - a else 0

unfoldable pub remaining : Credit → Usage → Amount
unfolding limit_is_consistent
remaining s usage =
    if not (limit_is_consistent (credit_limit s)) || not (limit_is_enabled (credit_limit s))
    then record { buffers = 0; bytes = 0 }
    else record {
      buffers = shortfall usage.retained_buffers s.target_buffers;
      bytes = shortfall usage.retained_bytes s.target_bytes;
    }

unfoldable pub overage : Credit → Usage → Amount
unfolding limit_is_consistent
overage s usage =
    if not (limit_is_consistent (credit_limit s)) || limit_is_zero (credit_limit s)
    then record { buffers = usage.retained_buffers; bytes = usage.retained_bytes }
    else record {
      buffers = shortfall s.target_buffers usage.retained_buffers;
      bytes = shortfall s.target_bytes usage.retained_bytes;
    }

unfoldable pub is_over_target : Credit → Usage → Bool
unfolding overage
is_over_target s usage = let over = overage s usage in not (over.buffers == 0 && over.bytes == 0)
