-- ===== src/ShardCredit/Tests.antt =====
-- Credit decisions at concrete values.
use bufferpool.Base.{◌+◌, ◌≤◌, ◌<◌, ◌≡◌, ◌↔◌, refl, arith}
use bufferpool.ShardCredit.{
  Credit, Limit, Usage, accept, reject_byte_credit_exhausted, evaluate_retain,
}
use bufferpool.ShardCredit.Decide.{IsUsable, evaluate_retain-accept}

abbrev credit : Credit
credit = record { generation = 3; target_buffers = 4; target_bytes = 4096 }

abbrev usage : Usage
usage = record { retained_buffers = 3; retained_bytes = 3072 }

abbrev limit : Limit
limit = record { target_buffers = 2; target_bytes = 2048 }

evaluate_retain-accept_example :
    (evaluate_retain credit usage 1024 ≡ accept)
    ↔ (IsUsable credit × (0 < 1024) × (3 + 1 ≤ 4) × (3072 + 1024 ≤ 4096))
evaluate_retain-accept_example = evaluate_retain-accept credit usage 1024 (omega arith)

one_byte_more : evaluate_retain credit usage 1025 ≡ reject_byte_credit_exhausted
unfolding evaluate_retain
one_byte_more = refl
