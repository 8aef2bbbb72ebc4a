-- ===== src/Shard/Reach.antt =====
-- A shard from its creation on: the operations as steps, and what holds after any run of them.
use bufferpool.Base.{
  ℕ, ◌==◌, fail_if, >>=-eq-ok, ◌≤◌, ◌<◌, ◌≡◌, refl, ap, subst, sym, Bool, ok, some, Result, arith,
  max_uint64,
}
use bufferpool.Base.Int.{pos}
use bufferpool.Panic.{Panic, shard_invalid_allocation_capacity}
use bufferpool.Slice.{Slice, Memory}
use bufferpool.Bucket.{TrimResult, new_bucket}
use bufferpool.Bucket.Ops.Create.{empty_bucket, new_bucket-IsBucket}
use bufferpool.Bucket.Ops.Invariant.{IsBucket}
use bufferpool.Generation.{Generation, publish_at_least}
use bufferpool.ShardCredit.{Limit, update_at_least, validate, Credit}
use bufferpool.Shard.{
  Shard, GetResult, RetainResult, new_shard, try_get, record_shard_allocation,
  try_retain_with_options, shard_trim_bounded, shard_clear, update_credit_at_least,
}
use bufferpool.Shard.Counters.{record_allocation}
use bufferpool.Shard.Inv.{IsShard, try_get-Gets, shard_trim_bounded-ShardTrims, shard_clear-Drops}
use bufferpool.Shard.Retain.{after_drop, try_retain-Retains, drops, retains}

-- One operation that returns.
pub data Step (s s' : Shard) : Type 0 where
  gets : (requested : ℕ) (reply : GetResult) → try_get s requested ≡ ok (s', reply) → Step s s'
  allocates : (allocated : ℕ) → record_shard_allocation s allocated ≡ ok s' → Step s s'
  puts :
      (m m' : Memory) (x : Slice) (z : Bool) (reply : RetainResult)
      → try_retain_with_options s m x z ≡ ok (s', m', reply)
      → Step s s'
  trims :
      (max_buffers max_bytes : ℕ) (report : TrimResult)
      → shard_trim_bounded s (pos max_buffers) max_bytes ≡ ok (s', report)
      → Step s s'
  clears : (report : TrimResult) → shard_clear s ≡ ok (s', report) → Step s s'
  credits :
      (limit : Limit) (minimum published : Generation)
      → limit.target_bytes ≤ max_uint64
      → update_credit_at_least s limit minimum ≡ ok (s', published)
      → Step s s'

pub data Reach (s : Shard) : Shard → Type 0 where
  here : Reach s s
  after : (t u : Shard) → Reach s t → Step t u → Reach s u

same_ok : {s s' : Shard} → ◌≡◌ {A = Result Panic Shard} (ok s) (ok s') → IsShard s → IsShard s'
same_ok {s} {s'} e v = let same : s ≡ s' = cc in subst IsShard same v

by_result :
    {A : Type 0} {s s' : Shard} {a a' : A} {operation : Result Panic (Shard × A)}
    → operation ≡ ok (s, a)
    → operation ≡ ok (s', a')
    → IsShard s
    → IsShard s'
by_result {A} {s} {s'} e e' v = let same : s ≡ s' = cc in subst IsShard same v

allocation_keeps :
    (s s' : Shard) (n : ℕ) → IsShard s → record_shard_allocation s n ≡ ok s' → IsShard s'
unfolding record_shard_allocation record_allocation
allocation_keeps s s' n v e =
    let (u, passed, returned) =
      >>=-eq-ok (fail_if (n == 0) shard_invalid_allocation_capacity)
        (λ _. ok (record s { counters = record_allocation s.counters n })) e in
    same_ok returned record {
      bucket = v.bucket;
      buffers = v.buffers;
      bytes = v.bytes;
      small = v.small;
      credit_fits = v.credit_fits;
      get_outcomes = v.get_outcomes;
      put_outcomes = v.put_outcomes;
    }

credit_targets :
    (c c' : Credit) (limit : Limit) (minimum published : Generation)
    → update_at_least c limit minimum ≡ ok (c', published)
    → c'.target_bytes ≡ limit.target_bytes
unfolding update_at_least
credit_targets c c' limit minimum published e =
    let (u, passed, rest) = >>=-eq-ok (validate limit) _ e in
    let (g, made, stored) = >>=-eq-ok (publish_at_least minimum c.generation) _ rest in
    let pair : ◌≡◌ {A = Credit × Generation}
        (
          record {
            generation = g;
            target_buffers = limit.target_buffers;
            target_bytes = limit.target_bytes;
          },
          g,
        )
        (c', published) =
      cc in
    ap (λ q. q.0.target_bytes) (sym pair)

credit_keeps :
    (s s' : Shard) (limit : Limit) (minimum published : Generation)
    → IsShard s
    → limit.target_bytes ≤ max_uint64
    → update_credit_at_least s limit minimum ≡ ok (s', published)
    → IsShard s'
unfolding update_credit_at_least
credit_keeps s s' limit minimum published v fits e =
    let (p, updated, returned) = >>=-eq-ok (update_at_least s.credit limit minimum) _ e in
    let targets = credit_targets s.credit p.0 limit minimum p.1 updated in
    by_result {s = record s { credit = p.0 }} refl returned record {
      bucket = v.bucket;
      buffers = v.buffers;
      bytes = v.bytes;
      small = v.small;
      credit_fits = omega (arith, targets, fits);
      get_outcomes = v.get_outcomes;
      put_outcomes = v.put_outcomes;
    }

pub step-IsShard : (s s' : Shard) → IsShard s → Step s s' → IsShard s'
step-IsShard s s' v (gets requested reply e) =
    let g = try_get-Gets s requested v in by_result g.result e g.valid
step-IsShard s s' v (allocates n e) = allocation_keeps s s' n v e
step-IsShard s s' v (puts m m' x z reply e) = elim (try_retain-Retains s m x z v) [
  | drops why r v' ↦ let same : after_drop s x ≡ s' = cc in subst IsShard same v'
  | retains t d room r held b1 b2 credit v' ↦ let same : t ≡ s' = cc in subst IsShard same v'
]
step-IsShard s s' v (trims n b report e) =
    let d = (shard_trim_bounded-ShardTrims s n b v).drops in by_result d.result e d.valid
step-IsShard s s' v (clears report e) =
    let d = (shard_clear-Drops s v).0 in by_result d.result e d.valid
step-IsShard s s' v (credits limit minimum published fits e) =
    credit_keeps s s' limit minimum published v fits e

pub created-IsShard :
    (slots segment_slots : ℕ) (s : Shard)
    → 0 < segment_slots
    → segment_slots ≤ slots
    → slots < max_uint64
    → new_shard (pos slots) (some (pos segment_slots)) ≡ ok s
    → IsShard s
unfolding new_shard
created-IsShard slots segment_slots s p le small e =
    let b = new_bucket-IsBucket slots segment_slots p le in
    let (bucket, made, returned) =
      >>=-eq-ok (new_bucket (pos slots) (some (pos segment_slots))) _ e in
    let same : empty_bucket slots segment_slots ≡ bucket = cc in
    same_ok returned record {
      bucket = subst IsBucket same b.2;
      buffers = ap (λ b. b.retained_buffers) same;
      bytes = ap (λ b. b.retained_bytes) same;
      small = omega (arith, small, ap (λ b. b.slot_limit) same);
      credit_fits = omega arith;
      get_outcomes = refl;
      put_outcomes = refl;
    }

-- Whatever runs on a shard after its creation with legal limits, its bucket is valid, within its slot
-- limit, and both gauges agree with it; every get was a hit or a miss and every put was retained or
-- dropped. (Targets are uint64s and the slot limit is less than the largest.)
pub Reach-IsShard :
    (slots segment_slots : ℕ) (s s' : Shard)
    → 0 < segment_slots
    → segment_slots ≤ slots
    → slots < max_uint64
    → new_shard (pos slots) (some (pos segment_slots)) ≡ ok s
    → Reach s s'
    → IsShard s'
Reach-IsShard slots segment_slots s s' p le small made here =
    created-IsShard slots segment_slots s p le small made
Reach-IsShard slots segment_slots s s' p le small made (after t u r step) =
    step-IsShard t u (Reach-IsShard slots segment_slots s t p le small made r) step
