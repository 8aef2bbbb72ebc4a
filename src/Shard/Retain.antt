-- ===== src/Shard/Retain.antt =====
-- tryRetain on a valid shard: every branch, the credit, and the memory.
use bufferpool.Base.{
  ◌≤◌, ◌<◌, ◌≡◌, refl, ap, ◌⊎◌, inl, inr, Bool, true, false, Bool-cases, ◌∷◌, ok, arith,
  if◌then◌else◌, length,
}
use native.Mathlib.Decide.{dec_lt}
use bufferpool.Slice.{
  Slice, capacity-reslice_empty, capacity, reslice_empty, Memory, zero_buffer_capacity,
}
use bufferpool.Segment.Window.{contents, total}
use bufferpool.Bucket.{is_full}
use bufferpool.Bucket.Ops.Push.{refuses, overflows, stores, push-Pushes}
use bufferpool.ShardCredit.{
  Decision, accept, reject_invalid_capacity, reject_no_credit, reject_inconsistent_credit,
  reject_buffer_credit_exhausted, reject_byte_credit_exhausted, reject_byte_accounting_overflow,
  not_evaluated, evaluate_retain, allows_retain,
}
use bufferpool.ShardCredit.Decide.{evaluate_retain-accept}
use bufferpool.Shard.{Shard, credit_usage, try_retain_with_options}
use bufferpool.Shard.Counters.{record_put, record_drop}
use bufferpool.Shard.Gauges.{retain_counters, record_retain_lem}
use bufferpool.Shard.Inv.{IsShard}

-- The credit's answer for a buffer.
abbrev pub decide : Shard → Slice → Decision
decide s x = evaluate_retain s.credit (credit_usage s) (capacity x)

-- The shard with a put that was dropped counted, and nothing else changed.
abbrev pub after_drop : Shard → Slice → Shard
after_drop s x = record s {
  counters = record_drop (record_put s.counters (capacity x)) (capacity x);
}

pub data Retains (s : Shard) (m : Memory) (x : Slice) (zero_before_retain : Bool) : Type 0 where
  -- The credit refuses the buffer or the bucket is full: only counters change.
  drops :
      (allows_retain (decide s x) ≡ false) ⊎ (s.bucket.retained_buffers ≡ s.bucket.slot_limit)
      → try_retain_with_options s m x zero_before_retain
        ≡ ok (
          after_drop s x,
          m,
          record { capacity = capacity x; retained = false; credit_decision = decide s x },
        )
      → IsShard (after_drop s x)
      → Retains s m x zero_before_retain
  -- The buffer is on top of the bucket, within both targets, and its memory is zeroed if asked.
  retains :
      (s' : Shard)
      → decide s x ≡ accept
      → s.bucket.retained_buffers < s.bucket.slot_limit
      → try_retain_with_options s m x zero_before_retain
        ≡ ok (
          s',
          (if zero_before_retain then zero_buffer_capacity x m else m),
          record { capacity = capacity x; retained = true; credit_decision = accept },
        )
      → contents s'.bucket.segments ≡ reslice_empty x ∷ contents s.bucket.segments
      → s'.bucket.retained_buffers ≤ s.credit.target_buffers
      → s'.bucket.retained_bytes ≤ s.credit.target_bytes
      → s'.credit ≡ s.credit
      → IsShard s'
      → Retains s m x zero_before_retain

decide-cases : (d : Decision) → (d ≡ accept) ⊎ (allows_retain d ≡ false)
unfolding allows_retain
decide-cases accept = inl refl
decide-cases reject_invalid_capacity = inr refl
decide-cases reject_no_credit = inr refl
decide-cases reject_inconsistent_credit = inr refl
decide-cases reject_buffer_credit_exhausted = inr refl
decide-cases reject_byte_credit_exhausted = inr refl
decide-cases reject_byte_accounting_overflow = inr refl
decide-cases not_evaluated = inr refl

after_drop-IsShard : (s : Shard) (x : Slice) → IsShard s → IsShard (after_drop s x)
unfolding record_drop record_put
after_drop-IsShard s x v = record {
  bucket = v.bucket;
  buffers = v.buffers;
  bytes = v.bytes;
  small = v.small;
  credit_fits = v.credit_fits;
  get_outcomes = v.get_outcomes;
  put_outcomes = omega (arith, v.put_outcomes);
}

drops_lem :
    (s : Shard) (m : Memory) (x : Slice) (z : Bool)
    → IsShard s
    → (allows_retain (decide s x) ≡ false) ⊎ (s.bucket.retained_buffers ≡ s.bucket.slot_limit)
    → try_retain_with_options s m x z
      ≡ ok (
        after_drop s x,
        m,
        record { capacity = capacity x; retained = false; credit_decision = decide s x },
      )
unfolding try_retain_with_options is_full
drops_lem s m x z v (inl e) = rw e
drops_lem s m x z v (inr e) = elim (Bool-cases (allows_retain (decide s x))) [
  | inl a ↦ ground (arith, a, e, v.bucket.bounded)
  | inr a ↦ rw a
]

retains_lem :
    (s : Shard) (m : Memory) (x : Slice) (z : Bool)
    → IsShard s
    → decide s x ≡ accept
    → s.bucket.retained_buffers < s.bucket.slot_limit
    → Retains s m x z
unfolding try_retain_with_options is_full record_put allows_retain
retains_lem s m x z v e room =
    let (usable, some_bytes, buffers_fit, bytes_fit) =
      (evaluate_retain-accept s.credit (credit_usage s) (capacity x) v.credit_fits).0 e in
    elim (push-Pushes s.bucket x v.bucket (omega (arith, v.credit_fits, bytes_fit))) [
      | refuses why same ↦ absurd (ground (arith, why))
      | overflows r p over fails ↦ absurd (omega (arith, over, bytes_fit, v.bytes, v.credit_fits))
      | stores b r p fit pushed held same v' ↦
          let counted = record_put s.counters (capacity x) in
          let kept =
            record_retain_lem counted (capacity x)
              (omega (arith, v.buffers, v.bucket.bounded, v.small)) (omega (arith, v.bytes, fit)) in
          let more = ap length held in
          let more_bytes = ap total held in
          let s' : Shard = record s {
            bucket = b;
            counters = retain_counters counted (capacity x);
          } in
          retains s' e room (ground (arith, e, pushed, kept, v.bucket.bounded, some_bytes, room))
            held (omega (arith, more, buffers_fit, v.buffers, v.bucket.counted, v'.counted))
            (omega (
              arith,
              more_bytes,
              bytes_fit,
              v.bytes,
              v.bucket.bytes,
              v'.bytes,
              capacity-reslice_empty x,
            ))
            refl
            record {
              bucket = v';
              buffers = omega (arith, more, v.buffers, v.bucket.counted, v'.counted);
              bytes =
                  omega (
                    arith,
                    more_bytes,
                    v.bytes,
                    v.bucket.bytes,
                    v'.bytes,
                    capacity-reslice_empty x,
                  );
              small = omega (arith, same, v.small);
              credit_fits = v.credit_fits;
              get_outcomes = v.get_outcomes;
              put_outcomes = omega (arith, v.put_outcomes);
            }
    ]

-- On a valid shard tryRetain never panics. It drops a buffer that the credit refuses or that finds
-- the bucket full, and then changes only the counters of puts and drops; any other buffer it stores on top of the bucket,
-- cut to length 0, within both targets of the credit, which stays as it is, its whole capacity zeroed if the options ask for
-- it. The invariant holds after it, with the gauges of the new bucket.
pub try_retain-Retains :
    (s : Shard) (m : Memory) (x : Slice) (zero_before_retain : Bool)
    → IsShard s
    → Retains s m x zero_before_retain
try_retain-Retains s m x z v = elim (dec_lt s.bucket.retained_buffers s.bucket.slot_limit) [
  | no full ↦ dropped (inr (omega (arith, v.bucket.bounded)))
  | yes room ↦ elim (decide-cases (decide s x)) [
    | inl e ↦ retains_lem s m x z v e room
    | inr e ↦ dropped (inl e)
  ]
]
  where
    dropped :
        (allows_retain (decide s x) ≡ false) ⊎ (s.bucket.retained_buffers ≡ s.bucket.slot_limit)
        → Retains s m x z
    dropped why = drops why (drops_lem s m x z v why) (after_drop-IsShard s x v)
