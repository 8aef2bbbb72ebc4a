-- ===== src/Shard/Inv.antt =====
-- The shard's invariant, kept by every operation; no operation on a valid shard panics.
use bufferpool.Base.{
  ℕ, ◌+◌, ◌%◌, ◌^◌, ◌≤◌, ◌<◌, ◌≡◌, refl, ap, ◌⊎◌, inl, inr, true, false, List, [], ◌∷◌, ◌++◌, ok,
  arith, max_uint64, length, length-append,
}
use bufferpool.Base.{Result, sym, append_nil}
use bufferpool.Panic.{Panic}
use bufferpool.Base.Int.{pos}
use bufferpool.Slice.{Slice, nil, capacity, reslice_empty, capacity-reslice_empty}
use bufferpool.Segment.Window.{contents, total, total-append}
use bufferpool.Bucket.{Bucket, TrimResult}
use bufferpool.Bucket.Ops.Invariant.{IsBucket}
use bufferpool.Bucket.Ops.Pop.{empty, takes, pop-Pops}
use bufferpool.Bucket.Ops.TrimBounded.{trim_bounded-Trims, reported}
use bufferpool.Bucket.Ops.Clear.{clear_lem, emptied}
use bufferpool.Shard.{Shard, GetResult, try_get, shard_trim_bounded, shard_clear}
use bufferpool.Shard.Gauges.{
  hit_counters, record_hit_lem, Removed, record_trim_lem, record_clear_lem,
}
use bufferpool.Shard.Counters.{Counters, record_get, record_miss}

pub record IsShard (s : Shard) : Type 0 where
  pub bucket : IsBucket s.bucket
  -- the gauges agree with the bucket
  pub buffers : s.counters.current_retained_buffers ≡ s.bucket.retained_buffers
  pub bytes : s.counters.current_retained_bytes ≡ s.bucket.retained_bytes
  -- limits and targets are machine integers
  pub small : s.bucket.slot_limit < max_uint64
  pub credit_fits : s.credit.target_bytes ≤ max_uint64
  -- every get is a hit or a miss, and every put is retained or dropped (counters wrap)
  pub get_outcomes : (s.counters.hits + s.counters.misses) % 2 ^ 64 ≡ s.counters.gets
  pub put_outcomes : (s.counters.retains + s.counters.drops) % 2 ^ 64 ≡ s.counters.puts

-- What tryGet does to a valid shard: a miss on an empty bucket, and otherwise its newest buffer.
pub record Gets (s : Shard) (requested : ℕ) : Type 0 where
  pub after : Shard
  pub reply : GetResult
  pub result : try_get s requested ≡ ok (after, reply)
  pub valid : IsShard after
  pub outcome :
      ((contents s.bucket.segments ≡ [])
        × (contents after.bucket.segments ≡ [])
        × (reply ≡ record { buffer = nil; hit = false; capacity = 0 }))
      ⊎ ((x : Slice) × (contents s.bucket.segments ≡ x ∷ contents after.bucket.segments)
          × (reply ≡ record { buffer = reslice_empty x; hit = true; capacity = capacity x }))

-- On a valid shard tryGet never panics, keeps the invariant with its accounting, and answers from the
-- top of the bucket.
pub try_get-Gets : (s : Shard) (requested : ℕ) → IsShard s → Gets s requested
unfolding try_get
try_get-Gets s requested v = elim (pop-Pops s.bucket v.bucket) [
  | empty none_held popped ↦
      let counted = record_get s.counters requested in
      record {
        after = record s { counters = record_miss counted };
        reply = record { buffer = nil; hit = false; capacity = 0 };
        result = rw popped;
        valid = record {
          bucket = v.bucket;
          buffers = v.buffers;
          bytes = v.bytes;
          small = v.small;
          credit_fits = v.credit_fits;
          get_outcomes = omega (arith, v.get_outcomes);
          put_outcomes = v.put_outcomes;
        };
        outcome = inl (none_held, none_held, refl);
      }
  | takes b' x held positive popped peeked same v' ↦
      let counted = record_get s.counters requested in
      let one = ap length held in
      let bytes = ap total held in
      record {
        after = record s { bucket = b'; counters = hit_counters counted (capacity x) };
        reply = record { buffer = reslice_empty x; hit = true; capacity = capacity x };
        result = rw popped (
            rw (capacity-reslice_empty x) (
              rw
                (record_hit_lem counted (capacity x) (omega (arith, one)) (omega (arith, bytes)))));
        valid = record {
          bucket = v';
          buffers = omega (arith, one);
          bytes = omega (arith, bytes);
          small = omega (arith, same);
          credit_fits = v.credit_fits;
          get_outcomes = omega (arith, v.get_outcomes);
          put_outcomes = v.put_outcomes;
        };
        outcome = inr (x, held, refl);
      }
]

-- What removes the newest buffers of a valid shard: the rest, and what it reports.
pub record Drops (s : Shard) (operation : Result Panic (Shard × TrimResult)) : Type 0 where
  pub after : Shard
  pub dropped : List Slice
  pub result : operation ≡ ok (after, reported (length dropped) (total dropped) after.bucket)
  pub split : contents s.bucket.segments ≡ dropped ++ contents after.bucket.segments
  pub buffers :
      after.counters.current_retained_buffers + length dropped ≡ s.counters.current_retained_buffers
  pub bytes :
      after.counters.current_retained_bytes + total dropped ≡ s.counters.current_retained_bytes
  pub valid : IsShard after

-- A valid bucket that is left when the newest buffers of a valid shard went.
module _ (s : Shard) (b : Bucket) (dropped : List Slice) (v : IsShard s) (v' : IsBucket b)
    (split : contents s.bucket.segments ≡ dropped ++ contents b.segments)
    (same : b.slot_limit ≡ s.bucket.slot_limit) where
  fewer : s.counters.current_retained_buffers ≡ length dropped + b.retained_buffers
  fewer = omega (
    arith,
    ap length split,
    length-append dropped (contents b.segments),
    v.buffers,
    v.bucket.counted,
    v'.counted,
  )

  fewer_bytes : s.counters.current_retained_bytes ≡ total dropped + b.retained_bytes
  fewer_bytes = omega (
    arith,
    ap total split,
    total-append dropped (contents b.segments),
    v.bytes,
    v.bucket.bytes,
    v'.bytes,
  )

  -- The gauges follow, whatever the operation counts besides.
  removed-Drops :
      (operation : Result Panic (Shard × TrimResult)) (c : Counters)
      → Removed s.counters c (reported (length dropped) (total dropped) b)
      → operation
        ≡ ok (record s { bucket = b; counters = c }, reported (length dropped) (total dropped) b)
      → Drops s operation
  unfolding reported
  removed-Drops operation c r e = record {
    after = record s { bucket = b; counters = c };
    dropped = dropped;
    result = e;
    split = split;
    buffers = omega (arith, r.buffers, fewer);
    bytes = omega (arith, r.bytes, fewer_bytes);
    valid = record {
      bucket = v';
      buffers = omega (arith, r.buffers, fewer);
      bytes = omega (arith, r.bytes, fewer_bytes);
      small = omega (arith, same);
      credit_fits = v.credit_fits;
      get_outcomes = omega (arith, v.get_outcomes, r.gets.0, r.gets.1, r.gets.2);
      put_outcomes = omega (arith, v.put_outcomes, r.puts.0, r.puts.1, r.puts.2);
    };
  }

-- A trim of a shard, within its limits and as far as they go.
pub record ShardTrims (s : Shard) (max_buffers max_bytes : ℕ) : Type 0 where
  pub drops : Drops s (shard_trim_bounded s (pos max_buffers) max_bytes)
  pub in_limit : length drops.dropped ≤ max_buffers
  pub in_budget : total drops.dropped ≤ max_bytes
  -- It stopped at the buffer limit, at an empty bucket, or at a buffer that passes the byte limit.
  pub maximal :
      (length drops.dropped ≡ max_buffers)
      ⊎ ((contents drops.after.bucket.segments ≡ [])
          ⊎ ((x : Slice) × (rest : List Slice) × (contents drops.after.bucket.segments ≡ x ∷ rest)
              × (max_bytes < total drops.dropped + capacity x)))

-- On a valid shard TrimBounded never panics for a limit that is not negative: it removes the newest
-- buffers within both limits, as many as they allow, takes exactly them off the gauges, reports them,
-- and keeps the invariant.
pub shard_trim_bounded-ShardTrims :
    (s : Shard) (max_buffers max_bytes : ℕ) → IsShard s → ShardTrims s max_buffers max_bytes
unfolding shard_trim_bounded reported removed-Drops
shard_trim_bounded-ShardTrims s max_buffers max_bytes v =
    let t = trim_bounded-Trims s.bucket max_buffers max_bytes v.bucket in
    let report = reported (length t.dropped) (total t.dropped) t.after in
    let counts =
      record_trim_lem s.counters report
        (omega (arith, fewer s t.after t.dropped v t.valid t.split t.same_limit))
        (omega (arith, fewer_bytes s t.after t.dropped v t.valid t.split t.same_limit)) in
    record {
      drops =
          removed-Drops s t.after t.dropped v t.valid t.split t.same_limit
            (shard_trim_bounded s (pos max_buffers) max_bytes) counts.0 counts.2
            (rw t.result (rw counts.1));
      in_limit = t.in_limit;
      in_budget = t.in_budget;
      maximal = t.maximal;
    }

-- On a valid shard Clear never panics: it removes everything the shard held, takes it off the gauges,
-- reports it, and leaves a valid shard with an empty bucket and both gauges at 0.
pub shard_clear-Drops :
    (s : Shard)
    → IsShard s
    → (d : Drops s (shard_clear s)) × (d.dropped ≡ contents s.bucket.segments)
      × (d.after.counters.current_retained_buffers ≡ 0)
      × (d.after.counters.current_retained_bytes ≡ 0)
unfolding shard_clear reported removed-Drops
shard_clear-Drops s v =
    let cleared = clear_lem s.bucket v.bucket in
    let everything = contents s.bucket.segments in
    let report = reported (length everything) (total everything) (emptied s.bucket) in
    let counts =
      record_clear_lem s.counters report (omega (arith, v.buffers, v.bucket.counted))
        (omega (arith, v.bytes, v.bucket.bytes)) in
    let removed = counts.2 in
    (
      removed-Drops s (emptied s.bucket) everything v cleared.1 (sym (append_nil everything)) refl
          (shard_clear s) counts.0 removed (rw cleared.0 (rw counts.1)),
      refl,
      omega (arith, removed.buffers, v.buffers, v.bucket.counted),
      omega (arith, removed.bytes, v.bytes, v.bucket.bytes),
    )
