-- ===== src/Bucket/Ops/Tests.antt =====
-- The bucket at small inputs: runs, and the theorems at concrete inputs.
use bufferpool.Base.{ℕ, zero, suc, ◌≤◌, ◌≡◌, refl, [], ◌∷◌, ok, some, arith, ◌>>=◌, get_or}
use bufferpool.Base.Int.{pos}
use bufferpool.Slice.{nil, view}
use bufferpool.Segment.Window.{IsSegment}
use bufferpool.Bucket.{Bucket, new_bucket}
use bufferpool.Bucket.Ops.{push, trim_bounded}
use bufferpool.Bucket.Ops.Invariant.{IsBucket}
use bufferpool.Bucket.Ops.Push.{Pushes, push-Pushes}
use bufferpool.Bucket.Ops.Pop.{Pops, pop-Pops}
use bufferpool.Bucket.Ops.TrimBounded.{Trims, trim_bounded-Trims, reported}

-- A full segment of two slots under a segment with one buffer.
abbrev three : Bucket
three = record {
  segments =
      record { slots = view 300 0 64 ∷ nil ∷ []; count = 1 }
      ∷ record { slots = view 100 0 16 ∷ view 200 0 32 ∷ []; count = 2 }
      ∷ [];
  retained_buffers = 3;
  retained_bytes = 112;
  slot_limit = 4;
  segment_slot_limit = 2;
}

half_full-IsSegment : IsSegment (record { slots = view 300 0 64 ∷ nil ∷ []; count = 1 })
half_full-IsSegment = record { count_le = omega arith; occupied = omega arith; free = free }
  where
    free : (i : ℕ) → 1 ≤ i → get_or (view 300 0 64 ∷ nil ∷ []) i nil ≡ nil
    free zero h = absurd (omega arith)
    free (suc zero) h = refl
    free (suc (suc i)) h = refl

both_slots-IsSegment : IsSegment (record { slots = view 100 0 16 ∷ view 200 0 32 ∷ []; count = 2 })
both_slots-IsSegment = record { count_le = omega arith; occupied = omega arith; free = free }
  where
    free : (i : ℕ) → 2 ≤ i → get_or (view 100 0 16 ∷ view 200 0 32 ∷ []) i nil ≡ nil
    free zero h = absurd (omega arith)
    free (suc zero) h = absurd (omega arith)
    free (suc (suc i)) h = refl

three-IsBucket : IsBucket three
three-IsBucket = record {
  chain = (half_full-IsSegment, omega arith, (both_slots-IsSegment, omega arith, tt));
  counted = refl;
  bytes = refl;
  bounded = omega arith;
  segment_slots = omega arith;
  fits = omega arith;
}

push-Pushes_example : Pushes three (view 400 5 128)
push-Pushes_example = push-Pushes three (view 400 5 128) three-IsBucket (omega arith)

pop-Pops_example : Pops three
pop-Pops_example = pop-Pops three three-IsBucket

trim_bounded-Trims_example : Trims three 2 100
trim_bounded-Trims_example = trim_bounded-Trims three 2 100 three-IsBucket

-- The third buffer of two-slot segments goes to a new segment, and comes back first.
push-three :
    (do
      b ← new_bucket (pos 4) (some (pos 2))
      (b1, _) ← push b (view 100 7 16)
      (b2, _) ← push b1 (view 200 0 32)
      (b3, _) ← push b2 (view 300 0 64)
      ok b3)
    ≡ ok three
unfolding new_bucket push
push-three = refl

abbrev two : Bucket
two = record {
  segments = record { slots = view 100 0 16 ∷ view 200 0 32 ∷ []; count = 2 } ∷ [];
  retained_buffers = 2;
  retained_bytes = 48;
  slot_limit = 4;
  segment_slot_limit = 2;
}

-- The second buffer would pass the byte limit.
trim_three : trim_bounded three (pos 2) 80 ≡ ok (two, reported 1 64 two)
unfolding trim_bounded reported
trim_three = refl
