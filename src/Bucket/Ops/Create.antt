-- ===== src/Bucket/Ops/Create.antt =====
-- newBucket: the limits that it accepts, and the bucket that it makes.
use bufferpool.Base.{
  ℕ, min, zero, suc, ◌≤◌, ◌<◌, ◌≡◌, refl, true, false, Option, some, none, [], ok, err, arith, ◌⊎◌,
}
use bufferpool.Base.Int.{ℤ, pos, is_not_positive, magnitude}
use bufferpool.Panic.{bucket_invalid_slot_limit, bucket_invalid_segment_slot_limit}
use bufferpool.Bucket.{Bucket, new_bucket, default_segment_slots}
use bufferpool.Bucket.Ops.Invariant.{IsBucket}

abbrev pub empty_bucket : ℕ → ℕ → Bucket
empty_bucket slots segment_slots = record {
  segments = [];
  retained_buffers = 0;
  retained_bytes = 0;
  slot_limit = slots;
  segment_slot_limit = segment_slots;
}

empty_bucket-IsBucket :
    (slots segment_slots : ℕ) → 0 < segment_slots → IsBucket (empty_bucket slots segment_slots)
empty_bucket-IsBucket slots segment_slots h = record {
  chain = tt;
  counted = refl;
  bytes = refl;
  bounded = omega arith;
  segment_slots = h;
  fits = omega arith;
}

-- newBucket accepts a positive slot limit, and with it a positive segment limit that is no larger: it
-- makes an empty valid bucket with these limits. Without a segment limit it takes the smaller of the
-- slot limit and the default.
pub new_bucket-IsBucket :
    (slots segment_slots : ℕ)
    → 0 < segment_slots
    → segment_slots ≤ slots
    → (new_bucket (pos slots) (some (pos segment_slots)) ≡ ok (empty_bucket slots segment_slots))
      × (new_bucket (pos slots) none ≡ ok (empty_bucket slots (min slots default_segment_slots)))
      × IsBucket (empty_bucket slots segment_slots)
      × IsBucket (empty_bucket slots (min slots default_segment_slots))
unfolding new_bucket
new_bucket-IsBucket slots zero p h = absurd (omega arith)
new_bucket-IsBucket zero (suc m) p h = absurd (omega arith)
new_bucket-IsBucket (suc n) (suc m) p h = (
  ground arith,
  ground arith,
  empty_bucket-IsBucket (suc n) (suc m) p,
  empty_bucket-IsBucket (suc n) (min (suc n) 8) (omega arith),
)

-- newBucket panics for a slot limit that is not positive, and otherwise for a segment limit that is
-- not positive or is larger than the slot limit.
pub new_bucket_panics :
    (slots segment_slots : ℤ)
    → (is_not_positive slots ≡ true
        → (limit : Option ℤ) → new_bucket slots limit ≡ err bucket_invalid_slot_limit)
      × (is_not_positive slots ≡ false
          → (is_not_positive segment_slots ≡ true) ⊎ (magnitude slots < magnitude segment_slots)
          → new_bucket slots (some segment_slots) ≡ err bucket_invalid_segment_slot_limit)
unfolding new_bucket
new_bucket_panics slots segment_slots = ((λ bad limit. rw bad), λ good bad. ground arith)
