-- ===== src/ClassState/Create.antt =====
-- newClassState, and what it needs.
use bufferpool.Base.{
  ℕ, zero, suc, ◌<◌, ◌≤◌, ◌≡◌, refl, true, false, All, replicate, length-replicate, some, ok, arith,
  max_uint64,
}
use bufferpool.Base.Int.{pos, is_not_positive}
use bufferpool.Size.{is_positive, is_zero}
use bufferpool.ClassTable.{SizeClass}
use bufferpool.Bucket.Ops.Create.{empty_bucket, new_bucket-IsBucket}
use bufferpool.ClassBudget.{new_class_budget}
use bufferpool.Shard.{Shard, new_shard}
use bufferpool.Shard.Counters.{zero_counters}
use bufferpool.Shard.Reach.{created-IsShard}
use bufferpool.ClassState.Counters.{zero_class_counters}
use bufferpool.ClassState.{ClassState, new_shards, new_class_state}
use bufferpool.ClassState.Inv.{IsClass, IsClassShard}

abbrev pub empty_shard : ℕ → ℕ → Shard
empty_shard slots segment_slots = record {
  bucket = empty_bucket slots segment_slots;
  counters = zero_counters;
  credit = record { generation = 0; target_buffers = 0; target_bytes = 0 };
}

new_shard-empty :
    (slots segment_slots : ℕ)
    → 0 < segment_slots
    → segment_slots ≤ slots
    → new_shard (pos slots) (some (pos segment_slots)) ≡ ok (empty_shard slots segment_slots)
unfolding new_shard
new_shard-empty slots segment_slots p le =
    rw ((new_bucket-IsBucket slots segment_slots p le).0) refl

new_shards-replicate :
    (n slots segment_slots : ℕ)
    → 0 < segment_slots
    → segment_slots ≤ slots
    → new_shards n (pos slots) (some (pos segment_slots))
      ≡ ok (replicate n (empty_shard slots segment_slots))
unfolding new_shards
new_shards-replicate zero slots segment_slots p le = refl
new_shards-replicate (suc n) slots segment_slots p le =
    rw (new_shard-empty slots segment_slots p le)
      (rw (new_shards-replicate n slots segment_slots p le) refl)

All-replicate : {A : Type 0} (P : A → Type 0) (n : ℕ) (a : A) → P a → All P (replicate n a)
All-replicate P zero a p = tt
All-replicate P (suc n) a p = (p, All-replicate P n a p)

-- For a class with a positive size, a positive number of shards and a segment limit from 1 to the slot
-- limit, newClassState does not panic: it makes that many empty shards without credit, and the result
-- is a valid class.
pub new_class_state-IsClass :
    (class : SizeClass) (shards slots segment_slots : ℕ)
    → 0 < class.size
    → 0 < shards
    → 0 < segment_slots
    → segment_slots ≤ slots
    → slots < max_uint64
    → (s : ClassState) × (new_class_state class (pos shards) (pos slots) (some (pos segment_slots))
        ≡ ok s)
      × (s.shards ≡ replicate shards (empty_shard slots segment_slots))
      × IsClass s
unfolding new_class_state new_class_budget
new_class_state-IsClass class shards slots segment_slots size some_shard p le small =
    let made = new_shards-replicate shards slots segment_slots p le in
    let positive : is_positive class.size ≡ true = ground arith in
    let count : is_not_positive (pos shards) ≡ false = positive_count shards some_shard in
    let nonzero : is_zero class.size ≡ false = ground arith in
    (
      record {
        class = class;
        counters = zero_class_counters;
        budget = record { class_size = class.size; generation = 0; assigned_bytes = 0 };
        shards = replicate shards (empty_shard slots segment_slots);
      },
      rw (positive, count, made, nonzero) refl,
      refl,
      record {
        some_size = size;
        some_shard = omega (arith, length-replicate shards (empty_shard slots segment_slots));
        budgeted = refl;
        shards =
            All-replicate (IsClassShard class.size) shards (empty_shard slots segment_slots)
              (record {
                valid =
                    created-IsShard slots segment_slots (empty_shard slots segment_slots) p le small
                      (new_shard-empty slots segment_slots p le);
                fits = tt;
              });
      },
    )
  where
    positive_count : (n : ℕ) → 0 < n → is_not_positive (pos n) ≡ false
    positive_count zero h = absurd (omega arith)
    positive_count (suc n) h = refl
