-- ===== src/Lease/Registry.antt =====
-- lease_registry*.go: the operations of a registry. A call of a pool is answered by an argument: what
-- GetSize returned, the class of a capacity, and how putOwnedBuffer ended.
use bufferpool.Base.{
  ℕ, Bool, not, ◌==◌, if◌then◌else◌, [], ◌∷◌, ◌++◌, Option, none, some, Result, ok, err, ◌>>=◌,
  ◌>>◌, length,
}
use bufferpool.Base.Int.{ℤ, pos, negsuc}
use bufferpool.Panic.{Panic}
use bufferpool.Size.{Size, ClassSize, is_zero}
use bufferpool.Slice.{Slice, capacity}
use bufferpool.Atomic.{counter_inc}
use bufferpool.Lifecycle.{LifecycleState, created, load, allows_work, perform, activate}
use bufferpool.Generation.{initial_generation, advance}
use bufferpool.Policy.{OwnershipPolicy}
use bufferpool.Lease.Counters.{OwnershipViolationKind, zero_counters, record_acquire}
use bufferpool.Lease.Ownership.{
  ConfigError, normalize_for_lease_registry, validate_for_lease_registry, buffer_backing_data,
}
use bufferpool.Lease.{
  Lease, LeaseRegistry, LeaseRecord, LeaseState, LeaseId, LeaseError, nil_pool, zero_size,
  negative_size, registry_closed, zero_capacity, unsupported_class, of_pool,
}

-- NewLeaseRegistry at an address. Activate moves a created lifecycle to active.
abbrev pub fresh_registry : ℕ → OwnershipPolicy → LifecycleState → LeaseRegistry
fresh_registry self ownership lifecycle = record {
  self = self;
  lifecycle = lifecycle;
  generation = initial_generation;
  ownership = ownership;
  next_id = 0;
  records = [];
  active = λ id. none;
  counters = zero_counters;
}

unfoldable pub new_lease_registry :
    ℕ → OwnershipPolicy → Result ConfigError (Result Panic LeaseRegistry)
unfolding normalize_for_lease_registry validate_for_lease_registry perform
new_lease_registry self config =
    let normalized = normalize_for_lease_registry config in
    validate_for_lease_registry normalized
    >> ok
        (perform activate created >>= λ activated. ok (fresh_registry self normalized activated.0))

unfoldable pub allows_acquire : LeaseRegistry → Result Panic Bool
unfolding load
allows_acquire r = load r.lifecycle >>= λ state. ok (allows_work state)

-- `&leaseRecord{…}`
abbrev pub new_record : LeaseId → ℕ → Slice → Size → ClassSize → LeaseRecord
new_record id pool buffer requested origin_class = record {
  id = id;
  pool = pool;
  state = LeaseState.active;
  buffer = buffer;
  base = buffer_backing_data buffer;
  requested_size = requested;
  origin_class = origin_class;
  acquired_capacity = capacity buffer;
  returned_capacity = 0;
  last_violation = OwnershipViolationKind.none;
}

-- `r.active[id] = record` and `delete(r.active, id)`
abbrev pub put_active : (LeaseId → Option ℕ) → LeaseId → Option ℕ → LeaseId → Option ℕ
put_active active id value other = if other == id then value else active other

-- The critical section of AcquireSize, its early return with the buffer that goes back to the pool.
pub record Acquired : Type 0 where
  pub registry : LeaseRegistry
  pub lease : Result LeaseError Lease
  pub put_back : Option Slice

abbrev pub refused : LeaseRegistry → LeaseError → Acquired
refused r e = record { registry = r; lease = err e; put_back = none }

unfoldable pub register : LeaseRegistry → LeaseRecord → Result Panic Acquired
unfolding allows_acquire record_acquire advance
register r made =
    let index = length r.records in
    allows_acquire r >>= λ open_now.
    if not open_now
    then ok (record { registry = r; lease = err registry_closed; put_back = some made.buffer })
    else (advance r.generation >>= λ generation. ok (record {
      registry = record r {
        records = r.records ++ made ∷ [];
        active = put_active r.active made.id (some index);
        counters = record_acquire r.counters made.requested_size made.acquired_capacity;
        generation = generation;
      };
      lease = ok (record {
        registry = some r.self;
        record_pointer = some (record { registry = r.self; index = index });
      });
      put_back = none;
    }))

-- From the answer of GetSize on.
unfoldable pub acquire_with :
    LeaseRegistry
    → ℕ
    → Size
    → (got : Result ℕ Slice) (origin_class_for : ℕ → Option ClassSize) → Result Panic Acquired
unfolding register
acquire_with r pool requested (err failure) origin_class_for = ok (refused r (of_pool failure))
acquire_with r pool requested (ok buffer) origin_class_for =
    if capacity buffer == 0
    then ok (refused r zero_capacity)
    else elim (origin_class_for (capacity buffer)) [
      | none ↦ ok (refused r unsupported_class)
      | some origin_class ↦
          let id = counter_inc r.next_id in
          register (record r { next_id = id }) (new_record id pool buffer requested origin_class)
    ]

-- AcquireSize: `none` is the nil pool.
unfoldable pub acquire_size :
    LeaseRegistry
    → Option ℕ
    → Size
    → (got : Result ℕ Slice) (origin_class_for : ℕ → Option ClassSize) → Result Panic Acquired
unfolding allows_acquire acquire_with
acquire_size r none requested got origin_class_for = ok (refused r nil_pool)
acquire_size r (some pool) requested got origin_class_for =
    if is_zero requested
    then ok (refused r zero_size)
    else (allows_acquire r >>= λ open_now.
        if not open_now
        then ok (refused r registry_closed)
        else acquire_with r pool requested got origin_class_for)

-- Acquire
unfoldable pub acquire :
    LeaseRegistry
    → Option ℕ
    → ℤ
    → (got : Result ℕ Slice) (origin_class_for : ℕ → Option ClassSize) → Result Panic Acquired
unfolding acquire_size
acquire r pool (negsuc n) got origin_class_for = ok (refused r negative_size)
acquire r pool (pos size) got origin_class_for =
    if size == 0 then ok (refused r zero_size) else acquire_size r pool size got origin_class_for
