-- ===== src/Lease/Release.antt =====
-- lease_registry_release.go, lease_registry_lifecycle.go: releases and the end of a registry. A call of
-- putOwnedBuffer is answered by an argument.
use bufferpool.Base.{
  ℕ, Bool, true, false, not, ◌==◌, if◌then◌else◌, Option, none, some, Result, ok, err, ◌>>=◌,
  get_elem?, set,
}
use bufferpool.Panic.{Panic}
use bufferpool.Size.{Size, ClassSize}
use bufferpool.Slice.{Slice, nil, capacity}
use bufferpool.Lifecycle.{perform, begin_or_continue_close, mark_closed}
use bufferpool.Generation.{advance}
use bufferpool.Lease.Counters.{
  OwnershipViolationKind, LeaseCounters, record_release, count_invalid_release,
  count_return_attempt, count_return_success, count_return_failure,
}
use bufferpool.Lease.Ownership.{validate_lease_release, canonical_return_buffer}
use bufferpool.Lease.{
  Lease, LeaseRegistry, LeaseRecord, LeaseState, LeaseError, RecordPointer, foreign_registry,
  invalid_lease, double_release,
}
use bufferpool.Lease.Registry.{put_active}

-- `record.state == LeaseStateReleased`, and so on
abbrev pub is_released : LeaseState → Bool
is_released LeaseState.released = true
is_released _ = false

abbrev pub is_active : LeaseState → Bool
is_active LeaseState.active = true
is_active _ = false

-- A critical section that updates the counters and the generation.
abbrev pub count_with : (LeaseCounters → LeaseCounters) → LeaseRegistry → Result Panic LeaseRegistry
unfolding advance
count_with f r = advance r.generation >>= λ generation.
    ok (record r { counters = f r.counters; generation = generation })

unfoldable pub record_invalid_release :
    OwnershipViolationKind → LeaseRegistry → Result Panic LeaseRegistry
unfolding advance count_invalid_release
record_invalid_release kind r = count_with (λ c. count_invalid_release c kind) r

unfoldable pub record_return_attempt : LeaseRegistry → Result Panic LeaseRegistry
unfolding advance count_return_attempt
record_return_attempt r = count_with count_return_attempt r

unfoldable pub record_return_success : LeaseRegistry → Result Panic LeaseRegistry
unfolding advance count_return_success
record_return_success r = count_with count_return_success r

unfoldable pub record_return_failure : Bool → LeaseRegistry → Result Panic LeaseRegistry
unfolding advance count_return_failure
record_return_failure is_closed r = count_with (λ c. count_return_failure c is_closed) r

pub record OwnedReturn : Type 0 where
  pub buffer : Slice
  pub origin_class : ClassSize
  pub requested_size : Size
  pub acquired_capacity : ℕ
  pub returned_capacity : ℕ

-- What the first critical section of releaseRecord leaves to do.
pub data Section : Type 0 where
  rejected : OwnershipViolationKind → LeaseError → Section
  returns : ℕ → OwnedReturn → Section

abbrev pub released_record : LeaseRecord → Slice → LeaseRecord
released_record found buffer = record found {
  state = LeaseState.released;
  returned_capacity = capacity buffer;
}

unfoldable pub release_section :
    LeaseRegistry → ℕ → LeaseRecord → Slice → Result Panic (LeaseRegistry × Section)
unfolding validate_lease_release canonical_return_buffer record_release advance
release_section r index found buffer =
    let return_buffer = canonical_return_buffer found buffer r.ownership in
    if is_released found.state
    then ok (r, rejected OwnershipViolationKind.double_release double_release)
    else elim (validate_lease_release found buffer r.ownership) [
      | err refusal ↦ ok (
        record r {
          records = set r.records index (record found { last_violation = refusal.violation });
        },
        rejected refusal.violation refusal.error,
      )
      | ok passed ↦ advance r.generation >>= λ generation. ok (
        record r {
          records = set r.records index (released_record found return_buffer);
          active = put_active r.active found.id none;
          counters = record_release r.counters found.acquired_capacity (capacity return_buffer);
          generation = generation;
        },
        returns found.pool (record {
          buffer = return_buffer;
          origin_class = found.origin_class;
          requested_size = found.requested_size;
          acquired_capacity = found.acquired_capacity;
          returned_capacity = capacity return_buffer;
        }),
      )
    ]

abbrev pub same_registry : Option ℕ → ℕ → Bool
same_registry none self = false
same_registry (some registry) self = registry == self

-- The record that a pointer leads to, with its number, where it is the registry's.
abbrev pub find_record : LeaseRegistry → RecordPointer → Option (ℕ × LeaseRecord)
find_record r p =
    if not (p.registry == r.self)
    then none
    else elim (get_elem? r.records p.index) [ none ↦ none | some found ↦ some (p.index, found) ]

abbrev pub own_record : LeaseRegistry → Lease → Option (ℕ × LeaseRecord)
own_record r lease = elim lease.record_pointer [ none ↦ none | some p ↦ find_record r p ]

-- How putOwnedBuffer ended; the argument is `errors.Is(err, ErrClosed)`.
pub data PutOutcome : Type 0 where
  taken : PutOutcome
  failed : (is_closed : Bool) → PutOutcome

unfoldable pub record_put : PutOutcome → LeaseRegistry → Result Panic LeaseRegistry
unfolding record_return_success record_return_failure
record_put taken r = record_return_success r
record_put (failed is_closed) r = record_return_failure is_closed r

-- releaseRecord after its first critical section
unfoldable pub finish_release :
    (put_owned : ℕ → OwnedReturn → PutOutcome)
    → LeaseRegistry
    → Section
    → Result Panic (LeaseRegistry × Option LeaseError)
unfolding record_invalid_release record_return_attempt record_put
finish_release put_owned r (rejected violation failure) =
    record_invalid_release violation r >>= λ counted. ok (counted, some failure)
finish_release put_owned r (returns pool input) = record_return_attempt r >>= λ attempted.
    record_put (put_owned pool input) attempted >>= λ done. ok (done, none)

-- Release: a record that is not one of the registry's is like a nil record.
unfoldable pub release :
    (put_owned : ℕ → OwnedReturn → PutOutcome)
    → LeaseRegistry
    → Lease
    → Slice
    → Result Panic (LeaseRegistry × Option LeaseError)
unfolding record_invalid_release release_section finish_release
release put_owned r lease buffer =
    if not (same_registry lease.registry r.self)
    then (record_invalid_release OwnershipViolationKind.invalid_lease r >>= λ counted.
        ok (counted, some foreign_registry))
    else elim (own_record r lease) [
      | none ↦ record_invalid_release OwnershipViolationKind.invalid_lease r >>= λ counted.
          ok (counted, some invalid_lease)
      | some found ↦ release_section r found.0 found.1 buffer >>= λ result.
          finish_release put_owned result.0 result.1
    ]

-- Lease.Buffer and Lease.Release
unfoldable pub lease_buffer : LeaseRegistry → Lease → Slice
lease_buffer r lease = elim (own_record r lease) [
  | none ↦ nil
  | some found ↦ if is_active found.1.state then found.1.buffer else nil
]

unfoldable pub close : LeaseRegistry → Result Panic LeaseRegistry
unfolding perform advance
close r = perform begin_or_continue_close r.lifecycle >>= λ begun.
    if not begun.1
    then ok (record r { lifecycle = begun.0 })
    else (perform mark_closed begun.0 >>= λ marked. advance r.generation >>= λ generation.
        ok (record r { lifecycle = marked.0; generation = generation }))

-- Lease.Release and Lease.ReleaseUnchanged; without a registry nothing is counted.
unfoldable pub lease_release :
    (put_owned : ℕ → OwnedReturn → PutOutcome)
    → LeaseRegistry
    → Lease
    → Slice
    → Result Panic (LeaseRegistry × Option LeaseError)
unfolding release
lease_release put_owned r lease buffer = elim lease.registry [
  | none ↦ ok (r, some invalid_lease)
  | some registry ↦ release put_owned r lease buffer
]

unfoldable pub release_unchanged :
    (put_owned : ℕ → OwnedReturn → PutOutcome)
    → LeaseRegistry
    → Lease
    → Result Panic (LeaseRegistry × Option LeaseError)
unfolding lease_release lease_buffer
release_unchanged put_owned r lease = lease_release put_owned r lease (lease_buffer r lease)
