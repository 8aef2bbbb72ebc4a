-- ===== src/Lease/Outcomes.antt =====
-- What acquiring and releasing do, branch by branch.
use bufferpool.Base.{
  ℕ, ◌+◌, ◌<◌, ◌≡◌, inl, inr, refl, true, false, ◌==◌, Result-cases, Option, none, some, ok, err,
  length, get_elem?, set, arith, max_uint64,
}
use bufferpool.Size.{Size, ClassSize, is_zero}
use bufferpool.Slice.{Slice, capacity, reslice_empty, capacity-reslice_empty}
use bufferpool.Atomic.{counter_inc}
use bufferpool.Generation.{advance, next}
use bufferpool.Lifecycle.{load, is_known, active}
use bufferpool.Lease.Counters.{
  OwnershipViolationKind, LeaseCounters, count_return_attempt, count_return_success,
  count_return_failure,
}
use bufferpool.Lease.Ownership.{
  is_strict_mode, Refusal, validate_lease_release, canonical_return_buffer,
}
use bufferpool.Lease.Checks.{IsReturnable, validate_lease_release_iff}
use bufferpool.Lease.Registry.{allows_acquire, new_record, register, acquire_with, acquire_size}
use bufferpool.Lease.Release.{
  is_released, OwnedReturn, rejected, returns, PutOutcome, taken, failed, release_section,
  finish_release, record_put, record_return_attempt, record_return_success, record_return_failure,
  release,
}
use bufferpool.Lease.Keeps.{registered, unregistered}
use bufferpool.Lease.Counted.{SameLeases, count_return_failure-SameLeases}
use bufferpool.Lease.Reach.{lease_of}
use bufferpool.Lease.{LeaseRegistry, LeaseRecord, LeaseError, double_release}

-- What goes back to the pool.
abbrev pub owned_return : LeaseRecord → Slice → OwnedReturn
owned_return x back = record {
  buffer = back;
  origin_class = x.origin_class;
  requested_size = x.requested_size;
  acquired_capacity = x.acquired_capacity;
  returned_capacity = capacity back;
}

-- The outcomes of the first critical section of releaseRecord.
pub record Sectioned (s : LeaseRegistry) (index : ℕ) (x : LeaseRecord) (buffer : Slice)
    : Type 0 where
  pub again :
      is_released x.state ≡ true
      → release_section s index x buffer
        ≡ ok (s, rejected OwnershipViolationKind.double_release double_release)
  pub accepts :
      is_released x.state ≡ false
      → IsReturnable x buffer s.ownership
      → let back = canonical_return_buffer x buffer s.ownership in
        release_section s index x buffer
        ≡ ok (unregistered s index x back (s.generation + 1), returns x.pool (owned_return x back))
  pub own :
      is_strict_mode s.ownership.mode ≡ true
      → let back = canonical_return_buffer x buffer s.ownership in
        (back ≡ reslice_empty x.buffer) × (capacity back ≡ capacity x.buffer)
  pub given :
      is_strict_mode s.ownership.mode ≡ false
      → canonical_return_buffer x buffer s.ownership ≡ buffer
  pub rejects :
      is_released x.state ≡ false
      → (IsReturnable x buffer s.ownership → ⊥)
      → (violation : OwnershipViolationKind) × (failure : LeaseError) × (release_section s index x
            buffer
          ≡ ok (
            record s { records = set s.records index (record x { last_violation = violation }) },
            rejected violation failure,
          ))

release_section-again :
    (s : LeaseRegistry) (index : ℕ) (x : LeaseRecord) (buffer : Slice)
    → is_released x.state ≡ true
    → release_section s index x buffer
      ≡ ok (s, rejected OwnershipViolationKind.double_release double_release)
unfolding release_section
release_section-again s index x buffer e = rw e refl

release_section-accepts :
    (s : LeaseRegistry) (index : ℕ) (x : LeaseRecord) (buffer : Slice)
    → s.generation < max_uint64
    → is_released x.state ≡ false
    → validate_lease_release x buffer s.ownership ≡ ok tt
    → let back = canonical_return_buffer x buffer s.ownership in
      release_section s index x buffer
      ≡ ok (unregistered s index x back (s.generation + 1), returns x.pool (owned_return x back))
unfolding release_section unregistered advance next
release_section-accepts s index x buffer room e v =
    let more : (s.generation == max_uint64) ≡ false = ground arith in rw (e, v, more) refl

release_section-rejects :
    (s : LeaseRegistry) (index : ℕ) (x : LeaseRecord) (buffer : Slice) (refusal : Refusal)
    → is_released x.state ≡ false
    → validate_lease_release x buffer s.ownership ≡ err refusal
    → release_section s index x buffer
      ≡ ok (
        record s {
          records = set s.records index (record x { last_violation = refusal.violation });
        },
        rejected refusal.violation refusal.error,
      )
unfolding release_section
release_section-rejects s index x buffer refusal e v = rw (e, v) refl

-- The first critical section of a release, with room for a generation: a released record is a double
-- release and nothing changes. Otherwise a buffer that the policy allows, and only such a buffer, is
-- accepted: the record is released, taken off the map and off the counters. What goes back to the
-- pool is the caller's buffer as it is, but in strict mode the acquired one, cut to length 0. A buffer that
-- is refused changes nothing but the record's last violation.
pub release_section-Sectioned :
    (s : LeaseRegistry) (index : ℕ) (x : LeaseRecord) (buffer : Slice)
    → s.generation < max_uint64
    → Sectioned s index x buffer
unfolding canonical_return_buffer
release_section-Sectioned s index x buffer room =
    let checks = validate_lease_release_iff x buffer s.ownership in
    record {
      again = release_section-again s index x buffer;
      accepts = λ e v. release_section-accepts s index x buffer room e (checks.1 v);
      own = λ strict. rw strict (refl, capacity-reslice_empty x.buffer);
      given = λ lax. rw lax refl;
      rejects = λ e bad. elim (Result-cases (validate_lease_release x buffer s.ownership)) [
        | inl refused ↦ (
          refused.0.violation,
          refused.0.error,
          release_section-rejects s index x buffer refused.0 e refused.1,
        )
        | inr passed ↦ absurd (bad (checks.0 passed.1))
      ];
    }

-- The end of a release that was accepted.
record_put-lem :
    (outcome : PutOutcome) (t : LeaseRegistry)
    → t.generation < max_uint64
    → (c : LeaseCounters) × (record_put outcome t
        ≡ ok (record t { counters = c; generation = t.generation + 1 }))
      × SameLeases t.counters c
unfolding record_put record_return_success record_return_failure count_return_success advance next
record_put-lem taken t room =
    let more : (t.generation == max_uint64) ≡ false = ground arith in
    (
      count_return_success t.counters,
      rw more refl,
      record { acquisitions = refl; releases = refl; leases = refl; bytes = refl },
    )
record_put-lem (failed is_closed) t room =
    let more : (t.generation == max_uint64) ≡ false = ground arith in
    (
      count_return_failure t.counters is_closed,
      rw more refl,
      count_return_failure-SameLeases t.counters is_closed,
    )

finish_release-lem :
    (put_owned : ℕ → OwnedReturn → PutOutcome) (t : LeaseRegistry) (pool : ℕ) (input : OwnedReturn)
    → t.generation + 1 < max_uint64
    → (c : LeaseCounters) × (finish_release put_owned t (returns pool input)
        ≡ ok (record t { counters = c; generation = t.generation + 1 + 1 }, none))
      × SameLeases t.counters c
unfolding finish_release record_return_attempt count_return_attempt advance next
finish_release-lem put_owned t pool input room =
    let more : (t.generation == max_uint64) ≡ false = ground arith in
    let attempted = record t {
      counters = count_return_attempt t.counters;
      generation = t.generation + 1;
    } in
    let put = record_put-lem (put_owned pool input) attempted room in
    (
      put.0,
      rw (more, put.1) refl,
      record {
        acquisitions = put.2.acquisitions;
        releases = put.2.releases;
        leases = put.2.leases;
        bytes = put.2.bytes;
      },
    )

allows_acquire-active : (r : LeaseRegistry) → r.lifecycle ≡ active → allows_acquire r ≡ ok true
unfolding allows_acquire load is_known
allows_acquire-active r e = rw e refl

-- AcquireSize of an open registry.
pub acquire_size-registered :
    (r : LeaseRegistry) (pool : ℕ) (requested : Size) (buffer : Slice)
    (origin_class_for : ℕ → Option ClassSize) (origin_class : ClassSize)
    → r.lifecycle ≡ active
    → r.generation < max_uint64
    → 0 < requested
    → 0 < capacity buffer
    → origin_class_for (capacity buffer) ≡ some origin_class
    → acquire_size r (some pool) requested (ok buffer) origin_class_for
      ≡ ok (record {
        registry =
            registered r
              (new_record (counter_inc r.next_id) pool buffer requested origin_class)
              (r.generation + 1);
        lease = ok (lease_of r (length r.records));
        put_back = none;
      })
unfolding acquire_size acquire_with register registered advance next
acquire_size-registered r pool requested buffer origin_class_for origin_class open_now room
      some_size some_capacity e =
    let more : (r.generation == max_uint64) ≡ false = ground arith in
    let size : is_zero requested ≡ false = ground arith in
    let cap : (capacity buffer == 0) ≡ false = ground arith in
    let first = allows_acquire-active r open_now in
    let again = allows_acquire-active (record r { next_id = counter_inc r.next_id }) open_now in
    rw (size, first, cap, e, again, more) refl

pub release-accepts :
    (put_owned : ℕ → OwnedReturn → PutOutcome) (s : LeaseRegistry) (index : ℕ) (x : LeaseRecord)
    (buffer : Slice)
    → get_elem? s.records index ≡ some x
    → is_released x.state ≡ false
    → IsReturnable x buffer s.ownership
    → s.generation + 2 < max_uint64
    → let t =
        unregistered s index x (canonical_return_buffer x buffer s.ownership) (s.generation + 1) in
      (c : LeaseCounters) × (release put_owned s (lease_of s index) buffer
        ≡ ok (record t { counters = c; generation = t.generation + 1 + 1 }, none))
      × SameLeases t.counters c
unfolding release unregistered
release-accepts put_owned s index x buffer at held v room =
    let back = canonical_return_buffer x buffer s.ownership in
    let t = unregistered s index x back (s.generation + 1) in
    let own : (s.self == s.self) ≡ true = ground arith in
    let section = (release_section-Sectioned s index x buffer (omega arith)).accepts held v in
    let finish = finish_release-lem put_owned t x.pool (owned_return x back) (omega arith) in
    (finish.0, rw (own, at, section) finish.1, finish.2)
