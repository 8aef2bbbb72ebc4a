-- ===== src/Lease/Reach.antt =====
-- Any run of a registry's critical sections, by any callers in any order.
use bufferpool.Base.{
  ℕ, zero, suc, ◌+◌, max_uint64, ◌^◌, ◌<◌, ◌≡◌, ◌++◌, List, refl, subst, ◌∙◌, true, false, ◌==◌, [],
  Option, none, some, Result, ok, Holds, Holds->>=, length, get_elem?, arith,
}
use bufferpool.Size.{Size, ClassSize}
use bufferpool.Slice.{Slice}
use bufferpool.Generation.{advance, next}
use bufferpool.Atomic.{counter_inc}
use bufferpool.Lifecycle.{LifecycleState, perform, activate, created}
use bufferpool.Policy.{OwnershipPolicy}
use bufferpool.Lease.Counters.{
  OwnershipViolationKind, count_invalid_release, count_return_attempt, count_return_success,
  count_return_failure,
}
use bufferpool.Lease.Ownership.{normalize_for_lease_registry, validate_for_lease_registry}
use bufferpool.Lease.Registry.{fresh_registry, new_lease_registry, Acquired, acquire_size}
use bufferpool.Lease.Release.{
  is_released, record_invalid_release, record_return_attempt, PutOutcome, taken, failed, record_put,
  record_return_success, record_return_failure, Section, OwnedReturn, release_section, release,
  finish_release, close,
}
use bufferpool.Lease.Ledger.{Event, acquire_events, section_events, ledger_of, unmoved, Trace-then}
use bufferpool.Lease.Inv.{active_of, IsRegistry}
use bufferpool.Lease.Counted.{count_invalid_release-SameLeases, count_return_failure-SameLeases}
use bufferpool.Lease.Steps.{
  Keeps, IsAcquired, IsSectioned, count_with-Keeps, acquire_size-Keeps, release_section-Keeps,
  close-Keeps,
}
use bufferpool.Lease.{LeaseRegistry, LeaseRecord, Lease, double_release}

-- One step that returned: a whole acquisition, from the choice of its id to the registration, or one
-- critical section of a release, which is several of them.
pub data Step (r : LeaseRegistry) : LeaseRegistry → Type 0 where
  acquires :
      (pool : Option ℕ) (requested : Size) (got : Result ℕ Slice)
      (origin_class_for : ℕ → Option ClassSize) (a : Acquired)
      → acquire_size r pool requested got origin_class_for ≡ ok a
      → Step r a.registry
  releases :
      (index : ℕ) (found : LeaseRecord) (buffer : Slice) (result : LeaseRegistry × Section)
      → get_elem? r.records index ≡ some found
      → release_section r index found buffer ≡ ok result
      → Step r result.0
  refuses :
      (kind : OwnershipViolationKind) (after : LeaseRegistry)
      → record_invalid_release kind r ≡ ok after
      → Step r after
  attempts : (after : LeaseRegistry) → record_return_attempt r ≡ ok after → Step r after
  puts :
      (outcome : PutOutcome) (after : LeaseRegistry)
      → record_put outcome r ≡ ok after
      → Step r after
  closes : (after : LeaseRegistry) → close r ≡ ok after → Step r after

pub data Run (r : LeaseRegistry) : LeaseRegistry → Type 0 where
  done : Run r r
  more : {s t : LeaseRegistry} → Run r s → Step s t → Run r t

pub returned :
    {E : Type 0} {A : Type 0} (P : A → Type 0) (result : Result E A) (value : A)
    → Holds P result
    → result ≡ ok value
    → P value
returned P result value h e = subst (Holds P) e h

-- The events of a step, as its answer tells them.
abbrev pub step_events : {r after : LeaseRegistry} → Step r after → List Event
step_events (acquires pool requested got origin_class_for a e) = acquire_events a.lease
step_events (releases index found buffer result at e) = section_events index result.1
step_events _ = []

-- The events of a run, the last one first.
abbrev pub run_events : {r after : LeaseRegistry} → Run r after → List Event
run_events done = []
run_events (more run step) = step_events step ++ run_events run

Step-Keeps : (r after : LeaseRegistry) (step : Step r after) → Keeps r (step_events step) after
unfolding record_invalid_release record_return_attempt record_put record_return_success
    record_return_failure count_return_attempt count_return_success
Step-Keeps r after (acquires pool requested got origin_class_for a e) =
    returned (IsAcquired r) _ a (acquire_size-Keeps r pool requested got origin_class_for) e
Step-Keeps r after (releases index found buffer result at e) =
    returned (IsSectioned r index) _ result (release_section-Keeps r index found buffer at) e
Step-Keeps r after (refuses kind s e) =
    returned (Keeps r []) _ s
      (count_with-Keeps (λ c. count_invalid_release c kind) r
        (count_invalid_release-SameLeases r.counters kind))
      e
Step-Keeps r after (attempts s e) =
    returned (Keeps r []) _ s
      (count_with-Keeps count_return_attempt r
        (record { acquisitions = refl; releases = refl; leases = refl; bytes = refl }))
      e
Step-Keeps r after (puts taken s e) =
    returned (Keeps r []) _ s
      (count_with-Keeps count_return_success r
        (record { acquisitions = refl; releases = refl; leases = refl; bytes = refl }))
      e
Step-Keeps r after (puts (failed is_closed) s e) =
    returned (Keeps r []) _ s
      (count_with-Keeps (λ c. count_return_failure c is_closed) r
        (count_return_failure-SameLeases r.counters is_closed))
      e
Step-Keeps r after (closes s e) = returned (Keeps r []) _ s (close-Keeps r) e

pub Run-Keeps : (r after : LeaseRegistry) (run : Run r after) → Keeps r (run_events run) after
Run-Keeps r after done = record {
  self = refl;
  grows = omega arith;
  invariant = λ v few. v;
  released = λ index x e h. (x, e, h);
  trace = λ v few. unmoved (ledger_of r.records);
}
Run-Keeps r after (more {s} run step) =
    let first = Run-Keeps r s run in
    let last = Step-Keeps s after step in
    record {
      self = last.self ∙ first.self;
      grows = omega (arith, first.grows, last.grows);
      invariant = λ v few. last.invariant (first.invariant v (omega (arith, last.grows))) few;
      released =
          λ index x e h. let y = first.released index x e h in last.released index y.0 y.1 y.2;
      trace = λ v few.
          let before : length s.records < 2 ^ 64 = omega (arith, last.grows, few) in
          Trace-then (first.trace v before) (last.trace (first.invariant v before) few);
    }

none_active : (id : ℕ) → none ≡ active_of [] id
none_active zero = refl
none_active (suc id) = refl

fresh-IsRegistry :
    (self : ℕ) (policy : OwnershipPolicy) (state : LifecycleState)
    → IsRegistry (fresh_registry self policy state)
fresh-IsRegistry self policy state = record {
  counted = refl;
  few = omega arith;
  records = λ index x found. cc;
  mapped = none_active;
  leases = refl;
  bytes = refl;
  acquisitions = refl;
  releases = refl;
}

pub new_lease_registry-IsRegistry :
    (self : ℕ) (config : OwnershipPolicy)
    → Holds (Holds IsRegistry) (new_lease_registry self config)
unfolding new_lease_registry
new_lease_registry-IsRegistry self config =
    let normalized = normalize_for_lease_registry config in
    Holds->>= (Holds IsRegistry) (validate_for_lease_registry normalized) _ λ u valid.
      Holds->>= IsRegistry (perform activate created)
        (λ activated. ok (fresh_registry self normalized activated.0))
        λ activated e. fresh-IsRegistry self normalized activated.0

-- After any run of its operations, where acquisitions, the critical sections of releases and closes are
-- whole steps and come one after the other in any order, with fewer than 2 ^ 64 acquisitions, a
-- registry is consistent: the records have the ids 1, 2 and so on, the map has exactly the leases whose
-- records are active, and the counters of the active leases, of their bytes modulo 2 ^ 64, of
-- acquisitions and of releases are those of the records.
pub Run-IsRegistry :
    (self : ℕ) (config : OwnershipPolicy) (r s : LeaseRegistry)
    → new_lease_registry self config ≡ ok (ok r)
    → Run r s
    → length s.records < 2 ^ 64
    → IsRegistry s
Run-IsRegistry self config r s made run few =
    let start =
      returned (Holds IsRegistry) _ (ok r) (new_lease_registry-IsRegistry self config) made in
    (Run-Keeps r s run).invariant start few

-- The lease of a record.
abbrev pub lease_of : LeaseRegistry → ℕ → Lease
lease_of r index = record {
  registry = some r.self;
  record_pointer = some (record { registry = r.self; index = index });
}

-- A lease that has been released is refused from then on, whatever happened in between: Release returns
-- the double release error, counts it, and changes no record, no active lease and no other counter, as
-- long as the registry is not at the largest generation.
pub Run-double_release :
    (put_owned : ℕ → OwnedReturn → PutOutcome) (r s : LeaseRegistry) (index : ℕ) (x : LeaseRecord)
    (buffer : Slice)
    → get_elem? r.records index ≡ some x
    → is_released x.state ≡ true
    → Run r s
    → s.generation < max_uint64
    → release put_owned s (lease_of r index) buffer
      ≡ ok (
        record s {
          counters = record s.counters { double_releases = counter_inc s.counters.double_releases };
          generation = s.generation + 1;
        },
        some double_release,
      )
unfolding release release_section finish_release record_invalid_release count_invalid_release
    advance next
Run-double_release put_owned r s index x buffer at released run room =
    let kept = Run-Keeps r s run in
    let y = kept.released index x at released in
    let own : (r.self == s.self) ≡ true = ground (arith, kept.self) in
    let more : (s.generation == max_uint64) ≡ false = ground arith in rw (own, y.1, y.2, more) refl
