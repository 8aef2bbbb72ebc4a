-- ===== src/Lease/Tests.antt =====
-- A registry at concrete values.
use bufferpool.Base.{
  ℕ, ◌+◌, ◌*◌, ◌/◌, ◌<◌, ◌≡◌, ◌↔◌, refl, true, false, [], ◌∷◌, none, some, ok, err, max, min, arith,
  max_uint64,
}
use bufferpool.Slice.{Slice, nil, view}
use bufferpool.Atomic.{counter_inc}
use bufferpool.Lifecycle.{active, closed}
use bufferpool.Policy.{OwnershipMode}
use bufferpool.Lease.Counters.{zero_counters}
use bufferpool.Lease.Ownership.{
  ConfigError, strict_ownership_policy, accounting_ownership_policy,
  ownership_max_returned_capacity, validate_lease_release, normalize_for_lease_registry,
  validate_for_lease_registry,
}
use bufferpool.Lease.Checks.{
  IsReturnable, IsLeasePolicy, is_usable_mode, ownership_max_returned_capacity_lem,
  validate_lease_release_iff, normalize-IsLeasePolicy,
}
use bufferpool.Lease.Registry.{
  put_active, fresh_registry, new_lease_registry, acquire_size, new_record, Acquired,
}
use bufferpool.Lease.Release.{released_record, close, taken, release, lease_buffer}
use bufferpool.Lease.Inv.{IsRegistry}
use bufferpool.Lease.Ledger.{Trace, issue, ledger_of}
use bufferpool.Lease.Refines.{no_lease, is_outstanding, has_entry, Run-refines}
use bufferpool.Lease.Reach.{
  done, more, acquires, closes, lease_of, Run-IsRegistry, Run-double_release,
}
use bufferpool.Lease.Outcomes.{Sectioned, release_section-Sectioned}
use bufferpool.Lease.Cycle.{acquire-release}
use bufferpool.Lease.{LeaseRegistry, LeaseRecord, LeaseId, double_release}

abbrev fresh : LeaseRegistry
fresh = fresh_registry 7 strict_ownership_policy active

abbrev buffer : Slice
buffer = view 5000 1000 1024

abbrev held : LeaseRecord
held = new_record 1 3 buffer 1000 1024

abbrev one_held : LeaseRegistry
one_held = record fresh {
  next_id = 1;
  generation = 2;
  records = held ∷ [];
  active = put_active fresh.active 1 (some 0);
  counters = record zero_counters {
    acquisitions = 1;
    requested_bytes = 1000;
    acquired_bytes = 1024;
    active_leases = 1;
    active_bytes = 1024;
  };
}

-- The same registry after the release, and closed.
abbrev all_released : LeaseRegistry
all_released = record fresh {
  next_id = 1;
  generation = 5;
  records = released_record held buffer ∷ [];
}

abbrev all_closed : LeaseRegistry
all_closed = record all_released { lifecycle = closed; generation = 6 }

acquired :
    acquire_size fresh (some 3) 1000 (ok buffer) (λ n. some 1024)
    ≡ ok (record { registry = one_held; lease = ok (lease_of fresh 0); put_back = none })
unfolding acquire_size
acquired = refl

closed_now : close all_released ≡ ok all_closed
unfolding close
closed_now = refl

made : new_lease_registry 7 strict_ownership_policy ≡ ok (ok fresh)
unfolding new_lease_registry
made = refl

double_growth : ownership_max_returned_capacity 1024 20000 ≡ 2048
unfolding ownership_max_returned_capacity
double_growth = refl

ownership_max_returned_capacity_lem_example :
    let ratio : ℕ = 20000 in
    (ratio ≡ 0 → ownership_max_returned_capacity 1024 ratio ≡ 1024)
    × (0 < ratio
        → ownership_max_returned_capacity 1024 ratio
          ≡ max 1 (min ((1024 * ratio) / 10000) max_uint64))
ownership_max_returned_capacity_lem_example = ownership_max_returned_capacity_lem 1024 20000

validate_lease_release_iff_example :
    (validate_lease_release held buffer strict_ownership_policy ≡ ok tt)
    ↔ IsReturnable held buffer strict_ownership_policy
validate_lease_release_iff_example = validate_lease_release_iff held buffer strict_ownership_policy

normalize-IsLeasePolicy_example :
    (is_usable_mode OwnershipMode.accounting ≡ true
      → IsLeasePolicy (normalize_for_lease_registry accounting_ownership_policy)
        × (validate_for_lease_registry (normalize_for_lease_registry accounting_ownership_policy)
            ≡ ok tt))
    × (is_usable_mode OwnershipMode.accounting ≡ false
        → (e : ConfigError) × (validate_for_lease_registry
              (normalize_for_lease_registry accounting_ownership_policy)
            ≡ err e))
normalize-IsLeasePolicy_example = normalize-IsLeasePolicy accounting_ownership_policy

release_section-Sectioned_example : Sectioned one_held 0 held nil
release_section-Sectioned_example = release_section-Sectioned one_held 0 held nil (omega arith)

Run-IsRegistry_example : IsRegistry one_held
Run-IsRegistry_example =
    Run-IsRegistry 7 strict_ownership_policy fresh one_held made
      (more done (
        acquires (some 3) 1000 (ok buffer) (λ n. some 1024)
          (record { registry = one_held; lease = ok (lease_of fresh 0); put_back = none })
          acquired))
      (omega arith)

Run-refines_example :
    Trace no_lease (issue 1 ∷ []) (ledger_of one_held.records)
    × ((id : LeaseId)
        → has_entry (one_held.active id) ≡ is_outstanding (ledger_of one_held.records id))
Run-refines_example =
    Run-refines 7 strict_ownership_policy fresh one_held made
      (more done (
        acquires (some 3) 1000 (ok buffer) (λ n. some 1024)
          (record { registry = one_held; lease = ok (lease_of fresh 0); put_back = none })
          acquired))
      (omega arith)

Run-double_release_example :
    release (λ pool input. taken) all_closed (lease_of all_released 0) buffer
    ≡ ok (
      record all_closed {
        counters = record all_closed.counters {
          double_releases = counter_inc all_closed.counters.double_releases;
        };
        generation = 6 + 1;
      },
      some double_release,
    )
Run-double_release_example =
    Run-double_release (λ pool input. taken) all_released all_closed 0 (released_record held buffer)
      buffer refl refl (more done (closes all_closed closed_now)) (omega arith)

fresh-IsRegistry_test : IsRegistry fresh
fresh-IsRegistry_test = Run-IsRegistry 7 strict_ownership_policy fresh fresh made done (omega arith)

acquire-release_example :
    (a : Acquired) × (after : LeaseRegistry) × (acquire_size fresh
        (some 3)
        1000
        (ok buffer)
        (λ n. some 1024)
      ≡ ok a)
    × (a.lease ≡ ok (lease_of fresh 0))
    × (lease_buffer a.registry (lease_of fresh 0) ≡ buffer)
    × (release (λ pool input. taken) a.registry (lease_of fresh 0) buffer ≡ ok (after, none))
    × ((id : LeaseId) → after.active id ≡ none)
    × (after.counters.active_leases ≡ 0)
    × (after.counters.active_bytes ≡ 0)
acquire-release_example =
    acquire-release (λ pool input. taken) fresh 3 1000 buffer (λ n. some 1024) 1024
      fresh-IsRegistry_test (omega arith) refl (omega arith) (omega arith) (omega arith) refl
      (rw double_growth (omega arith))
