-- ===== src/Lease/Counted.antt =====
-- Counts of a registry that leave those of the active leases alone.
use bufferpool.Base.{◌≡◌, refl, ◌∙◌, Bool, true, false, arith}
use bufferpool.Generation.{Generation}
use bufferpool.Lease.Counters.{
  OwnershipViolationKind, LeaseCounters, count_invalid_release, count_return_failure,
}
use bufferpool.Lease.Inv.{IsRegistry}
use bufferpool.Lease.{LeaseRegistry}

-- A change to the counters that leaves those of the active leases alone.
pub record SameLeases (c d : LeaseCounters) : Type 0 where
  pub acquisitions : d.acquisitions ≡ c.acquisitions
  pub releases : d.releases ≡ c.releases
  pub leases : d.active_leases ≡ c.active_leases
  pub bytes : d.active_bytes ≡ c.active_bytes

same_leases :
    {c d : LeaseCounters}
    → d.acquisitions ≡ c.acquisitions
    → d.releases ≡ c.releases
    → d.active_leases ≡ c.active_leases
    → d.active_bytes ≡ c.active_bytes
    → SameLeases c d
same_leases acquisitions releases leases bytes = record {
  acquisitions = acquisitions;
  releases = releases;
  leases = leases;
  bytes = bytes;
}

pub counted-IsRegistry :
    (r : LeaseRegistry) (c : LeaseCounters) (generation : Generation)
    → IsRegistry r
    → SameLeases r.counters c
    → IsRegistry (record r { counters = c; generation = generation })
counted-IsRegistry r c generation v s = record {
  counted = v.counted;
  few = v.few;
  records = v.records;
  mapped = v.mapped;
  leases = s.leases ∙ v.leases;
  bytes = s.bytes ∙ v.bytes;
  acquisitions = s.acquisitions ∙ v.acquisitions;
  releases = omega (arith, s.releases, v.releases);
}

pub count_invalid_release-SameLeases :
    (c : LeaseCounters) (k : OwnershipViolationKind) → SameLeases c (count_invalid_release c k)
unfolding count_invalid_release
count_invalid_release-SameLeases c OwnershipViolationKind.none = same_leases refl refl refl refl
count_invalid_release-SameLeases c OwnershipViolationKind.invalid_lease =
    same_leases refl refl refl refl
count_invalid_release-SameLeases c OwnershipViolationKind.double_release =
    same_leases refl refl refl refl
count_invalid_release-SameLeases c OwnershipViolationKind.nil_buffer =
    same_leases refl refl refl refl
count_invalid_release-SameLeases c OwnershipViolationKind.zero_capacity =
    same_leases refl refl refl refl
count_invalid_release-SameLeases c OwnershipViolationKind.foreign_buffer =
    same_leases refl refl refl refl
count_invalid_release-SameLeases c OwnershipViolationKind.capacity_growth =
    same_leases refl refl refl refl

pub count_return_failure-SameLeases :
    (c : LeaseCounters) (b : Bool) → SameLeases c (count_return_failure c b)
unfolding count_return_failure
count_return_failure-SameLeases c true = same_leases refl refl refl refl
count_return_failure-SameLeases c false = same_leases refl refl refl refl
