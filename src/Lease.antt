-- ===== src/Lease.antt =====
-- lease_record.go, lease_registry.go, lease_state.go, lease_id.go: the buffers
-- that are checked out of pools.
pub mod Ownership
pub mod Counters
pub mod Registry
pub mod Release
pub mod Checks
pub mod Total
pub mod Inv
pub mod Keeps
pub mod Counted
pub mod Stays
pub mod Ledger
pub mod Steps
pub mod Reach
pub mod Refines
pub mod Outcomes
pub mod Cycle
mod Tests
use bufferpool.Base.{ℕ, Option, List}
use bufferpool.Size.{Size, ClassSize}
use bufferpool.Slice.{Slice}
use bufferpool.Lifecycle.{LifecycleState}
use bufferpool.Generation.{Generation}
use bufferpool.Policy.{OwnershipPolicy}
use bufferpool.Lease.Counters.{OwnershipViolationKind, LeaseCounters}

abbrev pub LeaseId : Type 0
LeaseId = ℕ

pub data LeaseState : Type 0 where
  invalid active released : LeaseState

-- What the operations return as errors; `of_pool` is an error of GetSize.
pub data LeaseError : Type 0 where
  nil_pool zero_size negative_size registry_closed zero_capacity unsupported_class : LeaseError
  of_pool : ℕ → LeaseError
  foreign_registry invalid_lease double_release : LeaseError
  release_nil_buffer release_zero_capacity release_foreign_buffer release_capacity_growth :
      LeaseError

-- Without the times, which only snapshots read, and without the registry, which `Lease` carries.
-- `base` is `data`, the address of the buffer's first byte.
pub record LeaseRecord : Type 0 where
  pub id : LeaseId
  pub pool : ℕ
  pub state : LeaseState
  pub buffer : Slice
  pub base : Option ℕ
  pub requested_size : Size
  pub origin_class : ClassSize
  pub acquired_capacity : ℕ
  pub returned_capacity : ℕ
  pub last_violation : OwnershipViolationKind

-- A pointer to a record: the registry that made it, and its number among the records of that registry.
pub record RecordPointer : Type 0 where
  pub registry : ℕ
  pub index : ℕ

-- A registry is a number, its address.
pub record Lease : Type 0 where
  pub registry : Option ℕ
  pub record_pointer : Option RecordPointer

-- `self` is the registry's address, `records` the memory of the records that it has made, and `active`
-- the map from ids to the numbers of records.
pub record LeaseRegistry : Type 0 where
  pub self : ℕ
  pub lifecycle : LifecycleState
  pub generation : Generation
  pub ownership : OwnershipPolicy
  pub next_id : ℕ
  pub records : List LeaseRecord
  pub active : LeaseId → Option ℕ
  pub counters : LeaseCounters
