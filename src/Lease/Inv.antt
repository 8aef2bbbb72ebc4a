-- ===== src/Lease/Inv.antt =====
-- The invariant of a registry: the map of active leases and the counters agree with the records.
use bufferpool.Base.{
  ℕ, zero, suc, ◌+◌, ◌%◌, ◌^◌, ◌<◌, ◌≡◌, ◌⊎◌, inl, inr, refl, ap, Bool, true, false, ◌==◌,
  if◌then◌else◌, Bool-cases, List, [], ◌∷◌, ◌++◌, Option, none, some, length, get_elem?, set, arith,
}
use bufferpool.Slice.{capacity}
use bufferpool.Lease.Ownership.{buffer_backing_data}
use bufferpool.Lease.Registry.{put_active}
use bufferpool.Lease.Release.{is_active, is_released}
use bufferpool.Lease.Total.{total}
use bufferpool.Lease.{LeaseRegistry, LeaseRecord, LeaseId}

abbrev pub one_if_active : LeaseRecord → ℕ
one_if_active x = if is_active x.state then 1 else 0

abbrev pub capacity_if_active : LeaseRecord → ℕ
capacity_if_active x = if is_active x.state then x.acquired_capacity else 0

abbrev pub is_active_at : List LeaseRecord → ℕ → Bool
is_active_at records index = elim (get_elem? records index) [
  | none ↦ false
  | some x ↦ is_active x.state
]

-- The map of the active leases, as the records have it: id n + 1 is that of record n.
abbrev pub active_of : List LeaseRecord → LeaseId → Option ℕ
active_of records zero = none
active_of records (suc index) = if is_active_at records index then some index else none

-- A record is active or released, and describes the buffer that was acquired.
pub record IsRecord (x : LeaseRecord) (id : LeaseId) : Type 0 where
  pub numbered : x.id ≡ id
  pub in_use : (is_active x.state ≡ true) ⊎ (is_released x.state ≡ true)
  pub acquired : x.acquired_capacity ≡ capacity x.buffer
  pub some_capacity : 0 < x.acquired_capacity
  pub based : x.base ≡ buffer_backing_data x.buffer

pub record IsRegistry (r : LeaseRegistry) : Type 0 where
  pub counted : r.next_id ≡ length r.records
  pub few : length r.records < 2 ^ 64
  pub records :
      (index : ℕ) (x : LeaseRecord) → get_elem? r.records index ≡ some x → IsRecord x (suc index)
  pub mapped : (id : LeaseId) → r.active id ≡ active_of r.records id
  pub leases : r.counters.active_leases ≡ total one_if_active r.records
  pub bytes : r.counters.active_bytes ≡ total capacity_if_active r.records % 2 ^ 64
  pub acquisitions : r.counters.acquisitions ≡ length r.records
  pub releases : r.counters.releases + total one_if_active r.records ≡ length r.records

pub is_active_at-append :
    (records : List LeaseRecord) (made : LeaseRecord) (index : ℕ)
    → is_active made.state ≡ true
    → is_active_at (records ++ made ∷ []) index
      ≡ (if index == length records then true else is_active_at records index)
is_active_at-append [] made zero e = e
is_active_at-append [] made (suc index) e = ground arith
is_active_at-append (x ∷ records) made zero e = ground arith
is_active_at-append (x ∷ records) made (suc index) e =
    ground (arith, is_active_at-append records made index e)

pub is_active_at-set :
    (records : List LeaseRecord) (made : LeaseRecord) (i index : ℕ)
    → i < length records
    → is_active_at (set records i made) index
      ≡ (if index == i then is_active made.state else is_active_at records index)
is_active_at-set [] made i index h = absurd (omega arith)
is_active_at-set (x ∷ records) made zero zero h = refl
is_active_at-set (x ∷ records) made zero (suc index) h = ground arith
is_active_at-set (x ∷ records) made (suc i) zero h = ground arith
is_active_at-set (x ∷ records) made (suc i) (suc index) h =
    ground (arith, is_active_at-set records made i index (omega arith))

pub active_of-append :
    (records : List LeaseRecord) (made : LeaseRecord) (active : LeaseId → Option ℕ) (id : LeaseId)
    → is_active made.state ≡ true
    → active id ≡ active_of records id
    → put_active active (suc (length records)) (some (length records)) id
      ≡ active_of (records ++ made ∷ []) id
active_of-append records made active zero e m = ground (arith, m)
active_of-append records made active (suc index) e m =
    ground (arith, m, is_active_at-append records made index e)

pub active_of-set :
    (records : List LeaseRecord) (made : LeaseRecord) (i : ℕ) (active : LeaseId → Option ℕ)
    (id : LeaseId)
    → i < length records
    → is_active made.state ≡ false
    → active id ≡ active_of records id
    → put_active active (suc i) none id ≡ active_of (set records i made) id
active_of-set records made i active zero h e m = ground (arith, m)
active_of-set records made i active (suc index) h e m =
    ground (arith, m, e, is_active_at-set records made i index h)

pub active_of-set_same :
    (records : List LeaseRecord) (made : LeaseRecord) (i : ℕ) (id : LeaseId)
    → i < length records
    → is_active_at records i ≡ is_active made.state
    → active_of records id ≡ active_of (set records i made) id
active_of-set_same records made i zero h m = refl
active_of-set_same records made i (suc index) h m =
    let at = is_active_at-set records made i index h in
    elim (Bool-cases (index == i)) [
      | inl e ↦
          let same : index ≡ i = ground (arith, e) in
          ground (arith, at, e, m, ap (is_active_at records) same)
      | inr ne ↦ ground (arith, at, ne)
    ]
