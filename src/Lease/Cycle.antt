-- ===== src/Lease/Cycle.antt =====
-- Acquiring a buffer and releasing it unchanged.
use bufferpool.Base.{
  ℕ, suc, ◌+◌, ◌^◌, ◌<◌, ◌≤◌, ◌≡◌, inl, inr, refl, sym, ap, ◌∙◌, true, false, ◌==◌, Bool-cases,
  List, Option, none, some, ok, length, get_elem?, get_elem?_out, arith, max_uint64,
}
use bufferpool.Size.{Size, ClassSize}
use bufferpool.Slice.{Slice, nil, view, is_nil, capacity}
use bufferpool.Atomic.{counter_inc}
use bufferpool.Lifecycle.{active}
use bufferpool.Lease.Counters.{record_acquire, record_release}
use bufferpool.Lease.Ownership.{ownership_max_returned_capacity, canonical_return_buffer}
use bufferpool.Lease.Registry.{new_record, put_active, Acquired, acquire_size}
use bufferpool.Lease.Release.{is_active, OwnedReturn, PutOutcome, release, lease_buffer}
use bufferpool.Lease.Inv.{is_active_at, IsRegistry}
use bufferpool.Lease.Keeps.{total_le_length, registered, unregistered}
use bufferpool.Lease.Reach.{lease_of}
use bufferpool.Base.{get_elem?-append_end}
use bufferpool.Lease.Outcomes.{acquire_size-registered, release-accepts}
use bufferpool.Lease.{LeaseId, LeaseRegistry, LeaseRecord}

some_capacity-is_nil : (buffer : Slice) → 0 < capacity buffer → is_nil buffer ≡ false
some_capacity-is_nil nil h = absurd (omega arith)
some_capacity-is_nil (view base len cap) h = refl

get_elem?-end :
    (records : List LeaseRecord) (index : ℕ)
    → length records ≤ index
    → is_active_at records index ≡ false
get_elem?-end records index h = rw (is_active_at, get_elem?_out records index h) refl

-- The map after the id of a new record was added and taken off.
active_again :
    (r : LeaseRegistry) (key id : LeaseId)
    → IsRegistry r
    → key ≡ suc (length r.records)
    → put_active (put_active r.active key (some (length r.records))) key none id ≡ r.active id
active_again r key id v e =
    let free : r.active (suc (length r.records)) ≡ none =
      v.mapped (suc (length r.records))
      ∙ rw (get_elem?-end r.records (length r.records) (omega arith)) refl in
    elim (Bool-cases (id == key)) [
      | inl same ↦
          let at : id ≡ suc (length r.records) = ground (arith, same, e) in
          rw same (sym (ap r.active at ∙ free))
      | inr other ↦ rw other refl
    ]

lease_buffer-lease_of :
    (s : LeaseRegistry) (index : ℕ) (x : LeaseRecord)
    → get_elem? s.records index ≡ some x
    → is_active x.state ≡ true
    → lease_buffer s (lease_of s index) ≡ x.buffer
unfolding lease_buffer
lease_buffer-lease_of s index x at held =
    let own : (s.self == s.self) ≡ true = ground arith in rw (lease_buffer, own, at, held) refl

-- A buffer that is acquired from an open registry and released unchanged, its capacity within the
-- ownership limit: both calls succeed, whatever the pool answers to the return; in between the lease
-- shows the buffer; and afterwards the active leases, their number and their bytes are as before.
-- The generations and the ids must not be used up.
pub acquire-release :
    (put_owned : ℕ → OwnedReturn → PutOutcome) (r : LeaseRegistry) (pool : ℕ) (requested : Size)
    (buffer : Slice) (origin_class_for : ℕ → Option ClassSize) (origin_class : ClassSize)
    → IsRegistry r
    → suc (length r.records) < 2 ^ 64
    → r.lifecycle ≡ active
    → r.generation + 3 < max_uint64
    → 0 < requested
    → 0 < capacity buffer
    → origin_class_for (capacity buffer) ≡ some origin_class
    → capacity buffer
      ≤ ownership_max_returned_capacity origin_class r.ownership.max_returned_capacity_growth
    → (a : Acquired) × (after : LeaseRegistry) × (acquire_size r
          (some pool)
          requested
          (ok buffer)
          origin_class_for
        ≡ ok a)
      × (a.lease ≡ ok (lease_of r (length r.records)))
      × (lease_buffer a.registry (lease_of r (length r.records)) ≡ buffer)
      × (release put_owned a.registry (lease_of r (length r.records)) buffer ≡ ok (after, none))
      × ((id : LeaseId) → after.active id ≡ r.active id)
      × (after.counters.active_leases ≡ r.counters.active_leases)
      × (after.counters.active_bytes ≡ r.counters.active_bytes)
unfolding registered unregistered record_acquire record_release
acquire-release put_owned r pool requested buffer origin_class_for origin_class v few open_now room
      some_size some_capacity e within =
    let n = length r.records in
    let made = new_record (counter_inc r.next_id) pool buffer requested origin_class in
    let s = registered r made (r.generation + 1) in
    let at : get_elem? s.records n ≡ some made = get_elem?-append_end r.records made in
    let numbered : counter_inc r.next_id ≡ suc n = omega (arith, v.counted) in
    let back =
      release-accepts put_owned s n made buffer at refl
        (record {
          some_buffer = some_capacity-is_nil buffer some_capacity;
          some_capacity = some_capacity;
          same_base = λ strict. refl;
          within = λ leased growth. within;
        })
        (omega arith) in
    (
      record { registry = s; lease = ok (lease_of r n); put_back = none },
      record (unregistered s n made (canonical_return_buffer made buffer r.ownership)
          (s.generation + 1)) { counters = back.0; generation = s.generation + 1 + 1 + 1 },
      acquire_size-registered r pool requested buffer origin_class_for origin_class open_now
          (omega arith) some_size some_capacity e,
      refl,
      lease_buffer-lease_of s n made at refl,
      back.1,
      λ id. active_again r (counter_inc r.next_id) id v numbered,
      back.2.leases ∙ omega (arith, v.leases, total_le_length r.records),
      back.2.bytes ∙ omega (arith, v.bytes),
    )
