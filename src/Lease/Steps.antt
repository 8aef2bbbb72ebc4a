-- ===== src/Lease/Steps.antt =====
-- What each critical section of a registry keeps.
use bufferpool.Base.{
  List, ℕ, suc, ◌^◌, ◌<◌, ◌≤◌, ◌≡◌, inl, inr, refl, subst, true, false, not, ◌==◌, Option-cases,
  Result-cases, [], ◌∷◌, ◌++◌, Option, none, some, Result, ok, err, Holds, Holds-if, Holds->>=,
  length, get_elem?, length-append, length-set, arith,
}
use bufferpool.Size.{Size, ClassSize, is_zero}
use bufferpool.Slice.{Slice, capacity}
use bufferpool.Atomic.{counter_inc}
use bufferpool.Generation.{Generation, advance}
use bufferpool.Lifecycle.{LifecycleState, perform, begin_or_continue_close, mark_closed}
use bufferpool.Lease.Counters.{LeaseCounters}
use bufferpool.Lease.Ownership.{validate_lease_release, canonical_return_buffer}
use bufferpool.Lease.Registry.{
  Acquired, allows_acquire, new_record, register, acquire_with, acquire_size,
}
use bufferpool.Lease.Release.{
  Section, is_active, is_released, count_with, release_section, released_record, close,
}
use bufferpool.Lease.Inv.{IsRecord, IsRegistry}
use bufferpool.Lease.Keeps.{
  registered, unregistered, registered-IsRegistry, unregistered-IsRegistry, noted-IsRegistry,
}
use bufferpool.Lease.{LeaseRegistry, LeaseRecord}
use bufferpool.Lease.Counted.{SameLeases, counted-IsRegistry}
use bufferpool.Lease.Ledger.{
  Event, acquire_events, section_events, Trace, ledger_of, unmoved, appended-Trace, noted-Trace,
  redeemed-Trace,
}
use bufferpool.Lease.Stays.{StayReleased, same_records, appended_stay, changed_stay}

-- What a step does to the records and the invariant.
pub record Keeps (r : LeaseRegistry) (events : List Event) (after : LeaseRegistry) : Type 0 where
  pub self : after.self ≡ r.self
  pub grows : length r.records ≤ length after.records
  pub invariant : IsRegistry r → length after.records < 2 ^ 64 → IsRegistry after
  pub released : StayReleased r.records after.records
  pub trace :
      IsRegistry r
      → length after.records < 2 ^ 64
      → Trace (ledger_of r.records) events (ledger_of after.records)

abbrev pub IsAcquired : LeaseRegistry → Acquired → Type 0
IsAcquired r a = Keeps r (acquire_events a.lease) a.registry

abbrev pub IsSectioned : LeaseRegistry → ℕ → LeaseRegistry × Section → Type 0
IsSectioned r index result = Keeps r (section_events index result.1) result.0

Keeps-refl : (r : LeaseRegistry) → Keeps r [] r
Keeps-refl r = record {
  self = refl;
  grows = omega arith;
  invariant = λ v few. v;
  released = same_records r.records;
  trace = λ v few. unmoved (ledger_of r.records);
}

pub count_with-Keeps :
    (f : LeaseCounters → LeaseCounters) (r : LeaseRegistry)
    → SameLeases r.counters (f r.counters)
    → Holds (Keeps r []) (count_with f r)
unfolding advance
count_with-Keeps f r s = Holds->>= (Keeps r []) (advance r.generation) _ λ generation e. record {
  self = refl;
  grows = omega arith;
  invariant = λ v few. counted-IsRegistry r (f r.counters) generation v s;
  released = same_records r.records;
  trace = λ v few. unmoved (ledger_of r.records);
}

register-Keeps :
    (r : LeaseRegistry) (pool : ℕ) (buffer : Slice) (requested : Size) (origin_class : ClassSize)
    → 0 < capacity buffer
    → allows_acquire r ≡ ok true
    → Holds (IsAcquired r) (
        register
          (record r { next_id = counter_inc r.next_id })
          (new_record (counter_inc r.next_id) pool buffer requested origin_class))
unfolding register allows_acquire registered
register-Keeps r pool buffer requested origin_class some_capacity open_now =
    let made = new_record (counter_inc r.next_id) pool buffer requested origin_class in
    let n : length (r.records ++ made ∷ []) ≡ suc (length r.records) =
      omega (arith, length-append r.records (made ∷ [])) in
    Holds->>= (IsAcquired r) (allows_acquire r) _ λ b e.
      let is_open : b ≡ true = cc in
      Holds-if (IsAcquired r) (not b) _ _ (λ c. cc)
        (λ c. Holds->>= (IsAcquired r) (advance r.generation) _ λ generation g. record {
          self = refl;
          grows = omega (arith, n);
          invariant = λ v few.
              registered-IsRegistry r made generation v (omega (arith, n))
                (record {
                  numbered = omega (arith, v.counted, n);
                  in_use = inl refl;
                  acquired = refl;
                  some_capacity = some_capacity;
                  based = refl;
                })
                refl;
          released = appended_stay r.records made;
          trace = λ v few. appended-Trace r.records made refl;
        })

acquire_with-Keeps :
    (r : LeaseRegistry) (pool : ℕ) (requested : Size) (got : Result ℕ Slice)
    (origin_class_for : ℕ → Option ClassSize)
    → allows_acquire r ≡ ok true
    → Holds (IsAcquired r) (acquire_with r pool requested got origin_class_for)
unfolding acquire_with
acquire_with-Keeps r pool requested (err failure) origin_class_for open_now = Keeps-refl r
acquire_with-Keeps r pool requested (ok buffer) origin_class_for open_now =
    Holds-if (IsAcquired r) (capacity buffer == 0) _ _ (λ z. Keeps-refl r)
      (λ nz. elim (Option-cases (origin_class_for (capacity buffer))) [
        | inl e ↦ rw e (Keeps-refl r)
        | inr e ↦
            rw (e.1) (register-Keeps r pool buffer requested e.0 (ground (arith, nz)) open_now)
      ])

pub acquire_size-Keeps :
    (r : LeaseRegistry) (pool : Option ℕ) (requested : Size) (got : Result ℕ Slice)
    (origin_class_for : ℕ → Option ClassSize)
    → Holds (IsAcquired r) (acquire_size r pool requested got origin_class_for)
unfolding acquire_size
acquire_size-Keeps r none requested got origin_class_for = Keeps-refl r
acquire_size-Keeps r (some pool) requested got origin_class_for =
    Holds-if (IsAcquired r) (is_zero requested) _ _ (λ z. Keeps-refl r)
      (λ nz. Holds->>= (IsAcquired r) (allows_acquire r) _ λ b e.
        Holds-if (IsAcquired r) (not b) _ _ (λ c. Keeps-refl r)
          (λ c.
            let is_open : b ≡ true = ground (arith, c) in
            acquire_with-Keeps r pool requested got origin_class_for
              (subst (λ x. allows_acquire r ≡ ok x) is_open e)))

still_active :
    {x : LeaseRecord} {id : ℕ}
    → IsRecord x id
    → is_released x.state ≡ false
    → is_active x.state ≡ true
still_active w nd = elim (w.in_use) [ inl a ↦ a | inr released ↦ cc ]

pub release_section-Keeps :
    (r : LeaseRegistry) (index : ℕ) (found : LeaseRecord) (buffer : Slice)
    → get_elem? r.records index ≡ some found
    → Holds (IsSectioned r index) (release_section r index found buffer)
unfolding release_section unregistered
release_section-Keeps r index found buffer e =
    let back = canonical_return_buffer found buffer r.ownership in
    Holds-if (IsSectioned r index) (is_released found.state) _ _ (λ d. Keeps-refl r)
      (λ nd. elim (Result-cases (validate_lease_release found buffer r.ownership)) [
        | inl bad ↦
            let made = record found { last_violation = bad.0.violation } in
            rw (bad.1) (record {
              self = refl;
              grows = omega (arith, length-set r.records index made);
              invariant = λ v few. noted-IsRegistry r index found bad.0.violation v e;
              released = changed_stay r.records index found made e (λ h. h);
              trace = λ v few. noted-Trace r.records index found made e refl;
            })
        | inr good ↦
            let made = released_record found back in
            rw (good.1) (
              Holds->>= (IsSectioned r index) (advance r.generation) _ λ generation g. record {
                self = refl;
                grows = omega (arith, length-set r.records index made);
                invariant = λ v few.
                    unregistered-IsRegistry r index found back generation v e
                      (still_active (v.records index found e) nd);
                released = changed_stay r.records index found made e (λ h. refl);
                trace = λ v few.
                    redeemed-Trace r.records index found made e
                      (still_active (v.records index found e) nd) refl;
              })
      ])

living :
    (r : LeaseRegistry) (state : LifecycleState) (generation : Generation)
    → IsRegistry r
    → IsRegistry (record r { lifecycle = state; generation = generation })
living r state generation v = record {
  counted = v.counted;
  few = v.few;
  records = v.records;
  mapped = v.mapped;
  leases = v.leases;
  bytes = v.bytes;
  acquisitions = v.acquisitions;
  releases = v.releases;
}

pub close-Keeps : (r : LeaseRegistry) → Holds (Keeps r []) (close r)
unfolding close
close-Keeps r = Holds->>= (Keeps r []) (perform begin_or_continue_close r.lifecycle) _ λ begun e.
    Holds-if (Keeps r []) (not begun.1) _ _
      (λ c. record {
        self = refl;
        grows = omega arith;
        invariant = λ v few. living r begun.0 r.generation v;
        released = same_records r.records;
        trace = λ v few. unmoved (ledger_of r.records);
      })
      (λ c. Holds->>= (Keeps r []) (perform mark_closed begun.0) _ λ marked m.
        Holds->>= (Keeps r []) (advance r.generation) _ λ generation g. record {
          self = refl;
          grows = omega arith;
          invariant = λ v few. living r marked.0 generation v;
          released = same_records r.records;
          trace = λ v few. unmoved (ledger_of r.records);
        })
