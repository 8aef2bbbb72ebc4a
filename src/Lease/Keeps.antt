-- ===== src/Lease/Keeps.antt =====
-- Each update of a registry keeps its invariant.
use bufferpool.Base.{
  ℕ, suc, ◌^◌, ◌<◌, ◌≤◌, ◌≡◌, ◌≢◌, inl, inr, refl, sym, subst, ◌∙◌, true, ◌==◌, ltb, ltb→lt,
  Bool-cases, List, [], ◌∷◌, ◌++◌, none, some, length, get_elem?, set, length-append, length-set,
  arith,
}
use bufferpool.Slice.{Slice, capacity}
use bufferpool.Atomic.{counter_inc}
use bufferpool.Generation.{Generation}
use bufferpool.Lease.Counters.{OwnershipViolationKind, record_acquire, record_release}
use bufferpool.Lease.Registry.{put_active}
use bufferpool.Lease.Release.{is_active, released_record}
use bufferpool.Lease.Total.{total, total-append, total-set}
use bufferpool.Base.{
  get_elem?-append, get_elem?-append_end, get_elem?-below, get_elem?-set_self, get_elem?-set_ne,
}
use bufferpool.Lease.Inv.{
  one_if_active, capacity_if_active, is_active_at, active_of, IsRecord, IsRegistry,
  active_of-append, active_of-set, active_of-set_same,
}
use bufferpool.Lease.{LeaseRegistry, LeaseRecord, LeaseId}

-- The registry after the critical section of AcquireSize.
unfoldable pub registered : LeaseRegistry → LeaseRecord → Generation → LeaseRegistry
unfolding record_acquire
registered r made generation = record r {
  next_id = counter_inc r.next_id;
  records = r.records ++ made ∷ [];
  active = put_active r.active made.id (some (length r.records));
  counters = record_acquire r.counters made.requested_size made.acquired_capacity;
  generation = generation;
}

-- And after the one of a release that is accepted.
unfoldable pub unregistered : LeaseRegistry → ℕ → LeaseRecord → Slice → Generation → LeaseRegistry
unfolding record_release
unregistered r index x buffer generation = record r {
  records = set r.records index (released_record x buffer);
  active = put_active r.active x.id none;
  counters = record_release r.counters x.acquired_capacity (capacity buffer);
  generation = generation;
}

some_injective : {A : Type 0} {x y : A} → some x ≡ some y → x ≡ y
some_injective e = cc

-- The records are numbered by their places.
abbrev AreRecords : List LeaseRecord → Type 0
AreRecords records =
    (index : ℕ) (x : LeaseRecord) → get_elem? records index ≡ some x → IsRecord x (suc index)

appended_records :
    (records : List LeaseRecord) (made : LeaseRecord)
    → AreRecords records
    → IsRecord made (suc (length records))
    → AreRecords (records ++ made ∷ [])
appended_records records made v m index x e =
    let below = get_elem?-below (records ++ made ∷ []) index x e in
    let n = length-append records (made ∷ []) in
    elim (Bool-cases (ltb index (length records))) [
      | inl lt ↦ v index x (sym (get_elem?-append records index made (ltb→lt _ _ lt)) ∙ e)
      | inr ge ↦
          let last : index ≡ length records = ground (arith, ge, below, n) in
          let same : made ≡ x = some_injective (
            sym (get_elem?-append_end records made)
            ∙ subst (λ i. get_elem? (records ++ made ∷ []) i ≡ some x) last e) in
          subst (λ i. IsRecord x (suc i)) (sym last)
            (subst (λ y. IsRecord y (suc (length records))) same m)
    ]

changed_records :
    (records : List LeaseRecord) (i : ℕ) (made : LeaseRecord)
    → i < length records
    → AreRecords records
    → IsRecord made (suc i)
    → AreRecords (set records i made)
changed_records records i made inside v m index x e = elim (Bool-cases (i == index)) [
  | inl eq ↦
      let at : i ≡ index = ground (arith, eq) in
      let same : made ≡ x = some_injective (
        sym (get_elem?-set_self records i made inside)
        ∙ subst (λ j. get_elem? (set records i made) j ≡ some x) (sym at) e) in
      subst (λ j. IsRecord x (suc j)) at (subst (λ y. IsRecord y (suc i)) same m)
  | inr ne ↦
      let apart : i ≢ index = λ h. ground (arith, ne, h) in
      v index x (sym (get_elem?-set_ne records i index made apart) ∙ e)
]

pub total_le_length : (records : List LeaseRecord) → total one_if_active records ≤ length records
total_le_length [] = omega arith
total_le_length (x ∷ records) = ground (arith, total_le_length records)

pub registered-IsRegistry :
    (r : LeaseRegistry) (made : LeaseRecord) (generation : Generation)
    → IsRegistry r
    → suc (length r.records) < 2 ^ 64
    → IsRecord made (suc (length r.records))
    → is_active made.state ≡ true
    → IsRegistry (registered r made generation)
unfolding registered record_acquire
registered-IsRegistry r made generation v few m a =
    let n : length (r.records ++ made ∷ []) ≡ suc (length r.records) =
      omega (arith, length-append r.records (made ∷ [])) in
    let ones = total-append one_if_active r.records made in
    let bytes = total-append capacity_if_active r.records made in
    let below = total_le_length r.records in
    record {
      counted = omega (arith, n, v.counted);
      few = omega (arith, n);
      records = appended_records r.records made v.records m;
      mapped = λ id.
          subst
            (λ key.
              put_active r.active key (some (length r.records)) id
              ≡ active_of (r.records ++ made ∷ []) id)
            (sym m.numbered) (active_of-append r.records made r.active id a (v.mapped id));
      leases = ground (arith, a, ones, v.leases, below);
      bytes = ground (arith, a, bytes, v.bytes);
      acquisitions = omega (arith, n, v.acquisitions);
      releases = ground (arith, a, ones, v.releases, n);
    }

pub unregistered-IsRegistry :
    (r : LeaseRegistry) (index : ℕ) (x : LeaseRecord) (buffer : Slice) (generation : Generation)
    → IsRegistry r
    → get_elem? r.records index ≡ some x
    → is_active x.state ≡ true
    → IsRegistry (unregistered r index x buffer generation)
unfolding unregistered record_release
unregistered-IsRegistry r index x buffer generation v e a =
    let made = released_record x buffer in
    let n : length (set r.records index made) ≡ length r.records =
      length-set r.records index made in
    let ones = total-set one_if_active r.records index x made e in
    let bytes = total-set capacity_if_active r.records index x made e in
    let below = total_le_length r.records in
    let inside = get_elem?-below r.records index x e in
    record {
      counted = omega (arith, n, v.counted);
      few = omega (arith, n, v.few);
      records =
          changed_records r.records index made inside v.records
            (now_released (v.records index x e));
      mapped = λ id.
          subst (λ key. put_active r.active key none id ≡ active_of (set r.records index made) id)
            (sym (v.records index x e).numbered)
            (active_of-set r.records made index r.active id inside refl (v.mapped id));
      leases = ground (arith, a, ones, v.leases, below, v.few);
      bytes = ground (arith, a, bytes, v.bytes);
      acquisitions = omega (arith, n, v.acquisitions);
      releases = ground (arith, a, ones, v.releases, n, v.few);
    }
  where
    now_released : IsRecord x (suc index) → IsRecord (released_record x buffer) (suc index)
    now_released w = record {
      numbered = w.numbered;
      in_use = inr refl;
      acquired = w.acquired;
      some_capacity = w.some_capacity;
      based = w.based;
    }

-- A change to a record that is none to its state or its buffer.
pub noted-IsRegistry :
    (r : LeaseRegistry) (index : ℕ) (x : LeaseRecord) (violation : OwnershipViolationKind)
    → IsRegistry r
    → get_elem? r.records index ≡ some x
    → IsRegistry
        (record r { records = set r.records index (record x { last_violation = violation }) })
noted-IsRegistry r index x violation v e =
    let made = record x { last_violation = violation } in
    let n : length (set r.records index made) ≡ length r.records =
      length-set r.records index made in
    let ones = total-set one_if_active r.records index x made e in
    let bytes = total-set capacity_if_active r.records index x made e in
    let inside = get_elem?-below r.records index x e in
    record {
      counted = omega (arith, n, v.counted);
      few = omega (arith, n, v.few);
      records =
          changed_records r.records index made inside v.records
            (still x violation (suc index) (v.records index x e));
      mapped = λ id.
          v.mapped id
          ∙ active_of-set_same r.records made index id inside (rw (is_active_at, e) refl);
      leases = omega (arith, ones, v.leases);
      bytes = omega (arith, bytes, v.bytes);
      acquisitions = omega (arith, n, v.acquisitions);
      releases = omega (arith, ones, v.releases, n);
    }
  where
    still :
        (y : LeaseRecord) (k : OwnershipViolationKind) (id : LeaseId)
        → IsRecord y id
        → IsRecord (record y { last_violation = k }) id
    still y k id w = record {
      numbered = w.numbered;
      in_use = w.in_use;
      acquired = w.acquired;
      some_capacity = w.some_capacity;
      based = w.based;
    }
