-- ===== src/Lease/Refines.antt =====
-- A lease registry against the ledger of its leases: lease_registry.go, lease_registry_release.go and
-- lease_registry_lifecycle.go as a whole.
use bufferpool.Base.{
  subst, append_nil, ℕ, zero, suc, ◌^◌, ◌<◌, ◌≡◌, refl, Bool, true, false, Bool-cases, inl, inr,
  List, [], Option, none, some, ok, Holds, Holds->>=, length, get_elem?, Option-cases,
}
use bufferpool.Policy.{OwnershipPolicy}
use bufferpool.Lifecycle.{perform, activate, created}
use bufferpool.Lease.Ownership.{normalize_for_lease_registry, validate_for_lease_registry}
use bufferpool.Lease.Registry.{new_lease_registry, fresh_registry}
use bufferpool.Lease.Release.{is_active}
use bufferpool.Lease.Inv.{is_active_at, active_of, IsRegistry}
use bufferpool.Lease.Ledger.{
  Standing, unissued, outstanding, Ledger, Trace, rests, Trace-then, standing_of, standing_at,
  ledger_of,
}
use bufferpool.Lease.Reach.{Run, run_events, Run-Keeps, new_lease_registry-IsRegistry, returned}
use bufferpool.Lease.{LeaseRegistry, LeaseRecord, LeaseState, LeaseId}

abbrev pub no_lease : Ledger
no_lease id = unissued

abbrev pub is_outstanding : Standing → Bool
is_outstanding outstanding = true
is_outstanding _ = false

abbrev pub has_entry : Option ℕ → Bool
has_entry none = false
has_entry (some index) = true

empty-Ledger : (records : List LeaseRecord) → records ≡ [] → Trace no_lease [] (ledger_of records)
empty-Ledger records e = rw e (rests nothing)
  where
    nothing : (id : LeaseId) → ledger_of [] id ≡ unissued
    nothing zero = refl
    nothing (suc index) = refl

new_lease_registry-empty :
    (self : ℕ) (config : OwnershipPolicy)
    → Holds (Holds (λ r. r.records ≡ [])) (new_lease_registry self config)
unfolding new_lease_registry
new_lease_registry-empty self config =
    let normalized = normalize_for_lease_registry config in
    Holds->>= (Holds (λ r. r.records ≡ [])) (validate_for_lease_registry normalized) _ λ u valid.
      Holds->>= (λ r. r.records ≡ []) (perform activate created)
        (λ activated. ok (fresh_registry self normalized activated.0)) λ activated e. refl

state_outstanding : (state : LeaseState) → is_outstanding (standing_of state) ≡ is_active state
state_outstanding LeaseState.invalid = refl
state_outstanding LeaseState.active = refl
state_outstanding LeaseState.released = refl

entry_outstanding :
    (records : List LeaseRecord) (id : LeaseId)
    → has_entry (active_of records id) ≡ is_outstanding (ledger_of records id)
entry_outstanding records zero = refl
entry_outstanding records (suc index) = elim (Option-cases (get_elem? records index)) [
  | inl e ↦ rw (is_active_at, standing_at, e) refl
  | inr e ↦ elim (Bool-cases (is_active (e.0).state)) [
    | inl a ↦ rw (is_active_at, standing_at, e.1, state_outstanding (e.0).state, a) refl
    | inr a ↦ rw (is_active_at, standing_at, e.1, state_outstanding (e.0).state, a) refl
  ]
]

-- A registry refines a ledger that issues a lease at most once and redeems it at most once, after it was
-- issued: in any run from its creation, one step after the other, with fewer than 2 ^ 64 acquisitions,
-- the leases that acquisitions answer with and the leases whose buffers the releases hand to the pool,
-- in their order, are events that the ledger allows from the start with no lease. In the ledger that
-- they lead to, which is that of the records, the outstanding leases are those with an entry in the map
-- of active leases.
pub Run-refines :
    (self : ℕ) (config : OwnershipPolicy) (r s : LeaseRegistry)
    → new_lease_registry self config ≡ ok (ok r)
    → (run : Run r s) → length s.records < 2 ^ 64
    → Trace no_lease (run_events run) (ledger_of s.records)
      × ((id : LeaseId) → has_entry (s.active id) ≡ is_outstanding (ledger_of s.records id))
Run-refines self config r s made run few =
    let none_yet =
      returned (Holds (λ x. x.records ≡ [])) _ (ok r) (new_lease_registry-empty self config) made in
    let start =
      returned (Holds IsRegistry) _ (ok r) (new_lease_registry-IsRegistry self config) made in
    let kept = Run-Keeps r s run in
    (
      subst (λ events. Trace no_lease events (ledger_of s.records)) (append_nil (run_events run))
          (Trace-then (empty-Ledger r.records none_yet) (kept.trace start few)),
      λ id. rw ((kept.invariant start few).mapped id) (entry_outstanding s.records id),
    )
