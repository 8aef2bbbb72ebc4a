-- ===== src/Lease/Ledger.antt =====
-- An abstract ledger of leases, which has no records, buffers or counters: lease_registry.go and
-- lease_registry_release.go promise it to their clients.
use bufferpool.Base.{
  ℕ, zero, suc, ◌<◌, ◌≡◌, ◌∙◌, inl, inr, refl, ap, true, if◌then◌else◌, ◌==◌, Bool-cases, List, [],
  ◌∷◌, ◌++◌, Option, none, some, Result, ok, err, length, get_elem?, set, arith, get_elem?-below,
}
use bufferpool.Lease.Release.{Section, rejected, returns, is_active}
use bufferpool.Lease.{Lease, LeaseError, LeaseRecord, LeaseState, LeaseId}

-- Where a lease stands.
pub data Standing : Type 0 where
  unissued : Standing
  outstanding : Standing
  redeemed : Standing

abbrev pub Ledger : Type 0
Ledger = LeaseId → Standing

abbrev pub put_standing : Ledger → LeaseId → Standing → Ledger
put_standing ledger id standing other = if other == id then standing else ledger other

-- What a client of the registry is told: a lease is handed out, or its buffer goes back to the pool.
pub data Event : Type 0 where
  issue redeem : LeaseId → Event

-- The events that a ledger allows, the last one first: a lease is issued that never was, or one that
-- is outstanding is redeemed.
pub data Trace (ledger : Ledger) : List Event → Ledger → Type 0 where
  rests : {after : Ledger} → ((id : LeaseId) → after id ≡ ledger id) → Trace ledger [] after
  issues :
      {events : List Event} {between after : Ledger} (id : LeaseId)
      → Trace ledger events between
      → between id ≡ unissued
      → ((other : LeaseId) → after other ≡ put_standing between id outstanding other)
      → Trace ledger (issue id ∷ events) after
  redeems :
      {events : List Event} {between after : Ledger} (id : LeaseId)
      → Trace ledger events between
      → between id ≡ outstanding
      → ((other : LeaseId) → after other ≡ put_standing between id redeemed other)
      → Trace ledger (redeem id ∷ events) after

pub unmoved : (ledger : Ledger) → Trace ledger [] ledger
unmoved ledger = rests (λ id. refl)

retold :
    {ledger between after : Ledger} {events : List Event}
    → Trace ledger events between
    → ((id : LeaseId) → after id ≡ between id)
    → Trace ledger events after
retold (rests same) e = rests (λ id. e id ∙ same id)
retold (issues id trace free step) e = issues id trace free (λ other. e other ∙ step other)
retold (redeems id trace owed step) e = redeems id trace owed (λ other. e other ∙ step other)

pub Trace-then :
    {ledger between after : Ledger} {events more : List Event}
    → Trace ledger events between
    → Trace between more after
    → Trace ledger (more ++ events) after
Trace-then first (rests same) = retold first same
Trace-then first (issues id trace free step) = issues id (Trace-then first trace) free step
Trace-then first (redeems id trace owed step) = redeems id (Trace-then first trace) owed step

-- The lease of AcquireSize's answer is issued; lease `n + 1` is that of record n.
abbrev pub acquire_events : Result LeaseError Lease → List Event
acquire_events (err e) = []
acquire_events (ok lease) = elim lease.record_pointer [
  | none ↦ []
  | some p ↦ issue (suc p.index) ∷ []
]

-- A release that hands a buffer to the pool redeems its lease.
abbrev pub section_events : ℕ → Section → List Event
section_events index (rejected violation failure) = []
section_events index (returns pool input) = redeem (suc index) ∷ []

abbrev pub standing_of : LeaseState → Standing
standing_of LeaseState.active = outstanding
standing_of LeaseState.released = redeemed
standing_of _ = unissued

abbrev pub standing_at : List LeaseRecord → ℕ → Standing
standing_at records index = elim (get_elem? records index) [
  | none ↦ unissued
  | some x ↦ standing_of x.state
]

-- The ledger that the records of a registry implement.
abbrev pub ledger_of : List LeaseRecord → Ledger
ledger_of records zero = unissued
ledger_of records (suc index) = standing_at records index

standing_at-append :
    (records : List LeaseRecord) (made : LeaseRecord) (index : ℕ)
    → standing_at (records ++ made ∷ []) index
      ≡ (if index == length records then standing_of made.state else standing_at records index)
standing_at-append [] made zero = refl
standing_at-append [] made (suc index) = ground arith
standing_at-append (x ∷ records) made zero = ground arith
standing_at-append (x ∷ records) made (suc index) =
    ground (arith, standing_at-append records made index)

standing_at-set :
    (records : List LeaseRecord) (made : LeaseRecord) (i index : ℕ)
    → i < length records
    → standing_at (set records i made) index
      ≡ (if index == i then standing_of made.state else standing_at records index)
standing_at-set [] made i index h = absurd (omega arith)
standing_at-set (x ∷ records) made zero zero h = refl
standing_at-set (x ∷ records) made zero (suc index) h = ground arith
standing_at-set (x ∷ records) made (suc i) zero h = ground arith
standing_at-set (x ∷ records) made (suc i) (suc index) h =
    ground (arith, standing_at-set records made i index (omega arith))

standing_at-end : (records : List LeaseRecord) → standing_at records (length records) ≡ unissued
standing_at-end [] = refl
standing_at-end (x ∷ records) = standing_at-end records

pub appended-Trace :
    (records : List LeaseRecord) (made : LeaseRecord)
    → standing_of made.state ≡ outstanding
    → Trace
        (ledger_of records)
        (issue (suc (length records)) ∷ [])
        (ledger_of (records ++ made ∷ []))
appended-Trace records made active =
    issues (suc (length records)) (unmoved _) (standing_at-end records) moved
  where
    moved :
        (other : LeaseId)
        → ledger_of (records ++ made ∷ []) other
          ≡ put_standing (ledger_of records) (suc (length records)) outstanding other
    moved zero = ground arith
    moved (suc index) = ground (arith, standing_at-append records made index, active)

set-Ledger :
    (records : List LeaseRecord) (made : LeaseRecord) (i : ℕ)
    → i < length records
    → (other : LeaseId)
    → ledger_of (set records i made) other
      ≡ put_standing (ledger_of records) (suc i) (standing_of made.state) other
set-Ledger records made i inside zero = ground arith
set-Ledger records made i inside (suc index) =
    ground (arith, standing_at-set records made i index inside)

pub redeemed-Trace :
    (records : List LeaseRecord) (i : ℕ) (found made : LeaseRecord)
    → get_elem? records i ≡ some found
    → is_active found.state ≡ true
    → standing_of made.state ≡ redeemed
    → Trace (ledger_of records) (redeem (suc i) ∷ []) (ledger_of (set records i made))
redeemed-Trace records i found made at active released =
    redeems (suc i) (unmoved _) (ap standing_found at ∙ is_outstanding found.state active) (λ other.
      set-Ledger records made i (get_elem?-below records i found at) other
      ∙ ap (λ standing. put_standing (ledger_of records) (suc i) standing other) released)
  where
    standing_found : Option LeaseRecord → Standing
    standing_found o = elim o [ none ↦ unissued | some x ↦ standing_of x.state ]

    is_outstanding : (state : LeaseState) → is_active state ≡ true → standing_of state ≡ outstanding
    is_outstanding LeaseState.active e = refl
    is_outstanding LeaseState.released e = cc
    is_outstanding LeaseState.invalid e = cc

pub noted-Trace :
    (records : List LeaseRecord) (i : ℕ) (found made : LeaseRecord)
    → get_elem? records i ≡ some found
    → made.state ≡ found.state
    → Trace (ledger_of records) [] (ledger_of (set records i made))
noted-Trace records i found made at same = rests (λ other.
    set-Ledger records made i (get_elem?-below records i found at) other ∙ unchanged other)
  where
    at_found : standing_at records i ≡ standing_of made.state
    at_found = rw (standing_at, at, same) refl

    unchanged :
        (other : LeaseId)
        → put_standing (ledger_of records) (suc i) (standing_of made.state) other
          ≡ ledger_of records other
    unchanged zero = ground arith
    unchanged (suc index) = elim (Bool-cases (index == i)) [
      | inl e ↦
          let here : index ≡ i = ground (arith, e) in
          ground (arith, e, at_found, ap (standing_at records) here)
      | inr ne ↦ ground (arith, ne)
    ]
