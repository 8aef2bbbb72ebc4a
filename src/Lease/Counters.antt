-- ===== src/Lease/Counters.antt =====
-- lease_counters.go and ownership_violation.go: what a registry counts. The counters wrap.
use bufferpool.Base.{ℕ, ◌+◌, ◌-◌, ◌%◌, ◌^◌, Bool, ◌&&◌, ◌==◌, if◌then◌else◌, max_uint64}
use bufferpool.Size.{Size}
use bufferpool.Atomic.{counter_add, counter_inc}

pub data OwnershipViolationKind : Type 0 where
  none invalid_lease double_release nil_buffer zero_capacity foreign_buffer capacity_growth :
      OwnershipViolationKind

pub record LeaseCounters : Type 0 where
  pub acquisitions : ℕ
  pub requested_bytes : ℕ
  pub acquired_bytes : ℕ
  pub releases : ℕ
  pub released_bytes : ℕ
  pub active_leases : ℕ
  pub active_bytes : ℕ
  pub invalid_releases : ℕ
  pub double_releases : ℕ
  pub ownership_violations : ℕ
  pub foreign_buffer_releases : ℕ
  pub capacity_growth_violations : ℕ
  pub pool_return_attempts : ℕ
  pub pool_return_successes : ℕ
  pub pool_return_failures : ℕ
  pub pool_return_closed_failures : ℕ
  pub pool_return_admission_failures : ℕ

abbrev pub zero_counters : LeaseCounters
zero_counters = record {
  acquisitions = 0;
  requested_bytes = 0;
  acquired_bytes = 0;
  releases = 0;
  released_bytes = 0;
  active_leases = 0;
  active_bytes = 0;
  invalid_releases = 0;
  double_releases = 0;
  ownership_violations = 0;
  foreign_buffer_releases = 0;
  capacity_growth_violations = 0;
  pool_return_attempts = 0;
  pool_return_successes = 0;
  pool_return_failures = 0;
  pool_return_closed_failures = 0;
  pool_return_admission_failures = 0;
}

unfoldable pub counters_is_zero : LeaseCounters → Bool
counters_is_zero s =
    s.acquisitions == 0
    && s.requested_bytes == 0
    && s.acquired_bytes == 0
    && s.releases == 0
    && s.released_bytes == 0
    && s.active_leases == 0
    && s.active_bytes == 0
    && s.invalid_releases == 0
    && s.double_releases == 0
    && s.ownership_violations == 0
    && s.foreign_buffer_releases == 0
    && s.capacity_growth_violations == 0
    && s.pool_return_attempts == 0
    && s.pool_return_successes == 0
    && s.pool_return_failures == 0
    && s.pool_return_closed_failures == 0
    && s.pool_return_admission_failures == 0

unfoldable pub release_attempts : LeaseCounters → ℕ
release_attempts s =
    (s.releases + s.invalid_releases + s.double_releases + s.ownership_violations) % 2 ^ 64

-- `^uint64(n - 1)`, which takes n off
abbrev pub complement_of_one_less : ℕ → ℕ
complement_of_one_less n = max_uint64 - (n + max_uint64) % 2 ^ 64

unfoldable pub record_acquire : LeaseCounters → Size → ℕ → LeaseCounters
record_acquire c requested acquired_capacity = record c {
  acquisitions = counter_inc c.acquisitions;
  requested_bytes = counter_add c.requested_bytes requested;
  acquired_bytes = counter_add c.acquired_bytes acquired_capacity;
  active_leases = counter_inc c.active_leases;
  active_bytes = counter_add c.active_bytes acquired_capacity;
}

unfoldable pub record_release : LeaseCounters → ℕ → ℕ → LeaseCounters
record_release c acquired_capacity returned_capacity = record c {
  releases = counter_inc c.releases;
  released_bytes = counter_add c.released_bytes returned_capacity;
  active_leases = counter_add c.active_leases max_uint64;
  active_bytes = counter_add c.active_bytes (complement_of_one_less acquired_capacity);
}

unfoldable pub count_invalid_release : LeaseCounters → OwnershipViolationKind → LeaseCounters
count_invalid_release c OwnershipViolationKind.double_release = record c {
  double_releases = counter_inc c.double_releases;
}
count_invalid_release c OwnershipViolationKind.foreign_buffer = record c {
  ownership_violations = counter_inc c.ownership_violations;
  foreign_buffer_releases = counter_inc c.foreign_buffer_releases;
}
count_invalid_release c OwnershipViolationKind.capacity_growth = record c {
  ownership_violations = counter_inc c.ownership_violations;
  capacity_growth_violations = counter_inc c.capacity_growth_violations;
}
count_invalid_release c _ = record c { invalid_releases = counter_inc c.invalid_releases }

unfoldable pub count_return_attempt : LeaseCounters → LeaseCounters
count_return_attempt c = record c { pool_return_attempts = counter_inc c.pool_return_attempts }

unfoldable pub count_return_success : LeaseCounters → LeaseCounters
count_return_success c = record c { pool_return_successes = counter_inc c.pool_return_successes }

-- The argument is `errors.Is(err, ErrClosed)`.
unfoldable pub count_return_failure : LeaseCounters → Bool → LeaseCounters
count_return_failure c is_closed =
    let failed = record c { pool_return_failures = counter_inc c.pool_return_failures } in
    if is_closed
    then record failed {
      pool_return_closed_failures = counter_inc failed.pool_return_closed_failures;
    }
    else record failed {
      pool_return_admission_failures = counter_inc failed.pool_return_admission_failures;
    }
