-- ===== src/Lease/Checks.antt =====
-- ownership_policy.go and ownership_validation.go: what the checks of a registry let through.
use bufferpool.Base.{
  ℕ, ◌*◌, ◌/◌, ◌≤◌, ◌<◌, min, max, ◌≡◌, ◌↔◌, refl, Bool, true, false, not, ◌&&◌, ◌||◌, ltb, ◌==◌,
  Option, none, some, ok, err, ◌>>◌, fail_if, max_uint64, arith,
}
use bufferpool.Size.{ClassSize}
use bufferpool.Slice.{Slice, capacity, is_nil}
use bufferpool.Policy.{OwnershipPolicy, OwnershipMode, PolicyRatio, ownership_is_zero}
use bufferpool.Lease.{LeaseRecord}
use bufferpool.Lease.Ownership.{
  requires_lease, is_strict_mode, is_unset_mode, enforces_strict_buffer_identity,
  enforces_capacity_growth, normalize_for_lease_registry, validate_for_lease_registry, ConfigError,
  buffer_backing_data, same_address, ownership_max_returned_capacity, Refusal,
  validate_lease_release,
}

-- The largest capacity that a release may have: the class size times the ratio, in basis points,
-- rounded down, but at least 1 and at most 2 ^ 64 - 1. A ratio of 0 means the class size.
pub ownership_max_returned_capacity_lem :
    (origin : ClassSize) (ratio : PolicyRatio)
    → (ratio ≡ 0 → ownership_max_returned_capacity origin ratio ≡ origin)
      × (0 < ratio
          → ownership_max_returned_capacity origin ratio
            ≡ max 1 (min ((origin * ratio) / 10000) max_uint64))
unfolding ownership_max_returned_capacity
ownership_max_returned_capacity_lem origin ratio = ((λ z. ground arith), λ h. ground arith)

-- A buffer that may be released under a policy.
pub record IsReturnable (r : LeaseRecord) (buffer : Slice) (p : OwnershipPolicy) : Type 0 where
  pub some_buffer : is_nil buffer ≡ false
  pub some_capacity : 0 < capacity buffer
  pub same_base : is_strict_mode p.mode ≡ true → buffer_backing_data buffer ≡ r.base
  pub within :
      requires_lease p.mode ≡ true
      → 0 < p.max_returned_capacity_growth
      → capacity buffer
        ≤ ownership_max_returned_capacity r.origin_class p.max_returned_capacity_growth

pub same_address_iff : (a b : Option ℕ) → (same_address a b ≡ true) ↔ (a ≡ b)
same_address_iff none none = ((λ e. refl), λ e. refl)
same_address_iff none (some b) = ((λ e. cc), λ e. cc)
same_address_iff (some a) none = ((λ e. cc), λ e. cc)
same_address_iff (some a) (some b) = ((λ e. ground (arith, e)), λ e. ground (arith, e))

guards_iff :
    (a b c d : Bool) (e1 e2 e3 e4 : Refusal)
    → ((fail_if a e1 >> fail_if b e2 >> fail_if c e3 >> fail_if d e4) ≡ ok tt)
      ↔ ((a ≡ false) × (b ≡ false) × (c ≡ false) × (d ≡ false))
guards_iff true b c d e1 e2 e3 e4 = ((λ h. cc), λ h. cc (h.0))
guards_iff false true c d e1 e2 e3 e4 = ((λ h. cc), λ h. cc (h.1))
guards_iff false false true d e1 e2 e3 e4 = ((λ h. cc), λ h. cc (h.2))
guards_iff false false false true e1 e2 e3 e4 = ((λ h. cc), λ h. cc (h.3))
guards_iff false false false false e1 e2 e3 e4 = ((λ h. (refl, refl, refl, refl)), λ h. refl)

and_not : (a b : Bool) → a ≡ true → (a && not b) ≡ false → b ≡ true
and_not true true e f = refl
and_not true false e f = cc
and_not false b e f = cc

not_and : (a b : Bool) → (a ≡ true → b ≡ true) → (a && not b) ≡ false
not_and true b h = rw (h refl) refl
not_and false b h = refl

within_limit :
    (leased : Bool) (growth limit n : ℕ)
    → ((leased && not (growth == 0) && ltb limit n) ≡ false)
      ↔ (leased ≡ true → 0 < growth → n ≤ limit)
within_limit true growth limit n =
    ((λ h e some. ground (arith, h, some)), λ h. ground (arith, h refl))
within_limit false growth limit n = ((λ h e. cc), λ h. refl)

-- validateLeaseRelease accepts a buffer exactly if it is not nil and not empty, in strict mode begins
-- where the acquired one begins, and, where the mode and the policy limit growth, its capacity is
-- within the limit.
pub validate_lease_release_iff :
    (r : LeaseRecord) (buffer : Slice) (p : OwnershipPolicy)
    → (validate_lease_release r buffer p ≡ ok tt) ↔ IsReturnable r buffer p
unfolding validate_lease_release
validate_lease_release_iff r buffer p = (sound, complete)
  where
    foreign : Bool
    foreign =
        enforces_strict_buffer_identity p && not (same_address (buffer_backing_data buffer) r.base)

    limit : ℕ
    limit = ownership_max_returned_capacity r.origin_class p.max_returned_capacity_growth

    grown : Bool
    grown = enforces_capacity_growth p && ltb limit (capacity buffer)

    sound : validate_lease_release r buffer p ≡ ok tt → IsReturnable r buffer p
    sound e =
        let g = (guards_iff (is_nil buffer) (capacity buffer == 0) foreign grown _ _ _ _).0 e in
        record {
          some_buffer = g.0;
          some_capacity = ground (arith, g.1);
          same_base = λ strict.
              (same_address_iff (buffer_backing_data buffer) r.base).0
                (and_not (is_strict_mode p.mode) _ strict g.2);
          within = λ leased some_growth.
              (within_limit (requires_lease p.mode) p.max_returned_capacity_growth limit
                  (capacity buffer)).0
                g.3 leased some_growth;
        }

    complete : IsReturnable r buffer p → validate_lease_release r buffer p ≡ ok tt
    complete v = (guards_iff (is_nil buffer) (capacity buffer == 0) foreign grown _ _ _ _).1 (
      v.some_buffer,
      ground (arith, v.some_capacity),
      not_and (is_strict_mode p.mode) _
          (λ strict. (same_address_iff (buffer_backing_data buffer) r.base).1 (v.same_base strict)),
      (within_limit (requires_lease p.mode) p.max_returned_capacity_growth limit
            (capacity buffer)).1
          v.within,
    )

-- What NormalizeForLeaseRegistry makes of a policy that a registry takes.
pub record IsLeasePolicy (p : OwnershipPolicy) : Type 0 where
  pub leased : requires_lease p.mode ≡ true
  pub bytes : p.track_in_use_bytes ≡ true
  pub buffers : p.track_in_use_buffers ≡ true
  pub detects : p.detect_double_release ≡ true
  pub growth : 0 < p.max_returned_capacity_growth

abbrev pub is_usable_mode : OwnershipMode → Bool
is_usable_mode mode = requires_lease mode || is_unset_mode mode

usable_cases :
    (m : OwnershipMode) (b c d : Bool) (g : ℕ)
    → let p : OwnershipPolicy = record {
      mode = m;
      track_in_use_bytes = b;
      track_in_use_buffers = c;
      detect_double_release = d;
      max_returned_capacity_growth = g;
    } in
      (is_usable_mode m ≡ true
        → IsLeasePolicy (normalize_for_lease_registry p)
          × (validate_for_lease_registry (normalize_for_lease_registry p) ≡ ok tt))
      × (is_usable_mode m ≡ false
          → (e : ConfigError) × (validate_for_lease_registry (normalize_for_lease_registry p)
              ≡ err e))
unfolding normalize_for_lease_registry validate_for_lease_registry ownership_is_zero
usable_cases OwnershipMode.unset b c d g = (
  (λ h. (
    record {
      leased = ground arith;
      bytes = ground arith;
      buffers = ground arith;
      detects = ground arith;
      growth = ground arith;
    },
    ground arith,
  )),
  λ h. cc,
)
usable_cases OwnershipMode.none b c d g =
    ((λ h. cc), λ h. (ConfigError.no_lease_mode, ground arith))
usable_cases (OwnershipMode.unknown v) b c d g =
    ((λ h. cc), λ h. (ConfigError.unsupported_mode, ground arith))
usable_cases OwnershipMode.accounting b c d g = (
  (λ h. (
    record {
      leased = ground arith;
      bytes = ground arith;
      buffers = ground arith;
      detects = ground arith;
      growth = ground arith;
    },
    ground arith,
  )),
  λ h. cc,
)
usable_cases OwnershipMode.strict b c d g = (
  (λ h. (
    record {
      leased = ground arith;
      bytes = ground arith;
      buffers = ground arith;
      detects = ground arith;
      growth = ground arith;
    },
    ground arith,
  )),
  λ h. cc,
)

-- A registry takes a policy in accounting or strict mode, or one without a mode, and normalises it to
-- one that tracks and detects everything and limits growth. It refuses every other policy.
pub normalize-IsLeasePolicy :
    (p : OwnershipPolicy)
    → (is_usable_mode p.mode ≡ true
        → IsLeasePolicy (normalize_for_lease_registry p)
          × (validate_for_lease_registry (normalize_for_lease_registry p) ≡ ok tt))
      × (is_usable_mode p.mode ≡ false
          → (e : ConfigError) × (validate_for_lease_registry (normalize_for_lease_registry p)
              ≡ err e))
normalize-IsLeasePolicy p =
    usable_cases p.mode p.track_in_use_bytes p.track_in_use_buffers p.detect_double_release
      p.max_returned_capacity_growth
