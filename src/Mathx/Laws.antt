-- ===== src/Mathx/Laws.antt =====
-- pow2.go: what NextPowerOfTwo computes.
use bufferpool.Base.{
  ℕ, zero, suc, ◌-◌, ◌*◌, ◌/◌, ◌^◌, ◌≤◌, ◌<◌, ◌≡◌, refl, inl, inr, Bool-cases, ◌==◌, ok, arith,
}
use bufferpool.Mathx.{bits, len64, next_power_of_two}

pub pow_suc : (n : ℕ) → 2 ^ suc n ≡ 2 * 2 ^ n
pow_suc n = omega arith

pub pow_positive : (n : ℕ) → 0 < 2 ^ n
pow_positive zero = omega arith
pow_positive (suc n) = omega (arith, pow_positive n, pow_suc n)

-- A number needs no more bits than it has.
below_bits : (fuel n : ℕ) → n < 2 ^ fuel → n < 2 ^ bits fuel n
below_bits zero n h = h
below_bits (suc fuel) n h =
    let p = pow_suc fuel in
    let q = pow_suc (bits fuel (n / 2)) in
    let rest = below_bits fuel (n / 2) (omega arith) in
    elim (Bool-cases (n == 0)) [ inl e ↦ ground (arith, e) | inr e ↦ ground (arith, e, rest, q) ]

-- And no fewer.
bits_below : (fuel n : ℕ) → 0 < n → 2 ^ bits fuel n ≤ 2 * n
bits_below zero n h = omega arith
bits_below (suc fuel) n h =
    let q = pow_suc (bits fuel (n / 2)) in
    elim (Bool-cases (n / 2 == 0)) [
      | inl e ↦ ground (arith, e, q, bits_zero fuel (n / 2))
      | inr e ↦ ground (arith, e, q, bits_below fuel (n / 2) (ground (arith, e)))
    ]
  where
    bits_zero : (f m : ℕ) → m ≡ 0 → bits f m ≡ 0
    bits_zero zero m e = refl
    bits_zero (suc f) m e = ground (arith, e)

-- For a number from 1 to 2 ^ 63, NextPowerOfTwo returns a power of two that is no less, and less than
-- twice the number: the least such power.
pub next_power_of_two_lem :
    (value : ℕ)
    → 0 < value
    → value ≤ 2 ^ 63
    → (k : ℕ) × (next_power_of_two value ≡ ok (2 ^ k)) × (value ≤ 2 ^ k) × (2 ^ k < 2 * value)
unfolding next_power_of_two
next_power_of_two_lem value positive bounded =
    let k = len64 (value - 1) in
    let above = below_bits 64 (value - 1) (omega arith) in
    (k, ground (arith, positive, bounded), omega (arith, above), below (value - 1) refl)
  where
    below : (n : ℕ) → n ≡ value - 1 → 2 ^ len64 n < 2 * value
    below zero e = omega arith
    below (suc n) e = omega (arith, bits_below 64 (suc n) (omega arith))
