-- ===== src/Base/Bits.antt =====
-- Masking by a number that is one less than a power of two is the remainder.
use Prim.Native.Nat.{bit_and, digits, bit_and-bitwise}
use bufferpool.Base.{
  ℕ, zero, suc, ◌+◌, ◌*◌, ◌-◌, ◌/◌, ◌%◌, min, ◌<◌, ◌≤◌, ◌≡◌, refl, sym, subst, ◌∙◌, arith, ap,
}
use native.Mathlib.Decide.{ℕ_discrete}
use native.Mathlib.Nat.{mod-lt, mod-add-div, mod-eq_of_lt, mul-add-mod_self_left, mul_assoc}

digits_le : (n a b : ℕ) → digits (λ x. 0) min n a b ≤ b
digits_le zero a b = omega arith
digits_le (suc n) zero b = omega arith
digits_le (suc n) (suc a) b = omega (arith, digits_le n (suc a / 2) (b / 2))

bit_and-digits : (a b : ℕ) → bit_and a b ≡ digits (λ x. 0) min a a b
bit_and-digits a b = λ i. bit_and-bitwise a b i

pub bit_and_le : (a b : ℕ) → bit_and a b ≤ b
bit_and_le a b = subst (λ x. x ≤ b) (sym (bit_and-digits a b)) (digits_le a a b)

-- More digits to go than the number has are not used.
digits_enough :
    (n m a b : ℕ) → a ≤ n → a ≤ m → digits (λ x. 0) min n a b ≡ digits (λ x. 0) min m a b
digits_enough zero zero a b h k = refl
digits_enough zero (suc m) zero b h k = refl
digits_enough zero (suc m) (suc a) b h k = absurd (omega arith)
digits_enough (suc n) zero zero b h k = refl
digits_enough (suc n) zero (suc a) b h k = absurd (omega arith)
digits_enough (suc n) (suc m) zero b h k = refl
digits_enough (suc n) (suc m) (suc a) b h k =
    ap (λ x. x * 2 + min (suc a % 2) (b % 2))
      (digits_enough n m (suc a / 2) (b / 2) (omega arith) (omega arith))

digits_lowest :
    (a b : ℕ)
    → digits (λ x. 0) min a a b
      ≡ digits (λ x. 0) min (a / 2) (a / 2) (b / 2) * 2 + min (a % 2) (b % 2)
digits_lowest zero b = omega arith
digits_lowest (suc a) b =
    ap (λ x. x * 2 + min (suc a % 2) (b % 2))
      (digits_enough a (suc a / 2) (suc a / 2) (b / 2) (omega arith) (omega arith))

bit_and_lowest : (a b : ℕ) → bit_and a b ≡ bit_and (a / 2) (b / 2) * 2 + min (a % 2) (b % 2)
bit_and_lowest a b =
    bit_and-digits a b
    ∙ digits_lowest a b
    ∙ sym (ap (λ x. x * 2 + min (a % 2) (b % 2)) (bit_and-digits (a / 2) (b / 2)))

bit_and_self : (n a : ℕ) → a ≤ n → bit_and a a ≡ a
bit_and_self zero a h = let below = bit_and_le a a in omega (arith, below)
bit_and_self (suc n) a h = elim (ℕ_discrete a 0) [
  | yes z ↦ let below = bit_and_le a a in omega (arith, below, z)
  | no nz ↦
      let half = bit_and_self n (a / 2) (omega (arith, nz)) in
      omega (arith, bit_and_lowest a a, half)
]

mod_of : (a m q r : ℕ) → a ≡ m * q + r → r < m → a % m ≡ r
mod_of a m q r e lt = ap (λ x. x % m) e ∙ mul-add-mod_self_left m q r ∙ mod-eq_of_lt lt

-- The lowest digit of a remainder by an even number.
mod_even : (a d : ℕ) → 0 < d → a % (2 * d) ≡ (a / 2 % d) * 2 + a % 2
mod_even a d h =
    let split = mod-add-div (a / 2) d in
    let inside : a / 2 % d < d = mod-lt (a / 2) h in
    let lifted : 2 * d * (a / 2 / d) ≡ 2 * (d * (a / 2 / d)) = mul_assoc 2 d (a / 2 / d) in
    mod_of a (2 * d) (a / 2 / d) ((a / 2 % d) * 2 + a % 2) (omega (arith, split, lifted))
      (omega (arith, inside))

bit_and-mod_by :
    (fuel a c : ℕ) → c ≤ fuel → 0 < c → bit_and c (c - 1) ≡ 0 → bit_and a (c - 1) ≡ a % c
bit_and-mod_by zero a c le h e = absurd (omega arith)
bit_and-mod_by (suc fuel) a c le h e = elim (ℕ_discrete c 1) [
  | yes one ↦
      let below : bit_and a (c - 1) ≤ c - 1 = bit_and_le a (c - 1) in
      let none_left : a % c < c = mod-lt a h in omega (arith, below, one, none_left)
  | no more ↦ elim (ℕ_discrete (c % 2) 0) [
    | yes even ↦
        let d = c / 2 in
        let twice : c ≡ 2 * d = omega (arith, even) in
        let half : (c - 1) / 2 ≡ d - 1 = omega (arith, even, h) in
        let own = bit_and_lowest c (c - 1) in
        let own_half : bit_and d ((c - 1) / 2) ≡ 0 = omega (arith, own, e) in
        let rest =
          bit_and-mod_by fuel (a / 2) d (omega (arith, more, h)) (omega (arith, more, h, even))
            (subst (λ x. bit_and d x ≡ 0) half own_half) in
        let lowest = bit_and_lowest a (c - 1) in
        let rest_half : bit_and (a / 2) ((c - 1) / 2) ≡ a / 2 % d =
          subst (λ x. bit_and (a / 2) x ≡ a / 2 % d) (sym half) rest in
        let whole : a % c ≡ (a / 2 % d) * 2 + a % 2 =
          subst (λ x. a % x ≡ (a / 2 % d) * 2 + a % 2) (sym twice)
            (mod_even a d (omega (arith, more, h, even))) in
        omega (arith, lowest, rest_half, whole, even, h)
    | no odd ↦
        let d = c / 2 in
        let half : (c - 1) / 2 ≡ d = omega (arith, odd) in
        let own = bit_and_lowest c (c - 1) in
        let own_half : bit_and d ((c - 1) / 2) ≡ d =
          subst (λ x. bit_and d x ≡ d) (sym half) (bit_and_self d d (omega arith)) in
        absurd (omega (arith, own, own_half, e, more, odd))
  ]
]

-- `a & (c - 1)` is `a % c` where `c & (c - 1)` is 0.
pub bit_and-mod : (a c : ℕ) → 0 < c → bit_and c (c - 1) ≡ 0 → bit_and a (c - 1) ≡ a % c
bit_and-mod a c h e = bit_and-mod_by c a c (omega arith) h e
