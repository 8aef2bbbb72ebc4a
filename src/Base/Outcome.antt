-- ===== src/Base/Outcome.antt =====
-- Code that can panic or return an error: the value, or what it fails with.
use mathlib.Core.Path.{◌≡◌, refl}
use mathlib.Core.Logic.{◌⊎◌, inl, inr}
use mathlib.Core.Bool.{Bool, true, false}
use bufferpool.Base.Tests.{if◌then◌else◌}

pub data Result {ℓ} (Failure : Type 0) (Value : Type ℓ) : Type ℓ where
  err : Failure → Result Failure Value
  ok : Value → Result Failure Value

module _ {Failure : Type 0} where
  -- `if test { panic(failure) }`, or an early return of the error.
  abbrev pub fail_if : Bool → Failure → Result Failure (Unit {0})
  fail_if false failure = ok tt
  fail_if true failure = err failure

  infixl 5 ◌>>=◌
  abbrev pub ◌>>=◌ {ℓ κ} :
      {Value : Type ℓ} {Next : Type κ}
      → Result Failure Value
      → (Value → Result Failure Next)
      → Result Failure Next
  err failure >>= rest = err failure
  ok value >>= rest = rest value

  infixl 5 ◌>>◌
  abbrev pub ◌>>◌ {κ} :
      {Next : Type κ} → Result Failure (Unit {0}) → Result Failure Next → Result Failure Next
  check >> rest = check >>= λ _. rest

  -- A chain that returned passed its first part.
  pub >>=-eq-ok {ℓ κ} :
      {Value : Type ℓ} {Next : Type κ} (first : Result Failure Value)
      (rest : Value → Result Failure Next) {result : Next}
      → (first >>= rest) ≡ ok result
      → (value : Value) × (first ≡ ok value) × (rest value ≡ ok result)
  >>=-eq-ok (err failure) rest e = cc
  >>=-eq-ok (ok value) rest e = (value, refl, e)

module _ {Failure : Type 0} where
  -- If it returns, the value has the property.
  abbrev pub Holds {ℓ κ} : {Value : Type ℓ} → (Value → Type κ) → Result Failure Value → Type κ
  Holds P (err failure) = Unit
  Holds P (ok value) = P value

  pub Holds-if {ℓ κ} :
      {Value : Type ℓ} (P : Value → Type κ) (test : Bool) (x y : Result Failure Value)
      → (test ≡ true → Holds P x)
      → (test ≡ false → Holds P y)
      → Holds P (if test then x else y)
  Holds-if P true x y h k = h refl
  Holds-if P false x y h k = k refl

  pub Holds->>= {ℓ κ μ} :
      {Value : Type ℓ} {Next : Type κ} (P : Next → Type μ) (first : Result Failure Value)
      (rest : Value → Result Failure Next)
      → ((value : Value) → first ≡ ok value → Holds P (rest value))
      → Holds P (first >>= rest)
  Holds->>= P (err failure) rest h = tt
  Holds->>= P (ok value) rest h = h value refl

  pub Result-cases {ℓ} :
      {Value : Type ℓ} (result : Result Failure Value)
      → ((failure : Failure) × (result ≡ err failure)) ⊎ ((value : Value) × (result ≡ ok value))
  Result-cases (err failure) = inl (failure, refl)
  Result-cases (ok value) = inr (value, refl)
