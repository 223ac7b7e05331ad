-- ===== src/Base/Result.antt =====
-- Go's pair of a value and an `error`: `(value, nil)` or `(zero, err)`.
use drone_runner_aws.Base.{◌≡◌, refl, Bool, true, false}

pub data Result {ℓ κ} (E : Type κ) (A : Type ℓ) : Type (ℓ ⊔ κ) where
  ok : A → Result E A
  err : E → Result E A

infixl 5 ◌>>=◌
abbrev pub ◌>>=◌ {ℓ κ μ} :
    {E : Type μ} {A : Type ℓ} {B : Type κ} → Result E A → (A → Result E B) → Result E B
ok a >>= f = f a
err e >>= f = err e

infixl 5 ◌>>◌
abbrev pub ◌>>◌ {ℓ κ} : {E : Type κ} {B : Type ℓ} → Result E (Unit {0}) → Result E B → Result E B
m >> k = m >>= λ _. k

abbrev pub guard {κ} : {E : Type κ} → Bool → E → Result E (Unit {0})
guard true e = ok tt
guard false e = err e

-- Inversion of a successful bind and of a guard that was passed.
pub >>=-eq-ok {ℓ κ μ} :
    {E : Type μ} {A : Type ℓ} {B : Type κ} (first : Result E A) (next : A → Result E B) {answer : B}
    → (first >>= next) ≡ ok answer
    → (value : A) × (first ≡ ok value) × (next value ≡ ok answer)
>>=-eq-ok (err failure) next same = cc
>>=-eq-ok (ok value) next same = (value, refl, same)

pub guard-eq-ok {ℓ κ} :
    {E : Type κ} {B : Type ℓ} (test : Bool) (failure : E) (next : Result E B) {answer : B}
    → (guard test failure >> next) ≡ ok answer
    → (test ≡ true) × (next ≡ ok answer)
guard-eq-ok false failure next same = cc
guard-eq-ok true failure next same = (refl, same)
