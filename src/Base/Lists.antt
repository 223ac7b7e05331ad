-- ===== src/Base/Lists.antt =====
-- Lists measured by native numbers, under the library's names; filters by a Boolean test.
use Prim.Native.Nat.{ℕ, zero, suc, ◌+◌, ◌≤◌, min}
use Prim.Native.String.{String}
use mathlib.Core.Path.{◌≡◌, refl, ap, ◌∙◌}
use mathlib.Core.Logic.{◌⊎◌, inl, inr, ◌≢◌}
use mathlib.Core.Bool.{Bool, true, false, ◌||◌, ◌&&◌}
use mathlib.Core.List.{List, [], ◌∷◌, ◌++◌}
use mathlib.Core.Option.{Option, none, some}
use native.Mathlib.Omega.{arith}
use text.Mathlib.Text.{◌==◌ as str_eq}
use drone_runner_aws.Base.Tests.{if◌then◌else◌, Bool-cases}

module _ {ℓ} {A : Type ℓ} where
  abbrev pub length : List A → ℕ
  length [] = 0
  length (x ∷ xs) = suc (length xs)

  abbrev pub is_empty : List A → Bool
  is_empty [] = true
  is_empty (x ∷ xs) = false

  -- The elements that pass a Boolean test, in their order.
  abbrev pub keep : (A → Bool) → List A → List A
  keep p [] = []
  keep p (x ∷ xs) = if p x then x ∷ keep p xs else keep p xs

  abbrev pub any : (A → Bool) → List A → Bool
  any p [] = false
  any p (x ∷ xs) = p x || any p xs

  abbrev pub first : (A → Bool) → List A → Option A
  first p [] = none
  first p (x ∷ xs) = if p x then some x else first p xs

abbrev pub take {ℓ} : {A : Type ℓ} → ℕ → List A → List A
take zero xs = []
take (suc n) [] = []
take (suc n) (x ∷ xs) = x ∷ take n xs

pub length-append : {A : Type 0} (xs ys : List A) → length (xs ++ ys) ≡ length xs + length ys
length-append [] ys = omega arith
length-append (x ∷ xs) ys = omega (arith, length-append xs ys)

-- Membership, and a statement about each element, by recursion.
abbrev pub In : {A : Type 0} → A → List A → Type 0
In a [] = ⊥
In a (x ∷ xs) = (a ≡ x) ⊎ In a xs

abbrev pub All {ℓ κ} : {A : Type ℓ} → (A → Type κ) → List A → Type κ
All P [] = Unit
All P (x ∷ xs) = P x × All P xs

module _ {A : Type 0} where
  pub In-append : (xs ys : List A) (a : A) → In a (xs ++ ys) → In a xs ⊎ In a ys
  In-append [] ys a m = inr m
  In-append (x ∷ xs) ys a (inl e) = inl (inl e)
  In-append (x ∷ xs) ys a (inr m) = elim (In-append xs ys a m) [
    | inl n ↦ inl (inr n)
    | inr n ↦ inr n
  ]

  pub In-left : (xs ys : List A) (a : A) → In a xs → In a (xs ++ ys)
  In-left [] ys a m = absurd m
  In-left (x ∷ xs) ys a (inl e) = inl e
  In-left (x ∷ xs) ys a (inr m) = inr (In-left xs ys a m)

  pub In-right : (xs ys : List A) (a : A) → In a ys → In a (xs ++ ys)
  In-right [] ys a m = m
  In-right (x ∷ xs) ys a m = inr (In-right xs ys a m)

abbrev pub mem_text : String → List String → Bool
mem_text s [] = false
mem_text s (x ∷ xs) = str_eq x s || mem_text s xs

module _ {A : Type 0} (p : A → Bool) where
  pub In-keep : (a : A) (xs : List A) → In a (keep p xs) → In a xs × (p a ≡ true)
  In-keep a [] h = absurd h
  In-keep a (x ∷ xs) h = split (In-keep a xs)
    where
      split : (In a (keep p xs) → In a xs × (p a ≡ true)) → In a (x ∷ xs) × (p a ≡ true)
      split rest = elim (Bool-cases (p x)) [
        | inl t ↦
            let m : In a (x ∷ keep p xs) = rw t at h in
            elim m [ inl e ↦ (inl e, ap p e ∙ t) | inr k ↦ let r = rest k in (inr r.0, r.1) ]
        | inr f ↦ let m : In a (keep p xs) = rw f at h in let r = rest m in (inr r.0, r.1)
      ]

  pub keep-In : (a : A) (xs : List A) → In a xs → p a ≡ true → In a (keep p xs)
  keep-In a [] m e = absurd m
  keep-In a (x ∷ xs) (inl m) e = rw (← m) (rw e (inl refl))
  keep-In a (x ∷ xs) (inr m) e = elim (Bool-cases (p x)) [
    | inl t ↦ rw t (inr (keep-In a xs m e))
    | inr f ↦ rw f (keep-In a xs m e)
  ]

-- The conjunction of a query's conditions.
abbrev pub conj : List Bool → Bool
conj [] = true
conj (b ∷ bs) = b && conj bs

pub conj-All : (bs : List Bool) → conj bs ≡ true → All (λ b. b ≡ true) bs
conj-All [] h = tt
conj-All (true ∷ bs) h = (refl, conj-All bs h)
conj-All (false ∷ bs) h = cc

pub All-keep {ℓ} :
    {A : Type 0} (P : A → Type ℓ) (p : A → Bool) (xs : List A) → All P xs → All P (keep p xs)
All-keep P p [] h = tt
All-keep P p (x ∷ xs) h = go (p x) (All-keep P p xs h.1)
  where
    go : (b : Bool) → All P (keep p xs) → All P (if b then x ∷ keep p xs else keep p xs)
    go true r = (h.0, r)
    go false r = r

pub All-append {ℓ} :
    {A : Type 0} (P : A → Type ℓ) (xs ys : List A) → All P xs → All P ys → All P (xs ++ ys)
All-append P [] ys h k = k
All-append P (x ∷ xs) ys h k = (h.0, All-append P xs ys h.1 k)

abbrev pub Distinct : List String → Type 0
Distinct [] = Unit
Distinct (x ∷ xs) = All (λ y. x ≢ y) xs × Distinct xs

pub In-take : {A : Type 0} (n : ℕ) (xs : List A) (a : A) → In a (take n xs) → In a xs
In-take zero xs a m = absurd m
In-take (suc n) [] a m = absurd m
In-take (suc n) (x ∷ xs) a (inl e) = inl e
In-take (suc n) (x ∷ xs) a (inr m) = inr (In-take n xs a m)

pub take-all : {A : Type 0} (n : ℕ) (xs : List A) → length xs ≤ n → take n xs ≡ xs
take-all zero [] h = refl
take-all zero (x ∷ xs) h = absurd (omega arith)
take-all (suc n) [] h = refl
take-all (suc n) (x ∷ xs) h = ap (◌∷◌ x) (take-all n xs (omega arith))

pub length-take : {A : Type 0} (n : ℕ) (xs : List A) → length (take n xs) ≡ min n (length xs)
length-take zero xs = ground arith
length-take (suc n) [] = ground arith
length-take (suc n) (x ∷ xs) = omega (arith, length-take n xs)
