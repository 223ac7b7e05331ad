-- ===== src/Base/Text.antt =====
-- Maps with text keys, as association lists.
use drone_runner_aws.Base.{
  String, List, [], ◌∷◌, true, false, Option, none, some, str_eq, eq_iff, if◌then◌else◌, ◌≡◌, ◌≢◌,
  refl, subst, eq_refl, arith, sym, In, inl, inr, mem_text, Bool-cases,
}

module _ {ℓ} {V : Type ℓ} where
  unfoldable pub lookup : String → List (String × V) → Option V
  lookup key [] = none
  lookup key ((own, value) ∷ rest) = if str_eq own key then some value else lookup key rest

  -- A write replaces the value of the key, or adds the key.
  unfoldable pub insert : String → V → List (String × V) → List (String × V)
  insert key value [] = (key, value) ∷ []
  insert key value ((own, old) ∷ rest) =
      if str_eq own key then (key, value) ∷ rest else (own, old) ∷ insert key value rest

  pub lookup-insert :
      (key wanted : String) (value : V) (entries : List (String × V))
      → lookup wanted (insert key value entries)
        ≡ (if str_eq key wanted then some value else lookup wanted entries)
  unfolding lookup insert
  lookup-insert key wanted value [] = refl
  lookup-insert key wanted value ((own, old) ∷ rest) = ground (
    arith,
    lookup-insert key wanted value rest,
    eq_iff own wanted,
    eq_iff own key,
    eq_iff key wanted,
  )

-- Two texts that the test tells apart are different.
pub text-differ : (a b : String) → str_eq a b ≡ false → a ≢ b
text-differ a b h e =
    let same : str_eq a b ≡ true = subst (λ x. str_eq a x ≡ true) e (eq_refl a) in cc

-- The test for membership of a text is membership.
pub In-mem_text : (s : String) (xs : List String) → mem_text s xs ≡ true → In s xs
In-mem_text s [] e = cc
In-mem_text s (x ∷ xs) e = elim (Bool-cases (str_eq x s)) [
  | inl t ↦ inl (sym ((eq_iff x s).0 t))
  | inr f ↦ inr (In-mem_text s xs (ground (arith, f)))
]

pub mem_text-In : (s : String) (xs : List String) → In s xs → mem_text s xs ≡ true
mem_text-In s [] m = absurd m
mem_text-In s (x ∷ xs) (inl e) = rw (e, eq_refl x) refl
mem_text-In s (x ∷ xs) (inr m) = ground (arith, mem_text-In s xs m)
