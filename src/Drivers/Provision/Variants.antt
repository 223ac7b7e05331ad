-- ===== src/Drivers/Provision/Variants.antt =====
-- filterVariants: the variants that a request may have.
use drone_runner_aws.Base.{
  String, List, [], ◌∷◌, Bool, true, false, In, In-keep, keep-In, keep, ◌≡◌, refl, subst, ◌⊎◌, inl,
  inr, Bool-cases, arith, eq_iff, str_eq, is_empty, if◌then◌else◌,
}
use drone_runner_aws.Types.{PoolVariant}
use drone_runner_aws.Drivers.Provision.{
  ProvisionParams, is_fit, has_image, by_image, filter_variants,
}

empty-nil : {A : Type 0} (xs : List A) → is_empty xs ≡ true → xs ≡ []
empty-nil [] e = refl
empty-nil (x ∷ xs) e = cc

by_image-fit :
    (qualify : String → String) (image : String) (candidates : List PoolVariant) (v : PoolVariant)
    → In v (by_image qualify image candidates)
    → In v candidates
      × ((has_image qualify image v ≡ true)
          ⊎ ((v.image_name ≡ "")
              × ((w : PoolVariant) → In w candidates → has_image qualify image w ≡ false)))
by_image-fit qualify image candidates v m =
    go (is_empty (keep (has_image qualify image) candidates)) refl m
  where
    go :
        (b : Bool)
        → is_empty (keep (has_image qualify image) candidates) ≡ b
        → In v (
            if b
            then keep (λ w. str_eq w.image_name "") candidates
            else keep (has_image qualify image) candidates)
        → In v candidates
          × ((has_image qualify image v ≡ true)
              ⊎ ((v.image_name ≡ "")
                  × ((w : PoolVariant) → In w candidates → has_image qualify image w ≡ false)))
    go true e n =
        let (l, t) = In-keep (λ w. str_eq w.image_name "") v candidates n in
        (
          l,
          inr (
            ground (arith, t, eq_iff v.image_name ""),
            λ w k. elim (Bool-cases (has_image qualify image w)) [
              | inr f ↦ f
              | inl h ↦ absurd (
                  subst (In w) (empty-nil (keep (has_image qualify image) candidates) e)
                    (keep-In (has_image qualify image) w candidates k h))
            ],
          ),
        )
    go false e n = let (l, t) = In-keep (has_image qualify image) v candidates n in (l, inl t)

-- A variant that is returned is one of the given ones and has the class and the virtualization of
-- the request. With an image, it has that image, or it has no image name and no variant that fits has
-- the image.
pub filter_variants-fit :
    (qualify : String → String) (p : ProvisionParams) (variants : List PoolVariant)
    (v : PoolVariant)
    → In v (filter_variants qualify p variants)
    → In v variants
      × (is_fit p v ≡ true)
      × ((qualify p.image_name ≡ "")
          ⊎ (has_image qualify (qualify p.image_name) v ≡ true)
          ⊎ ((v.image_name ≡ "")
              × ((w : PoolVariant)
                  → In w variants
                  → is_fit p w ≡ true
                  → has_image qualify (qualify p.image_name) w ≡ false)))
unfolding filter_variants
filter_variants-fit qualify p variants v m = go (str_eq (qualify p.image_name) "") refl m
  where
    go :
        (b : Bool)
        → str_eq (qualify p.image_name) "" ≡ b
        → In v (
            if b
            then keep (is_fit p) variants
            else by_image qualify (qualify p.image_name) (keep (is_fit p) variants))
        → In v variants
          × (is_fit p v ≡ true)
          × ((qualify p.image_name ≡ "")
              ⊎ (has_image qualify (qualify p.image_name) v ≡ true)
              ⊎ ((v.image_name ≡ "")
                  × ((w : PoolVariant)
                      → In w variants
                      → is_fit p w ≡ true
                      → has_image qualify (qualify p.image_name) w ≡ false)))
    go true e n =
        let (l, t) = In-keep (is_fit p) v variants n in
        (l, t, inl (ground (arith, e, eq_iff (qualify p.image_name) "")))
    go false e n =
        let (k, c) = by_image-fit qualify (qualify p.image_name) (keep (is_fit p) variants) v n in
        let (l, t) = In-keep (is_fit p) v variants k in
        (
          l,
          t,
          inr (elim c [
            | inl h ↦ inl h
            | inr (h, others) ↦ inr (h, λ w o f. others w (keep-In (is_fit p) w variants o f))
          ]),
        )
