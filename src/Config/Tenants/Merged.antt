-- ===== src/Config/Tenants/Merged.antt =====
-- mergeVariants: what the merged list has for a variant id.
use drone_runner_aws.Base.{
  String, List, [], ◌∷◌, ◌++◌, Bool, true, false, Option, none, some, str_eq, eq_iff, mem_text,
  keep, first, is_empty, ◌≡◌, refl, sym, ap, subst, ◌∙◌, inl, inr, Bool-cases, Option-cases, arith,
  if◌then◌else◌,
}
use drone_runner_aws.Types.{PoolVariant}
use drone_runner_aws.Config.Tenants.{
  override_by_id, replace_base, variant_ids, append_new, matched_ids, merge_variants,
}

-- The first entry with an id, which is the one that a search by id finds.
abbrev pub find_variant : String → List PoolVariant → Option PoolVariant
find_variant id vs = first (λ v. str_eq v.variant_id id) vs

abbrev pub or_variant : Option PoolVariant → Option PoolVariant → Option PoolVariant
or_variant none other = other
or_variant (some v) other = some v

abbrev with_default : PoolVariant → Option PoolVariant → PoolVariant
with_default v none = v
with_default v (some w) = w

override-id :
    (id : String) (vs : List PoolVariant) (w : PoolVariant)
    → override_by_id id vs ≡ some w
    → w.variant_id ≡ id
unfolding override_by_id
override-id id [] w e = cc
override-id id (v ∷ vs) w e = ground (arith, eq_iff v.variant_id id, override-id id vs w)

override-none :
    (id : String) (vs : List PoolVariant)
    → mem_text id (variant_ids vs) ≡ false
    → override_by_id id vs ≡ none
unfolding override_by_id
override-none id [] e = refl
override-none id (v ∷ vs) e = ground (arith, override-none id vs)

find-append :
    (id : String) (xs ys : List PoolVariant)
    → find_variant id (xs ++ ys) ≡ or_variant (find_variant id xs) (find_variant id ys)
find-append id [] ys = refl
find-append id (x ∷ xs) ys = ground (arith, find-append id xs ys)

find-mem :
    (id : String) (vs : List PoolVariant)
    → mem_text id (variant_ids vs) ≡ true
    → (v : PoolVariant) × (find_variant id vs ≡ some v)
find-mem id [] e = cc
find-mem id (v ∷ vs) e = elim (Bool-cases (str_eq v.variant_id id)) [
  | inl t ↦ (v, rw t refl)
  | inr f ↦ let (w, g) = find-mem id vs (ground (arith, e, f)) in (w, rw f g)
]

replaced-id :
    (x : PoolVariant) (override : List PoolVariant)
    → (with_default x (override_by_id x.variant_id override)).variant_id ≡ x.variant_id
replaced-id x override = go (override_by_id x.variant_id override) refl
  where
    go :
        (o : Option PoolVariant)
        → override_by_id x.variant_id override ≡ o
        → (with_default x o).variant_id ≡ x.variant_id
    go none e = refl
    go (some w) e = override-id x.variant_id override w e

-- The base entries, with the override's where it has the id.
find-replace_base :
    (id : String) (override base : List PoolVariant) (v : PoolVariant)
    → find_variant id base ≡ some v
    → find_variant id (replace_base override base)
      ≡ some (with_default v (override_by_id id override))
unfolding replace_base
find-replace_base id override [] v e = cc
find-replace_base id override (x ∷ base) v e =
    let same = replaced-id x override in
    let rest = find-replace_base id override base v in
    elim (Bool-cases (str_eq x.variant_id id)) [
      | inl t ↦
          let q : x.variant_id ≡ id = ground (arith, eq_iff x.variant_id id, t) in
          let u : v ≡ x = ground (arith, e, t) in
          let c : str_eq (with_default x (override_by_id x.variant_id override)).variant_id id
              ≡ true =
            ap (λ i. str_eq i id) same ∙ t in
          rw c (
            ap some (
              subst
                (λ (y : PoolVariant).
                  with_default x (override_by_id x.variant_id override)
                  ≡ with_default y (override_by_id id override))
                (sym u) (ap (λ i. with_default x (override_by_id i override)) q)))
      | inr f ↦
          let c : str_eq (with_default x (override_by_id x.variant_id override)).variant_id id
              ≡ false =
            ap (λ i. str_eq i id) same ∙ f in
          rw c (rest (ground (arith, e, f)))
    ]

find-replace_base-none :
    (id : String) (override base : List PoolVariant)
    → find_variant id base ≡ none
    → find_variant id (replace_base override base) ≡ none
unfolding replace_base
find-replace_base-none id override [] e = refl
find-replace_base-none id override (x ∷ base) e =
    let same = replaced-id x override in
    let f : str_eq x.variant_id id ≡ false = ground (arith, e) in
    rw (same, f) (find-replace_base-none id override base (ground (arith, e, f)))

-- The new entries.
find-append_new :
    (id : String) (override : List PoolVariant) (order seen : List String)
    → find_variant id (append_new override seen order) ≡ (
        if mem_text id seen
        then none
        else if mem_text id order
        then override_by_id id override
        else none)
unfolding append_new
find-append_new id override [] seen = ground arith
find-append_new id override (x ∷ order) seen = elim (Option-cases (override_by_id x override)) [
  | inl h ↦ rw h (
      ground (
        arith,
        h,
        eq_iff x id,
        find-append_new id override order seen,
        find-append_new id override order (x ∷ seen),
      ))
  | inr (w, h) ↦ rw h (
      ground (
        arith,
        h,
        override-id x override w h,
        eq_iff w.variant_id id,
        eq_iff x id,
        find-append_new id override order seen,
        find-append_new id override order (x ∷ seen),
      ))
]

not_found-mem :
    (id : String) (vs : List PoolVariant)
    → find_variant id vs ≡ none
    → mem_text id (variant_ids vs) ≡ false
not_found-mem id [] e = refl
not_found-mem id (v ∷ vs) e = ground (arith, not_found-mem id vs)

mem-keep :
    (id : String) (test : String → Bool) (xs : List String)
    → mem_text id xs ≡ false
    → mem_text id (keep test xs) ≡ false
mem-keep id test [] e = refl
mem-keep id test (x ∷ xs) e = ground (arith, mem-keep id test xs)

prefer :
    (o : Option PoolVariant) (v : PoolVariant) → some (with_default v o) ≡ or_variant o (some v)
prefer none v = refl
prefer (some w) v = refl

only_override :
    (b : Bool) (o : Option PoolVariant)
    → (b ≡ false → o ≡ none)
    → (if b then o else none) ≡ or_variant o none
only_override true none h = refl
only_override true (some w) h = refl
only_override false o h = rw (h refl) refl

-- A search in the merged list finds the override's last entry with the id, or else the base's first.
-- The base is not empty: for an empty base the merged list is the override as it stands.
pub merge_variants-find :
    (id : String) (base override : List PoolVariant)
    → is_empty base ≡ false
    → find_variant id (merge_variants base override)
      ≡ or_variant (override_by_id id override) (find_variant id base)
unfolding merge_variants
merge_variants-find id base [] filled = refl
merge_variants-find id [] (o ∷ os) filled = cc
merge_variants-find id (b ∷ bs) (o ∷ os) filled =
    let base = b ∷ bs in
    let override = o ∷ os in
    let new = append_new override (matched_ids base override) (variant_ids override) in
    find-append id (replace_base override base) new ∙ elim (Option-cases (find_variant id base)) [
      | inr (v, h) ↦
          ap (λ r. or_variant r (find_variant id new)) (find-replace_base id override base v h)
          ∙ prefer (override_by_id id override) v
          ∙ ap (or_variant (override_by_id id override)) (sym h)
      | inl h ↦
          let unmatched =
            mem-keep id (λ i. mem_text i (variant_ids override)) (variant_ids base)
              (not_found-mem id base h) in
          ap (λ r. or_variant r (find_variant id new)) (find-replace_base-none id override base h)
          ∙ find-append_new id override (variant_ids override) (matched_ids base override)
          ∙ ap
              (λ (c : Bool).
                if c
                then none
                else if mem_text id (variant_ids override)
                then override_by_id id override
                else none)
              unmatched
          ∙ only_override (mem_text id (variant_ids override)) (override_by_id id override)
              (override-none id override)
          ∙ ap (or_variant (override_by_id id override)) (sym h)
    ]
