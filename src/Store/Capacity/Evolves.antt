-- ===== src/Store/Capacity/Evolves.antt =====
-- The life of the reservations under clean-up: rows go, or move to the terminating state, and nothing
-- else happens to the table. Each operation of the clean-up is such a change.
use drone_runner_aws.Base.{
  ℕ, zero, suc, List, [], ◌∷◌, Bool, true, false, In, ◌≡◌, refl, sym, ap, subst, ◌∙◌, ◌⊎◌, inl, inr,
  Bool-cases, keep,
}
use drone_runner_aws.Types.{CapacityReservation, CapacityState, terminating}
use drone_runner_aws.Store.Batch.{claim_up_to}

-- From the first table to the second, in which only rows that are `Due` have changed.
pub data Evolves (Due : CapacityReservation → Type 0)
    : List CapacityReservation → List CapacityReservation → Type 0 where
  done : Evolves Due [] []
  same :
      {rows rows' : List CapacityReservation} (r : CapacityReservation)
      → Evolves Due rows rows'
      → Evolves Due (r ∷ rows) (r ∷ rows')
  ended :
      {rows rows' : List CapacityReservation} (r r' : CapacityReservation)
      → r' ≡ record r { state = CapacityState.terminating }
      → Due r
      → Evolves Due rows rows'
      → Evolves Due (r ∷ rows) (r' ∷ rows')
  gone :
      {rows rows' : List CapacityReservation} (r : CapacityReservation)
      → Due r
      → Evolves Due rows rows'
      → Evolves Due (r ∷ rows) rows'

module _ {Due : CapacityReservation → Type 0} where
  pub unchanged : (rows : List CapacityReservation) → Evolves Due rows rows
  unchanged [] = done
  unchanged (r ∷ rows) = same r (unchanged rows)

  pub Evolves-trans :
      {a b c : List CapacityReservation} → Evolves Due a b → Evolves Due b c → Evolves Due a c
  Evolves-trans (gone r d e) f = gone r d (Evolves-trans e f)
  Evolves-trans done done = done
  Evolves-trans (same r e) (same _ f) = same r (Evolves-trans e f)
  Evolves-trans (same r e) (ended _ r' q d f) = ended r r' q d (Evolves-trans e f)
  Evolves-trans (same r e) (gone _ d f) = gone r d (Evolves-trans e f)
  Evolves-trans (ended r r' q d e) (same _ f) = ended r r' q d (Evolves-trans e f)
  Evolves-trans (ended r r' q d e) (ended _ r'' q' _ f) =
      ended r r'' (q' ∙ ap (λ (x : CapacityReservation). record x { state = terminating }) q) d
        (Evolves-trans e f)
  Evolves-trans (ended r r' q d e) (gone _ _ f) = gone r d (Evolves-trans e f)

  -- Each row that is there afterwards was there, as it is now or before it was ended.
  pub Evolves-In :
      {a b : List CapacityReservation}
      → Evolves Due a b
      → (r : CapacityReservation) → In r b
      → In r a ⊎ ((s : CapacityReservation) × In s a × (r ≡ record s { state = terminating }))
  Evolves-In done r m = absurd m
  Evolves-In (same x e) r (inl q) = inl (inl q)
  Evolves-In (same x e) r (inr m) = elim (Evolves-In e r m) [
    | inl n ↦ inl (inr n)
    | inr n ↦ inr (n.0, inr n.1, n.2)
  ]
  Evolves-In (ended x x' q d e) r (inl p) = inr (x, inl refl, p ∙ q)
  Evolves-In (ended x x' q d e) r (inr m) = elim (Evolves-In e r m) [
    | inl n ↦ inl (inr n)
    | inr n ↦ inr (n.0, inr n.1, n.2)
  ]
  Evolves-In (gone x d e) r m = elim (Evolves-In e r m) [
    | inl n ↦ inl (inr n)
    | inr n ↦ inr (n.0, inr n.1, n.2)
  ]

  -- A row that is not due stays as it was.
  pub Evolves-spares :
      {a b : List CapacityReservation}
      → Evolves Due a b
      → (r : CapacityReservation) → In r a
      → ¬ Due r
      → In r b
  Evolves-spares done r m n = absurd m
  Evolves-spares (same x e) r (inl q) n = inl q
  Evolves-spares (same x e) r (inr m) n = inr (Evolves-spares e r m n)
  Evolves-spares (ended x x' p d e) r (inl q) n = absurd (n (subst Due (sym q) d))
  Evolves-spares (ended x x' p d e) r (inr m) n = inr (Evolves-spares e r m n)
  Evolves-spares (gone x d e) r (inl q) n = absurd (n (subst Due (sym q) d))
  Evolves-spares (gone x d e) r (inr m) n = Evolves-spares e r m n

  -- A claim into the terminating state, if what passes is due.
  pub claim-Evolves :
      (test : CapacityReservation → Bool) (limit : ℕ) (rows : List CapacityReservation)
      → ((r : CapacityReservation) → In r rows → test r ≡ true → Due r)
      → Evolves Due rows (claim_up_to test (λ r. record r { state = terminating }) limit rows).1
  unfolding claim_up_to
  claim-Evolves test limit [] h = done
  claim-Evolves test zero (r ∷ rows) h = unchanged (r ∷ rows)
  claim-Evolves test (suc limit) (r ∷ rows) h = elim (Bool-cases (test r)) [
    | inl t ↦
        rw t
          (ended r _ refl (h r (inl refl) t) (claim-Evolves test limit rows (λ s m. h s (inr m))))
    | inr f ↦ rw f (same r (claim-Evolves test (suc limit) rows (λ s m. h s (inr m))))
  ]

  -- A deletion of rows that are due.
  pub keep-Evolves :
      (stays : CapacityReservation → Bool) (rows : List CapacityReservation)
      → ((r : CapacityReservation) → In r rows → stays r ≡ false → Due r)
      → Evolves Due rows (keep stays rows)
  keep-Evolves stays [] h = done
  keep-Evolves stays (r ∷ rows) h = elim (Bool-cases (stays r)) [
    | inl t ↦ rw t (same r (keep-Evolves stays rows (λ s m. h s (inr m))))
    | inr f ↦ rw f (gone r (h r (inl refl) f) (keep-Evolves stays rows (λ s m. h s (inr m))))
  ]
