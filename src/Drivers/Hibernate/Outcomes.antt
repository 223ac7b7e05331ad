-- ===== src/Drivers/Hibernate/Outcomes.antt =====
-- hibernate: what becomes of the instance, whatever other processes do meanwhile.
use drone_runner_aws.Base.{
  ℕ, String, List, [], ◌∷◌, Bool, true, false, In, ◌≡◌, ◌≢◌, refl, sym, ap, subst, ◌∙◌, ◌⊎◌, inl,
  inr, Bool-cases, arith, str_eq, eq_iff, some,
}
use drone_runner_aws.Base.Text.{lookup}
use drone_runner_aws.Base.Result.{Result, ok, err}
use drone_runner_aws.Types.{
  Instance, InstanceState, created, in_use, hibernating, terminating, provisioning, mem_state,
}
use drone_runner_aws.Store.Instances.{
  StoreError, Conn, set_row, stamp, update_instance, overwrite, matches_claim,
}
use drone_runner_aws.Store.Instances.Claim.{
  find_and_claim-cases, matches_claim-All, matches_claim-state,
}
use drone_runner_aws.Drivers.Tenants.{Pool}
use drone_runner_aws.Drivers.Driver.{Driver, Pools}
use drone_runner_aws.Drivers.Hibernate.{
  HibernateError, claim_failed, not_hibernated, hibernate_query, hibernate_attempts, woken,
  hibernate_claimed, hibernate, hibernate_answer,
}

-- A row that is written by its id is the new one or another.
In-set_row :
    (key : String) (f : Instance → Instance) (rows : List Instance) (k : Instance)
    → In k (set_row key f rows)
    → ((r : Instance) × In r rows × (r.id ≡ key) × (k ≡ f r)) ⊎ (In k rows × (k.id ≢ key))
unfolding set_row
In-set_row key f [] k m = absurd m
In-set_row key f (x ∷ rows) k (inl e) = elim (Bool-cases (str_eq x.id key)) [
  | inl t ↦ inl (x, inl refl, (eq_iff x.id key).0 t, rw t at e)
  | inr g ↦ let same : k ≡ x = rw g at e in inr (inl same, λ q. ground (arith, eq_iff x.id key))
]
In-set_row key f (x ∷ rows) k (inr m) = elim (In-set_row key f rows k m) [
  | inl (r, n, e, q) ↦ inl (r, inr n, e, q)
  | inr (n, q) ↦ inr (inr n, q)
]

abbrev IsAnswer : Bool → Result HibernateError (Unit {0}) → Type 0
IsAnswer true answer = answer ≡ ok tt
IsAnswer false answer = answer ≡ err not_hibernated

module _ (net : ℕ → Conn) (others : List Instance → List Instance) (attempt : Instance → ℕ → Bool)
    (rows : List Instance) (a : Instance) where
  abbrev claimed : Instance → Instance
  claimed = stamp (net 0) hibernating false

  abbrev done : Bool
  done = hibernate_attempts (attempt (claimed a))

  -- The answer tells whether an attempt has succeeded; the rows of the id are in the state `created`, and
  -- hibernated if it has; the other rows are what the others have made of them.
  abbrev pub Settled : Result HibernateError (Unit {0}) × List Instance → Type 0
  Settled result =
      IsAnswer done result.0
      × ((k : Instance)
          → In k result.1
          → k.id ≡ a.id
          → (k.state ≡ created) × (done ≡ true → k.is_hibernated ≡ true))
      × ((k : Instance) → In k result.1 → k.id ≢ a.id → In k (others (set_row a.id claimed rows)))

  settled :
      (net 1).down ≡ false
      → Settled
          (hibernate_claimed (net 1) others attempt (ok (claimed a), set_row a.id claimed rows))
  unfolding update_instance
  settled up = rw up (answer done, λ k m e. mine k e (split k m), λ k m e. other k e (split k m))
    where
      write : Instance → Instance
      write = overwrite (woken done (claimed a))

      answer :
          (b : Bool)
          → IsAnswer b
              (hibernate_answer b (ok (set_row a.id write (others (set_row a.id claimed rows)))))
      answer true = refl
      answer false = refl

      split :
          (k : Instance)
          → In k (set_row a.id write (others (set_row a.id claimed rows)))
          → ((r : Instance) × In r (others (set_row a.id claimed rows))
              × (r.id ≡ a.id)
              × (k ≡ write r))
            ⊎ (In k (others (set_row a.id claimed rows)) × (k.id ≢ a.id))
      split = In-set_row a.id write (others (set_row a.id claimed rows))

      mine :
          (k : Instance)
          → k.id ≡ a.id
          → ((r : Instance) × In r (others (set_row a.id claimed rows))
              × (r.id ≡ a.id)
              × (k ≡ write r))
            ⊎ (In k (others (set_row a.id claimed rows)) × (k.id ≢ a.id))
          → (k.state ≡ created) × (done ≡ true → k.is_hibernated ≡ true)
      mine k e (inl (r, _, _, q)) = (
        ap (λ (x : Instance). x.state) q,
        λ t. ap (λ (x : Instance). x.is_hibernated) q ∙ (rw t refl),
      )
      mine k e (inr (_, ne)) = absurd (ne e)

      other :
          (k : Instance)
          → k.id ≢ a.id
          → ((r : Instance) × In r (others (set_row a.id claimed rows))
              × (r.id ≡ a.id)
              × (k ≡ write r))
            ⊎ (In k (others (set_row a.id claimed rows)) × (k.id ≢ a.id))
          → In k (others (set_row a.id claimed rows))
      other k ne (inl (r, _, e, q)) = absurd (ne (ap (λ (x : Instance). x.id) q ∙ e))
      other k ne (inr (m, _)) = m

-- Hibernation changes nothing and fails where the instance cannot be claimed. Or else the claimed row was
-- in the state `created`, and once the row has been written back, whatever the provider answers and
-- others do to the table meanwhile, no row of the instance is left hibernating: each is in the state
-- `created`, and hibernated if one of the three attempts succeeded, which is when there is no error.
pub hibernate-Settled :
    (net : ℕ → Conn) (others : List Instance → List Instance) (attempt : Instance → ℕ → Bool)
    (pools : Pools) (p : Pool Driver) (pool : String) (i : Instance) (rows : List Instance)
    → lookup pool pools ≡ some p
    → i.id ≢ ""
    → (net 1).down ≡ false
    → ((e : StoreError) × (hibernate net others attempt pools pool i true rows
          ≡ (err (claim_failed e), rows)))
      ⊎ ((a : Instance) × In a rows
          × (a.id ≡ i.id)
          × (a.state ≡ created)
          × Settled net others attempt rows a (hibernate net others attempt pools pool i true rows))
unfolding hibernate
hibernate-Settled net others attempt pools p pool i rows known named up =
    elim (find_and_claim-cases (net 0) (hibernate_query pool i.id) hibernating (created ∷ []) false
      rows) [
        | inl (e, q) ↦ inl (e, rw (known, q) refl)
        | inr (k, rows', q, (a, m, fit, _, is_k, after)) ↦
            let matches : matches_claim (hibernate_query pool i.id) (created ∷ []) a ≡ true =
              ground arith in
            let wanted =
              (matches_claim-All (hibernate_query pool i.id) (created ∷ []) a matches).1.1.0 in
            let state =
              matches_claim-state (hibernate_query pool i.id) (created ∷ []) a refl matches in
            let ran : hibernate net others attempt pools pool i true rows
                ≡ hibernate_claimed (net 1) others attempt (
                  ok (stamp (net 0) hibernating false a),
                  set_row a.id (stamp (net 0) hibernating false) rows,
                ) =
              rw (known, q, is_k, after) refl in
            inr (
              a,
              m,
              ground (arith, eq_iff i.id "", eq_iff a.id i.id),
              created-state a.state state,
              subst (Settled net others attempt rows a) (sym ran)
                  (settled net others attempt rows a up),
            )
      ]
  where
    created-state : (s : InstanceState) → mem_state s (created ∷ []) ≡ true → s ≡ created
    created-state created e = refl
    created-state in_use e = cc
    created-state hibernating e = cc
    created-state terminating e = cc
    created-state provisioning e = cc
