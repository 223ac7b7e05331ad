-- ===== src/Drivers/Request/Cold.antt =====
-- When a request gets a new instance.
use drone_runner_aws.Base.{
  ℕ, ◌+◌, String, List, [], ◌∷◌, Bool, true, false, In, ◌≡◌, refl, sym, ap, subst, ◌∙◌, inl, inr,
  arith, ◌++◌, ◌||◌, any, str_eq, Option, none, some, if◌then◌else◌,
}
use drone_runner_aws.Base.Text.{lookup}
use drone_runner_aws.Base.Result.{Result, ok, err}
use drone_runner_aws.Types.{Instance, created, in_use, SetupInstanceParams, CapacityReservation}
use drone_runner_aws.Store.Instances.{
  StoreError, no_rows, failed, Conn, matches_claim, find_and_claim, create_instance,
}
use drone_runner_aws.Store.Instances.Claim.{find_and_claim-cases, find_and_claim-no_rows}
use drone_runner_aws.Store.Outbox.{Outbox}
use drone_runner_aws.Drivers.Tenants.{Pool}
use drone_runner_aws.Drivers.Driver.{Driver, Pools}
use drone_runner_aws.Drivers.Provision.{
  ProvisionParams, plan_of, Ready, nothing, broke, hit, claim_ready, ready_query, take_ready,
  tagged,
}
use drone_runner_aws.Drivers.Capacity.{World}
use drone_runner_aws.Drivers.Manager.{ProvisionError, setup_instance, fitted, stored_answer}
use drone_runner_aws.Drivers.Request.{
  Served, set_up_answer, first_variant, on_demand_params, set_up, serve, provision,
}

module _ (pool : String) (s : SetupInstanceParams) (image owner : String) (o : Outbox) where
  tagged-not_nothing :
      (v : String) (c : Conn) (i : Instance) (rows rows' : List Instance) (o' : Outbox)
      (a : Result StoreError (List Instance))
      → tagged s owner v c i rows o a ≡ (nothing, (rows', o'))
      → ⊥
  tagged-not_nothing v c i rows rows' o' (err e) q = cc
  tagged-not_nothing v c i rows rows' o' (ok r) q = cc

  -- Where nothing was claimed, no row was claimable for any variant, and nothing has changed.
  claim_ready-nothing :
      (net : ℕ → Conn) (variants : List String) (rows rows' : List Instance) (o' : Outbox)
      → ((n : ℕ) (key : String) → (net n).locked key ≡ false)
      → claim_ready net pool s image owner variants rows o ≡ (nothing, (rows', o'))
      → (rows' ≡ rows)
        × ((v : String)
            → In v variants
            → (i : Instance) → In i rows
            → matches_claim (ready_query pool s image v) (created ∷ []) i ≡ false)
  unfolding claim_ready
  claim_ready-nothing net [] rows rows' o' open_rows e =
      ((ap (λ a. a.1.0) (sym e)), λ v m. absurd m)
  claim_ready-nothing net (v ∷ variants) rows rows' o' open_rows e =
      elim (find_and_claim-cases (net 0) (ready_query pool s image v) in_use (created ∷ []) true
        rows) [
          | inl (no_rows, h) ↦
              let (same, rest) =
                claim_ready-nothing (λ n. net (n + 3)) variants rows rows' o'
                  (λ n. open_rows (n + 3)) (subst Taken h e) in
              (same, λ w m i n. go h w m i n (rest w))
          | inl (failed, h) ↦ let f : Taken (err failed, rows) = subst Taken h e in cc
          | inr (taken, rows₁, h, claims) ↦ absurd (
              tagged-not_nothing v (net 2) (record taken { owner_id = owner }) rows₁ rows' o' _
                (subst Taken h e))
        ]
    where
      Taken : Result StoreError Instance × List Instance → Type 0
      Taken r =
          take_ready s owner v net o
            (λ rows₂. claim_ready (λ n. net (n + 3)) pool s image owner variants rows₂ o) r
          ≡ (nothing, (rows', o'))

      go :
          find_and_claim (net 0) (ready_query pool s image v) in_use (created ∷ []) true rows
            ≡ (err no_rows, rows)
          → (w : String) → In w (v ∷ variants)
          → (i : Instance) → In i rows
          → (In w variants
              → (i : Instance) → In i rows
              → matches_claim (ready_query pool s image w) (created ∷ []) i ≡ false)
          → matches_claim (ready_query pool s image w) (created ∷ []) i ≡ false
      go h w (inl q) i n rest =
          let passed =
            find_and_claim-no_rows (net 0) (ready_query pool s image v) in_use (created ∷ []) true
              rows (ap (λ (r : Result StoreError Instance × List Instance). r.0) h) i n in
          let unlocked = open_rows 0 i.id in rw q (ground arith)
      go h w (inr m) i n rest = rest m i n

-- A set-up that goes through adds the instance that the provider has made.
set_up-Made :
    (c : Conn) (runner owner : String) (params : SetupInstanceParams) (made : Option Instance)
    (rows rows' : List Instance) (k : Instance)
    → setup_instance c runner true owner params made rows ≡ (ok k, rows')
    → ((i : Instance) × (made ≡ some i) × (k ≡ fitted runner true owner params i))
      × (rows' ≡ rows ++ k ∷ [])
unfolding setup_instance create_instance
set_up-Made c runner owner params none rows rows' k e = cc
set_up-Made c runner owner params (some i) rows rows' k e = go _ refl e
  where
    own : Instance
    own = fitted runner true owner params i

    go :
        (b : Bool)
        → (c.down || any (λ j. str_eq j.id own.id || str_eq j.name own.name) rows) ≡ b
        → stored_answer own rows (if b then err failed else ok (rows ++ own ∷ [])) ≡ (ok k, rows')
        → ((j : Instance) × (some i ≡ some j) × (k ≡ fitted runner true owner params j))
          × (rows' ≡ rows ++ k ∷ [])
    go true f q = cc
    go false f q =
        let is_k : own ≡ k = cc in
        ((i, refl, sym is_k), sym (ap (λ a. a.1) q) ∙ ap (λ j. rows ++ j ∷ []) is_k)

module _ (pools : Pools) (runner owner : String)
    (made : SetupInstanceParams → Option CapacityReservation → Option Instance) (net : ℕ → Conn)
    (last : Conn) (name : String) (qualify : String → String) (request : ProvisionParams)
    (p : Pool Driver) (w : World) where
  abbrev plan : SetupInstanceParams × List String
  plan = plan_of qualify p request

  abbrev new_params : SetupInstanceParams
  new_params = on_demand_params (record plan.0 { variant_id = first_variant plan.1 })

  -- No row was claimable for any variant; the instance is what the provider made of the first variant,
  -- fitted out as in use by the owner, and it is added to the table.
  abbrev pub Made : Instance → String → World → Type 0
  Made k variant w' =
      ((v : String)
        → In v plan.1
        → (i : Instance) → In i w.instances
        → matches_claim (ready_query name plan.0 (qualify request.image_name) v) (created ∷ []) i
          ≡ false)
      × ((i : Instance) × (made new_params none ≡ some i)
          × (k ≡ fitted runner true owner new_params i))
      × (variant ≡ first_variant plan.1)
      × (w' ≡ record w { instances = w.instances ++ k ∷ [] })

  set_up_answer-Made :
      (rows : List Instance) (o o' : Outbox) (served : Served) (w' : World)
      → rows ≡ w.instances
      → ((v : String)
          → In v plan.1
          → (i : Instance) → In i w.instances
          → matches_claim (ready_query name plan.0 (qualify request.image_name) v) (created ∷ []) i
            ≡ false)
      → set_up pools runner owner made last new_params none
          (first_variant plan.1)
          (record w { instances = rows })
          o
        ≡ (ok served, (w', o'))
      → Made served.instance served.variant w'
  set_up_answer-Made rows o o' served w' same none_ready e =
      go (setup_instance last runner true owner new_params (made new_params none) rows) refl e
    where
      go :
          (a : Result ProvisionError Instance × List Instance)
          → setup_instance last runner true owner new_params (made new_params none) rows ≡ a
          → set_up_answer (first_variant plan.1) (record w { instances = rows }) o a
            ≡ (ok served, (w', o'))
          → Made served.instance served.variant w'
      go (err x, rows') h q = cc
      go (ok k, rows') h q =
          let (by, added) = set_up-Made last runner owner new_params _ rows rows' k h in
          let is_served : record { instance = k; is_warm = false; variant = first_variant plan.1 }
              ≡ served =
            cc in
          let is_k : k ≡ served.instance = ap (λ (x : Served). x.instance) is_served in
          (
            none_ready,
            (by.0, by.1, sym is_k ∙ by.2),
            sym (ap (λ (x : Served). x.variant) is_served),
            sym (ap (λ a. a.1.0) q)
                ∙ ap (λ r. record w { instances = r })
                    (added ∙ ap (λ r. r ++ k ∷ []) same ∙ ap (λ j. w.instances ++ j ∷ []) is_k),
          )

  -- A request without a reservation that gets a new instance, though no row is locked: no row of the table
  -- was claimable for any of the variants that it may have. The instance is what the provider made of the
  -- first of them, fitted out as in use by the owner, and is added to the table; nothing else has changed
  -- there.
  pub provision-Made :
      (o o' : Outbox) (served : Served) (w' : World)
      → lookup name pools ≡ some p
      → ((n : ℕ) (key : String) → (net n).locked key ≡ false)
      → provision pools runner owner made net last name qualify request none w o
        ≡ (ok served, (w', o'))
      → served.is_warm ≡ false
      → Made served.instance served.variant w'
  unfolding provision
  provision-Made o o' served w' known open_rows e new =
      go (claim_ready net name plan.0 (qualify request.image_name) owner plan.1 w.instances o) refl
        (rw known at e)
    where
      go :
          (r : Ready × (List Instance × Outbox))
          → claim_ready net name plan.0 (qualify request.image_name) owner plan.1 w.instances o ≡ r
          → serve pools runner owner made last plan.0 plan.1 w r ≡ (ok served, (w', o'))
          → Made served.instance served.variant w'
      go (broke x, (rows, o₂)) h q = cc
      go (hit i v, (rows, o₂)) h q = cc
      go (nothing, (rows, o₂)) h q =
          let (same, none_ready) =
            claim_ready-nothing name plan.0 (qualify request.image_name) owner o net plan.1
              w.instances rows o₂ open_rows h in
          set_up_answer-Made rows o₂ o' served w' same none_ready q
