-- ===== src/Store/Instances/Exclusive.antt =====
-- InstanceStore.FindAndClaim: the claims of several runners against one table.
use drone_runner_aws.Base.{
  String, List, [], ◌∷◌, Bool, true, false, In, All, Distinct, ◌≡◌, ◌≢◌, refl, subst, inl, inr,
  arith, eq_iff, is_empty, sym, ap, ◌∙◌,
}
use drone_runner_aws.Base.Result.{Result, ok, err}
use drone_runner_aws.Types.{Instance, InstanceState, QueryParams, mem_state}
use drone_runner_aws.Store.Instances.{
  StoreError, Conn, is_candidate, stamp, set_row, find_and_claim,
}
use drone_runner_aws.Store.Instances.Claim.{
  find_and_claim-cases, find_and_claim-Claims, matches_claim-state,
}

-- Every row of the given id is in the state `s`.
abbrev pub Held : InstanceState → String → List Instance → Type 0
Held s key rows = (i : Instance) → In i rows → i.id ≡ key → i.state ≡ s

module _ (c : Conn) (s : InstanceState) (u : Bool) where
  set_row-Held : (key : String) (rows : List Instance) → Held s key (set_row key (stamp c s u) rows)
  unfolding set_row
  set_row-Held key [] i m e = absurd m
  set_row-Held key (x ∷ rows) i (inl h) e = ground (arith, eq_iff x.id key)
  set_row-Held key (x ∷ rows) i (inr m) e = set_row-Held key rows i m e

  Held-set_row :
      (held key : String) (rows : List Instance)
      → Held s held rows
      → Held s held (set_row key (stamp c s u) rows)
  unfolding set_row
  Held-set_row held key [] h i m e = absurd m
  Held-set_row held key (x ∷ rows) h i (inl k) e = ground (arith, h x (inl refl))
  Held-set_row held key (x ∷ rows) h i (inr m) e =
      Held-set_row held key rows (λ j n. h j (inr n)) i m e

pub record Request : Type 0 where
  pub conn : Conn
  pub query : QueryParams
  pub update_start_time : Bool

-- The claims in the order in which the server commits them, and the ids handed out.
abbrev won : Result StoreError Instance → List String → List String
won (ok i) ids = i.id ∷ ids
won (err e) ids = ids

unfoldable pub winners :
    InstanceState → List InstanceState → List Request → List Instance → List String
winners s allowed [] rows = []
winners s allowed (r ∷ requests) rows =
    let (result, rows') = find_and_claim r.conn r.query s allowed r.update_start_time rows in
    won result (winners s allowed requests rows')

All-won :
    (r : Result StoreError Instance) (ids : List String) (held : String)
    → ((i : Instance) → r ≡ ok i → held ≢ i.id)
    → All (λ y. held ≢ y) ids
    → All (λ y. held ≢ y) (won r ids)
All-won (ok i) ids held free rest = (free i refl, rest)
All-won (err e) ids held free rest = rest

Distinct-won :
    (r : Result StoreError Instance) (ids : List String)
    → ((i : Instance) → r ≡ ok i → All (λ y. i.id ≢ y) ids)
    → Distinct ids
    → Distinct (won r ids)
Distinct-won (ok i) ids free rest = (free i refl, rest)
Distinct-won (err e) ids free rest = rest

module _ (s : InstanceState) (allowed : List InstanceState) (refused : mem_state s allowed ≡ false)
    (some_allowed : is_empty allowed ≡ false) where
  abbrev answer : Request → List Instance → Result StoreError Instance
  answer r rows = (find_and_claim r.conn r.query s allowed r.update_start_time rows).0

  abbrev after : Request → List Instance → List Instance
  after r rows = (find_and_claim r.conn r.query s allowed r.update_start_time rows).1

  candidate-free :
      (c : Conn) (p : QueryParams) (i : Instance) → is_candidate c p allowed i ≡ true → i.state ≢ s
  candidate-free c p i h e =
      let m = matches_claim-state p allowed i some_allowed (ground arith) in
      cc (ap (λ t. mem_state t allowed) e)

  claim-Held :
      (r : Request) (held : String) (rows : List Instance)
      → Held s held rows
      → Held s held (find_and_claim r.conn r.query s allowed r.update_start_time rows).1
  claim-Held r held rows h =
      elim (find_and_claim-cases r.conn r.query s allowed r.update_start_time rows) [
        | inl (e, g) ↦ subst (Held s held) (sym (ap (λ t. t.1) g)) h
        | inr (i, rows', g, (j, m, t, _, same, rest)) ↦
            subst (Held s held) (sym (ap (λ t. t.1) g ∙ rest))
              (Held-set_row r.conn s r.update_start_time held j.id rows h)
      ]

  -- A row that is held is not a candidate, so it is not handed out.
  winner-free :
      (r : Request) (held : String) (rows : List Instance) (i : Instance) (rows' : List Instance)
      → Held s held rows
      → find_and_claim r.conn r.query s allowed r.update_start_time rows ≡ (ok i, rows')
      → held ≢ i.id
  winner-free r held rows i rows' h g e =
      let (j, m, t, _, same, _) =
        find_and_claim-Claims r.conn r.query s allowed r.update_start_time rows i rows' g in
      candidate-free r.conn r.query j t (h j m (cc (ap (λ (k : Instance). k.id) same)))

  -- What has been claimed is held.
  claimed-Held :
      (r : Request) (rows : List Instance) (i : Instance)
      → (find_and_claim r.conn r.query s allowed r.update_start_time rows).0 ≡ ok i
      → Held s i.id (find_and_claim r.conn r.query s allowed r.update_start_time rows).1
  claimed-Held r rows i g =
      let (j, m, t, _, same, rest) =
        find_and_claim-Claims r.conn r.query s allowed r.update_start_time rows i (after r rows)
          (ap (λ (q : Result StoreError Instance). (q, after r rows)) g) in
      subst (Held s i.id) (sym rest) (
        subst (λ k. Held s k (set_row j.id (stamp r.conn s r.update_start_time) rows))
          (sym (ap (λ (k : Instance). k.id) same))
          (set_row-Held r.conn s r.update_start_time j.id rows))

  winners-Held :
      (requests : List Request) (held : String) (rows : List Instance)
      → Held s held rows
      → All (λ y. held ≢ y) (winners s allowed requests rows)
  unfolding winners
  winners-Held [] held rows h = tt
  winners-Held (r ∷ requests) held rows h =
      All-won (answer r rows) (winners s allowed requests (after r rows)) held
        (λ i g.
          winner-free r held rows i (after r rows) h
            (ap (λ (q : Result StoreError Instance). (q, after r rows)) g))
        (winners-Held requests held (after r rows) (claim-Held r held rows h))

  -- However many runners claim, with whatever queries and failures, no two claims that succeed hand
  -- out the same instance, as long as the claimed state is not one that may be claimed.
  pub winners-Distinct :
      (requests : List Request) (rows : List Instance) → Distinct (winners s allowed requests rows)
  unfolding winners
  winners-Distinct [] rows = tt
  winners-Distinct (r ∷ requests) rows =
      Distinct-won (answer r rows) (winners s allowed requests (after r rows))
        (λ i g. winners-Held requests i.id (after r rows) (claimed-Held r rows i g))
        (winners-Distinct requests (after r rows))
