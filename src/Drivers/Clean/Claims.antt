-- ===== src/Drivers/Clean/Claims.antt =====
-- The loop of claims: it ends, and what it claims.
use drone_runner_aws.Base.{
  ℕ, zero, suc, ◌+◌, ◌≤◌, ◌<◌, String, List, [], ◌∷◌, true, false, In, ◌≡◌, ◌≢◌, refl, sym, ap, inl,
  inr, Bool-cases, arith, str_eq, eq_iff, Option, none, some, keep, length, is_empty, mem_text,
}
use drone_runner_aws.Base.Result.{Result, ok, err}
use drone_runner_aws.Types.{Instance, InstanceState, terminating, QueryParams, mem_state}
use drone_runner_aws.Store.Instances.{
  StoreError, no_rows, failed, Conn, find_and_claim, matches_claim, is_candidate, stamp, set_row,
  pick_first, comes_before, claim_row,
}
use drone_runner_aws.Store.Instances.Claim.{
  find_and_claim-cases, find_and_claim-no_rows, matches_claim-state,
}
use drone_runner_aws.Drivers.Purger.{ids_of}
use drone_runner_aws.Drivers.Clean.{Claimed, and_claimed, claim_more, claim_all}

module _ (q : QueryParams) (allowed : List InstanceState) (some_state : is_empty allowed ≡ false)
    (other : mem_state terminating allowed ≡ false) where
  -- The rows that are still to be claimed.
  abbrev pub count : List Instance → ℕ
  count rows = length (keep (matches_claim q allowed) rows)

  -- A claimed row no longer matches.
  claimed-no_match :
      (c : Conn) (i : Instance) → matches_claim q allowed (stamp c terminating false i) ≡ false
  claimed-no_match c i = elim (Bool-cases (matches_claim q allowed (stamp c terminating false i))) [
    | inr f ↦ f
    | inl t ↦ let m = matches_claim-state q allowed (stamp c terminating false i) some_state t in cc
  ]

  count-set_row-le :
      (c : Conn) (key : String) (rows : List Instance)
      → count (set_row key (stamp c terminating false) rows) ≤ count rows
  unfolding set_row
  count-set_row-le c key [] = omega arith
  count-set_row-le c key (x ∷ rows) =
      ground (arith, count-set_row-le c key rows, claimed-no_match c x)

  count-set_row :
      (c : Conn) (i : Instance) (rows : List Instance)
      → In i rows
      → matches_claim q allowed i ≡ true
      → count (set_row i.id (stamp c terminating false) rows) < count rows
  unfolding set_row
  count-set_row c i [] m e = absurd m
  count-set_row c i (x ∷ rows) (inl p) e =
      let e' : matches_claim q allowed x ≡ true = rw (← p) e in
      let same : str_eq x.id i.id ≡ true =
        (eq_iff x.id i.id).1 (ap (λ (y : Instance). y.id) (sym p)) in
      rw (same, claimed-no_match c x, e') (omega (arith, count-set_row-le c i.id rows))
  count-set_row c i (x ∷ rows) (inr m) e =
      ground (arith, count-set_row c i rows m e, claimed-no_match c x)

  Out : Claimed → Type 0
  Out r = (out : Result StoreError (List Instance) × List Instance) × (r ≡ some out)

  Out-and_claimed : (i : Instance) (r : Claimed) → Out r → Out (and_claimed i r)
  unfolding Out
  Out-and_claimed i none (out, e) = cc
  Out-and_claimed i (some (err x, rows)) o = ((err x, rows), refl)
  Out-and_claimed i (some (ok is, rows)) o = ((ok (i ∷ is), rows), refl)

  Out-err :
      (rest : List Instance → Claimed) (e : StoreError) (rows : List Instance)
      → Out (claim_more rest (err e, rows))
  unfolding Out
  Out-err rest no_rows rows = ((ok [], rows), refl)
  Out-err rest failed rows = ((err failed, rows), refl)

  -- With more fuel than there are rows to claim the loop ends, whatever the calls answer.
  pub claim_all-total :
      (fuel : ℕ) (net : ℕ → Conn) (rows : List Instance)
      → count rows < fuel
      → (out : Result StoreError (List Instance) × List Instance) × (claim_all fuel net q allowed
            rows
          ≡ some out)
  unfolding claim_all Out
  claim_all-total zero net rows h = absurd (omega arith)
  claim_all-total (suc fuel) net rows h =
      elim (find_and_claim-cases (net 0) q terminating allowed false rows) [
        | inl (e, p) ↦ rw p (Out-err (claim_all fuel (λ n. net (n + 1)) q allowed) e rows)
        | inr (i, rows', p, (a, m, fit, _, _, after)) ↦
            let fewer : count rows' < count rows =
              rw after (count-set_row (net 0) a rows m (ground arith)) in
            rw p (
              Out-and_claimed i (claim_all fuel (λ n. net (n + 1)) q allowed rows')
                (claim_all-total fuel (λ n. net (n + 1)) rows' (omega arith)))
      ]

  and_claimed-ok :
      (i : Instance) (r : Claimed) (is : List Instance) (rows : List Instance)
      → and_claimed i r ≡ some (ok is, rows)
      → (js : List Instance) × (r ≡ some (ok js, rows)) × (is ≡ i ∷ js)
  and_claimed-ok i none is rows e = cc
  and_claimed-ok i (some (err x, rows')) is rows e = cc
  and_claimed-ok i (some (ok js, rows')) is rows e = (js, cc, cc)

  In-set_row :
      (f : Instance → Instance) (key : String) (rows : List Instance) (j : Instance)
      → In j rows
      → str_eq j.id key ≡ false
      → In j (set_row key f rows)
  unfolding set_row
  In-set_row f key [] j m e = absurd m
  In-set_row f key (x ∷ rows) j (inl p) e =
      let e' : str_eq x.id key ≡ false = rw (← p) e in rw e' (inl p)
  In-set_row f key (x ∷ rows) j (inr m) e = inr (In-set_row f key rows j m e)

  -- If no call fails and no row is locked, every row that matches has been claimed.
  pub claim_all-covers :
      (fuel : ℕ) (net : ℕ → Conn) (rows is rows' : List Instance)
      → ((n : ℕ) → (net n).down ≡ false)
      → ((n : ℕ) (key : String) → (net n).locked key ≡ false)
      → claim_all fuel net q allowed rows ≡ some (ok is, rows')
      → (j : Instance) → In j rows
      → matches_claim q allowed j ≡ true
      → mem_text j.id (ids_of is) ≡ true
  unfolding claim_all
  claim_all-covers zero net rows is rows' up open_rows e j m fit = cc
  claim_all-covers (suc fuel) net rows is rows' up open_rows e j m fit =
      elim (find_and_claim-cases (net 0) q terminating allowed false rows) [
        | inl (failed, p) ↦ let q' = rw p at e in cc
        | inl (no_rows, p) ↦
            let none_left =
              find_and_claim-no_rows (net 0) q terminating allowed false rows (rw p refl) j m in
            ground (arith, open_rows 0 j.id)
        | inr (i, rows'', p, (a, _, _, _, claimed, after)) ↦
            let (js, rest, all) =
              and_claimed-ok i (claim_all fuel (λ n. net (n + 1)) q allowed rows'') is rows'
                (rw p at e) in
            let id_i : i.id ≡ a.id = ap (λ (x : Instance). x.id) claimed in
            rw all (elim (Bool-cases (str_eq a.id j.id)) [
              | inl t ↦ rw (id_i, t) refl
              | inr f ↦
                  let left : In j rows'' = rw after (
                    In-set_row (stamp (net 0) terminating false) a.id rows j m
                      (ground (arith, eq_iff a.id j.id, eq_iff j.id a.id))) in
                  let ih =
                    claim_all-covers fuel (λ n. net (n + 1)) rows'' js rows' (λ n. up (n + 1))
                      (λ n. open_rows (n + 1)) rest j left fit in
                  rw (id_i, f) ih
            ])
      ]

  and_claimed-err :
      (i : Instance) (r : Claimed) (x : StoreError) (rows : List Instance)
      → and_claimed i r ≡ some (err x, rows)
      → r ≡ some (err x, rows)
  and_claimed-err i none x rows e = cc
  and_claimed-err i (some (err y, rows')) x rows e = e
  and_claimed-err i (some (ok js, rows')) x rows e = cc

  find_and_claim-up :
      (c : Conn) (rows : List Instance)
      → c.down ≡ false
      → (find_and_claim c q terminating allowed false rows).0 ≢ err failed
  unfolding find_and_claim
  find_and_claim-up c rows up e =
      go (pick_first (comes_before terminating) (keep (is_candidate c q allowed) rows)) (rw up at e)
    where
      go : (o : Option Instance) → (claim_row c terminating false o rows).0 ≢ err failed
      go none h = cc
      go (some i) h = cc

  -- The loop ends with an error only where a call fails.
  pub claim_all-no_error :
      (fuel : ℕ) (net : ℕ → Conn) (rows rows' : List Instance) (x : StoreError)
      → ((n : ℕ) → (net n).down ≡ false)
      → claim_all fuel net q allowed rows ≢ some (err x, rows')
  unfolding claim_all
  claim_all-no_error zero net rows rows' x up e = cc
  claim_all-no_error (suc fuel) net rows rows' x up e =
      elim (find_and_claim-cases (net 0) q terminating allowed false rows) [
        | inl (failed, p) ↦ find_and_claim-up (net 0) rows (up 0) (rw p refl)
        | inl (no_rows, p) ↦ let e' = rw p at e in cc
        | inr (i, rows'', p, _) ↦
            claim_all-no_error fuel (λ n. net (n + 1)) rows'' rows' x (λ n. up (n + 1))
              (and_claimed-err i (claim_all fuel (λ n. net (n + 1)) q allowed rows'') x rows'
                (rw p at e))
      ]
