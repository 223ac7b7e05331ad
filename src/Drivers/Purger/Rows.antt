-- ===== src/Drivers/Purger/Rows.antt =====
-- executeInstanceCleanup: what becomes of each row.
use drone_runner_aws.Base.{
  ℕ, String, List, [], ◌∷◌, Bool, true, false, not, ◌||◌, In, All, In-keep, keep-In, Distinct,
  mem_text, ◌≡◌, ◌≢◌, refl, sym, ap, subst, ◌∙◌, ◌⊎◌, inl, inr, Bool-cases, arith, eq_iff, str_eq,
  keep, map, is_empty, if◌then◌else◌, ◌==◌,
}
use drone_runner_aws.Base.Result.{Result, ok, err}
use drone_runner_aws.Types.{Instance, terminating}
use drone_runner_aws.Store.Instances.{StoreError, failed, Conn, stamp}
use drone_runner_aws.Drivers.Purger.{
  is_leaked, force_delete_leaked, update_where, ids_of, delete_destroyed, destroyed_by, claim_stale,
  execute_instance_cleanup,
}

other_id :
    (x : Instance) (rows : List Instance) (y : Instance)
    → In y rows
    → All (λ s. x.id ≢ s) (ids_of rows)
    → x.id ≢ y.id
other_id x [] y m a e = absurd m
other_id x (z ∷ rows) y (inl q) a e = a.0 (e ∙ ap (λ (w : Instance). w.id) q)
other_id x (z ∷ rows) y (inr m) a e = other_id x rows y m a.1 e

-- Rows of one id are one row.
pub ids_unique :
    (rows : List Instance) (i j : Instance)
    → Distinct (ids_of rows)
    → In i rows
    → In j rows
    → i.id ≡ j.id
    → i ≡ j
ids_unique [] i j d m n e = absurd m
ids_unique (x ∷ rows) i j d (inl p) (inl q) e = p ∙ sym q
ids_unique (x ∷ rows) i j d (inl p) (inr n) e =
    absurd (other_id x rows j n d.0 (ap (λ (y : Instance). y.id) (sym p) ∙ e))
ids_unique (x ∷ rows) i j d (inr m) (inl q) e =
    absurd (other_id x rows i m d.0 (ap (λ (y : Instance). y.id) (sym q) ∙ sym e))
ids_unique (x ∷ rows) i j d (inr m) (inr n) e = ids_unique rows i j d.1 m n e

mem-ids :
    (a : String) (rows : List Instance)
    → mem_text a (ids_of rows) ≡ true
    → (i : Instance) × In i rows × (i.id ≡ a)
mem-ids a [] e = cc
mem-ids a (i ∷ rows) e = elim (Bool-cases (str_eq i.id a)) [
  | inl t ↦ (i, inl refl, ground (arith, eq_iff i.id a, t))
  | inr f ↦ let (j, m, same) = mem-ids a rows (ground (arith, e, f)) in (j, inr m, same)
]

In-map :
    (f : Instance → Instance) (rows : List Instance) (k : Instance)
    → In k (map f rows)
    → (i : Instance) × In i rows × (k ≡ f i)
In-map f [] k m = absurd m
In-map f (i ∷ rows) k (inl e) = (i, inl refl, e)
In-map f (i ∷ rows) k (inr m) = let (j, n, e) = In-map f rows k m in (j, inr n, e)

In-update :
    (test : Instance → Bool) (f : Instance → Instance) (rows : List Instance) (i : Instance)
    → In i rows
    → In (if test i then f i else i) (update_where test f rows)
unfolding update_where
In-update test f [] i m = absurd m
In-update test f (x ∷ rows) i (inl e) = inl (ap (λ (y : Instance). if test y then f y else y) e)
In-update test f (x ∷ rows) i (inr m) = inr (In-update test f rows i m)

-- A row that has not leaked is left by the first statement.
In-left :
    (c : Conn) (now : ℕ) (pool : String) (max_age : ℕ) (rows : List Instance) (i : Instance)
    → In i rows
    → is_leaked now pool max_age i ≡ false
    → In i (force_delete_leaked c now pool max_age rows)
unfolding force_delete_leaked
In-left c now pool max_age rows i m e = go ((max_age == 0) || c.down)
  where
    go : (b : Bool) → In i (if b then rows else keep (λ j. not (is_leaked now pool max_age j)) rows)
    go true = m
    go false = keep-In (λ j. not (is_leaked now pool max_age j)) i rows m (rw e refl)

left-In :
    (c : Conn) (now : ℕ) (pool : String) (max_age : ℕ) (rows : List Instance) (i : Instance)
    → In i (force_delete_leaked c now pool max_age rows)
    → In i rows
unfolding force_delete_leaked
left-In c now pool max_age rows i m = go ((max_age == 0) || c.down) m
  where
    go :
        (b : Bool)
        → In i (if b then rows else keep (λ j. not (is_leaked now pool max_age j)) rows)
        → In i rows
    go true n = n
    go false n = (In-keep (λ j. not (is_leaked now pool max_age j)) i rows n).0

-- A row whose id is not among the destroyed ones is not deleted.
In-not_destroyed :
    (c : Conn) (destroyed rows : List Instance) (i : Instance)
    → In i rows
    → mem_text i.id (ids_of destroyed) ≡ false
    → In i (delete_destroyed c destroyed rows).1
unfolding delete_destroyed
In-not_destroyed c destroyed rows i m e = go (is_empty destroyed) c.down
  where
    go :
        (a b : Bool)
        → In i
            (if◌then◌else◌ {A = Result StoreError (List Instance) × List Instance} a
              (ok destroyed, rows)
              (if b
                then (err failed, rows)
                else (ok destroyed, keep (λ j. not (mem_text j.id (ids_of destroyed))) rows))).1
    go true b = m
    go false true = m
    go false false = keep-In (λ j. not (mem_text j.id (ids_of destroyed))) i rows m (rw e refl)

module _ (net : ℕ → Conn) (now : ℕ) (pool : String) (destroy : List Instance → List String)
    (stale : Instance → Bool) (max_age : ℕ) (rows : List Instance) where
  abbrev pub result : List Instance
  result = (execute_instance_cleanup net now pool destroy stale max_age rows).1

  -- The rows that are claimed and given to the driver.
  abbrev pub claimed : List Instance
  claimed = claim_stale (net 1) stale (force_delete_leaked (net 0) now pool max_age rows)

  remains :
      (i : Instance)
      → In i rows
      → is_leaked now pool max_age i ≡ false
      → mem_text i.id (ids_of (destroyed_by destroy claimed)) ≡ false
      → In i result ⊎ In (if stale i then stamp (net 1) terminating false i else i) result
  unfolding execute_instance_cleanup
  remains i m e f = go (net 1).down
    where
      same :
          (b : Bool)
          → mem_text
              (if b then stamp (net 1) terminating false i else i).id
              (ids_of (destroyed_by destroy claimed))
            ≡ mem_text i.id (ids_of (destroyed_by destroy claimed))
      same true = refl
      same false = refl

      go :
          (b : Bool)
          → let after =
              if◌then◌else◌ {A = Result StoreError (List Instance) × List Instance} b
                (err failed, force_delete_leaked (net 0) now pool max_age rows)
                (delete_destroyed (net 2) (destroyed_by destroy claimed) (
                  update_where stale
                    (stamp (net 1) terminating false)
                    (force_delete_leaked (net 0) now pool max_age rows))) in
            In i after.1 ⊎ In (if stale i then stamp (net 1) terminating false i else i) after.1
      go true = inl (In-left (net 0) now pool max_age rows i m e)
      go false = inr (
          In-not_destroyed (net 2) (destroyed_by destroy claimed) _
            (if stale i then stamp (net 1) terminating false i else i)
            (In-update stale (stamp (net 1) terminating false) _ i
              (In-left (net 0) now pool max_age rows i m e))
            (same (stale i) ∙ f))

  -- What the driver has destroyed is a stale row, and was not reported as failed.
  destroyed-stale :
      (a : String)
      → mem_text a (ids_of (destroyed_by destroy claimed)) ≡ true
      → (j : Instance) × In j rows
        × (stale j ≡ true)
        × (j.id ≡ a)
        × (mem_text a (destroy claimed) ≡ false)
  destroyed-stale a h =
      let (s, m, e) = mem-ids a (destroyed_by destroy claimed) h in
      let (n, f) = In-keep (λ k. not (mem_text k.id (destroy claimed))) s claimed m in
      let (j, k, same) =
        In-map (stamp (net 1) terminating false)
          (keep stale (force_delete_leaked (net 0) now pool max_age rows)) s n in
      let (l, t) = In-keep stale j (force_delete_leaked (net 0) now pool max_age rows) k in
      (
        j,
        left-In (net 0) now pool max_age rows j l,
        t,
        ap (λ (y : Instance). y.id) (sym same) ∙ e,
        subst (λ b. mem_text b (destroy claimed) ≡ false) e (ground (arith, f)),
      )

  -- In a table whose ids are distinct, a row that is neither leaked nor stale is there after the sweep,
  -- as it was.
  pub cleanup-spares :
      (i : Instance)
      → Distinct (ids_of rows)
      → In i rows
      → is_leaked now pool max_age i ≡ false
      → stale i ≡ false
      → In i result
  cleanup-spares i d m e f =
      elim (remains i m e (kept (mem_text i.id (ids_of (destroyed_by destroy claimed))) refl)) [
        | inl h ↦ h
        | inr h ↦ subst (λ b. In (if b then stamp (net 1) terminating false i else i) result) f h
      ]
    where
      kept :
          (b : Bool)
          → mem_text i.id (ids_of (destroyed_by destroy claimed)) ≡ b
          → mem_text i.id (ids_of (destroyed_by destroy claimed)) ≡ false
      kept false h = h
      kept true h =
          let (j, n, t, same, _) = destroyed-stale i.id h in
          absurd (cc (ap stale (ids_unique rows j i d n m same), t, f))
