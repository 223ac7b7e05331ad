-- ===== src/Drivers/Suspend/Resumed.antt =====
-- An instance that is suspended and started again.
use drone_runner_aws.Base.{
  ℕ, String, List, [], ◌∷◌, Bool, true, false, not, ◌&&◌, arith, ◌≡◌, refl, ap, inl, inr,
  Bool-cases, Option, none, some, str_eq, first, if◌then◌else◌,
}
use drone_runner_aws.Base.Text.{lookup}
use drone_runner_aws.Base.Result.{ok, err}
use drone_runner_aws.Types.{Instance, created, hibernating}
use drone_runner_aws.Store.Instances.{
  failed, Conn, set_row, overwrite, find_instance, update_instance, found,
}
use drone_runner_aws.Drivers.Tenants.{Pool, driver_for_tenant}
use drone_runner_aws.Drivers.Driver.{Driver, Pools}
use drone_runner_aws.Drivers.Suspend.{
  SleepAnswer, asleep, sleeping, awake, enter_state, hibernate, hibernate_attempts,
  hibernate_or_stop_with_retries, find_or_create_instance, suspend, start_instance,
}

-- The last write of a row counts.
set_row-twice :
    (key : String) (a b : Instance) (rows : List Instance)
    → set_row key (overwrite a) (set_row key (overwrite b) rows) ≡ set_row key (overwrite a) rows
unfolding set_row
set_row-twice key a b [] = refl
set_row-twice key a b (x ∷ rows) = elim (Bool-cases (str_eq x.id key)) [
  | inl t ↦ rw (t, t) (ap (λ r. overwrite a x ∷ r) (set_row-twice key a b rows))
  | inr f ↦ rw (f, f) (ap (λ r. x ∷ r) (set_row-twice key a b rows))
]

first-set_row :
    (key : String) (a i : Instance) (rows : List Instance)
    → first (λ x. str_eq x.id key) rows ≡ some i
    → first (λ x. str_eq x.id key) (set_row key (overwrite a) rows) ≡ some (overwrite a i)
unfolding set_row
first-set_row key a i [] e = cc
first-set_row key a i (x ∷ rows) e = elim (Bool-cases (str_eq x.id key)) [
  | inl t ↦
      let same : x ≡ i = let e' = rw t at e in cc in rw (t, t) (ap (λ y. some (overwrite a y)) same)
  | inr f ↦ rw (f, f) (first-set_row key a i rows (rw f at e))
]

find_instance-first :
    (c : Conn) (key : String) (rows : List Instance) (i : Instance)
    → c.down ≡ false
    → first (λ x. str_eq x.id key) rows ≡ some i
    → find_instance c key rows ≡ ok i
unfolding find_instance
find_instance-first c key rows i up e = rw (up, e) refl

first-find_instance :
    (c : Conn) (key : String) (rows : List Instance) (i : Instance)
    → find_instance c key rows ≡ ok i
    → first (λ x. str_eq x.id key) rows ≡ some i
unfolding find_instance
first-find_instance c key rows i e = go c.down (first (λ x. str_eq x.id key) rows) e
  where
    go : (b : Bool) (o : Option Instance) → (if b then err failed else found o) ≡ ok i → o ≡ some i
    go true o q = cc
    go false none q = cc
    go false (some j) q = cc

update_instance_lem :
    (c : Conn) (a : Instance) (rows : List Instance)
    → c.down ≡ false
    → update_instance c a rows ≡ ok (set_row a.id (overwrite a) rows)
unfolding update_instance
update_instance_lem c a rows up = rw up refl

module _ (pools : Pools) {p : Pool Driver} (pool : String) (known : lookup pool pools ≡ some p)
    (i : Instance) (rows : List Instance) where
  abbrev written : Instance → List Instance
  written a = set_row i.id (overwrite a) rows

  suspended :
      (net : ℕ → Conn) (attempt : ℕ → Instance → SleepAnswer)
      → ((n : ℕ) → (net n).down ≡ false)
      → first (λ x. str_eq x.id i.id) rows ≡ some i
      → attempt 0 (enter_state hibernating i) ≡ asleep
      → suspend net (λ n s. s) attempt pools pool i rows ≡ (ok tt, written (sleeping i))
  unfolding suspend find_or_create_instance hibernate_or_stop_with_retries hibernate_attempts
      hibernate
  suspended net attempt up here sleeps =
      let free = enter_state created i in
      let marked = enter_state hibernating i in
      let fallback : (not (driver_for_tenant p i.tenant_id).can_hibernate && false) ≡ false =
        ground arith in
      rw
        (
          known,
          find_instance-first (net 0) i.id rows i (up 0) here,
          update_instance_lem (net 2) free rows (up 2),
          known,
          fallback,
          find_instance-first (net 3) i.id (written free) free (up 3)
              (first-set_row i.id free i rows here),
          update_instance_lem (net 4) marked (written free) (up 4),
          set_row-twice i.id marked free rows,
          sleeps,
          find_instance-first (net 5) i.id (written marked) marked (up 5)
              (first-set_row i.id marked i rows here),
          update_instance_lem (net 6) (sleeping i) (written marked) (up 6),
          set_row-twice i.id (sleeping i) marked rows,
        )
        refl

  -- An instance of the table that is suspended, and then started, with no failure and nothing else done
  -- to the table, is as it was, but in the state `created`, not hibernated, and at its new address; its
  -- row is written that way, and no other row has changed.
  pub suspend-start_instance :
      (net later : ℕ → Conn) (attempt : ℕ → Instance → SleepAnswer)
      (start : Instance → Option String) (address : String)
      → ((n : ℕ) → (net n).down ≡ false)
      → ((n : ℕ) → (later n).down ≡ false)
      → find_instance (net 0) i.id rows ≡ ok i
      → attempt 0 (enter_state hibernating i) ≡ asleep
      → start (sleeping i) ≡ some address
      → start_instance later start pools pool i.id none
          (suspend net (λ n s. s) attempt pools pool i rows).1
        ≡ (
          ok (awake address (enter_state created i)),
          written (awake address (enter_state created i)),
        )
  unfolding start_instance
  suspend-start_instance net later attempt start address up up' here sleeps starts =
      let at = first-find_instance (net 0) i.id rows i here in
      rw
        (
          suspended net attempt up at sleeps,
          known,
          find_instance-first (later 0) i.id (written (sleeping i)) (sleeping i) (up' 0)
              (first-set_row i.id (sleeping i) i rows at),
          starts,
          update_instance_lem (later 1) (awake address (sleeping i)) (written (sleeping i)) (up' 1),
          set_row-twice i.id (awake address (sleeping i)) (sleeping i) rows,
        )
        refl
