-- ===== src/Store/Instances/Sorted.antt =====
-- Lists of instances in the order of their start.
use drone_runner_aws.Base.{
  List, [], ◌∷◌, Bool, true, false, In, ◌≡◌, inl, inr, Bool-cases, arith, ltb, if◌then◌else◌,
}
use drone_runner_aws.Types.{Instance}
use drone_runner_aws.Store.Instances.{sort_by_started, insert_by_started}

In-insert :
    (x : Instance) (rows : List Instance) (i : Instance)
    → In i (x ∷ rows)
    → In i (insert_by_started x rows)
unfolding insert_by_started
In-insert x [] i m = m
In-insert x (y ∷ rows) i m = go (ltb y.started x.started) m (λ n. In-insert x rows i n)
  where
    go :
        (b : Bool)
        → In i (x ∷ y ∷ rows)
        → (In i (x ∷ rows) → In i (insert_by_started x rows))
        → In i (if b then y ∷ insert_by_started x rows else x ∷ y ∷ rows)
    go false n rest = n
    go true (inl e) rest = inr (rest (inl e))
    go true (inr (inl e)) rest = inl e
    go true (inr (inr n)) rest = inr (rest (inr n))

pub In-sort : (rows : List Instance) (i : Instance) → In i rows → In i (sort_by_started rows)
unfolding sort_by_started
In-sort [] i m = m
In-sort (x ∷ rows) i (inl e) = In-insert x (sort_by_started rows) i (inl e)
In-sort (x ∷ rows) i (inr m) = In-insert x (sort_by_started rows) i (inr (In-sort rows i m))

insert-In :
    (x : Instance) (rows : List Instance) (i : Instance)
    → In i (insert_by_started x rows)
    → In i (x ∷ rows)
unfolding insert_by_started
insert-In x [] i m = m
insert-In x (y ∷ rows) i m = elim (Bool-cases (ltb y.started x.started)) [
  | inr f ↦ rw f at m
  | inl t ↦ go (λ n. insert-In x rows i n) (rw t at m)
]
  where
    go :
        (In i (insert_by_started x rows) → In i (x ∷ rows))
        → In i (y ∷ insert_by_started x rows)
        → In i (x ∷ y ∷ rows)
    go below (inl e) = inr (inl e)
    go below (inr n) = elim (below n) [ inl e ↦ inl e | inr k ↦ inr (inr k) ]

pub sort-In : (rows : List Instance) (i : Instance) → In i (sort_by_started rows) → In i rows
unfolding sort_by_started
sort-In [] i m = m
sort-In (x ∷ rows) i m = elim (insert-In x (sort_by_started rows) i m) [
  | inl e ↦ inl e
  | inr n ↦ inr (sort-In rows i n)
]

-- None began before the first.
abbrev pub IsLeast : List Instance → Type 0
IsLeast [] = Unit
IsLeast (a ∷ rows) = (i : Instance) → In i (a ∷ rows) → ltb i.started a.started ≡ false

insert-IsLeast :
    (x : Instance) (rows : List Instance) → IsLeast rows → IsLeast (insert_by_started x rows)
unfolding insert_by_started
insert-IsLeast x [] h = λ i m. elim m [ inl e ↦ rw e (ground arith) | inr n ↦ absurd n ]
insert-IsLeast x (y ∷ rows) h = elim (Bool-cases (ltb y.started x.started)) [
  | inl t ↦ rw t (λ i m. later t i (insert-In x rows) m)
  | inr f ↦ rw f (λ i m. first f i m)
]
  where
    first :
        ltb y.started x.started ≡ false
        → (i : Instance) → In i (x ∷ y ∷ rows)
        → ltb i.started x.started ≡ false
    first f i (inl e) = rw e (ground arith)
    first f i (inr m) = let least = h i m in ground arith

    later :
        ltb y.started x.started ≡ true
        → (i : Instance) → ((j : Instance) → In j (insert_by_started x rows) → In j (x ∷ rows))
        → In i (y ∷ insert_by_started x rows)
        → ltb i.started y.started ≡ false
    later t i below (inl e) = h i (inl e)
    later t i below (inr m) = elim (below i m) [ inl e ↦ rw e (ground arith) | inr n ↦ h i (inr n) ]

pub sort-IsLeast : (rows : List Instance) → IsLeast (sort_by_started rows)
unfolding sort_by_started
sort-IsLeast [] = tt
sort-IsLeast (x ∷ rows) = insert-IsLeast x (sort_by_started rows) (sort-IsLeast rows)
