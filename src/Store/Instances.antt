-- ===== src/Store/Instances.antt =====
-- store/database/sql/instances.go: the table of instances. A statement is a function of the rows,
-- which stand in the order in which the server scans them (so ties of ORDER BY fall in any way).
-- What the server decides is in `Conn`: the clock, the rows that other transactions have locked
-- (SKIP LOCKED), and whether the call fails; a call that fails is rolled back.
pub mod Claim
pub mod Exclusive
pub mod Sorted
use drone_runner_aws.Base.{
  ℕ, String, List, [], ◌∷◌, ◌++◌, Bool, true, false, ◌&&◌, ◌||◌, Option, none, some, str_eq, ltb,
  keep, any, conj, first, if◌then◌else◌, is_empty,
}
use drone_runner_aws.Base.Text.{lookup}
use drone_runner_aws.Base.Result.{Result, ok, err}
use drone_runner_aws.Types.{
  Instance, InstanceState, InstanceSource, QueryParams, in_use, same_state, mem_state, same_source,
}

pub data StoreError : Type 0 where
  -- sql.ErrNoRows, and any other error of the connection or the server.
  no_rows failed : StoreError

pub record Conn : Type 0 where
  -- The server's clock, in whole seconds: `extract(epoch FROM now())`.
  pub now : ℕ
  -- Rows that another transaction holds: of the table that the call is about, which is keyed by a text
  -- (`instances`, `capacity_reservation`), and of `outbox_jobs`.
  pub locked : String → Bool
  pub locked_job : ℕ → Bool
  pub down : Bool

-- A condition that is added only for a non-empty parameter.
abbrev pub unset_or : String → String → Bool
unset_or wanted column = str_eq wanted "" || str_eq column wanted

abbrev pub same_bool : Bool → Bool → Bool
same_bool true b = b
same_bool false true = false
same_bool false false = true

abbrev pub has_source : Option InstanceSource → InstanceSource → Bool
has_source none s = true
has_source (some t) s = same_source s t

-- The conditions of the claim's subquery, in the order in which they are added.
abbrev pub claim_conditions : QueryParams → List InstanceState → Instance → List Bool
claim_conditions p allowed i =
    str_eq i.pool p.pool_name
    ∷ unset_or p.runner_name i.runner_name
    ∷ unset_or p.instance_id i.id
    ∷ unset_or p.image_name i.image
    ∷ unset_or p.machine_type i.size
    ∷ (if p.nested_virtualization then i.enable_nested_virtualization else true)
    ∷ same_bool p.gpu i.gpu
    ∷ unset_or p.variant_id i.variant_id
    ∷ unset_or p.tenant_id i.tenant_id
    ∷ (is_empty allowed || mem_state i.state allowed)
    ∷ has_source p.filter_source i.source
    ∷ []

unfoldable pub matches_claim : QueryParams → List InstanceState → Instance → Bool
matches_claim p allowed i = conj (claim_conditions p allowed i)

-- ORDER BY: for a claim into use, instances that are not hibernated come first; then the oldest.
unfoldable pub comes_before : InstanceState → Instance → Instance → Bool
comes_before new_state i j =
    if same_state new_state in_use
    then (if i.is_hibernated
        then j.is_hibernated && ltb i.started j.started
        else j.is_hibernated || ltb i.started j.started)
    else ltb i.started j.started

-- ORDER BY … LIMIT 1: the first row that no other row comes before.
unfoldable pub pick_first : (Instance → Instance → Bool) → List Instance → Option Instance
pick_first before [] = none
pick_first before (i ∷ rows) = elim (pick_first before rows) [
  | none ↦ some i
  | some j ↦ if before j i then some j else some i
]

abbrev pub is_candidate : Conn → QueryParams → List InstanceState → Instance → Bool
is_candidate c p allowed i = matches_claim p allowed i && (if c.locked i.id then false else true)

-- The SET clause of the claim.
abbrev pub stamp : Conn → InstanceState → Bool → Instance → Instance
stamp c new_state update_start_time i = record i {
  state = new_state;
  updated = c.now;
  started = if update_start_time then c.now else i.started;
}

-- The row with the given id is changed by `f`.
unfoldable pub set_row : String → (Instance → Instance) → List Instance → List Instance
set_row key f [] = []
set_row key f (i ∷ rows) = (if str_eq i.id key then f i else i) ∷ set_row key f rows

unfoldable pub claim_row :
    Conn
    → InstanceState
    → Bool
    → Option Instance
    → List Instance
    → Result StoreError Instance × List Instance
claim_row c new_state update_start_time none rows = (err no_rows, rows)
claim_row c new_state update_start_time (some i) rows = (
  ok (stamp c new_state update_start_time i),
  set_row i.id (stamp c new_state update_start_time) rows,
)

unfoldable pub find_and_claim :
    Conn
    → QueryParams
    → InstanceState
    → List InstanceState
    → Bool
    → List Instance
    → Result StoreError Instance × List Instance
unfolding claim_row
find_and_claim c p new_state allowed update_start_time rows =
    if c.down
    then (err failed, rows)
    else claim_row c new_state update_start_time
        (pick_first (comes_before new_state) (keep (is_candidate c p allowed) rows)) rows

abbrev pub has_labels : List (String × String) → List (String × String) → Bool
has_labels [] have = true
has_labels ((k, v) ∷ wanted) have =
    (elim (lookup k have) [ none ↦ false | some w ↦ str_eq w v ]) && has_labels wanted have

abbrev pub has_status : Option InstanceState → InstanceState → Bool
has_status none s = true
has_status (some t) s = same_state s t

abbrev pub matches_list : String → Option QueryParams → Instance → Bool
matches_list pool none i = unset_or pool i.pool
matches_list pool (some p) i =
    unset_or pool i.pool
    && unset_or p.stage i.stage
    && has_status p.status i.state
    && unset_or p.runner_name i.runner_name
    && has_labels p.match_labels i.labels

-- ORDER BY instance_started ASC.
unfoldable pub insert_by_started : Instance → List Instance → List Instance
insert_by_started i [] = i ∷ []
insert_by_started i (j ∷ rows) =
    if ltb j.started i.started then j ∷ insert_by_started i rows else i ∷ j ∷ rows

unfoldable pub sort_by_started : List Instance → List Instance
unfolding insert_by_started
sort_by_started [] = []
sort_by_started (i ∷ rows) = insert_by_started i (sort_by_started rows)

unfoldable pub list_instances :
    Conn → String → Option QueryParams → List Instance → Result StoreError (List Instance)
list_instances c pool params rows =
    if c.down then err failed else ok (sort_by_started (keep (matches_list pool params) rows))

-- A query for one row answers sql.ErrNoRows where there is none.
abbrev pub found {ℓ} : {A : Type ℓ} → Option A → Result StoreError A
found none = err no_rows
found (some a) = ok a

unfoldable pub find_instance : Conn → String → List Instance → Result StoreError Instance
find_instance c key rows = if c.down then err failed else found (first (λ i. str_eq i.id key) rows)

-- The primary key and UNIQUE(instance_name) refuse a second row.
unfoldable pub create_instance : Conn → Instance → List Instance → Result StoreError (List Instance)
create_instance c i rows =
    if c.down || any (λ j. str_eq j.id i.id || str_eq j.name i.name) rows
    then err failed
    else ok (rows ++ i ∷ [])

unfoldable pub delete_instance : Conn → String → List Instance → Result StoreError (List Instance)
delete_instance c key rows =
    if c.down then err failed else ok (keep (λ i. if str_eq i.id key then false else true) rows)

-- The columns that `instanceUpdate` sets.
abbrev pub overwrite : Instance → Instance → Instance
overwrite new i = record i {
  state = new.state;
  stage = new.stage;
  updated = new.updated;
  is_hibernated = new.is_hibernated;
  address = new.address;
  owner_id = new.owner_id;
  started = new.started;
}

unfoldable pub update_instance : Conn → Instance → List Instance → Result StoreError (List Instance)
update_instance c new rows = if c.down then err failed else ok (set_row new.id (overwrite new) rows)
