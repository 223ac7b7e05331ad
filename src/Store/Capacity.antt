-- ===== src/Store/Capacity.antt =====
-- store/database/sql/capacity_reservation.go: the table of capacity reservations, whose primary key is
-- the stage id. A statement is a function of the rows, in the order of a scan.
pub mod Evolves
pub mod Listed
use drone_runner_aws.Base.{
  ℕ, zero, suc, String, List, [], ◌∷◌, ◌++◌, Bool, true, false, not, ◌||◌, Option, none, some,
  str_eq, ltb, ◌==◌, keep, any, first, conj, length, is_empty, take, if◌then◌else◌,
}
use drone_runner_aws.Base.Result.{Result, ok, err}
use drone_runner_aws.Types.{CapacityReservation, CapacityState, CapacityQuery, mem_capacity_state}
use drone_runner_aws.Store.Batch.{claim_up_to}
use drone_runner_aws.Store.Instances.{StoreError, failed, Conn, unset_or, found}

abbrev pub query_conditions : Option CapacityQuery → CapacityReservation → List Bool
query_conditions none r = []
query_conditions (some q) r =
    unset_or q.stage_id r.stage_id
    ∷ unset_or q.pool_name r.pool_name
    ∷ (if q.created_at_before == 0 then true else ltb r.created_at q.created_at_before)
    ∷ []

unfoldable pub matches_capacity :
    Option CapacityQuery → List CapacityState → CapacityReservation → Bool
matches_capacity q states r =
    conj ((is_empty states || mem_capacity_state r.state states) ∷ query_conditions q r)

-- LIMIT, where the query has one.
abbrev pub limit_of : Option CapacityQuery → List CapacityReservation → ℕ
limit_of none rows = length rows
limit_of (some q) rows = if q.limit == 0 then length rows else q.limit

unfoldable pub list_capacities :
    Conn
    → Option CapacityQuery
    → List CapacityState
    → List CapacityReservation
    → Result StoreError (List CapacityReservation)
list_capacities c q states rows =
    if c.down
    then err failed
    else ok (take (limit_of q rows) (keep (matches_capacity q states) rows))

abbrev pub enter : CapacityState → CapacityReservation → CapacityReservation
enter new_state r = record r { state = new_state }

abbrev pub is_free_row :
    Conn → Option CapacityQuery → List CapacityState → CapacityReservation → Bool
is_free_row c q allowed r = conj (matches_capacity q allowed r ∷ not (c.locked r.stage_id) ∷ [])

-- FOR UPDATE SKIP LOCKED in the subquery, and an UPDATE of the rows that it names.
unfoldable pub find_and_claim_capacities :
    Conn
    → Option CapacityQuery
    → CapacityState
    → List CapacityState
    → List CapacityReservation
    → Result StoreError (List CapacityReservation) × List CapacityReservation
find_and_claim_capacities c q new_state allowed rows =
    let (claimed, rows') =
      claim_up_to (is_free_row c q allowed) (enter new_state) (limit_of q rows) rows in
    if c.down then (err failed, rows) else (ok claimed, rows')

unfoldable pub find_capacity :
    Conn → String → List CapacityReservation → Result StoreError CapacityReservation
find_capacity c key rows =
    if c.down then err failed else found (first (λ r. str_eq r.stage_id key) rows)

-- The clock fills in a missing time; the primary key refuses a second row.
unfoldable pub create_capacity :
    Conn
    → CapacityReservation
    → List CapacityReservation
    → Result StoreError (List CapacityReservation)
create_capacity c r rows =
    let stamped = record r { created_at = if r.created_at == 0 then c.now else r.created_at } in
    if c.down || any (λ s. str_eq s.stage_id r.stage_id) rows
    then err failed
    else ok (rows ++ stamped ∷ [])

unfoldable pub delete_capacity :
    Conn → String → List CapacityReservation → Result StoreError (List CapacityReservation)
delete_capacity c key rows =
    if c.down then err failed else ok (keep (λ r. not (str_eq r.stage_id key)) rows)
