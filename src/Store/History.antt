-- ===== src/Store/History.antt =====
-- store/database/sql/utilization_history.go: how many instances of each kind were in use, and when; and
-- the grouped count of instances (instances.go) that the records are made from.
use drone_runner_aws.Base.{
  ℕ, suc, String, List, [], ◌∷◌, ◌++◌, Bool, not, ◌&&◌, str_eq, ltb, leb, keep, map, is_empty,
  mem_text, if◌then◌else◌,
}
use drone_runner_aws.Base.Result.{Result, ok, err}
use drone_runner_aws.Types.{
  Instance, InstanceState, same_state, InstanceCount, UtilizationRecord, TimeRange,
  default_tenant_id,
}
use drone_runner_aws.Store.Instances.{StoreError, failed, Conn}

abbrev pub tenant_key : String → String
tenant_key tenant = if str_eq tenant "" then default_tenant_id else tenant

unfoldable pub create_record :
    Conn → UtilizationRecord → List UtilizationRecord → Result StoreError (List UtilizationRecord)
create_record c r rows =
    if c.down then err failed else ok (rows ++ record r { tenant_id = tenant_key r.tenant_id } ∷ [])

unfoldable pub delete_records_older_than :
    Conn → ℕ → List UtilizationRecord → Result StoreError (List UtilizationRecord)
delete_records_older_than c time rows =
    if c.down then err failed else ok (keep (λ r. not (ltb r.recorded_at time)) rows)

abbrev pub is_of : String → String → String → String → UtilizationRecord → Bool
is_of pool tenant variant image r =
    str_eq r.pool pool
    && str_eq r.tenant_id tenant
    && str_eq r.variant_id variant
    && str_eq r.image_name image

abbrev pub is_within : TimeRange → UtilizationRecord → Bool
is_within t r = leb t.start_time r.recorded_at && leb r.recorded_at t.end_time

-- ORDER BY recorded_at.
unfoldable pub insert_by_time : UtilizationRecord → List UtilizationRecord → List UtilizationRecord
insert_by_time r [] = r ∷ []
insert_by_time r (s ∷ rows) =
    if ltb s.recorded_at r.recorded_at then s ∷ insert_by_time r rows else r ∷ s ∷ rows

unfoldable pub sort_by_time : List UtilizationRecord → List UtilizationRecord
unfolding insert_by_time
sort_by_time [] = []
sort_by_time (r ∷ rows) = insert_by_time r (sort_by_time rows)

-- The records of a kind, one list for each range; a range's records are in order of time.
unfoldable pub utilization_history_batch :
    Conn
    → String
    → String
    → String
    → String
    → List TimeRange
    → List UtilizationRecord
    → Result StoreError (List (List UtilizationRecord))
unfolding sort_by_time
utilization_history_batch c pool tenant variant image [] rows = ok []
utilization_history_batch c pool tenant variant image (t ∷ ts) rows =
    if c.down
    then err failed
    else ok (
        map
          (λ range.
            sort_by_time (
              keep (λ r. is_of pool (tenant_key tenant) variant image r && is_within range r) rows))
          (t ∷ ts))

abbrev pub is_active : ℕ → UtilizationRecord → Bool
is_active since r = leb since r.recorded_at && ltb 0 r.in_use_instances

-- DISTINCT, in the order of the rows.
unfoldable pub images_of : List UtilizationRecord → List String
images_of [] = []
images_of (r ∷ rows) =
    let rest = images_of rows in if mem_text r.image_name rest then rest else r.image_name ∷ rest

unfoldable pub active_images :
    Conn → String → String → String → ℕ → List UtilizationRecord → Result StoreError (List String)
unfolding images_of
active_images c pool tenant variant since rows =
    if c.down
    then err failed
    else ok (
        images_of (
          keep (λ r. is_of pool (tenant_key tenant) variant r.image_name r && is_active since r)
            rows))

unfoldable pub has_recent_usage :
    Conn → String → String → String → String → ℕ → List UtilizationRecord → Result StoreError Bool
has_recent_usage c pool tenant variant image since rows =
    if c.down
    then err failed
    else ok (
        not (
          is_empty
            (keep (λ r. is_of pool (tenant_key tenant) variant image r && is_active since r) rows)))

abbrev pub same_group : InstanceCount → Instance → Bool
same_group n i =
    str_eq n.pool i.pool
    && str_eq n.tenant_id i.tenant_id
    && str_eq n.variant_id i.variant_id
    && str_eq n.image_name i.image

-- GROUP BY: an instance is counted in its group, which it opens if it is the first.
unfoldable pub count_in : Instance → List InstanceCount → List InstanceCount
count_in i [] =
    record {
      pool = i.pool;
      tenant_id = i.tenant_id;
      variant_id = i.variant_id;
      image_name = i.image;
      count = 1;
    }
    ∷ []
count_in i (n ∷ counts) =
    if same_group n i then record n { count = suc n.count } ∷ counts else n ∷ count_in i counts

unfoldable pub count_groups : List Instance → List InstanceCount
unfolding count_in
count_groups [] = []
count_groups (i ∷ rows) = count_in i (count_groups rows)

unfoldable pub count_grouped_instances :
    Conn → InstanceState → List Instance → Result StoreError (List InstanceCount)
unfolding count_groups
count_grouped_instances c state rows =
    if c.down then err failed else ok (count_groups (keep (λ i. same_state i.state state) rows))
