-- ===== src/Tests/StoreTests.antt =====
-- Runs of the store's statements on small tables.
use drone_runner_aws.Base.{
  List, [], ◌∷◌, true, false, All, Distinct, ◌≡◌, ◌≢◌, refl, inl, arith, map,
}
use drone_runner_aws.Base.Result.{ok, err}
use drone_runner_aws.Types.{Instance, created, in_use, hibernating, setup_instance, scale}
use drone_runner_aws.Store.Instances.{
  no_rows, find_and_claim, stamp, set_row, is_candidate, matches_claim, pick_first, comes_before,
  claim_row,
}
use drone_runner_aws.Store.Instances.Claim.{Claims, find_and_claim-Claims, find_and_claim-no_rows}
use drone_runner_aws.Store.Instances.Exclusive.{Request, winners, winners-Distinct}
use drone_runner_aws.Store.Batch.{claim_up_to}
use drone_runner_aws.Store.Outbox.{Outbox, find_and_claim_pending, start_job, is_claimable}
use drone_runner_aws.Store.Outbox.Claim.{Claimed, find_and_claim_pending-Claimed}
use drone_runner_aws.Store.Outbox.Table.{Inv}
use drone_runner_aws.Store.Outbox.Windows.{Call, run, run-Inv}
use drone_runner_aws.Store.Outbox.Exclusive.{claim_twice}
use drone_runner_aws.Store.Placeholders.{shift_placeholders}
use drone_runner_aws.Store.Placeholders.Shift.{
  Piece, IsPiece, plain, hole, render, renumber, moved, shift_placeholders-moved,
}
use drone_runner_aws.Tests.{conn_at, row, two_rows, linux_query, global_job, one_job}

-- The older of the two is claimed.
abbrev claimed_row : Instance
claimed_row = stamp (conn_at 100) in_use true (row "vm-2" created 10)

abbrev rows_after : List Instance
rows_after = row "vm-1" created 20 ∷ claimed_row ∷ []

claims_older :
    find_and_claim (conn_at 100) linux_query in_use (created ∷ []) true two_rows
    ≡ (ok claimed_row, rows_after)
unfolding find_and_claim matches_claim pick_first comes_before claim_row set_row
claims_older = refl

find_and_claim-Claims_example :
    Claims (conn_at 100) linux_query in_use (created ∷ []) true two_rows claimed_row rows_after
find_and_claim-Claims_example =
    find_and_claim-Claims (conn_at 100) linux_query in_use (created ∷ []) true two_rows claimed_row
      rows_after claims_older

none_hibernated :
    (find_and_claim (conn_at 100) linux_query in_use (hibernating ∷ []) true two_rows).0
    ≡ err no_rows
unfolding find_and_claim matches_claim pick_first comes_before claim_row set_row
none_hibernated = refl

find_and_claim-no_rows_example :
    is_candidate (conn_at 100) linux_query (hibernating ∷ []) (row "vm-1" created 20) ≡ false
find_and_claim-no_rows_example =
    find_and_claim-no_rows (conn_at 100) linux_query in_use (hibernating ∷ []) true two_rows
      none_hibernated (row "vm-1" created 20) (inl refl)

abbrev three_requests : List Request
three_requests =
    let r : Request = record {
      conn = conn_at 100;
      query = linux_query;
      update_start_time = true;
    } in
    r ∷ r ∷ r ∷ []

two_winners : winners in_use (created ∷ []) three_requests two_rows ≡ "vm-2" ∷ "vm-1" ∷ []
unfolding winners find_and_claim matches_claim pick_first comes_before claim_row set_row
two_winners = refl

winners-Distinct_example : Distinct (winners in_use (created ∷ []) three_requests two_rows)
winners-Distinct_example = winners-Distinct in_use (created ∷ []) refl refl three_requests two_rows

abbrev after_claim : Outbox
after_claim = record { jobs = start_job (conn_at 100) (global_job 0) ∷ []; next_id = 1 }

claims_job :
    find_and_claim_pending (conn_at 100) "" (setup_instance ∷ []) 5 2 one_job
    ≡ (ok (start_job (conn_at 100) (global_job 0) ∷ []), after_claim)
unfolding find_and_claim_pending claim_up_to is_claimable
claims_job = ground arith

find_and_claim_pending-Claimed_example :
    Claimed
      (conn_at 100)
      ""
      (setup_instance ∷ [])
      5
      2
      one_job
      after_claim
      (start_job (conn_at 100) (global_job 0) ∷ [])
find_and_claim_pending-Claimed_example =
    find_and_claim_pending-Claimed (conn_at 100) "" (setup_instance ∷ []) 5 2 one_job after_claim
      (start_job (conn_at 100) (global_job 0) ∷ []) claims_job

one_job-Inv : Inv one_job
one_job-Inv = record { ids = (omega arith, omega arith); windows = (tt, tt) }

run-Inv_example : Inv (
    run one_job
      (Call.create (conn_at 1) (global_job 0) ∷ Call.claim (conn_at 2) "" (scale ∷ []) 5 2 ∷ []))
run-Inv_example =
    run-Inv one_job
      (Call.create (conn_at 1) (global_job 0) ∷ Call.claim (conn_at 2) "" (scale ∷ []) 5 2 ∷ [])
      one_job-Inv

abbrev two_jobs : Outbox
two_jobs = record { jobs = global_job 0 ∷ global_job 1 ∷ []; next_id = 2 }

two_jobs-Inv : Inv two_jobs
two_jobs-Inv = record {
  ids = (omega arith, (omega arith, omega arith));
  windows = ((refl, tt), (tt, tt));
}

abbrev first_taken : Outbox
first_taken = record {
  jobs = start_job (conn_at 100) (global_job 0) ∷ global_job 1 ∷ [];
  next_id = 2;
}

abbrev both_taken : Outbox
both_taken = record {
  jobs = start_job (conn_at 100) (global_job 0) ∷ start_job (conn_at 101) (global_job 1) ∷ [];
  next_id = 2;
}

first_claim :
    find_and_claim_pending (conn_at 100) "" (setup_instance ∷ []) 1 2 two_jobs
    ≡ (ok (start_job (conn_at 100) (global_job 0) ∷ []), first_taken)
unfolding find_and_claim_pending claim_up_to is_claimable
first_claim = ground arith

second_claim :
    find_and_claim_pending (conn_at 101) "" (setup_instance ∷ []) 1 2 first_taken
    ≡ (ok (start_job (conn_at 101) (global_job 1) ∷ []), both_taken)
unfolding find_and_claim_pending claim_up_to is_claimable
second_claim = ground arith

claim_twice_example :
    (start_job (conn_at 100) (global_job 0)).id ≢ (start_job (conn_at 101) (global_job 1)).id
claim_twice_example =
    claim_twice two_jobs first_taken both_taken (conn_at 100) (conn_at 101) "" ""
      (setup_instance ∷ []) (setup_instance ∷ []) 1 1 2 2
      (start_job (conn_at 100) (global_job 0) ∷ []) (start_job (conn_at 101) (global_job 1) ∷ [])
      (start_job (conn_at 100) (global_job 0)) (start_job (conn_at 101) (global_job 1)) two_jobs-Inv
      first_claim second_claim (inl refl) (inl refl)

abbrev nine_sql : List Piece
nine_sql = plain b'a' ∷ hole 8 ∷ plain b' ' ∷ hole 9 ∷ []

nine_sql-pieces : All (IsPiece 9) nine_sql
nine_sql-pieces =
    ((λ e. omega (arith, e)), (omega arith, ((λ e. omega (arith, e)), (omega arith, tt))))

shift_placeholders-moved_example :
    shift_placeholders 9 (render nine_sql) ≡ render (map (renumber (moved 9)) nine_sql)
shift_placeholders-moved_example = shift_placeholders-moved 9 nine_sql (omega arith) nine_sql-pieces
