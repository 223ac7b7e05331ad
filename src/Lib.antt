-- ===== src/Lib.antt =====
-- A verification library for drone-runner-aws: the part of the runner that decides which virtual
-- machines there are, who gets them, and when they go.
--
-- The program keeps pools of machines. Two tables of a database are its shared state: the instances,
-- and an outbox of jobs (two more hold reservations and usage). Several runners work on them at once, and agree only through the claims that
-- the database makes atomic. A trigger writes one scale job for each pool and time window; the outbox
-- processor claims jobs and runs them; a scale job compares predicted demand with the free instances
-- and writes jobs to set instances up, or destroys some; a request takes a ready instance from its
-- pool; a new instance is hibernated until it is needed; and sweeps remove instances, and reservations of
-- capacity for a stage, that have become too old. A tracker records how many instances are in use, and the
-- predictor computes from the records what a window will need. A manager that shares its tables with no
-- other runner works on the same rows under locks.
--
-- Files, and the code that they model:
--   Base/          helpers: Boolean tests, lists, results, integers, maps with text keys
--   Types          types/types.go
--   Store/         store/database/sql: Instances (instances.go), Placeholders (the text of a claim's
--                  statement, instances.go), Outbox (outbox.go, with the unique index of
--                  store/database/migrate/postgres/0018_create_index_outbox_scale_jobs.up.sql),
--                  Capacity (capacity_reservation.go) and History (utilization_history.go, and the
--                  grouped count of instances.go); Batch is the claim of several rows
--   Config/        command/config/tenant_merge.go: the tenants of a pool (Tenants)
--   Drivers/       app/drivers: Strategy (strategy.go), Tenants and Tenanted (pool.go), Driver (pool.go,
--                  instance_ops.go), Manager (instance_ops.go, provisioner.go), Build
--                  (pool_builder.go), Stale (purger.go), Suspend (hibernator.go, instance_ops.go),
--                  Capacity (instance_ops.go, distributed_manager.go), and of distributed_manager.go
--                  Provision, Request, Purger, Clean and Hibernate (with
--                  hibernator.go)
--   Predictor/     app/predictor/ema_weekend_decay_predictor.go
--   Jobs/          app/scheduler/jobs: Trigger (scaler_trigger.go), Scaler (scaler.go), Processor
--                  (outbox.go) and Tracker (utilization_tracker.go, history_cleanup.go)
--   Tests/         runs on small data
--
-- A function of the code is a definition of the same name in snake case (FindAndClaim is
-- find_and_claim). A table is a list of rows, a statement a function of the rows. What the database
-- decides in a call is a value of Store.Instances.Conn: its clock, the rows that others have locked, and
-- whether the call fails. A component that makes several calls takes a sequence of such values, and,
-- where it matters, a sequence of what other processes do to the table in between. An error is a value
-- of a result type. Interleavings are sequences of calls, since each claim is one transaction.
--
-- Numbers: times, sizes and counts are natural numbers (the strategies, where the code tests for
-- negative ones, have integers). The code's integers have 64 bits, and its times, ids and counts stay far
-- below that. A percentage is a whole number; the predictor's float64 values are exact fractions. Two
-- definitions have fuel: `decimal` prints numbers of up to four digits, and no statement has that many
-- arguments; `claim_all`, a loop without a bound in the code, makes one claim for each unit, and a unit more
-- than there are rows to claim is enough.
--
-- Behind interfaces, and so parameters: the drivers, the merge of provider specifications, the set-up of
-- an instance by a job, and, for the scaler, the predictor and the utilization history. The order of a Go
-- map is a parameter as well. Not modelled: logs and metrics, which have no effect on the rest, tasks
-- that only reserve capacity, the providers' clients, configuration files, HTTP handlers,
-- and the pipeline engine.
pub mod Base
pub mod Types
pub mod Store
pub mod Drivers
pub mod Config
pub mod Jobs
pub mod Predictor
pub mod Tests
