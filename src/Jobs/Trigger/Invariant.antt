-- ===== src/Jobs/Trigger/Invariant.antt =====
-- ScalerTriggerJob.Execute and the invariant of the outbox.
use drone_runner_aws.Base.{ℕ}
use drone_runner_aws.Base.Result.{Result}
use drone_runner_aws.Store.Outbox.{Outbox}
use drone_runner_aws.Store.Outbox.Table.{Inv}

-- The other processes keep the outbox's invariant, as calls of the store do.
abbrev pub Fair : (ℕ → Outbox → Outbox) → Type 0
Fair others = (n : ℕ) (o : Outbox) → Inv o → Inv (others n o)
