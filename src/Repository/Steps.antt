-- ===== src/Repository/Steps.antt =====
-- Histories: any sequence of calls of the repository's writing methods, by any workers and at any
-- times. Each call is one step, so interleaved clients are sequences of calls.
pub mod Safety
pub mod Evolves
pub mod Onwards
pub mod Progress
pub mod Truth
pub mod Privacy
pub mod OpenItems
use ia_dev_lab.Base.{ℕ, String, Option, List, [], ◌∷◌}
use ia_dev_lab.Json.{Fields}
use ia_dev_lab.Repository.Schema.{Db}
use ia_dev_lab.Repository.Accept.{create_task}
use ia_dev_lab.Repository.Lease.{claim_task, renew_lease, claim_next_item}
use ia_dev_lab.Repository.Finish.{finalize_item, fail_task}
use ia_dev_lab.Repository.Retention.{maintain_retention}

pub data Call : Type 0 where
  creates : String → String → Fields → Fields → List (String × String) → ℕ → ℕ → Call
  claims : String → ℕ → ℕ → Call
  renews : String → String → ℕ → ℕ → Call
  starts : String → String → ℕ → Call
  finalizes : String → String → ℕ → Option Fields → Option Fields → ℕ → Call
  fails : String → String → Fields → ℕ → Call
  maintains : ℕ → ℕ → Call

-- The tables after a call, whether it returned or raised.
unfoldable pub step : Db → Call → Db
step db (creates id owner criteria model items created_at expires_at) =
    (create_task id owner criteria model items created_at expires_at db).1
step db (claims worker now lease_seconds) = (claim_task worker now lease_seconds db).1
step db (renews id worker now lease_seconds) = (renew_lease id worker now lease_seconds db).1
step db (starts id worker now) = (claim_next_item id worker now db).1
step db (finalizes id worker position outcome error now) =
    (finalize_item id worker position outcome error now db).1
step db (fails id worker error now) = (fail_task id worker error now db).1
step db (maintains now tombstone) = (maintain_retention now tombstone db).1

unfoldable pub run : Db → List Call → Db
unfolding step
run db [] = db
run db (c ∷ cs) = run (step db c) cs

-- `_initialize` on a new database.
abbrev pub initial : Db
initial = record { tasks = []; items = [] }
