-- ===== src/TaskService/Worker.antt =====
-- The worker of src/task_service.py: `run_worker_step`, `_process_claimed_task` and `worker_loop`.
-- The `while True` takes fuel, and `none` is a loop that has used it up.
pub mod Ends
pub mod Runs
pub mod Rounds
pub mod Finishes
pub mod Protocol
use ia_dev_lab.Base.{
  ℕ, zero, suc, String, Bool, true, false, not, Option, none, some, List, [], ◌∷◌, ◌==◌,
  string_equality, if◌then◌else◌, Error, Result, ok, err, runtime_error, value_error, Exec,
}
use ia_dev_lab.Json.{Fields, end, field, text}
use ia_dev_lab.Models.{TaskRecord, ItemRecord, is_terminal}
use ia_dev_lab.Extraction.{
  ResolvedModelReference, ExtractionService, ExtractionOutcome, OutcomeStatus, ItemError,
  process_source_with_model, text_or,
}
use ia_dev_lab.Repository.Schema.{Db}
use ia_dev_lab.Repository.Lease.{claim_task, renew_lease, claim_next_item}
use ia_dev_lab.Repository.Finish.{finalize_item, fail_task}
use ia_dev_lab.TaskService.{
  World, TaskService, now, call, maintain, continue, ◌>>=◌, ◌>>◌, return, raise,
}
use ia_dev_lab.TaskService.Stored.{payload, error_fields, snapshot}

-- `outcome.error or ItemError("processing_failed", "Source processing failed")`
abbrev pub outcome_error : Option ItemError → ItemError
outcome_error none = record { code = "processing_failed"; detail = "Source processing failed" }
outcome_error (some e) = e

-- What is stored of an outcome: a payload or an error.
abbrev pub stored_outcome :
    List String → OutcomeStatus → ExtractionOutcome → Option Fields × Option Fields
stored_outcome names OutcomeStatus.completed o = (some (payload names o.properties), none)
stored_outcome names OutcomeStatus.failed o = (none, some (error_fields (outcome_error o.error)))

abbrev pub lease_kept : Bool × Db → Result (Unit {0}) × Db
lease_kept (true, db) = (ok tt, db)
lease_kept (false, db) = (err (runtime_error "Task lease was lost"), db)

abbrev pub write_outcome :
    String → String → ItemRecord → Option Fields × Option Fields → Exec World TaskRecord
write_outcome id worker item (outcome, error) w =
    call (finalize_item id worker item.position outcome error (now w)) w

-- The rest of a round for an item; the answer is whether the loop goes on.
unfoldable pub process_item :
    TaskService → String → String → List String → Option ItemRecord → Exec World Bool
unfolding call finalize_item process_source_with_model payload is_terminal
process_item s id worker names none w = (ok false, w)
process_item s id worker names (some item) w =
    let o =
      process_source_with_model s.extraction item.source_id (text_or item.source_text "") names in
    continue (λ updated. return (not (is_terminal updated.status)))
      (write_outcome id worker item (stored_outcome names o.status o) w)

-- One round of the `while True`; the time read at its start serves the renewal and the claim.
unfoldable pub round : TaskService → String → String → List String → Exec World Bool
unfolding call renew_lease claim_next_item process_item
round s id worker names w =
    let at = now w in
    continue
      (λ _ w'. continue (process_item s id worker names) (call (claim_next_item id worker at) w'))
      (call (λ db. lease_kept (renew_lease id worker at s.lease db)) w)

abbrev pub next_round :
    (World → Option (Result (Unit {0}) × World))
    → Result Bool × World
    → Option (Result (Unit {0}) × World)
next_round again (ok true, w) = again w
next_round again (ok false, w) = some (ok tt, w)
next_round again (err e, w) = some (err e, w)

unfoldable pub loop :
    ℕ → TaskService → String → String → List String → World → Option (Result (Unit {0}) × World)
unfolding round
loop zero s id worker names w = none
loop (suc fuel) s id worker names w =
    next_round (loop fuel s id worker names) (round s id worker names w)

abbrev pub failure_fields : String → Fields
failure_fields detail =
    field "code" (text "task_processing_failed") (field "detail" (text detail) end)

-- `except ValueError: pass`
abbrev pub ignore_value_error : Result TaskRecord × World → Result (Unit {0}) × World
ignore_value_error (ok _, w) = (ok tt, w)
ignore_value_error (err (value_error _), w) = (ok tt, w)
ignore_value_error (err e, w) = (err e, w)

-- `except Exception as error`
abbrev pub failure_detail : String → String
failure_detail e = if e == "" then "Task processing failed" else e

unfoldable pub give_up : TaskService → String → String → Error → World → Result (Unit {0}) × World
unfolding call fail_task
give_up s id worker e w =
    ignore_value_error
      (call (fail_task id worker (failure_fields (failure_detail (s.describe e))) (now w)) w)

abbrev pub or_give_up :
    TaskService
    → String
    → String
    → Option (Result (Unit {0}) × World)
    → Option (Result (Unit {0}) × World)
or_give_up s id worker none = none
or_give_up s id worker (some (ok _, w)) = some (ok tt, w)
or_give_up s id worker (some (err e, w)) = some (give_up s id worker e w)

-- The `try` block, for what `snapshot` gave.
abbrev pub attempt :
    ℕ
    → TaskService
    → TaskRecord
    → String
    → Result (List String × ResolvedModelReference)
    → World
    → Option (Result (Unit {0}) × World)
attempt fuel s task worker (err e) w = some (err e, w)
attempt fuel s task worker (ok (names, reference)) w = loop fuel s task.task_id worker names w

-- `_process_claimed_task`
unfoldable pub process_claimed_task :
    ℕ → TaskService → TaskRecord → String → World → Option (Result (Unit {0}) × World)
unfolding snapshot loop give_up
process_claimed_task fuel s task worker w =
    or_give_up s task.task_id worker (attempt fuel s task worker (snapshot task) w)

abbrev pub with_answer : Bool → Option (Result (Unit {0}) × World) → Option (Result Bool × World)
with_answer b none = none
with_answer b (some (ok _, w)) = some (ok b, w)
with_answer b (some (err e, w)) = some (err e, w)

abbrev pub process_claim :
    ℕ → TaskService → String → Result (Option TaskRecord) × World → Option (Result Bool × World)
process_claim fuel s worker (err e, w) = some (err e, w)
process_claim fuel s worker (ok none, w) = some (ok false, w)
process_claim fuel s worker (ok (some task), w) =
    with_answer true (process_claimed_task fuel s task worker w)

abbrev pub claim_call : TaskService → String → Exec World (Option TaskRecord)
claim_call s worker w = call (claim_task worker (now w) s.lease) w

-- `run_worker_step`, which is also a round of `worker_loop`.
unfoldable pub run_worker_step : ℕ → TaskService → String → World → Option (Result Bool × World)
unfolding maintain call claim_task process_claimed_task
run_worker_step fuel s worker w =
    process_claim fuel s worker ((maintain s >> claim_call s worker) w)

-- `worker_loop` until it finds the shutdown set, after the given number of rounds; waiting for the poll
-- interval changes nothing. An exception ends the loop.
abbrev pub next_step :
    (World → Option (Result (Unit {0}) × World))
    → Option (Result Bool × World)
    → Option (Result (Unit {0}) × World)
next_step again none = none
next_step again (some (ok b, w)) = again w
next_step again (some (err e, w)) = some (err e, w)

unfoldable pub worker_loop :
    ℕ → ℕ → TaskService → String → World → Option (Result (Unit {0}) × World)
unfolding run_worker_step
worker_loop zero fuel s worker w = some (ok tt, w)
worker_loop (suc rounds) fuel s worker w =
    next_step (worker_loop rounds fuel s worker) (run_worker_step fuel s worker w)
