-- ===== src/TaskService/Tests.antt =====
-- A task service on the stub providers, and the theorems at its runs.
use ia_dev_lab.Base.{
  ◌≤◌, if◌then◌else◌, map, String, Bool, true, false, ◌≡◌, ◌≢◌, ◌<◌, refl, Option, none, some, List,
  [], ◌∷◌, count, arith, ◌==◌, string_equality, Result, ok, update, select, find, eq_iff,
}
use ia_dev_lab.Json.{
  number, Fields, end, field, array, nil, cons, text, object, boolean, null, canonical_fields,
  canonical_json, insert_field, get,
}
use ia_dev_lab.Models.{TaskStatus, TaskRecord}
use ia_dev_lab.Schemas.{
  PropertyType, ExtractionSchema, ExtractionTaskRequest, contains, set_of, each, valid_schema,
  valid_task_request,
}
use ia_dev_lab.Extraction.{
  ExecutionMode, ExtractionService, ResolvedModelReference, process_source_with_model, stub_infer,
  stub_estimate, stub_resolve,
}
use ia_dev_lab.Repository.Schema.{has_id}
use ia_dev_lab.Repository.Accept.{create_task, dump}
use ia_dev_lab.Repository.Reads.{owned_by}
use ia_dev_lab.Repository.Finish.{finalize_item}
use ia_dev_lab.Repository.Lease.{claim_task, claim_next_item, renew_lease}
use ia_dev_lab.Repository.Retention.{maintain_retention}
use ia_dev_lab.Repository.Steps.{Call, creates, claims, run, initial}
use ia_dev_lab.Repository.Steps.Safety.{run-initial-Inv, initial-Inv}
use ia_dev_lab.Repository.Steps.OpenItems.{open_count}
use ia_dev_lab.TaskService.{World, TaskService, submit, over_limits, found_db, get_status}
use ia_dev_lab.TaskService.Stored.{
  criteria_of, model_snapshot, snapshot, definition_values, payload, item_names,
}
use ia_dev_lab.Extraction.{InferenceStatus, UncertaintyStatus, PropertyResult}
use ia_dev_lab.TaskService.Stored.{restore_outcome, completed_outcome}
use ia_dev_lab.TaskService.Stored.Results.{lookup}
use ia_dev_lab.TaskService.Stored.Outcomes.{count_name, stored_lookup, restore_outcome-payload}
use ia_dev_lab.TaskService.Stored.Restored.{snapshot-accepted}
use ia_dev_lab.TaskService.Submit.{IsAccepted, submit-IsAccepted}
use ia_dev_lab.TaskService.Answers.{read_db, after_read, live_status, get_status-live}
use ia_dev_lab.TaskService.Worker.{process_claimed_task, run_worker_step, worker_loop}
use ia_dev_lab.TaskService.Worker.Ends.{Ends, process_claimed_task-Ends}
use ia_dev_lab.TaskService.Worker.Runs.{Fueled}
use ia_dev_lab.TaskService.Worker.Protocol.Follows.{KeepsProtocol, worker_loop-KeepsProtocol}
use ia_dev_lab.TaskService.Worker.Finishes.{StepEnd, run_worker_step-finishes}

service_program : Unit {0}
unfolding run submit run_worker_step create_task claim_task claim_next_item renew_lease
    finalize_item maintain_retention process_source_with_model stub_infer canonical_fields
    canonical_json insert_field get dump definition_values payload item_names snapshot over_limits
    contains set_of each valid_schema valid_task_request select update find count
service_program = tt

abbrev stubs : ExtractionService
stubs = record {
  execution_mode = ExecutionMode.stub;
  infer = stub_infer (λ id. id == "bad") (λ id. "Inference failed");
  estimate = stub_estimate;
  resolve = stub_resolve;
  max_texts = 2;
  max_characters = 20;
}

abbrev service : TaskService
service = record {
  extraction = stubs;
  max_texts = 2;
  max_characters = 20;
  retention = 1000;
  tombstone = 500;
  lease = 30;
  describe = λ e. "";
}

abbrev wanted : ExtractionSchema
wanted = record {
  properties =
      record { name = "date"; type = PropertyType.string; required = false; description = none }
      ∷ [];
}

abbrev asked : ExtractionTaskRequest
asked = record {
  texts = record { id = "bad"; text = "x" } ∷ record { id = "good"; text = "y" } ∷ [];
  schema = wanted;
  model = none;
}

abbrev stub_model : ResolvedModelReference
stub_model = record { name = "stub-extraction-provider"; version = "stub" }

abbrev criteria : Fields
criteria =
    field "properties"
      (array (
        cons
          (object (
            field "description" null (
              field "name" (text "date")
                (field "required" (boolean false) (field "type" (text "string") end)))))
          nil))
      end

abbrev model_json : Fields
model_json =
    field "execution_mode" (text "stub")
      (field "name" (text "stub-extraction-provider") (field "version" (text "stub") end))

-- One queued task of two items, and nobody else at work.
abbrev queue : List Call
queue =
    creates "task-1" "owner" (criteria_of wanted) (model_snapshot stub_model ExecutionMode.stub)
      (("bad", "x") ∷ ("good", "y") ∷ []) 0 1000
    ∷ []

abbrev alone : World
alone = record { db = run initial queue; clock = λ k. k; others = λ k. []; tick = 5 }

abbrev fresh : World
fresh = record { db = initial; clock = λ k. k; others = λ k. []; tick = 5 }

-- The task after a step of the worker.
abbrev ended : Option (Result Bool × World) → List (Result Bool × List TaskStatus)
ended none = []
ended (some (r, w)) = (r, map (λ t. t.status) w.db.tasks) ∷ []

step_run :
    ended (run_worker_step 3 service "worker" alone)
    ≡ (ok true, TaskStatus.partially_completed ∷ []) ∷ []
unfolding service_program
step_run = refl

Fueled-alone : Fueled 3 alone
unfolding service_program
Fueled-alone = record { good = run-initial-Inv queue; enough = λ id. ground (arith) }

worker_loop-KeepsProtocol_example :
    KeepsProtocol service "worker" 2 alone (worker_loop 2 3 service "worker" alone)
worker_loop-KeepsProtocol_example =
    worker_loop-KeepsProtocol 2 3 service "worker" alone (λ k. tt) Fueled-alone

run_worker_step-finishes_example : StepEnd service alone (run_worker_step 3 service "worker" alone)
run_worker_step-finishes_example =
    run_worker_step-finishes 3 service "worker" alone (omega arith) refl Fueled-alone

-- The task under a worker's lease, while another client submits tasks before each call.
abbrev in_work : List Call
in_work =
    creates "task-1" "owner" (criteria_of wanted) (model_snapshot stub_model ExecutionMode.stub)
      (("bad", "x") ∷ ("good", "y") ∷ []) 0 1000
    ∷ claims "worker" 5 30
    ∷ []

abbrev busy : World
busy = record {
  db = run initial in_work;
  clock = λ k. k;
  others = λ k. creates "task-2" "owner" end end (("a", "b") ∷ []) k 1000 ∷ [];
  tick = 6;
}

abbrev claimed_task : TaskRecord
claimed_task = record {
  task_id = "task-1";
  owner_id = "owner";
  status = TaskStatus.processing;
  accepted_count = 2;
  processed_count = 0;
  successful_count = 0;
  failed_count = 0;
  created_at = 0;
  updated_at = 5;
  expires_at = 1000;
  started_at = some 5;
  completed_at = none;
  criteria = some criteria;
  model = some model_json;
  error = none;
  lease_owner = some "worker";
  lease_expires_at = some 35;
  purged_at = none;
}

others_spare : (id : String) → id ≡ "task-1" → id ≢ "task-2"
others_spare id e f = absurd (ground (arith, eq_iff "task-1" "task-2"))

few_open : open_count "task-1" busy.db < 3
unfolding service_program
few_open = ground arith

process_claimed_task-Ends_example : Ends (process_claimed_task 3 service claimed_task "worker" busy)
process_claimed_task-Ends_example =
    process_claimed_task-Ends 3 service claimed_task "worker" busy (run-initial-Inv in_work)
      (λ k. (others_spare "task-1" refl, tt)) few_open

criteria_stored : dump (criteria_of wanted) ≡ ok criteria
unfolding service_program
criteria_stored = refl

model_stored : dump (model_snapshot stub_model ExecutionMode.stub) ≡ ok model_json
unfolding service_program
model_stored = refl

snapshot-accepted_example : snapshot claimed_task ≡ ok ("date" ∷ [], stub_model)
snapshot-accepted_example =
    snapshot-accepted wanted stub_model ExecutionMode.stub criteria model_json claimed_task
      criteria_stored model_stored refl refl

passes : valid_task_request (λ t. t) asked ≡ ok asked
unfolding service_program
passes = refl

within : over_limits service asked.texts ≡ none
unfolding service_program
within = refl

nobody : count (has_id "task-9") (found_db fresh).tasks ≡ 0
unfolding service_program
nobody = refl

submit-IsAccepted_example : IsAccepted service "task-9" "owner" asked stub_model fresh
submit-IsAccepted_example =
    submit-IsAccepted (λ t. t) asked service "task-9" "owner" asked stub_model fresh passes within
      refl initial-Inv nobody

get_status-live_example : get_status service "owner" "task-1" alone ≡ (
  live_status (find (owned_by "task-1" "owner") (read_db service alone).tasks),
  after_read service alone,
)
get_status-live_example = get_status-live service "owner" "task-1" alone (run-initial-Inv queue)

abbrev dated : List (String × PropertyResult)
dated =
    (
      "date",
      record {
        value = text "2020";
        inference_status = InferenceStatus.inferred;
        uncertainty = record { value = some "0.5"; status = UncertaintyStatus.calculated };
      },
    )
    ∷ []

abbrev dated_json : Fields
dated_json =
    field "date"
      (object (
        field "inference_status" (text "inferred") (
          field "uncertainty"
            (object (field "status" (text "calculated") (field "value" (number "0.5") end)))
            (field "value" (text "2020") end))))
      end

dated_once : (q : String) → count_name q dated ≤ 1
dated_once q = ground arith

dated_dump : dump (payload ("date" ∷ []) dated) ≡ ok dated_json
unfolding service_program
dated_dump = refl

restore_outcome-payload_example :
    (back : List (String × PropertyResult)) × (restore_outcome "good" (some dated_json) none
      ≡ ok (completed_outcome "good" back))
    × ((q : String)
        → lookup q back
          ≡ (if contains q ("date" ∷ []) then stored_lookup (lookup q dated) else none))
restore_outcome-payload_example =
    restore_outcome-payload "good" ("date" ∷ []) dated dated_json dated_once dated_dump
