-- ===== src/Repository/Tests.antt =====
-- Runs of the repository on small databases, and the theorems at concrete inputs.
use ia_dev_lab.Base.{
  String, true, false, ◌≡◌, ◌⊎◌, refl, none, some, List, [], ◌∷◌, Result, ok, err, value_error,
  find, select, update, count, ◌++◌, All, Elem, here,
}
use ia_dev_lab.Json.{Fields, end, field, text, number, object, array, nil, cons, get}
use ia_dev_lab.Models.{TaskStatus, ItemStatus, TaskRecord}
use ia_dev_lab.Repository.Schema.{TaskRow, ItemRow, Db}
use ia_dev_lab.Repository.Accept.{create_task}
use ia_dev_lab.Repository.Lease.{claim_task, claim_next_item, renew_lease}
use ia_dev_lab.Repository.Finish.{finalize_item, fail_task}
use ia_dev_lab.Repository.Reads.{get_status, get_results, get_running_summary}
use ia_dev_lab.Repository.Retention.{maintain_retention}
use ia_dev_lab.Json.{canonical_fields, canonical_json, insert_field}
use ia_dev_lab.Json.Canonical.{canonical_of, get-canonical_fields, canonical_json_idem}
use ia_dev_lab.Repository.Invariant.{Inv}
use ia_dev_lab.Repository.Reads.{to_record}
use ia_dev_lab.Repository.Lease.Claims.{
  ClaimAnswer, NextAnswer, claim_task-total, claim_task-exclusive, claim_next_item-total,
}
use ia_dev_lab.Repository.Finish.Outcome.{
  finalize_item-total, finalize_item-atomic, fail_task-atomic,
}
use ia_dev_lab.Repository.Steps.{
  Call, creates, claims, starts, finalizes, fails, maintains, step, run, initial,
}
use ia_dev_lab.Repository.Steps.Safety.{run-initial-Inv}
use ia_dev_lab.Repository.Status.{StatusAnswer, get_status-IsPublic}
use ia_dev_lab.Repository.Finish.Written.{advanced_row, finished_tables}
use ia_dev_lab.Repository.Finish.GivenUp.{GivenUp, fail_task-total}
use ia_dev_lab.Repository.Steps.Onwards.{Onwards}
use ia_dev_lab.Repository.Steps.Progress.{ElapsedIn, run-Onwards}
use ia_dev_lab.Repository.Steps.Truth.{IsTruthful, status-IsTruthful}
use ia_dev_lab.Repository.Steps.Privacy.Runs.{
  IsWiped, IsRetained, purged-IsWiped, maintain_retention-IsRetained,
}
use ia_dev_lab.Repository.Answers.{
  ResultsAnswer, IsConsistent, get_results-total, get_running_summary-IsConsistent,
}

program : Unit {0}
unfolding run step get create_task claim_task claim_next_item renew_lease finalize_item fail_task
    get_status get_results get_running_summary maintain_retention find select update count
    canonical_fields canonical_json insert_field
program = tt

abbrev empty : Db
empty = record { tasks = []; items = [] }

abbrev batch : List (String × String)
batch = ("first", "same") ∷ ("second", "same") ∷ []

abbrev accepted : Db
accepted = (create_task "task-1" "owner" end end batch 0 100 empty).1

abbrev claimed : Db
claimed = (claim_task "worker" 1 10 accepted).1

abbrev started : Db
started = (claim_next_item "task-1" "worker" 1 claimed).1

abbrev half_done : Db
half_done = (finalize_item "task-1" "worker" 0 (some end) none 2 started).1

abbrev bad : Fields
bad = field "code" (text "failed") (field "detail" (text "bad") end)

abbrev done : Db
done = (finalize_item "task-1" "worker" 1 none (some bad) 3 half_done).1

abbrev status_of : Result TaskRecord → List TaskStatus
status_of (ok t) = t.status ∷ []
status_of (err e) = []

last_status :
    status_of (finalize_item "task-1" "worker" 1 none (some bad) 3 half_done).0
    ≡ TaskStatus.partially_completed ∷ []
unfolding program
last_status = refl

duplicate :
    (create_task "task-1" "owner" end end batch 0 100 accepted)
    ≡ (err (value_error "Task or source identifiers must be unique"), accepted)
unfolding program
duplicate = refl

purged : (maintain_retention 100 50 done).0 ≡ (1, 0)
unfolding program
purged = refl

deleted : (maintain_retention 150 50 done) ≡ ((1, 1), empty)
unfolding program
deleted = refl

-- The same databases as histories.
abbrev to_accepted : List Call
to_accepted = creates "task-1" "owner" end end batch 0 100 ∷ []

abbrev to_claimed : List Call
to_claimed = creates "task-1" "owner" end end batch 0 100 ∷ claims "worker" 1 10 ∷ []

abbrev to_done : List Call
to_done =
    creates "task-1" "owner" end end batch 0 100
    ∷ claims "worker" 1 10
    ∷ starts "task-1" "worker" 1
    ∷ finalizes "task-1" "worker" 0 (some end) none 2
    ∷ finalizes "task-1" "worker" 1 none (some bad) 3
    ∷ []

abbrev held_row : TaskRow
held_row = record {
  task_id = "task-1";
  owner_id = "owner";
  status = TaskStatus.processing;
  criteria_json = some end;
  model_json = some end;
  accepted_count = 2;
  processed_count = 0;
  successful_count = 0;
  failed_count = 0;
  created_at = 0;
  updated_at = 1;
  expires_at = 100;
  started_at = some 1;
  completed_at = none;
  lease_owner = some "worker";
  lease_expires_at = some 11;
  task_error_json = none;
  purged_at = none;
}

accepted-Inv : Inv accepted
unfolding program
accepted-Inv = run-initial-Inv to_accepted

claimed-Inv : Inv claimed
unfolding program
claimed-Inv = run-initial-Inv to_claimed

run-initial-Inv_example : Inv (run initial to_done)
run-initial-Inv_example = run-initial-Inv to_done

run-Onwards_example :
    ElapsedIn (starts "task-1" "worker" 1 ∷ fails "task-1" "worker" bad 4 ∷ []) held_row
    ⊎ Onwards held_row
        (run claimed (starts "task-1" "worker" 1 ∷ fails "task-1" "worker" bad 4 ∷ [])).tasks
unfolding program
run-Onwards_example =
    run-Onwards claimed (starts "task-1" "worker" 1 ∷ fails "task-1" "worker" bad 4 ∷ []) held_row
      claimed-Inv (here refl)

status-IsTruthful_example : IsTruthful (run initial to_claimed).items held_row
unfolding program
status-IsTruthful_example = status-IsTruthful to_claimed held_row (here refl)

claim_task-total_example : ClaimAnswer "worker" 1 10 accepted
claim_task-total_example = claim_task-total "worker" 1 10 accepted accepted-Inv

claim_task-exclusive_example : Elem held_row (claim_task "thief" 5 10 claimed).1.tasks
unfolding program
claim_task-exclusive_example =
    claim_task-exclusive "thief" "worker" 5 10 claimed held_row claimed-Inv (here refl) refl refl

claim_next_item-total_example : NextAnswer "task-1" "worker" 1 claimed
unfolding program
claim_next_item-total_example =
    claim_next_item-total "task-1" "worker" 1 claimed held_row claimed-Inv refl

abbrev open_second : ItemRow
open_second = record {
  task_id = "task-1";
  position = 1;
  source_id = "second";
  source_text = some "same";
  status = ItemStatus.queued;
  outcome_json = none;
  error_json = none;
  started_at = none;
  completed_at = none;
}

finalize_item-total_example : finalize_item "task-1" "worker" 1 none (some bad) 2 claimed ≡ (
  ok (to_record (advanced_row held_row false "worker" 2 held_row) true),
  finished_tables held_row "task-1" "worker" 1 none (some bad) (some bad) 2 claimed,
)
unfolding program
finalize_item-total_example =
    finalize_item-total "task-1" "worker" 1 none (some bad) none (some bad) 2 claimed held_row
      open_second claimed-Inv refl refl refl refl refl refl refl

finalize_item-atomic_example :
    (finalize_item "task-1" "thief" 1 none (some bad) 2 claimed).1 ≡ claimed
unfolding program
finalize_item-atomic_example =
    finalize_item-atomic "task-1" "thief" 1 none (some bad) 2 claimed
      (value_error "Task is not mutable under this worker lease") claimed-Inv refl

fail_task-total_example :
    GivenUp "task-1" bad 2 claimed held_row (fail_task "task-1" "worker" bad 2 claimed)
unfolding program
fail_task-total_example =
    fail_task-total "task-1" "worker" bad bad 2 claimed held_row claimed-Inv refl refl refl

fail_task-atomic_example : (fail_task "task-1" "thief" bad 2 claimed).1 ≡ claimed
unfolding program
fail_task-atomic_example =
    fail_task-atomic "task-1" "thief" bad 2 claimed
      (value_error "Task is not mutable under this worker lease") claimed-Inv refl

get_status-IsPublic_example :
    StatusAnswer "task-1" "owner" claimed (get_status "task-1" "owner" claimed)
get_status-IsPublic_example = get_status-IsPublic "task-1" "owner" claimed claimed-Inv

abbrev unsorted : Fields
unsorted = field "b" (number "1") (field "a" (array (cons (text "x") nil)) end)

abbrev sorted : Fields
sorted = field "a" (array (cons (text "x") nil)) (field "b" (number "1") end)

get-canonical_fields_example : get "b" sorted ≡ canonical_of (get "b" unsorted)
unfolding program
get-canonical_fields_example = get-canonical_fields "b" unsorted sorted refl

canonical_json_idem_example : canonical_json (object sorted) ≡ some (object sorted)
unfolding program
canonical_json_idem_example = canonical_json_idem (object unsorted) (object sorted) refl

abbrev to_purged : List Call
to_purged =
    fails "task-1" "worker" bad 2
    ∷ maintains 100 50
    ∷ finalizes "task-1" "worker" 0 (some end) none 101
    ∷ []

abbrev purged_row : TaskRow
purged_row = record held_row {
  status = TaskStatus.failed;
  criteria_json = none;
  model_json = none;
  processed_count = 2;
  failed_count = 2;
  updated_at = 100;
  completed_at = some 2;
  lease_owner = none;
  lease_expires_at = none;
  purged_at = some 100;
}

purged-IsWiped_example : IsWiped (run initial (to_claimed ++ to_purged)).items purged_row
unfolding program
purged-IsWiped_example = purged-IsWiped (to_claimed ++ to_purged) purged_row (here refl) refl

maintain_retention-IsRetained_example :
    All (IsRetained 100 50) (maintain_retention 100 50 done).1.tasks
maintain_retention-IsRetained_example = maintain_retention-IsRetained 100 50 done

get_results-total_example : ResultsAnswer "task-1" "owner" claimed held_row
unfolding program
get_results-total_example = get_results-total "task-1" "owner" claimed held_row claimed-Inv refl

get_running_summary-IsConsistent_example : IsConsistent (get_running_summary "owner" claimed)
get_running_summary-IsConsistent_example =
    get_running_summary-IsConsistent "owner" claimed claimed-Inv
