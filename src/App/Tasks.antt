-- ===== src/App/Tasks.antt =====
-- The routes of src/app.py for extraction tasks, over the task service. The responses hold what the
-- routes put into them; the checks and conversions of the response models are not modelled.
use ia_dev_lab.Base.{
  ℕ, String, Option, List, Error, Result, ok, err, or_raise, task_not_found, Exec,
}
use ia_dev_lab.Json.{Fields}
use ia_dev_lab.Models.{TaskStatus, TaskRecord}
use ia_dev_lab.Schemas.{ExtractionRequest, ExtractionTaskRequest}
use ia_dev_lab.Extraction.{
  ExecutionMode, ResolvedModelReference, ExtractionOutcome, ExtractionResult, ExtractionService,
  Extracted, result, refused, extract,
}
use ia_dev_lab.Repository.Reads.{Summary}
use ia_dev_lab.TaskService.{
  World, TaskService, ◌>>=◌, return, submit, get_status, get_running_summary, get_results,
}
use ia_dev_lab.TaskService.Stored.{TaskResultsRecord}
use ia_dev_lab.App.{Answer, answer_of, Credentials, Authentication, get_authenticated_principal}

-- The application's state, with `str(UUID(text))` where the text is a UUID.
pub record Application : Type 0 where
  pub authentication : Authentication
  pub service : TaskService
  pub uuid : String → Option String

pub record TaskProgress : Type 0 where
  pub accepted : ℕ
  pub processed : ℕ
  pub successful : ℕ
  pub failed : ℕ

pub record TaskStatusResponse : Type 0 where
  pub task_id : String
  pub status : TaskStatus
  pub progress : TaskProgress
  pub created_at : ℕ
  pub updated_at : ℕ
  pub expires_at : ℕ
  pub error : Option Fields

pub record RunningTaskCounts : Type 0 where
  pub total : ℕ
  pub queued : ℕ
  pub processing : ℕ

pub record RunningTaskSummaryResponse : Type 0 where
  pub status : String
  pub tasks : RunningTaskCounts
  pub progress : TaskProgress

pub record TaskResultsResponse : Type 0 where
  pub status : TaskStatusResponse
  pub execution_mode : ExecutionMode
  pub model : ResolvedModelReference
  pub outcomes : List ExtractionOutcome

abbrev pub task_status_response : TaskRecord → TaskStatusResponse
task_status_response t = record {
  task_id = t.task_id;
  status = t.status;
  progress = record {
    accepted = t.accepted_count;
    processed = t.processed_count;
    successful = t.successful_count;
    failed = t.failed_count;
  };
  created_at = t.created_at;
  updated_at = t.updated_at;
  expires_at = t.expires_at;
  error = t.error;
}

abbrev pub summary_response : Summary → RunningTaskSummaryResponse
summary_response s = record {
  status = "running";
  tasks = record { total = s.total; queued = s.queued; processing = s.processing };
  progress = record {
    accepted = s.accepted;
    processed = s.processed;
    successful = s.successful;
    failed = s.failed;
  };
}

abbrev pub results_response : TaskResultsRecord → TaskResultsResponse
results_response r = record {
  status = task_status_response r.task;
  execution_mode = r.execution_mode;
  model = r.model;
  outcomes = r.outcomes;
}

unfoldable pub validate_task_id : Application → String → Result String
validate_task_id app text = or_raise (app.uuid text) task_not_found

-- A step that reads and changes nothing.
abbrev pub pure_step : {A : Type 0} → Result A → Exec World A
pure_step r w = (r, w)

abbrev pub principal : Application → Option Credentials → Exec World String
principal app credentials = pure_step (get_authenticated_principal app.authentication credentials)

-- The answer to a request, and the world after it.
abbrev pub respond : {A : Type 0} → Application → ℕ → Result A × World → Answer A × World
respond app status (r, w) = (answer_of app.service.describe status r, w)

-- POST /extraction-tasks, with the `Location` header's task id in the body.
unfoldable pub create_extraction_task :
    Application
    → Option Credentials
    → String
    → ExtractionTaskRequest
    → World
    → Answer TaskStatusResponse × World
unfolding get_authenticated_principal submit
create_extraction_task app credentials uuid request w = respond app 202 (
    (do
      owner ← principal app credentials
      task ← submit app.service uuid owner request
      return (task_status_response task))
      w)

-- GET /extraction-tasks/summary
unfoldable pub get_running_task_summary :
    Application → Option Credentials → World → Answer RunningTaskSummaryResponse × World
unfolding get_authenticated_principal get_running_summary
get_running_task_summary app credentials w = respond app 200 (
    (do
      owner ← principal app credentials
      summary ← get_running_summary app.service owner
      return (summary_response summary))
      w)

-- GET /extraction-tasks/{task_id}
unfoldable pub get_extraction_task :
    Application → Option Credentials → String → World → Answer TaskStatusResponse × World
unfolding get_authenticated_principal validate_task_id get_status
get_extraction_task app credentials task_id w = respond app 200 (
    (do
      owner ← principal app credentials
      id ← pure_step (validate_task_id app task_id)
      task ← get_status app.service owner id
      return (task_status_response task))
      w)

-- GET /extraction-tasks/{task_id}/results
unfoldable pub get_extraction_task_results :
    Application → Option Credentials → String → World → Answer TaskResultsResponse × World
unfolding get_authenticated_principal validate_task_id get_results
get_extraction_task_results app credentials task_id w = respond app 200 (
    (do
      owner ← principal app credentials
      id ← pure_step (validate_task_id app task_id)
      found ← get_results app.service owner id
      return (results_response found))
      w)

-- POST /extractions
abbrev pub extraction_answer : Extracted → Result ExtractionResult
extraction_answer (result r) = ok r
extraction_answer (refused e) = err e

unfoldable pub create_extraction :
    (Error → String) → ExtractionService → ExtractionRequest → Answer ExtractionResult
unfolding extract
create_extraction describe s request =
    answer_of describe 200 (extraction_answer (extract s request))
