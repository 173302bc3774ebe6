-- ===== src/App/Tests.antt =====
-- Requests to the application, and the theorems at them.
use ia_dev_lab.Base.{
  ◌≡◌, refl, none, some, Option, List, [], ◌∷◌, find, select, update, ok, err, unauthorized, true,
  false, ◌==◌, string_equality,
}
use ia_dev_lab.Json.{end, canonical_fields}
use ia_dev_lab.Schemas.{ExtractionTaskRequest}
use ia_dev_lab.Extraction.{
  ExecutionMode, ExtractionService, stub_infer, stub_estimate, stub_resolve,
}
use ia_dev_lab.Repository.Reads.{owned_by}
use ia_dev_lab.Repository.Retention.{maintain_retention}
use ia_dev_lab.Repository.Accept.{create_task}
use ia_dev_lab.Repository.Steps.{Call, creates, run, initial}
use ia_dev_lab.Repository.Steps.Safety.{run-initial-Inv}
use ia_dev_lab.ModelStore.Schema.{Platform}
use ia_dev_lab.ModelStore.Steps.{StoreCall, registers, new_store, store_run, run-new_store-StoreInv}
use ia_dev_lab.ModelStore.Register.{bytes}
use ia_dev_lab.TaskService.{World, TaskService}
use ia_dev_lab.TaskService.Answers.{read_db}
use ia_dev_lab.App.{no_extra, failure, status_code, Credentials, get_authenticated_principal}
use ia_dev_lab.App.Tasks.{
  Application, create_extraction_task, get_running_task_summary, get_extraction_task,
  get_extraction_task_results,
}
use ia_dev_lab.App.Catalog.{
  ModelApplication, list_model_versions, FoundOrNot, list_model_versions-FoundOrNot,
}
use ia_dev_lab.App.Answers.{
  IsRefused, IsDeclared, unauthenticated-IsRefused, foreign_task-hidden,
  get_extraction_task-IsDeclared,
}

requests : Unit {0}
unfolding get_extraction_task run maintain_retention create_task get_authenticated_principal find
    select update canonical_fields
requests = tt

abbrev stubs : ExtractionService
stubs = record {
  execution_mode = ExecutionMode.stub;
  infer = stub_infer (λ id. id == "bad") (λ id. "Inference failed");
  estimate = stub_estimate;
  resolve = stub_resolve;
  max_texts = 10;
  max_characters = 100;
}

abbrev service : TaskService
service = record {
  extraction = stubs;
  max_texts = 10;
  max_characters = 100;
  retention = 1000;
  tombstone = 500;
  lease = 30;
  describe = λ e. "an error";
}

-- The owner of a token is the token; every text is a UUID.
abbrev app : Application
app = record {
  authentication = record { authenticate = λ token. ok token; lower = λ s. s };
  service = service;
  uuid = λ text. some text;
}

abbrev as_eve : Option Credentials
as_eve = some (record { scheme = "bearer"; credentials = "eve" })

abbrev history : List Call
history = creates "task-1" "owner" end end (("a", "text") ∷ []) 0 1000 ∷ []

abbrev world : World
world = record { db = run initial history; clock = λ k. k; others = λ k. []; tick = 1 }

abbrev nothing : ExtractionTaskRequest
nothing = record { texts = []; schema = record { properties = [] }; model = none }

no_credentials :
    get_authenticated_principal app.authentication none
    ≡ err (unauthorized "Bearer credentials are required")
unfolding requests
no_credentials = refl

eve_enters : get_authenticated_principal app.authentication as_eve ≡ ok "eve"
unfolding requests
eve_enters = refl

eve_has_none : find (owned_by "task-1" "eve") (read_db service world).tasks ≡ none
unfolding requests
eve_has_none = refl

unauthenticated-IsRefused_example :
    IsRefused world (create_extraction_task app none "task-2" nothing world)
    × IsRefused world (get_running_task_summary app none world)
    × IsRefused world (get_extraction_task app none "task-1" world)
    × IsRefused world (get_extraction_task_results app none "task-1" world)
unauthenticated-IsRefused_example =
    unauthenticated-IsRefused app none (unauthorized "Bearer credentials are required") nothing
      "task-1" "task-2" world no_credentials

foreign_task-hidden_example :
    ((get_extraction_task app as_eve "task-1" world).0 ≡ failure 404 "an error" no_extra false)
    × ((get_extraction_task_results app as_eve "task-1" world).0
        ≡ failure 404 "an error" no_extra false)
foreign_task-hidden_example =
    foreign_task-hidden app as_eve "task-1" "eve" "task-1" world eve_enters refl
      (run-initial-Inv history) eve_has_none

get_extraction_task-IsDeclared_example :
    IsDeclared (status_code (get_extraction_task app as_eve "task-1" world).0)
get_extraction_task-IsDeclared_example =
    get_extraction_task-IsDeclared app as_eve "task-1" world (run-initial-Inv history)

abbrev plain : Platform
plain = record { strip = λ s. s; casefold = λ s. s; sha256 = λ content. "" }

abbrev uploads : List StoreCall
uploads = registers "model" (bytes (1 ∷ []) ∷ []) none none end 5 true ∷ []

abbrev models : ModelApplication
models = record {
  platform = plain;
  max_artifact_size = 4;
  loads = λ s. none;
  describe = λ e. "an error";
}

list_model_versions-FoundOrNot_example :
    FoundOrNot
      (status_code (list_model_versions models "model" (store_run plain 4 new_store uploads)))
list_model_versions-FoundOrNot_example =
    list_model_versions-FoundOrNot models "model" (store_run plain 4 new_store uploads)
      (run-new_store-StoreInv plain 4 uploads)
