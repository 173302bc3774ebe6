-- ===== src/TaskService.antt =====
-- src/task_service.py: `ExtractionTaskService` over the task repository and the extraction service.
-- The service reads its clock and calls the repository; between two of its calls other clients and
-- workers make theirs. A `World` holds the tables, the clock's reading at each call to come, and what
-- the others have committed before it.
pub mod Stored
pub mod Worker
pub mod Submit
pub mod Histories
pub mod Answers
mod Tests
use ia_dev_lab.Base.{
  ℕ, suc, ◌+◌, String, Bool, true, false, not, Option, none, some, List, [], ◌∷◌, map, length,
  sum_of, ltb, ◌==◌, nat_equality, if◌then◌else◌, is_none, Error, Result, ok, err, text_limit,
  volume_limit, provider_error, task_not_found, task_expired, results_pending, key_error,
  type_error, Exec,
}
use ia_dev_lab.Json.{
  Value, Items, Fields, null, boolean, text, array, object, nil, cons, end, field, get,
}
use ia_dev_lab.Models.{TaskStatus, status_text, TaskRecord, ItemRecord, is_terminal, is_purged}
use ia_dev_lab.Schemas.{
  PropertyType, PropertyDefinition, ExtractionSchema, SourceText, ExtractionTaskRequest,
}
use ia_dev_lab.Extraction.{
  ExecutionMode, Attempt, returned, raised, ResolvedModelReference, ExtractionService,
  ExtractionOutcome, selected_model, text_length,
}
use ia_dev_lab.TaskService.Stored.{
  definition_values, criteria_of, model_snapshot, restored_task, TaskResultsRecord,
}
use ia_dev_lab.Repository.Schema.{Db}
use ia_dev_lab.Repository.Accept.{create_task}
use ia_dev_lab.Repository.Retention.{maintain_retention}
use ia_dev_lab.Repository.Reads.{Summary}
use ia_dev_lab.Repository.Reads
use ia_dev_lab.Repository.Steps.{Call, run}

pub record World : Type 0 where
  pub db : Db
  pub clock : ℕ → ℕ
  pub others : ℕ → List Call
  pub tick : ℕ

-- The operational limits of `__init__`; `describe` is `str` of an exception.
pub record TaskService : Type 0 where
  pub extraction : ExtractionService
  pub max_texts : ℕ
  pub max_characters : ℕ
  pub retention : ℕ
  pub tombstone : ℕ
  pub lease : ℕ
  pub describe : Error → String

-- The tables that the next call finds.
abbrev pub found_db : World → Db
found_db w = run w.db (w.others w.tick)

-- `self.clock()`, read once for each call of the repository.
abbrev pub now : World → ℕ
now w = w.clock w.tick

abbrev pub after_call {ℓ} : {A : Type ℓ} → World → A × Db → A × World
after_call w (a, db) = (a, record w { db = db; tick = suc w.tick })

-- One call of the repository.
unfoldable pub call {ℓ} : {A : Type ℓ} → (Db → A × Db) → World → A × World
call f w = after_call w (f (found_db w))

-- A call that only reads.
abbrev pub reading {ℓ} : {A : Type ℓ} → (Db → A) → Db → A × Db
reading f db = (f db, db)

abbrev pub continue : {A B : Type 0} → (A → Exec World B) → Result A × World → Result B × World
continue f (ok a, w) = f a w
continue f (err e, w) = (err e, w)

-- What follows a call that may raise.
infixl 10 ◌>>=◌ ◌>>◌
abbrev pub ◌>>=◌ : {A B : Type 0} → Exec World A → (A → Exec World B) → Exec World B
(m >>= f) w = continue f (m w)

abbrev pub ◌>>◌ : {A B : Type 0} → Exec World A → Exec World B → Exec World B
m >> n = m >>= λ _. n

abbrev pub return : {A : Type 0} → A → Exec World A
return a w = (ok a, w)

abbrev pub raise : {A : Type 0} → Error → Exec World A
raise e w = (err e, w)

-- `maintain_retention`
abbrev pub retention_call : TaskService → ℕ → Db → Result (ℕ × ℕ) × Db
retention_call s at db =
    (ok (maintain_retention at s.tombstone db).0, (maintain_retention at s.tombstone db).1)

unfoldable pub maintain : TaskService → Exec World (ℕ × ℕ)
unfolding call
maintain s w = call (retention_call s (now w)) w

-- The checks of `submit`.
unfoldable pub over_limits : TaskService → List SourceText → Option Error
over_limits s texts =
    if ltb s.max_texts (length texts)
    then some (text_limit s.max_texts)
    else if ltb s.max_characters (sum_of (λ t. text_length t.text) texts)
    then some (volume_limit s.max_characters)
    else none

abbrev pub source_pairs : List SourceText → List (String × String)
source_pairs texts = map (λ (t : SourceText). (t.id, t.text)) texts

abbrev pub accept :
    TaskService
    → String
    → String
    → ExtractionTaskRequest
    → ResolvedModelReference
    → Exec World TaskRecord
accept s uuid owner r m w =
    call
      (create_task uuid owner (criteria_of r.schema) (model_snapshot m s.extraction.execution_mode)
        (source_pairs r.texts) (now w) (now w + s.retention))
      w

abbrev pub accept_with :
    TaskService
    → String
    → String
    → ExtractionTaskRequest
    → Attempt ResolvedModelReference
    → Exec World TaskRecord
accept_with s uuid owner r (returned m) = accept s uuid owner r m
accept_with s uuid owner r (raised e) = raise (provider_error e)

abbrev pub unless_refused : {A : Type 0} → Option Error → Exec World A → Exec World A
unless_refused (some e) m = raise e
unless_refused none m = m

-- `submit`, for the value of `uuid4`.
unfoldable pub submit :
    TaskService → String → String → ExtractionTaskRequest → Exec World TaskRecord
unfolding over_limits call definition_values create_task
submit s uuid owner r =
    unless_refused (over_limits s r.texts)
      (accept_with s uuid owner r (selected_model s.extraction r.model))

-- The tests of `get_status` on what the repository gave.
unfoldable pub require_live : Option TaskRecord → Exec World TaskRecord
unfolding is_purged
require_live none w = (err task_not_found, w)
require_live (some task) w = if is_purged task then (err task_expired, w) else (ok task, w)

unfoldable pub get_status : TaskService → String → String → Exec World TaskRecord
unfolding maintain call require_live
get_status s owner id = do
  maintain s
  task ← call (reading (Reads.get_status id owner))
  require_live task

unfoldable pub get_running_summary : TaskService → String → Exec World Summary
unfolding maintain call
get_running_summary s owner = do
  maintain s
  call (reading (λ db. ok (Reads.get_running_summary owner db)))

-- The tests of `get_results` on what the repository gave, and the outcomes.
unfoldable pub require_results : Option TaskRecord × List ItemRecord → Exec World TaskResultsRecord
unfolding restored_task is_purged is_terminal
require_results (none, items) w = (err task_not_found, w)
require_results (some task, items) w =
    if is_purged task
    then (err task_expired, w)
    else if not (is_terminal task.status)
    then (err (results_pending (status_text task.status)), w)
    else (restored_task task items, w)

unfoldable pub get_results : TaskService → String → String → Exec World TaskResultsRecord
unfolding maintain call require_results
get_results s owner id = do
  maintain s
  found ← call (reading (Reads.get_results id owner))
  require_results found
