-- ===== src/Lib.antt =====
-- Verification of ia-dev-lab, a service that extracts structured values from texts. Clients submit
-- batches as tasks; workers claim a task under a lease, process its items one at a time and write
-- each outcome back; expired tasks are purged and later deleted.
--
-- Parts. The task repository (src/task_repository.py) keeps tasks and items in two SQLite tables. The
-- model store (src/model_store.py) keeps a catalog of model versions in SQLite tables and their
-- artifacts in files; the model service (src/model_service.py) checks what is registered. The records
-- of both are those of src/models.py. The extraction service (src/service.py) applies an inference
-- provider to each text of a batch. The task service (src/task_service.py) accepts batches into the
-- repository, answers their owners, and runs the workers, which pass each item to the extraction
-- service. The application (src/app.py) authenticates requests and passes them to these services, made
-- from the settings (src/settings.py); src/schemas.py validates the requests.
--
-- Files.
--   Base and its children: Boolean tests, lists, tables as lists of rows with SELECT, UPDATE and
--     DELETE, keys, results and transactions, the order of texts.
--   Json: the Python values kept as JSON text; `canonical_json` of src/task_repository.py followed
--     by `json.loads`. Json/Canonical: the laws of that round trip.
--   Models: the task part of src/models.py.
--   Repository/Schema: the tables of `_initialize`, and single INSERTs and UPDATEs with the
--     constraints. Repository/Accept: `create_task`. Repository/Lease: `claim_task`, `renew_lease`,
--     `claim_next_item`. Repository/Finish: `finalize_item`, `fail_task`. Repository/Retention:
--     `maintain_retention`. Repository/Reads: `_task_from_row`, `_item_from_row`, `get_status`,
--     `get_results`, `get_running_summary`. Repository/Invariant: what holds between transactions.
--     Repository/Steps: histories of calls (Onwards and Progress: how tasks move on; OpenItems: how the
--     work left shrinks). Repository/Status: what `get_status` tells. Repository/Answers: what the
--     other readers answer. Proofs stand in the children
--     (Keeps for the invariant, Claims and Outcome for the results of the methods, Finish/Written
--     and Finish/GivenUp for what `finalize_item` and `fail_task` leave, Finish/Lease and Finish/Held for a task under a lease, Steps/Privacy for purged tasks).
--   ModelStore/Schema: the tables of `_initialize_schema` and the artifact directory.
--     ModelStore/Register: `register`, `_stage_artifact`, `_commit_registration`. ModelStore/Activate:
--     `activate`. ModelStore/Reads: `normalize_name`, `get`, `list_versions`, `resolve`,
--     `activation_history`. ModelStore/Service: `ModelService.register`. ModelStore/Invariant: what
--     holds between calls. ModelStore/Steps: histories. ModelStore/Versions: the numbers of versions.
--   Schemas: the requests of src/schemas.py, their validators, and `parse_metadata`. Schemas/Distinct:
--     the uniqueness test. Schemas/Valid: what a validated request satisfies.
--   Extraction: src/service.py, the records of src/extraction.py, the stubs of src/inference.py and
--     src/uncertainty.py. Extraction/Ordered: its outcomes.
--   TaskService: `submit`, `get_status`, `get_running_summary`, `get_results` and
--     `maintain_retention` of src/task_service.py. TaskService/Stored: what the service stores as JSON
--     and reads back (`_restore_outcome` and the snapshots); Stored/Restored, Stored/Results and
--     Stored/Outcomes: the round trips.
--     TaskService/Worker: `run_worker_step`, `_process_claimed_task`, `worker_loop`; its children:
--     Ends (termination), Runs (the worker as a history of the repository), Protocol (which calls it
--     makes, and what it goes on with after each answer), Rounds and Finishes (progress).
--     TaskService/Histories: runs of the service as histories. TaskService/Submit and
--     TaskService/Answers: what `submit` and the readers answer.
--   App: the exception handlers and the authentication of src/app.py. App/Tasks: the routes for tasks
--     and extractions. App/Catalog: the routes for models. App/Answers: which answers they give.
--   Settings: src/settings.py, and the service that `create_app` makes of it. Settings/Usable: the
--     settings that are let through.
-- Each Tests file runs its part on small inputs and applies the theorems at concrete inputs.
--
-- Choices. A datetime is its number of microseconds since a fixed instant: the ISO texts of UTC
-- times sort as the times do. `expires_at <= now - tombstone` is read as
-- `expires_at + tombstone <= now`, since subtraction on the naturals stops at 0. A comparison with
-- NULL is not true. A JSON column holds the dict that its text denotes. A transaction is a function
-- from tables to a result and tables that puts the old tables back when it raises. A call of a method
-- is one step, so that the interleavings of concurrent workers are the sequences of calls (`Call`,
-- `run` in Repository/Steps). The source reads the tables a second time, outside the transaction, where
-- `create_task` reloads the task that it has committed and where `get_results` reads the items after the
-- task; here these readings belong to the step of the call, so that no other client comes between. Loops are structural recursion, so no fuel is needed for them, save
-- the `while True` of `_process_claimed_task`, which takes fuel: one more than the task has open items
-- is enough. `worker_loop` takes the number of rounds before it finds the shutdown set.
--
-- The task service reads its clock and calls the repository; other clients and workers call it too. A
-- `World` (TaskService) holds the tables, the clock's reading at each of the service's calls to come,
-- and the calls that the others commit before it, any that there may be. The uuid of a submission is
-- an argument, and `describe` stands for `str` of an exception.
--
-- Tables, or a store, are called good when they satisfy `Inv` (Repository/Invariant) or `StoreInv`
-- (ModelStore/Invariant).
-- `str.strip`, `str.casefold` and SHA-256 are the fields of a parameter (`Platform`); a theorem that
-- needs it assumes that stripping a stripped name does nothing. The commit of a registration can fail
-- (`commits`). Uploads are the list of what each read gives. A version beyond SQLite's integers, of
-- 2 ^ 63 or more, raises OverflowError at the INSERT of `register`; the versions that `get`, `activate`
-- and `resolve` are asked for are taken to be below that, where binding them cannot raise.
--
-- Not modelled. Opening and closing connections, locks and failures of SQLite itself, directories,
-- overflow of dates; the web framework round the routes, the start and the end of the worker with the
-- application, the constant routes and the OpenAPI document (src/app.py); response models that copy
-- fields (src/schemas.py); the generated copy under build/.
pub mod Base
pub mod Json
pub mod Models
pub mod Repository
pub mod ModelStore
pub mod Schemas
pub mod Extraction
pub mod TaskService
pub mod App
pub mod Settings
