-- ===== src/Repository/Accept.antt =====
-- `create_task` of src/task_repository.py.
pub mod Keys
pub mod Keeps
pub mod Total
use ia_dev_lab.Base.{
  ℕ, suc, String, none, some, List, [], ◌∷◌, length, Result, ok, err, Error, value_error,
  runtime_error, type_error, key_error, integrity_error, ◌>>=◌, or_raise, Exec, transaction, Bool,
  true, false, if◌then◌else◌,
}
use ia_dev_lab.Json.{Fields, canonical_fields}
use ia_dev_lab.Models.{TaskStatus, ItemStatus, TaskRecord}
use ia_dev_lab.Repository.Schema.{TaskRow, ItemRow, Db, insert_task, insert_item}
use ia_dev_lab.Repository.Reads.{get_status}

-- `canonical_json(payload)` on a dict, or its TypeError.
unfoldable pub dump : Fields → Result Fields
dump payload = or_raise (canonical_fields payload) type_error

abbrev pub new_task : String → String → Fields → Fields → List (String × String) → ℕ → ℕ → TaskRow
new_task id owner criteria model items created_at expires_at = record {
  task_id = id;
  owner_id = owner;
  status = TaskStatus.queued;
  criteria_json = some criteria;
  model_json = some model;
  accepted_count = length items;
  processed_count = 0;
  successful_count = 0;
  failed_count = 0;
  task_error_json = none;
  lease_owner = none;
  lease_expires_at = none;
  created_at = created_at;
  updated_at = created_at;
  started_at = none;
  completed_at = none;
  expires_at = expires_at;
  purged_at = none;
}

abbrev pub new_item : String → ℕ → String → String → ItemRow
new_item id position source_id text = record {
  task_id = id;
  position = position;
  source_id = source_id;
  source_text = some text;
  status = ItemStatus.queued;
  outcome_json = none;
  error_json = none;
  started_at = none;
  completed_at = none;
}

-- `executemany` over `enumerate(items)`, from a position on.
unfoldable pub insert_items : String → ℕ → List (String × String) → Db → Result Db
unfolding insert_item
insert_items id position [] db = ok db
insert_items id position ((source_id, text) ∷ items) db =
    insert_item (new_item id position source_id text) db >>= insert_items id (suc position) items

-- The statements between BEGIN IMMEDIATE and commit.
unfoldable pub insert_batch :
    String → String → Fields → Fields → List (String × String) → ℕ → ℕ → Db → Result (Unit {0} × Db)
unfolding dump insert_task insert_items
insert_batch id owner criteria model items created_at expires_at db = do
  criteria_json ← dump criteria
  model_json ← dump model
  db' ← insert_task (new_task id owner criteria_json model_json items created_at expires_at) db
  db'' ← insert_items id 0 items db'
  ok (tt, db'')

-- `except sqlite3.IntegrityError`
abbrev pub unique_error : Error → Error
unique_error integrity_error = value_error "Task or source identifiers must be unique"
unique_error e = e

abbrev pub reload : String → String → Result (Unit {0}) × Db → Result TaskRecord × Db
reload id owner (err e, db) = (err (unique_error e), db)
reload id owner (ok _, db) = (
  get_status id owner db >>= λ found.
      or_raise found (runtime_error "Accepted task could not be reloaded"),
  db,
)

abbrev pub is_empty {ℓ} : {A : Type ℓ} → List A → Bool
is_empty [] = true
is_empty (x ∷ xs) = false

unfoldable pub create_task :
    String → String → Fields → Fields → List (String × String) → ℕ → ℕ → Exec Db TaskRecord
unfolding insert_batch get_status
create_task id owner criteria model items created_at expires_at db =
    if is_empty items
    then (err (value_error "A task requires at least one item"), db)
    else reload id owner
        (transaction (insert_batch id owner criteria model items created_at expires_at) db)
