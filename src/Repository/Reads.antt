-- ===== src/Repository/Reads.antt =====
-- `_task_from_row`, `_item_from_row`, `get_status`, `get_results` and `get_running_summary` of
-- src/task_repository.py.
use ia_dev_lab.Base.{
  ℕ, String, Bool, true, false, ◌&&◌, Option, none, some, List, [], ◌∷◌, map, sum_of, leb, ◌==◌,
  string_equality, if◌then◌else◌, is_some, Result, ok, err, type_error, ◌>>=◌, find, select, count,
}
use ia_dev_lab.Models.{TaskStatus, TaskRecord, ItemRecord, post_init}
use ia_dev_lab.Repository.Schema.{TaskRow, ItemRow, Db, has_id, of_task, is_running}

-- The text of a stored dict is never empty, so the tests on the JSON columns are tests for NULL.
abbrev pub to_record : TaskRow → Bool → TaskRecord
to_record row include_payload = record {
  task_id = row.task_id;
  owner_id = row.owner_id;
  status = row.status;
  accepted_count = row.accepted_count;
  processed_count = row.processed_count;
  successful_count = row.successful_count;
  failed_count = row.failed_count;
  created_at = row.created_at;
  updated_at = row.updated_at;
  expires_at = row.expires_at;
  started_at = row.started_at;
  completed_at = row.completed_at;
  criteria = if include_payload then row.criteria_json else none;
  model = if include_payload then row.model_json else none;
  error = row.task_error_json;
  lease_owner = row.lease_owner;
  lease_expires_at = row.lease_expires_at;
  purged_at = row.purged_at;
}

unfoldable pub task_from_row : TaskRow → Bool → Result TaskRecord
unfolding post_init
task_from_row row include_payload = post_init (to_record row include_payload)

-- `fetchone` gives None where no row is left, and None has no columns.
unfoldable pub task_from_fetched : Option TaskRow → Result TaskRecord
unfolding task_from_row
task_from_fetched none = err type_error
task_from_fetched (some row) = task_from_row row true

unfoldable pub item_from_row : ItemRow → ItemRecord
item_from_row row = record {
  task_id = row.task_id;
  position = row.position;
  source_id = row.source_id;
  source_text = row.source_text;
  status = row.status;
  outcome = row.outcome_json;
  error = row.error_json;
  started_at = row.started_at;
  completed_at = row.completed_at;
}

abbrev pub owned_by : String → String → TaskRow → Bool
owned_by id owner t = has_id id t && t.owner_id == owner

-- The columns that the SELECT of `get_status` gives as NULL.
abbrev pub status_columns : TaskRow → TaskRow
status_columns row = record row {
  criteria_json = none;
  model_json = none;
  lease_owner = none;
  lease_expires_at = none;
}

unfoldable pub get_status : String → String → Db → Result (Option TaskRecord)
unfolding task_from_row
get_status id owner db = elim (find (owned_by id owner) db.tasks) [
  | none ↦ ok none
  | some row ↦ do task ← task_from_row (status_columns row) false; ok (some task)
]

-- ORDER BY position, over rows whose positions differ.
unfoldable pub insert_by_position : ItemRow → List ItemRow → List ItemRow
insert_by_position i [] = i ∷ []
insert_by_position i (j ∷ js) =
    if leb i.position j.position then i ∷ j ∷ js else j ∷ insert_by_position i js

unfoldable pub order_by_position : List ItemRow → List ItemRow
unfolding insert_by_position
order_by_position [] = []
order_by_position (i ∷ is) = insert_by_position i (order_by_position is)

unfoldable pub get_results : String → String → Db → Result (Option TaskRecord × List ItemRecord)
unfolding task_from_row item_from_row order_by_position
get_results id owner db = elim (find (owned_by id owner) db.tasks) [
  | none ↦ ok (none, [])
  | some row ↦
      if is_some row.purged_at then (do task ← task_from_row row true; ok (some task, [])) else (do
        task ← task_from_row row true
        ok (some task, map item_from_row (order_by_position (select (of_task id) db.items))))
]

pub record Summary : Type 0 where
  pub total : ℕ
  pub queued : ℕ
  pub processing : ℕ
  pub accepted : ℕ
  pub processed : ℕ
  pub successful : ℕ
  pub failed : ℕ

abbrev pub is_queued : TaskStatus → Bool
is_queued TaskStatus.queued = true
is_queued _ = false

abbrev pub is_processing : TaskStatus → Bool
is_processing TaskStatus.processing = true
is_processing _ = false

abbrev pub runs_for : String → TaskRow → Bool
runs_for owner t = t.owner_id == owner && is_running t.status

unfoldable pub get_running_summary : String → Db → Summary
get_running_summary owner db =
    let rows = select (runs_for owner) db.tasks in
    record {
      total = count (λ _. true) rows;
      queued = count (λ t. is_queued t.status) rows;
      processing = count (λ t. is_processing t.status) rows;
      accepted = sum_of (λ t. t.accepted_count) rows;
      processed = sum_of (λ t. t.processed_count) rows;
      successful = sum_of (λ t. t.successful_count) rows;
      failed = sum_of (λ t. t.failed_count) rows;
    }
