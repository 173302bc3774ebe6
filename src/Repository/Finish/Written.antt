-- ===== src/Repository/Finish/Written.antt =====
-- The rows that `finalize_item` is to leave, written out.
use ia_dev_lab.Base.{
  ℕ, ◌+◌, String, Bool, not, Option, none, some, ◌==◌, nat_equality, if◌then◌else◌, is_none, update,
}
use ia_dev_lab.Json.{Fields}
use ia_dev_lab.Models.{ItemStatus}
use ia_dev_lab.Repository.Schema.{TaskRow, ItemRow, Db, has_id, at_position}
use ia_dev_lab.Repository.Finish.{next_status}

-- The item: completed with its outcome or failed with its error, at the time of the call.
abbrev pub finished_row : Option Fields → Option Fields → ℕ → ItemRow → ItemRow
finished_row outcome error now i = record {
  task_id = i.task_id;
  position = i.position;
  source_id = i.source_id;
  source_text = i.source_text;
  status = if is_none error then ItemStatus.completed else ItemStatus.failed;
  outcome_json = outcome;
  error_json = error;
  started_at = i.started_at;
  completed_at = some now;
}

-- The task: one more item processed, a success or a failure; with the last item complete and
-- released, and still under the worker's lease before.
abbrev pub advanced_row : TaskRow → Bool → String → ℕ → TaskRow → TaskRow
advanced_row task success worker now t =
    let processed = task.processed_count + 1 in
    let successful = task.successful_count + (if success then 1 else 0) in
    let last = processed == task.accepted_count in
    record {
      task_id = t.task_id;
      owner_id = t.owner_id;
      status = next_status task.accepted_count processed successful;
      criteria_json = t.criteria_json;
      model_json = t.model_json;
      accepted_count = t.accepted_count;
      processed_count = processed;
      successful_count = successful;
      failed_count = task.failed_count + (if not success then 1 else 0);
      task_error_json = t.task_error_json;
      lease_owner = if last then none else some worker;
      lease_expires_at = if last then none else task.lease_expires_at;
      created_at = t.created_at;
      updated_at = now;
      started_at = t.started_at;
      completed_at = if last then some now else none;
      expires_at = t.expires_at;
      purged_at = t.purged_at;
    }

abbrev pub finished_tables :
    TaskRow → String → String → ℕ → Option Fields → Option Fields → Option Fields → ℕ → Db → Db
finished_tables task id worker position outcome error error_json now db = record {
  tasks = update (has_id id) (advanced_row task (is_none error) worker now) db.tasks;
  items = update (at_position id position) (finished_row outcome error_json now) db.items;
}
