-- ===== src/Repository/Finish.antt =====
-- `finalize_item` and `fail_task` of src/task_repository.py.
pub mod Keeps
pub mod Abandon
pub mod Outcome
pub mod Lease
pub mod Held
pub mod GivenUp
pub mod Written
use ia_dev_lab.Base.{
  ℕ, ◌+◌, ◌-◌, String, Bool, ◌&&◌, not, true, false, Option, none, some, ltb, ◌==◌, nat_equality,
  if◌then◌else◌, is_none, Result, ok, err, value_error, ◌>>=◌, ◌>>◌, Exec, transaction, afterwards,
  find, update,
}
use ia_dev_lab.Json.{Fields}
use ia_dev_lab.Models.{TaskStatus, ItemStatus, TaskRecord, is_terminal}
use ia_dev_lab.Repository.Schema.{
  TaskRow, ItemRow, Db, null_eq, has_id, at_position, is_open, update_counts,
}
use ia_dev_lab.Repository.Accept.{dump}
use ia_dev_lab.Repository.Lease.{open_item}
use ia_dev_lab.Repository.Reads.{task_from_fetched}

-- `task_id = ? AND lease_owner = ?`
abbrev pub leased : String → String → TaskRow → Bool
leased id worker t = has_id id t && null_eq t.lease_owner worker

-- `task is None or task["status"] in TERMINAL_TASK_STATUSES`
abbrev pub mutable_task : Option TaskRow → Result TaskRow
mutable_task none = err (value_error "Task is not mutable under this worker lease")
mutable_task (some t) =
    if is_terminal t.status
    then err (value_error "Task is not mutable under this worker lease")
    else ok t

-- `item is None or item["status"] in ("completed", "failed")`
abbrev pub open_row : Option ItemRow → Result ItemRow
open_row none = err (value_error "Task item is already terminal or absent")
open_row (some i) =
    if is_open i.status then ok i else err (value_error "Task item is already terminal or absent")

abbrev pub dump_optional : Option Fields → Result (Option Fields)
dump_optional none = ok none
dump_optional (some payload) = do json ← dump payload; ok (some json)

-- The status of the task after one more item, `accepted` in all.
unfoldable pub next_status : ℕ → ℕ → ℕ → TaskStatus
next_status accepted processed successful =
    if processed == accepted
    then (if successful == accepted
        then TaskStatus.completed
        else if ltb 0 successful
        then TaskStatus.partially_completed
        else TaskStatus.failed)
    else TaskStatus.processing

abbrev pub one_if : Bool → ℕ
one_if b = if b then 1 else 0

abbrev pub finish_item : Option Fields → Option Fields → ℕ → ItemRow → ItemRow
finish_item outcome error now i = record i {
  status = if is_none error then ItemStatus.completed else ItemStatus.failed;
  outcome_json = outcome;
  error_json = error;
  completed_at = some now;
}

-- The second UPDATE of `finalize_item`, its values computed from the row `task` read before.
abbrev pub advance_task : TaskRow → Bool → String → ℕ → TaskRow → TaskRow
advance_task task success worker now t =
    let processed = task.processed_count + 1 in
    let successful = task.successful_count + one_if success in
    let terminal = processed == task.accepted_count in
    record t {
      status = next_status task.accepted_count processed successful;
      processed_count = processed;
      successful_count = successful;
      failed_count = task.failed_count + one_if (not success);
      updated_at = now;
      completed_at = if terminal then some now else none;
      lease_owner = if terminal then none else some worker;
      lease_expires_at = if terminal then none else task.lease_expires_at;
    }

unfoldable pub finalize_rows :
    String → String → ℕ → Option Fields → Option Fields → ℕ → Db → Result (Option TaskRow × Db)
unfolding is_terminal dump next_status update_counts
finalize_rows id worker position outcome error now db = do
  task ← mutable_task (find (leased id worker) db.tasks)
  open_row (find (at_position id position) db.items)
  outcome_json ← dump_optional outcome
  error_json ← dump_optional error
  let items = update (at_position id position) (finish_item outcome_json error_json now) db.items
  db' ←
      update_counts (has_id id) (advance_task task (is_none error) worker now)
        (record db { items = items })
  ok (find (has_id id) db'.tasks, db')

abbrev pub same_presence : Option Fields → Option Fields → Bool
same_presence none none = true
same_presence (some _) (some _) = true
same_presence _ _ = false

unfoldable pub finalize_item :
    String → String → ℕ → Option Fields → Option Fields → ℕ → Exec Db TaskRecord
unfolding finalize_rows task_from_fetched
finalize_item id worker position outcome error now db =
    if same_presence outcome error
    then (err (value_error "Exactly one of outcome or error is required"), db)
    else afterwards (transaction (finalize_rows id worker position outcome error now) db)
        task_from_fetched

abbrev pub abandon_item : Fields → ℕ → ItemRow → ItemRow
abandon_item error now i = record i {
  status = ItemStatus.failed;
  error_json = some error;
  completed_at = some now;
}

-- The last UPDATE of `fail_task`; `remaining` was computed from the row read before.
abbrev pub abandon_task : Fields → ℕ → ℕ → TaskRow → TaskRow
abandon_task error remaining now t = record t {
  status = TaskStatus.failed;
  processed_count = t.accepted_count;
  failed_count = t.failed_count + remaining;
  task_error_json = some error;
  updated_at = now;
  completed_at = some now;
  lease_owner = none;
  lease_expires_at = none;
}

-- `remaining` is a difference of checked counts, so truncated subtraction is exact.
unfoldable pub fail_rows : String → String → Fields → ℕ → Db → Result (Option TaskRow × Db)
unfolding is_terminal update_counts
fail_rows id worker error_json now db = do
  task ← mutable_task (find (leased id worker) db.tasks)
  let remaining = task.accepted_count - task.processed_count
  let items = update (open_item id) (abandon_item error_json now) db.items
  db' ←
      update_counts (has_id id) (abandon_task error_json remaining now)
        (record db { items = items })
  ok (find (has_id id) db'.tasks, db')

abbrev pub fail_with : String → String → ℕ → Db → Result Fields → Result TaskRecord × Db
fail_with id worker now db (err e) = (err e, db)
fail_with id worker now db (ok error_json) =
    afterwards (transaction (fail_rows id worker error_json now) db) task_from_fetched

unfoldable pub fail_task : String → String → Fields → ℕ → Exec Db TaskRecord
unfolding dump fail_rows task_from_fetched
fail_task id worker error now db = fail_with id worker now db (dump error)
