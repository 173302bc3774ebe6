-- ===== src/Repository/Schema.antt =====
-- The two tables of `TaskRepository._initialize` (src/task_repository.py), the tests that the
-- statements put in WHERE clauses, and the constraints that an INSERT or an UPDATE is held to.
use ia_dev_lab.Base.{
  ℕ, ◌+◌, String, Bool, true, false, not, ◌&&◌, Option, none, some, List, [], ◌∷◌, ◌++◌, ltb, leb,
  ◌==◌, nat_equality, string_equality, if◌then◌else◌, is_none, is_some, Result, ok, err,
  integrity_error, find, count, update, both,
}
use ia_dev_lab.Json.{Fields}
use ia_dev_lab.Models.{TaskStatus, ItemStatus}

-- A row of `extraction_tasks`. A column of JSON text holds the dict that its text denotes.
pub record TaskRow : Type 0 where
  pub task_id : String
  pub owner_id : String
  pub status : TaskStatus
  pub criteria_json : Option Fields
  pub model_json : Option Fields
  pub accepted_count : ℕ
  pub processed_count : ℕ
  pub successful_count : ℕ
  pub failed_count : ℕ
  pub task_error_json : Option Fields
  pub lease_owner : Option String
  pub lease_expires_at : Option ℕ
  pub created_at : ℕ
  pub updated_at : ℕ
  pub started_at : Option ℕ
  pub completed_at : Option ℕ
  pub expires_at : ℕ
  pub purged_at : Option ℕ

-- A row of `extraction_task_items`.
pub record ItemRow : Type 0 where
  pub task_id : String
  pub position : ℕ
  pub source_id : String
  pub source_text : Option String
  pub status : ItemStatus
  pub outcome_json : Option Fields
  pub error_json : Option Fields
  pub started_at : Option ℕ
  pub completed_at : Option ℕ

pub record Db : Type 0 where
  pub tasks : List TaskRow
  pub items : List ItemRow

-- A comparison with NULL is not true.
abbrev pub null_eq : Option String → String → Bool
null_eq none s = false
null_eq (some r) s = r == s

abbrev pub null_le : Option ℕ → ℕ → Bool
null_le none n = false
null_le (some m) n = leb m n

abbrev pub null_gt : Option ℕ → ℕ → Bool
null_gt none n = false
null_gt (some m) n = ltb n m

-- `task_id = ?`
abbrev pub has_id : String → TaskRow → Bool
has_id id t = t.task_id == id

abbrev pub of_task : String → ItemRow → Bool
of_task id i = i.task_id == id

-- `task_id = ? AND position = ?`
abbrev pub at_position : String → ℕ → ItemRow → Bool
at_position id n i = of_task id i && i.position == n

-- `status IN ('queued', 'processing')`
abbrev pub is_running : TaskStatus → Bool
is_running TaskStatus.queued = true
is_running TaskStatus.processing = true
is_running _ = false

abbrev pub is_open : ItemStatus → Bool
is_open ItemStatus.queued = true
is_open ItemStatus.processing = true
is_open _ = false

-- The CHECK constraints of `extraction_tasks` on the counts.
abbrev pub check_task : TaskRow → Bool
check_task t =
    ltb 0 t.accepted_count
    && t.successful_count + t.failed_count == t.processed_count
    && leb t.processed_count t.accepted_count

-- INSERT INTO extraction_tasks: the CHECK constraints and the primary key.
unfoldable pub insert_task : TaskRow → Db → Result Db
insert_task t db =
    if check_task t && is_none (find (has_id t.task_id) db.tasks)
    then ok (record db { tasks = db.tasks ++ t ∷ [] })
    else err integrity_error

-- `UNIQUE (task_id, source_id)`
abbrev pub of_source : String → String → ItemRow → Bool
of_source id source i = of_task id i && i.source_id == source

-- INSERT INTO extraction_task_items: the primary key, the unique key and the foreign key.
unfoldable pub insert_item : ItemRow → Db → Result Db
insert_item i db =
    if is_none (find (at_position i.task_id i.position) db.items)
      && is_none (find (of_source i.task_id i.source_id) db.items)
      && is_some (find (has_id i.task_id) db.tasks)
    then ok (record db { items = db.items ++ i ∷ [] })
    else err integrity_error

-- UPDATE extraction_tasks where the statement sets counts: the changed rows are checked.
unfoldable pub update_counts : (TaskRow → Bool) → (TaskRow → TaskRow) → Db → Result Db
update_counts q f db =
    if count (both q (λ t. not (check_task (f t)))) db.tasks == 0
    then ok (record db { tasks = update q f db.tasks })
    else err integrity_error
