-- ===== src/Models.antt =====
-- The task records of src/models.py, with the checks that `__post_init__` makes.
-- A datetime is its number of microseconds since a fixed instant.
use ia_dev_lab.Base.{
  ℕ, ◌+◌, String, Bool, true, false, not, ◌&&◌, Option, ltb, leb, ◌==◌, nat_equality, if◌then◌else◌,
  is_none, is_some, Result, ok, err, value_error,
}
use ia_dev_lab.Json.{Fields}

-- `ExtractionTaskStatus`
pub data TaskStatus : Type 0 where
  queued processing completed partially_completed failed : TaskStatus

-- The value of a member.
abbrev pub status_text : TaskStatus → String
status_text TaskStatus.queued = "queued"
status_text TaskStatus.processing = "processing"
status_text TaskStatus.completed = "completed"
status_text TaskStatus.partially_completed = "partially_completed"
status_text TaskStatus.failed = "failed"

-- `is_terminal`, and membership in `TERMINAL_TASK_STATUSES`
unfoldable pub is_terminal : TaskStatus → Bool
is_terminal TaskStatus.queued = false
is_terminal TaskStatus.processing = false
is_terminal TaskStatus.completed = true
is_terminal TaskStatus.partially_completed = true
is_terminal TaskStatus.failed = true

-- `ExtractionTaskItemStatus`
pub data ItemStatus : Type 0 where
  queued processing completed failed : ItemStatus

pub record TaskRecord : Type 0 where
  pub task_id : String
  pub owner_id : String
  pub status : TaskStatus
  pub accepted_count : ℕ
  pub processed_count : ℕ
  pub successful_count : ℕ
  pub failed_count : ℕ
  pub created_at : ℕ
  pub updated_at : ℕ
  pub expires_at : ℕ
  pub started_at : Option ℕ
  pub completed_at : Option ℕ
  pub criteria : Option Fields
  pub model : Option Fields
  pub error : Option Fields
  pub lease_owner : Option String
  pub lease_expires_at : Option ℕ
  pub purged_at : Option ℕ

unfoldable pub is_purged : TaskRecord → Bool
is_purged t = is_some t.purged_at

-- `__post_init__`. Counts are naturals, so the test `0 <= processed_count` always passes.
unfoldable pub post_init : TaskRecord → Result TaskRecord
unfolding is_terminal
post_init t =
    if ltb t.accepted_count 1
    then err (value_error "accepted_count must be positive")
    else if not (t.successful_count + t.failed_count == t.processed_count)
    then err (value_error "successful and failed counts must equal processed count")
    else if not (leb t.processed_count t.accepted_count)
    then err (value_error "processed count must be within accepted count")
    else if is_terminal t.status && not (t.processed_count == t.accepted_count)
    then err (value_error "terminal tasks must account for every accepted item")
    else if is_terminal t.status && is_none t.completed_at
    then err (value_error "terminal tasks require a completion time")
    else ok t

-- `ExtractionTaskItemRecord`
pub record ItemRecord : Type 0 where
  pub task_id : String
  pub position : ℕ
  pub source_id : String
  pub source_text : Option String
  pub status : ItemStatus
  pub outcome : Option Fields
  pub error : Option Fields
  pub started_at : Option ℕ
  pub completed_at : Option ℕ
