-- ===== src/Repository/Lease.antt =====
-- `claim_task`, `renew_lease` and `claim_next_item` of src/task_repository.py.
pub mod Keeps
pub mod Claims
use ia_dev_lab.Base.{
  ℕ, ◌+◌, String, Bool, ◌&&◌, ◌||◌, Option, none, some, List, [], ◌∷◌, ltb, text_ltb, ◌==◌,
  nat_equality, string_equality, if◌then◌else◌, is_none, coalesce, Result, ok, err, type_error,
  ◌>>=◌, Exec, transaction, afterwards, find, select, update, count,
}
use ia_dev_lab.Models.{TaskStatus, ItemStatus, TaskRecord, ItemRecord}
use ia_dev_lab.Repository.Schema.{
  TaskRow, ItemRow, Db, null_eq, null_le, null_gt, has_id, of_task, at_position, is_running,
  is_open,
}
use ia_dev_lab.Repository.Reads.{task_from_fetched, item_from_row, is_processing}

-- ORDER BY ... LIMIT 1.
unfoldable pub first_by {ℓ} : {A : Type ℓ} → (A → A → Bool) → List A → Option A
first_by before [] = none
first_by before (x ∷ xs) = elim (first_by before xs) [
  | none ↦ some x
  | some y ↦ if before y x then some y else some x
]

-- The WHERE clause of the claim.
abbrev pub claimable : ℕ → TaskRow → Bool
claimable now t =
    is_running t.status
    && is_none t.purged_at
    && ltb now t.expires_at
    && (is_none t.lease_owner || null_le t.lease_expires_at now)

-- ORDER BY created_at, task_id
abbrev pub older : TaskRow → TaskRow → Bool
older s t =
    ltb s.created_at t.created_at || (s.created_at == t.created_at && text_ltb s.task_id t.task_id)

abbrev pub lease_to : String → ℕ → ℕ → TaskRow → TaskRow
lease_to worker expiry now t = record t {
  status = TaskStatus.processing;
  lease_owner = some worker;
  lease_expires_at = some expiry;
  started_at = some (coalesce t.started_at now);
  updated_at = now;
}

-- `none` for the early return; otherwise what the last SELECT fetched.
unfoldable pub claim_row : String → ℕ → ℕ → Db → Result (Option (Option TaskRow) × Db)
unfolding first_by
claim_row worker now lease_seconds db = elim (first_by older (select (claimable now) db.tasks)) [
  | none ↦ ok (none, db)
  | some row ↦
      let tasks =
        update (has_id row.task_id) (lease_to worker (now + lease_seconds) now) db.tasks in
      ok (some (find (has_id row.task_id) tasks), record db { tasks = tasks })
]

abbrev pub claimed_record : Option (Option TaskRow) → Result (Option TaskRecord)
claimed_record none = ok none
claimed_record (some fetched) = do task ← task_from_fetched fetched; ok (some task)

unfoldable pub claim_task : String → ℕ → ℕ → Exec Db (Option TaskRecord)
unfolding claim_row task_from_fetched
claim_task worker now lease_seconds db =
    afterwards (transaction (claim_row worker now lease_seconds) db) claimed_record

-- The WHERE clause of the renewal.
abbrev pub renewable : String → String → TaskRow → Bool
renewable id worker t = has_id id t && null_eq t.lease_owner worker && is_running t.status

unfoldable pub renew_lease : String → String → ℕ → ℕ → Db → Bool × Db
renew_lease id worker now lease_seconds db = (
  count (renewable id worker) db.tasks == 1,
  record db {
    tasks =
        update (renewable id worker)
          (λ t. record t { lease_expires_at = some (now + lease_seconds); updated_at = now })
          db.tasks;
  },
)

-- The lease check of `claim_next_item`.
abbrev pub working : String → String → ℕ → TaskRow → Bool
working id worker now t =
    has_id id t
    && null_eq t.lease_owner worker
    && null_gt t.lease_expires_at now
    && is_processing t.status
    && is_none t.purged_at

abbrev pub open_item : String → ItemRow → Bool
open_item id i = of_task id i && is_open i.status

abbrev pub start_item : ℕ → ItemRow → ItemRow
start_item now i = record i {
  status = ItemStatus.processing;
  started_at = some (coalesce i.started_at now);
}

abbrev pub earlier : ItemRow → ItemRow → Bool
earlier i j = ltb i.position j.position

unfoldable pub start_next : String → ℕ → Db → Option (Option ItemRow) × Db
unfolding first_by
start_next id now db = elim (first_by earlier (select (open_item id) db.items)) [
  | none ↦ (none, db)
  | some row ↦
      let items = update (at_position id row.position) (start_item now) db.items in
      (some (find (at_position id row.position) items), record db { items = items })
]

abbrev pub started_record : Option (Option ItemRow) → Result (Option ItemRecord)
started_record none = ok none
started_record (some none) = err type_error
started_record (some (some row)) = ok (some (item_from_row row))

unfoldable pub claim_next_item : String → String → ℕ → Exec Db (Option ItemRecord)
unfolding start_next item_from_row
claim_next_item id worker now db =
    if is_none (find (working id worker now) db.tasks)
    then (ok none, db)
    else (let (started, db') = start_next id now db in (started_record started, db'))
