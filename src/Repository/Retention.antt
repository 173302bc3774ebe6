-- ===== src/Repository/Retention.antt =====
-- `maintain_retention` of src/task_repository.py.
pub mod Keeps
use ia_dev_lab.Base.{
  ℕ, ◌+◌, String, Bool, ◌&&◌, none, some, List, [], ◌∷◌, map, leb, is_none, is_some, find, select,
  update, count, delete,
}
use ia_dev_lab.Repository.Schema.{TaskRow, ItemRow, Db, has_id, of_task}

-- `expires_at <= ? AND purged_at IS NULL`
abbrev pub expired : ℕ → TaskRow → Bool
expired now t = leb t.expires_at now && is_none t.purged_at

abbrev pub wipe_item : ItemRow → ItemRow
wipe_item i = record i { source_text = none; outcome_json = none; error_json = none }

abbrev pub wipe_task : ℕ → TaskRow → TaskRow
wipe_task now t = record t {
  criteria_json = none;
  model_json = none;
  task_error_json = none;
  lease_owner = none;
  lease_expires_at = none;
  purged_at = some now;
  updated_at = now;
}

-- The loop over `task_ids`.
unfoldable pub wipe_items : List String → List ItemRow → List ItemRow
wipe_items [] items = items
wipe_items (id ∷ ids) items = wipe_items ids (update (of_task id) wipe_item items)

-- `purged_at IS NOT NULL AND expires_at <= now - tombstone`, with the sum on the other side: the
-- difference of two naturals would stop at 0.
abbrev pub elapsed : ℕ → ℕ → TaskRow → Bool
elapsed now tombstone t = is_some t.purged_at && leb (t.expires_at + tombstone) now

-- ON DELETE CASCADE: an item goes with the row that it refers to.
abbrev pub orphaned : (TaskRow → Bool) → List TaskRow → ItemRow → Bool
orphaned gone tasks i = is_some (find (λ t. has_id i.task_id t && gone t) tasks)

unfoldable pub maintain_retention : ℕ → ℕ → Db → (ℕ × ℕ) × Db
unfolding wipe_items
maintain_retention now tombstone db =
    let task_ids = map (λ t. t.task_id) (select (expired now) db.tasks) in
    let items = wipe_items task_ids db.items in
    let purged = count (expired now) db.tasks in
    let tasks = update (expired now) (wipe_task now) db.tasks in
    let deleted = count (elapsed now tombstone) tasks in
    (
      (purged, deleted),
      record {
        tasks = delete (elapsed now tombstone) tasks;
        items = delete (orphaned (elapsed now tombstone) tasks) items;
      },
    )
