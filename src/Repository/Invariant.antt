-- ===== src/Repository/Invariant.antt =====
-- What holds of the two tables between two transactions, and the lemmas that every operation's
-- preservation proof shares.
use ia_dev_lab.Base.{
  ℕ, ◌+◌, ◌≤◌, ◌<◌, String, Bool, false, ◌&&◌, ◌≡◌, none, List, All, All-map, All-update, All-zip,
  Elem, update, count, key_unique, eq_refl, eq_iff, ◌≢◌, true, arith, count_keep, is_some,
}
use ia_dev_lab.Models.{TaskStatus, ItemStatus, is_terminal}
use ia_dev_lab.Repository.Schema.{TaskRow, ItemRow, Db, has_id, of_task, at_position, of_source}

abbrev pub is_completed : ItemStatus → Bool
is_completed ItemStatus.completed = true
is_completed _ = false

abbrev pub is_failed : ItemStatus → Bool
is_failed ItemStatus.failed = true
is_failed _ = false

-- The items of a task whose status passes a test.
abbrev pub in_state : String → (ItemStatus → Bool) → ItemRow → Bool
in_state id test i = of_task id i && test i.status

-- The counters of a task agree with its items, and its status with its counters.
pub record TaskInv (items : List ItemRow) (t : TaskRow) : Type 0 where
  pub positive : 0 < t.accepted_count
  pub accepted : count (of_task t.task_id) items ≡ t.accepted_count
  pub successes : count (in_state t.task_id is_completed) items ≡ t.successful_count
  pub failures : count (in_state t.task_id is_failed) items ≡ t.failed_count
  pub progress : t.successful_count + t.failed_count ≡ t.processed_count
  pub bounded : t.processed_count ≤ t.accepted_count
  pub unfinished : is_terminal t.status ≡ false → t.processed_count < t.accepted_count
  pub finished : is_terminal t.status ≡ true → t.processed_count ≡ t.accepted_count
  pub dated : is_terminal t.status ≡ true → is_some t.completed_at ≡ true
  pub released : is_terminal t.status ≡ true → t.lease_owner ≡ none
  pub unstarted : t.status ≡ TaskStatus.queued → t.processed_count ≡ 0
  pub unleased : t.status ≡ TaskStatus.queued → t.lease_owner ≡ none
  pub all_good : t.status ≡ TaskStatus.completed → t.successful_count ≡ t.accepted_count
  pub some_good : t.status ≡ TaskStatus.partially_completed → 0 < t.successful_count
  pub some_bad : t.status ≡ TaskStatus.partially_completed → 0 < t.failed_count
  pub any_bad : t.status ≡ TaskStatus.failed → 0 < t.failed_count
  pub lease : is_some t.lease_owner ≡ is_some t.lease_expires_at
  pub blank : is_some t.purged_at ≡ true → t.lease_owner ≡ none

-- The keys of the tables, and the foreign key.
pub record Keys (db : Db) : Type 0 where
  pub task_key : (id : String) → count (has_id id) db.tasks ≤ 1
  pub item_key : (id : String) (n : ℕ) → count (at_position id n) db.items ≤ 1
  pub source_key : (id source : String) → count (of_source id source) db.items ≤ 1
  pub foreign_key : All (λ i. 0 < count (has_id i.task_id) db.tasks) db.items

pub record Inv (db : Db) : Type 0 where
  pub keys : Keys db
  pub open keys use *
  pub rows : All (TaskInv db.items) db.tasks

-- A change of rows of `extraction_tasks` that keeps their key.
pub update_tasks-Keys :
    (q : TaskRow → Bool) (f : TaskRow → TaskRow) (db : Db)
    → ((t : TaskRow) → (f t).task_id ≡ t.task_id)
    → Keys db
    → Keys (record db { tasks = update q f db.tasks })
update_tasks-Keys q f db keeps v = record {
  task_key = λ id. rw (same id) (v.task_key id);
  item_key = v.item_key;
  source_key = v.source_key;
  foreign_key =
      All-map (λ i. 0 < count (has_id i.task_id) db.tasks) _ db.items (λ i h. rw (same i.task_id) h)
        v.foreign_key;
}
  where
    same : (id : String) → count (has_id id) (update q f db.tasks) ≡ count (has_id id) db.tasks
    same id = count_keep (has_id id) q f db.tasks (λ t _. rw (keeps t))

-- A change of rows of `extraction_task_items` that keeps their keys.
pub record KeepsKeys (g : ItemRow → ItemRow) : Type 0 where
  pub same_task : (i : ItemRow) → (g i).task_id ≡ i.task_id
  pub same_position : (i : ItemRow) → (g i).position ≡ i.position
  pub same_source : (i : ItemRow) → (g i).source_id ≡ i.source_id

pub update_items-Keys :
    (p : ItemRow → Bool) (g : ItemRow → ItemRow) (db : Db)
    → KeepsKeys g
    → Keys db
    → Keys (record db { items = update p g db.items })
update_items-Keys p g db k v = record {
  task_key = v.task_key;
  item_key = λ id n.
      rw (count_keep (at_position id n) p g db.items (λ i _. rw (k.same_task i, k.same_position i)))
        (v.item_key id n);
  source_key = λ id s.
      rw (count_keep (of_source id s) p g db.items (λ i _. rw (k.same_task i, k.same_source i)))
        (v.source_key id s);
  foreign_key =
      All-update (λ i. 0 < count (has_id i.task_id) db.tasks)
        (λ i. 0 < count (has_id i.task_id) db.tasks) p g db.items (λ i _ h. rw (k.same_task i) h)
        (λ i _ h. h) v.foreign_key;
}

-- UPDATE extraction_tasks ... WHERE task_id = ?, with the key of a row that was read before, while
-- the items change too.
pub update_row-rows :
    (f : TaskRow → TaskRow) (items' : List ItemRow) (db : Db) (row : TaskRow)
    → Inv db
    → Elem row db.tasks
    → TaskInv items' (f row)
    → ((t : TaskRow) → t.task_id ≢ row.task_id → TaskInv db.items t → TaskInv items' t)
    → All (TaskInv items') (update (has_id row.task_id) f db.tasks)
update_row-rows f items' db row v m h others =
    All-update (λ t. TaskInv db.items t × (has_id row.task_id t ≡ true → t ≡ row)) (TaskInv items')
      (has_id row.task_id) f db.tasks (λ t e p. rw (p.1 e) h)
      (λ t e p. others t (λ same. absurd (ground (arith, eq_iff t.task_id row.task_id))) p.0)
      (All-zip (TaskInv db.items) (λ t. has_id row.task_id t ≡ true → t ≡ row) db.tasks v.rows
        (key_unique (has_id row.task_id) db.tasks (v.task_key row.task_id) m (eq_refl row.task_id)))

pub update_row-Inv :
    (f : TaskRow → TaskRow) (db : Db) (row : TaskRow)
    → ((t : TaskRow) → (f t).task_id ≡ t.task_id)
    → Inv db
    → Elem row db.tasks
    → TaskInv db.items (f row)
    → Inv (record db { tasks = update (has_id row.task_id) f db.tasks })
update_row-Inv f db row keeps v m h = record {
  keys = update_tasks-Keys (has_id row.task_id) f db keeps v.keys;
  rows = update_row-rows f db.items db row v m h (λ t _ p. p);
}

-- The invariant of a task reads its items by three counts only.
pub TaskInv-recount :
    (items items' : List ItemRow) (t : TaskRow)
    → count (of_task t.task_id) items' ≡ count (of_task t.task_id) items
    → count (in_state t.task_id is_completed) items' ≡ count (in_state t.task_id is_completed) items
    → count (in_state t.task_id is_failed) items' ≡ count (in_state t.task_id is_failed) items
    → TaskInv items t
    → TaskInv items' t
TaskInv-recount items items' t a s f h = ground arith

pub at_position_self : (i : ItemRow) → at_position i.task_id i.position i ≡ true
at_position_self i = ground (arith, eq_refl i.task_id)
