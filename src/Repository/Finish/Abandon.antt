-- ===== src/Repository/Finish/Abandon.antt =====
-- Abandoning a task keeps the invariant of the tables.
use ia_dev_lab.Base.{
  ℕ, ◌+◌, ◌-◌, String, false, ◌≡◌, ◌≢◌, refl, sym, subst, ◌∙◌, inl, inr, Option, some, List, [],
  ◌∷◌, nat_equality, arith, eq_iff, All, All-Elem, find, find-Elem, find_test, update, count,
  count_keep, Option-cases, Bool-cases, ok, Result-cases,
}
use ia_dev_lab.Json.{Fields}
use ia_dev_lab.Models.{is_terminal}
use ia_dev_lab.Repository.Schema.{TaskRow, ItemRow, Db, has_id, of_task, is_open, update_counts}
use ia_dev_lab.Repository.Invariant.{
  TaskInv, Inv, update_tasks-Keys, update_items-Keys, update_row-rows, TaskInv-recount, in_state,
  is_completed, is_failed,
}
use ia_dev_lab.Repository.Accept.{dump}
use ia_dev_lab.Repository.Lease.{open_item}
use ia_dev_lab.Repository.Finish.{leased, abandon_item, abandon_task, fail_rows, fail_task}
use ia_dev_lab.Repository.Finish.Keeps.{update_counts_ok, leased_id}

pub count_states :
    (id : String) (items : List ItemRow)
    → count (in_state id is_open) items
        + count (in_state id is_completed) items
        + count (in_state id is_failed) items
      ≡ count (of_task id) items
unfolding count
count_states id [] = refl
count_states id (i ∷ items) = ground (arith, count_states id items)

abandoned_count_self :
    (id : String) (error : Fields) (now : ℕ) (items : List ItemRow)
    → count (in_state id is_failed) (update (open_item id) (abandon_item error now) items)
      ≡ count (in_state id is_failed) items + count (in_state id is_open) items
unfolding count update
abandoned_count_self id error now [] = refl
abandoned_count_self id error now (i ∷ items) =
    ground (arith, abandoned_count_self id error now items)

module _ (id : String) (error : Fields) (now : ℕ) (items : List ItemRow) where
  abbrev abandoned_items : List ItemRow
  abandoned_items = update (open_item id) (abandon_item error now) items

  abandoned-TaskInv_other :
      (t : TaskRow) → t.task_id ≢ id → TaskInv items t → TaskInv abandoned_items t
  abandoned-TaskInv_other t ne h =
      TaskInv-recount items abandoned_items t
        (count_keep (of_task t.task_id) (open_item id) (abandon_item error now) items (λ i _. refl))
        (count_keep (in_state t.task_id is_completed) (open_item id) (abandon_item error now) items
          (λ i q. ground (arith, eq_iff i.task_id id, eq_iff i.task_id t.task_id)))
        (count_keep (in_state t.task_id is_failed) (open_item id) (abandon_item error now) items
          (λ i q. ground (arith, eq_iff i.task_id id, eq_iff i.task_id t.task_id)))
        h

  abandoned-TaskInv :
      (task : TaskRow)
      → task.task_id ≡ id
      → is_terminal task.status ≡ false
      → TaskInv items task
      → TaskInv abandoned_items
          (abandon_task error (task.accepted_count - task.processed_count) now task)
  unfolding is_terminal
  abandoned-TaskInv task same open_task h = rw (← same) (
      ground (
        arith,
        count_keep (of_task task.task_id) (open_item task.task_id) (abandon_item error now) items
            (λ i _. refl),
        count_keep (in_state task.task_id is_completed) (open_item task.task_id)
            (abandon_item error now) items (λ i q. ground arith),
        abandoned_count_self task.task_id error now items,
        count_states task.task_id items,
      ))

-- The tables after a task has been abandoned.
abbrev pub abandoned : TaskRow → String → Fields → ℕ → Db → Db
abandoned task id error now db = record {
  tasks =
      update (has_id id) (abandon_task error (task.accepted_count - task.processed_count) now)
        db.tasks;
  items = update (open_item id) (abandon_item error now) db.items;
}

pub record Abandoned (id worker : String) (error : Fields) (now : ℕ) (db db' : Db)
    (r : Option TaskRow) : Type 0 where
  pub task : TaskRow
  pub task_found : find (leased id worker) db.tasks ≡ some task
  pub task_open : is_terminal task.status ≡ false
  pub after : db' ≡ abandoned task id error now db
  pub fetched : r ≡ find (has_id id) db'.tasks

pub fail_rows_ok :
    (id worker : String) (error : Fields) (now : ℕ) (db : Db) {db' : Db} {r : Option TaskRow}
    → fail_rows id worker error now db ≡ ok (r, db')
    → Abandoned id worker error now db db' r
unfolding fail_rows
fail_rows_ok id worker error now db {db'} {r} h =
    elim (Option-cases (find (leased id worker) db.tasks)) [
      | inl e ↦ absurd (ground arith)
      | inr (task, e1) ↦ elim (Bool-cases (is_terminal task.status)) [
        | inl e ↦ absurd (ground arith)
        | inr e2 ↦
            let f = abandon_task error (task.accepted_count - task.processed_count) now in
            let items = update (open_item id) (abandon_item error now) db.items in
            elim (Result-cases (update_counts (has_id id) f (record db { items = items }))) [
              | inl (x, e) ↦ absurd (ground arith)
              | inr (d, e) ↦ record {
                task = task;
                task_found = e1;
                task_open = e2;
                after =
                    ground (arith, update_counts_ok (has_id id) f (record db { items = items }) e);
                fetched = ground arith;
              }
            ]
      ]
    ]

pub fail_rows-Inv :
    (id worker : String) (error : Fields) (now : ℕ) (db db' : Db) (r : Option TaskRow)
    → Inv db
    → Abandoned id worker error now db db' r
    → Inv db'
fail_rows-Inv id worker error now db db' r v f =
    let same = leased_id id worker f.task (find_test (leased id worker) db.tasks f.task_found) in
    let m = find-Elem (leased id worker) db.tasks f.task_found in
    subst Inv (sym f.after) (record {
      keys =
          update_tasks-Keys (has_id id) (abandon_task error _ now)
            (record db { items = update (open_item id) (abandon_item error now) db.items })
            (λ t. refl)
            (update_items-Keys (open_item id) (abandon_item error now) db
              (record { same_task = λ i. refl; same_position = λ i. refl; same_source = λ i. refl })
              v.keys);
      rows =
          subst
            (λ (k : String). All (TaskInv (abandoned_items id error now db.items)) (
              update (has_id k)
                (abandon_task error (f.task.accepted_count - f.task.processed_count) now) db.tasks))
            same
            (update_row-rows (abandon_task error _ now) _ db f.task v m
              (abandoned-TaskInv id error now db.items f.task same f.task_open
                (All-Elem (TaskInv db.items) db.tasks v.rows m))
              (λ t ne h.
                abandoned-TaskInv_other id error now db.items t (λ e. ne (e ∙ sym same)) h));
    })

pub fail_task-Inv :
    (id worker : String) (error : Fields) (now : ℕ) (db : Db)
    → Inv db
    → Inv (fail_task id worker error now db).1
unfolding fail_task
fail_task-Inv id worker error now db v = elim (Result-cases (dump error)) [
  | inl (x, e) ↦ rw e v
  | inr (json, e) ↦ elim (Result-cases (fail_rows id worker json now db)) [
    | inl (x, h) ↦ rw (e, h) v
    | inr ((r, db'), h) ↦
        rw (e, h)
          (fail_rows-Inv id worker json now db db' r v (fail_rows_ok id worker json now db h))
  ]
]
