-- ===== src/Repository/Finish/GivenUp.antt =====
-- What a `fail_task` that commits leaves of the task, of its items and of everything else.
use ia_dev_lab.Base.{
  ℕ, ◌+◌, ◌-◌, String, true, false, ◌≡◌, refl, sym, ap, subst, none, some, arith, All-Elem, find,
  find-Elem, find_test, count, Rowwise, Rowwise-update, Result, ok, if◌then◌else◌, List,
}
use ia_dev_lab.Json.{Fields}
use ia_dev_lab.Models.{TaskStatus, ItemStatus, TaskRecord, is_terminal}
use ia_dev_lab.Repository.Schema.{TaskRow, ItemRow, Db, has_id}
use ia_dev_lab.Repository.Invariant.{TaskInv, Inv}
use ia_dev_lab.Repository.Accept.{dump}
use ia_dev_lab.Repository.Lease.{open_item}
use ia_dev_lab.Repository.Finish.{leased, abandon_item, abandon_task, fail_task}
use ia_dev_lab.Repository.Finish.Keeps.{leased_id}
use ia_dev_lab.Repository.Finish.Abandon.{abandoned, count_states}
use ia_dev_lab.Repository.Finish.Outcome.{fail_task-commits}

-- A row of the items before and after: what is open fails with the error, all else stays.
pub record ItemGivenUp (id : String) (json : Fields) (now : ℕ) (i j : ItemRow) : Type 0 where
  pub failed :
      open_item id i ≡ true
      → j ≡ record {
        task_id = i.task_id;
        position = i.position;
        source_id = i.source_id;
        source_text = i.source_text;
        status = ItemStatus.failed;
        outcome_json = i.outcome_json;
        error_json = some json;
        started_at = i.started_at;
        completed_at = some now;
      }
  pub kept : open_item id i ≡ false → j ≡ i

-- A row of the tasks before and after: the task is failed, complete and released, with `open` more
-- failures; the others stay.
pub record TaskGivenUp (id : String) (json : Fields) (now open_items : ℕ) (t u : TaskRow)
    : Type 0 where
  pub failed :
      has_id id t ≡ true
      → u ≡ record t {
        status = TaskStatus.failed;
        processed_count = t.accepted_count;
        failed_count = t.failed_count + open_items;
        task_error_json = some json;
        updated_at = now;
        completed_at = some now;
        lease_owner = none;
        lease_expires_at = none;
      }
  pub kept : has_id id t ≡ false → u ≡ t

-- The record that the worker gets back.
pub record ReturnedFailed (task : TaskRow) (json : Fields) (now open_items : ℕ) (r : TaskRecord)
    : Type 0 where
  pub same_task : r.task_id ≡ task.task_id
  pub same_owner : r.owner_id ≡ task.owner_id
  pub failed : r.status ≡ TaskStatus.failed
  pub accepted : r.accepted_count ≡ task.accepted_count
  pub processed : r.processed_count ≡ task.accepted_count
  pub successes : r.successful_count ≡ task.successful_count
  pub failures : r.failed_count ≡ task.failed_count + open_items
  pub with_error : r.error ≡ some json
  pub updated : r.updated_at ≡ now
  pub completed : r.completed_at ≡ some now
  pub unowned : r.lease_owner ≡ none
  pub unleased : r.lease_expires_at ≡ none

pub record GivenUp (id : String) (json : Fields) (now : ℕ) (db : Db) (task : TaskRow)
    (r : Result TaskRecord × Db) : Type 0 where
  pub answer : TaskRecord
  pub returned : r.0 ≡ ok answer
  pub answer_is : ReturnedFailed task json now (count (open_item id) db.items) answer
  pub tasks : Rowwise (TaskGivenUp id json now (count (open_item id) db.items)) db.tasks r.1.tasks
  pub items : Rowwise (ItemGivenUp id json now) db.items r.1.items

-- What the task has not processed is what it has open.
remaining-open :
    (id : String) (items : List ItemRow) (task : TaskRow)
    → TaskInv items task
    → task.task_id ≡ id
    → task.accepted_count - task.processed_count ≡ count (open_item id) items
remaining-open id items task h same =
    subst (λ (k : String). task.accepted_count - task.processed_count ≡ count (open_item k) items)
      same
      (omega (
        arith,
        count_states task.task_id items,
        h.accepted,
        h.successes,
        h.failures,
        h.progress,
        h.bounded,
      ))

abandoned-GivenUp_items :
    (id : String) (json : Fields) (now : ℕ) (i : ItemRow)
    → ItemGivenUp id json now i (if open_item id i then abandon_item json now i else i)
abandoned-GivenUp_items id json now i = record { failed = λ e. rw e refl; kept = λ e. rw e refl }

abandoned-GivenUp_tasks :
    (id : String) (json : Fields) (now remaining : ℕ) (t : TaskRow)
    → TaskGivenUp id json now remaining t
        (if has_id id t then abandon_task json remaining now t else t)
abandoned-GivenUp_tasks id json now remaining t = record {
  failed = λ e. rw e refl;
  kept = λ e. rw e refl;
}

-- On good tables, a worker that holds the lease of a running task can give the task up: with a
-- serializable error the call commits. Each open item of the task becomes failed with that error and
-- the time of the call, and every other item row stays as it was. The row of the task becomes failed
-- with that error and the time, counts all its items as processed and those that were open as failed,
-- and loses its lease, and every other task row stays as it was. The record returned says the same.
pub fail_task-total :
    (id worker : String) (error json : Fields) (now : ℕ) (db : Db) (task : TaskRow)
    → Inv db
    → find (leased id worker) db.tasks ≡ some task
    → is_terminal task.status ≡ false
    → dump error ≡ ok json
    → GivenUp id json now db task (fail_task id worker error now db)
fail_task-total id worker error json now db task v e1 e2 e3 =
    let same = leased_id id worker task (find_test (leased id worker) db.tasks e1) in
    let open_items =
      remaining-open id db.items task
        (All-Elem (TaskInv db.items) db.tasks v.rows (find-Elem (leased id worker) db.tasks e1))
        same in
    subst (GivenUp id json now db task)
      (sym (fail_task-commits id worker error json now db task v e1 e2 e3))
      (record {
        answer = _;
        returned = refl;
        answer_is = record {
          same_task = refl;
          same_owner = refl;
          failed = refl;
          accepted = refl;
          processed = refl;
          successes = refl;
          failures = ap (λ n. task.failed_count + n) open_items;
          with_error = refl;
          updated = refl;
          completed = refl;
          unowned = refl;
          unleased = refl;
        };
        tasks =
            subst
              (λ n.
                Rowwise (TaskGivenUp id json now n) db.tasks (abandoned task id json now db).tasks)
              open_items
              (Rowwise-update (TaskGivenUp id json now (task.accepted_count - task.processed_count))
                (has_id id) _ db.tasks
                (abandoned-GivenUp_tasks id json now (task.accepted_count - task.processed_count)));
        items =
            Rowwise-update (ItemGivenUp id json now) (open_item id) (abandon_item json now) db.items
              (abandoned-GivenUp_items id json now);
      })
