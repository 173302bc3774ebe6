-- ===== src/Repository/Steps/Truth.antt =====
-- What a task's status says of its items, after every history.
use ia_dev_lab.Base.{◌≡◌, ◌↔◌, true, List, arith, All-Elem, Elem, count}
use ia_dev_lab.Models.{TaskStatus, is_terminal}
use ia_dev_lab.Repository.Schema.{TaskRow, ItemRow, of_task, is_open}
use ia_dev_lab.Repository.Invariant.{TaskInv, in_state, is_completed, is_failed}
use ia_dev_lab.Repository.Finish.Abandon.{count_states}
use ia_dev_lab.Repository.Steps.{Call, run, initial}
use ia_dev_lab.Repository.Steps.Safety.{run-initial-Inv}

pub record IsTruthful (items : List ItemRow) (t : TaskRow) : Type 0 where
  pub over : (is_terminal t.status ≡ true) ↔ (count (in_state t.task_id is_open) items ≡ 0)
  pub all_good :
      (t.status ≡ TaskStatus.completed)
      ↔ (count (in_state t.task_id is_completed) items ≡ count (of_task t.task_id) items)
  pub all_bad :
      count (in_state t.task_id is_failed) items ≡ count (of_task t.task_id) items
      → t.status ≡ TaskStatus.failed

TaskInv-IsTruthful : (items : List ItemRow) (t : TaskRow) → TaskInv items t → IsTruthful items t
unfolding is_terminal
TaskInv-IsTruthful items t h = record {
  over = (
    λ e. ground (arith, count_states t.task_id items),
    λ e. ground (arith, count_states t.task_id items),
  );
  all_good = (
    λ e. ground (arith, count_states t.task_id items),
    λ e. ground (arith, count_states t.task_id items),
  );
  all_bad = λ e. ground (arith, count_states t.task_id items);
}

-- After any history a task is terminal exactly when none of its items is open, completed exactly
-- when all its items are completed, and failed whenever all its items have failed.
pub status-IsTruthful :
    (calls : List Call) (t : TaskRow)
    → Elem t (run initial calls).tasks
    → IsTruthful (run initial calls).items t
status-IsTruthful calls t m = TaskInv-IsTruthful (run initial calls).items t (
    All-Elem (TaskInv (run initial calls).items) (run initial calls).tasks
      (run-initial-Inv calls).rows m)
