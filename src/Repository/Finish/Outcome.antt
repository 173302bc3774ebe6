-- ===== src/Repository/Finish/Outcome.antt =====
-- What `finalize_item` and `fail_task` return, and that a call that raises has changed nothing.
use ia_dev_lab.Base.{
  ℕ, ◌-◌, String, Bool, true, false, not, ◌≡◌, ◌==◌, string_equality, refl, sym, subst, ap, ◌∙◌,
  inl, inr, Option, some, List, arith, eq_iff, All-map, All-Elem, find, find-Elem, find_test,
  find-update_key, update, both, key_unique, count_none, Bool-cases, is_none, ok, err, Error,
  Result-cases,
}
use ia_dev_lab.Json.{Fields}
use ia_dev_lab.Models.{is_terminal}
use ia_dev_lab.Repository.Schema.{
  TaskRow, ItemRow, Db, has_id, at_position, is_open, check_task, update_counts,
}
use ia_dev_lab.Repository.Invariant.{TaskInv, Inv}
use ia_dev_lab.Repository.Accept.{dump}
use ia_dev_lab.Repository.Reads.{to_record, task_from_fetched}
use ia_dev_lab.Repository.Finish.{
  leased, finish_item, advance_task, dump_optional, same_presence, finalize_rows, finalize_item,
  abandon_item, abandon_task, fail_rows, fail_task,
}
use ia_dev_lab.Repository.Finish.Written.{advanced_row, finished_tables}
use ia_dev_lab.Repository.Finish.Keeps.{
  Finalized, finalize_rows_ok, finalize_rows-Inv, finalized, leased_id,
}
use ia_dev_lab.Repository.Finish.Abandon.{Abandoned, abandoned, fail_rows_ok, fail_rows-Inv}
use ia_dev_lab.Repository.Lease.{open_item}
use ia_dev_lab.Repository.Steps.Safety.{post_init-to_record}

-- A row of good tables is read without an exception.
fetched_ok :
    (db : Db) (id : String) (t : TaskRow)
    → Inv db
    → find (has_id id) db.tasks ≡ some t
    → task_from_fetched (some t) ≡ ok (to_record t true)
unfolding task_from_fetched
fetched_ok db id t v e =
    post_init-to_record db.items t true
      (All-Elem (TaskInv db.items) db.tasks v.rows (find-Elem (has_id id) db.tasks e))

-- The row of the task after an UPDATE by its id.
updated_row :
    (db : Db) (id worker : String) (f : TaskRow → TaskRow) (task : TaskRow)
    → ((t : TaskRow) → (f t).task_id ≡ t.task_id)
    → Inv db
    → find (leased id worker) db.tasks ≡ some task
    → find (has_id id) (update (has_id id) f db.tasks) ≡ some (f task)
updated_row db id worker f task keeps v e =
    let same = leased_id id worker task (find_test (leased id worker) db.tasks e) in
    find-update_key (has_id id) f db.tasks {r = task}
      (λ t h. subst (λ (k : String). (k == id) ≡ true) (sym (keeps t)) h) (v.task_key id)
      (find-Elem (leased id worker) db.tasks e) ((eq_iff task.task_id id).1 same)

Finalized-fetched :
    (id worker : String) (position : ℕ) (outcome error : Option Fields) (now : ℕ) (db db' : Db)
    (r : Option TaskRow)
    → Inv db
    → (f : Finalized id worker position outcome error now db db' r)
    → task_from_fetched r
      ≡ ok (to_record (advance_task f.task (is_none error) worker now f.task) true)
Finalized-fetched id worker position outcome error now db db' r v f =
    let found =
      subst
        (λ (d : Db).
          find (has_id id) d.tasks ≡ some (advance_task f.task (is_none error) worker now f.task))
        (sym f.after)
        (updated_row db id worker (advance_task f.task (is_none error) worker now) f.task
          (λ t. refl) v f.task_found) in
    ap task_from_fetched (f.fetched ∙ found)
    ∙ fetched_ok db' id _ (finalize_rows-Inv id worker position outcome error now db db' r v f)
        found

Abandoned-fetched :
    (id worker : String) (error : Fields) (now : ℕ) (db db' : Db) (r : Option TaskRow)
    → Inv db
    → (f : Abandoned id worker error now db db' r)
    → task_from_fetched r
      ≡ ok (
          to_record
            (abandon_task error (f.task.accepted_count - f.task.processed_count) now f.task)
            true)
Abandoned-fetched id worker error now db db' r v f =
    let abandon = abandon_task error (f.task.accepted_count - f.task.processed_count) now in
    let found =
      subst (λ (d : Db). find (has_id id) d.tasks ≡ some (abandon f.task)) (sym f.after)
        (updated_row db id worker abandon f.task (λ t. refl) v f.task_found) in
    ap task_from_fetched (f.fetched ∙ found)
    ∙ fetched_ok db' id _ (fail_rows-Inv id worker error now db db' r v f) found

-- On good tables, a `finalize_item` that raises leaves both tables as they were.
pub finalize_item-atomic :
    (id worker : String) (position : ℕ) (outcome error : Option Fields) (now : ℕ) (db : Db)
    (x : Error)
    → Inv db
    → (finalize_item id worker position outcome error now db).0 ≡ err x
    → (finalize_item id worker position outcome error now db).1 ≡ db
unfolding finalize_item
finalize_item-atomic id worker position outcome error now db x v h =
    elim (Bool-cases (same_presence outcome error)) [
      | inl e ↦ rw e
      | inr e ↦ elim (Result-cases (finalize_rows id worker position outcome error now db)) [
        | inl (y, k) ↦ rw (e, k)
        | inr ((r, db'), k) ↦
            let good =
              Finalized-fetched id worker position outcome error now db db' r v
                (finalize_rows_ok id worker position outcome error now db k) in
            absurd (ground (arith, good, rw (e, k) at h))
      ]
    ]

-- On good tables, a `fail_task` that raises leaves both tables as they were.
pub fail_task-atomic :
    (id worker : String) (error : Fields) (now : ℕ) (db : Db) (x : Error)
    → Inv db
    → (fail_task id worker error now db).0 ≡ err x
    → (fail_task id worker error now db).1 ≡ db
unfolding fail_task
fail_task-atomic id worker error now db x v h = elim (Result-cases (dump error)) [
  | inl (y, e) ↦ rw e
  | inr (json, e) ↦ elim (Result-cases (fail_rows id worker json now db)) [
    | inl (y, k) ↦ rw (e, k)
    | inr ((r, db'), k) ↦
        let good =
          Abandoned-fetched id worker json now db db' r v (fail_rows_ok id worker json now db k) in
        absurd (ground (arith, good, rw (e, k) at h))
  ]
]

-- The CHECK constraints hold of the row that `finalize_item` writes.
advanced_check :
    (items : List ItemRow) (success : Bool) (worker : String) (now : ℕ) (t : TaskRow)
    → TaskInv items t
    → is_terminal t.status ≡ false
    → check_task (advance_task t success worker now t) ≡ true
advanced_check items success worker now t h o = ground arith

abandoned_check :
    (items : List ItemRow) (error : Fields) (now : ℕ) (t : TaskRow)
    → TaskInv items t
    → check_task (abandon_task error (t.accepted_count - t.processed_count) now t) ≡ true
abandoned_check items error now t h = ground arith

-- An UPDATE of counts by id is accepted where the new row passes the constraints.
accepted_update :
    (db : Db) (id worker : String) (f : TaskRow → TaskRow) (task : TaskRow) (items : List ItemRow)
    → Inv db
    → find (leased id worker) db.tasks ≡ some task
    → check_task (f task) ≡ true
    → update_counts (has_id id) f (record db { items = items })
      ≡ ok (record { tasks = update (has_id id) f db.tasks; items = items })
unfolding update_counts
accepted_update db id worker f task items v e good =
    let same = leased_id id worker task (find_test (leased id worker) db.tasks e) in
    ground (
      arith,
      count_none (both (has_id id) (λ t. not (check_task (f t)))) db.tasks (
          All-map (λ t. has_id id t ≡ true → t ≡ task) _ db.tasks
            (λ t u. elim (Bool-cases (has_id id t)) [
              | inr no_id ↦ ground arith
              | inl with_id ↦ rw (u with_id, good) (ground arith)
            ])
            (key_unique (has_id id) db.tasks (v.task_key id)
              (find-Elem (leased id worker) db.tasks e) ((eq_iff task.task_id id).1 same))),
    )

-- On good tables, a worker that holds the lease of a running task can finish any open item of it: if
-- exactly one of a serializable outcome and a serializable error is given, the call commits. It writes
-- the item as completed with the outcome or as failed with the error, counts it in the row of the task,
-- which ends and loses its lease with the last item, changes nothing else, and returns the task.
pub finalize_item-total :
    (id worker : String) (position : ℕ) (outcome error outcome_json error_json : Option Fields)
    (now : ℕ) (db : Db) (task : TaskRow) (item : ItemRow)
    → Inv db
    → find (leased id worker) db.tasks ≡ some task
    → is_terminal task.status ≡ false
    → find (at_position id position) db.items ≡ some item
    → is_open item.status ≡ true
    → same_presence outcome error ≡ false
    → dump_optional outcome ≡ ok outcome_json
    → dump_optional error ≡ ok error_json
    → finalize_item id worker position outcome error now db ≡ (
      ok (to_record (advanced_row task (is_none error) worker now task) true),
      finished_tables task id worker position outcome_json error error_json now db,
    )
unfolding finalize_item
finalize_item-total id worker position outcome error outcome_json error_json now db task item v e1
      e2 e3 e4 e5 e6 e7 =
    let m = find-Elem (leased id worker) db.tasks e1 in
    let items =
      update (at_position id position) (finish_item outcome_json error_json now) db.items in
    let checked =
      accepted_update db id worker (advance_task task (is_none error) worker now) task items v e1 (
        advanced_check db.items (is_none error) worker now task
          (All-Elem (TaskInv db.items) db.tasks v.rows m) e2) in
    let after = finalized task id worker position outcome_json error error_json now db in
    let commits : finalize_rows id worker position outcome error now db
        ≡ ok (find (has_id id) after.tasks, after) =
      rw (e1, finalize_rows, e2, e3, e4, e6, e7, checked) in
    let found =
      updated_row db id worker (advance_task task (is_none error) worker now) task (λ t. refl) v
        e1 in
    let good =
      finalize_rows-Inv id worker position outcome error now db after _ v
        (finalize_rows_ok id worker position outcome error now db commits) in
    rw (e5, commits)
      (λ j. ((ap task_from_fetched found ∙ fetched_ok after id _ good found) j, after))

-- Giving a task up commits, under the lease and with a serializable error.
pub fail_task-commits :
    (id worker : String) (error json : Fields) (now : ℕ) (db : Db) (task : TaskRow)
    → Inv db
    → find (leased id worker) db.tasks ≡ some task
    → is_terminal task.status ≡ false
    → dump error ≡ ok json
    → fail_task id worker error now db ≡ (
      ok (to_record (abandon_task json (task.accepted_count - task.processed_count) now task) true),
      abandoned task id json now db,
    )
unfolding fail_task
fail_task-commits id worker error json now db task v e1 e2 e3 =
    let m = find-Elem (leased id worker) db.tasks e1 in
    let items = update (open_item id) (abandon_item json now) db.items in
    let abandon = abandon_task json (task.accepted_count - task.processed_count) now in
    let checked =
      accepted_update db id worker abandon task items v e1
        (abandoned_check db.items json now task (All-Elem (TaskInv db.items) db.tasks v.rows m)) in
    let after = abandoned task id json now db in
    let commits : fail_rows id worker json now db ≡ ok (find (has_id id) after.tasks, after) =
      rw (e1, fail_rows, e2, checked) in
    let found = updated_row db id worker abandon task (λ t. refl) v e1 in
    let good =
      fail_rows-Inv id worker json now db after _ v (fail_rows_ok id worker json now db commits) in
    rw (e3, commits)
      (λ j. ((ap task_from_fetched found ∙ fetched_ok after id _ good found) j, after))
