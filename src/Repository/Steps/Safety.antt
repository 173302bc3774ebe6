-- ===== src/Repository/Steps/Safety.antt =====
-- The invariant after every history, and what it means for the readers.
use ia_dev_lab.Base.{
  inl, inr, count, Bool, false, String, ◌≡◌, none, some, List, [], ◌∷◌, arith, All-Elem, find,
  find-Elem, Option-cases, ok,
}
use ia_dev_lab.Models.{is_terminal}
use ia_dev_lab.Repository.Schema.{TaskRow, ItemRow, Db}
use ia_dev_lab.Repository.Invariant.{TaskInv, Inv}
use ia_dev_lab.Repository.Reads.{to_record, task_from_row, owned_by, status_columns, get_status}
use ia_dev_lab.Repository.Accept.Keeps.{create_task-Inv}
use ia_dev_lab.Repository.Lease.Keeps.{claim_task-Inv, renew_lease-Inv, claim_next_item-Inv}
use ia_dev_lab.Repository.Finish.Keeps.{finalize_item-Inv}
use ia_dev_lab.Repository.Finish.Abandon.{fail_task-Inv}
use ia_dev_lab.Repository.Retention.Keeps.{maintain_retention-Inv}
use ia_dev_lab.Repository.Steps.{
  Call, creates, claims, renews, starts, finalizes, fails, maintains, step, run, initial,
}

pub step-Inv : (db : Db) (c : Call) → Inv db → Inv (step db c)
unfolding step
step-Inv db (creates id owner criteria model items created_at expires_at) v =
    create_task-Inv id owner criteria model items created_at expires_at db v
step-Inv db (claims worker now lease_seconds) v = claim_task-Inv worker now lease_seconds db v
step-Inv db (renews id worker now lease_seconds) v =
    renew_lease-Inv id worker now lease_seconds db v
step-Inv db (starts id worker now) v = claim_next_item-Inv id worker now db v
step-Inv db (finalizes id worker position outcome error now) v =
    finalize_item-Inv id worker position outcome error now db v
step-Inv db (fails id worker error now) v = fail_task-Inv id worker error now db v
step-Inv db (maintains now tombstone) v = maintain_retention-Inv now tombstone db v

pub initial-Inv : Inv initial
unfolding count
initial-Inv = record {
  keys = record {
    task_key = λ id. omega arith;
    item_key = λ id n. omega arith;
    source_key = λ id s. omega arith;
    foreign_key = tt;
  };
  rows = tt;
}

pub run-Inv : (db : Db) (calls : List Call) → Inv db → Inv (run db calls)
unfolding run
run-Inv db [] v = v
run-Inv db (c ∷ cs) v = run-Inv (step db c) cs (step-Inv db c v)

-- After any history of calls from the empty database, in any order, by any workers and at any
-- times, whether the calls returned or raised: task ids, (task, position) pairs and (task, source)
-- pairs are unique and each item belongs to a task; for each task the accepted, successful and
-- failed counters are the numbers of its items, of its completed and of its failed ones, and the
-- processed counter is the sum of the last two; a task in a terminal status has all its items
-- processed, a completion time and no lease, any other task has an item left; a queued task has
-- nothing processed and no lease; of a completed task all items succeeded, of a partially completed
-- one at least one succeeded and at least one failed, and of a failed one at least one failed.
pub run-initial-Inv : (calls : List Call) → Inv (run initial calls)
run-initial-Inv calls = run-Inv initial calls initial-Inv

-- No row of such a database is refused by the checks of `__post_init__`.
pub post_init-to_record :
    (items : List ItemRow) (t : TaskRow) (include_payload : Bool)
    → TaskInv items t
    → task_from_row t include_payload ≡ ok (to_record t include_payload)
unfolding task_from_row is_terminal
post_init-to_record items t include_payload h = ground arith

status_columns-TaskInv :
    (items : List ItemRow) (t : TaskRow) → TaskInv items t → TaskInv items (status_columns t)
status_columns-TaskInv items t h = ground arith

-- Reading the status of a task never raises on tables that satisfy the invariant.
pub get_status-total :
    (id owner : String) (db : Db)
    → Inv db
    → get_status id owner db
      ≡ ok (elim (find (owned_by id owner) db.tasks) [
        | none ↦ none
        | some row ↦ some (to_record (status_columns row) false)
      ])
unfolding get_status
get_status-total id owner db v = elim (Option-cases (find (owned_by id owner) db.tasks)) [
  | inl e ↦ rw (e, get_status)
  | inr (row, e) ↦
      let h =
        All-Elem (TaskInv db.items) db.tasks v.rows (find-Elem (owned_by id owner) db.tasks e) in
      rw (e, get_status)
        (rw (
          post_init-to_record db.items (status_columns row) false
            (status_columns-TaskInv db.items row h)))
]
