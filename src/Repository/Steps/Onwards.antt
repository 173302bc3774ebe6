-- ===== src/Repository/Steps/Onwards.antt =====
-- Every call but maintenance moves every task onwards.
use ia_dev_lab.Base.{
  ℕ, ◌+◌, String, Bool, true, false, ◌≡◌, sym, subst, inl, inr, Option, some, List, [], ◌∷◌, arith,
  is_none, All-Elem, Elem, Elem-update, Elem-append, find, find-Elem, find_test, key_unique, select,
  update, select-Elem, Option-cases, Bool-cases, Result-cases, eq_refl,
}
use ia_dev_lab.Json.{Fields}
use ia_dev_lab.Models.{is_terminal}
use ia_dev_lab.Repository.Schema.{TaskRow, ItemRow, Db, has_id}
use ia_dev_lab.Repository.Invariant.{TaskInv, Inv}
use ia_dev_lab.Repository.Accept.{insert_batch, create_task, dump}
use ia_dev_lab.Repository.Accept.Keeps.{insert_batch_ok}
use ia_dev_lab.Repository.Lease.{
  first_by, claimable, older, lease_to, claim_row, claim_task, renewable, renew_lease, start_next,
  claim_next_item, working,
}
use ia_dev_lab.Repository.Lease.Keeps.{first_by-Elem}
use ia_dev_lab.Repository.Finish.{
  leased, next_status, advance_task, finalize_rows, finalize_item, same_presence, abandon_task,
  fail_rows, fail_task,
}
use ia_dev_lab.Repository.Finish.Keeps.{Finalized, finalize_rows_ok, leased_id}
use ia_dev_lab.Repository.Finish.Abandon.{Abandoned, fail_rows_ok}
use ia_dev_lab.Repository.Retention.{expired, wipe_task}
use ia_dev_lab.Repository.Steps.Evolves.{Evolves, Evolves-refl}

-- The row that a task has become.
pub record Onwards (t : TaskRow) (tasks : List TaskRow) : Type 0 where
  pub row : TaskRow
  pub there : Elem row tasks
  pub evolved : Evolves t row

pub stays : (t : TaskRow) (tasks : List TaskRow) → Elem t tasks → Onwards t tasks
stays t tasks m = record { row = t; there = m; evolved = Evolves-refl t }

-- An UPDATE that moves the rows of its test onwards.
pub update-Onwards :
    (q : TaskRow → Bool) (f : TaskRow → TaskRow) (tasks : List TaskRow) (t : TaskRow)
    → Elem t tasks
    → (q t ≡ true → Evolves t (f t))
    → Onwards t (update q f tasks)
update-Onwards q f tasks t m h = elim (Bool-cases (q t)) [
  | inl e ↦ record {
    row = f t;
    there =
        subst (λ (r : TaskRow). Elem r (update q f tasks)) (ground arith) (Elem-update q f tasks m);
    evolved = h e;
  }
  | inr e ↦ record {
    row = t;
    there =
        subst (λ (r : TaskRow). Elem r (update q f tasks)) (ground arith) (Elem-update q f tasks m);
    evolved = Evolves-refl t;
  }
]

-- The row with the key of another row is that row.
pub same_row :
    (db : Db) (row t : TaskRow)
    → Inv db
    → Elem row db.tasks
    → Elem t db.tasks
    → has_id row.task_id t ≡ true
    → t ≡ row
same_row db row t v mr mt e =
    All-Elem (λ s. has_id row.task_id s ≡ true → s ≡ row) db.tasks
      (key_unique (has_id row.task_id) db.tasks (v.task_key row.task_id) mr (eq_refl row.task_id))
      mt e

lease_to-Evolves :
    (worker : String) (expiry now : ℕ) (t : TaskRow)
    → claimable now t ≡ true
    → Evolves t (lease_to worker expiry now t)
unfolding is_terminal
lease_to-Evolves worker expiry now t c = ground arith

renewed-Evolves :
    (expiry now : ℕ) (t : TaskRow)
    → Evolves t (record t { lease_expires_at = some expiry; updated_at = now })
renewed-Evolves expiry now t = ground arith

advance_task-Evolves :
    (success : Bool) (worker : String) (now : ℕ) (t : TaskRow)
    → is_terminal t.status ≡ false
    → Evolves t (advance_task t success worker now t)
unfolding is_terminal next_status
advance_task-Evolves success worker now t o = ground arith

abandon_task-Evolves :
    (items : List ItemRow) (error : Fields) (remaining now : ℕ) (t : TaskRow)
    → TaskInv items t
    → is_terminal t.status ≡ false
    → Evolves t (abandon_task error remaining now t)
unfolding is_terminal
abandon_task-Evolves items error remaining now t h o = ground arith

pub wipe_task-Evolves : (now : ℕ) (t : TaskRow) → expired now t ≡ true → Evolves t (wipe_task now t)
wipe_task-Evolves now t e = ground arith

pub claim_task-Onwards :
    (worker : String) (now lease_seconds : ℕ) (db : Db) (t : TaskRow)
    → Inv db
    → Elem t db.tasks
    → Onwards t (claim_task worker now lease_seconds db).1.tasks
unfolding claim_task
claim_task-Onwards worker now lease_seconds db t v m =
    elim (Option-cases (first_by older (select (claimable now) db.tasks))) [
      | inl e ↦ rw (e, claim_row) (stays t db.tasks m)
      | inr (row, e) ↦
          let (mr, c) = select-Elem (claimable now) db.tasks (first_by-Elem older _ e) in
          rw (e, claim_row)
            (update-Onwards (has_id row.task_id) _ db.tasks t m (λ same.
              lease_to-Evolves worker _ now t (
                subst (λ (r : TaskRow). claimable now r ≡ true)
                  (sym (same_row db row t v mr m same)) c)))
    ]

pub renew_lease-Onwards :
    (id worker : String) (now lease_seconds : ℕ) (db : Db) (t : TaskRow)
    → Elem t db.tasks
    → Onwards t (renew_lease id worker now lease_seconds db).1.tasks
unfolding renew_lease
renew_lease-Onwards id worker now lease_seconds db t m =
    update-Onwards (renewable id worker) _ db.tasks t m
      (λ e. renewed-Evolves (now + lease_seconds) now t)

-- A row with the id of a row that the worker holds.
leased_row :
    (db : Db) (id worker : String) (row t : TaskRow)
    → Inv db
    → find (leased id worker) db.tasks ≡ some row
    → Elem t db.tasks
    → has_id id t ≡ true
    → t ≡ row
leased_row db id worker row t v e m same =
    same_row db row t v (find-Elem (leased id worker) db.tasks e) m (
      subst (λ (k : String). has_id k t ≡ true)
        (sym (leased_id id worker row (find_test (leased id worker) db.tasks e))) same)

Finalized-Onwards :
    (id worker : String) (position : ℕ) (outcome error : Option Fields) (now : ℕ) (db db' : Db)
    (r : Option TaskRow) (t : TaskRow)
    → Inv db
    → Elem t db.tasks
    → Finalized id worker position outcome error now db db' r
    → Onwards t db'.tasks
Finalized-Onwards id worker position outcome error now db db' r t v m f =
    subst (λ (d : Db). Onwards t d.tasks) (sym f.after)
      (update-Onwards (has_id id) _ db.tasks t m (λ same.
        let this = leased_row db id worker f.task t v f.task_found m same in
        subst (λ (x : TaskRow). Evolves x (advance_task f.task (is_none error) worker now x))
          (sym this) (advance_task-Evolves (is_none error) worker now f.task f.task_open)))

Abandoned-Onwards :
    (id worker : String) (error : Fields) (now : ℕ) (db db' : Db) (r : Option TaskRow) (t : TaskRow)
    → Inv db
    → Elem t db.tasks
    → Abandoned id worker error now db db' r
    → Onwards t db'.tasks
Abandoned-Onwards id worker error now db db' r t v m f =
    subst (λ (d : Db). Onwards t d.tasks) (sym f.after)
      (update-Onwards (has_id id) _ db.tasks t m (λ same.
        let this = leased_row db id worker f.task t v f.task_found m same in
        abandon_task-Evolves db.items error _ now t (All-Elem (TaskInv db.items) db.tasks v.rows m)
          (subst (λ (x : TaskRow). is_terminal x.status ≡ false) (sym this) f.task_open)))

pub create_task-Onwards :
    (id owner : String) (criteria model : Fields) (batch : List (String × String))
    (created_at expires_at : ℕ) (db : Db) (t : TaskRow)
    → Inv db
    → Elem t db.tasks
    → Onwards t (create_task id owner criteria model batch created_at expires_at db).1.tasks
unfolding create_task
create_task-Onwards id owner criteria model [] created_at expires_at db t v m = stays t db.tasks m
create_task-Onwards id owner criteria model (i ∷ batch) created_at expires_at db t v m =
    elim (Result-cases
      (insert_batch id owner criteria model (i ∷ batch) created_at expires_at db)) [
        | inl (x, e) ↦ rw e (stays t db.tasks m)
        | inr ((tt, d), e) ↦
            let f =
              insert_batch_ok id owner criteria model (i ∷ batch) created_at expires_at db e
                v.keys in
            rw e (
              stays t d.tasks
                (subst (λ (x : Db). Elem t x.tasks) (sym f.after) (Elem-append db.tasks _ m)))
      ]

pub finalize_item-Onwards :
    (id worker : String) (position : ℕ) (outcome error : Option Fields) (now : ℕ) (db : Db)
    (t : TaskRow)
    → Inv db
    → Elem t db.tasks
    → Onwards t (finalize_item id worker position outcome error now db).1.tasks
unfolding finalize_item
finalize_item-Onwards id worker position outcome error now db t v m =
    elim (Bool-cases (same_presence outcome error)) [
      | inl e ↦ rw e (stays t db.tasks m)
      | inr e ↦ elim (Result-cases (finalize_rows id worker position outcome error now db)) [
        | inl (x, h) ↦ rw (e, h) (stays t db.tasks m)
        | inr ((r, db'), h) ↦
            rw (e, h)
              (Finalized-Onwards id worker position outcome error now db db' r t v m
                (finalize_rows_ok id worker position outcome error now db h))
      ]
    ]

pub fail_task-Onwards :
    (id worker : String) (error : Fields) (now : ℕ) (db : Db) (t : TaskRow)
    → Inv db
    → Elem t db.tasks
    → Onwards t (fail_task id worker error now db).1.tasks
unfolding fail_task
fail_task-Onwards id worker error now db t v m = elim (Result-cases (dump error)) [
  | inl (x, e) ↦ rw e (stays t db.tasks m)
  | inr (json, e) ↦ elim (Result-cases (fail_rows id worker json now db)) [
    | inl (x, h) ↦ rw (e, h) (stays t db.tasks m)
    | inr ((r, db'), h) ↦
        rw (e, h)
          (Abandoned-Onwards id worker json now db db' r t v m
            (fail_rows_ok id worker json now db h))
  ]
]

start_next-tasks : (id : String) (now : ℕ) (db : Db) → (start_next id now db).1.tasks ≡ db.tasks
unfolding start_next
start_next-tasks id now db = ground arith

pub claim_next_item-Onwards :
    (id worker : String) (now : ℕ) (db : Db) (t : TaskRow)
    → Elem t db.tasks
    → Onwards t (claim_next_item id worker now db).1.tasks
unfolding claim_next_item
claim_next_item-Onwards id worker now db t m =
    elim (Bool-cases (is_none (find (working id worker now) db.tasks))) [
      | inl e ↦ rw e (stays t db.tasks m)
      | inr e ↦ rw (e, start_next-tasks id now db) (stays t db.tasks m)
    ]
