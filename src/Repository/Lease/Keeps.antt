-- ===== src/Repository/Lease/Keeps.antt =====
-- The lease operations keep the invariant of the tables.
use ia_dev_lab.Base.{
  ℕ, ◌+◌, String, Bool, true, false, ◌≡◌, refl, inl, inr, some, List, [], ◌∷◌, nat_equality,
  string_equality, arith, eq_iff, All-map, All-update, All-Elem, Elem, here, there, find, select,
  update, count, count_keep, count_keep_rows, key_unique, select-Elem, Option-cases, is_none,
  Bool-cases,
}
use ia_dev_lab.Models.{ItemStatus, is_terminal}
use ia_dev_lab.Repository.Schema.{TaskRow, ItemRow, Db, of_task, at_position, is_open}
use ia_dev_lab.Repository.Invariant.{
  TaskInv, Inv, update_tasks-Keys, update_items-Keys, update_row-Inv, TaskInv-recount,
  at_position_self, in_state, is_completed, is_failed,
}
use ia_dev_lab.Repository.Lease.{
  first_by, claimable, older, lease_to, claim_row, claim_task, renewable, renew_lease, open_item,
  start_item, earlier, start_next, working, claim_next_item,
}

pub first_by-Elem {ℓ} :
    {A : Type ℓ} (before : A → A → Bool) (xs : List A) {r : A}
    → first_by before xs ≡ some r
    → Elem r xs
unfolding first_by
first_by-Elem before [] h = cc
first_by-Elem before (x ∷ xs) {r} h = elim (Option-cases (first_by before xs)) [
  | inl e ↦ here (ground arith)
  | inr (y, e) ↦ elim (Bool-cases (before y x)) [
    | inl b ↦ there (first_by-Elem before xs (ground arith))
    | inr b ↦ here (ground arith)
  ]
]

pub claimed-TaskInv :
    (items : List ItemRow) (worker : String) (expiry now : ℕ) (t : TaskRow)
    → claimable now t ≡ true
    → TaskInv items t
    → TaskInv items (lease_to worker expiry now t)
unfolding is_terminal
claimed-TaskInv items worker expiry now t r v = ground arith

pub claim_task-Inv :
    (worker : String) (now lease_seconds : ℕ) (db : Db)
    → Inv db
    → Inv (claim_task worker now lease_seconds db).1
unfolding claim_task
claim_task-Inv worker now lease_seconds db v =
    elim (Option-cases (first_by older (select (claimable now) db.tasks))) [
      | inl e ↦ rw (e, claim_row) v
      | inr (row, e) ↦
          let (m, c) = select-Elem (claimable now) db.tasks (first_by-Elem older _ e) in
          rw (e, claim_row)
            (update_row-Inv (lease_to worker (now + lease_seconds) now) db row (λ t. refl) v m
              (claimed-TaskInv db.items worker (now + lease_seconds) now row c
                (All-Elem (TaskInv db.items) db.tasks v.rows m)))
    ]

renewed-TaskInv :
    (items : List ItemRow) (id worker : String) (expiry now : ℕ) (t : TaskRow)
    → renewable id worker t ≡ true
    → TaskInv items t
    → TaskInv items (record t { lease_expires_at = some expiry; updated_at = now })
renewed-TaskInv items id worker expiry now t r v = ground arith

pub renew_lease-Inv :
    (id worker : String) (now lease_seconds : ℕ) (db : Db)
    → Inv db
    → Inv (renew_lease id worker now lease_seconds db).1
unfolding renew_lease
renew_lease-Inv id worker now lease_seconds db v = record {
  keys = update_tasks-Keys (renewable id worker) _ db (λ t. refl) v.keys;
  rows =
      All-update (TaskInv db.items) (TaskInv db.items) (renewable id worker) _ db.tasks
        (λ t r h. renewed-TaskInv db.items id worker (now + lease_seconds) now t r h) (λ t _ h. h)
        v.rows;
}

-- Starting an open item changes no count of finished items.
started_count :
    (db : Db) (now : ℕ) (row : ItemRow) (id : String) (test : ItemStatus → Bool)
    → Inv db
    → Elem row db.items
    → test row.status ≡ false
    → test ItemStatus.processing ≡ false
    → count
        (in_state id test)
        (update (at_position row.task_id row.position) (start_item now) db.items)
      ≡ count (in_state id test) db.items
started_count db now row id test v m o p =
    count_keep_rows (in_state id test) (at_position row.task_id row.position) (start_item now)
      db.items
      (All-map (λ i. at_position row.task_id row.position i ≡ true → i ≡ row) _ db.items
        (λ i u e. rw (u e, p, o))
        (key_unique (at_position row.task_id row.position) db.items
          (v.item_key row.task_id row.position) m (at_position_self row)))

open_not_completed : (s : ItemStatus) → is_open s ≡ true → is_completed s ≡ false
open_not_completed s h = ground arith

open_not_failed : (s : ItemStatus) → is_open s ≡ true → is_failed s ≡ false
open_not_failed s h = ground arith

start_next-Inv : (id : String) (now : ℕ) (db : Db) → Inv db → Inv (start_next id now db).1
unfolding start_next
start_next-Inv id now db v =
    elim (Option-cases (first_by earlier (select (open_item id) db.items))) [
      | inl e ↦ rw (e, start_next) v
      | inr (row, e) ↦
          let (m, o) = select-Elem (open_item id) db.items (first_by-Elem earlier _ e) in
          let is : row.task_id ≡ id = (eq_iff row.task_id id).0 (ground arith) in
          let open_row : is_open row.status ≡ true = ground arith in
          rw (e, start_next, ← is)
            (record {
              keys =
                  update_items-Keys (at_position row.task_id row.position) (start_item now) db
                    (record {
                      same_task = λ i. refl;
                      same_position = λ i. refl;
                      same_source = λ i. refl;
                    })
                    v.keys;
              rows =
                  All-map (TaskInv db.items) _ db.tasks
                    (λ t h.
                      TaskInv-recount db.items _ t
                        (count_keep (of_task t.task_id) (at_position row.task_id row.position)
                          (start_item now) db.items (λ i _. refl))
                        (started_count db now row t.task_id is_completed v m
                          (open_not_completed row.status open_row) refl)
                        (started_count db now row t.task_id is_failed v m
                          (open_not_failed row.status open_row) refl)
                        h)
                    v.rows;
            })
    ]

pub claim_next_item-Inv :
    (id worker : String) (now : ℕ) (db : Db) → Inv db → Inv (claim_next_item id worker now db).1
unfolding claim_next_item
claim_next_item-Inv id worker now db v =
    elim (Bool-cases (is_none (find (working id worker now) db.tasks))) [
      | inl e ↦ rw e v
      | inr e ↦ rw e (start_next-Inv id now db v)
    ]
