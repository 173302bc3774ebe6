-- ===== src/Repository/Finish/Keeps.antt =====
-- Finishing an item and abandoning a task keep the invariant of the tables.
use ia_dev_lab.Base.{
  ℕ, ◌+◌, String, Bool, true, false, ◌≡◌, ◌≢◌, refl, sym, subst, ◌∙◌, inl, inr, Option, none, some,
  List, nat_equality, string_equality, arith, eq_iff, eq_refl, All, All-Elem, Elem, find, find-Elem,
  find_test, update, count, count_keep, count-update_key, Option-cases, is_none, Bool-cases,
  if◌then◌else◌, ok, Result-cases,
}
use ia_dev_lab.Json.{Fields}
use ia_dev_lab.Models.{ItemStatus, is_terminal}
use ia_dev_lab.Repository.Schema.{
  TaskRow, ItemRow, Db, null_eq, has_id, of_task, at_position, is_open, update_counts,
}
use ia_dev_lab.Repository.Invariant.{
  TaskInv, Inv, update_tasks-Keys, update_items-Keys, update_row-rows, TaskInv-recount,
  at_position_self, in_state, is_completed, is_failed,
}
use ia_dev_lab.Repository.Accept.{dump}
use ia_dev_lab.Repository.Finish.{
  leased, dump_optional, same_presence, next_status, one_if, finish_item, advance_task,
  finalize_rows, finalize_item,
}

-- The counts of the finished item's task.
module _ (db : Db) (outcome error : Option Fields) (now : ℕ) (item : ItemRow) (v : Inv db)
    (m : Elem item db.items) (o : is_open item.status ≡ true) where
  abbrev finished_items : List ItemRow
  finished_items =
      update (at_position item.task_id item.position) (finish_item outcome error now) db.items

  finished_count_self :
      (id : String) (test : ItemStatus → Bool)
      → id ≡ item.task_id
      → test item.status ≡ false
      → count (in_state id test) finished_items
        ≡ count (in_state id test) db.items
          + one_if (test (if is_none error then ItemStatus.completed else ItemStatus.failed))
  finished_count_self id test e h = rw e (
      ground (
        arith,
        eq_refl item.task_id,
        count-update_key (in_state item.task_id test) (at_position item.task_id item.position)
            (finish_item outcome error now) db.items (v.item_key item.task_id item.position) m
            (at_position_self item),
      ))

  finished_count_other :
      (id : String) (test : ItemStatus → Bool)
      → id ≢ item.task_id
      → count (in_state id test) finished_items ≡ count (in_state id test) db.items
  finished_count_other id test h =
      count_keep (in_state id test) (at_position item.task_id item.position)
        (finish_item outcome error now) db.items
        (λ i q. ground (arith, eq_iff i.task_id id, eq_iff i.task_id item.task_id))

  finished-TaskInv_other :
      (t : TaskRow) → t.task_id ≢ item.task_id → TaskInv db.items t → TaskInv finished_items t
  finished-TaskInv_other t ne h =
      TaskInv-recount db.items finished_items t
        (count_keep (of_task t.task_id) (at_position item.task_id item.position)
          (finish_item outcome error now) db.items (λ i _. refl))
        (finished_count_other t.task_id is_completed ne)
        (finished_count_other t.task_id is_failed ne) h

  advanced-TaskInv :
      (task : TaskRow) (worker : String)
      → task.task_id ≡ item.task_id
      → is_terminal task.status ≡ false
      → null_eq task.lease_owner worker ≡ true
      → TaskInv db.items task
      → TaskInv finished_items (advance_task task (is_none error) worker now task)
  unfolding is_terminal next_status
  advanced-TaskInv task worker same open_task held h = ground (
    arith,
    count_keep (of_task task.task_id) (at_position item.task_id item.position)
        (finish_item outcome error now) db.items (λ i _. refl),
    finished_count_self task.task_id is_completed same (ground arith),
    finished_count_self task.task_id is_failed same (ground arith),
  )

pub update_counts_ok :
    (q : TaskRow → Bool) (f : TaskRow → TaskRow) (db : Db) {db' : Db}
    → update_counts q f db ≡ ok db'
    → db' ≡ record db { tasks = update q f db.tasks }
unfolding update_counts
update_counts_ok q f db h = ground arith

-- The tables after a finished item.
abbrev pub finalized :
    TaskRow → String → String → ℕ → Option Fields → Option Fields → Option Fields → ℕ → Db → Db
finalized task id worker position outcome error error_json now db = record {
  tasks = update (has_id id) (advance_task task (is_none error) worker now) db.tasks;
  items = update (at_position id position) (finish_item outcome error_json now) db.items;
}

-- What must hold for `finalize_rows` to come to its commit, and what it has done then.
pub record Finalized (id worker : String) (position : ℕ) (outcome error : Option Fields) (now : ℕ)
    (db db' : Db) (r : Option TaskRow) : Type 0 where
  pub task : TaskRow
  pub item : ItemRow
  pub outcome_json : Option Fields
  pub error_json : Option Fields
  pub task_found : find (leased id worker) db.tasks ≡ some task
  pub task_open : is_terminal task.status ≡ false
  pub item_found : find (at_position id position) db.items ≡ some item
  pub item_open : is_open item.status ≡ true
  pub outcome_dumped : dump_optional outcome ≡ ok outcome_json
  pub error_dumped : dump_optional error ≡ ok error_json
  pub after : db' ≡ finalized task id worker position outcome_json error error_json now db
  pub fetched : r ≡ find (has_id id) db'.tasks

pub finalize_rows_ok :
    (id worker : String) (position : ℕ) (outcome error : Option Fields) (now : ℕ) (db : Db)
    {db' : Db} {r : Option TaskRow}
    → finalize_rows id worker position outcome error now db ≡ ok (r, db')
    → Finalized id worker position outcome error now db db' r
unfolding finalize_rows
finalize_rows_ok id worker position outcome error now db {db'} {r} h =
    elim (Option-cases (find (leased id worker) db.tasks)) [
      | inl e ↦ absurd (ground arith)
      | inr (task, e1) ↦ elim (Bool-cases (is_terminal task.status)) [
        | inl e ↦ absurd (ground arith)
        | inr e2 ↦ elim (Option-cases (find (at_position id position) db.items)) [
          | inl e ↦ absurd (ground arith)
          | inr (item, e3) ↦ elim (Bool-cases (is_open item.status)) [
            | inr e ↦ absurd (ground arith)
            | inl e4 ↦ elim (Result-cases (dump_optional outcome)) [
              | inl (x, e) ↦ absurd (ground arith)
              | inr (o, e5) ↦ elim (Result-cases (dump_optional error)) [
                | inl (x, e) ↦ absurd (ground arith)
                | inr (w, e6) ↦ committed task item o w e1 e2 e3 e4 e5 e6
              ]
            ]
          ]
        ]
      ]
    ]
  where
    committed :
        (task : TaskRow) (item : ItemRow) (o w : Option Fields)
        → find (leased id worker) db.tasks ≡ some task
        → is_terminal task.status ≡ false
        → find (at_position id position) db.items ≡ some item
        → is_open item.status ≡ true
        → dump_optional outcome ≡ ok o
        → dump_optional error ≡ ok w
        → Finalized id worker position outcome error now db db' r
    committed task item o w e1 e2 e3 e4 e5 e6 =
        let advance = advance_task task (is_none error) worker now in
        let items = update (at_position id position) (finish_item o w now) db.items in
        elim (Result-cases (update_counts (has_id id) advance (record db { items = items }))) [
          | inl (x, e) ↦ absurd (ground arith)
          | inr (d, e) ↦ record {
            task = task;
            item = item;
            outcome_json = o;
            error_json = w;
            task_found = e1;
            task_open = e2;
            item_found = e3;
            item_open = e4;
            outcome_dumped = e5;
            error_dumped = e6;
            after =
                ground
                  (arith, update_counts_ok (has_id id) advance (record db { items = items }) e);
            fetched = ground arith;
          }
        ]

dump_optional_presence :
    (payload : Option Fields) {json : Option Fields}
    → dump_optional payload ≡ ok json
    → is_none json ≡ is_none payload
dump_optional_presence none h = ground arith
dump_optional_presence (some payload) {json} h = elim (Result-cases (dump payload)) [
  | inl (x, e) ↦ absurd (ground arith)
  | inr (w, e) ↦ ground arith
]

pub leased_id : (id worker : String) (t : TaskRow) → leased id worker t ≡ true → t.task_id ≡ id
leased_id id worker t h = (eq_iff t.task_id id).0 (ground arith)

pub position_id : (id : String) (n : ℕ) (i : ItemRow) → at_position id n i ≡ true → i.task_id ≡ id
position_id id n i h = (eq_iff i.task_id id).0 (ground arith)

pub position_number :
    (id : String) (n : ℕ) (i : ItemRow) → at_position id n i ≡ true → i.position ≡ n
position_number id n i h = ground arith

-- A finished item leaves the invariant in place.
finalized-Inv :
    (worker : String) (outcome error error_json : Option Fields) (now : ℕ) (db : Db)
    (task : TaskRow) (item : ItemRow)
    → Inv db
    → Elem task db.tasks
    → Elem item db.items
    → task.task_id ≡ item.task_id
    → is_terminal task.status ≡ false
    → is_open item.status ≡ true
    → null_eq task.lease_owner worker ≡ true
    → is_none error_json ≡ is_none error
    → Inv (finalized task item.task_id worker item.position outcome error error_json now db)
finalized-Inv worker outcome error error_json now db task item v mt mi same open_task open_item held
      p =
    record {
      keys =
          update_tasks-Keys (has_id item.task_id) advance (record db { items = items }) (λ t. refl)
            (update_items-Keys (at_position item.task_id item.position)
              (finish_item outcome error_json now) db
              (record { same_task = λ i. refl; same_position = λ i. refl; same_source = λ i. refl })
              v.keys);
      rows =
          subst (λ (id : String). All (TaskInv items) (update (has_id id) advance db.tasks)) same
            (update_row-rows advance items db task v mt
              (rw (← p) (
                advanced-TaskInv db outcome error_json now item v mi open_item task worker same
                  open_task held (All-Elem (TaskInv db.items) db.tasks v.rows mt)))
              (λ t ne h.
                finished-TaskInv_other db outcome error_json now item v mi open_item t
                  (λ e. ne (e ∙ sym same)) h));
    }
  where
    advance : TaskRow → TaskRow
    advance = advance_task task (is_none error) worker now

    items : List ItemRow
    items =
        update (at_position item.task_id item.position) (finish_item outcome error_json now)
          db.items

pub finalize_rows-Inv :
    (id worker : String) (position : ℕ) (outcome error : Option Fields) (now : ℕ) (db db' : Db)
    (r : Option TaskRow)
    → Inv db
    → Finalized id worker position outcome error now db db' r
    → Inv db'
finalize_rows-Inv id worker position outcome error now db db' r v f =
    let t = find_test (leased id worker) db.tasks f.task_found in
    let i = find_test (at_position id position) db.items f.item_found in
    let here = position_id id position f.item i in
    let there = position_number id position f.item i in
    let done =
      finalized-Inv worker f.outcome_json error f.error_json now db f.task f.item v
        (find-Elem (leased id worker) db.tasks f.task_found)
        (find-Elem (at_position id position) db.items f.item_found)
        (leased_id id worker f.task t ∙ sym here) f.task_open f.item_open (ground arith)
        (dump_optional_presence error f.error_dumped) in
    subst Inv (sym f.after) (rw (here, there) at done)

pub finalize_item-Inv :
    (id worker : String) (position : ℕ) (outcome error : Option Fields) (now : ℕ) (db : Db)
    → Inv db
    → Inv (finalize_item id worker position outcome error now db).1
unfolding finalize_item
finalize_item-Inv id worker position outcome error now db v =
    elim (Bool-cases (same_presence outcome error)) [
      | inl e ↦ rw e v
      | inr e ↦ elim (Result-cases (finalize_rows id worker position outcome error now db)) [
        | inl (x, h) ↦ rw (e, h) v
        | inr ((r, db'), h) ↦
            rw (e, h)
              (finalize_rows-Inv id worker position outcome error now db db' r v
                (finalize_rows_ok id worker position outcome error now db h))
      ]
    ]
