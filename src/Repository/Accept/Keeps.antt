-- ===== src/Repository/Accept/Keeps.antt =====
-- Accepting a batch keeps the invariant of the tables.
use ia_dev_lab.Base.{
  ℕ, suc, ◌<◌, String, Bool, false, ◌≡◌, ◌≢◌, refl, sym, subst, inl, inr, List, [], ◌∷◌, ◌++◌,
  nat_equality, string_equality, arith, eq_iff, eq_refl, length, All, All-map, each_row, All-zip,
  count_mono, All-append, Elem, count, count_pos, count_none, count-append, Bool-cases, ok,
  Result-cases,
}
use ia_dev_lab.Json.{Fields}
use ia_dev_lab.Models.{ItemStatus, is_terminal}
use ia_dev_lab.Repository.Schema.{TaskRow, ItemRow, Db, has_id, of_task, insert_task}
use ia_dev_lab.Repository.Invariant.{
  TaskInv, Keys, Inv, TaskInv-recount, in_state, is_completed, is_failed,
}
use ia_dev_lab.Repository.Accept.{dump, new_task, insert_items, insert_batch, create_task}
use ia_dev_lab.Repository.Accept.Keys.{batch_rows, insert_items-Keys, insert_task-Keys}

-- The counts that the new rows bring.
batch_count_self :
    (id : String) (n : ℕ) (batch : List (String × String))
    → count (of_task id) (batch_rows id n batch) ≡ length batch
unfolding count
batch_count_self id n [] = refl
batch_count_self id n ((source_id, text) ∷ batch) =
    ground (arith, eq_refl id, batch_count_self id (suc n) batch)

batch_count_other :
    (id k : String) (n : ℕ) (batch : List (String × String))
    → k ≢ id
    → count (of_task k) (batch_rows id n batch) ≡ 0
unfolding count
batch_count_other id k n [] ne = refl
batch_count_other id k n ((source_id, text) ∷ batch) ne =
    ground (arith, eq_iff id k, batch_count_other id k (suc n) batch ne)

batch_count_state :
    (id k : String) (test : ItemStatus → Bool) (n : ℕ) (batch : List (String × String))
    → test ItemStatus.queued ≡ false
    → count (in_state k test) (batch_rows id n batch) ≡ 0
unfolding count
batch_count_state id k test n [] h = refl
batch_count_state id k test n ((source_id, text) ∷ batch) h =
    ground (arith, batch_count_state id k test (suc n) batch h)

-- A task that is not there has no items.
pub absent_count :
    (id : String) (db : Db)
    → Keys db
    → count (has_id id) db.tasks ≡ 0
    → count (of_task id) db.items ≡ 0
absent_count id db v none_there = count_none (of_task id) db.items (
    All-map (λ i. 0 < count (has_id i.task_id) db.tasks) (λ i. of_task id i ≡ false) db.items
      (λ i p. elim (Bool-cases (of_task id i)) [
        | inr e ↦ e
        | inl e ↦
            let same : i.task_id ≡ id = (eq_iff i.task_id id).0 e in
            absurd (
              omega
                (arith, none_there, subst (λ (k : String). 0 < count (has_id k) db.tasks) same p))
      ])
      v.foreign_key)

module _ (id : String) (batch : List (String × String)) (db : Db) (v : Inv db)
    (free : count (has_id id) db.tasks ≡ 0) where
  abbrev new_items : List ItemRow
  new_items = db.items ++ batch_rows id 0 batch

  old-TaskInv :
      (t : TaskRow)
      → (0 < count (has_id t.task_id) db.tasks)
      → TaskInv db.items t
      → TaskInv new_items t
  old-TaskInv t there h =
      let ne : t.task_id ≢ id =
        λ e. omega (arith, free, subst (λ (k : String). 0 < count (has_id k) db.tasks) e there) in
      TaskInv-recount db.items new_items t
        (omega (
          arith,
          count-append (of_task t.task_id) db.items (batch_rows id 0 batch),
          batch_count_other id t.task_id 0 batch ne,
        ))
        (omega (
          arith,
          count-append (in_state t.task_id is_completed) db.items (batch_rows id 0 batch),
          batch_count_state id t.task_id is_completed 0 batch refl,
        ))
        (omega (
          arith,
          count-append (in_state t.task_id is_failed) db.items (batch_rows id 0 batch),
          batch_count_state id t.task_id is_failed 0 batch refl,
        ))
        h

  new-TaskInv :
      (owner : String) (criteria model : Fields) (created_at expires_at : ℕ)
      → 0 < length batch
      → TaskInv new_items (new_task id owner criteria model batch created_at expires_at)
  unfolding is_terminal
  new-TaskInv owner criteria model created_at expires_at some_items =
      let nothing = absent_count id db v.keys free in
      ground (
        arith,
        nothing,
        count_mono (in_state id is_completed) (of_task id) db.items (λ i p. ground arith),
        count_mono (in_state id is_failed) (of_task id) db.items (λ i p. ground arith),
        count-append (of_task id) db.items (batch_rows id 0 batch),
        count-append (in_state id is_completed) db.items (batch_rows id 0 batch),
        count-append (in_state id is_failed) db.items (batch_rows id 0 batch),
        batch_count_self id 0 batch,
        batch_count_state id id is_completed 0 batch refl,
        batch_count_state id id is_failed 0 batch refl,
      )

-- What an accepted batch adds to the tables.
pub record Inserted (id owner : String) (criteria model : Fields) (batch : List (String × String))
    (created_at expires_at : ℕ) (db db' : Db) : Type 0 where
  pub criteria_json : Fields
  pub model_json : Fields
  pub criteria_dumped : dump criteria ≡ ok criteria_json
  pub model_dumped : dump model ≡ ok model_json
  pub free : count (has_id id) db.tasks ≡ 0
  pub after : db' ≡ record {
    tasks = db.tasks ++ new_task id owner criteria_json model_json batch created_at expires_at ∷ [];
    items = db.items ++ batch_rows id 0 batch;
  }
  pub kept : Keys db'

pub insert_batch_ok :
    (id owner : String) (criteria model : Fields) (batch : List (String × String))
    (created_at expires_at : ℕ) (db : Db) {db' : Db}
    → insert_batch id owner criteria model batch created_at expires_at db ≡ ok (tt, db')
    → Keys db
    → Inserted id owner criteria model batch created_at expires_at db db'
unfolding insert_batch
insert_batch_ok id owner criteria model batch created_at expires_at db {db'} h v =
    elim (Result-cases (dump criteria)) [
      | inl (x, e) ↦ absurd (ground arith)
      | inr (c, e1) ↦ elim (Result-cases (dump model)) [
        | inl (x, e) ↦ absurd (ground arith)
        | inr (m, e2) ↦
            let t = new_task id owner c m batch created_at expires_at in
            elim (Result-cases (insert_task t db)) [
              | inl (x, e) ↦ absurd (ground arith)
              | inr (d, e3) ↦ elim (Result-cases (insert_items id 0 batch d)) [
                | inl (x, e) ↦ absurd (ground arith)
                | inr (d', e4) ↦
                    let (p, free, k) = insert_task-Keys t db e3 v in
                    let (q, k') = insert_items-Keys id 0 batch d e4 k in
                    record {
                      criteria_json = c;
                      model_json = m;
                      criteria_dumped = e1;
                      model_dumped = e2;
                      free = free;
                      after = ground arith;
                      kept = subst Keys {x = d'} {y = db'} (ground arith) k';
                    }
              ]
            ]
      ]
    ]

pub insert_batch-Inv :
    (id owner : String) (criteria model : Fields) (batch : List (String × String))
    (created_at expires_at : ℕ) (db db' : Db)
    → 0 < length batch
    → Inv db
    → Inserted id owner criteria model batch created_at expires_at db db'
    → Inv db'
insert_batch-Inv id owner criteria model batch created_at expires_at db db' some_items v f =
    record {
      keys = f.kept;
      rows =
          subst (λ (d : Db). All (TaskInv d.items) d.tasks) (sym f.after)
            (All-append (TaskInv (new_items id batch db v f.free)) db.tasks _
              (All-map (λ t. Elem t db.tasks × TaskInv db.items t) _ db.tasks
                (λ t p.
                  old-TaskInv id batch db v f.free t
                    (count_pos (has_id t.task_id) db.tasks p.0 (eq_refl t.task_id)) p.1)
                (All-zip (λ t. Elem t db.tasks) (TaskInv db.items) db.tasks (each_row db.tasks)
                  v.rows))
              (
                new-TaskInv id batch db v f.free owner f.criteria_json f.model_json created_at
                    expires_at some_items,
                tt,
              ));
    }

pub create_task-Inv :
    (id owner : String) (criteria model : Fields) (batch : List (String × String))
    (created_at expires_at : ℕ) (db : Db)
    → Inv db
    → Inv (create_task id owner criteria model batch created_at expires_at db).1
unfolding create_task
create_task-Inv id owner criteria model [] created_at expires_at db v = v
create_task-Inv id owner criteria model (i ∷ batch) created_at expires_at db v =
    elim (Result-cases
      (insert_batch id owner criteria model (i ∷ batch) created_at expires_at db)) [
        | inl (x, e) ↦ rw e v
        | inr ((tt, d), e) ↦ rw e (
            insert_batch-Inv id owner criteria model (i ∷ batch) created_at expires_at db d
              (omega arith) v
              (insert_batch_ok id owner criteria model (i ∷ batch) created_at expires_at db e
                v.keys))
      ]
