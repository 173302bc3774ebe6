-- ===== src/Repository/Accept/Keys.antt =====
-- The INSERTs of a submission keep the keys of the tables.
use mathlib.Core.List.{append-nil, append_assoc}
use ia_dev_lab.Base.{
  ℕ, suc, ◌<◌, String, true, ◌≡◌, sym, subst, inl, inr, none, List, [], ◌∷◌, ◌++◌, nat_equality,
  string_equality, arith, eq_iff, All-map, All-append, find, find-Elem, find-none, find_test, count,
  count_pos, count-append, count-append_key, Option-cases, ok, Result-cases,
}
use ia_dev_lab.Repository.Schema.{
  TaskRow, ItemRow, Db, has_id, at_position, of_source, insert_task, insert_item,
}
use ia_dev_lab.Repository.Invariant.{Keys}
use ia_dev_lab.Repository.Accept.{new_item, insert_items}

free_position :
    (i : ItemRow) (items : List ItemRow) (id : String) (n : ℕ)
    → find (at_position i.task_id i.position) items ≡ none
    → at_position id n i ≡ true
    → count (at_position id n) items ≡ 0
free_position i items id n e h =
    let a : i.task_id ≡ id = (eq_iff i.task_id id).0 (ground arith) in
    let b : i.position ≡ n = ground arith in
    subst (λ (k : String). count (at_position k n) items ≡ 0) a
      (subst (λ (m : ℕ). count (at_position i.task_id m) items ≡ 0) b (find-none _ items e))

free_source :
    (i : ItemRow) (items : List ItemRow) (id source : String)
    → find (of_source i.task_id i.source_id) items ≡ none
    → of_source id source i ≡ true
    → count (of_source id source) items ≡ 0
free_source i items id source e h =
    let a : i.task_id ≡ id = (eq_iff i.task_id id).0 (ground arith) in
    let b : i.source_id ≡ source = (eq_iff i.source_id source).0 (ground arith) in
    subst (λ (k : String). count (of_source k source) items ≡ 0) a
      (subst (λ (m : String). count (of_source i.task_id m) items ≡ 0) b (find-none _ items e))

-- A row that an INSERT accepts keeps every key.
insert_item-Keys :
    (i : ItemRow) (db : Db) {db' : Db}
    → insert_item i db ≡ ok db'
    → Keys db
    → (db' ≡ record db { items = db.items ++ i ∷ [] }) × Keys db'
unfolding insert_item
insert_item-Keys i db {db'} h v =
    elim (Option-cases (find (at_position i.task_id i.position) db.items)) [
      | inr (x, e) ↦ absurd (ground arith)
      | inl e1 ↦ elim (Option-cases (find (of_source i.task_id i.source_id) db.items)) [
        | inr (x, e) ↦ absurd (ground arith)
        | inl e2 ↦ elim (Option-cases (find (has_id i.task_id) db.tasks)) [
          | inl e ↦ absurd (ground arith)
          | inr (t, e3) ↦
              let same : db' ≡ record db { items = db.items ++ i ∷ [] } = ground arith in
              (
                same,
                subst Keys (sym same) (record {
                  task_key = v.task_key;
                  item_key = λ id n.
                      count-append_key (at_position id n) db.items i (v.item_key id n)
                        (free_position i db.items id n e1);
                  source_key = λ id s.
                      count-append_key (of_source id s) db.items i (v.source_key id s)
                        (free_source i db.items id s e2);
                  foreign_key =
                      All-append (λ j. 0 < count (has_id j.task_id) db.tasks) db.items (i ∷ [])
                        v.foreign_key
                        (
                          count_pos (has_id i.task_id) db.tasks (find-Elem _ db.tasks e3)
                              (find_test (has_id i.task_id) db.tasks e3),
                          tt,
                        );
                }),
              )
        ]
      ]
    ]

-- The rows that `executemany` adds.
abbrev pub batch_rows : String → ℕ → List (String × String) → List ItemRow
batch_rows id n [] = []
batch_rows id n ((source_id, text) ∷ items) =
    new_item id n source_id text ∷ batch_rows id (suc n) items

pub insert_items-Keys :
    (id : String) (n : ℕ) (items : List (String × String)) (db : Db) {db' : Db}
    → insert_items id n items db ≡ ok db'
    → Keys db
    → (db' ≡ record db { items = db.items ++ batch_rows id n items }) × Keys db'
unfolding insert_items
insert_items-Keys id n [] db {db'} h v =
    (rw (append-nil db.items) (ground arith), subst Keys {x = db} {y = db'} (ground arith) v)
insert_items-Keys id n ((source_id, text) ∷ items) db {db'} h v =
    elim (Result-cases (insert_item (new_item id n source_id text) db)) [
      | inl (x, e) ↦ absurd (ground arith)
      | inr (d, e) ↦
          let (here, k) = insert_item-Keys (new_item id n source_id text) db e v in
          let (there, k') = insert_items-Keys id (suc n) items d {db' = db'} (ground arith) k in
          (
            ground (
              arith,
              append_assoc db.items (new_item id n source_id text ∷ [])
                  (batch_rows id (suc n) items),
            ),
            k',
          )
    ]

pub insert_task-Keys :
    (t : TaskRow) (db : Db) {db' : Db}
    → insert_task t db ≡ ok db'
    → Keys db
    → (db' ≡ record db { tasks = db.tasks ++ t ∷ [] })
      × (count (has_id t.task_id) db.tasks ≡ 0)
      × Keys db'
unfolding insert_task
insert_task-Keys t db {db'} h v = elim (Option-cases (find (has_id t.task_id) db.tasks)) [
  | inr (x, e) ↦ absurd (ground arith)
  | inl e ↦
      let same : db' ≡ record db { tasks = db.tasks ++ t ∷ [] } = ground arith in
      (
        same,
        find-none _ db.tasks e,
        subst Keys (sym same) (record {
          task_key = λ id. count-append_key (has_id id) db.tasks t (v.task_key id) (λ p.
              subst (λ (k : String). count (has_id k) db.tasks ≡ 0) ((eq_iff t.task_id id).0 p)
                (find-none _ db.tasks e));
          item_key = v.item_key;
          source_key = v.source_key;
          foreign_key =
              All-map (λ i. 0 < count (has_id i.task_id) db.tasks) _ db.items
                (λ i p. ground (arith, count-append (has_id i.task_id) db.tasks (t ∷ [])))
                v.foreign_key;
        }),
      )
]
