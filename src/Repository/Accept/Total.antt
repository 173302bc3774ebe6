-- ===== src/Repository/Accept/Total.antt =====
-- A submission under a fresh id, with distinct source ids, is accepted.
use ia_dev_lab.Base.{
  Elem-last, find_absent, ℕ, suc, ◌≤◌, ◌<◌, String, Bool, true, false, ◌≡◌, refl, sym, ap, subst,
  ◌∙◌, inl, inr, some, List, [], ◌∷◌, ◌++◌, map, length, arith, eq_iff, eq_refl, find, find_key,
  count, count_mono, count-append, is_some, Bool-cases, Result, ok, nat_equality, string_equality,
  ◌==◌,
}
use mathlib.Core.List.{append-nil, append_assoc}
use ia_dev_lab.Json.{Fields}
use ia_dev_lab.Models.{TaskRecord}
use ia_dev_lab.Schemas.{contains}
use ia_dev_lab.Schemas.Distinct.{IsDistinct}
use ia_dev_lab.Repository.Schema.{
  TaskRow, ItemRow, Db, has_id, of_task, at_position, of_source, check_task, insert_task,
  insert_item,
}
use ia_dev_lab.Repository.Invariant.{Inv}
use ia_dev_lab.Repository.Reads.{owned_by, status_columns, to_record}
use ia_dev_lab.Repository.Accept.{
  dump, new_task, new_item, insert_items, insert_batch, is_empty, reload, create_task,
}
use ia_dev_lab.Repository.Accept.Keys.{batch_rows}
use ia_dev_lab.Repository.Accept.Keeps.{absent_count, create_task-Inv}
use ia_dev_lab.Repository.Steps.Safety.{get_status-total}

find_present :
    {A : Type 0} (q : A → Bool) (xs : List A) → 0 < count q xs → is_some (find q xs) ≡ true
unfolding count find
find_present q [] h = absurd (omega arith)
find_present q (x ∷ xs) h = ground (arith, find_present q xs)

is_empty-false : {A : Type 0} (xs : List A) → 0 < length xs → is_empty xs ≡ false
is_empty-false [] h = absurd (omega arith)
is_empty-false (x ∷ xs) h = refl

-- The tables have room for the rest of the batch.
record HasRoom (id : String) (n : ℕ) (batch : List (String × String)) (db : Db) : Type 0 where
  positions : (k : ℕ) → n ≤ k → count (at_position id k) db.items ≡ 0
  sources :
      (s : String)
      → contains s (map (λ (p : String × String). p.0) batch) ≡ true
      → count (of_source id s) db.items ≡ 0
  present : 0 < count (has_id id) db.tasks

contains_other :
    (s t : String) (xs : List String)
    → contains s xs ≡ true
    → contains t xs ≡ false
    → (t == s) ≡ false
contains_other s t xs h k = elim (Bool-cases (t == s)) [
  | inr e ↦ e
  | inl e ↦
      let same : t ≡ s = (eq_iff t s).0 e in
      absurd (ground (arith, subst (λ (u : String). contains u xs ≡ false) same k))
]

HasRoom-next :
    (id source text : String) (n : ℕ) (batch : List (String × String)) (db : Db)
    → contains source (map (λ (p : String × String). p.0) batch) ≡ false
    → HasRoom id n ((source, text) ∷ batch) db
    → HasRoom id (suc n) batch (record db { items = db.items ++ new_item id n source text ∷ [] })
unfolding count contains
HasRoom-next id source text n batch db new h = record {
  positions = λ k le. ground (
    arith,
    count-append (at_position id k) db.items (new_item id n source text ∷ []),
    h.positions k (omega arith),
  );
  sources = λ s c. ground (
    arith,
    count-append (of_source id s) db.items (new_item id n source text ∷ []),
    h.sources s (ground arith),
    contains_other s source (map (λ (p : String × String). p.0) batch) c new,
  );
  present = h.present;
}

insert_items-total :
    (id : String) (n : ℕ) (batch : List (String × String)) (db : Db)
    → IsDistinct (map (λ (p : String × String). p.0) batch)
    → HasRoom id n batch db
    → insert_items id n batch db ≡ ok (record db { items = db.items ++ batch_rows id n batch })
unfolding insert_items contains
insert_items-total id n [] db u h =
    ap (λ (is : List ItemRow). ok (record db { items = is })) (sym (append-nil db.items))
insert_items-total id n ((source, text) ∷ batch) db u h =
    let one : insert_item (new_item id n source text) db
        ≡ ok (record db { items = db.items ++ new_item id n source text ∷ [] }) =
      rw (
        find_absent (at_position id n) db.items (h.positions n (omega arith)),
        find_absent (of_source id source) db.items
            (h.sources source (ground (arith, eq_refl source))),
        find_present (has_id id) db.tasks h.present,
        insert_item,
      ) in
    let rest =
      insert_items-total id (suc n) batch _ u.1 (HasRoom-next id source text n batch db u.0 h) in
    rw (one, rest)
      (ap (λ (is : List ItemRow). ok (record db { items = is }))
        (append_assoc db.items (new_item id n source text ∷ []) (batch_rows id (suc n) batch)))

-- The tables after the submission.
abbrev pub submitted : String → String → Fields → Fields → List (String × String) → ℕ → ℕ → Db → Db
submitted id owner c k batch created_at expires_at db = record {
  tasks = db.tasks ++ new_task id owner c k batch created_at expires_at ∷ [];
  items = db.items ++ batch_rows id 0 batch;
}

module _ (id owner : String) (criteria model c k : Fields) (batch : List (String × String))
    (created_at expires_at : ℕ) (db : Db) (v : Inv db) (free : count (has_id id) db.tasks ≡ 0)
    (u : IsDistinct (map (λ (p : String × String). p.0) batch)) (some_items : 0 < length batch)
    (e : dump criteria ≡ ok c) (f : dump model ≡ ok k) where
  abbrev new_row : TaskRow
  new_row = new_task id owner c k batch created_at expires_at

  abbrev with_row : Db
  with_row = record db { tasks = db.tasks ++ new_row ∷ [] }

  room : HasRoom id 0 batch with_row
  unfolding count
  room = record {
    positions = λ n le. omega (
      arith,
      absent_count id db v.keys free,
      count_mono (at_position id n) (of_task id) db.items (λ i h. ground arith),
    );
    sources = λ s t. omega (
      arith,
      absent_count id db v.keys free,
      count_mono (of_source id s) (of_task id) db.items (λ i h. ground arith),
    );
    present = ground (arith, count-append (has_id id) db.tasks (new_row ∷ []), eq_refl id);
  }

  insert_batch-total :
      insert_batch id owner criteria model batch created_at expires_at db
      ≡ ok (tt, submitted id owner c k batch created_at expires_at db)
  unfolding insert_batch
  insert_batch-total =
      let checked : check_task new_row ≡ true = ground arith in
      let inserted : insert_task new_row db ≡ ok with_row =
        rw (checked, find_absent (has_id id) db.tasks free, insert_task) in
      rw (e, f, inserted, insert_items-total id 0 batch with_row u room)

  not_empty : is_empty batch ≡ false
  not_empty = is_empty-false batch some_items

  -- The call, as far as its commit.
  reloaded :
      create_task id owner criteria model batch created_at expires_at db
      ≡ reload id owner (ok tt, submitted id owner c k batch created_at expires_at db)
  unfolding create_task
  reloaded = rw (not_empty, insert_batch-total)

  pub submitted-Inv : Inv (submitted id owner c k batch created_at expires_at db)
  submitted-Inv =
      subst (λ (r : Result TaskRecord × Db). Inv r.1) reloaded
        (create_task-Inv id owner criteria model batch created_at expires_at db v)

  -- Under an id that no task has, with at least one item and distinct source ids, and snapshots that
  -- can be serialized, the submission commits on good tables and returns the queued task.
  pub create_task-total : create_task id owner criteria model batch created_at expires_at db ≡ (
    ok (to_record (status_columns new_row) false),
    submitted id owner c k batch created_at expires_at db,
  )
  create_task-total =
      let after = submitted id owner c k batch created_at expires_at db in
      let found : find (owned_by id owner) after.tasks ≡ some new_row =
        find_key (owned_by id owner) after.tasks {r = new_row}
          (omega (
            arith,
            count_mono (owned_by id owner) (has_id id) after.tasks (λ t h. ground arith),
            submitted-Inv.task_key id,
          ))
          (Elem-last db.tasks new_row) (ground (arith, eq_refl id, eq_refl owner)) in
      reloaded ∙ rw (get_status-total id owner after submitted-Inv, found)
