-- ===== src/Repository/Retention/Keeps.antt =====
-- The purge and the deletion of tombstones keep the invariant of the tables.
use ia_dev_lab.Base.{
  ℕ, ◌<◌, String, Bool, true, false, not, ◌&&◌, ◌≡◌, refl, subst, ◌∙◌, inl, inr, List, [], ◌∷◌, map,
  arith, eq_iff, eq_refl, All, everywhere, All-map, All-zip, All-update, All-select_test, Elem,
  each_row, Elem-select, find, find-Elem, find-none, find_test, select, update, count, count_keep,
  count_pos, count-select, count-select-le, key_unique, All-Elem, delete, Option-cases, Bool-cases,
}
use ia_dev_lab.Models.{is_terminal}
use ia_dev_lab.Repository.Schema.{TaskRow, ItemRow, Db, has_id, of_task, at_position, of_source}
use ia_dev_lab.Repository.Invariant.{
  TaskInv, Inv, TaskInv-recount, update_tasks-Keys, in_state, is_completed, is_failed,
}
use ia_dev_lab.Repository.Retention.{
  expired, wipe_item, wipe_task, wipe_items, elapsed, orphaned, maintain_retention,
}

pub wipe_count :
    (p : ItemRow → Bool) (ids : List String) (items : List ItemRow)
    → ((i : ItemRow) → p (wipe_item i) ≡ p i)
    → count p (wipe_items ids items) ≡ count p items
unfolding wipe_items
wipe_count p [] items h = refl
wipe_count p (id ∷ ids) items h =
    wipe_count p ids (update (of_task id) wipe_item items) h
    ∙ count_keep p (of_task id) wipe_item items (λ i _. h i)

pub All-wipe :
    (P : ItemRow → Type 0) (ids : List String) (items : List ItemRow)
    → ((i : ItemRow) → P i → P (wipe_item i))
    → All P items
    → All P (wipe_items ids items)
unfolding wipe_items
All-wipe P [] items h a = a
All-wipe P (id ∷ ids) items h a =
    All-wipe P ids (update (of_task id) wipe_item items) h
      (All-update P P (of_task id) wipe_item items (λ i _ p. h i p) (λ i _ p. p) a)

wiped-TaskInv :
    (items : List ItemRow) (now : ℕ) (t : TaskRow)
    → TaskInv items t
    → TaskInv items (wipe_task now t)
unfolding is_terminal
wiped-TaskInv items now t h = ground arith

-- The purge.
pub wiped-Inv :
    (now : ℕ) (ids : List String) (db : Db)
    → Inv db
    → Inv (record {
      tasks = update (expired now) (wipe_task now) db.tasks;
      items = wipe_items ids db.items;
    })
wiped-Inv now ids db v = record {
  keys =
      update_tasks-Keys (expired now) (wipe_task now) (record db { items = items }) (λ t. refl)
        (record {
          task_key = v.task_key;
          item_key =
              λ id n. rw (wipe_count (at_position id n) ids db.items (λ i. refl)) (v.item_key id n);
          source_key =
              λ id s. rw (wipe_count (of_source id s) ids db.items (λ i. refl)) (v.source_key id s);
          foreign_key =
              All-wipe (λ i. 0 < count (has_id i.task_id) db.tasks) ids db.items (λ i h. h)
                v.foreign_key;
        });
  rows =
      All-update (TaskInv items) (TaskInv items) (expired now) (wipe_task now) db.tasks
        (λ t _ h. wiped-TaskInv items now t h) (λ t _ h. h)
        (All-map (TaskInv db.items) (TaskInv items) db.tasks
          (λ t h.
            TaskInv-recount db.items items t
              (wipe_count (of_task t.task_id) ids db.items (λ i. refl))
              (wipe_count (in_state t.task_id is_completed) ids db.items (λ i. refl))
              (wipe_count (in_state t.task_id is_failed) ids db.items (λ i. refl)) h)
          v.rows);
}
  where
    items : List ItemRow
    items = wipe_items ids db.items

-- The deletion, with its cascade.
module _ (gone : TaskRow → Bool) (db : Db) (v : Inv db) where
  abbrev kept_items : List ItemRow
  kept_items = delete (orphaned gone db.tasks) db.items

  -- The items of a row that stays, stay.
  spared :
      (t : TaskRow)
      → Elem t db.tasks
      → gone t ≡ false
      → (i : ItemRow) → of_task t.task_id i ≡ true
      → not (orphaned gone db.tasks i) ≡ true
  spared t m k i e = elim (Option-cases (find (λ s. has_id i.task_id s && gone s) db.tasks)) [
    | inl n ↦ rw n
    | inr (s, n) ↦
        let found = find_test (λ s. has_id i.task_id s && gone s) db.tasks n in
        let id : i.task_id ≡ t.task_id = (eq_iff i.task_id t.task_id).0 e in
        let here : has_id t.task_id s ≡ true =
          subst (λ (k : String). has_id k s ≡ true) id (ground arith) in
        let same =
          All-Elem _ db.tasks
            (key_unique (has_id t.task_id) db.tasks (v.task_key t.task_id) m (eq_refl t.task_id))
            (find-Elem _ db.tasks n) here in
        absurd
          (ground (arith, subst (λ (r : TaskRow). has_id i.task_id r && gone r ≡ true) same found))
  ]

  kept-TaskInv :
      (t : TaskRow) → Elem t db.tasks → gone t ≡ false → TaskInv db.items t → TaskInv kept_items t
  kept-TaskInv t m k h =
      TaskInv-recount db.items kept_items t (same (of_task t.task_id) (λ i p. p))
        (same (in_state t.task_id is_completed) (λ i p. ground arith))
        (same (in_state t.task_id is_failed) (λ i p. ground arith)) h
    where
      same :
          (p : ItemRow → Bool)
          → ((i : ItemRow) → p i ≡ true → of_task t.task_id i ≡ true)
          → count p kept_items ≡ count p db.items
      same p of =
          count-select p (λ i. not (orphaned gone db.tasks i)) db.items
            (everywhere (λ i. p i ≡ true → not (orphaned gone db.tasks i) ≡ true)
              (λ i e. spared t m k i (of i e)) db.items)

  kept_reference :
      (i : ItemRow)
      → not (orphaned gone db.tasks i) ≡ true
      → 0 < count (has_id i.task_id) db.tasks
      → 0 < count (has_id i.task_id) (delete gone db.tasks)
  kept_reference i o p = elim (Option-cases (find (has_id i.task_id) db.tasks)) [
    | inl n ↦ absurd (omega (arith, find-none (has_id i.task_id) db.tasks n))
    | inr (t, n) ↦
        let m = find-Elem (has_id i.task_id) db.tasks n in
        let id = find_test (has_id i.task_id) db.tasks n in
        elim (Bool-cases (gone t)) [
          | inr stays ↦
              count_pos (has_id i.task_id) (delete gone db.tasks)
                (Elem-select (λ s. not (gone s)) db.tasks m (rw stays)) id
          | inl goes ↦ elim (Option-cases (find (λ s. has_id i.task_id s && gone s) db.tasks)) [
            | inr (s, e) ↦ absurd (ground arith)
            | inl e ↦ absurd (
                omega (
                  arith,
                  find-none (λ s. has_id i.task_id s && gone s) db.tasks e,
                  count_pos (λ s. has_id i.task_id s && gone s) db.tasks m (ground arith),
                ))
          ]
        ]
  ]

  pub deleted-Inv : Inv (record { tasks = delete gone db.tasks; items = kept_items })
  deleted-Inv = record {
    keys = record {
      task_key = λ id.
          omega (arith, count-select-le (has_id id) (λ t. not (gone t)) db.tasks, v.task_key id);
      item_key = λ id n. omega (
        arith,
        count-select-le (at_position id n) (λ i. not (orphaned gone db.tasks i)) db.items,
        v.item_key id n,
      );
      source_key = λ id s. omega (
        arith,
        count-select-le (of_source id s) (λ i. not (orphaned gone db.tasks i)) db.items,
        v.source_key id s,
      );
      foreign_key =
          All-select_test (λ i. 0 < count (has_id i.task_id) db.tasks) _
            (λ i. not (orphaned gone db.tasks i)) db.items kept_reference v.foreign_key;
    };
    rows =
        All-select_test (λ t. Elem t db.tasks × TaskInv db.items t) (TaskInv kept_items)
          (λ t. not (gone t)) db.tasks (λ t e p. kept-TaskInv t p.0 (ground arith) p.1)
          (All-zip (λ t. Elem t db.tasks) (TaskInv db.items) db.tasks (each_row db.tasks) v.rows);
  }

pub maintain_retention-Inv :
    (now tombstone : ℕ) (db : Db) → Inv db → Inv (maintain_retention now tombstone db).1
unfolding maintain_retention
maintain_retention-Inv now tombstone db v =
    deleted-Inv (elapsed now tombstone) _
      (wiped-Inv now (map (λ t. t.task_id) (select (expired now) db.tasks)) db v)
