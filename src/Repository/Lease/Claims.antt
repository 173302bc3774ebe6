-- ===== src/Repository/Lease/Claims.antt =====
-- Which task a claim takes, and whom it leaves alone.
use ia_dev_lab.Base.{
  coalesce, ℕ, ◌+◌, String, Bool, true, false, ◌≡◌, ◌⊎◌, refl, sym, subst, inl, inr, none, some,
  List, [], ◌∷◌, text_ltb_asymm, text_ltb_negtrans, nat_equality, string_equality, arith, eq_refl,
  All, All-map, All-Elem, Elem, find, find-update_key, select, update, key_unique, select-Elem,
  Elem-update, ◌≤◌, Option-cases, Bool-cases, ok,
}
use ia_dev_lab.Models.{TaskStatus, ItemStatus}
use ia_dev_lab.Repository.Schema.{TaskRow, ItemRow, Db, has_id, at_position, null_gt}
use ia_dev_lab.Repository.Invariant.{TaskInv, Inv}
use ia_dev_lab.Repository.Reads.{to_record, task_from_fetched, item_from_row}
use ia_dev_lab.Repository.Lease.{
  first_by, claimable, older, lease_to, claim_row, claim_task, working, open_item, start_item,
  earlier, start_next, claim_next_item,
}
use ia_dev_lab.Repository.Lease.Keeps.{first_by-Elem, claimed-TaskInv}
use ia_dev_lab.Repository.Steps.Safety.{post_init-to_record}

-- ORDER BY ... LIMIT 1 gives a row that no other comes before.
module _ {ℓ} {A : Type ℓ} (before : A → A → Bool) where
  pub first_by-none : (xs : List A) → first_by before xs ≡ none → xs ≡ []
  unfolding first_by
  first_by-none [] h = refl
  first_by-none (x ∷ xs) h = ground arith

  pub first_by-least :
      ((x y : A) → before x y ≡ true → before y x ≡ false)
      → ((x y z : A) → before x y ≡ false → before y z ≡ false → before x z ≡ false)
      → (xs : List A) {r : A} → first_by before xs ≡ some r
      → All (λ x. before x r ≡ false) xs
  unfolding first_by
  first_by-least asymm negtrans [] h = tt
  first_by-least asymm negtrans (x ∷ xs) {r} h = elim (Option-cases (first_by before xs)) [
    | inl e ↦
        let same : x ≡ r = ground arith in
        subst (λ (q : A). All (λ x. before x q ≡ false) (x ∷ xs)) same
          (irrefl x, subst (All (λ z. before z x ≡ false)) (sym (first_by-none xs e)) tt)
    | inr (y, e) ↦ elim (Bool-cases (before y x)) [
      | inl b ↦
          let same : y ≡ r = ground arith in
          subst (λ (q : A). All (λ x. before x q ≡ false) (x ∷ xs)) same
            (asymm y x b, first_by-least asymm negtrans xs e)
      | inr b ↦
          let same : x ≡ r = ground arith in
          subst (λ (q : A). All (λ x. before x q ≡ false) (x ∷ xs)) same
            (
              irrefl x,
              All-map (λ z. before z y ≡ false) (λ z. before z x ≡ false) xs
                  (λ z n. negtrans z y x n b) (first_by-least asymm negtrans xs e),
            )
    ]
  ]
    where
      irrefl : (z : A) → before z z ≡ false
      irrefl z = elim (Bool-cases (before z z)) [ inl t ↦ asymm z z t | inr t ↦ t ]

older_asymm : (s t : TaskRow) → older s t ≡ true → older t s ≡ false
older_asymm s t h = ground (arith, text_ltb_asymm s.task_id t.task_id)

older_negtrans : (s t u : TaskRow) → older s t ≡ false → older t u ≡ false → older s u ≡ false
older_negtrans s t u h k = ground (arith, text_ltb_negtrans s.task_id t.task_id u.task_id)

select-none :
    {A : Type 0} (q : A → Bool) (xs : List A) → select q xs ≡ [] → All (λ x. q x ≡ false) xs
unfolding select
select-none q [] h = tt
select-none q (x ∷ xs) h = elim (Bool-cases (q x)) [
  | inl e ↦ absurd (ground arith)
  | inr e ↦ (e, select-none q xs (ground arith))
]

All-of_select :
    {A : Type 0} (P : A → Type 0) (q : A → Bool) (xs : List A)
    → All P (select q xs)
    → All (λ x. q x ≡ true → P x) xs
unfolding select
All-of_select P q [] a = tt
All-of_select P q (x ∷ xs) a = elim (Bool-cases (q x)) [
  | inl e ↦ let a' = rw e at a in (λ _. a'.0, All-of_select P q xs a'.1)
  | inr e ↦ (λ t. absurd (ground arith), All-of_select P q xs (rw e at a))
]

-- The row that a claim at `now` should take: a claimable row, no claimable row being older.
pub record IsOldest (now : ℕ) (tasks : List TaskRow) (row : TaskRow) : Type 0 where
  pub present : Elem row tasks
  pub eligible : claimable now row ≡ true
  pub oldest : All (λ t. claimable now t ≡ true → older t row ≡ false) tasks

-- A task row under a new lease: running, the worker's until the expiry, started once.
abbrev pub under_lease : String → ℕ → ℕ → TaskRow → TaskRow
under_lease worker expiry now row = record {
  task_id = row.task_id;
  owner_id = row.owner_id;
  status = TaskStatus.processing;
  criteria_json = row.criteria_json;
  model_json = row.model_json;
  accepted_count = row.accepted_count;
  processed_count = row.processed_count;
  successful_count = row.successful_count;
  failed_count = row.failed_count;
  task_error_json = row.task_error_json;
  lease_owner = some worker;
  lease_expires_at = some expiry;
  created_at = row.created_at;
  updated_at = now;
  started_at = some (coalesce row.started_at now);
  completed_at = row.completed_at;
  expires_at = row.expires_at;
  purged_at = row.purged_at;
}

-- The tables after `row` was claimed.
abbrev pub claimed : String → ℕ → ℕ → TaskRow → Db → Db
claimed worker now lease_seconds row db = record db {
  tasks = update (has_id row.task_id) (under_lease worker (now + lease_seconds) now) db.tasks;
}

abbrev pub ClaimAnswer : String → ℕ → ℕ → Db → Type 0
ClaimAnswer worker now lease_seconds db =
    (All (λ t. claimable now t ≡ false) db.tasks
      × (claim_task worker now lease_seconds db ≡ (ok none, db)))
    ⊎ ((row : TaskRow) × IsOldest now db.tasks row
        × (claim_task worker now lease_seconds db ≡ (
          ok (some (to_record (under_lease worker (now + lease_seconds) now row) true)),
          claimed worker now lease_seconds row db,
        )))

-- On tables that satisfy the invariant a claim never raises. Either no task is running, unpurged,
-- unexpired and free of a live lease, and then it returns None and changes nothing; or it takes the
-- one that comes first by creation time and id, writes the new lease to its row (processing, the
-- worker's, until `lease_seconds` from now, started now if it was not before, all else kept), returns
-- its record, and changes no other row.
pub claim_task-total :
    (worker : String) (now lease_seconds : ℕ) (db : Db)
    → Inv db
    → ClaimAnswer worker now lease_seconds db
unfolding claim_task
claim_task-total worker now lease_seconds db v =
    elim (Option-cases (first_by older (select (claimable now) db.tasks))) [
      | inl e ↦
          inl (select-none (claimable now) db.tasks (first_by-none older _ e), rw (e, claim_row))
      | inr (row, e) ↦
          let (m, c) = select-Elem (claimable now) db.tasks (first_by-Elem older _ e) in
          let leased = lease_to worker (now + lease_seconds) now in
          let row_inv =
            claimed-TaskInv db.items worker (now + lease_seconds) now row c
              (All-Elem (TaskInv db.items) db.tasks v.rows m) in
          inr (
            row,
            record {
              present = m;
              eligible = c;
              oldest =
                  All-of_select (λ t. older t row ≡ false) (claimable now) db.tasks
                    (first_by-least older older_asymm older_negtrans _ e);
            },
            rw (
              e,
              claim_row,
              find-update_key (has_id row.task_id) leased db.tasks {r = row} (λ t h. h)
                  (v.task_key row.task_id) m (eq_refl row.task_id),
              task_from_fetched,
              post_init-to_record db.items (leased row) true row_inv,
            ),
          )
    ]

-- On good tables, a claim leaves every task alone that another worker holds under a lease not yet expired.
pub claim_task-exclusive :
    (worker holder : String) (now lease_seconds : ℕ) (db : Db) (t : TaskRow)
    → Inv db
    → Elem t db.tasks
    → t.lease_owner ≡ some holder
    → null_gt t.lease_expires_at now ≡ true
    → Elem t (claim_task worker now lease_seconds db).1.tasks
claim_task-exclusive worker holder now lease_seconds db t v m held live =
    elim (claim_task-total worker now lease_seconds db v) [
      | inl (_, e) ↦ rw e m
      | inr (row, o, e) ↦ elim (Bool-cases (has_id row.task_id t)) [
        | inl same ↦
            let this =
              All-Elem (λ s. has_id row.task_id s ≡ true → s ≡ row) db.tasks
                (key_unique (has_id row.task_id) db.tasks (v.task_key row.task_id) o.present
                  (eq_refl row.task_id))
                m same in
            let c : claimable now t ≡ true =
              subst (λ (r : TaskRow). claimable now r ≡ true) (sym this) o.eligible in
            absurd (ground arith)
        | inr other ↦ rw e (
            subst (λ (r : TaskRow). Elem r (claimed worker now lease_seconds row db).tasks)
              (ground arith)
              (Elem-update (has_id row.task_id) (lease_to worker (now + lease_seconds) now) db.tasks
                m))
      ]
    ]

-- The item that a worker should process next: open, and no open item of the task stands before it.
pub record IsNext (id : String) (items : List ItemRow) (row : ItemRow) : Type 0 where
  pub present : Elem row items
  pub eligible : open_item id row ≡ true
  pub first : All (λ i. open_item id i ≡ true → row.position ≤ i.position) items

earlier_asymm : (i j : ItemRow) → earlier i j ≡ true → earlier j i ≡ false
earlier_asymm i j h = ground arith

earlier_negtrans :
    (i j k : ItemRow) → earlier i j ≡ false → earlier j k ≡ false → earlier i k ≡ false
earlier_negtrans i j k h l = ground arith

-- An item row under way, started once.
abbrev pub under_way : ℕ → ItemRow → ItemRow
under_way now row = record {
  task_id = row.task_id;
  position = row.position;
  source_id = row.source_id;
  source_text = row.source_text;
  status = ItemStatus.processing;
  outcome_json = row.outcome_json;
  error_json = row.error_json;
  started_at = some (coalesce row.started_at now);
  completed_at = row.completed_at;
}

abbrev pub NextAnswer : String → String → ℕ → Db → Type 0
NextAnswer id worker now db =
    (All (λ i. open_item id i ≡ false) db.items
      × (claim_next_item id worker now db ≡ (ok none, db)))
    ⊎ ((row : ItemRow) × IsNext id db.items row
        × (claim_next_item id worker now db ≡ (
          ok (some (item_from_row (under_way now row))),
          record db { items = update (at_position id row.position) (under_way now) db.items },
        )))

-- Under a live lease on a running task, `claim_next_item` never raises. Either every item of the task
-- is finished, and then it returns None and changes nothing; or it marks the open item of the lowest
-- position as processing, started now if it was not before, with all else of it kept, returns it, and
-- changes no other row.
pub claim_next_item-total :
    (id worker : String) (now : ℕ) (db : Db) (t : TaskRow)
    → Inv db
    → find (working id worker now) db.tasks ≡ some t
    → NextAnswer id worker now db
unfolding claim_next_item
claim_next_item-total id worker now db t v w =
    elim (Option-cases (first_by earlier (select (open_item id) db.items))) [
      | inl e ↦
          inl
            (select-none (open_item id) db.items (first_by-none earlier _ e), rw (w, e, start_next))
      | inr (row, e) ↦
          let (m, o) = select-Elem (open_item id) db.items (first_by-Elem earlier _ e) in
          let k : at_position id row.position row ≡ true = ground arith in
          inr (
            row,
            record {
              present = m;
              eligible = o;
              first =
                  All-map (λ i. open_item id i ≡ true → earlier i row ≡ false) _ db.items
                    (λ i h q. ground (arith, h q))
                    (All-of_select (λ i. earlier i row ≡ false) (open_item id) db.items
                      (first_by-least earlier earlier_asymm earlier_negtrans _ e));
            },
            rw (
              w,
              e,
              start_next,
              find-update_key (at_position id row.position) (start_item now) db.items {r = row}
                  (λ i h. h) (v.item_key id row.position) m k,
            ),
          )
    ]
