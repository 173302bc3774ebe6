-- ===== src/Repository/Steps/OpenItems.antt =====
-- The items of a task that no worker has finished: their number never grows while nobody submits the
-- task again, and each finished item makes it smaller.
use ia_dev_lab.Base.{
  All, not, ℕ, suc, ◌≤◌, ◌<◌, String, Bool, true, false, ◌≡◌, ◌≢◌, refl, inl, inr, Option, none,
  some, List, [], ◌∷◌, map, arith, eq_iff, All-map, find-Elem, find, find_test, select, update,
  count, count_keep_rows, count-append, count-update_key, count-select-le, key_unique, select-Elem,
  Option-cases, is_none, Bool-cases, Result-cases, ok, nat_equality, string_equality,
}
use ia_dev_lab.Models.{TaskRecord}
use ia_dev_lab.Json.{Fields}
use ia_dev_lab.Repository.Schema.{TaskRow, ItemRow, Db, at_position, is_open}
use ia_dev_lab.Repository.Invariant.{Inv, at_position_self}
use ia_dev_lab.Repository.Accept.{dump, insert_batch, create_task}
use ia_dev_lab.Repository.Accept.Keys.{batch_rows}
use ia_dev_lab.Repository.Accept.Keeps.{insert_batch_ok}
use ia_dev_lab.Repository.Lease.{
  first_by, older, claimable, claim_row, claim_task, renew_lease, open_item, start_item, earlier,
  start_next, working, claim_next_item,
}
use ia_dev_lab.Repository.Lease.Keeps.{first_by-Elem}
use ia_dev_lab.Repository.Finish.{
  finish_item, same_presence, finalize_rows, finalize_item, abandon_item, fail_rows, fail_task,
}
use ia_dev_lab.Repository.Finish.Keeps.{Finalized, finalize_rows_ok}
use ia_dev_lab.Repository.Finish.Abandon.{fail_rows_ok}
use ia_dev_lab.Repository.Retention.{
  wipe_items, expired, orphaned, elapsed, wipe_task, maintain_retention,
}
use ia_dev_lab.Repository.Retention.Keeps.{wipe_count}
use ia_dev_lab.Repository.Steps.{
  Call, creates, claims, renews, starts, finalizes, fails, maintains, step, run,
}
use ia_dev_lab.Repository.Steps.Safety.{step-Inv}

abbrev pub open_count : String → Db → ℕ
open_count id db = count (open_item id) db.items

-- A call that does not submit the task `id`.
abbrev pub Spares : String → Call → Type 0
Spares id (creates k owner criteria model items created_at expires_at) = id ≢ k
Spares id _ = Unit {0}

-- An UPDATE that makes no row pass a test that it did not pass.
count_shrink :
    {A : Type 0} (p q : A → Bool) (f : A → A) (xs : List A)
    → ((x : A) → q x ≡ true → p (f x) ≡ true → p x ≡ true)
    → count p (update q f xs) ≤ count p xs
unfolding count update
count_shrink p q f [] h = omega arith
count_shrink p q f (x ∷ xs) h = ground (arith, h x, count_shrink p q f xs h)

batch_open :
    (id k : String) (n : ℕ) (batch : List (String × String))
    → id ≢ k
    → count (open_item id) (batch_rows k n batch) ≡ 0
unfolding count
batch_open id k n [] ne = refl
batch_open id k n ((source_id, text) ∷ batch) ne =
    ground (arith, eq_iff k id, batch_open id k (suc n) batch ne)

create_task-Open :
    (id k owner : String) (criteria model : Fields) (batch : List (String × String))
    (created_at expires_at : ℕ) (db : Db)
    → Inv db
    → id ≢ k
    → open_count id (create_task k owner criteria model batch created_at expires_at db).1
      ≤ open_count id db
unfolding create_task
create_task-Open id k owner criteria model [] created_at expires_at db v ne = omega arith
create_task-Open id k owner criteria model (i ∷ batch) created_at expires_at db v ne =
    elim (Result-cases (insert_batch k owner criteria model (i ∷ batch) created_at expires_at db)) [
      | inl (x, e) ↦ rw e (omega arith)
      | inr ((tt, d), e) ↦
          let f =
            insert_batch_ok k owner criteria model (i ∷ batch) created_at expires_at db e v.keys in
          rw (e, f.after)
            (omega (
              arith,
              count-append (open_item id) db.items (batch_rows k 0 (i ∷ batch)),
              batch_open id k 0 (i ∷ batch) ne,
            ))
    ]

claim_task-Open :
    (id worker : String) (now lease_seconds : ℕ) (db : Db)
    → open_count id (claim_task worker now lease_seconds db).1 ≤ open_count id db
unfolding claim_task
claim_task-Open id worker now lease_seconds db =
    elim (Option-cases (first_by older (select (claimable now) db.tasks))) [
      | inl e ↦ rw (e, claim_row) (omega arith)
      | inr (row, e) ↦ rw (e, claim_row) (omega arith)
    ]

start_next-Open :
    (id k : String) (now : ℕ) (db : Db)
    → Inv db
    → open_count id (start_next k now db).1 ≡ open_count id db
unfolding start_next
start_next-Open id k now db v =
    elim (Option-cases (first_by earlier (select (open_item k) db.items))) [
      | inl e ↦ rw (e, start_next)
      | inr (row, e) ↦
          let (m, o) = select-Elem (open_item k) db.items (first_by-Elem earlier _ e) in
          let is : row.task_id ≡ k = (eq_iff row.task_id k).0 (ground arith) in
          let open_row : is_open row.status ≡ true = ground arith in
          rw (e, start_next, ← is)
            (count_keep_rows (open_item id) (at_position row.task_id row.position) (start_item now)
              db.items
              (All-map (λ i. at_position row.task_id row.position i ≡ true → i ≡ row) _ db.items
                (λ i u e. rw (u e, open_row))
                (key_unique (at_position row.task_id row.position) db.items
                  (v.item_key row.task_id row.position) m (at_position_self row))))
    ]

pub claim_next_item-Open :
    (id k worker : String) (now : ℕ) (db : Db)
    → Inv db
    → open_count id (claim_next_item k worker now db).1 ≤ open_count id db
unfolding claim_next_item
claim_next_item-Open id k worker now db v =
    elim (Bool-cases (is_none (find (working k worker now) db.tasks))) [
      | inl e ↦ rw e (omega arith)
      | inr e ↦ rw e (omega (arith, start_next-Open id k now db v))
    ]

finish-closes :
    (id : String) (outcome error : Option Fields) (now : ℕ) (i : ItemRow)
    → open_item id (finish_item outcome error now i) ≡ false
finish-closes id outcome none now i = ground arith
finish-closes id outcome (some e) now i = ground arith

finalize_rows-Open :
    (id k worker : String) (position : ℕ) (outcome error : Option Fields) (now : ℕ) (db db' : Db)
    (r : Option TaskRow)
    → Finalized k worker position outcome error now db db' r
    → open_count id db' ≤ open_count id db
finalize_rows-Open id k worker position outcome error now db db' r f = rw f.after (
    count_shrink (open_item id) (at_position k position)
      (finish_item f.outcome_json f.error_json now) db.items
      (λ i q h. absurd (ground (arith, finish-closes id f.outcome_json f.error_json now i))))

finalize_item-Open :
    (id k worker : String) (position : ℕ) (outcome error : Option Fields) (now : ℕ) (db : Db)
    → open_count id (finalize_item k worker position outcome error now db).1 ≤ open_count id db
unfolding finalize_item
finalize_item-Open id k worker position outcome error now db =
    elim (Bool-cases (same_presence outcome error)) [
      | inl e ↦ rw e (omega arith)
      | inr e ↦ elim (Result-cases (finalize_rows k worker position outcome error now db)) [
        | inl (x, h) ↦ rw (e, h) (omega arith)
        | inr ((r, db'), h) ↦
            rw (e, h)
              (finalize_rows-Open id k worker position outcome error now db db' r
                (finalize_rows_ok k worker position outcome error now db h))
      ]
    ]

fail_task-Open :
    (id k worker : String) (error : Fields) (now : ℕ) (db : Db)
    → open_count id (fail_task k worker error now db).1 ≤ open_count id db
unfolding fail_task
fail_task-Open id k worker error now db = elim (Result-cases (dump error)) [
  | inl (x, e) ↦ rw e (omega arith)
  | inr (json, e) ↦ elim (Result-cases (fail_rows k worker json now db)) [
    | inl (x, h) ↦ rw (e, h) (omega arith)
    | inr ((r, db'), h) ↦
        let f = fail_rows_ok k worker json now db h in
        rw (e, h, f.after)
          (count_shrink (open_item id) (open_item k) (abandon_item json now) db.items
            (λ i q p. absurd (ground arith)))
  ]
]

maintain_retention-Open :
    (id : String) (now tombstone : ℕ) (db : Db)
    → open_count id (maintain_retention now tombstone db).1 ≤ open_count id db
unfolding maintain_retention
maintain_retention-Open id now tombstone db =
    let ids = map (λ t. t.task_id) (select (expired now) db.tasks) in
    omega (
      arith,
      wipe_count (open_item id) ids db.items (λ i. refl),
      count-select-le (open_item id)
          (λ i.
            not
              (orphaned (elapsed now tombstone) (update (expired now) (wipe_task now) db.tasks) i))
          (wipe_items ids db.items),
    )

pub step-Open :
    (id : String) (c : Call) (db : Db)
    → Inv db
    → Spares id c
    → open_count id (step db c) ≤ open_count id db
unfolding step renew_lease
step-Open id (creates k owner criteria model items created_at expires_at) db v ne =
    create_task-Open id k owner criteria model items created_at expires_at db v ne
step-Open id (claims worker now lease_seconds) db v s =
    claim_task-Open id worker now lease_seconds db
step-Open id (renews k worker now lease_seconds) db v s = omega arith
step-Open id (starts k worker now) db v s = claim_next_item-Open id k worker now db v
step-Open id (finalizes k worker position outcome error now) db v s =
    finalize_item-Open id k worker position outcome error now db
step-Open id (fails k worker error now) db v s = fail_task-Open id k worker error now db
step-Open id (maintains now tombstone) db v s = maintain_retention-Open id now tombstone db

pub run-Open :
    (id : String) (cs : List Call) (db : Db)
    → Inv db
    → All (Spares id) cs
    → open_count id (run db cs) ≤ open_count id db
unfolding run
run-Open id [] db v a = omega arith
run-Open id (c ∷ cs) db v a =
    omega (arith, step-Open id c db v a.0, run-Open id cs (step db c) (step-Inv db c v) a.1)

-- A call of `finalize_item` that returns leaves one open item less.
pub finalize_item-progress :
    (id worker : String) (position : ℕ) (outcome error : Option Fields) (now : ℕ) (db : Db)
    (t : TaskRecord)
    → Inv db
    → (finalize_item id worker position outcome error now db).0 ≡ ok t
    → open_count id (finalize_item id worker position outcome error now db).1 < open_count id db
unfolding finalize_item
finalize_item-progress id worker position outcome error now db t v h =
    elim (Bool-cases (same_presence outcome error)) [
      | inl e ↦ absurd (ground arith)
      | inr e ↦ elim (Result-cases (finalize_rows id worker position outcome error now db)) [
        | inl (x, k) ↦ let failed = rw (e, k) at h in absurd (ground arith)
        | inr ((r, db'), k) ↦
            let f = finalize_rows_ok id worker position outcome error now db k in
            let found = find_test (at_position id position) db.items f.item_found in
            rw (e, k, f.after)
              (ground (
                arith,
                f.item_open,
                found,
                finish-closes id f.outcome_json f.error_json now f.item,
                count-update_key (open_item id) (at_position id position)
                    (finish_item f.outcome_json f.error_json now) db.items {r = f.item}
                    (v.item_key id position)
                    (find-Elem (at_position id position) db.items f.item_found) found,
              ))
      ]
    ]
