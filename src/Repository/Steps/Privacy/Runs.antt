-- ===== src/Repository/Steps/Privacy/Runs.antt =====
-- The privacy of purged tasks over histories: the calls that take a held task, the submission, the
-- purge itself, and every sequence of them.
use ia_dev_lab.Base.{
  ℕ, suc, ◌+◌, ◌≤◌, ◌<◌, String, true, not, string_equality, ◌≡◌, ◌≢◌, refl, sym, ap, subst, inl,
  inr, Option, none, List, [], ◌∷◌, ◌++◌, map, arith, eq_iff, is_some, is_none, All, everywhere,
  All-map, All-zip, All-update, All-select, All-select_test, All-append, All-Elem, Elem, here,
  there, Elem-select, each_row, find, select, update, count, count_pos, delete, Bool-cases,
  Result-cases,
}
use ia_dev_lab.Json.{Fields}
use ia_dev_lab.Repository.Schema.{TaskRow, ItemRow, Db, has_id, of_task, at_position}
use ia_dev_lab.Repository.Invariant.{Inv}
use ia_dev_lab.Repository.Accept.{dump, insert_batch, create_task}
use ia_dev_lab.Repository.Accept.Keys.{batch_rows}
use ia_dev_lab.Repository.Accept.Keeps.{insert_batch_ok}
use ia_dev_lab.Repository.Lease.{claim_next_item, working, open_item}
use ia_dev_lab.Repository.Finish.{
  finish_item, advance_task, finalize_rows, finalize_item, same_presence, abandon_item, fail_rows,
  fail_task,
}
use ia_dev_lab.Repository.Finish.Keeps.{finalize_rows_ok}
use ia_dev_lab.Repository.Finish.Abandon.{fail_rows_ok}
use ia_dev_lab.Repository.Retention.{
  expired, wipe_item, wipe_task, wipe_items, elapsed, orphaned, maintain_retention,
}
use ia_dev_lab.Repository.Retention.Keeps.{All-wipe}
use ia_dev_lab.Repository.Steps.{
  Call, creates, claims, renews, starts, finalizes, fails, maintains, step, run, initial,
}
use ia_dev_lab.Repository.Steps.Safety.{step-Inv, initial-Inv}
use ia_dev_lab.Repository.Steps.Privacy.{
  IsBlankItem, IsBlank, IsPrivate, unpurged_IsBlank, claim_task-IsPrivate, renew_lease-IsPrivate,
  start_next-IsPrivate, held-IsPrivate,
}

claim_next_item-IsPrivate :
    (id worker : String) (now : ℕ) (db : Db)
    → IsPrivate db
    → IsPrivate (claim_next_item id worker now db).1
unfolding claim_next_item
claim_next_item-IsPrivate id worker now db b =
    elim (Bool-cases (is_none (find (working id worker now) db.tasks))) [
      | inl e ↦ rw e b
      | inr e ↦ rw e (start_next-IsPrivate id now db b)
    ]

finalize_item-IsPrivate :
    (id worker : String) (position : ℕ) (outcome error : Option Fields) (now : ℕ) (db : Db)
    → Inv db
    → IsPrivate db
    → IsPrivate (finalize_item id worker position outcome error now db).1
unfolding finalize_item
finalize_item-IsPrivate id worker position outcome error now db v b =
    elim (Bool-cases (same_presence outcome error)) [
      | inl e ↦ rw e b
      | inr e ↦ elim (Result-cases (finalize_rows id worker position outcome error now db)) [
        | inl (x, h) ↦ rw (e, h) b
        | inr ((r, db'), h) ↦
            let f = finalize_rows_ok id worker position outcome error now db h in
            rw (e, h)
              (subst IsPrivate (sym f.after) (
                held-IsPrivate id worker db f.task (at_position id position)
                  (finish_item f.outcome_json f.error_json now)
                  (advance_task f.task (is_none error) worker now) v f.task_found (λ i. refl)
                  (λ i q. ground arith) (λ t. refl) b))
      ]
    ]

fail_task-IsPrivate :
    (id worker : String) (error : Fields) (now : ℕ) (db : Db)
    → Inv db
    → IsPrivate db
    → IsPrivate (fail_task id worker error now db).1
unfolding fail_task
fail_task-IsPrivate id worker error now db v b = elim (Result-cases (dump error)) [
  | inl (x, e) ↦ rw e b
  | inr (json, e) ↦ elim (Result-cases (fail_rows id worker json now db)) [
    | inl (x, h) ↦ rw (e, h) b
    | inr ((r, db'), h) ↦
        let f = fail_rows_ok id worker json now db h in
        rw (e, h)
          (subst IsPrivate (sym f.after) (
            held-IsPrivate id worker db f.task (open_item id) (abandon_item json now) _ v
              f.task_found (λ i. refl) (λ i q. ground arith) (λ t. refl) b))
  ]
]

-- The rows of a new batch belong to no task that was there before.
batch_apart :
    (id k : String) (n : ℕ) (batch : List (String × String))
    → k ≢ id
    → All (λ i. of_task k i ≡ true → IsBlankItem i) (batch_rows id n batch)
batch_apart id k n [] ne = tt
batch_apart id k n ((source_id, text) ∷ batch) ne =
    (λ o. absurd (ne (sym ((eq_iff id k).0 o))), batch_apart id k (suc n) batch ne)

create_task-IsPrivate :
    (id owner : String) (criteria model : Fields) (batch : List (String × String))
    (created_at expires_at : ℕ) (db : Db)
    → Inv db
    → IsPrivate db
    → IsPrivate (create_task id owner criteria model batch created_at expires_at db).1
unfolding create_task
create_task-IsPrivate id owner criteria model [] created_at expires_at db v b = b
create_task-IsPrivate id owner criteria model (i ∷ batch) created_at expires_at db v b =
    elim (Result-cases
      (insert_batch id owner criteria model (i ∷ batch) created_at expires_at db)) [
        | inl (x, e) ↦ rw e b
        | inr ((tt, d), e) ↦
            let f =
              insert_batch_ok id owner criteria model (i ∷ batch) created_at expires_at db e
                v.keys in
            rw e (
              subst IsPrivate (sym f.after) (
                All-append (IsBlank (db.items ++ batch_rows id 0 (i ∷ batch))) db.tasks _
                  (All-map (λ t. Elem t db.tasks × IsBlank db.items t) _ db.tasks
                    (λ t p. kept f.free t p.0 p.1)
                    (All-zip (λ t. Elem t db.tasks) (IsBlank db.items) db.tasks (each_row db.tasks)
                      b))
                  (unpurged_IsBlank _ _ refl, tt)))
      ]
  where
    kept :
        count (has_id id) db.tasks ≡ 0
        → (t : TaskRow) → Elem t db.tasks
        → IsBlank db.items t
        → IsBlank (db.items ++ batch_rows id 0 (i ∷ batch)) t
    kept free t m h = record {
      no_criteria = h.no_criteria;
      no_model = h.no_model;
      no_error = h.no_error;
      blank_items = λ e.
          All-append (λ i. of_task t.task_id i ≡ true → IsBlankItem i) db.items _ (h.blank_items e)
            (batch_apart id t.task_id 0 (i ∷ batch) (λ same.
              absurd
                (ground (arith, count_pos (has_id id) db.tasks m ((eq_iff t.task_id id).1 same)))));
    }

wipe-IsBlankItem : (i : ItemRow) → IsBlankItem (wipe_item i)
wipe-IsBlankItem i = record { no_text = refl; no_outcome = refl; no_error = refl }

-- The loop of the purge reaches every item of every task that it was given.
wiped_blank :
    (id : String) (ids : List String) (items : List ItemRow)
    → Elem id ids
    → All (λ i. of_task id i ≡ true → IsBlankItem i) (wipe_items ids items)
unfolding wipe_items
wiped_blank id [] items m = elim m [ ]
wiped_blank id (k ∷ ids) items (here e) =
    All-wipe (λ i. of_task id i ≡ true → IsBlankItem i) ids (update (of_task k) wipe_item items)
      (λ i _ _. wipe-IsBlankItem i)
      (All-update (λ _. Unit {0}) (λ i. of_task id i ≡ true → IsBlankItem i) (of_task k) wipe_item
        items (λ i _ _ _. wipe-IsBlankItem i) (λ i q _ o. absurd (ground arith))
        (everywhere (λ _. Unit {0}) (λ _. tt) items))
wiped_blank id (k ∷ ids) items (there m) = wiped_blank id ids (update (of_task k) wipe_item items) m

Elem-ids :
    (tasks : List TaskRow) {t : TaskRow}
    → Elem t tasks
    → Elem t.task_id (map (λ r. r.task_id) tasks)
Elem-ids [] m = elim m [ ]
Elem-ids (x ∷ tasks) (here e) = here (ap (λ r. r.task_id) e)
Elem-ids (x ∷ tasks) (there m) = there (Elem-ids tasks m)

-- The tables between the purge and the deletion.
abbrev purged_items : ℕ → Db → List ItemRow
purged_items now db = wipe_items (map (λ t. t.task_id) (select (expired now) db.tasks)) db.items

purge-IsBlank :
    (now : ℕ) (db : Db)
    → IsPrivate db
    → All (IsBlank (purged_items now db)) (update (expired now) (wipe_task now) db.tasks)
purge-IsBlank now db b =
    All-update (λ t. Elem t db.tasks × IsBlank db.items t) (IsBlank (purged_items now db))
      (expired now) (wipe_task now) db.tasks
      (λ t e p. record {
        no_criteria = λ _. refl;
        no_model = λ _. refl;
        no_error = λ _. refl;
        blank_items = λ _.
            wiped_blank t.task_id (map (λ r. r.task_id) (select (expired now) db.tasks)) db.items
              (Elem-ids (select (expired now) db.tasks) (Elem-select (expired now) db.tasks p.0 e));
      })
      (λ t _ p. record {
        no_criteria = p.1.no_criteria;
        no_model = p.1.no_model;
        no_error = p.1.no_error;
        blank_items = λ h.
            All-wipe (λ i. of_task t.task_id i ≡ true → IsBlankItem i)
              (map (λ r. r.task_id) (select (expired now) db.tasks)) db.items
              (λ i _ _. wipe-IsBlankItem i) (p.1.blank_items h);
      })
      (All-zip (λ t. Elem t db.tasks) (IsBlank db.items) db.tasks (each_row db.tasks) b)

maintain_retention-IsPrivate :
    (now tombstone : ℕ) (db : Db) → IsPrivate db → IsPrivate (maintain_retention now tombstone db).1
unfolding maintain_retention
maintain_retention-IsPrivate now tombstone db b =
    let tasks = update (expired now) (wipe_task now) db.tasks in
    All-map (IsBlank (purged_items now db)) _ (delete (elapsed now tombstone) tasks)
      (λ t h. record {
        no_criteria = h.no_criteria;
        no_model = h.no_model;
        no_error = h.no_error;
        blank_items = λ e.
            All-select (λ i. of_task t.task_id i ≡ true → IsBlankItem i)
              (λ i. not (orphaned (elapsed now tombstone) tasks i)) _ (h.blank_items e);
      })
      (All-select (IsBlank (purged_items now db)) (λ t. not (elapsed now tombstone t)) tasks
        (purge-IsBlank now db b))

step-IsPrivate : (db : Db) (c : Call) → Inv db → IsPrivate db → IsPrivate (step db c)
unfolding step
step-IsPrivate db (creates id owner criteria model items created_at expires_at) v b =
    create_task-IsPrivate id owner criteria model items created_at expires_at db v b
step-IsPrivate db (claims worker now lease_seconds) v b =
    claim_task-IsPrivate worker now lease_seconds db b
step-IsPrivate db (renews id worker now lease_seconds) v b =
    renew_lease-IsPrivate id worker now lease_seconds db b
step-IsPrivate db (starts id worker now) v b = claim_next_item-IsPrivate id worker now db b
step-IsPrivate db (finalizes id worker position outcome error now) v b =
    finalize_item-IsPrivate id worker position outcome error now db v b
step-IsPrivate db (fails id worker error now) v b = fail_task-IsPrivate id worker error now db v b
step-IsPrivate db (maintains now tombstone) v b = maintain_retention-IsPrivate now tombstone db b

run-IsPrivate : (db : Db) (calls : List Call) → Inv db → IsPrivate db → IsPrivate (run db calls)
unfolding run
run-IsPrivate db [] v b = b
run-IsPrivate db (c ∷ cs) v b =
    run-IsPrivate (step db c) cs (step-Inv db c v) (step-IsPrivate db c v b)

-- No payload of the task is left, in its row or in its items.
pub record IsWiped (items : List ItemRow) (t : TaskRow) : Type 0 where
  pub no_criteria : t.criteria_json ≡ none
  pub no_model : t.model_json ≡ none
  pub no_error : t.task_error_json ≡ none
  pub blank_items : All (λ i. of_task t.task_id i ≡ true → IsBlankItem i) items

-- After any history, no payload of a task marked as purged is left: its row has no criteria, model or
-- error, and none of its items has a text, an outcome or an error. So no call that follows the purge,
-- such as one of a worker that still held a lease, writes a payload back.
pub purged-IsWiped :
    (calls : List Call) (t : TaskRow)
    → Elem t (run initial calls).tasks
    → is_some t.purged_at ≡ true
    → IsWiped (run initial calls).items t
purged-IsWiped calls t m e =
    let h =
      All-Elem (IsBlank (run initial calls).items) (run initial calls).tasks
        (run-IsPrivate initial calls (initial-Inv) tt) m in
    record {
      no_criteria = h.no_criteria e;
      no_model = h.no_model e;
      no_error = h.no_error e;
      blank_items = h.blank_items e;
    }

-- A row that retention leaves is not over its tombstone period, and is purged if it is expired.
pub record IsRetained (now tombstone : ℕ) (t : TaskRow) : Type 0 where
  pub purged : t.expires_at ≤ now → is_some t.purged_at ≡ true
  pub kept : is_some t.purged_at ≡ true → now < t.expires_at + tombstone

-- After `maintain_retention` at `now`, on any tables, every task left whose expiry time has come is
-- marked as purged, and no purged task is left whose tombstone period is over.
pub maintain_retention-IsRetained :
    (now tombstone : ℕ) (db : Db)
    → All (IsRetained now tombstone) (maintain_retention now tombstone db).1.tasks
unfolding maintain_retention
maintain_retention-IsRetained now tombstone db =
    All-select_test (λ t. t.expires_at ≤ now → is_some t.purged_at ≡ true)
      (IsRetained now tombstone) (λ t. not (elapsed now tombstone t)) _
      (λ t q p. record { purged = p; kept = λ e. ground arith })
      (All-update (λ _. Unit {0}) (λ t. t.expires_at ≤ now → is_some t.purged_at ≡ true)
        (expired now) (wipe_task now) db.tasks (λ t _ _ _. refl) (λ t q _ e. ground arith)
        (everywhere (λ _. Unit {0}) (λ _. tt) db.tasks))
