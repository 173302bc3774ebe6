-- ===== src/Repository/Steps/Privacy.antt =====
-- What is left of a task whose retention period is over: no payload, in either table.
pub mod Runs
use ia_dev_lab.Base.{
  ℕ, ◌+◌, ◌≤◌, ◌<◌, String, Bool, true, false, not, ◌≡◌, ◌≢◌, ◌==◌, string_equality, refl, sym, ap,
  subst, ◌∙◌, inl, inr, Option, none, some, List, [], ◌∷◌, ◌++◌, map, arith, eq_iff, eq_refl,
  is_some, is_none, leb, All, everywhere, All-map, All-zip, All-update, All-select_test, All-append,
  All-Elem, Elem, each_row, find, find-Elem, find_test, select, update, count, count_pos, delete,
  key_unique, select-Elem, Option-cases, Bool-cases, Result-cases,
}
use ia_dev_lab.Json.{Fields}
use ia_dev_lab.Repository.Schema.{TaskRow, ItemRow, Db, has_id, of_task, at_position}
use ia_dev_lab.Repository.Invariant.{TaskInv, Inv}
use ia_dev_lab.Repository.Accept.{insert_batch, create_task, new_task, dump}
use ia_dev_lab.Repository.Accept.Keys.{batch_rows}
use ia_dev_lab.Repository.Accept.Keeps.{Inserted, insert_batch_ok}
use ia_dev_lab.Repository.Lease.{
  first_by, claimable, older, lease_to, claim_row, claim_task, renewable, renew_lease, start_next,
  start_item, claim_next_item, working, open_item, earlier,
}
use ia_dev_lab.Repository.Lease.Keeps.{first_by-Elem}
use ia_dev_lab.Repository.Finish.{
  leased, finish_item, advance_task, finalize_rows, finalize_item, same_presence, abandon_item,
  abandon_task, fail_rows, fail_task,
}
use ia_dev_lab.Repository.Finish.Keeps.{Finalized, finalize_rows_ok, leased_id, position_id}
use ia_dev_lab.Repository.Finish.Abandon.{Abandoned, fail_rows_ok}
use ia_dev_lab.Repository.Retention.{
  expired, wipe_item, wipe_task, wipe_items, elapsed, orphaned, maintain_retention,
}
use ia_dev_lab.Repository.Steps.{
  Call, creates, claims, renews, starts, finalizes, fails, maintains, step, run,
}

pub record IsBlankItem (i : ItemRow) : Type 0 where
  pub no_text : i.source_text ≡ none
  pub no_outcome : i.outcome_json ≡ none
  pub no_error : i.error_json ≡ none

-- Neither the row of a purged task nor its items hold a payload.
pub record IsBlank (items : List ItemRow) (t : TaskRow) : Type 0 where
  pub no_criteria : is_some t.purged_at ≡ true → t.criteria_json ≡ none
  pub no_model : is_some t.purged_at ≡ true → t.model_json ≡ none
  pub no_error : is_some t.purged_at ≡ true → t.task_error_json ≡ none
  pub blank_items :
      is_some t.purged_at ≡ true → All (λ i. of_task t.task_id i ≡ true → IsBlankItem i) items

abbrev pub IsPrivate : Db → Type 0
IsPrivate db = All (IsBlank db.items) db.tasks

-- Items of another task may change freely.
IsBlank-update :
    (p : ItemRow → Bool) (g : ItemRow → ItemRow) (items : List ItemRow) (t : TaskRow)
    → ((i : ItemRow) → of_task t.task_id (g i) ≡ of_task t.task_id i)
    → (is_some t.purged_at ≡ true
        → (i : ItemRow) → p i ≡ true
        → of_task t.task_id i ≡ true
        → IsBlankItem i
        → IsBlankItem (g i))
    → IsBlank items t
    → IsBlank (update p g items) t
IsBlank-update p g items t keeps safe h = record {
  no_criteria = h.no_criteria;
  no_model = h.no_model;
  no_error = h.no_error;
  blank_items = λ e.
      All-update (λ i. of_task t.task_id i ≡ true → IsBlankItem i) _ p g items
        (λ i q b o. let o' = sym (keeps i) ∙ o in safe e i q o' (b o')) (λ i _ b. b)
        (h.blank_items e);
}

-- A task whose row has just been read under a lease is not purged, so a purged one is another.
held_not_purged :
    (id worker : String) (items : List ItemRow) (t : TaskRow)
    → TaskInv items t
    → leased id worker t ≡ true
    → t.purged_at ≡ none
held_not_purged id worker items t h l = ground arith

pub claim_task-IsPrivate :
    (worker : String) (now lease_seconds : ℕ) (db : Db)
    → IsPrivate db
    → IsPrivate (claim_task worker now lease_seconds db).1
unfolding claim_task
claim_task-IsPrivate worker now lease_seconds db b =
    elim (Option-cases (first_by older (select (claimable now) db.tasks))) [
      | inl e ↦ rw (e, claim_row) b
      | inr (row, e) ↦
          rw (e, claim_row)
            (All-update (IsBlank db.items) (IsBlank db.items) (has_id row.task_id) _ db.tasks
              (λ t _ h. record {
                no_criteria = h.no_criteria;
                no_model = h.no_model;
                no_error = h.no_error;
                blank_items = h.blank_items;
              })
              (λ t _ h. h) b)
    ]

pub renew_lease-IsPrivate :
    (id worker : String) (now lease_seconds : ℕ) (db : Db)
    → IsPrivate db
    → IsPrivate (renew_lease id worker now lease_seconds db).1
unfolding renew_lease
renew_lease-IsPrivate id worker now lease_seconds db b =
    All-update (IsBlank db.items) (IsBlank db.items) (renewable id worker) _ db.tasks
      (λ t _ h. record {
        no_criteria = h.no_criteria;
        no_model = h.no_model;
        no_error = h.no_error;
        blank_items = h.blank_items;
      })
      (λ t _ h. h) b

pub start_next-IsPrivate :
    (id : String) (now : ℕ) (db : Db) → IsPrivate db → IsPrivate (start_next id now db).1
unfolding start_next
start_next-IsPrivate id now db b =
    elim (Option-cases (first_by earlier (select (open_item id) db.items))) [
      | inl e ↦ rw (e, start_next) b
      | inr (row, e) ↦
          rw (e, start_next)
            (All-map (IsBlank db.items) _ db.tasks
              (λ t h.
                IsBlank-update (at_position id row.position) (start_item now) db.items t (λ i. refl)
                  (λ _ i _ _ k. record {
                    no_text = k.no_text;
                    no_outcome = k.no_outcome;
                    no_error = k.no_error;
                  })
                  h)
              b)
    ]

pub unpurged_IsBlank : (items : List ItemRow) (t : TaskRow) → t.purged_at ≡ none → IsBlank items t
unpurged_IsBlank items t e = record {
  no_criteria = λ h. absurd (ground arith);
  no_model = λ h. absurd (ground arith);
  no_error = λ h. absurd (ground arith);
  blank_items = λ h. absurd (ground arith);
}

-- A change of one held task and of its items alone.
pub held-IsPrivate :
    (id worker : String) (db : Db) (task : TaskRow) (p : ItemRow → Bool) (g : ItemRow → ItemRow)
    (f : TaskRow → TaskRow)
    → Inv db
    → find (leased id worker) db.tasks ≡ some task
    → ((i : ItemRow) → (g i).task_id ≡ i.task_id)
    → ((i : ItemRow) → p i ≡ true → of_task id i ≡ true)
    → ((t : TaskRow) → (f t).purged_at ≡ t.purged_at)
    → IsPrivate db
    → IsPrivate (record { tasks = update (has_id id) f db.tasks; items = update p g db.items })
held-IsPrivate id worker db task p g f v e keeps_item only keeps_task b =
    All-update (λ t. IsBlank db.items t × (has_id id t ≡ true → t.purged_at ≡ none))
      (IsBlank (update p g db.items)) (has_id id) f db.tasks
      (λ t q h. unpurged_IsBlank (update p g db.items) (f t) (keeps_task t ∙ h.1 q))
      (λ t q h.
        IsBlank-update p g db.items t (λ i. ap (λ k. k == t.task_id) (keeps_item i))
          (λ _ i r o _. absurd (
            ground (
              arith,
              only i r,
              eq_iff i.task_id id,
              eq_iff i.task_id t.task_id,
              eq_refl t.task_id,
            )))
          h.0)
      (All-zip (IsBlank db.items) (λ t. has_id id t ≡ true → t.purged_at ≡ none) db.tasks b
        (All-map (λ t. has_id id t ≡ true → t ≡ task) _ db.tasks
          (λ t u q. ap (λ r. r.purged_at) (u q) ∙ unpurged)
          (key_unique (has_id id) db.tasks (v.task_key id) m ((eq_iff task.task_id id).1 same))))
  where
    m : Elem task db.tasks
    m = find-Elem (leased id worker) db.tasks e

    same : task.task_id ≡ id
    same = leased_id id worker task (find_test (leased id worker) db.tasks e)

    unpurged : task.purged_at ≡ none
    unpurged =
        held_not_purged id worker db.items task (All-Elem (TaskInv db.items) db.tasks v.rows m)
          (find_test (leased id worker) db.tasks e)
