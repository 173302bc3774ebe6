-- ===== src/Repository/Status.antt =====
-- What `get_status` tells the owner of a task, and that it tells nobody else.
use ia_dev_lab.Base.{
  String, true, ◌≡◌, refl, ◌∙◌, inl, inr, Option, none, some, arith, eq_iff, string_equality, ◌≤◌,
  Elem, find, find-Elem, find_test, find_key, count, count_mono, Option-cases, Result, ok,
}
use ia_dev_lab.Models.{TaskRecord}
use ia_dev_lab.Repository.Schema.{TaskRow, Db, has_id}
use ia_dev_lab.Repository.Invariant.{Inv}
use ia_dev_lab.Repository.Reads.{owned_by, get_status}
use ia_dev_lab.Repository.Steps.Safety.{get_status-total}

-- The task of that id is the owner's.
pub record IsOwned (id owner : String) (t : TaskRow) : Type 0 where
  pub same_task : t.task_id ≡ id
  pub same_owner : t.owner_id ≡ owner

-- The lifecycle, the counters and the error of a row, without its payload and its lease.
pub record IsPublic (row : TaskRow) (r : TaskRecord) : Type 0 where
  pub task_id : r.task_id ≡ row.task_id
  pub owner_id : r.owner_id ≡ row.owner_id
  pub status : r.status ≡ row.status
  pub accepted_count : r.accepted_count ≡ row.accepted_count
  pub processed_count : r.processed_count ≡ row.processed_count
  pub successful_count : r.successful_count ≡ row.successful_count
  pub failed_count : r.failed_count ≡ row.failed_count
  pub created_at : r.created_at ≡ row.created_at
  pub updated_at : r.updated_at ≡ row.updated_at
  pub expires_at : r.expires_at ≡ row.expires_at
  pub started_at : r.started_at ≡ row.started_at
  pub completed_at : r.completed_at ≡ row.completed_at
  pub purged_at : r.purged_at ≡ row.purged_at
  pub error : r.error ≡ row.task_error_json
  pub no_criteria : r.criteria ≡ none
  pub no_model : r.model ≡ none
  pub no_owner : r.lease_owner ≡ none
  pub no_lease : r.lease_expires_at ≡ none

pub record StatusAnswer (id owner : String) (db : Db) (answer : Result (Option TaskRecord))
    : Type 0 where
  pub owned :
      (row : TaskRow)
      → Elem row db.tasks
      → IsOwned id owner row
      → (r : TaskRecord) × (answer ≡ ok (some r)) × IsPublic row r
  pub not_owned : ((t : TaskRow) → Elem t db.tasks → IsOwned id owner t → ⊥) → answer ≡ ok none

owned_by-IsOwned :
    (id owner : String) (t : TaskRow) → owned_by id owner t ≡ true → IsOwned id owner t
owned_by-IsOwned id owner t e = record {
  same_task = (eq_iff t.task_id id).0 (ground arith);
  same_owner = (eq_iff t.owner_id owner).0 (ground arith);
}

IsOwned-owned_by :
    (id owner : String) (t : TaskRow) → IsOwned id owner t → owned_by id owner t ≡ true
IsOwned-owned_by id owner t h =
    rw ((eq_iff t.task_id id).1 h.same_task, (eq_iff t.owner_id owner).1 h.same_owner)

owned_by_unique : (id owner : String) (db : Db) → Inv db → count (owned_by id owner) db.tasks ≤ 1
owned_by_unique id owner db v = omega (
  arith,
  count_mono (owned_by id owner) (has_id id) db.tasks (λ t e. ground arith),
  v.task_key id,
)

-- On good tables `get_status` never raises. For the row of that id and that owner it gives the
-- identity, the status, the counters, the times and the error of the row, with neither criteria nor
-- model nor lease; an owner who has no task of that id gets nothing.
pub get_status-IsPublic :
    (id owner : String) (db : Db) → Inv db → StatusAnswer id owner db (get_status id owner db)
get_status-IsPublic id owner db v = record {
  owned = λ row m h. (
    _,
    get_status-total id owner db v
        ∙ rw
            (find_key (owned_by id owner) db.tasks {r = row} (owned_by_unique id owner db v) m
              (IsOwned-owned_by id owner row h))
            refl,
    record {
      task_id = refl;
      owner_id = refl;
      status = refl;
      accepted_count = refl;
      processed_count = refl;
      successful_count = refl;
      failed_count = refl;
      created_at = refl;
      updated_at = refl;
      expires_at = refl;
      started_at = refl;
      completed_at = refl;
      purged_at = refl;
      error = refl;
      no_criteria = refl;
      no_model = refl;
      no_owner = refl;
      no_lease = refl;
    },
  );
  not_owned = λ none_owned. elim (Option-cases (find (owned_by id owner) db.tasks)) [
    | inl e ↦ get_status-total id owner db v ∙ rw e refl
    | inr (row, e) ↦ absurd (
        none_owned row (find-Elem (owned_by id owner) db.tasks e)
          (owned_by-IsOwned id owner row (find_test (owned_by id owner) db.tasks e)))
  ];
}
