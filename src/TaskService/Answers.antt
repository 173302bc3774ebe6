-- ===== src/TaskService/Answers.antt =====
-- What the readers of src/task_service.py answer.
use ia_dev_lab.Base.{
  suc, String, false, ◌≡◌, refl, ap, ◌∙◌, inl, inr, Option, none, some, List, [], find, is_some,
  if◌then◌else◌, Bool-cases, Result, ok, err, task_not_found, task_expired,
}
use ia_dev_lab.Models.{TaskRecord, ItemRecord, is_purged}
use ia_dev_lab.Repository.Schema.{TaskRow, Db}
use ia_dev_lab.Repository.Invariant.{Inv}
use ia_dev_lab.Repository.Retention.{maintain_retention}
use ia_dev_lab.Repository.Retention.Keeps.{maintain_retention-Inv}
use ia_dev_lab.Repository.Reads.{owned_by, status_columns, to_record}
use ia_dev_lab.Repository.Reads
use ia_dev_lab.Repository.Steps.Safety.{run-Inv, get_status-total}
use ia_dev_lab.TaskService.{
  World, TaskService, found_db, now, call, continue, maintain, require_live, require_results,
  get_status, get_results,
}

-- The world in which a reader reads, after its maintenance.
abbrev pub read_world : TaskService → World → World
read_world s w = record w {
  db = (maintain_retention (now w) s.tombstone (found_db w)).1;
  tick = suc w.tick;
}

-- The tables that it reads.
abbrev pub read_db : TaskService → World → Db
read_db s w = found_db (read_world s w)

pub read_db-Inv : (s : TaskService) (w : World) → Inv w.db → Inv (read_db s w)
read_db-Inv s w v =
    run-Inv (read_world s w).db (w.others (suc w.tick))
      (maintain_retention-Inv (now w) s.tombstone (found_db w) (run-Inv w.db (w.others w.tick) v))

abbrev pub after_read : TaskService → World → World
after_read s w = record w { db = read_db s w; tick = suc (suc w.tick) }

-- The answer of `get_status` to the owner of a row, if there is one.
abbrev pub live_status : Option TaskRow → Result TaskRecord
live_status none = err task_not_found
live_status (some row) =
    if is_some row.purged_at then err task_expired else ok (to_record (status_columns row) false)

required :
    (s : TaskService) (w : World) (o : Option TaskRow)
    → require_live
        (elim o [ none ↦ none | some row ↦ some (to_record (status_columns row) false) ])
        w
      ≡ (live_status o, w)
unfolding require_live is_purged
required s w none = refl
required s w (some row) = elim (Bool-cases (is_some row.purged_at)) [ inl e ↦ rw e | inr e ↦ rw e ]

-- On good tables `get_status` raises TaskNotFoundError where the owner has no task of the id after the
-- maintenance that it starts with, TaskExpiredError where the task is purged, and otherwise returns
-- the task's lifecycle and counters; it raises nothing else.
pub get_status-live :
    (s : TaskService) (owner id : String) (w : World)
    → Inv w.db
    → get_status s owner id w
      ≡ (live_status (find (owned_by id owner) (read_db s w).tasks), after_read s w)
unfolding get_status maintain call
get_status-live s owner id w v =
    ap (λ (r : Result (Option TaskRecord)). continue require_live (r, after_read s w))
      (get_status-total id owner (read_db s w) (read_db-Inv s w v))
    ∙ required s (after_read s w) (find (owned_by id owner) (read_db s w).tasks)

absent :
    (id owner : String) (db : Db)
    → find (owned_by id owner) db.tasks ≡ none
    → Reads.get_results id owner db ≡ ok (none, [])
unfolding Reads.get_results
absent id owner db e = rw (e, Reads.get_results)

-- `get_results` raises TaskNotFoundError where the owner has no task of the id.
pub get_results-hidden :
    (s : TaskService) (owner id : String) (w : World)
    → find (owned_by id owner) (read_db s w).tasks ≡ none
    → get_results s owner id w ≡ (err task_not_found, after_read s w)
unfolding get_results maintain call
get_results-hidden s owner id w e =
    ap
      (λ (r : Result (Option TaskRecord × List ItemRecord)).
        continue require_results (r, after_read s w))
      (absent id owner (read_db s w) e)
