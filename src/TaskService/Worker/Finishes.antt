-- ===== src/TaskService/Worker/Finishes.antt =====
-- A worker that works alone finishes the task that it claims.
use ia_dev_lab.Base.{
  ℕ, suc, ◌+◌, ◌<◌, String, Bool, true, false, ◌≡◌, refl, sym, ap, subst, ◌∙◌, inl, inr, Option,
  some, List, All, Result, ok, arith, eq_refl, Elem, Elem-update,
}
use ia_dev_lab.Models.{TaskRecord, is_terminal}
use ia_dev_lab.Repository.Schema.{TaskRow, Db, has_id}
use ia_dev_lab.Repository.Invariant.{Inv}
use ia_dev_lab.Repository.Reads.{to_record}
use ia_dev_lab.Repository.Lease.{claimable, lease_to, claim_task}
use ia_dev_lab.Repository.Lease.Keeps.{claim_task-Inv}
use ia_dev_lab.Repository.Lease.Claims.{IsOldest, claimed, claim_task-total}
use ia_dev_lab.Repository.Finish.Lease.{IsHeld, IsFinished}
use ia_dev_lab.Repository.Retention.{maintain_retention}
use ia_dev_lab.Repository.Retention.Keeps.{maintain_retention-Inv}
use ia_dev_lab.Repository.Steps.{Call}
use ia_dev_lab.TaskService.{World, TaskService, now, after_call, continue, retention_call, maintain}
use ia_dev_lab.TaskService.Histories.{Allowed}
use ia_dev_lab.TaskService.Worker.Runs.{Works, Fueled, run_worker_step-IsHistory}
use ia_dev_lab.TaskService.Worker.Ends.{Ends}
use ia_dev_lab.TaskService.Worker.{with_answer, process_claim, claim_call, run_worker_step}
use ia_dev_lab.TaskService.Worker.Rounds.{
  IsAlone, call-alone, TaskEnd, out_of_fuel, done, process_claimed_task-TaskEnd,
}

-- The tables that the claim of a step finds: those that maintenance leaves.
abbrev pub maintained : TaskService → World → Db
maintained s w = (maintain_retention (now w) s.tombstone w.db).1

-- The time of the claim.
abbrev pub claim_time : World → ℕ
claim_time w = w.clock (suc w.tick)

-- What a step of a worker that is alone comes to.
pub data StepEnd (s : TaskService) (w : World) : Option (Result Bool × World) → Type 0 where
  idle :
      (w' : World)
      → All (λ t. claimable (claim_time w) t ≡ false) (maintained s w).tasks
      → w'.db ≡ maintained s w
      → StepEnd s w (some (ok false, w'))
  worked :
      (row : TaskRow) (w' : World)
      → IsOldest (claim_time w) (maintained s w).tasks row
      → IsFinished row.task_id w'.db
      → StepEnd s w (some (ok true, w'))

claimed-IsHeld :
    (worker : String) (now lease : ℕ) (db : Db) (row : TaskRow)
    → IsOldest now db.tasks row
    → Inv (claimed worker now lease row db)
    → IsHeld row.task_id worker (claimed worker now lease row db)
unfolding is_terminal
claimed-IsHeld worker now lease db row o good = record {
  inv = good;
  row = lease_to worker (now + lease) now row;
  there =
      subst (λ (t : TaskRow). Elem t (claimed worker now lease row db).tasks)
        (rw (eq_refl row.task_id))
        (Elem-update (has_id row.task_id) (lease_to worker (now + lease) now) db.tasks o.present);
  named = refl;
  held = refl;
  running = refl;
}

worked-StepEnd :
    (s : TaskService) (w : World) (row : TaskRow) (o : Option (Result (Unit {0}) × World))
    → IsOldest (claim_time w) (maintained s w).tasks row
    → Ends (with_answer true o)
    → TaskEnd row.task_id o
    → StepEnd s w (with_answer true o)
worked-StepEnd s w row o old (r, e) out_of_fuel = absurd (ground arith)
worked-StepEnd s w row o old e (done u h) = worked row u old h.here

-- The world in which the claim is made.
abbrev claim_world : TaskService → World → World
claim_world s w = record w { db = maintained s w; tick = suc w.tick }

claim-StepEnd :
    (fuel : ℕ) (s : TaskService) (worker : String) (w : World)
    → 0 < s.lease
    → IsAlone w
    → Inv (maintained s w)
    → Ends (process_claim fuel s worker (claim_call s worker (claim_world s w)))
    → StepEnd s w (process_claim fuel s worker (claim_call s worker (claim_world s w)))
claim-StepEnd fuel s worker w positive a good ends =
    let u = claim_world s w in
    let at = claim_time w in
    let asked = call-alone (claim_task worker at s.lease) u a in
    elim (claim_task-total worker at s.lease (maintained s w) good) [
      | inl (none_there, e) ↦
          subst
            (λ (r : Result (Option TaskRecord) × World).
              StepEnd s w (process_claim fuel s worker r))
            (sym (asked ∙ ap (after_call u) e)) (idle _ none_there refl)
      | inr (row, o, e) ↦
          let answer = asked ∙ ap (after_call u) e in
          let task = to_record (lease_to worker (at + s.lease) at row) true in
          let v = (after_call u (claim_task worker at s.lease (maintained s w))).1 in
          let held = claimed-IsHeld worker at s.lease (maintained s w) row o (
            subst (λ (r : Result (Option TaskRecord) × Db). Inv r.1) e
              (claim_task-Inv worker at s.lease (maintained s w) good)) in
          subst
            (λ (r : Result (Option TaskRecord) × World).
              StepEnd s w (process_claim fuel s worker r))
            (sym answer)
            (worked-StepEnd s w row _ o
              (subst
                (λ (r : Result (Option TaskRecord) × World). Ends (process_claim fuel s worker r))
                answer ends)
              (process_claimed_task-TaskEnd fuel s task worker _ positive
                (record { alone = a; here = held })))
    ]

-- A worker that works alone makes progress. On good tables, with a positive lease and enough fuel, no
-- other client calling the repository, one step of the worker returns, whatever the clock shows and
-- whatever the providers return or raise. Either no task of the tables that maintenance leaves can be
-- claimed, and then it returns False and has changed nothing more; or it returns True, and the oldest
-- claimable task has then reached a terminal status, on good tables.
pub run_worker_step-finishes :
    (fuel : ℕ) (s : TaskService) (worker : String) (w : World)
    → 0 < s.lease
    → IsAlone w
    → Fueled fuel w
    → StepEnd s w (run_worker_step fuel s worker w)
unfolding run_worker_step maintain
run_worker_step-finishes fuel s worker w positive a h =
    let quiet : Allowed Works w = λ k. subst (λ (o : ℕ → List Call). All Works (o k)) (sym a) tt in
    let past = run_worker_step-IsHistory fuel s worker w quiet h in
    let first = call-alone (retention_call s (now w)) w a in
    subst
      (λ (r : Result (ℕ × ℕ) × World). StepEnd s w (
        process_claim fuel s worker
          (continue {A = ℕ × ℕ} {B = Option TaskRecord} (λ _. claim_call s worker) r)))
      (sym first)
      (claim-StepEnd fuel s worker w positive a
        (maintain_retention-Inv (now w) s.tombstone w.db h.good)
        (subst
          (λ (r : Result (ℕ × ℕ) × World). Ends (
            process_claim fuel s worker
              (continue {A = ℕ × ℕ} {B = Option TaskRecord} (λ _. claim_call s worker) r)))
          first ((past.result, past.last), past.ended)))
