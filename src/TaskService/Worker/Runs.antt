-- ===== src/TaskService/Worker/Runs.antt =====
-- The worker's steps and its loop end, and are histories of the repository.
use ia_dev_lab.Base.{
  ℕ, zero, suc, ◌<◌, String, Bool, true, false, ◌≡◌, refl, sym, subst, Option, none, some, List,
  All, All-map, Result, ok, err, arith,
}
use ia_dev_lab.Models.{TaskRecord}
use ia_dev_lab.Repository.Schema.{Db}
use ia_dev_lab.Repository.Invariant.{Inv}
use ia_dev_lab.Repository.Steps.{Call}
use ia_dev_lab.Repository.Steps.Safety.{run-Inv}
use ia_dev_lab.Repository.Steps.OpenItems.{open_count, Spares, run-Open}
use ia_dev_lab.TaskService.{World, TaskService, maintain, ◌>>◌}
use ia_dev_lab.TaskService.Worker.{
  process_claimed_task, with_answer, process_claim, claim_call, run_worker_step, next_step,
  worker_loop,
}
use ia_dev_lab.TaskService.Worker.Ends.{Ends, worker-Spares, process_claimed_task-Ends}
use ia_dev_lab.TaskService.Histories.{
  is_submission, Follows, Allowed, Follows-refl, Follows-trans, Follows-Allowed,
}
use ia_dev_lab.TaskService.Histories.Refines.{
  EndFollows, maintain-Follows, claim_call-Follows, run_worker_step-Follows, worker_loop-Follows,
}
use ia_dev_lab.TaskService.Histories

-- Calls that submit nothing.
abbrev pub Works : Call → Type 0
Works c = is_submission c ≡ false

Works-all : (c : Call) → is_submission c ≡ false → Works c
Works-all c h = h

Works-Spares : (id : String) (cs : List Call) → All Works cs → All (Spares id) cs
Works-Spares id cs a = All-map Works (Spares id) cs (worker-Spares id) a

-- The tables are good, and the fuel is more than any task has open items.
pub record Fueled (fuel : ℕ) (w : World) : Type 0 where
  pub good : Inv w.db
  pub enough : (id : String) → open_count id w.db < fuel

Follows-Fueled : (fuel : ℕ) (w w' : World) → Follows Works w w' → Fueled fuel w → Fueled fuel w'
Follows-Fueled fuel w w' f h = record {
  good = subst Inv (sym f.reached) (run-Inv w.db f.calls h.good);
  enough = λ id.
      subst (λ (d : Db). open_count id d < fuel) (sym f.reached)
        (omega (
          arith,
          h.enough id,
          run-Open id f.calls w.db h.good (Works-Spares id f.calls f.allowed),
        ));
}

with_answer-Ends :
    (b : Bool) (o : Option (Result (Unit {0}) × World)) → Ends o → Ends (with_answer b o)
with_answer-Ends b none (r, e) = absurd (ground arith)
with_answer-Ends b (some (ok t, w)) p = ((ok b, w), refl)
with_answer-Ends b (some (err e, w)) p = ((err e, w), refl)

process_claim-Ends :
    (fuel : ℕ) (s : TaskService) (worker : String) (r : Result (Option TaskRecord) × World)
    → Allowed Works r.1
    → Fueled fuel r.1
    → Ends (process_claim fuel s worker r)
process_claim-Ends fuel s worker (err e, w) a h = (_, refl)
process_claim-Ends fuel s worker (ok none, w) a h = (_, refl)
process_claim-Ends fuel s worker (ok (some task), w) a h =
    with_answer-Ends true (process_claimed_task fuel s task worker w) (
      process_claimed_task-Ends fuel s task worker w h.good
        (λ k. Works-Spares task.task_id (w.others k) (a k)) (h.enough task.task_id))

claiming-Follows :
    (s : TaskService) (worker : String) (w : World)
    → Allowed Works w
    → Follows Works w ((maintain s >> claim_call s worker) w).1
claiming-Follows s worker w a =
    Histories.continue-Follows Works {A = ℕ × ℕ} {B = Option TaskRecord} (λ _. claim_call s worker)
      w (maintain s w) a (maintain-Follows Works Works-all s w a)
      (λ _ u b. claim_call-Follows Works Works-all s worker u b)

run_worker_step-Ends :
    (fuel : ℕ) (s : TaskService) (worker : String) (w : World)
    → Allowed Works w
    → Fueled fuel w
    → Ends (run_worker_step fuel s worker w)
unfolding run_worker_step
run_worker_step-Ends fuel s worker w a h =
    let r = (maintain s >> claim_call s worker) w in
    let f = claiming-Follows s worker w a in
    process_claim-Ends fuel s worker r (Follows-Allowed Works w r.1 f a)
      (Follows-Fueled fuel w r.1 f h)

-- A run that has ended, and the history that it is.
pub record IsHistory {A : Type 0} (w : World) (o : Option (Result A × World)) : Type 0 where
  pub result : Result A
  pub last : World
  pub ended : o ≡ some (result, last)
  pub history : Follows Works w last
  pub good : Inv last.db

IsHistory-of :
    {A : Type 0} (w : World) (o : Option (Result A × World))
    → Inv w.db
    → Ends o
    → EndFollows Works Works-all w o
    → IsHistory w o
IsHistory-of w none v (r, e) f = absurd (ground arith)
IsHistory-of w (some (a, u)) v p f = record {
  result = a;
  last = u;
  ended = refl;
  history = f;
  good = subst Inv (sym f.reached) (run-Inv w.db f.calls v);
}

-- One step of the worker comes to an end, with the fuel and while no other client submits, and the
-- tables are then what some calls of the repository without a submission make of them.
pub run_worker_step-IsHistory :
    (fuel : ℕ) (s : TaskService) (worker : String) (w : World)
    → Allowed Works w
    → Fueled fuel w
    → IsHistory w (run_worker_step fuel s worker w)
run_worker_step-IsHistory fuel s worker w a h =
    IsHistory-of w (run_worker_step fuel s worker w) h.good
      (run_worker_step-Ends fuel s worker w a h)
      (run_worker_step-Follows Works Works-all fuel s worker w a)

next_step-Ends :
    (again : World → Option (Result (Unit {0}) × World)) (w : World)
    (o : Option (Result Bool × World))
    → IsHistory w o
    → ((u : World) → Follows Works w u → Ends (again u))
    → Ends (next_step again o)
next_step-Ends again w none p h = absurd (ground (arith, p.ended))
next_step-Ends again w (some (ok b, u)) p h =
    let same : p.last ≡ u = ground (arith, p.ended) in
    h u (subst (λ (v : World). Follows Works w v) same p.history)
next_step-Ends again w (some (err e, u)) p h = (_, refl)

worker_loop-Ends :
    (rounds fuel : ℕ) (s : TaskService) (worker : String) (w : World)
    → Allowed Works w
    → Fueled fuel w
    → Ends (worker_loop rounds fuel s worker w)
unfolding worker_loop
worker_loop-Ends zero fuel s worker w a h = (_, refl)
worker_loop-Ends (suc rounds) fuel s worker w a h =
    next_step-Ends (worker_loop rounds fuel s worker) w (run_worker_step fuel s worker w)
      (run_worker_step-IsHistory fuel s worker w a h)
      (λ u f.
        worker_loop-Ends rounds fuel s worker u (Follows-Allowed Works w u f a)
          (Follows-Fueled fuel w u f h))

-- The same of a number of steps.
pub worker_loop-IsHistory :
    (rounds fuel : ℕ) (s : TaskService) (worker : String) (w : World)
    → Allowed Works w
    → Fueled fuel w
    → IsHistory w (worker_loop rounds fuel s worker w)
worker_loop-IsHistory rounds fuel s worker w a h =
    IsHistory-of w (worker_loop rounds fuel s worker w) h.good
      (worker_loop-Ends rounds fuel s worker w a h)
      (worker_loop-Follows Works Works-all rounds fuel s worker w a)
