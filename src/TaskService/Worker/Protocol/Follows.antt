-- ===== src/TaskService/Worker/Protocol/Follows.antt =====
-- The worker keeps the protocol.
use ia_dev_lab.Base.{
  ℕ, zero, suc, String, Bool, true, false, not, ◌≡◌, refl, sym, ap, subst, Option, none, some, List,
  Error, value_error, Result, ok, err,
}
use ia_dev_lab.Json.{Fields}
use ia_dev_lab.Extraction.{
  ResolvedModelReference, ExtractionOutcome, OutcomeStatus, process_source_with_model, text_or,
}
use ia_dev_lab.Models.{TaskRecord, ItemRecord, is_terminal}
use ia_dev_lab.Repository.Schema.{Db}
use ia_dev_lab.Repository.Invariant.{Inv}
use ia_dev_lab.Repository.Lease.{claim_task, renew_lease, claim_next_item}
use ia_dev_lab.Repository.Finish.{same_presence, finalize_item, fail_task}
use ia_dev_lab.Repository.Steps.{starts, finalizes, fails, maintains, claims, step}
use ia_dev_lab.TaskService.{
  World, TaskService, now, found_db, after_call, call, continue, return, maintain,
}
use ia_dev_lab.TaskService.Stored.{snapshot}
use ia_dev_lab.TaskService.Worker.{
  stored_outcome, lease_kept, process_item, round, next_round as go_on, loop, failure_fields,
  failure_detail, give_up, ignore_value_error, or_give_up, attempt, process_claimed_task,
  with_answer, process_claim, run_worker_step, next_step, worker_loop,
}
use ia_dev_lab.TaskService.Worker.Runs.{Works, Fueled, worker_loop-IsHistory}
use ia_dev_lab.TaskService.Histories.{Allowed}
use ia_dev_lab.TaskService.Worker.Protocol.{
  made, FinishRun, finish_raised, finished, StartRun, start_raised, nothing_left, item_claimed,
  RoundRun, lease_lost, renewed, LoopRun, last_round, round_raised, next_round, forgiven, is_ok,
  TaskRun, all_rounds, unreadable, rounds_raised, ClaimRun, claim_raised, idle, worked, work_raised,
  WorkerRun, stopped, step_raised, stepped,
}

stored_outcome-presence :
    (names : List String) (st : OutcomeStatus) (o : ExtractionOutcome)
    → same_presence (stored_outcome names st o).0 (stored_outcome names st o).1 ≡ false
stored_outcome-presence names OutcomeStatus.completed o = refl
stored_outcome-presence names OutcomeStatus.failed o = refl

module _ (id worker : String) where
  written-FinishRun :
      (item : ItemRecord) (outcome error : Option Fields) (w : World) (a : Result TaskRecord)
      → same_presence outcome error ≡ false
      → (finalize_item id worker item.position outcome error (now w) (found_db w)).0 ≡ a
      → let u = made (finalizes id worker item.position outcome error (now w)) w in
        let r = continue {B = Bool} (λ t. return (not (is_terminal t.status))) (a, u) in
        FinishRun id worker item w r.0 r.1
  written-FinishRun item outcome error w (ok t) one e = finished outcome error t one e refl refl
  written-FinishRun item outcome error w (err x) one e =
      finish_raised outcome error x one e refl refl

  item-FinishRun :
      (s : TaskService) (names : List String) (item : ItemRecord) (w : World)
      → let r = process_item s id worker names (some item) w in FinishRun id worker item w r.0 r.1
  unfolding process_item call step
  item-FinishRun s names item w =
      let o =
        process_source_with_model s.extraction item.source_id (text_or item.source_text "") names in
      let stored = stored_outcome names o.status o in
      written-FinishRun item stored.0 stored.1 w
        (finalize_item id worker item.position stored.0 stored.1 (now w) (found_db w)).0
        (stored_outcome-presence names o.status o) refl

  claimed-StartRun :
      (s : TaskService) (names : List String) (at : ℕ) (w : World) (a : Result (Option ItemRecord))
      → (claim_next_item id worker at (found_db w)).0 ≡ a
      → let r =
          continue {B = Bool} (process_item s id worker names) (a, made (starts id worker at) w) in
        StartRun id worker at w r.0 r.1
  unfolding process_item
  claimed-StartRun s names at w (ok none) e = nothing_left e refl refl
  claimed-StartRun s names at w (ok (some item)) e =
      item_claimed item e (item-FinishRun s names item (made (starts id worker at) w))
  claimed-StartRun s names at w (err x) e = start_raised x e refl refl

  start-StartRun :
      (s : TaskService) (names : List String) (at : ℕ) (w : World)
      → let r =
          continue {B = Bool}
            (process_item s id worker names)
            (call (claim_next_item id worker at) w) in
        StartRun id worker at w r.0 r.1
  unfolding call step
  start-StartRun s names at w =
      claimed-StartRun s names at w (claim_next_item id worker at (found_db w)).0 refl

  kept-RoundRun :
      (s : TaskService) (names : List String) (w : World) (a : Bool × Db)
      → renew_lease id worker (now w) s.lease (found_db w) ≡ a
      → let r =
          continue {A = Unit {0}} {B = Bool}
            (λ _ v.
              continue {A = Option ItemRecord} {B = Bool}
                (process_item s id worker names)
                (call (claim_next_item id worker (now w)) v))
            (after_call w (lease_kept a)) in
        RoundRun s.lease id worker w r.0 r.1
  unfolding step
  kept-RoundRun s names w (true, db) e = renewed (ap (λ (a : Bool × Db). a.0) e) (
      subst
        (λ (d : Db).
          let r =
            continue {A = Option ItemRecord} {B = Bool} (process_item s id worker names) (
              call (claim_next_item id worker (now w)) (record w { db = db; tick = suc w.tick })) in
          StartRun id worker (now w) (record w { db = d; tick = suc w.tick }) r.0 r.1)
        (sym (ap (λ (a : Bool × Db). a.1) e))
        (start-StartRun s names (now w) (record w { db = db; tick = suc w.tick })))
  kept-RoundRun s names w (false, db) e =
      lease_lost (ap (λ (a : Bool × Db). a.0) e) refl
        (ap (λ (a : Bool × Db). record w { db = a.1; tick = suc w.tick }) (sym e))

  round-RoundRun :
      (s : TaskService) (names : List String) (w : World)
      → let r = round s id worker names w in RoundRun s.lease id worker w r.0 r.1
  unfolding round call
  round-RoundRun s names w =
      kept-RoundRun s names w (renew_lease id worker (now w) s.lease (found_db w)) refl

  -- What a computation that may use up its fuel ends in, if it ends.
  abbrev LoopEnd : ℕ → World → Option (Result (Unit {0}) × World) → Type 0
  LoopEnd lease w none = Unit {0}
  LoopEnd lease w (some (q, u)) = LoopRun lease id worker q u w

  after_round-LoopEnd :
      (lease : ℕ) (again : World → Option (Result (Unit {0}) × World)) (w : World)
      (r : Result Bool × World)
      → RoundRun lease id worker w r.0 r.1
      → ((v : World) → LoopEnd lease v (again v))
      → LoopEnd lease w (go_on again r)
  after_round-LoopEnd lease again w (ok true, v) h k = more (again v) (k v)
    where
      more : (o : Option (Result (Unit {0}) × World)) → LoopEnd lease v o → LoopEnd lease w o
      more none l = tt
      more (some (q, u)) l = next_round v h l
  after_round-LoopEnd lease again w (ok false, v) h k = last_round h refl
  after_round-LoopEnd lease again w (err e, v) h k = round_raised e h refl

  loop-LoopEnd :
      (fuel : ℕ) (s : TaskService) (names : List String) (w : World)
      → LoopEnd s.lease w (loop fuel s id worker names w)
  unfolding loop
  loop-LoopEnd zero s names w = tt
  loop-LoopEnd (suc fuel) s names w =
      after_round-LoopEnd s.lease (loop fuel s id worker names) w (round s id worker names w)
        (round-RoundRun s names w) (λ v. loop-LoopEnd fuel s names v)

  ignore_value_error-forgiven :
      (a : Result TaskRecord) (u : World) → ignore_value_error (a, u) ≡ (forgiven a, u)
  ignore_value_error-forgiven (ok t) u = refl
  ignore_value_error-forgiven (err (value_error m)) u = refl
  ignore_value_error-forgiven (err _) u = refl

  give_up-made :
      (s : TaskService) (e : Error) (w : World)
      → let error = failure_fields (failure_detail (s.describe e)) in
        give_up s id worker e w ≡ (
          forgiven (fail_task id worker error (now w) (found_db w)).0,
          made (fails id worker error (now w)) w,
        )
  unfolding give_up call step
  give_up-made s e w =
      let error = failure_fields (failure_detail (s.describe e)) in
      ignore_value_error-forgiven (fail_task id worker error (now w) (found_db w)).0
        (made (fails id worker error (now w)) w)

module _ (s : TaskService) (worker : String) where
  abbrev TaskEnd : TaskRecord → World → Option (Result (Unit {0}) × World) → Type 0
  TaskEnd task w none = Unit {0}
  TaskEnd task w (some (q, u)) = TaskRun s.lease task worker w q u

  ended-TaskEnd :
      (task : TaskRecord) (w : World) (o : Option (Result (Unit {0}) × World))
      → is_ok (snapshot task) ≡ true
      → LoopEnd task.task_id worker s.lease w o
      → TaskEnd task w (or_give_up s task.task_id worker o)
  ended-TaskEnd task w none readable h = tt
  ended-TaskEnd task w (some (ok t, u)) readable h = all_rounds readable h refl
  ended-TaskEnd task w (some (err e, v)) readable h =
      let r = give_up-made task.task_id worker s e v in
      rounds_raised v e (failure_fields (failure_detail (s.describe e))) readable h
        (ap (λ (r : Result (Unit {0}) × World). r.0) r)
        (ap (λ (r : Result (Unit {0}) × World). r.1) r)

  attempt-TaskEnd :
      (fuel : ℕ) (task : TaskRecord) (r : Result (List String × ResolvedModelReference)) (w : World)
      → is_ok (snapshot task) ≡ is_ok r
      → TaskEnd task w (or_give_up s task.task_id worker (attempt fuel s task worker r w))
  attempt-TaskEnd fuel task (err e) w same =
      let r = give_up-made task.task_id worker s e w in
      unreadable (failure_fields (failure_detail (s.describe e))) same
        (ap (λ (r : Result (Unit {0}) × World). r.0) r)
        (ap (λ (r : Result (Unit {0}) × World). r.1) r)
  attempt-TaskEnd fuel task (ok (names, reference)) w same =
      ended-TaskEnd task w (loop fuel s task.task_id worker names w) same
        (loop-LoopEnd task.task_id worker fuel s names w)

  process_claimed_task-TaskEnd :
      (fuel : ℕ) (task : TaskRecord) (w : World)
      → TaskEnd task w (process_claimed_task fuel s task worker w)
  unfolding process_claimed_task
  process_claimed_task-TaskEnd fuel task w = attempt-TaskEnd fuel task (snapshot task) w refl

  abbrev ClaimEnd : World → Option (Result Bool × World) → Type 0
  ClaimEnd w none = Unit {0}
  ClaimEnd w (some (r, u)) = ClaimRun s.lease worker w r u

  worked-ClaimEnd :
      (task : TaskRecord) (w : World) (o : Option (Result (Unit {0}) × World))
      → (claim_task worker (now w) s.lease (found_db w)).0 ≡ ok (some task)
      → TaskEnd task (made (claims worker (now w) s.lease) w) o
      → ClaimEnd w (with_answer true o)
  worked-ClaimEnd task w none e h = tt
  worked-ClaimEnd task w (some (ok t, u)) e h = worked task e refl h
  worked-ClaimEnd task w (some (err x, u)) e h = work_raised task x e refl h

  claimed-ClaimEnd :
      (fuel : ℕ) (w : World) (a : Result (Option TaskRecord))
      → (claim_task worker (now w) s.lease (found_db w)).0 ≡ a
      → ClaimEnd w (process_claim fuel s worker (a, made (claims worker (now w) s.lease) w))
  claimed-ClaimEnd fuel w (err x) e = claim_raised x e refl refl
  claimed-ClaimEnd fuel w (ok none) e = idle e refl refl
  claimed-ClaimEnd fuel w (ok (some task)) e =
      worked-ClaimEnd task w _ e
        (process_claimed_task-TaskEnd fuel task (made (claims worker (now w) s.lease) w))

  run_worker_step-ClaimEnd :
      (fuel : ℕ) (w : World)
      → ClaimEnd (made (maintains (now w) s.tombstone) w) (run_worker_step fuel s worker w)
  unfolding run_worker_step maintain call step
  run_worker_step-ClaimEnd fuel w =
      let v = made (maintains (now w) s.tombstone) w in
      claimed-ClaimEnd fuel v (claim_task worker (now v) s.lease (found_db v)).0 refl

  abbrev WorkerEnd : ℕ → World → Option (Result (Unit {0}) × World) → Type 0
  WorkerEnd rounds w none = Unit {0}
  WorkerEnd rounds w (some (q, u)) = WorkerRun s worker q u rounds w

  after_step-WorkerEnd :
      (left : ℕ) (again : World → Option (Result (Unit {0}) × World)) (w : World)
      (o : Option (Result Bool × World))
      → ClaimEnd (made (maintains (now w) s.tombstone) w) o
      → ((v : World) → WorkerEnd left v (again v))
      → WorkerEnd (suc left) w (next_step again o)
  after_step-WorkerEnd left again w none h k = tt
  after_step-WorkerEnd left again w (some (ok b, v)) h k = more (again v) (k v)
    where
      more :
          (o : Option (Result (Unit {0}) × World)) → WorkerEnd left v o → WorkerEnd (suc left) w o
      more none l = tt
      more (some (q, u)) l = stepped left b v h l
  after_step-WorkerEnd left again w (some (err e, v)) h k = step_raised left e h refl

  worker_loop-WorkerEnd :
      (rounds fuel : ℕ) (w : World) → WorkerEnd rounds w (worker_loop rounds fuel s worker w)
  unfolding worker_loop
  worker_loop-WorkerEnd zero fuel w = stopped refl
  worker_loop-WorkerEnd (suc rounds) fuel w =
      after_step-WorkerEnd rounds (worker_loop rounds fuel s worker) w
        (run_worker_step fuel s worker w) (run_worker_step-ClaimEnd fuel w)
        (λ v. worker_loop-WorkerEnd rounds fuel v)

-- A run of the worker that has ended, as a run of the protocol.
pub record KeepsProtocol (s : TaskService) (worker : String) (rounds : ℕ) (w : World)
    (o : Option (Result (Unit {0}) × World)) : Type 0 where
  pub result : Result (Unit {0})
  pub last : World
  pub ended : o ≡ some (result, last)
  pub protocol : WorkerRun s worker result last rounds w
  pub good : Inv last.db

-- With fuel for more rounds than any task has open items, on good tables, and while no other client
-- submits a task, `worker_loop` comes to an end for every number of steps that it makes before it
-- finds the shutdown set, and the tables are good again. What it does from its first world to its last
-- are the calls of the protocol, each on the tables that the others' calls before it have left. A step
-- maintains the retention and claims; without a task it is over, and with one the worker works on
-- that task, in rounds that renew its lease, claim an item and finish that item with exactly one of an
-- outcome and an error, until no item can be claimed or the task is terminal. A round that raises, or a snapshot that
-- cannot be read, makes the worker call `fail_task` on the task, whose ValueError is passed over. The
-- first step that raises ends the loop with its exception.
pub worker_loop-KeepsProtocol :
    (rounds fuel : ℕ) (s : TaskService) (worker : String) (w : World)
    → Allowed Works w
    → Fueled fuel w
    → KeepsProtocol s worker rounds w (worker_loop rounds fuel s worker w)
worker_loop-KeepsProtocol rounds fuel s worker w a h =
    let run = worker_loop-IsHistory rounds fuel s worker w a h in
    record {
      result = run.result;
      last = run.last;
      ended = run.ended;
      protocol =
          subst (WorkerEnd s worker rounds w) run.ended
            (worker_loop-WorkerEnd s worker rounds fuel w);
      good = run.good;
    }
