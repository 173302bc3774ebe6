-- ===== src/TaskService/Histories/Refines.antt =====
-- The worker and the readers refine the histories.
use ia_dev_lab.Base.{
  ℕ, zero, suc, String, Bool, true, false, not, ◌≡◌, refl, sym, subst, Option, none, some, List,
  Error, value_error, Result, ok, err,
}
use ia_dev_lab.Json.{Fields}
use ia_dev_lab.Extraction.{ResolvedModelReference, process_source_with_model, text_or}
use ia_dev_lab.Models.{TaskRecord, ItemRecord, is_terminal}
use ia_dev_lab.Repository.Schema.{Db}
use ia_dev_lab.Repository.Lease.{claim_task, renew_lease, claim_next_item}
use ia_dev_lab.Repository.Finish.{finalize_item, fail_task}
use ia_dev_lab.Repository.Steps.{Call, claims, renews, starts, finalizes, fails, maintains, step}
use ia_dev_lab.TaskService.{
  World, TaskService, now, call, continue, return, maintain, retention_call, ◌>>◌,
}
use ia_dev_lab.TaskService.Stored.{snapshot}
use ia_dev_lab.TaskService.Worker.{
  stored_outcome, lease_kept, write_outcome, process_item, round, next_round, loop, failure_fields,
  failure_detail, give_up, ignore_value_error, or_give_up, attempt, process_claimed_task,
  process_claim, with_answer, claim_call, run_worker_step, next_step, worker_loop,
}
use ia_dev_lab.TaskService.Histories.{
  is_submission, Follows, Allowed, Follows-refl, Follows-trans, Follows-Allowed, call-Follows,
  continue-Follows,
}

module _ (P : Call → Type 0) (working : (c : Call) → is_submission c ≡ false → P c) where
  write_outcome-Follows :
      (id worker : String) (item : ItemRecord) (o : Option Fields × Option Fields) (w : World)
      → Allowed P w
      → Follows P w (write_outcome id worker item o w).1
  unfolding step
  write_outcome-Follows id worker item (outcome, error) w a =
      call-Follows P (finalize_item id worker item.position outcome error (now w))
        (finalizes id worker item.position outcome error (now w)) w (λ db. refl) (working _ refl) a

  process_item-Follows :
      (s : TaskService) (id worker : String) (names : List String) (item : Option ItemRecord)
      (w : World)
      → Allowed P w
      → Follows P w (process_item s id worker names item w).1
  unfolding process_item
  process_item-Follows s id worker names none w a = Follows-refl P w
  process_item-Follows s id worker names (some item) w a =
      let o =
        process_source_with_model s.extraction item.source_id (text_or item.source_text "") names in
      let stored = stored_outcome names o.status o in
      continue-Follows P {A = TaskRecord} {B = Bool}
        (λ updated. return (not (is_terminal updated.status))) w
        (write_outcome id worker item stored w) a (write_outcome-Follows id worker item stored w a)
        (λ updated u b. Follows-refl P u)

  lease_kept-db : (r : Bool × Db) → (lease_kept r).1 ≡ r.1
  lease_kept-db (true, db) = refl
  lease_kept-db (false, db) = refl

  pub renew-Follows :
      (s : TaskService) (id worker : String) (at : ℕ) (w : World)
      → Allowed P w
      → Follows P w (call (λ db. lease_kept (renew_lease id worker at s.lease db)) w).1
  unfolding step
  renew-Follows s id worker at w a =
      call-Follows P _ (renews id worker at s.lease) w
        (λ db. lease_kept-db (renew_lease id worker at s.lease db)) (working _ refl) a

  pub start-Follows :
      (id worker : String) (at : ℕ) (w : World)
      → Allowed P w
      → Follows P w (call (claim_next_item id worker at) w).1
  unfolding step
  start-Follows id worker at w a =
      call-Follows P (claim_next_item id worker at) (starts id worker at) w (λ db. refl)
        (working _ refl) a

  pub round-Follows :
      (s : TaskService) (id worker : String) (names : List String) (w : World)
      → Allowed P w
      → Follows P w (round s id worker names w).1
  unfolding round
  round-Follows s id worker names w a =
      let at = now w in
      continue-Follows P {A = Unit {0}} {B = Bool}
        (λ _ w'. continue (process_item s id worker names) (call (claim_next_item id worker at) w'))
        w (call (λ db. lease_kept (renew_lease id worker at s.lease db)) w) a
        (renew-Follows s id worker at w a)
        (λ _ u b.
          continue-Follows P {A = Option ItemRecord} {B = Bool} (process_item s id worker names) u
            (call (claim_next_item id worker at) u) b (start-Follows id worker at u b)
            (λ item v c. process_item-Follows s id worker names item v c))

  -- What a computation that may use up its fuel ends in, if it ends.
  abbrev pub EndFollows : {A : Type 0} → World → Option (Result A × World) → Type 0
  EndFollows w none = Unit {0}
  EndFollows w (some r) = Follows P w r.1

  pub EndFollows-trans :
      {A : Type 0} (w u : World) (r : Option (Result A × World))
      → Follows P w u
      → EndFollows u r
      → EndFollows w r
  EndFollows-trans w u none h k = tt
  EndFollows-trans w u (some (a, v)) h k = Follows-trans P w u v h k

  next_round-Follows :
      (again : World → Option (Result (Unit {0}) × World)) (w : World) (r : Result Bool × World)
      → Allowed P w
      → Follows P w r.1
      → ((u : World) → Allowed P u → EndFollows u (again u))
      → EndFollows w (next_round again r)
  next_round-Follows again w (ok true, u) a h k =
      EndFollows-trans w u (again u) h (k u (Follows-Allowed P w u h a))
  next_round-Follows again w (ok false, u) a h k = h
  next_round-Follows again w (err e, u) a h k = h

  loop-Follows :
      (fuel : ℕ) (s : TaskService) (id worker : String) (names : List String) (w : World)
      → Allowed P w
      → EndFollows w (loop fuel s id worker names w)
  unfolding loop
  loop-Follows zero s id worker names w a = tt
  loop-Follows (suc fuel) s id worker names w a =
      next_round-Follows (loop fuel s id worker names) w (round s id worker names w) a
        (round-Follows s id worker names w a) (λ u b. loop-Follows fuel s id worker names u b)

  ignore_value_error-world : (r : Result TaskRecord × World) → (ignore_value_error r).1 ≡ r.1
  ignore_value_error-world (ok t, w) = refl
  ignore_value_error-world (err (value_error m), w) = refl
  ignore_value_error-world (err _, w) = refl

  pub give_up-Follows :
      (s : TaskService) (id worker : String) (e : Error) (w : World)
      → Allowed P w
      → Follows P w (give_up s id worker e w).1
  unfolding give_up step
  give_up-Follows s id worker e w a =
      let fields = failure_fields (failure_detail (s.describe e)) in
      subst (λ (u : World). Follows P w u)
        (sym (ignore_value_error-world (call (fail_task id worker fields (now w)) w)))
        (call-Follows P (fail_task id worker fields (now w)) (fails id worker fields (now w)) w
          (λ db. refl) (working _ refl) a)

  or_give_up-Follows :
      (s : TaskService) (id worker : String) (w : World) (r : Option (Result (Unit {0}) × World))
      → Allowed P w
      → EndFollows w r
      → EndFollows w (or_give_up s id worker r)
  or_give_up-Follows s id worker w none a h = tt
  or_give_up-Follows s id worker w (some (ok t, u)) a h = h
  or_give_up-Follows s id worker w (some (err e, u)) a h =
      Follows-trans P w u (give_up s id worker e u).1 h
        (give_up-Follows s id worker e u (Follows-Allowed P w u h a))

  attempt-Follows :
      (fuel : ℕ) (s : TaskService) (task : TaskRecord) (worker : String)
      (r : Result (List String × ResolvedModelReference)) (w : World)
      → Allowed P w
      → EndFollows w (attempt fuel s task worker r w)
  attempt-Follows fuel s task worker (err e) w a = Follows-refl P w
  attempt-Follows fuel s task worker (ok (names, reference)) w a =
      loop-Follows fuel s task.task_id worker names w a

  pub process_claimed_task-Follows :
      (fuel : ℕ) (s : TaskService) (task : TaskRecord) (worker : String) (w : World)
      → Allowed P w
      → EndFollows w (process_claimed_task fuel s task worker w)
  unfolding process_claimed_task
  process_claimed_task-Follows fuel s task worker w a =
      or_give_up-Follows s task.task_id worker w (attempt fuel s task worker (snapshot task) w) a
        (attempt-Follows fuel s task worker (snapshot task) w a)

  pub maintain-Follows : (s : TaskService) (w : World) → Allowed P w → Follows P w (maintain s w).1
  unfolding maintain step
  maintain-Follows s w a =
      call-Follows P (retention_call s (now w)) (maintains (now w) s.tombstone) w (λ db. refl)
        (working _ refl) a

  pub claim_call-Follows :
      (s : TaskService) (worker : String) (w : World)
      → Allowed P w
      → Follows P w (claim_call s worker w).1
  unfolding step
  claim_call-Follows s worker w a =
      call-Follows P (claim_task worker (now w) s.lease) (claims worker (now w) s.lease) w
        (λ db. refl) (working _ refl) a

  with_answer-Follows :
      (b : Bool) (w : World) (r : Option (Result (Unit {0}) × World))
      → EndFollows w r
      → EndFollows w (with_answer b r)
  with_answer-Follows b w none h = h
  with_answer-Follows b w (some (ok t, u)) h = h
  with_answer-Follows b w (some (err e, u)) h = h

  process_claim-Follows :
      (fuel : ℕ) (s : TaskService) (worker : String) (w : World)
      (r : Result (Option TaskRecord) × World)
      → Allowed P w
      → Follows P w r.1
      → EndFollows w (process_claim fuel s worker r)
  process_claim-Follows fuel s worker w (err e, u) a h = h
  process_claim-Follows fuel s worker w (ok none, u) a h = h
  process_claim-Follows fuel s worker w (ok (some task), u) a h =
      EndFollows-trans w u (with_answer true (process_claimed_task fuel s task worker u)) h (
        with_answer-Follows true u (process_claimed_task fuel s task worker u)
          (process_claimed_task-Follows fuel s task worker u (Follows-Allowed P w u h a)))

  pub run_worker_step-Follows :
      (fuel : ℕ) (s : TaskService) (worker : String) (w : World)
      → Allowed P w
      → EndFollows w (run_worker_step fuel s worker w)
  unfolding run_worker_step
  run_worker_step-Follows fuel s worker w a =
      process_claim-Follows fuel s worker w ((maintain s >> claim_call s worker) w) a (
        continue-Follows P {A = ℕ × ℕ} {B = Option TaskRecord} (λ _. claim_call s worker) w
          (maintain s w) a (maintain-Follows s w a) (λ _ u b. claim_call-Follows s worker u b))

  next_step-Follows :
      (again : World → Option (Result (Unit {0}) × World)) (w : World)
      (r : Option (Result Bool × World))
      → Allowed P w
      → EndFollows w r
      → ((u : World) → Allowed P u → EndFollows u (again u))
      → EndFollows w (next_step again r)
  next_step-Follows again w none a h k = h
  next_step-Follows again w (some (ok b, u)) a h k =
      EndFollows-trans w u (again u) h (k u (Follows-Allowed P w u h a))
  next_step-Follows again w (some (err e, u)) a h k = h

  pub worker_loop-Follows :
      (rounds fuel : ℕ) (s : TaskService) (worker : String) (w : World)
      → Allowed P w
      → EndFollows w (worker_loop rounds fuel s worker w)
  unfolding worker_loop
  worker_loop-Follows zero fuel s worker w a = Follows-refl P w
  worker_loop-Follows (suc rounds) fuel s worker w a =
      next_step-Follows (worker_loop rounds fuel s worker) w (run_worker_step fuel s worker w) a
        (run_worker_step-Follows fuel s worker w a)
        (λ u b. worker_loop-Follows rounds fuel s worker u b)
