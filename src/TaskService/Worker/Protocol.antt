-- ===== src/TaskService/Worker/Protocol.antt =====
-- The protocol that a worker keeps with the repository: which calls it makes, in which order, on which
-- task and item, and what it goes on with after each answer.
pub mod Follows
use ia_dev_lab.Base.{
  ℕ, zero, suc, String, Bool, true, false, not, ◌≡◌, Option, none, some, Error, value_error,
  runtime_error, Result, ok, err,
}
use ia_dev_lab.Json.{Fields}
use ia_dev_lab.Models.{TaskRecord, ItemRecord, is_terminal}
use ia_dev_lab.Repository.Schema.{Db}
use ia_dev_lab.Repository.Lease.{claim_task, renew_lease, claim_next_item}
use ia_dev_lab.Repository.Finish.{same_presence, finalize_item, fail_task}
use ia_dev_lab.Repository.Steps.{Call, claims, renews, starts, finalizes, fails, maintains, step}
use ia_dev_lab.TaskService.Stored.{snapshot}
use ia_dev_lab.TaskService.{World, TaskService, now, found_db}

-- One own call: the others' calls that come before it, then the call.
abbrev pub made : Call → World → World
made c w = record w { db = step (found_db w) c; tick = suc w.tick }

-- The item that was claimed is finished at its position, with exactly one of an outcome and an error;
-- the loop goes on where the task has items left.
pub data FinishRun (id worker : String) (item : ItemRecord) (w : World) (r : Result Bool)
    (u : World) : Type 0 where
  finish_raised :
      (outcome error : Option Fields) (e : Error)
      → same_presence outcome error ≡ false
      → (finalize_item id worker item.position outcome error (now w) (found_db w)).0 ≡ err e
      → r ≡ err e
      → u ≡ made (finalizes id worker item.position outcome error (now w)) w
      → FinishRun id worker item w r u
  finished :
      (outcome error : Option Fields) (t : TaskRecord)
      → same_presence outcome error ≡ false
      → (finalize_item id worker item.position outcome error (now w) (found_db w)).0 ≡ ok t
      → r ≡ ok (not (is_terminal t.status))
      → u ≡ made (finalizes id worker item.position outcome error (now w)) w
      → FinishRun id worker item w r u

-- An item is claimed at the time `at`.
pub data StartRun (id worker : String) (at : ℕ) (w : World) (r : Result Bool) (u : World)
    : Type 0 where
  start_raised :
      (e : Error)
      → (claim_next_item id worker at (found_db w)).0 ≡ err e
      → r ≡ err e
      → u ≡ made (starts id worker at) w
      → StartRun id worker at w r u
  nothing_left :
      (claim_next_item id worker at (found_db w)).0 ≡ ok none
      → r ≡ ok false
      → u ≡ made (starts id worker at) w
      → StartRun id worker at w r u
  item_claimed :
      (item : ItemRecord)
      → (claim_next_item id worker at (found_db w)).0 ≡ ok (some item)
      → FinishRun id worker item (made (starts id worker at) w) r u
      → StartRun id worker at w r u

-- A round renews the lease first; the time of the renewal serves the claim of the item.
pub data RoundRun (lease : ℕ) (id worker : String) (w : World) (r : Result Bool) (u : World)
    : Type 0 where
  lease_lost :
      (renew_lease id worker (now w) lease (found_db w)).0 ≡ false
      → r ≡ err (runtime_error "Task lease was lost")
      → u ≡ made (renews id worker (now w) lease) w
      → RoundRun lease id worker w r u
  renewed :
      (renew_lease id worker (now w) lease (found_db w)).0 ≡ true
      → StartRun id worker (now w) (made (renews id worker (now w) lease) w) r u
      → RoundRun lease id worker w r u

-- Rounds until one says that nothing is left, or raises.
pub data LoopRun (lease : ℕ) (id worker : String) (q : Result (Unit {0})) (u : World)
    : World → Type 0 where
  last_round :
      {w : World}
      → RoundRun lease id worker w (ok false) u
      → q ≡ ok tt
      → LoopRun lease id worker q u w
  round_raised :
      {w : World} (e : Error)
      → RoundRun lease id worker w (err e) u
      → q ≡ err e
      → LoopRun lease id worker q u w
  next_round :
      {w : World} (v : World)
      → RoundRun lease id worker w (ok true) v
      → LoopRun lease id worker q u v
      → LoopRun lease id worker q u w

-- A ValueError of `fail_task` is passed over.
abbrev pub forgiven : Result TaskRecord → Result (Unit {0})
forgiven (ok t) = ok tt
forgiven (err (value_error m)) = ok tt
forgiven (err e) = err e

abbrev pub is_ok : {A : Type 0} → Result A → Bool
is_ok (ok a) = true
is_ok (err e) = false

-- The work on a claimed task: its rounds, and a last `fail_task` where one raised, or at once where the
-- stored snapshot cannot be read.
pub data TaskRun (lease : ℕ) (task : TaskRecord) (worker : String) (w : World)
    (q : Result (Unit {0})) (u : World) : Type 0 where
  all_rounds :
      is_ok (snapshot task) ≡ true
      → LoopRun lease task.task_id worker (ok tt) u w
      → q ≡ ok tt
      → TaskRun lease task worker w q u
  unreadable :
      (error : Fields)
      → is_ok (snapshot task) ≡ false
      → q ≡ forgiven (fail_task task.task_id worker error (now w) (found_db w)).0
      → u ≡ made (fails task.task_id worker error (now w)) w
      → TaskRun lease task worker w q u
  rounds_raised :
      (v : World) (e : Error) (error : Fields)
      → is_ok (snapshot task) ≡ true
      → LoopRun lease task.task_id worker (err e) v w
      → q ≡ forgiven (fail_task task.task_id worker error (now v) (found_db v)).0
      → u ≡ made (fails task.task_id worker error (now v)) v
      → TaskRun lease task worker w q u

-- A claim, and the work on the task that it gives: `claim_task` chooses the task.
pub data ClaimRun (lease : ℕ) (worker : String) (w : World) (r : Result Bool) (u : World)
    : Type 0 where
  claim_raised :
      (e : Error)
      → (claim_task worker (now w) lease (found_db w)).0 ≡ err e
      → r ≡ err e
      → u ≡ made (claims worker (now w) lease) w
      → ClaimRun lease worker w r u
  idle :
      (claim_task worker (now w) lease (found_db w)).0 ≡ ok none
      → r ≡ ok false
      → u ≡ made (claims worker (now w) lease) w
      → ClaimRun lease worker w r u
  worked :
      (task : TaskRecord)
      → (claim_task worker (now w) lease (found_db w)).0 ≡ ok (some task)
      → r ≡ ok true
      → TaskRun lease task worker (made (claims worker (now w) lease) w) (ok tt) u
      → ClaimRun lease worker w r u
  work_raised :
      (task : TaskRecord) (e : Error)
      → (claim_task worker (now w) lease (found_db w)).0 ≡ ok (some task)
      → r ≡ err e
      → TaskRun lease task worker (made (claims worker (now w) lease) w) (err e) u
      → ClaimRun lease worker w r u

-- A step maintains the retention and then claims.
abbrev pub StepRun : TaskService → String → World → Result Bool → World → Type 0
StepRun s worker w r u = ClaimRun s.lease worker (made (maintains (now w) s.tombstone) w) r u

-- Steps one after the other, as many as are asked for, or until one raises.
pub data WorkerRun (s : TaskService) (worker : String) (q : Result (Unit {0})) (u : World)
    : ℕ → World → Type 0 where
  stopped : q ≡ ok tt → WorkerRun s worker q u zero u
  step_raised :
      {w : World} (left : ℕ) (e : Error)
      → StepRun s worker w (err e) u
      → q ≡ err e
      → WorkerRun s worker q u (suc left) w
  stepped :
      {w : World} (left : ℕ) (b : Bool) (v : World)
      → StepRun s worker w (ok b) v
      → WorkerRun s worker q u left v
      → WorkerRun s worker q u (suc left) w
