-- ===== src/TaskService/Worker/Ends.antt =====
-- The `while True` of `_process_claimed_task` ends.
use ia_dev_lab.Base.{
  ℕ, zero, suc, ◌≤◌, ◌<◌, String, Bool, true, false, not, ◌≡◌, refl, sym, subst, Option, none, some,
  List, Result, ok, err, arith,
}
use ia_dev_lab.Json.{Fields}
use ia_dev_lab.Models.{TaskRecord, ItemRecord, is_terminal}
use ia_dev_lab.Extraction.{ResolvedModelReference, process_source_with_model, text_or}
use ia_dev_lab.Repository.Schema.{Db}
use ia_dev_lab.Repository.Invariant.{Inv}
use ia_dev_lab.Repository.Lease.{renew_lease, claim_next_item}
use ia_dev_lab.Repository.Steps.{Call, creates, claims, renews, starts, finalizes, fails, maintains}
use ia_dev_lab.Repository.Steps.Safety.{run-Inv}
use ia_dev_lab.Repository.Steps.OpenItems.{open_count, Spares, run-Open, finalize_item-progress}
use ia_dev_lab.TaskService.{World, TaskService, now, found_db, call, continue, return}
use ia_dev_lab.TaskService.Stored.{snapshot}
use ia_dev_lab.TaskService.Worker.{
  stored_outcome, lease_kept, write_outcome, process_item, round, next_round, loop, or_give_up,
  attempt, process_claimed_task,
}
use ia_dev_lab.TaskService.Histories.{is_submission, Follows, Allowed, Follows-Allowed}
use ia_dev_lab.TaskService.Histories.Refines.{renew-Follows, start-Follows, round-Follows}

-- A call of the worker submits nothing.
pub worker-Spares : (id : String) (c : Call) → is_submission c ≡ false → Spares id c
worker-Spares id (creates k owner criteria model items created_at expires_at) h =
    absurd (ground arith)
worker-Spares id (claims worker now lease_seconds) h = tt
worker-Spares id (renews k worker now lease_seconds) h = tt
worker-Spares id (starts k worker now) h = tt
worker-Spares id (finalizes k worker position outcome error now) h = tt
worker-Spares id (fails k worker error now) h = tt
worker-Spares id (maintains now tombstone) h = tt

-- A computation on fuel has come to an end, by a return or by an exception.
abbrev pub Ends : {A : Type 0} → Option (Result A × World) → Type 0
Ends {A} o = (r : Result A × World) × (o ≡ some r)

-- A later world has good tables, and no more open items of the task.
record IsLater (id : String) (w w' : World) : Type 0 where
  inv : Inv w'.db
  fewer : open_count id w'.db ≤ open_count id w.db

Follows-IsLater :
    (id : String) (w w' : World) → Inv w.db → Follows (Spares id) w w' → IsLater id w w'
Follows-IsLater id w w' v f = record {
  inv = subst Inv (sym f.reached) (run-Inv w.db f.calls v);
  fewer =
      subst (λ (d : Db). open_count id d ≤ open_count id w.db) (sym f.reached)
        (run-Open id f.calls w.db v f.allowed);
}

-- A round that goes on has finished an item.
module _ (s : TaskService) (id worker : String) where
  AllowsMore : World → Result Bool × World → Type 0
  AllowsMore w r = r.0 ≡ ok true → open_count id r.1.db < open_count id w.db

  write_outcome-progress :
      (item : ItemRecord) (o : Option Fields × Option Fields) (w : World) (t : TaskRecord)
      → Inv w.db
      → Allowed (Spares id) w
      → (write_outcome id worker item o w).0 ≡ ok t
      → open_count id (write_outcome id worker item o w).1.db < open_count id w.db
  unfolding call
  write_outcome-progress item (outcome, error) w t v a h = omega (
    arith,
    finalize_item-progress id worker item.position outcome error (now w) (found_db w) t
        (run-Inv w.db (w.others w.tick) v) h,
    run-Open id (w.others w.tick) w.db v (a w.tick),
  )

  continue-progress :
      (w : World) (r : Result TaskRecord × World)
      → ((t : TaskRecord) → r.0 ≡ ok t → open_count id r.1.db < open_count id w.db)
      → (continue {A = TaskRecord} {B = Bool}
          (λ updated. return (not (is_terminal updated.status)))
          r).0
        ≡ ok true
      → open_count id
          (continue {A = TaskRecord} {B = Bool}
            (λ updated. return (not (is_terminal updated.status)))
            r).1.db
        < open_count id w.db
  continue-progress w (err e, u) h k = absurd (ground arith)
  continue-progress w (ok t, u) h k = h t refl

  process_item-progress :
      (names : List String) (item : Option ItemRecord) (w : World)
      → Inv w.db
      → Allowed (Spares id) w
      → (process_item s id worker names item w).0 ≡ ok true
      → open_count id (process_item s id worker names item w).1.db < open_count id w.db
  unfolding process_item
  process_item-progress names none w v a h = absurd (ground arith)
  process_item-progress names (some item) w v a h =
      let o =
        process_source_with_model s.extraction item.source_id (text_or item.source_text "") names in
      let stored = stored_outcome names o.status o in
      continue-progress w (write_outcome id worker item stored w)
        (λ t e. write_outcome-progress item stored w t v a e) h

  started-progress :
      (names : List String) (w : World) (r : Result (Option ItemRecord) × World)
      → Inv w.db
      → Allowed (Spares id) w
      → Follows (Spares id) w r.1
      → (continue (process_item s id worker names) r).0 ≡ ok true
      → open_count id (continue (process_item s id worker names) r).1.db < open_count id w.db
  started-progress names w (err e, u) v a f h = absurd (ground arith)
  started-progress names w (ok item, u) v a f h =
      let l = Follows-IsLater id w u v f in
      omega (
        arith,
        l.fewer,
        process_item-progress names item u l.inv (Follows-Allowed (Spares id) w u f a) h,
      )

  renewed-progress :
      (names : List String) (at : ℕ) (w : World) (r : Result (Unit {0}) × World)
      → Inv w.db
      → Allowed (Spares id) w
      → Follows (Spares id) w r.1
      → (continue {A = Unit {0}} {B = Bool}
          (λ _ u. continue (process_item s id worker names) (call (claim_next_item id worker at) u))
          r).0
        ≡ ok true
      → open_count id
          (continue {A = Unit {0}} {B = Bool}
            (λ _ u.
              continue (process_item s id worker names) (call (claim_next_item id worker at) u))
            r).1.db
        < open_count id w.db
  renewed-progress names at w (err e, u) v a f h = absurd (ground arith)
  renewed-progress names at w (ok t, u) v a f h =
      let l = Follows-IsLater id w u v f in
      let b = Follows-Allowed (Spares id) w u f a in
      omega (
        arith,
        l.fewer,
        started-progress names u (call (claim_next_item id worker at) u) l.inv b
            (start-Follows (Spares id) (worker-Spares id) id worker at u b) h,
      )

  round-progress :
      (names : List String) (w : World)
      → Inv w.db
      → Allowed (Spares id) w
      → (round s id worker names w).0 ≡ ok true
      → open_count id (round s id worker names w).1.db < open_count id w.db
  unfolding round
  round-progress names w v a h =
      renewed-progress names (now w) w
        (call (λ db. lease_kept (renew_lease id worker (now w) s.lease db)) w) v a
        (renew-Follows (Spares id) (worker-Spares id) s id worker (now w) w a) h

  next_round-Ends :
      (again : World → Option (Result (Unit {0}) × World)) (r : Result Bool × World)
      → (r.0 ≡ ok true → Ends (again r.1))
      → Ends (next_round again r)
  next_round-Ends again (ok true, w) h = h refl
  next_round-Ends again (ok false, w) h = ((ok tt, w), refl)
  next_round-Ends again (err e, w) h = ((err e, w), refl)

  pub loop-Ends :
      (fuel : ℕ) (names : List String) (w : World)
      → Inv w.db
      → Allowed (Spares id) w
      → open_count id w.db < fuel
      → Ends (loop fuel s id worker names w)
  unfolding loop
  loop-Ends zero names w v a h = absurd (omega arith)
  loop-Ends (suc fuel) names w v a h =
      let r = round s id worker names w in
      let f = round-Follows (Spares id) (worker-Spares id) s id worker names w a in
      next_round-Ends (loop fuel s id worker names) r (λ e.
        loop-Ends fuel names r.1 (Follows-IsLater id w r.1 v f).inv
          (Follows-Allowed (Spares id) w r.1 f a) (omega (arith, round-progress names w v a e)))

or_give_up-Ends :
    (s : TaskService) (id worker : String) (o : Option (Result (Unit {0}) × World))
    → Ends o
    → Ends (or_give_up s id worker o)
or_give_up-Ends s id worker none (r, e) = absurd (ground arith)
or_give_up-Ends s id worker (some (ok t, w)) p = ((ok tt, w), refl)
or_give_up-Ends s id worker (some (err e, w)) p = (_, refl)

attempt-Ends :
    (fuel : ℕ) (s : TaskService) (task : TaskRecord) (worker : String)
    (p : Result (List String × ResolvedModelReference)) (w : World)
    → Inv w.db
    → Allowed (Spares task.task_id) w
    → open_count task.task_id w.db < fuel
    → Ends (attempt fuel s task worker p w)
attempt-Ends fuel s task worker (err e) w v a h = ((err e, w), refl)
attempt-Ends fuel s task worker (ok (names, reference)) w v a h =
    loop-Ends s task.task_id worker fuel names w v a h

-- From good tables, `_process_claimed_task` comes to an end, by a return or by an exception, after no
-- more rounds than the task has open items and one: whatever the providers answer, whatever time it
-- is, and whatever other clients and workers commit between any two of its calls of the repository,
-- short of submitting a task under the same id.
pub process_claimed_task-Ends :
    (fuel : ℕ) (s : TaskService) (task : TaskRecord) (worker : String) (w : World)
    → Inv w.db
    → Allowed (Spares task.task_id) w
    → open_count task.task_id w.db < fuel
    → Ends (process_claimed_task fuel s task worker w)
unfolding process_claimed_task
process_claimed_task-Ends fuel s task worker w v a h =
    or_give_up-Ends s task.task_id worker (attempt fuel s task worker (snapshot task) w)
      (attempt-Ends fuel s task worker (snapshot task) w v a h)
