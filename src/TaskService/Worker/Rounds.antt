-- ===== src/TaskService/Worker/Rounds.antt =====
-- The rounds of a worker that works alone, and the task that it has claimed.
use ia_dev_lab.Base.{
  ℕ, zero, suc, ◌<◌, String, Bool, true, false, not, ◌≡◌, refl, sym, ap, subst, ◌∙◌, Option, none,
  some, List, [], Error, Result, ok, err, arith, find,
}
use ia_dev_lab.Json.{Fields, canonical_fields}
use ia_dev_lab.Models.{TaskRecord, ItemRecord, is_terminal}
use ia_dev_lab.Extraction.{
  ResolvedModelReference, ExtractionOutcome, OutcomeStatus, process_source_with_model, text_or,
}
use ia_dev_lab.Repository.Schema.{ItemRow, Db, at_position, is_open, null_gt}
use ia_dev_lab.Repository.Accept.{dump}
use ia_dev_lab.Repository.Reads.{item_from_row}
use ia_dev_lab.Repository.Lease.{renew_lease, start_item, claim_next_item}
use ia_dev_lab.Repository.Finish.{finalize_item, fail_task, same_presence}
use ia_dev_lab.Repository.Finish.Lease.{
  IsHeld, IsFinished, renew_lease-true, renew_lease-IsHeld, claim_next_item-IsTaken,
}
use ia_dev_lab.Repository.Finish.Held.{
  IsFinalized, refused, continues, finishes, finalize_item-IsFinalized, fail_task-IsFinished,
}
use ia_dev_lab.Repository.Steps.{Call, run}
use ia_dev_lab.TaskService.{World, TaskService, now, after_call, call, continue, return}
use ia_dev_lab.TaskService.Stored.{snapshot}
use ia_dev_lab.TaskService.Worker.{
  stored_outcome, lease_kept, write_outcome, process_item, round, next_round, loop, failure_fields,
  failure_detail, ignore_value_error, give_up, or_give_up, attempt, process_claimed_task,
}

-- Nobody else calls the repository.
abbrev pub IsAlone : World → Type 0
IsAlone w = w.others ≡ (λ _. [])

pub call-alone :
    {A : Type 0} (f : Db → A × Db) (w : World) → IsAlone w → call f w ≡ after_call w (f w.db)
unfolding call run
call-alone f w a = ap (λ (o : ℕ → List Call). after_call w (f (run w.db (o w.tick)))) a

-- The world has the task under the worker's lease, or finished.
pub record Holds (id worker : String) (w : World) : Type 0 where
  pub alone : IsAlone w
  pub here : IsHeld id worker w.db

pub record IsOver (id : String) (w : World) : Type 0 where
  pub alone : IsAlone w
  pub here : IsFinished id w.db

-- After a round: held if the loop goes on or an exception was raised, and finished if it stops.
data RoundEnd (id worker : String) : Result Bool × World → Type 0 where
  goes_on : (w : World) → Holds id worker w → RoundEnd id worker (ok true, w)
  stops : (w : World) → IsOver id w → RoundEnd id worker (ok false, w)
  raises : (e : Error) (w : World) → Holds id worker w → RoundEnd id worker (err e, w)

data LoopEnd (id worker : String) : Option (Result (Unit {0}) × World) → Type 0 where
  unfinished : LoopEnd id worker none
  stopped : (w : World) → IsOver id w → LoopEnd id worker (some (ok tt, w))
  raised : (e : Error) (w : World) → Holds id worker w → LoopEnd id worker (some (err e, w))

stored-one :
    (names : List String) (s : OutcomeStatus) (o : ExtractionOutcome)
    → same_presence (stored_outcome names s o).0 (stored_outcome names s o).1 ≡ false
stored-one names OutcomeStatus.completed o = refl
stored-one names OutcomeStatus.failed o = refl

finalized-RoundEnd :
    (id worker : String) (w : World) (r : Result TaskRecord × Db)
    → Holds id worker w
    → IsFinalized id worker w.db r
    → RoundEnd id worker (
        continue {A = TaskRecord} {B = Bool}
          (λ updated. return (not (is_terminal updated.status)))
          (after_call w r))
finalized-RoundEnd id worker w r h (refused e) =
    raises e _ (record { alone = h.alone; here = h.here })
finalized-RoundEnd id worker w r h (continues t d e k) =
    rw e (goes_on _ (record { alone = h.alone; here = k }))
finalized-RoundEnd id worker w r h (finishes t d e k) =
    rw e (stops _ (record { alone = h.alone; here = k }))

written-RoundEnd :
    (id worker : String) (item : ItemRecord) (row : ItemRow) (p : Option Fields × Option Fields)
    (w : World)
    → Holds id worker w
    → find (at_position id item.position) w.db.items ≡ some row
    → is_open row.status ≡ true
    → same_presence p.0 p.1 ≡ false
    → RoundEnd id worker (
        continue {A = TaskRecord} {B = Bool}
          (λ updated. return (not (is_terminal updated.status)))
          (write_outcome id worker item p w))
written-RoundEnd id worker item row (outcome, error) w h found open_row one =
    rw (call-alone (finalize_item id worker item.position outcome error (now w)) w h.alone) (
      finalized-RoundEnd id worker w
        (finalize_item id worker item.position outcome error (now w) w.db) h
        (finalize_item-IsFinalized id worker w.db h.here item.position outcome error (now w) row
          found open_row one))

lease_kept-true : (r : Bool × Db) → r.0 ≡ true → lease_kept r ≡ (ok tt, r.1)
lease_kept-true (true, db) h = refl
lease_kept-true (false, db) h = absurd (ground arith)

module _ (s : TaskService) (id worker : String) (names : List String) where
  process_item-RoundEnd :
      (item : ItemRecord) (row : ItemRow) (w : World)
      → Holds id worker w
      → find (at_position id item.position) w.db.items ≡ some row
      → is_open row.status ≡ true
      → RoundEnd id worker (process_item s id worker names (some item) w)
  unfolding process_item
  process_item-RoundEnd item row w h found open_row =
      let o =
        process_source_with_model s.extraction item.source_id (text_or item.source_text "") names in
      written-RoundEnd id worker item row (stored_outcome names o.status o) w h found open_row
        (stored-one names o.status o)

  started-RoundEnd :
      (at : ℕ) (w : World) (h : Holds id worker w)
      → null_gt h.here.row.lease_expires_at at ≡ true
      → RoundEnd id worker
          (continue (process_item s id worker names) (call (claim_next_item id worker at) w))
  unfolding item_from_row
  started-RoundEnd at w h live =
      let t = claim_next_item-IsTaken id worker at w.db h.here live in
      let answer =
        call-alone (claim_next_item id worker at) w h.alone ∙ ap (after_call w) t.answer in
      subst
        (λ (r : Result (Option ItemRecord) × World).
          RoundEnd id worker (continue (process_item s id worker names) r))
        (sym answer)
        (process_item-RoundEnd (item_from_row (start_item at t.item)) (start_item at t.item) _
          (record { alone = h.alone; here = t.still }) t.found refl)

  round-RoundEnd :
      (w : World) → 0 < s.lease → Holds id worker w → RoundEnd id worker (round s id worker names w)
  unfolding round
  round-RoundEnd w positive h =
      let at = now w in
      let (held, until) = renew_lease-IsHeld id worker w.db h.here at s.lease in
      let kept : lease_kept (renew_lease id worker at s.lease w.db)
          ≡ (ok tt, (renew_lease id worker at s.lease w.db).1) =
        lease_kept-true (renew_lease id worker at s.lease w.db)
          (renew_lease-true id worker w.db h.here at s.lease) in
      let answer =
        call-alone (λ db. lease_kept (renew_lease id worker at s.lease db)) w h.alone
        ∙ ap (after_call w) kept in
      subst
        (λ (r : Result (Unit {0}) × World). RoundEnd id worker (
          continue {A = Unit {0}} {B = Bool}
            (λ _ u.
              continue (process_item s id worker names) (call (claim_next_item id worker at) u))
            r))
        (sym answer)
        (started-RoundEnd at _ (record { alone = h.alone; here = held }) (ground (arith, until)))

  next_round-LoopEnd :
      (again : World → Option (Result (Unit {0}) × World)) (r : Result Bool × World)
      → RoundEnd id worker r
      → ((w : World) → Holds id worker w → LoopEnd id worker (again w))
      → LoopEnd id worker (next_round again r)
  next_round-LoopEnd again r (goes_on w h) k = k w h
  next_round-LoopEnd again r (stops w h) k = stopped w h
  next_round-LoopEnd again r (raises e w h) k = raised e w h

  loop-LoopEnd :
      (fuel : ℕ) (w : World)
      → 0 < s.lease
      → Holds id worker w
      → LoopEnd id worker (loop fuel s id worker names w)
  unfolding loop
  loop-LoopEnd zero w positive h = unfinished
  loop-LoopEnd (suc fuel) w positive h =
      next_round-LoopEnd (loop fuel s id worker names) (round s id worker names w)
        (round-RoundEnd w positive h) (λ u k. loop-LoopEnd fuel u positive k)

-- The error that `_process_claimed_task` stores can always be serialized.
failure_fields-dump : (detail : String) → (json : Fields) × (dump (failure_fields detail) ≡ ok json)
unfolding dump canonical_fields
failure_fields-dump detail = (_, refl)

-- A claimed task that has been processed, with no exception out of `_process_claimed_task`.
pub data TaskEnd (id : String) : Option (Result (Unit {0}) × World) → Type 0 where
  out_of_fuel : TaskEnd id none
  done : (w : World) → IsOver id w → TaskEnd id (some (ok tt, w))

returned-TaskEnd :
    (id : String) (w : World) (r : Result TaskRecord × Db) (t : TaskRecord)
    → IsAlone w
    → r.0 ≡ ok t
    → IsFinished id r.1
    → TaskEnd id (some (ignore_value_error (after_call w r)))
returned-TaskEnd id w (ok u, db) t a e h = done _ (record { alone = a; here = h })
returned-TaskEnd id w (err x, db) t a e h = absurd (ground arith)

give_up-TaskEnd :
    (s : TaskService) (id worker : String) (e : Error) (w : World)
    → Holds id worker w
    → TaskEnd id (some (give_up s id worker e w))
unfolding give_up
give_up-TaskEnd s id worker e w h =
    let fields = failure_fields (failure_detail (s.describe e)) in
    let (json, dumped) = failure_fields-dump (failure_detail (s.describe e)) in
    let (t, returned, finished) =
      fail_task-IsFinished id worker w.db h.here fields json (now w) dumped in
    subst (λ (r : Result TaskRecord × World). TaskEnd id (some (ignore_value_error r)))
      (sym (call-alone (fail_task id worker fields (now w)) w h.alone))
      (returned-TaskEnd id w (fail_task id worker fields (now w) w.db) t h.alone returned finished)

or_give_up-TaskEnd :
    (s : TaskService) (id worker : String) (o : Option (Result (Unit {0}) × World))
    → LoopEnd id worker o
    → TaskEnd id (or_give_up s id worker o)
or_give_up-TaskEnd s id worker o unfinished = out_of_fuel
or_give_up-TaskEnd s id worker o (stopped w h) = done w h
or_give_up-TaskEnd s id worker o (raised e w h) = give_up-TaskEnd s id worker e w h

attempt-LoopEnd :
    (fuel : ℕ) (s : TaskService) (task : TaskRecord) (worker : String)
    (p : Result (List String × ResolvedModelReference)) (w : World)
    → 0 < s.lease
    → Holds task.task_id worker w
    → LoopEnd task.task_id worker (attempt fuel s task worker p w)
attempt-LoopEnd fuel s task worker (err e) w positive h = raised e w h
attempt-LoopEnd fuel s task worker (ok (names, reference)) w positive h =
    loop-LoopEnd s task.task_id worker names fuel w positive h

pub process_claimed_task-TaskEnd :
    (fuel : ℕ) (s : TaskService) (task : TaskRecord) (worker : String) (w : World)
    → 0 < s.lease
    → Holds task.task_id worker w
    → TaskEnd task.task_id (process_claimed_task fuel s task worker w)
unfolding process_claimed_task
process_claimed_task-TaskEnd fuel s task worker w positive h =
    or_give_up-TaskEnd s task.task_id worker (attempt fuel s task worker (snapshot task) w)
      (attempt-LoopEnd fuel s task worker (snapshot task) w positive h)
