-- ===== src/TaskService/Submit.antt =====
-- What `submit` of src/task_service.py answers.
use ia_dev_lab.Base.{
  Elem-last, suc, ◌+◌, ◌<◌, String, true, false, ◌≡◌, refl, sym, ap, subst, ◌∙◌, Option, none, List,
  [], ◌∷◌, map, length, arith, Elem, Elem-append, count, Error, ok,
}
use ia_dev_lab.Models.{TaskStatus}
use ia_dev_lab.Schemas.{SourceText, ExtractionTaskRequest, property_names, valid_task_request}
use ia_dev_lab.Schemas.Distinct.{IsDistinct}
use ia_dev_lab.Schemas.Valid.{valid_task_request-AreTexts}
use ia_dev_lab.Extraction.{Attempt, ResolvedModelReference, returned, selected_model}
use ia_dev_lab.Repository.Schema.{TaskRow, has_id}
use ia_dev_lab.Repository.Invariant.{Inv}
use ia_dev_lab.Repository.Accept.{new_task}
use ia_dev_lab.Repository.Accept.Total.{submitted, create_task-total, submitted-Inv}
use ia_dev_lab.Repository.Reads.{to_record, status_columns}
use ia_dev_lab.Repository.Steps.Safety.{run-Inv}
use ia_dev_lab.TaskService.{
  World, TaskService, now, found_db, after_call, call, over_limits, source_pairs, accept,
  accept_with, unless_refused, submit,
}
use ia_dev_lab.TaskService.Stored.{criteria_of, model_snapshot, snapshot}
use ia_dev_lab.TaskService.Stored.Restored.{
  criteria_of-dump, model_snapshot-dump, snapshot-accepted,
}

source_pairs-ids :
    (texts : List SourceText)
    → map (λ (p : String × String). p.0) (source_pairs texts) ≡ map (λ (t : SourceText). t.id) texts
source_pairs-ids [] = refl
source_pairs-ids (t ∷ ts) = ap (λ (l : List String). t.id ∷ l) (source_pairs-ids ts)

length-source_pairs : (texts : List SourceText) → length (source_pairs texts) ≡ length texts
length-source_pairs [] = refl
length-source_pairs (t ∷ ts) = ap suc (length-source_pairs ts)

submit_passed :
    (s : TaskService) (uuid owner : String) (r : ExtractionTaskRequest) (m : ResolvedModelReference)
    (w : World)
    → over_limits s r.texts ≡ none
    → selected_model s.extraction r.model ≡ returned m
    → submit s uuid owner r w ≡ accept s uuid owner r m w
unfolding submit
submit_passed s uuid owner r m w limits resolved =
    ap
      (λ (o : Option Error).
        unless_refused o (accept_with s uuid owner r (selected_model s.extraction r.model)) w)
      limits
    ∙ ap (λ (a : Attempt ResolvedModelReference). accept_with s uuid owner r a w) resolved

-- A submission that was accepted: the answer, and the row that is in the tables afterwards.
pub record IsAccepted (s : TaskService) (uuid owner : String) (r : ExtractionTaskRequest)
    (m : ResolvedModelReference) (w : World) : Type 0 where
  pub row : TaskRow
  pub after : World
  pub answer : submit s uuid owner r w ≡ (ok (to_record (status_columns row) false), after)
  pub stored : Elem row after.db.tasks
  pub kept : (t : TaskRow) → Elem t (found_db w).tasks → Elem t after.db.tasks
  pub good : Inv after.db
  pub named : row.task_id ≡ uuid
  pub owned : row.owner_id ≡ owner
  pub waiting : row.status ≡ TaskStatus.queued
  pub sized : row.accepted_count ≡ length r.texts
  pub dated : row.expires_at ≡ now w + s.retention
  pub read_back : snapshot (to_record row true) ≡ ok (property_names r.schema, m)

-- A validated request within the service's limits, whose model is resolved, is accepted under an id
-- that no task has: `submit` returns the queued task, the tables hold its row beside every row that
-- was there and are good, the row is the owner's, counts the request's texts and expires after the
-- retention period, and a worker will read from it the request's property names and that model.
pub submit-IsAccepted :
    (strip : String → String) (asked : ExtractionTaskRequest) (s : TaskService)
    (uuid owner : String) (r : ExtractionTaskRequest) (m : ResolvedModelReference) (w : World)
    → valid_task_request strip asked ≡ ok r
    → over_limits s r.texts ≡ none
    → selected_model s.extraction r.model ≡ returned m
    → Inv w.db
    → count (has_id uuid) (found_db w).tasks ≡ 0
    → IsAccepted s uuid owner r m w
unfolding call
submit-IsAccepted strip asked s uuid owner r m w checked limits resolved v free =
    let (texts, schema) = valid_task_request-AreTexts strip asked r checked in
    let (c, c_dumped, _) = criteria_of-dump r.schema in
    let (k, k_dumped, _, _) = model_snapshot-dump m s.extraction.execution_mode in
    let pairs = source_pairs r.texts in
    let db = found_db w in
    let good : Inv db = run-Inv w.db (w.others w.tick) v in
    let distinct = subst IsDistinct (sym (source_pairs-ids r.texts)) texts.distinct_ids in
    let some_items : 0 < length pairs =
      omega (arith, length-source_pairs r.texts, texts.some_text) in
    let row = new_task uuid owner c k pairs (now w) (now w + s.retention) in
    let answer =
      create_task-total uuid owner (criteria_of r.schema)
        (model_snapshot m s.extraction.execution_mode) c k pairs (now w) (now w + s.retention) db
        good free distinct some_items c_dumped k_dumped in
    record {
      row = row;
      after = record w {
        db = submitted uuid owner c k pairs (now w) (now w + s.retention) db;
        tick = suc w.tick;
      };
      answer = submit_passed s uuid owner r m w limits resolved ∙ ap (after_call w) answer;
      stored = Elem-last db.tasks row;
      kept = λ t e. Elem-append db.tasks (row ∷ []) e;
      good =
          submitted-Inv uuid owner (criteria_of r.schema)
            (model_snapshot m s.extraction.execution_mode) c k pairs (now w) (now w + s.retention)
            db good free distinct some_items c_dumped k_dumped;
      named = refl;
      owned = refl;
      waiting = refl;
      sized = length-source_pairs r.texts;
      dated = refl;
      read_back =
          snapshot-accepted r.schema m s.extraction.execution_mode c k (to_record row true) c_dumped
            k_dumped refl refl;
    }
