-- ===== src/Repository/Answers.antt =====
-- What the readers `get_results` and `get_running_summary` answer on good tables.
use ia_dev_lab.Base.{
  ℕ, ◌+◌, ◌≤◌, String, Bool, true, false, ◌≡◌, refl, inl, inr, some, List, [], ◌∷◌, map, arith, leb,
  if◌then◌else◌, is_some, All, All-Elem, All-select_test, find, find-Elem, select, count, sum_of,
  Bool-cases, ok,
}
use ia_dev_lab.Models.{is_terminal}
use ia_dev_lab.Repository.Schema.{TaskRow, ItemRow, Db, of_task}
use ia_dev_lab.Repository.Invariant.{TaskInv, Inv}
use ia_dev_lab.Repository.Reads.{
  to_record, item_from_row, owned_by, is_queued, is_processing, insert_by_position,
  order_by_position, get_results, Summary, runs_for, get_running_summary,
}
use ia_dev_lab.Repository.Steps.Safety.{post_init-to_record}

-- Ascending positions.
abbrev pub FromPosition : ℕ → List ItemRow → Type 0
FromPosition n [] = Unit
FromPosition n (i ∷ is) = (n ≤ i.position) × FromPosition i.position is

insert_by_position-FromPosition :
    (n : ℕ) (i : ItemRow) (is : List ItemRow)
    → n ≤ i.position
    → FromPosition n is
    → FromPosition n (insert_by_position i is)
unfolding insert_by_position
insert_by_position-FromPosition n i [] h k = (h, tt)
insert_by_position-FromPosition n i (j ∷ js) h k = elim (Bool-cases (leb i.position j.position)) [
  | inl e ↦ rw e (h, (ground arith, k.1))
  | inr e ↦ rw e (k.0, insert_by_position-FromPosition j.position i js (ground arith) k.1)
]

order_by_position-FromPosition : (is : List ItemRow) → FromPosition 0 (order_by_position is)
unfolding order_by_position
order_by_position-FromPosition [] = tt
order_by_position-FromPosition (i ∷ is) =
    insert_by_position-FromPosition 0 i (order_by_position is) (omega arith)
      (order_by_position-FromPosition is)

count-insert_by_position :
    (p : ItemRow → Bool) (i : ItemRow) (is : List ItemRow)
    → count p (insert_by_position i is) ≡ count p (i ∷ is)
unfolding count insert_by_position
count-insert_by_position p i [] = refl
count-insert_by_position p i (j ∷ js) = ground (arith, count-insert_by_position p i js)

count-order_by_position :
    (p : ItemRow → Bool) (is : List ItemRow) → count p (order_by_position is) ≡ count p is
unfolding count order_by_position
count-order_by_position p [] = refl
count-order_by_position p (i ∷ is) =
    ground
      (arith, count-insert_by_position p i (order_by_position is), count-order_by_position p is)

-- The answer of `get_results` to the owner of the task `row`.
pub record ResultsAnswer (id owner : String) (db : Db) (row : TaskRow) : Type 0 where
  pub rows : List ItemRow
  pub ascending : FromPosition 0 rows
  pub complete : (p : ItemRow → Bool) → count p rows ≡ count p (select (of_task id) db.items)
  pub answer :
      get_results id owner db
      ≡ ok (some (to_record row true), if is_some row.purged_at then [] else map item_from_row rows)

-- On good tables `get_results` never raises for a task of the given owner: it returns the task's
-- record, and with it every item of the task once, by ascending position, or no item if the task was
-- purged.
pub get_results-total :
    (id owner : String) (db : Db) (row : TaskRow)
    → Inv db
    → find (owned_by id owner) db.tasks ≡ some row
    → ResultsAnswer id owner db row
unfolding get_results
get_results-total id owner db row v e =
    let good =
      post_init-to_record db.items row true
        (All-Elem (TaskInv db.items) db.tasks v.rows (find-Elem (owned_by id owner) db.tasks e)) in
    record {
      rows = order_by_position (select (of_task id) db.items);
      ascending = order_by_position-FromPosition (select (of_task id) db.items);
      complete = λ p. count-order_by_position p (select (of_task id) db.items);
      answer = elim (Bool-cases (is_some row.purged_at)) [
        | inl purged ↦ rw (e, get_results, purged, good)
        | inr unpurged ↦ rw (e, get_results, unpurged, good)
      ];
    }

-- The sums of a summary fit together.
pub record IsConsistent (s : Summary) : Type 0 where
  pub by_status : s.queued + s.processing ≡ s.total
  pub by_outcome : s.successful + s.failed ≡ s.processed
  pub work_left : s.processed + s.total ≤ s.accepted

abbrev IsRunningRow : TaskRow → Type 0
IsRunningRow t =
    (is_terminal t.status ≡ false)
    × (t.successful_count + t.failed_count ≡ t.processed_count)
    × (t.processed_count + 1 ≤ t.accepted_count)

summary_sums :
    (rows : List TaskRow)
    → All IsRunningRow rows
    → (count (λ t. is_queued t.status) rows + count (λ t. is_processing t.status) rows
        ≡ count (λ _. true) rows)
      × (sum_of (λ t. t.successful_count) rows + sum_of (λ t. t.failed_count) rows
          ≡ sum_of (λ t. t.processed_count) rows)
      × (sum_of (λ t. t.processed_count) rows + count (λ _. true) rows
          ≤ sum_of (λ t. t.accepted_count) rows)
unfolding count is_terminal
summary_sums [] h = (refl, refl, omega arith)
summary_sums (t ∷ ts) ((running, split, left), h) =
    let (a, b, c) = summary_sums ts h in
    (ground (arith, a, running), omega (arith, b, split), omega (arith, c, left))

-- On good tables the running summary of an owner is consistent: queued and processing tasks add up to
-- the total, successful and failed items to the processed ones, and at least one accepted item per
-- running task is not processed.
pub get_running_summary-IsConsistent :
    (owner : String) (db : Db) → Inv db → IsConsistent (get_running_summary owner db)
unfolding get_running_summary is_terminal
get_running_summary-IsConsistent owner db v =
    let (a, b, c) =
      summary_sums (select (runs_for owner) db.tasks) (
        All-select_test (TaskInv db.items) IsRunningRow (runs_for owner) db.tasks running v.rows) in
    record { by_status = a; by_outcome = b; work_left = c }
  where
    running : (t : TaskRow) → runs_for owner t ≡ true → TaskInv db.items t → IsRunningRow t
    running t q h =
        let o : is_terminal t.status ≡ false = ground arith in
        (o, h.progress, omega (arith, h.unfinished o))
