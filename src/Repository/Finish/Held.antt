-- ===== src/Repository/Finish/Held.antt =====
-- What finishing an item and giving up do to a task under a worker's lease.
use ia_dev_lab.Base.{
  ℕ, ◌-◌, String, Bool, true, false, ◌≡◌, refl, sym, ap, subst, inl, inr, Option, some, arith, Elem,
  Elem-update, find, update, is_none, Bool-cases, Result-cases, Error, Result, ok, err,
  nat_equality, string_equality,
}
use ia_dev_lab.Json.{Fields}
use ia_dev_lab.Models.{is_terminal, TaskRecord}
use ia_dev_lab.Repository.Schema.{TaskRow, ItemRow, Db, has_id, at_position, is_open}
use ia_dev_lab.Repository.Invariant.{Inv}
use ia_dev_lab.Repository.Accept.{dump}
use ia_dev_lab.Repository.Reads.{to_record}
use ia_dev_lab.Repository.Finish.{
  dump_optional, same_presence, next_status, advance_task, finalize_rows, finalize_item,
  abandon_task, fail_task,
}
use ia_dev_lab.Repository.Finish.Keeps.{finalized, finalize_item-Inv}
use ia_dev_lab.Repository.Finish.Abandon.{fail_task-Inv}
use ia_dev_lab.Repository.Finish.Outcome.{finalize_item-total, fail_task-commits}
use ia_dev_lab.Repository.Finish.Lease.{IsHeld, IsFinished, row-has_id, find-leased}

-- What `finalize_item` gives the holder: it has raised and changed nothing, or it returns the task,
-- which is finished or still held.
pub data IsFinalized (id worker : String) (db : Db) : Result TaskRecord × Db → Type 0 where
  refused : (e : Error) → IsFinalized id worker db (err e, db)
  continues :
      (t : TaskRecord) (d : Db)
      → is_terminal t.status ≡ false
      → IsHeld id worker d
      → IsFinalized id worker db (ok t, d)
  finishes :
      (t : TaskRecord) (d : Db)
      → is_terminal t.status ≡ true
      → IsFinished id d
      → IsFinalized id worker db (ok t, d)

module _ (id worker : String) (db : Db) (h : IsHeld id worker db) where
  changed_row : (f : TaskRow → TaskRow) → Elem (f h.row) (update (has_id id) f db.tasks)
  changed_row f =
      subst (λ (t : TaskRow). Elem t (update (has_id id) f db.tasks))
        (rw (row-has_id id worker db h)) (Elem-update (has_id id) f db.tasks h.there)

  advanced_lease :
      (success : Bool) (now : ℕ)
      → is_terminal (advance_task h.row success worker now h.row).status ≡ false
      → (advance_task h.row success worker now h.row).lease_owner ≡ some worker
  unfolding is_terminal next_status
  advanced_lease success now open_task = ground (arith, open_task)

  advanced-IsFinalized :
      (position : ℕ) (outcome error error_json : Option Fields) (now : ℕ)
      → Inv (finalized h.row id worker position outcome error error_json now db)
      → IsFinalized id worker db (
        ok (to_record (advance_task h.row (is_none error) worker now h.row) true),
        finalized h.row id worker position outcome error error_json now db,
      )
  advanced-IsFinalized position outcome error error_json now good =
      let f = advance_task h.row (is_none error) worker now in
      elim (Bool-cases (is_terminal (f h.row).status)) [
        | inl e ↦
            finishes _ _ e (record {
              inv = good;
              row = f h.row;
              there = changed_row f;
              named = h.named;
              over = e;
            })
        | inr e ↦ continues _ _ e (record {
          inv = good;
          row = f h.row;
          there = changed_row f;
          named = h.named;
          held = advanced_lease (is_none error) now e;
          running = e;
        })
      ]

  undumped_outcome :
      (position : ℕ) (outcome error : Option Fields) (now : ℕ) (item : ItemRow) (x : Error)
      → find (at_position id position) db.items ≡ some item
      → is_open item.status ≡ true
      → same_presence outcome error ≡ false
      → dump_optional outcome ≡ err x
      → finalize_item id worker position outcome error now db ≡ (err x, db)
  unfolding finalize_item
  undumped_outcome position outcome error now item x found open_row one e =
      rw (one, find-leased id worker db h, finalize_rows, h.running, found, open_row, e)

  undumped_error :
      (position : ℕ) (outcome error o : Option Fields) (now : ℕ) (item : ItemRow) (x : Error)
      → find (at_position id position) db.items ≡ some item
      → is_open item.status ≡ true
      → same_presence outcome error ≡ false
      → dump_optional outcome ≡ ok o
      → dump_optional error ≡ err x
      → finalize_item id worker position outcome error now db ≡ (err x, db)
  unfolding finalize_item
  undumped_error position outcome error o now item x found open_row one e k =
      rw (one, find-leased id worker db h, finalize_rows, h.running, found, open_row, e, k)

  pub finalize_item-IsFinalized :
      (position : ℕ) (outcome error : Option Fields) (now : ℕ) (item : ItemRow)
      → find (at_position id position) db.items ≡ some item
      → is_open item.status ≡ true
      → same_presence outcome error ≡ false
      → IsFinalized id worker db (finalize_item id worker position outcome error now db)
  finalize_item-IsFinalized position outcome error now item found open_row one =
      elim (Result-cases (dump_optional outcome)) [
        | inl (x, e) ↦
            subst (IsFinalized id worker db)
              (sym (undumped_outcome position outcome error now item x found open_row one e))
              (refused x)
        | inr (o, e) ↦ elim (Result-cases (dump_optional error)) [
          | inl (x, k) ↦
              subst (IsFinalized id worker db)
                (sym (undumped_error position outcome error o now item x found open_row one e k))
                (refused x)
          | inr (w, k) ↦
              let answer =
                finalize_item-total id worker position outcome error o w now db h.row item h.inv
                  (find-leased id worker db h) h.running found open_row one e k in
              subst (IsFinalized id worker db) (sym answer) (
                advanced-IsFinalized position o error w now (
                  subst (λ (r : Result TaskRecord × Db). Inv r.1) answer
                    (finalize_item-Inv id worker position outcome error now db h.inv)))
        ]
      ]

  over_lem :
      (json : Fields) (now : ℕ)
      → is_terminal
          (abandon_task json (h.row.accepted_count - h.row.processed_count) now h.row).status
        ≡ true
  unfolding is_terminal
  over_lem json now = refl

  -- Giving the task up, with a serializable error.
  pub fail_task-IsFinished :
      (error json : Fields) (now : ℕ)
      → dump error ≡ ok json
      → (t : TaskRecord) × ((fail_task id worker error now db).0 ≡ ok t)
        × IsFinished id (fail_task id worker error now db).1
  fail_task-IsFinished error json now e =
      let answer =
        fail_task-commits id worker error json now db h.row h.inv (find-leased id worker db h)
          h.running e in
      let f = abandon_task json (h.row.accepted_count - h.row.processed_count) now in
      (
        _,
        ap (λ (r : Result TaskRecord × Db). r.0) answer,
        subst (λ (r : Result TaskRecord × Db). IsFinished id r.1) (sym answer)
            (record {
              inv =
                  subst (λ (r : Result TaskRecord × Db). Inv r.1) answer
                    (fail_task-Inv id worker error now db h.inv);
              row = f h.row;
              there = changed_row f;
              named = h.named;
              over = over_lem json now;
            }),
      )
