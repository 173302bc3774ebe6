-- ===== src/Repository/Steps/Progress.antt =====
-- Every call moves every task onwards, and only the end of a tombstone removes one.
use ia_dev_lab.Base.{
  ℕ, ◌+◌, ◌≤◌, not, ◌⊎◌, inl, inr, List, [], ◌∷◌, arith, Elem, Elem-select, update, Bool-cases,
}
use ia_dev_lab.Repository.Schema.{TaskRow, Db}
use ia_dev_lab.Repository.Invariant.{Inv}
use ia_dev_lab.Repository.Retention.{expired, wipe_task, elapsed, maintain_retention}
use ia_dev_lab.Repository.Steps.{
  Call, creates, claims, renews, starts, finalizes, fails, maintains, step, run,
}
use ia_dev_lab.Repository.Steps.Safety.{step-Inv}
use ia_dev_lab.Repository.Steps.Evolves.{Evolves, Evolves-trans}
use ia_dev_lab.Repository.Steps.Onwards.{
  Onwards, stays, update-Onwards, wipe_task-Evolves, claim_task-Onwards, renew_lease-Onwards,
  create_task-Onwards, finalize_item-Onwards, fail_task-Onwards, claim_next_item-Onwards,
}

-- When maintenance may remove a task: its tombstone period is over.
abbrev pub Elapsed : Call → TaskRow → Type 0
Elapsed (maintains now tombstone) t = t.expires_at + tombstone ≤ now
Elapsed _ t = ⊥

maintain_retention-Onwards :
    (now tombstone : ℕ) (db : Db) (t : TaskRow)
    → Elem t db.tasks
    → (t.expires_at + tombstone ≤ now) ⊎ Onwards t (maintain_retention now tombstone db).1.tasks
unfolding maintain_retention
maintain_retention-Onwards now tombstone db t m =
    let o = update-Onwards (expired now) (wipe_task now) db.tasks t m (wipe_task-Evolves now t) in
    elim (Bool-cases (elapsed now tombstone o.row)) [
      | inl e ↦ inl (ground (arith, o.evolved.same_expiry))
      | inr e ↦ inr (record {
        row = o.row;
        there =
            Elem-select (λ s. not (elapsed now tombstone s))
              (update (expired now) (wipe_task now) db.tasks) o.there (rw e);
        evolved = o.evolved;
      })
    ]

-- A call removes a task only by maintenance after its tombstone period, or moves it onwards.
pub step-Onwards :
    (db : Db) (c : Call) (t : TaskRow)
    → Inv db
    → Elem t db.tasks
    → Elapsed c t ⊎ Onwards t (step db c).tasks
unfolding step
step-Onwards db (creates id owner criteria model items created_at expires_at) t v m =
    inr (create_task-Onwards id owner criteria model items created_at expires_at db t v m)
step-Onwards db (claims worker now lease_seconds) t v m =
    inr (claim_task-Onwards worker now lease_seconds db t v m)
step-Onwards db (renews id worker now lease_seconds) t v m =
    inr (renew_lease-Onwards id worker now lease_seconds db t m)
step-Onwards db (starts id worker now) t v m = inr (claim_next_item-Onwards id worker now db t m)
step-Onwards db (finalizes id worker position outcome error now) t v m =
    inr (finalize_item-Onwards id worker position outcome error now db t v m)
step-Onwards db (fails id worker error now) t v m =
    inr (fail_task-Onwards id worker error now db t v m)
step-Onwards db (maintains now tombstone) t v m = maintain_retention-Onwards now tombstone db t m

-- Some call of a history may remove the task.
abbrev pub ElapsedIn : List Call → TaskRow → Type 0
ElapsedIn [] t = ⊥
ElapsedIn (c ∷ cs) t = Elapsed c t ⊎ ElapsedIn cs t

Elapsed-back : (c : Call) (t u : TaskRow) → Evolves t u → Elapsed c u → Elapsed c t
Elapsed-back (maintains now tombstone) t u h e = ground arith
Elapsed-back _ t u h e = e

ElapsedIn-back : (cs : List Call) (t u : TaskRow) → Evolves t u → ElapsedIn cs u → ElapsedIn cs t
ElapsedIn-back [] t u h e = e
ElapsedIn-back (c ∷ cs) t u h (inl e) = inl (Elapsed-back c t u h e)
ElapsedIn-back (c ∷ cs) t u h (inr e) = inr (ElapsedIn-back cs t u h e)

-- The state machine of a task over a history of calls: a task that is in the tables is gone after the
-- history only if the history holds a retention run made after the task's tombstone period. Otherwise
-- it is still there, with its id, owner, size, creation and expiry times unchanged, its start and purge
-- times kept once set, its status has not gone back, no counter has fallen, and if it was finished
-- then its status, counters and completion time are unchanged.
pub run-Onwards :
    (db : Db) (cs : List Call) (t : TaskRow)
    → Inv db
    → Elem t db.tasks
    → ElapsedIn cs t ⊎ Onwards t (run db cs).tasks
unfolding run
run-Onwards db [] t v m = inr (stays t db.tasks m)
run-Onwards db (c ∷ cs) t v m = elim (step-Onwards db c t v m) [
  | inl e ↦ inl (inl e)
  | inr o ↦ elim (run-Onwards (step db c) cs o.row (step-Inv db c v) o.there) [
    | inl e ↦ inl (inr (ElapsedIn-back cs t o.row o.evolved e))
    | inr p ↦ inr (record {
      row = p.row;
      there = p.there;
      evolved = Evolves-trans t o.row p.row o.evolved p.evolved;
    })
  ]
]
