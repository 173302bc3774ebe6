-- ===== src/Repository/Finish/Lease.antt =====
-- What renewing its lease and taking an item do to a task under a worker's lease.
use ia_dev_lab.Base.{
  ℕ, ◌+◌, String, Bool, true, false, ◌≡◌, refl, subst, inl, inr, Option, some, arith, eq_iff,
  eq_refl, All, All-Elem, Elem, Elem-update, find, find_key, update, count_pos, count_mono,
  count_none, Result, ok, nat_equality, string_equality,
}
use ia_dev_lab.Models.{is_terminal, ItemRecord}
use ia_dev_lab.Repository.Schema.{
  TaskRow, ItemRow, Db, has_id, at_position, is_running, null_eq, null_gt,
}
use ia_dev_lab.Repository.Invariant.{TaskInv, Inv}
use ia_dev_lab.Repository.Reads.{item_from_row}
use ia_dev_lab.Repository.Lease.{
  renewable, renew_lease, open_item, start_item, working, claim_next_item,
}
use ia_dev_lab.Repository.Lease.Keeps.{renew_lease-Inv, claim_next_item-Inv}
use ia_dev_lab.Repository.Lease.Claims.{claim_next_item-total}
use ia_dev_lab.Repository.Finish.{leased}
use ia_dev_lab.Repository.Finish.Abandon.{count_states}

abbrev renewed : ℕ → ℕ → TaskRow → TaskRow
renewed now lease t = record t { lease_expires_at = some (now + lease); updated_at = now }

-- A running task under the worker's lease, on good tables.
pub record IsHeld (id worker : String) (db : Db) : Type 0 where
  pub inv : Inv db
  pub row : TaskRow
  pub there : Elem row db.tasks
  pub named : row.task_id ≡ id
  pub held : row.lease_owner ≡ some worker
  pub running : is_terminal row.status ≡ false

-- A task in a terminal status, on good tables.
pub record IsFinished (id : String) (db : Db) : Type 0 where
  pub inv : Inv db
  pub row : TaskRow
  pub there : Elem row db.tasks
  pub named : row.task_id ≡ id
  pub over : is_terminal row.status ≡ true

module _ (id worker : String) (db : Db) (h : IsHeld id worker db) where
  pub row-has_id : has_id id h.row ≡ true
  row-has_id = (eq_iff h.row.task_id id).1 h.named

  row-null_eq : null_eq h.row.lease_owner worker ≡ true
  row-null_eq = rw h.held (eq_refl worker)

  row-is_running : is_running h.row.status ≡ true
  unfolding is_terminal
  row-is_running = ground (arith, h.running)

  -- The only row that a test by its id can take.
  pub find-held :
      (q : TaskRow → Bool)
      → ((t : TaskRow) → q t ≡ true → has_id id t ≡ true)
      → q h.row ≡ true
      → find q db.tasks ≡ some h.row
  find-held q of here =
      find_key q db.tasks {r = h.row}
        (omega (arith, count_mono q (has_id id) db.tasks of, h.inv.task_key id)) h.there here

  row-leased : leased id worker h.row ≡ true
  row-leased = ground (arith, row-has_id, row-null_eq)

  pub find-leased : find (leased id worker) db.tasks ≡ some h.row
  find-leased = find-held (leased id worker) (λ t q. ground arith) row-leased

  row-renewable : renewable id worker h.row ≡ true
  row-renewable = ground (arith, row-has_id, row-null_eq, row-is_running)

  pub renew_lease-true : (now lease : ℕ) → (renew_lease id worker now lease db).0 ≡ true
  unfolding renew_lease
  renew_lease-true now lease = ground (
    arith,
    count_pos (renewable id worker) db.tasks {r = h.row} h.there row-renewable,
    count_mono (renewable id worker) (has_id id) db.tasks (λ t q. ground arith),
    h.inv.task_key id,
  )

  -- Renewing keeps the task held, and dates the lease.
  pub renew_lease-IsHeld :
      (now lease : ℕ)
      → (k : IsHeld id worker (renew_lease id worker now lease db).1) × (k.row.lease_expires_at
          ≡ some (now + lease))
  unfolding renew_lease
  renew_lease-IsHeld now lease = (
    record {
      inv = renew_lease-Inv id worker now lease db h.inv;
      row = renewed now lease h.row;
      there =
          subst
            (λ (t : TaskRow). Elem t (update (renewable id worker) (renewed now lease) db.tasks))
            (rw row-renewable)
            (Elem-update (renewable id worker) (renewed now lease) db.tasks h.there);
      named = h.named;
      held = h.held;
      running = h.running;
    },
    refl,
  )

  row-TaskInv : TaskInv db.items h.row
  row-TaskInv = All-Elem (TaskInv db.items) db.tasks h.inv.rows h.there

  row-working :
      (now : ℕ) → null_gt h.row.lease_expires_at now ≡ true → working id worker now h.row ≡ true
  unfolding is_terminal
  row-working now live = ground (arith, row-has_id, row-null_eq, row-TaskInv, h.running, h.held)

  pub find-working :
      (now : ℕ)
      → null_gt h.row.lease_expires_at now ≡ true
      → find (working id worker now) db.tasks ≡ some h.row
  find-working now live =
      find-held (working id worker now) (λ t q. ground arith) (row-working now live)

  -- A running task has an open item.
  not_all_closed : All (λ i. open_item id i ≡ false) db.items → ⊥
  not_all_closed a = ground (
    arith,
    count_none (open_item id) db.items a,
    count_states id db.items,
    row-TaskInv,
    h.running,
    h.named,
  )

-- What `claim_next_item` gives the holder of a live lease: an open item, now being processed.
pub record IsTaken (id worker : String) (now : ℕ) (db : Db) : Type 0 where
  pub item : ItemRow
  pub after : Db
  pub answer :
      claim_next_item id worker now db ≡ (ok (some (item_from_row (start_item now item))), after)
  pub still : IsHeld id worker after
  pub found : find (at_position id item.position) after.items ≡ some (start_item now item)

pub claim_next_item-IsTaken :
    (id worker : String) (now : ℕ) (db : Db) (h : IsHeld id worker db)
    → null_gt h.row.lease_expires_at now ≡ true
    → IsTaken id worker now db
claim_next_item-IsTaken id worker now db h live =
    elim (claim_next_item-total id worker now db h.row h.inv
      (find-working id worker db h now live)) [
        | inl (closed, e) ↦ absurd (not_all_closed id worker db h closed)
        | inr (item, n, e) ↦
            let at = at_position id item.position in
            let here : at item ≡ true = ground (arith, n.eligible) in
            let after : Db = record db { items = update at (start_item now) db.items } in
            let good : Inv after =
              subst (λ (r : Result (Option ItemRecord) × Db). Inv r.1) e
                (claim_next_item-Inv id worker now db h.inv) in
            record {
              item = item;
              after = after;
              answer = e;
              still = record {
                inv = good;
                row = h.row;
                there = h.there;
                named = h.named;
                held = h.held;
                running = h.running;
              };
              found =
                  find_key at after.items {r = start_item now item} (good.item_key id item.position)
                    (subst (λ (i : ItemRow). Elem i after.items) (rw here)
                      (Elem-update at (start_item now) db.items n.present))
                    here;
            }
      ]
