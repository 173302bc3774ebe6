-- ===== src/Repository/Steps/Evolves.antt =====
-- How a task may change from one call to the next.
use ia_dev_lab.Base.{ℕ, ◌≤◌, true, ◌≡◌, arith, is_some}
use ia_dev_lab.Models.{TaskStatus, is_terminal}
use ia_dev_lab.Repository.Schema.{TaskRow}

abbrev rank : TaskStatus → ℕ
rank TaskStatus.queued = 0
rank TaskStatus.processing = 1
rank _ = 2

-- From the row `t` to the row `t'`.
pub record Evolves (t t' : TaskRow) : Type 0 where
  pub same_id : t'.task_id ≡ t.task_id
  pub same_owner : t'.owner_id ≡ t.owner_id
  pub same_size : t'.accepted_count ≡ t.accepted_count
  pub same_creation : t'.created_at ≡ t.created_at
  pub same_expiry : t'.expires_at ≡ t.expires_at
  pub onwards : rank t.status ≤ rank t'.status
  pub processed_on : t.processed_count ≤ t'.processed_count
  pub successful_on : t.successful_count ≤ t'.successful_count
  pub failed_on : t.failed_count ≤ t'.failed_count
  pub start_kept : is_some t.started_at ≡ true → t'.started_at ≡ t.started_at
  pub purge_kept : is_some t.purged_at ≡ true → t'.purged_at ≡ t.purged_at
  pub frozen_status : is_terminal t.status ≡ true → t'.status ≡ t.status
  pub frozen_processed : is_terminal t.status ≡ true → t'.processed_count ≡ t.processed_count
  pub frozen_successful : is_terminal t.status ≡ true → t'.successful_count ≡ t.successful_count
  pub frozen_failed : is_terminal t.status ≡ true → t'.failed_count ≡ t.failed_count
  pub frozen_completion : is_terminal t.status ≡ true → t'.completed_at ≡ t.completed_at

pub Evolves-refl : (t : TaskRow) → Evolves t t
Evolves-refl t = ground arith

pub Evolves-trans : (t u w : TaskRow) → Evolves t u → Evolves u w → Evolves t w
unfolding is_terminal
Evolves-trans t u w h k = ground arith
