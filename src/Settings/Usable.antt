-- ===== src/Settings/Usable.antt =====
-- The settings that `from_environment` lets through.
use ia_dev_lab.Base.{
  ◌<◌, ltb, String, true, not, ◌||◌, ◌≡◌, subst, arith, Error, ok, bind_ok, raise_if_ok,
  value_error,
}
use ia_dev_lab.Extraction.{ExtractionService}
use ia_dev_lab.TaskService.{TaskService}
use ia_dev_lab.Settings.{
  ℤ, pos, negsuc, Environment, Settings, positive, positive_float, checked_settings, settings_of,
  int_setting, float_setting, default_poll, from_environment, checked_nat, created_service,
}

-- Every number is at least 1, and the poll interval is positive and finite.
pub record IsUsable (s : Settings) : Type 0 where
  pub artifact_size : 0 < checked_nat s.max_artifact_size
  pub texts : 0 < checked_nat s.max_extraction_texts
  pub characters : 0 < checked_nat s.max_extraction_characters
  pub async_texts : 0 < checked_nat s.async_extraction_max_texts
  pub async_characters : 0 < checked_nat s.async_extraction_max_characters
  pub retention : 0 < checked_nat s.task_retention_seconds
  pub tombstone : 0 < checked_nat s.task_tombstone_seconds
  pub lease : 0 < checked_nat s.task_lease_seconds
  pub poll_positive : s.task_poll_seconds.is_positive ≡ true
  pub poll_finite : s.task_poll_seconds.is_finite ≡ true

-- A task service whose limits and periods are positive.
pub record IsReady (s : TaskService) : Type 0 where
  pub texts : 0 < s.max_texts
  pub characters : 0 < s.max_characters
  pub retention : 0 < s.retention
  pub tombstone : 0 < s.tombstone
  pub lease : 0 < s.lease

above_zero : (n : ℤ) (m : String) (t : Unit {0}) → positive m n ≡ ok t → 0 < checked_nat n
above_zero (pos n) m t h = ground (arith, raise_if_ok (ltb n 1) (value_error m) t h)
above_zero (negsuc n) m t h = absurd (ground (arith, raise_if_ok true (value_error m) t h))

checked_settings-IsUsable : (s u : Settings) → checked_settings s ≡ ok u → IsUsable u
unfolding checked_settings
checked_settings-IsUsable s u h =
    let (t1, p1, h1) = bind_ok (positive _ s.max_artifact_size) _ u h in
    let (t2, p2, h2) = bind_ok (positive _ s.max_extraction_texts) _ u h1 in
    let (t3, p3, h3) = bind_ok (positive _ s.max_extraction_characters) _ u h2 in
    let (t4, p4, h4) = bind_ok (positive _ s.async_extraction_max_texts) _ u h3 in
    let (t5, p5, h5) = bind_ok (positive _ s.async_extraction_max_characters) _ u h4 in
    let (t6, p6, h6) = bind_ok (positive _ s.task_retention_seconds) _ u h5 in
    let (t7, p7, h7) = bind_ok (positive _ s.task_tombstone_seconds) _ u h6 in
    let (t8, p8, h8) = bind_ok (positive _ s.task_lease_seconds) _ u h7 in
    let (t9, p9, h9) = bind_ok (positive_float _ s.task_poll_seconds) _ u h8 in
    let same : s ≡ u = ground arith in
    let float =
      raise_if_ok (not s.task_poll_seconds.is_positive || not s.task_poll_seconds.is_finite) _ t9
        p9 in
    subst IsUsable same (record {
      artifact_size = above_zero s.max_artifact_size _ t1 p1;
      texts = above_zero s.max_extraction_texts _ t2 p2;
      characters = above_zero s.max_extraction_characters _ t3 p3;
      async_texts = above_zero s.async_extraction_max_texts _ t4 p4;
      async_characters = above_zero s.async_extraction_max_characters _ t5 p5;
      retention = above_zero s.task_retention_seconds _ t6 p6;
      tombstone = above_zero s.task_tombstone_seconds _ t7 p7;
      lease = above_zero s.task_lease_seconds _ t8 p8;
      poll_positive = ground (arith, float);
      poll_finite = ground (arith, float);
    })

-- Settings that are read from the environment without an exception hold only numbers that are at least
-- 1 and a poll interval that is positive and finite, whatever texts the variables hold; and the task
-- service that the application makes of them has positive limits, retention, tombstone period and
-- lease.
pub from_environment-IsUsable :
    (e : Environment) (s : Settings) (extraction : ExtractionService) (describe : Error → String)
    → from_environment e ≡ ok s
    → IsUsable s × IsReady (created_service s extraction describe)
unfolding from_environment
from_environment-IsUsable e s extraction describe h =
    let (n1, p1, h1) = bind_ok (int_setting e "MODEL_STORE_MAX_ARTIFACT_SIZE" 52428800) _ s h in
    let (n2, p2, h2) = bind_ok (int_setting e "EXTRACTION_MAX_TEXTS" 10) _ s h1 in
    let (n3, p3, h3) = bind_ok (int_setting e "EXTRACTION_MAX_CHARACTERS" 100000) _ s h2 in
    let (n4, p4, h4) = bind_ok (int_setting e "ASYNC_EXTRACTION_MAX_TEXTS" 100) _ s h3 in
    let (n5, p5, h5) = bind_ok (int_setting e "ASYNC_EXTRACTION_MAX_CHARACTERS" 1000000) _ s h4 in
    let (n6, p6, h6) = bind_ok (int_setting e "EXTRACTION_TASK_RETENTION_SECONDS" 86400) _ s h5 in
    let (n7, p7, h7) = bind_ok (int_setting e "EXTRACTION_TASK_TOMBSTONE_SECONDS" 604800) _ s h6 in
    let (n8, p8, h8) = bind_ok (int_setting e "EXTRACTION_TASK_LEASE_SECONDS" 300) _ s h7 in
    let (n9, p9, h9) =
      bind_ok (float_setting e "EXTRACTION_TASK_POLL_SECONDS" default_poll) _ s h8 in
    let usable = checked_settings-IsUsable (settings_of e n1 n2 n3 n4 n5 n6 n7 n8 n9) s h9 in
    (
      usable,
      record {
        texts = usable.async_texts;
        characters = usable.async_characters;
        retention = omega (arith, usable.retention);
        tombstone = omega (arith, usable.tombstone);
        lease = omega (arith, usable.lease);
      },
    )
