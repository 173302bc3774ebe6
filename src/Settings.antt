-- ===== src/Settings.antt =====
-- src/settings.py: the configuration that is read from the environment, and `ExtractionTaskService` as
-- `create_app` of src/app.py makes it from the settings. `int` and `float` on a text are parameters. A
-- float is known by its text and by the two tests that the code makes of it. `math.isfinite` raises an
-- OverflowError for an integer above the largest float, which is not modelled.
pub mod Usable
mod Tests
use ia_dev_lab.Base.{
  ℕ, suc, ◌*◌, ◌<◌, ltb, String, Bool, true, false, not, ◌&&◌, ◌||◌, ◌≡◌, refl, sym, ap, subst,
  Option, none, some, List, [], ◌∷◌, arith, inl, inr, Bool-cases, Error, Result, ok, err, ◌>>=◌,
  ◌>>◌, or_raise, raise_if, value_error,
}
use ia_dev_lab.Extraction.{ExtractionService}
use ia_dev_lab.TaskService.{TaskService}

pub data ℤ : Type 0 where
  pos negsuc : ℕ → ℤ

-- A float: its text, whether it is above 0, and whether it is finite.
pub record Float : Type 0 where
  pub value : String
  pub is_positive : Bool
  pub is_finite : Bool

-- `os.getenv`, `int`, `float`, and the database path beside a data directory.
pub record Environment : Type 0 where
  pub getenv : String → Option String
  pub to_int : String → Option ℤ
  pub to_float : String → Option Float
  pub beside : String → String → String

pub record Settings : Type 0 where
  pub data_dir : String
  pub database_path : String
  pub max_artifact_size : ℤ
  pub max_extraction_texts : ℤ
  pub max_extraction_characters : ℤ
  pub async_extraction_max_texts : ℤ
  pub async_extraction_max_characters : ℤ
  pub task_retention_seconds : ℤ
  pub task_tombstone_seconds : ℤ
  pub task_lease_seconds : ℤ
  pub task_poll_seconds : Float

abbrev pub or_default {ℓ} : {A : Type ℓ} → A → Option A → A
or_default d none = d
or_default d (some a) = a

-- `int(text)`
abbrev pub read_int : Environment → String → Result ℤ
read_int e s = or_raise (e.to_int s) (value_error "invalid literal for int()")

abbrev pub int_or : (String → Result ℤ) → ℕ → Option String → Result ℤ
int_or read default none = ok (pos default)
int_or read default (some s) = read s

abbrev pub float_or : Environment → Float → Option String → Result Float
float_or e default none = ok default
float_or e default (some s) =
    or_raise (e.to_float s) (value_error "could not convert string to float")

-- `int(os.getenv(name, str(default)))`: `int` reads the text of a default back.
abbrev pub int_setting : Environment → String → ℕ → Result ℤ
int_setting e name default = int_or (read_int e) default (e.getenv name)

-- `float(os.getenv(name, str(default)))`
abbrev pub float_setting : Environment → String → Float → Result Float
float_setting e name default = float_or e default (e.getenv name)

abbrev pub is_below_one : ℤ → Bool
is_below_one (pos n) = ltb n 1
is_below_one (negsuc n) = true

-- `value < 1`, or `value <= 0`, on an integer.
abbrev pub positive : String → ℤ → Result (Unit {0})
positive message value = raise_if (is_below_one value) (value_error message)

abbrev pub positive_float : String → Float → Result (Unit {0})
positive_float message value =
    raise_if (not value.is_positive || not value.is_finite) (value_error message)

abbrev pub default_poll : Float
default_poll = record { value = "0.25"; is_positive = true; is_finite = true }

-- The checks of `from_environment`, in their order.
unfoldable pub checked_settings : Settings → Result Settings
checked_settings s = do
  positive "MODEL_STORE_MAX_ARTIFACT_SIZE must be positive" s.max_artifact_size
  positive "EXTRACTION_MAX_TEXTS must be positive" s.max_extraction_texts
  positive "EXTRACTION_MAX_CHARACTERS must be positive" s.max_extraction_characters
  positive "ASYNC_EXTRACTION_MAX_TEXTS must be positive" s.async_extraction_max_texts
  positive "ASYNC_EXTRACTION_MAX_CHARACTERS must be positive" s.async_extraction_max_characters
  positive "EXTRACTION_TASK_RETENTION_SECONDS must be positive" s.task_retention_seconds
  positive "EXTRACTION_TASK_TOMBSTONE_SECONDS must be positive" s.task_tombstone_seconds
  positive "EXTRACTION_TASK_LEASE_SECONDS must be positive" s.task_lease_seconds
  positive_float "EXTRACTION_TASK_POLL_SECONDS must be positive" s.task_poll_seconds
  ok s

-- The arguments of the constructor call.
abbrev pub settings_of : Environment → ℤ → ℤ → ℤ → ℤ → ℤ → ℤ → ℤ → ℤ → Float → Settings
settings_of e max_size max_texts max_characters async_max_texts async_max_characters
      retention_seconds tombstone_seconds lease_seconds poll_seconds =
    let data_dir = or_default ".data/model-store" (e.getenv "MODEL_STORE_DATA_DIR") in
    record {
      data_dir = data_dir;
      database_path =
          or_default (e.beside data_dir "catalog.sqlite3") (e.getenv "MODEL_STORE_DATABASE_PATH");
      max_artifact_size = max_size;
      max_extraction_texts = max_texts;
      max_extraction_characters = max_characters;
      async_extraction_max_texts = async_max_texts;
      async_extraction_max_characters = async_max_characters;
      task_retention_seconds = retention_seconds;
      task_tombstone_seconds = tombstone_seconds;
      task_lease_seconds = lease_seconds;
      task_poll_seconds = poll_seconds;
    }

unfoldable pub from_environment : Environment → Result Settings
unfolding checked_settings
from_environment e = do
  max_size ← int_setting e "MODEL_STORE_MAX_ARTIFACT_SIZE" 52428800
  max_texts ← int_setting e "EXTRACTION_MAX_TEXTS" 10
  max_characters ← int_setting e "EXTRACTION_MAX_CHARACTERS" 100000
  async_max_texts ← int_setting e "ASYNC_EXTRACTION_MAX_TEXTS" 100
  async_max_characters ← int_setting e "ASYNC_EXTRACTION_MAX_CHARACTERS" 1000000
  retention_seconds ← int_setting e "EXTRACTION_TASK_RETENTION_SECONDS" 86400
  tombstone_seconds ← int_setting e "EXTRACTION_TASK_TOMBSTONE_SECONDS" 604800
  lease_seconds ← int_setting e "EXTRACTION_TASK_LEASE_SECONDS" 300
  poll_seconds ← float_setting e "EXTRACTION_TASK_POLL_SECONDS" default_poll
  checked_settings (
      settings_of e max_size max_texts max_characters async_max_texts async_max_characters
        retention_seconds tombstone_seconds lease_seconds poll_seconds)

-- A setting that has been checked is a natural number.
abbrev pub checked_nat : ℤ → ℕ
checked_nat (pos n) = n
checked_nat (negsuc n) = 0

-- A duration in seconds, in microseconds.
abbrev pub seconds : ℤ → ℕ
seconds n = checked_nat n * 1000000

-- The task service of `create_app`, with the text of an exception.
abbrev pub created_service : Settings → ExtractionService → (Error → String) → TaskService
created_service s extraction describe = record {
  extraction = extraction;
  max_texts = checked_nat s.async_extraction_max_texts;
  max_characters = checked_nat s.async_extraction_max_characters;
  retention = seconds s.task_retention_seconds;
  tombstone = seconds s.task_tombstone_seconds;
  lease = seconds s.task_lease_seconds;
  describe = describe;
}
