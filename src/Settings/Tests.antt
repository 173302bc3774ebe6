-- ===== src/Settings/Tests.antt =====
-- The settings of an empty environment, of a bad one, and the theorem at the first.
use ia_dev_lab.Base.{
  ◌≡◌, refl, none, some, ok, err, value_error, ◌==◌, string_equality, if◌then◌else◌,
}
use ia_dev_lab.Extraction.{
  ExecutionMode, ExtractionService, stub_infer, stub_estimate, stub_resolve,
}
use ia_dev_lab.Settings.{
  pos, Environment, Settings, default_poll, from_environment, created_service,
}
use ia_dev_lab.Settings.Usable.{IsUsable, IsReady, from_environment-IsUsable}

settings_program : Unit {0}
unfolding from_environment
settings_program = tt

abbrev empty : Environment
empty = record {
  getenv = λ name. none;
  to_int = λ s. none;
  to_float = λ s. none;
  beside = λ directory name. ".data/model-store/catalog.sqlite3";
}

abbrev no_lease : Environment
no_lease = record empty {
  getenv = λ name. if name == "EXTRACTION_TASK_LEASE_SECONDS" then some "0" else none;
  to_int = λ s. some (pos 0);
}

abbrev defaults : Settings
defaults = record {
  data_dir = ".data/model-store";
  database_path = ".data/model-store/catalog.sqlite3";
  max_artifact_size = pos 52428800;
  max_extraction_texts = pos 10;
  max_extraction_characters = pos 100000;
  async_extraction_max_texts = pos 100;
  async_extraction_max_characters = pos 1000000;
  task_retention_seconds = pos 86400;
  task_tombstone_seconds = pos 604800;
  task_lease_seconds = pos 300;
  task_poll_seconds = default_poll;
}

loads : from_environment empty ≡ ok defaults
unfolding settings_program
loads = refl

refuses :
    from_environment no_lease ≡ err (value_error "EXTRACTION_TASK_LEASE_SECONDS must be positive")
unfolding settings_program
refuses = refl

abbrev stubs : ExtractionService
stubs = record {
  execution_mode = ExecutionMode.stub;
  infer = stub_infer (λ id. id == "bad") (λ id. "Inference failed");
  estimate = stub_estimate;
  resolve = stub_resolve;
  max_texts = 10;
  max_characters = 100000;
}

from_environment-IsUsable_example :
    IsUsable defaults × IsReady (created_service defaults stubs (λ e. ""))
from_environment-IsUsable_example = from_environment-IsUsable empty defaults stubs (λ e. "") loads
