-- ===== src/ModelStore/Invariant.antt =====
-- What holds of the catalog and the artifact files between two calls.
pub mod Grows
pub mod Activated
pub mod Registered
pub mod Outcome
pub mod Registration
use ia_dev_lab.Base.{ℕ, ◌≤◌, ◌<◌, String, ◌≡◌, none, All, count}
use ia_dev_lab.ModelStore.Schema.{
  Platform, ModelRow, ArtifactRow, VersionRow, ActivationRow, Catalog, File, Store, of_name,
  has_digest, of_model, has_version, active_of, file_named,
}

-- The references of a version row, and the CHECK on its number.
pub record VersionInv (c : Catalog) (v : VersionRow) : Type 0 where
  pub positive : 0 < v.version
  pub model : 0 < count (of_name v.normalized_name) c.models
  pub artifact : 0 < count (has_digest v.artifact_digest) c.artifacts

pub record StoreInv (p : Platform) (s : Store) : Type 0 where
  pub model_key : (n : String) → count (of_name n) s.catalog.models ≤ 1
  pub artifact_key : (d : String) → count (has_digest d) s.catalog.artifacts ≤ 1
  pub version_key : (n : String) (k : ℕ) → count (has_version n k) s.catalog.versions ≤ 1
  pub one_active : (n : String) → count (active_of n) s.catalog.versions ≤ 1
  pub references : All (VersionInv s.catalog) s.catalog.versions
  pub used : All (λ m. 0 < count (of_model m.normalized_name) s.catalog.versions) s.catalog.models
  pub stored : All (λ a. 0 < count (file_named a.digest) s.files) s.catalog.artifacts
  pub activated :
      All
        (λ a. 0 < count (has_version a.normalized_name a.version) s.catalog.versions)
        s.catalog.activations
  pub file_key : (d : String) → count (file_named d) s.files ≤ 1
  pub file_digest : All (λ f. p.sha256 f.content ≡ f.name) s.files
  pub idle : s.temporary ≡ none
