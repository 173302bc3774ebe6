-- ===== src/ModelStore/Schema.antt =====
-- The catalog tables of `_initialize_schema` and the artifact directory, with single INSERTs.
use ia_dev_lab.Base.{
  ℕ, String, Bool, true, false, ◌&&◌, Option, List, [], ◌∷◌, ◌++◌, ◌==◌, string_equality,
  nat_equality, ltb, if◌then◌else◌, is_none, is_some, find, Result, ok, err, integrity_error,
  overflow_error,
}
use ia_dev_lab.Json.{Fields}

-- What the store calls of Python's own library: `str.strip`, `str.casefold`, and the hexadecimal
-- SHA-256 digest of a byte string.
pub record Platform : Type 0 where
  pub strip : String → String
  pub casefold : String → String
  pub sha256 : List ℕ → String

-- `LifecycleStatus`
pub data LifecycleStatus : Type 0 where
  registered active : LifecycleStatus

pub record ModelRow : Type 0 where
  pub normalized_name : String
  pub name : String
  pub description : Option String
  pub created_at : ℕ

pub record ArtifactRow : Type 0 where
  pub digest : String
  pub storage_key : String
  pub size : ℕ

pub record VersionRow : Type 0 where
  pub normalized_name : String
  pub version : ℕ
  pub status : LifecycleStatus
  pub artifact_digest : String
  pub metadata_json : Fields
  pub created_at : ℕ

pub record ActivationRow : Type 0 where
  pub normalized_name : String
  pub version : ℕ
  pub activated_at : ℕ

pub record Catalog : Type 0 where
  pub models : List ModelRow
  pub artifacts : List ArtifactRow
  pub versions : List VersionRow
  pub activations : List ActivationRow

-- A file of the artifact directory.
pub record File : Type 0 where
  pub name : String
  pub content : List ℕ

-- The catalog, the artifact directory, and the temporary file of the upload under way.
pub record Store : Type 0 where
  pub catalog : Catalog
  pub files : List File
  pub temporary : Option (List ℕ)

abbrev pub of_name : String → ModelRow → Bool
of_name n m = m.normalized_name == n

abbrev pub has_digest : String → ArtifactRow → Bool
has_digest d a = a.digest == d

abbrev pub of_model : String → VersionRow → Bool
of_model n v = v.normalized_name == n

-- `normalized_name = ? AND version = ?`
abbrev pub has_version : String → ℕ → VersionRow → Bool
has_version n k v = of_model n v && v.version == k

abbrev pub is_active : LifecycleStatus → Bool
is_active LifecycleStatus.active = true
is_active LifecycleStatus.registered = false

-- `normalized_name = ? AND status = 'active'`
abbrev pub active_of : String → VersionRow → Bool
active_of n v = of_model n v && is_active v.status

abbrev pub file_named : String → File → Bool
file_named d f = f.name == d

-- INSERT OR IGNORE INTO models
unfoldable pub insert_model : ModelRow → Catalog → Catalog
insert_model m c =
    if is_none (find (of_name m.normalized_name) c.models)
    then record c { models = c.models ++ m ∷ [] }
    else c

-- INSERT OR IGNORE INTO artifacts, whose storage key is the digest: a row that fails a key or the
-- CHECK on the size is skipped.
unfoldable pub insert_artifact : String → ℕ → Catalog → Catalog
insert_artifact d size c =
    if is_none (find (has_digest d) c.artifacts) && ltb 0 size
    then record c {
      artifacts = c.artifacts ++ record { digest = d; storage_key = d; size = size } ∷ [];
    }
    else c

-- The largest INTEGER of SQLite, 2 ^ 63 - 1.
abbrev pub max_integer : ℕ
max_integer = 9223372036854775807

-- INSERT INTO model_versions of a row that is not active. A version beyond SQLite's integers cannot be
-- bound, which raises OverflowError before the statement runs; then come the CHECK on the version, the
-- primary key and the foreign keys.
unfoldable pub insert_version : VersionRow → Catalog → Result Catalog
insert_version v c =
    if ltb max_integer v.version
    then err overflow_error
    else if ltb 0 v.version
        && is_none (find (has_version v.normalized_name v.version) c.versions)
        && is_some (find (of_name v.normalized_name) c.models)
        && is_some (find (has_digest v.artifact_digest) c.artifacts)
    then ok (record c { versions = c.versions ++ v ∷ [] })
    else err integrity_error
