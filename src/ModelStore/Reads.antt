-- ===== src/ModelStore/Reads.antt =====
-- `normalize_name`, `_row_to_version`, `get`, `list_versions`, `resolve` and `activation_history` of
-- src/model_store.py.
use ia_dev_lab.Base.{
  ℕ, String, Option, none, some, List, [], ◌∷◌, ◌==◌, string_equality, leb, if◌then◌else◌, is_none,
  find, select, Error, Result, ok, err, version_not_found, model_not_found, no_active_version,
}
use ia_dev_lab.Json.{Fields}
use ia_dev_lab.ModelStore.Schema.{
  Platform, LifecycleStatus, ModelRow, ArtifactRow, VersionRow, ActivationRow, Catalog, of_name,
  has_digest, of_model, has_version, active_of,
}

pub record ModelVersion : Type 0 where
  pub model_name : String
  pub version : ℕ
  pub status : LifecycleStatus
  pub artifact_digest : String
  pub artifact_size : ℕ
  pub metadata : Fields
  pub created_at : ℕ
  pub description : Option String

pub record ActivationRecord : Type 0 where
  pub model_name : String
  pub version : ℕ
  pub activated_at : ℕ

abbrev pub normalize_name : Platform → String → String
normalize_name p name = p.casefold (p.strip name)

abbrev pub row_to_version : VersionRow → ModelRow → ArtifactRow → ModelVersion
row_to_version v m a = record {
  model_name = m.name;
  version = v.version;
  status = v.status;
  artifact_digest = v.artifact_digest;
  artifact_size = a.size;
  metadata = v.metadata_json;
  created_at = v.created_at;
  description = m.description;
}

-- One row of the join of `_version_query`, on the keys of `models` and `artifacts`.
unfoldable pub join : Catalog → VersionRow → Option ModelVersion
join c v = elim (find (of_name v.normalized_name) c.models) [
  | none ↦ none
  | some m ↦ elim (find (has_digest v.artifact_digest) c.artifacts) [
    | none ↦ none
    | some a ↦ some (row_to_version v m a)
  ]
]

-- The rows of the join, in the order of the version rows.
unfoldable pub join_all : Catalog → List VersionRow → List ModelVersion
unfolding join
join_all c [] = []
join_all c (v ∷ vs) =
    let rest = join_all c vs in elim (join c v) [ none ↦ rest | some r ↦ r ∷ rest ]

abbrev pub first : Error → List ModelVersion → Result ModelVersion
first e [] = err e
first e (r ∷ rs) = ok r

unfoldable pub get : Platform → String → ℕ → Catalog → Result ModelVersion
unfolding join_all
get p name version c =
    first (version_not_found version (p.strip name))
      (join_all c (select (has_version (normalize_name p name) version) c.versions))

-- `ORDER BY v.version DESC`
unfoldable pub insert_descending : VersionRow → List VersionRow → List VersionRow
insert_descending v [] = v ∷ []
insert_descending v (w ∷ ws) =
    if leb w.version v.version then v ∷ w ∷ ws else w ∷ insert_descending v ws

unfoldable pub descending : List VersionRow → List VersionRow
unfolding insert_descending
descending [] = []
descending (v ∷ vs) = insert_descending v (descending vs)

unfoldable pub list_versions : Platform → String → Catalog → Result (List ModelVersion)
unfolding join_all descending
list_versions p name c =
    if is_none (find (of_name (normalize_name p name)) c.models)
    then err (model_not_found (p.strip name))
    else ok (join_all c (descending (select (of_model (normalize_name p name)) c.versions)))

unfoldable pub resolve : Platform → String → Option ℕ → Catalog → Result ModelVersion
unfolding get
resolve p name (some version) c = get p name version c
resolve p name none c =
    first (no_active_version (p.strip name))
      (join_all c (select (active_of (normalize_name p name)) c.versions))

-- One row of the join with `models`.
abbrev pub activation_record :
    Catalog → ActivationRow → List ActivationRecord → List ActivationRecord
activation_record c a rest = elim (find (of_name a.normalized_name) c.models) [
  | none ↦ rest
  | some m ↦
      record { model_name = m.name; version = a.version; activated_at = a.activated_at } ∷ rest
]

unfoldable pub activation_records : Catalog → List ActivationRow → List ActivationRecord
activation_records c [] = []
activation_records c (a ∷ as') = activation_record c a (activation_records c as')

unfoldable pub activation_history : Platform → String → Catalog → List ActivationRecord
unfolding activation_records
activation_history p name c =
    activation_records c
      (select (λ (a : ActivationRow). a.normalized_name == normalize_name p name) c.activations)
