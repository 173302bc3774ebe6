-- ===== src/ModelStore/Activate.antt =====
-- `activate` of src/model_store.py.
pub mod Outcome
use ia_dev_lab.Base.{
  ℕ, String, none, some, List, [], ◌∷◌, ◌++◌, find, update, Option, Result, ok, err,
  version_not_found,
}
use ia_dev_lab.ModelStore.Schema.{
  Platform, LifecycleStatus, VersionRow, Catalog, has_version, active_of,
}
use ia_dev_lab.ModelStore.Reads.{ModelVersion, normalize_name, get}

abbrev pub set_status : LifecycleStatus → VersionRow → VersionRow
set_status status v = record v { status = status }

-- The two UPDATEs and the INSERT.
unfoldable pub switch : String → ℕ → ℕ → Catalog → Catalog
switch n version now c = record c {
  versions =
      update (has_version n version) (set_status LifecycleStatus.active)
        (update (active_of n) (set_status LifecycleStatus.registered) c.versions);
  activations =
      c.activations ++ record { normalized_name = n; version = version; activated_at = now } ∷ [];
}

unfoldable pub activate : Platform → String → ℕ → ℕ → Catalog → Result ModelVersion × Catalog
unfolding switch get
activate p name version now c =
    elim (find (has_version (normalize_name p name) version) c.versions) [
      | none ↦ (err (version_not_found version (p.strip name)), c)
      | some row ↦
          let after = switch (normalize_name p name) version now c in
          (get p name version after, after)
    ]
