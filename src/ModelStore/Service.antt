-- ===== src/ModelStore/Service.antt =====
-- src/model_service.py: the checks before a registration. The other methods of `ModelService` pass
-- their arguments on to the store.
use ia_dev_lab.Base.{
  ℕ, String, Bool, false, Option, none, some, List, ltb, ◌==◌, string_equality, if◌then◌else◌,
  is_none, Result, err, invalid_registration,
}
use ia_dev_lab.Json.{Fields, canonical_fields}
use ia_dev_lab.ModelStore.Schema.{Platform, Store}
use ia_dev_lab.ModelStore.Reads.{ModelVersion}
use ia_dev_lab.ModelStore.Register.{Chunk, register}

abbrev pub below_one : Option ℕ → Bool
below_one none = false
below_one (some version) = ltb version 1

-- `ModelService.register`. The metadata is a dict with text keys, so that `json.dumps` refuses it with
-- and without `sort_keys` alike.
unfoldable pub service_register :
    Platform
    → ℕ
    → String
    → List Chunk
    → Option ℕ
    → Option String
    → Fields
    → ℕ
    → Bool
    → Store
    → Result ModelVersion × Store
unfolding register
service_register p limit name chunks version description metadata now commits s =
    if p.strip name == ""
    then (err (invalid_registration "Model name is required"), s)
    else if below_one version
    then (err (invalid_registration "Version must be a positive integer"), s)
    else if is_none (canonical_fields metadata)
    then (err (invalid_registration "metadata must contain JSON-compatible values"), s)
    else register p limit name chunks version description metadata now commits s
