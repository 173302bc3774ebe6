-- ===== src/App/Catalog.antt =====
-- The routes of src/app.py for models, over the model service.
use ia_dev_lab.Base.{
  ℕ, String, Bool, Option, List, [], ◌∷◌, ◌≡◌, ◌≢◌, refl, inl, inr, Elem, here, there, find,
  Option-cases, Error, Result, ok, err, ◌>>=◌, value_error, invalid_registration, index_error,
}
use ia_dev_lab.Json.{Value, Fields}
use ia_dev_lab.Schemas.{parse_metadata}
use ia_dev_lab.ModelStore.Schema.{Platform, Catalog, Store, of_name}
use ia_dev_lab.ModelStore.Reads.{ModelVersion, normalize_name, get, list_versions}
use ia_dev_lab.ModelStore.Activate.{activate}
use ia_dev_lab.ModelStore.Register.{Chunk}
use ia_dev_lab.ModelStore.Service.{service_register}
use ia_dev_lab.ModelStore.Invariant.{StoreInv}
use ia_dev_lab.ModelStore.Versions.{list_versions-Listed}
use ia_dev_lab.App.{Answer, status_code, answer_of, error_status}

-- `json.loads`, the store's platform and limit, and `str` of an exception.
pub record ModelApplication : Type 0 where
  pub platform : Platform
  pub max_artifact_size : ℕ
  pub loads : String → Option Value
  pub describe : Error → String

-- `except ValueError`
abbrev pub as_registration {ℓ} : {A : Type ℓ} → Result A → Result A
as_registration (ok a) = ok a
as_registration (err (value_error message)) = err (invalid_registration message)
as_registration (err e) = err e

abbrev pub register_parsed :
    ModelApplication
    → String
    → List Chunk
    → Option ℕ
    → Option String
    → Result Fields
    → ℕ
    → Bool
    → Store
    → Result ModelVersion × Store
register_parsed app name chunks version description (err e) now commits s = (err e, s)
register_parsed app name chunks version description (ok metadata) now commits s =
    service_register app.platform app.max_artifact_size name chunks version description metadata now
      commits s

abbrev pub respond_version :
    ModelApplication → ℕ → Result ModelVersion × Store → Answer ModelVersion × Store
respond_version app status (r, s) = (answer_of app.describe status r, s)

-- POST /models/{model_name}/versions
unfoldable pub register_model_version :
    ModelApplication
    → String
    → List Chunk
    → Option ℕ
    → Option String
    → Option String
    → ℕ
    → Bool
    → Store
    → Answer ModelVersion × Store
unfolding service_register
register_model_version app name chunks version description metadata now commits s =
    respond_version app 201 (
      register_parsed app name chunks version description
        (as_registration (parse_metadata app.loads metadata)) now commits s)

pub record ModelVersionHistoryResponse : Type 0 where
  pub model_name : String
  pub versions : List ModelVersion

-- `versions[0].model_name`
abbrev pub history_response : List ModelVersion → Result ModelVersionHistoryResponse
history_response [] = err index_error
history_response (v ∷ vs) = ok (record { model_name = v.model_name; versions = v ∷ vs })

-- GET /models/{model_name}/versions
unfoldable pub list_model_versions :
    ModelApplication → String → Store → Answer ModelVersionHistoryResponse
unfolding list_versions
list_model_versions app name s =
    answer_of app.describe 200 (list_versions app.platform name s.catalog >>= history_response)

-- GET /models/{model_name}/versions/{version}
unfoldable pub get_model_version : ModelApplication → String → ℕ → Store → Answer ModelVersion
unfolding get
get_model_version app name version s =
    answer_of app.describe 200 (get app.platform name version s.catalog)

abbrev pub respond_activated :
    ModelApplication → Store → Result ModelVersion × Catalog → Answer ModelVersion × Store
respond_activated app s (r, c) = (answer_of app.describe 200 r, record s { catalog = c })

-- POST /models/{model_name}/versions/{version}/activate
unfoldable pub activate_model_version :
    ModelApplication → String → ℕ → ℕ → Store → Answer ModelVersion × Store
unfolding activate
activate_model_version app name version now s =
    respond_activated app s (activate app.platform name version now s.catalog)

abbrev pub FoundOrNot : ℕ → Type 0
FoundOrNot n = Elem n (200 ∷ 404 ∷ [])

history_status :
    (app : ModelApplication) (vs : List ModelVersion)
    → vs ≢ []
    → status_code (answer_of app.describe 200 (history_response vs)) ≡ 200
history_status app [] h = absurd (h refl)
history_status app (v ∷ vs) h = refl

-- On a good store GET /models/{model_name}/versions answers every name with 200 or 404: no model has
-- an empty history, so that reading the name from its first version never fails.
pub list_model_versions-FoundOrNot :
    (app : ModelApplication) (name : String) (s : Store)
    → StoreInv app.platform s
    → FoundOrNot (status_code (list_model_versions app name s))
unfolding list_model_versions error_status list_versions
list_model_versions-FoundOrNot app name s v =
    elim (Option-cases (find (of_name (normalize_name app.platform name)) s.catalog.models)) [
      | inl e ↦ rw e (there (here refl))
      | inr (m, e) ↦
          let (answer, listed, l) = list_versions-Listed app.platform name s m v e in
          rw listed (here (history_status app answer l.filled))
    ]
