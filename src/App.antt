-- ===== src/App.antt =====
-- src/app.py: the routes of the HTTP application, its exception handlers and its authentication. What
-- the framework does round a route (reading the request, checking path parameters, dispatching) is not
-- modelled; a route starts from the request's parts. An exception that no handler takes is answered by
-- the framework with 500.
pub mod Tasks
pub mod Catalog
pub mod Answers
mod Tests
use ia_dev_lab.Base.{
  ℕ, String, Bool, true, false, not, ◌||◌, Option, none, some, List, [], ◌∷◌, ◌==◌, string_equality,
  if◌then◌else◌, Result, ok, err, ◌>>=◌, Error, value_error, runtime_error, type_error, key_error,
  integrity_error, commit_error, invalid_registration, artifact_too_large, duplicate_version,
  version_not_found, model_not_found, no_active_version, text_limit, volume_limit, provider_error,
  unauthorized, task_not_found, task_expired, results_pending,
}

-- What the body of an error holds beside its `detail`: a `limit`, or the `status` of a pending task.
pub data ErrorExtra : Type 0 where
  no_extra : ErrorExtra
  with_limit : ℕ → ErrorExtra
  with_status : String → ErrorExtra

-- The answer to a request: a body, or an error's status, `detail` and the rest of its body, and whether
-- the answer carries the `WWW-Authenticate` header.
pub data Answer {ℓ} (A : Type ℓ) : Type ℓ where
  success : ℕ → A → Answer A
  failure : ℕ → String → ErrorExtra → Bool → Answer A

abbrev pub status_code {ℓ} : {A : Type ℓ} → Answer A → ℕ
status_code (success n a) = n
status_code (failure n detail extra challenge) = n

-- The status that the handlers give an exception.
unfoldable pub error_status : Error → ℕ
error_status (version_not_found version name) = 404
error_status (model_not_found name) = 404
error_status (no_active_version name) = 404
error_status (duplicate_version version name) = 409
error_status (artifact_too_large limit) = 413
error_status (invalid_registration message) = 422
error_status (text_limit limit) = 422
error_status (volume_limit limit) = 413
error_status (unauthorized message) = 401
error_status task_not_found = 404
error_status task_expired = 410
error_status (results_pending status) = 409
error_status _ = 500

abbrev pub error_extra : Error → ErrorExtra
error_extra (artifact_too_large limit) = with_limit limit
error_extra (text_limit limit) = with_limit limit
error_extra (volume_limit limit) = with_limit limit
error_extra (results_pending status) = with_status status
error_extra _ = no_extra

abbrev pub error_challenge : Error → Bool
error_challenge (unauthorized message) = true
error_challenge _ = false

-- The answer of a route that returns with the given status; `describe` is `str` of an exception.
abbrev pub answer_of {ℓ} : {A : Type ℓ} → (Error → String) → ℕ → Result A → Answer A
answer_of describe status (ok a) = success status a
answer_of describe status (err e) =
    failure (error_status e) (describe e) (error_extra e) (error_challenge e)

-- `HTTPAuthorizationCredentials`
pub record Credentials : Type 0 where
  pub scheme : String
  pub credentials : String

-- `BearerAuthenticator.authenticate`, with the owner of the principal that it returns, and `str.lower`.
pub record Authentication : Type 0 where
  pub authenticate : String → Result String
  pub lower : String → String

-- `RejectingBearerAuthenticator`
abbrev pub rejecting : String → Result String
rejecting token = err (unauthorized "Bearer authentication is not configured")

-- What `get_authenticated_principal` makes of the authenticator's answer.
abbrev pub checked_principal : Result String → Result String
checked_principal (err (unauthorized message)) = err (unauthorized message)
checked_principal (err _) = err (unauthorized "Bearer credentials are invalid")
checked_principal (ok owner) =
    if owner == "" then err (unauthorized "Bearer credentials are invalid") else ok owner

abbrev pub bearer_principal : Authentication → Credentials → Bool → Result String
bearer_principal a c true = checked_principal (a.authenticate c.credentials)
bearer_principal a c false = err (unauthorized "Bearer credentials are required")

unfoldable pub get_authenticated_principal : Authentication → Option Credentials → Result String
get_authenticated_principal a none = err (unauthorized "Bearer credentials are required")
get_authenticated_principal a (some c) = bearer_principal a c (a.lower c.scheme == "bearer")
