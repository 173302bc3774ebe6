-- ===== src/App/Answers.antt =====
-- Which answers the task routes give.
use ia_dev_lab.Base.{
  ℕ, String, Bool, true, false, ◌≡◌, refl, ap, ◌∙◌, inl, inr, Option, none, some, [], ◌∷◌, Elem,
  here, there, arith, find, is_some, Option-cases, Result-cases, Bool-cases, Error, or_raise, Exec,
  Result, ok, err, unauthorized, task_not_found, ◌==◌, string_equality,
}
use ia_dev_lab.Models.{TaskRecord}
use ia_dev_lab.Schemas.{ExtractionTaskRequest}
use ia_dev_lab.Repository.Schema.{TaskRow}
use ia_dev_lab.Repository.Invariant.{Inv}
use ia_dev_lab.Repository.Reads.{owned_by}
use ia_dev_lab.TaskService.{
  World, continue, submit, get_running_summary, get_status, get_results, ◌>>=◌, return,
}
use ia_dev_lab.TaskService.Stored.{TaskResultsRecord}
use ia_dev_lab.TaskService.Answers.{
  read_db, after_read, live_status, get_status-live, get_results-hidden,
}
use ia_dev_lab.App.{
  Answer, no_extra, success, failure, status_code, error_status, Credentials, Authentication,
  checked_principal, bearer_principal, get_authenticated_principal,
}
use ia_dev_lab.App.Tasks.{
  Application, TaskStatusResponse, TaskResultsResponse, task_status_response, summary_response,
  results_response, validate_task_id, pure_step, respond, create_extraction_task,
  get_running_task_summary, get_extraction_task, get_extraction_task_results,
}

-- An authentication that fails fails with an UnauthorizedTaskError.
checked-unauthorized :
    (r : Result String) (e : Error)
    → checked_principal r ≡ err e
    → (m : String) × (e ≡ unauthorized m)
checked-unauthorized (err (unauthorized m)) e h = (m, ground arith)
checked-unauthorized (err _) e h = ("Bearer credentials are invalid", ground arith)
checked-unauthorized (ok owner) e h = ("Bearer credentials are invalid", ground arith)

bearer-unauthorized :
    (a : Authentication) (c : Credentials) (b : Bool) (e : Error)
    → bearer_principal a c b ≡ err e
    → (m : String) × (e ≡ unauthorized m)
bearer-unauthorized a c true e h = checked-unauthorized (a.authenticate c.credentials) e h
bearer-unauthorized a c false e h = ("Bearer credentials are required", ground arith)

principal-unauthorized :
    (a : Authentication) (c : Option Credentials) (e : Error)
    → get_authenticated_principal a c ≡ err e
    → (m : String) × (e ≡ unauthorized m)
unfolding get_authenticated_principal
principal-unauthorized a none e h = ("Bearer credentials are required", ground arith)
principal-unauthorized a (some c) e h = bearer-unauthorized a c (a.lower c.scheme == "bearer") e h

-- Refused with 401 and the `WWW-Authenticate` header, and nothing was called.
abbrev pub IsRefused : {A : Type 0} → World → Answer A × World → Type 0
IsRefused w (success n a, w') = ⊥
IsRefused w (failure n detail extra challenge, w') =
    (n ≡ 401) × (extra ≡ no_extra) × (challenge ≡ true) × (w' ≡ w)

respond-IsRefused :
    {A : Type 0} (app : Application) (status : ℕ) (p : Result String) (k : String → Exec World A)
    (m : String) (w : World)
    → p ≡ err (unauthorized m)
    → IsRefused w (respond app status (continue k (p, w)))
unfolding error_status
respond-IsRefused app status p k m w h = rw h (refl, refl, refl, refl)

-- Every task route answers a request whose credentials are not accepted with 401 and a challenge, and
-- makes no call of the repository.
pub unauthenticated-IsRefused :
    (app : Application) (credentials : Option Credentials) (e : Error)
    (request : ExtractionTaskRequest) (text uuid : String) (w : World)
    → get_authenticated_principal app.authentication credentials ≡ err e
    → IsRefused w (create_extraction_task app credentials uuid request w)
      × IsRefused w (get_running_task_summary app credentials w)
      × IsRefused w (get_extraction_task app credentials text w)
      × IsRefused w (get_extraction_task_results app credentials text w)
unfolding create_extraction_task get_running_task_summary get_extraction_task
    get_extraction_task_results
unauthenticated-IsRefused app credentials e request text uuid w h =
    let (m, u) = principal-unauthorized app.authentication credentials e h in
    let p = h ∙ ap (λ (x : Error). err x) u in
    (
      respond-IsRefused app 202 _
          (λ owner.
            submit app.service uuid owner request >>= λ task. return (task_status_response task))
          m w p,
      respond-IsRefused app 200 _
          (λ owner. get_running_summary app.service owner >>= λ s. return (summary_response s)) m w
          p,
      respond-IsRefused app 200 _
          (λ owner. pure_step (validate_task_id app text) >>= λ id.
            get_status app.service owner id >>= λ task. return (task_status_response task))
          m w p,
      respond-IsRefused app 200 _
          (λ owner. pure_step (validate_task_id app text) >>= λ id.
            get_results app.service owner id >>= λ r. return (results_response r))
          m w p,
    )

-- A route that needs an owner and a task id, once both are there.
routed :
    {A B : Type 0} (app : Application) (p q : Result String) (g : String → String → Exec World A)
    (f : A → B) (owner id : String) (w : World)
    → p ≡ ok owner
    → q ≡ ok id
    → respond app 200 (
        continue {A = String} {B = B}
          (λ o. pure_step q >>= λ i. g o i >>= λ a. return (f a))
          (p, w))
      ≡ respond app 200 (continue {A = A} {B = B} (λ a. return (f a)) (g owner id w))
routed app p q g f owner id w e h = rw e (rw h refl)

unparsed :
    {A B : Type 0} (app : Application) (p q : Result String) (g : String → String → Exec World A)
    (f : A → B) (owner : String) (x : Error) (w : World)
    → p ≡ ok owner
    → q ≡ err x
    → respond app 200 (
        continue {A = String} {B = B}
          (λ o. pure_step q >>= λ i. g o i >>= λ a. return (f a))
          (p, w))
      ≡ respond app 200 (err x, w)
unparsed app p q g f owner x w e h = rw e (rw h refl)

-- The answer to a failed request.
refusal :
    {A B : Type 0} (app : Application) (f : A → B) (x : Error) (r : Result A × World) (w : World)
    → r ≡ (err x, w)
    → respond app 200 (continue {A = A} {B = B} (λ a. return (f a)) r) ≡ respond app 200 (err x, w)
refusal app f x r w e = rw e refl

status_route :
    (app : Application) (credentials : Option Credentials) (text owner id : String) (w : World)
    → get_authenticated_principal app.authentication credentials ≡ ok owner
    → app.uuid text ≡ some id
    → get_extraction_task app credentials text w
      ≡ respond app 200 (
          continue {A = TaskRecord} {B = TaskStatusResponse}
            (λ task. return (task_status_response task))
            (get_status app.service owner id w))
unfolding get_extraction_task validate_task_id
status_route app credentials text owner id w e f =
    routed app _ (or_raise (app.uuid text) task_not_found) (get_status app.service)
      task_status_response owner id w e (rw f)

results_route :
    (app : Application) (credentials : Option Credentials) (text owner id : String) (w : World)
    → get_authenticated_principal app.authentication credentials ≡ ok owner
    → app.uuid text ≡ some id
    → get_extraction_task_results app credentials text w
      ≡ respond app 200 (
          continue {A = TaskResultsRecord} {B = TaskResultsResponse}
            (λ r. return (results_response r))
            (get_results app.service owner id w))
unfolding get_extraction_task_results validate_task_id
results_route app credentials text owner id w e f =
    routed app _ (or_raise (app.uuid text) task_not_found) (get_results app.service)
      results_response owner id w e (rw f)

-- On good tables, an authenticated client who asks by its UUID for the status or the results of a task
-- that is not its own in the tables that the reader reads after its maintenance, be it another owner's
-- or nobody's, gets the same answer to both: 404 with the text of a TaskNotFoundError, nothing more and
-- no challenge.
pub foreign_task-hidden :
    (app : Application) (credentials : Option Credentials) (text owner id : String) (w : World)
    → get_authenticated_principal app.authentication credentials ≡ ok owner
    → app.uuid text ≡ some id
    → Inv w.db
    → find (owned_by id owner) (read_db app.service w).tasks ≡ none
    → ((get_extraction_task app credentials text w).0
        ≡ failure 404 (app.service.describe task_not_found) no_extra false)
      × ((get_extraction_task_results app credentials text w).0
          ≡ failure 404 (app.service.describe task_not_found) no_extra false)
unfolding error_status
foreign_task-hidden app credentials text owner id w e f v n = (
  ap (λ (r : Answer TaskStatusResponse × World). r.0)
      (status_route app credentials text owner id w e f
        ∙ refusal app task_status_response task_not_found (get_status app.service owner id w)
            (after_read app.service w)
            (get_status-live app.service owner id w v
              ∙ ap (λ (o : Option TaskRow). (live_status o, after_read app.service w)) n)),
  ap (λ (r : Answer TaskResultsResponse × World). r.0)
      (results_route app credentials text owner id w e f
        ∙ refusal app results_response task_not_found (get_results app.service owner id w)
            (after_read app.service w) (get_results-hidden app.service owner id w n)),
)

abbrev no_request : ExtractionTaskRequest
no_request = record { texts = []; schema = record { properties = [] }; model = none }

-- The statuses that the route of a task's status declares, and success.
abbrev pub IsDeclared : ℕ → Type 0
IsDeclared n = Elem n (200 ∷ 401 ∷ 404 ∷ 410 ∷ [])

live_status-IsDeclared :
    (app : Application) (o : Option TaskRow) (w : World)
    → IsDeclared (
        status_code
          (respond app 200 (
            continue {A = TaskRecord} {B = TaskStatusResponse}
              (λ task. return (task_status_response task))
              (live_status o, w))).0)
unfolding error_status
live_status-IsDeclared app none w = there (there (here refl))
live_status-IsDeclared app (some row) w = elim (Bool-cases (is_some row.purged_at)) [
  | inl e ↦ rw e (there (there (there (here refl))))
  | inr e ↦ rw e (here refl)
]

IsRefused-IsDeclared :
    {A : Type 0} (w : World) (r : Answer A × World) → IsRefused w r → IsDeclared (status_code r.0)
IsRefused-IsDeclared w (success n a, u) h = absurd h
IsRefused-IsDeclared w (failure n detail extra challenge, u) h = there (here h.0)

unparsed_status :
    (app : Application) (credentials : Option Credentials) (text owner : String) (w : World)
    → get_authenticated_principal app.authentication credentials ≡ ok owner
    → app.uuid text ≡ none
    → get_extraction_task app credentials text w ≡ respond app 200 (err task_not_found, w)
unfolding get_extraction_task validate_task_id
unparsed_status app credentials text owner w e f =
    unparsed app _ (or_raise (app.uuid text) task_not_found) (get_status app.service)
      task_status_response owner task_not_found w e (rw f)

-- On good tables GET /extraction-tasks/{task_id} answers every request, whatever its credentials and
-- its text, with 200 or with one of the error statuses that the route declares: 401, 404 or 410.
pub get_extraction_task-IsDeclared :
    (app : Application) (credentials : Option Credentials) (text : String) (w : World)
    → Inv w.db
    → IsDeclared (status_code (get_extraction_task app credentials text w).0)
unfolding error_status
get_extraction_task-IsDeclared app credentials text w v =
    elim (Result-cases (get_authenticated_principal app.authentication credentials)) [
      | inl (e, h) ↦
          IsRefused-IsDeclared w (get_extraction_task app credentials text w)
            (unauthenticated-IsRefused app credentials e no_request text "" w h).2
      | inr (owner, h) ↦ elim (Option-cases (app.uuid text)) [
        | inl n ↦ rw (unparsed_status app credentials text owner w h n) (there (there (here refl)))
        | inr (id, k) ↦
            rw
              (
                status_route app credentials text owner id w h k,
                get_status-live app.service owner id w v,
              )
              (live_status-IsDeclared app (find (owned_by id owner) (read_db app.service w).tasks)
                (after_read app.service w))
      ]
    ]
