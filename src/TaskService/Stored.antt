-- ===== src/TaskService/Stored.antt =====
-- What the task service stores as JSON and reads back (src/task_service.py): the snapshots of the schema
-- and the model, the payloads that `_process_claimed_task` writes, and `_restore_outcome`. Where a
-- stored value has another shape than the service writes, the KeyError or TypeError of the code is an
-- error here, and a name or a code that is no text is a `type_error` too.
pub mod Restored
pub mod Results
pub mod Outcomes
use ia_dev_lab.Base.{
  String, Bool, true, false, Option, none, some, List, [], ◌∷◌, ◌==◌, string_equality,
  if◌then◌else◌, Result, ok, err, ◌>>=◌, or_raise, runtime_error, task_expired, key_error,
  type_error, value_error,
}
use ia_dev_lab.Json.{
  Value, Items, Fields, null, number, boolean, text, array, object, nil, cons, end, field, get,
}
use ia_dev_lab.Models.{TaskRecord, ItemRecord}
use ia_dev_lab.Schemas.{PropertyType, PropertyDefinition, ExtractionSchema, contains}
use ia_dev_lab.Extraction.{
  ExecutionMode, OutcomeStatus, InferenceStatus, UncertaintyStatus, ResolvedModelReference,
  UncertaintyResult, PropertyResult, ItemError, ExtractionOutcome, put,
}

abbrev pub type_text : PropertyType → String
type_text PropertyType.string = "string"
type_text PropertyType.number = "number"
type_text PropertyType.boolean = "boolean"
type_text PropertyType.string_list = "string_list"

abbrev pub optional_text : Option String → Value
optional_text none = null
optional_text (some t) = text t

abbrev pub definition_value : PropertyDefinition → Value
definition_value d = object (
    field "name" (text d.name) (
      field "type" (text (type_text d.type)) (
        field "required" (boolean d.required)
          (field "description" (optional_text d.description) end))))

unfoldable pub definition_values : List PropertyDefinition → Items
definition_values [] = nil
definition_values (d ∷ ds) = cons (definition_value d) (definition_values ds)

-- `request.schema.model_dump(mode="json")`
abbrev pub criteria_of : ExtractionSchema → Fields
criteria_of schema = field "properties" (array (definition_values schema.properties)) end

abbrev pub mode_text : ExecutionMode → String
mode_text ExecutionMode.stub = "stub"
mode_text ExecutionMode.model = "model"

abbrev pub model_snapshot : ResolvedModelReference → ExecutionMode → Fields
model_snapshot m mode =
    field "name" (text m.name)
      (field "version" (text m.version) (field "execution_mode" (text (mode_text mode)) end))

abbrev pub inference_text : InferenceStatus → String
inference_text InferenceStatus.inferred = "inferred"
inference_text InferenceStatus.not_found = "not_found"
inference_text InferenceStatus.not_inferred = "not_inferred"

abbrev pub uncertainty_text : UncertaintyStatus → String
uncertainty_text UncertaintyStatus.calculated = "calculated"
uncertainty_text UncertaintyStatus.not_calculated = "not_calculated"

abbrev pub optional_number : Option String → Value
optional_number none = null
optional_number (some n) = number n

-- `asdict(result)`
abbrev pub result_value : PropertyResult → Value
result_value r = object (
    field "value" r.value (
      field "inference_status" (text (inference_text r.inference_status)) (
        field "uncertainty"
          (object (
            field "value" (optional_number r.uncertainty.value)
              (field "status" (text (uncertainty_text r.uncertainty.status)) end)))
          end)))

-- `{name: asdict(result) for name, result in outcome.properties.items() if name in property_names}`
unfoldable pub payload : List String → List (String × PropertyResult) → Fields
unfolding contains
payload names [] = end
payload names ((name, r) ∷ d) =
    let rest = payload names d in
    if contains name names then field name (result_value r) rest else rest

abbrev pub error_fields : ItemError → Fields
error_fields e = field "code" (text e.code) (field "detail" (text e.detail) end)

-- `value[key]`, for a dict.
abbrev pub require : String → Value → Result Value
require k (object fields) = or_raise (get k fields) key_error
require k _ = err type_error

-- A value that stands where the service has written a text.
abbrev pub as_text : Value → Result String
as_text (text s) = ok s
as_text _ = err type_error

abbrev pub as_optional_number : Value → Result (Option String)
as_optional_number null = ok none
as_optional_number (number n) = ok (some n)
as_optional_number _ = err type_error

abbrev pub to_inference : String → Result InferenceStatus
to_inference s =
    if s == "inferred"
    then ok InferenceStatus.inferred
    else if s == "not_found"
    then ok InferenceStatus.not_found
    else if s == "not_inferred"
    then ok InferenceStatus.not_inferred
    else err (value_error s)

abbrev pub to_uncertainty : String → Result UncertaintyStatus
to_uncertainty s =
    if s == "calculated"
    then ok UncertaintyStatus.calculated
    else if s == "not_calculated"
    then ok UncertaintyStatus.not_calculated
    else err (value_error s)

abbrev pub to_mode : String → Result ExecutionMode
to_mode s =
    if s == "stub"
    then ok ExecutionMode.stub
    else if s == "model"
    then ok ExecutionMode.model
    else err (value_error s)

-- One round of the loop of `_restore_outcome`.
unfoldable pub restore_result : Value → Result PropertyResult
restore_result v = do
  uncertainty ← require "uncertainty" v
  value ← require "value" v
  inference ← require "inference_status" v
  inference_name ← as_text inference
  inference_status ← to_inference inference_name
  amount ← require "value" uncertainty
  measured ← as_optional_number amount
  state ← require "status" uncertainty
  state_name ← as_text state
  state_status ← to_uncertainty state_name
  ok (record {
    value = value;
    inference_status = inference_status;
    uncertainty = record { value = measured; status = state_status };
  })

-- The loop of `_restore_outcome`, on the dict built so far.
unfoldable pub restore_results :
    Fields → List (String × PropertyResult) → Result (List (String × PropertyResult))
unfolding restore_result put
restore_results end d = ok d
restore_results (field name v fields) d = do
  r ← restore_result v
  restore_results fields (put name r d)

abbrev pub restore_error : Fields → Result ItemError
restore_error error = do
  code ← require "code" (object error)
  code_text ← as_text code
  detail ← require "detail" (object error)
  detail_text ← as_text detail
  ok (record { code = code_text; detail = detail_text })

abbrev pub or_empty : Option Fields → Fields
or_empty none = end
or_empty (some fields) = fields

abbrev pub completed_outcome : String → List (String × PropertyResult) → ExtractionOutcome
completed_outcome source_id d = record {
  source_id = source_id;
  status = OutcomeStatus.completed;
  properties = d;
  error = none;
}

abbrev pub failed_outcome : String → ItemError → ExtractionOutcome
failed_outcome source_id e = record {
  source_id = source_id;
  status = OutcomeStatus.failed;
  properties = [];
  error = some e;
}

-- `_restore_outcome`
unfoldable pub restore_outcome : String → Option Fields → Option Fields → Result ExtractionOutcome
unfolding restore_results
restore_outcome source_id properties (some error) = do
  e ← restore_error error
  ok (failed_outcome source_id e)
restore_outcome source_id properties none = do
  d ← restore_results (or_empty properties) []
  ok (completed_outcome source_id d)

unfoldable pub restore_outcomes : List ItemRecord → Result (List ExtractionOutcome)
unfolding restore_outcome
restore_outcomes [] = ok []
restore_outcomes (i ∷ is) = do
  o ← restore_outcome i.source_id i.outcome i.error
  os ← restore_outcomes is
  ok (o ∷ os)

pub record TaskResultsRecord : Type 0 where
  pub task : TaskRecord
  pub execution_mode : ExecutionMode
  pub model : ResolvedModelReference
  pub outcomes : List ExtractionOutcome

abbrev pub require_text : String → Fields → Result String
require_text k fields = do v ← require k (object fields); as_text v

-- `ResolvedModelReference(task.model["name"], task.model["version"])`
abbrev pub restore_model : Fields → Result ResolvedModelReference
restore_model stored = do
  name ← require_text "name" stored
  version ← require_text "version" stored
  ok (record { name = name; version = version })

-- The end of `get_results`, from the test of `task.model` on.
unfoldable pub restored_task : TaskRecord → List ItemRecord → Result TaskResultsRecord
unfolding restore_outcomes
restored_task task items = do
  snapshot ← or_raise task.model task_expired
  reference ← restore_model snapshot
  outcomes ← restore_outcomes items
  mode ← require_text "execution_mode" snapshot
  execution_mode ← to_mode mode
  ok (record {
    task = task;
    execution_mode = execution_mode;
    model = reference;
    outcomes = outcomes;
  })

-- `tuple(item["name"] for item in task.criteria["properties"])`
unfoldable pub item_names : Items → Result (List String)
item_names nil = ok []
item_names (cons v vs) = do
  name ← require "name" v
  name_text ← as_text name
  names ← item_names vs
  ok (name_text ∷ names)

abbrev pub array_names : Value → Result (List String)
array_names (array items) = item_names items
array_names _ = err type_error

abbrev pub names_of : Fields → Result (List String)
names_of criteria = do properties ← require "properties" (object criteria); array_names properties

-- The snapshot checks of `_process_claimed_task`.
unfoldable pub snapshot : TaskRecord → Result (List String × ResolvedModelReference)
unfolding item_names
snapshot task = do
  criteria ← or_raise task.criteria (runtime_error "Accepted task snapshot is unavailable")
  stored ← or_raise task.model (runtime_error "Accepted task snapshot is unavailable")
  names ← names_of criteria
  reference ← restore_model stored
  ok (names, reference)
