-- ===== src/Extraction.antt =====
-- src/service.py, with the records of src/extraction.py and the stubs of src/inference.py and
-- src/uncertainty.py. A provider's exception is the text that `str` gives it.
pub mod Ordered
mod Tests
use ia_dev_lab.Base.{
  ℕ, String, Bool, true, false, Option, none, some, List, [], ◌∷◌, map, length, sum_of, ltb, ◌==◌,
  string_equality, Error, text_limit, volume_limit, provider_error, if◌then◌else◌, coalesce,
}
use ia_dev_lab.Json.{Value, null}
use ia_dev_lab.Schemas.{SourceText, ModelSelection, ExtractionRequest, property_names}
use Prim.Native.String.{count as count_characters}

pub data ExecutionMode : Type 0 where
  stub model : ExecutionMode

pub data OutcomeStatus : Type 0 where
  completed failed : OutcomeStatus

pub data InferenceStatus : Type 0 where
  inferred not_found not_inferred : InferenceStatus

pub data UncertaintyStatus : Type 0 where
  calculated not_calculated : UncertaintyStatus

-- A call that returns or raises.
pub data Attempt (A : Type 0) : Type 0 where
  returned : A → Attempt A
  raised : String → Attempt A

pub record ResolvedModelReference : Type 0 where
  pub name : String
  pub version : String

pub record UncertaintyResult : Type 0 where
  pub value : Option String
  pub status : UncertaintyStatus

pub record PropertyResult : Type 0 where
  pub value : Value
  pub inference_status : InferenceStatus
  pub uncertainty : UncertaintyResult

pub record ItemError : Type 0 where
  pub code : String
  pub detail : String

pub record InferenceValue : Type 0 where
  pub value : Value
  pub status : InferenceStatus

pub record ExtractionOutcome : Type 0 where
  pub source_id : String
  pub status : OutcomeStatus
  pub properties : List (String × PropertyResult)
  pub error : Option ItemError

pub record ExtractionResult : Type 0 where
  pub execution_mode : ExecutionMode
  pub model : ResolvedModelReference
  pub outcomes : List ExtractionOutcome

-- The protocols `InferenceProvider`, `UncertaintyEstimator` and `ModelCatalog`, and the limits.
pub record ExtractionService : Type 0 where
  pub execution_mode : ExecutionMode
  pub infer : String → String → List String → Attempt (List (String × InferenceValue))
  pub estimate : String → String → Value → Attempt UncertaintyResult
  pub resolve : Option String → Option String → Attempt ResolvedModelReference
  pub max_texts : ℕ
  pub max_characters : ℕ

-- `d[key] = value`
unfoldable pub put {ℓ} : {A : Type ℓ} → String → A → List (String × A) → List (String × A)
put k v [] = (k, v) ∷ []
put k v ((j, w) ∷ d) = if j == k then (j, v) ∷ d else (j, w) ∷ put k v d

-- `inferred.get(name, InferenceValue(None, InferenceStatus.NOT_FOUND))`
unfoldable pub inferred_value : String → List (String × InferenceValue) → InferenceValue
inferred_value k [] = record { value = null; status = InferenceStatus.not_found }
inferred_value k ((j, v) ∷ d) = if j == k then v else inferred_value k d

abbrev pub with_uncertainty : InferenceValue → Attempt UncertaintyResult → Attempt PropertyResult
with_uncertainty i (returned u) =
    returned (record { value = i.value; inference_status = i.status; uncertainty = u })
with_uncertainty i (raised e) = raised e

unfoldable pub property_result :
    ExtractionService → String → String → InferenceValue → Attempt PropertyResult
property_result s source_id name i = with_uncertainty i (s.estimate source_id name i.value)

-- The dict comprehension over the property names, on the dict built so far.
unfoldable pub property_results :
    ExtractionService
    → String
    → List (String × InferenceValue)
    → List String
    → List (String × PropertyResult)
    → Attempt (List (String × PropertyResult))
unfolding put inferred_value property_result
property_results s source_id i [] d = returned d
property_results s source_id i (name ∷ names) d =
    elim (property_result s source_id name (inferred_value name i)) [
      | raised e ↦ raised e
      | returned r ↦ property_results s source_id i names (put name r d)
    ]

abbrev pub inferred_results :
    ExtractionService
    → String
    → List String
    → Attempt (List (String × InferenceValue))
    → Attempt (List (String × PropertyResult))
inferred_results s source_id names (raised e) = raised e
inferred_results s source_id names (returned i) = property_results s source_id i names []

-- `str(error) or "Source processing failed"`
abbrev pub error_detail : String → String
error_detail e = if e == "" then "Source processing failed" else e

-- The `try` of `process_source_with_model`.
abbrev pub to_outcome : String → Attempt (List (String × PropertyResult)) → ExtractionOutcome
to_outcome source_id (returned d) = record {
  source_id = source_id;
  status = OutcomeStatus.completed;
  properties = d;
  error = none;
}
to_outcome source_id (raised e) = record {
  source_id = source_id;
  status = OutcomeStatus.failed;
  properties = [];
  error = some (record { code = "processing_failed"; detail = error_detail e });
}

unfoldable pub process_source_with_model :
    ExtractionService → String → String → List String → ExtractionOutcome
unfolding property_results
process_source_with_model s source_id text names =
    to_outcome source_id (inferred_results s source_id names (s.infer source_id text names))

-- `len(text)`: its code points.
abbrev pub text_length : String → ℕ
text_length t = count_characters t

-- `_validate_limits`: the exception, if any.
unfoldable pub validate_limits : ExtractionService → ExtractionRequest → Option Error
validate_limits s r =
    if ltb s.max_texts (length r.texts)
    then some (text_limit s.max_texts)
    else if ltb s.max_characters (sum_of (λ t. text_length t.text) r.texts)
    then some (volume_limit s.max_characters)
    else none

abbrev pub selected_model :
    ExtractionService → Option ModelSelection → Attempt ResolvedModelReference
selected_model s none = s.resolve none none
selected_model s (some selection) = s.resolve (some selection.name) selection.version

pub data Extracted : Type 0 where
  result : ExtractionResult → Extracted
  refused : Error → Extracted

abbrev pub extract_with :
    ExtractionService → ExtractionRequest → Attempt ResolvedModelReference → Extracted
extract_with s r (raised e) = refused (provider_error e)
extract_with s r (returned m) = result (record {
  execution_mode = s.execution_mode;
  model = m;
  outcomes =
      map (λ (t : SourceText). process_source_with_model s t.id t.text (property_names r.schema))
        r.texts;
})

unfoldable pub extract : ExtractionService → ExtractionRequest → Extracted
unfolding process_source_with_model validate_limits
extract s r = elim (validate_limits s r) [
  | some e ↦ refused e
  | none ↦ extract_with s r (selected_model s r.model)
]

-- `StubInferenceProvider.infer`, for a test of membership in `failing_source_ids` and the text of its
-- RuntimeError.
unfoldable pub stub_values :
    List String → List (String × InferenceValue) → List (String × InferenceValue)
unfolding put
stub_values [] d = d
stub_values (name ∷ names) d =
    stub_values names (put name (record { value = null; status = InferenceStatus.not_inferred }) d)

unfoldable pub stub_infer :
    (String → Bool)
    → (String → String)
    → String
    → String
    → List String
    → Attempt (List (String × InferenceValue))
unfolding stub_values
stub_infer failing message source_id text names =
    if failing source_id then raised (message source_id) else returned (stub_values names [])

-- `StubUncertaintyEstimator.estimate`
abbrev pub stub_estimate : String → String → Value → Attempt UncertaintyResult
stub_estimate source_id name value =
    returned (record { value = none; status = UncertaintyStatus.not_calculated })

-- `name or "stub-extraction-provider"`: an empty text counts as absent.
abbrev pub text_or : Option String → String → String
text_or none s = s
text_or (some t) s = if t == "" then s else t

-- `StubModelCatalog.resolve`
abbrev pub stub_resolve : Option String → Option String → Attempt ResolvedModelReference
stub_resolve name version =
    returned
      (record { name = text_or name "stub-extraction-provider"; version = text_or version "stub" })
