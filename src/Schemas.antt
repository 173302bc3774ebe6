-- ===== src/Schemas.antt =====
-- The requests of src/schemas.py and their validators. A validator's ValueError is a `value_error`; the
-- validation framework runs the validators of a request's parts before those of the whole, and reports
-- the first failure.
pub mod Distinct
pub mod Valid
mod Tests
use ia_dev_lab.Base.{
  ℕ, suc, String, Bool, true, false, not, ◌||◌, ◌&&◌, Option, none, some, List, [], ◌∷◌, map,
  length, leb, ◌==◌, nat_equality, string_equality, if◌then◌else◌, Result, ok, err, value_error,
  raise_if, ◌>>=◌, ◌>>◌,
}
use ia_dev_lab.Json.{Value, Fields, object, end}

pub data PropertyType : Type 0 where
  string number boolean string_list : PropertyType

pub record SourceText : Type 0 where
  pub id : String
  pub text : String

pub record PropertyDefinition : Type 0 where
  pub name : String
  pub type : PropertyType
  pub required : Bool
  pub description : Option String

pub record ExtractionSchema : Type 0 where
  pub properties : List PropertyDefinition

pub record ModelSelection : Type 0 where
  pub name : String
  pub version : Option String

pub record ExtractionRequest : Type 0 where
  pub texts : List SourceText
  pub schema : ExtractionSchema
  pub model : Option ModelSelection

pub record ExtractionTaskRequest : Type 0 where
  pub texts : List SourceText
  pub schema : ExtractionSchema
  pub model : Option ModelSelection

-- `tuple(property_definition.name for ... in schema.properties)`
abbrev pub property_names : ExtractionSchema → List String
property_names schema = map (λ (d : PropertyDefinition). d.name) schema.properties

-- `x in s`
unfoldable pub contains : String → List String → Bool
contains x [] = false
contains x (y ∷ ys) = let rest = contains x ys in y == x || rest

-- `set(names)`, as a list without repetition.
unfoldable pub set_of : List String → List String
unfolding contains
set_of [] = []
set_of (x ∷ xs) = let rest = set_of xs in if contains x rest then rest else x ∷ rest

-- `len(names) != len(set(names))`
abbrev pub has_repetition : List String → Bool
has_repetition xs = not (length xs == length (set_of xs))

-- `require_non_blank` and its namesakes, with `strip` for `str.strip`.
abbrev pub non_blank : (String → String) → String → String → Result String
non_blank strip message value =
    let normalized = strip value in
    if normalized == "" then err (value_error message) else ok normalized

abbrev pub valid_text : (String → String) → SourceText → Result SourceText
valid_text strip t = do
  id ← non_blank strip "must not be blank" t.id
  text ← non_blank strip "must not be blank" t.text
  ok (record { id = id; text = text })

abbrev pub valid_definition : (String → String) → PropertyDefinition → Result PropertyDefinition
valid_definition strip d = do
  name ← non_blank strip "property name must not be blank" d.name
  ok (record d { name = name })

-- Each item of a list, the first failure first.
unfoldable pub each {ℓ} : {A : Type ℓ} → (A → Result A) → List A → Result (List A)
each f [] = ok []
each f (x ∷ xs) = do y ← f x; ys ← each f xs; ok (y ∷ ys)

-- `Field(min_length=..., max_length=...)`
abbrev pub valid_length {ℓ} : {A : Type ℓ} → ℕ → ℕ → List A → Result (Unit {0})
valid_length low high xs =
    raise_if (not (leb low (length xs) && leb (length xs) high))
      (value_error "List has the wrong length")

-- `ExtractionSchema`: at least one property, unique names.
unfoldable pub valid_schema : (String → String) → ExtractionSchema → Result ExtractionSchema
unfolding each set_of
valid_schema strip schema = do
  raise_if (leb (length schema.properties) 0) (value_error "List should have at least 1 item")
  properties ← each (valid_definition strip) schema.properties
  raise_if (has_repetition (map (λ (d : PropertyDefinition). d.name) properties))
      (value_error "property names must be unique")
  ok (record { properties = properties })

abbrev pub valid_selection :
    (String → String) → Option ModelSelection → Result (Option ModelSelection)
valid_selection strip none = ok none
valid_selection strip (some selection) = do
  name ← non_blank strip "model name must not be blank" selection.name
  ok (some (record selection { name = name }))

-- `require_unique_source_ids`
abbrev pub valid_texts : (String → String) → ℕ → List SourceText → Result (List SourceText)
valid_texts strip most texts = do valid_length 1 most texts; each (valid_text strip) texts

abbrev pub unique_source_ids : List SourceText → Result (Unit {0})
unique_source_ids texts =
    raise_if (has_repetition (map (λ (t : SourceText). t.id) texts))
      (value_error "source identifiers must be unique")

unfoldable pub valid_request : (String → String) → ExtractionRequest → Result ExtractionRequest
unfolding valid_schema each set_of
valid_request strip r = do
  texts ← valid_texts strip 10 r.texts
  schema ← valid_schema strip r.schema
  model ← valid_selection strip r.model
  unique_source_ids texts
  ok (record { texts = texts; schema = schema; model = model })

unfoldable pub valid_task_request :
    (String → String) → ExtractionTaskRequest → Result ExtractionTaskRequest
unfolding valid_schema each set_of
valid_task_request strip r = do
  texts ← valid_texts strip 100 r.texts
  schema ← valid_schema strip r.schema
  model ← valid_selection strip r.model
  unique_source_ids texts
  ok (record { texts = texts; schema = schema; model = model })

-- What `json.loads` makes of a text: a value, or a JSONDecodeError.
abbrev pub as_object : Value → Result Fields
as_object (object fields) = ok fields
as_object _ = err (value_error "metadata must be a JSON object")

abbrev pub parsed_object : Option Value → Result Fields
parsed_object none = err (value_error "metadata must be a valid JSON object")
parsed_object (some v) = as_object v

-- `parse_metadata`, for a given `json.loads`.
abbrev pub parse_metadata : (String → Option Value) → Option String → Result Fields
parse_metadata loads none = ok end
parse_metadata loads (some value) = if value == "" then ok end else parsed_object (loads value)
