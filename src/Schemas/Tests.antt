-- ===== src/Schemas/Tests.antt =====
-- Requests that the validators take and refuse, and the theorems at them.
use ia_dev_lab.Base.{String, false, ◌≡◌, ◌↔◌, refl, none, [], ◌∷◌, ok, err, value_error}
use ia_dev_lab.Schemas.{
  PropertyType, PropertyDefinition, ExtractionTaskRequest, contains, set_of, has_repetition, each,
  valid_schema, valid_task_request,
}
use ia_dev_lab.Schemas.Distinct.{IsDistinct, has_repetition-IsDistinct}
use ia_dev_lab.Schemas.Valid.{AreTexts, IsSchema, valid_task_request-AreTexts}

validators : Unit {0}
unfolding contains set_of each valid_schema valid_task_request
validators = tt

abbrev definition : String → PropertyDefinition
definition name = record {
  name = name;
  type = PropertyType.string;
  required = false;
  description = none;
}

abbrev asked : ExtractionTaskRequest
asked = record {
  texts = record { id = "first"; text = "a text" } ∷ record { id = "second"; text = "a text" } ∷ [];
  schema = record { properties = definition "name" ∷ definition "date" ∷ [] };
  model = none;
}

abbrev twice : ExtractionTaskRequest
twice = record asked {
  texts = record { id = "first"; text = "a text" } ∷ record { id = "first"; text = "b" } ∷ [];
}

-- With a `strip` for texts that have no blanks around them.
abbrev same : String → String
same t = t

passes : valid_task_request same asked ≡ ok asked
unfolding validators
passes = refl

refuses : valid_task_request same twice ≡ err (value_error "source identifiers must be unique")
unfolding validators
refuses = refl

has_repetition-IsDistinct_example :
    (has_repetition ("a" ∷ "b" ∷ []) ≡ false) ↔ IsDistinct ("a" ∷ "b" ∷ [])
has_repetition-IsDistinct_example = has_repetition-IsDistinct ("a" ∷ "b" ∷ [])

valid_task_request-AreTexts_example : AreTexts 100 asked.texts × IsSchema asked.schema
valid_task_request-AreTexts_example = valid_task_request-AreTexts same asked asked passes
