-- ===== src/Extraction/Tests.antt =====
-- A batch on the stubs, and the theorem at it.
use ia_dev_lab.Base.{
  String, ◌≡◌, false, text_limit, refl, none, List, [], ◌∷◌, map, arith, ◌==◌, string_equality,
}
use ia_dev_lab.Extraction.{
  ExecutionMode, ExtractionService, ExtractionResult, ExtractionOutcome, OutcomeStatus, Extracted,
  result, refused, stub_infer, stub_estimate, stub_resolve, extract,
}
use ia_dev_lab.Schemas.{PropertyType, PropertyDefinition, ExtractionRequest}
use ia_dev_lab.Extraction.Ordered.{IsOrdered, extract-IsOrdered}

extraction_program : Unit {0}
unfolding extract stub_infer
extraction_program = tt

-- The stubs, with the source "bad" set to fail.
abbrev stubs : ExtractionService
stubs = record {
  execution_mode = ExecutionMode.stub;
  infer = stub_infer (λ id. id == "bad") (λ id. "Inference failed");
  estimate = stub_estimate;
  resolve = stub_resolve;
  max_texts = 2;
  max_characters = 20;
}

abbrev definition : String → PropertyDefinition
definition name = record {
  name = name;
  type = PropertyType.string;
  required = false;
  description = none;
}

abbrev pair : ExtractionRequest
pair = record {
  texts = record { id = "bad"; text = "a text" } ∷ record { id = "good"; text = "a text" } ∷ [];
  schema = record { properties = definition "name" ∷ definition "date" ∷ [] };
  model = none;
}

abbrev statuses : Extracted → List OutcomeStatus
statuses (refused e) = []
statuses (result b) = map (λ (o : ExtractionOutcome). o.status) b.outcomes

one_failure : statuses (extract stubs pair) ≡ OutcomeStatus.failed ∷ OutcomeStatus.completed ∷ []
unfolding extraction_program
one_failure = refl

too_many : extract (record stubs { max_texts = 1 }) pair ≡ refused (text_limit 1)
unfolding extraction_program
too_many = refl

extract-IsOrdered_example :
    (b : ExtractionResult) × (extract stubs pair ≡ result b) × IsOrdered pair b
extract-IsOrdered_example =
    extract-IsOrdered stubs pair (record { name = "stub-extraction-provider"; version = "stub" })
      (omega arith) (omega arith) refl
