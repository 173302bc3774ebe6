-- ===== src/TaskService/Stored/Restored.antt =====
-- What the service stores of a request and of an outcome is what it reads back.
use ia_dev_lab.Base.{
  ◌≡◌, refl, inl, inr, some, List, [], ◌∷◌, map, arith, Option-cases, ok, string_equality,
}
use ia_dev_lab.Json.{
  Items, Fields, text, array, object, nil, cons, end, field, get, insert_field, canonical_json,
  canonical_items, canonical_fields,
}
use ia_dev_lab.Repository.Accept.{dump}
use ia_dev_lab.Models.{TaskRecord}
use ia_dev_lab.Schemas.{PropertyDefinition, ExtractionSchema, property_names}
use ia_dev_lab.Extraction.{ExecutionMode, ResolvedModelReference}
use ia_dev_lab.TaskService.Stored.{
  definition_value, definition_values, criteria_of, model_snapshot, mode_text, restore_model,
  require_text, to_mode, item_names, names_of, snapshot,
}

-- The stored form of a definition still has its name.
canonical-definition_value :
    (d : PropertyDefinition)
    → (fs : Fields) × (canonical_json (definition_value d) ≡ some (object fs))
      × (get "name" fs ≡ some (text d.name))
unfolding canonical_json get insert_field
canonical-definition_value d = elim (Option-cases d.description) [
  | inl e ↦ rw e (_, refl, refl)
  | inr (t, e) ↦ rw e (_, refl, refl)
]

canonical-definition_values :
    (ds : List PropertyDefinition)
    → (is : Items) × (canonical_items (definition_values ds) ≡ some is)
      × (item_names is ≡ ok (map (λ (d : PropertyDefinition). d.name) ds))
unfolding canonical_json definition_values item_names
canonical-definition_values [] = (nil, refl, refl)
canonical-definition_values (d ∷ ds) =
    let (fs, e, g) = canonical-definition_value d in
    let (is, f, n) = canonical-definition_values ds in (cons (object fs) is, rw (e, f), rw (g, n))

-- The accepted criteria can be stored, and name the properties of the schema.
pub criteria_of-dump :
    (schema : ExtractionSchema)
    → (c : Fields) × (dump (criteria_of schema) ≡ ok c) × (names_of c ≡ ok (property_names schema))
unfolding dump canonical_fields canonical_json get insert_field
criteria_of-dump schema =
    let (is, f, n) = canonical-definition_values schema.properties in
    (field "properties" (array is) end, rw f, n)

pub model_snapshot-dump :
    (m : ResolvedModelReference) (mode : ExecutionMode)
    → (k : Fields) × (dump (model_snapshot m mode) ≡ ok k)
      × (restore_model k ≡ ok m)
      × (require_text "execution_mode" k ≡ ok (mode_text mode))
unfolding dump canonical_fields canonical_json get insert_field
model_snapshot-dump m how = (_, refl, refl, refl)

to_mode-mode_text : (mode : ExecutionMode) → to_mode (mode_text mode) ≡ ok mode
to_mode-mode_text ExecutionMode.stub = refl
to_mode-mode_text ExecutionMode.model = refl

-- From a task whose two snapshots were stored from a request's schema and a resolved model, the worker
-- reads exactly the property names of that schema, in their order, and that model.
pub snapshot-accepted :
    (schema : ExtractionSchema) (m : ResolvedModelReference) (mode : ExecutionMode) (c k : Fields)
    (task : TaskRecord)
    → dump (criteria_of schema) ≡ ok c
    → dump (model_snapshot m mode) ≡ ok k
    → task.criteria ≡ some c
    → task.model ≡ some k
    → snapshot task ≡ ok (property_names schema, m)
unfolding snapshot
snapshot-accepted schema m mode c k task e f g h =
    let (c', e', names) = criteria_of-dump schema in
    let (k', f', reference, _) = model_snapshot-dump m mode in
    let same : c' ≡ c = ground (arith) in
    let same' : k' ≡ k = ground (arith) in rw (g, h, ← same, ← same', names, reference)
