-- ===== src/TaskService/Stored/Results.antt =====
-- A single result is read back as it was stored.
use ia_dev_lab.Base.{
  String, ◌≡◌, refl, ap, inl, inr, Option, none, some, List, [], ◌∷◌, arith, Option-cases,
  if◌then◌else◌, ok, ◌==◌, string_equality,
}
use ia_dev_lab.Json.{Value, text, object, end, field, get, insert_field, canonical_json}
use ia_dev_lab.Extraction.{InferenceStatus, UncertaintyStatus, PropertyResult}
use ia_dev_lab.TaskService.Stored.{
  inference_text, uncertainty_text, optional_number, result_value, restore_result,
}

-- A result as the store gives it back: its value has become the stored one.
abbrev pub with_value : PropertyResult → Option Value → Option PropertyResult
with_value r none = none
with_value r (some v) = some (record r { value = v })

abbrev pub stored_result : PropertyResult → Option PropertyResult
stored_result r = with_value r (canonical_json r.value)

-- `outcome.properties.get(name)`
abbrev pub lookup : String → List (String × PropertyResult) → Option PropertyResult
lookup q [] = none
lookup q ((name, r) ∷ d) = if name == q then some r else lookup q d

-- What a stored value must be for a result to be read from it.
pub record Restores (w : Value) : Type 0 where
  pub back : PropertyResult
  pub read : restore_result w ≡ ok back

-- The stored form of a result, its keys sorted.
abbrev stored_value : InferenceStatus → Option String → UncertaintyStatus → Value → Value
stored_value i n u v = object (
    field "inference_status" (text (inference_text i)) (
      field "uncertainty"
        (object
          (field "status" (text (uncertainty_text u)) (field "value" (optional_number n) end)))
        (field "value" v end)))

abbrev made_result : InferenceStatus → Option String → UncertaintyStatus → Value → PropertyResult
made_result i n u v = record {
  value = v;
  inference_status = i;
  uncertainty = record { value = n; status = u };
}

canonical_stored :
    (i : InferenceStatus) (n : Option String) (u : UncertaintyStatus) (x v : Value)
    → canonical_json x ≡ some v
    → canonical_json (result_value (made_result i n u x)) ≡ some (stored_value i n u v)
unfolding canonical_json insert_field
canonical_stored i none u x v h = rw h
canonical_stored i (some n) u x v h = rw h

restore_made :
    (i : InferenceStatus) (n : Option String) (u : UncertaintyStatus) (v : Value)
    → restore_result (stored_value i n u v) ≡ ok (made_result i n u v)
unfolding restore_result get
restore_made InferenceStatus.inferred none UncertaintyStatus.calculated v = refl
restore_made InferenceStatus.inferred none UncertaintyStatus.not_calculated v = refl
restore_made InferenceStatus.inferred (some n) UncertaintyStatus.calculated v = refl
restore_made InferenceStatus.inferred (some n) UncertaintyStatus.not_calculated v = refl
restore_made InferenceStatus.not_found none UncertaintyStatus.calculated v = refl
restore_made InferenceStatus.not_found none UncertaintyStatus.not_calculated v = refl
restore_made InferenceStatus.not_found (some n) UncertaintyStatus.calculated v = refl
restore_made InferenceStatus.not_found (some n) UncertaintyStatus.not_calculated v = refl
restore_made InferenceStatus.not_inferred none UncertaintyStatus.calculated v = refl
restore_made InferenceStatus.not_inferred none UncertaintyStatus.not_calculated v = refl
restore_made InferenceStatus.not_inferred (some n) UncertaintyStatus.calculated v = refl
restore_made InferenceStatus.not_inferred (some n) UncertaintyStatus.not_calculated v = refl

canonical_none :
    (r : PropertyResult) → canonical_json r.value ≡ none → canonical_json (result_value r) ≡ none
unfolding canonical_json
canonical_none r h = rw h refl

-- A stored result is read back, with its value stored.
pub result-stored :
    (r : PropertyResult) (w : Value)
    → canonical_json (result_value r) ≡ some w
    → (s : PropertyResult) × (restore_result w ≡ ok s) × (stored_result r ≡ some s)
result-stored r w k = elim (Option-cases (canonical_json r.value)) [
  | inl e ↦ absurd (ground (arith, canonical_none r e))
  | inr (v, e) ↦
      let same : stored_value r.inference_status r.uncertainty.value r.uncertainty.status v ≡ w =
        ground (
          arith,
          canonical_stored r.inference_status r.uncertainty.value r.uncertainty.status r.value v e,
        ) in
      (
        record r { value = v },
        rw (← same) (restore_made r.inference_status r.uncertainty.value r.uncertainty.status v),
        ap (with_value r) e,
      )
]
