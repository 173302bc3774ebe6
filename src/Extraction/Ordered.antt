-- ===== src/Extraction/Ordered.antt =====
-- The outcomes of a batch: one for each source text, in order, failures kept to their source.
use ia_dev_lab.Base.{
  ◌≤◌, ◌<◌, String, Bool, true, ◌≡◌, ◌⊎◌, refl, sym, ap₂, subst, inl, inr, none, List, [], ◌∷◌, map,
  length, sum_of, arith, ◌==◌, string_equality, eq_refl, All, count, is_some,
}
use ia_dev_lab.Schemas.{property_names}
use ia_dev_lab.Extraction.{
  OutcomeStatus, Attempt, returned, raised, ResolvedModelReference, PropertyResult, InferenceValue,
  ExtractionOutcome, ExtractionResult, ExtractionService, SourceText, ExtractionRequest,
  text_length, put, inferred_value, property_result, property_results, inferred_results,
  process_source_with_model, validate_limits, selected_model, result, extract,
}

abbrev has_key : String → String × PropertyResult → Bool
has_key k (j, v) = j == k

put-has :
    (k : String) (v : PropertyResult) (d : List (String × PropertyResult))
    → 0 < count (has_key k) (put k v d)
unfolding count put
put-has k v [] = ground (arith, eq_refl k)
put-has k v ((j, w) ∷ d) = ground (arith, put-has k v d)

put-grows :
    (q k : String) (v : PropertyResult) (d : List (String × PropertyResult))
    → count (has_key q) d ≤ count (has_key q) (put k v d)
unfolding count put
put-grows q k v [] = omega arith
put-grows q k v ((j, w) ∷ d) = ground (arith, put-grows q k v d)

-- The case of an attempt.
Attempt-cases :
    {A : Type 0} (r : Attempt A) → ((e : String) × (r ≡ raised e)) ⊎ ((a : A) × (r ≡ returned a))
Attempt-cases (returned a) = inr (a, refl)
Attempt-cases (raised e) = inl (e, refl)

property_results-grows :
    (s : ExtractionService) (id : String) (i : List (String × InferenceValue)) (names : List String)
    (d d' : List (String × PropertyResult)) (q : String)
    → property_results s id i names d ≡ returned d'
    → count (has_key q) d ≤ count (has_key q) d'
unfolding property_results
property_results-grows s id i [] d d' q h =
    subst (λ (l : List (String × PropertyResult)). count (has_key q) d ≤ count (has_key q) l)
      {x = d} {y = d'} (ground arith) (omega arith)
property_results-grows s id i (name ∷ names) d d' q h =
    elim (Attempt-cases (property_result s id name (inferred_value name i))) [
      | inl (e, k) ↦ absurd (ground (arith, rw (k, property_results) at h))
      | inr (r, k) ↦ omega (
        arith,
        put-grows q name r d,
        property_results-grows s id i names (put name r d) d' q (rw (k, property_results) at h),
      )
    ]

-- Every requested name is a key of the finished dict.
property_results_complete :
    (s : ExtractionService) (id : String) (i : List (String × InferenceValue)) (names : List String)
    (d d' : List (String × PropertyResult))
    → property_results s id i names d ≡ returned d'
    → All (λ q. 0 < count (has_key q) d') names
unfolding property_results
property_results_complete s id i [] d d' h = tt
property_results_complete s id i (name ∷ names) d d' h =
    elim (Attempt-cases (property_result s id name (inferred_value name i))) [
      | inl (e, k) ↦ absurd (ground (arith, rw (k, property_results) at h))
      | inr (r, k) ↦
          let h' = rw (k, property_results) at h in
          (
            omega (
              arith,
              put-has name r d,
              property_results-grows s id i names (put name r d) d' name h',
            ),
            property_results_complete s id i names (put name r d) d' h',
          )
    ]

-- An outcome tells either its results or its error.
pub record IsCoherent (names : List String) (o : ExtractionOutcome) : Type 0 where
  pub good :
      o.status ≡ OutcomeStatus.completed
      → (o.error ≡ none) × All (λ q. 0 < count (has_key q) o.properties) names
  pub bad : o.status ≡ OutcomeStatus.failed → (o.properties ≡ []) × (is_some o.error ≡ true)

process_source-IsCoherent :
    (s : ExtractionService) (id text : String) (names : List String)
    → IsCoherent names (process_source_with_model s id text names)
unfolding process_source_with_model
process_source-IsCoherent s id text names =
    elim (Attempt-cases (inferred_results s id names (s.infer id text names))) [
      | inl (e, k) ↦
          rw k (record { good = λ h. absurd (failed_completed h); bad = λ _. (refl, refl) })
      | inr (d, k) ↦ rw k (record {
        good = λ _. (refl, complete (s.infer id text names) d k);
        bad = λ h. absurd (failed_completed (sym h));
      })
    ]
  where
    failed_completed : OutcomeStatus.failed ≡ OutcomeStatus.completed → ⊥
    failed_completed e = ground arith

    complete :
        (i : Attempt (List (String × InferenceValue))) (d : List (String × PropertyResult))
        → inferred_results s id names i ≡ returned d
        → All (λ q. 0 < count (has_key q) d) names
    complete (raised e) d h = absurd (ground arith)
    complete (returned i) d h = property_results_complete s id i names [] d h

process_source-id :
    (s : ExtractionService) (id text : String) (names : List String)
    → (process_source_with_model s id text names).source_id ≡ id
unfolding process_source_with_model
process_source-id s id text names =
    elim (Attempt-cases (inferred_results s id names (s.infer id text names))) [
      | inl (e, k) ↦ rw k refl
      | inr (d, k) ↦ rw k refl
    ]

-- A finished batch.
pub record IsOrdered (r : ExtractionRequest) (b : ExtractionResult) : Type 0 where
  pub in_order :
      map (λ (o : ExtractionOutcome). o.source_id) b.outcomes
      ≡ map (λ (t : SourceText). t.id) r.texts
  pub coherent : All (IsCoherent (property_names r.schema)) b.outcomes

-- A batch within both limits, whose model the catalog resolves, is always finished, whatever the
-- providers return or raise: it has one outcome for each source text, in the order of the texts, each
-- either completed, with a result for every requested property and no error, or failed, with an error
-- and no result.
pub extract-IsOrdered :
    (s : ExtractionService) (r : ExtractionRequest) (m : ResolvedModelReference)
    → length r.texts ≤ s.max_texts
    → sum_of (λ t. text_length t.text) r.texts ≤ s.max_characters
    → selected_model s r.model ≡ returned m
    → (b : ExtractionResult) × (extract s r ≡ result b) × IsOrdered r b
unfolding extract validate_limits
extract-IsOrdered s r m few small e = (
  record { execution_mode = s.execution_mode; model = m; outcomes = outcomes r.texts },
  rw (within, extract, e),
  record { in_order = in_order r.texts; coherent = coherent r.texts },
)
  where
    outcomes : List SourceText → List ExtractionOutcome
    outcomes ts =
        map (λ (t : SourceText). process_source_with_model s t.id t.text (property_names r.schema))
          ts

    within : validate_limits s r ≡ none
    within = ground (arith, few, small)

    in_order :
        (ts : List SourceText)
        → map (λ (o : ExtractionOutcome). o.source_id) (outcomes ts)
          ≡ map (λ (t : SourceText). t.id) ts
    in_order [] = refl
    in_order (t ∷ ts) = ap₂ (λ a b. a ∷ b) (same_id t) (in_order ts)
      where
        same_id :
            (t : SourceText)
            → (process_source_with_model s t.id t.text (property_names r.schema)).source_id ≡ t.id
        same_id t = process_source-id s t.id t.text (property_names r.schema)

    coherent : (ts : List SourceText) → All (IsCoherent (property_names r.schema)) (outcomes ts)
    coherent [] = tt
    coherent (t ∷ ts) =
        (process_source-IsCoherent s t.id t.text (property_names r.schema), coherent ts)
