-- ===== src/Schemas/Valid.antt =====
-- What a request that passed the validators of src/schemas.py satisfies.
use ia_dev_lab.Base.{
  bind_ok, raise_if_ok, ℕ, suc, ◌≤◌, ◌<◌, String, false, ◌≡◌, refl, sym, ap, subst, List, [], ◌∷◌,
  map, length, leb, All, arith, Result, ok, raise_if, ◌==◌, string_equality,
}
use ia_dev_lab.Schemas.{
  SourceText, PropertyDefinition, ExtractionSchema, ExtractionTaskRequest, property_names,
  has_repetition, non_blank, valid_text, valid_definition, each, valid_length, valid_schema,
  valid_selection, valid_texts, unique_source_ids, valid_task_request,
}
use ia_dev_lab.Schemas.Distinct.{IsDistinct, has_repetition-IsDistinct}

-- Every item of a list that `each` returns comes from the function.
each-All :
    {A : Type 0} (P : A → Type 0) (f : A → Result A) (xs ys : List A)
    → ((x y : A) → f x ≡ ok y → P y)
    → each f xs ≡ ok ys
    → All P ys × (length ys ≡ length xs)
unfolding each
each-All P f [] [] h e = (tt, refl)
each-All P f [] (y ∷ ys) h e = absurd (ground arith)
each-All {A} P f (x ∷ xs) ys h e =
    let (y, p, q) = bind_ok (f x) _ ys e in
    let (zs, r, s) = bind_ok (each f xs) _ ys q in
    let (all, size) = each-All P f xs zs h r in
    let same : y ∷ zs ≡ ys = ground arith in
    subst (λ (l : List A). All P l × (length l ≡ suc (length xs))) same
      ((h x y p, all), ap suc size)

non_blank_ok :
    (strip : String → String) (message value : String) (t : String)
    → non_blank strip message value ≡ ok t
    → (t == "") ≡ false
non_blank_ok strip message value t h = ground arith

abbrev pub IsText : SourceText → Type 0
IsText t = ((t.id == "") ≡ false) × ((t.text == "") ≡ false)

valid_text-IsText :
    (strip : String → String) (t u : SourceText) → valid_text strip t ≡ ok u → IsText u
valid_text-IsText strip t u h =
    let (id, p, q) = bind_ok (non_blank strip "must not be blank" t.id) _ u h in
    let (text, r, s) = bind_ok (non_blank strip "must not be blank" t.text) _ u q in
    subst IsText {x = record { id = id; text = text }} {y = u} (ground arith) (
      non_blank_ok strip "must not be blank" t.id id p,
      non_blank_ok strip "must not be blank" t.text text r,
    )

valid_definition-named :
    (strip : String → String) (d u : PropertyDefinition)
    → valid_definition strip d ≡ ok u
    → (u.name == "") ≡ false
valid_definition-named strip d u h =
    let (name, p, q) = bind_ok (non_blank strip "property name must not be blank" d.name) _ u h in
    subst (λ (x : PropertyDefinition). (x.name == "") ≡ false) {x = record d { name = name }}
      {y = u} (ground arith) (non_blank_ok strip "property name must not be blank" d.name name p)

-- A schema names at least one property, none by an empty text, and no two alike.
pub record IsSchema (schema : ExtractionSchema) : Type 0 where
  pub some_property : 0 < length schema.properties
  pub named : All (λ (d : PropertyDefinition). (d.name == "") ≡ false) schema.properties
  pub distinct_names : IsDistinct (property_names schema)

valid_schema-IsSchema :
    (strip : String → String) (s u : ExtractionSchema) → valid_schema strip s ≡ ok u → IsSchema u
unfolding valid_schema
valid_schema-IsSchema strip s u h =
    let (t, p, q) = bind_ok (raise_if (leb (length s.properties) 0) _) _ u h in
    let (ds, r, k) = bind_ok (each (valid_definition strip) s.properties) _ u q in
    let (t', l, m) =
      bind_ok (raise_if (has_repetition (map (λ (d : PropertyDefinition). d.name) ds)) _) _ u k in
    let (all, size) =
      each-All (λ (d : PropertyDefinition). (d.name == "") ≡ false) (valid_definition strip)
        s.properties ds (valid_definition-named strip) r in
    let same : u ≡ record { properties = ds } = ground arith in
    subst IsSchema (sym same) (record {
      some_property = ground (arith, size, raise_if_ok _ _ t p);
      named = all;
      distinct_names =
          (has_repetition-IsDistinct (map (λ (d : PropertyDefinition). d.name) ds)).0
            (raise_if_ok _ _ t' l);
    })

-- The texts of a request: between one and a most, no id or text empty, and no two ids alike.
pub record AreTexts (most : ℕ) (texts : List SourceText) : Type 0 where
  pub some_text : 0 < length texts
  pub few : length texts ≤ most
  pub filled : All IsText texts
  pub distinct_ids : IsDistinct (map (λ (t : SourceText). t.id) texts)

texts-AreTexts :
    (strip : String → String) (most : ℕ) (texts us : List SourceText) (t : Unit {0})
    → valid_texts strip most texts ≡ ok us
    → unique_source_ids us ≡ ok t
    → AreTexts most us
texts-AreTexts strip most texts us t h k =
    let (t', p, q) = bind_ok (valid_length 1 most texts) _ us h in
    let (all, size) = each-All IsText (valid_text strip) texts us (valid_text-IsText strip) q in
    let sized = raise_if_ok _ _ t' p in
    record {
      some_text = ground (arith, size, sized);
      few = ground (arith, size, sized);
      filled = all;
      distinct_ids =
          (has_repetition-IsDistinct (map (λ (u : SourceText). u.id) us)).0 (raise_if_ok _ _ t k);
    }

-- A request that the validators of `ExtractionTaskRequest` let through, in the form that they give it,
-- holds between 1 and 100 texts; no source id, no text and no property name of it is empty; no two
-- source ids are alike, there is a property, and no two property names are alike.
pub valid_task_request-AreTexts :
    (strip : String → String) (r u : ExtractionTaskRequest)
    → valid_task_request strip r ≡ ok u
    → AreTexts 100 u.texts × IsSchema u.schema
unfolding valid_task_request
valid_task_request-AreTexts strip r u h =
    let (texts, p, q) = bind_ok (valid_texts strip 100 r.texts) _ u h in
    let (schema, p1, q1) = bind_ok (valid_schema strip r.schema) _ u q in
    let (selection, p2, q2) = bind_ok (valid_selection strip r.model) _ u q1 in
    let (t, p3, q3) = bind_ok (unique_source_ids texts) _ u q2 in
    let same : u ≡ record { texts = texts; schema = schema; model = selection } = ground arith in
    subst (λ (x : ExtractionTaskRequest). AreTexts 100 x.texts × IsSchema x.schema) (sym same)
      (
        texts-AreTexts strip 100 r.texts texts t p p3,
        valid_schema-IsSchema strip r.schema schema p1,
      )
