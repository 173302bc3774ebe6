-- ===== src/ModelStore/Invariant/Grows.antt =====
-- INSERT OR IGNORE and the placing of a file: keys stay keys, and no row or file is lost.
use ia_dev_lab.Base.{
  ℕ, ◌≤◌, ◌<◌, String, Bool, true, ◌≡◌, ◌⊎◌, inl, inr, some, List, [], ◌∷◌, ◌++◌, arith, ltb,
  string_equality, All, All-append, find, find-none, find-Elem, find_test, count, count_pos,
  count-append, Option-cases,
}
use ia_dev_lab.ModelStore.Schema.{
  ModelRow, Catalog, Store, of_name, has_digest, file_named, insert_model, insert_artifact,
}
use ia_dev_lab.ModelStore.Register.{place}

-- A table that an INSERT OR IGNORE has left as it was, or has given the row.
abbrev pub MaybeAdded {ℓ} : {A : Type ℓ} → (A → Bool) → A → List A → List A → Type ℓ
MaybeAdded q r xs ys = ((ys ≡ xs) × (0 < count q xs)) ⊎ ((ys ≡ xs ++ r ∷ []) × (count q xs ≡ 0))

pub find-some-count :
    {A : Type 0} (q : A → Bool) (xs : List A) {r : A} → find q xs ≡ some r → 0 < count q xs
find-some-count q xs {r} e = count_pos q xs {r = r} (find-Elem q xs e) (find_test q xs e)

pub insert_model-added :
    (m : ModelRow) (c : Catalog)
    → MaybeAdded (of_name m.normalized_name) m c.models (insert_model m c).models
unfolding insert_model
insert_model-added m c = elim (Option-cases (find (of_name m.normalized_name) c.models)) [
  | inl e ↦ inr (rw (e, insert_model), find-none (of_name m.normalized_name) c.models e)
  | inr (r, e) ↦ inl (rw (e, insert_model), find-some-count (of_name m.normalized_name) c.models e)
]

pub insert_artifact-added :
    (d : String) (size : ℕ) (c : Catalog)
    → ltb 0 size ≡ true
    → MaybeAdded
        (has_digest d)
        (record { digest = d; storage_key = d; size = size })
        c.artifacts
        (insert_artifact d size c).artifacts
unfolding insert_artifact
insert_artifact-added d size c h = elim (Option-cases (find (has_digest d) c.artifacts)) [
  | inl e ↦ inr (rw (e, insert_artifact, h), find-none (has_digest d) c.artifacts e)
  | inr (r, e) ↦ inl (rw (e, insert_artifact), find-some-count (has_digest d) c.artifacts e)
]

pub place-added :
    (d : String) (content : List ℕ) (s : Store)
    → MaybeAdded
        (file_named d)
        (record { name = d; content = content })
        s.files
        (place d content s).files
unfolding place
place-added d content s = elim (Option-cases (find (file_named d) s.files)) [
  | inl e ↦ inr (rw (e, place), find-none (file_named d) s.files e)
  | inr (r, e) ↦ inl (rw (e, place), find-some-count (file_named d) s.files e)
]

module _ {A : Type 0} (q : A → Bool) (r : A) (xs ys : List A) (h : MaybeAdded q r xs ys) where
  pub added-has : q r ≡ true → 0 < count q ys
  unfolding count
  added-has e = elim h [
    | inl (same, n) ↦ rw same n
    | inr (more, z) ↦ rw more (ground (arith, count-append q xs (r ∷ [])))
  ]

  pub added-grows : (p : A → Bool) → count p xs ≤ count p ys
  unfolding count
  added-grows p = elim h [
    | inl (same, n) ↦ rw same (omega arith)
    | inr (more, z) ↦ rw more (omega (arith, count-append p xs (r ∷ [])))
  ]

  -- A key stays a key, where the rows of a key value are those of the test.
  pub added-key :
      (p : A → Bool) → (p r ≡ true → count p xs ≡ count q xs) → count p xs ≤ 1 → count p ys ≤ 1
  unfolding count
  added-key p keyed u = elim h [
    | inl (same, n) ↦ rw same u
    | inr (more, z) ↦ rw more (ground (arith, count-append p xs (r ∷ []), keyed))
  ]

  pub added-All : (P : A → Type 0) → All P xs → P r → All P ys
  added-All P a b = elim h [
    | inl (same, n) ↦ rw same a
    | inr (more, z) ↦ rw more (All-append P xs (r ∷ []) a (b, tt))
  ]
