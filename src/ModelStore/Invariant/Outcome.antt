-- ===== src/ModelStore/Invariant/Outcome.antt =====
-- How a registration can end: with the store as it was, with a file left by a
-- TypeError or an OverflowError, or with the
-- new version.
use ia_dev_lab.Base.{
  ℕ, ◌+◌, ◌≤◌, ◌<◌, String, Bool, true, ◌&&◌, ◌≡◌, ◌⊎◌, sym, ap, subst, inl, inr, none, some, List,
  [], ◌∷◌, ◌++◌, length, length-append, arith, eq_iff, eq_refl, ltb, string_equality, All-Elem,
  find, find-none, find-Elem, find_test, select, delete, count, Option-cases, Bool-cases, is_none,
  Error, ok, err, type_error, integrity_error, overflow_error,
}
use ia_dev_lab.Json.{Fields, canonical_fields}
use ia_dev_lab.ModelStore.Schema.{
  Platform, ModelRow, ArtifactRow, VersionRow, Catalog, Store, of_name, has_digest, file_named,
  insert_model, insert_artifact, insert_version, max_integer,
}
use ia_dev_lab.ModelStore.Register.{
  Chunk, bytes, not_bytes, unreadable, write_chunks, place, unplace, write_version,
}
use ia_dev_lab.ModelStore.Invariant.{StoreInv}

delete_added :
    {A : Type 0} (q : A → Bool) (r : A) (xs : List A)
    → q r ≡ true
    → count q xs ≡ 0
    → delete q (xs ++ r ∷ []) ≡ xs
unfolding count select
delete_added q r [] e z = rw e
delete_added q r (x ∷ xs) e z = ground (arith, delete_added q r xs e)

-- The final file is taken away again exactly where this upload had put it.
pub unplace-place :
    (p : Platform) (s : Store) (d : String) (content : List ℕ) (artifacts : List ArtifactRow)
    → StoreInv p s
    → artifacts ≡ s.catalog.artifacts
    → unplace
        (is_none (find (file_named d) s.files) && is_none (find (has_digest d) artifacts))
        d
        (place d content (record s { temporary = some content }))
      ≡ s
unfolding place
unplace-place p s d content artifacts v same = elim (Option-cases (find (file_named d) s.files)) [
  | inr (f, e) ↦ rw (e, place) (ap (λ t. record s { temporary = t }) (sym v.idle))
  | inl e ↦ elim (Option-cases (find (has_digest d) artifacts)) [
    | inl n ↦
        rw
          (
            e,
            place,
            n,
            delete_added (file_named d) (record { name = d; content = content }) s.files (eq_refl d)
                (find-none (file_named d) s.files e),
          )
          (ap (λ t. record s { temporary = t }) (sym v.idle))
    | inr (a, n) ↦
        let n' = subst (λ (l : List ArtifactRow). find (has_digest d) l ≡ some a) same n in
        let there =
          All-Elem (λ (b : ArtifactRow). 0 < count (file_named b.digest) s.files)
            s.catalog.artifacts v.stored (find-Elem (has_digest d) s.catalog.artifacts n') in
        let id : a.digest ≡ d =
          (eq_iff a.digest d).0 (find_test (has_digest d) s.catalog.artifacts n') in
        let there' = subst (λ (k : String). 0 < count (file_named k) s.files) id there in
        absurd (omega (arith, there', find-none (file_named d) s.files e))
  ]
]

pub insert_model-rest :
    (m : ModelRow) (c : Catalog)
    → insert_model m c ≡ record c { models = (insert_model m c).models }
unfolding insert_model
insert_model-rest m c = elim (Bool-cases (is_none (find (of_name m.normalized_name) c.models))) [
  | inl e ↦ rw e
  | inr e ↦ rw e
]

pub insert_artifact-rest :
    (d : String) (size : ℕ) (c : Catalog)
    → insert_artifact d size c ≡ record c { artifacts = (insert_artifact d size c).artifacts }
unfolding insert_artifact
insert_artifact-rest d size c =
    elim (Bool-cases (is_none (find (has_digest d) c.artifacts) && ltb 0 size)) [
      | inl e ↦ rw e
      | inr e ↦ rw e
    ]

pub write_version_err :
    (row : VersionRow) (metadata : Fields) (c : Catalog) (x : Error)
    → write_version row metadata c ≡ err x
    → (((x ≡ type_error) × (canonical_fields metadata ≡ none)) ⊎ (x ≡ overflow_error))
      ⊎ (x ≡ integrity_error)
unfolding write_version insert_version
write_version_err row metadata c x h = elim (Option-cases (canonical_fields metadata)) [
  | inl e ↦ inl (inl (ground arith, e))
  | inr (json, e) ↦ elim (Bool-cases (ltb max_integer row.version)) [
    | inl big ↦ inl (inr (ground arith))
    | inr small ↦ inr (ground arith)
  ]
]

-- A staged upload is not empty, and is what the reads gave.
pub record Staged (limit : ℕ) (chunks : List Chunk) (content : List ℕ) (size : ℕ) : Type 0 where
  pub counted : size ≡ length content
  pub filled : ltb 0 size ≡ true
  pub bounded : size ≤ limit

pub write_chunks_ok :
    (limit : ℕ) (chunks : List Chunk) (written : List ℕ) (size : ℕ) {content : List ℕ} {total : ℕ}
    → size ≡ length written
    → size ≤ limit
    → write_chunks limit chunks written size ≡ ok (content, total)
    → (total ≡ length content) × (total ≤ limit)
unfolding write_chunks
write_chunks_ok limit [] written size s b h = ground arith
write_chunks_ok limit (bytes bs ∷ chunks) written size {content} {total} s b h = ground (
  arith,
  length-append written bs,
  write_chunks_ok limit chunks (written ++ bs) (size + length bs) {content = content}
      {total = total},
)
write_chunks_ok limit (not_bytes ∷ chunks) written size s b h = absurd (ground arith)
write_chunks_ok limit (unreadable ∷ chunks) written size s b h = absurd (ground arith)
