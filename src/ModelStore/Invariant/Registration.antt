-- ===== src/ModelStore/Invariant/Registration.antt =====
-- The cases of `register`, and what they mean for the store.
use ia_dev_lab.Base.{
  ℕ, ◌<◌, String, Bool, true, ◌&&◌, ◌≡◌, ◌⊎◌, refl, sym, ap, subst, ◌∙◌, inl, inr, Option, none,
  some, List, [], ◌∷◌, ◌++◌, arith, eq_iff, ltb, string_equality, All-map, count, find, is_none,
  is_some, Bool-cases, Result-cases, Error, Result, ok, err, type_error, overflow_error,
  commit_error, duplicate_version, invalid_registration,
}
use ia_dev_lab.Json.{Fields, canonical_fields}
use ia_dev_lab.ModelStore.Schema.{
  Platform, ModelRow, ArtifactRow, has_version, VersionRow, Catalog, Store, has_digest, file_named,
  insert_model, insert_artifact,
}
use ia_dev_lab.ModelStore.Reads.{ModelVersion, normalize_name, get}
use ia_dev_lab.ModelStore.Register.{
  Chunk, write_chunks, stage_artifact, assign_version, place, unplace, write_version, new_version,
  register_staged, report, conclude, register,
}
use ia_dev_lab.ModelStore.Invariant.{StoreInv}
use ia_dev_lab.ModelStore.Invariant.Grows.{
  MaybeAdded, added-grows, added-key, added-All, insert_model-added, insert_artifact-added,
  place-added,
}
use ia_dev_lab.ModelStore.Invariant.Registered.{Written, write_version_ok, registered-StoreInv}
use ia_dev_lab.ModelStore.Invariant.Outcome.{
  unplace-place, insert_model-rest, insert_artifact-rest, write_version_err, Staged,
  write_chunks_ok,
}

-- A TypeError and an OverflowError pass the handlers.
conclude_litter :
    (commits remove : Bool) (d : String) (version : ℕ) (display : String) (s : Store) (x : Error)
    {why : Type 0}
    → ((x ≡ type_error) × why) ⊎ (x ≡ overflow_error)
    → conclude commits remove d version display s (err x) ≡ (err x, s)
conclude_litter commits remove d version display s x h = elim h [ inl (e, n) ↦ rw e | inr e ↦ rw e ]

module _ (p : Platform) (limit : ℕ) (name : String) (chunks : List Chunk) (version : Option ℕ)
    (description : Option String) (metadata : Fields) (now : ℕ) (s : Store) where
  -- The catalog after the two INSERT OR IGNOREs, and the row that is to follow.
  abbrev pub model_row : ModelRow
  model_row = record {
    normalized_name = normalize_name p name;
    name = p.strip name;
    description = description;
    created_at = now;
  }

  abbrev pub prepared : List ℕ → ℕ → Catalog
  prepared content size = insert_artifact (p.sha256 content) size (insert_model model_row s.catalog)

  abbrev pub assigned : ℕ
  assigned = assign_version version (normalize_name p name) (insert_model model_row s.catalog)

  abbrev pub version_row : List ℕ → VersionRow
  version_row content = new_version (normalize_name p name) assigned (p.sha256 content) now

  abbrev pub placed : List ℕ → Store
  placed content = place (p.sha256 content) content (record s { temporary = some content })

  -- The upload was staged.
  pub record StagedAs (content : List ℕ) (size : ℕ) : Type 0 where
    pub staged :
        stage_artifact limit chunks s ≡ (ok (content, size), record s { temporary = some content })
    pub upload : Staged limit chunks content size

  pub record Committed (r : Result ModelVersion × Store) : Type 0 where
    pub content : List ℕ
    pub size : ℕ
    pub catalog : Catalog
    pub source : StagedAs content size
    pub written : Written (version_row content) metadata (prepared content size) catalog
    pub result : r ≡ (
      get p (p.strip name) assigned catalog,
      record s { catalog = catalog; files = (placed content).files; temporary = none },
    )

  pub record Littered (r : Result ModelVersion × Store) : Type 0 where
    pub content : List ℕ
    pub size : ℕ
    pub source : StagedAs content size
    pub error : Error
    pub refused :
        ((error ≡ type_error) × (canonical_fields metadata ≡ none)) ⊎ (error ≡ overflow_error)
    pub result : r ≡ (err error, record s { files = (placed content).files; temporary = none })

  pub data Ending (r : Result ModelVersion × Store) : Type 0 where
    unchanged : (x : Error) → r ≡ (err x, s) → Ending r
    littered : Littered r → Ending r
    committed : Committed r → Ending r

  pub staged_as :
      (content : List ℕ) (size : ℕ)
      → write_chunks limit chunks [] 0 ≡ ok (content, size)
      → ltb 0 size ≡ true
      → StagedAs content size
  unfolding stage_artifact
  staged_as content size e z = record {
    staged = rw (e, z);
    upload =
        let (counted, bounded) = write_chunks_ok limit chunks [] 0 refl (omega arith) e in
        record { counted = counted; filled = z; bounded = bounded };
  }

  abbrev no_content : Error
  no_content = invalid_registration "Model artifact content is required"

  stage_cases :
      StoreInv p s
      → ((x : Error) × (stage_artifact limit chunks s ≡ (err x, s)))
        ⊎ ((content : List ℕ) × (size : ℕ) × StagedAs content size)
  unfolding stage_artifact
  stage_cases v = elim (Result-cases (write_chunks limit chunks [] 0)) [
    | inl (x, e) ↦ inl (x, rw e (ap (λ t. (err x, record s { temporary = t })) (sym v.idle)))
    | inr ((content, size), e) ↦ elim (Bool-cases (ltb 0 size)) [
      | inr z ↦ inl (
        no_content,
        rw (e, z) (ap (λ t. (err no_content, record s { temporary = t })) (sym v.idle)),
      )
      | inl z ↦ inr (content, size, staged_as content size e z)
    ]
  ]

  place-catalog :
      (d : String) (content : List ℕ) (t : Store) → (place d content t).catalog ≡ t.catalog
  unfolding place
  place-catalog d content t = elim (Bool-cases (is_some (find (file_named d) t.files))) [
    | inl e ↦ rw e
    | inr e ↦ rw e
  ]

  back_to_start : (t : Store) → StoreInv p s → t ≡ s → record t { temporary = none } ≡ s
  back_to_start t v e =
      ap (λ (u : Store). record u { temporary = none }) e
      ∙ ap (λ k. record s { temporary = k }) (sym v.idle)

  taken_away :
      (content : List ℕ)
      → StoreInv p s
      → unplace
          (is_none (find (file_named (p.sha256 content)) s.files)
            && is_none
                (find (has_digest (p.sha256 content)) (insert_model model_row s.catalog).artifacts))
          (p.sha256 content)
          (placed content)
        ≡ s
  taken_away content v =
      unplace-place p s (p.sha256 content) content (insert_model model_row s.catalog).artifacts v
        (ap (λ (c : Catalog). c.artifacts) (insert_model-rest model_row s.catalog))

  placed_rest :
      (content : List ℕ) (c : Catalog)
      → record (placed content) { catalog = c; temporary = none }
        ≡ record s { catalog = c; files = (placed content).files; temporary = none }
  placed_rest content c = refl

  staged-Ending :
      (commits : Bool) (content : List ℕ) (size : ℕ)
      → StoreInv p s
      → StagedAs content size
      → Ending (
          report p (p.strip name) (
            register_staged p name content size version description metadata now commits
              (record s { temporary = some content })))
  unfolding register_staged
  staged-Ending commits content size v h =
      elim (Result-cases (write_version (version_row content) metadata (prepared content size))) [
        | inr (c, e) ↦ elim (Bool-cases commits) [
          | inl done ↦ committed (record {
            content = content;
            size = size;
            catalog = c;
            source = h;
            written = write_version_ok (version_row content) metadata (prepared content size) e;
            result = rw (e, done);
          })
          | inr fails ↦ unchanged commit_error (
              rw (e, fails)
                (ap (λ t. (err commit_error, t)) (back_to_start _ v (taken_away content v))))
        ]
        | inl (x, e) ↦
            elim (write_version_err (version_row content) metadata (prepared content size) x e) [
              | inl t ↦ littered (record {
                content = content;
                size = size;
                source = h;
                error = x;
                refused = t;
                result =
                    rw
                      (
                        e,
                        conclude_litter commits _ (p.sha256 content) assigned (p.strip name)
                            (placed content) x t,
                      )
                      (ap
                        (λ (c : Catalog). (
                          err x,
                          record s {
                            catalog = c;
                            files = (placed content).files;
                            temporary = none;
                          },
                        ))
                        (place-catalog (p.sha256 content) content
                          (record s { temporary = some content })));
              })
              | inr i ↦ unchanged (duplicate_version assigned (p.strip name)) (
                  rw (e, i)
                    (ap (λ t. (err (duplicate_version assigned (p.strip name)), t))
                      (back_to_start _ v (taken_away content v))))
            ]
      ]

  pub register-Ending :
      (commits : Bool)
      → StoreInv p s
      → Ending (register p limit name chunks version description metadata now commits s)
  unfolding register
  register-Ending commits v = elim (stage_cases v) [
    | inl (x, e) ↦ unchanged x (rw e)
    | inr (content, size, h) ↦ rw h.staged (staged-Ending commits content size v h)
  ]

  pub register-commits :
      (content : List ℕ) (size : ℕ) (c : Catalog)
      → StagedAs content size
      → write_version (version_row content) metadata (prepared content size) ≡ ok c
      → register p limit name chunks version description metadata now true s ≡ (
        get p (p.strip name) assigned c,
        record s { catalog = c; files = (placed content).files; temporary = none },
      )
  unfolding register register_staged
  register-commits content size c h e = rw (h.staged, e) refl

  artifacts_same : (insert_model model_row s.catalog).artifacts ≡ s.catalog.artifacts
  artifacts_same = ap (λ (c : Catalog). c.artifacts) (insert_model-rest model_row s.catalog)

  pub prepared_rest :
      (content : List ℕ) (size : ℕ)
      → prepared content size ≡ record s.catalog {
        models = (insert_model model_row s.catalog).models;
        artifacts = (prepared content size).artifacts;
      }
  prepared_rest content size =
      insert_artifact-rest (p.sha256 content) size (insert_model model_row s.catalog)
      ∙ ap (λ (c : Catalog). record c { artifacts = (prepared content size).artifacts })
          (insert_model-rest model_row s.catalog)

  pub artifact_added :
      (content : List ℕ) (size : ℕ)
      → ltb 0 size ≡ true
      → MaybeAdded
          (has_digest (p.sha256 content))
          (record { digest = p.sha256 content; storage_key = p.sha256 content; size = size })
          s.catalog.artifacts
          (prepared content size).artifacts
  artifact_added content size h =
      subst
        (λ (l : List ArtifactRow).
          MaybeAdded (has_digest (p.sha256 content)) _ l (prepared content size).artifacts)
        artifacts_same
        (insert_artifact-added (p.sha256 content) size (insert_model model_row s.catalog) h)

  pub file_added :
      (content : List ℕ)
      → MaybeAdded
          (file_named (p.sha256 content))
          (record { name = p.sha256 content; content = content })
          s.files
          (placed content).files
  file_added content =
      place-added (p.sha256 content) content (record s { temporary = some content })

  -- The row of the new version, as it stands in the catalog.
  abbrev pub stored_row : List ℕ → Fields → VersionRow
  stored_row content json = record (version_row content) { metadata_json = json }

  pub Committed-catalog :
      (r : Result ModelVersion × Store) (h : Committed r)
      → h.catalog ≡ record s.catalog {
        models = (insert_model model_row s.catalog).models;
        artifacts = (prepared h.content h.size).artifacts;
        versions = s.catalog.versions ++ stored_row h.content h.written.metadata_json ∷ [];
      }
  Committed-catalog r h =
      h.written.after
      ∙ ap
          (λ (c : Catalog). record c {
            versions = c.versions ++ stored_row h.content h.written.metadata_json ∷ [];
          })
          (prepared_rest h.content h.size)

  -- The store after a registration satisfies the invariant.
  pub ending-StoreInv : (r : Result ModelVersion × Store) → StoreInv p s → Ending r → StoreInv p r.1
  ending-StoreInv r v (unchanged x e) =
      subst (λ (q : Result ModelVersion × Store). StoreInv p q.1) (sym e) v
  ending-StoreInv r v (littered h) =
      subst (λ (q : Result ModelVersion × Store). StoreInv p q.1) (sym h.result)
        (record {
          model_key = v.model_key;
          artifact_key = v.artifact_key;
          version_key = v.version_key;
          one_active = v.one_active;
          references = v.references;
          used = v.used;
          stored =
              All-map (λ a. 0 < count (file_named a.digest) s.files) _ s.catalog.artifacts
                (λ a k. omega (
                  arith,
                  k,
                  added-grows (file_named (p.sha256 h.content)) _ s.files _ (file_added h.content)
                      (file_named a.digest),
                ))
                v.stored;
          activated = v.activated;
          file_key = λ d.
              added-key (file_named (p.sha256 h.content)) _ s.files _ (file_added h.content)
                (file_named d) (λ e. rw ((eq_iff (p.sha256 h.content) d).0 e) refl) (v.file_key d);
          file_digest =
              added-All (file_named (p.sha256 h.content)) _ s.files _ (file_added h.content)
                (λ g. p.sha256 g.content ≡ g.name) v.file_digest refl;
          idle = refl;
        })
  ending-StoreInv r v (committed h) =
      subst (λ (q : Result ModelVersion × Store). StoreInv p q.1) (sym h.result)
        (subst
          (λ (c : Catalog).
            StoreInv p (record { catalog = c; files = (placed h.content).files; temporary = none }))
          (sym (Committed-catalog r h))
          (registered-StoreInv p s model_row
            (record {
              digest = p.sha256 h.content;
              storage_key = p.sha256 h.content;
              size = h.size;
            })
            (record { name = p.sha256 h.content; content = h.content })
            (stored_row h.content h.written.metadata_json) (insert_model model_row s.catalog).models
            (prepared h.content h.size).artifacts (placed h.content).files v
            (insert_model-added model_row s.catalog)
            (artifact_added h.content h.size h.source.upload.filled) (file_added h.content) refl
            refl refl refl refl h.written.positive
            (subst
              (λ (c : Catalog). count (has_version (normalize_name p name) assigned) c.versions ≡ 0)
              (prepared_rest h.content h.size) h.written.free)))
