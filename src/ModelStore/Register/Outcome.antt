-- ===== src/ModelStore/Register/Outcome.antt =====
-- What `register` returns: all or nothing.
use ia_dev_lab.Base.{
  Elem-last, find_absent, ℕ, ◌<◌, String, Bool, true, ◌≡◌, refl, sym, ap, subst, ◌∙◌, Option, none,
  some, List, [], ◌∷◌, ◌++◌, arith, eq_refl, ltb, string_equality, nat_equality, All-Elem, Elem,
  find, select, count, Error, Result, ok, err, ◌≤◌,
}
use ia_dev_lab.Json.{Fields, canonical_fields}
use ia_dev_lab.ModelStore.Schema.{
  Platform, ModelRow, ArtifactRow, VersionRow, Catalog, Store, of_name, has_digest, has_version,
  file_named, insert_version, insert_model, max_integer,
}
use ia_dev_lab.ModelStore.Reads.{ModelVersion, normalize_name, row_to_version, first, get}
use ia_dev_lab.ModelStore.Register.{Chunk, write_chunks, write_version, register}
use ia_dev_lab.ModelStore.Activate.Outcome.{count-find, join_found}
use ia_dev_lab.ModelStore.Invariant.Grows.{MaybeAdded, added-has, insert_model-added}
use ia_dev_lab.ModelStore.Invariant.{VersionInv, StoreInv}
use ia_dev_lab.ModelStore.Invariant.Activated.{select_one}
use ia_dev_lab.ModelStore.Invariant.Registration.{
  StagedAs, Committed, Littered, unchanged, littered, committed, register-Ending, ending-StoreInv,
  assigned, stored_row, Committed-catalog, prepared, version_row, placed, model_row, staged_as,
  register-commits, prepared_rest, artifact_added, file_added,
}

version_self : (v : VersionRow) → has_version v.normalized_name v.version v ≡ true
version_self v = ground (arith, eq_refl v.normalized_name)

-- An INSERT of a version that the constraints accept.
write_version-total :
    (row : VersionRow) (metadata json : Fields) (c : Catalog)
    → canonical_fields metadata ≡ some json
    → 0 < row.version
    → row.version ≤ max_integer
    → count (has_version row.normalized_name row.version) c.versions ≡ 0
    → 0 < count (of_name row.normalized_name) c.models
    → 0 < count (has_digest row.artifact_digest) c.artifacts
    → write_version row metadata c
      ≡ ok (record c { versions = c.versions ++ record row { metadata_json = json } ∷ [] })
unfolding write_version insert_version
write_version-total row metadata json c e z b f hm ha =
    let (m, m_found) = count-find (of_name row.normalized_name) c.models hm in
    let (a, a_found) = count-find (has_digest row.artifact_digest) c.artifacts ha in
    ground (
      arith,
      e,
      find_absent (has_version row.normalized_name row.version) c.versions f,
      m_found,
      a_found,
    )

-- `get` where the keys of the tables single out one row each.
pub get_one :
    (p : Platform) (name : String) (k : ℕ) (c : Catalog) (row : VersionRow) (m : ModelRow)
    (a : ArtifactRow)
    → select (has_version (normalize_name p name) k) c.versions ≡ row ∷ []
    → find (of_name row.normalized_name) c.models ≡ some m
    → find (has_digest row.artifact_digest) c.artifacts ≡ some a
    → get p name k c ≡ ok (row_to_version row m a)
unfolding get
get_one p name k c row m a h hm ha = rw h (ap (first _) (join_found c row m a hm ha))

module _ (p : Platform) (limit : ℕ) (name : String) (chunks : List Chunk) (version : Option ℕ)
    (description : Option String) (metadata : Fields) (now : ℕ) (commits : Bool) (s : Store)
    (strip_idem : p.strip (p.strip name) ≡ p.strip name) (v : StoreInv p s) where
  -- The version that the call has stored, as a reader gets it.
  pub record Stored (r : Result ModelVersion × Store)
      (h : Committed p limit name chunks version description metadata now s r) : Type 0 where
    pub model : ModelRow
    pub artifact : ArtifactRow
    pub in_models : find (of_name (normalize_name p name)) h.catalog.models ≡ some model
    pub in_artifacts : find (has_digest (p.sha256 h.content)) h.catalog.artifacts ≡ some artifact
    pub read :
        get p
          (p.strip name)
          (assigned p limit name chunks version description metadata now s)
          h.catalog
        ≡ ok (
            row_to_version
              (stored_row p limit name chunks version description metadata now s h.content
                h.written.metadata_json)
              model
              artifact)

  Committed-read :
      (r : Result ModelVersion × Store)
      (h : Committed p limit name chunks version description metadata now s r)
      → Stored r h
  Committed-read r h = record {
    model = m;
    artifact = a;
    in_models = hm;
    in_artifacts = ha;
    read = get_one p (p.strip name) row.version h.catalog row m a named hm ha;
  }
    where
      row : VersionRow
      row =
          stored_row p limit name chunks version description metadata now s h.content
            h.written.metadata_json

      w : StoreInv p (record s {
        catalog = h.catalog;
        files = (placed p limit name chunks version description metadata now s h.content).files;
        temporary = none;
      })
      w =
          subst (λ (q : Result ModelVersion × Store). StoreInv p q.1) h.result
            (ending-StoreInv p limit name chunks version description metadata now s r v
              (committed h))

      there' : Elem row h.catalog.versions
      there' =
          subst (λ (c : Catalog). Elem row c.versions)
            (sym (Committed-catalog p limit name chunks version description metadata now s r h))
            (Elem-last s.catalog.versions row)

      refs : VersionInv h.catalog row
      refs = All-Elem (VersionInv h.catalog) h.catalog.versions w.references there'

      picked : select (has_version row.normalized_name row.version) h.catalog.versions ≡ row ∷ []
      picked =
          select_one (has_version row.normalized_name row.version) h.catalog.versions
            (w.version_key row.normalized_name row.version) there' (version_self row)

      named :
          select (has_version (normalize_name p (p.strip name)) row.version) h.catalog.versions
          ≡ row ∷ []
      named =
          subst
            (λ (k : String).
              select (has_version (p.casefold k) row.version) h.catalog.versions ≡ row ∷ [])
            (sym strip_idem) picked

      m : ModelRow
      m = (count-find (of_name row.normalized_name) h.catalog.models refs.model).0

      hm : find (of_name row.normalized_name) h.catalog.models ≡ some m
      hm = (count-find (of_name row.normalized_name) h.catalog.models refs.model).1

      a : ArtifactRow
      a = (count-find (has_digest row.artifact_digest) h.catalog.artifacts refs.artifact).0

      ha : find (has_digest row.artifact_digest) h.catalog.artifacts ≡ some a
      ha = (count-find (has_digest row.artifact_digest) h.catalog.artifacts refs.artifact).1

  ok_err : {r : ModelVersion} {y : Error} → ◌≡◌ {A = Result ModelVersion} (ok r) (err y) → ⊥
  ok_err e = ground arith

  pub register_same :
      (x : Error)
      → (register p limit name chunks version description metadata now commits s).0 ≡ err x
      → (Littered p limit name chunks version description metadata now s
            (register p limit name chunks version description metadata now commits s)
          → ⊥)
      → (register p limit name chunks version description metadata now commits s).1 ≡ s
  register_same x h clean =
      elim (register-Ending p limit name chunks version description metadata now s commits v) [
        | unchanged y e ↦ ap (λ r. r.1) e
        | littered l ↦ absurd (clean l)
        | committed c ↦
            let st = Committed-read _ c in
            absurd (ok_err (sym (ap (λ r. r.0) c.result ∙ st.read) ∙ h))
      ]

  -- The answer to a registration that succeeds.
  pub record RegisteredAs (content : List ℕ) (size : ℕ) (json : Fields) : Type 0 where
    pub model : ModelRow
    pub artifact : ArtifactRow
    pub returned :
        (register p limit name chunks version description metadata now commits s).0
        ≡ ok (
            row_to_version
              (stored_row p limit name chunks version description metadata now s content json)
              model
              artifact)
    pub in_models :
        find
          (of_name (normalize_name p name))
          (register p limit name chunks version description metadata now commits s).1.catalog.models
        ≡ some model
    pub in_artifacts :
        find
          (has_digest (p.sha256 content))
          (register p limit name chunks version description metadata now commits
            s).1.catalog.artifacts
        ≡ some artifact
    pub models :
        MaybeAdded
          (of_name (normalize_name p name))
          (model_row p limit name chunks version description metadata now s)
          s.catalog.models
          (register p limit name chunks version description metadata now commits s).1.catalog.models
    pub artifacts :
        MaybeAdded
          (has_digest (p.sha256 content))
          (record { digest = p.sha256 content; storage_key = p.sha256 content; size = size })
          s.catalog.artifacts
          (register p limit name chunks version description metadata now commits
            s).1.catalog.artifacts
    pub activations :
        (register p limit name chunks version description metadata now commits
          s).1.catalog.activations
        ≡ s.catalog.activations
    pub versions :
        (register p limit name chunks version description metadata now commits s).1.catalog.versions
        ≡ s.catalog.versions
          ++ stored_row p limit name chunks version description metadata now s content json ∷ []
    pub in_file :
        0
        < count
            (file_named (p.sha256 content))
            (register p limit name chunks version description metadata now commits s).1.files

  -- On a good store, a registration succeeds where the upload is read whole, is not empty and is within
  -- the limit, the metadata can be written as JSON, the version is positive, below 2 ^ 63 and not taken,
  -- the commit goes through and `strip` does nothing more to a stripped name. It returns the version,
  -- registered and with the digest of the content, joined with the rows of its model and its artifact.
  -- The catalog gains exactly the row of the version, that of the model where none had its name, and
  -- that of the artifact where none had its digest; the activations stay; and the content has a file.
  pub register-total :
      (content : List ℕ) (size : ℕ) (json : Fields)
      → write_chunks limit chunks [] 0 ≡ ok (content, size)
      → ltb 0 size ≡ true
      → canonical_fields metadata ≡ some json
      → commits ≡ true
      → 0 < assigned p limit name chunks version description metadata now s
      → assigned p limit name chunks version description metadata now s ≤ max_integer
      → count
          (has_version
            (normalize_name p name)
            (assigned p limit name chunks version description metadata now s))
          s.catalog.versions
        ≡ 0
      → RegisteredAs content size json
  register-total content size json e z dumps commit positive within free = record {
    model = (Committed-read _ h).model;
    artifact = (Committed-read _ h).artifact;
    returned = ap (λ r. r.0) result ∙ (Committed-read _ h).read;
    in_models =
        ap (λ r. find (of_name (normalize_name p name)) r.1.catalog.models) result
        ∙ (Committed-read _ h).in_models;
    in_artifacts =
        ap (λ r. find (has_digest (p.sha256 content)) r.1.catalog.artifacts) result
        ∙ (Committed-read _ h).in_artifacts;
    models =
        subst
          (λ (l : List ModelRow).
            MaybeAdded (of_name (normalize_name p name))
              (model_row p limit name chunks version description metadata now s) s.catalog.models l)
          (sym (ap (λ r. r.1.catalog.models) result ∙ ap (λ (d : Catalog). d.models) kept))
          (insert_model-added (model_row p limit name chunks version description metadata now s)
            s.catalog);
    artifacts =
        subst
          (λ (l : List ArtifactRow).
            MaybeAdded (has_digest (p.sha256 content))
              (record { digest = p.sha256 content; storage_key = p.sha256 content; size = size })
              s.catalog.artifacts l)
          (sym (ap (λ r. r.1.catalog.artifacts) result ∙ ap (λ (d : Catalog). d.artifacts) kept))
          (artifact_added p limit name chunks version description metadata now s content size z);
    activations =
        ap (λ r. r.1.catalog.activations) result ∙ ap (λ (d : Catalog). d.activations) kept;
    versions = ap (λ r. r.1.catalog.versions) result ∙ ap (λ (d : Catalog). d.versions) kept;
    in_file =
        subst
          (λ (r : Result ModelVersion × Store). 0 < count (file_named (p.sha256 content)) r.1.files)
          (sym result)
          (added-has (file_named (p.sha256 content)) _ s.files _
            (file_added p limit name chunks version description metadata now s content)
            (eq_refl (p.sha256 content)));
  }
    where
      c : Catalog
      c = prepared p limit name chunks version description metadata now s content size

      source : StagedAs p limit name chunks version description metadata now s content size
      source = staged_as p limit name chunks version description metadata now s content size e z

      free' :
          count
            (has_version
              (normalize_name p name)
              (assigned p limit name chunks version description metadata now s))
            c.versions
          ≡ 0
      free' =
          subst
            (λ (d : Catalog).
              count
                (has_version (normalize_name p name)
                  (assigned p limit name chunks version description metadata now s))
                d.versions
              ≡ 0)
            (sym
              (prepared_rest p limit name chunks version description metadata now s content size))
            free

      hm : 0 < count (of_name (normalize_name p name)) c.models
      hm =
          subst (λ (d : Catalog). 0 < count (of_name (normalize_name p name)) d.models)
            (sym
              (prepared_rest p limit name chunks version description metadata now s content size))
            (added-has (of_name (normalize_name p name))
              (model_row p limit name chunks version description metadata now s) s.catalog.models _
              (insert_model-added (model_row p limit name chunks version description metadata now s)
                s.catalog)
              (eq_refl (normalize_name p name)))

      ha : 0 < count (has_digest (p.sha256 content)) c.artifacts
      ha =
          added-has (has_digest (p.sha256 content)) _ s.catalog.artifacts _
            (artifact_added p limit name chunks version description metadata now s content size z)
            (eq_refl (p.sha256 content))

      after : Catalog
      after = record c {
        versions =
            c.versions
            ++ stored_row p limit name chunks version description metadata now s content json ∷ [];
      }

      result : register p limit name chunks version description metadata now commits s ≡ (
        get p
            (p.strip name)
            (assigned p limit name chunks version description metadata now s)
            after,
        record s {
          catalog = after;
          files = (placed p limit name chunks version description metadata now s content).files;
          temporary = none;
        },
      )
      result =
          ap (λ b. register p limit name chunks version description metadata now b s) commit
          ∙ register-commits p limit name chunks version description metadata now s content size
              after source
              (write_version-total
                (version_row p limit name chunks version description metadata now s content)
                metadata json c dumps positive within free' hm ha)

      h :
          Committed p limit name chunks version description metadata now s
            (register p limit name chunks version description metadata now commits s)
      h = record {
        content = content;
        size = size;
        catalog = after;
        source = source;
        written = record {
          metadata_json = json;
          dumped = dumps;
          positive = positive;
          within = within;
          free = free';
          after = refl;
        };
        result = result;
      }

      kept : h.catalog ≡ record s.catalog {
        models =
            (insert_model
              (model_row p limit name chunks version description metadata now s)
              s.catalog).models;
        artifacts =
            (prepared p limit name chunks version description metadata now s content
              size).artifacts;
        versions =
            s.catalog.versions
            ++ stored_row p limit name chunks version description metadata now s content json ∷ [];
      }
      kept = Committed-catalog p limit name chunks version description metadata now s _ h
