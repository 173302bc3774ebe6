-- ===== src/ModelStore/Invariant/Registered.antt =====
-- A registration that commits keeps the invariant of the store, and one that does not, too.
use ia_dev_lab.Base.{
  ℕ, ◌≤◌, ◌<◌, String, Bool, true, ◌≡◌, refl, sym, inl, inr, none, some, List, [], ◌∷◌, ◌++◌, arith,
  eq_iff, eq_refl, string_equality, All-append, All-map, find, find-none, count, count-append,
  count-append_key, Option-cases, ok,
}
use ia_dev_lab.Json.{Fields, canonical_fields}
use ia_dev_lab.ModelStore.Schema.{
  Platform, LifecycleStatus, ModelRow, ArtifactRow, VersionRow, Catalog, File, Store, of_name,
  has_digest, of_model, has_version, active_of, file_named, insert_version, max_integer,
}
use ia_dev_lab.ModelStore.Register.{write_version}
use ia_dev_lab.ModelStore.Invariant.{VersionInv, StoreInv}
use ia_dev_lab.ModelStore.Invariant.Grows.{MaybeAdded, added-has, added-grows, added-key, added-All}

-- What an accepted `write_version` has found and done.
pub record Written (row : VersionRow) (metadata : Fields) (c c' : Catalog) : Type 0 where
  pub metadata_json : Fields
  pub dumped : canonical_fields metadata ≡ some metadata_json
  pub positive : 0 < row.version
  pub within : row.version ≤ max_integer
  pub free : count (has_version row.normalized_name row.version) c.versions ≡ 0
  pub after :
      c' ≡ record c { versions = c.versions ++ record row { metadata_json = metadata_json } ∷ [] }

pub write_version_ok :
    (row : VersionRow) (metadata : Fields) (c : Catalog) {c' : Catalog}
    → write_version row metadata c ≡ ok c'
    → Written row metadata c c'
unfolding write_version insert_version
write_version_ok row metadata c {c'} h = elim (Option-cases (canonical_fields metadata)) [
  | inl e ↦ absurd (ground arith)
  | inr (json, e) ↦
      elim (Option-cases (find (has_version row.normalized_name row.version) c.versions)) [
        | inr (v, f) ↦ absurd (ground arith)
        | inl f ↦ record {
          metadata_json = json;
          dumped = e;
          positive = ground arith;
          within = ground arith;
          free = find-none (has_version row.normalized_name row.version) c.versions f;
          after = ground arith;
        }
      ]
]

module _ (p : Platform) (s : Store) (m : ModelRow) (a : ArtifactRow) (f : File) (row : VersionRow)
    (models' : List ModelRow) (artifacts' : List ArtifactRow) (files' : List File)
    (v : StoreInv p s) (hm : MaybeAdded (of_name m.normalized_name) m s.catalog.models models')
    (ha : MaybeAdded (has_digest a.digest) a s.catalog.artifacts artifacts')
    (hf : MaybeAdded (file_named f.name) f s.files files')
    (same_name : row.normalized_name ≡ m.normalized_name)
    (same_digest : row.artifact_digest ≡ a.digest) (same_file : f.name ≡ a.digest)
    (digest : p.sha256 f.content ≡ f.name) (registered : row.status ≡ LifecycleStatus.registered)
    (positive : 0 < row.version)
    (free : count (has_version row.normalized_name row.version) s.catalog.versions ≡ 0) where
  abbrev versions' : List VersionRow
  versions' = s.catalog.versions ++ row ∷ []

  abbrev pub catalog' : Catalog
  catalog' = record {
    models = models';
    artifacts = artifacts';
    versions = versions';
    activations = s.catalog.activations;
  }

  versions-grow : (q : VersionRow → Bool) → count q s.catalog.versions ≤ count q versions'
  versions-grow q = omega (arith, count-append q s.catalog.versions (row ∷ []))

  new_version-counted : (q : VersionRow → Bool) → q row ≡ true → 0 < count q versions'
  unfolding count
  new_version-counted q e = ground (arith, count-append q s.catalog.versions (row ∷ []))

  version_key' : (n : String) (k : ℕ) → count (has_version n k) versions' ≤ 1
  version_key' n k =
      count-append_key (has_version n k) s.catalog.versions row (v.version_key n k)
        (λ e. ground (arith, eq_iff row.normalized_name n, free))

  one_active' : (n : String) → count (active_of n) versions' ≤ 1
  one_active' n =
      count-append_key (active_of n) s.catalog.versions row (v.one_active n)
        (λ e. absurd (ground arith))

  pub registered-StoreInv :
      StoreInv p (record { catalog = catalog'; files = files'; temporary = none })
  registered-StoreInv = record {
    model_key = λ n.
        added-key (of_name m.normalized_name) m s.catalog.models models' hm (of_name n)
          (λ e. rw ((eq_iff m.normalized_name n).0 e) refl) (v.model_key n);
    artifact_key = λ d.
        added-key (has_digest a.digest) a s.catalog.artifacts artifacts' ha (has_digest d)
          (λ e. rw ((eq_iff a.digest d).0 e) refl) (v.artifact_key d);
    version_key = version_key';
    one_active = one_active';
    references =
        All-append (VersionInv catalog') s.catalog.versions (row ∷ [])
          (All-map (VersionInv s.catalog) (VersionInv catalog') s.catalog.versions
            (λ w h. record {
              positive = h.positive;
              model = omega (
                arith,
                h.model,
                added-grows (of_name m.normalized_name) m s.catalog.models models' hm
                    (of_name w.normalized_name),
              );
              artifact = omega (
                arith,
                h.artifact,
                added-grows (has_digest a.digest) a s.catalog.artifacts artifacts' ha
                    (has_digest w.artifact_digest),
              );
            })
            v.references)
          (
            record {
              positive = positive;
              model = rw same_name (
                  added-has (of_name m.normalized_name) m s.catalog.models models' hm
                    (eq_refl m.normalized_name));
              artifact = rw same_digest (
                  added-has (has_digest a.digest) a s.catalog.artifacts artifacts' ha
                    (eq_refl a.digest));
            },
            tt,
          );
    used =
        added-All (of_name m.normalized_name) m s.catalog.models models' hm
          (λ m. 0 < count (of_model m.normalized_name) versions')
          (All-map (λ m. 0 < count (of_model m.normalized_name) s.catalog.versions) _
            s.catalog.models (λ m h. omega (arith, h, versions-grow (of_model m.normalized_name)))
            v.used)
          (new_version-counted (of_model m.normalized_name)
            ((eq_iff row.normalized_name m.normalized_name).1 same_name));
    stored =
        added-All (has_digest a.digest) a s.catalog.artifacts artifacts' ha
          (λ a. 0 < count (file_named a.digest) files')
          (All-map (λ a. 0 < count (file_named a.digest) s.files) _ s.catalog.artifacts
            (λ b h.
              omega (
                arith,
                h,
                added-grows (file_named f.name) f s.files files' hf (file_named b.digest),
              ))
            v.stored)
          (rw (sym same_file) (added-has (file_named f.name) f s.files files' hf (eq_refl f.name)));
    activated =
        All-map (λ b. 0 < count (has_version b.normalized_name b.version) s.catalog.versions) _
          s.catalog.activations
          (λ b h. omega (arith, h, versions-grow (has_version b.normalized_name b.version)))
          v.activated;
    file_key = λ d.
        added-key (file_named f.name) f s.files files' hf (file_named d)
          (λ e. rw ((eq_iff f.name d).0 e) refl) (v.file_key d);
    file_digest =
        added-All (file_named f.name) f s.files files' hf (λ g. p.sha256 g.content ≡ g.name)
          v.file_digest digest;
    idle = refl;
  }
