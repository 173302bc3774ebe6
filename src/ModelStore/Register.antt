-- ===== src/ModelStore/Register.antt =====
-- `register`, `_stage_artifact` and `_commit_registration` of src/model_store.py.
pub mod Outcome
use ia_dev_lab.Base.{
  ℕ, ◌+◌, String, Bool, true, false, ◌&&◌, not, Option, none, some, List, [], ◌∷◌, ◌++◌, length,
  ltb, leb, if◌then◌else◌, is_none, is_some, find, select, delete, Error, Result, ok, err, ◌>>=◌,
  or_raise, type_error, integrity_error, commit_error, invalid_registration, artifact_too_large,
  duplicate_version,
}
use ia_dev_lab.Json.{Fields, canonical_fields}
use ia_dev_lab.ModelStore.Schema.{
  Platform, LifecycleStatus, VersionRow, Catalog, File, Store, of_name, has_digest, of_model,
  has_version, file_named, insert_model, insert_artifact, insert_version,
}
use ia_dev_lab.ModelStore.Reads.{ModelVersion, normalize_name, get}

-- What one `artifact.read` gives: bytes, a non-empty object that is not bytes, or an exception. The
-- end of the list reads as b"".
pub data Chunk : Type 0 where
  bytes : List ℕ → Chunk
  not_bytes : Chunk
  unreadable : Chunk

abbrev pub no_bytes : List ℕ → Bool
no_bytes [] = true
no_bytes (b ∷ bs) = false

-- The loop of `_stage_artifact`: the bytes written so far, and `size`.
unfoldable pub write_chunks : ℕ → List Chunk → List ℕ → ℕ → Result (List ℕ × ℕ)
write_chunks limit [] written size = ok (written, size)
write_chunks limit (bytes b ∷ chunks) written size =
    let rest = write_chunks limit chunks (written ++ b) (size + length b) in
    if no_bytes b
    then ok (written, size)
    else if ltb limit (size + length b)
    then err (artifact_too_large limit)
    else rest
write_chunks limit (not_bytes ∷ chunks) written size =
    err (invalid_registration "Artifact content must be binary")
write_chunks limit (unreadable ∷ chunks) written size =
    err (invalid_registration "Artifact could not be read completely")

-- `if size == 0: raise ...`
abbrev pub require_content : List ℕ × ℕ → Result (List ℕ × ℕ)
require_content (content, size) =
    if ltb 0 size
    then ok (content, size)
    else err (invalid_registration "Model artifact content is required")

-- The temporary file stays when the upload was written whole, and is unlinked otherwise.
abbrev pub keep_temporary : Store → Result (List ℕ × ℕ) → Result (List ℕ × ℕ) × Store
keep_temporary s (ok (content, size)) = (ok (content, size), record s { temporary = some content })
keep_temporary s (err e) = (err e, record s { temporary = none })

unfoldable pub stage_artifact : ℕ → List Chunk → Store → Result (List ℕ × ℕ) × Store
unfolding write_chunks
stage_artifact limit chunks s =
    keep_temporary s (write_chunks limit chunks [] 0 >>= require_content)

-- `COALESCE(MAX(version), 0)`
unfoldable pub max_version : List VersionRow → ℕ
max_version [] = 0
max_version (v ∷ vs) = let rest = max_version vs in if ltb rest v.version then v.version else rest

unfoldable pub assign_version : Option ℕ → String → Catalog → ℕ
unfolding max_version
assign_version none name c = max_version (select (of_model name) c.versions) + 1
assign_version (some version) name c = version

-- The temporary file is unlinked where the final file exists, and moved there otherwise.
unfoldable pub place : String → List ℕ → Store → Store
place d content s =
    if is_some (find (file_named d) s.files) then record s { temporary = none } else record s {
      files = s.files ++ record { name = d; content = content } ∷ [];
      temporary = none;
    }

-- `if placed_new_artifact and artifact_exists is None: final_path.unlink(missing_ok=True)`
abbrev pub unplace : Bool → String → Store → Store
unplace remove d s = if remove then record s { files = delete (file_named d) s.files } else s

-- `json.dumps` of the metadata, which is read back by `json.loads`, and the INSERT of the version.
unfoldable pub write_version : VersionRow → Fields → Catalog → Result Catalog
unfolding insert_version
write_version row metadata c = do
  metadata_json ← or_raise (canonical_fields metadata) type_error
  insert_version (record row { metadata_json = metadata_json }) c

-- The handlers: the catalog is rolled back on every exception, the final file is unlinked on an
-- IntegrityError and on a commit that fails (`commits` is false). A TypeError of `json.dumps` and an
-- OverflowError of the binding are neither: the final file stays.
abbrev pub conclude :
    Bool → Bool → String → ℕ → String → Store → Result Catalog → Result (ℕ × Catalog) × Store
conclude commits remove d version display placed (ok c) =
    if commits
    then (ok (version, c), record placed { catalog = c })
    else (err commit_error, unplace remove d placed)
conclude commits remove d version display placed (err integrity_error) =
    (err (duplicate_version version display), unplace remove d placed)
conclude commits remove d version display placed (err e) = (err e, placed)

abbrev pub new_version : String → ℕ → String → ℕ → VersionRow
new_version name version d now = record {
  normalized_name = name;
  version = version;
  status = LifecycleStatus.registered;
  artifact_digest = d;
  metadata_json = Fields.end;
  created_at = now;
}

-- The transaction of `register` with its file operations; `s` holds the staged upload.
unfoldable pub register_staged :
    Platform
    → String
    → List ℕ
    → ℕ
    → Option ℕ
    → Option String
    → Fields
    → ℕ
    → Bool
    → Store
    → Result (ℕ × Catalog) × Store
unfolding insert_model insert_artifact assign_version place write_version
register_staged p name content size version description metadata now commits s =
    let d = p.sha256 content in
    let n = normalize_name p name in
    let c =
      insert_model
        (record {
          normalized_name = n;
          name = p.strip name;
          description = description;
          created_at = now;
        })
        s.catalog in
    let assigned = assign_version version n c in
    let remove =
      is_none (find (file_named d) s.files) && is_none (find (has_digest d) c.artifacts) in
    conclude commits remove d assigned (p.strip name) (place d content s)
      (write_version (new_version n assigned d now) metadata (insert_artifact d size c))

-- `return self.get(display_name, assigned_version)`, and the `finally` block.
abbrev pub report : Platform → String → Result (ℕ × Catalog) × Store → Result ModelVersion × Store
report p display (ok (version, c), s) = (get p display version c, record s { temporary = none })
report p display (err e, s) = (err e, record s { temporary = none })

abbrev pub register_after :
    Platform
    → String
    → Option ℕ
    → Option String
    → Fields
    → ℕ
    → Bool
    → Result (List ℕ × ℕ) × Store
    → Result ModelVersion × Store
register_after p name version description metadata now commits (err e, s) = (err e, s)
register_after p name version description metadata now commits (ok (content, size), s) =
    report p (p.strip name)
      (register_staged p name content size version description metadata now commits s)

unfoldable pub register :
    Platform
    → ℕ
    → String
    → List Chunk
    → Option ℕ
    → Option String
    → Fields
    → ℕ
    → Bool
    → Store
    → Result ModelVersion × Store
unfolding stage_artifact register_staged get
register p limit name chunks version description metadata now commits s =
    register_after p name version description metadata now commits (stage_artifact limit chunks s)
