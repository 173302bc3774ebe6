-- ===== src/ModelStore/Steps.antt =====
-- Histories of registrations and activations, and what they keep.
use ia_dev_lab.Base.{
  ℕ, String, Bool, refl, sym, subst, inl, inr, Option, none, List, [], ◌∷◌, arith, Elem,
  Elem-append, Elem-update, find, update, count, Option-cases, Bool-cases, Result,
}
use ia_dev_lab.Json.{Fields}
use ia_dev_lab.ModelStore.Schema.{
  Platform, LifecycleStatus, VersionRow, Catalog, File, Store, has_version, active_of,
}
use ia_dev_lab.ModelStore.Reads.{ModelVersion, normalize_name}
use ia_dev_lab.ModelStore.Register.{Chunk, register}
use ia_dev_lab.ModelStore.Activate.{set_status, switch, activate}
use ia_dev_lab.ModelStore.Invariant.{StoreInv}
use ia_dev_lab.ModelStore.Invariant.Grows.{MaybeAdded, find-some-count}
use ia_dev_lab.ModelStore.Invariant.Activated.{switch-StoreInv}
use ia_dev_lab.ModelStore.Invariant.Registration.{
  Ending, unchanged, littered, committed, register-Ending, ending-StoreInv, Committed-catalog,
  file_added,
}

pub data StoreCall : Type 0 where
  registers : String → List Chunk → Option ℕ → Option String → Fields → ℕ → Bool → StoreCall
  activates : String → ℕ → ℕ → StoreCall

unfoldable pub store_step : Platform → ℕ → Store → StoreCall → Store
store_step p limit s (registers name chunks version description metadata now commits) =
    (register p limit name chunks version description metadata now commits s).1
store_step p limit s (activates name version now) = record s {
  catalog = (activate p name version now s.catalog).1;
}

unfoldable pub store_run : Platform → ℕ → Store → List StoreCall → Store
unfolding store_step
store_run p limit s [] = s
store_run p limit s (c ∷ cs) = store_run p limit (store_step p limit s c) cs

-- `__init__` on a new database and an empty directory.
abbrev pub new_store : Store
new_store = record {
  catalog = record { models = []; artifacts = []; versions = []; activations = [] };
  files = [];
  temporary = none;
}

activate-StoreInv :
    (p : Platform) (name : String) (k now : ℕ) (s : Store)
    → StoreInv p s
    → StoreInv p (record s { catalog = (activate p name k now s.catalog).1 })
unfolding activate
activate-StoreInv p name k now s v =
    elim (Option-cases (find (has_version (normalize_name p name) k) s.catalog.versions)) [
      | inl e ↦ rw (e, activate) v
      | inr (row, e) ↦
          rw (e, activate)
            (switch-StoreInv (normalize_name p name) k now s.catalog p s refl
              (find-some-count (has_version (normalize_name p name) k) s.catalog.versions e) v)
    ]

pub store_step-StoreInv :
    (p : Platform) (limit : ℕ) (s : Store) (c : StoreCall)
    → StoreInv p s
    → StoreInv p (store_step p limit s c)
unfolding store_step
store_step-StoreInv p limit s (registers name chunks version description metadata now commits) v =
    ending-StoreInv p limit name chunks version description metadata now s _ v
      (register-Ending p limit name chunks version description metadata now s commits v)
store_step-StoreInv p limit s (activates name version now) v =
    activate-StoreInv p name version now s v

store_run-StoreInv :
    (p : Platform) (limit : ℕ) (s : Store) (cs : List StoreCall)
    → StoreInv p s
    → StoreInv p (store_run p limit s cs)
unfolding store_run
store_run-StoreInv p limit s [] v = v
store_run-StoreInv p limit s (c ∷ cs) v =
    store_run-StoreInv p limit (store_step p limit s c) cs (store_step-StoreInv p limit s c v)

new_store-StoreInv : (p : Platform) → StoreInv p new_store
unfolding count
new_store-StoreInv p = record {
  model_key = λ n. omega arith;
  artifact_key = λ d. omega arith;
  version_key = λ n k. omega arith;
  one_active = λ n. omega arith;
  references = tt;
  used = tt;
  stored = tt;
  activated = tt;
  file_key = λ d. omega arith;
  file_digest = tt;
  idle = refl;
}

-- After any history of registrations and activations from an empty store, whether they returned or
-- raised: model names, digests, (model, version) pairs and file names are unique, a model has at most
-- one active version and at least one version, versions are positive and refer to a model and an
-- artifact row, each artifact row has its file, each activation its version, every file bears the
-- digest of its content as its name, and no temporary file is left.
pub run-new_store-StoreInv :
    (p : Platform) (limit : ℕ) (cs : List StoreCall) → StoreInv p (store_run p limit new_store cs)
run-new_store-StoreInv p limit cs = store_run-StoreInv p limit new_store cs (new_store-StoreInv p)

-- A version row that differs in its status at most.
pub record Remains (vs : List VersionRow) (v : VersionRow) : Type 0 where
  pub status : LifecycleStatus
  pub there : Elem (set_status status v) vs

-- What a store keeps for ever: its versions but for their status, and its files.
pub record Keeps (s s' : Store) : Type 0 where
  pub versions : (v : VersionRow) → Elem v s.catalog.versions → Remains s'.catalog.versions v
  pub files : (f : File) → Elem f s.files → Elem f s'.files

same-Keeps : (s : Store) → Keeps s s
same-Keeps s = record {
  versions = λ v m. record { status = v.status; there = m };
  files = λ f m. m;
}

added-Elem :
    {A : Type 0} (q : A → Bool) (r : A) (xs ys : List A) {x : A}
    → MaybeAdded q r xs ys
    → Elem x xs
    → Elem x ys
added-Elem q r xs ys (inl (same, n)) m = rw same m
added-Elem q r xs ys (inr (more, z)) m = rw more (Elem-append xs (r ∷ []) m)

update-Remains :
    (q : VersionRow → Bool) (st : LifecycleStatus) (vs : List VersionRow) (v : VersionRow)
    → Remains vs v
    → Remains (update q (set_status st) vs) v
update-Remains q st vs v h = elim (Bool-cases (q (set_status h.status v))) [
  | inl e ↦ record {
    status = st;
    there =
        subst (λ (r : VersionRow). Elem r (update q (set_status st) vs)) (rw e refl)
          (Elem-update q (set_status st) vs h.there);
  }
  | inr e ↦ record {
    status = h.status;
    there =
        subst (λ (r : VersionRow). Elem r (update q (set_status st) vs)) (rw e refl)
          (Elem-update q (set_status st) vs h.there);
  }
]

activate-Keeps :
    (p : Platform) (name : String) (k now : ℕ) (s : Store)
    → Keeps s (record s { catalog = (activate p name k now s.catalog).1 })
unfolding activate switch
activate-Keeps p name k now s =
    elim (Option-cases (find (has_version (normalize_name p name) k) s.catalog.versions)) [
      | inl e ↦ rw (e, activate) (same-Keeps s)
      | inr (row, e) ↦
          rw (e, activate)
            (record {
              versions = λ v m.
                  update-Remains (has_version (normalize_name p name) k) LifecycleStatus.active _ v
                    (update-Remains (active_of (normalize_name p name)) LifecycleStatus.registered
                      s.catalog.versions v (record { status = v.status; there = m }));
              files = λ f m. m;
            })
    ]

register-Keeps :
    (p : Platform) (limit : ℕ) (name : String) (chunks : List Chunk) (version : Option ℕ)
    (description : Option String) (metadata : Fields) (now : ℕ) (s : Store)
    (r : Result ModelVersion × Store)
    → Ending p limit name chunks version description metadata now s r
    → Keeps s r.1
register-Keeps p limit name chunks version description metadata now s r (unchanged x e) =
    subst (λ (q : Result ModelVersion × Store). Keeps s q.1) (sym e) (same-Keeps s)
register-Keeps p limit name chunks version description metadata now s r (littered h) =
    subst (λ (q : Result ModelVersion × Store). Keeps s q.1) (sym h.result)
      (record {
        versions = λ v m. record { status = v.status; there = m };
        files = λ f m.
            added-Elem _ _ s.files _
              (file_added p limit name chunks version description metadata now s h.content) m;
      })
register-Keeps p limit name chunks version description metadata now s r (committed h) =
    subst (λ (q : Result ModelVersion × Store). Keeps s q.1) (sym h.result)
      (record {
        versions = λ v m. record {
          status = v.status;
          there =
              subst (λ (c : Catalog). Elem v c.versions)
                (sym (Committed-catalog p limit name chunks version description metadata now s r h))
                (Elem-append s.catalog.versions _ m);
        };
        files = λ f m.
            added-Elem _ _ s.files _
              (file_added p limit name chunks version description metadata now s h.content) m;
      })

store_step-Keeps :
    (p : Platform) (limit : ℕ) (s : Store) (c : StoreCall)
    → StoreInv p s
    → Keeps s (store_step p limit s c)
unfolding store_step
store_step-Keeps p limit s (registers name chunks version description metadata now commits) v =
    register-Keeps p limit name chunks version description metadata now s _
      (register-Ending p limit name chunks version description metadata now s commits v)
store_step-Keeps p limit s (activates name version now) v = activate-Keeps p name version now s

-- Versions are immutable: over any history of registrations and activations from a good store, every
-- version row is still there with its model, number, digest, metadata and creation time, only its
-- status may have changed, and every artifact file is still there with its content.
pub store_run-Keeps :
    (p : Platform) (limit : ℕ) (s : Store) (cs : List StoreCall)
    → StoreInv p s
    → Keeps s (store_run p limit s cs)
unfolding store_run
store_run-Keeps p limit s [] v = same-Keeps s
store_run-Keeps p limit s (c ∷ cs) v =
    let now = store_step-Keeps p limit s c v in
    let later =
      store_run-Keeps p limit (store_step p limit s c) cs (store_step-StoreInv p limit s c v) in
    record {
      versions = λ x m.
          let r = now.versions x m in
          let t = later.versions (set_status r.status x) r.there in
          record { status = t.status; there = t.there };
      files = λ f m. later.files f (now.files f m);
    }
