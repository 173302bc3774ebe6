-- ===== src/ModelStore/Activate/Outcome.antt =====
-- What `activate` returns, and what the store answers afterwards.
use ia_dev_lab.Base.{
  ℕ, ◌<◌, String, Bool, true, ◌≡◌, refl, ap, subst, inl, inr, none, some, List, [], ◌∷◌, ◌++◌,
  arith, eq_iff, eq_refl, ◌==◌, string_equality, nat_equality, All-Elem, Elem, Elem-update, find,
  find-none, find-Elem, find_test, select, update, count, Option-cases, Bool-cases, ok,
}
use ia_dev_lab.ModelStore.Schema.{
  Platform, LifecycleStatus, ModelRow, ArtifactRow, VersionRow, ActivationRow, Catalog, Store,
  of_name, has_digest, has_version, active_of,
}
use ia_dev_lab.ModelStore.Reads.{
  normalize_name, row_to_version, join, join_all, first, get, resolve, activation_record,
  activation_records, activation_history,
}
use ia_dev_lab.ModelStore.Activate.{set_status, switch, activate}
use ia_dev_lab.ModelStore.Invariant.{VersionInv, StoreInv}
use ia_dev_lab.ModelStore.Invariant.Activated.{select_one, switch-StoreInv}
use ia_dev_lab.ModelStore.Invariant.Grows.{find-some-count}

-- A counted row can be found.
pub count-find :
    {A : Type 0} (q : A → Bool) (xs : List A) → 0 < count q xs → (r : A) × (find q xs ≡ some r)
count-find q xs h = elim (Option-cases (find q xs)) [
  | inl e ↦ absurd (omega (arith, h, find-none q xs e))
  | inr (r, e) ↦ (r, e)
]

pub join_found :
    (c : Catalog) (v : VersionRow) (m : ModelRow) (a : ArtifactRow)
    → find (of_name v.normalized_name) c.models ≡ some m
    → find (has_digest v.artifact_digest) c.artifacts ≡ some a
    → join_all c (v ∷ []) ≡ row_to_version v m a ∷ []
unfolding join join_all
join_found c v m a h k = rw (h, join_all, k)

-- The history with one more record of the model.
history_more :
    (c c' : Catalog) (m : ModelRow) (a : ActivationRow) (acts : List ActivationRow)
    → c'.models ≡ c.models
    → find (of_name a.normalized_name) c.models ≡ some m
    → activation_records c'
        (select (λ (b : ActivationRow). b.normalized_name == a.normalized_name) (acts ++ a ∷ []))
      ≡ activation_records c
          (select (λ (b : ActivationRow). b.normalized_name == a.normalized_name) acts)
        ++ record { model_name = m.name; version = a.version; activated_at = a.activated_at } ∷ []
unfolding activation_records select
history_more c c' m a [] same h = rw (eq_refl a.normalized_name, same, h, activation_record)
history_more c c' m a (b ∷ acts) same h =
    elim (Bool-cases (b.normalized_name == a.normalized_name)) [
      | inr e ↦ rw e (history_more c c' m a acts same h)
      | inl e ↦ elim (Option-cases (find (of_name b.normalized_name) c.models)) [
        | inl n ↦ rw (e, same, n, activation_record) (history_more c c' m a acts same h)
        | inr (r, n) ↦
            rw (e, same, n, activation_record)
              (ap
                (λ l.
                  record { model_name = r.name; version = b.version; activated_at = b.activated_at }
                  ∷ l)
                (history_more c c' m a acts same h))
      ]
    ]

-- The row of the version after the two UPDATEs.
switched_row :
    (n : String) (k now : ℕ) (c : Catalog) (row : VersionRow)
    → Elem row c.versions
    → has_version n k row ≡ true
    → Elem (set_status LifecycleStatus.active row) (switch n k now c).versions
unfolding switch
switched_row n k now c row m h = elim (Bool-cases (active_of n row)) [
  | inl e ↦
      subst (λ (r : VersionRow). Elem r (switch n k now c).versions) (rw h refl)
        (Elem-update (has_version n k) (set_status LifecycleStatus.active) _
          {r = set_status LifecycleStatus.registered row}
          (subst
            (λ (r : VersionRow).
              Elem r (update (active_of n) (set_status LifecycleStatus.registered) c.versions))
            (rw e refl)
            (Elem-update (active_of n) (set_status LifecycleStatus.registered) c.versions m)))
  | inr e ↦
      subst (λ (r : VersionRow). Elem r (switch n k now c).versions) (rw h refl)
        (Elem-update (has_version n k) (set_status LifecycleStatus.active) _ {r = row} (
          subst
            (λ (r : VersionRow).
              Elem r (update (active_of n) (set_status LifecycleStatus.registered) c.versions))
            (rw e refl)
            (Elem-update (active_of n) (set_status LifecycleStatus.registered) c.versions m)))
]

version_name :
    (n : String) (k : ℕ) (v : VersionRow) → has_version n k v ≡ true → v.normalized_name ≡ n
version_name n k v h = (eq_iff v.normalized_name n).0 (ground arith)

active_version :
    (n : String) (k : ℕ) (v : VersionRow)
    → has_version n k v ≡ true
    → active_of n (set_status LifecycleStatus.active v) ≡ true
active_version n k v h = ground arith

-- The answers after `activate` has taken the version `row`.
pub record Selected (p : Platform) (name : String) (k now : ℕ) (c : Catalog) (row : VersionRow)
    : Type 0 where
  pub model : ModelRow
  pub artifact : ArtifactRow
  pub model_found : find (of_name row.normalized_name) c.models ≡ some model
  pub artifact_found : find (has_digest row.artifact_digest) c.artifacts ≡ some artifact
  pub returned :
      (activate p name k now c).0
      ≡ ok (row_to_version (set_status LifecycleStatus.active row) model artifact)
  pub resolved :
      resolve p name none (activate p name k now c).1
      ≡ ok (row_to_version (set_status LifecycleStatus.active row) model artifact)
  pub recorded :
      activation_history p name (activate p name k now c).1
      ≡ activation_history p name c
        ++ record { model_name = model.name; version = k; activated_at = now } ∷ []

-- On a good store, activating a version that exists succeeds: it returns the version as active, the
-- model then resolves to that version when none is asked for, and the activation history of the model
-- has gained exactly this activation at its end.
pub activate-Selected :
    (p : Platform) (name : String) (k now : ℕ) (s : Store) (row : VersionRow)
    → StoreInv p s
    → find (has_version (normalize_name p name) k) s.catalog.versions ≡ some row
    → Selected p name k now s.catalog row
unfolding activate get resolve activation_history switch
activate-Selected p name k now s row v e = record {
  model = m;
  artifact = a;
  model_found = hm;
  artifact_found = ha;
  returned = rw (e, activate, picked) (ap (first _) (join_found after active_row m a hm ha));
  resolved = rw (e, activate, selected) (ap (first _) (join_found after active_row m a hm ha));
  recorded =
      rw (e, activate)
        (history_more s.catalog after m
          (record { normalized_name = n; version = k; activated_at = now }) s.catalog.activations
          refl (subst (λ (x : String). find (of_name x) s.catalog.models ≡ some m) id hm));
}
  where
    n : String
    n = normalize_name p name

    after : Catalog
    after = switch n k now s.catalog

    there : Elem row s.catalog.versions
    there = find-Elem (has_version n k) s.catalog.versions e

    test : has_version n k row ≡ true
    test = find_test (has_version n k) s.catalog.versions e

    id : row.normalized_name ≡ n
    id = version_name n k row test

    refs : VersionInv s.catalog row
    refs = All-Elem (VersionInv s.catalog) s.catalog.versions v.references there

    m : ModelRow
    m = (count-find (of_name row.normalized_name) s.catalog.models refs.model).0

    hm : find (of_name row.normalized_name) s.catalog.models ≡ some m
    hm = (count-find (of_name row.normalized_name) s.catalog.models refs.model).1

    a : ArtifactRow
    a = (count-find (has_digest row.artifact_digest) s.catalog.artifacts refs.artifact).0

    ha : find (has_digest row.artifact_digest) s.catalog.artifacts ≡ some a
    ha = (count-find (has_digest row.artifact_digest) s.catalog.artifacts refs.artifact).1

    active_row : VersionRow
    active_row = set_status LifecycleStatus.active row

    w : StoreInv p (record s { catalog = after })
    w =
        switch-StoreInv n k now s.catalog p s refl
          (find-some-count (has_version n k) s.catalog.versions e) v

    row_there : Elem active_row after.versions
    row_there = switched_row n k now s.catalog row there test

    picked : select (has_version n k) after.versions ≡ active_row ∷ []
    picked = select_one (has_version n k) after.versions (w.version_key n k) row_there test

    selected : select (active_of n) after.versions ≡ active_row ∷ []
    selected =
        select_one (active_of n) after.versions (w.one_active n) row_there
          (active_version n k row test)
