-- ===== src/ModelStore/Invariant/Activated.antt =====
-- Activation: the invariant of the store, and what the store answers afterwards.
use ia_dev_lab.Base.{
  ℕ, ◌+◌, ◌≤◌, ◌<◌, String, Bool, true, ◌≡◌, refl, sym, ap, subst, ◌∙◌, inl, inr, List, [], ◌∷◌,
  arith, eq_iff, eq_refl, ◌==◌, string_equality, nat_equality, All, All-append, All-map, All-update,
  Elem, here, there, select, update, count, count_keep, count_pos, Bool-cases,
}
use ia_dev_lab.ModelStore.Schema.{
  Platform, LifecycleStatus, VersionRow, Catalog, Store, of_model, has_version, active_of,
}
use ia_dev_lab.ModelStore.Activate.{set_status, switch}
use ia_dev_lab.ModelStore.Invariant.{VersionInv, StoreInv}

pub select_one :
    {A : Type 0} (q : A → Bool) (xs : List A) {r : A}
    → count q xs ≤ 1
    → Elem r xs
    → q r ≡ true
    → select q xs ≡ r ∷ []
unfolding count select
select_one q [] u m h = elim m [ ]
select_one q (x ∷ xs) {r} u (here e) h =
    rw (sym e, h) (ap (λ l. r ∷ l) (select_nothing xs (ground arith)))
  where
    select_nothing : (ys : List _) → count q ys ≡ 0 → select q ys ≡ []
    select_nothing [] z = refl
    select_nothing (y ∷ ys) z = ground (arith, select_nothing ys)
select_one q (x ∷ xs) {r} u (there m) h =
    ground
      (arith, count_pos q xs m h, select_one q xs {r = r} (ground (arith, count_pos q xs m h)) m h)

count-update-le :
    {A : Type 0} (p q : A → Bool) (f : A → A) (xs : List A)
    → count p (update q f xs) ≤ count p xs + count q xs
unfolding count update
count-update-le p q f [] = omega arith
count-update-le p q f (x ∷ xs) = ground (arith, count-update-le p q f xs)

module _ (n : String) (k now : ℕ) (c : Catalog) where
  abbrev deactivated : List VersionRow
  deactivated = update (active_of n) (set_status LifecycleStatus.registered) c.versions

  count_none_active :
      (vs : List VersionRow)
      → count (active_of n) (update (active_of n) (set_status LifecycleStatus.registered) vs) ≡ 0
  unfolding count update
  count_none_active [] = refl
  count_none_active (v ∷ vs) = ground (arith, count_none_active vs)

  -- A test that does not read the status.
  pub switch_keep :
      (q : VersionRow → Bool)
      → ((v : VersionRow) (st : LifecycleStatus) → q (set_status st v) ≡ q v)
      → count q (switch n k now c).versions ≡ count q c.versions
  unfolding switch
  switch_keep q h =
      count_keep q (has_version n k) (set_status LifecycleStatus.active) deactivated
        (λ v _. h v LifecycleStatus.active)
      ∙ count_keep q (active_of n) (set_status LifecycleStatus.registered) c.versions
          (λ v _. h v LifecycleStatus.registered)

  pub switch-one_active :
      (m : String)
      → count (has_version n k) c.versions ≤ 1
      → count (active_of m) c.versions ≤ 1
      → count (active_of m) (switch n k now c).versions ≤ 1
  unfolding switch
  switch-one_active m key u = elim (Bool-cases (m == n)) [
    | inl e ↦ rw ((eq_iff m n).0 e) (
        omega (
          arith,
          key,
          count_none_active c.versions,
          count-update-le (active_of n) (has_version n k) (set_status LifecycleStatus.active)
              deactivated,
          count_keep (has_version n k) (active_of n) (set_status LifecycleStatus.registered)
              c.versions (λ v _. refl),
        ))
    | inr e ↦
        rw
          (
            count_keep (active_of m) (has_version n k) (set_status LifecycleStatus.active)
                deactivated
                (λ v q.
                  ground
                    (arith, eq_iff v.normalized_name m, eq_iff v.normalized_name n, eq_refl n)),
            count_keep (active_of m) (active_of n) (set_status LifecycleStatus.registered)
                c.versions
                (λ v q.
                  ground
                    (arith, eq_iff v.normalized_name m, eq_iff v.normalized_name n, eq_refl n)),
          )
          u
  ]

  switched_references :
      (c' : Catalog)
      → c'.models ≡ c.models
      → c'.artifacts ≡ c.artifacts
      → All (VersionInv c) c.versions
      → All (VersionInv c') (switch n k now c).versions
  unfolding switch
  switched_references c' hm ha h =
      All-update (VersionInv c) (VersionInv c') (has_version n k)
        (set_status LifecycleStatus.active) deactivated (λ v _ i. moved v LifecycleStatus.active i)
        (λ v _ i. moved v v.status i)
        (All-update (VersionInv c) (VersionInv c) (active_of n)
          (set_status LifecycleStatus.registered) c.versions
          (λ v _ i. record { positive = i.positive; model = i.model; artifact = i.artifact })
          (λ v _ i. i) h)
    where
      moved :
          (v : VersionRow) (st : LifecycleStatus) → VersionInv c v → VersionInv c' (set_status st v)
      moved v st i = record {
        positive = i.positive;
        model = rw hm i.model;
        artifact = rw ha i.artifact;
      }

  pub switch-StoreInv :
      (p : Platform) (s : Store)
      → s.catalog ≡ c
      → 0 < count (has_version n k) c.versions
      → StoreInv p s
      → StoreInv p (record s { catalog = switch n k now c })
  unfolding switch
  switch-StoreInv p s same present v =
      at_catalog (subst (λ (d : Catalog). StoreInv p (record s { catalog = d })) same v)
    where
      at_catalog :
          StoreInv p (record s { catalog = c })
          → StoreInv p (record s { catalog = switch n k now c })
      at_catalog w = record {
        model_key = w.model_key;
        artifact_key = w.artifact_key;
        version_key = λ m j. rw (switch_keep (has_version m j) (λ v st. refl)) (w.version_key m j);
        one_active = λ m. switch-one_active m (w.version_key n k) (w.one_active m);
        references = switched_references (switch n k now c) refl refl w.references;
        used =
            All-map (λ m. 0 < count (of_model m.normalized_name) c.versions) _ c.models
              (λ m h. rw (switch_keep (of_model m.normalized_name) (λ v st. refl)) h) w.used;
        stored = w.stored;
        activated =
            All-append
              (λ a. 0 < count (has_version a.normalized_name a.version) (switch n k now c).versions)
              c.activations _
              (All-map (λ a. 0 < count (has_version a.normalized_name a.version) c.versions) _
                c.activations
                (λ a h. rw (switch_keep (has_version a.normalized_name a.version) (λ v st. refl)) h)
                w.activated)
              (rw (switch_keep (has_version n k) (λ v st. refl)) present, tt);
        file_key = w.file_key;
        file_digest = w.file_digest;
        idle = w.idle;
      }
