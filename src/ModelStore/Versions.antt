-- ===== src/ModelStore/Versions.antt =====
-- The history of a model as `list_versions` gives it, and the number of its next version.
use ia_dev_lab.Base.{
  ℕ, ◌+◌, ◌≤◌, ◌<◌, String, Bool, ◌≡◌, ◌≢◌, refl, sym, ap, subst, ◌∙◌, inl, inr, none, some, List,
  [], ◌∷◌, map, arith, leb, eq_iff, All, All-map, All-select, All-Elem, find, find-Elem, find_test,
  select, count, Bool-cases, ok,
}
use ia_dev_lab.ModelStore.Schema.{
  Platform, ModelRow, VersionRow, Catalog, Store, of_name, has_digest, of_model, has_version,
}
use ia_dev_lab.ModelStore.Reads.{
  ModelVersion, normalize_name, join, join_all, insert_descending, descending, list_versions,
}
use ia_dev_lab.ModelStore.Register.{max_version, assign_version}
use ia_dev_lab.ModelStore.Activate.Outcome.{count-find}
use ia_dev_lab.ModelStore.Invariant.{VersionInv, StoreInv}

-- No number is above the one before.
abbrev pub Falling : List ℕ → Type 0
Falling [] = Unit
Falling (k ∷ ks) = All (λ j. j ≤ k) ks × Falling ks

abbrev numbers : List VersionRow → List ℕ
numbers vs = map (λ v. v.version) vs

insert-All :
    (k : ℕ) (v : VersionRow) (vs : List VersionRow)
    → v.version ≤ k
    → All (λ j. j ≤ k) (numbers vs)
    → All (λ j. j ≤ k) (numbers (insert_descending v vs))
unfolding insert_descending
insert-All k v [] h a = (h, tt)
insert-All k v (w ∷ ws) h a = elim (Bool-cases (leb w.version v.version)) [
  | inl e ↦ rw e (h, a)
  | inr e ↦ rw e (a.0, insert-All k v ws h a.1)
]

insert-Falling :
    (v : VersionRow) (vs : List VersionRow)
    → Falling (numbers vs)
    → Falling (numbers (insert_descending v vs))
unfolding insert_descending
insert-Falling v [] h = (tt, tt)
insert-Falling v (w ∷ ws) h = elim (Bool-cases (leb w.version v.version)) [
  | inl e ↦ rw e (
    (
      ground arith,
      All-map (λ j. j ≤ w.version) (λ j. j ≤ v.version) (numbers ws) (λ j k. ground arith) h.0,
    ),
    h,
  )
  | inr e ↦ rw e (insert-All w.version v ws (ground arith) h.0, insert-Falling v ws h.1)
]

descending-Falling : (vs : List VersionRow) → Falling (numbers (descending vs))
unfolding descending
descending-Falling [] = tt
descending-Falling (v ∷ vs) = insert-Falling v (descending vs) (descending-Falling vs)

count-insert_descending :
    (q : VersionRow → Bool) (v : VersionRow) (vs : List VersionRow)
    → count q (insert_descending v vs) ≡ count q (v ∷ vs)
unfolding count insert_descending
count-insert_descending q v [] = refl
count-insert_descending q v (w ∷ ws) = ground (arith, count-insert_descending q v ws)

count-descending :
    (q : VersionRow → Bool) (vs : List VersionRow) → count q (descending vs) ≡ count q vs
unfolding count descending
count-descending q [] = refl
count-descending q (v ∷ vs) =
    ground (arith, count-insert_descending q v (descending vs), count-descending q vs)

insert_descending-All :
    (P : VersionRow → Type 0) (v : VersionRow) (vs : List VersionRow)
    → P v
    → All P vs
    → All P (insert_descending v vs)
unfolding insert_descending
insert_descending-All P v [] h a = (h, tt)
insert_descending-All P v (w ∷ ws) h a = elim (Bool-cases (leb w.version v.version)) [
  | inl e ↦ rw e (h, a)
  | inr e ↦ rw e (a.0, insert_descending-All P v ws h a.1)
]

descending-All : (P : VersionRow → Type 0) (vs : List VersionRow) → All P vs → All P (descending vs)
unfolding descending
descending-All P [] a = tt
descending-All P (v ∷ vs) a =
    insert_descending-All P v (descending vs) a.0 (descending-All P vs a.1)

-- Every row with its references is in the join.
join_all-numbers :
    (c : Catalog) (vs : List VersionRow)
    → All (VersionInv c) vs
    → map (λ (r : ModelVersion). r.version) (join_all c vs) ≡ numbers vs
unfolding join_all join
join_all-numbers c [] h = refl
join_all-numbers c (v ∷ vs) h =
    let (m, hm) = count-find (of_name v.normalized_name) c.models h.0.model in
    let (a, ha) = count-find (has_digest v.artifact_digest) c.artifacts h.0.artifact in
    rw (hm, join_all, ha) (ap (λ l. v.version ∷ l) (join_all-numbers c vs h.1))

-- A good answer of `list_versions`.
pub record Listed (p : Platform) (name : String) (c : Catalog) (answer : List ModelVersion)
    : Type 0 where
  pub rows : List VersionRow
  pub numbered : map (λ (r : ModelVersion). r.version) answer ≡ map (λ v. v.version) rows
  pub falling : Falling (map (λ v. v.version) rows)
  pub complete :
      (q : VersionRow → Bool)
      → count q rows ≡ count q (select (of_model (normalize_name p name)) c.versions)
  pub filled : answer ≢ []

count-select_self :
    (q : VersionRow → Bool) (vs : List VersionRow) → count q (select q vs) ≡ count q vs
unfolding count select
count-select_self q [] = refl
count-select_self q (v ∷ vs) = ground (arith, count-select_self q vs)

numbers-none : (q : VersionRow → Bool) (vs : List VersionRow) → numbers vs ≡ [] → count q vs ≡ 0
unfolding count
numbers-none q [] h = refl
numbers-none q (v ∷ vs) h = absurd (ground arith)

-- On a good store, the history of a model that exists is given without an exception: all its versions,
-- each once, by falling number, and at least one of them.
pub list_versions-Listed :
    (p : Platform) (name : String) (s : Store) (m : ModelRow)
    → StoreInv p s
    → find (of_name (normalize_name p name)) s.catalog.models ≡ some m
    → (answer : List ModelVersion) × (list_versions p name s.catalog ≡ ok answer)
      × Listed p name s.catalog answer
unfolding list_versions
list_versions-Listed p name s m v e = (
  join_all c rows,
  rw (e, list_versions),
  record {
    rows = rows;
    numbered = numbered;
    falling = descending-Falling mine;
    complete = λ q. count-descending q mine;
    filled = λ none_left. absurd (
        omega (
          arith,
          numbers-none (of_model n) rows
              (sym numbered ∙ ap (map (λ (r : ModelVersion). r.version)) none_left),
          count-descending (of_model n) mine,
          count-select_self (of_model n) c.versions,
          used,
        ));
  },
)
  where
    c : Catalog
    c = s.catalog

    n : String
    n = normalize_name p name

    mine : List VersionRow
    mine = select (of_model n) c.versions

    rows : List VersionRow
    rows = descending mine

    numbered : map (λ (r : ModelVersion). r.version) (join_all c rows) ≡ numbers rows
    numbered = join_all-numbers c rows (
        descending-All (VersionInv c) mine
          (All-select (VersionInv c) (of_model n) c.versions v.references))

    used : 0 < count (of_model n) c.versions
    used =
        subst (λ (k : String). 0 < count (of_model k) c.versions)
          ((eq_iff m.normalized_name n).0 (find_test (of_name n) c.models e))
          (All-Elem (λ (r : ModelRow). 0 < count (of_model r.normalized_name) c.versions) c.models
            v.used (find-Elem (of_name n) c.models e))

max_version-All : (vs : List VersionRow) → All (λ v. v.version ≤ max_version vs) vs
unfolding max_version
max_version-All [] = tt
max_version-All (v ∷ vs) = (
  ground arith,
  All-map (λ w. w.version ≤ max_version vs) _ vs (λ w h. ground arith) (max_version-All vs),
)

above-free :
    (n : String) (k : ℕ) (vs : List VersionRow)
    → All (λ v. v.version < k) (select (of_model n) vs)
    → count (has_version n k) vs ≡ 0
unfolding count select
above-free n k [] h = refl
above-free n k (v ∷ vs) h = elim (Bool-cases (of_model n v)) [
  | inl e ↦ let h' = rw e at h in ground (arith, h'.0, above-free n k vs h'.1)
  | inr e ↦ let h' = rw e at h in ground (arith, above-free n k vs h')
]

-- The number that `register` assigns where none is given is positive, above every version of the
-- model, and taken by none of them.
pub assign_version-next :
    (n : String) (c : Catalog)
    → (0 < assign_version none n c)
      × All (λ v. v.version < assign_version none n c) (select (of_model n) c.versions)
      × (count (has_version n (assign_version none n c)) c.versions ≡ 0)
unfolding assign_version
assign_version-next n c =
    let above =
      All-map (λ v. v.version ≤ max_version mine) (λ v. v.version < max_version mine + 1) mine
        (λ v h. omega (arith, h)) (max_version-All mine) in
    (omega arith, above, above-free n (max_version mine + 1) c.versions above)
  where
    mine : List VersionRow
    mine = select (of_model n) c.versions
