-- ===== src/Base/Keys.antt =====
-- Single rows of a table, keys, and what an INSERT, an UPDATE or a DELETE does to counts.
use Prim.Native.Nat.{◌+◌, ◌≤◌, ◌<◌}
use mathlib.Core.Path.{◌≡◌, refl, sym, ap, subst, ◌∙◌}
use mathlib.Core.Logic.{inl, inr}
use mathlib.Core.Bool.{Bool, true, false}
use mathlib.Core.Option.{none, some}
use mathlib.Core.List.{List, [], ◌∷◌, ◌++◌}
use native.Mathlib.Omega.{arith}
use ia_dev_lab.Base.Tests.{if◌then◌else◌, Bool-cases, Option-cases}
use ia_dev_lab.Base.Lists.{All}
use ia_dev_lab.Base.Rows.{
  find, find-none, find_test, find-update, select, update, count, both, count-update, count_mono,
  count-append, count-eq-zero, All-map,
}

-- An UPDATE that no row of the table notices.
pub count_keep_rows {ℓ} :
    {A : Type ℓ} (p q : A → Bool) (f : A → A) (xs : List A)
    → All (λ x. q x ≡ true → p (f x) ≡ p x) xs
    → count p (update q f xs) ≡ count p xs
unfolding count update
count_keep_rows p q f [] h = refl
count_keep_rows p q f (x ∷ xs) h = ground (arith, h.0, count_keep_rows p q f xs h.1)

-- A row of a table.
pub data Elem {ℓ} {A : Type ℓ} (r : A) : List A → Type ℓ where
  here : {x : A} {xs : List A} → r ≡ x → Elem r (x ∷ xs)
  there : {x : A} {xs : List A} → Elem r xs → Elem r (x ∷ xs)

module _ {ℓ} {A : Type ℓ} where
  -- An UPDATE that no row of the type notices.
  pub count_keep :
      (p q : A → Bool) (f : A → A) (xs : List A)
      → ((x : A) → q x ≡ true → p (f x) ≡ p x)
      → count p (update q f xs) ≡ count p xs
  unfolding count update
  count_keep p q f [] h = refl
  count_keep p q f (x ∷ xs) h = ground (arith, h x, count_keep p q f xs h)

  pub find-Elem : (q : A → Bool) (xs : List A) {r : A} → find q xs ≡ some r → Elem r xs
  unfolding find
  find-Elem q [] h = cc
  find-Elem q (x ∷ xs) {r} h = elim (Bool-cases (q x)) [
    | inl e ↦ here (ground arith)
    | inr e ↦ there (find-Elem q xs (ground arith))
  ]

  pub select-Elem :
      (q : A → Bool) (xs : List A) {r : A} → Elem r (select q xs) → Elem r xs × (q r ≡ true)
  unfolding select
  select-Elem q [] m = elim m [ ]
  select-Elem q (x ∷ xs) {r} m = elim (Bool-cases (q x)) [
    | inl e ↦ keep (λ h. select-Elem q xs h) e (rw e at m)
    | inr e ↦ let (m', t) = select-Elem q xs {r = r} (rw e at m) in (there m', t)
  ]
    where
      keep :
          (Elem r (select q xs) → Elem r xs × (q r ≡ true))
          → q x ≡ true
          → Elem r (x ∷ select q xs)
          → Elem r (x ∷ xs) × (q r ≡ true)
      keep rest e (here h) = (here h, rw h e)
      keep rest e (there h) = let (m', t) = rest h in (there m', t)

  pub count_pos : (q : A → Bool) (xs : List A) {r : A} → Elem r xs → q r ≡ true → 0 < count q xs
  unfolding count
  count_pos q [] m h = elim m [ ]
  count_pos q (x ∷ xs) (here e) h = ground arith
  count_pos q (x ∷ xs) (there m) h = ground (arith, count_pos q xs m h)

  -- Under a key, a row that has it is the only one.
  pub key_unique :
      (q : A → Bool) (xs : List A) {r : A}
      → count q xs ≤ 1
      → Elem r xs
      → q r ≡ true
      → All (λ x. q x ≡ true → x ≡ r) xs
  unfolding count
  key_unique q [] u m h = elim m [ ]
  key_unique q (x ∷ xs) {r} u (here e) h = (
    λ _. sym e,
    All-map (λ y. q y ≡ false) (λ y. q y ≡ true → y ≡ r) xs (λ y n p. cc)
        (count-eq-zero q xs (ground arith)),
  )
  key_unique q (x ∷ xs) {r} u (there m) h =
      (λ p. absurd (ground (arith, count_pos q xs m h)), key_unique q xs (ground arith) m h)

  pub All-Elem {κ} : (P : A → Type κ) (xs : List A) {r : A} → All P xs → Elem r xs → P r
  All-Elem P [] a m = elim m [ ]
  All-Elem P (x ∷ xs) a (here e) = subst P (sym e) a.0
  All-Elem P (x ∷ xs) a (there m) = All-Elem P xs a.1 m

  -- Under a key, an UPDATE of one row moves a count by what that row brings.
  count_only :
      (p q : A → Bool) (xs : List A) {r : A}
      → count q xs ≤ 1
      → Elem r xs
      → q r ≡ true
      → count (both q p) xs ≡ (if p r then 1 else 0)
  unfolding count
  count_only p q [] u m h = elim m [ ]
  count_only p q (x ∷ xs) {r} u (here e) h =
      rw e (ground (arith, count_mono (both q p) q xs (λ y t. ground arith), ap q e))
  count_only p q (x ∷ xs) {r} u (there m) h =
      ground (arith, count_pos q xs m h, count_only p q xs {r = r} (ground (arith)) m h)

  pub count-update_key :
      (p q : A → Bool) (f : A → A) (xs : List A) {r : A}
      → count q xs ≤ 1
      → Elem r xs
      → q r ≡ true
      → count p (update q f xs) + (if p r then 1 else 0) ≡ count p xs + (if p (f r) then 1 else 0)
  count-update_key p q f xs {r} u m h = omega (
    arith,
    count-update p q f xs,
    count_only p q xs {r = r} u m h,
    count_only (λ x. p (f x)) q xs {r = r} u m h,
  )

  -- An INSERT of a row whose key was free.
  pub count-append_key :
      (q : A → Bool) (xs : List A) (r : A)
      → count q xs ≤ 1
      → (q r ≡ true → count q xs ≡ 0)
      → count q (xs ++ r ∷ []) ≤ 1
  unfolding count
  count-append_key q xs r u free = ground (arith, count-append q xs (r ∷ []))

  -- A DELETE that spares every row of a test.
  pub count-select :
      (p q : A → Bool) (xs : List A)
      → All (λ x. p x ≡ true → q x ≡ true) xs
      → count p (select q xs) ≡ count p xs
  unfolding count select
  count-select p q [] h = refl
  count-select p q (x ∷ xs) h = ground (arith, h.0, count-select p q xs h.1)

  pub count-select-le : (p q : A → Bool) (xs : List A) → count p (select q xs) ≤ count p xs
  unfolding count select
  count-select-le p q [] = omega arith
  count-select-le p q (x ∷ xs) = ground (arith, count-select-le p q xs)

  pub Elem-select :
      (q : A → Bool) (xs : List A) {r : A} → Elem r xs → q r ≡ true → Elem r (select q xs)
  unfolding select
  Elem-select q [] m h = elim m [ ]
  Elem-select q (x ∷ xs) {r} (here e) h = rw (ap q (sym e) ∙ h) (here e)
  Elem-select q (x ∷ xs) {r} (there m) h = elim (Bool-cases (q x)) [
    | inl e ↦ rw e (there (Elem-select q xs m h))
    | inr e ↦ rw e (Elem-select q xs m h)
  ]

  pub each_row : (xs : List A) → All (λ x. Elem x xs) xs
  each_row [] = tt
  each_row (x ∷ xs) =
      (here refl, All-map (λ y. Elem y xs) (λ y. Elem y (x ∷ xs)) xs (λ y m. there m) (each_row xs))

  pub All-select_test {κ κ'} :
      (P : A → Type κ) (Q : A → Type κ') (q : A → Bool) (xs : List A)
      → ((x : A) → q x ≡ true → P x → Q x)
      → All P xs
      → All Q (select q xs)
  unfolding select
  All-select_test P Q q [] h a = tt
  All-select_test P Q q (x ∷ xs) h a = elim (Bool-cases (q x)) [
    | inl e ↦ rw e (h x e a.0, All-select_test P Q q xs h a.1)
    | inr e ↦ rw e (All-select_test P Q q xs h a.1)
  ]

  -- A row after an UPDATE.
  pub Elem-update :
      (q : A → Bool) (f : A → A) (xs : List A) {r : A}
      → Elem r xs
      → Elem (if q r then f r else r) (update q f xs)
  unfolding update
  Elem-update q f [] m = elim m [ ]
  Elem-update q f (x ∷ xs) (here e) = here (ap (λ y. if q y then f y else y) e)
  Elem-update q f (x ∷ xs) (there m) = there (Elem-update q f xs m)

  pub Elem-append : (xs ys : List A) {r : A} → Elem r xs → Elem r (xs ++ ys)
  Elem-append [] ys m = elim m [ ]
  Elem-append (x ∷ xs) ys (here e) = here e
  Elem-append (x ∷ xs) ys (there m) = there (Elem-append xs ys m)

  -- SELECT by a key finds the row that has it, also after an UPDATE by that key.
  pub find_key :
      (q : A → Bool) (xs : List A) {r : A}
      → count q xs ≤ 1
      → Elem r xs
      → q r ≡ true
      → find q xs ≡ some r
  find_key q xs {r} u m h = elim (Option-cases (find q xs)) [
    | inl e ↦ absurd (omega (arith, find-none q xs e, count_pos q xs m h))
    | inr (x, e) ↦
        e
        ∙ ap some (
            All-Elem (λ y. q y ≡ true → y ≡ r) xs (key_unique q xs u m h) (find-Elem q xs e)
              (find_test q xs e))
  ]

  pub find-update_key :
      (q : A → Bool) (f : A → A) (xs : List A) {r : A}
      → ((x : A) → q x ≡ true → q (f x) ≡ true)
      → count q xs ≤ 1
      → Elem r xs
      → q r ≡ true
      → find q (update q f xs) ≡ some (f r)
  find-update_key q f xs {r} keeps u m h =
      rw (find-update q f xs keeps, find_key q xs {r = r} u m h)

  -- A key that no row has is not found, and the row that an INSERT adds is there.
  pub find_absent : (q : A → Bool) (xs : List A) → count q xs ≡ 0 → find q xs ≡ none
  find_absent q xs h = elim (Option-cases (find q xs)) [
    | inl e ↦ e
    | inr (x, e) ↦ absurd (omega (arith, count_pos q xs (find-Elem q xs e) (find_test q xs e)))
  ]

  pub Elem-last : (xs : List A) (r : A) → Elem r (xs ++ r ∷ [])
  Elem-last [] r = here refl
  Elem-last (x ∷ xs) r = there (Elem-last xs r)
