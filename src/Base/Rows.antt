-- ===== src/Base/Rows.antt =====
-- Tables as lists of rows: SELECT, UPDATE and DELETE with a WHERE test, and their counting laws.
use Prim.Native.Nat.{ℕ, ◌+◌, ◌≤◌}
use mathlib.Core.Path.{◌≡◌, refl}
use mathlib.Core.Logic.{inl, inr}
use mathlib.Core.Bool.{Bool, true, false, not, ◌&&◌}
use mathlib.Core.Option.{Option, none, some}
use mathlib.Core.List.{List, [], ◌∷◌, ◌++◌}
use native.Mathlib.Omega.{arith}
use ia_dev_lab.Base.Tests.{if◌then◌else◌, Bool-cases}
use ia_dev_lab.Base.Lists.{All}

module _ {ℓ} {A : Type ℓ} where
  -- SELECT ... WHERE q, the first row of the cursor.
  unfoldable pub find : (A → Bool) → List A → Option A
  find q [] = none
  find q (x ∷ xs) = if q x then some x else find q xs

  -- SELECT ... WHERE q, all rows.
  unfoldable pub select : (A → Bool) → List A → List A
  select q [] = []
  select q (x ∷ xs) = let rest = select q xs in if q x then x ∷ rest else rest

  -- UPDATE ... SET f WHERE q.
  unfoldable pub update : (A → Bool) → (A → A) → List A → List A
  update q f [] = []
  update q f (x ∷ xs) = (if q x then f x else x) ∷ update q f xs

  -- The number of rows that a WHERE test takes: COUNT(*), `rowcount`.
  unfoldable pub count : (A → Bool) → List A → ℕ
  count q [] = 0
  count q (x ∷ xs) = (if q x then 1 else 0) + count q xs

  abbrev pub both : (A → Bool) → (A → Bool) → A → Bool
  both p q x = p x && q x

  -- DELETE ... WHERE q.
  abbrev pub delete : (A → Bool) → List A → List A
  delete q xs = select (λ x. not (q x)) xs

  pub count-update :
      (p q : A → Bool) (f : A → A) (xs : List A)
      → count p (update q f xs) + count (both q p) xs
        ≡ count p xs + count (both q (λ x. p (f x))) xs
  unfolding count update
  count-update p q f [] = refl
  count-update p q f (x ∷ xs) = ground (arith, count-update p q f xs)

  pub count-split :
      (p q : A → Bool) (xs : List A)
      → count (both q p) xs + count (both q (λ x. not (p x))) xs ≡ count q xs
  unfolding count
  count-split p q [] = refl
  count-split p q (x ∷ xs) = ground (arith, count-split p q xs)

  pub count-append : (q : A → Bool) (xs ys : List A) → count q (xs ++ ys) ≡ count q xs + count q ys
  unfolding count
  count-append q [] ys = omega arith
  count-append q (x ∷ xs) ys = omega (arith, count-append q xs ys)

  pub count_congr :
      (p q : A → Bool) (xs : List A) → All (λ x. p x ≡ q x) xs → count p xs ≡ count q xs
  unfolding count
  count_congr p q [] h = refl
  count_congr p q (x ∷ xs) h = ground (arith, count_congr p q xs h.1)

  -- A test that implies another takes no more rows.
  pub count_mono :
      (p q : A → Bool) (xs : List A) → ((x : A) → p x ≡ true → q x ≡ true) → count p xs ≤ count q xs
  unfolding count
  count_mono p q [] h = omega arith
  count_mono p q (x ∷ xs) h = ground (arith, h x, count_mono p q xs h)

  -- A test that takes no row takes none.
  pub count_none : (p : A → Bool) (xs : List A) → All (λ x. p x ≡ false) xs → count p xs ≡ 0
  unfolding count
  count_none p [] h = refl
  count_none p (x ∷ xs) h = ground (arith, count_none p xs h.1)

  pub count-eq-zero : (p : A → Bool) (xs : List A) → count p xs ≡ 0 → All (λ x. p x ≡ false) xs
  unfolding count
  count-eq-zero p [] h = tt
  count-eq-zero p (x ∷ xs) h = (ground arith, count-eq-zero p xs (ground arith))

  pub find-none : (q : A → Bool) (xs : List A) → find q xs ≡ none → count q xs ≡ 0
  unfolding find count
  find-none q [] h = refl
  find-none q (x ∷ xs) h = ground (arith, find-none q xs)

  pub find_test : (q : A → Bool) (xs : List A) {r : A} → find q xs ≡ some r → q r ≡ true
  unfolding find
  find_test q [] h = cc
  find_test q (x ∷ xs) {r} h = ground (arith, find_test q xs {r = r})

  -- A row that is found with a second property is counted under both tests.
  pub find-count :
      (p q : A → Bool) (xs : List A) {r : A}
      → find q xs ≡ some r
      → p r ≡ true
      → 1 ≤ count (both q p) xs
  unfolding find count
  find-count p q [] h e = cc
  find-count p q (x ∷ xs) {r} h e = ground (arith, find-count p q xs {r = r})

  pub find-update :
      (q : A → Bool) (f : A → A) (xs : List A)
      → ((x : A) → q x ≡ true → q (f x) ≡ true)
      → find q (update q f xs) ≡ elim (find q xs) [ none ↦ none | some r ↦ some (f r) ]
  unfolding find update
  find-update q f [] h = refl
  find-update q f (x ∷ xs) h = ground (arith, h x, find-update q f xs h)

-- Two tables of the same length whose rows are related one by one.
abbrev pub Rowwise {ℓ} : {A : Type ℓ} → (A → A → Type 0) → List A → List A → Type 0
Rowwise R [] [] = Unit {0}
Rowwise R (x ∷ xs) (y ∷ ys) = R x y × Rowwise R xs ys
Rowwise R [] (y ∷ ys) = ⊥
Rowwise R (x ∷ xs) [] = ⊥

pub Rowwise-update {ℓ} :
    {A : Type ℓ} (R : A → A → Type 0) (q : A → Bool) (f : A → A) (xs : List A)
    → ((x : A) → R x (if q x then f x else x))
    → Rowwise R xs (update q f xs)
unfolding update
Rowwise-update R q f [] h = tt
Rowwise-update R q f (x ∷ xs) h = (h x, Rowwise-update R q f xs h)

module _ {ℓ κ} {A : Type ℓ} (P : A → Type κ) where
  pub everywhere : ((x : A) → P x) → (xs : List A) → All P xs
  everywhere h [] = tt
  everywhere h (x ∷ xs) = (h x, everywhere h xs)

  pub All-select : (q : A → Bool) (xs : List A) → All P xs → All P (select q xs)
  unfolding select
  All-select q [] h = tt
  All-select q (x ∷ xs) h = ground (arith, All-select q xs h.1)

  pub All-append : (xs ys : List A) → All P xs → All P ys → All P (xs ++ ys)
  All-append [] ys h k = k
  All-append (x ∷ xs) ys h k = (h.0, All-append xs ys h.1 k)

  module _ {κ'} (Q : A → Type κ') where
    pub All-map : (xs : List A) → ((x : A) → P x → Q x) → All P xs → All Q xs
    All-map [] h k = tt
    All-map (x ∷ xs) h k = (h x k.0, All-map xs h k.1)

    -- After an UPDATE: what the new rows have, and what the old rows keep.
    pub All-update :
        (q : A → Bool) (f : A → A) (xs : List A)
        → ((x : A) → q x ≡ true → P x → Q (f x))
        → ((x : A) → q x ≡ false → P x → Q x)
        → All P xs
        → All Q (update q f xs)
    unfolding update
    All-update q f [] h k a = tt
    All-update q f (x ∷ xs) h k a = elim (Bool-cases (q x)) [
      | inl e ↦ rw e (h x e a.0, All-update q f xs h k a.1)
      | inr e ↦ rw e (k x e a.0, All-update q f xs h k a.1)
    ]

    pub All-zip : (xs : List A) → All P xs → All Q xs → All (λ x. P x × Q x) xs
    All-zip [] h k = tt
    All-zip (x ∷ xs) h k = ((h.0, k.0), All-zip xs h.1 k.1)
