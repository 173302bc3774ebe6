-- ===== src/Schemas/Distinct.antt =====
-- `len(names) != len(set(names))` finds exactly the repetitions.
use ia_dev_lab.Base.{
  ◌≤◌, String, false, ◌≡◌, ◌↔◌, refl, List, [], ◌∷◌, length, string_equality, nat_equality, arith,
  eq_iff,
}
use ia_dev_lab.Schemas.{contains, set_of, has_repetition}

-- No two entries are the same.
abbrev pub IsDistinct : List String → Type 0
IsDistinct [] = Unit
IsDistinct (x ∷ xs) = (contains x xs ≡ false) × IsDistinct xs

length-set_of : (xs : List String) → length (set_of xs) ≤ length xs
unfolding set_of
length-set_of [] = omega arith
length-set_of (x ∷ xs) = ground (arith, length-set_of xs)

contains-set_of : (x : String) (xs : List String) → contains x (set_of xs) ≡ contains x xs
unfolding set_of contains
contains-set_of x [] = refl
contains-set_of x (y ∷ ys) = ground (arith, contains-set_of x ys, contains-set_of y ys, eq_iff y x)

-- The test that compares a list's length with its set's answers false exactly for a list without
-- repetition.
pub has_repetition-IsDistinct : (xs : List String) → (has_repetition xs ≡ false) ↔ IsDistinct xs
unfolding set_of
has_repetition-IsDistinct [] = (λ h. tt, λ h. refl)
has_repetition-IsDistinct (x ∷ xs) = (
  λ h. (
    ground (arith, contains-set_of x xs, length-set_of xs),
    (has_repetition-IsDistinct xs).0 (ground (arith, contains-set_of x xs, length-set_of xs)),
  ),
  λ h. ground (arith, contains-set_of x xs, (has_repetition-IsDistinct xs).1 h.1, h.0),
)
