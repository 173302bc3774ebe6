-- ===== src/Base/TextOrder.antt =====
-- The order of texts is a strict total order.
use Prim.Native.Nat.{Ordering}
use Prim.Native.String.{String, [], ◌∷◌, compare}
use Prim.Native.String.compare
use mathlib.Core.Path.{◌≡◌, subst}
use mathlib.Core.Logic.{inl, inr}
use mathlib.Core.Bool.{true, false}
use native.Mathlib.Omega.{arith}
use text.Mathlib.TextEquality.{path_by_compare}
use ia_dev_lab.Base.Tests.{text_ltb, Bool-cases}

pub text_ltb_trans :
    (s t u : String) → text_ltb s t ≡ true → text_ltb t u ≡ true → text_ltb s u ≡ true
text_ltb_trans [] [] u h k = ground (arith, compare.nil-nil)
text_ltb_trans [] (d ∷ t) [] h k = ground (arith, compare.cons-nil d t)
text_ltb_trans [] (d ∷ t) (e ∷ u) h k = ground (arith, compare.nil-cons e u)
text_ltb_trans (c ∷ s) [] u h k = ground (arith, compare.cons-nil c s)
text_ltb_trans (c ∷ s) (d ∷ t) [] h k = ground (arith, compare.cons-nil d t)
text_ltb_trans (c ∷ s) (d ∷ t) (e ∷ u) h k = ground (
  arith,
  compare.cons-cons c d s t,
  compare.cons-cons d e t u,
  compare.cons-cons c e s u,
  text_ltb_trans s t u,
)

pub text_ltb_asymm : (s t : String) → text_ltb s t ≡ true → text_ltb t s ≡ false
text_ltb_asymm [] [] h = ground (arith, compare.nil-nil)
text_ltb_asymm [] (d ∷ t) h = ground (arith, compare.cons-nil d t)
text_ltb_asymm (c ∷ s) [] h = ground (arith, compare.cons-nil c s)
text_ltb_asymm (c ∷ s) (d ∷ t) h =
    ground (arith, compare.cons-cons c d s t, compare.cons-cons d c t s, text_ltb_asymm s t)

compare_total :
    (s t : String) → text_ltb s t ≡ false → text_ltb t s ≡ false → compare s t ≡ Ordering.eq
compare_total [] [] h k = ground (arith, compare.nil-nil)
compare_total [] (d ∷ t) h k = ground (arith, compare.nil-cons d t)
compare_total (c ∷ s) [] h k = ground (arith, compare.nil-cons c s)
compare_total (c ∷ s) (d ∷ t) h k =
    ground (arith, compare.cons-cons c d s t, compare.cons-cons d c t s, compare_total s t)

-- Two texts neither of which comes first are equal.
pub text_ltb_total : (s t : String) → text_ltb s t ≡ false → text_ltb t s ≡ false → s ≡ t
text_ltb_total s t h k = path_by_compare s t (compare_total s t h k)

-- "Not before" is transitive.
pub text_ltb_negtrans :
    (s t u : String) → text_ltb s t ≡ false → text_ltb t u ≡ false → text_ltb s u ≡ false
text_ltb_negtrans s t u h k = elim (Bool-cases (text_ltb s u)) [
  | inr e ↦ e
  | inl e ↦ elim (Bool-cases (text_ltb t s)) [
    | inl f ↦ absurd (ground (arith, text_ltb_trans t s u f e))
    | inr f ↦
        absurd
          (ground (arith, subst (λ (x : String). text_ltb x u ≡ true) (text_ltb_total s t h f) e))
  ]
]
