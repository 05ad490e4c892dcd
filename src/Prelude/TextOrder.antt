-- ===== src/Prelude/TextOrder.antt =====
-- Go's `<` on strings, byte by byte: the order of their code points.
use Prim.Native.Nat.{compare as compare_ℕ, Ordering}
use Prim.Native.Char.{Char, code}
use Prim.Native.String.{String, compare, then}
use Prim.Native.String.compare as text_compare
use mathlib.Core.Path.{◌≡◌, refl}
use mathlib.Core.Logic.{◌⊎◌, inl, inr}
use mathlib.Core.Bool.{Bool, true, false}
use native.Mathlib.Omega.{arith}
use text.Mathlib.Text.{is_lt}
use text.Mathlib.TextEquality.{path_by_compare}
use text.Mathlib.TextPositions.{compare_refl}

unfoldable pub text_lt : String → String → Bool
text_lt s t = is_lt (compare s t)

pub text_lt_irrefl : (s : String) → text_lt s s ≡ false
unfolding text_lt
text_lt_irrefl s = rw (compare_refl s)

cons-cons :
    (c d : Char) (s t : String)
    → compare (String.◌∷◌ c s) (String.◌∷◌ d t) ≡ then (compare_ℕ (code c) (code d)) (compare s t)
cons-cons c d s t i = text_compare.cons-cons c d s t i

cons-nil : (c : Char) (s : String) → compare (String.◌∷◌ c s) String.[] ≡ Ordering.gt
cons-nil c s i = text_compare.cons-nil c s i

compare_trans :
    (s t u : String)
    → compare s t ≡ Ordering.lt
    → compare t u ≡ Ordering.lt
    → compare s u ≡ Ordering.lt
compare_trans String.[] (String.◌∷◌ d t) (String.◌∷◌ e u) p q = λ i. text_compare.nil-cons e u i
compare_trans (String.◌∷◌ c s) (String.◌∷◌ d t) (String.◌∷◌ e u) p q =
    ground (arith, cons-cons c d s t, cons-cons d e t u, cons-cons c e s u, compare_trans s t u)
compare_trans String.[] String.[] u p q = cc
compare_trans String.[] (String.◌∷◌ d t) String.[] p q = cc (q, cons-nil d t)
compare_trans (String.◌∷◌ c s) String.[] u p q = cc (p, cons-nil c s)
compare_trans (String.◌∷◌ c s) (String.◌∷◌ d t) String.[] p q = cc (q, cons-nil d t)

pub text_lt_trans : (s t u : String) → text_lt s t ≡ true → text_lt t u ≡ true → text_lt s u ≡ true
unfolding text_lt
text_lt_trans s t u p q = ground (arith, compare_trans s t u)

-- Texts of which neither is less are equal.
compare_total :
    (s t : String)
    → (compare s t ≡ Ordering.lt) ⊎ (compare t s ≡ Ordering.lt) ⊎ (compare s t ≡ Ordering.eq)
compare_total String.[] String.[] = inr (inr refl)
compare_total String.[] (String.◌∷◌ d t) = inl (λ i. text_compare.nil-cons d t i)
compare_total (String.◌∷◌ c s) String.[] = inr (inl (λ i. text_compare.nil-cons c s i))
compare_total (String.◌∷◌ c s) (String.◌∷◌ d t) =
    ground (arith, cons-cons c d s t, cons-cons d c t s, compare_total s t)

pub text_lt_total : (s t : String) → text_lt s t ≡ false → text_lt t s ≡ false → s ≡ t
unfolding text_lt
text_lt_total s t p q = elim (compare_total s t) [
  | inl a ↦ ground arith
  | inr (inl b) ↦ ground arith
  | inr (inr e) ↦ path_by_compare s t e
]
