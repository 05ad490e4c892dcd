-- ===== src/Prelude/Distinct.antt =====
-- Lists of texts in which none stands twice.
use cloistr_relay.Prelude.Tests.{string_eq, ◌==◌, Bool-cases}
use cloistr_relay.Prelude.Lists.{contains, select}
use Prim.Native.String.{String}
use mathlib.Core.Path.{◌≡◌, refl}
use mathlib.Core.Logic.{inl, inr}
use mathlib.Core.Bool.{Bool, false}
use mathlib.Core.List.{List, [], ◌∷◌, ◌++◌}
use native.Mathlib.Omega.{arith}
use text.Mathlib.TextEquality.{eq_iff}

abbrev pub Distinct : List String → Type 0
Distinct [] = Unit
Distinct (x ∷ xs) = (contains xs x ≡ false) × Distinct xs

contains-append :
    (xs : List String) (x y : String)
    → contains xs x ≡ false
    → (y == x) ≡ false
    → contains (xs ++ y ∷ []) x ≡ false
unfolding contains
contains-append [] x y h n = ground arith
contains-append (z ∷ xs) x y h n = ground (arith, contains-append xs x y)

pub Distinct-append :
    (xs : List String) (y : String) → Distinct xs → contains xs y ≡ false → Distinct (xs ++ y ∷ [])
unfolding contains
Distinct-append [] y h n = (refl, tt)
Distinct-append (x ∷ xs) y h n = (
  contains-append xs x y h.0 (ground (arith, eq_iff x y, eq_iff y x)),
  Distinct-append xs y h.1 (ground arith),
)

contains-select :
    (p : String → Bool) (xs : List String) (x : String)
    → contains xs x ≡ false
    → contains (select p xs) x ≡ false
unfolding contains select
contains-select p [] x h = refl
contains-select p (z ∷ xs) x h = ground (arith, contains-select p xs x)

pub Distinct-select : (p : String → Bool) (xs : List String) → Distinct xs → Distinct (select p xs)
unfolding select
Distinct-select p [] h = tt
Distinct-select p (x ∷ xs) h = elim (Bool-cases (p x)) [
  | inl hit ↦ rw hit (contains-select p xs x h.0, Distinct-select p xs h.1)
  | inr miss ↦ rw miss (Distinct-select p xs h.1)
]
