-- ===== src/Prelude/Lists.antt =====
-- Lists measured by native numbers, searches through them, and predicates on all of their items.
use Prim.Native.Nat.{ℕ, suc, ◌+◌}
use mathlib.Core.Path.{◌≡◌, refl}
use mathlib.Core.Logic.{◌⊎◌, inl, inr}
use mathlib.Core.Bool.{Bool, true, false, ◌||◌}
use mathlib.Core.List.{List, [], ◌∷◌, ◌++◌}
use native.Mathlib.Omega.{arith}
use cloistr_relay.Prelude.Tests.{Comparable, ◌==◌, if◌then◌else◌, Bool-cases}

module _ {ℓ} {A : Type ℓ} where
  abbrev pub length : List A → ℕ
  length [] = 0
  length (x ∷ xs) = suc (length xs)

  pub length-append : (xs ys : List A) → length (xs ++ ys) ≡ length xs + length ys
  length-append [] ys = omega arith
  length-append (x ∷ xs) ys = omega (arith, length-append xs ys)

  abbrev pub is_empty : List A → Bool
  is_empty [] = true
  is_empty (x ∷ xs) = false

  -- A loop that returns at the first item that passes the test.
  unfoldable pub any_of : (A → Bool) → List A → Bool
  any_of p [] = false
  any_of p (x ∷ xs) = p x || any_of p xs

  unfoldable pub select : (A → Bool) → List A → List A
  select p [] = []
  select p (x ∷ xs) = let rest = select p xs in if p x then x ∷ rest else rest

  abbrev pub All {κ} : (A → Type κ) → List A → Type κ
  All P [] = Unit
  All P (x ∷ xs) = P x × All P xs

module _ {A : Type 0} where
  -- Membership with the place kept.
  abbrev pub In : A → List A → Type 0
  In a [] = ⊥
  In a (x ∷ xs) = (a ≡ x) ⊎ In a xs

  pub any_of-In :
      (p : A → Bool) (xs : List A) → any_of p xs ≡ true → (a : A) × In a xs × (p a ≡ true)
  unfolding any_of
  any_of-In p [] h = cc
  any_of-In p (x ∷ xs) h = elim (Bool-cases (p x)) [
    | inl hit ↦ (x, inl refl, hit)
    | inr miss ↦ let found = any_of-In p xs (rw miss at h) in (found.0, inr found.1, found.2)
  ]

  pub In-any_of : (p : A → Bool) (a : A) (xs : List A) → In a xs → p a ≡ true → any_of p xs ≡ true
  unfolding any_of
  In-any_of p a [] h t = absurd h
  In-any_of p a (x ∷ xs) (inl e) t = rw (← e) (rw t)
  In-any_of p a (x ∷ xs) (inr h) t = elim (Bool-cases (p x)) [
    | inl hit ↦ rw hit
    | inr miss ↦ rw miss (In-any_of p a xs h t)
  ]

  pub All-In {κ} : (P : A → Type κ) (a : A) (xs : List A) → All P xs → In a xs → P a
  All-In P a [] h i = absurd i
  All-In P a (x ∷ xs) h (inl e) = rw e h.0
  All-In P a (x ∷ xs) h (inr i) = All-In P a xs h.1 i

  pub All-select : (p : A → Bool) (xs : List A) → All (λ x. p x ≡ true) (select p xs)
  unfolding select
  All-select p [] = tt
  All-select p (x ∷ xs) = elim (Bool-cases (p x)) [
    | inl hit ↦ rw hit (hit, All-select p xs)
    | inr miss ↦ rw miss (All-select p xs)
  ]

  pub In-select : (p : A → Bool) (a : A) (xs : List A) → In a xs → p a ≡ true → In a (select p xs)
  unfolding select
  In-select p a [] i t = absurd i
  In-select p a (x ∷ xs) (inl e) t = let hit : p x ≡ true = rw (← e) t in rw hit (inl e)
  In-select p a (x ∷ xs) (inr i) t = elim (Bool-cases (p x)) [
    | inl hit ↦ rw hit (inr (In-select p a xs i t))
    | inr miss ↦ rw miss (In-select p a xs i t)
  ]

  pub In-of-select : (p : A → Bool) (a : A) (xs : List A) → In a (select p xs) → In a xs
  unfolding select
  In-of-select p a [] i = i
  In-of-select p a (x ∷ xs) i = elim (Bool-cases (p x)) [
    | inl hit ↦ elim (rw hit at i) [ inl e ↦ inl e | inr j ↦ inr (In-of-select p a xs j) ]
    | inr miss ↦ inr (In-of-select p a xs (rw miss at i))
  ]

  pub All-append : (P : A → Type 0) (xs : List A) (y : A) → All P xs → P y → All P (xs ++ y ∷ [])
  All-append P [] y h p = (p, tt)
  All-append P (x ∷ xs) y h p = (h.0, All-append P xs y h.1 p)

module _ {ℓ} {A : Type ℓ} ⦃c : Comparable A⦄ where
  -- A lookup in a Go `map[A]bool` or `map[A]struct{}` that was filled from a list.
  unfoldable pub contains : List A → A → Bool
  contains [] a = false
  contains (x ∷ xs) a = x == a || contains xs a
