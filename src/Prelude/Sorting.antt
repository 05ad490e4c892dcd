-- ===== src/Prelude/Sorting.antt =====
-- sort.Slice of the Go standard library with a strict order `less`: an insertion sort. The order of
-- items of which neither is less than the other, which sort.Slice leaves open, is that of the list.
use Prim.Native.Nat.{ℕ, ◌+◌}
use cloistr_relay.Prelude.Tests.{if◌then◌else◌, Bool-cases}
use cloistr_relay.Prelude.Lists.{In}
use mathlib.Core.Path.{◌≡◌, refl, sym}
use mathlib.Core.Logic.{◌⊎◌, inl, inr}
use mathlib.Core.Bool.{Bool, true, false}
use mathlib.Core.Option.{Option, none, some}
use mathlib.Core.List.{List, [], ◌∷◌}
use native.Mathlib.Omega.{arith}

module _ {A : Type 0} (less : A → A → Bool) where
  insert_by : A → List A → List A
  insert_by x [] = x ∷ []
  insert_by x (y ∷ ys) = let rest = insert_by x ys in if less x y then x ∷ y ∷ ys else y ∷ rest

  unfoldable pub sort_by : List A → List A
  unfolding insert_by
  sort_by [] = []
  sort_by (x ∷ xs) = insert_by x (sort_by xs)

-- The sum over a list, and that sorting keeps it.
unfoldable pub total : {A : Type 0} → (A → ℕ) → List A → ℕ
total f [] = 0
total f (x ∷ xs) = f x + total f xs

module _ {A : Type 0} (less : A → A → Bool) (f : A → ℕ) where
  total-insert_by : (x : A) (xs : List A) → total f (insert_by less x xs) ≡ f x + total f xs
  unfolding total insert_by
  total-insert_by x [] = refl
  total-insert_by x (y ∷ ys) = ground (arith, total-insert_by x ys)

  pub total-sort_by : (xs : List A) → total f (sort_by less xs) ≡ total f xs
  unfolding total sort_by
  total-sort_by [] = refl
  total-sort_by (x ∷ xs) = omega (arith, total-insert_by x (sort_by less xs), total-sort_by xs)

abbrev pub first : {A : Type 0} → List A → Option A
first [] = none
first (x ∷ xs) = some x

-- `x` is in the list, and nothing in the list is less.
pub record IsLeast {A : Type 0} (less : A → A → Bool) (x : A) (xs : List A) : Type 0 where
  pub member : In x xs
  pub least : (y : A) → In y xs → less y x ≡ false

module _ {A : Type 0} (less : A → A → Bool) (irrefl : (x : A) → less x x ≡ false)
    (trans : (x y z : A) → less x y ≡ true → less y z ≡ true → less x z ≡ true) where
  insert-In : (x y : A) (ys : List A) → In y (insert_by less x ys) → (y ≡ x) ⊎ In y ys
  unfolding insert_by
  insert-In x y [] i = i
  insert-In x y (z ∷ ys) i = ground (arith, insert-In x y ys)

  In-insert : (x y : A) (ys : List A) → (y ≡ x) ⊎ In y ys → In y (insert_by less x ys)
  unfolding insert_by
  In-insert x y [] i = i
  In-insert x y (z ∷ ys) i = ground (arith, In-insert x y ys)

  In-of-sort : (y : A) (xs : List A) → In y (sort_by less xs) → In y xs
  unfolding sort_by
  In-of-sort y [] i = i
  In-of-sort y (x ∷ xs) i = elim (insert-In x y (sort_by less xs) i) [
    | inl e ↦ inl e
    | inr j ↦ inr (In-of-sort y xs j)
  ]

  In-sort : (y : A) (xs : List A) → In y xs → In y (sort_by less xs)
  unfolding sort_by
  In-sort y [] i = i
  In-sort y (x ∷ xs) (inl e) = In-insert x y (sort_by less xs) (inl e)
  In-sort y (x ∷ xs) (inr i) = In-insert x y (sort_by less xs) (inr (In-sort y xs i))

  -- Nothing in the list is less than its head.
  abbrev HasLeastHead : List A → Type 0
  HasLeastHead [] = Unit
  HasLeastHead (h ∷ xs) = (y : A) → In y (h ∷ xs) → less y h ≡ false

  not-less_of_new : (x h y : A) → less x h ≡ true → less y h ≡ false → less y x ≡ false
  not-less_of_new x h y new old = ground (arith, trans y x h)

  insert-HasLeastHead : (x : A) (xs : List A) → HasLeastHead xs → HasLeastHead (insert_by less x xs)
  unfolding insert_by
  insert-HasLeastHead x [] h = λ y i. elim i [ inl e ↦ rw e (irrefl x) | inr j ↦ absurd j ]
  insert-HasLeastHead x (z ∷ xs) h = elim (Bool-cases (less x z)) [
    | inl new ↦
        rw new
          (λ y i. elim i [ inl e ↦ rw e (irrefl x) | inr j ↦ not-less_of_new x z y new (h y j) ])
    | inr old ↦ rw old (λ y i. elim i [
      | inl e ↦ rw e (irrefl z)
      | inr j ↦ elim (insert-In x y xs j) [ inl e ↦ rw e old | inr k ↦ h y (inr k) ]
    ])
  ]

  sort-HasLeastHead : (xs : List A) → HasLeastHead (sort_by less xs)
  unfolding sort_by
  sort-HasLeastHead [] = tt
  sort-HasLeastHead (x ∷ xs) = insert-HasLeastHead x (sort_by less xs) (sort-HasLeastHead xs)

  -- The first item after sorting is a least item of the list.
  pub sort-IsLeast : (xs : List A) (x : A) → first (sort_by less xs) ≡ some x → IsLeast less x xs
  sort-IsLeast xs x e = go (sort_by less xs) refl e (sort-HasLeastHead xs)
    where
      go :
          (ys : List A)
          → sort_by less xs ≡ ys
          → first ys ≡ some x
          → HasLeastHead ys
          → IsLeast less x xs
      go [] p q h = cc
      go (z ∷ ys) p q h =
          let e : z ≡ x = cc in
          record {
            member = In-of-sort x xs (rw p (inl (sym e)));
            least = λ y i. rw (← e) (h y (rw p at (In-sort y xs i)));
          }

  -- A list with an item has a first item after sorting.
  pub sort-first : (x : A) (xs : List A) → (y : A) × (first (sort_by less (x ∷ xs)) ≡ some y)
  unfolding sort_by insert_by
  sort-first x xs = go (sort_by less xs)
    where
      go : (ys : List A) → (y : A) × (first (insert_by less x ys) ≡ some y)
      go [] = (x, refl)
      go (z ∷ ys) = elim (Bool-cases (less x z)) [ inl b ↦ (x, rw b) | inr b ↦ (z, rw b) ]
