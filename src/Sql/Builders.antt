-- ===== src/Sql/Builders.antt =====
-- Clauses under construction: each condition refers to its own arguments.
use cloistr_relay.Prelude.{
  ℕ, suc, ◌+◌, ◌≡◌, refl, sym, ap, ◌∙◌, Bool, true, ◌&&◌, ◌||◌, Option, some, List, [], ◌∷◌, ◌++◌,
  map, length, length-append, any_of, arith, nat_eq, string_eq, is_empty,
}
use mathlib.Core.Path.{ap₂}
use mathlib.Core.List.{append_assoc}
use cloistr_relay.Nostr.{Event, Arg}
use cloistr_relay.Sql.{Condition, Texts, holds, all_hold, get_elem?, arg_at}

-- The conditions, the arguments, and the number of the next argument.
pub record Builder : Type 0 where
  pub conditions : List Condition
  pub args : List Arg
  pub arg_num : ℕ

-- A condition on one argument.
unfoldable pub add : (ℕ → Condition) → Arg → Builder → Builder
add c a b = record {
  conditions = b.conditions ++ c b.arg_num ∷ [];
  args = b.args ++ a ∷ [];
  arg_num = suc b.arg_num;
}

-- The numbers from one on, one for each item.
unfoldable pub numbers : {A : Type 0} → ℕ → List A → List ℕ
numbers n [] = []
numbers n (x ∷ xs) = n ∷ numbers (suc n) xs

abbrev pub advance : {A : Type 0} → ℕ → List A → ℕ
advance n [] = n
advance n (x ∷ xs) = advance (suc n) xs

-- A condition on a list of arguments, if there is one.
unfoldable pub add_all :
    {A : Type 0} → (List ℕ → Condition) → (A → Arg) → List A → Builder → Builder
unfolding numbers
add_all c f [] b = b
add_all c f (x ∷ xs) b = record {
  conditions = b.conditions ++ c (numbers b.arg_num (x ∷ xs)) ∷ [];
  args = b.args ++ map f (x ∷ xs);
  arg_num = advance b.arg_num (x ∷ xs);
}

and_comm : (p q : Bool) → (p && q) ≡ (q && p)
and_comm p q = ground arith

and_assoc : (p q r : Bool) → (p && (q && r)) ≡ ((p && q) && r)
and_assoc p q r = ground arith

advance-length : {A : Type 0} (n : ℕ) (xs : List A) → advance n xs ≡ n + length xs
advance-length n [] = omega arith
advance-length n (x ∷ xs) = omega (arith, advance-length (suc n) xs)

length-map : {A B : Type 0} (f : A → B) (xs : List A) → length (map f xs) ≡ length xs
length-map f [] = refl
length-map f (x ∷ xs) = omega (arith, length-map f xs)

pub get_elem-append :
    (pre : List Arg) (x : Arg) (post : List Arg) → get_elem? (pre ++ x ∷ post) (length pre) ≡ some x
get_elem-append [] x post = refl
get_elem-append (y ∷ pre) x post = get_elem-append pre x post

module _ (t : Texts) (e : Event) where
  all_hold-append :
      (args : List Arg) (cs : List Condition) (c : Condition)
      → all_hold t args e (cs ++ c ∷ []) ≡ (all_hold t args e cs && holds t args e c)
  unfolding all_hold
  all_hold-append args [] c = and_comm (holds t args e c) true
  all_hold-append args (x ∷ cs) c =
      ap (λ b. holds t args e x && b) (all_hold-append args cs c)
      ∙ and_assoc (holds t args e x) (all_hold t args e cs) (holds t args e c)

  -- However many arguments follow, the conditions together are `meaning`.
  pub record Means (b : Builder) (meaning : Bool) : Type 0 where
    pub numbered : b.arg_num ≡ suc (length b.args)
    pub means : (more : List Arg) → all_hold t (b.args ++ more) e b.conditions ≡ meaning

  pub add-Means :
      (c : ℕ → Condition) (a : Arg) (b : Builder) (meaning own : Bool)
      → ((args : List Arg) (n : ℕ) → arg_at args n ≡ some a → holds t args e (c n) ≡ own)
      → Means b meaning
      → Means (add c a b) (meaning && own)
  unfolding add
  add-Means c a b meaning own h m = record {
    numbered = omega (arith, m.numbered, length-append b.args (a ∷ []));
    means = λ more.
        all_hold-append ((b.args ++ a ∷ []) ++ more) b.conditions (c b.arg_num)
        ∙ ap₂ (λ x y. x && y)
            (ap (λ l. all_hold t l e b.conditions) (append_assoc b.args (a ∷ []) more)
              ∙ m.means (a ∷ more))
            (h ((b.args ++ a ∷ []) ++ more) b.arg_num (
              rw m.numbered (
                ap (λ l. get_elem? l (length b.args)) (append_assoc b.args (a ∷ []) more)
                ∙ get_elem-append b.args a more)));
  }

-- The numbers of a list's arguments refer to its items.
numbers-any_of :
    {A : Type 0} (test : Option Arg → Bool) (f : A → Arg) (p : A → Bool)
    (h : (x : A) → test (some (f x)) ≡ p x) (pre : List Arg) (xs : List A) (more : List Arg)
    → any_of (λ n. test (arg_at (pre ++ (map f xs ++ more)) n)) (numbers (suc (length pre)) xs)
      ≡ any_of p xs
unfolding any_of numbers
numbers-any_of test f p h pre [] more = refl
numbers-any_of test f p h pre (x ∷ xs) more =
    let rest = map f xs ++ more in
    let longer : (pre ++ f x ∷ []) ++ rest ≡ pre ++ f x ∷ rest = append_assoc pre (f x ∷ []) rest in
    let size : length (pre ++ f x ∷ []) ≡ suc (length pre) =
      omega (arith, length-append pre (f x ∷ [])) in
    ap₂ (λ a b. a || b) (ap test (get_elem-append pre (f x) rest) ∙ h x)
      (ap₂ (λ l k. any_of (λ n. test (arg_at l n)) (numbers (suc k) xs)) (sym longer) (sym size)
        ∙ numbers-any_of test f p h (pre ++ f x ∷ []) xs more)

module _ (t : Texts) (e : Event) where
  pub add_all-Means :
      {A : Type 0} (c : List ℕ → Condition) (test : Option Arg → Bool) (f : A → Arg) (p : A → Bool)
      (xs : List A) (b : Builder) (meaning : Bool)
      → ((args : List Arg) (ns : List ℕ)
          → holds t args e (c ns) ≡ any_of (λ n. test (arg_at args n)) ns)
      → ((x : A) → test (some (f x)) ≡ p x)
      → Means t e b meaning
      → Means t e (add_all c f xs b) (meaning && (is_empty xs || any_of p xs))
  unfolding add_all
  add_all-Means c test f p [] b meaning reads same m = record {
    numbered = m.numbered;
    means = λ more. m.means more ∙ and_comm true meaning;
  }
  add_all-Means c test f p (x ∷ xs) b meaning reads same m =
      let args = map f (x ∷ xs) in
      record {
        numbered = omega (
          arith,
          m.numbered,
          advance-length b.arg_num (x ∷ xs),
          length-map f (x ∷ xs),
          length-append b.args args,
        );
        means = λ more.
            all_hold-append t e ((b.args ++ args) ++ more) b.conditions
              (c (numbers b.arg_num (x ∷ xs)))
            ∙ ap₂ (λ a z. a && z)
                (ap (λ l. all_hold t l e b.conditions) (append_assoc b.args args more)
                  ∙ m.means (args ++ more))
                (reads ((b.args ++ args) ++ more) (numbers b.arg_num (x ∷ xs))
                  ∙ ap₂ (λ l k. any_of (λ n. test (arg_at l n)) (numbers k (x ∷ xs)))
                      (append_assoc b.args args more) m.numbered
                  ∙ numbers-any_of test f p same b.args (x ∷ xs) more);
      }
