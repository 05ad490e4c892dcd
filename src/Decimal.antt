-- ===== src/Decimal.antt =====
-- strconv: Itoa and Atoi, on int64. A text for which Atoi fails gives `none`.
use Prim.Native.Char.{Char, char, code}
use cloistr_relay.Prelude.{
  ℕ, zero, suc, ◌+◌, ◌-◌, ◌*◌, ◌/◌, ◌%◌, ◌^◌, ◌≤◌, ◌<◌, ◌≡◌, refl, sym, ap, ◌∙◌, Bool, true, false,
  ◌&&◌, ◌↔◌, Option, none, some, String, arith, ltb, leb, Bool-cases, inl, inr, if◌then◌else◌, ◌==◌,
  nat_eq, Comparable,
}

-- Go's int: `pos n` is n, and `negsuc n` is - (n + 1).
pub data ℤ : Type 0 where
  pos : ℕ → ℤ
  negsuc : ℕ → ℤ

abbrev same_int : ℤ → ℤ → Bool
same_int (pos a) (pos b) = a == b
same_int (negsuc a) (negsuc b) = a == b
same_int (pos a) (negsuc b) = false
same_int (negsuc a) (pos b) = false

pub same_int_iff : (a b : ℤ) → (same_int a b ≡ true) ↔ (a ≡ b)
same_int_iff (pos a) (pos b) = ground arith
same_int_iff (negsuc a) (negsuc b) = ground arith
same_int_iff (pos a) (negsuc b) = ground arith
same_int_iff (negsuc a) (pos b) = ground arith

instance abbrev pub int_eq : Comparable ℤ
int_eq = record { same = same_int; same_iff = same_int_iff }

-- The numbers of an int64.
abbrev pub in_range : ℤ → Bool
in_range (pos n) = ltb n (2 ^ 63)
in_range (negsuc n) = ltb n (2 ^ 63)

-- The digit of a number below 10.
digit : ℕ → Char
digit zero = char 48 tt
digit (suc zero) = char 49 tt
digit (suc (suc zero)) = char 50 tt
digit (suc (suc (suc zero))) = char 51 tt
digit (suc (suc (suc (suc zero)))) = char 52 tt
digit (suc (suc (suc (suc (suc zero))))) = char 53 tt
digit (suc (suc (suc (suc (suc (suc zero)))))) = char 54 tt
digit (suc (suc (suc (suc (suc (suc (suc zero))))))) = char 55 tt
digit (suc (suc (suc (suc (suc (suc (suc (suc zero)))))))) = char 56 tt
digit (suc (suc (suc (suc (suc (suc (suc (suc (suc n))))))))) = char 57 tt

code-digit : (d : ℕ) → d < 10 → code (digit d) ≡ 48 + d
unfolding digit
code-digit zero h = refl
code-digit (suc zero) h = refl
code-digit (suc (suc zero)) h = refl
code-digit (suc (suc (suc zero))) h = refl
code-digit (suc (suc (suc (suc zero)))) h = refl
code-digit (suc (suc (suc (suc (suc zero))))) h = refl
code-digit (suc (suc (suc (suc (suc (suc zero)))))) h = refl
code-digit (suc (suc (suc (suc (suc (suc (suc zero))))))) h = refl
code-digit (suc (suc (suc (suc (suc (suc (suc (suc zero)))))))) h = refl
code-digit (suc (suc (suc (suc (suc (suc (suc (suc (suc zero))))))))) h = refl
code-digit (suc (suc (suc (suc (suc (suc (suc (suc (suc (suc n)))))))))) h =
    absurd (omega (arith, h))

-- The digits of `n` in front of `s`, on fuel.
digits_from : ℕ → ℕ → String → String
unfolding digit
digits_from zero n s = s
digits_from (suc fuel) n s =
    let rest = digits_from fuel (n / 10) (String.◌∷◌ (digit (n % 10)) s) in
    if ltb n 10 then String.◌∷◌ (digit n) s else rest

unfoldable pub itoa : ℤ → String
unfolding digits_from
itoa (pos n) = digits_from (suc n) n ""
itoa (negsuc n) = String.◌∷◌ (char 45 tt) (digits_from (suc (suc n)) (suc n) "")

is_digit : Char → Bool
is_digit c = leb 48 (code c) && leb (code c) 57

read_digits : ℕ → String → Option ℕ
unfolding is_digit
read_digits acc String.[] = some acc
read_digits acc (String.◌∷◌ c s) =
    let rest = read_digits (acc * 10 + (code c - 48)) s in if is_digit c then rest else none

-- Digits, at least one.
read_natural : String → Option ℕ
unfolding read_digits
read_natural String.[] = none
read_natural (String.◌∷◌ c s) = read_digits 0 (String.◌∷◌ c s)

abbrev checked : ℤ → Option ℤ
checked z = if in_range z then some z else none

abbrev positive : Option ℕ → Option ℤ
positive none = none
positive (some n) = checked (pos n)

abbrev negative : Option ℕ → Option ℤ
negative none = none
negative (some zero) = some (pos 0)
negative (some (suc n)) = checked (negsuc n)

unfoldable pub atoi : String → Option ℤ
unfolding read_natural
atoi String.[] = none
atoi (String.◌∷◌ c s) =
    if code c == 45
    then negative (read_natural s)
    else if code c == 43
    then positive (read_natural s)
    else positive (read_natural (String.◌∷◌ c s))

read-digit :
    (acc d : ℕ) (s : String)
    → d < 10
    → read_digits acc (String.◌∷◌ (digit d) s) ≡ read_digits (acc * 10 + d) s
unfolding read_digits is_digit
read-digit acc d s h = ground (arith, code-digit d h)

read-digits_from :
    (fuel n : ℕ) (s : String) → n < fuel → read_digits 0 (digits_from fuel n s) ≡ read_digits n s
unfolding digits_from
read-digits_from zero n s h = absurd (omega (arith, h))
read-digits_from (suc fuel) n s h = elim (Bool-cases (ltb n 10)) [
  | inl small ↦
      rw small (read-digit 0 n s (ground (arith, small)) ∙ ap (λ k. read_digits k s) (omega arith))
  | inr large ↦ rw large (
      read-digits_from fuel (n / 10) (String.◌∷◌ (digit (n % 10)) s) (ground (arith, h, large))
      ∙ read-digit (n / 10) (n % 10) s (omega arith)
      ∙ ap (λ k. read_digits k s) (omega arith))
]

starts_with_digit :
    (fuel n : ℕ) (s : String)
    → n < fuel
    → (c : Char) × (t : String) × (digits_from fuel n s ≡ String.◌∷◌ c t) × (48 ≤ code c)
unfolding digits_from
starts_with_digit zero n s h = absurd (omega (arith, h))
starts_with_digit (suc fuel) n s h = elim (Bool-cases (ltb n 10)) [
  | inl small ↦ rw small (digit n, s, refl, ground (arith, small, code-digit n))
  | inr large ↦
      rw large
        (starts_with_digit fuel (n / 10) (String.◌∷◌ (digit (n % 10)) s) (ground (arith, h, large)))
]

read_natural-digits : (n : ℕ) → read_natural (digits_from (suc n) n "") ≡ some n
unfolding read_natural read_digits
read_natural-digits n =
    let (c, t, starts, high) = starts_with_digit (suc n) n "" (omega arith) in
    ap read_natural starts
    ∙ ap (read_digits 0) (sym starts)
    ∙ read-digits_from (suc n) n "" (omega arith)

unsigned :
    (c : Char) (t s : String)
    → s ≡ String.◌∷◌ c t
    → 48 ≤ code c
    → atoi s ≡ positive (read_natural s)
unfolding atoi
unsigned c t s starts high =
    ap atoi starts ∙ ground (arith, high) ∙ ap (λ r. positive (read_natural r)) (sym starts)

-- Atoi reads back what Itoa wrote, for every number of an int64.
pub atoi-itoa : (z : ℤ) → in_range z ≡ true → atoi (itoa z) ≡ some z
unfolding atoi itoa
atoi-itoa (pos n) h =
    let (c, t, starts, high) = starts_with_digit (suc n) n "" (omega arith) in
    unsigned c t (digits_from (suc n) n "") starts high
    ∙ ap positive (read_natural-digits n)
    ∙ rw h refl
atoi-itoa (negsuc n) h = ap negative (read_natural-digits (suc n)) ∙ rw h refl
