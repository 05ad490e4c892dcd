-- ===== src/Handlers/Bits.antt =====
-- Leading zero bits as a bound on the number that a hexadecimal text spells.
use Prim.Native.Char.{Char}
use native.Mathlib.Nat.{mul-le-mul_left}
use native.Mathlib.Omega.{pow_step}
use cloistr_relay.Prelude.{
  ℕ, zero, suc, ◌+◌, ◌*◌, ◌^◌, ◌≤◌, ◌<◌, String, ◌≡◌, refl, ap, ◌∙◌, ◌⊎◌, inl, inr, Option, none,
  some, arith, ◌==◌, nat_eq, if◌then◌else◌,
}
use cloistr_relay.Handlers.Checks.{nibble, zero_bits_of, count_leading_zero_bits}

abbrev pub IsHex : String → Type 0
IsHex String.[] = Unit
IsHex (String.◌∷◌ c s) = ((d : ℕ) × (nibble c ≡ some d)) × IsHex s

-- 16 to the number of digits.
unfoldable pub span : String → ℕ
span String.[] = 1
span (String.◌∷◌ c s) = 16 * span s

digit_or_0 : Option ℕ → ℕ
digit_or_0 none = 0
digit_or_0 (some d) = d

-- The number that a hexadecimal text spells, most significant digit first.
unfoldable pub value : String → ℕ
unfolding digit_or_0
value String.[] = 0
value (String.◌∷◌ c s) = span s * digit_or_0 (nibble c) + value s

nibble_bound : (c : Char) (d : ℕ) → nibble c ≡ some d → d < 16
unfolding nibble
nibble_bound c d e = ground arith

value_bound : (s : String) → IsHex s → value s < span s
unfolding value span digit_or_0
value_bound String.[] h = omega arith
value_bound (String.◌∷◌ c s) ((d, e), h) =
    let most : span s * d ≤ span s * 15 =
      mul-le-mul_left (span s) (omega (arith, nibble_bound c d e)) in
    rw e (omega (arith, most, value_bound s h))

pow_4 : (z : ℕ) → 2 ^ (4 + z) ≡ 16 * 2 ^ z
pow_4 z = eighth ∙ omega (arith, pow_step 2 z, pow_step 2 (suc z), pow_step 2 (suc (suc z)))
  where
    same : 4 + z ≡ suc (suc (suc (suc z)))
    same = omega arith

    eighth : 2 ^ (4 + z) ≡ 2 * 2 ^ suc (suc (suc z))
    eighth = ap (λ n. 2 ^ n) same ∙ pow_step 2 (suc (suc (suc z)))

count_leading_zero_bits-cons :
    (c : Char) (s : String) (d : ℕ)
    → nibble c ≡ some d
    → count_leading_zero_bits (String.◌∷◌ c s)
      ≡ (if d == 0 then 4 + count_leading_zero_bits s else zero_bits_of d)
unfolding count_leading_zero_bits
count_leading_zero_bits-cons c s d e = ground (arith, e)

count_leading_zero_bits-stop :
    (c : Char) (s : String) (d : ℕ)
    → nibble c ≡ some d
    → 0 < d
    → count_leading_zero_bits (String.◌∷◌ c s) ≡ zero_bits_of d
count_leading_zero_bits-stop c s d e positive = ground (arith, count_leading_zero_bits-cons c s d e)

-- The first digit that is not 0 settles the count.
first_digit :
    (p v d : ℕ)
    → v < p
    → 0 < d
    → d < 16
    → ((p * d + v) * 2 ^ zero_bits_of d < 16 * p)
      × (16 * p ≤ 2 * ((p * d + v) * 2 ^ zero_bits_of d))
unfolding zero_bits_of
first_digit p v d small positive bound =
    let at_least : (n : ℕ) → n ≤ d → p * n ≤ p * d = λ n h. mul-le-mul_left p h in
    let at_most : (n : ℕ) → d ≤ n → p * d ≤ p * n = λ n h. mul-le-mul_left p h in
    ground (
      arith,
      at_least 1,
      at_least 2,
      at_least 4,
      at_least 8,
      at_most 1,
      at_most 3,
      at_most 7,
      at_most 15,
    )

-- The count is that of the leading zero bits of the number in `4 * length` bits.
abbrev pub CountsZeros : String → Type 0
CountsZeros s =
    (value s * 2 ^ count_leading_zero_bits s < span s)
    × ((value s ≡ 0) ⊎ (span s ≤ 2 * (value s * 2 ^ count_leading_zero_bits s)))
    × ((value s ≡ 0) → 2 ^ count_leading_zero_bits s ≡ span s)

zero_digit :
    (p v z : ℕ)
    → (v * 2 ^ z < p) × ((v ≡ 0) ⊎ (p ≤ 2 * (v * 2 ^ z))) × ((v ≡ 0) → 2 ^ z ≡ p)
    → ((p * 0 + v) * 2 ^ (4 + z) < 16 * p)
      × ((p * 0 + v ≡ 0) ⊎ (16 * p ≤ 2 * ((p * 0 + v) * 2 ^ (4 + z))))
      × ((p * 0 + v ≡ 0) → 2 ^ (4 + z) ≡ 16 * p)
zero_digit p v z h = rw (pow_4 z) (grind (arith, h))

no_digit : CountsZeros ""
unfolding value span count_leading_zero_bits
no_digit = (omega arith, inl refl, λ _. refl)

pub count_leading_zero_bits-CountsZeros : (s : String) → IsHex s → CountsZeros s
unfolding value span digit_or_0
count_leading_zero_bits-CountsZeros String.[] h = no_digit
count_leading_zero_bits-CountsZeros (String.◌∷◌ c s) ((zero, e), h) =
    let ih = count_leading_zero_bits-CountsZeros s h in
    rw (count_leading_zero_bits-cons c s 0 e)
      (rw e (zero_digit (span s) (value s) (count_leading_zero_bits s) ih))
count_leading_zero_bits-CountsZeros (String.◌∷◌ c s) ((suc d, e), h) =
    let (upper, lower) =
      first_digit (span s) (value s) (suc d) (value_bound s h) (omega arith)
        (nibble_bound c (suc d) e) in
    rw (count_leading_zero_bits-stop c s (suc d) e (omega arith))
      (rw e (upper, inr lower, λ z. absurd (omega (arith, value_bound s h, rw z at lower))))
