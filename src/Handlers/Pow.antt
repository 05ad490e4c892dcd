-- ===== src/Handlers/Pow.antt =====
-- The proof of work of internal/handlers/handlers.go (NIP-13), as a bound on the event's id.
use native.Mathlib.Nat.{pow-le-pow_right, mul-le-mul_left}
use native.Mathlib.Omega.{pow_step}
use cloistr_relay.Prelude.{ℕ, suc, ◌*◌, ◌^◌, ◌≤◌, ◌<◌, ◌≡◌, ◌↔◌, ◌⊎◌, inl, inr, arith}
use cloistr_relay.Nostr.{Event, accept}
use cloistr_relay.Handlers.Checks.{Config, require_pow, count_leading_zero_bits}
use cloistr_relay.Handlers.Bits.{IsHex, span, value, count_leading_zero_bits-CountsZeros}

either_way : (n z : ℕ) → (n ≤ z) ⊎ (z < n)
either_way n z = ground arith

module _ (v p : ℕ) where
  -- `z` leading zero bits are at least `n` exactly if the number is below 1 / 2 ^ n of the span.
  enough_bits :
      (z n : ℕ)
      → v * 2 ^ z < p
      → (v ≡ 0) ⊎ (p ≤ 2 * (v * 2 ^ z))
      → ((v ≡ 0) → 2 ^ z ≡ p)
      → 2 ^ n ≤ p
      → (n ≤ z) ↔ (v * 2 ^ n < p)
  enough_bits z n upper lower zero fits = (
    λ le.
        let scaled : v * 2 ^ n ≤ v * 2 ^ z =
          mul-le-mul_left v (pow-le-pow_right {n = 2} (omega arith) le) in
        omega (arith, scaled, upper),
    λ below. elim (either_way n z) [
      | inl le ↦ le
      | inr lt ↦
          let power : 2 ^ suc z ≤ 2 ^ n = pow-le-pow_right {n = 2} (omega arith) lt in
          let double : 2 * 2 ^ z ≤ 2 ^ n = omega (arith, power, pow_step 2 z) in
          let scaled : v * (2 * 2 ^ z) ≤ v * 2 ^ n = mul-le-mul_left v double in
          absurd (ground (arith, scaled, below, lower, zero, fits, double, upper))
    ],
  )

-- The relay's proof of work is NIP-13's: it accepts an event whose id is a hexadecimal text exactly
-- if the id, as a number, is below 1 / 2 ^ difficulty of the numbers with that many digits, for
-- every difficulty that is at most the number of the id's bits.
pub require_pow-below :
    (cfg : Config) (event : Event)
    → IsHex event.id
    → 2 ^ cfg.min_pow_difficulty ≤ span event.id
    → (require_pow cfg event ≡ accept)
      ↔ (value event.id * 2 ^ cfg.min_pow_difficulty < span event.id)
unfolding require_pow
require_pow-below cfg event hex fits =
    let (upper, lower, zero) = count_leading_zero_bits-CountsZeros event.id hex in
    ground (
      arith,
      enough_bits (value event.id) (span event.id) (count_leading_zero_bits event.id)
          cfg.min_pow_difficulty upper lower zero fits,
    )
