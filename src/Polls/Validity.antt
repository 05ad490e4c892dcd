-- ===== src/Polls/Validity.antt =====
-- Which responses are valid.
use cloistr_relay.Prelude.{
  ℕ, ◌≤◌, ◌≡◌, ◌↔◌, true, false, List, [], ◌∷◌, length, All, In, arith, contains,
}
use cloistr_relay.Decimal.{ℤ, pos, negsuc, int_eq}
use cloistr_relay.Polls.Types.{
  Poll, PollResponse, count_lt, lt_count, option_indices, all_options, validate_response,
}

-- The number of selections lies between the bounds; a negative lower bound asks for nothing, and a
-- negative upper bound allows nothing.
abbrev pub IsAtLeast : ℕ → ℤ → Type 0
IsAtLeast n (pos m) = m ≤ n
IsAtLeast n (negsuc m) = Unit

abbrev pub IsAtMost : ℕ → ℤ → Type 0
IsAtMost n (pos m) = n ≤ m
IsAtMost n (negsuc m) = ⊥

contains-In : (z : ℤ) (zs : List ℤ) → (contains zs z ≡ true) ↔ In z zs
unfolding contains
contains-In z [] = ground arith
contains-In z (x ∷ zs) = (
  λ h. ground (arith, h, contains-In z zs, int_eq.same_iff x z),
  λ h. ground (arith, h, contains-In z zs, int_eq.same_iff x z),
)

all_options-All : (zs ss : List ℤ) → (all_options zs ss ≡ true) ↔ All (λ s. In s zs) ss
unfolding all_options
all_options-All zs [] = ground arith
all_options-All zs (s ∷ ss) = ground (arith, contains-In s zs, all_options-All zs ss)

count-IsAtLeast : (n : ℕ) (z : ℤ) → (count_lt n z ≡ false) ↔ IsAtLeast n z
count-IsAtLeast n (pos m) = ground arith
count-IsAtLeast n (negsuc m) = ground arith

count-IsAtMost : (n : ℕ) (z : ℤ) → (lt_count z n ≡ false) ↔ IsAtMost n z
count-IsAtMost n (pos m) = ground arith
count-IsAtMost n (negsuc m) = ground arith

-- A response is valid exactly if the number of its selections lies between the poll's bounds and
-- each of them is the index of an option. (A selection that is named twice counts twice.)
pub validate_response-IsValid :
    (poll : Poll) (r : PollResponse)
    → (validate_response poll r ≡ true) ↔ (
        IsAtLeast (length r.selections) poll.min_choices
        × IsAtMost (length r.selections) poll.max_choices
        × All (λ s. In s (option_indices poll.options)) r.selections)
unfolding validate_response
validate_response-IsValid poll r = ground (
  arith,
  count-IsAtLeast (length r.selections) poll.min_choices,
  count-IsAtMost (length r.selections) poll.max_choices,
  all_options-All (option_indices poll.options) r.selections,
)
