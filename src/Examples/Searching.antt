-- ===== src/Examples/Searching.antt =====
-- A search, and its setup at the third attempt (internal/search).
use cloistr_relay.Prelude.{
  ℕ, zero, suc, ◌+◌, ◌≤◌, ◌<◌, ◌≡◌, refl, String, true, Option, none, some, [], ◌∷◌, arith,
}
use cloistr_relay.Nostr.{Event}
use cloistr_relay.Sql
use cloistr_relay.Sql.{all_hold, arg_at}
use cloistr_relay.Search.Query.{SearchFilter}
use cloistr_relay.Search.Selects.{Reads, search-IsFound}
use cloistr_relay.Search.Setup.{retry_setup}
use cloistr_relay.Search.Settled.{IsFirst, IsReady, retry_setup-IsReady}

abbrev note : Event
note = record { id = "1"; pubkey = "alice"; created_at = 70; kind = 1; tags = []; content = "go" }

abbrev texts : Sql.Texts
texts = record { searched = λ s e. true; like = λ s e. true }

abbrev asked : SearchFilter
asked = record {
  search = "go";
  kinds = 1 ∷ 11 ∷ [];
  authors = "bob" ∷ [];
  since = some 50;
  until = none;
  limit = 7;
}

-- The note has another author, so that its row is not found.
search-IsFound_example : Reads texts note asked "go:*"
search-IsFound_example = search-IsFound texts note asked "go:*"

-- The lock times out twice.
abbrev attempt : ℕ → Option String
attempt zero = some "lock timeout"
attempt (suc zero) = some "lock timeout"
attempt (suc (suc zero)) = some "lock timeout"
attempt (suc (suc (suc n))) = none

third : IsFirst attempt (λ i. true) 5 600 (omega arith) 1 2
third = record { success = refl; failures = fails; ends = λ i ge lt. refl }
  where
    fails : (i : ℕ) → 1 ≤ i → i < 1 + 2 → (err : String) × (attempt i ≡ some err)
    fails zero ge lt = ("lock timeout", refl)
    fails (suc zero) ge lt = ("lock timeout", refl)
    fails (suc (suc zero)) ge lt = ("lock timeout", refl)
    fails (suc (suc (suc n))) ge lt = absurd (omega (arith, lt))

retry_setup-IsReady_example :
    IsReady attempt (λ i. true) 5 600 (omega arith) 1 2 [] (retry_setup attempt (λ i. true) 5 600 9)
retry_setup-IsReady_example =
    retry_setup-IsReady attempt (λ i. true) 5 600 (omega arith) 9 2 (omega arith) third
