-- ===== src/Search/Setup.antt =====
-- internal/search/search.go: the attempts to set the search up. The errors of the attempts and the
-- ends of the waits are parameters; durations are in nanoseconds. The log messages are left out.
use cloistr_relay.Prelude.{
  ℕ, zero, suc, ◌*◌, String, Bool, true, false, Option, none, some, List, [], ◌∷◌, ◌++◌, ltb,
  if◌then◌else◌, string_eq, ◌==◌,
}

unfoldable pub max_setup_retry_wait : ℕ
max_setup_retry_wait = 600_000_000_000

-- Go's min.
unfoldable pub least : ℕ → ℕ → ℕ
least a b = if ltb a b then a else b

-- The wait after an error: the same error twice in a row doubles it.
unfoldable pub next_wait : ℕ → ℕ → ℕ → String → String → ℕ
unfolding least
next_wait every max_wait next last_err err =
    if err == last_err then least (next * 2) max_wait else every

-- What retrySetup returns, with the waits that it has asked for.
pub record Retried : Type 0 where
  pub attempts : ℕ
  pub ready : Bool
  pub waits : List ℕ

-- Attempt `n` ends with an error, or with none; `waited n` is whether the wait after it ends before
-- the context does.
module _ (attempt : ℕ → Option String) (waited : ℕ → Bool) (every max_wait : ℕ) where
  -- What follows an attempt; `again` goes on with the loop.
  unfoldable pub after_attempt :
      (ℕ → ℕ → String → List ℕ → Option Retried)
      → ℕ
      → ℕ
      → String
      → List ℕ
      → Option String
      → Option Retried
  unfolding next_wait
  after_attempt again n next last_err waits none =
      some (record { attempts = n; ready = true; waits = waits })
  after_attempt again n next last_err waits (some err) =
      let w = next_wait every max_wait next last_err err in
      if waited n
      then again (suc n) w err (waits ++ w ∷ [])
      else some (record { attempts = n; ready = false; waits = waits ++ w ∷ [] })

  -- The loop on fuel: `none` is a loop that has not ended.
  unfoldable pub retry_from : ℕ → ℕ → ℕ → String → List ℕ → Option Retried
  unfolding after_attempt
  retry_from zero n next last_err waits = none
  retry_from (suc fuel) n next last_err waits =
      after_attempt (retry_from fuel) n next last_err waits (attempt n)

  unfoldable pub retry_setup : ℕ → Option Retried
  unfolding retry_from
  retry_setup fuel = retry_from fuel 1 every "" []
