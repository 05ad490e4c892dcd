-- ===== src/Handlers/Checks.antt =====
-- The checks of internal/handlers/handlers.go. The clock is an argument, in seconds; a limit that is
-- zero or less in the configuration is 0 here.
use Prim.Native.Char.{Char, code}
use cloistr_relay.Prelude.{
  ℕ, ◌+◌, ◌-◌, ◌≤◌, String, ◌≡◌, ◌↔◌, ◌⊎◌, Bool, not, ◌&&◌, Option, none, some, List, [], ◌∷◌,
  arith, ◌==◌, nat_eq, string_eq, contains, length, ltb, leb, if◌then◌else◌,
}
use cloistr_relay.Nostr.{Event, Filter, msg, num, text, Verdict, accept, reject}

pub record Config : Type 0 where
  pub max_created_at_future : ℕ
  pub max_created_at_past : ℕ
  pub filter_max_authors : ℕ
  pub filter_max_ids : ℕ
  pub filter_max_kinds : ℕ
  pub min_pow_difficulty : ℕ

-- rejectInvalidEvents, given the results of go-nostr's CheckSignature (an error is false) and GetID.
unfoldable pub reject_invalid_events : Bool → String → Event → Verdict
reject_invalid_events signature_ok computed_id event =
    if not signature_ok
    then reject (text "invalid: signature verification failed")
    else if not (computed_id == event.id)
    then reject (text "invalid: event id mismatch")
    else accept

unfoldable pub reject_timestamp_out_of_range : Config → ℕ → Event → Verdict
reject_timestamp_out_of_range cfg now event =
    if ltb 0 cfg.max_created_at_future && ltb (now + cfg.max_created_at_future) event.created_at
    then reject (
        msg "invalid: created_at is too far in the future (max %d seconds)"
          (num cfg.max_created_at_future ∷ []))
    else if ltb 0 cfg.max_created_at_past && ltb (event.created_at + cfg.max_created_at_past) now
    then reject (
        msg "invalid: created_at is too far in the past (max %d seconds)"
          (num cfg.max_created_at_past ∷ []))
    else accept

unfoldable pub reject_complex_filters : Config → Filter → Verdict
reject_complex_filters cfg filter =
    if ltb cfg.filter_max_authors (length filter.authors)
    then reject (msg "error: too many authors in filter (max %d)" (num cfg.filter_max_authors ∷ []))
    else if ltb cfg.filter_max_ids (length filter.ids)
    then reject (msg "error: too many ids in filter (max %d)" (num cfg.filter_max_ids ∷ []))
    else if ltb cfg.filter_max_kinds (length filter.kinds)
    then reject (msg "error: too many kinds in filter (max %d)" (num cfg.filter_max_kinds ∷ []))
    else accept

-- The static and the dynamic exemptions, and the limiter's own answer, which is only asked for when
-- none applies.
unfoldable pub rate_limit_rejecter :
    List String → List ℕ → (String → Bool) → (Event → Verdict) → Event → Verdict
rate_limit_rejecter exempt_pubkeys exempt_kinds is_exempt base_limiter event =
    if contains exempt_pubkeys event.pubkey
    then accept
    else if is_exempt event.pubkey
    then accept
    else if contains exempt_kinds event.kind
    then accept
    else base_limiter event

-- The hexadecimal digits that countLeadingZeroBits knows.
unfoldable pub nibble : Char → Option ℕ
nibble c =
    let n = code c in
    if leb 48 n && leb n 57
    then some (n - 48)
    else if leb 97 n && leb n 102
    then some (n - 97 + 10)
    else if leb 65 n && leb n 70
    then some (n - 65 + 10)
    else none

unfoldable pub zero_bits_of : ℕ → ℕ
zero_bits_of d = if ltb d 2 then 3 else if ltb d 4 then 2 else if ltb d 8 then 1 else 0

unfoldable pub count_leading_zero_bits : String → ℕ
count_leading_zero_bits String.[] = 0
count_leading_zero_bits (String.◌∷◌ c s) =
    let rest = count_leading_zero_bits s in
    elim (nibble c) [ none ↦ 0 | some d ↦ if d == 0 then 4 + rest else zero_bits_of d ]

-- requirePoW. Without a minimum it is not installed; with the minimum 0 it accepts.
unfoldable pub require_pow : Config → Event → Verdict
require_pow cfg event =
    let difficulty = count_leading_zero_bits event.id in
    if ltb difficulty cfg.min_pow_difficulty
    then reject (
        msg "pow: insufficient proof of work (got %d, need %d)"
          (num difficulty ∷ num cfg.min_pow_difficulty ∷ []))
    else accept

module _ (cfg : Config) (now : ℕ) (event : Event) where
  -- An event passes the timestamp check exactly if it is at most the configured number of seconds
  -- ahead of the clock and at most the configured number behind it, each where a limit is set.
  pub reject_timestamp_out_of_range-window :
      (reject_timestamp_out_of_range cfg now event ≡ accept)
      ↔ ((cfg.max_created_at_future ≡ 0) ⊎ (event.created_at ≤ now + cfg.max_created_at_future))
        × ((cfg.max_created_at_past ≡ 0) ⊎ (now ≤ event.created_at + cfg.max_created_at_past))
  unfolding reject_timestamp_out_of_range
  reject_timestamp_out_of_range-window = ground arith
