-- ===== src/Examples/Arbiter.antt =====
-- Two workers claim the same task inside a settle window (internal/arbiterclaim).
use cloistr_relay.Prelude.{
  eq_iff, ℕ, String, ◌≡◌, ◌≢◌, refl, ◌⊎◌, inl, inr, Bool, true, false, Option, none, some, List, [],
  ◌∷◌, arith, ◌≤◌, ◌<◌, ◌+◌, All, string_eq, nat_eq,
}
use cloistr_relay.Prelude.TextOrder.{text_lt}
use cloistr_relay.Nostr.{Event, msg, str, reject, accept}
use cloistr_relay.ArbiterClaim.Claim.{Claim, winner, is_claim, task_id_of, validate, has_tag}
use cloistr_relay.ArbiterClaim.Store.{
  Row, Table, empty, Weather, fair, completed, timed_out_committed, abandoned, holder, handle,
  handle_checked,
}
use cloistr_relay.ArbiterClaim.Race.{Attempt, run, run-fencing}
use cloistr_relay.ArbiterClaim.Winner.{IsConcurrent, run-winner}
use cloistr_relay.ArbiterClaim.Handler.{handle-IsConflict, IsConflict}

abbrev late_claim : Claim
late_claim = record { task_id = "t"; event_id = "0a"; claimant = "alice"; at = 7 }

abbrev early_claim : Claim
early_claim = record { task_id = "t"; event_id = "0f"; claimant = "bob"; at = 5 }

abbrev early : Attempt
early = record { now = 1000; weather = fair; claim = early_claim }

-- The INSERT commits, but its caller sees a timeout.
abbrev late : Attempt
late = record {
  now = 1500;
  weather = record { insert = timed_out_committed; holder_readable = false };
  claim = late_claim;
}

early-IsConcurrent : IsConcurrent 10000 "t" 1000 early
early-IsConcurrent = record {
  for_task = refl;
  late_enough = omega arith;
  early_enough = omega arith;
  commits = λ e. ground (arith, e);
}

late-IsConcurrent : IsConcurrent 10000 "t" 1000 late
late-IsConcurrent = record {
  for_task = refl;
  late_enough = omega arith;
  early_enough = omega arith;
  commits = λ e. ground (arith, e);
}

lowest_wins : winner (early_claim ∷ late_claim ∷ []) ≡ some late_claim
unfolding winner cloistr_relay.Prelude.Sorting.sort_by text_lt
lowest_wins = refl

run-winner_example : holder (run 10000 (early ∷ late ∷ []) empty) "t" ≡ "0a"
run-winner_example =
    run-winner 10000 "t" 1000 early (late ∷ []) empty late_claim refl
      (early-IsConcurrent, (late-IsConcurrent, tt)) lowest_wins

abbrev bobs : Row
bobs = record { event_id = "0f"; claimant = "bob"; claimed_at = 1000 }

abbrev taken : Table
taken = λ task. some bobs

run-fencing_example :
    (row' : Row) × (run 10000 (late ∷ []) taken "t" ≡ some row')
    × (text_lt "0f" row'.event_id ≡ false)
run-fencing_example = run-fencing 10000 "t" (late ∷ []) taken bobs refl

abbrev too_late : Attempt
too_late = record { now = 11000; weather = fair; claim = late_claim }

abbrev claim_event : Event
claim_event = record {
  id = "0a";
  pubkey = "alice";
  created_at = 7;
  kind = 30078;
  tags = ("d" ∷ "arbiter:claim:t" ∷ []) ∷ ("t" ∷ "arbiter-claim" ∷ []) ∷ [];
  content = "";
}

claim_accepted : (handle 10000 1500 fair claim_event empty).0 ≡ accept
unfolding handle is_claim cloistr_relay.Strings.has_prefix handle_checked validate task_id_of
    cloistr_relay.Strings.trim_space cloistr_relay.Strings.trim_prefix has_tag
    cloistr_relay.Prelude.any_of cloistr_relay.ArbiterClaim.Store.try_claim
claim_accepted = refl

claimed_task : task_id_of claim_event ≡ "t"
unfolding task_id_of is_claim cloistr_relay.Strings.has_prefix cloistr_relay.Strings.trim_space
    cloistr_relay.Strings.trim_prefix
claimed_task = refl

other_task : "u" ≢ task_id_of claim_event
other_task e = ground (arith, e, claimed_task, eq_iff "u" "t")

claim_refused :
    (handle 10000 20000 fair claim_event taken).0
    ≡ reject (msg "conflict: task %s already claimed by event %s" (str "t" ∷ str "0f" ∷ []))
unfolding handle is_claim cloistr_relay.Strings.has_prefix handle_checked validate task_id_of
    cloistr_relay.Strings.trim_space cloistr_relay.Strings.trim_prefix has_tag
    cloistr_relay.Prelude.any_of cloistr_relay.ArbiterClaim.Store.try_claim text_lt
claim_refused = refl

handle-IsConflict_example :
    IsConflict 10000 20000 fair claim_event taken "t" "0f"
      (handle 10000 20000 fair claim_event taken).1
handle-IsConflict_example =
    handle-IsConflict 10000 20000 fair claim_event taken "t" "0f" claim_refused
