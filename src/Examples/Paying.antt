-- ===== src/Examples/Paying.antt =====
-- Two webhooks for one payment at the same time (internal/membership).
use cloistr_relay.Prelude.{String, true, Option, some, List, [], ◌∷◌}
use cloistr_relay.Membership.Join.{Member}
use cloistr_relay.Membership.Payments.{
  PendingPayment, pending, Move, look_up, check_payment, mark_settled, get_member, update_tier,
}

abbrev payment : PendingPayment
payment = record {
  pubkey = "alice";
  tier = "hybrid";
  amount_sats = 100;
  period_days = 30;
  status = pending;
  created_at = 1;
}

abbrev payments : String → Option PendingPayment
payments hash = some payment

abbrev members : String → Option Member
members key = some (record {
  pubkey = key;
  joined_at = 1;
  invite_code = "";
  added_by = "";
  tier = "free";
  tier_expires_at = 0;
  lightning_address = "";
})

abbrev moves : List Move
moves =
    look_up 0 "h"
    ∷ look_up 1 "h"
    ∷ check_payment 0 (some 100)
    ∷ check_payment 1 (some 100)
    ∷ mark_settled 0 true true
    ∷ mark_settled 1 true true
    ∷ get_member 0 true
    ∷ update_tier 0 true 5
    ∷ []
