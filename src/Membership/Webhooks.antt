-- ===== src/Membership/Webhooks.antt =====
-- Payments over any run of webhooks.
use cloistr_relay.Prelude.{String, Option, [], nat_eq, string_eq}
use cloistr_relay.Membership.Join.{Member}
use cloistr_relay.Membership.Payments.{PendingPayment, idle, State}

-- A start with any payments and members, and no webhook at work.
unfoldable pub start : (String → Option PendingPayment) → (String → Option Member) → State
start payments members = record {
  payments = payments;
  members = members;
  webhooks = λ i. idle;
  granted = [];
}
