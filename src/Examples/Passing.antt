-- ===== src/Examples/Passing.antt =====
-- An event on its way through the gates (cmd/relay).
use cloistr_relay.Prelude.{
  ℕ, ◌≤◌, ◌≡◌, ◌↔◌, ◌⊎◌, refl, inr, String, Bool, true, false, Option, none, some, List, [], ◌∷◌,
  ◌++◌,
}
use cloistr_relay.Nostr.{Event, accept}
use cloistr_relay.Auth as Auth
use cloistr_relay.Decimal.{ℤ, pos}
use cloistr_relay.Storage.Tombstone.{answered}
use cloistr_relay.Handlers.Expiry.{reject_expired_events, IsLive, reject_expired_events-IsLive}
use cloistr_relay.Gates.Chain.{Config, World, register_write_gates, run_gates}
use cloistr_relay.Gates.Admissible.{IsAdmissible, run_gates-IsAdmissible}

abbrev cfg : Config
cfg = record {
  checks = record {
    max_created_at_future = 60;
    max_created_at_past = 0;
    filter_max_authors = 10;
    filter_max_ids = 10;
    filter_max_kinds = 10;
    min_pow_difficulty = 0;
  };
  auth = record { policy = Auth.policy_auth_write; write_whitelist = []; exempt_kinds = [] };
  rate_limit_distributed = false;
  rate_limit_events_per_sec = 0;
  rate_limit_exempt_kinds = [];
  rate_limit_exempt_pubkeys = [];
  has_redis = false;
}

abbrev note : Event
note = record {
  id = "ab";
  pubkey = "alice";
  created_at = 5;
  kind = 1;
  tags = ("expiration" ∷ "90" ∷ []) ∷ [];
  content = "";
}

abbrev world : World
world = record {
  signature_ok = true;
  computed_id = "ab";
  now = 7;
  base64_media = λ e. accept;
  ip_limiter = λ e. accept;
  redis_limiter = λ e. accept;
  authed = "alice";
  tombstones = λ id. none;
  tombstones_later = λ id. none;
  first_attempt = answered;
  second_attempt = answered;
  management = some none;
}

passes : (run_gates (register_write_gates cfg world) note).0 ≡ accept
unfolding run_gates register_write_gates reject_expired_events cloistr_relay.Prelude.contains
    cloistr_relay.Handlers.Checks.reject_invalid_events
    cloistr_relay.Handlers.Checks.reject_timestamp_out_of_range
    cloistr_relay.Handlers.Expiry.is_expired cloistr_relay.Handlers.Expiry.get_expiration
    cloistr_relay.Decimal.atoi cloistr_relay.Auth.reject_event cloistr_relay.Auth.evaluate_write
    cloistr_relay.Storage.Tombstone.reject_republished_deletion_event
    cloistr_relay.Storage.Tombstone.is_tombstoned cloistr_relay.Management.Access.access
    cloistr_relay.Management.Access.reject_banned_pubkey
    cloistr_relay.Management.Access.is_pubkey_banned
    cloistr_relay.Management.Access.reject_banned_event
    cloistr_relay.Management.Access.is_event_banned
    cloistr_relay.Management.Access.reject_disallowed_kind
    cloistr_relay.Management.Access.is_kind_allowed
passes = refl

run_gates-IsAdmissible_example : IsAdmissible cfg world note
run_gates-IsAdmissible_example = run_gates-IsAdmissible cfg world note passes
