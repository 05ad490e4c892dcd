-- ===== src/Examples/Gates.antt =====
-- Events at the gates of internal/auth and handlers, and calls of a limiter (internal/ratelimit).
use cloistr_relay.Prelude.{
  ◌*◌, ◌≤◌, false, List, ◌≡◌, ◌↔◌, refl, ◌⊎◌, [], ◌∷◌, arith, ◌<◌, ◌^◌, string_eq, nat_eq,
}
use cloistr_relay.Nostr.{Event, accept}
use cloistr_relay.Auth.{
  policy_auth_write, IsExempt, IsOwn, reject_event-IsOwn, Config as AuthConfig,
  reject_event as reject_unauthenticated,
}
use cloistr_relay.Handlers.Checks.{Config, require_pow, nibble}
use cloistr_relay.Handlers.Bits.{IsHex, span, value}
use cloistr_relay.Handlers.Pow.{require_pow-below}
use cloistr_relay.RateLimit.{Bucket, Op, load, add, deduct, delete}

abbrev note : Event
note = record {
  id = "00f1";
  pubkey = "alice";
  created_at = 100;
  kind = 1;
  tags = ("-" ∷ []) ∷ [];
  content = "";
}

abbrev auth_config : AuthConfig
auth_config = record {
  policy = policy_auth_write;
  write_whitelist = "alice" ∷ [];
  exempt_kinds = 24133 ∷ [];
}

reject_event-IsOwn_example :
    (reject_unauthenticated auth_config "alice" note ≡ accept)
    ↔ (IsExempt auth_config "alice" note ⊎ IsOwn auth_config "alice" note)
reject_event-IsOwn_example = reject_event-IsOwn auth_config "alice" note refl

abbrev limits : Config
limits = record {
  max_created_at_future = 900;
  max_created_at_past = 0;
  filter_max_authors = 10;
  filter_max_ids = 10;
  filter_max_kinds = 10;
  min_pow_difficulty = 8;
}

note-IsHex : IsHex "00f1"
unfolding nibble
note-IsHex = ((0, refl), ((0, refl), ((15, refl), ((1, refl), tt))))

note_span : 2 ^ 8 ≤ span "00f1"
unfolding span
note_span = omega arith

require_pow-below_example :
    (require_pow limits note ≡ accept) ↔ (value "00f1" * 2 ^ 8 < span "00f1")
require_pow-below_example = require_pow-below limits note note-IsHex note_span

abbrev unused : Bucket
unused = record { spent = 0; passed = 0; doomed = false }

-- Two calls pass the test for the one token, and the sweep ends with a deletion.
abbrev overlap : List Op
overlap = load ∷ load ∷ add ∷ add ∷ deduct ∷ delete ∷ load ∷ []
