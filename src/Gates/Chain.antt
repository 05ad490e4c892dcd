-- ===== src/Gates/Chain.antt =====
-- cmd/relay/gates.go and RegisterHandlers of internal/handlers/handlers.go: the list of RejectEvent
-- handlers. khatru runs them in the order of their registration and stops at the first rejection.
-- The limiters and khatru's check for embedded media are parameters.
use cloistr_relay.Prelude.{
  ℕ, String, Bool, true, false, not, ◌&&◌, ◌||◌, Option, none, some, List, [], ◌∷◌, ◌++◌, ltb,
}
use cloistr_relay.Nostr.{Event, Verdict, accept, reject}
use cloistr_relay.Handlers.Checks.{
  reject_invalid_events, reject_timestamp_out_of_range, rate_limit_rejecter, require_pow,
}
use cloistr_relay.Handlers.Checks as Checks
use cloistr_relay.Handlers.Expiry.{reject_expired_events}
use cloistr_relay.Auth as Auth
use cloistr_relay.Storage.Tombstone.{Table, Attempt, reject_republished_deletion_event}
use cloistr_relay.Management.Access.{
  AccessSets, is_rate_limit_exempt, reject_banned_pubkey, reject_banned_event,
  reject_disallowed_kind,
}

-- A handler, and whether it asks PostgreSQL.
pub record Gate : Type 0 where
  pub asks_database : Bool
  pub check : Event → Verdict

-- The configuration that the registration reads.
pub record Config : Type 0 where
  pub checks : Checks.Config
  pub auth : Auth.Config
  pub rate_limit_distributed : Bool
  pub rate_limit_events_per_sec : ℕ
  pub rate_limit_exempt_kinds : List ℕ
  pub rate_limit_exempt_pubkeys : List String
  pub has_redis : Bool

-- What the handlers see of the world: go-nostr's CheckSignature and GetID, the clock, khatru's check
-- for embedded media, the limiters, the key that the client is authenticated as, the tables of
-- deleted events at the two attempts and how these end, and the store of bans, if there is one, with
-- its copies.
pub record World : Type 0 where
  pub signature_ok : Bool
  pub computed_id : String
  pub now : ℕ
  pub base64_media : Event → Verdict
  pub ip_limiter : Event → Verdict
  pub redis_limiter : Event → Verdict
  pub authed : String
  pub tombstones : Table
  pub tombstones_later : Table
  pub first_attempt : Attempt
  pub second_attempt : Attempt
  pub management : Option (Option AccessSets)

abbrev pub in_memory : (Event → Verdict) → Gate
in_memory check = record { asks_database = false; check = check }

abbrev pub when : Bool → List Gate → List Gate
when true gates = gates
when false gates = []

unfoldable pub dynamic_exemption : Option (Option AccessSets) → String → Bool
dynamic_exemption none pubkey = false
dynamic_exemption (some snap) pubkey = is_rate_limit_exempt snap pubkey

unfoldable pub is_distributed : Config → Bool
is_distributed cfg = cfg.has_redis && cfg.rate_limit_distributed

-- RegisterHandlers.
unfoldable pub validation_gates : Config → World → List Gate
unfolding is_distributed dynamic_exemption
validation_gates cfg w =
    in_memory (reject_invalid_events w.signature_ok w.computed_id)
    ∷ in_memory (reject_timestamp_out_of_range cfg.checks w.now)
    ∷ in_memory (reject_expired_events w.now)
    ∷ (when (ltb 0 cfg.checks.min_pow_difficulty) (in_memory (require_pow cfg.checks) ∷ [])
        ++ (in_memory w.base64_media
            ∷ when (not (is_distributed cfg) && ltb 0 cfg.rate_limit_events_per_sec) (
                in_memory (
                  rate_limit_rejecter cfg.rate_limit_exempt_pubkeys cfg.rate_limit_exempt_kinds
                    (dynamic_exemption w.management) w.ip_limiter)
                ∷ [])))

unfoldable pub ban_gates : Option (Option AccessSets) → List Gate
ban_gates none = []
ban_gates (some snap) =
    in_memory (reject_banned_pubkey snap)
    ∷ in_memory (reject_banned_event snap)
    ∷ in_memory (reject_disallowed_kind snap)
    ∷ []

unfoldable pub auth_gate : Config → World → Gate
auth_gate cfg w = in_memory (Auth.reject_event cfg.auth w.authed)

unfoldable pub tombstone_gate : World → Gate
tombstone_gate w = record {
  asks_database = true;
  check =
      reject_republished_deletion_event w.tombstones w.tombstones_later w.first_attempt
        w.second_attempt;
}

-- registerWriteGates.
unfoldable pub register_write_gates : Config → World → List Gate
unfolding validation_gates auth_gate tombstone_gate ban_gates is_distributed
register_write_gates cfg w =
    (validation_gates cfg w ++ when (is_distributed cfg) (in_memory w.redis_limiter ∷ []))
    ++ (auth_gate cfg w ∷ tombstone_gate w ∷ ban_gates w.management)

-- What follows a handler: the next ones, or the end. The second component is whether a handler that
-- asks PostgreSQL was run.
unfoldable pub and_then : Verdict → Verdict × Bool → Bool → Verdict × Bool
and_then accept rest asked = (rest.0, asked || rest.1)
and_then (reject m) rest asked = (reject m, asked)

unfoldable pub run_gates : List Gate → Event → Verdict × Bool
unfolding and_then
run_gates [] e = (accept, false)
run_gates (g ∷ gates) e = let rest = run_gates gates e in and_then (g.check e) rest g.asks_database
