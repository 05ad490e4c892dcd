-- ===== src/Protected.antt =====
-- internal/protected/protected.go: protected events (NIP-70), which carry a tag "-".
use cloistr_relay.Prelude.{
  String, ◌≡◌, ◌≢◌, ◌↔◌, ◌⊎◌, Bool, true, false, not, [], ◌∷◌, arith, ◌==◌, string_eq, eq_iff,
  any_of, if◌then◌else◌,
}
use cloistr_relay.Nostr.{Tag, Event, text, Verdict, accept, reject}

pub record Config : Type 0 where
  pub enabled : Bool
  pub allow_protected_events : Bool

abbrev pub default_config : Config
default_config = record { enabled = true; allow_protected_events = true }

is_marker : Tag → Bool
is_marker [] = false
is_marker (name ∷ more) = name == "-"

unfoldable pub is_protected : Event → Bool
unfolding is_marker
is_protected event = any_of is_marker event.tags

unfoldable pub reject_protected_event : Config → String → Event → Verdict
reject_protected_event cfg authed event =
    if not cfg.enabled
    then accept
    else if not (is_protected event)
    then accept
    else if not cfg.allow_protected_events
    then reject (text "blocked: this relay does not accept protected events")
    else if authed == ""
    then reject (text "auth-required: authentication required to publish protected events")
    else if not (event.pubkey == authed)
    then reject (text "blocked: protected events can only be published by their author")
    else accept

-- With the handler enabled, an event is accepted exactly if it is not protected, or the relay takes
-- protected events and the client is authenticated as the event's author.
pub reject_protected_event-author :
    (cfg : Config) (authed : String) (event : Event)
    → cfg.enabled ≡ true
    → (reject_protected_event cfg authed event ≡ accept) ↔ (
        (is_protected event ≡ false)
        ⊎ (cfg.allow_protected_events ≡ true) × (authed ≢ "") × (event.pubkey ≡ authed))
unfolding reject_protected_event
reject_protected_event-author cfg authed event on =
    ground (arith, eq_iff authed "", eq_iff event.pubkey authed)
