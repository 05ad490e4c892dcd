-- ===== src/Auth.antt =====
-- internal/auth/auth.go: authentication by NIP-42. The authenticated key is an argument, "" for a
-- client that is not authenticated; the sets that requireAuthForWrite builds are lists here.
use cloistr_relay.Prelude.{
  ℕ, String, ◌≡◌, ◌≢◌, ◌↔◌, ◌⊎◌, Bool, true, false, not, ◌&&◌, List, [], ◌∷◌, arith, ◌==◌, nat_eq,
  string_eq, eq_iff, contains, is_empty, if◌then◌else◌,
}
use cloistr_relay.Nostr.{Event, Filter, text, Verdict, accept, reject}

-- PolicyOpen, PolicyAuthRead, PolicyAuthWrite and PolicyAuthAll.
pub data Policy : Type 0 where
  policy_open policy_auth_read policy_auth_write policy_auth_all : Policy

pub record Config : Type 0 where
  pub policy : Policy
  pub write_whitelist : List String
  pub exempt_kinds : List ℕ

-- The two tests of RegisterAuthHandlers.
abbrev pub guards_read : Policy → Bool
guards_read policy_open = false
guards_read policy_auth_read = true
guards_read policy_auth_write = false
guards_read policy_auth_all = true

abbrev pub guards_write : Policy → Bool
guards_write policy_open = false
guards_write policy_auth_read = false
guards_write policy_auth_write = true
guards_write policy_auth_all = true

unfoldable pub require_auth_for_read : String → Verdict
require_auth_for_read authed =
    if authed == ""
    then reject (text "auth-required: authentication required to read from this relay")
    else accept

unfoldable pub evaluate_write : List ℕ → List String → String → Event → Verdict
evaluate_write exempt_kinds whitelist authed event =
    if event.kind == 22242
    then accept
    else if contains exempt_kinds event.kind
    then accept
    else if authed == ""
    then reject (text "auth-required: authentication required to publish events")
    else if not (event.pubkey == authed)
    then reject (text "restricted: you can only publish events as your authenticated identity")
    else if not (is_empty whitelist) && not (contains whitelist authed)
    then reject (text "restricted: your pubkey is not on the whitelist")
    else accept

-- What the relay answers to an event and to a filter, with the handlers that RegisterAuthHandlers
-- installs under the policy.
unfoldable pub reject_event : Config → String → Event → Verdict
reject_event cfg authed event =
    if guards_write cfg.policy
    then evaluate_write cfg.exempt_kinds cfg.write_whitelist authed event
    else accept

unfoldable pub reject_filter : Config → String → Filter → Verdict
reject_filter cfg authed filter =
    if guards_read cfg.policy then require_auth_for_read authed else accept

evaluate_write-IsOwn :
    (exempt : List ℕ) (whitelist : List String) (authed : String) (event : Event)
    → (evaluate_write exempt whitelist authed event ≡ accept) ↔ (
        ((event.kind ≡ 22242) ⊎ (contains exempt event.kind ≡ true))
        ⊎ (authed ≢ "")
          × (event.pubkey ≡ authed)
          × ((whitelist ≡ []) ⊎ (contains whitelist authed ≡ true)))
unfolding evaluate_write
evaluate_write-IsOwn exempt [] authed event =
    ground (arith, eq_iff authed "", eq_iff event.pubkey authed)
evaluate_write-IsOwn exempt (k ∷ ks) authed event =
    ground (arith, eq_iff authed "", eq_iff event.pubkey authed)

module _ (cfg : Config) (authed : String) (event : Event) where
  abbrev pub IsExempt : Type 0
  IsExempt = (event.kind ≡ 22242) ⊎ (contains cfg.exempt_kinds event.kind ≡ true)

  -- The client is authenticated as the event's author, and on the whitelist if there is one.
  abbrev pub IsOwn : Type 0
  IsOwn =
      (authed ≢ "")
      × (event.pubkey ≡ authed)
      × ((cfg.write_whitelist ≡ []) ⊎ (contains cfg.write_whitelist authed ≡ true))

  -- Under a policy that guards writes, the relay accepts an event exactly if its kind is exempt (or
  -- is that of AUTH itself), or the client is authenticated as its author and is on the whitelist, if
  -- one is configured.
  pub reject_event-IsOwn :
      guards_write cfg.policy ≡ true → (reject_event cfg authed event ≡ accept) ↔ (IsExempt ⊎ IsOwn)
  unfolding reject_event
  reject_event-IsOwn guarded =
      rw guarded (evaluate_write-IsOwn cfg.exempt_kinds cfg.write_whitelist authed event)
