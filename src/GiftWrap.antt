-- ===== src/GiftWrap.antt =====
-- internal/giftwrap/giftwrap.go: gift wraps (NIP-59), which only their recipient may read.
use cloistr_relay.Prelude.{
  ℕ, String, ◌≡◌, ◌≢◌, ◌↔◌, Bool, true, not, [], ◌∷◌, arith, ◌==◌, nat_eq, string_eq, eq_iff,
  contains, any_of, is_empty, if◌then◌else◌,
}
use cloistr_relay.Nostr.{Filter, text, Verdict, accept, reject}

abbrev pub kind_gift_wrap : ℕ
kind_gift_wrap = 1059

pub record Config : Type 0 where
  pub enabled : Bool
  pub require_auth_for_gift_wrap : Bool

abbrev pub default_config : Config
default_config = record { enabled = true; require_auth_for_gift_wrap = true }

unfoldable pub reject_gift_wrap_filter : Config → String → Filter → Verdict
reject_gift_wrap_filter cfg authed filter =
    if not (contains filter.kinds kind_gift_wrap)
    then accept
    else if not cfg.require_auth_for_gift_wrap
    then accept
    else if authed == ""
    then reject (text "auth-required: authentication required to query gift wrap events")
    else if is_empty filter.p_tags
    then reject (text "restricted: must filter by your pubkey when querying gift wrap events")
    else if not (contains filter.p_tags authed)
    then reject (text "restricted: can only query gift wrap events addressed to you")
    else accept

unfoldable pub overwrite_gift_wrap_filter : String → Filter → Filter
overwrite_gift_wrap_filter authed filter =
    if not (contains filter.kinds kind_gift_wrap)
    then filter
    else if authed == ""
    then filter
    else record filter { p_tags = authed ∷ [] }

-- The two handlers that RegisterHandlers installs, in khatru's order: every OverwriteFilter runs
-- before any RejectFilter. The verdict, and what the store is asked if it is to accept.
unfoldable pub served_filter : Config → String → Filter → Verdict × Filter
served_filter cfg authed filter =
    let f = overwrite_gift_wrap_filter authed filter in
    if cfg.require_auth_for_gift_wrap
    then (reject_gift_wrap_filter cfg authed f, f)
    else (accept, filter)

-- With the restriction on, a filter that names gift wraps is accepted exactly for an authenticated
-- client and with the question narrowed to the client's own key as the recipient, the rest of the
-- filter unchanged.
pub served_filter-recipient :
    (cfg : Config) (authed : String) (filter : Filter)
    → cfg.require_auth_for_gift_wrap ≡ true
    → contains filter.kinds kind_gift_wrap ≡ true
    → ((served_filter cfg authed filter).0 ≡ accept)
      ↔ (authed ≢ "")
        × ((served_filter cfg authed filter).1 ≡ record filter { p_tags = authed ∷ [] })
unfolding served_filter overwrite_gift_wrap_filter reject_gift_wrap_filter contains any_of
served_filter-recipient cfg authed filter on wraps =
    ground (arith, eq_iff authed "", eq_iff authed authed)
