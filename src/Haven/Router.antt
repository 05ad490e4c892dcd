-- ===== src/Haven/Router.antt =====
-- internal/haven/router.go: which box an event belongs to, which boxes a filter asks for, and who
-- may read or write a box. A Go map used as a set of kinds is the list that it was filled from.
pub mod ForUser
use cloistr_relay.Prelude.{
  is_empty, ℕ, String, List, [], ◌∷◌, ◌++◌, Bool, true, false, not, ◌&&◌, ◌||◌, Option, none, some,
  ◌==◌, nat_eq, string_eq, any_of, select, contains, if◌then◌else◌,
}
use cloistr_relay.Nostr.{Tag, Event, Filter, Fetched, failed, missing, found}
use cloistr_relay.Haven.Types.{
  Box, unknown, private, chat, inbox, outbox, Config, EventLookup, MemberStore, UserSettings,
  AccessPolicy, box_policies, default_private_kinds, default_chat_kinds, default_inbox_kinds,
  default_outbox_kinds,
}

pub record Router : Type 0 where
  pub config : Config
  pub private_kinds : List ℕ
  pub chat_kinds : List ℕ
  pub inbox_kinds : List ℕ
  pub outbox_kinds : List ℕ
  pub event_lookup : Option EventLookup
  pub member_store : Option MemberStore
  pub user_settings_store : Option (String → Fetched UserSettings)

abbrev pub new_router : Config → Router
new_router c = record {
  config = c;
  private_kinds = default_private_kinds ++ c.private_kinds;
  chat_kinds = default_chat_kinds;
  inbox_kinds = default_inbox_kinds;
  outbox_kinds = default_outbox_kinds;
  event_lookup = none;
  member_store = none;
  user_settings_store = none;
}

-- ["p", target, ...]
unfoldable pub is_p_tag : String → Tag → Bool
is_p_tag target (name ∷ value ∷ rest) = name == "p" && value == target
is_p_tag target (name ∷ []) = false
is_p_tag target [] = false

is_by : String → Fetched Event → Bool
is_by owner failed = false
is_by owner missing = false
is_by owner (found e) = e.pubkey == owner

-- ["e", id, ...], where the event of that id was written by `owner`
unfoldable pub is_e_tag_of : EventLookup → String → Tag → Bool
unfolding is_by
is_e_tag_of lookup owner (name ∷ value ∷ rest) =
    name == "e" && not (value == "") && is_by owner (lookup value)
is_e_tag_of lookup owner (name ∷ []) = false
is_e_tag_of lookup owner [] = false

unfoldable pub references_owner_event : Router → Event → Bool
references_owner_event r event = elim r.event_lookup [
  | none ↦ false
  | some lookup ↦ any_of (is_e_tag_of lookup r.config.owner_pubkey) event.tags
]

abbrev pub is_reaction_or_repost : Event → Bool
is_reaction_or_repost event = event.kind == 6 || event.kind == 7

unfoldable pub is_addressed_to_owner : Router → Event → Bool
unfolding references_owner_event
is_addressed_to_owner r event =
    if r.config.owner_pubkey == ""
    then false
    else if any_of (is_p_tag r.config.owner_pubkey) event.tags
    then true
    else is_reaction_or_repost event && references_owner_event r event

unfoldable pub route_event : Router → Event → Box
route_event r event =
    if not r.config.enabled
    then unknown
    else if contains r.private_kinds event.kind
    then if event.pubkey == r.config.owner_pubkey then private else unknown
    else if contains r.chat_kinds event.kind
    then chat
    else if event.pubkey == r.config.owner_pubkey
    then outbox
    else if is_addressed_to_owner r event
    then inbox
    else unknown

abbrev is_outbox : Box → Bool
is_outbox outbox = true
is_outbox _ = false

abbrev is_inbox : Box → Bool
is_inbox inbox = true
is_inbox _ = false

unfoldable pub can_access_box : Router → Box → String → Bool → Bool
unfolding box_policies
can_access_box r box pubkey is_write = elim (box_policies r.config box) [
  | none ↦ false
  | some policy ↦
      if policy.owner_only && not (pubkey == r.config.owner_pubkey)
      then false
      else if is_write && policy.write_requires_auth && pubkey == ""
      then false
      else if not is_write && policy.read_requires_auth && pubkey == ""
      then false
      else if is_outbox box && is_write && not (pubkey == r.config.owner_pubkey)
      then false
      else if is_outbox box
          && not is_write
          && policy.read_requires_auth
          && not (pubkey == r.config.owner_pubkey)
      then false
      else not (is_inbox box && not is_write && not (pubkey == r.config.owner_pubkey))
]

-- The set `map[Box]bool` that RouteFilter fills.
pub record BoxSet : Type 0 where
  pub has_private : Bool
  pub has_chat : Bool
  pub has_inbox : Bool
  pub has_outbox : Bool

abbrev pub has : BoxSet → Box → Bool
has s private = s.has_private
has s chat = s.has_chat
has s inbox = s.has_inbox
has s outbox = s.has_outbox
has s unknown = false

-- The three loops of RouteFilter. An inbox or outbox kind adds what the author and p-tag loops
-- after it add in any case.
unfoldable pub boxes_of_filter : Router → Filter → BoxSet
boxes_of_filter r filter =
    let owner_author = contains filter.authors r.config.owner_pubkey in
    let owner_tagged = contains filter.p_tags r.config.owner_pubkey in
    let box_kind =
      any_of (λ k. contains r.inbox_kinds k || contains r.outbox_kinds k) filter.kinds in
    record {
      has_private = any_of (contains r.private_kinds) filter.kinds;
      has_chat = any_of (contains r.chat_kinds) filter.kinds;
      has_inbox = (box_kind && owner_tagged) || owner_tagged;
      has_outbox = (box_kind && owner_author) || owner_author;
    }

-- What RouteFilter returns when no box was determined.
unfoldable pub default_boxes : Router → Filter → String → List Box
default_boxes r filter authed =
    if not (is_empty filter.authors) && not (contains filter.authors r.config.owner_pubkey)
    then []
    else if authed == r.config.owner_pubkey
    then private ∷ chat ∷ inbox ∷ outbox ∷ []
    else outbox ∷ []

-- `order` is the order in which `range` walks the map, which Go leaves open.
unfoldable pub route_filter : List Box → Router → Filter → String → List Box
unfolding boxes_of_filter default_boxes
route_filter order r filter authed =
    if not r.config.enabled
    then []
    else let boxes = select (has (boxes_of_filter r filter)) order in
      if is_empty boxes then default_boxes r filter authed else boxes

-- GetBoxForKind and IsOwner.
unfoldable pub get_box_for_kind : Router → ℕ → Box
get_box_for_kind r kind =
    if contains r.private_kinds kind
    then private
    else if contains r.chat_kinds kind
    then chat
    else unknown

unfoldable pub is_owner : Router → String → Bool
is_owner r pubkey = pubkey == r.config.owner_pubkey && not (pubkey == "")
