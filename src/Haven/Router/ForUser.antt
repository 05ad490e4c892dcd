-- ===== src/Haven/Router/ForUser.antt =====
-- The per-user routing of internal/haven/router.go: RouteEventForUser, RouteFilterForUser and
-- CanAccessUserBox.
use cloistr_relay.Prelude.{
  is_empty, String, List, [], ◌∷◌, ◌++◌, map, Bool, true, false, not, ◌&&◌, Option, none, some,
  ◌==◌, nat_eq, string_eq, contains, if◌then◌else◌,
}
use cloistr_relay.Nostr.{Tag, Event, Filter, Fetched, failed, missing, found}
use cloistr_relay.Haven.Types.{
  Box, unknown, private, chat, inbox, outbox, MemberInfo, EventLookup, MemberStore, UserSettings,
}
use cloistr_relay.Haven.Router.{Router, is_reaction_or_repost, route_event, route_filter}

pub record RoutingResult : Type 0 where
  pub box : Box
  pub owner_pubkey : String
  pub tier : String

abbrev pub unowned : Box → RoutingResult
unowned b = record { box = b; owner_pubkey = ""; tier = "" }

-- err == nil && member != nil && member.HasHavenBoxes
unfoldable pub haven_member : Fetched MemberInfo → Option MemberInfo
haven_member failed = none
haven_member missing = none
haven_member (found m) = if m.has_haven_boxes then some m else none

abbrev pub result_in : Box → String → MemberInfo → RoutingResult
result_in b owner m = record { box = b; owner_pubkey = owner; tier = m.tier }

-- The box `b` of `owner` if that is a member with boxes, and otherwise what comes next.
unfoldable pub box_of_member : MemberStore → Box → String → RoutingResult → RoutingResult
unfolding haven_member
box_of_member store b owner next = elim (haven_member (store.get_member_info owner)) [
  | none ↦ next
  | some m ↦ result_in b owner m
]

-- The loop over the p-tags: the inbox of the first tagged member with boxes.
unfoldable pub tagged_inbox : MemberStore → List Tag → RoutingResult → RoutingResult
unfolding box_of_member
tagged_inbox store [] next = next
tagged_inbox store ((name ∷ value ∷ more) ∷ tags) next =
    let rest = tagged_inbox store tags next in
    if name == "p" && not (value == "") then box_of_member store inbox value rest else rest
tagged_inbox store (_ ∷ tags) next = tagged_inbox store tags next

member_author : MemberStore → Fetched Event → Option String
member_author store failed = none
member_author store missing = none
member_author store (found e) = elim (store.is_member e.pubkey) [
  | none ↦ none
  | some b ↦ if b then some e.pubkey else none
]

-- findReferencedMemberEvent.
unfoldable pub find_referenced_member : MemberStore → EventLookup → List Tag → String
unfolding member_author
find_referenced_member store lookup [] = ""
find_referenced_member store lookup ((name ∷ value ∷ more) ∷ tags) =
    let rest = find_referenced_member store lookup tags in
    if name == "e" && not (value == "")
    then elim (member_author store (lookup value)) [ none ↦ rest | some author ↦ author ]
    else rest
find_referenced_member store lookup (_ ∷ tags) = find_referenced_member store lookup tags

pub referenced_owner : Router → MemberStore → Event → String
unfolding find_referenced_member
referenced_owner r store event = elim r.event_lookup [
  | none ↦ ""
  | some lookup ↦
      if is_reaction_or_repost event then find_referenced_member store lookup event.tags else ""
]

unfoldable pub referenced_inbox : Router → MemberStore → Event → RoutingResult
unfolding referenced_owner box_of_member
referenced_inbox r store event =
    let target = referenced_owner r store event in
    if target == "" then unowned unknown else box_of_member store inbox target (unowned unknown)

-- RouteEventForUser from "Multi-user mode" on.
unfoldable pub route_for_member : Router → MemberStore → Event → String → RoutingResult
unfolding box_of_member
route_for_member r store event authed =
    let is_author = not (authed == "") && event.pubkey == authed in
    if contains r.private_kinds event.kind
    then if is_author then box_of_member store private authed (unowned unknown) else unowned unknown
    else if contains r.chat_kinds event.kind
    then if authed == "" then unowned chat else box_of_member store chat authed (unowned chat)
    else let addressed = tagged_inbox store event.tags (referenced_inbox r store event) in
      if is_author then box_of_member store outbox authed addressed else addressed

unfoldable pub route_event_for_user : Router → Event → String → RoutingResult
unfolding route_for_member
route_event_for_user r event authed =
    if not r.config.enabled then unowned unknown else elim r.member_store [
      | none ↦ record { box = route_event r event; owner_pubkey = r.config.owner_pubkey; tier = "" }
      | some store ↦ route_for_member r store event authed
    ]

-- One loop of RouteFilterForUser: the box `b` of each of the pubkeys that is a member with boxes.
unfoldable pub boxes_of_members : MemberStore → Box → List String → List RoutingResult
unfolding haven_member
boxes_of_members store b [] = []
boxes_of_members store b (p ∷ pubkeys) =
    let rest = boxes_of_members store b pubkeys in
    elim (haven_member (store.get_member_info p)) [ none ↦ rest | some m ↦ result_in b p m ∷ rest ]

own_boxes : MemberStore → String → List RoutingResult
unfolding haven_member
own_boxes store authed = elim (haven_member (store.get_member_info authed)) [
  | none ↦ []
  | some m ↦
      result_in outbox authed m
      ∷ result_in inbox authed m
      ∷ result_in private authed m
      ∷ result_in chat authed m
      ∷ []
]

unfoldable pub route_filter_for_user : List Box → Router → Filter → String → List RoutingResult
unfolding own_boxes
route_filter_for_user order r filter authed =
    if not r.config.enabled then [] else elim r.member_store [
      | none ↦
          map (λ b. record { box = b; owner_pubkey = r.config.owner_pubkey; tier = "" })
            (route_filter order r filter authed)
      | some store ↦
          let results =
            boxes_of_members store outbox filter.authors
            ++ boxes_of_members store inbox filter.p_tags in
          if is_empty results && not (authed == "") then own_boxes store authed else results
    ]

-- The last switch of CanAccessUserBox, where no settings are found.
default_access : Box → String → Bool → Bool
default_access outbox requester is_write = not is_write
default_access inbox requester is_write = is_write
default_access chat requester is_write = not (requester == "")
default_access private requester is_write = false
default_access unknown requester is_write = false

settings_access : UserSettings → Box → String → Bool → Bool
settings_access s outbox requester is_write = not is_write && s.public_outbox_read
settings_access s inbox requester is_write = is_write && s.public_inbox_write
settings_access s chat requester is_write = not (requester == "")
settings_access s private requester is_write = false
settings_access s unknown requester is_write = false

-- The first switch, where the box has no owner.
unowned_access : Box → String → Bool → Bool
unowned_access inbox requester is_write = is_write
unowned_access chat requester is_write = not (requester == "")
unowned_access _ requester is_write = false

-- GetUserSettings: without a store there are no settings and no error.
unfoldable pub get_user_settings : Router → String → Fetched UserSettings
get_user_settings r pubkey = elim r.user_settings_store [ none ↦ missing | some get ↦ get pubkey ]

unfoldable pub can_access_user_box : Router → Box → String → String → Bool → Bool
unfolding default_access settings_access unowned_access get_user_settings
can_access_user_box r box requester owner is_write =
    if owner == ""
    then unowned_access box requester is_write
    else if requester == owner
    then true
    else elim (get_user_settings r owner) [
      | failed ↦ default_access box requester is_write
      | missing ↦ default_access box requester is_write
      | found s ↦ settings_access s box requester is_write
    ]
