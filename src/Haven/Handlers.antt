-- ===== src/Haven/Handlers.antt =====
-- internal/haven/handlers.go: the handlers of the single-owner mode (Handler) and of the multi-user
-- mode (MultiUserHandler). Logging and metrics, which decide nothing, are left out.
use cloistr_relay.Prelude.{
  String, List, [], ◌∷◌, Bool, true, false, not, ◌&&◌, Option, none, some, ◌==◌, nat_eq, string_eq,
  any_of, select, contains, if◌then◌else◌,
}
use cloistr_relay.Nostr.{
  Event, Filter, Message, text, Verdict, accept, reject, Fetched, failed, missing, found,
}
use cloistr_relay.Haven.Types.{Box, unknown, private, chat, inbox, outbox, Config, UserSettings}
use cloistr_relay.Haven.Router.{Router, route_event, route_filter, can_access_box}
use cloistr_relay.Haven.Router.ForUser.{
  RoutingResult, route_event_for_user, route_filter_for_user, can_access_user_box,
  get_user_settings,
}

-- The box that a write is checked against: an event of the unknown box is still taken as chat if
-- its kind is a chat kind.
unfoldable pub write_box : Router → Box → Event → Option Box
write_box r unknown event = if contains r.chat_kinds event.kind then some chat else none
write_box r box event = some box

-- The switch of RejectEvent where CanAccessBox refuses.
denied_write : Config → String → Box → Option Message
denied_write c authed private = some (
    if authed == ""
    then text "auth-required: authentication required for private box"
    else text "restricted: only owner can write to private box")
denied_write c authed chat =
    if authed == "" then some (text "auth-required: authentication required for chat") else none
denied_write c authed outbox =
    if authed == c.owner_pubkey
    then none
    else some (text "restricted: only owner can write to outbox")
denied_write c authed inbox = none
denied_write c authed unknown = none

check_write : Router → String → Box → Option Message
unfolding denied_write
check_write r authed box =
    if can_access_box r box authed true then none else denied_write r.config authed box

-- The last test of both RejectEvent handlers.
check_author : String → Event → Verdict
check_author authed event =
    if not (authed == "") && not (event.pubkey == authed)
    then reject (text "restricted: can only publish events as yourself")
    else accept

abbrev no_box : Message
no_box = text "restricted: event does not belong to any HAVEN box"

unfoldable pub reject_event : Router → String → Event → Verdict
unfolding write_box check_write check_author
reject_event r authed event =
    if not r.config.enabled then accept else elim (write_box r (route_event r event) event) [
      | none ↦ reject no_box
      | some box ↦ elim (check_write r authed box) [
        | some m ↦ reject m
        | none ↦ check_author authed event
      ]
    ]

-- The switch of RejectFilter where CanAccessBox refuses.
denied_read : Config → String → Box → Option Message
denied_read c authed private = some (
    if authed == ""
    then text "auth-required: authentication required for private box"
    else text "restricted: only owner can read private box")
denied_read c authed chat =
    if authed == "" then some (text "auth-required: authentication required for chat") else none
denied_read c authed inbox =
    if authed == c.owner_pubkey
    then none
    else some (text "auth-required: only owner can read inbox")
denied_read c authed outbox = none
denied_read c authed unknown = none

unfoldable pub check_read : Router → String → Box → Option Message
unfolding denied_read
check_read r authed box =
    if can_access_box r box authed false then none else denied_read r.config authed box

-- `for _, box := range boxes`: the first refusal is the answer.
unfoldable pub first_refusal : {A : Type 0} → (A → Option Message) → List A → Verdict
first_refusal check [] = accept
first_refusal check (x ∷ xs) =
    let rest = first_refusal check xs in elim (check x) [ some m ↦ reject m | none ↦ rest ]

unfoldable pub reject_filter : List Box → Router → String → Filter → Verdict
reject_filter order r authed filter =
    if not r.config.enabled
    then accept
    else first_refusal (check_read r authed) (route_filter order r filter authed)

unfoldable pub without_private_kinds : Router → Filter → Filter
without_private_kinds r filter = record filter {
  kinds = select (λ k. not (contains r.private_kinds k)) filter.kinds;
}

unfoldable pub overwrite_filter : Router → String → Filter → Filter
unfolding without_private_kinds
overwrite_filter r authed filter =
    if not r.config.enabled
    then filter
    else if authed == r.config.owner_pubkey
    then filter
    else without_private_kinds r filter

-- MultiUserHandler. `wot` is the optional WoTUserFilter; only its `Allowed` decides.
pub record MultiUserHandler : Type 0 where
  pub router : Router
  pub wot_user_filter : Option (Event → String → Bool)

inbox_disabled : Fetched UserSettings → Bool
inbox_disabled failed = false
inbox_disabled missing = false
inbox_disabled (found s) = not s.public_inbox_write

outbox_hidden : Fetched UserSettings → Bool
outbox_hidden failed = false
outbox_hidden missing = false
outbox_hidden (found s) = not s.public_outbox_read

denied_user_write : Router → String → String → Box → Option Message
unfolding inbox_disabled
denied_user_write r authed owner private = some (
    if authed == ""
    then text "auth-required: authentication required for private box"
    else text "restricted: only owner can write to private box")
denied_user_write r authed owner chat =
    if authed == "" then some (text "auth-required: authentication required for chat") else none
denied_user_write r authed owner inbox =
    if not (owner == "") && inbox_disabled (get_user_settings r owner)
    then some (text "restricted: inbox write is disabled for this user")
    else none
denied_user_write r authed owner outbox =
    if authed == owner then none else some (text "restricted: only owner can write to outbox")
denied_user_write r authed owner unknown = none

unfoldable pub check_user_write : Router → String → String → Box → Option Message
unfolding denied_user_write
check_user_write r authed owner box =
    if can_access_user_box r box authed owner true
    then none
    else denied_user_write r authed owner box

-- result.Box == BoxInbox && result.OwnerPubkey != "" && h.wotUserFilter != nil, and not allowed
wot_blocks : MultiUserHandler → Event → String → Box → Bool
wot_blocks h event owner inbox = elim h.wot_user_filter [
  | none ↦ false
  | some allowed ↦ not (owner == "") && not (allowed event owner)
]
wot_blocks h event owner _ = false

-- RejectEvent from the routing decision on.
unfoldable pub reject_routed : MultiUserHandler → String → Event → RoutingResult → Verdict
unfolding write_box check_user_write wot_blocks check_author
reject_routed h authed event result = elim (write_box h.router result.box event) [
  | none ↦ reject no_box
  | some box ↦ elim (check_user_write h.router authed result.owner_pubkey box) [
    | some m ↦ reject m
    | none ↦
        if wot_blocks h event result.owner_pubkey box
        then reject (text "restricted: blocked by recipient's WoT settings")
        else check_author authed event
  ]
]

unfoldable pub reject_event_multi : MultiUserHandler → String → Event → Verdict
reject_event_multi h authed event =
    if not h.router.config.enabled
    then accept
    else reject_routed h authed event (route_event_for_user h.router event authed)

denied_user_read : Router → String → String → Box → Option Message
unfolding outbox_hidden
denied_user_read r authed owner private = some (
    if authed == ""
    then text "auth-required: authentication required for private box"
    else text "restricted: only owner can read private box")
denied_user_read r authed owner chat =
    if authed == "" then some (text "auth-required: authentication required for chat") else none
denied_user_read r authed owner inbox =
    if authed == owner then none else some (text "auth-required: only owner can read inbox")
denied_user_read r authed owner outbox =
    if not (owner == "") && not (authed == owner) && outbox_hidden (get_user_settings r owner)
    then some (text "auth-required: outbox read is restricted for this user")
    else none
denied_user_read r authed owner unknown = none

unfoldable pub check_user_read : Router → String → RoutingResult → Option Message
unfolding denied_user_read
check_user_read r authed result =
    if can_access_user_box r result.box authed result.owner_pubkey false
    then none
    else denied_user_read r authed result.owner_pubkey result.box

unfoldable pub reject_filter_multi : List Box → MultiUserHandler → String → Filter → Verdict
reject_filter_multi order h authed filter =
    if not h.router.config.enabled
    then accept
    else first_refusal (check_user_read h.router authed)
        (route_filter_for_user order h.router filter authed)

unfoldable pub overwrite_filter_multi : List Box → MultiUserHandler → String → Filter → Filter
unfolding without_private_kinds
overwrite_filter_multi order h authed filter =
    if not h.router.config.enabled
    then filter
    else let results = route_filter_for_user order h.router filter authed in
      if any_of (λ (x : RoutingResult). x.owner_pubkey == authed) results
      then filter
      else without_private_kinds h.router filter
