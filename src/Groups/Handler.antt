-- ===== src/Groups/Handler.antt =====
-- internal/groups/handler.go: what the handler accepts, and what it does with a saved event. The
-- publications are messages to the log only; they are left out but for what they slice.
use cloistr_relay.Prelude.{
  ℕ, String, Bool, not, ◌&&◌, ◌||◌, Option, none, some, List, [], ◌∷◌, ◌==◌, string_eq, nat_eq,
  any_of, contains, if◌then◌else◌,
}
use cloistr_relay.Nostr.{Tag, Event, Filter, text, Verdict, accept, reject}
use cloistr_relay.Groups.Kinds.{
  can_read, can_write, can_join, show_metadata, is_moderator_kind, is_group_metadata_kind,
  is_group_management_kind, kind_create_group,
}
use cloistr_relay.Groups.Store.{Group, Store, Config, get_group}
use cloistr_relay.Groups.Roster.{is_member, is_admin}

abbrev pub kind_add_user : ℕ
kind_add_user = 9000

abbrev pub kind_remove_user : ℕ
kind_remove_user = 9001

abbrev pub kind_edit_metadata : ℕ
kind_edit_metadata = 9002

abbrev pub kind_delete_group : ℕ
kind_delete_group = 9008

abbrev pub kind_create_invite : ℕ
kind_create_invite = 9009

abbrev pub kind_join_request : ℕ
kind_join_request = 9021

abbrev pub kind_leave_request : ℕ
kind_leave_request = 9022

-- The value of the first tag of that name, or the text given for none; and of the last.
unfoldable pub first_value : String → String → List Tag → String
first_value key none_text [] = none_text
first_value key none_text ((k ∷ v ∷ r) ∷ tags) =
    let rest = first_value key none_text tags in if k == key then v else rest
first_value key none_text ((k ∷ []) ∷ tags) = first_value key none_text tags
first_value key none_text ([] ∷ tags) = first_value key none_text tags

unfoldable pub last_value : String → String → List Tag → String
last_value key so_far [] = so_far
last_value key so_far ((k ∷ v ∷ r) ∷ tags) = last_value key (if k == key then v else so_far) tags
last_value key so_far ((k ∷ []) ∷ tags) = last_value key so_far tags
last_value key so_far ([] ∷ tags) = last_value key so_far tags

unfoldable pub get_group_id_from_event : Event → String
unfolding first_value
get_group_id_from_event event = first_value "h" "" event.tags

unfoldable pub first_text : List String → String
first_text [] = ""
first_text (x ∷ xs) = x

unfoldable pub get_group_id_from_filter : Filter → String
unfolding first_text
get_group_id_from_filter filter = first_text filter.h_tags

-- The author is the authenticated client.
unfoldable pub is_authed_as : String → Event → Bool
is_authed_as authed event = not (authed == "") && authed == event.pubkey

unfoldable pub handle_create_group_event : Config → Event → String → Verdict
unfolding is_authed_as
handle_create_group_event cfg event authed =
    if not cfg.allow_public_group_creation && not (contains cfg.admin_pubkeys event.pubkey)
    then reject (text "restricted: group creation not allowed")
    else if not (is_authed_as authed event)
    then reject (text "auth-required: authentication required to create groups")
    else accept

unfoldable pub handle_moderation_event : Store → Event → String → String → Verdict
unfolding is_authed_as
handle_moderation_event st event id authed =
    if not (is_authed_as authed event)
    then reject (text "auth-required: authentication required for moderation")
    else if not (is_admin st id event.pubkey)
    then reject (text "restricted: only admins can perform moderation actions")
    else accept

unfoldable pub handle_management_event : Event → Group → String → Verdict
unfolding is_authed_as
handle_management_event event g authed =
    if not (is_authed_as authed event)
    then reject (text "auth-required: authentication required")
    else if event.kind == kind_join_request && not (can_join g.row.privacy)
    then reject (text "restricted: this group does not accept join requests")
    else accept

unfoldable pub check_group_event : Store → String → Event → String → Option Group → Verdict
unfolding handle_moderation_event handle_management_event
check_group_event st authed event id none = reject (text "restricted: group not found")
check_group_event st authed event id (some g) =
    if is_moderator_kind event.kind
    then handle_moderation_event st event id authed
    else if is_group_management_kind event.kind
    then handle_management_event event g authed
    else if not (can_write g.row.privacy (is_member st id event.pubkey))
    then (if authed == ""
        then reject (text "auth-required: authentication required to post to this group")
        else reject (text "restricted: only members can post to this group"))
    else accept

-- RejectEvent; the second argument is the authenticated key of the client, or empty.
unfoldable pub reject_event : Config → String → Store → Event → Verdict
unfolding handle_create_group_event check_group_event
reject_event cfg authed st event =
    let id = get_group_id_from_event event in
    if not cfg.enabled || id == ""
    then accept
    else if event.kind == kind_create_group
    then handle_create_group_event cfg event authed
    else check_group_event st authed event id (get_group st id)

unfoldable pub check_group_filter : String → Filter → Bool → Option Group → Verdict
check_group_filter authed filter member none = reject (text "restricted: group not found")
check_group_filter authed filter member (some g) =
    if not (can_read g.row.privacy member)
    then (if authed == ""
        then reject (text "auth-required: authentication required to read this group")
        else reject (text "restricted: only members can read this group"))
    else if not (show_metadata g.row.privacy member) && any_of is_group_metadata_kind filter.kinds
    then reject (text "restricted: group metadata is hidden")
    else accept

unfoldable pub reject_filter : Config → String → Store → Filter → Verdict
unfolding check_group_filter
reject_filter cfg authed st filter =
    let id = get_group_id_from_filter filter in
    if not cfg.enabled || id == ""
    then accept
    else check_group_filter authed filter (is_member st id authed) (get_group st id)
