-- ===== src/Groups/Saved.antt =====
-- internal/groups/handler.go, OnEventSaved: what is done with an event that was stored.
use cloistr_relay.Prelude.{
  ℕ, ◌+◌, String, Bool, true, false, not, ◌||◌, Option, none, some, List, [], ◌∷◌, ◌==◌, string_eq,
  nat_eq, if◌then◌else◌,
}
use cloistr_relay.Nostr.{Tag, Event}
use cloistr_relay.Groups.Kinds.{
  Privacy, other, privacy_open, privacy_restricted, privacy_private, privacy_hidden, privacy_closed,
  privacy_of, kind_create_group,
}
use cloistr_relay.Groups.Store.{
  Group, Store, Config, Sql, Reply, done, failed, panicked, Metadata, create_group, get_group,
  delete_group, update_group_metadata, logged,
}
use cloistr_relay.Groups.Roster.{add_member, remove_member, create_invite, use_invite}
use cloistr_relay.Groups.Handler.{
  first_value, last_value, get_group_id_from_event, kind_add_user, kind_remove_user,
  kind_edit_metadata, kind_delete_group, kind_create_invite, kind_join_request, kind_leave_request,
}

-- What Sscanf with "%d" leaves in max_uses, 0 for a negative number, and time.Parse.
pub record Parsers : Type 0 where
  pub scan_uses : String → ℕ → ℕ
  pub parse_time : String → Option ℕ

-- Whether the handler came to its end. An error of the store only ends up in the log.
unfoldable pub ended {ℓ} : {A : Type ℓ} → Reply A → Bool
ended (done a) = true
ended (failed e) = true
ended panicked = false

unfoldable pub conclude {ℓ} : {A : Type ℓ} → Reply A × Store → Bool × Store
unfolding ended
conclude r = (ended r.0, r.1)

-- publishMemberList and publishGroupMetadata, with a relay: whether they come to their end.
unfoldable pub publish_member_list : Sql → String → Bool
unfolding ended
publish_member_list q id = if q.members_listed then ended {0} (logged (id ∷ []) tt) else true

unfoldable pub publish_group_metadata : String → Option Group → Bool
unfolding ended
publish_group_metadata id none = true
publish_group_metadata id (some g) = ended {0} (logged (id ∷ []) tt)

-- What follows a call of the store: a publication, unless the call failed or panicked.
unfoldable pub and_then {ℓ} : {A : Type ℓ} → Bool → Reply A → Bool
and_then published (done a) = published
and_then published (failed e) = true
and_then published panicked = false

unfoldable pub with_members {ℓ} : {A : Type ℓ} → Sql → String → Reply A × Store → Bool × Store
unfolding and_then publish_member_list
with_members q id r = (and_then (publish_member_list q id) r.0, r.1)

-- Privacy(tag[1]) of the first privacy tag.
unfoldable pub first_privacy : Privacy → List Tag → Privacy
first_privacy level [] = level
first_privacy level ((k ∷ v ∷ r) ∷ tags) =
    let rest = first_privacy level tags in if k == "privacy" then privacy_of v else rest
first_privacy level ((k ∷ []) ∷ tags) = first_privacy level tags
first_privacy level ([] ∷ tags) = first_privacy level tags

unfoldable pub process_create_group : Config → Sql → Event → Store → Bool × Store
unfolding conclude
process_create_group cfg q event st = conclude (
    create_group cfg q event.pubkey (first_value "name" "Unnamed Group" event.tags)
      (first_privacy cfg.default_privacy event.tags) st)

unfoldable pub process_add_user : Sql → Event → String → Store → Bool × Store
unfolding with_members publish_member_list
process_add_user q event id st =
    let pubkey = last_value "p" "" event.tags in
    if pubkey == ""
    then (true, st)
    else with_members q id
        (add_member q id pubkey (last_value "role" "" event.tags) event.pubkey st)

unfoldable pub process_remove_user : Sql → Event → String → Store → Bool × Store
unfolding with_members publish_member_list
process_remove_user q event id st =
    let pubkey = first_value "p" "" event.tags in
    if pubkey == "" then (true, st) else with_members q id (remove_member q id pubkey st)

unfoldable pub edited : Event → Metadata
edited event = record {
  name = last_value "name" "" event.tags;
  picture = last_value "picture" "" event.tags;
  about = last_value "about" "" event.tags;
  privacy = privacy_of (last_value "privacy" "" event.tags);
}

unfoldable pub process_edit_metadata : Sql → Event → String → Store → Bool × Store
unfolding and_then publish_group_metadata edited
process_edit_metadata q event id st =
    let r = update_group_metadata q id (edited event) st in
    (and_then (publish_group_metadata id (get_group r.1 id)) r.0, r.1)

abbrev pub approves : Privacy → Bool
approves privacy_open = true
approves privacy_restricted = true
approves privacy_private = false
approves privacy_hidden = false
approves privacy_closed = false
approves (other name) = false

unfoldable pub join_directly : Sql → Event → String → Option Group → Store → Bool × Store
unfolding with_members publish_member_list
join_directly q event id none st = (true, st)
join_directly q event id (some g) st =
    if approves g.row.privacy
    then with_members q id (add_member q id event.pubkey "" "self" st)
    else (publish_member_list q id, st)

unfoldable pub process_join_request : Sql → Event → String → Store → Bool × Store
unfolding with_members join_directly
process_join_request q event id st =
    let code = first_value "code" "" event.tags in
    if not (code == "")
    then with_members q id (use_invite q code event.pubkey st)
    else join_directly q event id (get_group st id) st

unfoldable pub process_leave_request : Sql → Event → String → Store → Bool × Store
unfolding with_members publish_member_list
process_leave_request q event id st = with_members q id (remove_member q id event.pubkey st)

-- The loop over the tags of processCreateInvite.
unfoldable pub uses_of : Parsers → ℕ → List Tag → ℕ
uses_of parsers so_far [] = so_far
uses_of parsers so_far ((k ∷ v ∷ r) ∷ tags) =
    uses_of parsers (if k == "max_uses" then parsers.scan_uses v so_far else so_far) tags
uses_of parsers so_far ((k ∷ []) ∷ tags) = uses_of parsers so_far tags
uses_of parsers so_far ([] ∷ tags) = uses_of parsers so_far tags

unfoldable pub expiry_of : Parsers → Option ℕ → List Tag → Option ℕ
expiry_of parsers so_far [] = so_far
expiry_of parsers so_far ((k ∷ v ∷ r) ∷ tags) =
    expiry_of parsers (if k == "expires" then parsers.parse_time v else so_far) tags
expiry_of parsers so_far ((k ∷ []) ∷ tags) = expiry_of parsers so_far tags
expiry_of parsers so_far ([] ∷ tags) = expiry_of parsers so_far tags

unfoldable pub time_or : ℕ → Option ℕ → ℕ
time_or time none = time
time_or time (some t) = t

unfoldable pub process_create_invite :
    Config → Parsers → Sql → Event → String → Store → Bool × Store
unfolding conclude time_or
process_create_invite cfg parsers q event id st = conclude (
    create_invite q id event.pubkey (uses_of parsers 0 event.tags)
      (time_or (q.now + cfg.invite_code_expiry) (expiry_of parsers none event.tags)) st)

-- OnEventSaved: whether it came to its end, and the store.
unfoldable pub on_event_saved : Config → Parsers → Sql → Event → Store → Bool × Store
unfolding process_create_group process_add_user process_remove_user process_edit_metadata
    process_join_request process_leave_request process_create_invite conclude
on_event_saved cfg parsers q event st =
    let id = get_group_id_from_event event in
    if not cfg.enabled || id == ""
    then (true, st)
    else if event.kind == kind_create_group
    then process_create_group cfg q event st
    else if event.kind == kind_delete_group
    then conclude (delete_group q id st)
    else if event.kind == kind_add_user
    then process_add_user q event id st
    else if event.kind == kind_remove_user
    then process_remove_user q event id st
    else if event.kind == kind_edit_metadata
    then process_edit_metadata q event id st
    else if event.kind == kind_join_request
    then process_join_request q event id st
    else if event.kind == kind_leave_request
    then process_leave_request q event id st
    else if event.kind == kind_create_invite
    then process_create_invite cfg parsers q event id st
    else (true, st)
