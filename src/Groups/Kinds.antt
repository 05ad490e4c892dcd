-- ===== src/Groups/Kinds.antt =====
-- The kinds and the privacy levels of internal/groups/types.go, and the policies of ownership.go.
use cloistr_relay.Prelude.{
  ℕ, String, Bool, true, false, not, ◌&&◌, ◌||◌, List, ◌==◌, nat_eq, string_eq, contains, leb,
  if◌then◌else◌,
}
use cloistr_relay.Nostr.{Event, text, Verdict, accept, reject}

abbrev pub kind_group_metadata : ℕ
kind_group_metadata = 39000

abbrev pub kind_group_admins : ℕ
kind_group_admins = 39001

abbrev pub kind_group_members : ℕ
kind_group_members = 39002

abbrev pub kind_create_group : ℕ
kind_create_group = 9007

abbrev pub is_moderator_kind : ℕ → Bool
is_moderator_kind kind = leb 9000 kind && leb kind 9020

abbrev pub is_group_metadata_kind : ℕ → Bool
is_group_metadata_kind kind = leb 39000 kind && leb kind 39009

abbrev pub is_group_management_kind : ℕ → Bool
is_group_management_kind kind = kind == 9021 || kind == 9022

-- scope.go
abbrev pub is_metadata_kind : ℕ → Bool
is_metadata_kind kind = leb 39000 kind && leb kind 39003

abbrev pub is_group_kind : ℕ → Bool
is_group_kind kind = leb 9000 kind && leb kind 9022 || is_metadata_kind kind

-- The five named levels, and any other text.
pub data Privacy : Type 0 where
  privacy_open : Privacy
  privacy_restricted : Privacy
  privacy_private : Privacy
  privacy_hidden : Privacy
  privacy_closed : Privacy
  other : String → Privacy

unfoldable pub can_read : Privacy → Bool → Bool
can_read privacy_open member = true
can_read privacy_restricted member = true
can_read privacy_private member = member
can_read privacy_hidden member = member
can_read privacy_closed member = member
can_read (other name) member = true

unfoldable pub can_write : Privacy → Bool → Bool
can_write privacy_open member = true
can_write privacy_restricted member = member
can_write privacy_private member = member
can_write privacy_hidden member = member
can_write privacy_closed member = member
can_write (other name) member = member

abbrev pub can_join : Privacy → Bool
can_join privacy_closed = false
can_join privacy_open = true
can_join privacy_restricted = true
can_join privacy_private = true
can_join privacy_hidden = true
can_join (other name) = true

unfoldable pub show_metadata : Privacy → Bool → Bool
show_metadata privacy_hidden member = member
show_metadata privacy_open member = true
show_metadata privacy_restricted member = true
show_metadata privacy_private member = true
show_metadata privacy_closed member = true
show_metadata (other name) member = true

-- The roles of ownership.go, compared by identity there, and `other_role` for any other role or none.
pub data Role : Type 0 where
  admin_role moderator_role other_role : Role

-- The moderation actions of relay29 that AllowAction tells apart, and all others.
pub data Action : Type 0 where
  put_user remove_user delete_event other_action : Action

unfoldable pub allow_action : Role → Action → Bool
allow_action admin_role action = true
allow_action moderator_role delete_event = true
allow_action moderator_role remove_user = true
allow_action moderator_role put_user = true
allow_action moderator_role _ = false
allow_action other_role put_user = true
allow_action other_role _ = false

unfoldable pub group_creation_gate : List String → Bool → Event → Verdict
group_creation_gate admins allow_public event =
    if not (event.kind == kind_create_group)
    then accept
    else if allow_public
    then accept
    else if contains admins event.pubkey
    then accept
    else reject (text "restricted: only designated admins can create groups")

-- The conversion Privacy(text).
unfoldable pub privacy_of : String → Privacy
privacy_of s =
    if s == "open"
    then privacy_open
    else if s == "restricted"
    then privacy_restricted
    else if s == "private"
    then privacy_private
    else if s == "hidden"
    then privacy_hidden
    else if s == "closed"
    then privacy_closed
    else other s
