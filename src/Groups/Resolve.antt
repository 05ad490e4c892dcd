-- ===== src/Groups/Resolve.antt =====
-- internal/groups/resolve.go: who owns a group. The store's answer to a query is a parameter: the
-- events of a kind for a d-tag, or none if the query fails. Texts that are compared by a prefix of
-- 16 bytes are hexadecimal, so that a byte is a character.
use Prim.Native.Char.{Char, code}
use Prim.Native.String.{len, slice}
use cloistr_relay.Prelude.{
  ℕ, zero, suc, ◌-◌, ◌+◌, ◌≡◌, refl, String, Bool, true, false, ◌&&◌, ◌||◌, Option, none, some,
  List, [], ◌∷◌, ◌==◌, nat_eq, string_eq, contains, any_of, select, ltb, leb, if◌then◌else◌,
}
use cloistr_relay.Prelude.Sorting.{sort_by, first}
use cloistr_relay.Prelude.TextOrder.{text_lt}
use cloistr_relay.Strings.{has_prefix}
use cloistr_relay.Nostr.{Tag, Event}
use cloistr_relay.Groups.Kinds.{kind_group_metadata, kind_group_admins, kind_group_members}

-- queryGroupEvents: the kind and the d-tag.
abbrev pub Querier : Type 0
Querier = ℕ → String → Option (List Event)

abbrev pub max_transfer_depth : ℕ
max_transfer_depth = 20

is_lower_hex : Char → Bool
is_lower_hex c = let n = code c in leb 48 n && leb n 57 || leb 97 n && leb n 102

is_slug : Char → Bool
is_slug c = let n = code c in leb 48 n && leb n 57 || leb 97 n && leb n 122 || n == 45

every : (Char → Bool) → String → Bool
every p String.[] = true
every p (String.◌∷◌ c s) = p c && every p s

-- ownerPattern, `^[a-z0-9-]+-([0-9a-f]{16})-[0-9a-f]{8}$`: what follows the slug has 26 characters.
-- The captured group.
unfoldable pub owner_prefix : String → Option String
unfolding every is_slug is_lower_hex
owner_prefix d_tag =
    let n = len d_tag - 26 in
    if ltb 26 (len d_tag)
      && every is_slug (slice d_tag 0 n)
      && slice d_tag n (n + 1) == "-"
      && every is_lower_hex (slice d_tag (n + 1) (n + 17))
      && slice d_tag (n + 17) (n + 18) == "-"
      && every is_lower_hex (slice d_tag (n + 18) (n + 26))
    then some (slice d_tag (n + 1) (n + 17))
    else none

-- `len(pubkey) >= 16 && pubkey[:16] == prefix`
unfoldable pub has_owner_prefix : String → String → Bool
has_owner_prefix pubkey prefix = leb 16 (len pubkey) && slice pubkey 0 16 == prefix

-- getTagValue: "" if there is none.
unfoldable pub get_tag_value : String → List Tag → String
get_tag_value name [] = ""
get_tag_value name ((k ∷ v ∷ more) ∷ tags) =
    let rest = get_tag_value name tags in if k == name then v else rest
get_tag_value name (_ ∷ tags) = get_tag_value name tags

-- The order in which latestEventFrom sorts: later first, and of two of the same time the higher id.
unfoldable pub newer : Event → Event → Bool
newer a b =
    if a.created_at == b.created_at then text_lt b.id a.id else ltb b.created_at a.created_at

unfoldable pub is_from : String → Event → Bool
is_from pubkey event = event.pubkey == pubkey

unfoldable pub latest_event_from : List Event → String → Option Event
latest_event_from events pubkey = first (sort_by newer (select (is_from pubkey) events))

-- earliestEvent, of `earliest ∷ events`.
unfoldable pub earliest_event : Event → List Event → Event
earliest_event earliest [] = earliest
earliest_event earliest (evt ∷ events) =
    earliest_event
      (if ltb evt.created_at earliest.created_at
        then evt
        else if evt.created_at == earliest.created_at && text_lt evt.id earliest.id
        then evt
        else earliest)
      events

-- The successor that an owner's latest event names, or "".
unfoldable pub named_successor : Option Event → String
named_successor none = ""
named_successor (some latest) = get_tag_value "transfer-to" latest.tags

unfoldable pub successor_of : List Event → String → String
successor_of events owner = named_successor (latest_event_from events owner)

-- The loop of walkTransferChain, with the number of turns that are left.
unfoldable pub walk : ℕ → List Event → List String → String → String
walk zero events visited owner = owner
walk (suc depth) events visited owner =
    let successor = successor_of events owner in
    let rest = walk depth events (successor ∷ visited) successor in
    if successor == "" then owner else if contains visited successor then owner else rest

abbrev pub walk_transfer_chain : List Event → String → String
walk_transfer_chain events owner = walk max_transfer_depth events (owner ∷ []) owner

-- The first event whose author has the prefix.
unfoldable pub genesis_owner : String → List Event → Option String
genesis_owner prefix [] = none
genesis_owner prefix (evt ∷ events) =
    let rest = genesis_owner prefix events in
    if has_owner_prefix evt.pubkey prefix then some evt.pubkey else rest

unfoldable pub owner_among : Option String → List Event → String
owner_among (some prefix) events = elim (genesis_owner prefix events) [
  | none ↦ Prim.Native.String.◌++◌ "prefix:" prefix
  | some owner ↦ walk_transfer_chain events owner
]
owner_among none [] = ""
owner_among none (evt ∷ events) =
    walk_transfer_chain (evt ∷ events) (earliest_event evt events).pubkey

unfoldable pub owner_from : Option String → Option (List Event) → Option String
owner_from prefix none = none
owner_from prefix (some events) = some (owner_among prefix events)

-- ResolveOwner: `none` is an error of the store.
unfoldable pub resolve_owner : Querier → String → Option String
resolve_owner q d_tag = owner_from (owner_prefix d_tag) (q kind_group_metadata d_tag)

abbrev pub member_write_permission : String → Bool
member_write_permission p = p == "add-user" || p == "remove-user"

-- A tag of the admin list that gives the permission: every element from the third on is read.
unfoldable pub grants : String → Tag → Bool
grants pubkey (k ∷ v ∷ permissions) =
    k == "p" && v == pubkey && any_of member_write_permission permissions
grants pubkey (k ∷ []) = false
grants pubkey [] = false

unfoldable pub listed : String → Option Event → Bool
listed pubkey none = false
listed pubkey (some admins) = any_of (grants pubkey) admins.tags

unfoldable pub delegated_from : String → String → Option (List Event) → Option Bool
delegated_from pubkey owner none = none
delegated_from pubkey owner (some events) = some (listed pubkey (latest_event_from events owner))

unfoldable pub is_delegated_member_writer : Querier → String → String → String → Option Bool
is_delegated_member_writer q d_tag pubkey owner =
    delegated_from pubkey owner (q kind_group_admins d_tag)

unfoldable pub may_write_as : Querier → String → ℕ → String → String → Option Bool
may_write_as q d_tag kind pubkey owner =
    if owner == ""
    then some false
    else if has_prefix owner "prefix:"
    then some (has_owner_prefix pubkey (slice owner 7 (len owner)))
    else if pubkey == owner
    then some true
    else if kind == kind_group_members
    then is_delegated_member_writer q d_tag pubkey owner
    else some false

unfoldable pub may_write_for : Querier → String → ℕ → String → Option String → Option Bool
may_write_for q d_tag kind pubkey none = none
may_write_for q d_tag kind pubkey (some owner) = may_write_as q d_tag kind pubkey owner

unfoldable pub is_authorized_metadata_writer : Querier → String → ℕ → String → Option Bool
is_authorized_metadata_writer q d_tag kind pubkey =
    may_write_for q d_tag kind pubkey (resolve_owner q d_tag)

resolves_a_genesis_prefix :
    owner_prefix "my-space-0123456789abcdef-deadbeef" ≡ some "0123456789abcdef"
unfolding owner_prefix
resolves_a_genesis_prefix = refl
