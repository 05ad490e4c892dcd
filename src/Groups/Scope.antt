-- ===== src/Groups/Scope.antt =====
-- internal/groups/scope.go: how relay29's handlers are attached to the relay. `State` is relay29's
-- map of groups, as far as the relay reads it: the id of each group, its private flag and its
-- members. A query handler is its result: `none` for an error, else the events of its channel.
use cloistr_relay.Prelude.{
  ℕ, ◌-◌, String, Bool, true, false, not, ◌&&◌, ◌||◌, Option, none, some, List, [], ◌∷◌, map, ◌==◌,
  string_eq, contains, is_empty, any_of, select, ltb, if◌then◌else◌,
}
use cloistr_relay.Nostr.{Tag, Event, Filter, Verdict, accept}
use cloistr_relay.Groups.Kinds.{is_group_kind, is_metadata_kind}

pub record Group : Type 0 where
  pub private : Bool
  pub members : List String

abbrev pub State : Type 0
State = List (String × Group)

-- knownGroup
unfoldable pub known_group : State → String → Option Group
known_group [] id = none
known_group ((key, g) ∷ st) id = let rest = known_group st id in if key == id then some g else rest

unfoldable pub is_known : State → String → Bool
is_known st id = any_of (λ (entry : String × Group). entry.0 == id) st

-- The values of the h tags that have one.
unfoldable pub h_values : List Tag → List String
h_values [] = []
h_values ((k ∷ v ∷ more) ∷ tags) = let rest = h_values tags in if k == "h" then v ∷ rest else rest
h_values (_ ∷ tags) = h_values tags

unfoldable pub known_group_event : State → Event → Bool
known_group_event st event = any_of (is_known st) (h_values event.tags)

unfoldable pub is_group_event : State → Event → Bool
is_group_event st event = is_group_kind event.kind || known_group_event st event

unfoldable pub is_group_filter : State → Filter → Bool
is_group_filter st f = any_of is_metadata_kind f.kinds || any_of (is_known st) f.h_tags

unfoldable pub can_read_group : String → Option Group → Bool
can_read_group pubkey none = true
can_read_group pubkey (some g) =
    if not g.private then true else if pubkey == "" then false else contains g.members pubkey

-- canRead
unfoldable pub can_read : State → String → String → Bool
can_read st group_id pubkey = can_read_group pubkey (known_group st group_id)

unfoldable pub visible : State → Event → String → Bool
visible st event pubkey = not (any_of (λ id. not (can_read st id pubkey)) (h_values event.tags))

unfoldable pub is_hidden : String → String × Group → Bool
is_hidden pubkey (id, g) = g.private && not (not (pubkey == "") && contains g.members pubkey)

-- hiddenGroups
unfoldable pub hidden_groups : State → String → List String
hidden_groups st pubkey = map (λ (entry : String × Group). entry.0) (select (is_hidden pubkey) st)

unfoldable pub group_event_only : State → (Event → Verdict) → Event → Verdict
group_event_only st fn event = if not (is_group_event st event) then accept else fn event

unfoldable pub group_filter_only : State → (Filter → Verdict) → Filter → Verdict
group_filter_only st fn f = if not (is_group_filter st f) then accept else fn f

-- groupQuery. An empty list is the closed channel.
unfoldable pub group_query : State → (Filter → Option (List Event)) → Filter → Option (List Event)
group_query st q f = if not (is_group_filter st f) then some [] else q f

unfoldable pub only_visible : State → String → Option (List Event) → Option (List Event)
only_visible st reader none = none
only_visible st reader (some events) = some (select (λ e. visible st e reader) events)

-- ordinaryQuery, whose reader stays until the last event.
unfoldable pub ordinary_query :
    State → String → (Filter → Option (List Event)) → Filter → Option (List Event)
ordinary_query st reader q f =
    if is_group_filter st f then some [] else only_visible st reader (q f)

-- The result of a COUNT handler: `count` and whether the error is set.
pub record Counted : Type 0 where
  pub count : ℕ
  pub failed : Bool

unfoldable pub subtract_hidden : Counted → Counted → Counted
subtract_hidden n m =
    if m.failed
    then record { count = n.count; failed = true }
    else if ltb n.count m.count
    then record { count = 0; failed = false }
    else record { count = n.count - m.count; failed = false }

-- privateAwareCount. A filter is cloned with `Tags["h"]` set to the hidden groups.
unfoldable pub private_aware_count : State → String → (Filter → Counted) → Filter → Counted
private_aware_count st reader c f =
    let n = c f in
    let hidden = hidden_groups st reader in
    if not (is_empty f.h_tags)
    then (if any_of (λ id. not (can_read st id reader)) f.h_tags
        then record { count = 0; failed = false }
        else c f)
    else if n.failed
    then n
    else if is_empty hidden
    then n
    else subtract_hidden n (c (record f { h_tags = hidden }))
