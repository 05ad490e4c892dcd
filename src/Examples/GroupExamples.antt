-- ===== src/Examples/GroupExamples.antt =====
-- A private group "g" with the member "alice", and a group that changes hands (internal/groups).
use cloistr_relay.Prelude.{
  ℕ, String, ◌≡◌, ◌≢◌, ◌↔◌, refl, ap, ◌∙◌, ◌⊎◌, inl, inr, Bool, true, false, ◌&&◌, Option, none,
  some, List, [], ◌∷◌, arith, eq_iff, In, ◌==◌, string_eq, nat_eq, any_of, contains, select, length,
  is_empty, Bool-cases, if◌then◌else◌,
}
use cloistr_relay.Nostr.{Event, Filter, accept}
use cloistr_relay.Groups.Kinds.{is_group_metadata_kind}
use cloistr_relay.Groups.Scope.{
  Group, State, is_group_filter, ordinary_query, group_query, only_visible, Counted,
  private_aware_count, visible, h_values,
}
use cloistr_relay.Groups.Visibility.{IsVisible, ordinary_query-IsVisible}
use cloistr_relay.Groups.Counting.{count_of, ReadsHTags, private_aware_count-visible}
use cloistr_relay.Groups.Resolve.{
  Querier, latest_event_from, successor_of, walk_transfer_chain, resolve_owner, owner_prefix,
  listed,
}
use cloistr_relay.Groups.Ownership.{theirs, walk_transfer_chain-theirs}
use cloistr_relay.Groups.Metadata.{
  IsAuthorized, reject_external_metadata, reject_external_metadata-IsAuthorized,
}

abbrev groups : State
groups = ("g", record { private = true; members = "alice" ∷ [] }) ∷ []

abbrev secret : Event
secret = record {
  id = "1";
  pubkey = "alice";
  created_at = 5;
  kind = 9;
  tags = ("h" ∷ "g" ∷ []) ∷ [];
  content = "";
}

abbrev open_note : Event
open_note = record { id = "2"; pubkey = "bob"; created_at = 6; kind = 1; tags = []; content = "" }

abbrev stored : List Event
stored = secret ∷ open_note ∷ []

abbrev plain : Filter
plain = record { ids = []; kinds = 1 ∷ 9 ∷ []; authors = []; p_tags = []; h_tags = []; d_tags = [] }

plain_is_ordinary : is_group_filter groups plain ≡ false
unfolding is_group_filter any_of
plain_is_ordinary = refl

ordinary_query-IsVisible_example :
    (es : List Event) × (ordinary_query groups "bob" (λ f. some stored) plain ≡ some es)
    × ((e : Event) → In e es ↔ In e stored × IsVisible groups "bob" e)
ordinary_query-IsVisible_example =
    ordinary_query-IsVisible groups "bob" (λ f. some stored) plain stored plain_is_ordinary refl

-- A store that matches kinds and #h.
abbrev matches : Filter → Event → Bool
matches f e =
    contains f.kinds e.kind
    && (if is_empty f.h_tags then true else any_of (contains f.h_tags) (h_values e.tags))

matches-ReadsHTags : ReadsHTags matches
matches-ReadsHTags f id ids e = ground arith

private_aware_count-visible_example :
    private_aware_count groups "bob" (count_of matches stored) plain ≡ record {
      count = length (select (λ e. matches plain e && visible groups e "bob") stored);
      failed = false;
    }
unfolding cloistr_relay.Groups.Scope.is_known any_of
private_aware_count-visible_example =
    private_aware_count-visible groups "bob" (refl, tt) matches matches-ReadsHTags stored plain refl

-- Metadata of a group of "alice", who hands it over to "bob"; "mallory" claims it.
abbrev handover : Event
handover = record {
  id = "3";
  pubkey = "alice";
  created_at = 5;
  kind = 39000;
  tags = ("transfer-to" ∷ "bob" ∷ []) ∷ [];
  content = "";
}

abbrev claim : Event
claim = record {
  id = "4";
  pubkey = "mallory";
  created_at = 9;
  kind = 39000;
  tags = ("transfer-to" ∷ "mallory" ∷ []) ∷ [];
  content = "";
}

abbrev history : List Event
history = handover ∷ claim ∷ []

abbrev trusted : String → Bool
trusted key = if key == "alice" then true else key == "bob"

alices_latest : latest_event_from history "alice" ≡ some handover
unfolding latest_event_from cloistr_relay.Prelude.Sorting.sort_by select
    cloistr_relay.Groups.Resolve.is_from
alices_latest = refl

abbrev alice : String
alice = "alice"

abbrev bob : String
bob = "bob"

alices_successor : successor_of history alice ≡ bob
unfolding successor_of cloistr_relay.Groups.Resolve.named_successor latest_event_from
    cloistr_relay.Prelude.Sorting.sort_by select cloistr_relay.Groups.Resolve.is_from
    cloistr_relay.Groups.Resolve.get_tag_value
alices_successor = refl

bobs_successor : successor_of history bob ≡ ""
unfolding successor_of cloistr_relay.Groups.Resolve.named_successor latest_event_from
    cloistr_relay.Prelude.Sorting.sort_by select cloistr_relay.Groups.Resolve.is_from
bobs_successor = refl

history_keeps :
    (o : String)
    → trusted o ≡ true
    → (successor_of history o ≡ "") ⊎ (trusted (successor_of history o) ≡ true)
history_keeps o t = elim (Bool-cases (o == "alice")) [
  | inl is_alice ↦
      let same : o ≡ alice = ground (arith, is_alice, eq_iff o alice) in
      inr (ap trusted (ap (successor_of history) same ∙ alices_successor))
  | inr not_alice ↦
      let same : o ≡ bob = ground (arith, not_alice, t, eq_iff o bob) in
      inl (ap (successor_of history) same ∙ bobs_successor)
]

walk_transfer_chain-theirs_example :
    (walk_transfer_chain history alice ≡ walk_transfer_chain (theirs history trusted) alice)
    × (trusted (walk_transfer_chain history alice) ≡ true)
walk_transfer_chain-theirs_example =
    walk_transfer_chain-theirs history trusted history_keeps alice refl

abbrev d_tag : String
d_tag = "my-space-0123456789abcdef-deadbeef"

abbrev one_owner : Event
one_owner = record {
  id = "5";
  pubkey = "0123456789abcdef01";
  created_at = 5;
  kind = 39000;
  tags = [];
  content = "";
}

abbrev querier : Querier
querier kind d = if kind == 39000 then some (one_owner ∷ []) else some []

abbrev edit : Event
edit = record { id = "6"; pubkey = "bob"; created_at = 7; kind = 39002; tags = []; content = "" }

abbrev relay : String
relay = "relay"

reject_external_metadata-IsAuthorized_example :
    (reject_external_metadata relay (some querier) d_tag edit ≡ accept) ↔ (
      (is_group_metadata_kind edit.kind ≡ false)
      ⊎ (relay ≢ "") × (edit.pubkey ≡ relay)
      ⊎ (d_tag ≢ "")
        × (owner : String) × (resolve_owner querier d_tag ≡ some owner)
        × IsAuthorized relay d_tag querier edit owner)
reject_external_metadata-IsAuthorized_example =
    reject_external_metadata-IsAuthorized relay d_tag querier edit

abbrev no_metadata : Querier
no_metadata kind d = some []

no_prefix : owner_prefix "legacy" ≡ none
unfolding owner_prefix
no_prefix = refl
