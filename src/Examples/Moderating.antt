-- ===== src/Examples/Moderating.antt =====
-- A group, its admin and a join (internal/groups).
use cloistr_relay.Prelude.{
  String, ◌≡◌, ◌⊎◌, refl, true, false, none, some, List, [], ◌∷◌, string_eq,
}
use cloistr_relay.Nostr.{Tag, Event, accept}
use cloistr_relay.Groups.Kinds.{privacy_open, Privacy, kind_create_group}
use cloistr_relay.Groups.Store.{Store, Config, Sql, Group, GroupRow, set}
use cloistr_relay.Groups.Roster.{is_member, is_admin}
use cloistr_relay.Groups.Handler.{get_group_id_from_event, last_value, reject_event}
use cloistr_relay.Groups.Saved.{Parsers, on_event_saved}
use cloistr_relay.Groups.Admitted.{IsEntitled, saved-IsEntitled, saved-is_admin}

abbrev cfg : Config
cfg = record {
  enabled = true;
  relay_url = "";
  admin_pubkeys = [];
  allow_public_group_creation = true;
  max_groups_per_user = 0;
  default_privacy = privacy_open;
  invite_code_expiry = 100;
}

abbrev parsers : Parsers
parsers = record { scan_uses = λ s n. n; parse_time = λ s. none }

abbrev sql : Sql
sql = record {
  lost = false;
  now = 7;
  fresh_id = "00112233445566778899aabbccddeeff";
  fresh_code = "001122334455667788990011";
  counted = none;
  group_inserted = true;
  group_deleted = true;
  group_updated = true;
  member_stored = true;
  member_deleted = true;
  invite_stored = true;
  invite_read = true;
  invite_used = true;
  members_listed = true;
}

abbrev gid : String
gid = "ffeeddccbbaa99887766554433221100"

abbrev row : Privacy → GroupRow
row level = record {
  name = "Club";
  picture = "";
  about = "";
  privacy = level;
  created_at = 1;
  created_by = "alice";
  relay_url = "";
}

-- A group without rows of members: `alice` is its admin in the cache.
abbrev club : Privacy → Group
club level = record {
  row = row level;
  admins = set (λ p. none) "alice" (some "admin");
  members = set (λ p. false) "alice" true;
}

abbrev store : Privacy → Store
store level = record {
  groups = set (λ id. none) gid (some (row level));
  members = λ id p. none;
  invites = λ code. none;
  cache = set (λ id. none) gid (some (club level));
}

abbrev nothing : Store
nothing = record {
  groups = λ id. none;
  members = λ id p. none;
  invites = λ code. none;
  cache = λ id. none;
}

abbrev event : String → String → List Tag → Event
event id author tags = record {
  id = id;
  pubkey = author;
  created_at = 5;
  kind = 9021;
  tags = ("h" ∷ gid ∷ []) ∷ tags;
  content = "";
}

abbrev join : Event
join = event "1" "bob_bob_bob" []

abbrev promotion : Event
promotion = record (event "2" "alice" (("p" ∷ "bob_bob_bob" ∷ []) ∷ ("role" ∷ "admin" ∷ []) ∷ [])) {
  kind = 9000;
}

join_accepted : reject_event cfg "bob_bob_bob" (store privacy_open) join ≡ accept
unfolding reject_event get_group_id_from_event cloistr_relay.Groups.Store.get_group
join_accepted = refl

join_new : is_member (store privacy_open) gid "bob_bob_bob" ≡ false
unfolding is_member
join_new = refl

join_member :
    is_member ((on_event_saved cfg parsers sql join (store privacy_open)).1) gid "bob_bob_bob"
    ≡ true
unfolding is_member on_event_saved get_group_id_from_event cloistr_relay.Groups.Store.get_group
    cloistr_relay.Groups.Roster.add_member
join_member = refl

saved-IsEntitled_example :
    ("bob_bob_bob" ≡ join.pubkey)
    × IsEntitled cfg parsers sql join (store privacy_open) gid "bob_bob_bob"
saved-IsEntitled_example =
    saved-IsEntitled cfg parsers sql join (store privacy_open) gid "bob_bob_bob" "bob_bob_bob" refl
      join_accepted join_new join_member

promotion_accepted : reject_event cfg "alice" (store privacy_open) promotion ≡ accept
unfolding reject_event get_group_id_from_event cloistr_relay.Groups.Store.get_group is_admin
promotion_accepted = refl

promotion_new : is_admin (store privacy_open) gid "bob_bob_bob" ≡ false
unfolding is_admin
promotion_new = refl

promotion_admin :
    is_admin ((on_event_saved cfg parsers sql promotion (store privacy_open)).1) gid "bob_bob_bob"
    ≡ true
unfolding is_admin on_event_saved get_group_id_from_event last_value
    cloistr_relay.Groups.Roster.add_member
promotion_admin = refl

saved-is_admin_example :
    ("alice" ≡ promotion.pubkey)
    × ((gid ≡ get_group_id_from_event promotion)
          × (is_admin (store privacy_open) gid promotion.pubkey ≡ true)
        ⊎ (promotion.kind ≡ kind_create_group)
          × (gid ≡ sql.fresh_id)
          × ("bob_bob_bob" ≡ promotion.pubkey))
saved-is_admin_example =
    saved-is_admin cfg parsers sql promotion (store privacy_open) gid "bob_bob_bob" "alice" refl
      promotion_accepted promotion_new promotion_admin
