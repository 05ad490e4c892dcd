-- ===== src/Haven/Types.antt =====
-- internal/haven/types.go: the boxes, their default kinds, the configuration and the policies.
use cloistr_relay.Prelude.{ℕ, String, List, [], ◌∷◌, Bool, true, false, not, Option, none, some}
use cloistr_relay.Nostr.{Event, Fetched}

pub data Box : Type 0 where
  unknown private chat inbox outbox : Box

pub record MemberInfo : Type 0 where
  pub pubkey : String
  pub tier : String
  pub has_haven_boxes : Bool
  pub has_blastr : Bool
  pub has_importer : Bool
  pub has_wot_control : Bool
  pub max_blastr_relays : ℕ
  pub max_importer_relays : ℕ

-- `GetEventByID`, and the two methods of `MemberStore`. `IsMember` gives `none` on an error.
abbrev pub EventLookup : Type 0
EventLookup = String → Fetched Event

pub record MemberStore : Type 0 where
  pub get_member_info : String → Fetched MemberInfo
  pub is_member : String → Option Bool

abbrev pub default_private_kinds : List ℕ
default_private_kinds =
    30024 ∷ 31234 ∷ 7375 ∷ 7376 ∷ 30078 ∷ 10003 ∷ 30003 ∷ 10000 ∷ 10006 ∷ 30000 ∷ 30001 ∷ []

abbrev pub default_chat_kinds : List ℕ
default_chat_kinds = 4 ∷ 13 ∷ 14 ∷ 15 ∷ 1059 ∷ 1060 ∷ []

abbrev pub default_inbox_kinds : List ℕ
default_inbox_kinds = 1 ∷ 6 ∷ 7 ∷ 9735 ∷ 1111 ∷ 30023 ∷ []

abbrev pub default_outbox_kinds : List ℕ
default_outbox_kinds =
    0 ∷ 1 ∷ 3 ∷ 6 ∷ 7 ∷ 10002 ∷ 10050 ∷ 30023 ∷ 10001 ∷ 10004 ∷ 10005 ∷ 10007 ∷ 10015 ∷ 10030
    ∷ 30002 ∷ 1985 ∷ []

pub record Config : Type 0 where
  pub enabled : Bool
  pub owner_pubkey : String
  pub private_kinds : List ℕ
  pub allow_public_outbox_read : Bool
  pub allow_public_inbox_write : Bool
  pub require_auth_for_chat : Bool
  pub require_auth_for_private : Bool
  pub blastr_enabled : Bool
  pub blastr_relays : List String
  pub blastr_retry_enabled : Bool
  pub blastr_retry_key : String
  pub blastr_max_retries : ℕ
  pub blastr_retry_interval : ℕ
  pub importer_enabled : Bool
  pub importer_relays : List String
  pub importer_realtime_enabled : Bool

abbrev pub default_config : Config
default_config = record {
  enabled = false;
  owner_pubkey = "";
  private_kinds = [];
  allow_public_outbox_read = true;
  allow_public_inbox_write = true;
  require_auth_for_chat = true;
  require_auth_for_private = true;
  blastr_enabled = false;
  blastr_relays = [];
  blastr_retry_enabled = false;
  blastr_retry_key = "haven:blastr:retry";
  blastr_max_retries = 6;
  blastr_retry_interval = 30;
  importer_enabled = false;
  importer_relays = [];
  importer_realtime_enabled = false;
}

pub record AccessPolicy : Type 0 where
  pub read_requires_auth : Bool
  pub write_requires_auth : Bool
  pub owner_only : Bool
  pub wot_filtered : Bool

-- The map that `BoxPolicies` builds: it has no entry for the unknown box.
unfoldable pub box_policies : Config → Box → Option AccessPolicy
box_policies c Box.private = some (record {
  read_requires_auth = c.require_auth_for_private;
  write_requires_auth = c.require_auth_for_private;
  owner_only = true;
  wot_filtered = false;
})
box_policies c Box.chat = some (record {
  read_requires_auth = c.require_auth_for_chat;
  write_requires_auth = c.require_auth_for_chat;
  owner_only = false;
  wot_filtered = true;
})
box_policies c Box.inbox = some (record {
  read_requires_auth = true;
  write_requires_auth = not c.allow_public_inbox_write;
  owner_only = false;
  wot_filtered = false;
})
box_policies c Box.outbox = some (record {
  read_requires_auth = not c.allow_public_outbox_read;
  write_requires_auth = true;
  owner_only = false;
  wot_filtered = false;
})
box_policies c Box.unknown = none

-- The two fields of haven.UserSettings (internal/haven/user_settings.go) that the router reads.
pub record UserSettings : Type 0 where
  pub public_outbox_read : Bool
  pub public_inbox_write : Bool
