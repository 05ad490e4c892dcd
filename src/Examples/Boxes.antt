-- ===== src/Examples/Boxes.antt =====
-- A relay with an owner, and a relay with members (internal/haven).
use cloistr_relay.Prelude.{
  ℕ, String, ◌≡◌, ◌≢◌, ◌↔◌, refl, ◌⊎◌, inl, inr, Bool, true, false, Option, none, some, List, [],
  ◌∷◌, arith, eq_iff, All, In, ◌==◌, string_eq, nat_eq, any_of, contains,
}
use cloistr_relay.Nostr.{Event, Filter, accept, Fetched, found}
use cloistr_relay.Haven.Types.{
  Box, private, chat, inbox, outbox, Config, default_config, MemberInfo, MemberStore, UserSettings,
}
use cloistr_relay.Haven.Router.{can_access_box, Router, new_router, route_filter}
use cloistr_relay.Haven.Router.ForUser.{
  route_event_for_user, route_filter_for_user, get_user_settings, boxes_of_members, haven_member,
}
use cloistr_relay.Haven.Handlers.{
  MultiUserHandler, reject_event, reject_filter, overwrite_filter, reject_event_multi,
  reject_filter_multi, overwrite_filter_multi,
}
use cloistr_relay.Haven.Writing.{MayWrite, IsMention, IsClosedMention, reject_event-MayWrite}
use cloistr_relay.Haven.Reading.{MayRead, IsUnguarded, reject_filter-MayRead}
use cloistr_relay.Haven.MultiUser.Writing.{MayWriteUser, reject_event_multi-MayWriteUser}
use cloistr_relay.Haven.MultiUser.Reading.{MayReadUser, reject_filter_multi-MayReadUser}

abbrev owner : String
owner = "owner"

abbrev alice : String
alice = "alice"

abbrev config : Config
config = record default_config { enabled = true; owner_pubkey = "owner" }

abbrev router : Router
router = new_router config

abbrev order : List Box
order = private ∷ chat ∷ inbox ∷ outbox ∷ []

owned : owner ≢ ""
owned e = ground (arith, e, eq_iff "owner" "")

-- A private draft of the owner.
abbrev draft : Event
draft = record { id = "1"; pubkey = "owner"; created_at = 5; kind = 31234; tags = []; content = "" }

abbrev drafts : Filter
drafts = record {
  ids = [];
  kinds = 31234 ∷ [];
  authors = "owner" ∷ [];
  p_tags = [];
  h_tags = [];
  d_tags = [];
}

reject_event-MayWrite_example :
    ((reject_event router "owner" draft ≡ accept)
      ↔ MayWrite router "owner" draft ⊎ IsClosedMention router "owner" draft)
    × (IsClosedMention router "owner" draft
        ↔ IsMention router "owner" draft
          × (owner ≡ "")
          × (router.config.allow_public_inbox_write ≡ false))
reject_event-MayWrite_example = reject_event-MayWrite router "owner" draft refl owned

reject_filter-MayRead_example :
    ((box : Box) → (can_access_box router box "owner" false ≡ true) ↔ MayRead router "owner" box)
    × ((reject_filter order router "owner" drafts ≡ accept)
        ↔ All
            (λ box. MayRead router "owner" box ⊎ IsUnguarded box)
            (route_filter order router drafts "owner"))
reject_filter-MayRead_example = reject_filter-MayRead order router "owner" drafts refl owned

drafts_accepted : reject_filter order router "owner" drafts ≡ accept
unfolding reject_filter cloistr_relay.Haven.Handlers.first_refusal route_filter
    cloistr_relay.Prelude.select any_of contains cloistr_relay.Haven.Handlers.check_read
    cloistr_relay.Haven.Router.can_access_box
drafts_accepted = refl

asks_private : any_of (contains router.private_kinds) drafts.kinds ≡ true
unfolding any_of contains
asks_private = refl

-- A relay on which every key is a member with boxes.
abbrev member_of : String → Fetched MemberInfo
member_of pubkey = found (record {
  pubkey = pubkey;
  tier = "premium";
  has_haven_boxes = true;
  has_blastr = true;
  has_importer = true;
  has_wot_control = true;
  max_blastr_relays = 10;
  max_importer_relays = 10;
})

abbrev members : MemberStore
members = record { get_member_info = member_of; is_member = λ pubkey. some true }

abbrev settings : UserSettings
settings = record { public_outbox_read = true; public_inbox_write = true }

abbrev handler : MultiUserHandler
handler = record {
  router = record router {
    member_store = some members;
    user_settings_store = some (λ pubkey. found settings);
  };
  wot_user_filter = some (λ event pubkey. true);
}

-- A note that alice writes.
abbrev note : Event
note = record { id = "2"; pubkey = "alice"; created_at = 6; kind = 1; tags = []; content = "" }

note_accepted : reject_event_multi handler "alice" note ≡ accept
unfolding reject_event_multi cloistr_relay.Haven.Handlers.reject_routed route_event_for_user
    contains cloistr_relay.Haven.Router.ForUser.can_access_user_box
note_accepted = refl

note_boxed : (route_event_for_user handler.router note "alice").box ≡ outbox
unfolding route_event_for_user contains
note_boxed = refl

-- A note to bob from an anonymous client.
abbrev mention : Event
mention = record {
  id = "3";
  pubkey = "carol";
  created_at = 7;
  kind = 1;
  tags = ("p" ∷ "bob" ∷ []) ∷ [];
  content = "";
}

mention_accepted : reject_event_multi handler "" mention ≡ accept
unfolding reject_event_multi cloistr_relay.Haven.Handlers.reject_routed route_event_for_user
    contains cloistr_relay.Haven.Router.ForUser.tagged_inbox
    cloistr_relay.Haven.Router.ForUser.can_access_user_box
mention_accepted = refl

mention_boxed : (route_event_for_user handler.router mention "").box ≡ inbox
unfolding route_event_for_user contains cloistr_relay.Haven.Router.ForUser.tagged_inbox
mention_boxed = refl

mention_owner : (route_event_for_user handler.router mention "").owner_pubkey ≡ "bob"
unfolding route_event_for_user contains cloistr_relay.Haven.Router.ForUser.tagged_inbox
mention_owner = refl

reject_event_multi-MayWriteUser_example :
    let x = route_event_for_user handler.router mention "" in
    (reject_event_multi handler "" mention ≡ accept)
    ↔ MayWriteUser handler "" mention x.owner_pubkey x.box
reject_event_multi-MayWriteUser_example =
    reject_event_multi-MayWriteUser handler "" mention members refl refl

abbrev alices : Filter
alices = record {
  ids = [];
  kinds = 1 ∷ [];
  authors = "alice" ∷ [];
  p_tags = [];
  h_tags = [];
  d_tags = [];
}

alice_named : alice ≢ ""
alice_named e = ground (arith, e, eq_iff alice "")

alices_owned :
    All (λ x. x.owner_pubkey ≢ "") (route_filter_for_user order handler.router alices "bob")
unfolding route_filter_for_user boxes_of_members haven_member
alices_owned = (alice_named, tt)

reject_filter_multi-MayReadUser_example :
    (reject_filter_multi order handler "bob" alices ≡ accept)
    ↔ All
        (λ x. MayReadUser handler.router "bob" x.owner_pubkey x.box)
        (route_filter_for_user order handler.router alices "bob")
reject_filter_multi-MayReadUser_example =
    reject_filter_multi-MayReadUser order handler "bob" alices refl alices_owned
