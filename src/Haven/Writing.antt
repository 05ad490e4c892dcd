-- ===== src/Haven/Writing.antt =====
-- Who may write through the event handler of the single-owner mode (internal/haven/handlers.go).
use cloistr_relay.Prelude.{
  String, ◌≡◌, ◌≢◌, ◌↔◌, ◌⊎◌, Bool, true, false, nat_eq, string_eq, eq_iff, arith, contains,
}
use cloistr_relay.Nostr.{Event, accept}
use cloistr_relay.Haven.Types.{inbox}
use cloistr_relay.Haven.Router.{Router, route_event, can_access_box, is_addressed_to_owner}
use cloistr_relay.Haven.Handlers.{reject_event}

-- The client is anonymous, or writes under its own key.
abbrev pub IsAuthentic : String → Event → Type 0
IsAuthentic authed event = (authed ≡ "") ⊎ (event.pubkey ≡ authed)

module _ (r : Router) (authed : String) (event : Event) where
  abbrev pub IsPrivateNote : Type 0
  IsPrivateNote =
      (contains r.private_kinds event.kind ≡ true)
      × (event.pubkey ≡ r.config.owner_pubkey)
      × (authed ≡ r.config.owner_pubkey)

  abbrev pub IsChatMessage : Type 0
  IsChatMessage =
      (contains r.chat_kinds event.kind ≡ true)
      × ((contains r.private_kinds event.kind ≡ false) ⊎ (event.pubkey ≢ r.config.owner_pubkey))
      × ((r.config.require_auth_for_chat ≡ false) ⊎ (authed ≢ ""))
      × IsAuthentic authed event

  abbrev pub IsPublicNote : Type 0
  IsPublicNote =
      (contains r.private_kinds event.kind ≡ false)
      × (contains r.chat_kinds event.kind ≡ false)
      × (event.pubkey ≡ r.config.owner_pubkey)
      × (authed ≡ r.config.owner_pubkey)

  abbrev pub IsMention : Type 0
  IsMention =
      (contains r.private_kinds event.kind ≡ false)
      × (contains r.chat_kinds event.kind ≡ false)
      × (event.pubkey ≢ r.config.owner_pubkey)
      × (is_addressed_to_owner r event ≡ true)
      × IsAuthentic authed event

  -- An anonymous write is allowed by AllowPublicInboxWrite.
  abbrev pub IsOpenMention : Type 0
  IsOpenMention = IsMention × ((r.config.allow_public_inbox_write ≡ true) ⊎ (authed ≢ ""))

  -- A mention that CanAccessBox does not let into the inbox.
  abbrev pub IsClosedMention : Type 0
  IsClosedMention = IsMention × (can_access_box r inbox authed true ≡ false)

  -- What the settings of the boxes allow.
  abbrev pub MayWrite : Type 0
  MayWrite = IsPrivateNote ⊎ IsChatMessage ⊎ IsPublicNote ⊎ IsOpenMention

  -- An enabled HAVEN relay that has an owner accepts an event exactly if it is one of these: a
  -- private kind written by the owner, authenticated as the owner; a chat kind (not a private kind
  -- of the owner's), by a client that is authenticated where chat requires it; any other kind
  -- written by the authenticated owner; any other kind of someone else that is addressed to the
  -- owner, by an authenticated client or with public inbox writes on; or, against the settings, such
  -- a mention that CanAccessBox refuses. A client that writes a chat message or a mention is anonymous
  -- or the event's author. The mentions that CanAccessBox refuses are those of anonymous clients
  -- while public inbox writes are off.
  pub reject_event-MayWrite :
      r.config.enabled ≡ true
      → r.config.owner_pubkey ≢ ""
      → ((reject_event r authed event ≡ accept) ↔ MayWrite ⊎ IsClosedMention)
        × (IsClosedMention
            ↔ IsMention × (authed ≡ "") × (r.config.allow_public_inbox_write ≡ false))
  unfolding reject_event route_event can_access_box
  reject_event-MayWrite on owned = ground (
    arith,
    eq_iff event.pubkey r.config.owner_pubkey,
    eq_iff authed r.config.owner_pubkey,
    eq_iff authed "",
    eq_iff event.pubkey authed,
  )

  -- ALLOW_PUBLIC_INBOX_WRITE is not read on the way of an event: the handler's answer is the same
  -- whatever the setting, for every client and event.
  pub reject_event-public_inbox_write :
      (b : Bool)
      → reject_event
          (record r { config = record r.config { allow_public_inbox_write = b } })
          authed
          event
        ≡ reject_event r authed event
  unfolding reject_event route_event can_access_box is_addressed_to_owner
  reject_event-public_inbox_write b = ground arith
