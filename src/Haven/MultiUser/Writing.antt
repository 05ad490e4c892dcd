-- ===== src/Haven/MultiUser/Writing.antt =====
-- Who gets through the event handler of the multi-user mode (internal/haven/handlers.go,
-- MultiUserHandler) over the per-user routing of internal/haven/router.go.
use cloistr_relay.Prelude.{
  String, List, [], ◌∷◌, ◌≡◌, ◌≢◌, ◌⊎◌, ◌↔◌, Bool, true, Option, none, some, contains, ◌==◌, nat_eq,
  string_eq, eq_iff, arith, if◌then◌else◌,
}
use cloistr_relay.Nostr.{Event, Tag, accept, Fetched, failed, missing, found}
use cloistr_relay.Haven.Types.{
  Box, unknown, private, chat, inbox, outbox, MemberStore, UserSettings,
}
use cloistr_relay.Haven.Router.{Router}
use cloistr_relay.Haven.Router.ForUser.{
  RoutingResult, unowned, box_of_member, tagged_inbox, referenced_owner, referenced_inbox,
  route_for_member, route_event_for_user, can_access_user_box, get_user_settings,
}
use cloistr_relay.Haven.Handlers.{MultiUserHandler, reject_event_multi, reject_routed}

-- What routing promises of the box that it names: private and outbox events are the authenticated
-- author's own, a chat is the authenticated client's or nobody's, and an inbox is somebody's.
abbrev pub IsRouted : String → Event → RoutingResult → Type 0
IsRouted authed event x = elim x.box [
  | private ↦ (event.pubkey ≡ authed) × (x.owner_pubkey ≡ authed) × (authed ≢ "")
  | outbox ↦ (event.pubkey ≡ authed) × (x.owner_pubkey ≡ authed) × (authed ≢ "")
  | inbox ↦ x.owner_pubkey ≢ ""
  | _ ↦ Unit {0}
]

module _ (r : Router) (store : MemberStore) (event : Event) (authed : String) where
  IsRouted-box_of_member_inbox :
      (target : String) (next : RoutingResult)
      → target ≢ ""
      → IsRouted authed event next
      → IsRouted authed event (box_of_member store inbox target next)
  unfolding box_of_member
  IsRouted-box_of_member_inbox target next p h = ground arith

  IsRouted-referenced_inbox : IsRouted authed event (referenced_inbox r store event)
  unfolding referenced_inbox
  IsRouted-referenced_inbox = guarded (referenced_owner r store event)
    where
      guarded :
          (target : String)
          → IsRouted authed event (
              if target == ""
              then unowned unknown
              else box_of_member store inbox target (unowned unknown))
      guarded target = ground (arith, eq_iff target "")

  IsRouted-tagged_inbox :
      (tags : List Tag) (next : RoutingResult)
      → IsRouted authed event next
      → IsRouted authed event (tagged_inbox store tags next)
  unfolding tagged_inbox
  IsRouted-tagged_inbox [] next h = h
  IsRouted-tagged_inbox ([] ∷ tags) next h = IsRouted-tagged_inbox tags next h
  IsRouted-tagged_inbox ((name ∷ []) ∷ tags) next h = IsRouted-tagged_inbox tags next h
  IsRouted-tagged_inbox ((name ∷ value ∷ more) ∷ tags) next h =
      ground (arith, IsRouted-tagged_inbox tags next h, eq_iff value "")

  IsRouted-route_for_member : IsRouted authed event (route_for_member r store event authed)
  unfolding route_for_member
  IsRouted-route_for_member = ground (
    arith,
    eq_iff authed "",
    eq_iff event.pubkey authed,
    IsRouted-tagged_inbox event.tags (referenced_inbox r store event) IsRouted-referenced_inbox,
  )

IsRouted-route_event_for_user :
    (r : Router) (store : MemberStore) (authed : String) (event : Event)
    → r.member_store ≡ some store
    → IsRouted authed event (route_event_for_user r event authed)
unfolding route_event_for_user
IsRouted-route_event_for_user r store authed event st =
    ground (arith, IsRouted-route_for_member r store event authed)

-- Without settings an inbox is public.
abbrev pub inbox_is_public : Fetched UserSettings → Bool
inbox_is_public failed = true
inbox_is_public missing = true
inbox_is_public (found s) = s.public_inbox_write

-- The per-user WoT filter, if there is one, allows the event for the owner of the box.
abbrev pub IsTrusted : Option (Event → String → Bool) → Event → String → Type 0
IsTrusted none event owner = Unit {0}
IsTrusted (some allowed) event owner = allowed event owner ≡ true

-- The client is the event's author.
abbrev pub IsSelf : String → Event → Type 0
IsSelf authed event = (authed ≢ "") × (event.pubkey ≡ authed)

-- Who may write an event into the box of a user.
abbrev pub MayWriteUser : MultiUserHandler → String → Event → String → Box → Type 0
MayWriteUser h authed event owner private = IsSelf authed event × (owner ≡ authed)
MayWriteUser h authed event owner outbox = IsSelf authed event × (owner ≡ authed)
MayWriteUser h authed event owner chat = IsSelf authed event
MayWriteUser h authed event owner inbox =
    ((authed ≡ owner) ⊎ (inbox_is_public (get_user_settings h.router owner) ≡ true))
    × IsTrusted h.wot_user_filter event owner
    × ((authed ≡ "") ⊎ (event.pubkey ≡ authed))
MayWriteUser h authed event owner unknown =
    (contains h.router.chat_kinds event.kind ≡ true) × IsSelf authed event

module _ (h : MultiUserHandler) (authed : String) (event : Event) where
  reject_routed-MayWriteUser :
      (box : Box) (owner tier : String)
      → IsRouted authed event (record { box = box; owner_pubkey = owner; tier = tier })
      → (reject_routed h authed event (record { box = box; owner_pubkey = owner; tier = tier })
          ≡ accept)
        ↔ MayWriteUser h authed event owner box
  unfolding reject_routed can_access_user_box get_user_settings
  reject_routed-MayWriteUser inbox owner tier routed = ground (
    arith,
    routed,
    eq_iff owner "",
    eq_iff authed owner,
    eq_iff authed "",
    eq_iff event.pubkey authed,
  )
  reject_routed-MayWriteUser _ owner tier routed = ground (
    arith,
    routed,
    eq_iff owner "",
    eq_iff authed owner,
    eq_iff authed "",
    eq_iff event.pubkey authed,
  )

  -- The multi-user mode, with a member store, accepts an event exactly if the client may write it
  -- into the box that it is routed to: into its own private box or outbox as the author; as the
  -- author into a chat, which a chat kind that is routed to no box is taken for; and into a user's
  -- inbox if the client is the user or the user's settings, if found, let others write, the user's
  -- WoT filter, if there is one, allows the event, and the client is anonymous or the author.
  pub reject_event_multi-MayWriteUser :
      (store : MemberStore)
      → h.router.config.enabled ≡ true
      → h.router.member_store ≡ some store
      → let x = route_event_for_user h.router event authed in
        (reject_event_multi h authed event ≡ accept)
        ↔ MayWriteUser h authed event x.owner_pubkey x.box
  unfolding reject_event_multi
  reject_event_multi-MayWriteUser store on st =
      let x = route_event_for_user h.router event authed in
      simp on (
        reject_routed-MayWriteUser x.box x.owner_pubkey x.tier
          (IsRouted-route_event_for_user h.router store authed event st))
