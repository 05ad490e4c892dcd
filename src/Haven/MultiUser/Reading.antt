-- ===== src/Haven/MultiUser/Reading.antt =====
-- Who gets through the filter handlers of the multi-user mode (internal/haven/handlers.go,
-- MultiUserHandler) over the per-user routing of internal/haven/router.go.
use cloistr_relay.Prelude.{
  ℕ, String, List, [], ◌∷◌, ◌≡◌, refl, ◌≢◌, ◌↔◌, ◌⊎◌, Bool, true, not, none, some, nat_eq,
  string_eq, eq_iff, arith, contains, select, any_of, All,
}
use cloistr_relay.Nostr.{Filter, accept, Fetched, failed, missing, found}
use cloistr_relay.Haven.Types.{
  Box, unknown, private, chat, inbox, outbox, MemberStore, UserSettings,
}
use cloistr_relay.Haven.Router.{Router}
use cloistr_relay.Haven.Router.ForUser.{
  RoutingResult, route_filter_for_user, can_access_user_box, get_user_settings, boxes_of_members,
}
use cloistr_relay.Haven.Refusal.{first_refusal-All_if}
use cloistr_relay.Haven.Handlers.{
  MultiUserHandler, check_user_read, first_refusal, reject_filter_multi, overwrite_filter_multi,
}

-- Without settings an outbox is public.
abbrev pub outbox_is_public : Fetched UserSettings → Bool
outbox_is_public failed = true
outbox_is_public missing = true
outbox_is_public (found s) = s.public_outbox_read

-- Who may read a box of a user.
abbrev pub MayReadUser : Router → String → String → Box → Type 0
MayReadUser r authed owner private = authed ≡ owner
MayReadUser r authed owner inbox = authed ≡ owner
MayReadUser r authed owner chat = authed ≢ ""
MayReadUser r authed owner outbox =
    (authed ≡ owner) ⊎ (outbox_is_public (get_user_settings r owner) ≡ true)
MayReadUser r authed owner unknown = Unit

check_user_read-MayReadUser :
    (r : Router) (authed owner tier : String) (box : Box)
    → owner ≢ ""
    → (check_user_read r authed (record { box = box; owner_pubkey = owner; tier = tier }) ≡ none)
      ↔ MayReadUser r authed owner box
unfolding check_user_read can_access_user_box get_user_settings
check_user_read-MayReadUser r authed owner tier private owned =
    ground (arith, eq_iff owner "", eq_iff authed owner, eq_iff authed "")
check_user_read-MayReadUser r authed owner tier _ owned =
    ground (arith, eq_iff owner "", eq_iff authed owner, eq_iff authed "")

-- The multi-user mode accepts a filter exactly if the client may read every box that the filter is
-- routed to, in every routing in which the boxes have owners: the private box and the inbox are
-- their user's, the chat box is for authenticated clients, and an outbox is its user's and, unless
-- the user's settings say otherwise, everyone's.
pub reject_filter_multi-MayReadUser :
    (order : List Box) (h : MultiUserHandler) (authed : String) (filter : Filter)
    → h.router.config.enabled ≡ true
    → All
        (λ (x : RoutingResult). x.owner_pubkey ≢ "")
        (route_filter_for_user order h.router filter authed)
    → (reject_filter_multi order h authed filter ≡ accept)
      ↔ All
          (λ (x : RoutingResult). MayReadUser h.router authed x.owner_pubkey x.box)
          (route_filter_for_user order h.router filter authed)
unfolding reject_filter_multi
reject_filter_multi-MayReadUser order h authed filter on owned = simp on (
    first_refusal-All_if (λ (x : RoutingResult). MayReadUser h.router authed x.owner_pubkey x.box)
      (check_user_read h.router authed) (λ (x : RoutingResult). x.owner_pubkey ≢ "")
      (λ x o. check_user_read-MayReadUser h.router authed x.owner_pubkey x.tier x.box o)
      (route_filter_for_user order h.router filter authed) owned)

-- Someone asks, with no login, for private kinds only and for no author or recipient.
abbrev pub AsksPrivateKinds : Router → Filter → Type 0
AsksPrivateKinds r f =
    All (λ k. contains r.private_kinds k ≡ true) f.kinds × (f.authors ≡ []) × (f.p_tags ≡ [])

select-All_private :
    (r : Router) (kinds : List ℕ)
    → All (λ k. contains r.private_kinds k ≡ true) kinds
    → select (λ k. not (contains r.private_kinds k)) kinds ≡ []
unfolding select
select-All_private r [] h = refl
select-All_private r (k ∷ kinds) h = ground (arith, select-All_private r kinds h.1)

-- The multi-user filter handlers widen a forbidden filter instead of refusing it: an anonymous
-- filter for private kinds only, with no author and no recipient, is accepted, and OverwriteFilter
-- then empties its list of kinds, which is a filter with no condition on the kind.
pub overwrite_filter_multi-widens :
    (order : List Box) (h : MultiUserHandler) (store : MemberStore) (filter : Filter)
    → h.router.config.enabled ≡ true
    → h.router.member_store ≡ some store
    → AsksPrivateKinds h.router filter
    → (reject_filter_multi order h "" filter ≡ accept)
      × (overwrite_filter_multi order h "" filter ≡ record filter { kinds = [] })
unfolding reject_filter_multi overwrite_filter_multi route_filter_for_user boxes_of_members
    first_refusal any_of
overwrite_filter_multi-widens order h store filter on st asks =
    ground (arith, select-All_private h.router filter.kinds asks.0)
