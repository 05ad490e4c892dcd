-- ===== src/Haven/Reading.antt =====
-- Who may read through the filter handlers of the single-owner mode (internal/haven/handlers.go).
use cloistr_relay.Prelude.{
  is_empty, ℕ, String, List, [], ◌∷◌, ◌≡◌, ap, refl, ◌≢◌, ◌↔◌, ◌⊎◌, inl, inr, Bool, true, false,
  none, nat_eq, string_eq, eq_iff, arith, contains, any_of, select, not, In-select, All-In,
  if◌then◌else◌, All, In, Bool-cases,
}
use cloistr_relay.Nostr.{Filter, accept}
use cloistr_relay.Haven.Types.{Box, unknown, private, chat, inbox, outbox}
use cloistr_relay.Haven.Router.{
  Router, can_access_box, route_filter, boxes_of_filter, default_boxes, has,
}
use cloistr_relay.Haven.Refusal.{first_refusal-All, first_refusal-cong}
use cloistr_relay.Haven.Handlers.{check_read, first_refusal, reject_filter, overwrite_filter}

-- Who may read which box by its settings.
abbrev pub MayRead : Router → String → Box → Type 0
MayRead r authed private = authed ≡ r.config.owner_pubkey
MayRead r authed chat = (r.config.require_auth_for_chat ≡ false) ⊎ (authed ≢ "")
MayRead r authed inbox = authed ≡ r.config.owner_pubkey
MayRead r authed outbox =
    (r.config.allow_public_outbox_read ≡ true) ⊎ (authed ≡ r.config.owner_pubkey)
MayRead r authed unknown = ⊥

-- The boxes that RejectFilter lets be read although CanAccessBox refuses.
abbrev pub IsUnguarded : Box → Type 0
IsUnguarded private = ⊥
IsUnguarded chat = ⊥
IsUnguarded inbox = ⊥
IsUnguarded outbox = Unit
IsUnguarded unknown = Unit

can_access_box-MayRead :
    (r : Router) (authed : String) (box : Box)
    → r.config.owner_pubkey ≢ ""
    → (can_access_box r box authed false ≡ true) ↔ MayRead r authed box
unfolding can_access_box
can_access_box-MayRead r authed unknown owned = ground arith
can_access_box-MayRead r authed _ owned =
    ground (arith, eq_iff authed r.config.owner_pubkey, eq_iff authed "")

check_read-MayRead :
    (r : Router) (authed : String) (box : Box)
    → r.config.owner_pubkey ≢ ""
    → (check_read r authed box ≡ none) ↔ MayRead r authed box ⊎ IsUnguarded box
unfolding check_read can_access_box
check_read-MayRead r authed unknown owned = ground arith
check_read-MayRead r authed outbox owned = ground arith
check_read-MayRead r authed _ owned =
    ground (arith, eq_iff authed r.config.owner_pubkey, eq_iff authed "")

-- CanAccessBox of an enabled HAVEN relay that has an owner lets a client read the private box and the
-- inbox exactly if it is the owner, the chat box if it is authenticated or chat does not require
-- that, and the outbox if it is the owner or public outbox reads are on. A filter is accepted
-- exactly if each box that it is routed to may be read so, or is the outbox (or no box), which
-- RejectFilter does not guard. The order in which the boxes are walked does not matter.
pub reject_filter-MayRead :
    (order : List Box) (r : Router) (authed : String) (filter : Filter)
    → r.config.enabled ≡ true
    → r.config.owner_pubkey ≢ ""
    → ((box : Box) → (can_access_box r box authed false ≡ true) ↔ MayRead r authed box)
      × ((reject_filter order r authed filter ≡ accept)
          ↔ All
              (λ box. MayRead r authed box ⊎ IsUnguarded box)
              (route_filter order r filter authed))
unfolding reject_filter
reject_filter-MayRead order r authed filter on owned = (
  λ box. can_access_box-MayRead r authed box owned,
  simp on (
      first_refusal-All (λ box. MayRead r authed box ⊎ IsUnguarded box) (check_read r authed)
        (λ box. check_read-MayRead r authed box owned) (route_filter order r filter authed)),
)

routed_private :
    (order : List Box) (r : Router) (authed : String) (filter : Filter)
    → r.config.enabled ≡ true
    → In private order
    → any_of (contains r.private_kinds) filter.kinds ≡ true
    → In private (route_filter order r filter authed)
unfolding route_filter
routed_private order r authed filter on i h =
    let s = boxes_of_filter r filter in
    simp on (not-is_empty _ (In-select (has s) private order i h))
  where
    not-is_empty :
        (boxes : List Box)
        → In private boxes
        → In private (if is_empty boxes then default_boxes r filter authed else boxes)
    not-is_empty [] j = absurd j
    not-is_empty (b ∷ bs) j = j

-- Whoever is not the owner gets no filter through that asks for a private kind: if a filter of an
-- enabled relay with an owner names a private kind and is accepted, the client is the owner. The
-- walk over the boxes is only assumed to visit the private box.
pub reject_filter-private_kind :
    (order : List Box) (r : Router) (authed : String) (filter : Filter)
    → r.config.enabled ≡ true
    → r.config.owner_pubkey ≢ ""
    → In private order
    → any_of (contains r.private_kinds) filter.kinds ≡ true
    → reject_filter order r authed filter ≡ accept
    → authed ≡ r.config.owner_pubkey
reject_filter-private_kind order r authed filter on owned i asks h =
    let readable =
      All-In (λ box. MayRead r authed box ⊎ IsUnguarded box) private
        (route_filter order r filter authed)
        ((reject_filter-MayRead order r authed filter on owned).1.0 h)
        (routed_private order r authed filter on i asks) in
    elim readable [ inl p ↦ p | inr never ↦ absurd never ]

select-none : (p : ℕ → Bool) (xs : List ℕ) → any_of p xs ≡ false → select (λ k. not (p k)) xs ≡ xs
unfolding any_of select
select-none p [] h = refl
select-none p (x ∷ xs) h = ground (arith, select-none p xs)

-- OverwriteFilter never narrows a filter that RejectFilter let through: what is left is the filter
-- itself, for the owner and for everyone else.
pub overwrite_filter-accepted :
    (order : List Box) (r : Router) (authed : String) (filter : Filter)
    → r.config.enabled ≡ true
    → r.config.owner_pubkey ≢ ""
    → In private order
    → reject_filter order r authed filter ≡ accept
    → overwrite_filter r authed filter ≡ filter
unfolding overwrite_filter
overwrite_filter-accepted order r authed filter on owned i h =
    elim (Bool-cases (any_of (contains r.private_kinds) filter.kinds)) [
      | inl asks ↦ ground (
        arith,
        eq_iff authed r.config.owner_pubkey,
        reject_filter-private_kind order r authed filter on owned i asks h,
      )
      | inr clean ↦ ground (arith, select-none (contains r.private_kinds) filter.kinds clean)
    ]

check_read-public_outbox_read :
    (r : Router) (authed : String) (b : Bool) (box : Box)
    → check_read (record r { config = record r.config { allow_public_outbox_read = b } }) authed box
      ≡ check_read r authed box
unfolding check_read can_access_box
check_read-public_outbox_read r authed b private = refl
check_read-public_outbox_read r authed b outbox = ground arith
check_read-public_outbox_read r authed b _ = refl

-- ALLOW_PUBLIC_OUTBOX_READ is not read on the way of a filter: the handler's answer is the same
-- whatever the setting, for every client and filter.
pub reject_filter-public_outbox_read :
    (order : List Box) (r : Router) (authed : String) (filter : Filter) (b : Bool)
    → reject_filter order
        (record r { config = record r.config { allow_public_outbox_read = b } })
        authed
        filter
      ≡ reject_filter order r authed filter
unfolding reject_filter route_filter
reject_filter-public_outbox_read order r authed filter b =
    let r' = record r { config = record r.config { allow_public_outbox_read = b } } in
    let boxes = route_filter order r filter authed in
    let e : first_refusal (check_read r' authed) boxes ≡ first_refusal (check_read r authed) boxes =
      first_refusal-cong _ _ boxes (check_read-public_outbox_read r authed b) in
    ap (λ v. if not r.config.enabled then accept else v) e
