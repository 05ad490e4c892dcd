-- ===== src/Groups/Metadata.antt =====
-- internal/groups/reject_metadata.go: who may publish a group's metadata (kinds 39000 to 39009). The
-- d-tag is an argument, the result of go-nostr's `event.Tags.GetD()`.
use cloistr_relay.Prelude.{
  ℕ, String, ◌≡◌, ◌≢◌, ap, ◌∙◌, ◌↔◌, ◌⊎◌, Bool, true, false, not, ◌&&◌, Option, none, some, List,
  [], ◌∷◌, arith, ◌==◌, nat_eq, string_eq, eq_iff, if◌then◌else◌, In, any_of, any_of-In, In-any_of,
  inl, inr, refl, Bool-cases,
}
use mathlib.Core.Path.{ap₂, subst}
use Prim.Native.String.{len, slice}
use cloistr_relay.Strings.{has_prefix}
use cloistr_relay.Nostr.{Event, Tag, msg, num, Verdict, accept, reject}
use cloistr_relay.Groups.Kinds.{
  is_group_metadata_kind, kind_group_metadata, kind_group_admins, kind_group_members,
}
use cloistr_relay.Groups.Resolve.{
  Querier, owner_prefix, has_owner_prefix, resolve_owner, owner_among,
  is_authorized_metadata_writer, may_write_as, may_write_for, owner_from, delegated_from,
  is_delegated_member_writer, listed, latest_event_from, grants, member_write_permission,
}

-- The message of a refusal with the kind.
abbrev blocked : String → ℕ → Verdict
blocked format kind = reject (msg format (num kind ∷ []))

-- The answer with a store, from the result of IsAuthorizedMetadataWriter.
unfoldable pub by_authority : ℕ → Option Bool → Verdict
by_authority kind none = blocked "blocked: kind %d authorization check failed" kind
by_authority kind (some true) = accept
by_authority kind (some false) =
    blocked "blocked: kind %d can only be published by an authorized writer" kind

-- The answer without a store, from the prefix in the d-tag.
unfoldable pub by_prefix : ℕ → String → Option String → Verdict
by_prefix kind pubkey none = accept
by_prefix kind pubkey (some prefix) =
    if has_owner_prefix pubkey prefix
    then accept
    else blocked "blocked: kind %d can only be published by the group owner" kind

unfoldable pub by_store : Option Querier → String → Event → Verdict
by_store (some q) d_tag event =
    by_authority event.kind (is_authorized_metadata_writer q d_tag event.kind event.pubkey)
by_store none d_tag event = by_prefix event.kind event.pubkey (owner_prefix d_tag)

unfoldable pub reject_external_metadata : String → Option Querier → String → Event → Verdict
reject_external_metadata relay_pubkey store d_tag event =
    if not (is_group_metadata_kind event.kind)
    then accept
    else if not (relay_pubkey == "") && event.pubkey == relay_pubkey
    then accept
    else if d_tag == ""
    then blocked "blocked: kind %d events require a d-tag" event.kind
    else by_store store d_tag event

-- The tag lists the key with the permission to add or to remove users.
abbrev pub Permits : String → Tag → Type 0
Permits pubkey t =
    (perms : List String) × (t ≡ "p" ∷ pubkey ∷ perms)
    × (In "add-user" perms ⊎ In "remove-user" perms)

permitted :
    (perms : List String)
    → any_of member_write_permission perms ≡ true
    → In "add-user" perms ⊎ In "remove-user" perms
permitted perms h =
    let found = any_of-In member_write_permission perms h in
    elim (Bool-cases (found.0 == "add-user")) [
      | inl add ↦ inl (subst (λ x. In x perms) ((eq_iff found.0 "add-user").0 add) found.1)
      | inr other ↦
          let e : (found.0 == "remove-user") ≡ true = ground (arith, found.2, other) in
          inr (subst (λ x. In x perms) ((eq_iff found.0 "remove-user").0 e) found.1)
    ]

permits :
    (perms : List String)
    → In "add-user" perms ⊎ In "remove-user" perms
    → any_of member_write_permission perms ≡ true
permits perms (inl i) = In-any_of member_write_permission "add-user" perms i refl
permits perms (inr i) = In-any_of member_write_permission "remove-user" perms i refl

grants-Permits : (pubkey : String) (t : Tag) → (grants pubkey t ≡ true) ↔ Permits pubkey t
unfolding grants
grants-Permits pubkey [] = (λ h. cc, λ w. let gone : ⊥ = cc in absurd gone)
grants-Permits pubkey (k ∷ []) = (λ h. cc, λ w. let gone : ⊥ = cc in absurd gone)
grants-Permits pubkey (k ∷ v ∷ perms) = (
  λ h.
      let key : k ≡ "p" = ground (arith, h, eq_iff k "p") in
      let value : v ≡ pubkey = ground (arith, h, eq_iff v pubkey) in
      let some_perm : any_of member_write_permission perms ≡ true = ground (arith, h) in
      (perms, ap₂ (λ a b. a ∷ b ∷ perms) key value, permitted perms some_perm),
  λ w.
      let key : k ≡ "p" = cc in
      let value : v ≡ pubkey = cc in
      let same : w.0 ≡ perms = cc in
      let some_perm = permits perms (subst (λ l. In "add-user" l ⊎ In "remove-user" l) same w.2) in
      ground (arith, some_perm, eq_iff k "p", eq_iff v pubkey, key, value),
)

module _ (relay_pubkey d_tag : String) (q : Querier) (event : Event) where
  -- The event is signed by somebody other than the relay.
  abbrev pub IsExternal : Type 0
  IsExternal = (is_group_metadata_kind event.kind ≡ true) × (event.pubkey ≢ relay_pubkey)

  -- The event's author is listed in the latest admin list, if there is one, with the permission to
  -- add or to remove users.
  pub record IsPermitted (o : Option Event) : Type 0 where
    pub latest : Event
    pub is_latest : o ≡ some latest
    pub tag : Tag
    pub has_tag : In tag latest.tags
    pub permits : Permits event.pubkey tag

  -- Of the stored admin lists, the latest that the owner has signed lists the author.
  pub record IsListed (owner : String) (o : Option (List Event)) : Type 0 where
    pub admins : List Event
    pub stored : o ≡ some admins
    pub permitted : IsPermitted (latest_event_from admins owner)

  -- The event is a member list of an author with a permission.
  abbrev pub IsDelegate : String → Type 0
  IsDelegate owner = (event.kind ≡ kind_group_members) × IsListed owner (q kind_group_admins d_tag)

  -- The author may write for a group with that owner: a key, or the prefix of one.
  abbrev pub IsAuthorized : String → Type 0
  IsAuthorized owner =
      (owner ≢ "")
      × ((has_prefix owner "prefix:" ≡ true)
            × (has_owner_prefix event.pubkey (slice owner 7 (len owner)) ≡ true)
          ⊎ (has_prefix owner "prefix:" ≡ false) × ((event.pubkey ≡ owner) ⊎ IsDelegate owner))

  listed-IsPermitted : (o : Option Event) → (listed event.pubkey o ≡ true) ↔ IsPermitted o
  unfolding listed
  listed-IsPermitted none = (λ h. cc, λ w. let gone = w.is_latest in cc)
  listed-IsPermitted (some a) = (
    λ h.
        let found = any_of-In (grants event.pubkey) a.tags h in
        record {
          latest = a;
          is_latest = refl;
          tag = found.0;
          has_tag = found.1;
          permits = (grants-Permits event.pubkey found.0).0 found.2;
        },
    λ w.
        let at = w.is_latest in
        let same : w.latest ≡ a = cc in
        In-any_of (grants event.pubkey) w.tag a.tags
          (subst (λ (x : Event). In w.tag x.tags) same w.has_tag)
          ((grants-Permits event.pubkey w.tag).1 w.permits),
  )

  delegated-IsListed :
      (owner : String) (o : Option (List Event))
      → (delegated_from event.pubkey owner o ≡ some true) ↔ IsListed owner o
  unfolding delegated_from
  delegated-IsListed owner none = (λ h. cc, λ w. let gone = w.stored in cc)
  delegated-IsListed owner (some l) = (
    λ h.
        let yes : listed event.pubkey (latest_event_from l owner) ≡ true = ground (arith, h) in
        record {
          admins = l;
          stored = refl;
          permitted = (listed-IsPermitted (latest_event_from l owner)).0 yes;
        },
    λ w.
        let at = w.stored in
        let same : w.admins ≡ l = cc in
        ap some (
          (listed-IsPermitted (latest_event_from l owner)).1
            (subst (λ x. IsPermitted (latest_event_from x owner)) same w.permitted)),
  )

  by_owner-IsAuthorized :
      (o : Option String)
      → (by_authority event.kind (may_write_for q d_tag event.kind event.pubkey o) ≡ accept)
        ↔ ((owner : String) × (o ≡ some owner) × IsAuthorized owner)
  unfolding by_authority may_write_for may_write_as is_delegated_member_writer
  by_owner-IsAuthorized none = (λ h. cc, λ w. let gone : ⊥ = cc in absurd gone)
  by_owner-IsAuthorized (some owner) =
      let delegated = delegated-IsListed owner (q kind_group_admins d_tag) in
      let here : (by_authority event.kind
              (may_write_for q d_tag event.kind event.pubkey (some owner))
            ≡ accept)
          ↔ IsAuthorized owner =
        ground (arith, delegated, eq_iff owner "", eq_iff event.pubkey owner) in
      (
        λ h. (owner, refl, here.0 h),
        λ w. let same : w.0 ≡ owner = cc in here.1 (subst IsAuthorized same w.2),
      )

  -- With a store, the relay accepts an event exactly if it is no group metadata; or the relay has
  -- signed it; or it has a d-tag, whose owner is resolved without an error and is not the empty
  -- text, and the author has the owner's prefix, where the owner is only known by that, and else is
  -- the owner, or the event is a member list whose author the latest admin list of the owner lists
  -- with the permission to add or to remove users. There is no exemption of d-tags without a prefix.
  pub reject_external_metadata-IsAuthorized :
      (reject_external_metadata relay_pubkey (some q) d_tag event ≡ accept) ↔ (
        (is_group_metadata_kind event.kind ≡ false)
        ⊎ (relay_pubkey ≢ "") × (event.pubkey ≡ relay_pubkey)
        ⊎ (d_tag ≢ "")
          × (owner : String) × (resolve_owner q d_tag ≡ some owner)
          × IsAuthorized owner)
  unfolding reject_external_metadata by_store is_authorized_metadata_writer
  reject_external_metadata-IsAuthorized =
      let authority = by_owner-IsAuthorized (resolve_owner q d_tag) in
      ground (
        arith,
        authority,
        eq_iff relay_pubkey "",
        eq_iff event.pubkey relay_pubkey,
        eq_iff d_tag "",
      )

  -- With a store, a legacy group, whose d-tag has no prefix, is refused to everybody but the relay as
  -- long as no metadata is stored for it, whatever the kind and the author.
  pub reject_external_metadata-legacy :
      owner_prefix d_tag ≡ none
      → q kind_group_metadata d_tag ≡ some []
      → d_tag ≢ ""
      → IsExternal
      → reject_external_metadata relay_pubkey (some q) d_tag event
        ≡ blocked "blocked: kind %d can only be published by an authorized writer" event.kind
  unfolding reject_external_metadata by_store by_authority is_authorized_metadata_writer
      may_write_for may_write_as resolve_owner owner_from owner_among
  reject_external_metadata-legacy legacy nothing tagged external =
      let unowned =
        ap (λ (p : Option String). owner_from p (q kind_group_metadata d_tag)) legacy
        ∙ ap (owner_from none) nothing in
      let refused = ap (may_write_for q d_tag event.kind event.pubkey) unowned in
      ground (arith, refused, eq_iff event.pubkey relay_pubkey, eq_iff d_tag "")
