-- ===== src/Groups/Admitted.antt =====
-- Who becomes a member or an admin of a group by an event that RejectEvent accepted.
use cloistr_relay.Prelude.{
  ◌+◌, String, ◌≡◌, refl, ◌⊎◌, inl, inr, true, false, Option, none, some, ◌==◌, string_eq, nat_eq,
  eq_iff, arith, Bool-cases,
}
use cloistr_relay.Nostr.{Event, accept}
use cloistr_relay.Groups.Kinds.{is_moderator_kind, is_group_management_kind, kind_create_group}
use cloistr_relay.Groups.Store.{Store, Config, Sql, Group, get_group}
use cloistr_relay.Groups.Roster.{is_member, is_admin}
use cloistr_relay.Groups.Handler.{
  get_group_id_from_event, first_value, last_value, reject_event, check_group_event,
  handle_create_group_event, handle_moderation_event, handle_management_event, is_authed_as,
  kind_join_request,
}
use cloistr_relay.Groups.Saved.{
  Parsers, on_event_saved, conclude, with_members, process_create_group, process_add_user,
  process_remove_user, process_edit_metadata, edited, process_join_request, join_directly, approves,
  process_leave_request, process_create_invite, uses_of, expiry_of, time_or, first_privacy,
}
use cloistr_relay.Groups.Entitlement.{
  add_member_members, add_member_admins, remove_member_roster, update_roster, delete_group_roster,
  create_group_roster, create_invite_roster, HasInvite, use_invite_members, use_invite_admins,
}

-- An accepted event that moderates a group comes from its authenticated author, an admin; one that
-- creates a group or asks to join, from its authenticated author.
module _ (cfg : Config) (authed : String) (st : Store) (e : Event) where
  check-is_admin :
      (g : Option Group) (id : String)
      → check_group_event st authed e id g ≡ accept
      → (is_moderator_kind e.kind ≡ false) ⊎ (authed ≡ e.pubkey) × (is_admin st id e.pubkey ≡ true)
  unfolding check_group_event handle_moderation_event is_authed_as
  check-is_admin none id h = absurd (ground (arith, h))
  check-is_admin (some g) id h = ground (arith, h, eq_iff authed e.pubkey)

  check-authed :
      (g : Option Group) (id : String)
      → check_group_event st authed e id g ≡ accept
      → is_group_management_kind e.kind ≡ true
      → (is_moderator_kind e.kind ≡ true) ⊎ (authed ≡ e.pubkey)
  unfolding check_group_event handle_management_event is_authed_as
  check-authed none id h k = absurd (ground (arith, h))
  check-authed (some g) id h k = ground (arith, h, k, eq_iff authed e.pubkey)

  accepted-is_admin :
      cfg.enabled ≡ true
      → (get_group_id_from_event e == "") ≡ false
      → reject_event cfg authed st e ≡ accept
      → is_moderator_kind e.kind ≡ true
      → (e.kind ≡ kind_create_group)
        ⊎ (authed ≡ e.pubkey) × (is_admin st (get_group_id_from_event e) e.pubkey ≡ true)
  unfolding reject_event
  accepted-is_admin on named h k =
      let id : String = get_group_id_from_event e in
      ground (arith, on, named, h, k, check-is_admin (get_group st id) id)

  accepted-authed :
      cfg.enabled ≡ true
      → (get_group_id_from_event e == "") ≡ false
      → reject_event cfg authed st e ≡ accept
      → (e.kind ≡ kind_create_group) ⊎ (e.kind ≡ kind_join_request)
      → authed ≡ e.pubkey
  unfolding reject_event handle_create_group_event is_authed_as
  accepted-authed on named h k =
      let id : String = get_group_id_from_event e in
      ground (arith, on, named, h, k, check-authed (get_group st id) id, eq_iff authed e.pubkey)

-- The group exists and takes new members without an invite.
abbrev pub ApprovesJoins : Store → String → Type 0
ApprovesJoins st id = (g : Group) × (st.cache id ≡ some g) × (approves g.row.privacy ≡ true)

module _ (cfg : Config) (parsers : Parsers) (q : Sql) (e : Event) (st : Store) (x p : String) where
  joined_directly :
      (id : String) (g : Option Group)
      → is_member ((join_directly q e id g st).1) x p ≡ true
      → (is_member st x p ≡ true)
        ⊎ (p ≡ e.pubkey)
          × (x ≡ id)
          × ((g' : Group) × (g ≡ some g') × (approves g'.row.privacy ≡ true))
  unfolding join_directly with_members
  joined_directly id none h = inl h
  joined_directly id (some g) h = elim (Bool-cases (approves g.row.privacy)) [
    | inl free ↦
        elim (add_member_members x p q id e.pubkey "" "self" st (ground (arith, h, free))) [
          | inl was ↦ inl was
          | inr (at, key) ↦ inr (key, at, (g, refl, free))
        ]
    | inr asks ↦ inl (ground (arith, h, asks))
  ]

  directly_admins :
      (id : String) (g : Option Group)
      → is_admin ((join_directly q e id g st).1) x p ≡ true
      → is_admin st x p ≡ true
  unfolding join_directly with_members
  directly_admins id none h = h
  directly_admins id (some g) h =
      let no_role : String = "" in
      ground (arith, h, add_member_admins x p q id e.pubkey no_role "self" st, eq_iff no_role "")

  process_join_request_members :
      is_member ((process_join_request q e (get_group_id_from_event e) st).1) x p ≡ true
      → (is_member st x p ≡ true)
        ⊎ (p ≡ e.pubkey)
          × (x ≡ get_group_id_from_event e)
          × ApprovesJoins st (get_group_id_from_event e)
        ⊎ (p ≡ e.pubkey) × HasInvite x p q.now (first_value "code" "" e.tags) st
  unfolding process_join_request with_members get_group
  process_join_request_members h =
      let id : String = get_group_id_from_event e in
      let code : String = first_value "code" "" e.tags in
      ground (arith, h, joined_directly id (st.cache id), use_invite_members x p q code e.pubkey st)

  process_join_request_admins :
      is_admin ((process_join_request q e (get_group_id_from_event e) st).1) x p ≡ true
      → is_admin st x p ≡ true
  unfolding process_join_request with_members get_group
  process_join_request_admins h =
      let id : String = get_group_id_from_event e in
      let code : String = first_value "code" "" e.tags in
      ground (arith, h, directly_admins id (st.cache id), use_invite_admins x p q code e.pubkey st)

  -- What may bring the key into the group: an action of one of its admins, its creation by the key,
  -- or a join request of the key, without an invite where the group takes those, or with one.
  abbrev pub IsEntitled : Type 0
  IsEntitled =
      (x ≡ get_group_id_from_event e) × (is_admin st x e.pubkey ≡ true)
      ⊎ (e.kind ≡ kind_create_group) × (x ≡ q.fresh_id) × (p ≡ e.pubkey)
      ⊎ (p ≡ e.pubkey)
        × (x ≡ get_group_id_from_event e)
        × ApprovesJoins st (get_group_id_from_event e)
      ⊎ (p ≡ e.pubkey) × HasInvite x p q.now (first_value "code" "" e.tags) st

  -- A key that an accepted event makes a member of a group is entitled to it, and the event's author
  -- is the authenticated client.
  pub saved-IsEntitled :
      (authed : String)
      → cfg.enabled ≡ true
      → reject_event cfg authed st e ≡ accept
      → is_member st x p ≡ false
      → is_member ((on_event_saved cfg parsers q e st).1) x p ≡ true
      → (authed ≡ e.pubkey) × IsEntitled
  unfolding on_event_saved process_create_group process_add_user process_remove_user
      process_edit_metadata process_leave_request process_create_invite conclude with_members
  saved-IsEntitled authed on ok new h =
      let id : String = get_group_id_from_event e in
      let key : String = last_value "p" "" e.tags in
      ground (
        arith,
        on,
        new,
        h,
        create_group_roster x p cfg q e.pubkey (first_value "name" "Unnamed Group" e.tags)
            (first_privacy cfg.default_privacy e.tags) st,
        delete_group_roster x p q id st,
        add_member_members x p q id key (last_value "role" "" e.tags) e.pubkey st,
        remove_member_roster x p q id (first_value "p" "" e.tags) st,
        update_roster x p q id (edited e) st,
        process_join_request_members,
        remove_member_roster x p q id e.pubkey st,
        create_invite_roster x p q id e.pubkey (uses_of parsers 0 e.tags)
            (time_or (q.now + cfg.invite_code_expiry) (expiry_of parsers none e.tags)) st,
        (λ (named : (id == "") ≡ false). accepted-is_admin cfg authed st e on named ok),
        (λ (named : (id == "") ≡ false). accepted-authed cfg authed st e on named ok),
      )

  -- A key that an accepted event makes an admin of a group was given the role by an authenticated
  -- admin of that group, or created it.
  pub saved-is_admin :
      (authed : String)
      → cfg.enabled ≡ true
      → reject_event cfg authed st e ≡ accept
      → is_admin st x p ≡ false
      → is_admin ((on_event_saved cfg parsers q e st).1) x p ≡ true
      → (authed ≡ e.pubkey)
        × ((x ≡ get_group_id_from_event e) × (is_admin st x e.pubkey ≡ true)
            ⊎ (e.kind ≡ kind_create_group) × (x ≡ q.fresh_id) × (p ≡ e.pubkey))
  unfolding on_event_saved process_create_group process_add_user process_remove_user
      process_edit_metadata process_leave_request process_create_invite conclude with_members
  saved-is_admin authed on ok new h =
      let id : String = get_group_id_from_event e in
      let key : String = last_value "p" "" e.tags in
      ground (
        arith,
        on,
        new,
        h,
        create_group_roster x p cfg q e.pubkey (first_value "name" "Unnamed Group" e.tags)
            (first_privacy cfg.default_privacy e.tags) st,
        delete_group_roster x p q id st,
        add_member_admins x p q id key (last_value "role" "" e.tags) e.pubkey st,
        remove_member_roster x p q id (first_value "p" "" e.tags) st,
        update_roster x p q id (edited e) st,
        process_join_request_admins,
        remove_member_roster x p q id e.pubkey st,
        create_invite_roster x p q id e.pubkey (uses_of parsers 0 e.tags)
            (time_or (q.now + cfg.invite_code_expiry) (expiry_of parsers none e.tags)) st,
        (λ (named : (id == "") ≡ false). accepted-is_admin cfg authed st e on named ok),
        (λ (named : (id == "") ≡ false). accepted-authed cfg authed st e on named ok),
      )
