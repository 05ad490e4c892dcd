-- ===== src/Groups/Entitlement.antt =====
-- Who becomes a member or an admin of a group by an operation of the store.
use cloistr_relay.Prelude.{
  ℕ, ◌+◌, String, ◌≡◌, ◌≢◌, refl, ◌⊎◌, inl, inr, true, false, Option, none, some, string_eq, nat_eq,
  eq_iff, arith,
}
use cloistr_relay.Groups.Kinds.{Privacy}
use cloistr_relay.Groups.Store.{
  Store, Config, Sql, Group, InviteCode, set, create_group, create_unless, insert_group, new_group,
  delete_group, update_group_metadata, updated_group, Metadata,
}
use cloistr_relay.Groups.Roster.{
  add_member, joined, remove_member, left, is_member, is_member_of, is_admin, is_admin_of,
  use_invite, use_found, is_spent, create_invite,
}

-- The members and admins after each operation, at a group `x` and a key `p`.
module _ (x p : String) where
  joined_members :
      (key role : String) (g : Option Group)
      → is_member_of (joined key role g) p ≡ true
      → (is_member_of g p ≡ true) ⊎ (p ≡ key)
  unfolding joined is_member_of
  joined_members key role none h = inl h
  joined_members key role (some g) h = ground (arith, h, eq_iff p key)

  joined_admins :
      (key role : String) (g : Option Group)
      → is_admin_of (joined key role g) p ≡ true
      → (is_admin_of g p ≡ true) ⊎ (p ≡ key) × (role ≢ "")
  unfolding joined is_admin_of
  joined_admins key role none h = inl h
  joined_admins key role (some g) h = ground (arith, h, eq_iff p key, eq_iff role "")

  pub add_member_members :
      (q : Sql) (id key role by : String) (st : Store)
      → is_member ((add_member q id key role by st).1) x p ≡ true
      → (is_member st x p ≡ true) ⊎ (x ≡ id) × (p ≡ key)
  unfolding add_member is_member
  add_member_members q id key role by st h =
      ground (arith, h, eq_iff x id, joined_members key role (st.cache id))

  pub add_member_admins :
      (q : Sql) (id key role by : String) (st : Store)
      → is_admin ((add_member q id key role by st).1) x p ≡ true
      → (is_admin st x p ≡ true) ⊎ (x ≡ id) × (role ≢ "")
  unfolding add_member is_admin
  add_member_admins q id key role by st h =
      ground (arith, h, eq_iff x id, joined_admins key role (st.cache id))

  left_members :
      (key : String) (g : Option Group)
      → is_member_of (left key g) p ≡ true
      → is_member_of g p ≡ true
  unfolding left is_member_of
  left_members key none h = h
  left_members key (some g) h = ground (arith, h)

  left_admins :
      (key : String) (g : Option Group) → is_admin_of (left key g) p ≡ true → is_admin_of g p ≡ true
  unfolding left is_admin_of
  left_admins key none h = h
  left_admins key (some g) h = ground (arith, h)

  pub remove_member_roster :
      (q : Sql) (id key : String) (st : Store)
      → let st' = (remove_member q id key st).1 in
        ((is_member st' x p ≡ false) ⊎ (is_member st x p ≡ true))
        × ((is_admin st' x p ≡ false) ⊎ (is_admin st x p ≡ true))
  unfolding remove_member is_member is_admin
  remove_member_roster q id key st =
      ground (arith, eq_iff x id, left_members key (st.cache id), left_admins key (st.cache id))

  updated_roster :
      (d : Metadata) (g : Option Group)
      → (is_member_of (updated_group d g) p ≡ is_member_of g p)
        × (is_admin_of (updated_group d g) p ≡ is_admin_of g p)
  unfolding updated_group is_member_of is_admin_of
  updated_roster d none = (refl, refl)
  updated_roster d (some g) = (refl, refl)

  pub update_roster :
      (q : Sql) (id : String) (d : Metadata) (st : Store)
      → let st' = (update_group_metadata q id d st).1 in
        (is_member st' x p ≡ is_member st x p) × (is_admin st' x p ≡ is_admin st x p)
  unfolding update_group_metadata is_member is_admin
  update_roster q id d st = ground (arith, eq_iff x id, updated_roster d (st.cache id))

  pub delete_group_roster :
      (q : Sql) (id : String) (st : Store)
      → let st' = (delete_group q id st).1 in
        ((is_member st' x p ≡ false) ⊎ (is_member st x p ≡ true))
        × ((is_admin st' x p ≡ false) ⊎ (is_admin st x p ≡ true))
  unfolding delete_group is_member is_admin is_member_of is_admin_of
  delete_group_roster q id st = ground (arith, eq_iff x id)

  pub create_group_roster :
      (cfg : Config) (q : Sql) (key title : String) (level : Privacy) (st : Store)
      → let st' = (create_group cfg q key title level st).1 in
        ((is_member st' x p ≡ false) ⊎ (is_member st x p ≡ true) ⊎ (x ≡ q.fresh_id) × (p ≡ key))
        × ((is_admin st' x p ≡ false) ⊎ (is_admin st x p ≡ true) ⊎ (x ≡ q.fresh_id) × (p ≡ key))
  unfolding create_group create_unless insert_group new_group is_member is_admin is_member_of
      is_admin_of
  create_group_roster cfg q key title level st = ground (arith, eq_iff x q.fresh_id, eq_iff p key)

  pub create_invite_roster :
      (q : Sql) (id key : String) (n t : ℕ) (st : Store)
      → let st' = (create_invite q id key n t st).1 in
        (is_member st' x p ≡ is_member st x p) × (is_admin st' x p ≡ is_admin st x p)
  unfolding create_invite is_member is_admin
  create_invite_roster q id key n t st = ground arith

  -- The code is that of an invite to the group that can be used.
  abbrev pub HasInvite : ℕ → String → Store → Type 0
  HasInvite now code st =
      (i : InviteCode) × (st.invites code ≡ some i) × (x ≡ i.group_id) × (is_spent now i ≡ false)

  use_found_members :
      (q : Sql) (code key : String) (o : Option InviteCode) (st : Store)
      → is_member ((use_found q code key o st).1) x p ≡ true
      → (is_member st x p ≡ true)
        ⊎ (p ≡ key)
          × ((i : InviteCode) × (o ≡ some i) × (x ≡ i.group_id) × (is_spent q.now i ≡ false))
  unfolding use_found is_member
  use_found_members q code key none st h = inl h
  use_found_members q code key (some i) st h =
      let counted : Store = record st {
        invites = set st.invites code (some (record i { uses = i.uses + 1 }));
      } in
      let gain : (is_member st x p ≡ true)
          ⊎ (p ≡ key) × (x ≡ i.group_id) × (is_spent q.now i ≡ false) =
        ground (
          arith,
          h,
          add_member_members q i.group_id key "" (Prim.Native.String.◌++◌ "invite:" code) counted,
        ) in
      elim gain [ inl was ↦ inl was | inr (e, at, good) ↦ inr (e, (i, refl, at, good)) ]

  pub use_invite_members :
      (q : Sql) (code key : String) (st : Store)
      → is_member ((use_invite q code key st).1) x p ≡ true
      → (is_member st x p ≡ true) ⊎ (p ≡ key) × HasInvite q.now code st
  unfolding use_invite
  use_invite_members q code key st h =
      ground (arith, h, use_found_members q code key (st.invites code) st)

  use_found_admins :
      (q : Sql) (code key : String) (o : Option InviteCode) (st : Store)
      → is_admin ((use_found q code key o st).1) x p ≡ true
      → is_admin st x p ≡ true
  unfolding use_found is_admin
  use_found_admins q code key none st h = h
  use_found_admins q code key (some i) st h =
      let counted : Store = record st {
        invites = set st.invites code (some (record i { uses = i.uses + 1 }));
      } in
      let no_role : String = "" in
      ground (
        arith,
        h,
        eq_iff no_role "",
        add_member_admins q i.group_id key no_role (Prim.Native.String.◌++◌ "invite:" code) counted,
      )

  pub use_invite_admins :
      (q : Sql) (code key : String) (st : Store)
      → is_admin ((use_invite q code key st).1) x p ≡ true
      → is_admin st x p ≡ true
  unfolding use_invite
  use_invite_admins q code key st h =
      ground (arith, h, use_found_admins q code key (st.invites code) st)
