-- ===== src/Groups/Roster.antt =====
-- internal/groups/store.go: members and invites.
use cloistr_relay.Prelude.{
  ℕ, ◌+◌, String, Bool, true, false, not, ◌&&◌, ◌||◌, Option, none, some, [], ◌∷◌, ◌==◌, string_eq,
  ltb, leb, if◌then◌else◌,
}
use cloistr_relay.Groups.Store.{
  Group, Member, InviteCode, Store, Sql, sql_error, not_member, invalid_invite, Reply, failed, set,
  is_some, logged,
}

-- INSERT … ON CONFLICT DO UPDATE SET role.
unfoldable pub upserted : Sql → String → String → Option Member → Member
upserted q role added_by none = record { role = role; joined_at = q.now; added_by = added_by }
upserted q role added_by (some m) = record m { role = role }

-- The cached maps after AddMember: an empty role leaves Admins as it was.
unfoldable pub joined : String → String → Option Group → Option Group
joined pubkey role none = none
joined pubkey role (some g) = some (record g {
  members = set g.members pubkey true;
  admins = if role == "" then g.admins else set g.admins pubkey (some role);
})

unfoldable pub add_member :
    Sql → String → String → String → String → Store → Reply (Unit {0}) × Store
unfolding logged upserted joined
add_member q id pubkey role added_by st =
    let stored : Store = record st {
      members =
          set st.members id
            (set (st.members id) pubkey (some (upserted q role added_by (st.members id pubkey))));
    } in
    if not (is_some (st.groups id))
    then (failed sql_error, st)
    else if not q.member_stored
    then (failed sql_error, if q.lost then stored else st)
    else (
      logged (pubkey ∷ id ∷ []) tt,
      record stored { cache = set st.cache id (joined pubkey role (st.cache id)) },
    )

unfoldable pub left : String → Option Group → Option Group
left pubkey none = none
left pubkey (some g) =
    some (record g { members = set g.members pubkey false; admins = set g.admins pubkey none })

unfoldable pub remove_member : Sql → String → String → Store → Reply (Unit {0}) × Store
unfolding logged left
remove_member q id pubkey st =
    let deleted : Store = record st {
      members = set st.members id (set (st.members id) pubkey none);
    } in
    if not q.member_deleted
    then (failed sql_error, if q.lost then deleted else st)
    else if not (is_some (st.members id pubkey))
    then (failed not_member, st)
    else (
      logged (pubkey ∷ id ∷ []) tt,
      record deleted { cache = set st.cache id (left pubkey (st.cache id)) },
    )

unfoldable pub is_member_of : Option Group → String → Bool
is_member_of none pubkey = false
is_member_of (some g) pubkey = g.members pubkey

unfoldable pub is_member : Store → String → String → Bool
unfolding is_member_of
is_member st id pubkey = is_member_of (st.cache id) pubkey

unfoldable pub is_admin_of : Option Group → String → Bool
is_admin_of none pubkey = false
is_admin_of (some g) pubkey = is_some (g.admins pubkey)

unfoldable pub is_admin : Store → String → String → Bool
unfolding is_admin_of
is_admin st id pubkey = is_admin_of (st.cache id) pubkey

unfoldable pub create_invite : Sql → String → String → ℕ → ℕ → Store → Reply InviteCode × Store
unfolding logged
create_invite q id creator max_uses expires_at st =
    let invite : InviteCode = record {
      group_id = id;
      created_by = creator;
      created_at = q.now;
      expires_at = expires_at;
      max_uses = max_uses;
      uses = 0;
    } in
    let stored : Store = record st { invites = set st.invites q.fresh_code (some invite) } in
    if not (is_some (st.groups id)) || is_some (st.invites q.fresh_code)
    then (failed sql_error, st)
    else if not q.invite_stored
    then (failed sql_error, if q.lost then stored else st)
    else (logged (q.fresh_code ∷ id ∷ []) invite, stored)

unfoldable pub is_spent : ℕ → InviteCode → Bool
is_spent now i = ltb i.expires_at now || ltb 0 i.max_uses && leb i.max_uses i.uses

unfoldable pub use_found :
    Sql → String → String → Option InviteCode → Store → Reply (Unit {0}) × Store
unfolding is_spent add_member
use_found q code pubkey none st = (failed invalid_invite, st)
use_found q code pubkey (some i) st =
    let counted : Store = record st {
      invites = set st.invites code (some (record i { uses = i.uses + 1 }));
    } in
    if is_spent q.now i
    then (failed invalid_invite, st)
    else if not q.invite_used
    then (failed sql_error, if q.lost then counted else st)
    else add_member q i.group_id pubkey "" (Prim.Native.String.◌++◌ "invite:" code) counted

-- UseInvite, without the group id that it returns, which its caller drops.
unfoldable pub use_invite : Sql → String → String → Store → Reply (Unit {0}) × Store
unfolding use_found
use_invite q code pubkey st =
    if not q.invite_read
    then (failed sql_error, st)
    else use_found q code pubkey (st.invites code) st
