-- ===== src/Groups/Coherence.antt =====
-- The cache of the group store agrees with the tables.
use cloistr_relay.Prelude.{
  ℕ, ◌+◌, String, ◌≡◌, refl, ◌⊎◌, inl, inr, true, false, Option, none, some, ◌==◌, string_eq,
  eq_iff, arith, if◌then◌else◌, Bool-cases,
}
use cloistr_relay.Groups.Kinds.{Privacy}
use cloistr_relay.Groups.Store.{
  GroupRow, Member, InviteCode, Group, Store, Config, Sql, set, is_some, new_group, insert_group,
  create_unless, create_group, delete_group, Metadata, with_metadata, updated_row, updated_group,
  update_group_metadata,
}
use cloistr_relay.Groups.Roster.{
  upserted, joined, add_member, left, remove_member, create_invite, use_found, use_invite,
}

-- What the tables and the cache say of a key and a group: a cached group is a row of the table with
-- the same fields; its Members are the rows of the members table; a role of the table is the role in
-- Admins, and every key in Admins is a member. A member's row has a group's row.
abbrev pub Agrees : String → Option GroupRow → Option Member → Option Group → Type 0
Agrees p row none none = Unit
Agrees p row (some m) none = is_some row ≡ true
Agrees p row none (some g) = (row ≡ some g.row) × (g.members p ≡ false) × (g.admins p ≡ none)
Agrees p row (some m) (some g) =
    (row ≡ some g.row) × (g.members p ≡ true) × ((m.role ≡ "") ⊎ (g.admins p ≡ some m.role))

abbrev pub IsCoherent : Store → Type 0
IsCoherent st = (id p : String) → Agrees p (st.groups id) (st.members id p) (st.cache id)

joined_key-Agrees :
    (q : Sql) (role by p : String) (row : Option GroupRow) (m : Option Member) (g : Option Group)
    → is_some row ≡ true
    → Agrees p row m g
    → Agrees p row (some (upserted q role by m)) (joined p role g)
unfolding joined upserted
joined_key-Agrees q role by p row none none known h = known
joined_key-Agrees q role by p row none (some g) known h =
    ground (arith, h, eq_iff p p, eq_iff role "")
joined_key-Agrees q role by p row (some m) none known h = known
joined_key-Agrees q role by p row (some m) (some g) known h =
    ground (arith, h, eq_iff p p, eq_iff role "")

joined_other-Agrees :
    (key role p : String) (row : Option GroupRow) (m : Option Member) (g : Option Group)
    → (p == key) ≡ false
    → Agrees p row m g
    → Agrees p row m (joined key role g)
unfolding joined
joined_other-Agrees key role p row none none other h = h
joined_other-Agrees key role p row none (some g) other h = ground (arith, h, other)
joined_other-Agrees key role p row (some m) none other h = h
joined_other-Agrees key role p row (some m) (some g) other h = ground (arith, h, other)

left_key-Agrees :
    (p : String) (row : Option GroupRow) (m : Option Member) (g : Option Group)
    → Agrees p row m g
    → Agrees p row none (left p g)
unfolding left
left_key-Agrees p row m none h = tt
left_key-Agrees p row none (some g) h = ground (arith, h, eq_iff p p)
left_key-Agrees p row (some m) (some g) h = ground (arith, h, eq_iff p p)

left_other-Agrees :
    (key p : String) (row : Option GroupRow) (m : Option Member) (g : Option Group)
    → (p == key) ≡ false
    → Agrees p row m g
    → Agrees p row m (left key g)
unfolding left
left_other-Agrees key p row none none other h = h
left_other-Agrees key p row none (some g) other h = ground (arith, h, other)
left_other-Agrees key p row (some m) none other h = h
left_other-Agrees key p row (some m) (some g) other h = ground (arith, h, other)

updated-Agrees :
    (d : Metadata) (p : String) (row : Option GroupRow) (m : Option Member) (g : Option Group)
    → Agrees p row m g
    → Agrees p (updated_row d row) m (updated_group d g)
unfolding updated_row updated_group with_metadata
updated-Agrees d p row none none h = tt
updated-Agrees d p none (some m) none h = h
updated-Agrees d p (some r) (some m) none h = h
updated-Agrees d p none none (some g) h = absurd (ground (arith, h.0))
updated-Agrees d p none (some m) (some g) h = absurd (ground (arith, h.0))
updated-Agrees d p (some r) none (some g) h = ground (arith, h)
updated-Agrees d p (some r) (some m) (some g) h = ground (arith, h)

pub add_member-IsCoherent :
    (q : Sql) (id key role by : String) (st : Store)
    → q.lost ≡ false
    → IsCoherent st
    → IsCoherent ((add_member q id key role by st).1)
unfolding add_member
add_member-IsCoherent q id key role by st kept ok x p = ground (
  arith,
  kept,
  ok x p,
  eq_iff x id,
  eq_iff p key,
  joined_key-Agrees q role by key (st.groups id) (st.members id key) (st.cache id),
  joined_other-Agrees key role p (st.groups id) (st.members id p) (st.cache id),
)

pub remove_member-IsCoherent :
    (q : Sql) (id key : String) (st : Store)
    → q.lost ≡ false
    → IsCoherent st
    → IsCoherent ((remove_member q id key st).1)
unfolding remove_member
remove_member-IsCoherent q id key st kept ok x p = ground (
  arith,
  kept,
  ok x p,
  eq_iff x id,
  eq_iff p key,
  left_key-Agrees key (st.groups id) (st.members id key) (st.cache id),
  left_other-Agrees key p (st.groups id) (st.members id p) (st.cache id),
)

pub update_group_metadata-IsCoherent :
    (q : Sql) (id : String) (d : Metadata) (st : Store)
    → q.lost ≡ false
    → IsCoherent st
    → IsCoherent ((update_group_metadata q id d st).1)
unfolding update_group_metadata
update_group_metadata-IsCoherent q id d st kept ok x p = ground (
  arith,
  kept,
  ok x p,
  eq_iff x id,
  updated-Agrees d p (st.groups id) (st.members id p) (st.cache id),
)

pub delete_group-IsCoherent :
    (q : Sql) (id : String) (st : Store)
    → q.lost ≡ false
    → IsCoherent st
    → IsCoherent ((delete_group q id st).1)
unfolding delete_group
delete_group-IsCoherent q id st kept ok x p = ground (arith, kept, ok x p, eq_iff x id)

no_row-Agrees :
    (p : String) (m : Option Member) (g : Option Group)
    → Agrees p none m g
    → (m ≡ none) × (g ≡ none)
no_row-Agrees p none none h = (refl, refl)
no_row-Agrees p (some m) none h = absurd (ground (arith, h))
no_row-Agrees p none (some g) h = absurd (ground (arith, h.0))
no_row-Agrees p (some m) (some g) h = absurd (ground (arith, h.0))

-- A group that is inserted: at its creator, at another key, and where the second insertion fails.
inserted-Agrees :
    (cfg : Config) (q : Sql) (key title p : String) (level : Privacy) (m : Member)
    → m.role ≡ "admin"
    → let g = new_group cfg q key title level in
      Agrees p (some g.row) (if p == key then some m else none) (some g)
unfolding new_group
inserted-Agrees cfg q key title p level m role = elim (Bool-cases (p == key)) [
  | inl same ↦ rw same (refl, ground (arith, same), inr (ground (arith, same, role)))
  | inr differs ↦ rw differs (refl, ground (arith, differs), ground (arith, differs))
]

insert_group-IsCoherent :
    (q : Sql) (cfg : Config) (key title : String) (level : Privacy) (st : Store)
    → q.lost ≡ false
    → IsCoherent st
    → IsCoherent ((insert_group q key (new_group cfg q key title level) st).1)
unfolding insert_group
insert_group-IsCoherent q cfg key title level st kept ok x p =
    let first : Member = record { role = "admin"; joined_at = q.now; added_by = key } in
    ground (
      arith,
      kept,
      ok x p,
      eq_iff x q.fresh_id,
      eq_iff p key,
      no_row-Agrees p (st.members q.fresh_id p) (st.cache q.fresh_id),
      no_row-Agrees key (st.members q.fresh_id key) (st.cache q.fresh_id),
      ok q.fresh_id key,
      inserted-Agrees cfg q key title p level first refl,
    )

pub create_group-IsCoherent :
    (cfg : Config) (q : Sql) (key title : String) (level : Privacy) (st : Store)
    → q.lost ≡ false
    → IsCoherent st
    → IsCoherent ((create_group cfg q key title level st).1)
unfolding create_group create_unless
create_group-IsCoherent cfg q key title level st kept ok x p =
    ground (arith, kept, ok x p, insert_group-IsCoherent q cfg key title level st kept ok x p)

use_found-IsCoherent :
    (q : Sql) (code key : String) (i : Option InviteCode) (st : Store)
    → q.lost ≡ false
    → IsCoherent st
    → IsCoherent ((use_found q code key i st).1)
unfolding use_found
use_found-IsCoherent q code key none st kept ok x p = ok x p
use_found-IsCoherent q code key (some i) st kept ok x p =
    let counted : Store = record st {
      invites = set st.invites code (some (record i { uses = i.uses + 1 }));
    } in
    ground (
      arith,
      kept,
      ok x p,
      add_member-IsCoherent q i.group_id key "" (Prim.Native.String.◌++◌ "invite:" code) counted
          kept ok x p,
    )

pub use_invite-IsCoherent :
    (q : Sql) (code key : String) (st : Store)
    → q.lost ≡ false
    → IsCoherent st
    → IsCoherent ((use_invite q code key st).1)
unfolding use_invite
use_invite-IsCoherent q code key st kept ok x p =
    ground (arith, kept, ok x p, use_found-IsCoherent q code key (st.invites code) st kept ok x p)

pub create_invite-IsCoherent :
    (q : Sql) (id key : String) (n t : ℕ) (st : Store)
    → q.lost ≡ false
    → IsCoherent st
    → IsCoherent ((create_invite q id key n t st).1)
unfolding create_invite
create_invite-IsCoherent q id key n t st kept ok x p = ground (arith, kept, ok x p)
