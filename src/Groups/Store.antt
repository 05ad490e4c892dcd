-- ===== src/Groups/Store.antt =====
-- internal/groups/store.go: the tables of the groups, their members and invites in PostgreSQL, and
-- the cache of groups in memory. `Sql` is what the clock, the random generator and PostgreSQL
-- answer in one operation: a statement that fails changes nothing. A primary key refuses a second
-- row, a foreign key a row without its group, and the deletion of a group cascades. The messages to
-- the log matter only where they slice a text of fewer than 8 bytes, which panics.
use Prim.Native.String.{len}
use cloistr_relay.Prelude.{
  ℕ, String, Bool, true, false, not, Option, none, some, List, [], ◌∷◌, ◌==◌, string_eq, any_of,
  ltb, leb, if◌then◌else◌,
}
use cloistr_relay.Groups.Kinds.{Privacy}

pub record GroupRow : Type 0 where
  pub name : String
  pub picture : String
  pub about : String
  pub privacy : Privacy
  pub created_at : ℕ
  pub created_by : String
  pub relay_url : String

pub record Member : Type 0 where
  pub role : String
  pub joined_at : ℕ
  pub added_by : String

pub record InviteCode : Type 0 where
  pub group_id : String
  pub created_by : String
  pub created_at : ℕ
  pub expires_at : ℕ
  pub max_uses : ℕ
  pub uses : ℕ

-- A group of the cache: its row, and the maps Admins and Members.
pub record Group : Type 0 where
  pub row : GroupRow
  pub admins : String → Option String
  pub members : String → Bool

-- The tables by their primary keys, and the cache.
pub record Store : Type 0 where
  pub groups : String → Option GroupRow
  pub members : String → String → Option Member
  pub invites : String → Option InviteCode
  pub cache : String → Option Group

pub record Config : Type 0 where
  pub enabled : Bool
  pub relay_url : String
  pub admin_pubkeys : List String
  pub allow_public_group_creation : Bool
  pub max_groups_per_user : ℕ
  pub default_privacy : Privacy
  pub invite_code_expiry : ℕ

-- What PostgreSQL, the clock and the random generator answer. A statement that fails may have been
-- executed all the same, if `lost` is true: then its answer was lost.
pub record Sql : Type 0 where
  pub lost : Bool
  pub now : ℕ
  pub fresh_id : String
  pub fresh_code : String
  pub counted : Option ℕ
  pub group_inserted : Bool
  pub group_deleted : Bool
  pub group_updated : Bool
  pub member_stored : Bool
  pub member_deleted : Bool
  pub invite_stored : Bool
  pub invite_read : Bool
  pub invite_used : Bool
  pub members_listed : Bool

pub data Error : Type 0 where
  group_not_found not_member invalid_invite group_limit_reached sql_error : Error

-- What a call returns, if it does not panic.
pub data Reply {ℓ} (A : Type ℓ) : Type ℓ where
  done : A → Reply A
  failed : Error → Reply A
  panicked : Reply A

abbrev pub set {ℓ} : {A : Type ℓ} → (String → A) → String → A → String → A
set f key value k = if k == key then value else f k

abbrev pub is_some {ℓ} : {A : Type ℓ} → Option A → Bool
is_some none = false
is_some (some a) = true

-- A message to the log with the first 8 bytes of each text.
unfoldable pub logged {ℓ} : {A : Type ℓ} → List String → A → Reply A
logged texts a = if any_of (λ s. ltb (len s) 8) texts then panicked else done a

-- CountGroupsByCreator against the limit: the error, if there is one.
unfoldable pub group_limit : Config → Sql → Option Error
group_limit cfg q =
    if ltb 0 cfg.max_groups_per_user
    then elim q.counted [
      | none ↦ some sql_error
      | some count ↦ if leb cfg.max_groups_per_user count then some group_limit_reached else none
    ]
    else none

unfoldable pub new_group : Config → Sql → String → String → Privacy → Group
new_group cfg q creator title level = record {
  row = record {
    name = title;
    picture = "";
    about = "";
    privacy = level;
    created_at = q.now;
    created_by = creator;
    relay_url = cfg.relay_url;
  };
  admins = set (λ p. none) creator (some "admin");
  members = set (λ p. false) creator true;
}

-- The insertions of CreateGroup and of the cache.
unfoldable pub insert_group : Sql → String → Group → Store → Reply Group × Store
unfolding logged
insert_group q creator g st =
    let inserted : Store = record st { groups = set st.groups q.fresh_id (some g.row) } in
    let first : Member = record { role = "admin"; joined_at = q.now; added_by = creator } in
    let both : Store = record inserted {
      members = set st.members q.fresh_id (set (st.members q.fresh_id) creator (some first));
    } in
    if is_some (st.groups q.fresh_id)
    then (failed sql_error, st)
    else if not q.group_inserted
    then (failed sql_error, if q.lost then inserted else st)
    else if is_some (st.members q.fresh_id creator)
    then (failed sql_error, inserted)
    else if not q.member_stored
    then (failed sql_error, if q.lost then both else inserted)
    else (
      logged (q.fresh_id ∷ creator ∷ []) g,
      record both { cache = set st.cache q.fresh_id (some g) },
    )

unfoldable pub create_unless : Option Error → Sql → String → Group → Store → Reply Group × Store
unfolding insert_group
create_unless (some e) q creator g st = (failed e, st)
create_unless none q creator g st = insert_group q creator g st

unfoldable pub create_group : Config → Sql → String → String → Privacy → Store → Reply Group × Store
unfolding group_limit new_group create_unless
create_group cfg q creator title level st =
    create_unless (group_limit cfg q) q creator (new_group cfg q creator title level) st

unfoldable pub get_group : Store → String → Option Group
get_group st id = st.cache id

unfoldable pub without_group : String → Option InviteCode → Option InviteCode
without_group id none = none
without_group id (some i) = if i.group_id == id then none else some i

unfoldable pub delete_group : Sql → String → Store → Reply (Unit {0}) × Store
unfolding logged without_group
delete_group q id st =
    let deleted : Store = record st {
      groups = set st.groups id none;
      members = set st.members id (λ p. none);
      invites = λ code. without_group id (st.invites code);
    } in
    if not q.group_deleted
    then (failed sql_error, if q.lost then deleted else st)
    else if not (is_some (st.groups id))
    then (failed group_not_found, st)
    else (logged (id ∷ []) tt, record deleted { cache = set st.cache id none })

pub record Metadata : Type 0 where
  pub name : String
  pub picture : String
  pub about : String
  pub privacy : Privacy

unfoldable pub with_metadata : Metadata → GroupRow → GroupRow
with_metadata m r = record r {
  name = m.name;
  picture = m.picture;
  about = m.about;
  privacy = m.privacy;
}

unfoldable pub updated_row : Metadata → Option GroupRow → Option GroupRow
unfolding with_metadata
updated_row m none = none
updated_row m (some r) = some (with_metadata m r)

unfoldable pub updated_group : Metadata → Option Group → Option Group
unfolding with_metadata
updated_group m none = none
updated_group m (some g) = some (record g { row = with_metadata m g.row })

unfoldable pub update_group_metadata : Sql → String → Metadata → Store → Reply (Unit {0}) × Store
unfolding updated_row updated_group
update_group_metadata q id m st =
    let updated : Store = record st { groups = set st.groups id (updated_row m (st.groups id)) } in
    if not q.group_updated
    then (failed sql_error, if q.lost then updated else st)
    else (done tt, record updated { cache = set st.cache id (updated_group m (st.cache id)) })
