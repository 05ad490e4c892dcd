-- ===== src/Membership/Join.antt =====
-- internal/membership/handler.go, with the parts of types.go and store.go that it uses. The tables
-- nip43_members and nip43_invites are functions of their keys; times are seconds, and 0 is Go's zero
-- time. A query that fails is an argument: whether each call of the store succeeds.
use cloistr_relay.Prelude.{
  ℕ, ◌+◌, String, Bool, true, false, not, ◌&&◌, Option, none, some, List, [], ◌∷◌, ◌==◌, nat_eq,
  string_eq, any_of, ltb, leb, if◌then◌else◌,
}
use cloistr_relay.Nostr.{Tag, Event, text, Verdict, accept, reject}

abbrev pub kind_join_request : ℕ
kind_join_request = 28934

pub record Member : Type 0 where
  pub pubkey : String
  pub joined_at : ℕ
  pub invite_code : String
  pub added_by : String
  pub tier : String
  pub tier_expires_at : ℕ
  pub lightning_address : String

pub record Invite : Type 0 where
  pub code : String
  pub created_at : ℕ
  pub expires_at : ℕ
  pub max_uses : ℕ
  pub uses : ℕ
  pub created_by : String

pub record Store : Type 0 where
  pub members : String → Option Member
  pub invites : String → Option Invite

abbrev is_marker : Tag → Bool
is_marker [] = false
is_marker (name ∷ more) = name == "-"

unfoldable pub has_protected_tag : Event → Bool
has_protected_tag event = any_of is_marker event.tags

-- The claim of ParseJoinRequest, or "". The key is the event's.
unfoldable pub invite_code_of : List Tag → String
invite_code_of [] = ""
invite_code_of ((k ∷ v ∷ more) ∷ tags) =
    let rest = invite_code_of tags in if k == "claim" then v else rest
invite_code_of (_ ∷ tags) = invite_code_of tags

unfoldable pub is_valid_invite : ℕ → Invite → Bool
is_valid_invite now i =
    if not (i.expires_at == 0) && ltb i.expires_at now
    then false
    else if ltb 0 i.max_uses && leb i.max_uses i.uses
    then false
    else true

-- IsMember, GetInvite, UseInvite and AddMember.
abbrev is_some : {A : Type 0} → Option A → Bool
is_some none = false
is_some (some a) = true

unfoldable pub is_member : Store → String → Bool
is_member s pubkey = is_some (s.members pubkey)

unfoldable pub used : Option Invite → Option Invite
used none = none
used (some i) = some (record i { uses = i.uses + 1 })

unfoldable pub use_invite : String → Store → Store
use_invite code s = record s {
  invites = λ c. if c == code then used (s.invites c) else s.invites c;
}

-- A member without a tier is stored as a free one.
abbrev with_tier : Member → Member
with_tier m = record m { tier = if m.tier == "" then "free" else m.tier }

unfoldable pub add_member : Member → Store → Store
add_member m s = record s { members = λ p. if p == m.pubkey then some m else s.members p }

-- Whether the queries of RejectJoinRequest succeed.
pub record Reads : Type 0 where
  pub member_read : Bool
  pub invite_read : Bool

unfoldable pub check_invite : ℕ → Option Invite → Verdict
check_invite now none = reject (text "restricted: invalid invite code")
check_invite now (some i) =
    if is_valid_invite now i
    then accept
    else reject (text "restricted: invite code expired or fully used")

unfoldable pub check_code : Bool → Reads → ℕ → Store → String → Verdict
unfolding check_invite
check_code require_invite w now s code =
    if not (code == "")
    then (if not w.invite_read
        then reject (text "error: internal error validating invite")
        else check_invite now (s.invites code))
    else if require_invite
    then reject (text "restricted: an invite code is required to join this relay")
    else accept

unfoldable pub reject_join_request : Bool → Reads → ℕ → Store → Event → Verdict
reject_join_request require_invite w now s event =
    if not (event.kind == kind_join_request)
    then accept
    else if not (has_protected_tag event)
    then reject (text "restricted: join requests require the NIP-70 protected tag")
    else if event.pubkey == ""
    then reject (text "invalid: join request missing pubkey")
    else if not w.member_read
    then reject (text "error: internal error checking membership")
    else if is_member s event.pubkey
    then accept
    else check_code require_invite w now s (invite_code_of event.tags)

-- Whether the queries of OnJoinRequestSaved succeed.
pub record Writes : Type 0 where
  pub member_checked : Bool
  pub invite_used : Bool
  pub member_added : Bool

abbrev new_member : ℕ → Event → Member
new_member now event = record {
  pubkey = event.pubkey;
  joined_at = now;
  invite_code = invite_code_of event.tags;
  added_by = "";
  tier = "free";
  tier_expires_at = 0;
  lightning_address = "";
}

unfoldable pub consume : Writes → String → Store → Store
consume w code s = if not (code == "") && w.invite_used then use_invite code s else s

unfoldable pub admit : Writes → ℕ → Event → Store → Store
admit w now event s =
    let s' = consume w (invite_code_of event.tags) s in
    if w.member_added then add_member (new_member now event) s' else s'

-- The store after OnJoinRequestSaved. The notification of kind 8000 that it publishes is left out.
unfoldable pub on_join_request_saved : Writes → ℕ → Store → Event → Store
on_join_request_saved w now s event =
    if not (event.kind == kind_join_request)
    then s
    else if not w.member_checked
    then s
    else if is_member s event.pubkey
    then s
    else admit w now event s
