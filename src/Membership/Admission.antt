-- ===== src/Membership/Admission.antt =====
-- Who may join (RejectJoinRequest and OnJoinRequestSaved of internal/membership/handler.go).
use cloistr_relay.Prelude.{
  ℕ, ◌≤◌, ◌<◌, ◌≡◌, ◌≢◌, ◌↔◌, ◌⊎◌, refl, Bool, true, false, Option, none, some, arith, nat_eq,
  string_eq, eq_iff,
}
use cloistr_relay.Nostr.{Event, accept}
use cloistr_relay.Membership.Join.{
  kind_join_request, Invite, Store, has_protected_tag, invite_code_of, is_valid_invite, is_member,
  Reads, check_invite, check_code, reject_join_request, Writes, on_join_request_saved, admit,
  add_member,
}

module _ (now : ℕ) (s : Store) (event : Event) where
  -- The invite has not expired, and has a use left if its uses are limited.
  abbrev pub IsUsable : Invite → Type 0
  IsUsable i =
      ((i.expires_at ≡ 0) ⊎ (now ≤ i.expires_at)) × ((i.max_uses ≡ 0) ⊎ (i.uses < i.max_uses))

  is_valid_invite-IsUsable : (i : Invite) → (is_valid_invite now i ≡ true) ↔ IsUsable i
  unfolding is_valid_invite
  is_valid_invite-IsUsable i = ground arith

  abbrev pub HasUsableInvite : Type 0
  HasUsableInvite =
      (invite_code_of event.tags ≢ "")
      × ((i : Invite) × (s.invites (invite_code_of event.tags) ≡ some i) × IsUsable i)

  check_invite-IsUsable :
      (x : Option Invite)
      → (check_invite now x ≡ accept) ↔ ((i : Invite) × (x ≡ some i) × IsUsable i)
  unfolding check_invite
  check_invite-IsUsable none =
      (λ h. absurd (ground (arith, h)), λ (i, e, u). absurd (ground (arith, e)))
  check_invite-IsUsable (some i) = (
    λ h. (i, refl, (is_valid_invite-IsUsable i).0 (ground (arith, h))),
    λ (j, e, u).
        let same : j ≡ i = cc in
        let valid = (is_valid_invite-IsUsable i).1 (rw same at u) in rw valid refl,
  )

  -- With its queries answered, a join request is accepted exactly if it carries the protected tag
  -- and a key, and the key is a member already, or it claims an invite that exists, has not expired
  -- and is not used up, or it claims none and the relay does not require one.
  pub reject_join_request-HasUsableInvite :
      (require_invite : Bool) (w : Reads)
      → event.kind ≡ kind_join_request
      → w.member_read ≡ true
      → w.invite_read ≡ true
      → (reject_join_request require_invite w now s event ≡ accept)
        ↔ (has_protected_tag event ≡ true)
          × (event.pubkey ≢ "")
          × ((is_member s event.pubkey ≡ true)
              ⊎ HasUsableInvite
              ⊎ (invite_code_of event.tags ≡ "") × (require_invite ≡ false))
  unfolding reject_join_request check_code
  reject_join_request-HasUsableInvite require w kind members invites = ground (
    arith,
    check_invite-IsUsable (s.invites (invite_code_of event.tags)),
    eq_iff event.pubkey "",
    eq_iff (invite_code_of event.tags) "",
  )

  -- What follows an accepted request does not look at its invite again: once the event is stored,
  -- its author becomes a free member whatever has become of the invite since.
  pub on_join_request_saved-unchecked :
      (w : Writes)
      → event.kind ≡ kind_join_request
      → w.member_checked ≡ true
      → w.member_added ≡ true
      → is_member s event.pubkey ≡ false
      → (on_join_request_saved w now s event).members event.pubkey
        ≡ some (record {
          pubkey = event.pubkey;
          joined_at = now;
          invite_code = invite_code_of event.tags;
          added_by = "";
          tier = "free";
          tier_expires_at = 0;
          lightning_address = "";
        })
  unfolding on_join_request_saved admit add_member
  on_join_request_saved-unchecked w kind checked added fresh =
      ground (arith, eq_iff event.pubkey event.pubkey)
